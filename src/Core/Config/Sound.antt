-- ===== src/Core/Config/Sound.antt =====
-- The validator (crates/matrix-core/src/config.rs) accepts exactly the configurations that the
-- description allows.
use fw16_ledmatrix.Base.{
  ℕ, suc, ◌≤◌, ◌≡◌, ◌≢◌, ◌↔◌, inl, inr, false, ◌||◌, Option, none, some, List, [], ◌∷◌, refl, sym,
  subst, arith, nat_beq, nat_beq_iff, Text, length, All, In,
}
use fw16_ledmatrix.Core.Layout.{PanelLayout}
use fw16_ledmatrix.Core.Config.Defs.{
  Config, panel_errors, panels_errors, validate, count_rejected, insert, insert_name,
  insert_binding, seen, binding_malformed, name_rejected, binding_rejected,
}
use fw16_ledmatrix.Core.Config.Spec.{OnSome, Distinct, IsValidPanel, IsValidConfig, bound, names_of}
use fw16_ledmatrix.Core.Config.Checks.{
  errors_if-nil, append-nil_iff, valid-IsLimits, seen-not_In, override_rejected-false,
  slots_rejected-false, binding_malformed-false, name_malformed-false, slot_errors-nil, OnSome-iff,
  or-false_iff, not-false_iff,
}

abbrev NotIn : List Text → Text → Type 0
NotIn xs t = ¬ In t xs

-- What one round of the outer loop checks, with the texts that were seen before it.
record Round (names bindings : List Text) (p : PanelLayout) : Type 0 where
  valid_panel : IsValidPanel p
  new_name : NotIn names p.name
  new_binding : OnSome (NotIn bindings) p.binding

name_rejected-false :
    (names : List Text) (p : PanelLayout)
    → (name_rejected names p ≡ false)
      ↔ (((1 ≤ length p.name) × (length p.name ≤ 32)) × NotIn names p.name)
unfolding name_rejected
name_rejected-false names p = (
  λ h.
      let both = (or-false_iff _ _).0 h in
      ((name_malformed-false p.name).0 both.0, (seen-not_In p.name names).0 both.1),
  λ h. (or-false_iff _ _).1 ((name_malformed-false p.name).1 h.0, (seen-not_In p.name names).1 h.1),
)

abbrev NewBinding : List Text → Text → Type 0
NewBinding bindings b = ((1 ≤ length b) × (length b ≤ 1024)) × NotIn bindings b

binding_rejected-false :
    (bindings : List Text) (p : PanelLayout)
    → (binding_rejected bindings p ≡ false) ↔ OnSome (NewBinding bindings) p.binding
unfolding binding_rejected
binding_rejected-false bindings p =
    OnSome-iff (NewBinding bindings) (λ b. binding_malformed b || seen b bindings)
      (λ b. (
        λ h.
            let both = (or-false_iff _ _).0 h in
            ((binding_malformed-false b).0 both.0, (seen-not_In b bindings).0 both.1),
        λ h.
            (or-false_iff _ _).1
              ((binding_malformed-false b).1 h.0, (seen-not_In b bindings).1 h.1),
      ))
      p.binding

-- The texts of a list are new and no two of them are the same.
abbrev AreNew : List Text → List Text → Type 0
AreNew seen_before xs = All (NotIn seen_before) xs × Distinct xs

All-NotIn-cons :
    (n : Text) (names xs : List Text)
    → All (NotIn (n ∷ names)) xs ↔ (All (NotIn names) xs × NotIn xs n)
All-NotIn-cons n names [] = (λ _. (tt, λ m. m), λ _. tt)
All-NotIn-cons n names (x ∷ xs) =
    let rest = All-NotIn-cons n names xs in
    (
      λ h. (
        (λ m. h.0 (inr m), (rest.0 h.1).0),
        elim [ inl e ↦ h.0 (inl (sym e)) | inr m ↦ (rest.0 h.1).1 m ],
      ),
      λ h. (elim [ inl e ↦ h.1 (inl (sym e)) | inr m ↦ h.0.0 m ], rest.1 (h.0.1, λ m. h.1 (inr m))),
    )

AreNew-cons :
    (n : Text) (names xs : List Text)
    → (NotIn names n × AreNew (n ∷ names) xs) ↔ AreNew names (n ∷ xs)
AreNew-cons n names xs =
    let move = All-NotIn-cons n names xs in
    (
      λ h. ((h.0, (move.0 h.1.0).0), ((move.0 h.1.0).1, h.1.1)),
      λ h. (h.0.0, (move.1 (h.0.1, h.1.0), h.1.1)),
    )

insert_name-new :
    (n : Text) (names : List Text)
    → (1 ≤ length n) × (length n ≤ 32)
    → NotIn names n
    → insert_name n names ≡ n ∷ names
unfolding insert_name insert
insert_name-new n names size fresh =
    ground (arith, (name_malformed-false n).1 size, (seen-not_In n names).1 fresh)

insert_binding-new :
    (b : Text) (bindings : List Text)
    → (1 ≤ length b) × (length b ≤ 1024)
    → NotIn bindings b
    → insert_binding (some b) bindings ≡ b ∷ bindings
unfolding insert_binding insert
insert_binding-new b bindings size fresh =
    ground (arith, (binding_malformed-false b).1 size, (seen-not_In b bindings).1 fresh)

abbrev with_binding : Option Text → List Text → List Text
with_binding o xs = elim o [ none ↦ xs | some b ↦ b ∷ xs ]

AreNew-binding :
    (o : Option Text) (bindings xs : List Text)
    → OnSome (λ b. (1 ≤ length b) × (length b ≤ 1024)) o
    → (OnSome (NotIn bindings) o × AreNew (insert_binding o bindings) xs)
      ↔ AreNew bindings (with_binding o xs)
unfolding insert_binding
AreNew-binding none bindings xs size = (λ h. h.1, λ h. (tt, h))
AreNew-binding (some b) bindings xs size =
    let move = AreNew-cons b bindings xs in
    (
      λ h. move.0 (h.0, subst (λ s. AreNew s xs) (insert_binding-new b bindings size h.0) h.1),
      λ h.
          let back = move.1 h in
          (
            back.0,
            subst (λ s. AreNew s xs) (sym (insert_binding-new b bindings size back.0)) back.1,
          ),
    )

split_binding :
    (bindings : List Text) (o : Option Text)
    → OnSome (NewBinding bindings) o
      ↔ (OnSome (λ b. (1 ≤ length b) × (length b ≤ 1024)) o × OnSome (NotIn bindings) o)
split_binding bindings none = (λ _. (tt, tt), λ _. tt)
split_binding bindings (some b) = (λ h. (h.0, h.1), λ h. (h.0, h.1))

panel_errors-Round :
    (i : ℕ) (names bindings : List Text) (p : PanelLayout)
    → (panel_errors i names bindings p ≡ []) ↔ Round names bindings p
unfolding panel_errors
panel_errors-Round i names bindings p = (
  λ h.
      let h0 = (append-nil_iff _ _).0 h in
      let h1 = (append-nil_iff _ _).0 h0.1 in
      let h2 = (append-nil_iff _ _).0 h1.1 in
      let h3 = (append-nil_iff _ _).0 h2.1 in
      let binding =
        (split_binding bindings p.binding).0
          ((binding_rejected-false bindings p).0 ((errors_if-nil _ _ _).0 h1.0)) in
      let name = (name_rejected-false names p).0 ((errors_if-nil _ _ _).0 h2.0) in
      record {
        valid_panel = record {
          limits = (override_rejected-false p).0 ((errors_if-nil _ _ _).0 h0.0);
          binding_size = binding.0;
          name_size = name.0;
          slot_count = (slots_rejected-false p).0 ((errors_if-nil _ _ _).0 h3.0);
          slots_fit = (slot_errors-nil i p.template 0 p.slots).0 h3.1;
        };
        new_name = name.1;
        new_binding = binding.1;
      },
  λ r.
      let v = r.valid_panel in
      (append-nil_iff _ _).1 (
        (errors_if-nil _ _ _).1 ((override_rejected-false p).1 v.limits),
        (append-nil_iff _ _).1 (
          (errors_if-nil _ _ _).1 (
              (binding_rejected-false bindings p).1
                ((split_binding bindings p.binding).1 (v.binding_size, r.new_binding))),
          (append-nil_iff _ _).1 (
            (errors_if-nil _ _ _).1 ((name_rejected-false names p).1 (v.name_size, r.new_name)),
            (append-nil_iff _ _).1 (
              (errors_if-nil _ _ _).1 ((slots_rejected-false p).1 v.slot_count),
              (slot_errors-nil i p.template 0 p.slots).1 v.slots_fit,
            ),
          ),
        ),
      ),
)

-- The panels that the loop accepts after it has seen these names and bindings.
record Rounds (names bindings : List Text) (ps : List PanelLayout) : Type 0 where
  each : All IsValidPanel ps
  new_names : AreNew names (names_of ps)
  new_bindings : AreNew bindings (bound ps)

panels_errors-Rounds :
    (i : ℕ) (names bindings : List Text) (ps : List PanelLayout)
    → (panels_errors i names bindings ps ≡ []) ↔ Rounds names bindings ps
unfolding panels_errors
panels_errors-Rounds i names bindings [] =
    (λ _. record { each = tt; new_names = (tt, tt); new_bindings = (tt, tt) }, λ _. refl)
panels_errors-Rounds i names bindings (p ∷ ps) =
    let rest =
      panels_errors-Rounds (suc i) (insert_name p.name names) (insert_binding p.binding bindings)
        ps in
    let this = panel_errors-Round i names bindings p in
    (
      λ h.
          let both = (append-nil_iff _ _).0 h in
          let r = this.0 both.0 in
          let rs = rest.0 both.1 in
          record {
            each = (r.valid_panel, rs.each);
            new_names = (AreNew-cons p.name names (names_of ps)).0 (
              r.new_name,
              subst (λ s. AreNew s (names_of ps))
                  (insert_name-new p.name names r.valid_panel.name_size r.new_name) rs.new_names,
            );
            new_bindings =
                (AreNew-binding p.binding bindings (bound ps) r.valid_panel.binding_size).0
                  (r.new_binding, rs.new_bindings);
          },
      λ rs.
          let v = rs.each.0 in
          let name = (AreNew-cons p.name names (names_of ps)).1 rs.new_names in
          let binding =
            (AreNew-binding p.binding bindings (bound ps) v.binding_size).1 rs.new_bindings in
          (append-nil_iff _ _).1 (
            this.1 (record { valid_panel = v; new_name = name.0; new_binding = binding.0 }),
            rest.1 (record {
              each = rs.each.1;
              new_names =
                  subst (λ s. AreNew s (names_of ps))
                    (sym (insert_name-new p.name names v.name_size name.0)) name.1;
              new_bindings = binding.1;
            }),
          ),
    )

All-NotIn-nil : (xs : List Text) → All (NotIn []) xs
All-NotIn-nil [] = tt
All-NotIn-nil (x ∷ xs) = (λ m. m, All-NotIn-nil xs)

count_rejected-false :
    (ps : List PanelLayout) → (count_rejected ps ≡ false) ↔ ((1 ≤ length ps) × (length ps ≤ 2))
unfolding count_rejected
count_rejected-false ps = ground arith

lit_check : (n : ℕ) → (nat_beq n 0 ≡ false) ↔ (n ≢ 0)
lit_check n = ground arith

-- A configuration passes validation exactly when it meets the description: the global limits are in
-- order, the schema is 2, the clock is lit, there are one or two panels, each panel is valid, and no
-- two panels share a name or a binding.
pub validate-IsValidConfig : (c : Config) → (validate c ≡ []) ↔ IsValidConfig c
unfolding validate
validate-IsValidConfig c =
    let loop = panels_errors-Rounds 0 [] [] c.panels in
    (
      λ h.
          let h0 = (append-nil_iff _ _).0 h in
          let h1 = (append-nil_iff _ _).0 h0.1 in
          let h2 = (append-nil_iff _ _).0 h1.1 in
          let h3 = (append-nil_iff _ _).0 h2.1 in
          let rs = loop.0 h3.1 in
          record {
            global_limits =
                (valid-IsLimits c.brightness).0
                  ((not-false_iff _).0 ((errors_if-nil _ _ _).0 h0.0));
            schema = (nat_beq_iff _ _).0 ((not-false_iff _).0 ((errors_if-nil _ _ _).0 h1.0));
            clock_lit = (lit_check c.clock_intensity).0 ((errors_if-nil _ _ _).0 h2.0);
            one_or_two = (count_rejected-false c.panels).0 ((errors_if-nil _ _ _).0 h3.0);
            each_panel = rs.each;
            names_distinct = rs.new_names.1;
            bindings_distinct = rs.new_bindings.1;
          },
      λ v. (append-nil_iff _ _).1 (
        (errors_if-nil _ _ _).1
            ((not-false_iff _).1 ((valid-IsLimits c.brightness).1 v.global_limits)),
        (append-nil_iff _ _).1 (
          (errors_if-nil _ _ _).1 ((not-false_iff _).1 ((nat_beq_iff _ _).1 v.schema)),
          (append-nil_iff _ _).1 (
            (errors_if-nil _ _ _).1 ((lit_check c.clock_intensity).1 v.clock_lit),
            (append-nil_iff _ _).1 (
              (errors_if-nil _ _ _).1 ((count_rejected-false c.panels).1 v.one_or_two),
              loop.1 (record {
                each = v.each_panel;
                new_names = (All-NotIn-nil _, v.names_distinct);
                new_bindings = (All-NotIn-nil _, v.bindings_distinct);
              }),
            ),
          ),
        ),
      ),
    )
