-- ===== src/Core/Config/Checks.antt =====
-- Each check of the validator (crates/matrix-core/src/config.rs) decides its part of the description.
use fw16_ledmatrix.Base.{
  ℕ, suc, ◌≤◌, ◌≡◌, ◌≢◌, ◌↔◌, inl, inr, Bool, true, false, not, ◌||◌, Option, none, some, List, [],
  ◌∷◌, ◌++◌, refl, arith, Text, length, all, All, In, text_eq, text_beq_iff, Bool-cases, ◌==◌, ltb,
  nat_eq, is_some_and,
}
use fw16_ledmatrix.Core.Assistant.{safe_id, safe_byte}
use fw16_ledmatrix.Core.Brightness.{Brightness, valid}
use fw16_ledmatrix.Core.Layout.{
  Template, Presentation, Source, Widget, PanelLayout, presentations, source_eq, presentation_eq,
  presentation_beq_iff,
}
use fw16_ledmatrix.Core.Config.Defs.{
  errors_if, seen, override_rejected, binding_malformed, name_malformed, slots_rejected,
  widget_rejected, slot_errors, xor,
}
use fw16_ledmatrix.Core.Config.Spec.{OnSome, IsLimits, IsIdByte, IsId, FitsSlot, FitSlots}

pub errors_if-nil : (b : Bool) (f m : Text) → (errors_if b f m ≡ []) ↔ (b ≡ false)
unfolding errors_if
errors_if-nil true f m = (λ h. cc, λ h. cc)
errors_if-nil false f m = (λ _. refl, λ _. refl)

pub append-nil_iff : {A : Type 0} (xs ys : List A) → (xs ++ ys ≡ []) ↔ ((xs ≡ []) × (ys ≡ []))
append-nil_iff [] ys = (λ h. (refl, h), λ h. h.1)
append-nil_iff (x ∷ xs) ys = (λ h. cc, λ h. cc h.0)

pub valid-IsLimits : (b : Brightness) → (valid b ≡ true) ↔ IsLimits b
unfolding valid
valid-IsLimits b = ground arith

safe_byte-IsIdByte : (b : ℕ) → (safe_byte b ≡ true) ↔ IsIdByte b
unfolding safe_byte
safe_byte-IsIdByte b = ground arith

all_safe-All : (id : Text) → (all safe_byte id ≡ true) ↔ All IsIdByte id
all_safe-All [] = (λ _. tt, λ _. refl)
all_safe-All (b ∷ bs) = (
  λ h. ground (arith, safe_byte-IsIdByte b, all_safe-All bs),
  λ h. ground (arith, safe_byte-IsIdByte b, all_safe-All bs),
)

pub safe_id-IsId : (id : Text) → (safe_id id ≡ true) ↔ IsId id
unfolding safe_id
safe_id-IsId [] = (λ h. cc, λ h. absurd (omega arith))
safe_id-IsId (b ∷ bs) =
    (λ h. ground (arith, all_safe-All (b ∷ bs)), λ h. ground (arith, all_safe-All (b ∷ bs)))

pub seen-In : (t : Text) (xs : List Text) → (seen t xs ≡ true) ↔ In t xs
unfolding seen
seen-In t [] = (λ h. cc, λ m. absurd m)
seen-In t (x ∷ xs) = (
  λ h. ground (arith, text_beq_iff x t, seen-In t xs),
  λ h. ground (arith, text_beq_iff x t, seen-In t xs),
)

pub seen-not_In : (t : Text) (xs : List Text) → (seen t xs ≡ false) ↔ (¬ In t xs)
seen-not_In t xs = elim (Bool-cases (seen t xs)) [
  | inl e ↦ (λ h. cc (e, h), λ h. absurd (h ((seen-In t xs).0 e)))
  | inr e ↦ (λ _ m. cc (e, (seen-In t xs).1 m), λ _. e)
]

-- An optional part is checked when it is there.
pub OnSome-iff :
    {A : Type 0} (P : A → Type 0) (f : A → Bool)
    → ((a : A) → (f a ≡ false) ↔ P a)
    → (o : Option A) → (is_some_and o f ≡ false) ↔ OnSome P o
OnSome-iff P f h none = (λ _. tt, λ _. refl)
OnSome-iff P f h (some a) = h a

pub not-false_iff : (b : Bool) → (not b ≡ false) ↔ (b ≡ true)
not-false_iff true = (λ _. refl, λ _. refl)
not-false_iff false = (λ h. cc, λ h. cc)

pub override_rejected-false :
    (p : PanelLayout) → (override_rejected p ≡ false) ↔ OnSome IsLimits p.brightness_override
unfolding override_rejected
override_rejected-false p =
    OnSome-iff IsLimits (λ b. not (valid b))
      (λ b. ground (arith, not-false_iff (valid b), valid-IsLimits b)) p.brightness_override

pub slots_rejected-false :
    (p : PanelLayout)
    → (slots_rejected p ≡ false) ↔ (length p.slots ≡ length (presentations p.template))
unfolding slots_rejected
slots_rejected-false p = ground arith

pub binding_malformed-false :
    (b : Text) → (binding_malformed b ≡ false) ↔ ((1 ≤ length b) × (length b ≤ 1024))
unfolding binding_malformed
binding_malformed-false [] = (λ h. cc, λ h. absurd (omega arith))
binding_malformed-false (b ∷ bs) = ground arith

pub name_malformed-false :
    (n : Text) → (name_malformed n ≡ false) ↔ ((1 ≤ length n) × (length n ≤ 32))
unfolding name_malformed
name_malformed-false [] = (λ h. cc, λ h. absurd (omega arith))
name_malformed-false (b ∷ bs) = ground arith

-- What the widget check accepts, each part.
presentation_check :
    (o : Option Presentation) (p : Presentation)
    → (is_some_and o (λ q. q == p) ≡ true) ↔ (o ≡ some p)
presentation_check none p = (λ h. cc, λ h. cc)
presentation_check (some q) p =
    (λ h. ground (arith, presentation_beq_iff q p), λ h. ground (arith, presentation_beq_iff q p))

clock_check :
    (s : Source) (p : Presentation)
    → (xor (s == Source.clock) (p == Presentation.clock) ≡ false)
      ↔ ((s ≡ Source.clock) ↔ (p ≡ Presentation.clock))
clock_check s p = ground arith

pub or-false_iff : (a b : Bool) → (a || b ≡ false) ↔ ((a ≡ false) × (b ≡ false))
or-false_iff true b = (λ h. cc, λ h. cc h.0)
or-false_iff false b = (λ h. (refl, h), λ h. h.1)

session_check : (o : Option Text) → (is_some_and o (λ id. not (safe_id id)) ≡ false) ↔ OnSome IsId o
session_check =
    OnSome-iff IsId (λ id. not (safe_id id))
      (λ id. ground (arith, not-false_iff (safe_id id), safe_id-IsId id))

dark_check : (o : Option ℕ) → (is_some_and o (λ i. i == 0) ≡ false) ↔ OnSome (λ i. i ≢ 0) o
dark_check = OnSome-iff (λ i. i ≢ 0) (λ i. i == 0) (λ i. ground arith)

threshold_check :
    (o : Option ℕ) → (is_some_and o (λ t. ltb 100 t) ≡ false) ↔ OnSome (λ t. t ≤ 100) o
threshold_check = OnSome-iff (λ t. t ≤ 100) (λ t. ltb 100 t) (λ t. ground arith)

pub widget_rejected-false :
    (template : Template) (s : ℕ) (w : Widget)
    → (widget_rejected template s w ≡ false) ↔ FitsSlot template s w
unfolding widget_rejected
widget_rejected-false template s w = (
  λ h.
      let h1 = (or-false_iff _ _).0 h in
      let h2 = (or-false_iff _ _).0 h1.1 in
      let h3 = (or-false_iff _ _).0 h2.1 in
      let h4 = (or-false_iff _ _).0 h3.1 in
      record {
        presentation_fits = (presentation_check _ _).0 ((not-false_iff _).0 h1.0);
        not_dark = (dark_check w.intensity).0 h2.0;
        safe_session = (session_check w.session_id).0 h3.0;
        threshold_percent = (threshold_check w.warning_threshold).0 h4.0;
        clock_shows_clock = (clock_check w.source w.presentation).0 h4.1;
      },
  λ f. (or-false_iff _ _).1 (
    (not-false_iff _).1 ((presentation_check _ _).1 f.presentation_fits),
    (or-false_iff _ _).1 (
      (dark_check w.intensity).1 f.not_dark,
      (or-false_iff _ _).1 (
        (session_check w.session_id).1 f.safe_session,
        (or-false_iff _ _).1 (
          (threshold_check w.warning_threshold).1 f.threshold_percent,
          (clock_check w.source w.presentation).1 f.clock_shows_clock,
        ),
      ),
    ),
  ),
)

pub slot_errors-nil :
    (p : ℕ) (template : Template) (s : ℕ) (slots : List (Option Widget))
    → (slot_errors p template s slots ≡ []) ↔ FitSlots template s slots
unfolding slot_errors
slot_errors-nil p template s [] = (λ _. tt, λ _. refl)
slot_errors-nil p template s (none ∷ slots) =
    let rest = slot_errors-nil p template (suc s) slots in (λ h. (tt, rest.0 h), λ h. rest.1 h.1)
slot_errors-nil p template s (some w ∷ slots) =
    let rest = slot_errors-nil p template (suc s) slots in
    let this = widget_rejected-false template s w in
    (
      λ h.
          let both = (append-nil_iff _ _).0 h in
          (this.0 ((errors_if-nil _ _ _).0 both.0), rest.0 both.1),
      λ h. (append-nil_iff _ _).1 ((errors_if-nil _ _ _).1 (this.1 h.0), rest.1 h.1),
    )
