-- ===== src/Daemon/Power/Mains.antt =====
-- The mains in crates/matrix-daemon/src/power.rs: what `online` files say, in whatever order the
-- directory lists them.
use fw16_ledmatrix.Base.{
  ℕ, ◌≡◌, ◌≢◌, refl, sym, ap, ◌∙◌, arith, Bool, true, false, not, ◌&&◌, ◌||◌, Option, none, some,
  List, [], ◌∷◌, Text, utf8, text_eq, text_beq, text_beq_iff, ◌==◌, if◌then◌else◌, is_some, any,
  Bool-cases, inl, inr, unwrap_or, subst, is_some_and,
}
use fw16_ledmatrix.Base.Trim.{trim}
use fw16_ledmatrix.Client.Messages.{PowerStatus}
use fw16_ledmatrix.Daemon.Feeds.{sort, insert_sorted}
use fw16_ledmatrix.Daemon.Power.{
  Supplies, Found, kind_of, is_mains, online, look_at, look_through, look_at_all, entry_before,
  battery_reading, reading_of, read_names, read_linux, unavailable,
}

-- The three kinds of supply that are the mains, written out as bytes.
abbrev pub mains_kinds : List Text
mains_kinds =
    (b'M' ∷ b'a' ∷ b'i' ∷ b'n' ∷ b's' ∷ [])
    ∷ (b'U' ∷ b'S' ∷ b'B' ∷ [])
    ∷ (b'U' ∷ b'S' ∷ b'B' ∷ b'_' ∷ b'C' ∷ [])
    ∷ []

-- A supply of one of these kinds whose `online` file holds the value.
abbrev pub says : Supplies → Text → Text → Bool
says s value name =
    any (λ k. text_beq k (kind_of s name)) mains_kinds
    && is_some_and (s.read name (utf8 "online")) (λ v. trim v == value)

is_mains_iff : (kind : Text) → is_mains kind ≡ any (λ k. text_beq k kind) mains_kinds
unfolding is_mains utf8
is_mains_iff kind = refl

-- On if any supply says so, else off if any says so, and else unknown.
abbrev pub state : Bool → Bool → Option Bool
state on off = if on then some true else if off then some false else none

abbrev pub on_text : Text
on_text = b'1' ∷ []

abbrev pub off_text : Text
off_text = b'0' ∷ []

battery_not_mains : (kind : Text) → text_beq kind (utf8 "Battery") ≡ true → is_mains kind ≡ false
unfolding is_mains utf8
battery_not_mains kind h =
    subst (λ k. is_mains k ≡ false) (sym ((text_beq_iff kind (utf8 "Battery")).0 h)) refl

merge_state :
    (on off : Bool) (ac : Option Bool)
    → (if on then some true else if off && not (unwrap_or ac false) then some false else ac)
      ≡ state (on || unwrap_or ac false) (off || is_some ac)
merge_state on off ac = ground arith

online-state :
    (o : Option Text) (ac : Option Bool)
    → online o ac
      ≡ state
          (is_some_and o (λ v. text_beq (trim v) on_text) || unwrap_or ac false)
          (is_some_and o (λ v. text_beq (trim v) off_text) || is_some ac)
unfolding online utf8
online-state none none = refl
online-state none (some true) = refl
online-state none (some false) = refl
online-state (some v) ac = merge_state (text_beq (trim v) on_text) (text_beq (trim v) off_text) ac

state_same : (ac : Option Bool) → ac ≡ state (unwrap_or ac false) (is_some ac)
state_same ac = ground arith

look_at-state :
    (s : Supplies) (name : Text) (f : Found)
    → (look_at s name f).ac
      ≡ state (says s on_text name || unwrap_or f.ac false) (says s off_text name || is_some f.ac)
unfolding look_at
look_at-state s name f = elim (Bool-cases (is_mains (kind_of s name))) [
  | inl m ↦ elim (Bool-cases (text_beq (kind_of s name) (utf8 "Battery"))) [
    | inl b ↦ absurd (cc (m, battery_not_mains (kind_of s name) b))
    | inr b ↦
        rw (m, b, sym (is_mains_iff (kind_of s name)) ∙ m)
          (online-state (s.read name (utf8 "online")) f.ac)
  ]
  | inr m ↦ ground (arith, m, sym (is_mains_iff (kind_of s name)) ∙ m, state_same f.ac)
]

state_join :
    (a b : Bool) (on off : Bool)
    → state (on || unwrap_or (state a b) false) (off || is_some (state a b))
      ≡ state (on || a) (off || b)
state_join a b on off = ground arith

state_swap :
    (a b c d : Bool) (ac : Option Bool)
    → state (a || (b || unwrap_or ac false)) (c || (d || is_some ac))
      ≡ state ((b || a) || unwrap_or ac false) ((d || c) || is_some ac)
state_swap a b c d ac = ground arith

look_through-state :
    (s : Supplies) (names : List Text) (f : Found)
    → (look_through s names f).ac
      ≡ state
          (any (says s on_text) names || unwrap_or f.ac false)
          (any (says s off_text) names || is_some f.ac)
unfolding look_through
look_through-state s [] f = ground arith
look_through-state s (name ∷ names) f =
    let ih = look_through-state s names (look_at s name f) in
    subst
      (λ o.
        (look_through s names (look_at s name f)).ac
        ≡ state (any (says s on_text) names || unwrap_or o false)
            (any (says s off_text) names || is_some o))
      (look_at-state s name f) ih
    ∙ state_join (says s on_text name || unwrap_or f.ac false)
        (says s off_text name || is_some f.ac) (any (says s on_text) names)
        (any (says s off_text) names)
    ∙ state_swap (any (says s on_text) names) (says s on_text name) (any (says s off_text) names)
        (says s off_text name) f.ac

any-insert_sorted :
    (t : Text → Bool) (x : Text) (xs : List Text)
    → any t (insert_sorted entry_before x xs) ≡ (t x || any t xs)
unfolding insert_sorted
any-insert_sorted t x [] = refl
any-insert_sorted t x (y ∷ ys) = ground (arith, any-insert_sorted t x ys)

any-sort : (t : Text → Bool) (xs : List Text) → any t (sort entry_before xs) ≡ any t xs
unfolding sort
any-sort t [] = refl
any-sort t (x ∷ xs) =
    any-insert_sorted t x (sort entry_before xs) ∙ ap (λ b. t x || b) (any-sort t xs)

battery_ac :
    (s : Supplies) (now name : Text) (ac : Option Bool) (p : Option ℕ)
    → (battery_reading s now name ac p).status ≢ PowerStatus.error
    → (battery_reading s now name ac p).ac ≡ ac
unfolding battery_reading unavailable
battery_ac s now name ac none h = absurd (h refl)
battery_ac s now name ac (some p) h = refl

reading_ac :
    (s : Supplies) (now : Text) (ac : Option Bool) (b : Option Text)
    → (reading_of s now ac b).status ≢ PowerStatus.error
    → (reading_of s now ac b).ac ≡ ac
unfolding reading_of
reading_ac s now ac none h = refl
reading_ac s now ac (some name) h = battery_ac s now name ac _ h

look_at_all-state :
    (s : Supplies) (names : List Text)
    → (look_at_all s names).ac ≡ state (any (says s on_text) names) (any (says s off_text) names)
unfolding look_at_all
look_at_all-state s names =
    look_through-state s (sort entry_before names) (record { ac = none; battery = none })
    ∙ ground (arith, any-sort (says s on_text) names, any-sort (says s off_text) names)

-- Unless the reading is an error, its mains do not depend on the order in which the directory lists the
-- supplies: they are on if the `online` file of any Mains, USB or USB_C supply holds 1, otherwise off if
-- one holds 0, and otherwise unknown.
pub read_linux-ac :
    (s : Supplies) (now : Text) (names : List Text)
    → s.names ≡ some names
    → (read_linux s now).status ≢ PowerStatus.error
    → (read_linux s now).ac ≡ state (any (says s on_text) names) (any (says s off_text) names)
unfolding read_linux read_names
read_linux-ac s now names e h =
    subst
      (λ o.
        (read_names s now o).status ≢ PowerStatus.error
        → (read_names s now o).ac
          ≡ state (any (says s on_text) names) (any (says s off_text) names))
      (sym e)
      (λ k.
        reading_ac s now (look_at_all s names).ac (look_at_all s names).battery k
        ∙ look_at_all-state s names)
      h
