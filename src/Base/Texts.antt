-- ===== src/Base/Texts.antt =====
-- Rust's `String` and `&str`: the UTF-8 bytes. Equality and order are those of the bytes.
use Prim.Native.Nat.{ℕ, zero, suc, ◌+◌, ◌/◌, ◌%◌, compare, Ordering}
use Prim.Native.Char.{code}
use Prim.Native.String.{String}
use mathlib.Core.Path.{◌≡◌, refl, ap}
use mathlib.Core.Logic.{◌↔◌}
use mathlib.Core.Bool.{Bool, true, false, ◌&&◌, ◌||◌}
use mathlib.Core.Option.{Option, none, some}
use mathlib.Core.List.{List, [], ◌∷◌, ◌++◌}
use native.Mathlib.Omega.{arith}
use fw16_ledmatrix.Base.Tests.{leb, ltb, nat_beq, PartialEq, if◌then◌else◌}

abbrev pub Text : Type 0
Text = List ℕ

unfoldable pub utf8_char : ℕ → List ℕ
utf8_char c =
    if ltb c 0x80
    then c ∷ []
    else if ltb c 0x800
    then (0xc0 + c / 64) ∷ (0x80 + c % 64) ∷ []
    else if ltb c 0x10000
    then (0xe0 + c / 4096) ∷ (0x80 + c / 64 % 64) ∷ (0x80 + c % 64) ∷ []
    else (0xf0 + c / 262144) ∷ (0x80 + c / 4096 % 64) ∷ (0x80 + c / 64 % 64) ∷ (0x80 + c % 64) ∷ []

unfoldable pub utf8 : String → Text
unfolding utf8_char
utf8 String.[] = []
utf8 (String.◌∷◌ c s) = utf8_char (code c) ++ utf8 s

-- `format!("{n}")`: with n + 1 of fuel a number is printed whole.
decimal_fuel : ℕ → ℕ → Text → Text
decimal_fuel zero n acc = acc
decimal_fuel (suc f) n acc =
    let more = decimal_fuel f (n / 10) ((b'0' + n % 10) ∷ acc) in
    if ltb n 10 then (b'0' + n) ∷ acc else more

unfoldable pub decimal : ℕ → Text
unfolding decimal_fuel
decimal n = decimal_fuel (suc n) n []

abbrev pub text_beq : Text → Text → Bool
text_beq [] [] = true
text_beq [] (y ∷ ys) = false
text_beq (x ∷ xs) [] = false
text_beq (x ∷ xs) (y ∷ ys) = nat_beq x y && text_beq xs ys

pub text_beq_iff : (a b : Text) → (text_beq a b ≡ true) ↔ (a ≡ b)
text_beq_iff [] [] = (λ _. refl, λ _. refl)
text_beq_iff [] (y ∷ ys) = (λ h. cc, λ h. cc)
text_beq_iff (x ∷ xs) [] = (λ h. cc, λ h. cc)
text_beq_iff (x ∷ xs) (y ∷ ys) =
    (λ h. ground (arith, text_beq_iff xs ys), λ h. ground (arith, text_beq_iff xs ys))

instance abbrev pub text_eq : PartialEq Text
text_eq = record { same-iff = text_beq_iff; same = text_beq }

-- `Option<String>` compares by its content.
abbrev pub option_text_beq : Option Text → Option Text → Bool
option_text_beq none none = true
option_text_beq none (some y) = false
option_text_beq (some x) none = false
option_text_beq (some x) (some y) = text_beq x y

pub option_text_beq_iff : (a b : Option Text) → (option_text_beq a b ≡ true) ↔ (a ≡ b)
option_text_beq_iff none none = (λ _. refl, λ _. refl)
option_text_beq_iff none (some y) = (λ h. cc, λ h. cc)
option_text_beq_iff (some x) none = (λ h. cc, λ h. cc)
option_text_beq_iff (some x) (some y) =
    (λ h. ap some ((text_beq_iff x y).0 h), λ h. ground (arith, text_beq_iff x y))

instance abbrev pub option_text_eq : PartialEq (Option Text)
option_text_eq = record { same-iff = option_text_beq_iff; same = option_text_beq }

-- `Ord` of texts: the bytes in lexicographic order, a prefix first.
abbrev pub text_compare : Text → Text → Ordering
text_compare [] [] = Ordering.eq
text_compare [] (y ∷ ys) = Ordering.lt
text_compare (x ∷ xs) [] = Ordering.gt
text_compare (x ∷ xs) (y ∷ ys) = elim (compare x y) [
  | Ordering.lt ↦ Ordering.lt
  | Ordering.eq ↦ text_compare xs ys
  | Ordering.gt ↦ Ordering.gt
]

-- `u8::is_ascii_alphanumeric`.
abbrev pub is_ascii_alphanumeric : ℕ → Bool
is_ascii_alphanumeric b =
    (leb b'0' b && leb b b'9') || (leb b'A' b && leb b b'Z') || (leb b'a' b && leb b b'z')
