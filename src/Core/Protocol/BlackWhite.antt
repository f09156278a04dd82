-- ===== src/Core/Protocol/BlackWhite.antt =====
-- `bw` of crates/matrix-core/src/protocol.rs: one bit for each pixel, the lowest bit first.
use Prim.Native.Nat.{bit_or}
use fw16_ledmatrix.Base.{
  ℕ, zero, suc, ◌+◌, ◌-◌, ◌/◌, ◌%◌, ◌^◌, ◌≤◌, ◌<◌, ◌≡◌, ◌≢◌, inl, inr, refl, sym, ◌∙◌, subst, arith,
  Bool, ◌&&◌, true, false, Bool-cases, Option, none, some, List, [], ◌∷◌, length, get_elem?, set,
  replicate, All, All-set, All-replicate, length-set, get_elem?-set_self, get_elem?-set_ne,
  get_elem?-replicate, get_elem?-lt, Returns, Returns-bind, Returns-map, ltb, nat_beq,
  if◌then◌else◌, for_each, enumerate_from,
}
use native.Mathlib.Decide.{ℕ_discrete, dec_lt}
use fw16_ledmatrix.Core.Frame.{Frame, is_valid}
use fw16_ledmatrix.Core.Protocol.{command, set_bit, bw}
use fw16_ledmatrix.Core.Protocol.Greyscale.{is_valid-length}

-- A test that holds for the numbers from `i` on, `count` of them.
holds_from : ℕ → ℕ → (ℕ → Bool) → Bool
holds_from i zero test = true
holds_from i (suc count) test = test i && holds_from (suc i) count test

holds_from-at :
    (i count k : ℕ) (test : ℕ → Bool)
    → holds_from i count test ≡ true
    → i ≤ k
    → k < i + count
    → test k ≡ true
unfolding holds_from
holds_from-at i zero k test every low high = absurd (omega (arith, low, high))
holds_from-at i (suc count) k test every low high = elim (ℕ_discrete i k) [
  | yes here ↦ subst (λ (z : ℕ). test z ≡ true) here (ground (arith, every))
  | no later ↦
      holds_from-at (suc i) count k test (ground (arith, every)) (omega (arith, low, later))
        (omega (arith, high))
]

-- Setting bit `k` of a byte keeps it a byte, sets that bit and leaves the others.
abbrev sets_bit : ℕ → ℕ → ℕ → Bool
sets_bit k m b =
    ltb (bit_or b (2 ^ k)) 256
    && nat_beq (bit_or b (2 ^ k) / 2 ^ m % 2) (if nat_beq m k then 1 else b / 2 ^ m % 2)

set_bit_table : holds_from 0 8 (λ k. holds_from 0 8 (λ m. holds_from 0 256 (sets_bit k m))) ≡ true
unfolding holds_from
set_bit_table = refl

byte_or :
    (k m b : ℕ)
    → k < 8
    → m < 8
    → b < 256
    → (bit_or b (2 ^ k) < 256)
      × (bit_or b (2 ^ k) / 2 ^ m % 2 ≡ (if nat_beq m k then 1 else b / 2 ^ m % 2))
byte_or k m b hk hm hb =
    let row =
      holds_from-at 0 8 k (λ k. holds_from 0 8 (λ m. holds_from 0 256 (sets_bit k m))) set_bit_table
        (omega arith) hk in
    let cell = holds_from-at 0 8 m (λ m. holds_from 0 256 (sets_bit k m)) row (omega arith) hm in
    both _ _ (holds_from-at 0 256 b (sets_bit k m) cell (omega arith) hb)
  where
    both :
        (x y : ℕ)
        → (ltb (bit_or b (2 ^ k)) 256 && nat_beq x y) ≡ true
        → (bit_or b (2 ^ k) < 256) × (x ≡ y)
    both x y h = ground arith

All-get_elem? : (P : ℕ → Type 0) (xs : List ℕ) (i a : ℕ) → All P xs → get_elem? xs i ≡ some a → P a
All-get_elem? P [] i a h e = cc
All-get_elem? P (x ∷ xs) zero a h e = let same : x ≡ a = cc e in subst P same h.0
All-get_elem? P (x ∷ xs) (suc i) a h e = All-get_elem? P xs i a h.1 e

abbrev bit_of : Option ℕ → ℕ → ℕ
bit_of none m = 0
bit_of (some b) m = b / 2 ^ m % 2

-- Bit `i` of a payload, and what it has to be.
abbrev pub bit : List ℕ → ℕ → ℕ
bit payload i = bit_of (get_elem? payload (i / 8)) (i % 8)

abbrev pub lit : Option ℕ → ℕ
lit none = 0
lit (some v) = if ltb 0 v then 1 else 0

abbrev IsByte : ℕ → Type 0
IsByte b = b < 256

record IsPayload (p : List ℕ) : Type 0 where
  size : length p ≡ 39
  bytes : All IsByte p

same_bit :
    (j i x : ℕ)
    → j / 8 ≡ i / 8
    → (if nat_beq (j % 8) (i % 8) then 1 else x) ≡ (if nat_beq j i then 1 else x)
same_bit j i x e = ground arith

other_bit : (j i x : ℕ) → j / 8 ≢ i / 8 → x ≡ (if nat_beq j i then 1 else x)
other_bit j i x e = ground arith

bit-set :
    (p : List ℕ) (i b : ℕ)
    → IsPayload p
    → i < 312
    → get_elem? p (i / 8) ≡ some b
    → (j : ℕ)
    → bit (set p (i / 8) (bit_or b (2 ^ (i % 8)))) j ≡ (if nat_beq j i then 1 else bit p j)
bit-set p i b v h e j = elim (ℕ_discrete (j / 8) (i / 8)) [
  | yes same ↦
      rw (same, get_elem?-set_self p (i / 8) (bit_or b (2 ^ (i % 8))) (omega (arith, v.size)), e)
        ((byte_or (i % 8) (j % 8) b (omega arith) (omega arith)
            (All-get_elem? IsByte p (i / 8) b v.bytes e)).1
          ∙ same_bit j i _ same)
  | no differ ↦
      rw (get_elem?-set_ne p (i / 8) (j / 8) (bit_or b (2 ^ (i % 8))) (λ q. differ (sym q)))
        (other_bit j i _ differ)
]

-- After one pixel its bit shows whether it is lit, and the others are as before.
abbrev Marks : List ℕ → ℕ → ℕ → List ℕ → Type 0
Marks p i v q = IsPayload q × ((j : ℕ) → bit q j ≡ (if nat_beq j i && ltb 0 v then 1 else bit p j))

and_true : (b : Bool) (x : ℕ) → (if b then 1 else x) ≡ (if b && true then 1 else x)
and_true true x = refl
and_true false x = refl

and_false : (b : Bool) (x : ℕ) → x ≡ (if b && false then 1 else x)
and_false true x = refl
and_false false x = refl

set_bit-Marks :
    (p : List ℕ) (i v : ℕ) → IsPayload p → i < 312 → Returns (Marks p i v) (set_bit (i, v) p)
unfolding set_bit
set_bit-Marks p i v h k = elim (Bool-cases (ltb 0 v)) [
  | inl lit_pixel ↦
      let (b, e) = get_elem?-lt p (i / 8) (omega (arith, h.size)) in
      let v' = bit_or b (2 ^ (i % 8)) in
      rw (lit_pixel, e)
        (
          set p (i / 8) v',
          refl,
          (
            record {
              size = length-set p (i / 8) v' ∙ h.size;
              bytes =
                  All-set IsByte p (i / 8) v' h.bytes
                    (byte_or (i % 8) 0 b (omega arith) (omega arith)
                      (All-get_elem? IsByte p (i / 8) b h.bytes e)).0;
            },
            λ j. bit-set p i b h k e j ∙ and_true (nat_beq j i) (bit p j),
          ),
        )
  | inr dark ↦ rw dark (p, refl, (h, λ j. and_false (nat_beq j i) (bit p j)))
]

-- After the pixels from index `i` on.
abbrev MarksAll : ℕ → List ℕ → List ℕ → List ℕ → Type 0
MarksAll i vs p q =
    IsPayload q
    × ((j : ℕ) → j < i → bit q j ≡ bit p j)
    × ((j : ℕ) → i ≤ j → bit p j ≡ 0 → bit q j ≡ lit (get_elem? vs (j - i)))

at_pixel :
    (j i v b1 b : ℕ)
    → j ≡ i
    → b ≡ 0
    → b1 ≡ (if nat_beq j i && ltb 0 v then 1 else b)
    → b1 ≡ (if ltb 0 v then 1 else 0)
at_pixel j i v b1 b here dark e = ground arith

off_pixel : (j i v b1 b : ℕ) → j ≢ i → b1 ≡ (if nat_beq j i && ltb 0 v then 1 else b) → b1 ≡ b
off_pixel j i v b1 b past e = ground arith

no_bits : (m : ℕ) → 0 / 2 ^ m % 2 ≡ 0
no_bits m = ground arith

get_elem?-past : (xs : List ℕ) (i : ℕ) → length xs ≤ i → get_elem? xs i ≡ none
get_elem?-past [] i h = refl
get_elem?-past (x ∷ xs) zero h = absurd (omega arith)
get_elem?-past (x ∷ xs) (suc i) h = get_elem?-past xs i (omega arith)

pixels-MarksAll :
    (vs : List ℕ) (i : ℕ) (p : List ℕ)
    → IsPayload p
    → i + length vs ≤ 312
    → Returns (MarksAll i vs p) (for_each (enumerate_from i vs) set_bit p)
unfolding for_each
pixels-MarksAll [] i p h k = (p, refl, (h, λ j _. refl, λ j _ dark. dark))
pixels-MarksAll (v ∷ vs) i p h k =
    Returns-bind (set_bit (i, v) p) _ (set_bit-Marks p i v h (omega arith)) (λ p1 m1.
      Returns-map (for_each (enumerate_from (suc i) vs) set_bit p1)
        (pixels-MarksAll vs (suc i) p1 m1.0 (omega arith))
        (λ q m. (
          m.0,
          λ j below. m.1 j (omega arith) ∙ before j p1 below (m1.1 j),
          λ j above dark. later p1 q m1.1 m.1 m.2 j above dark,
        )))
  where
    before :
        (j : ℕ) (p1 : List ℕ)
        → j < i
        → bit p1 j ≡ (if nat_beq j i && ltb 0 v then 1 else bit p j)
        → bit p1 j ≡ bit p j
    before j p1 below e = ground arith

    later :
        (p1 q : List ℕ)
        → ((j : ℕ) → bit p1 j ≡ (if nat_beq j i && ltb 0 v then 1 else bit p j))
        → ((j : ℕ) → j < suc i → bit q j ≡ bit p1 j)
        → ((j : ℕ) → suc i ≤ j → bit p1 j ≡ 0 → bit q j ≡ lit (get_elem? vs (j - suc i)))
        → (j : ℕ) → i ≤ j
        → bit p j ≡ 0
        → bit q j ≡ lit (get_elem? (v ∷ vs) (j - i))
    later p1 q e1 e2 e3 j above dark = elim (ℕ_discrete j i) [
      | yes here ↦
          let first : j - i ≡ 0 = omega arith in
          rw first (e2 j (omega arith) ∙ at_pixel j i v (bit p1 j) (bit p j) here dark (e1 j))
      | no past ↦
          let next : j - i ≡ suc (j - suc i) = omega arith in
          rw next (e3 j (omega arith) (off_pixel j i v (bit p1 j) (bit p j) past (e1 j) ∙ dark))
    ]

IsPayload-empty : IsPayload (replicate 39 0)
IsPayload-empty = record { size = refl; bytes = All-replicate IsByte 39 0 (omega arith) }

bit-empty : (j : ℕ) → bit (replicate 39 0) j ≡ 0
bit-empty j = elim (dec_lt (j / 8) 39) [
  | yes inside ↦ rw (get_elem?-replicate {A = ℕ} 39 (j / 8) 0 inside) (no_bits (j % 8))
  | no outside ↦ rw (get_elem?-past (replicate 39 0) (j / 8) (omega arith))
]

-- What `bw` returns: the command 6 and a bit for each pixel, in the pixels' order.
abbrev pub SendsBits : Frame → Option (List ℕ) → Type 0
SendsBits f none = ⊥
SendsBits f (some c) =
    (payload : List ℕ) × (c ≡ command 0x06 payload)
    × (length payload ≡ 39)
    × ((j : ℕ) → bit payload j ≡ lit (get_elem? f.pixels j))

-- A valid frame is never refused and no index is out of range: the command carries 39 bytes, and bit
-- `j % 8` of byte `j / 8` is set exactly when pixel `j` is lit. The bits past the last pixel are 0.
pub bw-SendsBits : (f : Frame) → is_valid f ≡ true → Returns (SendsBits f) (bw f)
unfolding bw
bw-SendsBits f v =
    rw (v, bw)
      (Returns-bind (for_each (enumerate_from 0 f.pixels) set_bit (replicate 39 0)) _
        (pixels-MarksAll f.pixels 0 (replicate 39 0) IsPayload-empty
          (omega (arith, is_valid-length f v)))
        (λ payload m. (
          some (command 0x06 payload),
          refl,
          (
            payload,
            refl,
            m.0.size,
            λ j.
                let e : j - 0 ≡ j = omega arith in
                subst (λ (k : ℕ). bit payload j ≡ lit (get_elem? f.pixels k)) e
                  (m.2 j (omega arith) (bit-empty j)),
          ),
        )))
