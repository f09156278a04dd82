-- ===== src/Core/Layout/Render/Area.antt =====
-- Drawing inside an area: crates/matrix-core/src/layout.rs and the loops of lib.rs write no index out
-- of the frame, only bytes, and nothing outside the area of the slot at hand.
use fw16_ledmatrix.Base.{
  ℕ, zero, suc, ◌+◌, ◌*◌, ◌/◌, ◌%◌, ◌≤◌, ◌<◌, ◌≡◌, refl, sym, ◌∙◌, arith, List, [], ◌∷◌, Text,
  length, get_elem?, set, All, All-set, length-set, get_elem?-set_ne, Returns, Returns-bind, lt→ltb,
  leb, for_each-Returns, enumerate_from, count_from, count_from-bounds, Bool-cases, inl, inr,
  leb→le, ◌==◌, nat_eq,
}
use fw16_ledmatrix.Base.Int.{ℤ, pos, negsuc}
use fw16_ledmatrix.Core.Frame.{width_px, write, font}
use fw16_ledmatrix.Core.Layout.Render.{
  Rectangle, fill_row, hide_hour, number, number_cell, number_row, number_glyph, number_digit,
  value_glyph, cross, magnitude,
}

abbrev pub IsByte : ℕ → Type 0
IsByte v = v ≤ 255

pub record Canvas (p : List ℕ) : Type 0 where
  pub size : length p ≡ 306
  pub bytes : All IsByte p

-- Index `i` lies in the rows and columns of the area.
abbrev pub Inside : Rectangle → ℕ → Type 0
Inside a i = (a.top ≤ i / 9) × (i / 9 ≤ a.bottom) × (a.left ≤ i % 9) × (i % 9 ≤ a.right)

pub record FitsFrame (a : Rectangle) : Type 0 where
  pub rows : a.bottom ≤ 33
  pub cols : a.right ≤ 8

enumerate-bounds :
    {A : Type 0} (P : A → Type 0) (i : ℕ) (xs : List A) (n : ℕ)
    → i + length xs ≤ n
    → All P xs
    → All (λ (e : ℕ × A). (e.0 < n) × P e.1) (enumerate_from i xs)
enumerate-bounds P i [] n h q = tt
enumerate-bounds P i (x ∷ xs) n h q =
    ((omega arith, q.0), enumerate-bounds P (suc i) xs n (omega arith) q.1)

pub record Within (old : List ℕ) (a : Rectangle) (p : List ℕ) : Type 0 where
  pub canvas : Canvas p
  pub outside : (i : ℕ) → ¬ Inside a i → get_elem? p i ≡ get_elem? old i

-- Five rows of three cells.
abbrev Glyph : List Text → Type 0
Glyph g = (length g ≤ 5) × All (λ (row : Text). length row ≤ 3) g

font-Glyph : (d : ℕ) → d < 10 → Returns Glyph (get_elem? font d)
unfolding font
font-Glyph zero h = (_, refl, ground arith)
font-Glyph (suc zero) h = (_, refl, ground arith)
font-Glyph (suc (suc zero)) h = (_, refl, ground arith)
font-Glyph (suc (suc (suc zero))) h = (_, refl, ground arith)
font-Glyph (suc (suc (suc (suc zero)))) h = (_, refl, ground arith)
font-Glyph (suc (suc (suc (suc (suc zero))))) h = (_, refl, ground arith)
font-Glyph (suc (suc (suc (suc (suc (suc zero)))))) h = (_, refl, ground arith)
font-Glyph (suc (suc (suc (suc (suc (suc (suc zero))))))) h = (_, refl, ground arith)
font-Glyph (suc (suc (suc (suc (suc (suc (suc (suc zero)))))))) h = (_, refl, ground arith)
font-Glyph (suc (suc (suc (suc (suc (suc (suc (suc (suc zero))))))))) h = (_, refl, ground arith)
font-Glyph (suc (suc (suc (suc (suc (suc (suc (suc (suc (suc n)))))))))) h = absurd (omega arith)

cross-Glyph : Glyph cross
unfolding cross
cross-Glyph = ground arith

-- Each digit of a value has a glyph: no index of the font is out of range.
value_glyph-high : (value : ℤ) → Returns Glyph (value_glyph value (magnitude value / 10))
unfolding value_glyph
value_glyph-high (pos n) = elim (Bool-cases (leb n 99)) [
  | inl two ↦ rw two (font-Glyph (n / 10) (omega (arith, leb→le n 99 two)))
  | inr more ↦ rw more (cross, refl, cross-Glyph)
]
value_glyph-high (negsuc n) = (cross, refl, cross-Glyph)

value_glyph-low : (value : ℤ) → Returns Glyph (value_glyph value (magnitude value % 10))
unfolding value_glyph
value_glyph-low (pos n) = elim (Bool-cases (leb n 99)) [
  | inl two ↦ rw two (font-Glyph (n % 10) (omega arith))
  | inr more ↦ rw more (cross, refl, cross-Glyph)
]
value_glyph-low (negsuc n) = (cross, refl, cross-Glyph)

abbrev IsDigit : ℤ → ℕ × ℕ → Type 0
IsDigit value (x, digit) = ((1 ≤ x) × (x ≤ 5)) × Returns Glyph (value_glyph value digit)

module _ (old : List ℕ) (a : Rectangle) (fits : FitsFrame a) where
  -- A pixel of the area can be written.
  pub write-Within :
      (y x v : ℕ) (p : List ℕ)
      → a.top ≤ y
      → y ≤ a.bottom
      → a.left ≤ x
      → x ≤ a.right
      → IsByte v
      → Within old a p
      → Returns (Within old a) (write (y * width_px + x) v p)
  unfolding write
  write-Within y x v p t b l r h w =
      let i = y * width_px + x in
      rw (lt→ltb i (length p) (omega (arith, fits.rows, fits.cols, w.canvas.size))) (
        set p i v,
        refl,
        record {
          canvas = record {
            size = length-set p i v ∙ w.canvas.size;
            bytes = All-set IsByte p i v w.canvas.bytes h;
          };
          outside = λ j out.
              get_elem?-set_ne p i j v
                (λ e. out (let same : j ≡ i = sym e in rw same (omega (arith, fits.cols))))
              ∙ w.outside j out;
        },
      )

  pub fill_row-Within :
      (y x0 count v : ℕ) (p : List ℕ)
      → a.top ≤ y
      → y ≤ a.bottom
      → a.left ≤ x0
      → x0 + count ≤ a.right + 1
      → IsByte v
      → Within old a p
      → Returns (Within old a) (fill_row y x0 count v p)
  unfolding fill_row
  fill_row-Within y x0 count v p t b l r h w =
      for_each-Returns (Within old a) (count_from x0 count) (λ x q. write (y * width_px + x) v q) p
        (λ x q k wq. write-Within y x v q t b (omega (arith, k.0)) (omega (arith, k.1)) h wq)
        (count_from-bounds x0 count) w

  pub number_glyph-Within :
      (y x v : ℕ) (g : List Text) (p : List ℕ)
      → a.top ≤ y
      → y + 4 ≤ a.bottom
      → a.left ≤ x
      → x + 2 ≤ a.right
      → IsByte v
      → Glyph g
      → Within old a p
      → Returns (Within old a) (number_glyph y x v g p)
  unfolding number_glyph number_row number_cell
  number_glyph-Within y x v g p t b l r h ok w =
      for_each-Returns (Within old a) (enumerate_from 0 g) (number_row y x v) p
        (λ (dy, row) q k wq.
          for_each-Returns (Within old a) (enumerate_from 0 row) (number_cell (y + dy) x v) q
            (λ (dx, cell) c kc wc. cell_case dy dx cell c k.0 kc.0 wc)
            (enumerate-bounds (λ _. Unit {0}) 0 row 3 (omega (arith, k.1)) (All-Unit row)) wq)
        (enumerate-bounds (λ (row : Text). length row ≤ 3) 0 g 5 (omega (arith, ok.0)) ok.1) w
    where
      All-Unit : (row : Text) → All (λ _. Unit {0}) row
      All-Unit [] = tt
      All-Unit (c ∷ cs) = (tt, All-Unit cs)

      cell_case :
          (dy dx cell : ℕ) (c : List ℕ)
          → dy < 5
          → dx < 3
          → Within old a c
          → Returns (Within old a) (number_cell (y + dy) x v (dx, cell) c)
      cell_case dy dx cell c ky kx wc = elim (Bool-cases (cell == b'#')) [
        | inl lit ↦
            let at : (y + dy) * width_px + x + dx ≡ (y + dy) * width_px + (x + dx) = omega arith in
            rw (lit, at)
              (write-Within (y + dy) (x + dx) v c (omega arith) (omega arith) (omega arith)
                (omega arith) h wc)
        | inr unlit ↦ rw unlit (c, refl, wc)
      ]

  -- A digit of a number in the area.
  number_digit-Within :
      (y x v digit : ℕ) (value : ℤ) (p : List ℕ)
      → a.top ≤ y
      → y + 4 ≤ a.bottom
      → a.left ≤ x
      → x + 2 ≤ a.right
      → IsByte v
      → Returns Glyph (value_glyph value digit)
      → Within old a p
      → Returns (Within old a) (number_digit y value v (x, digit) p)
  unfolding number_digit
  number_digit-Within y x v digit value p t b l r h shape w =
      Returns-bind (value_glyph value digit) _ shape
        (λ g ok. number_glyph-Within y x v g p t b l r h ok w)

  pub number-Within :
      (y v : ℕ) (value : ℤ) (p : List ℕ)
      → a.top ≤ y
      → y + 4 ≤ a.bottom
      → a.left ≤ 1
      → 7 ≤ a.right
      → IsByte v
      → Within old a p
      → Returns (Within old a) (number y value v p)
  unfolding number
  number-Within y v value p t b l r h w =
      for_each-Returns {Q = IsDigit value} (Within old a)
        ((1, magnitude value / 10) ∷ (5, magnitude value % 10) ∷ []) (number_digit y value v) p
        (λ (x, digit) q k wq.
          number_digit-Within y x v digit value q t b (omega (arith, k.0)) (omega (arith, k.0)) h
            k.1 wq)
        (
          ((omega arith, omega arith), value_glyph-high value),
          (((omega arith, omega arith), value_glyph-low value), tt),
        )
        w

  pub hide_hour-Within :
      (p : List ℕ)
      → a.top ≤ 1
      → 5 ≤ a.bottom
      → a.left ≤ 1
      → 3 ≤ a.right
      → Within old a p
      → Returns (Within old a) (hide_hour p)
  unfolding hide_hour
  hide_hour-Within p t b l r w =
      for_each-Returns {Q = λ (k : ℕ). (1 ≤ k) × (k < 1 + 5)} (Within old a) (count_from 1 5)
        (λ y q. fill_row y 1 3 0 q) p
        (λ y q k wq.
          fill_row-Within y 1 3 0 q (omega (arith, k.0)) (omega (arith, k.1)) l (omega arith)
            (omega arith) wq)
        (count_from-bounds 1 5) w
