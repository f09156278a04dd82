-- ===== src/Core/Protocol/Greyscale.antt =====
-- `greyscale` of crates/matrix-core/src/protocol.rs sends every pixel of a valid frame once, column
-- by column, then the flush.
use fw16_ledmatrix.Base.{
  ℕ, zero, suc, ◌+◌, ◌*◌, ◌≤◌, ◌<◌, ◌≡◌, refl, sym, ◌∙◌, ap, subst, arith, true, false, Option,
  none, some, List, [], ◌∷◌, ◌++◌, length, get_elem?, length-append, get_elem?-lt, count_from,
  Returns, Returns-bind,
}
use fw16_ledmatrix.Core.Frame.{Frame, is_valid, width_px, height_px}
use fw16_ledmatrix.Core.Protocol.{command, column, columns, greyscale}

pub is_valid-length : (f : Frame) → is_valid f ≡ true → length f.pixels ≡ 306
unfolding is_valid
is_valid-length f h = ground arith

abbrev AreColumn : List ℕ → ℕ → ℕ → ℕ → List ℕ → Type 0
AreColumn pixels x i n vs =
    (length vs ≡ n) × ((j : ℕ) → j < n → get_elem? vs j ≡ get_elem? pixels ((i + j) * width_px + x))

column-Returns :
    (pixels : List ℕ) (x i n : ℕ)
    → length pixels ≡ 306
    → x < 9
    → i + n ≤ 34
    → Returns (AreColumn pixels x i n) (column pixels x (count_from i n))
unfolding column
column-Returns pixels x i zero l p q = ([], refl, (refl, λ j h. elim h [ ]))
column-Returns pixels x i (suc n) l p q =
    Returns-bind (get_elem? pixels (i * width_px + x)) _
      (let (v, e) = get_elem?-lt pixels (i * width_px + x) (omega arith) in (v, e, e))
      (λ v ev.
        Returns-bind (column pixels x (count_from (suc i) n)) _
          (column-Returns pixels x (suc i) n l p (omega arith))
          (λ vs h. (v ∷ vs, refl, (ap suc h.0, cells v vs ev h.1))))
  where
    cells :
        (v : ℕ) (vs : List ℕ)
        → get_elem? pixels (i * width_px + x) ≡ some v
        → ((j : ℕ) → j < n → get_elem? vs j ≡ get_elem? pixels ((suc i + j) * width_px + x))
        → (j : ℕ) → j < suc n
        → get_elem? (v ∷ vs) j ≡ get_elem? pixels ((i + j) * width_px + x)
    cells v vs ev h zero k = let e : i + 0 ≡ i = omega arith in rw e (sym ev)
    cells v vs ev h (suc j) k =
        let e : i + suc j ≡ suc i + j = omega arith in rw e (h j (omega arith))

-- One command of the greyscale protocol: its column number, then the pixels of that column.
abbrev pub SendsColumn : List ℕ → ℕ → List ℕ → Type 0
SendsColumn pixels x c =
    (vs : List ℕ) × (c ≡ command 0x07 (x ∷ vs))
    × (length vs ≡ 34)
    × ((y : ℕ) → y < 34 → get_elem? vs y ≡ get_elem? pixels (y * width_px + x))

abbrev AreColumns : List ℕ → ℕ → ℕ → List (List ℕ) → Type 0
AreColumns pixels i n cs =
    (length cs ≡ n)
    × ((k : ℕ) → k < n → (c : List ℕ) × (get_elem? cs k ≡ some c) × SendsColumn pixels (i + k) c)

columns-Returns :
    (pixels : List ℕ) (i n : ℕ)
    → length pixels ≡ 306
    → i + n ≤ 9
    → Returns (AreColumns pixels i n) (columns pixels (count_from i n))
unfolding columns
columns-Returns pixels i zero l q = ([], refl, (refl, λ j h. elim h [ ]))
columns-Returns pixels i (suc n) l q =
    Returns-bind (column pixels i (count_from 0 height_px)) _
      (column-Returns pixels i 0 34 l (omega arith) (omega arith))
      (λ vs hv.
        Returns-bind (columns pixels (count_from (suc i) n)) _
          (columns-Returns pixels (suc i) n l (omega arith))
          (λ cs hc. (
            command 0x07 (i ∷ vs) ∷ cs,
            refl,
            (
              ap suc hc.0,
              cells vs cs
                  (
                    hv.0,
                    λ y k.
                        let e : 0 + y ≡ y = omega arith in
                        subst (λ (z : ℕ). get_elem? vs y ≡ get_elem? pixels (z * width_px + i)) e
                          (hv.1 y k),
                  )
                  hc.1,
            ),
          )))
  where
    cells :
        (vs : List ℕ) (cs : List (List ℕ))
        → (length vs ≡ 34)
          × ((y : ℕ) → y < 34 → get_elem? vs y ≡ get_elem? pixels (y * width_px + i))
        → ((k : ℕ)
            → k < n
            → (c : List ℕ) × (get_elem? cs k ≡ some c) × SendsColumn pixels (suc i + k) c)
        → (k : ℕ) → k < suc n
        → (c : List ℕ) × (get_elem? (command 0x07 (i ∷ vs) ∷ cs) k ≡ some c)
          × SendsColumn pixels (i + k) c
    cells vs cs hv h zero k =
        let e : i + 0 ≡ i = omega arith in
        (command 0x07 (i ∷ vs), refl, rw e (vs, refl, hv.0, hv.1))
    cells vs cs hv h (suc j) k =
        let e : i + suc j ≡ suc i + j = omega arith in
        let (c, at, sends) = h j (omega arith) in (c, at, rw e sends)

get_elem?-append_left :
    (cs ds : List (List ℕ)) (k : ℕ) → k < length cs → get_elem? (cs ++ ds) k ≡ get_elem? cs k
get_elem?-append_left [] ds k h = elim h [ ]
get_elem?-append_left (c ∷ cs) ds zero h = refl
get_elem?-append_left (c ∷ cs) ds (suc k) h = get_elem?-append_left cs ds k (omega arith)

-- What `greyscale` returns: nine columns and the flush.
abbrev pub SendsFrame : Frame → Option (List (List ℕ)) → Type 0
SendsFrame f none = ⊥
SendsFrame f (some cs) =
    (length cs ≡ 10)
    × ((x : ℕ) → x < 9 → (c : List ℕ) × (get_elem? cs x ≡ some c) × SendsColumn f.pixels x c)
    × (get_elem? cs 9 ≡ some (command 0x08 []))

get_elem?-last :
    (cs : List (List ℕ)) (c : List ℕ) (n : ℕ) → length cs ≡ n → get_elem? (cs ++ c ∷ []) n ≡ some c
get_elem?-last [] c zero h = refl
get_elem?-last [] c (suc n) h = absurd (omega arith)
get_elem?-last (d ∷ cs) c zero h = absurd (omega arith)
get_elem?-last (d ∷ cs) c (suc n) h = get_elem?-last cs c n (omega arith)

-- A valid frame is never refused and no index is out of range: the commands are the nine columns in
-- order, each with its number and all of its 34 pixels, and then the flush.
pub greyscale-SendsFrame : (f : Frame) → is_valid f ≡ true → Returns (SendsFrame f) (greyscale f)
unfolding greyscale
greyscale-SendsFrame f v =
    rw (v, greyscale)
      (Returns-bind (columns f.pixels (count_from 0 width_px)) _
        (columns-Returns f.pixels 0 9 (is_valid-length f v) (omega arith))
        (λ cs h. (
          some (cs ++ command 0x08 [] ∷ []),
          refl,
          (
            omega (arith, h.0, length-append cs (command 0x08 [] ∷ [])),
            λ x k.
                let (c, at, sends) = h.1 x k in
                let e : 0 + x ≡ x = omega arith in
                (
                  c,
                  get_elem?-append_left cs _ x (omega (arith, h.0)) ∙ at,
                  subst (λ (z : ℕ). SendsColumn f.pixels z c) e sends,
                ),
            get_elem?-last cs (command 0x08 []) 9 h.0,
          ),
        )))

-- A malformed frame is refused.
pub greyscale_refuses : (f : Frame) → is_valid f ≡ false → greyscale f ≡ some none
unfolding greyscale
greyscale_refuses f v = rw v
