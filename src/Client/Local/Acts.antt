-- ===== src/Client/Local/Acts.antt =====
-- Steps that may fail, as in crates/matrix-client/src/local/unix.rs: what their effects and results come of.
use fw16_ledmatrix.Base.{
  ◌≡◌, refl, List, [], ◌∷◌, ◌++◌, ok, err, In, ◌⊎◌, inl, inr, All, All-append,
}
use fw16_ledmatrix.Client.Local.{Effect, Act, ◌then_do◌}

In-append : {A : Type 0} (x : A) (xs ys : List A) → In x (xs ++ ys) → In x xs ⊎ In x ys
In-append x [] ys h = inr h
In-append x (y ∷ xs) ys (inl e) = inl (inl e)
In-append x (y ∷ xs) ys (inr h) = elim (In-append x xs ys h) [ inl k ↦ inl (inr k) | inr k ↦ inr k ]

-- What comes of two steps comes of the first, or of the second after the first has succeeded.
pub then_do-In :
    {A B : Type 0} (e : Effect) (a : Act A) (f : A → Act B)
    → In e (a then_do f).1
    → In e a.1 ⊎ ((x : A) × (a.0 ≡ ok x) × In e (f x).1)
unfolding ◌then_do◌
then_do-In e (ok a, es) f h = elim (In-append e es (f a).1 h) [
  | inl k ↦ inl k
  | inr k ↦ inr (a, refl, k)
]
then_do-In e (err z, es) f h = inl h

pub then_do-ok :
    {A B : Type 0} (a : Act A) (f : A → Act B) (y : B)
    → (a then_do f).0 ≡ ok y
    → (x : A) × (a.0 ≡ ok x) × ((f x).0 ≡ ok y)
unfolding ◌then_do◌
then_do-ok (ok a, es) f y h = (a, refl, h)
then_do-ok (err z, es) f y h = absurd (cc h)

pub then_do-All :
    {A B : Type 0} (P : Effect → Type 0) (a : Act A) (f : A → Act B)
    → All P a.1
    → ((x : A) → All P (f x).1)
    → All P (a then_do f).1
unfolding ◌then_do◌
then_do-All P (ok x, es) f h k = All-append P es (f x).1 h (k x)
then_do-All P (err e, es) f h k = h
