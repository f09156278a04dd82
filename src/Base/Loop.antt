-- ===== src/Base/Loop.antt =====
-- Loops whose body may panic (`none`): an index out of range, an `expect` that fails.
use Prim.Native.Nat.{ℕ, zero, suc, ◌+◌, ◌<◌, ◌≤◌}
use mathlib.Core.Path.{◌≡◌, refl, ap, ◌∙◌}
use mathlib.Core.Option.{Option, none, some}
use mathlib.Core.List.{List, [], ◌∷◌}
use native.Mathlib.Omega.{arith}
use fw16_ledmatrix.Base.Lists.{All}

infixl 5 ◌>>=◌
abbrev pub ◌>>=◌ {ℓ κ} : {A : Type ℓ} {B : Type κ} → Option A → (A → Option B) → Option B
none >>= f = none
some a >>= f = f a

-- It returns, and the result has the property: a panic has none.
abbrev pub Returns {ℓ κ} : {A : Type ℓ} → (A → Type κ) → Option A → Type (ℓ ⊔ κ)
Returns {A} P o = (a : A) × (o ≡ some a) × P a

pub Returns-bind {ℓ κ ι μ} :
    {A : Type ℓ} {B : Type κ} {P : A → Type ι} {Q : B → Type μ} (o : Option A) (f : A → Option B)
    → Returns P o
    → ((a : A) → P a → Returns Q (f a))
    → Returns Q (o >>= f)
Returns-bind o f (a, e, p) k = rw e (k a p)

pub Returns-map {ℓ ι μ} :
    {A : Type ℓ} {P : A → Type ι} {Q : A → Type μ} (o : Option A)
    → Returns P o
    → ((a : A) → P a → Q a)
    → Returns Q o
Returns-map o (a, e, p) k = (a, e, k a p)

-- `for x in xs { body }` over a state.
unfoldable pub for_each {ℓ κ} :
    {A : Type ℓ} {S : Type κ} → List A → (A → S → Option S) → S → Option S
for_each [] body s = some s
for_each (x ∷ xs) body s = body x s >>= for_each xs body

-- A body that returns and keeps the invariant at each element makes a loop that does.
pub for_each-Returns {ℓ κ ι μ} :
    {A : Type ℓ} {S : Type κ} {Q : A → Type ι} (P : S → Type μ) (xs : List A)
    (body : A → S → Option S) (s : S)
    → ((x : A) (s : S) → Q x → P s → Returns P (body x s))
    → All Q xs
    → P s
    → Returns P (for_each xs body s)
unfolding for_each
for_each-Returns P [] body s step q p = (s, refl, p)
for_each-Returns P (x ∷ xs) body s step q p =
    Returns-bind (body x s) (for_each xs body) (step x s q.0 p)
      (λ t pt. for_each-Returns P xs body t step q.1 pt)

-- `0..n` counted up from `i`, and `.enumerate()`.
abbrev pub count_from : ℕ → ℕ → List ℕ
count_from i zero = []
count_from i (suc n) = i ∷ count_from (suc i) n

abbrev pub enumerate_from {ℓ} : {A : Type ℓ} → ℕ → List A → List (ℕ × A)
enumerate_from i [] = []
enumerate_from i (x ∷ xs) = (i, x) ∷ enumerate_from (suc i) xs

pub count_from-bounds : (i n : ℕ) → All (λ k. (i ≤ k) × (k < i + n)) (count_from i n)
count_from-bounds i n = widen i i n (i + n) (omega arith) (omega arith)
  where
    widen : (lo i n hi : ℕ) → lo ≤ i → i + n ≤ hi → All (λ k. (lo ≤ k) × (k < hi)) (count_from i n)
    widen lo i zero hi p q = tt
    widen lo i (suc n) hi p q =
        ((p, omega arith), widen lo (suc i) n hi (omega arith) (omega arith))

pub bind_cong {ℓ κ} :
    {A : Type ℓ} {B : Type κ} (o : Option A) (f g : A → Option B)
    → ((a : A) → f a ≡ g a)
    → (o >>= f) ≡ (o >>= g)
bind_cong none f g h = refl
bind_cong (some a) f g h = h a

pub bind_some {ℓ} : {A : Type ℓ} (o : Option A) → (o >>= λ a. some a) ≡ o
bind_some none = refl
bind_some (some a) = refl

-- Two bodies that agree make loops that agree.
pub for_each_cong {ℓ κ} :
    {A : Type ℓ} {S : Type κ} (xs : List A) (f g : A → S → Option S) (s : S)
    → ((x : A) (s : S) → f x s ≡ g x s)
    → for_each xs f s ≡ for_each xs g s
unfolding for_each
for_each_cong [] f g s h = refl
for_each_cong (x ∷ xs) f g s h =
    bind_cong (f x s) (for_each xs f) (for_each xs g) (λ t. for_each_cong xs f g t h)
    ∙ ap (λ o. o >>= for_each xs g) (h x s)
