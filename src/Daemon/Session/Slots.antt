-- ===== src/Daemon/Session/Slots.antt =====
-- The list of the sessions of crates/matrix-daemon/src/lib.rs when one of them changes.
use fw16_ledmatrix.Base.{
  ℕ, zero, suc, ◌+◌, ◌≤◌, ◌≡◌, ◌≢◌, inl, inr, refl, arith, some, List, [], ◌∷◌, get_elem?, set, In,
}
use fw16_ledmatrix.Daemon.Session.{Phase, max_clients}
use fw16_ledmatrix.Daemon.Session.Steps.{count_open, is_open}

-- A phase elsewhere in the list survives the change of one.
pub In-set :
    (ps : List Phase) (i : ℕ) (p q x : Phase)
    → get_elem? ps i ≡ some p
    → In x ps
    → p ≢ x
    → In x (set ps i q)
In-set [] i p q x e m d = m
In-set (y ∷ ps) zero p q x e (inl h) d = absurd (d (ground arith))
In-set (y ∷ ps) zero p q x e (inr h) d = inr h
In-set (y ∷ ps) (suc i) p q x e (inl h) d = inl h
In-set (y ∷ ps) (suc i) p q x e (inr h) d = inr (In-set ps i p q x e h d)

pub In-set_self :
    (ps : List Phase) (i : ℕ) (p q : Phase) → get_elem? ps i ≡ some p → In q (set ps i q)
In-set_self [] i p q e = cc
In-set_self (y ∷ ps) zero p q e = inl refl
In-set_self (y ∷ ps) (suc i) p q e = inr (In-set_self ps i p q e)

pub count_open-set :
    (ps : List Phase) (i : ℕ) (p q : Phase)
    → get_elem? ps i ≡ some p
    → count_open (set ps i q) + is_open p ≡ count_open ps + is_open q
count_open-set [] i p q e = cc
count_open-set (y ∷ ps) zero p q e = let h : y ≡ p = ground arith in rw h (omega arith)
count_open-set (y ∷ ps) (suc i) p q e = omega (arith, count_open-set ps i p q e)

pub is_open-le : (p : Phase) → is_open p ≤ 1
is_open-le p = ground arith

pub set-few :
    (ps : List Phase) (i : ℕ) (p q : Phase)
    → get_elem? ps i ≡ some p
    → is_open p ≡ 1
    → count_open ps ≤ max_clients
    → count_open (set ps i q) ≤ max_clients
set-few ps i p q e o h = omega (arith, count_open-set ps i p q e, is_open-le q)
