-- ===== src/Claude/Attempts.antt =====
-- The wait for the lock in crates/matrix-claude/src/lib.rs.
use fw16_ledmatrix.Base.{
  ℕ, zero, suc, ◌+◌, ◌*◌, ◌≤◌, ◌≡◌, arith, true, false, nat_eq, leb, Returns, Bool-cases, inl, inr,
}
use fw16_ledmatrix.Claude.Files.{UpdateCalls, wait_lock}

last_attempt :
    (fuel : ℕ) (c : UpdateCalls) (n : ℕ)
    → 50 ≤ c.clock n
    → Returns (λ b. b ≡ true → (m : ℕ) × (c.try_lock m ≡ true)) (wait_lock (suc fuel) c n)
unfolding wait_lock
last_attempt fuel c n h = elim (Bool-cases (c.try_lock n)) [
  | inl t ↦ (true, ground (arith, t), λ _. (n, t))
  | inr t ↦ (false, ground (arith, t, h), λ e. absurd (cc e))
]

next_attempt :
    (fuel : ℕ) (c : UpdateCalls) (n : ℕ)
    → Returns (λ b. b ≡ true → (m : ℕ) × (c.try_lock m ≡ true)) (wait_lock fuel c (suc n))
    → Returns (λ b. b ≡ true → (m : ℕ) × (c.try_lock m ≡ true)) (wait_lock (suc fuel) c n)
unfolding wait_lock
next_attempt fuel c n (b, e, k) = elim (Bool-cases (c.try_lock n)) [
  | inl t ↦ (true, ground (arith, t), λ _. (n, t))
  | inr t ↦ elim (Bool-cases (leb 50 (c.clock n))) [
    | inl l ↦ (false, ground (arith, t, l), λ e. absurd (cc e))
    | inr l ↦ (b, ground (arith, t, l, e), k)
  ]
]

pub wait_lock-Returns :
    (fuel : ℕ) (c : UpdateCalls) (n : ℕ)
    → 50 ≤ c.clock n + 2 * fuel
    → Returns (λ b. b ≡ true → (m : ℕ) × (c.try_lock m ≡ true)) (wait_lock (suc fuel) c n)
wait_lock-Returns zero c n h = last_attempt zero c n (omega (arith, h))
wait_lock-Returns (suc fuel) c n h =
    next_attempt (suc fuel) c n (wait_lock-Returns fuel c (suc n) (omega (arith, h, c.naps n)))
