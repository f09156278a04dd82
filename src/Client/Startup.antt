-- ===== src/Client/Startup.antt =====
-- crates/matrix-client/src/startup.rs: a daemon is started where none listens, and waited for. What each
-- attempt to connect, each `try_wait` and the clock come to is a parameter.
use fw16_ledmatrix.Base.{
  Text, utf8, ◌++◌, ◌∙◌, sym, ◌↔◌, ◌≢◌, ℕ, zero, suc, ◌+◌, ◌*◌, ◌<◌, ◌≤◌, ◌≡◌, refl, ap, arith,
  Bool, true, false, Option, none, some, Result, ok, err, if◌then◌else◌, leb, Bool-cases, inl, inr,
  Option-cases,
}
use fw16_ledmatrix.Client.Failure.{Failure, failure, unavailable, start_failed, timed_out}
use fw16_ledmatrix.Client.Messages.{Hello}

-- The daemon beside the running program, whose path and its directory may be unknown.
unfoldable pub sibling_daemon : Option (Option Text) → Text → Result Text Failure
unfolding failure utf8
sibling_daemon none suffix = err (failure start_failed)
sibling_daemon (some none) suffix = err (failure start_failed)
sibling_daemon (some (some directory)) suffix = ok (directory ++ utf8 "/matrix-daemon" ++ suffix)

-- An attempt has failed because nobody listens, has failed otherwise, or is connected.
pub data Attempt : Type 0 where
  connected : Attempt
  nobody : Attempt
  refused : Failure → Attempt

unfoldable pub attempt_of : Result Hello Failure → Attempt
attempt_of (ok hello) = connected
attempt_of (err f) = elim f.code [ unavailable ↦ nobody | _ ↦ refused f ]

-- Round n connects once, unless the deadline passes first (`none`), asks whether the process has ended
-- (`try_wait`), and sleeps. `clock n` is the time since the process was started, in milliseconds, when
-- round n begins; a sleep takes at least its 50.
pub record Process : Type 0 where
  pub first : Result Hello Failure
  pub spawned : Option (Option ℕ)
  pub connects : ℕ → Option (Result Hello Failure)
  pub try_wait : ℕ → Option Bool
  pub clock : ℕ → ℕ
  pub sleeps : (n : ℕ) → clock n + 50 ≤ clock (suc n)

-- How a round ends: with a result, or with a sleep.
unfoldable pub waited : Option Bool → Option (Result (Option ℕ) Failure)
unfolding failure
waited none = some (err (failure start_failed))
waited (some true) = some (err (failure start_failed))
waited (some false) = none

unfoldable pub round :
    Option ℕ → Option Bool → Option (Result Hello Failure) → Option (Result (Option ℕ) Failure)
unfolding failure attempt_of
round pid ended none = some (err (failure timed_out))
round pid ended (some r) = elim (attempt_of r) [
  | connected ↦ some (ok pid)
  | nobody ↦ waited ended
  | refused f ↦ some (err f)
]

-- `none` is out of fuel.
unfoldable pub wait_ready : ℕ → Process → Option ℕ → ℕ → Option (Result (Option ℕ) Failure)
unfolding failure
wait_ready zero p pid n = none
wait_ready (suc fuel) p pid n =
    let rest = wait_ready fuel p pid (suc n) in
    elim (round pid (p.try_wait n) (p.connects n)) [
      | some r ↦ some r
      | none ↦ if leb 8000 (p.clock (suc n)) then some (err (failure timed_out)) else rest
    ]

abbrev pub start_fuel : ℕ
start_fuel = 161

-- Whether a process was asked for, and what `start` returns.
unfoldable pub launch : Process → Option (Option ℕ) → Option (Result (Option ℕ) Failure)
unfolding failure
launch p none = some (err (failure start_failed))
launch p (some pid) = wait_ready start_fuel p pid 0

unfoldable pub begun : Process → Attempt → Bool × Option (Result (Option ℕ) Failure)
begun p connected = (false, some (ok none))
begun p nobody = (true, launch p p.spawned)
begun p (refused f) = (false, some (err f))

unfoldable pub start : Process → Bool × Option (Result (Option ℕ) Failure)
start p = begun p (attempt_of p.first)

wait_ready-returns :
    (fuel : ℕ) (p : Process) (pid : Option ℕ) (n : ℕ)
    → 8000 < p.clock n + 50 * fuel
    → p.clock n < 8000
    → (r : Result (Option ℕ) Failure) × (wait_ready fuel p pid n ≡ some r)
unfolding wait_ready
wait_ready-returns zero p pid n h k = absurd (omega (arith, h, k))
wait_ready-returns (suc fuel) p pid n h k =
    elim (Option-cases (round pid (p.try_wait n) (p.connects n))) [
      | inr (r, e) ↦ (r, ground (arith, e))
      | inl e ↦ elim (Bool-cases (leb 8000 (p.clock (suc n)))) [
        | inl l ↦ (err (failure timed_out), ground (arith, e, l))
        | inr l ↦
            let (r, q) =
              wait_ready-returns fuel p pid (suc n) (omega (arith, h, p.sleeps n))
                (ground (arith, l)) in
            (r, ground (arith, e, l, q))
      ]
    ]

round-ok :
    (pid q : Option ℕ) (ended : Option Bool) (o : Option (Result Hello Failure))
    → round pid ended o ≡ some (ok q)
    → (q ≡ pid) × (h : Hello) × (o ≡ some (ok h))
unfolding round attempt_of waited
round-ok pid q ended none e = absurd (cc)
round-ok pid q ended (some (ok h)) e = (ground arith, h, refl)
round-ok pid q ended (some (err f)) e = absurd (ground arith)

-- The process has answered at some attempt.
abbrev Answered : Process → Type 0
Answered p = (n : ℕ) × (h : Hello) × (p.connects n ≡ some (ok h))

wait_ready-ok :
    (fuel : ℕ) (p : Process) (pid q : Option ℕ) (n : ℕ)
    → wait_ready fuel p pid n ≡ some (ok q)
    → (q ≡ pid) × Answered p
unfolding wait_ready
wait_ready-ok zero p pid q n e = absurd (cc)
wait_ready-ok (suc fuel) p pid q n e =
    elim (Option-cases (round pid (p.try_wait n) (p.connects n))) [
      | inr (r, g) ↦
          let (i, h, j) = round-ok pid q (p.try_wait n) (p.connects n) (ground (arith, g, e)) in
          (i, (n, h, j))
      | inl g ↦ elim (Bool-cases (leb 8000 (p.clock (suc n)))) [
        | inl l ↦ absurd (ground (arith, g, l, e))
        | inr l ↦ wait_ready-ok fuel p pid q (suc n) (ground (arith, g, l, e))
      ]
    ]

-- The first attempt found nobody listening.
abbrev pub Unheard : Process → Type 0
Unheard p = (f : Failure) × (p.first ≡ err f) × (f.code ≡ unavailable)

-- What `start` makes of the first attempt where it does not ask for a process.
abbrev pub settled : Result Hello Failure → Result (Option ℕ) Failure
settled (ok h) = ok none
settled (err f) = err f

-- What a call that begins with a given first attempt comes to.
abbrev pub Started : Process → Bool × Option (Result (Option ℕ) Failure) → Type 0
Started p s =
    (r : Result (Option ℕ) Failure) × (s.1 ≡ some r)
    × ((s.0 ≡ true) ↔ Unheard p)
    × (s.0 ≡ false → r ≡ settled p.first)
    × (s.0 ≡ true → (pid : Option ℕ) → r ≡ ok pid → (p.spawned ≡ some pid) × Answered p)

launch-returns :
    (p : Process)
    → p.clock 0 < 8000
    → (o : Option (Option ℕ)) → (r : Result (Option ℕ) Failure) × (launch p o ≡ some r)
unfolding launch
launch-returns p c none = (_, refl)
launch-returns p c (some pid) = wait_ready-returns start_fuel p pid 0 (omega arith) c

launch-ok :
    (p : Process) (o : Option (Option ℕ)) (pid : Option ℕ)
    → launch p o ≡ some (ok pid)
    → (o ≡ some pid) × Answered p
unfolding launch
launch-ok p none pid e = absurd (ground arith)
launch-ok p (some q) pid e =
    let (i, a) = wait_ready-ok start_fuel p q pid 0 e in (ap some (sym i), a)

connected-first : (r : Result Hello Failure) → attempt_of r ≡ connected → (h : Hello) × (r ≡ ok h)
unfolding attempt_of
connected-first r e = ground arith

nobody-first :
    (r : Result Hello Failure)
    → attempt_of r ≡ nobody
    → (f : Failure) × (r ≡ err f) × (f.code ≡ unavailable)
unfolding attempt_of
nobody-first r e = ground arith

refused-first :
    (r : Result Hello Failure) (f : Failure)
    → attempt_of r ≡ refused f
    → (r ≡ err f) × (f.code ≢ unavailable)
unfolding attempt_of
refused-first r f e = ground arith

begun-Started :
    (p : Process) (a : Attempt) → p.clock 0 < 8000 → attempt_of p.first ≡ a → Started p (begun p a)
unfolding begun
begun-Started p connected c e =
    let (h, q) = connected-first p.first e in
    (ok none, refl, ((λ t. cc t), λ (f, g, _). cc (q, g)), (λ _. rw q refl), λ t. cc t)
begun-Started p nobody c e =
    let (r, q) = launch-returns p c p.spawned in
    (
      r,
      q,
      ((λ _. nobody-first p.first e), λ _. refl),
      (λ t. cc t),
      λ _ pid g. launch-ok p p.spawned pid (q ∙ ap some g),
    )
begun-Started p (refused f) c e =
    let (q, n) = refused-first p.first f e in
    (
      err f,
      refl,
      ((λ t. cc t), λ (g, h, u). absurd (n (ground (arith, q, h, u)))),
      (λ _. rw q refl),
      λ t. cc t,
    )

-- `start` returns: its time-out bounds the rounds, the first of which begins before it. It asks for a
-- process exactly if its first attempt to connect failed with the code `unavailable`. Otherwise it
-- returns what that attempt came to: nothing started for a daemon that was connected, and else the
-- attempt's failure. Where a process was asked for and the result is no failure, the process was
-- started, the result is its identifier, and an attempt was accepted.
pub start-Started : (p : Process) → p.clock 0 < 8000 → Started p (start p)
unfolding start
start-Started p c = begun-Started p (attempt_of p.first) c refl
