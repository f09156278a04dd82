-- ===== src/Desktop/InFlight.antt =====
-- The frames between the daemon and the user interface of apps/desktop/src-tauri/src/main.rs: whatever
-- the user interface and the task do, one is in flight.
use fw16_ledmatrix.Base.{
  ◌∙◌, ◌⊎◌, ℕ, suc, ◌+◌, ◌≤◌, ◌≡◌, refl, arith, Bool, true, false, Option, none, some, List, [],
  ◌∷◌, Text, Result, ok, err, text_beq_iff, nat_beq_iff, inl, inr, ap, subst,
}
use fw16_ledmatrix.Client.Failure.{Failure}
use fw16_ledmatrix.Client.Messages.{Hello, Snapshot, frame_event}
use fw16_ledmatrix.Client.Flow.{Acknowledgements, Pending, replace, arm, acknowledge, release}
use fw16_ledmatrix.Desktop.Bridge.{
  Phase, connecting, receiving, awaiting, Task, Bridge, new_bridge, subscribe, finish, send,
  greeted, on_armed, received, resume, acknowledged, Turn, connects, receives, expires, turn_at,
  turn_of, turn, resume_phase,
}
use fw16_ledmatrix.Desktop.Calls.{
  Call, subscribes, acknowledges, turns, Account, subscribed, counted, call, run, frames,
}

abbrev outstanding : Option Pending → ℕ
outstanding none = 0
outstanding (some p) = 1

abbrev FitsPhase : Phase → Option Pending → Type 0
FitsPhase connecting p = p ≡ none
FitsPhase receiving p = p ≡ none
FitsPhase (awaiting channel) p = (q : Pending) × (p ≡ some q) × (q.channel ≡ channel)

abbrev Fits : Option Task → Acknowledgements → Type 0
Fits none a = Unit
Fits (some t) a = (t.subscription ≡ a.subscription) × FitsPhase t.phase a.pending

record IsAccount (a : Account) : Type 0 where
  count : frames a.bridge.sent ≤ a.released + outstanding a.bridge.acknowledgements.pending
  fits : Fits a.bridge.task a.bridge.acknowledgements

subscribe-IsAccount :
    (a : Account) (id : Text) → IsAccount a → IsAccount (subscribed a (subscribe id a.bridge))
unfolding subscribe replace
subscribe-IsAccount a id v = ground arith

finish-IsAccount :
    (f : Failure) (b : Bridge) (n : ℕ)
    → frames b.sent ≤ n + outstanding b.acknowledgements.pending
    → IsAccount (record { bridge = finish f b; released = n })
unfolding finish
finish-IsAccount f b n h = record { count = h; fits = tt }

arm-Fits :
    (a : Acknowledgements) (id : Text) (sequence channel : ℕ)
    → id ≡ a.subscription
    → a.pending ≡ none
    → arm a id sequence channel ≡ (
      ok channel,
      record a { pending = some (record { expected = sequence; channel = channel }) },
    )
unfolding arm
arm-Fits a id sequence channel e h = ground (arith, text_beq_iff id a.subscription)

none-outstanding : (o : Option Pending) (m n : ℕ) → m ≤ n + outstanding o → o ≡ none → m ≤ n
none-outstanding none m n h e = omega (arith, h)
none-outstanding (some p) m n h e = absurd (cc e)

some-outstanding : (o : Option Pending) (m n : ℕ) → m ≤ n + outstanding o → m ≤ suc n
some-outstanding none m n h = omega (arith, h)
some-outstanding (some p) m n h = omega (arith, h)

received-IsAccount :
    (r : Result Snapshot Failure) (listens : Bool) (id : Text) (b : Bridge) (n : ℕ)
    → frames b.sent ≤ n + outstanding b.acknowledgements.pending
    → id ≡ b.acknowledgements.subscription
    → b.acknowledgements.pending ≡ none
    → IsAccount (record { bridge = received r listens id b; released = n })
unfolding received on_armed send
received-IsAccount (err f) listens id b n h e p = finish-IsAccount f b n h
received-IsAccount (ok s) true id b n h e p =
    rw (arm-Fits b.acknowledgements id s.sequence b.next_channel e p) (record {
      count = omega (arith, none-outstanding b.acknowledgements.pending (frames b.sent) n h p);
      fits = (e, (_, refl, refl));
    })
received-IsAccount (ok s) false id b n h e p =
    rw (arm-Fits b.acknowledgements id s.sequence b.next_channel e p) (record {
      count = omega (arith, none-outstanding b.acknowledgements.pending (frames b.sent) n h p);
      fits = tt;
    })

greeted-IsAccount :
    (r : Result Hello Failure) (listens : Bool) (id : Text) (b : Bridge) (n : ℕ)
    → frames b.sent ≤ n + outstanding b.acknowledgements.pending
    → id ≡ b.acknowledgements.subscription
    → b.acknowledgements.pending ≡ none
    → IsAccount (record { bridge = greeted r listens id b; released = n })
unfolding greeted send
greeted-IsAccount (err f) listens id b n h e p = finish-IsAccount f b n h
greeted-IsAccount (ok s) true id b n h e p = record { count = h; fits = (e, p) }
greeted-IsAccount (ok s) false id b n h e p = record { count = h; fits = tt }

turn_at-IsAccount :
    (t : Turn) (p : Phase) (id : Text) (b : Bridge) (n : ℕ)
    → IsAccount (record { bridge = b; released = n })
    → id ≡ b.acknowledgements.subscription
    → FitsPhase p b.acknowledgements.pending
    → IsAccount (record { bridge = turn_at t p id b; released = n })
unfolding turn_at
turn_at-IsAccount (connects r listens) connecting id b n v e f =
    greeted-IsAccount r listens id b n v.count e f
turn_at-IsAccount (connects r listens) receiving id b n v e f = v
turn_at-IsAccount (connects r listens) (awaiting c) id b n v e f = v
turn_at-IsAccount (receives r listens) connecting id b n v e f = v
turn_at-IsAccount (receives r listens) receiving id b n v e f =
    received-IsAccount r listens id b n v.count e f
turn_at-IsAccount (receives r listens) (awaiting c) id b n v e f = v
turn_at-IsAccount expires connecting id b n v e f = v
turn_at-IsAccount expires receiving id b n v e f = v
turn_at-IsAccount expires (awaiting c) id b n v e f = finish-IsAccount _ b n v.count

turn_of-IsAccount :
    (t : Turn) (k : Option Task) (b : Bridge) (n : ℕ)
    → IsAccount (record { bridge = b; released = n })
    → Fits k b.acknowledgements
    → IsAccount (record { bridge = turn_of t k b; released = n })
unfolding turn_of
turn_of-IsAccount t none b n v f = v
turn_of-IsAccount t (some k) b n v f = turn_at-IsAccount t k.phase k.subscription b n v f.0 f.1

resume_phase-Fits :
    (p : Phase) (q : Pending) → FitsPhase p (some q) → FitsPhase (resume_phase q.channel p) none
unfolding resume_phase
resume_phase-Fits connecting q f = absurd (cc f)
resume_phase-Fits receiving q f = absurd (cc f)
resume_phase-Fits (awaiting c) q (p, e, g) =
    rw ((nat_beq_iff c q.channel).1 (ground (arith, e, g))) refl

released_task :
    (k : Option Task) (a : Acknowledgements) (q : Pending)
    → a.pending ≡ some q
    → Fits k a
    → Fits (resume (some q.channel) k) (record a { pending = none })
unfolding resume
released_task none a q e f = tt
released_task (some t) a q e f =
    (f.0, resume_phase-Fits t.phase q (subst (FitsPhase t.phase) e f.1))

-- What an acknowledgement does: nothing, or it releases the pending frame.
acknowledge-cases :
    (a : Acknowledgements) (id : Text) (sequence : ℕ)
    → (acknowledge a id sequence ≡ (none, a))
      ⊎ ((q : Pending) × (a.pending ≡ some q)
          × (acknowledge a id sequence ≡ (some q.channel, record a { pending = none })))
unfolding acknowledge release
acknowledge-cases a id sequence = ground arith

acknowledged-IsAccount :
    (a : Account) (id : Text) (sequence : ℕ)
    → IsAccount a
    → IsAccount (counted a (acknowledged id sequence a.bridge))
unfolding acknowledged resume
acknowledged-IsAccount a id sequence v =
    elim (acknowledge-cases a.bridge.acknowledgements id sequence) [
      | inl e ↦ rw e v
      | inr (q, p, e) ↦ rw e (record {
        count = omega (
          arith,
          some-outstanding a.bridge.acknowledgements.pending (frames a.bridge.sent) a.released
              v.count,
        );
        fits = released_task a.bridge.task a.bridge.acknowledgements q p v.fits;
      })
    ]

call-IsAccount : (a : Account) (c : Call) → IsAccount a → IsAccount (call a c)
unfolding turn
call-IsAccount a (subscribes id) v = subscribe-IsAccount a id v
call-IsAccount a (acknowledges id sequence) v = acknowledged-IsAccount a id sequence v
call-IsAccount a (turns t) v = turn_of-IsAccount t a.bridge.task a.bridge a.released v v.fits

run-IsAccount : (a : Account) (cs : List Call) → IsAccount a → IsAccount (run a cs)
run-IsAccount a [] v = v
run-IsAccount a (c ∷ cs) v = run-IsAccount (call a c) cs (call-IsAccount a c v)

received-sends :
    (s : Snapshot) (id : Text) (b : Bridge)
    → id ≡ b.acknowledgements.subscription
    → b.acknowledgements.pending ≡ none
    → (received (ok s) true id b).sent ≡ frame_event s ∷ b.sent
unfolding received on_armed send
received-sends s id b e p = rw (arm-Fits b.acknowledgements id s.sequence b.next_channel e p) refl

-- What holds of the frames of the latest subscription.
pub record IsInFlight (a : Account) : Type 0 where
  pub one : frames a.bridge.sent ≤ a.released + 1
  pub acknowledged_all :
      (t : Task) → a.bridge.task ≡ some t → t.phase ≡ receiving → frames a.bridge.sent ≤ a.released
  pub passes_on :
      (t : Task) (s : Snapshot)
      → a.bridge.task ≡ some t
      → t.phase ≡ receiving
      → (turn (receives (ok s) true) a.bridge).sent ≡ frame_event s ∷ a.bridge.sent

receiving-Fits :
    (t : Task) (a : Acknowledgements) → t.phase ≡ receiving → Fits (some t) a → a.pending ≡ none
receiving-Fits t a e f = subst (λ p. FitsPhase p a.pending) e f.1

turn_of-receiving :
    (r : Result Snapshot Failure) (t : Task) (k : Option Task) (b : Bridge)
    → k ≡ some t
    → t.phase ≡ receiving
    → turn_of (receives r true) k b ≡ received r true t.subscription b
unfolding turn_of turn_at
turn_of-receiving r t k b e p = rw (e, p) refl

IsAccount-IsInFlight : (a : Account) → IsAccount a → IsInFlight a
unfolding turn
IsAccount-IsInFlight a v = record {
  one = omega (
    arith,
    some-outstanding a.bridge.acknowledgements.pending (frames a.bridge.sent) a.released v.count,
  );
  acknowledged_all = λ t e p.
      none-outstanding a.bridge.acknowledgements.pending (frames a.bridge.sent) a.released v.count (
        receiving-Fits t a.bridge.acknowledgements p
          (subst (λ k. Fits k a.bridge.acknowledgements) e v.fits));
  passes_on = λ t s e p.
      let f = subst (λ k. Fits k a.bridge.acknowledgements) e v.fits in
      ap (λ (b : Bridge). b.sent) (turn_of-receiving (ok s) t a.bridge.task a.bridge e p)
      ∙ received-sends s t.subscription a.bridge f.0
          (receiving-Fits t a.bridge.acknowledgements p f);
}

-- Whatever the user interface subscribes and acknowledges, and whatever the client's frames, failures
-- and time-outs: of the frames sent to the latest subscription at most one is not acknowledged; the
-- next frame is read only when all are; and a frame that is then read is sent on, since the
-- acknowledgements never refuse to be armed.
pub run-IsInFlight :
    (cs : List Call) → IsInFlight (run (record { bridge = new_bridge; released = 0 }) cs)
run-IsInFlight cs =
    IsAccount-IsInFlight _ (run-IsAccount _ cs (record { count = omega arith; fits = tt }))
