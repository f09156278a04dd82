-- ===== src/Client/Flow.antt =====
-- crates/matrix-client/src/flow.rs: one frame in flight. A oneshot channel is a number; what is done
-- to it (released, dropped) is returned.
use fw16_ledmatrix.Base.{
  ℕ, ◌≡◌, ◌≢◌, arith, not, ◌||◌, Option, none, some, Text, text_eq, text_beq_iff, nat_eq, ◌==◌,
  if◌then◌else◌, is_some, Result, ok, err, [],
}
use fw16_ledmatrix.Client.Failure.{Failure, failure, slow_consumer}

pub record Pending : Type 0 where
  pub expected : ℕ
  pub channel : ℕ

pub record Acknowledgements : Type 0 where
  pub subscription : Text
  pub pending : Option Pending

abbrev pub no_acknowledgements : Acknowledgements
no_acknowledgements = record { subscription = []; pending = none }

unfoldable pub replace : Acknowledgements → Text → Acknowledgements
replace a subscription = record { subscription = subscription; pending = none }

-- `channel` is the new channel; its receiver is the result.
unfoldable pub arm : Acknowledgements → Text → ℕ → ℕ → Result ℕ Failure × Acknowledgements
arm a subscription sequence channel =
    if not (subscription == a.subscription) || is_some a.pending
    then (err (failure slow_consumer), a)
    else (
      ok channel,
      record a { pending = some (record { expected = sequence; channel = channel }) },
    )

unfoldable pub release : Acknowledgements → ℕ → Option Pending → Option ℕ × Acknowledgements
release a sequence none = (none, a)
release a sequence (some p) =
    if p.expected == sequence then (some p.channel, record a { pending = none }) else (none, a)

-- The channel that the acknowledgement releases.
unfoldable pub acknowledge : Acknowledgements → Text → ℕ → Option ℕ × Acknowledgements
unfolding release
acknowledge a subscription sequence =
    if a.subscription == subscription then release a sequence a.pending else (none, a)

-- An armed frame is released by the acknowledgement of its own subscription and number, and then
-- another can be armed; any other acknowledgement changes nothing, and no second frame is armed.
pub acknowledge-arm :
    (a b : Acknowledgements) (s t : Text) (sequence n channel : ℕ)
    → arm a s sequence channel ≡ (ok channel, b)
    → (acknowledge b s sequence ≡ (some channel, record a { pending = none }))
      × (t ≢ s → acknowledge b t n ≡ (none, b))
      × (n ≢ sequence → acknowledge b t n ≡ (none, b))
      × ((m : ℕ) → arm b t n m ≡ (err (failure slow_consumer), b))
unfolding arm acknowledge
acknowledge-arm a b s t sequence n channel h = ground (
  arith,
  text_beq_iff s a.subscription,
  text_beq_iff a.subscription s,
  text_beq_iff a.subscription t,
  text_beq_iff t a.subscription,
)

-- Once a subscription is replaced, a late acknowledgement of the old one releases nothing.
pub acknowledge-replace :
    (a : Acknowledgements) (old new : Text) (n : ℕ)
    → acknowledge (replace a new) old n ≡ (none, replace a new)
unfolding acknowledge replace
acknowledge-replace a old new n = ground arith
