-- ===== src/Desktop/Bridge.antt =====
-- `Bridge`, `subscribe` and `acknowledge` of apps/desktop/src-tauri/src/main.rs: the subscription of the
-- user interface and the task that passes the frames on. The task is a state machine; what the client
-- and the user interface do to it is the argument of each step.
use fw16_ledmatrix.Base.{
  ℕ, suc, Bool, true, false, not, ◌||◌, Option, none, some, List, [], ◌∷◌, Text, text_eq, nat_eq,
  ◌==◌, length, ltb, all, is_empty, is_ascii_alphanumeric, if◌then◌else◌, Result, ok, err,
}
use fw16_ledmatrix.Client.Failure.{Failure, failure, invalid_message, slow_consumer}
use fw16_ledmatrix.Client.Messages.{Event, Hello, Snapshot, hello_event, frame_event, error_event}
use fw16_ledmatrix.Client.Flow.{Acknowledgements, no_acknowledgements, replace, arm, acknowledge}

-- Where the task waits: for `Client::connect`, for `next_frame`, or for the acknowledgement that comes
-- over a channel.
pub data Phase : Type 0 where
  connecting : Phase
  receiving : Phase
  awaiting : ℕ → Phase

pub record Task : Type 0 where
  pub subscription : Text
  pub phase : Phase

-- `sent` are the events on the `Channel` of the latest subscription, the last one first;
-- `next_channel` numbers the oneshot channels.
pub record Bridge : Type 0 where
  pub task : Option Task
  pub acknowledgements : Acknowledgements
  pub sent : List Event
  pub next_channel : ℕ

abbrev pub new_bridge : Bridge
new_bridge = record {
  task = none;
  acknowledgements = no_acknowledgements;
  sent = [];
  next_channel = 0;
}

unfoldable pub id_rejected : Text → Bool
id_rejected id =
    is_empty id || ltb 64 (length id) || not (all (λ c. is_ascii_alphanumeric c || c == b'-') id)

unfoldable pub subscribe : Text → Bridge → Result Text Failure × Bridge
unfolding id_rejected failure replace
subscribe id b = if id_rejected id then (err (failure invalid_message), b) else (
  ok id,
  record b {
    task = some (record { subscription = id; phase = connecting });
    acknowledgements = replace b.acknowledgements id;
    sent = [];
  },
)

-- The task ends with an event for its failure, which the user interface may not take.
unfoldable pub finish : Failure → Bridge → Bridge
finish f b = record b { task = none; sent = error_event f.code f.message ∷ b.sent }

-- `send` fails where the user interface has gone; then nothing reaches it any more.
unfoldable pub send : Event → Bool → Phase → Text → Bridge → Bridge
send event true phase id b = record b {
  task = some (record { subscription = id; phase = phase });
  sent = event ∷ b.sent;
}
send event false phase id b = record b { task = none }

unfoldable pub greeted : Result Hello Failure → Bool → Text → Bridge → Bridge
unfolding finish send
greeted (ok hello) listens id b = send (hello_event hello) listens receiving id b
greeted (err f) listens id b = finish f b

unfoldable pub on_armed :
    Snapshot → Bool → Text → Result ℕ Failure × Acknowledgements → Bridge → Bridge
unfolding finish send
on_armed snapshot listens id (ok channel, a) b =
    send (frame_event snapshot) listens (awaiting channel) id
      (record b { acknowledgements = a; next_channel = suc b.next_channel })
on_armed snapshot listens id (err f, a) b = finish f (record b { acknowledgements = a })

unfoldable pub received : Result Snapshot Failure → Bool → Text → Bridge → Bridge
unfolding finish on_armed
received (ok snapshot) listens id b =
    on_armed snapshot listens id (arm b.acknowledgements id snapshot.sequence b.next_channel) b
received (err f) listens id b = finish f b

-- A released channel lets the task that waits for it go on.
unfoldable pub resume_phase : ℕ → Phase → Phase
resume_phase channel (awaiting waits) = if waits == channel then receiving else awaiting waits
resume_phase channel connecting = connecting
resume_phase channel receiving = receiving

unfoldable pub resume : Option ℕ → Option Task → Option Task
unfolding resume_phase
resume none task = task
resume (some channel) none = none
resume (some channel) (some t) = some (record t { phase = resume_phase channel t.phase })

unfoldable pub acknowledged : Text → ℕ → Bridge → Option ℕ × Bridge
unfolding resume
acknowledged id sequence b =
    let r = acknowledge b.acknowledgements id sequence in
    (r.0, record b { acknowledgements = r.1; task = resume r.0 b.task })

-- The task's next step: its client has connected or not, a frame has come or not, or the five seconds
-- for the acknowledgement are over.
pub data Turn : Type 0 where
  connects : Result Hello Failure → Bool → Turn
  receives : Result Snapshot Failure → Bool → Turn
  expires : Turn

unfoldable pub turn_at : Turn → Phase → Text → Bridge → Bridge
unfolding greeted received finish failure
turn_at (connects r listens) connecting id b = greeted r listens id b
turn_at (receives r listens) receiving id b = received r listens id b
turn_at expires (awaiting channel) id b = finish (failure slow_consumer) b
turn_at _ _ id b = b

unfoldable pub turn_of : Turn → Option Task → Bridge → Bridge
turn_of t none b = b
turn_of t (some task) b = turn_at t task.phase task.subscription b

unfoldable pub turn : Turn → Bridge → Bridge
turn t b = turn_of t b.task b
