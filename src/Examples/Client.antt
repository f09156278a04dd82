-- ===== src/Examples/Client.antt =====
-- The theorems on crates/matrix-client and crates/matrix-claude at concrete inputs.
use fw16_ledmatrix.Base.{
  ℕ, ◌≡◌, ◌≢◌, ◌≤◌, ◌<◌, refl, arith, true, false, some, none, Option, List, [], ◌∷◌, Text, ok, err,
  length, leb,
}
use fw16_ledmatrix.Core.Assistant.{claude, Feed}
use fw16_ledmatrix.Client.Wire.{
  Json, write_message, read_message, framed, u32_bytes, read_message-write_message,
}
use fw16_ledmatrix.Client.Failure.{failure, slow_consumer}
use fw16_ledmatrix.Client.Flow.{Acknowledgements, arm, acknowledge, acknowledge-arm}
use fw16_ledmatrix.Claude.{
  Number, Payload, statusline, update_session, ignored, feed_after, previous_session,
  sessions_after, session_after, percentage_of, is_percentage,
}
use fw16_ledmatrix.Claude.Accepted.{update_session-guards}

abbrev first_byte : List ℕ → Option ℕ
first_byte [] = none
first_byte (n ∷ ns) = some n

-- Messages that are a number, one byte of text each.
byte_json-from : (v : ℕ) {b : List ℕ} → some (v ∷ []) ≡ some b → first_byte b ≡ some v
byte_json-from v e = ground (arith, e)

byte_json-nonempty : (v : ℕ) {b : List ℕ} → some (v ∷ []) ≡ some b → 0 < length b
byte_json-nonempty v e = ground (arith, e)

abbrev byte_json : Json ℕ
byte_json = record {
  to_vec = λ n. some (n ∷ []);
  from_slice = first_byte;
  from_slice-to_vec = λ v e. byte_json-from v e;
  to_vec_nonempty = λ v e. byte_json-nonempty v e;
}

read_message-write_message_example :
    read_message byte_json (0 ∷ 0 ∷ 0 ∷ 1 ∷ 77 ∷ 5 ∷ []) ≡ ok (77, 5 ∷ [])
unfolding write_message framed u32_bytes
read_message-write_message_example =
    read_message-write_message byte_json 77 (0 ∷ 0 ∷ 0 ∷ 1 ∷ 77 ∷ []) (5 ∷ []) refl

abbrev own : Text
own = b's' ∷ []

abbrev other : Text
other = b't' ∷ []

abbrev eight : ℕ
eight = 8

abbrev subscribed : Acknowledgements
subscribed = record { subscription = b's' ∷ []; pending = none }

abbrev armed : Acknowledgements
armed = record { subscription = b's' ∷ []; pending = some (record { expected = 9; channel = 3 }) }

acknowledge-arm_example :
    (acknowledge armed own 9 ≡ (some 3, subscribed))
    × (other ≢ own → acknowledge armed other eight ≡ (none, armed))
    × (eight ≢ 9 → acknowledge armed other eight ≡ (none, armed))
    × ((m : ℕ) → arm armed other eight m ≡ (err (failure slow_consumer), armed))
unfolding arm
acknowledge-arm_example = acknowledge-arm subscribed armed own other 9 eight 3 refl

abbrev session_name : Text
session_name = b'a' ∷ []

abbrev busy_feed : Feed
busy_feed = record {
  schema_version = 1;
  instance_id = session_name;
  provider = claude;
  heartbeat_ms = 4000;
  sessions =
      record {
        session_id = session_name;
        parent_id = none;
        context_percent = some 30;
        busy = true;
        last_activity_ms = 4000;
      }
      ∷ [];
}

-- 40.5 percent.
abbrev used : Number
used = record {
  is_finite = true;
  at_least = λ k. leb k 40;
  at_most = λ k. leb 41 k;
  round_u16 = 41;
}

abbrev status_line : Payload
status_line = record {
  session_id = some session_name;
  has_agent_id = false;
  has_parent_id = false;
  hook_event_name = none;
  used_percentage = some used;
}

abbrev next_feed : Feed
next_feed = record busy_feed {
  heartbeat_ms = 5000;
  sessions =
      record {
        session_id = session_name;
        parent_id = none;
        context_percent = some 41;
        busy = true;
        last_activity_ms = 4000;
      }
      ∷ [];
}

update_session_value :
    update_session statusline status_line session_name (some busy_feed) 5000 ≡ some next_feed
unfolding update_session ignored previous_session feed_after sessions_after session_after
    percentage_of is_percentage
update_session_value = refl

update_session-guards_example :
    (busy_feed.sessions ≡ [] → statusline ≢ statusline)
    × (busy_feed.heartbeat_ms ≤ next_feed.heartbeat_ms)
    × (next_feed.heartbeat_ms ≡ 5000)
update_session-guards_example =
    update_session-guards statusline status_line session_name busy_feed next_feed 5000
      update_session_value
