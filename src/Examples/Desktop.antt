-- ===== src/Examples/Desktop.antt =====
-- The theorems on the desktop's bridge and on the helper's command line at concrete inputs.
use fw16_ledmatrix.Core.Assistant.{Feed}
use fw16_ledmatrix.Client.Failure.{not_found}
use fw16_ledmatrix.Client.Local.{Metadata, FileType, directory, regular}
use fw16_ledmatrix.Claude.{Payload}
use fw16_ledmatrix.Claude.Files.{UpdateCalls, update_file}
use fw16_ledmatrix.Base.{
  length, ℕ, ◌*◌, ◌≡◌, refl, arith, not, nat_beq, true, false, none, some, List, [], ◌∷◌, ok, err,
  utf8, if◌then◌else◌,
}
use fw16_ledmatrix.Core.Frame.{blank_frame}
use fw16_ledmatrix.Client.Messages.{Hello, Snapshot}
use fw16_ledmatrix.Desktop.Bridge.{new_bridge, connects, receives, expires}
use fw16_ledmatrix.Desktop.Calls.{frames, Call, subscribes, acknowledges, turns, run}
use fw16_ledmatrix.Desktop.InFlight.{IsInFlight, run-IsInFlight}
use fw16_ledmatrix.Claude.Command.{Run, is_due, is_hook, joined, run-updates}
use fw16_ledmatrix.Claude.Command

abbrev hello : Hello
hello = record { version = 2; daemon_version = []; simulated = true; capabilities = [] }

abbrev last_snapshot : Snapshot
last_snapshot = record {
  assistants = record { sessions = []; health = [] };
  preview = false;
  panels = [];
  power = none;
  sequence = 3;
  hour = 12;
  minute = 34;
  frame = blank_frame;
}

-- One frame is acknowledged, and the next one is not in time.
abbrev calls : List Call
calls =
    subscribes (b's' ∷ [])
    ∷ turns (connects (ok hello) true)
    ∷ turns (receives (ok last_snapshot) true)
    ∷ acknowledges (b's' ∷ []) 3
    ∷ turns (receives (ok last_snapshot) true)
    ∷ turns expires
    ∷ []

run-IsInFlight_example : IsInFlight (run (record { bridge = new_bridge; released = 0 }) calls)
run-IsInFlight_example = run-IsInFlight calls

abbrev status_line : Run
status_line = record {
  args = utf8 "statusline" ∷ [];
  spawned = false;
  chunks = (b'a' ∷ b'b' ∷ []) ∷ (b'c' ∷ []) ∷ [];
  answers = [];
  transferred = true;
  has_root = true;
  ended = none;
}

run-updates_example : (Command.run status_line).updated ≡ (
    if is_due status_line then some (is_hook status_line.args, joined status_line.chunks) else none)
run-updates_example = run-updates status_line

abbrev file_metadata : FileType → ℕ → Metadata
file_metadata kind mode = record {
  kind = kind;
  uid = 1000;
  mode = mode;
  links = 1;
  device = 5;
  inode = 42;
}

-- A first event of a session; another helper has the lock for a moment.
abbrev payload : Payload
payload = record {
  session_id = some (b's' ∷ []);
  has_agent_id = false;
  has_parent_id = false;
  hook_event_name = some (utf8 "SessionStart");
  used_percentage = none;
}

abbrev update_calls : UpdateCalls
update_calls = record {
  user = 1000;
  create_root = ok tt;
  root = ok (file_metadata directory 448);
  create_directory = ok tt;
  directory = ok (file_metadata directory 448);
  lock_file = record { stat = none; opened = ok tt; metadata = ok (file_metadata regular 384) };
  try_lock = λ n. not (nat_beq n 0);
  clock = λ n. n * 2;
  naps = λ n. omega arith;
  feed_file = record { stat = none; opened = err not_found; metadata = err not_found };
  contents = ok [];
  from_slice = λ b. none;
  to_vec = λ f. some (b'f' ∷ []);
  new_temporary = ok tt;
  write_all = λ b. ok tt;
  sync_all = ok tt;
  persist = ok tt;
}

-- The feed is written.
session_started :
    (feed : Feed) × (update_file true 80 (some payload) 9000 update_calls ≡ some (ok (some feed)))
unfolding update_file fw16_ledmatrix.Claude.Files.accepted_update
    fw16_ledmatrix.Claude.Files.accepted fw16_ledmatrix.Claude.Files.under_lock
    fw16_ledmatrix.Claude.Files.prepared fw16_ledmatrix.Claude.Files.ensure_directory
    fw16_ledmatrix.Claude.Files.open_file fw16_ledmatrix.Claude.Files.wait_lock
    fw16_ledmatrix.Claude.Files.with_lock fw16_ledmatrix.Claude.Files.previous_of
    fw16_ledmatrix.Claude.Files.following_feed fw16_ledmatrix.Claude.Files.store_feed
    fw16_ledmatrix.Claude.Files.written fw16_ledmatrix.Claude.Files.directory_of
    fw16_ledmatrix.Claude.Files.opened_file fw16_ledmatrix.Claude.Files.private
    fw16_ledmatrix.Claude.event_of fw16_ledmatrix.Claude.update_session
    fw16_ledmatrix.Claude.ignored fw16_ledmatrix.Claude.previous_session
    fw16_ledmatrix.Claude.event_named fw16_ledmatrix.Claude.feed_after fw16_ledmatrix.Claude.foreign
    fw16_ledmatrix.Claude.new_session fw16_ledmatrix.Claude.session_after
    fw16_ledmatrix.Claude.sessions_after fw16_ledmatrix.Core.Assistant.safe_id
    fw16_ledmatrix.Core.Assistant.safe_byte fw16_ledmatrix.Client.Local.shared_rights utf8
session_started = (_, refl)

-- One greeting, two frames and the failure were sent; one frame was acknowledged.
calls_counted :
    let a = run (record { bridge = new_bridge; released = 0 }) calls in
    (frames a.bridge.sent ≡ 2) × (length a.bridge.sent ≡ 4) × (a.released ≡ 1)
unfolding fw16_ledmatrix.Desktop.Bridge.subscribe fw16_ledmatrix.Desktop.Bridge.id_rejected
    fw16_ledmatrix.Desktop.Bridge.turn fw16_ledmatrix.Desktop.Bridge.turn_of
    fw16_ledmatrix.Desktop.Bridge.turn_at fw16_ledmatrix.Desktop.Bridge.greeted
    fw16_ledmatrix.Desktop.Bridge.received fw16_ledmatrix.Desktop.Bridge.on_armed
    fw16_ledmatrix.Desktop.Bridge.send fw16_ledmatrix.Desktop.Bridge.finish
    fw16_ledmatrix.Desktop.Bridge.acknowledged fw16_ledmatrix.Desktop.Bridge.resume
    fw16_ledmatrix.Desktop.Bridge.resume_phase fw16_ledmatrix.Client.Flow.arm
    fw16_ledmatrix.Client.Flow.acknowledge fw16_ledmatrix.Client.Flow.release
    fw16_ledmatrix.Client.Flow.replace
calls_counted = (refl, refl, refl)
