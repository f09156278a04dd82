-- ===== src/Examples/Daemon.antt =====
-- The theorems on the daemon's clock, feeds and devices at concrete inputs, with a serial port that takes
-- a number of commands and then fails.
use fw16_ledmatrix.Base.{
  ◌≤◌, ℕ, ◌+◌, ◌≡◌, ◌<◌, inl, refl, arith, true, false, some, none, List, [], ◌∷◌, ◌++◌, Text,
  length, ltb, leb, text_beq_iff, if◌then◌else◌, All, Returns, ok, In, is_some,
}
use fw16_ledmatrix.Core.Frame.{blank_frame, is_valid}
use fw16_ledmatrix.Core.Assistant.{claude, opencode_openai, Feed, Session}
use fw16_ledmatrix.Core.Brightness.{valid, default_brightness}
use fw16_ledmatrix.Core.Protocol.{command}
use fw16_ledmatrix.Core.Config.{
  Config, validate, errors_if, count_rejected, panels_errors, panel_errors, override_rejected,
  binding_rejected, name_rejected, slots_rejected, slot_errors, widget_rejected, insert_name,
}
use fw16_ledmatrix.Core.Layout.{PanelLayout, presentations, full_gauge, defaults}
use fw16_ledmatrix.Core.Layout.Render.{base_intensity}
use fw16_ledmatrix.Core.Layout.Render.Slots.{HasBytes}
use fw16_ledmatrix.Client.Messages.{Device, PowerReading, PowerStatus, frame_event}
use fw16_ledmatrix.Client.Check.{next_frame}
use fw16_ledmatrix.Daemon.Store.{memory, output_at}
use fw16_ledmatrix.Daemon.Feeds.{FeedFiles, FilePath, entries, scan}
use fw16_ledmatrix.Daemon.Feeds.Bounds.{IsArranged, scan-IsArranged}
use fw16_ledmatrix.Daemon.Clock.{Inputs, tick, tick_readings}
use fw16_ledmatrix.Daemon.Clock.Accepted.{tick-accepted}
use fw16_ledmatrix.Daemon.Devices.Panel.{
  Serial, Panel, Job, new_panel, ready, attempt, after_open, lit, refresh, shows, kept, settle, job,
  failed, open_panel, opened, and_then, another_owner, frame_beq,
}
use fw16_ledmatrix.Daemon.Devices.Panel.Safety.{job-failed, open_panel-retries}
use fw16_ledmatrix.Daemon.Devices.Panel.Shown.{job-returns}
use fw16_ledmatrix.Daemon.Devices.Panel.Sending.{AttemptStops}
use fw16_ledmatrix.Daemon.Devices.Route.{
  Handle, plugged, routed, retain_panels, retain-quarantined, resolve, resolve-IsRoute, IsRoute,
  resolve_panels, resolve_panel, add_route, sole, stands_at,
}
use fw16_ledmatrix.Daemon.Devices.Panels.{panel, registered, panel-bounded}
use fw16_ledmatrix.Daemon.Devices.Registry.{
  Registry, begin, cancel, flag, identifying, lasting, grant, entry,
}
use fw16_ledmatrix.Daemon.Devices.Registry.Holds.{Act, begins, cancels, clears, after_all}
use fw16_ledmatrix.Daemon.Devices.Registry.Once.{begin-once}
use fw16_ledmatrix.Examples.Floats.{whole_numbers}

-- The world is the list of the commands sent, the last one first.
abbrev pub Sent : Type 0
Sent = List (List ℕ)

abbrev pub wire : ℕ → Serial Sent
wire limit = record {
  Port = Unit;
  open_port = λ _ w. (some tt, w);
  write_all = λ _ b w. if ltb (length w) limit then (true, b ∷ w) else (false, w);
  flush = λ _ w. (true, w);
  read_version = λ _ w. (some (1, 2, 0), w);
  canonical = λ _ _. none;
  processes = λ _. [];
  own_pid = 1;
}

abbrev port_name : Text
port_name = b'p' ∷ []

abbrev shining : Job
shining = record {
  name = port_name;
  frame = blank_frame;
  brightness = some 32;
  started = 40000;
  checked = 40000;
  written = 40001;
  failed_at = 40002;
  stopping_first = false;
  stopping_open = false;
  stopping_last = false;
}

abbrev fresh : Panel Unit
fresh = new_panel 0

abbrev shown : Panel Unit
shown = record {
  port = some tt;
  firmware = none;
  frame = some blank_frame;
  last_write = 1000;
  retry_at = 0;
  error = none;
  needs_replug = false;
  confirmed_off = false;
  brightness = some 32;
}

abbrev alive : List ℕ
alive = command 0x00 (32 ∷ [])

job-failed_example :
    let r = settle (wire 0) shining (false, shown, []) in
    (job (wire 0) shining shown [] ≡ some r)
    × (r.1 ≡ [])
    × AttemptStops (wire 0) shining shown [] []
    × ((k : Job) → k.started < shining.failed_at + 5000 → job (wire 0) k r.0 r.1 ≡ some r)
    × (is_some shown.port ≡ true → (k : Job) → job (wire 0) k r.0 r.1 ≡ some r)
unfolding ready attempt after_open lit refresh shows kept open_panel frame_beq command blank_frame
job-failed_example = job-failed (wire 0) shining shown shown [] [] refl refl refl

job-returns_example : (r : Panel Unit × Sent) × (job (wire 9) shining fresh [] ≡ some r)
unfolding is_valid blank_frame
job-returns_example = job-returns (wire 9) shining fresh [] refl

-- The panel shows another level, so that the whole frame is sent: the level, nine columns and the flush.
abbrev dim : Panel Unit
dim = record shown { brightness = some 31 }

abbrev repainted : Panel Unit
repainted = record shown { last_write = 40001 }

abbrev sent_by : Job → Panel Unit → Sent
sent_by j p = elim (attempt (wire 99) j p []) [ none ↦ [] | some r ↦ r.2 ]

abbrev darkening : Job
darkening = record shining { brightness = none }

abbrev asleep : Panel Unit
asleep = record shown { port = none; frame = none; brightness = none; confirmed_off = true }

open_panel-retries_example :
    ((failed fresh 40000).needs_replug ≡ false)
    × (ready (failed fresh 40000) 45000 ≡ leb (40000 + 5000) 45000)
unfolding open_panel opened another_owner and_then command new_panel
open_panel-retries_example =
    open_panel-retries (wire 1) port_name fresh fresh [] (command 0x03 (0 ∷ []) ∷ []) 40000 45000
      refl

abbrev device : Device
device = record { port = port_name; location = some (b'l' ∷ []); firmware = none; status = [] }

abbrev broken : Handle Unit
broken = record {
  name = port_name;
  panel = record shown { needs_replug = true; port = none };
  locked = false;
}

retain-quarantined_example :
    (plugged (device ∷ []) port_name ≡ true
      → In broken (retain_panels (wire 9) [] (device ∷ []) (broken ∷ []) []).0)
    × (plugged (device ∷ []) port_name ≡ false
        → routed [] port_name ≡ false
        → broken.locked ≡ false
        → ¬ In broken (retain_panels (wire 9) [] (device ∷ []) (broken ∷ []) []).0)
retain-quarantined_example =
    retain-quarantined (wire 9) [] (device ∷ []) (broken ∷ []) broken [] (inl refl) refl

panel-bounded_example :
    let r = panel (device ∷ []) (λ _. true) port_name 5 (broken ∷ []) in
    (length r.1 ≤ 2)
    × (r.0 ≡ true → registered port_name r.1 ≡ true)
    × ((h : Handle Unit) → In h (broken ∷ []) → true ≡ true → In h r.1)
panel-bounded_example =
    panel-bounded (device ∷ []) (λ _. true) port_name 5 (broken ∷ []) (omega arith)

abbrev bound_panel : PanelLayout
bound_panel = record {
  name = b'a' ∷ [];
  template = full_gauge;
  slots = none ∷ [];
  binding = some (b'l' ∷ []);
  brightness_override = none;
}

abbrev bound_config : Config
bound_config = record {
  schema_version = 2;
  clock_intensity = 180;
  brightness = default_brightness;
  panels = bound_panel ∷ [];
}

resolve-IsRoute_example : IsRoute (bound_panel ∷ []) (device ∷ []) (b'a' ∷ []) port_name
unfolding resolve resolve_panels resolve_panel add_route sole stands_at
resolve-IsRoute_example =
    resolve-IsRoute bound_config (device ∷ []) (b'a' ∷ []) port_name (inl refl)

abbrev idle : Registry
idle = record { flags = []; active = [] }

abbrev flashing : Registry
flashing = record { flags = true ∷ []; active = (port_name, 0) ∷ [] }

-- While the port is being identified somebody else asks for it, and it is unplugged meanwhile.
abbrev meanwhile : List Act
meanwhile = begins port_name (some []) ∷ cancels (b'q' ∷ []) ∷ clears 4 ∷ []

begin-once_example :
    let t = after_all flashing meanwhile in
    (flag t 0 ≡ true)
    × ((begin t port_name (some (device ∷ []))).0 ≡ none)
    × (flag (cancel t port_name) 0 ≡ false)
    × (plugged (device ∷ []) port_name ≡ true
        → (begin (cancel t port_name) port_name (some (device ∷ []))).0
          ≡ some (length (cancel t port_name).flags))
unfolding begin plugged identifying lasting grant entry
begin-once_example =
    begin-once idle flashing port_name (some (device ∷ [])) meanwhile (device ∷ []) 0 tt refl (
      tt,
      (
        (λ e. absurd (ground (arith, (text_beq_iff (b'q' ∷ []) port_name).1 e))),
        ((λ e. omega (arith, e)), tt),
      ),
    )

abbrev feed : Feed
feed = record {
  schema_version = 1;
  instance_id = b'a' ∷ [];
  provider = claude;
  heartbeat_ms = 9000;
  sessions =
      record {
        session_id = b'a' ∷ [];
        parent_id = none;
        context_percent = some 40;
        busy = true;
        last_activity_ms = 1000;
      }
      ∷ [];
}

abbrev feed_path : FilePath
feed_path = record {
  path = b'a' ∷ [];
  extension = some (b'j' ∷ b's' ∷ b'o' ∷ b'n' ∷ []);
  stem = some (b'a' ∷ []);
}

abbrev feeds : FeedFiles
feeds = record { listing = λ _. entries (feed_path ∷ []); feed_of = λ _. some feed }

scan-IsArranged_example :
    (front : List Session) × (back : List Session) × ((scan feeds 9500).sessions ≡ front ++ back)
    × IsArranged feeds claude 9500 front
    × IsArranged feeds opencode_openai 9500 back
scan-IsArranged_example = scan-IsArranged feeds 9500

abbrev reading : PowerReading
reading = record {
  status = PowerStatus.available;
  percent = some 62;
  charging = some true;
  ac = some true;
  updated_at = [];
}

abbrev inputs : Inputs
inputs = record {
  hour = 17;
  minute = 45;
  power = reading;
  assistants = record { sessions = []; health = [] };
  output_now = 9000;
  preview_now = 9001;
}

default_config-valid : validate (output_at memory 9000).0 ≡ []
unfolding memory output_at defaults validate errors_if valid count_rejected panels_errors
    panel_errors override_rejected binding_rejected name_rejected slots_rejected presentations
    slot_errors widget_rejected insert_name
default_config-valid = refl

default_config-bytes :
    All
      (λ (p : PanelLayout).
        All (HasBytes (tick_readings ℕ inputs (output_at memory 9000).0)) p.slots)
      (output_at memory 9000).0.panels
unfolding memory output_at defaults base_intensity tick_readings
default_config-bytes =
    ((omega arith, (omega arith, tt)), ((omega arith, (omega arith, (omega arith, tt))), tt))

tick-accepted_example :
    Returns (λ r. next_frame (frame_event r.0) ≡ ok r.0) (tick ℕ inputs 41 memory)
tick-accepted_example =
    tick-accepted ℕ inputs 41 memory (omega arith) (omega arith)
      (default_config-valid, default_config-bytes) (omega arith) refl
