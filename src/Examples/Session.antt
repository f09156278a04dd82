-- ===== src/Examples/Session.antt =====
-- The theorems on the daemon's sessions at a concrete input: a client begins a preview, which is shown,
-- and goes away.
use fw16_ledmatrix.Base.{
  Returns, ℕ, ◌≤◌, ◌<◌, ◌≡◌, refl, sym, ap, subst, inl, inr, arith, Bool, true, false, ◌&&◌, Option,
  none, some, List, [], ◌∷◌, utf8, Text, text_beq, text_beq_iff, nat_beq, length, In, Bool-cases,
  if◌then◌else◌,
}
use fw16_ledmatrix.Client.Messages.{
  Request, Event, Hello, hello_event, preview_event, protocol_version,
}
use fw16_ledmatrix.Client.Wire.{Json}
use fw16_ledmatrix.Core.Config.{
  validate, errors_if, count_rejected, panels_errors, panel_errors, override_rejected,
  binding_rejected, name_rejected, slots_rejected, slot_errors,
}
use fw16_ledmatrix.Core.Brightness.{valid}
use fw16_ledmatrix.Core.Layout.{presentations}
use fw16_ledmatrix.Daemon.Store.{output_at, begin_preview, PreviewStatus}
use fw16_ledmatrix.Daemon.Devices.Registry.{Registry}
use fw16_ledmatrix.Daemon.Store.History.{IsStore}
use fw16_ledmatrix.Daemon.Session.Answers.{respond-Served}
use fw16_ledmatrix.Daemon.Session.Served.{Served, Fits}
use fw16_ledmatrix.Daemon.Session.{
  Answer, greeting_of, Shared, Surroundings, previewing, holding, respond, greet, max_clients,
  preview_answer,
}
use fw16_ledmatrix.Daemon.Session.Steps.{
  System, Reach, here, later, accept, hear, ask, show, count_open, phase_after, greeted,
}
use fw16_ledmatrix.Daemon.Session.Safety.{Held, reached-system}
use fw16_ledmatrix.Examples.Floats.{whole_numbers}
use fw16_ledmatrix.Examples.Store.{
  gauge_config, Disk, disk, old_disk, started, owner, started-IsStore,
}

abbrev no_registry : Registry
no_registry = record { flags = []; active = [] }

abbrev starting : Shared Disk
starting = record { store = started; registry = no_registry; disk = old_disk }

abbrev around : Surroundings
around = record {
  now = 5000;
  hour = 12;
  minute = 34;
  present = some [];
  listing = record { devices = []; message = [] };
  report = record { os = []; architecture = []; desktop = []; panel_count = 0; capabilities = [] };
}

abbrev begins : Request
begins = Request.begin_preview owner gauge_config 10

abbrev during : Shared Disk
during = record starting { store = (begin_preview started owner gauge_config 10 5000).1 }

abbrev reached : System Disk
reached = record {
  shared = record during { store = (output_at during.store 6000).1 };
  sessions = previewing owner 5 ∷ [];
}

previews : Reach ℕ (disk true) (utf8 "0.1.0") (record { shared = starting; sessions = [] }) reached
unfolding respond preview_answer phase_after greet greeted begin_preview validate errors_if valid
    count_rejected panels_errors panel_errors override_rejected binding_rejected name_rejected
    slots_rejected presentations slot_errors
previews =
    later
      (later (later (later here (accept (omega arith) refl)) (hear 0 (Request.hello 2) refl refl))
        (ask 0 begins around (holding (previewing owner 5)) during refl refl refl))
      (show 6000 refl)

reached-system_example :
    IsStore reached.shared.store
    × (count_open reached.sessions ≤ max_clients)
    × Held reached.shared.store.preview reached.sessions
    × (((o : Text) (generation : ℕ) → ¬ In (previewing o generation) reached.sessions)
        → (now : ℕ) → (output_at reached.shared.store now).0 ≡ reached.shared.store.saved.config)
reached-system_example =
    reached-system (disk true) (utf8 "0.1.0") starting reached started-IsStore refl previews

abbrev version : Text
version = b'0' ∷ []

abbrev are_known : List Text → Bool
are_known (a ∷ b ∷ []) = text_beq a (utf8 "simulated_panel") && text_beq b (utf8 "clock_frames")
are_known _ = false

known_capabilities :
    (l : List Text) → are_known l ≡ true → l ≡ utf8 "simulated_panel" ∷ utf8 "clock_frames" ∷ []
known_capabilities [] e = absurd (cc e)
known_capabilities (a ∷ []) e = absurd (cc e)
known_capabilities (a ∷ b ∷ []) e =
    ground (arith, text_beq_iff a (utf8 "simulated_panel"), text_beq_iff b (utf8 "clock_frames"))
known_capabilities (a ∷ b ∷ c ∷ l) e = absurd (cc e)

abbrev is_greeting : Hello → Bool
is_greeting h =
    nat_beq h.version 2
    && (h.simulated && (text_beq h.daemon_version version && are_known h.capabilities))

known_greeting : (h : Hello) → is_greeting h ≡ true → h ≡ greeting_of version
unfolding greeting_of
known_greeting h e =
    ground (arith, text_beq_iff h.daemon_version version, known_capabilities h.capabilities)

-- The only events that the example's codec knows: the greeting, and the end of a preview.
abbrev to_bytes : Event → Option (List ℕ)
to_bytes (hello_event h) = if is_greeting h then some (1 ∷ []) else none
to_bytes (preview_event PreviewStatus.ended) = some (2 ∷ [])
to_bytes _ = none

abbrev from_bytes : List ℕ → Option Event
from_bytes (n ∷ []) =
    if nat_beq n 1
    then some (hello_event (greeting_of version))
    else if nat_beq n 2
    then some (preview_event PreviewStatus.ended)
    else none
from_bytes _ = none

from_bytes-to_bytes : (v : Event) {b : List ℕ} → to_bytes v ≡ some b → from_bytes b ≡ some v
from_bytes-to_bytes (hello_event h) {b} e = elim (Bool-cases (is_greeting h)) [
  | inl g ↦
      subst (λ (z : List ℕ). from_bytes z ≡ some (hello_event h)) {x = 1 ∷ []} {y = b}
        (ground (arith, g, e)) (ap (λ (x : Hello). some (hello_event x)) (sym (known_greeting h g)))
  | inr g ↦ absurd (ground (arith, g, e))
]
from_bytes-to_bytes (preview_event PreviewStatus.ended) {b} e =
    subst (λ (z : List ℕ). from_bytes z ≡ some (preview_event PreviewStatus.ended)) {x = 2 ∷ []}
      {y = b} (ground (arith, e)) refl
from_bytes-to_bytes _ {b} e = absurd (ground (arith, e))

to_bytes_nonempty : (v : Event) {b : List ℕ} → to_bytes v ≡ some b → 0 < length b
to_bytes_nonempty (hello_event h) {b} e = ground (arith, e)
to_bytes_nonempty (preview_event PreviewStatus.ended) {b} e = ground (arith, e)
to_bytes_nonempty _ {b} e = absurd (ground (arith, e))

abbrev event_json : Json Event
event_json = record {
  to_vec = to_bytes;
  from_slice = from_bytes;
  from_slice-to_vec = λ v e. from_bytes-to_bytes v e;
  to_vec_nonempty = λ v e. to_bytes_nonempty v e;
}

greeting-Fits : Fits event_json (greet version (Request.hello protocol_version)).1
unfolding greet greeting_of
greeting-Fits = (1 ∷ [], refl, omega arith)

respond-Served_example :
    Returns
      (λ (x : Answer × Shared Disk). Served event_json version around.listing true begins x.0)
      (respond ℕ (disk true) begins around starting)
respond-Served_example =
    respond-Served ℕ (disk true) event_json version around.listing true begins around starting
      greeting-Fits tt tt
