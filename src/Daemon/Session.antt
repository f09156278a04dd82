-- ===== src/Daemon/Session.antt =====
-- `configured_session` of crates/matrix-daemon/src/lib.rs: what a client's first message and its request
-- do. What the code reads of the clock, of the serial ports and of the capability probe at a request is
-- its `Surroundings`; `none` is a panic.
pub mod Steps
pub mod Slots
pub mod Requests
pub mod Safety
pub mod Served
pub mod Answers
use fw16_ledmatrix.Base.{
  ℕ, Bool, true, false, not, Option, none, some, List, [], ◌∷◌, Text, utf8, nat_eq, ◌==◌,
  if◌then◌else◌, is_empty, ◌>>=◌, Result, ok, err, option_map,
}
use fw16_ledmatrix.Core.Frame.{Frame}
use fw16_ledmatrix.Core.Brightness.{Brightness}
use fw16_ledmatrix.Core.Config.{Config, ConfigStatus, ConfigReply, validate}
use fw16_ledmatrix.Core.Layout.{PanelLayout}
use fw16_ledmatrix.Core.Layout.Float.{Float}
use fw16_ledmatrix.Core.Layout.Render.{Readings, default_readings, sample, render_configured}
use fw16_ledmatrix.Client.Failure.{ErrorCode, incompatible, invalid_message, failure}
use fw16_ledmatrix.Client.Messages.{
  Request, Event, Hello, Device, DeviceReply, CapabilityReport, protocol_version, preview_event,
  devices_event, rendered_event, configuration_event, hello_event, error_event, report_event,
}
use fw16_ledmatrix.Daemon.Store.{
  Store, PreviewStatus, begin_preview, cancel_preview, validate_reply, apply,
}
use fw16_ledmatrix.Daemon.Store.Files.{Files}
use fw16_ledmatrix.Daemon.Devices.Registry.{Registry, begin, cancel}

abbrev pub max_clients : ℕ
max_clients = 32

unfoldable pub error_reply : ErrorCode → Event
unfolding failure
error_reply code = error_event code (failure code).message

unfoldable pub greeting_of : Text → Hello
unfolding utf8
greeting_of daemon_version = record {
  version = protocol_version;
  daemon_version = daemon_version;
  simulated = true;
  capabilities = utf8 "simulated_panel" ∷ utf8 "clock_frames" ∷ [];
}

-- The answer to the first message, and whether a second one is read.
unfoldable pub greet : Text → Request → Bool × Event
greet daemon_version (Request.hello version) =
    if version == protocol_version
    then (true, hello_event (greeting_of daemon_version))
    else (false, error_reply incompatible)
greet daemon_version _ = (false, error_reply incompatible)

pub record Surroundings : Type 0 where
  pub now : ℕ
  pub hour : ℕ
  pub minute : ℕ
  -- `enumerate`, and what `manager().list()` answers.
  pub present : Option (List Device)
  pub listing : DeviceReply
  pub report : CapabilityReport

-- Where a session stands when it waits. A preview holds its guard, an identification its flag.
pub data Phase : Type 0 where
  greeting : Phase
  waiting : Phase
  previewing : Text → ℕ → Phase
  identifying : ℕ → Phase
  streaming : Phase
  closed : Phase

-- A request comes to one event for `write_message`, which may refuse it (Session.Served), begins something,
-- or ends the session with an error.
pub data Answer : Type 0 where
  reply : Event → Answer
  holding : Phase → Answer
  hang_up : Answer

unfoldable pub refused_message : Text
unfolding utf8
refused_message = utf8 "Device is missing, unsupported or already identifying. Refresh and retry."

unfoldable pub preview_answer : Text → Result ℕ PreviewStatus → Answer
preview_answer owner (ok generation) = holding (previewing owner generation)
preview_answer owner (err status) = reply (preview_event status)

unfoldable pub cancel_status : Bool → PreviewStatus
cancel_status true = PreviewStatus.cancelled
cancel_status false = PreviewStatus.not_owner

unfoldable pub identify_answer : DeviceReply → Option ℕ → Answer
identify_answer listing none = reply (devices_event (record listing { message = refused_message }))
identify_answer listing (some flag) = holding (identifying flag)

-- What a session that held a preview or an identification writes when it is over; `identified` is
-- whether `identify` succeeded.
unfoldable pub identified_message : Bool → Text
unfolding utf8
identified_message true =
    utf8 "Identification ended; latest applied frame restored (blank if unassigned)."
identified_message false =
    utf8
      "Identification failed. Check exclusive access, firmware and connection, then reconnect the panel before retrying."

unfoldable pub conclusion : Phase → DeviceReply → Bool → Option Event
conclusion (previewing owner generation) listing identified =
    some (preview_event PreviewStatus.ended)
conclusion (identifying flag) listing identified =
    some (devices_event (record listing { message = identified_message identified }))
conclusion _ listing identified = none

-- The event that a request's session writes in the end.
unfoldable pub said : Answer → DeviceReply → Bool → Option Event
said (reply event) listing identified = some event
said (holding phase) listing identified = conclusion phase listing identified
said hang_up listing identified = none

unfoldable pub read_reply : Store → ConfigReply
read_reply s = record { status = ConfigStatus.read; saved = s.saved; errors = [] }

-- What the sessions share.
pub record Shared (W : Type 0) : Type 0 where
  pub store : Store
  pub registry : Registry
  pub disk : W

module _ {F : Type 0} ⦃fl : Float F⦄ where
  unfoldable pub draft_frames : List PanelLayout → Readings F → Brightness → Option (List Frame)
  draft_frames [] r global = some []
  draft_frames (p ∷ ps) r global = do
    frame ← render_configured p r global
    rest ← draft_frames ps r global
    some (frame ∷ rest)

module _ (F : Type 0) ⦃fl : Float F⦄ where
  unfoldable pub draft_readings : Surroundings → Config → Bool → Readings F
  draft_readings e c shows_sample =
      let r : Readings F =
        if shows_sample
        then sample e.hour e.minute
        else record default_readings { hour = e.hour; minute = e.minute } in
      record r { default_clock_intensity = c.clock_intensity }

  unfoldable pub render_answer : Surroundings → Config → Bool → Option Answer
  render_answer e c shows_sample =
      if not (is_empty (validate c))
      then some (reply (error_reply invalid_message))
      else option_map (λ frames. reply (rendered_event frames shows_sample))
          (draft_frames c.panels (draft_readings e c shows_sample) c.brightness)

  module _ {W : Type 0} (fs : Files W) where
    unfoldable pub respond : Request → Surroundings → Shared W → Option (Answer × Shared W)
    respond Request.probe e sh = some (reply (report_event e.report), sh)
    respond (Request.cancel_preview owner) e sh =
        let r = cancel_preview sh.store owner none in
        some (reply (preview_event (cancel_status r.0)), record sh { store = r.1 })
    respond (Request.begin_preview owner config seconds) e sh =
        let r = begin_preview sh.store owner config seconds e.now in
        some (preview_answer owner r.0, record sh { store = r.1 })
    respond Request.devices e sh = some (reply (devices_event e.listing), sh)
    respond (Request.cancel_identify port) e sh =
        some (reply (devices_event e.listing), record sh { registry = cancel sh.registry port })
    respond (Request.identify port) e sh =
        let r = begin sh.registry port e.present in
        some (identify_answer e.listing r.0, record sh { registry = r.1 })
    respond Request.read_config e sh = some (reply (configuration_event (read_reply sh.store)), sh)
    respond (Request.validate_config config) e sh =
        some (reply (configuration_event (validate_reply sh.store config)), sh)
    respond (Request.apply_config expected config) e sh =
        let r = apply fs sh.store expected config sh.disk in
        some (reply (configuration_event r.0), record sh { store = r.1; disk = r.2 })
    respond (Request.render_draft config shows_sample) e sh =
        option_map (λ (a : Answer). (a, sh)) (render_answer e config shows_sample)
    respond Request.subscribe e sh = some (holding streaming, sh)
    respond (Request.hello version) e sh = some (hang_up, sh)
