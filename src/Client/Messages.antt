-- ===== src/Client/Messages.antt =====
-- crates/matrix-client/src/lib.rs, devices.rs and capabilities.rs, and matrix-core/src/power.rs: the
-- data that client and daemon exchange.
use fw16_ledmatrix.Base.{ℕ, Bool, Option, List, Text}
use fw16_ledmatrix.Core.Frame.{Frame}
use fw16_ledmatrix.Core.Assistant.{AssistantState}
use fw16_ledmatrix.Core.Config.{Config, ConfigReply}
use fw16_ledmatrix.Daemon.Store.{PreviewStatus}
use fw16_ledmatrix.Client.Failure.{ErrorCode}

abbrev pub protocol_version : ℕ
protocol_version = 2

abbrev pub max_message : ℕ
max_message = 65536

pub data PowerStatus : Type 0 where
  available unavailable error : PowerStatus

pub record PowerReading : Type 0 where
  pub status : PowerStatus
  pub percent : Option ℕ
  pub charging : Option Bool
  pub ac : Option Bool
  pub updated_at : Text

pub record Device : Type 0 where
  pub port : Text
  pub location : Option Text
  pub firmware : Option Text
  pub status : Text

pub record DeviceReply : Type 0 where
  pub devices : List Device
  pub message : Text

pub data CapabilityState : Type 0 where
  available unavailable error not_verified : CapabilityState

pub record Capability : Type 0 where
  pub name : Text
  pub state : CapabilityState
  pub detail : Text

pub record CapabilityReport : Type 0 where
  pub os : Text
  pub architecture : Text
  pub desktop : Text
  pub panel_count : ℕ
  pub capabilities : List Capability

pub data Request : Type 0 where
  begin_preview : Text → Config → ℕ → Request
  cancel_preview : Text → Request
  devices : Request
  identify : Text → Request
  cancel_identify : Text → Request
  hello : ℕ → Request
  subscribe : Request
  probe : Request
  render_draft : Config → Bool → Request
  read_config : Request
  validate_config : Config → Request
  apply_config : ℕ → Config → Request

pub record Hello : Type 0 where
  pub version : ℕ
  pub daemon_version : Text
  pub simulated : Bool
  pub capabilities : List Text

pub record PanelFrame : Type 0 where
  pub brightness : Option ℕ
  pub name : Text
  pub frame : Frame
  pub binding : Option Text

pub record Snapshot : Type 0 where
  pub assistants : AssistantState
  pub preview : Bool
  pub panels : List PanelFrame
  pub power : Option PowerReading
  pub sequence : ℕ
  pub hour : ℕ
  pub minute : ℕ
  pub frame : Frame

pub data Event : Type 0 where
  preview_event : PreviewStatus → Event
  devices_event : DeviceReply → Event
  rendered_event : List Frame → Bool → Event
  configuration_event : ConfigReply → Event
  hello_event : Hello → Event
  frame_event : Snapshot → Event
  error_event : ErrorCode → Text → Event
  report_event : CapabilityReport → Event
