-- ===== src/Desktop/Commands.antt =====
-- The commands of apps/desktop/src-tauri/src/main.rs that pass one request on to the daemon. The
-- endpoint and the conversation with it are a parameter.
use fw16_ledmatrix.Base.{
  ℕ, Option, none, some, Bool, true, false, Result, ok, err, Text, if◌then◌else◌, not, List,
}
use fw16_ledmatrix.Core.Config.{Config, ConfigReply}
use fw16_ledmatrix.Core.Frame.{Frame}
use fw16_ledmatrix.Client.Failure.{Failure, IoKind, failure, connecting, invalid_message}
use fw16_ledmatrix.Client.Messages.{
  Request, Event, DeviceReply, CapabilityReport, preview_event, devices_event, rendered_event,
  configuration_event, report_event,
}
use fw16_ledmatrix.Client.Conversation.{Conversation, Done, request, ◌then_try◌, map_err}
use fw16_ledmatrix.Client.Startup.{Process, start, sibling_daemon}
use fw16_ledmatrix.Daemon.Store.{PreviewStatus}

-- `local::endpoint`, and what a conversation at an endpoint is like.
pub record Local : Type 0 where
  pub endpoint : Result Text IoKind
  pub conversation : Text → Conversation

unfoldable pub asks : Local → Request → Result Event Failure
asks l r = map_err connecting l.endpoint then_try λ endpoint. request (l.conversation endpoint) r

unfoldable pub is_preview_request : Request → Bool
is_preview_request (Request.begin_preview owner config seconds) = true
is_preview_request (Request.cancel_preview owner) = true
is_preview_request _ = false

unfoldable pub preview_of : Event → Result PreviewStatus Failure
unfolding failure
preview_of (preview_event status) = ok status
preview_of _ = err (failure invalid_message)

unfoldable pub hardware_preview : Local → Request → Result PreviewStatus Failure
unfolding is_preview_request failure
hardware_preview l r =
    if not (is_preview_request r)
    then err (failure invalid_message)
    else asks l r then_try preview_of

unfoldable pub is_device_request : Request → Bool
is_device_request Request.devices = true
is_device_request (Request.identify port) = true
is_device_request (Request.cancel_identify port) = true
is_device_request _ = false

unfoldable pub devices_of : Event → Result DeviceReply Failure
unfolding failure
devices_of (devices_event reply) = ok reply
devices_of _ = err (failure invalid_message)

unfoldable pub devices : Local → Request → Result DeviceReply Failure
unfolding is_device_request failure
devices l r =
    if not (is_device_request r)
    then err (failure invalid_message)
    else asks l r then_try devices_of

unfoldable pub frames_of : Event → Result (List Frame) Failure
unfolding failure
frames_of (rendered_event frames shows_sample) = ok frames
frames_of _ = err (failure invalid_message)

unfoldable pub render_draft : Local → Config → Bool → Result (List Frame) Failure
render_draft l config shows_sample =
    asks l (Request.render_draft config shows_sample) then_try frames_of

unfoldable pub is_config_request : Request → Bool
is_config_request Request.read_config = true
is_config_request (Request.validate_config config) = true
is_config_request (Request.apply_config expected config) = true
is_config_request _ = false

unfoldable pub configuration_of : Event → Result ConfigReply Failure
unfolding failure
configuration_of (configuration_event reply) = ok reply
configuration_of _ = err (failure invalid_message)

unfoldable pub configuration : Local → Request → Result ConfigReply Failure
unfolding is_config_request failure
configuration l r =
    if not (is_config_request r)
    then err (failure invalid_message)
    else asks l r then_try configuration_of

unfoldable pub report_of : Event → Result CapabilityReport Failure
unfolding failure
report_of (report_event report) = ok report
report_of _ = err (failure invalid_message)

unfoldable pub probe : Local → Result CapabilityReport Failure
probe l = asks l Request.probe then_try report_of

-- The command returns when the daemon is ready; `none` is out of fuel.
unfoldable pub daemon_ready : Option (Result (Option ℕ) Failure) → Option (Result Done Failure)
daemon_ready none = none
daemon_ready (some (ok pid)) = some (ok tt)
daemon_ready (some (err f)) = some (err f)

-- `process` is what `start` meets with a given program and endpoint.
unfoldable pub start_daemon :
    Option (Option Text) → Text → Local → (Text → Text → Process) → Option (Result Done Failure)
unfolding daemon_ready
start_daemon program suffix l process =
    elim (sibling_daemon program suffix then_try λ executable.
    map_err connecting l.endpoint then_try λ endpoint. ok (process executable endpoint)) [
      | err f ↦ some (err f)
      | ok p ↦ daemon_ready (start p).1
    ]
