-- ===== src/Daemon/Session/Served.antt =====
-- A conversation of crates/matrix-client/src/lib.rs with a session of crates/matrix-daemon/src/lib.rs, and
-- what a command of apps/desktop/src-tauri/src/main.rs returns after it.
use fw16_ledmatrix.Base.{
  ℕ, ◌≡◌, ◌≢◌, ◌≤◌, ◌⊎◌, inl, inr, refl, arith, Bool, true, Option, none, some, List, [], ◌++◌,
  Text, length, All, Result, ok, err, ap, ◌∙◌,
}
use fw16_ledmatrix.Core.Frame.{Frame, is_valid}
use fw16_ledmatrix.Core.Config.{Config, ConfigReply, validate}
use fw16_ledmatrix.Client.Failure.{
  Failure, IoKind, failure, invalid_message, unexpected_eof, disconnected, connecting, streaming,
  relabel,
}
use fw16_ledmatrix.Client.Wire.{
  Json, write_message, framed, u32_bytes, read_message, read_message-write_message,
}
use fw16_ledmatrix.Client.Messages.{
  Request, Event, DeviceReply, CapabilityReport, protocol_version, max_message,
}
use fw16_ledmatrix.Client.Check.{handshake_reply}
use fw16_ledmatrix.Client.Conversation.{
  Conversation, handshake, request, in_time, event_result, map_err, ◌then_try◌,
}
use fw16_ledmatrix.Daemon.Store.{PreviewStatus}
use fw16_ledmatrix.Daemon.Session.{
  Answer, greet, greeting_of, said, conclusion, preview_answer, identify_answer,
}
use fw16_ledmatrix.Desktop.Commands.{
  Local, asks, hardware_preview, devices, render_draft, configuration, probe, preview_of,
  devices_of, is_preview_request, is_device_request,
}

module _ (json : Json Event) where
  -- What the client reads of an event that the session writes: the event that its bytes hold, or, where
  -- `write_message` refuses it and the session is over, the end of the stream.
  abbrev pub read_event : Result (Event × List ℕ) IoKind → Result Event IoKind
  read_event (ok (event, rest)) = ok event
  read_event (err e) = err e

  abbrev pub delivered : Event → Result Event IoKind
  delivered event = elim (write_message json event) [
    | ok bytes ↦ read_event (read_message json (bytes ++ []))
    | err e ↦ err unexpected_eof
  ]

  -- A conversation with a session of the daemon that greets, and then writes one event.
  abbrev pub session_with : Text → Event → Conversation
  session_with daemon_version event = record {
    handshake_in_time = true;
    connected = ok tt;
    hello_sent = ok tt;
    hello_read = delivered (greet daemon_version (Request.hello protocol_version)).1;
    request_in_time = true;
    request_sent = λ r. ok tt;
    event_read = λ r. delivered event;
  }

  abbrev pub served : Text → Event → Local
  served daemon_version event = record {
    endpoint = ok [];
    conversation = λ endpoint. session_with daemon_version event;
  }

  -- The event's JSON text is within the limit of `write_message`.
  abbrev pub Fits : Event → Type 0
  Fits event = (b : List ℕ) × (json.to_vec event ≡ some b) × (length b ≤ max_message)

-- The client accepts the daemon's greeting.
pub greet-accepted :
    (daemon_version : Text)
    → handshake_reply (greet daemon_version (Request.hello protocol_version)).1
      ≡ ok (greeting_of daemon_version)
unfolding handshake_reply greet greeting_of
greet-accepted daemon_version = refl

module _ (json : Json Event) where
  write_message-Fits :
      (event : Event) → Fits json event → (bytes : List ℕ) × (write_message json event ≡ ok bytes)
  unfolding write_message framed
  write_message-Fits event (b, e, l) =
      (u32_bytes (length b) ++ b, rw (e, write_message) (ground (arith, l)))

  delivered_ok :
      (event : Event) (bytes : List ℕ)
      → write_message json event ≡ ok bytes
      → delivered json event ≡ ok event
  delivered_ok event bytes h =
      rw (h, delivered, read_message-write_message json event bytes [] h) refl

  delivered_err :
      (event : Event) (e : IoKind)
      → write_message json event ≡ err e
      → delivered json event ≡ err unexpected_eof
  delivered_err event e h = rw (h, delivered) refl

  asks-delivered :
      (daemon_version : Text) (event : Event) (r : Request)
      → Fits json (greet daemon_version (Request.hello protocol_version)).1
      → asks (served json daemon_version event) r
        ≡ (map_err streaming (delivered json event) then_try event_result)
  unfolding asks request handshake in_time
  asks-delivered daemon_version event r fits =
      let (bytes, w) =
        write_message-Fits (greet daemon_version (Request.hello protocol_version)).1 fits in
      rw
        (
          delivered_ok (greet daemon_version (Request.hello protocol_version)).1 bytes w,
          greet-accepted daemon_version,
        )
        refl

-- The requests that the desktop's commands send.
abbrev pub IsCommand : Request → Type 0
IsCommand (Request.hello version) = ⊥
IsCommand Request.subscribe = ⊥
IsCommand _ = Unit

-- What the command of a request returns: a reply of its own kind, or, for a draft that is not valid,
-- the failure `invalid_message`.
abbrev pub Understood : Local → Request → Type 0
Understood l (Request.begin_preview owner config seconds) =
    (s : PreviewStatus) × (hardware_preview l (Request.begin_preview owner config seconds) ≡ ok s)
Understood l (Request.cancel_preview owner) =
    (s : PreviewStatus) × (hardware_preview l (Request.cancel_preview owner) ≡ ok s)
Understood l Request.devices = (d : DeviceReply) × (devices l Request.devices ≡ ok d)
Understood l (Request.identify port) =
    (d : DeviceReply) × (devices l (Request.identify port) ≡ ok d)
Understood l (Request.cancel_identify port) =
    (d : DeviceReply) × (devices l (Request.cancel_identify port) ≡ ok d)
Understood l Request.probe = (c : CapabilityReport) × (probe l ≡ ok c)
Understood l Request.read_config = (c : ConfigReply) × (configuration l Request.read_config ≡ ok c)
Understood l (Request.validate_config config) =
    (c : ConfigReply) × (configuration l (Request.validate_config config) ≡ ok c)
Understood l (Request.apply_config expected config) =
    (c : ConfigReply) × (configuration l (Request.apply_config expected config) ≡ ok c)
Understood l (Request.render_draft config shows_sample) =
    (validate config ≡ []
      → (fs : List Frame) × (render_draft l config shows_sample ≡ ok fs)
        × (length fs ≡ length config.panels)
        × All (λ f. is_valid f ≡ true) fs)
    × (validate config ≢ [] → render_draft l config shows_sample ≡ err (failure invalid_message))
Understood l (Request.hello version) = Unit
Understood l Request.subscribe = Unit

-- The session's event, and what the desktop's command makes of it where it reads that event.
abbrev pub Replies : DeviceReply → Bool → Request → Answer → Type 0
Replies listing identified r a =
    (event : Event) × (said a listing identified ≡ some event)
    × ((l : Local) → asks l r ≡ event_result event → Understood l r)

-- The session writes an event, and the desktop's command understands it; or `write_message` refuses the
-- event as too long, the session is over, and the command's request fails as disconnected.
abbrev pub Served : Json Event → Text → DeviceReply → Bool → Request → Answer → Type 0
Served json v listing identified r a =
    (event : Event) × (said a listing identified ≡ some event)
    × (((bytes : List ℕ) × (write_message json event ≡ ok bytes)
          × Understood (served json v event) r)
        ⊎ (¬ Fits json event × (asks (served json v event) r ≡ err (failure disconnected))))

streaming_eof :
    ◌≡◌ {A = Result Event Failure}
      (map_err streaming (err unexpected_eof) then_try event_result)
      (err (failure disconnected))
unfolding streaming connecting relabel failure
streaming_eof = refl

module _ (json : Json Event) where
  pub Replies-Served :
      (v : Text) (listing : DeviceReply) (identified : Bool) (r : Request) (a : Answer)
      → Fits json (greet v (Request.hello protocol_version)).1
      → Replies listing identified r a
      → Served json v listing identified r a
  Replies-Served v listing identified r a fits (event, said_it, understood) =
      go (write_message json event) refl
    where
      asked :
          (o : Result Event IoKind)
          → delivered json event ≡ o
          → asks (served json v event) r ≡ (map_err streaming o then_try event_result)
      asked o e = rw (← e) (asks-delivered json v event r fits)

      go :
          (o : Result (List ℕ) IoKind)
          → write_message json event ≡ o
          → Served json v listing identified r a
      go (ok bytes) e = (
        event,
        said_it,
        inl (
          bytes,
          e,
          understood (served json v event) (asked (ok event) (delivered_ok json event bytes e)),
        ),
      )
      go (err k) e = (
        event,
        said_it,
        inr (
          λ f. let (bytes, w) = write_message-Fits json event f in absurd (cc (e, w)),
          asked (err unexpected_eof) (delivered_err json event k e) ∙ streaming_eof,
        ),
      )

pub preview-Replies :
    (listing : DeviceReply) (identified : Bool) (owner o : Text) (config : Config) (seconds : ℕ)
    (b : Result ℕ PreviewStatus)
    → Replies listing identified (Request.begin_preview owner config seconds) (preview_answer o b)
unfolding said preview_answer conclusion hardware_preview preview_of event_result is_preview_request
preview-Replies listing identified owner o config seconds (ok generation) =
    (_, refl, λ l q. (_, ap (λ x. x then_try preview_of) q))
preview-Replies listing identified owner o config seconds (err status) =
    (_, refl, λ l q. (_, ap (λ x. x then_try preview_of) q))

pub identify-Replies :
    (listing reply : DeviceReply) (identified : Bool) (port : Text) (b : Option ℕ)
    → Replies listing identified (Request.identify port) (identify_answer reply b)
unfolding said identify_answer conclusion devices devices_of event_result is_device_request
identify-Replies listing reply identified port none =
    (_, refl, λ l q. (_, ap (λ x. x then_try devices_of) q))
identify-Replies listing reply identified port (some flag) =
    (_, refl, λ l q. (_, ap (λ x. x then_try devices_of) q))
