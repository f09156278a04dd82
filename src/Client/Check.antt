-- ===== src/Client/Check.antt =====
-- The client's checks in crates/matrix-client/src/lib.rs: the daemon's greeting and each snapshot.
use fw16_ledmatrix.Base.{
  ℕ, Bool, not, ◌&&◌, utf8, text_eq, nat_eq, ltb, leb, ◌==◌, if◌then◌else◌, length, all, any,
  is_empty, is_none_or, Result, ok, err,
}
use fw16_ledmatrix.Core.Frame.{is_valid}
use fw16_ledmatrix.Core.Assistant.{Session, safe_id}
use fw16_ledmatrix.Client.Failure.{Failure, failure, incompatible, invalid_message}
use fw16_ledmatrix.Client.Messages.{
  Event, Hello, Snapshot, PanelFrame, protocol_version, hello_event, frame_event, error_event,
}

abbrev pub max_time : ℕ
max_time = 8640000000000000

unfoldable pub session_fits : Session → Bool
session_fits s =
    safe_id s.session_id
    && (safe_id s.instance_id
        && (is_none_or s.context_percent (λ p. leb p 1000)
            && (leb s.last_activity_ms max_time && leb s.heartbeat_ms max_time)))

unfoldable pub panel_fits : PanelFrame → Bool
panel_fits p = is_valid p.frame && (not (is_empty p.name) && leb (length p.name) 32)

unfoldable pub snapshot_fits : Snapshot → Bool
snapshot_fits s =
    is_valid s.frame
    && (ltb s.hour 24
        && (ltb s.minute 60
            && (leb (length s.panels) 2
                && (leb (length s.assistants.sessions) 64
                    && (all session_fits s.assistants.sessions && all panel_fits s.panels)))))

-- `next_frame`, once an event has arrived.
unfoldable pub next_frame : Event → Result Snapshot Failure
next_frame (frame_event s) = if snapshot_fits s then ok s else err (failure invalid_message)
next_frame (error_event code message) = err (failure code)
next_frame _ = err (failure invalid_message)

-- The greeting that `handshake` accepts.
unfoldable pub handshake_reply : Event → Result Hello Failure
unfolding utf8
handshake_reply (hello_event h) =
    if h.version == protocol_version
      && (h.simulated && any (λ c. c == utf8 "clock_frames") h.capabilities)
    then ok h
    else err (failure incompatible)
handshake_reply (error_event code message) = err (failure code)
handshake_reply _ = err (failure incompatible)
