-- ===== src/Client/Failure.antt =====
-- crates/matrix-client/src/failure.rs: the error codes and how input and output errors map to them.
use fw16_ledmatrix.Base.{Text, utf8}

pub data ErrorCode : Type 0 where
  unavailable incompatible access_denied timed_out invalid_message disconnected : ErrorCode
  already_running start_failed slow_consumer bridge_unavailable : ErrorCode

-- `io::ErrorKind`, as far as the code tells the kinds apart.
pub data IoKind : Type 0 where
  not_found connection_refused permission_denied io_timed_out invalid_data addr_in_use : IoKind
  would_block unexpected_eof already_exists other_kind : IoKind

pub record Failure : Type 0 where
  pub code : ErrorCode
  pub message : Text

unfoldable pub message_of : ErrorCode → Text
unfolding utf8
message_of unavailable = utf8 "No daemon is listening. Start the daemon or retry the connection."
message_of incompatible =
    utf8
      "The running daemon uses an incompatible protocol or lacks required capabilities. Update matching binaries; it will not be replaced automatically."
message_of access_denied =
    utf8
      "Access to the local daemon was denied. Check endpoint ownership and user permissions; do not run the app as administrator."
message_of timed_out = utf8 "The daemon did not respond in time. Check its health, then retry."
message_of invalid_message =
    utf8 "The daemon sent an invalid control message. Check that desktop and daemon versions match."
message_of disconnected =
    utf8
      "The daemon connection closed. Your local UI state is retained; retry after restarting the daemon."
message_of already_running =
    utf8
      "A daemon or another process already owns this endpoint. Retry connecting; no running process was replaced."
message_of start_failed =
    utf8
      "The daemon could not start. Build or install matrix-daemon alongside the desktop executable, then retry."
message_of slow_consumer =
    utf8
      "The desktop stopped acknowledging frames. The bounded subscription was closed; retry to receive the latest state."
message_of bridge_unavailable =
    utf8
      "The native desktop bridge is unavailable. Open the Tauri application rather than the Vite page in a browser."

unfoldable pub failure : ErrorCode → Failure
failure code = record { code = code; message = message_of code }

unfoldable pub connecting : IoKind → Failure
unfolding failure
connecting not_found = failure unavailable
connecting connection_refused = failure unavailable
connecting permission_denied = failure access_denied
connecting io_timed_out = failure timed_out
connecting invalid_data = failure invalid_message
connecting addr_in_use = failure already_running
connecting would_block = failure disconnected
connecting unexpected_eof = failure disconnected
connecting already_exists = failure disconnected
connecting other_kind = failure disconnected

-- In an open stream nothing is `unavailable` any more.
unfoldable pub relabel : Failure → ErrorCode → Failure
unfolding failure
relabel f unavailable = failure disconnected
relabel f _ = f

unfoldable pub streaming : IoKind → Failure
unfolding connecting relabel
streaming kind = relabel (connecting kind) (connecting kind).code
