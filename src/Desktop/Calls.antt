-- ===== src/Desktop/Calls.antt =====
-- Every sequence of what the user interface and the task of apps/desktop/src-tauri/src/main.rs do to the
-- bridge.
use fw16_ledmatrix.Base.{ℕ, suc, Option, none, some, List, [], ◌∷◌, Text, Result, ok, err}
use fw16_ledmatrix.Client.Failure.{Failure}
use fw16_ledmatrix.Client.Messages.{Event, frame_event}
use fw16_ledmatrix.Desktop.Bridge.{Bridge, subscribe, acknowledged, Turn, turn}

pub data Call : Type 0 where
  subscribes : Text → Call
  acknowledges : Text → ℕ → Call
  turns : Turn → Call

-- The bridge, and how many frames the user interface has acknowledged since its latest subscription.
pub record Account : Type 0 where
  pub bridge : Bridge
  pub released : ℕ

abbrev pub subscribed : Account → Result Text Failure × Bridge → Account
subscribed a (ok id, b) = record { bridge = b; released = 0 }
subscribed a (err f, b) = record { bridge = b; released = a.released }

abbrev pub counted : Account → Option ℕ × Bridge → Account
counted a (none, b) = record { bridge = b; released = a.released }
counted a (some channel, b) = record { bridge = b; released = suc a.released }

abbrev pub call : Account → Call → Account
call a (subscribes id) = subscribed a (subscribe id a.bridge)
call a (acknowledges id sequence) = counted a (acknowledged id sequence a.bridge)
call a (turns t) = record { bridge = turn t a.bridge; released = a.released }

abbrev pub run : Account → List Call → Account
run a [] = a
run a (c ∷ cs) = run (call a c) cs

-- The frames among the events that were sent.
abbrev pub frames : List Event → ℕ
frames [] = 0
frames (frame_event snapshot ∷ es) = suc (frames es)
frames (_ ∷ es) = frames es
