-- ===== src/Client/Conversation.antt =====
-- `Client::handshake`, `connect` and `request` of crates/matrix-client/src/lib.rs: one conversation with
-- a daemon. What each call on the stream comes to is a parameter, as is whether a time-out runs out.
use fw16_ledmatrix.Base.{Bool, true, false, Result, ok, err}
use fw16_ledmatrix.Client.Failure.{Failure, IoKind, failure, connecting, streaming, timed_out}
use fw16_ledmatrix.Client.Messages.{Request, Event, Hello, error_event}
use fw16_ledmatrix.Client.Check.{handshake_reply}

-- A call that returns nothing.
abbrev pub Done : Type 0
Done = Unit

-- `hello_read` and `event_read` are what `read_message` returns.
pub record Conversation : Type 0 where
  pub handshake_in_time : Bool
  pub connected : Result Done IoKind
  pub hello_sent : Result Done IoKind
  pub hello_read : Result Event IoKind
  pub request_in_time : Bool
  pub request_sent : Request → Result Done IoKind
  pub event_read : Request → Result Event IoKind

-- `map_err` and `?`.
infixl 5 ◌then_try◌
abbrev pub ◌then_try◌ :
    {A B : Type 0} → Result A Failure → (A → Result B Failure) → Result B Failure
ok a then_try f = f a
err e then_try f = err e

abbrev pub map_err : {A : Type 0} → (IoKind → Failure) → Result A IoKind → Result A Failure
map_err f (ok a) = ok a
map_err f (err e) = err (f e)

unfoldable pub in_time : {A : Type 0} → Bool → Result A Failure → Result A Failure
unfolding failure
in_time true r = r
in_time false r = err (failure timed_out)

unfoldable pub handshake : Conversation → Result Hello Failure
unfolding in_time
handshake c = in_time c.handshake_in_time (
    map_err connecting c.connected then_try λ _. map_err streaming c.hello_sent then_try λ _.
    map_err streaming c.hello_read then_try handshake_reply)

unfoldable pub connect : Conversation → Result Hello Failure
connect c = handshake c then_try λ hello.
    map_err streaming (c.request_sent Request.subscribe) then_try λ _. ok hello

unfoldable pub event_result : Event → Result Event Failure
event_result (error_event code message) = err (failure code)
event_result event = ok event

unfoldable pub request : Conversation → Request → Result Event Failure
unfolding in_time event_result
request c r = handshake c then_try λ _. in_time c.request_in_time (
    map_err streaming (c.request_sent r) then_try λ _.
    map_err streaming (c.event_read r) then_try event_result)
