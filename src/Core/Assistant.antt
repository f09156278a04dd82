-- ===== src/Core/Assistant.antt =====
-- crates/matrix-core/src/assistant.rs: metadata of assistant sessions. Identifiers are UTF-8 texts,
-- times are milliseconds in a u64.
pub mod Normalize
pub mod Select
use Prim.Native.Nat.{compare, Ordering}
use fw16_ledmatrix.Base.{
  ℕ, ◌+◌, ◌-◌, ◌≡◌, Bool, true, false, not, ◌&&◌, ◌||◌, Option, none, some, List, [], ◌∷◌, ◌++◌,
  ◌↔◌, arith, Text, text_compare, utf8, ltb, leb, ◌==◌, nat_eq, PartialEq, text_eq, if◌then◌else◌,
  length, all, keep, is_empty, is_ascii_alphanumeric, is_none_or, is_some_and, is_some, Result, ok,
  err,
}

pub data Provider : Type 0 where
  claude opencode_openai : Provider

abbrev pub provider_beq : Provider → Provider → Bool
provider_beq claude claude = true
provider_beq opencode_openai opencode_openai = true
provider_beq _ _ = false

pub provider_beq_iff : (a b : Provider) → (provider_beq a b ≡ true) ↔ (a ≡ b)
provider_beq_iff a b = ground arith

instance abbrev pub provider_eq : PartialEq Provider
provider_eq = record { same-iff = provider_beq_iff; same = provider_beq }

unfoldable pub directory : Provider → Text
unfolding utf8
directory claude = utf8 "claude"
directory opencode_openai = utf8 "opencode"

unfoldable pub safe_byte : ℕ → Bool
safe_byte b = is_ascii_alphanumeric b || (b == b'-' || b == b'_')

unfoldable pub safe_id : Text → Bool
unfolding safe_byte
safe_id id = not (is_empty id) && (leb (length id) 128 && all safe_byte id)

pub record FeedSession : Type 0 where
  pub session_id : Text
  pub parent_id : Option Text
  pub context_percent : Option ℕ
  pub busy : Bool
  pub last_activity_ms : ℕ

pub record Feed : Type 0 where
  pub schema_version : ℕ
  pub instance_id : Text
  pub provider : Provider
  pub heartbeat_ms : ℕ
  pub sessions : List FeedSession

pub record Session : Type 0 where
  pub provider : Provider
  pub instance_id : Text
  pub session_id : Text
  pub context_percent : Option ℕ
  pub busy : Bool
  pub last_activity_ms : ℕ
  pub heartbeat_ms : ℕ

pub record FeedHealth : Type 0 where
  pub provider : Provider
  pub status : Text
  pub detail : Text

pub record AssistantState : Type 0 where
  pub sessions : List Session
  pub health : List FeedHealth

abbrev then_with : Ordering → Ordering → Ordering
then_with Ordering.eq o = o
then_with Ordering.lt o = Ordering.lt
then_with Ordering.gt o = Ordering.gt

-- The tuple order of `selected`: activity first, then the session, then the instance.
unfoldable pub compare_sessions : Session → Session → Ordering
compare_sessions a b =
    then_with (compare a.last_activity_ms b.last_activity_ms) (
      then_with (text_compare a.session_id b.session_id) (text_compare a.instance_id b.instance_id))

-- `Iterator::max_by`: of equals the last.
unfoldable pub later : Session → Session → Session
unfolding compare_sessions
later a b = elim (compare_sessions a b) [ Ordering.gt ↦ a | _ ↦ b ]

unfoldable pub max_from : Session → List Session → Session
max_from best [] = best
max_from best (s ∷ ss) = max_from (later best s) ss

unfoldable pub max_session : List Session → Option Session
max_session [] = none
max_session (s ∷ ss) = some (max_from s ss)

unfoldable pub eligible : Provider → Option Text → Session → Bool
eligible provider pin s = s.provider == provider && is_none_or pin (λ id. s.session_id == id)

unfoldable pub selected : List Session → Provider → Option Text → Option Session
selected sessions provider pin = max_session (keep (eligible provider pin) sessions)

abbrev pub u64_max : ℕ
u64_max = 18446744073709551615

unfoldable pub saturating_add : ℕ → ℕ → ℕ
saturating_add a b = if leb (a + b) u64_max then a + b else u64_max

-- The string errors of `normalize`.
pub data NormalizeError : Type 0 where
  invalid_feed stale_heartbeat invalid_session : NormalizeError

unfoldable pub session_rejected : ℕ → FeedSession → Bool
unfolding safe_id saturating_add
session_rejected now s =
    not (safe_id s.session_id)
    || (is_some_and s.parent_id (λ id. not (safe_id id))
        || (is_some_and s.context_percent (λ p. ltb 1000 p)
            || ltb (saturating_add now 5000) s.last_activity_ms))

unfoldable pub normalized : Feed → Provider → FeedSession → Session
normalized feed provider s = record {
  provider = provider;
  instance_id = feed.instance_id;
  session_id = s.session_id;
  context_percent = s.context_percent;
  busy = s.busy;
  last_activity_ms = s.last_activity_ms;
  heartbeat_ms = feed.heartbeat_ms;
}

-- The loop over the sessions, `acc` what it has pushed.
unfoldable pub normalize_sessions :
    Feed → Provider → ℕ → List FeedSession → List Session → Result (List Session) NormalizeError
unfolding session_rejected normalized
normalize_sessions feed provider now [] acc = ok acc
normalize_sessions feed provider now (s ∷ ss) acc =
    let next =
      normalize_sessions feed provider now ss
        (if is_some s.parent_id then acc else acc ++ normalized feed provider s ∷ []) in
    if session_rejected now s then err invalid_session else next

unfoldable pub feed_rejected : Feed → Provider → ℕ → Bool
unfolding safe_id saturating_add
feed_rejected feed provider now =
    not (feed.schema_version == 1)
    || (not (feed.provider == provider)
        || (not (safe_id feed.instance_id)
            || (ltb 16 (length feed.sessions) || ltb (saturating_add now 5000) feed.heartbeat_ms)))

-- `now.saturating_sub(..)` is the subtraction of ℕ.
unfoldable pub normalize : Feed → Provider → ℕ → Result (List Session) NormalizeError
normalize feed provider now =
    if feed_rejected feed provider now
    then err invalid_feed
    else if leb 60000 (now - feed.heartbeat_ms)
    then err stale_heartbeat
    else normalize_sessions feed provider now feed.sessions []
