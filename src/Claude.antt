-- ===== src/Claude.antt =====
-- crates/matrix-claude/src/lib.rs: `update`, from the parsed payload and the parsed previous file to the
-- feed that is written. The files and the lock around it are in Claude.Files.
pub mod Accepted
pub mod Command
pub mod Files
pub mod Attempts
pub mod Locked
use fw16_ledmatrix.Base.{
  ℕ, Bool, true, false, not, ◌&&◌, ◌||◌, Option, none, some, List, [], ◌∷◌, Text, utf8, text_eq,
  option_text_eq, nat_eq, ◌==◌, ltb, if◌then◌else◌, length, is_empty, is_some, is_some_and, any,
  ◌>>=◌, unwrap_or, option_filter, option_map,
}
use fw16_ledmatrix.Core.Assistant.{Provider, claude, provider_eq, Feed, FeedSession, safe_id}

-- What the code asks of a number of the language's 64-bit floats, which are a parameter: whether it is
-- finite, its comparisons with whole numbers (false for one that is no number), and `round` with
-- `as u16`.
pub record Number : Type 0 where
  pub is_finite : Bool
  pub at_least : ℕ → Bool
  pub at_most : ℕ → Bool
  pub round_u16 : ℕ

-- What the code reads of the JSON value. `used_percentage` is what `as_f64` answers.
pub record Payload : Type 0 where
  pub session_id : Option Text
  pub has_agent_id : Bool
  pub has_parent_id : Bool
  pub hook_event_name : Option Text
  pub used_percentage : Option Number

pub data HookEvent : Type 0 where
  statusline session_start session_end user_prompt_submit stop stop_failure : HookEvent

unfoldable pub event_named : Text → Option HookEvent
unfolding utf8
event_named t =
    if t == utf8 "statusline"
    then some statusline
    else if t == utf8 "SessionStart"
    then some session_start
    else if t == utf8 "SessionEnd"
    then some session_end
    else if t == utf8 "UserPromptSubmit"
    then some user_prompt_submit
    else if t == utf8 "Stop"
    then some stop
    else if t == utf8 "StopFailure"
    then some stop_failure
    else none

unfoldable pub event_of : Bool → Payload → Option HookEvent
unfolding event_named
event_of hook p = if hook then event_named (unwrap_or p.hook_event_name []) else some statusline

abbrev is_statusline : HookEvent → Bool
is_statusline statusline = true
is_statusline _ = false

-- A previous file that is another's: `return Ok(())`.
unfoldable pub foreign : Text → Feed → Bool
foreign id f =
    not (f.schema_version == 1)
    || (not (f.instance_id == id) || (not (f.provider == claude) || ltb 1 (length f.sessions)))

unfoldable pub new_session : Text → FeedSession
new_session id = record {
  session_id = id;
  parent_id = none;
  context_percent = none;
  busy = false;
  last_activity_ms = 0;
}

abbrev first : List FeedSession → Option FeedSession
first [] = none
first (s ∷ ss) = some s

unfoldable pub previous_session : Text → Option Feed → FeedSession
unfolding new_session
previous_session id previous =
    unwrap_or (previous >>= λ (f : Feed). first f.sessions) (new_session id)

-- `is_finite() && (0.0..=1000.0).contains(value)`.
unfoldable pub is_percentage : Number → Bool
is_percentage n = n.is_finite && (n.at_least 0 && n.at_most 1000)

-- The filter, and the rounding of what passes it.
unfoldable pub percentage_of : Option Number → Option ℕ
unfolding is_percentage
percentage_of used = option_map (λ (n : Number). n.round_u16) (option_filter is_percentage used)

unfoldable pub session_after : HookEvent → Payload → ℕ → FeedSession → FeedSession
unfolding percentage_of
session_after session_start p now s = record s {
  busy = false;
  context_percent = none;
  last_activity_ms = now;
}
session_after user_prompt_submit p now s = record s { busy = true; last_activity_ms = now }
session_after stop p now s = record s { busy = false; last_activity_ms = now }
session_after stop_failure p now s = record s { busy = false; last_activity_ms = now }
session_after statusline p now s = record s { context_percent = percentage_of p.used_percentage }
session_after session_end p now s = s

unfoldable pub sessions_after : HookEvent → Payload → ℕ → FeedSession → List FeedSession
unfolding session_after
sessions_after session_end p now s = []
sessions_after event p now s = session_after event p now s ∷ []

-- The guards that leave the file as it is.
unfoldable pub ignored : HookEvent → Text → Option Feed → FeedSession → ℕ → Bool
unfolding foreign
ignored event id previous s now =
    is_some_and previous (foreign id)
    || (not (s.session_id == id)
        || (is_some s.parent_id
            || ((is_statusline event && is_some_and previous (λ (f : Feed). is_empty f.sessions))
                || (ltb now s.last_activity_ms
                    || is_some_and previous (λ (f : Feed). ltb now f.heartbeat_ms)))))

unfoldable pub feed_after : HookEvent → Payload → Text → FeedSession → ℕ → Feed
feed_after event p id s now = record {
  schema_version = 1;
  instance_id = id;
  provider = claude;
  heartbeat_ms = now;
  sessions = sessions_after event p now s;
}

unfoldable pub update_session : HookEvent → Payload → Text → Option Feed → ℕ → Option Feed
update_session event p id previous now =
    if ignored event id previous (previous_session id previous) now
    then none
    else some (feed_after event p id (previous_session id previous) now)

-- The feed that is written, `none` where the call leaves everything as it is.
unfoldable pub update : Bool → Payload → Option Feed → ℕ → Option Feed
update hook p previous now = do
  id ← option_filter safe_id p.session_id
  event ← (if p.has_agent_id || p.has_parent_id then none else event_of hook p)
  update_session event p id previous now
