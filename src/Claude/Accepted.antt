-- ===== src/Claude/Accepted.antt =====
-- What the helper of crates/matrix-claude/src/lib.rs writes is what the daemon's
-- crates/matrix-core/src/assistant.rs accepts.
use fw16_ledmatrix.Base.{
  ℕ, ◌≤◌, ◌≡◌, ◌≢◌, arith, Bool, true, Option, some, [], Text, is_none_or, leb, all,
}
use fw16_ledmatrix.Core.Assistant.{Feed, FeedSession}
use fw16_ledmatrix.Claude.{
  Number, Payload, HookEvent, statusline, ignored, feed_after, update_session,
}

-- Documented behaviour of the floats: a number from 0 to a whole one rounds to that one at most, and
-- `as u16` makes no number greater.
abbrev pub IsRounding : Number → Type 0
IsRounding n = (k : ℕ) → n.at_least 0 ≡ true → n.at_most k ≡ true → n.round_u16 ≤ k

-- The percentages are those that the helper writes.
unfoldable pub percent_fits : Option ℕ → Bool
percent_fits o = is_none_or o (λ p. leb p 1000)

unfoldable pub previous_fits : Feed → Bool
previous_fits f = all (λ (s : FeedSession). percent_fits s.context_percent) f.sessions

-- Once a session has ended, a late status line does not bring it back, and no event turns the clock of
-- a file back.
pub update_session-guards :
    (event : HookEvent) (p : Payload) (id : Text) (old new : Feed) (now : ℕ)
    → update_session event p id (some old) now ≡ some new
    → (old.sessions ≡ [] → event ≢ statusline)
      × (old.heartbeat_ms ≤ new.heartbeat_ms)
      × (new.heartbeat_ms ≡ now)
unfolding update_session ignored feed_after
update_session-guards event p id old new now h = ground arith
