-- ===== src/Daemon/Feeds/Files.antt =====
-- `bytes` and `poll` of crates/matrix-daemon/src/feeds.rs: which files are read at all, and what is sent.
use fw16_ledmatrix.Base.{
  ℕ, not, ◌||◌, Option, none, some, List, [], ◌∷◌, utf8, nat_eq, ◌==◌, if◌then◌else◌, ltb, length,
  take, Result, ok, err,
}
use fw16_ledmatrix.Core.Assistant.{Provider, claude, opencode_openai, AssistantState, FeedHealth}
use fw16_ledmatrix.Client.Failure.{IoKind, permission_denied, other_kind}
use fw16_ledmatrix.Client.Local.{Metadata, is_file, shared_rights}

abbrev pub max_feed : ℕ
max_feed = 65536

-- What was read of the file, after at most one byte more than is allowed.
unfoldable pub limited_bytes : Result (List ℕ) IoKind → Result (List ℕ) IoKind
limited_bytes (err e) = err e
limited_bytes (ok contents) =
    if ltb max_feed (length (take 65537 contents)) then err other_kind else ok (take 65537 contents)

unfoldable pub regular_bytes : ℕ → Metadata → Result (List ℕ) IoKind → Result (List ℕ) IoKind
unfolding limited_bytes shared_rights
regular_bytes user m contents =
    if not (is_file m.kind)
    then err other_kind
    else if not (m.uid == user) || not (shared_rights m.mode == 0)
    then err permission_denied
    else limited_bytes contents

-- `metadata` is that of the path, not of what a link points to; `contents` is what opening and reading it
-- gives.
unfoldable pub bytes : ℕ → Result Metadata IoKind → Result (List ℕ) IoKind → Result (List ℕ) IoKind
unfolding regular_bytes
bytes user (err e) contents = err e
bytes user (ok m) contents = regular_bytes user m contents

unfoldable pub failed_health : Provider → FeedHealth
unfolding utf8
failed_health provider = record {
  provider = provider;
  status = utf8 "error";
  detail = utf8 "Metadata scan failed or timed out; unrelated widgets remain active.";
}

-- What a turn of `poll` sends: the scan, `none` where it panics or takes longer than two seconds.
unfoldable pub poll_state : Option AssistantState → AssistantState
unfolding failed_health
poll_state (some state) = state
poll_state none = record {
  sessions = [];
  health = failed_health claude ∷ failed_health opencode_openai ∷ [];
}
