-- ===== src/Daemon/Feeds.antt =====
-- crates/matrix-daemon/src/feeds.rs: one scan of the metadata directories. What the file system and
-- the JSON reader answer is a parameter.
pub mod Bounds
pub mod Files
use fw16_ledmatrix.Base.{
  ℕ, suc, ◌+◌, Bool, true, false, not, Option, none, some, List, [], ◌∷◌, ◌++◌, Text, text_eq,
  option_text_eq, utf8, ltb, leb, ◌==◌, if◌then◌else◌, length, keep, take, is_some_and, Result, ok,
  err, text_compare,
}
use Prim.Native.Nat.{Ordering}
use fw16_ledmatrix.Core.Assistant.{
  Provider, claude, opencode_openai, directory, Feed, Session, FeedHealth, AssistantState,
  normalize, NormalizeError, stale_heartbeat, invalid_feed, invalid_session,
}
use fw16_ledmatrix.Core.Config.{seen}

pub record FilePath : Type 0 where
  pub path : Text
  pub extension : Option Text
  -- The stem, where it is UTF-8.
  pub stem : Option Text

-- What `symlink_metadata` and `read_dir` say of a provider's directory.
pub data Listing : Type 0 where
  entries : List FilePath → Listing
  unreadable : Listing
  not_a_directory : Listing
  absent : Listing
  failed : Listing

-- `listing` for a provider's directory below the root; `feed_of` is `bytes` and `from_slice`.
pub record FeedFiles : Type 0 where
  pub listing : Text → Listing
  pub feed_of : FilePath → Option Feed

-- `sort` and `sort_by_key`: a stable sort, `before x y` where `x` need not move behind `y`.
unfoldable pub insert_sorted : {A : Type 0} → (A → A → Bool) → A → List A → List A
insert_sorted before x [] = x ∷ []
insert_sorted before x (y ∷ ys) = if before x y then x ∷ y ∷ ys else y ∷ insert_sorted before x ys

unfoldable pub sort : {A : Type 0} → (A → A → Bool) → List A → List A
unfolding insert_sorted
sort before [] = []
sort before (x ∷ xs) = insert_sorted before x (sort before xs)

unfoldable pub path_before : FilePath → FilePath → Bool
path_before a b = elim (text_compare a.path b.path) [ Ordering.gt ↦ false | _ ↦ true ]

-- `Reverse(key)`: the greater first.
unfoldable pub newer_heartbeat : Session → Session → Bool
newer_heartbeat a b = leb b.heartbeat_ms a.heartbeat_ms

unfoldable pub newer_activity : Session → Session → Bool
newer_activity a b = leb b.last_activity_ms a.last_activity_ms

-- `retain(|session| seen.insert(session_id))`.
unfoldable pub retain_first : List Text → List Session → List Session
unfolding seen
retain_first before [] = []
retain_first before (s ∷ ss) =
    if seen s.session_id before
    then retain_first before ss
    else s ∷ retain_first (s.session_id ∷ before) ss

pub data ScanStatus : Type 0 where
  missing stale : ScanStatus

-- The variables of one provider's scan.
pub record Scan : Type 0 where
  pub found : List Session
  pub status : ScanStatus
  pub errors : ℕ
  pub live : ℕ

abbrev pub start_scan : Scan
start_scan = record { found = []; status = missing; errors = 0; live = 0 }

unfoldable pub take_feed : Scan → Result (List Session) NormalizeError → Scan
take_feed s (ok records) = record s { live = s.live + 1; found = s.found ++ records }
take_feed s (err stale_heartbeat) = record s { status = stale }
take_feed s (err invalid_feed) = record s { errors = s.errors + 1 }
take_feed s (err invalid_session) = record s { errors = s.errors + 1 }

unfoldable pub json_paths : List FilePath → List FilePath
unfolding utf8
json_paths ps =
    sort path_before (take 17 (keep (λ p. is_some_and p.extension (λ e. e == utf8 "json")) ps))

module _ (files : FeedFiles) (provider : Provider) (now : ℕ) where
  -- One file: it must be a feed, and named after its instance.
  unfoldable pub scan_file : Scan → FilePath → Scan
  scan_file s path = elim (files.feed_of path) [
    | none ↦ record s { errors = s.errors + 1 }
    | some feed ↦
        if not (path.stem == some feed.instance_id)
        then record s { errors = s.errors + 1 }
        else take_feed s (normalize feed provider now)
  ]

  unfoldable pub scan_files : Scan → List FilePath → Scan
  scan_files s [] = s
  scan_files s (p ∷ ps) = scan_files (scan_file s p) ps

  unfoldable pub scan_listing : Listing → Scan
  scan_listing (entries ps) =
      let paths = json_paths ps in
      scan_files (if ltb 16 (length paths) then record start_scan { errors = 1 } else start_scan)
        (take 16 paths)
  scan_listing unreadable = record start_scan { errors = 1 }
  scan_listing not_a_directory = record start_scan { errors = 1 }
  scan_listing absent = start_scan
  scan_listing failed = record start_scan { errors = 1 }

unfoldable pub status_text : Scan → Text
unfolding utf8
status_text s =
    if ltb 0 s.errors
    then utf8 "error_or_limited"
    else if ltb 0 s.live
    then utf8 "live"
    else elim s.status [ missing ↦ utf8 "missing" | stale ↦ utf8 "stale" ]

-- Of two records of a session the newer heartbeat stays; the most recently active come first.
unfoldable pub arrange : List Session → List Session
arrange ss = take 32 (sort newer_activity (retain_first [] (sort newer_heartbeat ss)))

unfoldable pub health_of : Provider → Scan → FeedHealth
unfolding utf8
health_of provider s = record {
  provider = provider;
  status = status_text s;
  detail =
      utf8
        "Metadata-only feeds; main sessions only; 60-second heartbeat expiry. Missing pins stay unavailable. Errors/limits affect only this provider.";
}

unfoldable pub scan_provider : FeedFiles → ℕ → Provider → Scan
scan_provider files now provider =
    scan_listing files provider now (files.listing (directory provider))

unfoldable pub scan : FeedFiles → ℕ → AssistantState
scan files now =
    let first = scan_provider files now claude in
    let second = scan_provider files now opencode_openai in
    record {
      sessions = arrange first.found ++ arrange second.found;
      health = health_of claude first ∷ health_of opencode_openai second ∷ [];
    }
