-- ===== src/Daemon/Feeds/Bounds.antt =====
-- What a scan (crates/matrix-daemon/src/feeds.rs) hands on, whatever the directories hold.
use fw16_ledmatrix.Base.{
  ℕ, zero, suc, ◌-◌, ◌≤◌, ◌<◌, ◌≡◌, ◌⊎◌, inl, inr, refl, sym, arith, Bool, true, false, some, List,
  [], ◌∷◌, ◌++◌, map, length, All, All-append, All-keep, All-take, length-take, take, Text, Result,
  ok, err, Bool-cases, Option-cases, In, ◌==◌, option_text_eq, if◌then◌else◌, ltb, In-keep, is_none,
  option_text_beq_iff,
}
use fw16_ledmatrix.Core.Assistant.{
  Provider, claude, opencode_openai, Feed, FeedSession, Session, normalize, saturating_add,
  stale_heartbeat, invalid_feed, invalid_session, NormalizeError,
}
use fw16_ledmatrix.Core.Assistant.Normalize.{IsSession, IsFeed, mains, listed, normalize-ok_iff}
use fw16_ledmatrix.Core.Config.{seen}
use fw16_ledmatrix.Core.Config.Spec.{IsId, OnSome, Distinct}
use fw16_ledmatrix.Core.Config.Checks.{seen-not_In}
use fw16_ledmatrix.Daemon.Feeds.{
  FeedFiles, FilePath, Listing, entries, unreadable, not_a_directory, absent, failed, insert_sorted,
  sort, retain_first, arrange, Scan, start_scan, take_feed, scan_file, scan_files, scan_listing,
  scan_provider, scan, json_paths, newer_activity, newer_heartbeat,
}

-- A session that the daemon shows: it stands as a main session in a live feed of its provider, which was
-- read from a file that is named after the feed's instance.
pub record IsShown (files : FeedFiles) (provider : Provider) (now : ℕ) (s : Session) : Type 0 where
  pub file : FilePath
  pub feed : Feed
  pub read_from : files.feed_of file ≡ some feed
  pub named_after : file.stem ≡ some feed.instance_id
  pub live : IsFeed feed provider now
  pub source : FeedSession
  pub there : In source feed.sessions
  pub main : is_none source.parent_id ≡ true
  pub same : s ≡ listed feed provider source
  pub same_provider : s.provider ≡ provider
  pub safe_session : IsId s.session_id
  pub safe_instance : IsId s.instance_id
  pub percent : OnSome (λ p. p ≤ 1000) s.context_percent
  pub active_by : s.last_activity_ms ≤ saturating_add now 5000
  pub beat_by : s.heartbeat_ms ≤ saturating_add now 5000
  pub beats : now - s.heartbeat_ms < 60000

module _ (files : FeedFiles) (provider : Provider) (now : ℕ) where
  listed-IsShown :
      (path : FilePath) (feed : Feed) (ss : List FeedSession)
      → files.feed_of path ≡ some feed
      → path.stem ≡ some feed.instance_id
      → IsFeed feed provider now
      → All (IsSession now) ss
      → ((t : FeedSession) → In t ss → In t feed.sessions × (is_none t.parent_id ≡ true))
      → All (IsShown files provider now) (map (listed feed provider) ss)
  listed-IsShown path feed [] e n v h inside = tt
  listed-IsShown path feed (s ∷ ss) e n v h inside = (
    record {
      file = path;
      feed = feed;
      read_from = e;
      named_after = n;
      live = v;
      source = s;
      there = (inside s (inl refl)).0;
      main = (inside s (inl refl)).1;
      same = refl;
      same_provider = refl;
      safe_session = h.0.safe_session;
      safe_instance = v.safe_instance;
      percent = h.0.percent;
      active_by = h.0.not_future;
      beat_by = v.not_future;
      beats = v.fresh;
    },
    listed-IsShown path feed ss e n v h.1 (λ t m. inside t (inr m)),
  )

  normalize-IsShown :
      (path : FilePath) (feed : Feed) (out : List Session)
      → files.feed_of path ≡ some feed
      → path.stem ≡ some feed.instance_id
      → normalize feed provider now ≡ ok out
      → All (IsShown files provider now) out
  normalize-IsShown path feed out f n e =
      let (v, same) = (normalize-ok_iff feed provider now out).0 e in
      rw same (
        listed-IsShown path feed (mains feed.sessions) f n v
          (All-keep (IsSession now) _ feed.sessions v.each_session)
          (λ t m. In-keep (λ s. is_none s.parent_id) feed.sessions t m))

  take_feed-IsShown :
      (s : Scan) (path : FilePath) (feed : Feed) (r : Result (List Session) NormalizeError)
      → files.feed_of path ≡ some feed
      → path.stem ≡ some feed.instance_id
      → normalize feed provider now ≡ r
      → All (IsShown files provider now) s.found
      → All (IsShown files provider now) (take_feed s r).found
  unfolding take_feed
  take_feed-IsShown s path feed (ok out) f n e h =
      All-append (IsShown files provider now) s.found out h (normalize-IsShown path feed out f n e)
  take_feed-IsShown s path feed (err stale_heartbeat) f n e h = h
  take_feed-IsShown s path feed (err invalid_feed) f n e h = h
  take_feed-IsShown s path feed (err invalid_session) f n e h = h

  scan_file-IsShown :
      (s : Scan) (p : FilePath)
      → All (IsShown files provider now) s.found
      → All (IsShown files provider now) (scan_file files provider now s p).found
  unfolding scan_file
  scan_file-IsShown s p h = elim (Option-cases (files.feed_of p)) [
    | inl e ↦ rw (e, scan_file) h
    | inr (feed, e) ↦ elim (Bool-cases (p.stem == some feed.instance_id)) [
      | inl same ↦
          rw (e, scan_file, same)
            (take_feed-IsShown s p feed (normalize feed provider now) e
              ((option_text_beq_iff p.stem (some feed.instance_id)).0 same) refl h)
      | inr other ↦ rw (e, scan_file, other) h
    ]
  ]

  scan_files-IsShown :
      (s : Scan) (ps : List FilePath)
      → All (IsShown files provider now) s.found
      → All (IsShown files provider now) (scan_files files provider now s ps).found
  unfolding scan_files
  scan_files-IsShown s [] h = h
  scan_files-IsShown s (p ∷ ps) h =
      scan_files-IsShown (scan_file files provider now s p) ps (scan_file-IsShown s p h)

  scan_listing-IsShown :
      (l : Listing) → All (IsShown files provider now) (scan_listing files provider now l).found
  unfolding scan_listing
  scan_listing-IsShown (entries ps) =
      scan_files-IsShown
        (if ltb 16 (length (json_paths ps)) then record start_scan { errors = 1 } else start_scan)
        (take 16 (json_paths ps)) (start (ltb 16 (length (json_paths ps))))
    where
      start :
          (many : Bool)
          → All
              (IsShown files provider now)
              (if many then record start_scan { errors = 1 } else start_scan).found
      start true = tt
      start false = tt
  scan_listing-IsShown unreadable = tt
  scan_listing-IsShown not_a_directory = tt
  scan_listing-IsShown absent = tt
  scan_listing-IsShown failed = tt

module _ (P : Session → Type 0) (before : Session → Session → Bool) where
  All-insert_sorted :
      (x : Session) (ys : List Session) → P x → All P ys → All P (insert_sorted before x ys)
  unfolding insert_sorted
  All-insert_sorted x [] p h = (p, tt)
  All-insert_sorted x (y ∷ ys) p h = elim (Bool-cases (before x y)) [
    | inl first ↦ rw first (p, h)
    | inr later ↦ rw later (h.0, All-insert_sorted x ys p h.1)
  ]

  All-sort : (xs : List Session) → All P xs → All P (sort before xs)
  unfolding sort
  All-sort [] h = tt
  All-sort (x ∷ xs) h = All-insert_sorted x (sort before xs) h.0 (All-sort xs h.1)

All-retain_first :
    (P : Session → Type 0) (seen_before : List Text) (ss : List Session)
    → All P ss
    → All P (retain_first seen_before ss)
unfolding retain_first
All-retain_first P seen_before [] h = tt
All-retain_first P seen_before (s ∷ ss) h = elim (Bool-cases (seen s.session_id seen_before)) [
  | inl again ↦ rw again (All-retain_first P seen_before ss h.1)
  | inr new ↦ rw new (h.0, All-retain_first P (s.session_id ∷ seen_before) ss h.1)
]

abbrev pub ids : List Session → List Text
ids [] = []
ids (s ∷ ss) = s.session_id ∷ ids ss

-- No two sessions of the list have one identifier, and none has one that was seen.
abbrev NewIds : List Text → List Session → Type 0
NewIds seen_before ss = (t : Text) → In t seen_before → ¬ In t (ids ss)

retain_first-NewIds :
    (seen_before : List Text) (ss : List Session)
    → NewIds seen_before (retain_first seen_before ss)
      × Distinct (ids (retain_first seen_before ss))
unfolding retain_first
retain_first-NewIds seen_before [] = (λ t _ m. m, tt)
retain_first-NewIds seen_before (s ∷ ss) = elim (Bool-cases (seen s.session_id seen_before)) [
  | inl again ↦ rw again (retain_first-NewIds seen_before ss)
  | inr new ↦
      let rest = retain_first-NewIds (s.session_id ∷ seen_before) ss in
      rw new (
        λ t old. elim [
          | inl same ↦ (seen-not_In s.session_id seen_before).0 new (rw (← same) old)
          | inr m ↦ rest.0 t (inr old) m
        ],
        (rest.0 s.session_id (inl refl), rest.1),
      )
]

module _ (before : Session → Session → Bool) where
  In-insert_sorted :
      (t : Text) (x : Session) (ys : List Session)
      → In t (ids (insert_sorted before x ys))
      → (t ≡ x.session_id) ⊎ In t (ids ys)
  unfolding insert_sorted
  In-insert_sorted t x [] m = m
  In-insert_sorted t x (y ∷ ys) m = elim (Bool-cases (before x y)) [
    | inl first ↦ rw first at m
    | inr later ↦ let m' = rw later at m in ground (arith, In-insert_sorted t x ys)
  ]

  Distinct-insert_sorted :
      (x : Session) (ys : List Session)
      → ¬ In x.session_id (ids ys)
      → Distinct (ids ys)
      → Distinct (ids (insert_sorted before x ys))
  unfolding insert_sorted
  Distinct-insert_sorted x [] n d = (n, tt)
  Distinct-insert_sorted x (y ∷ ys) n d = elim (Bool-cases (before x y)) [
    | inl first ↦ rw first (n, d)
    | inr later ↦ rw later (
      λ m. elim (In-insert_sorted y.session_id x ys m) [
        | inl same ↦ n (inl (sym same))
        | inr old ↦ d.0 old
      ],
      Distinct-insert_sorted x ys (λ m. n (inr m)) d.1,
    )
  ]

  In-sort : (t : Text) (xs : List Session) → In t (ids (sort before xs)) → In t (ids xs)
  unfolding sort
  In-sort t [] m = m
  In-sort t (x ∷ xs) m = elim (In-insert_sorted t x (sort before xs) m) [
    | inl same ↦ inl same
    | inr old ↦ inr (In-sort t xs old)
  ]

  Distinct-sort : (xs : List Session) → Distinct (ids xs) → Distinct (ids (sort before xs))
  unfolding sort
  Distinct-sort [] d = tt
  Distinct-sort (x ∷ xs) d =
      Distinct-insert_sorted x (sort before xs) (λ m. d.0 (In-sort x.session_id xs m))
        (Distinct-sort xs d.1)

In-take : (t : Text) (n : ℕ) (xs : List Session) → In t (ids (take n xs)) → In t (ids xs)
In-take t zero xs m = absurd m
In-take t (suc n) [] m = m
In-take t (suc n) (x ∷ xs) (inl e) = inl e
In-take t (suc n) (x ∷ xs) (inr m) = inr (In-take t n xs m)

Distinct-take : (n : ℕ) (xs : List Session) → Distinct (ids xs) → Distinct (ids (take n xs))
Distinct-take zero xs d = tt
Distinct-take (suc n) [] d = tt
Distinct-take (suc n) (x ∷ xs) d = (λ m. d.0 (In-take x.session_id n xs m), Distinct-take n xs d.1)

-- The sessions of one provider as a scan hands them on.
pub record IsArranged (files : FeedFiles) (provider : Provider) (now : ℕ) (ss : List Session)
    : Type 0 where
  pub few : length ss ≤ 32
  pub shown : All (IsShown files provider now) ss
  pub distinct : Distinct (ids ss)

arrange-IsArranged :
    (files : FeedFiles) (provider : Provider) (now : ℕ) (ss : List Session)
    → All (IsShown files provider now) ss
    → IsArranged files provider now (arrange ss)
unfolding arrange
arrange-IsArranged files provider now ss h =
    let P = IsShown files provider now in
    let new = retain_first [] (sort newer_heartbeat ss) in
    record {
      few = omega (arith, length-take 32 (sort newer_activity new));
      shown = All-take P 32 (sort newer_activity new) (
          All-sort P newer_activity new
            (All-retain_first P [] (sort newer_heartbeat ss) (All-sort P newer_heartbeat ss h)));
      distinct =
          Distinct-take 32 (sort newer_activity new)
            (Distinct-sort newer_activity new (retain_first-NewIds [] (sort newer_heartbeat ss)).1);
    }

-- Whatever the directories hold, a scan hands on at most 32 sessions of each provider, Claude's
-- first. Each stands as a main session in a live feed of that provider, which was read from a file that
-- is named after its instance; each has safe identifiers and bounded numbers, and no two of a
-- provider share an identifier.
pub scan-IsArranged :
    (files : FeedFiles) (now : ℕ)
    → (front : List Session) × (back : List Session) × ((scan files now).sessions ≡ front ++ back)
      × IsArranged files claude now front
      × IsArranged files opencode_openai now back
unfolding scan scan_provider
scan-IsArranged files now = (
  arrange (scan_provider files now claude).found,
  arrange (scan_provider files now opencode_openai).found,
  refl,
  arrange-IsArranged files claude now _ (scan_listing-IsShown files claude now _),
  arrange-IsArranged files opencode_openai now _ (scan_listing-IsShown files opencode_openai now _),
)
