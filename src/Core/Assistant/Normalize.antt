-- ===== src/Core/Assistant/Normalize.antt =====
-- `normalize` of crates/matrix-core/src/assistant.rs against a description of the feeds it accepts.
use fw16_ledmatrix.Base.{
  ℕ, ◌-◌, ◌≤◌, ◌<◌, ◌≡◌, ◌↔◌, inl, inr, arith, false, not, Option, List, [], ◌∷◌, ◌++◌, map, length,
  All, keep, Text, ok, is_some, is_none, ltb, leb, is_some_and, if◌then◌else◌, Bool-cases,
  nat_beq_iff,
}
use mathlib.Core.List.{append_assoc, append-nil}
use fw16_ledmatrix.Core.Assistant.{
  Feed, FeedSession, Session, Provider, normalize, normalize_sessions, normalized, feed_rejected,
  session_rejected, saturating_add, safe_id, provider_beq_iff,
}
use fw16_ledmatrix.Core.Config.Spec.{IsId, OnSome}
use fw16_ledmatrix.Core.Config.Checks.{safe_id-IsId, OnSome-iff, or-false_iff, not-false_iff}

-- A session record that the reader takes.
pub record IsSession (now : ℕ) (s : FeedSession) : Type 0 where
  pub safe_session : IsId s.session_id
  pub safe_parent : OnSome IsId s.parent_id
  pub percent : OnSome (λ p. p ≤ 1000) s.context_percent
  pub not_future : s.last_activity_ms ≤ saturating_add now 5000

pub record IsFeed (feed : Feed) (provider : Provider) (now : ℕ) : Type 0 where
  pub schema : feed.schema_version ≡ 1
  pub same_provider : feed.provider ≡ provider
  pub safe_instance : IsId feed.instance_id
  pub few : length feed.sessions ≤ 16
  pub not_future : feed.heartbeat_ms ≤ saturating_add now 5000
  pub fresh : now - feed.heartbeat_ms < 60000
  pub each_session : All (IsSession now) feed.sessions

-- The main sessions, in the feed's order: those with no parent.
abbrev pub mains : List FeedSession → List FeedSession
mains = keep (λ s. is_none s.parent_id)

-- A session of the feed as it is listed: the session's own fields, and of the feed the identity of its
-- instance and its heartbeat.
abbrev pub listed : Feed → Provider → FeedSession → Session
listed feed provider s = record {
  provider = provider;
  instance_id = feed.instance_id;
  session_id = s.session_id;
  context_percent = s.context_percent;
  busy = s.busy;
  last_activity_ms = s.last_activity_ms;
  heartbeat_ms = feed.heartbeat_ms;
}

at_most : (limit n : ℕ) → (ltb limit n ≡ false) ↔ (n ≤ limit)
at_most limit n = ground arith

fresh_test : (now heartbeat : ℕ) → now - heartbeat < 60000 → leb 60000 (now - heartbeat) ≡ false
fresh_test now heartbeat h = ground arith

unsafe_check : (o : Option Text) → (is_some_and o (λ id. not (safe_id id)) ≡ false) ↔ OnSome IsId o
unsafe_check =
    OnSome-iff IsId (λ id. not (safe_id id))
      (λ id. ground (arith, not-false_iff (safe_id id), safe_id-IsId id))

percent_check :
    (o : Option ℕ) → (is_some_and o (λ p. ltb 1000 p) ≡ false) ↔ OnSome (λ p. p ≤ 1000) o
percent_check = OnSome-iff (λ p. p ≤ 1000) (λ p. ltb 1000 p) (at_most 1000)

session_rejected-false :
    (now : ℕ) (s : FeedSession) → (session_rejected now s ≡ false) ↔ IsSession now s
unfolding session_rejected
session_rejected-false now s = (
  λ h.
      let h0 = (or-false_iff _ _).0 h in
      let h1 = (or-false_iff _ _).0 h0.1 in
      let h2 = (or-false_iff _ _).0 h1.1 in
      record {
        safe_session = (safe_id-IsId s.session_id).0 ((not-false_iff _).0 h0.0);
        safe_parent = (unsafe_check s.parent_id).0 h1.0;
        percent = (percent_check s.context_percent).0 h2.0;
        not_future = (at_most _ _).0 h2.1;
      },
  λ v. (or-false_iff _ _).1 (
    (not-false_iff _).1 ((safe_id-IsId s.session_id).1 v.safe_session),
    (or-false_iff _ _).1 (
      (unsafe_check s.parent_id).1 v.safe_parent,
      (or-false_iff _ _).1
          ((percent_check s.context_percent).1 v.percent, (at_most _ _).1 v.not_future),
    ),
  ),
)

module _ (feed : Feed) (provider : Provider) (now : ℕ) where
  -- The loop pushes the main sessions behind what it has, unless a session is refused.
  sessions-ok :
      (ss : List FeedSession) (acc : List Session)
      → All (IsSession now) ss
      → normalize_sessions feed provider now ss acc
        ≡ ok (acc ++ map (listed feed provider) (mains ss))
  unfolding normalize_sessions normalized
  sessions-ok [] acc h = ground (arith, append-nil acc)
  sessions-ok (s ∷ ss) acc h = ground (
    arith,
    (session_rejected-false now s).1 h.0,
    sessions-ok ss acc h.1,
    sessions-ok ss (acc ++ listed feed provider s ∷ []) h.1,
    append_assoc acc (listed feed provider s ∷ []) (map (listed feed provider) (mains ss)),
  )

  sessions-IsSession :
      (ss : List FeedSession) (acc out : List Session)
      → normalize_sessions feed provider now ss acc ≡ ok out
      → All (IsSession now) ss
  unfolding normalize_sessions normalized
  sessions-IsSession [] acc out h = tt
  sessions-IsSession (s ∷ ss) acc out h = elim (Bool-cases (session_rejected now s)) [
    | inl refused ↦ absurd (ground arith)
    | inr accepted ↦ (
      (session_rejected-false now s).0 accepted,
      sessions-IsSession ss
          (if is_some s.parent_id then acc else acc ++ listed feed provider s ∷ []) out
          (ground arith),
    )
  ]

  feed_rejected-false : (feed_rejected feed provider now ≡ false) ↔ (
      (feed.schema_version ≡ 1)
      × (feed.provider ≡ provider)
      × IsId feed.instance_id
      × (length feed.sessions ≤ 16)
      × (feed.heartbeat_ms ≤ saturating_add now 5000))
  unfolding feed_rejected
  feed_rejected-false = (
    λ h.
        let h0 = (or-false_iff _ _).0 h in
        let h1 = (or-false_iff _ _).0 h0.1 in
        let h2 = (or-false_iff _ _).0 h1.1 in
        let h3 = (or-false_iff _ _).0 h2.1 in
        (
          (nat_beq_iff _ _).0 ((not-false_iff _).0 h0.0),
          (provider_beq_iff _ _).0 ((not-false_iff _).0 h1.0),
          (safe_id-IsId _).0 ((not-false_iff _).0 h2.0),
          (at_most _ _).0 h3.0,
          (at_most _ _).0 h3.1,
        ),
    λ v. (or-false_iff _ _).1 (
      (not-false_iff _).1 ((nat_beq_iff _ _).1 v.0),
      (or-false_iff _ _).1 (
        (not-false_iff _).1 ((provider_beq_iff _ _).1 v.1),
        (or-false_iff _ _).1 (
          (not-false_iff _).1 ((safe_id-IsId _).1 v.2),
          (or-false_iff _ _).1 ((at_most _ _).1 v.3, (at_most _ _).1 v.4),
        ),
      ),
    ),
  )

  -- A feed is read exactly when it meets the description, and then gives its main sessions in order,
  -- each with its own fields, the feed's instance identifier and heartbeat, and the provider. Sub-agents
  -- are never listed.
  pub normalize-ok_iff :
      (out : List Session)
      → (normalize feed provider now ≡ ok out)
        ↔ (IsFeed feed provider now × (out ≡ map (listed feed provider) (mains feed.sessions)))
  unfolding normalize
  normalize-ok_iff out = (reads, gives)
    where
      reads :
          normalize feed provider now ≡ ok out
          → IsFeed feed provider now × (out ≡ map (listed feed provider) (mains feed.sessions))
      reads h =
          let accepted : feed_rejected feed provider now ≡ false = ground arith in
          let fresh : now - feed.heartbeat_ms < 60000 = ground arith in
          let loop : normalize_sessions feed provider now feed.sessions [] ≡ ok out =
            ground arith in
          let f = feed_rejected-false.0 accepted in
          let each = sessions-IsSession feed.sessions [] out loop in
          (
            record {
              schema = f.0;
              same_provider = f.1;
              safe_instance = f.2;
              few = f.3;
              not_future = f.4;
              fresh = fresh;
              each_session = each;
            },
            cc (loop, sessions-ok feed.sessions [] each),
          )

      gives :
          IsFeed feed provider now × (out ≡ map (listed feed provider) (mains feed.sessions))
          → normalize feed provider now ≡ ok out
      gives (v, e) =
          let f =
            feed_rejected-false.1
              (v.schema, v.same_provider, v.safe_instance, v.few, v.not_future) in
          rw (f, fresh_test now feed.heartbeat_ms v.fresh, e)
            (sessions-ok feed.sessions [] v.each_session)
