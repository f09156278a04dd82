-- ===== src/Claude/Files.antt =====
-- `update` of crates/matrix-claude/src/lib.rs with its files: the private directories, the lock, the
-- previous feed and the new one. What each call of the operating system comes to is a parameter, and
-- so are JSON and the clock.
use fw16_ledmatrix.Base.{
  ℕ, zero, suc, ◌+◌, ◌≤◌, Bool, true, false, not, ◌||◌, Option, none, some, List, Text, nat_eq,
  ◌==◌, if◌then◌else◌, ltb, leb, length, take, is_some_and, option_filter, ◌>>=◌, Result, ok, err,
}
use fw16_ledmatrix.Core.Assistant.{Feed, safe_id}
use fw16_ledmatrix.Client.Failure.{IoKind, permission_denied, not_found, invalid_data, other_kind}
use fw16_ledmatrix.Client.Conversation.{Done}
use fw16_ledmatrix.Client.Local.{Metadata, is_file, is_dir, shared_rights}
use fw16_ledmatrix.Claude.{Payload, HookEvent, event_of, foreign, update_session}
use fw16_ledmatrix.Claude.Command.{max_input}

-- `?` on the results of calls.
infixl 5 ◌then_ok◌
abbrev pub ◌then_ok◌ : {A B : Type 0} → Result A IoKind → (A → Result B IoKind) → Result B IoKind
ok a then_ok f = f a
err e then_ok f = err e

unfoldable pub private : ℕ → Metadata → Result Done IoKind
unfolding shared_rights
private user m =
    if not (m.uid == user) || not (shared_rights m.mode == 0) then err permission_denied else ok tt

unfoldable pub directory_of : ℕ → Metadata → Result Done IoKind
unfolding private
directory_of user m = if not (is_dir m.kind) then err other_kind else private user m

-- The creation, and the metadata of the path itself.
unfoldable pub ensure_directory :
    ℕ → Result Done IoKind → Result Metadata IoKind → Result Done IoKind
unfolding directory_of
ensure_directory user create stat = create then_ok λ d. stat then_ok λ m. directory_of user m

-- `stat` is the metadata of the path itself, where it can be read; `metadata` that of the open file.
pub record FileCalls : Type 0 where
  pub stat : Option Metadata
  pub opened : Result Done IoKind
  pub metadata : Result Metadata IoKind

unfoldable pub opened_file : ℕ → Metadata → Result Done IoKind
unfolding private
opened_file user m = if not (is_file m.kind) then err other_kind else private user m

unfoldable pub open_file : ℕ → FileCalls → Result Done IoKind
unfolding opened_file
open_file user c =
    if is_some_and c.stat (λ m. not (is_file m.kind))
    then err other_kind
    else (c.opened then_ok λ d. c.metadata then_ok λ m. opened_file user m)

pub record UpdateCalls : Type 0 where
  pub user : ℕ
  pub create_root : Result Done IoKind
  pub root : Result Metadata IoKind
  pub create_directory : Result Done IoKind
  pub directory : Result Metadata IoKind
  pub lock_file : FileCalls
  pub try_lock : ℕ → Bool
  -- The time since the first attempt at the lock; between two attempts are two milliseconds.
  pub clock : ℕ → ℕ
  pub naps : (n : ℕ) → clock n + 2 ≤ clock (suc n)
  pub feed_file : FileCalls
  pub contents : Result (List ℕ) IoKind
  pub from_slice : List ℕ → Option Feed
  pub to_vec : Feed → Option (List ℕ)
  pub new_temporary : Result Done IoKind
  pub write_all : List ℕ → Result Done IoKind
  pub sync_all : Result Done IoKind
  pub persist : Result Done IoKind

-- Whether the lock was taken; `none` is out of fuel.
unfoldable pub wait_lock : ℕ → UpdateCalls → ℕ → Option Bool
wait_lock zero c n = none
wait_lock (suc fuel) c n =
    let rest = wait_lock fuel c (suc n) in
    if c.try_lock n then some true else if leb 50 (c.clock n) then some false else rest

abbrev pub lock_fuel : ℕ
lock_fuel = 26

-- The previous feed: one that has to be left alone, none, or one to go on from.
pub data Previous : Type 0 where
  leave : Previous
  absent : Previous
  present : Feed → Previous

unfoldable pub parsed_previous : Text → Option Feed → Result Previous IoKind
parsed_previous id none = err invalid_data
parsed_previous id (some f) = if foreign id f then ok leave else ok (present f)

unfoldable pub read_taken : Text → UpdateCalls → List ℕ → Result Previous IoKind
read_taken id c taken =
    if ltb max_input (length taken) then ok leave else parsed_previous id (c.from_slice taken)

-- At most one byte more than is allowed is read.
unfoldable pub read_contents : Text → UpdateCalls → List ℕ → Result Previous IoKind
read_contents id c contents = read_taken id c (take (max_input + 1) contents)

unfoldable pub previous_of : Text → UpdateCalls → Result Done IoKind → Result Previous IoKind
previous_of id c (ok d) = c.contents then_ok read_contents id c
previous_of id c (err not_found) = ok absent
previous_of id c (err e) = err e

-- The feed in its temporary file, and then in the place of the old one.
unfoldable pub written : UpdateCalls → Feed → Option (List ℕ) → Result (Option Feed) IoKind
written c feed none = err invalid_data
written c feed (some contents) =
    c.write_all contents then_ok λ d. c.sync_all then_ok λ d. c.persist then_ok λ d. ok (some feed)

unfoldable pub store_feed : UpdateCalls → Option Feed → Result (Option Feed) IoKind
store_feed c none = ok none
store_feed c (some feed) = c.new_temporary then_ok λ d. written c feed (c.to_vec feed)

unfoldable pub following_feed :
    HookEvent → Payload → Text → ℕ → UpdateCalls → Previous → Result (Option Feed) IoKind
following_feed event p id now c leave = ok none
following_feed event p id now c absent = store_feed c (update_session event p id none now)
following_feed event p id now c (present f) = store_feed c (update_session event p id (some f) now)

unfoldable pub with_lock :
    HookEvent → Payload → Text → ℕ → UpdateCalls → Bool → Result (Option Feed) IoKind
with_lock event p id now c false = ok none
with_lock event p id now c true =
    previous_of id c (open_file c.user c.feed_file) then_ok following_feed event p id now c

unfoldable pub prepared : UpdateCalls → Result Done IoKind
prepared c = ensure_directory c.user c.create_root c.root then_ok λ d.
    ensure_directory c.user c.create_directory c.directory then_ok λ d. open_file c.user c.lock_file

-- The identifier and the event of a payload that is not ignored.
unfoldable pub accepted : Bool → Payload → Option (Text × HookEvent)
accepted hook p = do
  id ← option_filter safe_id p.session_id
  event ← (if p.has_agent_id || p.has_parent_id then none else event_of hook p)
  some (id, event)

unfoldable pub under_lock :
    Payload
    → ℕ
    → UpdateCalls
    → Text × HookEvent
    → Result Done IoKind
    → Option (Result (Option Feed) IoKind)
under_lock p now c (id, event) (err e) = some (err e)
under_lock p now c (id, event) (ok d) = do
  locked ← wait_lock lock_fuel c 0
  some (with_lock event p id now c locked)

unfoldable pub accepted_update :
    Payload → ℕ → UpdateCalls → Option (Text × HookEvent) → Option (Result (Option Feed) IoKind)
accepted_update p now c none = some (ok none)
accepted_update p now c (some a) = under_lock p now c a (prepared c)

-- The feed that was written, if one was. `payload` is the input as JSON, where it is that.
unfoldable pub update_file :
    Bool → ℕ → Option Payload → ℕ → UpdateCalls → Option (Result (Option Feed) IoKind)
update_file hook size payload now c = if ltb max_input size then some (ok none) else elim payload [
  | none ↦ some (err invalid_data)
  | some p ↦ accepted_update p now c (accepted hook p)
]
