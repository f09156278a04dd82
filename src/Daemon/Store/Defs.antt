-- ===== src/Daemon/Store/Defs.antt =====
-- crates/matrix-daemon/src/config.rs: the operations of the store. Revisions and lease generations
-- are 32-bit; a method returns its result and the new store.
use fw16_ledmatrix.Base.{
  ℕ, ◌+◌, ◌*◌, Bool, true, false, not, ◌&&◌, ◌||◌, Option, none, some, List, [], Text, ltb, leb,
  ◌==◌, nat_eq, text_eq, if◌then◌else◌, length, all, is_empty, is_some_and, is_none_or,
  is_ascii_alphanumeric, Result, ok, err,
}
use fw16_ledmatrix.Core.Config.{
  Config, SavedConfig, ConfigStatus, ConfigReply, default_config, validate,
}
use fw16_ledmatrix.Daemon.Store.Files.{Files, Content, found, not_found, unreadable}

-- crates/matrix-core/src/preview.rs.
pub data PreviewStatus : Type 0 where
  ended cancelled busy invalid not_owner : PreviewStatus

pub record Lease : Type 0 where
  pub owner : Text
  pub generation : ℕ
  pub config : Config
  pub expires : ℕ

pub record Store : Type 0 where
  pub saved : SavedConfig
  pub path : Option Text
  pub preview : Option Lease
  pub next_lease : ℕ

abbrev pub u32_max : ℕ
u32_max = 4294967295

-- `u32::checked_add`.
unfoldable pub checked_add : ℕ → ℕ → Option ℕ
checked_add a b = if leb (a + b) u32_max then some (a + b) else none

abbrev pub default_saved : SavedConfig
default_saved = record { revision = 0; config = default_config }

unfoldable pub memory : Store
memory = record { saved = default_saved; path = none; preview = none; next_lease = 0 }

pub data LoadError : Type 0 where
  too_large malformed unsupported unreadable_file : LoadError

-- Schema 1 is read as schema 2.
unfoldable pub migrate : SavedConfig → SavedConfig
migrate s =
    if s.config.schema_version == 1
    then record s { config = record s.config { schema_version = 2 } }
    else s

unfoldable pub accept : SavedConfig → Result SavedConfig LoadError
accept s = if not (is_empty (validate s.config)) then err unsupported else ok s

unfoldable pub opened : Text → Result SavedConfig LoadError → Result Store LoadError
opened path (ok saved) =
    ok (record { saved = saved; path = some path; preview = none; next_lease = 0 })
opened path (err e) = err e

module _ {W : Type 0} (fs : Files W) where
  unfoldable pub parse_saved : List ℕ → Result SavedConfig LoadError
  unfolding migrate accept
  parse_saved bytes =
      if ltb 32768 (length bytes)
      then err too_large
      else elim (fs.decode bytes) [ none ↦ err malformed | some s ↦ accept (migrate s) ]

  unfoldable pub load_content : Content → Result SavedConfig LoadError
  unfolding parse_saved
  load_content (found bytes) = parse_saved bytes
  load_content not_found = ok default_saved
  load_content unreadable = err unreadable_file

  unfoldable pub load : Text → W → Result Store LoadError
  unfolding load_content opened
  load path w = opened path (load_content (fs.read path w))

  unfoldable pub finish_rename : Text → fs.Temporary → Bool × W → Bool × W
  finish_rename path t (synced, w) = if synced then fs.rename t path w else (false, w)

  unfoldable pub finish_sync : Text → fs.Temporary → Bool × W → Bool × W
  unfolding finish_rename
  finish_sync path t (written, w) =
      if written then finish_rename path t (fs.sync_all t w) else (false, w)

  unfoldable pub finish_write : Text → SavedConfig → Option fs.Temporary × W → Bool × W
  unfolding finish_sync
  finish_write path saved (none, w) = (false, w)
  finish_write path saved (some t, w) = elim (fs.encode saved) [
    | none ↦ (false, w)
    | some bytes ↦ finish_sync path t (fs.write_all t bytes w)
  ]

  unfoldable pub finish_create : Text → Text → SavedConfig → Bool × W → Bool × W
  unfolding finish_write
  finish_create path parent saved (created, w) =
      if created then finish_write path saved (fs.new_temporary parent w) else (false, w)

  -- Whether the configuration is on the disk, and the disk. A step that fails ends it.
  unfoldable pub persist : Text → SavedConfig → W → Bool × W
  unfolding finish_create
  persist path saved w = elim (fs.parent path) [
    | none ↦ (false, w)
    | some parent ↦ finish_create path parent saved (fs.create_directory parent w)
  ]

unfoldable pub preview_active : Store → ℕ → Bool
preview_active s now = is_some_and s.preview (λ lease. ltb now lease.expires)

-- The configuration to show, and the store with an expired preview dropped.
unfoldable pub expire : Store → ℕ → Store
unfolding preview_active
expire s now = if not (preview_active s now) then record s { preview = none } else s

unfoldable pub shown : Store → Config
shown s = elim s.preview [ none ↦ s.saved.config | some lease ↦ lease.config ]

unfoldable pub output_at : Store → ℕ → Config × Store
unfolding expire shown
output_at s now = (shown (expire s now), expire s now)

unfoldable pub owner_byte : ℕ → Bool
owner_byte b = is_ascii_alphanumeric b || b == b'-'

unfoldable pub preview_rejected : Text → Config → ℕ → Bool
unfolding owner_byte
preview_rejected owner config seconds =
    is_empty owner
    || (ltb 64 (length owner)
        || (not (all owner_byte owner)
            || (not (leb 1 seconds && leb seconds 15) || not (is_empty (validate config)))))

unfoldable pub grant : Store → Text → Config → ℕ → ℕ → Option ℕ → Result ℕ PreviewStatus × Store
grant s owner config seconds now none = (err invalid, s)
grant s owner config seconds now (some generation) = (
  ok generation,
  record s {
    next_lease = generation;
    preview = some (record {
      owner = owner;
      generation = generation;
      config = config;
      expires = now + seconds * 1000;
    });
  },
)

unfoldable pub begin_preview : Store → Text → Config → ℕ → ℕ → Result ℕ PreviewStatus × Store
unfolding preview_rejected preview_active grant checked_add
begin_preview s owner config seconds now =
    if preview_rejected owner config seconds
    then (err invalid, s)
    else if preview_active s now
    then (err busy, s)
    else grant s owner config seconds now (checked_add s.next_lease 1)

unfoldable pub owns_preview : Store → Text → ℕ → ℕ → Bool
owns_preview s owner generation now =
    is_some_and s.preview
      (λ lease. lease.owner == owner && (lease.generation == generation && ltb now lease.expires))

unfoldable pub cancels : Text → Option ℕ → Lease → Bool
cancels owner generation lease =
    lease.owner == owner && is_none_or generation (λ id. id == lease.generation)

unfoldable pub cancel_preview : Store → Text → Option ℕ → Bool × Store
unfolding cancels
cancel_preview s owner generation =
    if is_some_and s.preview (cancels owner generation)
    then (true, record s { preview = none })
    else (false, s)

unfoldable pub validate_reply : Store → Config → ConfigReply
validate_reply s config = record {
  status = if is_empty (validate config) then ConfigStatus.valid_config else ConfigStatus.invalid;
  saved = s.saved;
  errors = validate config;
}

abbrev status_is_invalid : ConfigStatus → Bool
status_is_invalid ConfigStatus.invalid = true
status_is_invalid _ = false

module _ {W : Type 0} (fs : Files W) where
  -- `persist(path, &next)`, where there is a path.
  unfoldable pub save : Option Text → SavedConfig → W → Bool × W
  unfolding persist
  save none next w = (true, w)
  save (some path) next w = persist fs path next w

  unfoldable pub commit : Store → ConfigReply → SavedConfig → Bool × W → ConfigReply × Store × W
  commit s reply next (saved, w) =
      if saved
      then (
        record { status = ConfigStatus.applied; saved = next; errors = [] },
        record s { saved = next },
        w,
      )
      else (record reply { status = ConfigStatus.save_failed }, s, w)

  unfoldable pub apply_next : Store → ConfigReply → Config → Option ℕ → W → ConfigReply × Store × W
  unfolding commit
  apply_next s reply config none w = (record reply { status = ConfigStatus.save_failed }, s, w)
  apply_next s reply config (some revision) w =
      let next : SavedConfig = record { revision = revision; config = config } in
      commit s reply next (save s.path next w)

  unfoldable pub apply : Store → ℕ → Config → W → ConfigReply × Store × W
  unfolding validate_reply apply_next checked_add
  apply s expected config w =
      let reply = validate_reply s config in
      if status_is_invalid reply.status
      then (reply, s, w)
      else if not (expected == s.saved.revision)
      then (record reply { status = ConfigStatus.conflict }, s, w)
      else apply_next s reply config (checked_add s.saved.revision 1) w
