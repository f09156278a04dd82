-- ===== src/Daemon/Store/Apply.antt =====
-- `Store::apply` of crates/matrix-daemon/src/config.rs: what each outcome leaves behind.
use fw16_ledmatrix.Base.{ℕ, ◌+◌, ◌≤◌, ◌<◌, ◌≡◌, ◌≢◌, ◌⊎◌, Bool, true, false, none, some, arith, []}
use fw16_ledmatrix.Core.Config.{Config, ConfigStatus, ConfigReply, validate}
use fw16_ledmatrix.Daemon.Store.Files.{Files}
use fw16_ledmatrix.Daemon.Store.Defs.{Store, apply, u32_max, persist, save, checked_add}

module _ {W : Type 0} (fs : Files W) where
  -- What an outcome of `apply` says of the saved configuration, and of the disk, after it. Saved means
  -- that the next revision with this configuration was persisted at the store's path, where it has one.
  abbrev pub saves : Store → ℕ → Config → W → Bool × W
  saves s expected config w = elim s.path [
    | none ↦ (true, w)
    | some path ↦ persist fs path (record { revision = expected + 1; config = config }) w
  ]

  abbrev pub Outcome : Store → ℕ → Config → W → ConfigReply × Store × W → Type 0
  Outcome s expected config w (reply, t, v) = elim reply.status [
    | ConfigStatus.read ↦ ⊥
    | ConfigStatus.valid_config ↦ ⊥
    | ConfigStatus.applied ↦
        (expected ≡ s.saved.revision)
        × (validate config ≡ [])
        × (t ≡ record s { saved = record { revision = expected + 1; config = config } })
        × (reply.saved ≡ t.saved)
        × (expected + 1 ≤ u32_max)
        × (saves s expected config w ≡ (true, v))
    | ConfigStatus.invalid ↦
        (validate config ≢ []) × (reply.errors ≡ validate config) × (t ≡ s) × (v ≡ w)
    | ConfigStatus.conflict ↦
        (expected ≢ s.saved.revision) × (validate config ≡ []) × (t ≡ s) × (v ≡ w)
    | ConfigStatus.save_failed ↦
        (expected ≡ s.saved.revision)
        × (validate config ≡ [])
        × (t ≡ s)
        × (((u32_max < expected + 1) × (v ≡ w)) ⊎ (saves s expected config w ≡ (false, v)))
  ]

  -- Every outcome of `apply` says what was done: applied means that the revision was the expected one,
  -- the configuration was valid, and it is saved now under the next revision, which fits 32 bits, and,
  -- where the store has a path, has been persisted there with success. A save that failed means that the
  -- next revision does not fit or that it could not be persisted. Any other outcome leaves the disk
  -- alone, and any outcome but applied leaves the store as it was.
  pub apply-Outcome :
      (s : Store) (expected : ℕ) (config : Config) (w : W)
      → Outcome s expected config w (apply fs s expected config w)
  unfolding apply save checked_add
  apply-Outcome s expected config w = ground arith
