-- ===== src/Daemon/Store/Durable.antt =====
-- `persist` and `load` of crates/matrix-daemon/src/config.rs over a file system that behaves as
-- documented: a save is whole or leaves the old file, and what is saved is what is loaded.
use fw16_ledmatrix.Base.{
  ℕ, ◌≤◌, ◌≡◌, ◌≢◌, inl, inr, refl, sym, ◌∙◌, ap, subst, arith, Bool, true, false, Option, none,
  some, [], List, ◌++◌, Text, Option-cases, ok, length,
}
use fw16_ledmatrix.Core.Config.{SavedConfig}
use fw16_ledmatrix.Core.Config.Spec.{IsValidConfig}
use fw16_ledmatrix.Core.Config.Sound.{validate-IsValidConfig}
use fw16_ledmatrix.Daemon.Store.Files.{Files, IsFaithful, found}
use fw16_ledmatrix.Daemon.Store.Defs.{
  persist, load, accept, migrate, finish_rename, finish_sync, finish_write, finish_create,
}

module _ {W : Type 0} (fs : Files W) (law : IsFaithful fs) (path : Text) where
  -- A step that does not succeed has left the old file readable.
  abbrev Keeps : List ℕ → Bool × W → Type 0
  Keeps old (done, w) = done ≢ true → fs.read path w ≡ found old

  abbrev Puts : SavedConfig → Bool × W → Type 0
  Puts s (done, w) =
      done ≡ true → (b : List ℕ) × (fs.encode s ≡ some b) × (fs.read path w ≡ found b)

  module _ (old : List ℕ) where
    finish_rename-Keeps :
        (t : fs.Temporary) (r : Bool × W)
        → path ≢ law.place t
        → fs.read path r.1 ≡ found old
        → Keeps old (finish_rename fs path t r)
    unfolding finish_rename
    finish_rename-Keeps t (true, w) other h =
        λ failed. law.rename_keeps t path path w other failed h
    finish_rename-Keeps t (false, w) other h = λ _. h

    finish_sync-Keeps :
        (t : fs.Temporary) (r : Bool × W)
        → path ≢ law.place t
        → fs.read path r.1 ≡ found old
        → Keeps old (finish_sync fs path t r)
    unfolding finish_sync
    finish_sync-Keeps t (true, w) other h =
        finish_rename-Keeps t (fs.sync_all t w) other (law.sync_all_keeps t path w other h)
    finish_sync-Keeps t (false, w) other h = λ _. h

    finish_write-Keeps :
        (s : SavedConfig) (r : Option fs.Temporary × W)
        → ((t : fs.Temporary) → r.0 ≡ some t → path ≢ law.place t)
        → fs.read path r.1 ≡ found old
        → Keeps old (finish_write fs path s r)
    unfolding finish_write
    finish_write-Keeps s (none, w) other h = λ _. h
    finish_write-Keeps s (some t, w) other h = elim (Option-cases (fs.encode s)) [
      | inl e ↦ rw (e, finish_write) (λ _. h)
      | inr (b, e) ↦
          rw (e, finish_write)
            (finish_sync-Keeps t (fs.write_all t b w) (other t refl)
              (law.write_all_keeps t b path w (other t refl) h))
    ]

    finish_create-Keeps :
        (parent : Text) (s : SavedConfig) (r : Bool × W)
        → fs.read path r.1 ≡ found old
        → Keeps old (finish_create fs path parent s r)
    unfolding finish_create
    finish_create-Keeps parent s (true, w) h =
        finish_write-Keeps s (fs.new_temporary parent w)
          (λ t e. law.new_temporary_new parent path w e h) (law.new_temporary_keeps parent path w h)
    finish_create-Keeps parent s (false, w) h = λ _. h

    -- A save that fails leaves the old file as it was.
    pub persist-keeps :
        (s : SavedConfig) (w : W)
        → fs.read path w ≡ found old
        → (persist fs path s w).0 ≢ true
        → fs.read path (persist fs path s w).1 ≡ found old
    unfolding persist
    persist-keeps s w h = elim (Option-cases (fs.parent path)) [
      | inl e ↦ rw (e, persist) (λ _. h)
      | inr (parent, e) ↦
          rw (e, persist)
            (finish_create-Keeps parent s (fs.create_directory parent w)
              (law.create_directory_keeps parent path w h))
    ]

  finish_rename-Puts :
      (s : SavedConfig) (b : List ℕ) (t : fs.Temporary) (r : Bool × W)
      → fs.encode s ≡ some b
      → law.contents t r.1 ≡ b
      → Puts s (finish_rename fs path t r)
  unfolding finish_rename
  finish_rename-Puts s b t (true, w) e c =
      λ done. (b, e, law.rename_reads t path w done ∙ ap found c)
  finish_rename-Puts s b t (false, w) e c = λ done. cc

  finish_sync-Puts :
      (s : SavedConfig) (b : List ℕ) (t : fs.Temporary) (r : Bool × W)
      → fs.encode s ≡ some b
      → (r.0 ≡ true → law.contents t r.1 ≡ b)
      → Puts s (finish_sync fs path t r)
  unfolding finish_sync
  finish_sync-Puts s b t (true, w) e c =
      finish_rename-Puts s b t (fs.sync_all t w) e (law.sync_all_contents t w ∙ c refl)
  finish_sync-Puts s b t (false, w) e c = λ done. cc

  finish_write-Puts :
      (s : SavedConfig) (r : Option fs.Temporary × W)
      → ((t : fs.Temporary) → r.0 ≡ some t → law.contents t r.1 ≡ [])
      → Puts s (finish_write fs path s r)
  unfolding finish_write
  finish_write-Puts s (none, w) c = λ done. cc
  finish_write-Puts s (some t, w) c = elim (Option-cases (fs.encode s)) [
    | inl e ↦ rw (e, finish_write) (λ done. cc)
    | inr (b, e) ↦
        rw (e, finish_write)
          (λ done.
            let (b', e', r) =
              finish_sync-Puts s b t (fs.write_all t b w) e
                (λ whole.
                  law.write_all_appends t b w whole ∙ ap (λ (xs : List ℕ). xs ++ b) (c t refl))
                done in
            (b', sym e ∙ e', r))
  ]

  finish_create-Puts :
      (parent : Text) (s : SavedConfig) (r : Bool × W) → Puts s (finish_create fs path parent s r)
  unfolding finish_create
  finish_create-Puts parent s (true, w) =
      finish_write-Puts s (fs.new_temporary parent w) (λ t e. law.new_temporary_empty parent w e)
  finish_create-Puts parent s (false, w) = λ done. cc

  persist-Puts : (s : SavedConfig) (w : W) → Puts s (persist fs path s w)
  unfolding persist
  persist-Puts s w = elim (Option-cases (fs.parent path)) [
    | inl e ↦ rw (e, persist) (λ done. cc)
    | inr (parent, e) ↦ rw (e, persist) (finish_create-Puts parent s (fs.create_directory parent w))
  ]

  -- A valid configuration of the current schema is taken as it is.
  accept-migrate : (s : SavedConfig) → IsValidConfig s.config → accept (migrate s) ≡ ok s
  unfolding accept migrate
  accept-migrate s v = ground (arith, v.schema, (validate-IsValidConfig s.config).1 v)

  load_of_read :
      (s : SavedConfig) (b : List ℕ) (w : W)
      → IsValidConfig s.config
      → fs.encode s ≡ some b
      → length b ≤ 32768
      → fs.read path w ≡ found b
      → load fs path w ≡ ok (record { saved = s; path = some path; preview = none; next_lease = 0 })
  unfolding load
  load_of_read s b w v e small r = ground (arith, law.decode-encode s e, accept-migrate s v)

  -- What was saved is what a restart loads: the whole configuration with its revision, and no
  -- preview. The file must fit the size that `load` accepts.
  pub load-persist :
      (s : SavedConfig) (b : List ℕ) (w : W)
      → IsValidConfig s.config
      → fs.encode s ≡ some b
      → length b ≤ 32768
      → (persist fs path s w).0 ≡ true
      → load fs path (persist fs path s w).1
        ≡ ok (record { saved = s; path = some path; preview = none; next_lease = 0 })
  load-persist s b w v e small done =
      let (c, ec, r) = persist-Puts s w done in
      load_of_read s c (persist fs path s w).1 v ec
        (let same : b ≡ c = cc (e, ec) in subst (λ (xs : List ℕ). length xs ≤ 32768) same small) r
