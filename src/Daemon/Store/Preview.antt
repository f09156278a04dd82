-- ===== src/Daemon/Store/Preview.antt =====
-- The preview lease of crates/matrix-daemon/src/config.rs: exclusive, bounded in time, and dropped
-- by its own holder only.
use fw16_ledmatrix.Base.{
  ℕ, ◌+◌, ◌*◌, ◌≤◌, ◌<◌, ◌≡◌, ◌≢◌, ◌⊎◌, arith, true, false, Option, none, some, Text, text_beq_iff,
  ok, err,
}
use fw16_ledmatrix.Core.Config.{Config}
use fw16_ledmatrix.Daemon.Store.Defs.{
  Store, busy, invalid, preview_active, output_at, begin_preview, owns_preview, cancel_preview,
  checked_add,
}

-- While a preview runs, nobody can begin another, and the store stays as it is.
pub begin_preview-busy :
    (s : Store) (owner : Text) (config : Config) (seconds now : ℕ)
    → preview_active s now ≡ true
    → ((begin_preview s owner config seconds now).1 ≡ s)
      × (((begin_preview s owner config seconds now).0 ≡ err busy)
          ⊎ ((begin_preview s owner config seconds now).0 ≡ err invalid))
unfolding begin_preview
begin_preview-busy s owner config seconds now active = ground arith

-- A preview that begins belongs to its owner until its seconds are over, is shown meanwhile, has a
-- new generation, and leaves the saved configuration alone.
pub begin_preview-ok :
    (s : Store) (owner : Text) (config : Config) (seconds now generation later : ℕ)
    → (begin_preview s owner config seconds now).0 ≡ ok generation
    → later < now + seconds * 1000
    → let t = (begin_preview s owner config seconds now).1 in
      (generation ≡ s.next_lease + 1)
      × (t.next_lease ≡ generation)
      × (owns_preview t owner generation later ≡ true)
      × ((output_at t later).0 ≡ config)
      × (t.saved ≡ s.saved)
unfolding begin_preview owns_preview output_at checked_add
begin_preview-ok s owner config seconds now generation later h early =
    ground (arith, text_beq_iff owner owner)

-- Once its seconds are over the saved configuration is shown again, and nobody owns the preview.
pub preview_expires :
    (s : Store) (owner : Text) (config : Config) (seconds now generation later : ℕ)
    → (begin_preview s owner config seconds now).0 ≡ ok generation
    → now + seconds * 1000 ≤ later
    → let t = (begin_preview s owner config seconds now).1 in
      ((output_at t later).0 ≡ s.saved.config)
      × (owns_preview t owner generation later ≡ false)
      × (preview_active t later ≡ false)
unfolding begin_preview owns_preview output_at checked_add
preview_expires s owner config seconds now generation later h late =
    ground (arith, text_beq_iff owner owner)

-- A guard that is left over from an earlier preview cannot end a later one, also not of its owner.
stale_cancel :
    (s : Store) (owner other : Text) (config : Config) (seconds now generation old : ℕ)
    → (begin_preview s owner config seconds now).0 ≡ ok generation
    → old ≤ s.next_lease
    → let t = (begin_preview s owner config seconds now).1 in
      cancel_preview t other (some old) ≡ (false, t)
unfolding begin_preview cancel_preview checked_add
stale_cancel s owner other config seconds now generation old h stale = ground arith

-- A preview is ended by its owner, and by nobody else.
cancel_preview_iff :
    (s : Store) (owner other : Text) (config : Config) (seconds now generation : ℕ)
    → (begin_preview s owner config seconds now).0 ≡ ok generation
    → let t = (begin_preview s owner config seconds now).1 in
      (other ≡ owner → cancel_preview t other none ≡ (true, record t { preview = none }))
      × ((held : Option ℕ) → other ≢ owner → cancel_preview t other held ≡ (false, t))
unfolding begin_preview cancel_preview
cancel_preview_iff s owner other config seconds now generation h =
    (ground (arith, text_beq_iff owner other), λ held. ground (arith, text_beq_iff owner other))

-- A preview is ended by its owner, who asks for it or whose session's guard is dropped, and by nobody
-- else, whatever generation the guard of another owner has; a guard that is left over from an earlier preview cannot end a later one, also not of its
-- owner.
pub cancel_preview-owner :
    (s : Store) (owner other : Text) (config : Config) (seconds now generation old : ℕ)
    → (begin_preview s owner config seconds now).0 ≡ ok generation
    → old ≤ s.next_lease
    → let t = (begin_preview s owner config seconds now).1 in
      (other ≡ owner → cancel_preview t other none ≡ (true, record t { preview = none }))
      × (cancel_preview t owner (some generation) ≡ (true, record t { preview = none }))
      × ((held : Option ℕ) → other ≢ owner → cancel_preview t other held ≡ (false, t))
      × (cancel_preview t other (some old) ≡ (false, t))
unfolding begin_preview cancel_preview checked_add
cancel_preview-owner s owner other config seconds now generation old h stale =
    let i = cancel_preview_iff s owner other config seconds now generation h in
    (
      i.0,
      ground (arith, text_beq_iff owner owner),
      i.1,
      stale_cancel s owner other config seconds now generation old h stale,
    )
