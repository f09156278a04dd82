-- ===== src/Daemon/Store/History.antt =====
-- The store of crates/matrix-daemon/src/config.rs over time: every sequence of calls keeps it well
-- formed. Sessions and the render loop call it in any order, under its lock.
use fw16_ledmatrix.Base.{ℕ, ◌≤◌, ◌≡◌, arith, Option, none, some, [], List, ◌∷◌, Text}
use fw16_ledmatrix.Core.Config.{Config, validate}
use fw16_ledmatrix.Daemon.Store.Files.{Files}
use fw16_ledmatrix.Daemon.Store.Defs.{
  Store, Lease, apply, output_at, begin_preview, cancel_preview, u32_max,
}

-- The calls that change the store, with the time of each where it reads the clock.
pub data Call : Type 0 where
  outputs : ℕ → Call
  begins : Text → Config → ℕ → ℕ → Call
  cancels : Text → Option ℕ → Call
  applies : ℕ → Config → Call

abbrev IsLease : ℕ → Option Lease → Type 0
IsLease next none = Unit
IsLease next (some lease) =
    (validate lease.config ≡ []) × (1 ≤ lease.generation) × (lease.generation ≤ next)

pub record IsStore (s : Store) : Type 0 where
  pub saved_valid : validate s.saved.config ≡ []
  pub revision_fits : s.saved.revision ≤ u32_max
  pub lease_valid : IsLease s.next_lease s.preview
  pub leases_fit : s.next_lease ≤ u32_max

module _ {W : Type 0} (fs : Files W) where
  pub step : Store × W → Call → Store × W
  step (s, w) (outputs now) = ((output_at s now).1, w)
  step (s, w) (begins owner config seconds now) = ((begin_preview s owner config seconds now).1, w)
  step (s, w) (cancels owner generation) = ((cancel_preview s owner generation).1, w)
  step (s, w) (applies expected config) = let (_, t, w') = apply fs s expected config w in (t, w')

  pub run : Store × W → List Call → Store × W
  run s [] = s
  run s (c ∷ cs) = run (step s c) cs

  pub outputs-IsStore : (s : Store) (now : ℕ) → IsStore s → IsStore (output_at s now).1
  unfolding output_at
  outputs-IsStore s now v = ground arith

  pub begins-IsStore :
      (s : Store) (owner : Text) (config : Config) (seconds now : ℕ)
      → IsStore s
      → IsStore (begin_preview s owner config seconds now).1
  unfolding begin_preview
  begins-IsStore s owner config seconds now v = ground arith

  pub cancels-IsStore :
      (s : Store) (owner : Text) (generation : Option ℕ)
      → IsStore s
      → IsStore (cancel_preview s owner generation).1
  unfolding cancel_preview
  cancels-IsStore s owner generation v = ground arith

  pub applies-IsStore :
      (s : Store) (expected : ℕ) (config : Config) (w : W)
      → IsStore s
      → IsStore (let (_, t, _) = apply fs s expected config w in t)
  unfolding apply
  applies-IsStore s expected config w v = ground arith

  -- Every call keeps the store well formed.
  pub step-IsStore : (s : Store) (w : W) (c : Call) → IsStore s → IsStore (step (s, w) c).0
  unfolding step
  step-IsStore s w (outputs now) v = outputs-IsStore s now v
  step-IsStore s w (begins owner config seconds now) v = begins-IsStore s owner config seconds now v
  step-IsStore s w (cancels owner generation) v = cancels-IsStore s owner generation v
  step-IsStore s w (applies expected config) v = applies-IsStore s expected config w v

  -- After any sequence of calls the saved configuration and the one on show are valid, and neither
  -- the revision nor the lease counter has left 32 bits.
  pub run-IsStore : (s : Store) (w : W) (cs : List Call) → IsStore s → IsStore (run (s, w) cs).0
  unfolding run
  run-IsStore s w [] v = v
  run-IsStore s w (c ∷ cs) v =
      let t = step (s, w) c in run-IsStore t.0 t.1 cs (step-IsStore s w c v)
