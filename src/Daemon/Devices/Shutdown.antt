-- ===== src/Daemon/Devices/Shutdown.antt =====
-- `shutdown` of crates/matrix-daemon/src/devices.rs: every panel is put to sleep, in rounds, until all are
-- and no job is left, for five seconds. What the jobs do between two rounds is a parameter.
use fw16_ledmatrix.Base.{
  ℕ, zero, suc, ◌+◌, ◌≤◌, ◌<◌, ◌≡◌, ◌⊎◌, Bool, true, false, ◌&&◌, ◌||◌, Option, none, some, List,
  [], ◌∷◌, Text, is_empty, if◌then◌else◌, leb, All,
}
use fw16_ledmatrix.Daemon.Devices.Panel.{Panel, Serial, sleep}
use fw16_ledmatrix.Daemon.Devices.Route.{Handle}
use fw16_ledmatrix.Daemon.Devices.Registry.{Registry, clear}

-- `store(false)` on the flag of every identification.
unfoldable pub lower : List (Text × ℕ) → Registry → Registry
lower [] r = r
lower (e ∷ es) r = lower es (clear r e.1)

unfoldable pub stop_all : Registry → Registry
unfolding lower
stop_all r = lower r.active r

module _ {W : Type 0} (serial : Serial W) where
  abbrev pub Handles : Type 0
  Handles = List (Handle serial.Port)

  -- One panel: a job that holds its lock makes the round incomplete.
  unfoldable pub put_to_sleep : Handle serial.Port → W → Bool × Handle serial.Port × W
  put_to_sleep h w =
      if h.locked
      then (false, h, w)
      else (true, record h { panel = (sleep serial h.panel w).0 }, (sleep serial h.panel w).1)

  unfoldable pub sleep_all : Handles → W → Bool × Handles × W
  sleep_all [] w = (true, [], w)
  sleep_all (h ∷ hs) w =
      let (b, k, v) = put_to_sleep h w in let (c, ks, u) = sleep_all hs v in (b && c, k ∷ ks, u)

  -- What is not the rounds': after round n, `jobs n` are still running, and until the next round they and
  -- the time bring the panels and the world to `meanwhile n`. `clock n` is the time since the start at
  -- the end of round n; the sleep between two rounds takes its twenty milliseconds.
  pub record Others : Type 0 where
    pub jobs : ℕ → List Text
    pub meanwhile : ℕ → Handles × W → Handles × W
    pub clock : ℕ → ℕ
    pub pauses : (n : ℕ) → clock n + 20 ≤ clock (suc n)

  unfoldable pub complete : Others → ℕ → Bool → Bool
  complete o n slept_all = slept_all && is_empty (o.jobs n)

  -- Whether the last round was complete, the panels and the world; `none` is out of fuel.
  unfoldable pub rounds : ℕ → Others → ℕ → Handles × W → Option (Bool × Handles × W)
  rounds zero o n (hs, w) = none
  rounds (suc fuel) o n (hs, w) =
      let (slept_all, ks, v) = sleep_all hs w in
      let rest = rounds fuel o (suc n) (o.meanwhile n (ks, v)) in
      if complete o n slept_all || leb 5000 (o.clock n)
      then some (complete o n slept_all, ks, v)
      else rest

  abbrev pub shutdown_fuel : ℕ
  shutdown_fuel = 251

  unfoldable pub shutdown : Others → Registry → Handles → W → Registry × Option (Bool × Handles × W)
  shutdown o r hs w = (stop_all r, rounds shutdown_fuel o 0 (hs, w))

  abbrev pub IsClosed : Handle serial.Port → Type 0
  IsClosed h = h.panel.port ≡ none

  -- What round n finds, and what it does.
  pub found_by : Others → Handles × W → ℕ → Handles × W
  found_by o s zero = s
  found_by o s (suc n) =
      let (hs, w) = found_by o s n in
      let (slept_all, ks, v) = sleep_all hs w in o.meanwhile n (ks, v)

  abbrev pub round_at : Others → Handles × W → ℕ → Bool × Handles × W
  round_at o s n = sleep_all (found_by o s n).0 (found_by o s n).1

  -- The result is that of a round, the first that was complete or ended after five seconds.
  abbrev pub Ended : Others → Handles × W → Bool × Handles × W → Type 0
  Ended o s x =
      (n : ℕ) × (x.1 ≡ (round_at o s n).1)
      × (x.2 ≡ (round_at o s n).2)
      × (x.0 ≡ true → All IsClosed x.1 × (is_empty (o.jobs n) ≡ true))
      × (x.0 ≡ false
          → (5000 ≤ o.clock n) × (((round_at o s n).0 ≡ false) ⊎ (is_empty (o.jobs n) ≡ false)))
      × ((m : ℕ)
          → m < n
          → (o.clock m < 5000) × (((round_at o s m).0 ≡ false) ⊎ (is_empty (o.jobs m) ≡ false)))

  abbrev GoesOn : Others → Handles × W → ℕ → Type 0
  GoesOn o s m = (o.clock m < 5000) × (((round_at o s m).0 ≡ false) ⊎ (is_empty (o.jobs m) ≡ false))
