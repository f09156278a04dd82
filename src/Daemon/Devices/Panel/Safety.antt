-- ===== src/Daemon/Devices/Panel/Safety.antt =====
-- Safety of the jobs of crates/matrix-daemon/src/devices.rs: nothing is sent behind a failed write.
use fw16_ledmatrix.Base.{
  ℕ, ◌+◌, ◌<◌, ◌≡◌, ◌⊎◌, inl, inr, arith, Bool, true, false, Option, none, some, [], ◌∷◌, is_some,
  Bool-cases, Option-cases, leb, ◌-◌, Text,
}
use fw16_ledmatrix.Core.Protocol.{command, firmware}
use fw16_ledmatrix.Daemon.Devices.Panel.{
  Serial, Panel, Job, ready, failed, closed, slept, sleep, write_commands, and_then, opened, asked,
  versioned, open_panel, painted, kept, refresh, lit, after_open, attempt, settle, job,
  frame_commands, another_owner, shows,
}
use fw16_ledmatrix.Daemon.Devices.Panel.Sending.{AttemptStops, attempt-AttemptStops}

module _ {W : Type 0} (serial : Serial W) where
  -- A job that finds the panel quarantined, or its retry time ahead, touches neither panel nor port.
  job-unready :
      (j : Job) (p : Panel serial.Port) (w : W)
      → (p.needs_replug ≡ true) ⊎ (j.started < p.retry_at)
      → job serial j p w ≡ some (p, w)
  unfolding job ready
  job-unready j p w h = ground arith

  painted-failed :
      (j : Job) (p q : Panel serial.Port) (level : ℕ) (r : Bool × W) (v : W)
      → some (painted serial j p level r) ≡ some (false, q, v)
      → q ≡ p
  unfolding painted
  painted-failed j p q level (true, w) v h = absurd (ground arith)
  painted-failed j p q level (false, w) v h = cc

  kept-failed :
      (j : Job) (p q : Panel serial.Port) (r : Bool × W) (v : W)
      → some (kept serial j p r) ≡ some (false, q, v)
      → q ≡ p
  unfolding kept
  kept-failed j p q (true, w) v h = absurd (ground arith)
  kept-failed j p q (false, w) v h = cc

  -- A failing refresh leaves the port open.
  refresh-failed :
      (j : Job) (p q : Panel serial.Port) (port : serial.Port) (level : ℕ) (w v : W)
      → refresh serial j p port level w ≡ some (false, q, v)
      → q ≡ p
  unfolding refresh
  refresh-failed j p q port level w v h = elim (Bool-cases (shows serial j p level)) [
    | inl e ↦ elim (Bool-cases (leb 25000 (j.checked - p.last_write))) [
      | inl l ↦
          kept-failed j p q (serial.write_all port (command 0x00 (level ∷ [])) w) v
            (ground (arith, e, l))
      | inr l ↦ absurd (ground (arith, e, l))
    ]
    | inr e ↦ elim (Option-cases (frame_commands serial j.frame)) [
      | inl n ↦ absurd (ground (arith, e, n))
      | inr (cs, c) ↦
          painted-failed j p q level (write_commands serial port (command 0x00 (level ∷ []) ∷ cs) w)
            v (ground (arith, e, c))
    ]
  ]

  attempt-failed :
      (j : Job) (p q : Panel serial.Port) (w v : W)
      → is_some p.port ≡ true
      → attempt serial j p w ≡ some (false, q, v)
      → q ≡ p
  unfolding attempt open_panel after_open lit
  attempt-failed j p q w v o h = elim (Option-cases p.port) [
    | inl n ↦ absurd (ground (arith, n))
    | inr (port, e) ↦ elim (Option-cases j.brightness) [
      | inl n ↦ absurd (ground (arith, e, n))
      | inr (level, b) ↦ elim (Bool-cases j.stopping_open) [
        | inl t ↦ absurd (ground (arith, e, b, t))
        | inr t ↦ refresh-failed j p q port level w v (ground (arith, e, b, t))
      ]
    ]
  ]

  settle-failed :
      (j : Job) (p : Panel serial.Port) (w : W)
      → let r = settle serial j (false, p, w) in
        (r.0.needs_replug ≡ is_some p.port)
        × (r.0.port ≡ none)
        × (r.0.retry_at ≡ j.failed_at + 5000)
        × (r.1 ≡ w)
  unfolding settle failed sleep closed
  settle-failed j p w = ground arith

  -- When a job that was ready and not stopped at its start fails, it has sent, in order, the commands
  -- before the write that failed and nothing behind it; where not a write but the port or its firmware
  -- version was what failed, it has sent nothing or the two opening commands. No later job that starts
  -- within five seconds touches the port, and where the port was open before the job, no later job at
  -- all: the panel waits for the module to be reconnected.
  pub job-failed :
      (j : Job) (p q : Panel serial.Port) (w v : W)
      → ready p j.started ≡ true
      → j.stopping_first ≡ false
      → attempt serial j p w ≡ some (false, q, v)
      → let r = settle serial j (false, q, v) in
        (job serial j p w ≡ some r)
        × (r.1 ≡ v)
        × AttemptStops serial j p w v
        × ((k : Job) → k.started < j.failed_at + 5000 → job serial k r.0 r.1 ≡ some r)
        × (is_some p.port ≡ true → (k : Job) → job serial k r.0 r.1 ≡ some r)
  unfolding job
  job-failed j p q w v h s a = (
    ground (arith, h, s, a),
    (settle-failed j q v).3,
    attempt-AttemptStops serial j p q w v a,
    (λ k l.
        job-unready k (settle serial j (false, q, v)).0 (settle serial j (false, q, v)).1
          (inr rw ((settle-failed j q v).2) l)),
    λ o k.
        job-unready k (settle serial j (false, q, v)).0 (settle serial j (false, q, v)).1
          (inl (rw ((settle-failed j q v).0, attempt-failed j p q w v o a) o)),
  )

  -- A failed sleep quarantines the panel; any other confirms that it is dark. The port is given up.
  pub sleep-safe :
      (p : Panel serial.Port) (w : W)
      → is_some p.port ≡ true
      → let r = sleep serial p w in
        (r.0.port ≡ none)
        × (r.0.brightness ≡ none)
        × (r.0.frame ≡ none)
        × (((r.0.confirmed_off ≡ true) × (r.0.needs_replug ≡ p.needs_replug))
            ⊎ ((r.0.confirmed_off ≡ false) × (r.0.needs_replug ≡ true)))
  unfolding sleep closed slept
  sleep-safe p w o = ground arith

  versioned-failed :
      (p q : Panel serial.Port) (port : serial.Port) (o : Option Text) (w v : W)
      → versioned serial p port o w ≡ (false, q, v)
      → q ≡ p
  unfolding versioned
  versioned-failed p q port none w v h = cc
  versioned-failed p q port (some t) w v h = absurd (ground arith)

  asked-failed :
      (p q : Panel serial.Port) (port : serial.Port) (r : Option (ℕ × ℕ × ℕ) × W) (v : W)
      → asked serial p port r ≡ (false, q, v)
      → q ≡ p
  unfolding asked
  asked-failed p q port (none, w) v h = cc
  asked-failed p q port (some (a, b, c), w) v h = versioned-failed p q port (firmware a b c) w v h

  opened-failed :
      (p q : Panel serial.Port) (r : Option serial.Port × W) (v : W)
      → opened serial p r ≡ (false, q, v)
      → q ≡ p
  unfolding opened
  opened-failed p q (none, w) v h = cc
  opened-failed p q (some port, w) v h =
      let r =
        and_then (serial.write_all port (command 0x03 (0 ∷ [])) w)
          (serial.write_all port (command 0x20 [])) in
      elim (Bool-cases r.0) [
        | inl e ↦ asked-failed p q port (serial.read_version port r.1) v (ground (arith, e))
        | inr e ↦ ground (arith, e)
      ]

  open_panel-failed :
      (name : Text) (p q : Panel serial.Port) (w v : W)
      → open_panel serial name p w ≡ (false, q, v)
      → (q ≡ p) × (p.port ≡ none)
  unfolding open_panel
  open_panel-failed name p q w v h = elim (Bool-cases (is_some p.port)) [
    | inl e ↦ absurd (ground (arith, e))
    | inr e ↦ elim (Bool-cases (another_owner serial name w)) [
      | inl o ↦ ground (arith, e, o)
      | inr o ↦
          (opened-failed p q (serial.open_port name w) v (ground (arith, e, o)), ground (arith, e))
    ]
  ]

  -- A port that cannot be opened, whatever was sent to it, is not quarantined: the panel is ready again
  -- after five seconds, and not before.
  pub open_panel-retries :
      (name : Text) (p q : Panel serial.Port) (w v : W) (now later : ℕ)
      → open_panel serial name p w ≡ (false, q, v)
      → ((failed q now).needs_replug ≡ false)
        × (ready (failed q now) later ≡ leb (now + 5000) later)
  unfolding failed ready
  open_panel-retries name p q w v now later h = ground (arith, open_panel-failed name p q w v h)
