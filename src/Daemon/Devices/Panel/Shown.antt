-- ===== src/Daemon/Devices/Panel/Shown.antt =====
-- What a job of crates/matrix-daemon/src/devices.rs that succeeds leaves on the panel.
use fw16_ledmatrix.Base.{
  ℕ, ◌≡◌, ◌≢◌, inl, inr, refl, arith, Bool, true, false, Option, none, some, List, Text, ◌∷◌, [],
  ◌-◌, leb, is_some, Bool-cases, Option-cases, ◌>>=◌, Returns, ap,
}
use fw16_ledmatrix.Core.Frame.{Frame, is_valid}
use fw16_ledmatrix.Core.Protocol.{command, greyscale, firmware}
use fw16_ledmatrix.Core.Protocol.Greyscale.{SendsFrame, greyscale-SendsFrame}
use fw16_ledmatrix.Daemon.Devices.Panel.{
  Serial, Panel, Job, and_then, opened, asked, versioned, open_panel, refresh, lit, after_open,
  attempt, job, frame_commands, shows, another_owner,
}
use fw16_ledmatrix.Daemon.Devices.Panel.Sending.{RefreshSends}

module _ {W : Type 0} (serial : Serial W) where
  versioned-ok :
      (p q : Panel serial.Port) (port : serial.Port) (o : Option Text) (w v : W)
      → versioned serial p port o w ≡ (true, q, v)
      → is_some q.port ≡ true
  unfolding versioned
  versioned-ok p q port none w v h = absurd (ground arith)
  versioned-ok p q port (some t) w v h = ground arith

  asked-ok :
      (p q : Panel serial.Port) (port : serial.Port) (r : Option (ℕ × ℕ × ℕ) × W) (v : W)
      → asked serial p port r ≡ (true, q, v)
      → is_some q.port ≡ true
  unfolding asked
  asked-ok p q port (none, w) v h = absurd (ground arith)
  asked-ok p q port (some (a, b, c), w) v h = versioned-ok p q port (firmware a b c) w v h

  opened-ok :
      (p q : Panel serial.Port) (r : Option serial.Port × W) (v : W)
      → opened serial p r ≡ (true, q, v)
      → is_some q.port ≡ true
  unfolding opened
  opened-ok p q (none, w) v h = absurd (ground arith)
  opened-ok p q (some port, w) v h =
      let r =
        and_then (serial.write_all port (command 0x03 (0 ∷ [])) w)
          (serial.write_all port (command 0x20 [])) in
      elim (Bool-cases r.0) [
        | inl e ↦ asked-ok p q port (serial.read_version port r.1) v (ground (arith, e))
        | inr e ↦ absurd (ground (arith, e))
      ]

  open_panel-ok :
      (name : Text) (p q : Panel serial.Port) (w v : W)
      → open_panel serial name p w ≡ (true, q, v)
      → is_some q.port ≡ true
  unfolding open_panel
  open_panel-ok name p q w v h = elim (Bool-cases (is_some p.port)) [
    | inl e ↦ ground (arith, e)
    | inr e ↦ elim (Bool-cases (another_owner serial name w)) [
      | inl o ↦ absurd (ground (arith, e, o))
      | inr o ↦ opened-ok p q (serial.open_port name w) v (ground (arith, e, o))
    ]
  ]

  open_panel-port :
      (name : Text) (p : Panel serial.Port) (w : W) (r : Bool × Panel serial.Port × W)
      → open_panel serial name p w ≡ r
      → r.0 ≡ true
      → is_some r.1.port ≡ true
  open_panel-port name p w (true, q, v) e h = open_panel-ok name p q w v e
  open_panel-port name p w (false, q, v) e h = absurd (ground arith)

  frame_commands-valid :
      (f : Frame) → is_valid f ≡ true → (cs : List (List ℕ)) × (frame_commands serial f ≡ some cs)
  unfolding frame_commands
  frame_commands-valid f h = sent (greyscale-SendsFrame f h)
    where
      sent :
          Returns (SendsFrame f) (greyscale f)
          → (cs : List (List ℕ)) × (frame_commands serial f ≡ some cs)
      sent (none, e, d) = absurd d
      sent (some cs, e, d) = (cs, ap (λ o. o >>= λ c. c) e)

  refresh-returns :
      (j : Job) (p : Panel serial.Port) (port : serial.Port) (level : ℕ) (w : W)
      → is_valid j.frame ≡ true
      → refresh serial j p port level w ≢ none
  unfolding refresh
  refresh-returns j p port level w h = elim (Bool-cases (shows serial j p level)) [
    | inl e ↦ elim (Bool-cases (leb 25000 (j.checked - p.last_write))) [
      | inl l ↦ λ n. absurd (ground (arith, e, l, n))
      | inr l ↦ λ n. absurd (ground (arith, e, l, n))
    ]
    | inr e ↦ λ n. absurd (ground (arith, e, n, frame_commands-valid j.frame h))
  ]

  after_open-returns :
      (j : Job) (r : Bool × Panel serial.Port × W)
      → is_valid j.frame ≡ true
      → (r.0 ≡ true → is_some r.1.port ≡ true)
      → after_open serial j r ≢ none
  unfolding after_open lit
  after_open-returns j (false, p, w) h o n = absurd (ground (arith, n))
  after_open-returns j (true, p, w) h o n = elim (Option-cases j.brightness) [
    | inl b ↦ absurd (ground (arith, b, n))
    | inr (level, b) ↦ elim (Bool-cases j.stopping_open) [
      | inl t ↦ absurd (ground (arith, b, t, n))
      | inr t ↦ elim (Option-cases p.port) [
        | inl e ↦ absurd (ground (arith, e, o refl))
        | inr (port, e) ↦ refresh-returns j p port level w h (ground (arith, b, t, e, n))
      ]
    ]
  ]

  -- A job with a valid frame returns, whatever the port does.
  pub job-returns :
      (j : Job) (p : Panel serial.Port) (w : W)
      → is_valid j.frame ≡ true
      → (r : Panel serial.Port × W) × (job serial j p w ≡ some r)
  unfolding job attempt
  job-returns j p w h = elim (Option-cases (job serial j p w)) [
    | inl n ↦ absurd (
        after_open-returns j (open_panel serial j.name p w) h
          (open_panel-port j.name p w (open_panel serial j.name p w) refl) (ground (arith, n)))
    | inr r ↦ r
  ]

  -- What a lit panel was sent: to its port, once that is open, the level and every column of the frame,
  -- unless the panel shows that frame at that level already, and then the level or nothing.
  abbrev pub IsSent : Job → Panel serial.Port → ℕ → W → W → Type 0
  IsSent j p level w v =
      (opened : Panel serial.Port) × (u : W) × (port : serial.Port) × (open_panel serial j.name p w
        ≡ (true, opened, u))
      × (opened.port ≡ some port)
      × RefreshSends serial j opened port level u v
