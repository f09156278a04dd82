-- ===== src/Daemon/Devices/Panel/Sending.antt =====
-- What the jobs of crates/matrix-daemon/src/devices.rs send to a port: one command after the other, and
-- nothing behind one that fails.
use fw16_ledmatrix.Base.{
  ℕ, ◌≡◌, ◌⊎◌, inl, inr, refl, arith, Bool, true, false, Option, none, some, List, [], ◌∷◌, Text,
  is_none, is_some, ◌&&◌, ◌-◌, leb, Bool-cases, Option-cases,
}
use fw16_ledmatrix.Core.Frame.{Frame}
use fw16_ledmatrix.Core.Protocol.{command, greyscale, firmware}
use fw16_ledmatrix.Daemon.Devices.Panel.{
  Serial, Panel, Job, write_commands, and_then, versioned, asked, opened, open_panel, another_owner,
  painted, kept, refresh, lit, after_open, attempt, frame_commands, shows,
}

-- The commands that open a panel, and the one of its level.
abbrev pub opening : List (List ℕ)
opening = command 0x03 (0 ∷ []) ∷ command 0x20 [] ∷ []

abbrev pub level_command : ℕ → List ℕ
level_command level = command 0x00 (level ∷ [])

module _ {W : Type 0} (serial : Serial W) where
  -- Every command was written, in order.
  abbrev pub WritesAll : serial.Port → List (List ℕ) → W → W → Type 0
  WritesAll port [] w v = v ≡ w
  WritesAll port (c ∷ cs) w v =
      ((serial.write_all port c w).0 ≡ true) × WritesAll port cs (serial.write_all port c w).1 v

  -- The write of one of the commands failed, those before it were written, and none behind it.
  abbrev pub StopsAt : serial.Port → List (List ℕ) → W → W → Type 0
  StopsAt port [] w v = ⊥
  StopsAt port (c ∷ cs) w v =
      (serial.write_all port c w ≡ (false, v))
      ⊎ (((serial.write_all port c w).0 ≡ true) × StopsAt port cs (serial.write_all port c w).1 v)

  write_commands-WritesAll :
      (port : serial.Port) (cs : List (List ℕ)) (w v : W)
      → write_commands serial port cs w ≡ (true, v)
      → WritesAll port cs w v
  unfolding write_commands and_then
  write_commands-WritesAll port [] w v h = ground arith
  write_commands-WritesAll port (c ∷ cs) w v h = elim (Bool-cases (serial.write_all port c w).0) [
    | inl e ↦
        (e, write_commands-WritesAll port cs (serial.write_all port c w).1 v (ground (arith, e, h)))
    | inr e ↦ absurd (ground (arith, e, h))
  ]

  write_commands-StopsAt :
      (port : serial.Port) (cs : List (List ℕ)) (w v : W)
      → write_commands serial port cs w ≡ (false, v)
      → StopsAt port cs w v
  unfolding write_commands and_then
  write_commands-StopsAt port [] w v h = absurd (ground arith)
  write_commands-StopsAt port (c ∷ cs) w v h = elim (Bool-cases (serial.write_all port c w).0) [
    | inl e ↦
        inr
          (e, write_commands-StopsAt port cs (serial.write_all port c w).1 v (ground (arith, e, h)))
    | inr e ↦ inl (ground (arith, e, h))
  ]

  -- What is sent where a port cannot be opened: nothing, or the opening commands up to the one that
  -- fails, or both of them before a firmware version that cannot be read.
  abbrev pub OpeningStops : serial.Port → W → W → Type 0
  OpeningStops port w v =
      StopsAt port opening w v
      ⊎ ((u : W) × WritesAll port opening w u × (v ≡ (serial.read_version port u).1))

  abbrev pub OpenStops : Text → W → W → Type 0
  OpenStops name w v =
      (v ≡ w)
      ⊎ ((serial.open_port name w ≡ (none, v))
          ⊎ ((port : serial.Port) × ((serial.open_port name w).0 ≡ some port)
              × OpeningStops port (serial.open_port name w).1 v))

  -- What is sent where a refresh fails, and where it succeeds.
  abbrev pub RefreshStops : Job → serial.Port → ℕ → W → W → Type 0
  RefreshStops j port level w v =
      StopsAt port (level_command level ∷ []) w v
      ⊎ ((cs : List (List ℕ)) × (greyscale j.frame ≡ some (some cs))
          × StopsAt port (level_command level ∷ cs) w v)

  abbrev pub RefreshSends : Job → Panel serial.Port → serial.Port → ℕ → W → W → Type 0
  RefreshSends j p port level w v =
      ((shows serial j p level ≡ true) × ((v ≡ w) ⊎ WritesAll port (level_command level ∷ []) w v))
      ⊎ ((cs : List (List ℕ)) × (greyscale j.frame ≡ some (some cs))
          × WritesAll port (level_command level ∷ cs) w v)

  -- Where an attempt that fails stops.
  abbrev pub AttemptStops : Job → Panel serial.Port → W → W → Type 0
  AttemptStops j p w v =
      OpenStops j.name w v
      ⊎ ((opened : Panel serial.Port) × (u : W) × (port : serial.Port) × (level : ℕ) × (open_panel
              serial j.name p w
            ≡ (true, opened, u))
          × (opened.port ≡ some port)
          × (j.brightness ≡ some level)
          × RefreshStops j port level u v)

  versioned-world :
      (p q : Panel serial.Port) (port : serial.Port) (o : Option Text) (b : Bool) (w v : W)
      → versioned serial p port o w ≡ (b, q, v)
      → v ≡ w
  unfolding versioned
  versioned-world p q port none b w v h = cc
  versioned-world p q port (some t) b w v h = cc

  asked-world :
      (p q : Panel serial.Port) (port : serial.Port) (r : Option (ℕ × ℕ × ℕ) × W) (b : Bool) (v : W)
      → asked serial p port r ≡ (b, q, v)
      → v ≡ r.1
  unfolding asked
  asked-world p q port (none, w) b v h = cc
  asked-world p q port (some (x, y, z), w) b v h = versioned-world p q port (firmware x y z) b w v h

  opened-stops :
      (p q : Panel serial.Port) (port : serial.Port) (w v : W)
      → opened serial p (some port, w) ≡ (false, q, v)
      → OpeningStops port w v
  unfolding opened and_then
  opened-stops p q port w v h =
      let a = serial.write_all port (command 0x03 (0 ∷ [])) w in
      let b = serial.write_all port (command 0x20 []) a.1 in
      elim (Bool-cases a.0) [
        | inl e ↦ elim (Bool-cases b.0) [
          | inl f ↦ inr (
            b.1,
            (e, (f, refl)),
            asked-world p q port (serial.read_version port b.1) false v (ground (arith, e, f, h)),
          )
          | inr f ↦ inl (inr (e, inl (ground (arith, e, f, h))))
        ]
        | inr e ↦ inl (inl (ground (arith, e, h)))
      ]

  opening_stops :
      (name : Text) (p q : Panel serial.Port) (w v : W)
      → opened serial p (serial.open_port name w) ≡ (false, q, v)
      → OpenStops name w v
  unfolding opened
  opening_stops name p q w v h = elim (Option-cases (serial.open_port name w).0) [
    | inl e ↦ inr (inl (ground (arith, e, h)))
    | inr (port, e) ↦
        inr (
          inr (port, e, opened-stops p q port (serial.open_port name w).1 v (ground (arith, e, h))))
  ]

  open_panel-OpenStops :
      (name : Text) (p q : Panel serial.Port) (w v : W)
      → open_panel serial name p w ≡ (false, q, v)
      → OpenStops name w v
  unfolding open_panel
  open_panel-OpenStops name p q w v h = elim (Bool-cases (is_some p.port)) [
    | inl e ↦ absurd (ground (arith, e, h))
    | inr e ↦ elim (Bool-cases (another_owner serial name w)) [
      | inl o ↦ inl (ground (arith, e, o, h))
      | inr o ↦ opening_stops name p q w v (ground (arith, e, o, h))
    ]
  ]

  frame_commands-greyscale :
      (f : Frame) (cs : List (List ℕ))
      → frame_commands serial f ≡ some cs
      → greyscale f ≡ some (some cs)
  unfolding frame_commands
  frame_commands-greyscale f cs h = ground (arith, h)

  painted-sent :
      (j : Job) (p q : Panel serial.Port) (level : ℕ) (r : Bool × W) (b : Bool) (v : W)
      → painted serial j p level r ≡ (b, q, v)
      → r ≡ (b, v)
  unfolding painted
  painted-sent j p q level (true, w) b v h = cc
  painted-sent j p q level (false, w) b v h = cc

  kept-sent :
      (j : Job) (p q : Panel serial.Port) (r : Bool × W) (b : Bool) (v : W)
      → kept serial j p r ≡ (b, q, v)
      → r ≡ (b, v)
  unfolding kept
  kept-sent j p q (true, w) b v h = cc
  kept-sent j p q (false, w) b v h = cc

  -- A refresh sends the level and the frame, or the level alone, or nothing.
  refresh-sent :
      (j : Job) (p q : Panel serial.Port) (port : serial.Port) (level : ℕ) (w v : W) (b : Bool)
      → refresh serial j p port level w ≡ some (b, q, v)
      → ((shows serial j p level ≡ true) × (b ≡ true) × (v ≡ w))
        ⊎ (((shows serial j p level ≡ true)
              × (serial.write_all port (level_command level) w ≡ (b, v)))
            ⊎ ((cs : List (List ℕ)) × (greyscale j.frame ≡ some (some cs))
                × (write_commands serial port (level_command level ∷ cs) w ≡ (b, v))))
  unfolding refresh
  refresh-sent j p q port level w v b h = elim (Bool-cases (shows serial j p level)) [
    | inl e ↦ elim (Bool-cases (leb 25000 (j.checked - p.last_write))) [
      | inl l ↦ inr (
          inl (
            e,
            kept-sent j p q (serial.write_all port (level_command level) w) b v
                (ground (arith, e, l, h)),
          ))
      | inr l ↦ inl (ground (arith, e, l, h))
    ]
    | inr e ↦ elim (Option-cases (frame_commands serial j.frame)) [
      | inl n ↦ absurd (ground (arith, e, n, h))
      | inr (cs, c) ↦ inr (
          inr (
            cs,
            frame_commands-greyscale j.frame cs c,
            painted-sent j p q level (write_commands serial port (level_command level ∷ cs) w) b v
                (ground (arith, e, c, h)),
          ))
    ]
  ]

  refresh-RefreshStops :
      (j : Job) (p q : Panel serial.Port) (port : serial.Port) (level : ℕ) (w v : W)
      → refresh serial j p port level w ≡ some (false, q, v)
      → RefreshStops j port level w v
  refresh-RefreshStops j p q port level w v h = elim (refresh-sent j p q port level w v false h) [
    | inl (s, e, k) ↦ absurd (cc e)
    | inr (inl (s, e)) ↦ inl (inl e)
    | inr (inr (cs, g, e)) ↦
        inr (cs, g, write_commands-StopsAt port (level_command level ∷ cs) w v e)
  ]

  pub refresh-RefreshSends :
      (j : Job) (p q : Panel serial.Port) (port : serial.Port) (level : ℕ) (w v : W)
      → refresh serial j p port level w ≡ some (true, q, v)
      → RefreshSends j p port level w v
  refresh-RefreshSends j p q port level w v h = elim (refresh-sent j p q port level w v true h) [
    | inl (s, e, k) ↦ inl (s, inl k)
    | inr (inl (s, e)) ↦ inl (s, inr (ground (arith, e)))
    | inr (inr (cs, g, e)) ↦
        inr (cs, g, write_commands-WritesAll port (level_command level ∷ cs) w v e)
  ]

  pub attempt-AttemptStops :
      (j : Job) (p q : Panel serial.Port) (w v : W)
      → attempt serial j p w ≡ some (false, q, v)
      → AttemptStops j p w v
  unfolding attempt after_open lit
  attempt-AttemptStops j p q w v h = elim (Bool-cases (is_none j.brightness && p.confirmed_off)) [
    | inl c ↦ absurd (ground (arith, c, h))
    | inr c ↦ go (open_panel serial j.name p w) refl (ground (arith, c, h))
  ]
    where
      go :
          (r : Bool × Panel serial.Port × W)
          → open_panel serial j.name p w ≡ r
          → after_open serial j r ≡ some (false, q, v)
          → AttemptStops j p w v
      go (false, a, u) e k = inl (open_panel-OpenStops j.name p a w v (ground (arith, e, k)))
      go (true, a, u) e k = elim (Option-cases j.brightness) [
        | inl n ↦ absurd (ground (arith, n, k))
        | inr (level, b) ↦ elim (Bool-cases j.stopping_open) [
          | inl t ↦ absurd (ground (arith, b, t, k))
          | inr t ↦ elim (Option-cases a.port) [
            | inl n ↦ absurd (ground (arith, b, t, n, k))
            | inr (port, o) ↦ inr (
              a,
              u,
              port,
              level,
              e,
              o,
              b,
              refresh-RefreshStops j a q port level u v (ground (arith, b, t, o, k)),
            )
          ]
        ]
      ]
