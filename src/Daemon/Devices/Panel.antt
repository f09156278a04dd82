-- ===== src/Daemon/Devices/Panel.antt =====
-- One panel of crates/matrix-daemon/src/devices.rs: its serial port, the job that shows a frame on it,
-- and the flash that identifies it. The serialport crate is a parameter; instants are milliseconds.
pub mod Sending
pub mod Safety
pub mod Shown
use fw16_ledmatrix.Base.{
  ℕ, ◌+◌, ◌*◌, ◌-◌, Bool, true, false, not, ◌&&◌, ◌||◌, Option, none, some, List, [], ◌∷◌, Text,
  text_beq, text_eq, nat_eq, ◌==◌, if◌then◌else◌, ltb, leb, any, is_some, is_none, is_some_and,
  ◌>>=◌, for_each, count_from,
}
use fw16_ledmatrix.Core.Frame.{Frame, blank_frame, width_px, height_px, write}
use fw16_ledmatrix.Core.Protocol.{command, bw, greyscale, firmware}

-- What the code uses of a serial port: each call says whether it succeeded, and `W` is the world
-- outside of the program. `open_port` takes the port for itself.
pub record Serial (W : Type 0) : Type 1 where
  pub Port : Type 0
  pub open_port : Text → W → Option Port × W
  pub write_all : Port → List ℕ → W → Bool × W
  pub flush : Port → W → Bool × W
  pub read_version : Port → W → Option (ℕ × ℕ × ℕ) × W
  -- `canonicalize` of the device, and below /proc the processes with the targets of their files.
  pub canonical : Text → W → Option Text
  pub processes : W → List (ℕ × List Text)
  pub own_pid : ℕ

pub data PanelError : Type 0 where
  write_failed reconnecting sleep_failed : PanelError

pub record Panel (P : Type 0) : Type 0 where
  pub port : Option P
  pub firmware : Option Text
  pub frame : Option Frame
  pub last_write : ℕ
  pub retry_at : ℕ
  pub error : Option PanelError
  pub needs_replug : Bool
  pub confirmed_off : Bool
  pub brightness : Option ℕ

unfoldable pub frame_beq : Frame → Frame → Bool
frame_beq a b = a.width == b.width && (a.height == b.height && text_beq a.pixels b.pixels)

-- What a job was given, and what it reads of the clock and of the stop flag on its way.
pub record Job : Type 0 where
  pub name : Text
  pub frame : Frame
  pub brightness : Option ℕ
  pub started : ℕ
  pub checked : ℕ
  pub written : ℕ
  pub failed_at : ℕ
  pub stopping_first : Bool
  pub stopping_open : Bool
  pub stopping_last : Bool

module _ {P : Type 0} where
  unfoldable pub ready : Panel P → ℕ → Bool
  ready p now = not p.needs_replug && leb p.retry_at now

  unfoldable pub failed : Panel P → ℕ → Panel P
  failed p now = record p {
    needs_replug = is_some p.port;
    port = none;
    firmware = none;
    frame = none;
    retry_at = now + 5000;
    error = if is_some p.port then some write_failed else some reconnecting;
  }

  -- The panel that `panel` registers for a port.
  unfoldable pub new_panel : ℕ → Panel P
  new_panel now = record {
    port = none;
    firmware = none;
    frame = none;
    last_write = now;
    retry_at = now;
    error = none;
    needs_replug = false;
    confirmed_off = false;
    brightness = none;
  }

  unfoldable pub closed : Panel P → Panel P
  closed p = record p { port = none; frame = none; brightness = none }

  unfoldable pub slept : Panel P → Bool → Panel P
  slept p true = record p { confirmed_off = true }
  slept p false = record p { confirmed_off = false; needs_replug = true; error = some sleep_failed }

-- The `?` between two calls on a port.
unfoldable pub and_then : {W : Type 0} → Bool × W → (W → Bool × W) → Bool × W
and_then (true, w) next = next w
and_then (false, w) next = (false, w)

module _ {W : Type 0} (serial : Serial W) where
  unfoldable pub holds : Text → ℕ × List Text → Bool
  holds target (pid, files) = not (pid == serial.own_pid) && any (λ f. f == target) files

  unfoldable pub another_owner : Text → W → Bool
  unfolding holds
  another_owner name w =
      is_some_and (serial.canonical name w) (λ target. any (holds target) (serial.processes w))

  -- One command after the other, until one fails.
  unfoldable pub write_commands : serial.Port → List (List ℕ) → W → Bool × W
  unfolding and_then
  write_commands port [] w = (true, w)
  write_commands port (c ∷ cs) w = and_then (serial.write_all port c w) (write_commands port cs)

  unfoldable pub sleep : Panel serial.Port → W → Panel serial.Port × W
  unfolding closed slept and_then command
  sleep p w = elim p.port [
    | none ↦ (closed p, w)
    | some port ↦
        let r = and_then (serial.write_all port (command 0x03 (1 ∷ [])) w) (serial.flush port) in
        (closed (slept p r.0), r.1)
  ]

  unfoldable pub versioned :
      Panel serial.Port → serial.Port → Option Text → W → Bool × Panel serial.Port × W
  versioned p port none w = (false, p, w)
  versioned p port (some version) w = (
    true,
    record p {
      firmware = some version;
      port = some port;
      confirmed_off = false;
      brightness = none;
      error = none;
      frame = none;
    },
    w,
  )

  unfoldable pub asked :
      Panel serial.Port → serial.Port → Option (ℕ × ℕ × ℕ) × W → Bool × Panel serial.Port × W
  unfolding versioned firmware
  asked p port (none, w) = (false, p, w)
  asked p port (some (a, b, c), w) = versioned p port (firmware a b c) w

  unfoldable pub opened : Panel serial.Port → Option serial.Port × W → Bool × Panel serial.Port × W
  unfolding asked and_then command
  opened p (none, w) = (false, p, w)
  opened p (some port, w) =
      let r =
        and_then (serial.write_all port (command 0x03 (0 ∷ [])) w)
          (serial.write_all port (command 0x20 [])) in
      if r.0 then asked p port (serial.read_version port r.1) else (false, p, r.1)

  unfoldable pub open_panel : Text → Panel serial.Port → W → Bool × Panel serial.Port × W
  open_panel name p w =
      if is_some p.port
      then (true, p, w)
      else if another_owner name w
      then (false, p, w)
      else opened p (serial.open_port name w)

  -- The brightness and the columns of a changed frame.
  unfoldable pub painted : Job → Panel serial.Port → ℕ → Bool × W → Bool × Panel serial.Port × W
  painted j p level (true, w) =
      (true, record p { frame = some j.frame; brightness = some level; last_write = j.written }, w)
  painted j p level (false, w) = (false, p, w)

  unfoldable pub kept : Job → Panel serial.Port → Bool × W → Bool × Panel serial.Port × W
  kept j p (true, w) = (true, record p { last_write = j.written }, w)
  kept j p (false, w) = (false, p, w)

  unfoldable pub shows : Job → Panel serial.Port → ℕ → Bool
  unfolding frame_beq
  shows j p level =
      is_some_and p.frame (frame_beq j.frame) && is_some_and p.brightness (λ b. b == level)

  -- `greyscale(&frame).expect("valid frame")`.
  unfoldable pub frame_commands : Frame → Option (List (List ℕ))
  frame_commands f = greyscale f >>= λ c. c

  unfoldable pub refresh :
      Job → Panel serial.Port → serial.Port → ℕ → W → Option (Bool × Panel serial.Port × W)
  refresh j p port level w =
      if not (shows j p level)
      then (do
        columns ← frame_commands j.frame
        some (painted j p level (write_commands port (command 0x00 (level ∷ []) ∷ columns) w)))
      else if leb 25000 (j.checked - p.last_write)
      then some (kept j p (serial.write_all port (command 0x00 (level ∷ [])) w))
      else some (true, p, w)

  -- `panel.port.as_mut().expect("open port")`.
  unfoldable pub lit : Job → ℕ → Panel serial.Port → W → Option (Bool × Panel serial.Port × W)
  lit j level p w = p.port >>= λ port. refresh j p port level w

  unfoldable pub after_open :
      Job → Bool × Panel serial.Port × W → Option (Bool × Panel serial.Port × W)
  after_open j (false, p, w) = some (false, p, w)
  after_open j (true, p, w) = elim j.brightness [
    | none ↦ some (true, (sleep p w).0, (sleep p w).1)
    | some level ↦
        if j.stopping_open then some (true, (sleep p w).0, (sleep p w).1) else lit j level p w
  ]

  unfoldable pub attempt : Job → Panel serial.Port → W → Option (Bool × Panel serial.Port × W)
  attempt j p w =
      if is_none j.brightness && p.confirmed_off
      then some (true, p, w)
      else after_open j (open_panel j.name p w)

  unfoldable pub settle : Job → Bool × Panel serial.Port × W → Panel serial.Port × W
  settle j (result, p, w) =
      let q = if result then p else failed p j.failed_at in
      if j.stopping_last then sleep q w else (q, w)

  -- The blocking job of `route`, on the panel whose lock it holds. `none` is a panic.
  unfoldable pub job : Job → Panel serial.Port → W → Option (Panel serial.Port × W)
  job j p w =
      if not (ready p j.started) || j.stopping_first
      then some (p, w)
      else do r ← attempt j p w; some (settle j r)

  -- The frame of a border, and `identify_on`. `active` is the flag at its start, and `latest` what the
  -- panel shows afterwards.
  unfoldable pub border_pixel : ℕ → ℕ → List ℕ → Option (List ℕ)
  border_pixel y x p =
      if x == 0 || (x == width_px - 1 || (y == 0 || y == height_px - 1))
      then write (y * width_px + x) 180 p
      else some p

  unfoldable pub border : Option Frame
  unfolding border_pixel for_each blank_frame write
  border = do
    pixels ←
        for_each (count_from 0 height_px)
          (λ y p. for_each (count_from 0 width_px) (border_pixel y) p) blank_frame.pixels
    some (record blank_frame { pixels = pixels })

  unfoldable pub flash : serial.Port → Bool → ℕ → W → Option (Bool × W)
  flash port false brightness w = some (true, w)
  flash port true brightness w = do
    frame ← border
    pattern ← bw frame >>= λ c. c
    some (write_commands port (command 0x00 (brightness ∷ []) ∷ pattern ∷ []) w)

  unfoldable pub restore : serial.Port → Option (List (List ℕ)) → Bool × W → Bool × W
  restore port commands (false, w) = (false, w)
  restore port none (true, w) = (false, w)
  restore port (some commands) (true, w) = write_commands port commands w

  unfoldable pub identify_on : serial.Port → Bool → Frame → ℕ → W → Option (Bool × W)
  identify_on port active latest brightness w = do
    r ← flash port active brightness w
    commands ← greyscale latest
    some (restore port commands r)
