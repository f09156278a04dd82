-- ===== src/Daemon/Devices/Identify.antt =====
-- `identify` of crates/matrix-daemon/src/devices.rs on the panel whose lock it holds: `identify_on`
-- between the opening of the port and the return to the configured brightness.
use fw16_ledmatrix.Base.{
  ℕ, Bool, true, false, not, Option, none, some, List, [], ◌∷◌, Text, text_eq, ◌==◌, if◌then◌else◌,
  leb, find, ◌>>=◌, option_map,
}
use Prim.Native.Nat.{min, max}
use fw16_ledmatrix.Core.Frame.{Frame}
use fw16_ledmatrix.Core.Brightness.{Brightness, level, effective}
use fw16_ledmatrix.Core.Config.{Config}
use fw16_ledmatrix.Core.Layout.{PanelLayout}
use fw16_ledmatrix.Core.Protocol.{command}
use fw16_ledmatrix.Client.Messages.{Device}
use fw16_ledmatrix.Daemon.Devices.Panel.{
  Panel, Serial, ready, failed, sleep, open_panel, identify_on,
}
use fw16_ledmatrix.Daemon.Devices.Route.{resolve, panel_named}

-- The panel of the configuration that stands at the port.
unfoldable pub role : Config → List Device → Text → Option PanelLayout
role c devices port =
    find (λ (r : Text × Text). r.1 == port) (resolve c devices) >>= λ (r : Text × Text).
    panel_named c r.0

unfoldable pub policy : Config → Option PanelLayout → Brightness
policy c none = c.brightness
policy c (some p) = effective c.brightness p.brightness_override

-- `32_u8.clamp(minimum, maximum)` panics where the minimum is the greater.
unfoldable pub flash_level : Brightness → Option ℕ
flash_level b = if leb b.minimum b.maximum then some (min (max 32 b.minimum) b.maximum) else none

-- What the call reads on its way: `active` is the session's flag, the first configuration and devices
-- are those before the flash, `latest` is the frame to return to, and the last ones are read after it.
pub record Identification : Type 0 where
  pub name : Text
  pub started : ℕ
  pub active : Bool
  pub first_config : Config
  pub first_devices : List Device
  pub latest : Frame
  pub last_config : Config
  pub last_devices : List Device
  pub failed_at : ℕ
  pub stopping : Bool

module _ {W : Type 0} (serial : Serial W) where
  -- A port that is open already may sleep.
  unfoldable pub woken : Option serial.Port → W → Bool × W
  unfolding command
  woken none w = (true, w)
  woken (some port) w = serial.write_all port (command 0x03 (0 ∷ [])) w

  unfoldable pub level_written : Panel serial.Port → ℕ → Bool × W → Bool × Panel serial.Port × W
  level_written p l (true, w) = (true, record p { brightness = some l }, w)
  level_written p l (false, w) = (false, p, w)

  -- The configured brightness again, or sleep where the panel has no role or is off.
  unfoldable pub relit :
      Panel serial.Port → serial.Port → Option ℕ → W → Bool × Panel serial.Port × W
  unfolding level_written command
  relit p port none w = (true, (sleep serial p w).0, (sleep serial p w).1)
  relit p port (some l) w = level_written p l (serial.write_all port (command 0x00 (l ∷ [])) w)

  unfoldable pub last_level : Identification → Option ℕ
  last_level i = role i.last_config i.last_devices i.name >>= λ (p : PanelLayout).
      level (effective i.last_config.brightness p.brightness_override)

  unfoldable pub flashed :
      Identification → Panel serial.Port → serial.Port → Bool × W → Bool × Panel serial.Port × W
  unfolding relit
  flashed i p port (true, w) = relit p port (last_level i) w
  flashed i p port (false, w) = (false, p, w)

  unfoldable pub identify_open :
      Identification → Bool × Panel serial.Port × W → Option (Bool × Panel serial.Port × W)
  identify_open i (false, p, w) = some (false, p, w)
  identify_open i (true, p, w) = do
    l ← flash_level (policy i.first_config (role i.first_config i.first_devices i.name))
    port ← p.port
    r ← identify_on serial port i.active i.latest l w
    some (flashed i p port r)

  unfoldable pub identify_body :
      Identification → Panel serial.Port → Bool × W → Option (Bool × Panel serial.Port × W)
  identify_body i p (false, w) = some (false, p, w)
  identify_body i p (true, w) = identify_open i (open_panel serial i.name p w)

  unfoldable pub concluded :
      Identification → Bool × Panel serial.Port × W → Bool × Panel serial.Port × W
  concluded i (result, p, w) =
      let q = record p { frame = none } in
      let s = if result then q else failed q i.failed_at in
      if i.stopping then (result, (sleep serial s w).0, (sleep serial s w).1) else (result, s, w)

  -- `none` is a panic.
  unfoldable pub identify :
      Identification → Panel serial.Port → W → Option (Bool × Panel serial.Port × W)
  identify i p w =
      if not (ready p i.started)
      then some (false, p, w)
      else option_map (concluded i) (identify_body i p (woken p.port w))
