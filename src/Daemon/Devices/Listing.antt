-- ===== src/Daemon/Devices/Listing.antt =====
-- `list` of crates/matrix-daemon/src/devices.rs: the devices with what is known of their panels.
use Prim.Native.Nat.{Ordering}
use fw16_ledmatrix.Daemon.Feeds.{sort}
use fw16_ledmatrix.Base.{
  ℕ, nat_eq, ◌&&◌, is_some_and, keep, option_map, text_compare, Bool, true, false, Option, none,
  some, List, [], Text, utf8, text_eq, ◌==◌, if◌then◌else◌, is_some, find, map,
}
use fw16_ledmatrix.Client.Messages.{Device, DeviceReply}
use fw16_ledmatrix.Daemon.Devices.Panel.{
  Panel, PanelError, write_failed, reconnecting, sleep_failed,
}
use fw16_ledmatrix.Daemon.Devices.Route.{Handle}

unfoldable pub error_text : PanelError → Text
unfolding utf8
error_text write_failed =
    utf8
      "device write failed: reconnect the module (leave disconnected at least two seconds); no commands will follow a potentially partial payload"
error_text reconnecting =
    utf8 "reconnecting: check access/competing POC/device; retry no sooner than five seconds"
error_text sleep_failed = utf8 "sleep command failed; reconnect the module"

unfoldable pub calm_text : Bool → Bool → Text
unfolding utf8
calm_text true is_open = utf8 "sleeping by configured policy"
calm_text false true = utf8 "open; identification path ready"
calm_text false false = utf8 "disconnected; awaiting retry"

module _ {P : Type 0} where
  unfoldable pub status_of : Panel P → Text
  unfolding error_text calm_text
  status_of p = elim p.error [
    | some e ↦ error_text e
    | none ↦ calm_text p.confirmed_off (is_some p.port)
  ]

  unfoldable pub described : Device → Option (Handle P) → Device
  unfolding status_of utf8
  described d none = d
  described d (some h) =
      if h.locked
      then record d { status = utf8 "busy: display operation" }
      else record d { firmware = h.panel.firmware; status = status_of h.panel }

  -- `none` where the ports cannot be listed.
  unfoldable pub list : List (Handle P) → Option (List Device) → DeviceReply
  unfolding described utf8
  list hs none = record {
    devices = [];
    message = utf8 "Serial enumeration failed; check drivers and access.";
  }
  list hs (some devices) = record {
    devices =
        map (λ (d : Device). described d (find (λ (h : Handle P). h.name == d.port) hs)) devices;
    message =
        utf8
          "Device identity is physical location, never enumeration order or serial number. Windows location remains unverified.";
  }

-- A serial port: its name, the vendor and product of a USB port, and the location that the system gives
-- for it (on Linux the canonical path of its device).
pub record SerialPort : Type 0 where
  pub name : Text
  pub usb : Option (ℕ × ℕ)
  pub location : Option Text

unfoldable pub is_module : SerialPort → Bool
is_module port = is_some_and port.usb (λ (u : ℕ × ℕ). u.0 == 0x32ac && u.1 == 0x0020)

unfoldable pub detected : SerialPort → Device
unfolding utf8
detected port = record {
  port = port.name;
  location = port.location;
  firmware = none;
  status = utf8 "detected; identify to query firmware";
}

unfoldable pub port_before : Device → Device → Bool
port_before a b = elim (text_compare a.port b.port) [ Ordering.gt ↦ false | _ ↦ true ]

-- `none` where the ports cannot be listed.
unfoldable pub enumerate : Option (List SerialPort) → Option (List Device)
unfolding is_module detected
enumerate ports = option_map (λ ps. sort port_before (map detected (keep is_module ps))) ports
