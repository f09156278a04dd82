-- ===== src/Daemon/Probe.antt =====
-- crates/matrix-daemon/src/probe.rs: the report on what the machine offers. What the operating system
-- answers is a parameter; no content of a credential file is among it.
use fw16_ledmatrix.Base.{
  ℕ, Bool, true, false, not, ◌&&◌, ◌||◌, Option, none, some, List, [], ◌∷◌, ◌++◌, Text, utf8,
  text_eq, nat_eq, ◌==◌, ltb, length, any, keep, find, unwrap_or, is_some_and, is_empty,
}
use fw16_ledmatrix.Base.Trim.{trim}
use fw16_ledmatrix.Client.Messages.{Capability, CapabilityState, CapabilityReport}

unfoldable pub item : Text → CapabilityState → Text → Capability
item name state detail = record { name = name; state = state; detail = detail }

-- `try_exists`: `none` where the place cannot be looked at.
unfoldable pub presence : Text → Option Bool → Text → Text → Capability
unfolding item utf8
presence name (some true) found missing = item name CapabilityState.available found
presence name (some false) found missing = item name CapabilityState.unavailable missing
presence name none found missing =
    item name CapabilityState.error
      (utf8 "Cannot inspect location; check permissions. No credential contents were read.")

-- A command that was spawned, whose output could be read, and that ended in time (`some success`).
unfoldable pub run_command : Bool → Option Bool → Bool
run_command spawned outcome = spawned && unwrap_or outcome false

unfoldable pub one_of : Bool → CapabilityState
one_of true = CapabilityState.available
one_of false = CapabilityState.unavailable

-- `str::contains`.
abbrev starts_with : Text → Text → Bool
starts_with [] t = true
starts_with (p ∷ ps) [] = false
starts_with (p ∷ ps) (c ∷ cs) = p == c && starts_with ps cs

unfoldable pub contains : Text → Text → Bool
contains [] part = starts_with part []
contains (c ∷ cs) part = starts_with part (c ∷ cs) || contains cs part

-- The vendor and product of a USB port; `none` for a port of another kind.
unfoldable pub is_panel : Option (ℕ × ℕ) → Bool
is_panel port = is_some_and port (λ (p : ℕ × ℕ). p.0 == 0x32ac && p.1 == 0x0020)

unfoldable pub count_panels : List (Option (ℕ × ℕ)) → ℕ
unfolding is_panel
count_panels ports = length (keep is_panel ports)

unfoldable pub panel_count : Option (List (Option (ℕ × ℕ))) → ℕ
panel_count none = 0
panel_count (some ports) = count_panels ports

unfoldable pub panels_detail : Bool → Text
unfolding utf8
panels_detail true =
    utf8 "Framework USB modules detected; port access and physical identity still need testing."
panels_detail false =
    utf8 "No Framework LED panels detected. Simulated development remains available."

unfoldable pub panels_item : Option (List (Option (ℕ × ℕ))) → Capability
unfolding item utf8 panels_detail one_of
panels_item none =
    item (utf8 "panels") CapabilityState.error
      (utf8 "Serial enumeration failed; check drivers and permissions.")
panels_item (some ports) =
    item (utf8 "panels") (one_of (ltb 0 (count_panels ports)))
      (panels_detail (ltb 0 (count_panels ports)))

-- What the code reads of a Linux machine. `current_desktop` is $XDG_CURRENT_DESKTOP in lower case,
-- `supply_types` are the `type` files that can be read, `backlights` the entries found.
pub record LinuxMachine : Type 0 where
  pub current_desktop : Text
  pub backlights : List Text
  pub supply_types : List Text
  pub pactl : Bool
  pub systemctl : Bool

unfoldable pub desktop_of : Text → Text
unfolding utf8
desktop_of value =
    unwrap_or
      (find (contains value) (utf8 "hyprland" ∷ utf8 "gnome" ∷ utf8 "kde" ∷ utf8 "sway" ∷ []))
      (utf8 "unknown")

unfoldable pub backlight_detail : Bool → Text
unfolding utf8
backlight_detail true =
    utf8 "Sysfs backlight exposed. Display selection and event tracking need adapter qualification."
backlight_detail false = utf8 "No sysfs backlight found; use manual brightness."

unfoldable pub linux_items : LinuxMachine → List Capability
unfolding item utf8 one_of backlight_detail
linux_items m =
    item (utf8 "screen_brightness") (one_of (not (is_empty m.backlights)))
      (backlight_detail (not (is_empty m.backlights)))
    ∷ item (utf8 "battery") (one_of (any (λ t. trim t == utf8 "Battery") m.supply_types))
        (utf8 "Battery presence checked via sysfs; no synthetic zero reading.")
    ∷ item (utf8 "audio") (one_of m.pactl)
        (utf8 "Bounded pactl server probe; server/device names are not retained.")
    ∷ item (utf8 "user_startup") (one_of m.systemctl)
        (utf8 "User systemd manager reachability, not service installation.")
    ∷ item (utf8 "display_lock_suspend") CapabilityState.not_verified (
        utf8
          "Session-bus/desktop event coverage needs an interactive session test. No listener is claimed active.")
    ∷ []

unfoldable pub windows_items : Bool → Bool → List Capability
unfolding item utf8 one_of
windows_items brightness battery =
    item (utf8 "screen_brightness") (one_of brightness)
      (utf8 "Bounded WMI internal-display probe; manual fallback remains available.")
    ∷ item (utf8 "battery") (one_of battery) (utf8 "Bounded Windows battery presence probe.")
    ∷ item (utf8 "audio") CapabilityState.not_verified (
        utf8
          "Core Audio endpoint access needs an interactive user-session probe; CI is not that evidence.")
    ∷ item (utf8 "user_startup") CapabilityState.not_verified
        (utf8 "Per-user login startup must be installed and verified during packaging.")
    ∷ item (utf8 "display_lock_suspend") CapabilityState.not_verified
        (utf8 "Windows user-session notification coverage requires an interactive machine.")
    ∷ []

-- The machine of the target: Linux, Windows (its two commands) or neither.
pub data Machine : Type 0 where
  linux : LinuxMachine → Machine
  windows : Bool → Bool → Machine
  neither : Machine

unfoldable pub machine_desktop : Machine → Text
unfolding utf8 desktop_of
machine_desktop (linux m) = desktop_of m.current_desktop
machine_desktop (windows brightness battery) = utf8 "windows-user-session"
machine_desktop neither = utf8 "unsupported"

unfoldable pub machine_items : Machine → List Capability
unfolding utf8 item linux_items windows_items
machine_items (linux m) = linux_items m
machine_items (windows brightness battery) = windows_items brightness battery
machine_items neither =
    item (utf8 "platform") CapabilityState.unavailable (utf8 "Only Linux and Windows are targets.")
    ∷ []

-- The two places of credentials, where a home directory is known.
unfoldable pub credential_items : Option (Option Bool × Option Bool) → List Capability
unfolding presence utf8
credential_items none = []
credential_items (some (claude, opencode)) =
    presence (utf8 "claude_credentials") claude
      (utf8
        "Credential file exists; compatibility/authentication not verified and contents not read.")
      (utf8 "No file credentials detected; other secure storage may require a platform adapter.")
    ∷ presence (utf8 "opencode_credentials") opencode
        (utf8 "Credential file exists; contents not read.")
        (utf8 "No OpenCode credential file at the standard XDG-compatible location.")
    ∷ []

unfoldable pub report :
    Text
    → Text
    → Option (List (Option (ℕ × ℕ)))
    → Machine
    → Option (Option Bool × Option Bool)
    → CapabilityReport
unfolding utf8 item panels_item machine_items credential_items machine_desktop panel_count
report os architecture ports machine credentials = record {
  os = os;
  architecture = architecture;
  desktop = machine_desktop machine;
  panel_count = panel_count ports;
  capabilities =
      (panels_item ports
        ∷ item (utf8 "panel_location_identity") CapabilityState.not_verified (
            utf8
              "Duplicate serial numbers are unsafe identifiers. Verify both bay locations on hardware before assigning roles.")
        ∷ machine_items machine)
      ++ (credential_items credentials
          ++ (item (utf8 "snapshot_storage") CapabilityState.not_verified (
                utf8
                  "Metadata producers will use user-specific storage and explicit expiry, not assume logout clears files.")
              ∷ []));
}
