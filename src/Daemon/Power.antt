-- ===== src/Daemon/Power.antt =====
-- crates/matrix-daemon/src/power.rs: the battery and the mains. The files below
-- /sys/class/power_supply and the status that Windows gives are a parameter, and so is the time.
pub mod Bounds
pub mod Mains
use fw16_ledmatrix.Base.{
  ℕ, suc, ◌+◌, ◌-◌, ◌*◌, ◌/◌, ◌%◌, Bool, true, false, not, ◌&&◌, ◌||◌, Option, none, some, List, [],
  ◌∷◌, Text, utf8, text_eq, text_compare, nat_eq, ◌==◌, leb, if◌then◌else◌, unwrap_or, is_some,
  is_none, option_filter, ◌>>=◌, any,
}
use Prim.Native.Nat.{Ordering}
use fw16_ledmatrix.Base.Trim.{trim}
use fw16_ledmatrix.Client.Messages.{PowerReading, PowerStatus}
use fw16_ledmatrix.Daemon.Feeds.{sort}

unfoldable pub unavailable : Text → PowerStatus → PowerReading
unavailable updated_at status = record {
  status = status;
  percent = none;
  charging = none;
  ac = none;
  updated_at = updated_at;
}

-- The names below the directory (`none` where it cannot be listed), and `read_to_string` of a file in
-- one of them.
pub record Supplies : Type 0 where
  pub names : Option (List Text)
  pub read : Text → Text → Option Text

-- `str::parse::<u8>`.
unfoldable pub parse_digits : Text → ℕ → Option ℕ
parse_digits [] n = some n
parse_digits (c ∷ cs) n =
    let rest = parse_digits cs (n * 10 + (c - b'0')) in
    if leb b'0' c && leb c b'9' && leb (n * 10 + (c - b'0')) 255 then rest else none

unfoldable pub parse_u8 : Text → Option ℕ
unfolding parse_digits
parse_u8 [] = none
parse_u8 (c ∷ []) = parse_digits (c ∷ []) 0
parse_u8 (c ∷ d ∷ cs) = if c == b'+' then parse_digits (d ∷ cs) 0 else parse_digits (c ∷ d ∷ cs) 0

unfoldable pub kind_of : Supplies → Text → Text
unfolding utf8
kind_of s name = trim (unwrap_or (s.read name (utf8 "type")) [])

unfoldable pub is_mains : Text → Bool
unfolding utf8
is_mains kind = any (λ k. k == kind) (utf8 "Mains" ∷ utf8 "USB" ∷ utf8 "USB_C" ∷ [])

-- What one `online` file makes of what the files before it said.
unfoldable pub online : Option Text → Option Bool → Option Bool
unfolding utf8
online none ac = ac
online (some value) ac =
    if trim value == utf8 "1"
    then some true
    else if trim value == utf8 "0" && not (unwrap_or ac false)
    then some false
    else ac

pub record Found : Type 0 where
  pub ac : Option Bool
  pub battery : Option Text

unfoldable pub look_at : Supplies → Text → Found → Found
unfolding utf8
look_at s name f =
    if kind_of s name == utf8 "Battery" && is_none f.battery
    then record f { battery = some name }
    else if is_mains (kind_of s name)
    then record f { ac = online (s.read name (utf8 "online")) f.ac }
    else f

unfoldable pub look_through : Supplies → List Text → Found → Found
look_through s [] f = f
look_through s (name ∷ names) f = look_through s names (look_at s name f)

unfoldable pub charging_of : Text → Option Bool
unfolding utf8
charging_of status =
    if status == utf8 "Charging"
    then some true
    else if any (λ s. s == status) (utf8 "Discharging" ∷ utf8 "Full" ∷ utf8 "Not charging" ∷ [])
    then some false
    else none

unfoldable pub percent_of : Supplies → Text → Option ℕ
unfolding utf8
percent_of s name =
    option_filter (λ p. leb p 100) (s.read name (utf8 "capacity") >>= λ v. parse_u8 (trim v))

unfoldable pub battery_reading : Supplies → Text → Text → Option Bool → Option ℕ → PowerReading
unfolding utf8
battery_reading s now name ac none = unavailable now PowerStatus.error
battery_reading s now name ac (some p) = record {
  status = PowerStatus.available;
  percent = some p;
  charging = s.read name (utf8 "status") >>= λ v. charging_of (trim v);
  ac = ac;
  updated_at = now;
}

unfoldable pub reading_of : Supplies → Text → Option Bool → Option Text → PowerReading
reading_of s now ac none = record (unavailable now PowerStatus.unavailable) { ac = ac }
reading_of s now ac (some name) = battery_reading s now name ac (percent_of s name)

unfoldable pub entry_before : Text → Text → Bool
entry_before a b = elim (text_compare a b) [ Ordering.gt ↦ false | _ ↦ true ]

unfoldable pub look_at_all : Supplies → List Text → Found
look_at_all s names =
    look_through s (sort entry_before names) (record { ac = none; battery = none })

unfoldable pub read_names : Supplies → Text → Option (List Text) → PowerReading
read_names s now none = unavailable now PowerStatus.error
read_names s now (some names) = let f = look_at_all s names in reading_of s now f.ac f.battery

unfoldable pub read_linux : Supplies → Text → PowerReading
unfolding read_names
read_linux s now = read_names s now s.names

-- `SYSTEM_POWER_STATUS`, `none` where the call failed.
pub record SystemPowerStatus : Type 0 where
  pub ac_line_status : ℕ
  pub battery_flag : ℕ
  pub battery_life_percent : ℕ

unfoldable pub windows_percent : SystemPowerStatus → Option ℕ
windows_percent w =
    if not (w.battery_flag == 128) && leb w.battery_life_percent 100
    then some w.battery_life_percent
    else none

unfoldable pub read_windows : Text → Option SystemPowerStatus → PowerReading
unfolding unavailable windows_percent
read_windows now none = unavailable now PowerStatus.error
read_windows now (some w) = record {
  status = if is_some (windows_percent w) then PowerStatus.available else PowerStatus.unavailable;
  percent = windows_percent w;
  charging =
      if w.battery_flag == 255 || w.battery_flag == 128
      then none
      else some (not (w.battery_flag / 8 % 2 == 0));
  ac =
      if w.ac_line_status == 0
      then some false
      else if w.ac_line_status == 1
      then some true
      else none;
  updated_at = now;
}

-- One turn of `poll`: the read returns in time, it panics, or it takes longer than two seconds and
-- returns later or panics then.
pub data Polled : Type 0 where
  in_time : PowerReading → Polled
  panicked : Polled
  late : Option PowerReading → Polled

-- The readings that the turn sends.
unfoldable pub poll_sends : Text → Polled → List PowerReading
unfolding unavailable
poll_sends now (in_time r) = r ∷ []
poll_sends now panicked = unavailable now PowerStatus.error ∷ []
poll_sends now (late none) = unavailable now PowerStatus.error ∷ []
poll_sends now (late (some r)) = unavailable now PowerStatus.error ∷ r ∷ []
