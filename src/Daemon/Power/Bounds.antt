-- ===== src/Daemon/Power/Bounds.antt =====
-- What the readings of crates/matrix-daemon/src/power.rs are bound to, and that the order of the
-- directory does not matter for the mains.
use fw16_ledmatrix.Base.{
  ℕ, ◌≤◌, ◌≡◌, ◌≢◌, ◌↔◌, refl, sym, arith, Bool, true, false, Option, none, some, List, Text, utf8,
  text_eq, leb, if◌then◌else◌, is_some, option_filter, ◌>>=◌, All, subst,
}
use fw16_ledmatrix.Base.Trim.{trim}
use fw16_ledmatrix.Client.Messages.{PowerReading, PowerStatus}
use fw16_ledmatrix.Daemon.Power.{
  Supplies, unavailable, percent_of, battery_reading, reading_of, read_names, read_linux,
  SystemPowerStatus, windows_percent, read_windows, Polled, in_time, panicked, late, poll_sends,
  parse_u8,
}

-- A percentage is at most 100, and is there exactly where the battery is available.
pub record IsReading (r : PowerReading) : Type 0 where
  pub percent_fits : (p : ℕ) → r.percent ≡ some p → p ≤ 100
  pub available_iff : (r.status ≡ PowerStatus.available) ↔ (is_some r.percent ≡ true)

unavailable-IsReading :
    (now : Text) (status : PowerStatus)
    → status ≢ PowerStatus.available
    → IsReading (unavailable now status)
unfolding unavailable
unavailable-IsReading now status n = record {
  percent_fits = λ p e. absurd (cc e);
  available_iff = ((λ e. absurd (n e)), λ e. absurd (cc e));
}

filter_fits : (o : Option ℕ) (p : ℕ) → option_filter (λ q. leb q 100) o ≡ some p → p ≤ 100
filter_fits none p e = absurd (cc e)
filter_fits (some q) p e = ground (arith, e)

battery-IsReading :
    (s : Supplies) (now name : Text) (ac : Option Bool) (o : Option ℕ)
    → ((p : ℕ) → o ≡ some p → p ≤ 100)
    → IsReading (battery_reading s now name ac o)
unfolding battery_reading
battery-IsReading s now name ac none h = unavailable-IsReading now PowerStatus.error (λ e. cc e)
battery-IsReading s now name ac (some p) h = record {
  percent_fits = h;
  available_iff = ((λ _. refl), λ _. refl);
}

reading_of-IsReading :
    (s : Supplies) (now : Text) (ac : Option Bool) (b : Option Text)
    → IsReading (reading_of s now ac b)
unfolding reading_of percent_of unavailable
reading_of-IsReading s now ac none = record {
  percent_fits = λ p e. absurd (cc e);
  available_iff = ((λ e. absurd (cc e)), λ e. absurd (cc e));
}
reading_of-IsReading s now ac (some name) =
    battery-IsReading s now name ac (percent_of s name)
      (λ p e. filter_fits (s.read name (utf8 "capacity") >>= λ v. parse_u8 (trim v)) p e)

read_names-IsReading :
    (s : Supplies) (now : Text) (names : Option (List Text)) → IsReading (read_names s now names)
unfolding read_names
read_names-IsReading s now none = unavailable-IsReading now PowerStatus.error (λ e. cc e)
read_names-IsReading s now (some names) = reading_of-IsReading s now _ _

read_linux-IsReading : (s : Supplies) (now : Text) → IsReading (read_linux s now)
unfolding read_linux
read_linux-IsReading s now = read_names-IsReading s now s.names

status_available :
    (b : Bool)
    → ((if b then PowerStatus.available else PowerStatus.unavailable) ≡ PowerStatus.available)
      ↔ (b ≡ true)
status_available true = ((λ _. refl), λ _. refl)
status_available false = ((λ e. absurd (cc e)), λ e. absurd (cc e))

read_windows-IsReading :
    (now : Text) (w : Option SystemPowerStatus) → IsReading (read_windows now w)
unfolding read_windows windows_percent
read_windows-IsReading now none = unavailable-IsReading now PowerStatus.error (λ e. cc e)
read_windows-IsReading now (some w) = record {
  percent_fits = λ p e. ground (arith, e);
  available_iff = status_available (is_some (windows_percent w));
}

-- What `read` can return: that of a Linux or of a Windows machine.
pub data IsRead (now : Text) (r : PowerReading) : Type 0 where
  linux : (s : Supplies) → r ≡ read_linux s now → IsRead now r
  windows : (w : Option SystemPowerStatus) → r ≡ read_windows now w → IsRead now r

abbrev pub Reads : Text → Polled → Type 0
Reads now (in_time r) = IsRead now r
Reads now panicked = Unit
Reads now (late none) = Unit
Reads now (late (some r)) = IsRead now r

IsRead-IsReading : (now : Text) (r : PowerReading) → IsRead now r → IsReading r
IsRead-IsReading now r (linux s e) = subst IsReading (sym e) (read_linux-IsReading s now)
IsRead-IsReading now r (windows w e) = subst IsReading (sym e) (read_windows-IsReading now w)

-- Every reading that a turn of `poll` sends, whatever the files or the operating system say and however
-- late or badly the read ends, has a percentage of at most 100, and has one exactly if its status is
-- `available`.
pub poll_sends-IsReading :
    (now : Text) (p : Polled) → Reads now p → All IsReading (poll_sends now p)
unfolding poll_sends
poll_sends-IsReading now (in_time r) h = (IsRead-IsReading now r h, tt)
poll_sends-IsReading now panicked h = (unavailable-IsReading now PowerStatus.error (λ e. cc e), tt)
poll_sends-IsReading now (late none) h =
    (unavailable-IsReading now PowerStatus.error (λ e. cc e), tt)
poll_sends-IsReading now (late (some r)) h =
    (unavailable-IsReading now PowerStatus.error (λ e. cc e), (IsRead-IsReading now r h, tt))
