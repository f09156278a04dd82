-- ===== src/Examples/Devices.antt =====
-- The theorems on the power readings and on the shutdown of the panels at concrete inputs.
use fw16_ledmatrix.Base.{
  ◌*◌, ◌≡◌, ◌≢◌, refl, arith, true, false, Option, none, some, List, [], ◌∷◌, Text, text_beq, All,
  any, if◌then◌else◌,
}
use fw16_ledmatrix.Base.Trim.{trim}
use fw16_ledmatrix.Client.Messages.{PowerStatus}
use fw16_ledmatrix.Daemon.Power.{
  Supplies, late, poll_sends, read_linux, look_at_all, look_through, look_at, reading_of,
  battery_reading, percent_of, parse_u8, kind_of, is_mains, entry_before,
}
use fw16_ledmatrix.Daemon.Feeds.{sort}
use fw16_ledmatrix.Daemon.Power.Bounds.{IsReading, linux, poll_sends-IsReading}
use fw16_ledmatrix.Daemon.Power.Mains.{says, state, on_text, off_text, read_linux-ac}
use fw16_ledmatrix.Daemon.Devices.Panel.{new_panel}
use fw16_ledmatrix.Daemon.Devices.Route.{Handle}
use fw16_ledmatrix.Daemon.Devices.Registry.{Registry}
use fw16_ledmatrix.Daemon.Devices.Shutdown.{Others}
use fw16_ledmatrix.Examples.Daemon.{wire}

-- A battery at 74 percent, and a charger that is plugged in.
abbrev file_of : Text → Text → Option Text
file_of name file =
    if text_beq name (b'A' ∷ [])
    then (if text_beq file (b't' ∷ b'y' ∷ b'p' ∷ b'e' ∷ [])
        then some (b'M' ∷ b'a' ∷ b'i' ∷ b'n' ∷ b's' ∷ b'\n' ∷ [])
        else some (b'1' ∷ b'\n' ∷ []))
    else if text_beq file (b't' ∷ b'y' ∷ b'p' ∷ b'e' ∷ [])
    then some (b'B' ∷ b'a' ∷ b't' ∷ b't' ∷ b'e' ∷ b'r' ∷ b'y' ∷ b'\n' ∷ [])
    else if text_beq file (b'c' ∷ b'a' ∷ b'p' ∷ b'a' ∷ b'c' ∷ b'i' ∷ b't' ∷ b'y' ∷ [])
    then some (b'7' ∷ b'4' ∷ b'\n' ∷ [])
    else none

abbrev supplies : Supplies
supplies = record { names = some ((b'B' ∷ []) ∷ (b'A' ∷ []) ∷ []); read = file_of }

poll_sends-IsReading_example : All IsReading (poll_sends [] (late (some (read_linux supplies []))))
poll_sends-IsReading_example =
    poll_sends-IsReading [] (late (some (read_linux supplies []))) (linux supplies refl)

supplies_percent : (read_linux supplies []).percent ≡ some 74
unfolding read_linux reading_of look_at_all look_through sort entry_before look_at kind_of trim
    is_mains battery_reading percent_of parse_u8
supplies_percent = refl

supplies_available : (read_linux supplies []).status ≢ PowerStatus.error
unfolding read_linux reading_of look_at_all look_through sort entry_before look_at kind_of trim
    is_mains battery_reading percent_of parse_u8
supplies_available = λ e. absurd (cc e)

read_linux-ac_example :
    (read_linux supplies []).ac
    ≡ state
        (any (says supplies on_text) ((b'B' ∷ []) ∷ (b'A' ∷ []) ∷ []))
        (any (says supplies off_text) ((b'B' ∷ []) ∷ (b'A' ∷ []) ∷ []))
read_linux-ac_example =
    read_linux-ac supplies [] ((b'B' ∷ []) ∷ (b'A' ∷ []) ∷ []) refl supplies_available

abbrev panels : List (Handle Unit)
panels =
    record { name = b'p' ∷ []; panel = record (new_panel 0) { port = some tt }; locked = false }
    ∷ []

-- One identification is running, and a job, which does not end.
abbrev busy : Registry
busy = record { flags = true ∷ []; active = (b'p' ∷ [], 0) ∷ [] }

abbrev others : Others (wire 9)
others = record {
  jobs = λ n. (b'p' ∷ []) ∷ [];
  meanwhile = λ n s. s;
  clock = λ n. n * 20;
  pauses = λ n. omega arith;
}
