-- ===== src/Daemon/Clock.antt =====
-- crates/matrix-daemon/src/main.rs and lib.rs: one tick of the clock, which builds the snapshot that the
-- clients get. `none` is a panic.
pub mod Accepted
use fw16_ledmatrix.Base.{
  ℕ, ◌+◌, ◌%◌, ◌^◌, Bool, false, Option, none, some, List, [], ◌∷◌, option_map, get_elem?, ◌>>=◌,
}
use fw16_ledmatrix.Core.Frame.{Frame, render_clock}
use fw16_ledmatrix.Core.Assistant.{AssistantState}
use fw16_ledmatrix.Core.Brightness.{Brightness, level, effective}
use fw16_ledmatrix.Core.Config.{Config}
use fw16_ledmatrix.Core.Layout.{PanelLayout}
use fw16_ledmatrix.Core.Layout.Float.{Float}
use fw16_ledmatrix.Core.Layout.Render.{Readings, default_readings, render_configured}
use fw16_ledmatrix.Client.Messages.{Snapshot, PanelFrame, PowerReading}
use fw16_ledmatrix.Daemon.Store.{Store, output_at, preview_active}

abbrev no_assistants : AssistantState
no_assistants = record { sessions = []; health = [] }

-- `render_clock(..).expect("valid clock time")`.
unfoldable pub snapshot : ℕ → ℕ → ℕ → Option Snapshot
snapshot sequence hour minute = do
  clock ← render_clock hour minute
  frame ← clock
  some (record {
    assistants = no_assistants;
    preview = false;
    panels = [];
    power = none;
    sequence = sequence;
    hour = hour;
    minute = minute;
    frame = frame;
  })

-- What a tick reads: the wall clock, the latest power reading and feeds, and the instants at which
-- the store is asked.
pub record Inputs : Type 0 where
  pub hour : ℕ
  pub minute : ℕ
  pub power : PowerReading
  pub assistants : AssistantState
  pub output_now : ℕ
  pub preview_now : ℕ

module _ {F : Type 0} ⦃fl : Float F⦄ where
  unfoldable pub panel_frames :
      List PanelLayout → Readings F → Brightness → Option (List PanelFrame)
  panel_frames [] r global = some []
  panel_frames (p ∷ ps) r global = do
    frame ← render_configured p r global
    rest ← panel_frames ps r global
    some (
        record {
          brightness = level (effective global p.brightness_override);
          name = p.name;
          frame = frame;
          binding = p.binding;
        }
        ∷ rest)

module _ (F : Type 0) ⦃fl : Float F⦄ where
  unfoldable pub tick_readings : Inputs → Config → Readings F
  tick_readings i c = record default_readings {
    sessions = i.assistants.sessions;
    hour = i.hour;
    minute = i.minute;
    default_clock_intensity = c.clock_intensity;
    battery = option_map fl.of_nat i.power.percent;
  }

  unfoldable pub fill : Inputs → Config → Bool → Snapshot → Option Snapshot
  fill i c preview s = do
    first ← get_elem? c.panels 0
    frame ← render_configured first (tick_readings i c) c.brightness
    panels ← panel_frames c.panels (tick_readings i c) c.brightness
    some (record s {
      power = some i.power;
      assistants = i.assistants;
      preview = preview;
      frame = frame;
      panels = panels;
    })

  -- The new snapshot, and the store, which has dropped an expired preview.
  unfoldable pub tick : Inputs → ℕ → Store → Option (Snapshot × Store)
  tick i sequence store = do
    s ← snapshot ((sequence + 1) % 2 ^ 32) i.hour i.minute
    t ←
        fill i (output_at store i.output_now).0
          (preview_active (output_at store i.output_now).1 i.preview_now) s
    some (t, (output_at store i.output_now).1)
