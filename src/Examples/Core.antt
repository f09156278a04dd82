-- ===== src/Examples/Core.antt =====
-- The theorems on crates/matrix-core at concrete inputs.
use fw16_ledmatrix.Base.{
  ℕ, ◌≡◌, ◌↔◌, ◌<◌, refl, arith, true, false, some, none, List, [], ◌∷◌, Returns, All, get_elem?,
  option_map, map, ok, ◌⊎◌, All-replicate,
}
use fw16_ledmatrix.Core.Frame.{blank_frame, is_valid, render_clock}
use fw16_ledmatrix.Core.Assistant.{
  Session, Feed, claude, selected, max_session, max_from, later, compare_sessions, eligible,
  normalize,
}
use fw16_ledmatrix.Core.Assistant.Normalize.{IsFeed, mains, listed, normalize-ok_iff}
use fw16_ledmatrix.Core.Assistant.Select.{Chosen, beating, selected-Chosen}
use fw16_ledmatrix.Core.Config.{default_config, validate}
use fw16_ledmatrix.Core.Config.Spec.{IsValidConfig}
use fw16_ledmatrix.Core.Config.Sound.{validate-IsValidConfig}
use fw16_ledmatrix.Core.Layout.{
  PanelLayout, Presentation, default_panel, default_slot, clock_gauge, presentations,
}
use fw16_ledmatrix.Core.Layout.Render.{
  Readings, default_readings, base_intensity, render, draw_slot,
}
use fw16_ledmatrix.Core.Layout.Render.Area.{IsByte, Canvas}
use fw16_ledmatrix.Core.Layout.Render.Slots.{InNoSlot}
use fw16_ledmatrix.Core.Layout.Render.Total.{render-Returns, draw_slot_apart}
use fw16_ledmatrix.Core.Layout.Render.Clock.{render-eq-render_clock}
use fw16_ledmatrix.Core.Protocol.{greyscale, bw}
use fw16_ledmatrix.Core.Protocol.Greyscale.{SendsFrame, greyscale-SendsFrame}
use fw16_ledmatrix.Core.Protocol.BlackWhite.{SendsBits, bw-SendsBits}
use fw16_ledmatrix.Examples.Floats.{whole_numbers}

validate-IsValidConfig_example : (validate default_config ≡ []) ↔ IsValidConfig default_config
validate-IsValidConfig_example = validate-IsValidConfig default_config

abbrev afternoon : Readings ℕ
afternoon = record default_readings { hour = 17; minute = 45; battery = some 62 }

abbrev left_panel : PanelLayout
left_panel = default_panel [] clock_gauge

render-Returns_example :
    Returns
      (λ f.
        (is_valid f ≡ true)
        × All IsByte f.pixels
        × ((i : ℕ) → i < 306 → InNoSlot clock_gauge i → get_elem? f.pixels i ≡ some 0))
      (render left_panel afternoon)
unfolding default_panel base_intensity
render-Returns_example = render-Returns left_panel afternoon (omega arith, (omega arith, tt))

abbrev morning : Readings ℕ
morning = record default_readings { hour = 7; minute = 5 }

render-eq-render_clock_example : option_map some (render left_panel morning) ≡ render_clock 7 5
render-eq-render_clock_example =
    render-eq-render_clock morning [] (omega arith) (omega arith) refl refl

abbrev dark_pixels : List ℕ
dark_pixels = blank_frame.pixels

dark-Canvas : Canvas dark_pixels
unfolding blank_frame
dark-Canvas = record { size = refl; bytes = All-replicate IsByte 306 0 (omega arith) }

draw_slot_apart_example :
    Returns
      (λ p'.
        Returns
          (λ q'.
            (i : ℕ)
            → (get_elem? p' i ≡ get_elem? dark_pixels i)
              ⊎ (get_elem? q' i ≡ get_elem? dark_pixels i))
          (draw_slot clock_gauge afternoon
            (1, default_slot clock_gauge (1, Presentation.gauge))
            dark_pixels))
      (draw_slot clock_gauge afternoon
        (0, default_slot clock_gauge (0, Presentation.clock))
        dark_pixels)
unfolding presentations default_slot base_intensity
draw_slot_apart_example =
    draw_slot_apart clock_gauge afternoon afternoon 0 1
      (default_slot clock_gauge (0, Presentation.clock))
      (default_slot clock_gauge (1, Presentation.gauge)) dark_pixels dark_pixels (omega arith)
      (omega arith) (λ e. omega (arith, e)) (omega arith) (omega arith) dark-Canvas dark-Canvas

greyscale-SendsFrame_example : Returns (SendsFrame blank_frame) (greyscale blank_frame)
unfolding is_valid blank_frame
greyscale-SendsFrame_example = greyscale-SendsFrame blank_frame refl

bw-SendsBits_example : Returns (SendsBits blank_frame) (bw blank_frame)
unfolding is_valid blank_frame
bw-SendsBits_example = bw-SendsBits blank_frame refl

abbrev older : Session
older = record {
  provider = claude;
  instance_id = b'a' ∷ [];
  session_id = b'a' ∷ [];
  context_percent = some 40;
  busy = true;
  last_activity_ms = 1000;
  heartbeat_ms = 9000;
}

abbrev newer : Session
newer = record older {
  session_id = b'b' ∷ [];
  busy = false;
  last_activity_ms = 2000;
  heartbeat_ms = 3000;
}

abbrev both : List Session
both = newer ∷ older ∷ []

selected-Chosen_example :
    Chosen both claude none (selected both claude none)
    × (selected (map (beating (λ s. 7)) both) claude none
        ≡ option_map (beating (λ s. 7)) (selected both claude none))
selected-Chosen_example = selected-Chosen both claude none (λ s. 7)

both-selected : selected both claude none ≡ some newer
unfolding selected max_session max_from later compare_sessions eligible
both-selected = refl

abbrev feed : Feed
feed = record {
  schema_version = 1;
  instance_id = b'a' ∷ [];
  provider = claude;
  heartbeat_ms = 9000;
  sessions =
      record {
        session_id = b'a' ∷ [];
        parent_id = none;
        context_percent = some 40;
        busy = true;
        last_activity_ms = 1000;
      }
      ∷ [];
}

normalize-ok_iff_example :
    (normalize feed claude 10000 ≡ ok (older ∷ []))
    ↔ (IsFeed feed claude 10000 × (older ∷ [] ≡ map (listed feed claude) (mains feed.sessions)))
normalize-ok_iff_example = normalize-ok_iff feed claude 10000 (older ∷ [])
