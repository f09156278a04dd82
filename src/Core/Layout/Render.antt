-- ===== src/Core/Layout/Render.antt =====
-- crates/matrix-core/src/layout.rs: `Readings` and `render`. `none` is a panic.
pub mod Area
pub mod Slots
pub mod Total
pub mod Clock
use fw16_ledmatrix.Base.{
  ℕ, ◌+◌, ◌-◌, ◌*◌, ◌/◌, ◌%◌, suc, Bool, not, ◌&&◌, ◌||◌, Option, none, some, List, [], ◌∷◌, Text,
  utf8, ltb, leb, ◌==◌, nat_eq, if◌then◌else◌, get_elem?, replicate, length, unwrap_or, or_else,
  option_map, option_filter, is_some_and, is_none, ◌>>=◌, for_each, enumerate_from, count_from,
}
use fw16_ledmatrix.Base.Int.{ℤ, pos, negsuc}
use fw16_ledmatrix.Core.Frame.{Frame, width_px, data_level, blank_frame, font, write}
use fw16_ledmatrix.Core.Assistant.{Session, selected}
use fw16_ledmatrix.Core.Brightness.{Brightness, effective, level}
use fw16_ledmatrix.Core.Layout.Types.{
  Template, clock_gauge, number_two_gauges, full_gauge, Presentation, presentation_eq, Source,
  source_eq, Widget, PanelLayout, presentations,
}
use fw16_ledmatrix.Core.Layout.Float.{Float}

unfoldable pub cross : List Text
unfolding utf8
cross = utf8 "#.#" ∷ utf8 "#.#" ∷ utf8 ".#." ∷ utf8 "#.#" ∷ utf8 "#.#" ∷ []

-- The glyph of one digit of a value: the cross where the value has not two digits.
unfoldable pub value_glyph : ℤ → ℕ → Option (List Text)
unfolding font cross
value_glyph (pos n) digit = if leb n 99 then get_elem? font digit else some cross
value_glyph (negsuc n) digit = some cross

-- The two inner loops of `number`.
unfoldable pub number_cell : ℕ → ℕ → ℕ → ℕ × ℕ → List ℕ → Option (List ℕ)
number_cell y x v (dx, cell) p = if cell == b'#' then write (y * width_px + x + dx) v p else some p

unfoldable pub number_row : ℕ → ℕ → ℕ → ℕ × Text → List ℕ → Option (List ℕ)
unfolding number_cell for_each
number_row y x v (dy, row) p = for_each (enumerate_from 0 row) (number_cell (y + dy) x v) p

unfoldable pub number_glyph : ℕ → ℕ → ℕ → List Text → List ℕ → Option (List ℕ)
unfolding number_row for_each
number_glyph y x v glyph p = for_each (enumerate_from 0 glyph) (number_row y x v) p

unfoldable pub number_digit : ℕ → ℤ → ℕ → ℕ × ℕ → List ℕ → Option (List ℕ)
unfolding value_glyph number_glyph
number_digit y value v (x, digit) p = do glyph ← value_glyph value digit; number_glyph y x v glyph p

-- Of a negative value the digits are not read.
abbrev pub magnitude : ℤ → ℕ
magnitude (pos n) = n
magnitude (negsuc n) = suc n

unfoldable pub number : ℕ → ℤ → ℕ → List ℕ → Option (List ℕ)
unfolding number_digit for_each
number y value v p =
    for_each ((1, magnitude value / 10) ∷ (5, magnitude value % 10) ∷ []) (number_digit y value v) p

-- The columns and rows of a gauge: y0, y1, x0, x1.
pub record Rectangle : Type 0 where
  pub top : ℕ
  pub bottom : ℕ
  pub left : ℕ
  pub right : ℕ

unfoldable pub gauge_area : Template → ℕ → Rectangle
gauge_area clock_gauge index = record { top = 13; bottom = 33; left = 3; right = 5 }
gauge_area number_two_gauges index =
    if index == 1
    then record { top = 7; bottom = 33; left = 1; right = 2 }
    else record { top = 7; bottom = 33; left = 6; right = 7 }
gauge_area full_gauge index = record { top = 0; bottom = 33; left = 3; right = 5 }

unfoldable pub fill_row : ℕ → ℕ → ℕ → ℕ → List ℕ → Option (List ℕ)
unfolding write for_each
fill_row y x0 count v p = for_each (count_from x0 count) (λ x q. write (y * width_px + x) v q) p

unfoldable pub hide_hour : List ℕ → Option (List ℕ)
unfolding fill_row for_each
hide_hour p = for_each (count_from 1 5) (λ y q. fill_row y 1 3 0 q) p

pub record Readings (F : Type 0) : Type 0 where
  pub sessions : List Session
  pub default_clock_intensity : ℕ
  pub hour : ℕ
  pub minute : ℕ
  pub battery : Option F
  pub context : Option F
  pub activity : Option F
  pub five_hour : Option F
  pub weekly : Option F

abbrev pub default_readings : {F : Type 0} → Readings F
default_readings = record {
  sessions = [];
  default_clock_intensity = data_level;
  hour = 0;
  minute = 0;
  battery = none;
  context = none;
  activity = none;
  five_hour = none;
  weekly = none;
}

unfoldable pub session : {F : Type 0} → Readings F → Widget → Option Session
session r w = selected r.sessions w.provider w.session_id

unfoldable pub base_intensity : {F : Type 0} → Readings F → Widget → ℕ
base_intensity r w =
    unwrap_or w.intensity
      (if w.source == Source.clock then r.default_clock_intensity else data_level)

unfoldable pub fits : Template → ℕ → Widget → Bool
unfolding presentations
fits template index w =
    is_some_and (get_elem? (presentations template) index) (λ p. p == w.presentation)

module _ {F : Type 0} ⦃fl : Float F⦄ where
  abbrev pub sample : ℕ → ℕ → Readings F
  sample hour minute = record default_readings {
    hour = hour;
    minute = minute;
    battery = some (fl.of_nat 74);
    context = some (fl.of_nat 41);
    activity = some (fl.of_nat 100);
    five_hour = some (fl.of_nat 62);
    weekly = some (fl.of_nat 18);
  }

  unfoldable pub raw_value : Readings F → Widget → Source → Option F
  unfolding session
  raw_value r w Source.clock = none
  raw_value r w Source.battery = r.battery
  raw_value r w Source.context =
      or_else r.context (do s ← session r w; option_map fl.of_nat s.context_percent)
  raw_value r w Source.activity =
      or_else r.activity
        (option_map (λ (s : Session). if s.busy then fl.of_nat 100 else fl.of_nat 0) (session r w))
  raw_value r w Source.five_hour = r.five_hour
  raw_value r w Source.weekly = r.weekly

  unfoldable pub value : Readings F → Widget → Option F
  unfolding raw_value
  value r w = option_filter fl.is_finite (raw_value r w w.source)

  -- A busy session or a passed threshold shows at full intensity.
  unfoldable pub emphasized : Readings F → Widget → F → Bool
  unfolding session
  emphasized r w v =
      (w.source == Source.context && is_some_and (session r w) (λ s. s.busy))
      || is_some_and w.warning_threshold (λ threshold.
        if w.source == Source.battery
        then fl.le v (fl.of_nat threshold)
        else fl.le (fl.of_nat threshold) v)

  -- One row of a gauge, `offset` rows from its start.
  unfoldable pub gauge_row : Rectangle → Bool → F → ℕ → ℕ → List ℕ → Option (List ℕ)
  unfolding fill_row
  gauge_row a reversed exact intensity offset p =
      fill_row (if reversed then a.top + offset else a.bottom - offset) a.left
        (a.right + 1 - a.left)
        (fl.to_u8 (
          fl.mul (fl.of_nat intensity)
            (fl.clamp (fl.sub exact (fl.of_nat offset)) (fl.of_nat 0) (fl.of_nat 1))))
        p

  unfoldable pub draw_gauge : Rectangle → Bool → F → ℕ → List ℕ → Option (List ℕ)
  unfolding gauge_row for_each
  draw_gauge a reversed v intensity p =
      let rows : ℕ = a.bottom - a.top + 1 in
      let exact =
        fl.mul (fl.clamp (fl.div v (fl.of_nat 100)) (fl.of_nat 0) (fl.of_nat 1)) (fl.of_nat rows) in
      for_each (count_from 0 rows) (gauge_row a reversed exact intensity) p

  unfoldable pub draw_clock : Readings F → Widget → ℕ → List ℕ → Option (List ℕ)
  draw_clock r w intensity p = do
    p ← number 1 (pos r.hour) intensity p
    p ← number 7 (pos r.minute) intensity p
    if w.hide_leading_hour_zero && ltb r.hour 10 then hide_hour p else some p

  unfoldable pub draw_value : Template → ℕ → Widget → ℕ → F → List ℕ → Option (List ℕ)
  draw_value template index w intensity v p =
      if w.presentation == Presentation.number
      then number 1 (fl.to_i32 v) intensity p
      else draw_gauge (gauge_area template index) w.reversed v intensity p

  -- A reading that is missing draws nothing.
  unfoldable pub draw_reading : Template → ℕ → Readings F → Widget → ℕ → List ℕ → Option (List ℕ)
  unfolding value emphasized draw_value
  draw_reading template index r w intensity p = elim (value r w) [
    | none ↦ some p
    | some v ↦ draw_value template index w (if emphasized r w v then 255 else intensity) v p
  ]

  unfoldable pub draw_widget : Template → ℕ → Readings F → Widget → List ℕ → Option (List ℕ)
  unfolding fits base_intensity draw_clock draw_reading
  draw_widget template index r w p =
      if not (fits template index w)
      then some p
      else if w.presentation == Presentation.clock
      then draw_clock r w (base_intensity r w) p
      else draw_reading template index r w (base_intensity r w) p

  -- One round of the loop of `render`.
  unfoldable pub draw_slot : Template → Readings F → ℕ × Option Widget → List ℕ → Option (List ℕ)
  unfolding draw_widget
  draw_slot template r (index, none) p = some p
  draw_slot template r (index, some w) p = draw_widget template index r w p

  unfoldable pub render : PanelLayout → Readings F → Option Frame
  unfolding for_each blank_frame
  render panel r = do
    p ← for_each (enumerate_from 0 panel.slots) (draw_slot panel.template r) blank_frame.pixels
    some (record blank_frame { pixels = p })

  unfoldable pub render_configured : PanelLayout → Readings F → Brightness → Option Frame
  unfolding effective level
  render_configured panel r global = do
    frame ← render panel r
    if is_none (level (effective global panel.brightness_override))
        then some (record frame { pixels = replicate (length frame.pixels) 0 })
        else some frame
