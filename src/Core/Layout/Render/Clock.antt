-- ===== src/Core/Layout/Render/Clock.antt =====
-- The configured renderer of crates/matrix-core/src/layout.rs against the fixed clock of lib.rs, and
-- what brightness does to a frame.
use fw16_ledmatrix.Base.{
  ℕ, ◌+◌, ◌/◌, ◌%◌, ◌≤◌, ◌≡◌, refl, ◌∙◌, arith, false, Option, none, some, List, [], ◌∷◌, Text,
  length, replicate, ltb, le→leb, enumerate_from, for_each, for_each_cong, bind_cong, bind_some,
  ◌>>=◌, option_map, get_elem?,
}
use fw16_ledmatrix.Base.Int.{pos}
use fw16_ledmatrix.Core.Frame.{
  Frame, blank_frame, data_level, render_clock, draw_number, draw_digit, draw_glyph, draw_row,
  draw_cell, font,
}
use fw16_ledmatrix.Core.Brightness.{Brightness, effective, level}
use fw16_ledmatrix.Core.Layout.Types.{
  clock_gauge, PanelLayout, default_panel, default_slots, default_slot, Presentation,
}
use fw16_ledmatrix.Core.Layout.Float.{Float}
use fw16_ledmatrix.Core.Layout.Render.{
  Readings, number, number_row, number_cell, number_glyph, number_digit, value_glyph, render,
  render_configured, draw_slot,
}

number_row-eq : (y x v : ℕ) (e : ℕ × Text) (p : List ℕ) → number_row y x v e p ≡ draw_row y x v e p
unfolding number_row draw_row number_cell draw_cell
number_row-eq y x v (dy, row) p =
    for_each_cong (enumerate_from 0 row) (number_cell (y + dy) x v) (draw_cell (y + dy) x v) p
      (λ (dx, cell) q. refl)

-- The two copies of the loops over a glyph write the same.
number_glyph-eq :
    (y x v : ℕ) (glyph : List Text) (p : List ℕ)
    → number_glyph y x v glyph p ≡ draw_glyph y x v glyph p
unfolding number_glyph draw_glyph
number_glyph-eq y x v glyph p =
    for_each_cong (enumerate_from 0 glyph) (number_row y x v) (draw_row y x v) p
      (λ e q. number_row-eq y x v e q)

bind_same :
    (o : Option (List Text)) (f g : List Text → Option (List ℕ))
    → ((a : List Text) → f a ≡ g a)
    → (o >>= f) ≡ (o >>= g)
bind_same none f g h = refl
bind_same (some a) f g h = h a

number_digit-eq :
    (y v n : ℕ) (e : ℕ × ℕ) (p : List ℕ)
    → n ≤ 99
    → number_digit y (pos n) v e p ≡ draw_digit y v e p
unfolding number_digit draw_digit
number_digit-eq y v n (x, digit) p h =
    rw (le→leb n 99 h, value_glyph)
      (bind_same (get_elem? font digit) (λ g. number_glyph y x v g p) (λ g. draw_glyph y x v g p)
        (λ g. number_glyph-eq y x v g p))

-- A value of two digits is drawn as the clock draws it.
number-eq-draw_number :
    (y v n : ℕ) (p : List ℕ) → n ≤ 99 → number y (pos n) v p ≡ draw_number v (y, n) p
unfolding number draw_number
number-eq-draw_number y v n p h =
    for_each_cong ((1, n / 10) ∷ (5, n % 10) ∷ []) (number_digit y (pos n) v) (draw_digit y v) p
      (λ e q. number_digit-eq y v n e q h)

for_each_two :
    {A S : Type 0} (a b : A) (f : A → S → Option S) (s : S)
    → ((t : S) → f b t ≡ some t)
    → for_each (a ∷ b ∷ []) f s ≡ f a s
unfolding for_each
for_each_two a b f s h =
    bind_cong (f a s) (for_each (b ∷ []) f) (λ t. some t) (λ t. rw (h t) refl) ∙ bind_some (f a s)

in_range : (limit n : ℕ) → n ≤ limit → ltb limit n ≡ false
in_range limit n h = ground arith

wrap :
    (o : Option (List ℕ))
    → option_map some (o >>= λ p. some (record blank_frame { pixels = p }))
      ≡ (o >>= λ p. some (some (record blank_frame { pixels = p })))
wrap none = refl
wrap (some p) = refl

module _ {F : Type 0} ⦃fl : Float F⦄ where
  clock_slot :
      (r : Readings F) (p : List ℕ)
      → r.hour ≤ 23
      → r.minute ≤ 59
      → r.default_clock_intensity ≡ data_level
      → draw_slot clock_gauge r (0, default_slot clock_gauge (0, Presentation.clock)) p
        ≡ for_each ((1, r.hour) ∷ (7, r.minute) ∷ []) (draw_number data_level) p
  unfolding draw_slot default_slot for_each
  clock_slot r p h m d =
      rw (d, number-eq-draw_number 1 data_level r.hour p (omega arith))
        (bind_cong (draw_number data_level (1, r.hour) p) _ _
          (λ q. rw (number-eq-draw_number 7 data_level r.minute q (omega arith)) refl))

  gauge_slot_empty :
      (r : Readings F) (p : List ℕ)
      → r.battery ≡ none
      → draw_slot clock_gauge r (1, default_slot clock_gauge (1, Presentation.gauge)) p ≡ some p
  unfolding draw_slot default_slot
  gauge_slot_empty r p b = rw b refl

  left_panel :
      (r : Readings F) (p : List ℕ)
      → r.hour ≤ 23
      → r.minute ≤ 59
      → r.default_clock_intensity ≡ data_level
      → r.battery ≡ none
      → for_each (enumerate_from 0 (default_slots clock_gauge)) (draw_slot clock_gauge r) p
        ≡ for_each ((1, r.hour) ∷ (7, r.minute) ∷ []) (draw_number data_level) p
  unfolding default_slots
  left_panel r p h m d b =
      for_each_two _ _ (draw_slot clock_gauge r) p (λ q. gauge_slot_empty r q b)
      ∙ clock_slot r p h m d

  -- Without a battery reading, and at the clock intensity 180 of `render_clock`, the default left panel
  -- shows exactly the frame of `render_clock`, at every wall-clock time.
  pub render-eq-render_clock :
      (r : Readings F) (name : Text)
      → r.hour ≤ 23
      → r.minute ≤ 59
      → r.default_clock_intensity ≡ data_level
      → r.battery ≡ none
      → option_map some (render (default_panel name clock_gauge) r) ≡ render_clock r.hour r.minute
  unfolding render render_clock default_panel
  render-eq-render_clock r name h m d b =
      rw (left_panel r (replicate 306 0) h m d b, in_range 23 r.hour h, in_range 59 r.minute m)
        (wrap _)

  -- A panel that is off, or whose limits are invalid, is dark; any other shows what `render` draws.
  pub render_configured_cases :
      (panel : PanelLayout) (r : Readings F) (global : Brightness) (f : Frame)
      → render panel r ≡ some f
      → (level (effective global panel.brightness_override) ≡ none
          → render_configured panel r global
            ≡ some (record f { pixels = replicate (length f.pixels) 0 }))
        × ((l : ℕ)
            → level (effective global panel.brightness_override) ≡ some l
            → render_configured panel r global ≡ some f)
  unfolding render_configured
  render_configured_cases panel r global f e = (λ off. rw (e, off) refl, λ l on. rw (e, on) refl)
