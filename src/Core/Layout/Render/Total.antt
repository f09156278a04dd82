-- ===== src/Core/Layout/Render/Total.antt =====
-- `render` of crates/matrix-core/src/layout.rs for every panel and every reading: it returns, the
-- frame is valid, and each slot draws in its own area.
use fw16_ledmatrix.Base.{
  ℕ, suc, subst, ◌+◌, ◌-◌, ◌≤◌, ◌<◌, ◌≡◌, ◌≢◌, ◌⊎◌, length, refl, sym, ◌∙◌, arith, Bool, true,
  false, Option, none, some, List, [], ◌∷◌, get_elem?, replicate, All, All-replicate, Returns,
  Returns-bind, Returns-map, ltb, if◌then◌else◌, get_elem?-replicate, for_each, for_each-Returns,
  enumerate_from, count_from, count_from-bounds, Bool-cases, Option-cases, inl, inr, ◌==◌, nat_eq,
  ◌&&◌,
}
use fw16_ledmatrix.Base.Int.{pos}
use fw16_ledmatrix.Core.Frame.{is_valid, blank_frame}
use fw16_ledmatrix.Core.Layout.Types.{
  Template, Presentation, presentation_eq, Widget, PanelLayout, presentations,
}
use fw16_ledmatrix.Core.Layout.Float.{Float}
use fw16_ledmatrix.Core.Layout.Render.{
  Rectangle, Readings, gauge_area, gauge_row, draw_gauge, draw_clock, draw_value, draw_reading,
  draw_widget, draw_slot, fits, base_intensity, render, value, emphasized, number,
}
use fw16_ledmatrix.Core.Layout.Render.Slots.{
  slot_area, slot_area-FitsFrame, HasBytes, clock_area, number_area, gauge_slot, gauge_area_bounds,
  InNoSlot, Drawn, slot_area-disjoint, Inside-cases,
}
use fw16_ledmatrix.Core.Layout.Render.Area.{
  IsByte, Canvas, FitsFrame, Within, fill_row-Within, number-Within, hide_hour-Within,
}

module _ {F : Type 0} ⦃fl : Float F⦄ where
  module _ (old : List ℕ) (a : Rectangle) (frame : FitsFrame a) where
    gauge_row-Within :
        (reversed : Bool) (exact : F) (intensity offset : ℕ) (p : List ℕ)
        → a.top + offset ≤ a.bottom
        → a.left ≤ a.right + 1
        → Within old a p
        → Returns (Within old a) (gauge_row a reversed exact intensity offset p)
    unfolding gauge_row
    gauge_row-Within reversed exact intensity offset p h l w =
        fill_row-Within old a frame _ a.left (a.right + 1 - a.left) _ p (ground arith)
          (ground arith) (omega arith) (omega arith) (fl.to_u8-le _) w

    draw_gauge-Within :
        (reversed : Bool) (v : F) (intensity : ℕ) (p : List ℕ)
        → a.top ≤ a.bottom
        → a.left ≤ a.right + 1
        → Within old a p
        → Returns (Within old a) (draw_gauge a reversed v intensity p)
    unfolding draw_gauge
    draw_gauge-Within reversed v intensity p t l w =
        for_each-Returns {Q = λ (k : ℕ). (0 ≤ k) × (k < 0 + (a.bottom - a.top + 1))} (Within old a)
          (count_from 0 (a.bottom - a.top + 1)) _ p
          (λ offset q k wq.
            gauge_row-Within reversed _ intensity offset q (omega (arith, k.1)) l wq)
          (count_from-bounds 0 (a.bottom - a.top + 1)) w

    draw_clock-Within :
        (r : Readings F) (w : Widget) (v : ℕ) (p : List ℕ)
        → a.top ≤ 1
        → 11 ≤ a.bottom
        → a.left ≤ 1
        → 7 ≤ a.right
        → IsByte v
        → Within old a p
        → Returns (Within old a) (draw_clock r w v p)
    unfolding draw_clock
    draw_clock-Within r w v p t b l rt h wp =
        Returns-bind (number 1 (pos r.hour) v p) _
          (number-Within old a frame 1 v (pos r.hour) p t (omega arith) l rt h wp)
          (λ q wq.
            Returns-bind (number 7 (pos r.minute) v q) _
              (number-Within old a frame 7 v (pos r.minute) q (omega arith) b l rt h wq)
              (λ c wc. elim (Bool-cases (w.hide_leading_hour_zero && ltb r.hour 10)) [
                | inl hide ↦
                    rw hide (hide_hour-Within old a frame c t (omega arith) l (omega arith) wc)
                | inr keep ↦ rw keep (c, refl, wc)
              ]))

  module _ (old : List ℕ) where
    draw_value-Within :
        (t : Template) (k : ℕ) (w : Widget) (intensity : ℕ) (v : F) (p : List ℕ)
        → fits t k w ≡ true
        → (w.presentation == Presentation.clock) ≡ false
        → IsByte intensity
        → Within old (slot_area t k) p
        → Returns (Within old (slot_area t k)) (draw_value t k w intensity v p)
    unfolding draw_value
    draw_value-Within t k w intensity v p f c h wp =
        elim (Bool-cases (w.presentation == Presentation.number)) [
          | inl shown ↦
              let a = number_area t k w f shown in
              rw shown (
                number-Within old (slot_area t k) (slot_area-FitsFrame t k) 1 intensity
                  (fl.to_i32 v) p a.0 a.1 a.2 a.3 h wp)
          | inr gauge ↦
              let e = gauge_slot t k w f c gauge in
              let b = gauge_area_bounds t k in
              rw gauge (
                subst
                  (λ a.
                    Returns (Within old a) (draw_gauge (gauge_area t k) w.reversed v intensity p))
                  (sym e)
                  (draw_gauge-Within old (gauge_area t k)
                    (subst FitsFrame e (slot_area-FitsFrame t k)) w.reversed v intensity p b.0 b.1
                    (subst (λ a. Within old a p) e wp)))
        ]

    draw_reading-Within :
        (t : Template) (k : ℕ) (r : Readings F) (w : Widget) (intensity : ℕ) (p : List ℕ)
        → fits t k w ≡ true
        → (w.presentation == Presentation.clock) ≡ false
        → IsByte intensity
        → Within old (slot_area t k) p
        → Returns (Within old (slot_area t k)) (draw_reading t k r w intensity p)
    unfolding draw_reading
    draw_reading-Within t k r w intensity p f c h wp = elim (Option-cases (value r w)) [
      | inl missing ↦ rw (missing, draw_reading) (p, refl, wp)
      | inr (v, there) ↦
          rw (there, draw_reading)
            (draw_value-Within t k w _ v p f c (emphasis (emphasized r w v) intensity h) wp)
    ]
      where
        emphasis : (b : Bool) (i : ℕ) → IsByte i → IsByte (if b then 255 else i)
        emphasis true i q = omega arith
        emphasis false i q = q

    -- A widget draws in the area of its slot only, and never out of the frame.
    draw_widget-Within :
        (t : Template) (k : ℕ) (r : Readings F) (w : Widget) (p : List ℕ)
        → IsByte (base_intensity r w)
        → Within old (slot_area t k) p
        → Returns (Within old (slot_area t k)) (draw_widget t k r w p)
    unfolding draw_widget
    draw_widget-Within t k r w p h wp = elim (Bool-cases (fits t k w)) [
      | inl f ↦ elim (Bool-cases (w.presentation == Presentation.clock)) [
        | inl c ↦
            let a = clock_area t k w f c in
            rw (f, c)
              (draw_clock-Within old (slot_area t k) (slot_area-FitsFrame t k) r w _ p a.0 a.1 a.2
                a.3 h wp)
        | inr c ↦ rw (f, c) (draw_reading-Within t k r w (base_intensity r w) p f c h wp)
      ]
      | inr misfit ↦ rw misfit (p, refl, wp)
    ]

  -- One slot returns from any canvas, and changes no pixel outside its area.
  pub draw_slot-Within :
      (t : Template) (r : Readings F) (k : ℕ) (slot : Option Widget) (p : List ℕ)
      → HasBytes r slot
      → Canvas p
      → Returns (Within p (slot_area t k)) (draw_slot t r (k, slot) p)
  unfolding draw_slot
  draw_slot-Within t r k none p h c = (p, refl, record { canvas = c; outside = λ i _. refl })
  draw_slot-Within t r k (some w) p h c =
      draw_widget-Within p t k r w p h (record { canvas = c; outside = λ i _. refl })

  -- Two slots of a template, with any widgets and readings whose intensities are bytes, draw apart:
  -- drawing each returns from any canvas of 306 bytes, and no pixel is changed by both.
  pub draw_slot_apart :
      (t : Template) (r s : Readings F) (j k : ℕ) (u v : Option Widget) (p q : List ℕ)
      → j < length (presentations t)
      → k < length (presentations t)
      → j ≢ k
      → HasBytes r u
      → HasBytes s v
      → Canvas p
      → Canvas q
      → Returns
          (λ p'.
            Returns
              (λ q'. (i : ℕ) → (get_elem? p' i ≡ get_elem? p i) ⊎ (get_elem? q' i ≡ get_elem? q i))
              (draw_slot t s (k, v) q))
          (draw_slot t r (j, u) p)
  draw_slot_apart t r s j k u v p q jl kl other hu hv cp cq =
      let (p', e, wp) = draw_slot-Within t r j u p hu cp in
      let (q', f, wq) = draw_slot-Within t s k v q hv cq in
      (
        p',
        e,
        (
          q',
          f,
          λ i. elim (Inside-cases (slot_area t j) i) [
            | inl inside ↦ inr (wq.outside i (slot_area-disjoint t j k i jl kl other inside))
            | inr outside ↦ inl (wp.outside i outside)
          ],
        ),
      )

  enumerate-HasBytes :
      (r : Readings F) (k : ℕ) (slots : List (Option Widget))
      → All (HasBytes r) slots
      → All (λ (e : ℕ × Option Widget). HasBytes r e.1) (enumerate_from k slots)
  enumerate-HasBytes r k [] h = tt
  enumerate-HasBytes r k (s ∷ slots) h = (h.0, enumerate-HasBytes r (suc k) slots h.1)

  -- Rendering returns for every panel and every reading whose intensities are bytes: no write is out
  -- of the frame. The frame is valid, every pixel is a byte, and what belongs to no slot is dark.
  pub render-Returns :
      (panel : PanelLayout) (r : Readings F)
      → All (HasBytes r) panel.slots
      → Returns
          (λ f.
            (is_valid f ≡ true)
            × All IsByte f.pixels
            × ((i : ℕ) → i < 306 → InNoSlot panel.template i → get_elem? f.pixels i ≡ some 0))
          (render panel r)
  unfolding render is_valid
  render-Returns panel r h =
      Returns-bind
        (for_each (enumerate_from 0 panel.slots) (draw_slot panel.template r) (replicate 306 0)) _
        (for_each-Returns {Q = λ (e : ℕ × Option Widget). HasBytes r e.1} (Drawn panel.template)
          (enumerate_from 0 panel.slots) (draw_slot panel.template r) (replicate 306 0)
          (λ (k, slot) p hb d.
            Returns-map (draw_slot panel.template r (k, slot) p)
              (draw_slot-Within panel.template r k slot p hb d.canvas)
              (λ q w. record {
                canvas = w.canvas;
                dark = λ i small free. w.outside i (free k) ∙ d.dark i small free;
              }))
          (enumerate-HasBytes r 0 panel.slots h)
          (record {
            canvas = record { size = refl; bytes = All-replicate IsByte 306 0 (omega arith) };
            dark = λ i small _. get_elem?-replicate {A = ℕ} 306 i 0 small;
          }))
        (λ p d.
          (record blank_frame { pixels = p }, refl, (rw d.canvas.size, d.canvas.bytes, d.dark)))
