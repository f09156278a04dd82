-- ===== src/Daemon/Clock/Accepted.antt =====
-- Every snapshot that a tick of crates/matrix-daemon/src/main.rs sends passes the checks of `next_frame`
-- in crates/matrix-client/src/lib.rs.
use fw16_ledmatrix.Base.{
  ℕ, ◌+◌, ◌%◌, ◌^◌, ◌≤◌, ◌≡◌, refl, arith, Bool, true, false, ◌&&◌, Option, some, List, [], ◌∷◌,
  Text, length, All, all, Returns, Returns-bind, option_map, get_elem?, ok, is_empty, Option-cases,
  inl, inr, suc, ap, sym, replicate, ◌∙◌, length-replicate,
}
use fw16_ledmatrix.Core.Frame.{Frame, is_valid, render_clock}
use fw16_ledmatrix.Core.Brightness.{Brightness, level, effective}
use fw16_ledmatrix.Core.Config.{Config, validate}
use fw16_ledmatrix.Core.Config.Spec.{IsValidConfig, IsValidPanel}
use fw16_ledmatrix.Core.Config.Sound.{validate-IsValidConfig}
use fw16_ledmatrix.Core.Layout.{PanelLayout, clock_gauge, default_panel}
use fw16_ledmatrix.Core.Layout.Float.{Float}
use fw16_ledmatrix.Core.Layout.Render.{
  Readings, default_readings, base_intensity, render_configured,
}
use fw16_ledmatrix.Core.Layout.Render.Slots.{HasBytes}
use fw16_ledmatrix.Core.Layout.Render.Total.{render-Returns}
use fw16_ledmatrix.Core.Layout.Render.Clock.{render-eq-render_clock, render_configured_cases}
use fw16_ledmatrix.Client.Messages.{Snapshot, frame_event}
use fw16_ledmatrix.Client.Check.{next_frame, snapshot_fits, panel_fits, session_fits}
use fw16_ledmatrix.Daemon.Store.{Store, output_at, preview_active}
use fw16_ledmatrix.Daemon.Clock.{Inputs, snapshot, panel_frames, tick_readings, fill, tick}

dark-is_valid :
    (f : Frame)
    → is_valid f ≡ true
    → is_valid (record f { pixels = replicate (length f.pixels) 0 }) ≡ true
unfolding is_valid
dark-is_valid f h = dark 0
  where
    dark : (z : ℕ) → is_valid (record f { pixels = replicate (length f.pixels) z }) ≡ true
    dark z = ground (arith, h, length-replicate (length f.pixels) z)

and-true : (a b : Bool) → a ≡ true → b ≡ true → (a && b) ≡ true
and-true a b h k = ground arith

panel_fits-valid :
    (p : PanelLayout) (f : Frame) (b : Option ℕ)
    → IsValidPanel p
    → is_valid f ≡ true
    → panel_fits (record { brightness = b; name = p.name; frame = f; binding = p.binding }) ≡ true
unfolding panel_fits
panel_fits-valid p f b v h = ground (arith, h, v.name_size, fits_name p.name)
  where
    fits_name : (n : Text) → 1 ≤ length n → is_empty n ≡ false
    fits_name [] l = elim l [ ]
    fits_name (x ∷ n) l = refl

head-All :
    (P : PanelLayout → Type 0) (ps : List PanelLayout)
    → 1 ≤ length ps
    → All P ps
    → Returns P (get_elem? ps 0)
head-All P [] l a = elim l [ ]
head-All P (p ∷ ps) l a = (p, refl, a.0)

module _ {F : Type 0} ⦃fl : Float F⦄ where
  pub configured-is_valid :
      (p : PanelLayout) (r : Readings F) (global : Brightness)
      → All (HasBytes r) p.slots
      → Returns (λ f. is_valid f ≡ true) (render_configured p r global)
  configured-is_valid p r global h =
      let (f, e, v) = render-Returns p r h in
      elim (Option-cases (level (effective global p.brightness_override))) [
        | inl n ↦ (_, (render_configured_cases p r global f e).0 n, dark-is_valid f v.0)
        | inr (l, n) ↦ (f, (render_configured_cases p r global f e).1 l n, v.0)
      ]

  panel_frames-fit :
      (ps : List PanelLayout) (r : Readings F) (global : Brightness)
      → All IsValidPanel ps
      → All (λ (p : PanelLayout). All (HasBytes r) p.slots) ps
      → Returns
          (λ fs. (length fs ≡ length ps) × (all panel_fits fs ≡ true))
          (panel_frames ps r global)
  unfolding panel_frames
  panel_frames-fit [] r global v h = ([], refl, (refl, refl))
  panel_frames-fit (p ∷ ps) r global v h =
      Returns-bind (render_configured p r global) _ (configured-is_valid p r global h.0) (λ f vf.
        Returns-bind (panel_frames ps r global) _ (panel_frames-fit ps r global v.1 h.1) (λ fs k. (
          _,
          refl,
          (
            ap suc k.0,
            and-true _ _
                (panel_fits-valid p f (level (effective global p.brightness_override)) v.0 vf) k.1,
          ),
        )))

snapshot-accepted :
    (s : Snapshot)
    → s.hour ≤ 23
    → s.minute ≤ 59
    → length s.panels ≤ 2
    → length s.assistants.sessions ≤ 64
    → all session_fits s.assistants.sessions ≡ true
    → is_valid s.frame ≡ true
    → all panel_fits s.panels ≡ true
    → next_frame (frame_event s) ≡ ok s
unfolding next_frame snapshot_fits
snapshot-accepted s h m p l a v f = ground arith

module _ (F : Type 0) ⦃fl : Float F⦄ where
  render_clock-valid :
      (hour minute : ℕ)
      → hour ≤ 23
      → minute ≤ 59
      → (f : Frame) × (render_clock hour minute ≡ some (some f)) × (is_valid f ≡ true)
  unfolding default_panel base_intensity
  render_clock-valid hour minute h m =
      let r : Readings F = record default_readings { hour = hour; minute = minute } in
      let (f, e, v) =
        render-Returns (default_panel [] clock_gauge) r (omega arith, (omega arith, tt)) in
      (f, sym (render-eq-render_clock r [] h m refl refl) ∙ ap (option_map some) e, v.0)

  snapshot-Returns :
      (sequence hour minute : ℕ)
      → hour ≤ 23
      → minute ≤ 59
      → Returns
          (λ s. (s.hour ≡ hour) × (s.minute ≡ minute) × (s.sequence ≡ sequence))
          (snapshot sequence hour minute)
  unfolding snapshot
  snapshot-Returns sequence hour minute h m =
      let (f, e, v) = render_clock-valid hour minute h m in
      Returns-bind {P = λ c. c ≡ some f} (render_clock hour minute) _ (some f, e, refl)
        (λ c ec. rw ec (_, refl, (refl, refl, refl)))

  fill-Returns :
      (i : Inputs) (c : Config) (preview : Bool) (s : Snapshot)
      → IsValidConfig c
      → All (λ (p : PanelLayout). All (HasBytes (tick_readings F i c)) p.slots) c.panels
      → Returns
          (λ t.
            (is_valid t.frame ≡ true)
            × (length t.panels ≡ length c.panels)
            × (all panel_fits t.panels ≡ true)
            × (t.hour ≡ s.hour)
            × (t.minute ≡ s.minute)
            × (t.assistants ≡ i.assistants))
          (fill F i c preview s)
  unfolding fill
  fill-Returns i c preview s v b =
      Returns-bind (get_elem? c.panels 0) _
        (head-All (λ (p : PanelLayout). All (HasBytes (tick_readings F i c)) p.slots) c.panels
          v.one_or_two.0 b)
        (λ p hp.
          Returns-bind (render_configured p (tick_readings F i c) c.brightness) _
            (configured-is_valid p (tick_readings F i c) c.brightness hp)
            (λ f vf.
              Returns-bind (panel_frames c.panels (tick_readings F i c) c.brightness) _
                (panel_frames-fit c.panels (tick_readings F i c) c.brightness v.each_panel b)
                (λ fs k. (_, refl, (vf, k.0, k.1, refl, refl, refl)))))

  -- A tick of the clock returns, and its snapshot passes all checks of the client, provided that the
  -- configuration on show is valid, the wall clock shows a time, the intensities are bytes, and the feeds
  -- gave at most 64 sessions that the client takes.
  pub tick-accepted :
      (i : Inputs) (sequence : ℕ) (store : Store)
      → i.hour ≤ 23
      → i.minute ≤ 59
      → (let c = (output_at store i.output_now).0 in
          (validate c ≡ [])
          × All (λ (p : PanelLayout). All (HasBytes (tick_readings F i c)) p.slots) c.panels)
      → length i.assistants.sessions ≤ 64
      → all session_fits i.assistants.sessions ≡ true
      → Returns (λ r. next_frame (frame_event r.0) ≡ ok r.0) (tick F i sequence store)
  unfolding tick
  tick-accepted i sequence store h m c l a =
      let g = (output_at store i.output_now) in
      let valid = (validate-IsValidConfig g.0).0 c.0 in
      Returns-bind (snapshot ((sequence + 1) % 2 ^ 32) i.hour i.minute) _
        (snapshot-Returns ((sequence + 1) % 2 ^ 32) i.hour i.minute h m)
        (λ s ks.
          Returns-bind (fill F i g.0 (preview_active g.1 i.preview_now) s) _
            (fill-Returns i g.0 (preview_active g.1 i.preview_now) s valid c.1)
            (λ t kt. (
              _,
              refl,
              snapshot-accepted t (rw (kt.3, ks.0) h) (rw (kt.4, ks.1) m)
                  (rw kt.1 valid.one_or_two.1) (rw kt.5 l) (rw kt.5 a) kt.0 kt.2,
            )))
