-- ===== src/Daemon/Devices/Route.antt =====
-- crates/matrix-daemon/src/devices.rs: `resolve`, `normal_frame` and `route`, which panel stands on
-- which port and what is shown there. A panel whose lock a job holds is marked `locked`.
use fw16_ledmatrix.Base.{
  ℕ, ◌≡◌, ◌⊎◌, inl, inr, refl, sym, subst, ap, arith, Bool, true, false, ◌&&◌, ◌||◌, Option, none,
  some, List, [], ◌∷◌, Text, text_eq, option_text_eq, option_text_beq_iff, nat_eq, ◌==◌, any, find,
  keep, option_map, ◌>>=◌, In, In-keep, Option-cases,
}
use fw16_ledmatrix.Core.Frame.{Frame}
use fw16_ledmatrix.Core.Brightness.{level, effective}
use fw16_ledmatrix.Core.Config.{Config, seen}
use fw16_ledmatrix.Core.Layout.{PanelLayout}
use fw16_ledmatrix.Core.Layout.Float.{Float}
use fw16_ledmatrix.Core.Layout.Render.{Readings, render_configured, default_readings}
use fw16_ledmatrix.Client.Messages.{Device, Snapshot, PowerReading}
use fw16_ledmatrix.Daemon.Devices.Panel.{Serial, Panel, sleep}

unfoldable pub stands_at : Text → Device → Bool
stands_at binding d = d.location == some binding

-- `(matching.len() == 1).then(..)`.
unfoldable pub sole : Text → List Device → Option (Text × Text)
sole name [] = none
sole name (d ∷ []) = some (name, d.port)
sole name (d ∷ e ∷ ds) = none

unfoldable pub resolve_panel : List Device → PanelLayout → Option (Text × Text)
resolve_panel devices p = p.binding >>= λ b. sole p.name (keep (stands_at b) devices)

-- `filter_map(..)`: each role with its port.
unfoldable pub add_route : Option (Text × Text) → List (Text × Text) → List (Text × Text)
add_route none rest = rest
add_route (some r) rest = r ∷ rest

unfoldable pub resolve_panels : List Device → List PanelLayout → List (Text × Text)
resolve_panels devices [] = []
resolve_panels devices (p ∷ ps) = add_route (resolve_panel devices p) (resolve_panels devices ps)

unfoldable pub resolve : Config → List Device → List (Text × Text)
resolve c devices = resolve_panels devices c.panels

unfoldable pub panel_named : Config → Text → Option PanelLayout
panel_named c name = find (λ p. p.name == name) c.panels

unfoldable pub routed : List (Text × Text) → Text → Bool
routed routes port = any (λ (r : Text × Text). r.1 == port) routes

unfoldable pub plugged : List Device → Text → Bool
plugged devices port = any (λ (d : Device). d.port == port) devices

-- A panel of the registry.
pub record Handle (P : Type 0) : Type 0 where
  pub name : Text
  pub panel : Panel P
  pub locked : Bool

module _ (F : Type 0) ⦃fl : Float F⦄ where
  unfoldable pub snapshot_readings : Config → Snapshot → Readings F
  snapshot_readings c s = record default_readings {
    sessions = s.assistants.sessions;
    hour = s.hour;
    minute = s.minute;
    default_clock_intensity = c.clock_intensity;
    battery = s.power >>= λ (p : PowerReading). option_map fl.of_nat p.percent;
  }

  -- The inner option is the method's; `none` is a panic.
  unfoldable pub normal_frame : Text → Config → Snapshot → List Device → Option (Option Frame)
  normal_frame port c s devices =
      elim (find (λ (r : Text × Text). r.1 == port) (resolve c devices) >>= λ (r : Text × Text).
      panel_named c r.0) [
        | none ↦ some none
        | some panel ↦
            option_map some (render_configured panel (snapshot_readings c s) c.brightness)
      ]

  -- A route with its level and frame, where it has one; the role is one of the configuration's
  -- (`expect("resolved panel")`).
  unfoldable pub assignment :
      Config → Snapshot → List Device → Text × Text → Option (Option (Text × Option ℕ × Frame))
  assignment c s devices (logical, port) = do
    panel ← panel_named c logical
    frame ← normal_frame port c s devices
    some (
        option_map (λ f. (port, level (effective c.brightness panel.brightness_override), f)) frame)

module _ {W : Type 0} (serial : Serial W) (routes : List (Text × Text))
    (devices : List Device) where
  -- The panels that `retain` leaves alone.
  unfoldable pub keeps : Handle serial.Port → Bool
  keeps h = routed routes h.name || (h.locked || (h.panel.needs_replug && plugged devices h.name))

  -- `retain`: a panel that is dropped is put to sleep.
  unfoldable pub retain_panels : List (Handle serial.Port) → W → List (Handle serial.Port) × W
  retain_panels [] w = ([], w)
  retain_panels (h ∷ hs) w = elim (keeps h) [
    | true ↦ let rest = retain_panels hs w in (h ∷ rest.0, rest.1)
    | false ↦ retain_panels hs (sleep serial h.panel w).1
  ]

  -- What the loop over the routes starts: the ports that no job is busy with, and the busy ones then.
  unfoldable pub start_jobs :
      List (Text × Option ℕ × Frame) → List Text → List (Text × Option ℕ × Frame) × List Text
  start_jobs [] jobs = ([], jobs)
  start_jobs (a ∷ rs) jobs = elim (seen a.0 jobs) [
    | true ↦ start_jobs rs jobs
    | false ↦ let rest = start_jobs rs (a.0 ∷ jobs) in (a ∷ rest.0, rest.1)
  ]

  retain_panels-keep :
      (hs : List (Handle serial.Port)) (w : W) → (retain_panels hs w).0 ≡ keep keeps hs
  unfolding retain_panels
  retain_panels-keep [] w = refl
  retain_panels-keep (h ∷ hs) w =
      ground (arith, retain_panels-keep hs w, retain_panels-keep hs (sleep serial h.panel w).1)

  In-keep_intro :
      (hs : List (Handle serial.Port)) (h : Handle serial.Port) (p : Handle serial.Port → Bool)
      → In h hs
      → p h ≡ true
      → In h (keep p hs)
  In-keep_intro [] h p m k = m
  In-keep_intro (x ∷ hs) h p m k = ground (arith, In-keep_intro hs h p)

  -- A panel that waits to be reconnected stays registered while its module is plugged in. Once it is
  -- unplugged, no role stands there and no job holds it, it is forgotten.
  pub retain-quarantined :
      (hs : List (Handle serial.Port)) (h : Handle serial.Port) (w : W)
      → In h hs
      → h.panel.needs_replug ≡ true
      → (plugged devices h.name ≡ true → In h (retain_panels hs w).0)
        × (plugged devices h.name ≡ false
            → routed routes h.name ≡ false
            → h.locked ≡ false
            → ¬ In h (retain_panels hs w).0)
  unfolding keeps
  retain-quarantined hs h w m q = (
    (λ p.
        subst (In h) (sym (retain_panels-keep hs w))
          (In-keep_intro hs h keeps m (ground (arith, p, q)))),
    λ p r l i. absurd (
        ground
          (arith, p, q, r, l, (In-keep keeps hs h (subst (In h) (retain_panels-keep hs w) i)).1)),
  )

-- What a route is: a role of the configuration with a binding, and the one device that stands there.
abbrev pub IsRoute : List PanelLayout → List Device → Text → Text → Type 0
IsRoute panels devices name port =
    (p : PanelLayout) × (d : Device) × (b : Text) × In p panels
    × (p.name ≡ name)
    × (p.binding ≡ some b)
    × In d devices
    × (d.port ≡ port)
    × (d.location ≡ some b)
    × ((e : Device) → In e devices → e.location ≡ some b → e ≡ d)

In-keep_device :
    (p : Device → Bool) (ds : List Device) (d : Device) → In d ds → p d ≡ true → In d (keep p ds)
In-keep_device p [] d m k = m
In-keep_device p (x ∷ ds) d m k = ground (arith, In-keep_device p ds d)

sole-some :
    (n : Text) (ds : List Device) (name port : Text)
    → sole n ds ≡ some (name, port)
    → (d : Device) × (ds ≡ d ∷ []) × (n ≡ name) × (d.port ≡ port)
unfolding sole
sole-some n [] name port h = absurd (ground arith)
sole-some n (d ∷ []) name port h = (d, refl, ground arith, ground arith)
sole-some n (d ∷ e ∷ ds) name port h = absurd (ground arith)

In-single : (d e : Device) (ds : List Device) → ds ≡ d ∷ [] → In e ds → e ≡ d
In-single d e ds k m = single (subst (In e) k m)
  where
    single : In e (d ∷ []) → e ≡ d
    single (inl h) = h
    single (inr h) = absurd h

resolve_panel-IsRoute :
    (ds : List Device) (p : PanelLayout) (panels : List PanelLayout) (name port : Text)
    → In p panels
    → resolve_panel ds p ≡ some (name, port)
    → IsRoute panels ds name port
unfolding resolve_panel stands_at
resolve_panel-IsRoute ds p panels name port m h = elim (Option-cases p.binding) [
  | inl e ↦ absurd (ground (arith, e))
  | inr (b, e) ↦
      let (d, k, n, q) = sole-some p.name (keep (stands_at b) ds) name port (ground (arith, e)) in
      let i : In d ds × (stands_at b d ≡ true) =
        In-keep (stands_at b) ds d (subst (In d) (sym k) (inl refl)) in
      (
        p,
        d,
        b,
        m,
        n,
        e,
        i.0,
        q,
        (option_text_beq_iff d.location (some b)).0 i.1,
        λ f j l.
            In-single d f (keep (stands_at b) ds) k
              (In-keep_device (stands_at b) ds f j ((option_text_beq_iff f.location (some b)).1 l)),
      )
]

In-add_route :
    (o : Option (Text × Text)) (rest : List (Text × Text)) (x : Text × Text)
    → In x (add_route o rest)
    → (o ≡ some x) ⊎ In x rest
unfolding add_route
In-add_route none rest x m = inr m
In-add_route (some r) rest x (inl e) = inl (ap some (sym e))
In-add_route (some r) rest x (inr m) = inr m

resolve_panels-IsRoute :
    (ds : List Device) (panels ps : List PanelLayout) (name port : Text)
    → ((p : PanelLayout) → In p ps → In p panels)
    → In (name, port) (resolve_panels ds ps)
    → IsRoute panels ds name port
unfolding resolve_panels
resolve_panels-IsRoute ds panels [] name port s m = absurd m
resolve_panels-IsRoute ds panels (p ∷ ps) name port s m =
    elim (In-add_route (resolve_panel ds p) (resolve_panels ds ps) (name, port) m) [
      | inl e ↦ resolve_panel-IsRoute ds p panels name port (s p (inl refl)) e
      | inr i ↦ resolve_panels-IsRoute ds panels ps name port (λ q i. s q (inr i)) i
    ]

-- A role is routed only to the one device at its binding: a location that no device or more than one
-- device reports gives no route.
pub resolve-IsRoute :
    (c : Config) (ds : List Device) (name port : Text)
    → In (name, port) (resolve c ds)
    → IsRoute c.panels ds name port
unfolding resolve
resolve-IsRoute c ds name port m =
    resolve_panels-IsRoute ds c.panels c.panels name port (λ p i. i) m
