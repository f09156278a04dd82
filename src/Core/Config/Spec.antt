-- ===== src/Core/Config/Spec.antt =====
-- What a configuration has to be, described without the validator (crates/matrix-core/src/config.rs).
use fw16_ledmatrix.Base.{
  ℕ, suc, ◌≤◌, ◌≡◌, ◌≢◌, ◌↔◌, ◌⊎◌, Option, none, some, List, [], ◌∷◌, Text, length, get_elem?, All,
  In,
}
use fw16_ledmatrix.Core.Brightness.{Brightness}
use fw16_ledmatrix.Core.Layout.{Template, Presentation, Source, Widget, PanelLayout, presentations}
use fw16_ledmatrix.Core.Config.Defs.{Config}

abbrev pub OnSome {ℓ} : {A : Type ℓ} → (A → Type 0) → Option A → Type 0
OnSome P none = Unit
OnSome P (some a) = P a

abbrev pub Distinct : List Text → Type 0
Distinct [] = Unit
Distinct (x ∷ xs) = (¬ In x xs) × Distinct xs

abbrev pub IsLimits : Brightness → Type 0
IsLimits b = (1 ≤ b.minimum) × (b.minimum ≤ b.manual) × (b.manual ≤ b.maximum)

-- One of the characters A-Z, a-z, 0-9, `-` and `_`.
abbrev pub IsIdByte : ℕ → Type 0
IsIdByte b =
    ((b'0' ≤ b) × (b ≤ b'9'))
    ⊎ (((b'A' ≤ b) × (b ≤ b'Z')) ⊎ (((b'a' ≤ b) × (b ≤ b'z')) ⊎ ((b ≡ b'-') ⊎ (b ≡ b'_'))))

abbrev pub IsId : Text → Type 0
IsId id = (1 ≤ length id) × (length id ≤ 128) × All IsIdByte id

pub record FitsSlot (template : Template) (s : ℕ) (w : Widget) : Type 0 where
  pub presentation_fits : get_elem? (presentations template) s ≡ some w.presentation
  pub not_dark : OnSome (λ i. i ≢ 0) w.intensity
  pub safe_session : OnSome IsId w.session_id
  pub threshold_percent : OnSome (λ t. t ≤ 100) w.warning_threshold
  pub clock_shows_clock : (w.source ≡ Source.clock) ↔ (w.presentation ≡ Presentation.clock)

abbrev pub FitSlots : Template → ℕ → List (Option Widget) → Type 0
FitSlots template s [] = Unit
FitSlots template s (slot ∷ slots) =
    OnSome (FitsSlot template s) slot × FitSlots template (suc s) slots

pub record IsValidPanel (p : PanelLayout) : Type 0 where
  pub limits : OnSome IsLimits p.brightness_override
  pub binding_size : OnSome (λ b. (1 ≤ length b) × (length b ≤ 1024)) p.binding
  pub name_size : (1 ≤ length p.name) × (length p.name ≤ 32)
  pub slot_count : length p.slots ≡ length (presentations p.template)
  pub slots_fit : FitSlots p.template 0 p.slots

abbrev pub bound : List PanelLayout → List Text
bound [] = []
bound (p ∷ ps) = elim p.binding [ none ↦ bound ps | some b ↦ b ∷ bound ps ]

abbrev pub names_of : List PanelLayout → List Text
names_of [] = []
names_of (p ∷ ps) = p.name ∷ names_of ps

pub record IsValidConfig (c : Config) : Type 0 where
  pub global_limits : IsLimits c.brightness
  pub schema : c.schema_version ≡ 2
  pub clock_lit : c.clock_intensity ≢ 0
  pub one_or_two : (1 ≤ length c.panels) × (length c.panels ≤ 2)
  pub each_panel : All IsValidPanel c.panels
  pub names_distinct : Distinct (names_of c.panels)
  pub bindings_distinct : Distinct (bound c.panels)
