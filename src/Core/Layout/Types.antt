-- ===== src/Core/Layout/Types.antt =====
-- crates/matrix-core/src/layout.rs: templates, widgets, panels and their defaults.
use fw16_ledmatrix.Base.{
  ℕ, ◌≡◌, ◌↔◌, Bool, true, false, Option, none, some, List, [], ◌∷◌, map, arith, Text, utf8, ◌==◌,
  nat_eq, PartialEq, nat_beq, enumerate_from, if◌then◌else◌,
}
use fw16_ledmatrix.Core.Assistant.{Provider, claude}
use fw16_ledmatrix.Core.Brightness.{Brightness}

pub data Template : Type 0 where
  clock_gauge number_two_gauges full_gauge : Template

pub data Presentation : Type 0 where
  clock number gauge : Presentation

pub data Source : Type 0 where
  clock battery context activity five_hour weekly : Source

abbrev pub presentation_rank : Presentation → ℕ
presentation_rank Presentation.clock = 0
presentation_rank Presentation.number = 1
presentation_rank Presentation.gauge = 2

abbrev pub presentation_beq : Presentation → Presentation → Bool
presentation_beq a b = nat_beq (presentation_rank a) (presentation_rank b)

pub presentation_beq_iff : (a b : Presentation) → (presentation_beq a b ≡ true) ↔ (a ≡ b)
presentation_beq_iff a b = ground arith

instance abbrev pub presentation_eq : PartialEq Presentation
presentation_eq = record { same-iff = presentation_beq_iff; same = presentation_beq }

abbrev pub source_rank : Source → ℕ
source_rank Source.clock = 0
source_rank Source.battery = 1
source_rank Source.context = 2
source_rank Source.activity = 3
source_rank Source.five_hour = 4
source_rank Source.weekly = 5

abbrev pub source_beq : Source → Source → Bool
source_beq a b = nat_beq (source_rank a) (source_rank b)

pub source_beq_iff : (a b : Source) → (source_beq a b ≡ true) ↔ (a ≡ b)
source_beq_iff a b = ground arith

instance abbrev pub source_eq : PartialEq Source
source_eq = record { same-iff = source_beq_iff; same = source_beq }

pub record Widget : Type 0 where
  pub provider : Provider
  pub session_id : Option Text
  pub source : Source
  pub presentation : Presentation
  pub intensity : Option ℕ
  pub reversed : Bool
  pub hide_leading_hour_zero : Bool
  pub warning_threshold : Option ℕ

pub record PanelLayout : Type 0 where
  pub name : Text
  pub template : Template
  pub slots : List (Option Widget)
  pub binding : Option Text
  pub brightness_override : Option Brightness

unfoldable pub presentations : Template → List Presentation
presentations clock_gauge = Presentation.clock ∷ Presentation.gauge ∷ []
presentations number_two_gauges = Presentation.number ∷ Presentation.gauge ∷ Presentation.gauge ∷ []
presentations full_gauge = Presentation.gauge ∷ []

unfoldable pub default_source : Template → ℕ → Source
default_source clock_gauge index = if index == 0 then Source.clock else Source.battery
default_source full_gauge index = Source.battery
default_source number_two_gauges index =
    if index == 0 then Source.context else if index == 1 then Source.five_hour else Source.weekly

unfoldable pub default_slot : Template → ℕ × Presentation → Option Widget
unfolding default_source
default_slot template (index, p) = some (record {
  provider = claude;
  session_id = none;
  source = default_source template index;
  presentation = p;
  intensity = none;
  reversed = false;
  hide_leading_hour_zero = false;
  warning_threshold = none;
})

unfoldable pub default_slots : Template → List (Option Widget)
unfolding default_slot presentations
default_slots template = map (default_slot template) (enumerate_from 0 (presentations template))

unfoldable pub default_panel : Text → Template → PanelLayout
unfolding default_slots
default_panel name template = record {
  name = name;
  template = template;
  slots = default_slots template;
  binding = none;
  brightness_override = none;
}

unfoldable pub defaults : List PanelLayout
unfolding default_panel utf8
defaults =
    default_panel (utf8 "left") clock_gauge ∷ default_panel (utf8 "right") number_two_gauges ∷ []
