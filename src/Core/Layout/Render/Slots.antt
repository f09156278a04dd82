-- ===== src/Core/Layout/Render/Slots.antt =====
-- The area of each slot of a template (crates/matrix-core/src/layout.rs).
use fw16_ledmatrix.Base.{
  ℕ, zero, suc, ◌+◌, ◌≤◌, ◌<◌, ◌≡◌, ◌≢◌, ◌⊎◌, refl, arith, true, false, Option, none, some, List,
  length, get_elem?, ◌==◌, nat_eq,
}
use fw16_ledmatrix.Core.Layout.Types.{
  Template, clock_gauge, number_two_gauges, full_gauge, Presentation, presentation_eq, Widget,
  presentations,
}
use fw16_ledmatrix.Core.Layout.Render.{Rectangle, Readings, gauge_area, fits, base_intensity}
use fw16_ledmatrix.Core.Layout.Render.Area.{IsByte, Canvas, Inside, FitsFrame}

-- The area of each slot of a template.
unfoldable pub slot_area : Template → ℕ → Rectangle
unfolding gauge_area
slot_area clock_gauge zero = record { top = 1; bottom = 11; left = 1; right = 7 }
slot_area clock_gauge (suc k) = gauge_area clock_gauge (suc k)
slot_area number_two_gauges zero = record { top = 1; bottom = 5; left = 1; right = 7 }
slot_area number_two_gauges (suc k) = gauge_area number_two_gauges (suc k)
slot_area full_gauge k = gauge_area full_gauge k

pub slot_area-FitsFrame : (t : Template) (k : ℕ) → FitsFrame (slot_area t k)
unfolding slot_area
slot_area-FitsFrame clock_gauge zero = omega arith
slot_area-FitsFrame clock_gauge (suc k) = omega arith
slot_area-FitsFrame number_two_gauges zero = omega arith
slot_area-FitsFrame number_two_gauges (suc k) = ground arith
slot_area-FitsFrame full_gauge k = omega arith

pub Inside-cases : (a : Rectangle) (i : ℕ) → Inside a i ⊎ (¬ Inside a i)
Inside-cases a i = ground arith

-- The areas of two slots of a template have no pixel in common.
pub slot_area-disjoint :
    (t : Template) (j k i : ℕ)
    → j < length (presentations t)
    → k < length (presentations t)
    → j ≢ k
    → Inside (slot_area t j) i
    → ¬ Inside (slot_area t k) i
unfolding slot_area presentations
slot_area-disjoint clock_gauge zero zero i p q d h1 h2 = d refl
slot_area-disjoint clock_gauge zero (suc k) i p q d h1 h2 = omega arith
slot_area-disjoint clock_gauge (suc j) zero i p q d h1 h2 = omega arith
slot_area-disjoint clock_gauge (suc j) (suc k) i p q d h1 h2 = absurd (omega arith)
slot_area-disjoint number_two_gauges zero zero i p q d h1 h2 = d refl
slot_area-disjoint number_two_gauges zero (suc k) i p q d h1 h2 = ground arith
slot_area-disjoint number_two_gauges (suc j) zero i p q d h1 h2 = ground arith
slot_area-disjoint number_two_gauges (suc j) (suc k) i p q d h1 h2 = ground arith
slot_area-disjoint full_gauge j k i p q d h1 h2 = absurd (omega arith)

abbrev pub HasBytes : {F : Type 0} → Readings F → Option Widget → Type 0
HasBytes r none = Unit
HasBytes r (some w) = IsByte (base_intensity r w)

pub clock_area :
    (t : Template) (k : ℕ) (w : Widget)
    → fits t k w ≡ true
    → (w.presentation == Presentation.clock) ≡ true
    → let a = slot_area t k in (a.top ≤ 1) × (11 ≤ a.bottom) × (a.left ≤ 1) × (7 ≤ a.right)
unfolding fits slot_area
clock_area clock_gauge zero w f c = omega arith
clock_area clock_gauge (suc zero) w f c = ground arith
clock_area clock_gauge (suc (suc k)) w f c = ground arith
clock_area number_two_gauges zero w f c = ground arith
clock_area number_two_gauges (suc zero) w f c = ground arith
clock_area number_two_gauges (suc (suc zero)) w f c = ground arith
clock_area number_two_gauges (suc (suc (suc k))) w f c = ground arith
clock_area full_gauge zero w f c = ground arith
clock_area full_gauge (suc k) w f c = ground arith

pub number_area :
    (t : Template) (k : ℕ) (w : Widget)
    → fits t k w ≡ true
    → (w.presentation == Presentation.number) ≡ true
    → let a = slot_area t k in (a.top ≤ 1) × (5 ≤ a.bottom) × (a.left ≤ 1) × (7 ≤ a.right)
unfolding fits slot_area
number_area clock_gauge zero w f c = ground arith
number_area clock_gauge (suc zero) w f c = ground arith
number_area clock_gauge (suc (suc k)) w f c = ground arith
number_area number_two_gauges zero w f c = omega arith
number_area number_two_gauges (suc zero) w f c = ground arith
number_area number_two_gauges (suc (suc zero)) w f c = ground arith
number_area number_two_gauges (suc (suc (suc k))) w f c = ground arith
number_area full_gauge zero w f c = ground arith
number_area full_gauge (suc k) w f c = ground arith

-- A widget that is neither a clock nor a number stands in a gauge.
pub gauge_slot :
    (t : Template) (k : ℕ) (w : Widget)
    → fits t k w ≡ true
    → (w.presentation == Presentation.clock) ≡ false
    → (w.presentation == Presentation.number) ≡ false
    → slot_area t k ≡ gauge_area t k
unfolding fits slot_area
gauge_slot clock_gauge zero w f c n = ground arith
gauge_slot clock_gauge (suc k) w f c n = refl
gauge_slot number_two_gauges zero w f c n = ground arith
gauge_slot number_two_gauges (suc k) w f c n = refl
gauge_slot full_gauge k w f c n = refl

pub gauge_area_bounds :
    (t : Template) (k : ℕ)
    → ((gauge_area t k).top ≤ (gauge_area t k).bottom)
      × ((gauge_area t k).left ≤ (gauge_area t k).right + 1)
unfolding gauge_area
gauge_area_bounds t k = ground arith

-- Pixels that belong to no slot stay dark.
abbrev pub InNoSlot : Template → ℕ → Type 0
InNoSlot t i = (k : ℕ) → ¬ Inside (slot_area t k) i

pub record Drawn (t : Template) (p : List ℕ) : Type 0 where
  pub canvas : Canvas p
  pub dark : (i : ℕ) → i < 306 → InNoSlot t i → get_elem? p i ≡ some 0
