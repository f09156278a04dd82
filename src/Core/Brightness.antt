-- ===== src/Core/Brightness.antt =====
-- crates/matrix-core/src/brightness.rs: the level limits of a panel, each a byte. `effective` takes
-- the panel's override, the one field of the panel that it reads.
use fw16_ledmatrix.Base.{
  ℕ, ◌≤◌, ◌≡◌, Bool, false, not, ◌&&◌, Option, none, some, arith, ltb, leb, if◌then◌else◌,
  unwrap_or,
}

pub record Brightness : Type 0 where
  pub minimum : ℕ
  pub maximum : ℕ
  pub manual : ℕ
  pub off : Bool

abbrev pub default_brightness : Brightness
default_brightness = record { minimum = 3; maximum = 255; manual = 32; off = false }

unfoldable pub valid : Brightness → Bool
valid b =
    ltb 0 b.minimum
    && (leb b.minimum b.maximum && (leb b.minimum b.manual && leb b.manual b.maximum))

unfoldable pub level : Brightness → Option ℕ
unfolding valid
level b = if valid b && not b.off then some b.manual else none

unfoldable pub effective : Brightness → Option Brightness → Brightness
effective global brightness_override = unwrap_or brightness_override global

-- A level is given exactly for valid limits that are not switched off, and lies in the limits.
pub level-some :
    (b : Brightness) (l : ℕ)
    → level b ≡ some l
    → (l ≡ b.manual) × (1 ≤ l) × (b.minimum ≤ l) × (l ≤ b.maximum) × (b.off ≡ false)
unfolding level
level-some b l h = ground arith
