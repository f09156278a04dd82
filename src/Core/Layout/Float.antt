-- ===== src/Core/Layout/Float.antt =====
-- The 64-bit floats that the renderer computes with are the language's, not the program's: they are
-- an interface. Only the range of `as u8` is relied on.
use fw16_ledmatrix.Base.{ℕ, ◌≤◌, Bool}
use fw16_ledmatrix.Base.Int.{ℤ}

pub record Float (F : Type 0) : Type 0 where
  -- `f64::from` of a small number, or its literal.
  pub of_nat : ℕ → F
  pub is_finite : F → Bool
  pub le : F → F → Bool
  pub div : F → F → F
  pub mul : F → F → F
  pub sub : F → F → F
  -- `x.clamp(lo, hi)`.
  pub clamp : F → F → F → F
  -- `x as u8` and `x as i32`, which saturate.
  pub to_u8 : F → ℕ
  pub to_i32 : F → ℤ
  pub to_u8-le : (x : F) → to_u8 x ≤ 255
