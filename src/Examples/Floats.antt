-- ===== src/Examples/Floats.antt =====
-- Floats that are whole numbers: an instance on which the examples compute.
use Prim.Native.Nat.{min, max}
use fw16_ledmatrix.Base.{ℕ, ◌*◌, ◌/◌, ◌-◌, ◌≤◌, arith, leb, true}
use fw16_ledmatrix.Base.Int.{pos}
use fw16_ledmatrix.Core.Layout.Float.{Float}

pub min_le : (x : ℕ) → min x 255 ≤ 255
min_le x = omega arith

instance abbrev pub whole_numbers : Float ℕ
whole_numbers = record {
  of_nat = λ n. n;
  is_finite = λ _. true;
  le = leb;
  div = λ a b. a / b;
  mul = λ a b. a * b;
  sub = λ a b. a - b;
  clamp = λ x lo hi. min (max x lo) hi;
  to_u8 = λ x. min x 255;
  to_i32 = pos;
  to_u8-le = min_le;
}
