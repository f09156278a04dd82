-- ===== src/Core/Protocol.antt =====
-- crates/matrix-core/src/protocol.rs: the bytes that go to a panel.
pub mod Greyscale
pub mod BlackWhite
use Prim.Native.Nat.{bit_or, bit_and}
use fw16_ledmatrix.Base.{
  ℕ, ◌+◌, ◌*◌, ◌/◌, ◌%◌, ◌^◌, not, ◌&&◌, Option, none, some, List, [], ◌∷◌, ◌++◌, Text, utf8,
  decimal, ltb, leb, ◌==◌, nat_eq, if◌then◌else◌, get_elem?, set, replicate, ◌>>=◌, count_from,
  enumerate_from, for_each,
}
use fw16_ledmatrix.Core.Frame.{Frame, width_px, height_px, is_valid}

unfoldable pub command : ℕ → List ℕ → List ℕ
command id payload = (0x32 ∷ 0xac ∷ id ∷ []) ++ payload

-- `payload[i / 8] |= 1 << (i % 8)`: `none` is a panic.
unfoldable pub set_bit : ℕ × ℕ → List ℕ → Option (List ℕ)
set_bit (i, value) payload =
    if ltb 0 value
    then (do
      byte ← get_elem? payload (i / 8)
      some (set payload (i / 8) (bit_or byte (2 ^ (i % 8)))))
    else some payload

-- The outer option is the panic of an index, the inner one the refusal of a malformed frame.
unfoldable pub bw : Frame → Option (Option (List ℕ))
unfolding command set_bit for_each is_valid
bw frame = if not (is_valid frame) then some none else do
  payload ←
      for_each (enumerate_from 0 frame.pixels) set_bit
        (replicate ((width_px * height_px + 7) / 8) 0)
  some (some (command 0x06 payload))

-- The loop over `y`: the pixels of column `x`, `none` where an index is out of range.
unfoldable pub column : List ℕ → ℕ → List ℕ → Option (List ℕ)
column pixels x [] = some []
column pixels x (y ∷ ys) = do
  v ← get_elem? pixels (y * width_px + x)
  vs ← column pixels x ys
  some (v ∷ vs)

-- The loop over `x`.
unfoldable pub columns : List ℕ → List ℕ → Option (List (List ℕ))
unfolding column command
columns pixels [] = some []
columns pixels (x ∷ xs) = do
  vs ← column pixels x (count_from 0 height_px)
  rest ← columns pixels xs
  some (command 0x07 (x ∷ vs) ∷ rest)

unfoldable pub greyscale : Frame → Option (Option (List (List ℕ)))
unfolding columns command is_valid
greyscale frame = if not (is_valid frame) then some none else do
  commands ← columns frame.pixels (count_from 0 width_px)
  some (some (commands ++ command 0x08 [] ∷ []))

unfoldable pub bcd : ℕ → Option ℕ
bcd value =
    if leb (value / 16) 9 && leb (bit_and value 15) 9
    then some (value / 16 * 10 + bit_and value 15)
    else none

-- `{:02}` of a number below 100.
unfoldable pub two_digits : ℕ → Text
unfolding decimal
two_digits n = if ltb n 10 then b'0' ∷ decimal n else decimal n

unfoldable pub firmware : ℕ → ℕ → ℕ → Option Text
unfolding bcd decimal two_digits utf8
firmware major minor pre = do
  a ← bcd major
  b ← bcd minor
  some (decimal a ++ (utf8 "." ++ (two_digits b ++ (if pre == 0 then [] else utf8 "-pre"))))
