-- ===== src/Base/Trim.antt =====
-- `str::trim` on UTF-8 bytes: the characters with the property White_Space are taken off both ends.
use Prim.Native.Nat.{ℕ, zero, suc}
use mathlib.Core.Option.{Option, none, some}
use mathlib.Core.List.{List, [], ◌∷◌, map}
use fw16_ledmatrix.Base.Tests.{nat_beq, if◌then◌else◌}
use fw16_ledmatrix.Base.Lists.{length}
use fw16_ledmatrix.Base.Texts.{Text}

abbrev pub white_space : List Text
white_space =
    (9 ∷ [])
    ∷ (10 ∷ [])
    ∷ (11 ∷ [])
    ∷ (12 ∷ [])
    ∷ (13 ∷ [])
    ∷ (32 ∷ [])
    ∷ (0xc2 ∷ 0x85 ∷ [])
    ∷ (0xc2 ∷ 0xa0 ∷ [])
    ∷ (0xe1 ∷ 0x9a ∷ 0x80 ∷ [])
    ∷ (0xe2 ∷ 0x80 ∷ 0x80 ∷ [])
    ∷ (0xe2 ∷ 0x80 ∷ 0x81 ∷ [])
    ∷ (0xe2 ∷ 0x80 ∷ 0x82 ∷ [])
    ∷ (0xe2 ∷ 0x80 ∷ 0x83 ∷ [])
    ∷ (0xe2 ∷ 0x80 ∷ 0x84 ∷ [])
    ∷ (0xe2 ∷ 0x80 ∷ 0x85 ∷ [])
    ∷ (0xe2 ∷ 0x80 ∷ 0x86 ∷ [])
    ∷ (0xe2 ∷ 0x80 ∷ 0x87 ∷ [])
    ∷ (0xe2 ∷ 0x80 ∷ 0x88 ∷ [])
    ∷ (0xe2 ∷ 0x80 ∷ 0x89 ∷ [])
    ∷ (0xe2 ∷ 0x80 ∷ 0x8a ∷ [])
    ∷ (0xe2 ∷ 0x80 ∷ 0xa8 ∷ [])
    ∷ (0xe2 ∷ 0x80 ∷ 0xa9 ∷ [])
    ∷ (0xe2 ∷ 0x80 ∷ 0xaf ∷ [])
    ∷ (0xe2 ∷ 0x81 ∷ 0x9f ∷ [])
    ∷ (0xe3 ∷ 0x80 ∷ 0x80 ∷ [])
    ∷ []

abbrev reversed : Text → Text → Text
reversed [] acc = acc
reversed (c ∷ cs) acc = reversed cs (c ∷ acc)

abbrev reverse : Text → Text
reverse t = reversed t []

-- What follows a prefix, where the text begins with it.
abbrev strip_prefix : Text → Text → Option Text
strip_prefix [] t = some t
strip_prefix (p ∷ ps) [] = none
strip_prefix (p ∷ ps) (c ∷ cs) = if nat_beq p c then strip_prefix ps cs else none

abbrev strip_one : List Text → Text → Option Text
strip_one [] t = none
strip_one (p ∷ ps) t = elim (strip_prefix p t) [ none ↦ strip_one ps t | some rest ↦ some rest ]

-- With as much fuel as there are bytes, all that can be stripped is.
unfoldable pub strip : ℕ → List Text → Text → Text
strip zero ps t = t
strip (suc fuel) ps t = elim (strip_one ps t) [ none ↦ t | some rest ↦ strip fuel ps rest ]

unfoldable pub trim_start : List Text → Text → Text
unfolding strip
trim_start ps t = strip (length t) ps t

unfoldable pub trim : Text → Text
unfolding trim_start
trim t = reverse (trim_start (map reverse white_space) (reverse (trim_start white_space t)))
