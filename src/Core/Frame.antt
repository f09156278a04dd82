-- ===== src/Core/Frame.antt =====
-- crates/matrix-core/src/lib.rs: the frame, the font and the clock. A pixel write outside the frame
-- panics in Rust: it is `none` here.
use fw16_ledmatrix.Base.{
  ℕ, ◌+◌, ◌*◌, ◌/◌, ◌%◌, Bool, ◌&&◌, ◌||◌, Option, none, some, List, [], ◌∷◌, Text, utf8, ltb, ◌==◌,
  nat_eq, if◌then◌else◌, length, get_elem?, set, replicate, ◌>>=◌, for_each, enumerate_from,
}

abbrev pub width_px : ℕ
width_px = 9

abbrev pub height_px : ℕ
height_px = 34

abbrev pub data_level : ℕ
data_level = 180

-- Row-major greyscale pixels, each a byte.
pub record Frame : Type 0 where
  pub width : ℕ
  pub height : ℕ
  pub pixels : List ℕ

unfoldable pub is_valid : Frame → Bool
is_valid f =
    f.width == width_px && (f.height == height_px && length f.pixels == width_px * height_px)

unfoldable pub blank_frame : Frame
blank_frame = record {
  width = width_px;
  height = height_px;
  pixels = replicate (width_px * height_px) 0;
}

abbrev glyph_of : Text → Text → Text → Text → Text → List Text
glyph_of a b c d e = a ∷ b ∷ c ∷ d ∷ e ∷ []

unfoldable pub font : List (List Text)
unfolding utf8
font =
    glyph_of (utf8 "###") (utf8 "#.#") (utf8 "#.#") (utf8 "#.#") (utf8 "###")
    ∷ glyph_of (utf8 ".#.") (utf8 "##.") (utf8 ".#.") (utf8 ".#.") (utf8 "###")
    ∷ glyph_of (utf8 "###") (utf8 "..#") (utf8 "###") (utf8 "#..") (utf8 "###")
    ∷ glyph_of (utf8 "###") (utf8 "..#") (utf8 "###") (utf8 "..#") (utf8 "###")
    ∷ glyph_of (utf8 "#.#") (utf8 "#.#") (utf8 "###") (utf8 "..#") (utf8 "..#")
    ∷ glyph_of (utf8 "###") (utf8 "#..") (utf8 "###") (utf8 "..#") (utf8 "###")
    ∷ glyph_of (utf8 "###") (utf8 "#..") (utf8 "###") (utf8 "#.#") (utf8 "###")
    ∷ glyph_of (utf8 "###") (utf8 "..#") (utf8 "..#") (utf8 "..#") (utf8 "..#")
    ∷ glyph_of (utf8 "###") (utf8 "#.#") (utf8 "###") (utf8 "#.#") (utf8 "###")
    ∷ glyph_of (utf8 "###") (utf8 "#.#") (utf8 "###") (utf8 "..#") (utf8 "###")
    ∷ []

-- `frame.pixels[i] = v`.
unfoldable pub write : ℕ → ℕ → List ℕ → Option (List ℕ)
write i v p = if ltb i (length p) then some (set p i v) else none

-- The two inner loops of `render_clock`.
unfoldable pub draw_cell : ℕ → ℕ → ℕ → ℕ × ℕ → List ℕ → Option (List ℕ)
draw_cell y x v (dx, cell) p = if cell == b'#' then write (y * width_px + x + dx) v p else some p

unfoldable pub draw_row : ℕ → ℕ → ℕ → ℕ × Text → List ℕ → Option (List ℕ)
unfolding draw_cell for_each
draw_row y x v (dy, row) p = for_each (enumerate_from 0 row) (draw_cell (y + dy) x v) p

unfoldable pub draw_glyph : ℕ → ℕ → ℕ → List Text → List ℕ → Option (List ℕ)
unfolding draw_row for_each
draw_glyph y x v glyph p = for_each (enumerate_from 0 glyph) (draw_row y x v) p

-- One round of the loop over `[(1, number / 10), (5, number % 10)]`.
unfoldable pub draw_digit : ℕ → ℕ → ℕ × ℕ → List ℕ → Option (List ℕ)
unfolding font draw_glyph
draw_digit y v (x, digit) p = do glyph ← get_elem? font digit; draw_glyph y x v glyph p

unfoldable pub draw_number : ℕ → ℕ × ℕ → List ℕ → Option (List ℕ)
unfolding draw_digit for_each
draw_number v (y, number) p = for_each ((1, number / 10) ∷ (5, number % 10) ∷ []) (draw_digit y v) p

-- `some none` is the rejection of a time that is no wall-clock time, `none` a panic.
unfoldable pub render_clock : ℕ → ℕ → Option (Option Frame)
unfolding for_each blank_frame
render_clock hour minute = if ltb 23 hour || ltb 59 minute then some none else do
  pixels ← for_each ((1, hour) ∷ (7, minute) ∷ []) (draw_number data_level) blank_frame.pixels
  some (some (record blank_frame { pixels = pixels }))
