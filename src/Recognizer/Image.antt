-- ===== src/Recognizer/Image.antt =====
-- c/pic-recognizer/utils.c: points, ranges, rows of an image, and its conversion to points.
-- An `int` is a number: every coordinate that the program computes is a column or a row.
pub mod Coordinate
pub mod Picture
use Prim.Native.Nat.{bit_or}
use c_workspace.Common.{
  ℕ, zero, suc, ◌+◌, ◌-◌, ◌*◌, ◌^◌, max, Bool, ltb, if◌then◌else◌, Option, some, ◌>>=◌, List, [],
  ◌∷◌, get_elem?, write,
}

abbrev pub dot : ℕ
dot = 1

abbrev pub blank : ℕ
blank = 0

-- `c` is the colour, `dot` or `blank`.
pub record Point : Type 0 where
  pub x : ℕ
  pub y : ℕ
  pub c : ℕ

pub record Range : Type 0 where
  pub from : Point
  pub to : Point

-- `abs(r.to.x - r.from.x)`
abbrev pub get_range_w : Range → ℕ
get_range_w r = max (r.to.x - r.from.x) (r.from.x - r.to.x)

-- `r << 16 | g << 8 | b`
unfoldable pub to_hex : ℕ → ℕ → ℕ → ℕ
to_hex r g b = bit_or (bit_or (r * 2 ^ 16) (g * 2 ^ 8)) b

-- The colour of a pixel: light ones are blank.
unfoldable pub color : ℕ → ℕ → ℕ → ℕ
unfolding to_hex
color r g b = if ltb 0xaaaaaa (to_hex r g b) then blank else dot

-- The inner loop of `_make_standard_coordinate` with `rounds` points left: `col` is `3 * x`.
unfoldable pub columns_loop : List ℕ → ℕ → ℕ → ℕ → ℕ → List Point → Option (List Point)
unfolding color
columns_loop arr width row zero x coordinate = some coordinate
columns_loop arr width row (suc rounds) x coordinate = do
  let start = row * (width * 3) + x * 3
  r ← get_elem? arr (start + 0)
  g ← get_elem? arr (start + 1)
  b ← get_elem? arr (start + 2)
  coordinate' ← write coordinate (row * width + x) (record { x = x; y = row; c = color r g b })
  columns_loop arr width row rounds (x + 1) coordinate'

-- The outer loop, with `rounds` rows left.
unfoldable pub rows_loop : List ℕ → ℕ → ℕ → ℕ → List Point → Option (List Point)
unfolding columns_loop
rows_loop arr width zero row coordinate = some coordinate
rows_loop arr width (suc rounds) row coordinate = do
  coordinate' ← columns_loop arr width row width 0 coordinate
  rows_loop arr width rounds (row + 1) coordinate'

-- `coordinate` is the memory that the caller gives, whatever it holds.
unfoldable pub make_standard_coordinate : List ℕ → ℕ → ℕ → List Point → Option (List Point)
unfolding rows_loop
make_standard_coordinate arr width height coordinate = rows_loop arr width height 0 coordinate

-- The copy of one row in `process_by_row`, with `rounds` columns left.
unfoldable pub read_row : List Point → ℕ → ℕ → ℕ → ℕ → Option (List Point)
read_row coordinate width row zero col = some []
read_row coordinate width row (suc rounds) col = do
  p ← get_elem? coordinate (row * width + col)
  rest ← read_row coordinate width row rounds (col + 1)
  some (p ∷ rest)

-- `process_by_row`, with `rounds` rows left; what the callback changes is its state.
unfoldable pub process_by_row {ℓ} :
    {S : Type ℓ} → List Point → ℕ → ℕ → ℕ → (List Point → S → Option S) → S → Option S
unfolding read_row
process_by_row coordinate width zero row proc s = some s
process_by_row coordinate width (suc rounds) row proc s = do
  coord_row ← read_row coordinate width row width 0
  s' ← proc coord_row s
  process_by_row coordinate width rounds (row + 1) proc s'
