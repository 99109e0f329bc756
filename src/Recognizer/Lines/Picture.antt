-- ===== src/Recognizer/Lines/Picture.antt =====
-- `process_by_row` with `rowProcessor`: the ranges of all rows of a picture.
use c_workspace.Common.{
  ℕ, zero, suc, ◌+◌, ◌*◌, ◌/◌, ◌≤◌, ◌≡◌, refl, ap, true, ◌==◌, if◌then◌else◌, Option, some, ◌>>=◌,
  List, [], ◌∷◌, ◌++◌, arith, length, All, drop, take, drop-elem,
}
use c_workspace.Recognizer.Image.{Point, Range, blank, read_row, process_by_row}
use c_workspace.Recognizer.Runs.Encoding.{runs}
use c_workspace.Recognizer.Runs.Visible.{dark}
use c_workspace.Recognizer.Lines.{Context}
use c_workspace.Recognizer.Lines.Pairs.{pairs, IsPaired}
use c_workspace.Recognizer.Lines.Rises.{Rises, IsColored}

-- The rows of a picture, `rounds` of them from `row` on.
abbrev pub rows : List Point → ℕ → ℕ → ℕ → List (List Point)
rows coordinate width zero row = []
rows coordinate width (suc rounds) row =
    take width (drop (row * width) coordinate) ∷ rows coordinate width rounds (row + 1)

-- A callback on one row after the other.
abbrev pub each {ℓ} : {S : Type ℓ} → (List Point → S → Option S) → List (List Point) → S → Option S
each proc [] s = some s
each proc (r ∷ rs) s = proc r s >>= λ s'. each proc rs s'

module _ (coordinate : List Point) (width : ℕ) where
  read_row-take :
      (row rounds col : ℕ)
      → row * width + (col + rounds) ≤ length coordinate
      → read_row coordinate width row rounds col
        ≡ some (take rounds (drop (row * width + col) coordinate))
  unfolding read_row
  read_row-take row zero col h = refl
  read_row-take row (suc rounds) col h =
      let (p, e, f) = drop-elem coordinate (row * width + col) (omega arith) in
      let s : (row * width + col) + 1 ≡ row * width + (col + 1) = omega arith in
      rw (e, f, s, read_row-take row rounds (col + 1) (omega arith)) refl

  -- The callback gets each row of the picture, in order.
  pub process_by_row-each {ℓ} :
      {S : Type ℓ} (proc : List Point → S → Option S) (rounds row : ℕ) (s : S)
      → (row + rounds) * width ≤ length coordinate
      → process_by_row coordinate width rounds row proc s
        ≡ each proc (rows coordinate width rounds row) s
  unfolding process_by_row
  process_by_row-each proc zero row s h = refl
  process_by_row-each proc (suc rounds) row s h =
      let e : row * width + 0 ≡ row * width = omega arith in
      rw (read_row-take row width 0 (omega arith), e)
        (ap (λ k. proc (take width (drop (row * width) coordinate)) s >>= k)
          (λ i s'. process_by_row-each proc rounds (row + 1) s' (omega arith) i))

-- How many rows have `width` dark runs, and their pairs.
abbrev pub line_count : ℕ → List (List Point) → ℕ
line_count width [] = 0
line_count width (r ∷ rs) = (if width == dark (runs r) then 1 else 0) + line_count width rs

abbrev pub line_ranges : ℕ → List (List Point) → List Range
line_ranges width [] = []
line_ranges width (r ∷ rs) =
    if width == dark (runs r) then pairs (runs r) ++ line_ranges width rs else line_ranges width rs

abbrev context : ℕ → List Range → ℕ → ℕ → ℕ → Context
context width ranges offset height calls = record {
  width = width;
  height = height;
  ranges = ranges;
  offset = offset;
  calls = calls;
}

-- A row of points of two colours from left to right that begins blank, of at most `n / 2 + 1` runs; if it
-- has `width` dark runs, it ends with one of them.
abbrev pub IsClean : ℕ → ℕ → List Point → Type 0
IsClean n width [] = ⊥
IsClean n width (p ∷ row) =
    (p.c ≡ blank)
    × All IsColored (p ∷ row)
    × Rises (p ∷ row)
    × (length (runs (p ∷ row)) ≤ n / 2 + 1)
    × ((width == dark (runs (p ∷ row))) ≡ true → IsPaired (runs (p ∷ row)))
