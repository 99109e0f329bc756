-- ===== src/Recognizer/Areas.antt =====
-- c/pic-recognizer/demo.c: the vertical lines, and the answer areas between them.
pub mod Tops
pub mod Form
pub mod Written
use c_workspace.Common.{
  ℕ, zero, suc, ◌+◌, ◌-◌, ◌*◌, max, Bool, true, false, ◌==◌, ltb, leb, ◌&&◌, if◌then◌else◌, Option,
  some, ◌>>=◌, List, [], ◌∷◌, ◌++◌, get_elem?, write,
}
use c_workspace.Recognizer.Image.{Point, Range, get_range_w}

-- `verticalContinuousCount` and `verticalContinuousCountMax`.
pub record Counters : Type 0 where
  pub count : ℕ
  pub most : ℕ

-- The test on a line `row` lines below `top`.
abbrev pub continues : Range → ℕ → Range → Bool
continues top row r =
    r.from.x == top.from.x && get_range_w r == get_range_w top && r.from.y == row + top.from.y

-- The loop down one column, with `rounds` rows left.
unfoldable pub down_loop : List Range → ℕ → ℕ → Range → ℕ → ℕ → Counters → Option Counters
down_loop ranges width col top zero row k = some k
down_loop ranges width col top (suc rounds) row k = do
  r ← get_elem? ranges (row * width + col)
  down_loop ranges width col top rounds (row + 1) (
      if continues top row r
      then record k { count = k.count + 1 }
      else record { count = 1; most = max k.most k.count })

-- The loop over the columns, with `rounds` left: the counters, and the points in `areaTopPArr`.
unfoldable pub tops_loop : List Range → ℕ → ℕ → ℕ → ℕ → Counters → List Point → Option (List Point)
unfolding down_loop
tops_loop ranges width height zero col k tops = some tops
tops_loop ranges width height (suc rounds) col k tops = do
  top ← get_elem? ranges col
  elim (ltb (top.from.x + 2) top.to.x) [
    | true ↦ do
      k' ← down_loop ranges width col top (height - 1) 1 k
      tops_loop ranges width height rounds (col + 1) k'
          (if leb 5 k'.most then tops ++ (top.from ∷ []) else tops)
    | false ↦ tops_loop ranges width height rounds (col + 1) k tops
  ]

-- The last loop: a range between each two neighbours.
unfoldable pub between_loop : Point → List Point → ℕ → List Range → Option (List Range)
between_loop prev [] n areas = some areas
between_loop prev (curr ∷ tops) n areas = do
  areas' ← write areas n (record { from = prev; to = curr })
  between_loop curr tops (n + 1) areas'

abbrev pub between : List Point → List Range → Option (List Range)
between [] areas = some areas
between (p ∷ tops) areas = between_loop p tops 0 areas

-- `_try_to_get_answer_area_range`
unfoldable pub try_to_get_answer_area_range : List Range → ℕ → ℕ → List Range → Option (List Range)
unfolding tops_loop between_loop
try_to_get_answer_area_range ranges width height areas = do
  tops ← tops_loop ranges width height width 0 (record { count = 1; most = 0 }) []
  between tops areas
