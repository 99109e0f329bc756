-- ===== src/Recognizer/Marks.antt =====
-- c/pic-recognizer/demo.c: the dots in each answer area, and the area with most of them.
pub mod Count
pub mod Most
use c_workspace.Common.{
  ℕ, zero, suc, ◌+◌, ◌-◌, ◌*◌, ◌/◌, Bool, true, false, ◌==◌, ltb, leb, if◌then◌else◌, Option, none,
  some, ◌>>=◌, List, [], ◌∷◌, get_elem?,
}
use c_workspace.Recognizer.Image.{Point, Range, dot}

-- The dots of one line, with `rounds` columns left.
unfoldable pub line_loop : List Point → ℕ → ℕ → ℕ → ℕ → ℕ → Option ℕ
line_loop coordinate coor_width row zero col total = some total
line_loop coordinate coor_width row (suc rounds) col total = do
  p ← get_elem? coordinate (row * coor_width + col)
  line_loop coordinate coor_width row rounds (col + 1) (if p.c == dot then total + 1 else total)

-- `total > (int)(areaWidth * 0.95)`, with `areaWidth = to - from`. The cast drops the fraction, also
-- of a negative number.
abbrev pub is_bottom : ℕ → ℕ → ℕ → Bool
is_bottom from to total =
    if leb from to then ltb ((to - from) * 19 / 20) total else ltb 0 (total + (from - to) * 19 / 20)

-- The loop of `_count_dot_start_with_range`, with `rounds` rows left.
unfoldable pub count_loop : List Point → ℕ → Range → ℕ → ℕ → ℕ → Option ℕ
unfolding line_loop
count_loop coordinate coor_width r zero row total_dot = some total_dot
count_loop coordinate coor_width r (suc rounds) row total_dot = do
  total ← line_loop coordinate coor_width row (r.to.x - r.from.x) r.from.x 0
  elim (is_bottom r.from.x r.to.x total) [
    | true ↦ some total_dot
    | false ↦ count_loop coordinate coor_width r rounds (row + 1) (total_dot + total)
  ]

-- `_count_dot_start_with_range`
unfoldable pub count_dot_start_with_range : Range → List Point → ℕ → ℕ → Option ℕ
unfolding count_loop
count_dot_start_with_range r coordinate coor_width coor_height =
    count_loop coordinate coor_width r (coor_height - r.from.y) r.from.y 0

-- The loop of `_scan_to_count_area_with_most_dot`, over the areas from index `i` on.
unfoldable pub most_loop : List Point → ℕ → ℕ → List Range → ℕ → ℕ → ℕ → Option ℕ
most_loop coordinate w h [] i marked total = some marked
most_loop coordinate w h (r ∷ areas) i marked total = do
  curr ← count_dot_start_with_range r coordinate w h
  elim (ltb total curr) [
    | true ↦ most_loop coordinate w h areas (i + 1) i curr
    | false ↦ most_loop coordinate w h areas (i + 1) marked total
  ]

-- `_scan_to_count_area_with_most_dot`, on the memory of `answerAreaCount` areas.
unfoldable pub scan_to_count_area_with_most_dot : List Range → List Point → ℕ → ℕ → Option ℕ
unfolding most_loop count_dot_start_with_range
scan_to_count_area_with_most_dot [] coordinate w h = none
scan_to_count_area_with_most_dot (r ∷ areas) coordinate w h = do
  total ← count_dot_start_with_range r coordinate w h
  most_loop coordinate w h areas 1 0 total
