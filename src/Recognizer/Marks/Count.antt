-- ===== src/Recognizer/Marks/Count.antt =====
-- `_count_dot_start_with_range` adds up the dots of the lines above the bottom of an area.
use c_workspace.Common.{
  ℕ, zero, suc, ◌+◌, ◌-◌, ◌*◌, ◌≤◌, ◌≡◌, ◌/◌, refl, sym, ap, ltb, leb, ltb→lt, lt→ltb, Bool, ◌∙◌,
  true, false, ◌==◌, Bool-cases, inl, inr, if◌then◌else◌, some, ◌>>=◌, List, [], ◌∷◌, arith, length,
  drop, take, drop-elem,
}
use c_workspace.Recognizer.Image.{Point, Range, dot}
use c_workspace.Recognizer.Marks.{line_loop, is_bottom, count_loop, count_dot_start_with_range}

-- The dots among points.
abbrev pub dots : List Point → ℕ
dots [] = 0
dots (p ∷ ps) = (if p.c == dot then 1 else 0) + dots ps

-- More than 95 of 100 of the points.
abbrev is_full : ℕ → ℕ → Bool
is_full width total = ltb (95 * width) (100 * total)

is_bottom-full :
    (from to total : ℕ) → from ≤ to → is_bottom from to total ≡ is_full (to - from) total
is_bottom-full from to total h =
    let l : leb from to ≡ true = ground arith in rw l (same_tests (to - from) total)
  where
    same_tests : (w t : ℕ) → ltb (w * 19 / 20) t ≡ ltb (95 * w) (100 * t)
    same_tests w t = elim (Bool-cases (ltb (95 * w) (100 * t))) [
      | inl b ↦ rw b (let k = ltb→lt (95 * w) (100 * t) b in lt→ltb (w * 19 / 20) t (omega arith))
      | inr b ↦ rw b (ground (arith, b))
    ]

module _ (coordinate : List Point) (coor_width : ℕ) where
  -- The dots of the area `r` in one line.
  unfoldable pub line_dots : Range → ℕ → ℕ
  line_dots r row = dots (take (r.to.x - r.from.x) (drop (row * coor_width + r.from.x) coordinate))

  -- The sum over the `rounds` lines from `row` on, down to the first of which more than 95 of 100 points
  -- are dots.
  unfoldable pub dots_above_bottom : Range → ℕ → ℕ → ℕ
  dots_above_bottom r zero row = 0
  dots_above_bottom r (suc rounds) row =
      let rest = dots_above_bottom r rounds (row + 1) in
      if is_full (r.to.x - r.from.x) (line_dots r row) then 0 else line_dots r row + rest

  line_loop-dots :
      (row rounds col total : ℕ)
      → row * coor_width + (col + rounds) ≤ length coordinate
      → line_loop coordinate coor_width row rounds col total
        ≡ some (total + dots (take rounds (drop (row * coor_width + col) coordinate)))
  unfolding line_loop
  line_loop-dots row zero col total h = ap some (omega arith)
  line_loop-dots row (suc rounds) col total h =
      let (p, e, f) = drop-elem coordinate (row * coor_width + col) (omega arith) in
      let s : (row * coor_width + col) + 1 ≡ row * coor_width + (col + 1) = omega arith in
      rw (e, f, s)
        (line_loop-dots row rounds (col + 1) (if p.c == dot then total + 1 else total) (omega arith)
          ∙ ap some (ground arith))

  module _ (r : Range) (rounds row total n : ℕ)
      (l : line_loop coordinate coor_width row (r.to.x - r.from.x) r.from.x 0 ≡ some n) where
    count_stop :
        is_bottom r.from.x r.to.x n ≡ true
        → count_loop coordinate coor_width r (suc rounds) row total ≡ some total
    unfolding count_loop
    count_stop b = rw (l, ◌>>=◌, b) refl

    count_on :
        is_bottom r.from.x r.to.x n ≡ false
        → count_loop coordinate coor_width r (suc rounds) row total
          ≡ count_loop coordinate coor_width r rounds (row + 1) (total + n)
    unfolding count_loop
    count_on b = rw (l, ◌>>=◌, b) refl

  module _ (r : Range) (inside : r.to.x ≤ coor_width) (ordered : r.from.x ≤ r.to.x) where
    line_fits :
        (row : ℕ)
        → (row + 1) * coor_width ≤ length coordinate
        → row * coor_width + (r.from.x + (r.to.x - r.from.x)) ≤ length coordinate
    line_fits row h = omega arith

    count_loop-dots :
        (rounds row total : ℕ)
        → (row + rounds) * coor_width ≤ length coordinate
        → count_loop coordinate coor_width r rounds row total
          ≡ some (total + dots_above_bottom r rounds row)
    unfolding dots_above_bottom line_dots
    count_loop-dots zero row total h = unfold count_loop in ap some (omega arith)
    count_loop-dots (suc rounds) row total h =
        let n = line_dots r row in
        let l : line_loop coordinate coor_width row (r.to.x - r.from.x) r.from.x 0 ≡ some n =
          line_loop-dots row (r.to.x - r.from.x) r.from.x 0 (line_fits row (omega arith))
          ∙ ap some (omega arith) in
        let full = is_bottom-full r.from.x r.to.x n ordered in
        let rest = count_loop-dots rounds (row + 1) (total + n) (omega arith) in
        elim (Bool-cases (is_bottom r.from.x r.to.x n)) [
          | inl b ↦ count_stop r rounds row total n l b ∙ rw (sym full ∙ b) (ap some (omega arith))
          | inr b ↦
              count_on r rounds row total n l b ∙ rest ∙ rw (sym full ∙ b) (ap some (omega arith))
        ]

    -- The count of an area within the picture.
    pub count_dot-dots :
        (coor_height : ℕ)
        → r.from.y ≤ coor_height
        → coor_height * coor_width ≤ length coordinate
        → count_dot_start_with_range r coordinate coor_width coor_height
          ≡ some (dots_above_bottom r (coor_height - r.from.y) r.from.y)
    unfolding count_dot_start_with_range
    count_dot-dots coor_height top h =
        let e : r.from.y + (coor_height - r.from.y) ≡ coor_height = omega arith in
        count_loop-dots (coor_height - r.from.y) r.from.y 0 (rw e h) ∙ ap some (omega arith)
