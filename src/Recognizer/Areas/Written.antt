-- ===== src/Recognizer/Areas/Written.antt =====
-- `_try_to_get_answer_area_range`: the columns it takes.
use c_workspace.Common.{
  ℕ, zero, suc, ◌+◌, ◌-◌, ◌*◌, ◌≡◌, max, Bool, true, false, leb, ◌==◌, ◌&&◌, if◌then◌else◌, none,
  some, List, [], ◌∷◌, ◌++◌, get_elem?,
}
use c_workspace.Recognizer.Image.{Point, Range}
use c_workspace.Recognizer.Areas.{Counters}
use c_workspace.Recognizer.Areas.Tops.{is_bold}

abbrev pub gap : ℕ → ℕ → ℕ
gap a b = (a - b) + (b - a)

-- The range `row` lines below `top` stands straight below it and is as wide.
abbrev pub stands_below : Range → ℕ → Range → Bool
stands_below top row r =
    r.from.x == top.from.x
    && gap r.from.x r.to.x == gap top.from.x top.to.x
    && r.from.y == top.from.y + row

-- The longest bar, of lines that stand below each other, that an other line ends, where `count` lines stand
-- already.
abbrev pub longest_ended : ℕ → List Bool → ℕ
longest_ended count [] = 0
longest_ended count (true ∷ below) = longest_ended (count + 1) below
longest_ended count (false ∷ below) = max count (longest_ended 1 below)

module _ (ranges : List Range) (width : ℕ) where
  -- Which lines of a column, `rounds` of them from `row` on, stand below its top.
  abbrev pub lines_below : ℕ → Range → ℕ → ℕ → List Bool
  lines_below col top zero row = []
  lines_below col top (suc rounds) row =
      (elim (get_elem? ranges (row * width + col)) [
        | none ↦ false
        | some r ↦ stands_below top row r
      ])
      ∷ lines_below col top rounds (row + 1)

  -- The left ends of the columns that are taken, `rounds` of them from `col` on: the bold ones, once five
  -- lines of a bold column have stood below each other before another. What was `seen` in the bold columns
  -- before counts too.
  abbrev pub taken : ℕ → List Bool → ℕ → ℕ → List Point
  taken height seen zero col = []
  taken height seen (suc rounds) col = elim (get_elem? ranges col) [
    | none ↦ []
    | some top ↦
        let seen' = seen ++ lines_below col top (height - 1) 1 in
        let next = taken height seen' rounds (col + 1) in
        let rest = taken height seen rounds (col + 1) in
        if is_bold top
        then (if leb 5 (longest_ended 1 seen') then top.from ∷ next else next)
        else rest
  ]

  -- The counters are as the lines that were seen say.
  abbrev Counts : Counters → List Bool → Type 0
  Counts k seen =
      (more : List Bool) → longest_ended 1 (seen ++ more) ≡ max k.most (longest_ended k.count more)
