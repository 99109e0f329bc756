-- ===== src/Recognizer/Lines.antt =====
-- c/pic-recognizer/demo.c: the ranges of the dark runs of each row that can cut the answer boxes.
pub mod Pairs
pub mod Rises
pub mod Rows
pub mod Picture
use c_workspace.Common.{
  ℕ, zero, suc, ◌+◌, ◌/◌, Bool, true, false, ◌==◌, ltb, ◌&&◌, ◌||◌, Option, some, ◌>>=◌, List,
  get_elem?, write,
}
use c_workspace.Recognizer.Image.{Point, Range}
use c_workspace.Recognizer.Runs.{ColorSeqUnit, get_bw_continuous_seq_of_row, is_col_line_row}

-- The tests before the two `continue`s: the end is not set, or stands before the start.
unfoldable pub skipped : Range → Bool
skipped r = (r.to.x == 0 && r.to.y == 0) || ltb r.to.x r.from.x

-- The loop of `_locate_col_line_coord_range`, with `rounds` pairs left: `rangeCount` and the memory
-- at `data`.
unfoldable pub locate_loop :
    List ColorSeqUnit → ℕ → ℕ → ℕ → ℕ → List Range → Option (ℕ × List Range)
locate_loop seq offset zero i range_count ranges = some (range_count, ranges)
locate_loop seq offset (suc rounds) i range_count ranges = do
  u1 ← get_elem? seq i
  u2 ← get_elem? seq (i + 1)
  let range : Range = record { from = u1.end_p; to = u2.end_p }
  elim (skipped range) [
    | true ↦ locate_loop seq offset rounds (i + 2) range_count ranges
    | false ↦ do
      ranges' ← write ranges (offset + range_count) range
      locate_loop seq offset rounds (i + 2) (range_count + 1) ranges'
  ]

-- `_locate_col_line_coord_range`: the static `offset` after it, and the memory.
unfoldable pub locate_col_line_coord_range :
    List ColorSeqUnit → ℕ → ℕ → List Range → Option (ℕ × List Range)
unfolding locate_loop
locate_col_line_coord_range seq seq_len offset ranges = do
  (range_count, ranges') ← locate_loop seq offset (seq_len / 2 + 1) 0 0 ranges
  some (offset + range_count, ranges')

-- `Context`, with the static `offset`, and the number of calls of `rowProcessor` so far.
pub record Context : Type 0 where
  pub width : ℕ
  pub height : ℕ
  pub ranges : List Range
  pub offset : ℕ
  pub calls : ℕ

-- `rowProcessor`. `fresh k n` is what `malloc` gives for `n` units at the call `k`, whatever it holds.
unfoldable pub row_processor :
    (ℕ → ℕ → List ColorSeqUnit) → List Point → ℕ → Context → Option Context
unfolding get_bw_continuous_seq_of_row is_col_line_row locate_col_line_coord_range
row_processor fresh row length ctx = do
  (seq_len, seq) ← get_bw_continuous_seq_of_row row (fresh ctx.calls (length / 2 + 1))
  is_line ← is_col_line_row seq seq_len ctx.width
  elim is_line [
    | true ↦ do
      (offset, ranges) ← locate_col_line_coord_range seq seq_len ctx.offset ctx.ranges
      some (record ctx {
        ranges = ranges;
        offset = offset;
        height = ctx.height + 1;
        calls = ctx.calls + 1;
      })
    | false ↦ some (record ctx { calls = ctx.calls + 1 })
  ]
