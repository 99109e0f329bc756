-- ===== src/Recognizer/Runs.antt =====
-- c/pic-recognizer/demo.c: a row as a sequence of runs of one colour.
pub mod Encoding
pub mod Decode
pub mod Visible
use c_workspace.Common.{
  ℕ, zero, suc, ◌+◌, Bool, true, false, ◌==◌, if◌then◌else◌, Option, none, some, ◌>>=◌, List, [],
  ◌∷◌, get_elem?, write,
}
use c_workspace.Recognizer.Image.{Point, dot}

-- A run of `count` points of one colour that ends with `end_p`.
pub record ColorSeqUnit : Type 0 where
  pub count : ℕ
  pub end_p : Point

-- The loop of `_get_bw_continuous_seq_of_row` over the points left: the last point, the count of the
-- current unit, `seqIndex`, and the memory at `continuousDotSeq`.
unfoldable pub continuous_loop :
    List Point → Point → ℕ → ℕ → List ColorSeqUnit → Option (ℕ × List ColorSeqUnit)
continuous_loop [] last_p count seq_index seq = some (seq_index, seq)
continuous_loop (curr_p ∷ row) last_p count seq_index seq = elim (curr_p.c == last_p.c) [
  | true ↦ do
    seq' ← write seq seq_index (record { count = count + 1; end_p = curr_p })
    continuous_loop row curr_p (count + 1) seq_index seq'
  | false ↦ do
    seq' ← write seq (seq_index + 1) (record { count = 1; end_p = curr_p })
    continuous_loop row curr_p 1 (seq_index + 1) seq'
]

-- `_get_bw_continuous_seq_of_row`: the greatest index written, and the memory.
unfoldable pub get_bw_continuous_seq_of_row :
    List Point → List ColorSeqUnit → Option (ℕ × List ColorSeqUnit)
unfolding continuous_loop
get_bw_continuous_seq_of_row [] seq = none
get_bw_continuous_seq_of_row (p ∷ row) seq = do
  seq' ← write seq 0 (record { count = 1; end_p = p })
  continuous_loop row p 1 0 seq'

-- The loop of `_is_col_line_row`, with `rounds` units left.
unfoldable pub visible_loop : List ColorSeqUnit → ℕ → ℕ → ℕ → Option ℕ
visible_loop seq zero i visible = some visible
visible_loop seq (suc rounds) i visible = do
  u ← get_elem? seq i
  visible_loop seq rounds (i + 1) (if u.end_p.c == dot then visible + 1 else visible)

-- `_is_col_line_row`
unfoldable pub is_col_line_row : List ColorSeqUnit → ℕ → ℕ → Option Bool
unfolding visible_loop
is_col_line_row seq seq_len should_have_column_line_count = do
  visible ← visible_loop seq (seq_len + 1) 0 0
  some (should_have_column_line_count == visible)
