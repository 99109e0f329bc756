-- ===== src/Recognizer/Runs/Visible.antt =====
-- `_is_col_line_row` counts the dark runs.
use c_workspace.Common.{
  ℕ, zero, suc, ◌+◌, ◌≡◌, refl, ap, sym, ◌∙◌, ◌==◌, if◌then◌else◌, some, List, [], ◌∷◌, ◌++◌, arith,
  length, append_assoc, length-append, get_elem?-append,
}
use c_workspace.Recognizer.Image.{dot}
use c_workspace.Recognizer.Runs.{ColorSeqUnit, visible_loop, is_col_line_row}

-- How many of the runs are dark.
abbrev pub dark : List ColorSeqUnit → ℕ
dark [] = 0
dark (u ∷ us) = (if u.end_p.c == dot then 1 else 0) + dark us

visible_loop-dark :
    (us before rest : List ColorSeqUnit) (n i visible : ℕ)
    → i ≡ length before
    → n ≡ length us
    → visible_loop (before ++ (us ++ rest)) n i visible ≡ some (visible + dark us)
unfolding visible_loop
visible_loop-dark [] before rest zero i visible e f = ap some (omega arith)
visible_loop-dark [] before rest (suc n) i visible e f = absurd (omega arith)
visible_loop-dark (u ∷ us) before rest zero i visible e f = absurd (omega arith)
visible_loop-dark (u ∷ us) before rest (suc n) i visible e f =
    rw (get_elem?-append before u (us ++ rest) i e) (
      (rw (append_assoc before (u ∷ []) (us ++ rest)) at (
        visible_loop-dark us (before ++ (u ∷ [])) rest n (i + 1)
          (if u.end_p.c == dot then visible + 1 else visible)
          (omega (arith, length-append before (u ∷ []))) (omega arith)))
      ∙ ap some (ground arith))

-- On memory that starts with the runs `us`, of which `seq_len` is the last index, the function says
-- whether `wanted` of them are dark, whatever stands behind them.
pub is_col_line_row_lem :
    (us rest : List ColorSeqUnit) (seq_len wanted : ℕ)
    → length us ≡ seq_len + 1
    → is_col_line_row (us ++ rest) seq_len wanted ≡ some (wanted == dark us)
unfolding is_col_line_row
is_col_line_row_lem us rest seq_len wanted e =
    rw (visible_loop-dark us [] rest (seq_len + 1) 0 0 refl (sym e))
      (let e' : 0 + dark us ≡ dark us = omega arith in rw e' refl)
