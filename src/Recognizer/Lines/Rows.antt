-- ===== src/Recognizer/Lines/Rows.antt =====
-- `rowProcessor` on a row that begins blank.
use c_workspace.Common.{
  ℕ, ◌+◌, ◌/◌, ◌≤◌, ◌<◌, ◌≡◌, ◌≢◌, refl, ap, sym, subst, ◌∙◌, false, ◌==◌, some, none, List, [],
  ◌∷◌, ◌++◌, arith, length, All, overlay-drop, drop,
}
use c_workspace.Recognizer.Image.{Point, blank}
use c_workspace.Recognizer.Runs.{ColorSeqUnit, get_bw_continuous_seq_of_row}
use c_workspace.Recognizer.Runs.Encoding.{runs, runs_from_pos, get_bw_continuous_seq_of_row_lem}
use c_workspace.Recognizer.Runs.Decode.{runs-Alternates, first_color}
use c_workspace.Recognizer.Runs.Visible.{dark, is_col_line_row_lem}
use c_workspace.Recognizer.Lines.{Context, row_processor}
use c_workspace.Recognizer.Lines.Pairs.{pairs}
use c_workspace.Recognizer.Lines.Rises.{Rises, IsColored, pairs-dark, runs_from-TwoColors}

pub last_index : (xs : List ColorSeqUnit) → 1 ≤ length xs → (k : ℕ) × (length xs ≡ k + 1)
last_index [] h = absurd (omega arith)
last_index (x ∷ xs) h = (length xs, omega arith)

module _ (fresh : ℕ → ℕ → List ColorSeqUnit) (p : Point) (row : List Point) (n : ℕ)
    (ctx : Context) where
  abbrev us : List ColorSeqUnit
  us = runs (p ∷ row)

  abbrev buffer : List ColorSeqUnit
  buffer = fresh ctx.calls (n / 2 + 1)

  module _ (fits : length us ≤ length buffer) (k : ℕ) (ek : length us ≡ k + 1) where
    seq_of_row :
        get_bw_continuous_seq_of_row (p ∷ row) buffer ≡ some (k, us ++ drop (length us) buffer)
    seq_of_row =
        (get_bw_continuous_seq_of_row_lem p row buffer).0 fits k ek
        ∙ ap (λ l. some (k, l)) (overlay-drop us buffer fits)

    row_of_other :
        (ctx.width == dark us) ≡ false
        → row_processor fresh (p ∷ row) n ctx ≡ some (record ctx { calls = ctx.calls + 1 })
    unfolding row_processor
    row_of_other e =
        rw (seq_of_row, is_col_line_row_lem us (drop (length us) buffer) k ctx.width ek, e) refl

  pub length-pairs : p.c ≡ blank → All IsColored (p ∷ row) → length (pairs us) ≡ dark us
  length-pairs b c =
      let (u, vs, e, h) = first_color row p 1 in
      subst (λ l. length (pairs l) ≡ dark l) (sym e)
        (pairs-dark u vs (h ∙ b) (rw e at (runs-Alternates (p ∷ row)))
          (rw e at (runs_from-TwoColors row p 1 c)))

  -- `rowProcessor` changes nothing, but for the number of its calls, on a row whose runs fit into the buffer and of which not `width` are
  -- dark.
  pub row_processor_other :
      length us ≤ length buffer
      → ctx.width ≢ dark us
      → row_processor fresh (p ∷ row) n ctx ≡ some (record ctx { calls = ctx.calls + 1 })
  row_processor_other fits ne =
      let (k, ek) = last_index us (runs_from_pos p 1 row) in row_of_other fits k ek (ground arith)

  pub row_processor_overflow :
      length buffer < length us → row_processor fresh (p ∷ row) n ctx ≡ none
  unfolding row_processor
  row_processor_overflow h = rw ((get_bw_continuous_seq_of_row_lem p row buffer).1 h) refl
