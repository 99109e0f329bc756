-- ===== src/Recognizer/Examples.antt =====
-- Runs of c/pic-recognizer/demo.c on small pictures.
use c_workspace.Common.{
  ℕ, ◌+◌, ◌*◌, ◌≡◌, refl, some, none, List, [], ◌∷◌, ◌++◌, arith, length, get_elem?, drop, take,
  replicate, Returns, true,
}
use mathlib.Core.List.{map}
use c_workspace.Recognizer.Image.{Point, Range, make_standard_coordinate}
use c_workspace.Recognizer.Image.Coordinate.{pixel}
use c_workspace.Recognizer.Runs.{ColorSeqUnit, get_bw_continuous_seq_of_row, is_col_line_row}
use c_workspace.Recognizer.Runs.Encoding.{unit, runs_from}
use c_workspace.Recognizer.Runs.Decode.{decode, Alternates}
use c_workspace.Recognizer.Runs.Visible.{is_col_line_row_lem}
use c_workspace.Recognizer.Lines.{Context, row_processor}
use c_workspace.Recognizer.Areas.{tops_loop}
use c_workspace.Recognizer.Areas.Tops.{bold_tops, tops_loop-bold}
use c_workspace.Recognizer.Marks.{scan_to_count_area_with_most_dot}
use c_workspace.Recognizer.Marks.Most.{IsFirstMax}
use c_workspace.Recognizer.Results.{
  coordinate_of_pixel, encoding_lossless, row_overflows, area_dots, marked_area,
}

abbrev at_xyc : ℕ → ℕ → ℕ → Point
at_xyc x y c = record { x = x; y = y; c = c }

abbrev origin : Point
origin = at_xyc 0 0 0

-- Memory that is all zero.
abbrev zeroed : ℕ → List ColorSeqUnit
zeroed n = replicate n (unit 0 origin)

-- Memory that holds another unit at each call.
abbrev stale : ℕ → ℕ → List ColorSeqUnit
stale k n = replicate n (unit k (at_xyc k k 1))

-- Two rows of four points: one dark run at the end of the first.
abbrev picture : List Point
picture =
    at_xyc 0 0 0
    ∷ at_xyc 1 0 1
    ∷ at_xyc 2 0 1
    ∷ at_xyc 3 0 1
    ∷ at_xyc 0 1 0
    ∷ at_xyc 1 1 0
    ∷ at_xyc 2 1 0
    ∷ at_xyc 3 1 0
    ∷ []

abbrev first_row : List Point
first_row = take 4 picture

coordinate_of_pixel_example :
    Returns
      (make_standard_coordinate (255 ∷ 255 ∷ 255 ∷ 0 ∷ 0 ∷ 0 ∷ []) 2 1 (origin ∷ origin ∷ []))
      (λ coordinate.
        (length coordinate ≡ 2)
        × (get_elem? coordinate (0 * 2 + 1)
            ≡ some (pixel (255 ∷ 255 ∷ 255 ∷ 0 ∷ 0 ∷ 0 ∷ []) 2 0 1)))
coordinate_of_pixel_example =
    coordinate_of_pixel (255 ∷ 255 ∷ 255 ∷ 0 ∷ 0 ∷ 0 ∷ []) 2 1 (origin ∷ origin ∷ []) refl refl 0 1
      (omega arith) (omega arith)

encoding_lossless_example : Returns (get_bw_continuous_seq_of_row first_row (zeroed 3)) (λ o.
    (us : List ColorSeqUnit) × (length us ≡ o.0 + 1)
    × (o.1 ≡ us ++ drop (length us) (zeroed 3))
    × (decode us ≡ 0 ∷ 1 ∷ 1 ∷ 1 ∷ [])
    × Alternates us)
encoding_lossless_example =
    encoding_lossless (at_xyc 0 0 0) (at_xyc 1 0 1 ∷ at_xyc 2 0 1 ∷ at_xyc 3 0 1 ∷ []) (zeroed 3)
      (unfold runs_from in omega arith)

is_col_line_row_lem_example :
    is_col_line_row (unit 1 origin ∷ unit 3 (at_xyc 3 0 1) ∷ zeroed 1) 1 1 ≡ some true
is_col_line_row_lem_example =
    is_col_line_row_lem (unit 1 origin ∷ unit 3 (at_xyc 3 0 1) ∷ []) (zeroed 1) 1 1 refl

abbrev one_line : Context
one_line = record {
  width = 1;
  height = 0;
  ranges = replicate 2 (record { from = origin; to = origin });
  offset = 0;
  calls = 0;
}

-- Four runs in a row of four points, and memory for three.
row_overflows_example :
    row_processor stale (at_xyc 0 0 0 ∷ at_xyc 1 0 1 ∷ at_xyc 2 0 0 ∷ at_xyc 3 0 1 ∷ []) 4 one_line
    ≡ none
unfolding runs_from
row_overflows_example =
    row_overflows stale (at_xyc 0 0 0) (at_xyc 1 0 1 ∷ at_xyc 2 0 0 ∷ at_xyc 3 0 1 ∷ []) 4 one_line
      refl (omega arith)

-- Two lines of one bold column and one thin column.
abbrev columns : List Range
columns =
    record { from = at_xyc 0 0 0; to = at_xyc 4 0 1 }
    ∷ record { from = at_xyc 6 0 0; to = at_xyc 7 0 1 }
    ∷ record { from = at_xyc 0 1 0; to = at_xyc 4 1 1 }
    ∷ record { from = at_xyc 6 1 0; to = at_xyc 7 1 1 }
    ∷ []

tops_loop-bold_example :
    tops_loop columns 2 2 2 0 (record { count = 1; most = 5 }) []
    ≡ some ([] ++ bold_tops (take 2 (drop 0 columns)))
tops_loop-bold_example =
    tops_loop-bold columns 2 2 (omega arith) (omega arith) 2 0 (record { count = 1; most = 5 }) []
      (omega arith) (omega arith)

-- Two bold columns, of which the first goes on for five lines and then stands elsewhere; the second is taken
-- as well.
abbrev bar : ℕ → ℕ → Range
bar x y = record { from = at_xyc x y 0; to = at_xyc (x + 4) y 1 }

abbrev bars : List Range
bars =
    bar 0 0
    ∷ bar 6 0
    ∷ bar 0 1
    ∷ bar 6 1
    ∷ bar 0 2
    ∷ bar 6 2
    ∷ bar 0 3
    ∷ bar 6 3
    ∷ bar 0 4
    ∷ bar 6 4
    ∷ bar 1 5
    ∷ bar 6 5
    ∷ []

-- The left half and the right half of the picture.
abbrev halves : List Range
halves =
    record { from = at_xyc 0 0 0; to = at_xyc 2 0 0 }
    ∷ record { from = at_xyc 2 0 0; to = at_xyc 4 0 0 }
    ∷ []

marked_area_example :
    Returns
      (scan_to_count_area_with_most_dot halves picture 4 2)
      (IsFirstMax (map (area_dots picture 4 2) halves))
marked_area_example =
    marked_area picture 4 2 (record { from = at_xyc 0 0 0; to = at_xyc 2 0 0 })
      (record { from = at_xyc 2 0 0; to = at_xyc 4 0 0 } ∷ []) (omega arith)
      ((omega arith, omega arith, omega arith), ((omega arith, omega arith, omega arith), tt))
