-- ===== src/Recognizer/Main.antt =====
-- c/pic-recognizer/demo.c: the program, after the file is loaded.
pub mod Form
pub mod Rows
pub mod Boxes
use c_workspace.Common.{ℕ, ◌+◌, ◌*◌, ◌/◌, Option, ◌>>=◌, List}
use c_workspace.Recognizer.Image.{Point, Range, make_standard_coordinate, process_by_row}
use c_workspace.Recognizer.Runs.{ColorSeqUnit}
use c_workspace.Recognizer.Lines.{row_processor}
use c_workspace.Recognizer.Areas.{try_to_get_answer_area_range}
use c_workspace.Recognizer.Marks.{scan_to_count_area_with_most_dot}

-- What `bmpread` leaves in `bmpread_t`.
pub record Bmp : Type 0 where
  pub width : ℕ
  pub height : ℕ
  pub rgb_data : List ℕ

-- What `malloc` gives for a number of items, whatever it holds; for the units of a row, at each call.
pub record Memory : Type 0 where
  pub points : ℕ → List Point
  pub ranges : ℕ → List Range
  pub units : ℕ → ℕ → List ColorSeqUnit

-- `main` from the loaded picture to `markedAreaIndex`.
unfoldable pub recognize : Memory → Bmp → Option ℕ
unfolding make_standard_coordinate process_by_row row_processor try_to_get_answer_area_range
    scan_to_count_area_with_most_dot
recognize memory bmp = do
  coordinate ←
      make_standard_coordinate bmp.rgb_data bmp.width bmp.height
        (memory.points (bmp.width * bmp.height))
  ctx ←
      process_by_row coordinate bmp.width bmp.height 0
        (λ row. row_processor memory.units row bmp.width)
        (record {
          width = 5;
          height = 0;
          ranges = memory.ranges (5 * (bmp.height * 2 / 3));
          offset = 0;
          calls = 0;
        })
  areas ← try_to_get_answer_area_range ctx.ranges ctx.width ctx.height (memory.ranges 4)
  scan_to_count_area_with_most_dot areas coordinate bmp.width bmp.height

-- The letter that `_print_result` prints.
unfoldable pub printed : ℕ → ℕ
printed area_index = area_index + 65
