-- ===== src/Recognizer/Main/Form.antt =====
-- What the program of c/pic-recognizer answers for the picture of a form.
use c_workspace.Common.{ℕ, ◌*◌, ◌/◌, ◌≤◌, ◌≡◌, List, length, All}
use c_workspace.Recognizer.Image.{Point, Range}
use c_workspace.Recognizer.Image.Picture.{image}
use c_workspace.Recognizer.Lines.Picture.{rows, line_count, line_ranges}
use c_workspace.Recognizer.Areas.Tops.{neighbours}
use c_workspace.Recognizer.Areas.Form.{IsForm, corners}
use c_workspace.Recognizer.Main.Rows.{IsLegible}
use c_workspace.Recognizer.Main.{Bmp, Memory}

-- The range from the left end of a line to that of another.
abbrev box : Range → Range → Range
box p q = record { from = p.from; to = q.from }

module _ (memory : Memory) (bmp : Bmp) where
  -- The points of the picture, and its lines.
  abbrev pub coordinate : List Point
  coordinate = image bmp.rgb_data bmp.width bmp.height

  abbrev pub rows_of : List (List Point)
  rows_of = rows coordinate bmp.width bmp.height 0

  abbrev pub lines : List Range
  lines = line_ranges 5 rows_of

  -- The four boxes between the five lines.
  abbrev pub boxes : List Range
  boxes = neighbours (corners lines 5)

  -- A picture of a form: as large as it says, of legible rows, of which those with five dark runs
  -- show the frame of the boxes; and memory as large as is asked for, with room for all lines.
  pub record IsReadable : Type 0 where
    pub pixels : length bmp.rgb_data ≡ bmp.height * (bmp.width * 3)
    pub point_memory : length (memory.points (bmp.width * bmp.height)) ≡ bmp.height * bmp.width
    pub legible : All (IsLegible bmp.width 5) rows_of
    pub unit_memory : (k m : ℕ) → length (memory.units k m) ≡ m
    pub range_memory : line_count 5 rows_of * 5 ≤ length (memory.ranges (5 * (bmp.height * 2 / 3)))
    pub area_memory : length (memory.ranges 4) ≡ 4
    pub form : IsForm lines 5 (line_count 5 rows_of)
