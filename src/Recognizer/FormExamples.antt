-- ===== src/Recognizer/FormExamples.antt =====
-- A small form for c/pic-recognizer/demo.c, 20 pixels wide and 9 high.
use c_workspace.Common.{
  ℕ, ◌+◌, ◌*◌, ◌/◌, if◌then◌else◌, Bool, true, false, ◌==◌, leb, ◌&&◌, List, [], ◌∷◌, ◌++◌, length,
  replicate,
}
use c_workspace.Recognizer.Image.{Point}
use c_workspace.Recognizer.Runs.{ColorSeqUnit}
use c_workspace.Recognizer.Runs.Encoding.{unit, runs}
use c_workspace.Recognizer.Runs.Visible.{dark}
use c_workspace.Recognizer.Main.{Bmp, Memory}

-- Light and dark pixels, of three bytes each.
abbrev light : ℕ → List ℕ
light n = replicate (3 * n) 255

abbrev shade : ℕ → List ℕ
shade n = replicate (3 * n) 0

abbrev frame_row : List ℕ
frame_row =
    light 1
    ++ (shade 3
        ++ (light 1
            ++ (shade 3
                ++ (light 1 ++ (shade 3 ++ (light 1 ++ (shade 3 ++ (light 1 ++ shade 3))))))))

abbrev other_row : List ℕ
other_row =
    light 2
    ++ (shade 3
        ++ (light 1
            ++ (shade 3
                ++ (light 1 ++ (shade 3 ++ (light 1 ++ (shade 3 ++ (light 1 ++ shade 2))))))))

-- Five rows of the frame, one of five dark runs elsewhere, and three light rows.
abbrev form : Bmp
form = record {
  width = 20;
  height = 9;
  rgb_data =
      frame_row
      ++ (frame_row ++ (frame_row ++ (frame_row ++ (frame_row ++ (other_row ++ light 60)))));
}

abbrev origin : Point
origin = record { x = 0; y = 0; c = 0 }

abbrev memory : Memory
memory = record {
  points = λ n. replicate n origin;
  ranges = λ n. replicate n (record { from = origin; to = origin });
  units = λ k n. replicate n (unit k origin);
}

-- Tests of what a row must be.
abbrev is_paired : List ColorSeqUnit → Bool
is_paired [] = true
is_paired (u ∷ []) = false
is_paired (u ∷ v ∷ us) = is_paired us

module _ (n width : ℕ) where
  abbrev is_legible : List Point → Bool
  is_legible [] = false
  is_legible (p ∷ row) =
      p.c == 0
      && (leb (length (runs (p ∷ row))) (n / 2 + 1)
          && (if width == dark (runs (p ∷ row)) then is_paired (runs (p ∷ row)) else true))

  abbrev are_legible : List (List Point) → Bool
  are_legible [] = true
  are_legible (row ∷ rows) = is_legible row && are_legible rows
