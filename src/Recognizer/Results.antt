-- ===== src/Recognizer/Results.antt =====
-- What the steps of c/pic-recognizer/demo.c compute.
use c_workspace.Common.{
  ℕ, ◌+◌, ◌-◌, ◌*◌, ◌/◌, ◌≤◌, ◌<◌, ◌≡◌, refl, ap, ◌∙◌, some, none, List, [], ◌∷◌, ◌++◌, arith,
  length, get_elem?, drop, overlay-drop, All, Returns,
}
use mathlib.Core.List.{map}
use c_workspace.Recognizer.Image.{Point, Range, make_standard_coordinate}
use c_workspace.Recognizer.Image.Coordinate.{pixel, make_standard_coordinate_lem}
use c_workspace.Recognizer.Runs.{ColorSeqUnit, get_bw_continuous_seq_of_row}
use c_workspace.Recognizer.Runs.Encoding.{runs, runs_from_pos, get_bw_continuous_seq_of_row_lem}
use c_workspace.Recognizer.Runs.Decode.{decode, decode-runs, Alternates, runs-Alternates}
use c_workspace.Recognizer.Lines.{Context, row_processor}
use c_workspace.Recognizer.Lines.Rows.{last_index, row_processor_overflow}
use c_workspace.Recognizer.Marks.{scan_to_count_area_with_most_dot}
use c_workspace.Recognizer.Marks.Count.{dots_above_bottom, count_dot-dots}
use c_workspace.Recognizer.Marks.Most.{IsFirstMax, CountsAre, scan-IsFirstMax}

-- On a picture of `h` rows of `w` pixels and memory for as many points, `_make_standard_coordinate`
-- stays in range, and sets the point of the row `r` and the column `c` from its pixel, whatever the
-- memory held.
pub coordinate_of_pixel :
    (arr : List ℕ) (w h : ℕ) (memory : List Point)
    → length arr ≡ h * (w * 3)
    → length memory ≡ h * w
    → (r c : ℕ) → r < h
    → c < w
    → Returns (make_standard_coordinate arr w h memory) (λ coordinate.
      (length coordinate ≡ h * w) × (get_elem? coordinate (r * w + c) ≡ some (pixel arr w r c)))
coordinate_of_pixel arr w h memory full size r c hr hc =
    let (co, e, f) = make_standard_coordinate_lem arr w h memory full size in
    (co, e, (f.0, f.1 r c hr hc))

-- Where the runs of a row fit into the memory, `_get_bw_continuous_seq_of_row` writes units to its
-- start, returns the index of the last, and leaves what is behind. The units give back the colours of
-- the row, and two neighbours differ in colour.
pub encoding_lossless :
    (p : Point) (row : List Point) (memory : List ColorSeqUnit)
    → length (runs (p ∷ row)) ≤ length memory
    → Returns (get_bw_continuous_seq_of_row (p ∷ row) memory) (λ o.
      (us : List ColorSeqUnit) × (length us ≡ o.0 + 1)
      × (o.1 ≡ us ++ drop (length us) memory)
      × (decode us ≡ map (λ (q : Point). q.c) (p ∷ row))
      × Alternates us)
encoding_lossless p row memory h =
    let us = runs (p ∷ row) in
    let (k, e) = last_index us (runs_from_pos p 1 row) in
    (
      (k, us ++ drop (length us) memory),
      (get_bw_continuous_seq_of_row_lem p row memory).0 h k e
          ∙ ap (λ l. some (k, l)) (overlay-drop us memory h),
      (us, e, refl, decode-runs (p ∷ row), runs-Alternates (p ∷ row)),
    )

-- Where `malloc` gives the `n / 2 + 1` units that `rowProcessor` asks for and no more, a row of more
-- runs makes it write out of range.
pub row_overflows :
    (fresh : ℕ → ℕ → List ColorSeqUnit) (p : Point) (row : List Point) (n : ℕ) (ctx : Context)
    → length (fresh ctx.calls (n / 2 + 1)) ≡ n / 2 + 1
    → n / 2 + 1 < length (runs (p ∷ row))
    → row_processor fresh (p ∷ row) n ctx ≡ none
row_overflows fresh p row n ctx e h = row_processor_overflow fresh p row n ctx (omega arith)

-- The area lies in a picture of `h` rows of `w` points.
abbrev pub IsInside : ℕ → ℕ → Range → Type 0
IsInside w h r = (r.to.x ≤ w) × (r.from.x ≤ r.to.x) × (r.from.y ≤ h)

-- The dots of an area above its bottom line.
abbrev pub area_dots : List Point → ℕ → ℕ → Range → ℕ
area_dots coordinate w h r = dots_above_bottom coordinate w r (h - r.from.y) r.from.y

counts :
    (coordinate : List Point) (w h : ℕ) (areas : List Range)
    → h * w ≤ length coordinate
    → All (IsInside w h) areas
    → CountsAre coordinate w h areas (map (area_dots coordinate w h) areas)
counts coordinate w h [] full inside = tt
counts coordinate w h (r ∷ areas) full inside = (
  count_dot-dots coordinate w r inside.0.0 inside.0.1 h inside.0.2 full,
  counts coordinate w h areas full inside.1,
)

-- On areas within the picture, `_scan_to_count_area_with_most_dot` stays in range, and returns the
-- index of the first area that has the most dots above its bottom line.
pub marked_area :
    (coordinate : List Point) (w h : ℕ) (r : Range) (areas : List Range)
    → h * w ≤ length coordinate
    → All (IsInside w h) (r ∷ areas)
    → Returns
        (scan_to_count_area_with_most_dot (r ∷ areas) coordinate w h)
        (IsFirstMax (map (area_dots coordinate w h) (r ∷ areas)))
marked_area coordinate w h r areas full inside =
    scan-IsFirstMax coordinate w h r areas (area_dots coordinate w h r)
      (map (area_dots coordinate w h) areas) (counts coordinate w h (r ∷ areas) full inside)
