-- ===== src/Recognizer/Main/Boxes.antt =====
-- The boxes that c/pic-recognizer finds are inside the picture.
use mathlib.Core.List.{map}
use c_workspace.Common.{
  ℕ, zero, suc, ◌+◌, ◌≤◌, ◌<◌, ◌≡◌, refl, sym, ap, subst, ◌∙◌, ◌==◌, ==_iff, Bool-cases, inl, inr,
  List, [], ◌∷◌, ◌++◌, arith, length, take, All,
}
use c_workspace.Recognizer.Image.{Point, Range}
use c_workspace.Recognizer.Image.Coordinate.{pixel}
use c_workspace.Recognizer.Image.Picture.{tabulate, image}
use c_workspace.Recognizer.Runs.{ColorSeqUnit}
use c_workspace.Recognizer.Runs.Encoding.{runs, runs_from, runs_from-same, runs_from-other}
use c_workspace.Recognizer.Runs.Visible.{dark}
use c_workspace.Recognizer.Lines.{Context}
use c_workspace.Recognizer.Lines.Pairs.{pairs}
use c_workspace.Recognizer.Lines.Rises.{Climbs, runs_from-Climbs}
use c_workspace.Recognizer.Lines.Rows.{length-pairs}
use c_workspace.Recognizer.Lines.Picture.{rows, line_ranges, IsClean}
use c_workspace.Recognizer.Areas.Tops.{neighbours}
use c_workspace.Recognizer.Areas.Form.{corners}
use c_workspace.Recognizer.Main.Rows.{image_row}
use c_workspace.Recognizer.Results.{IsInside}

module _ (P : Point → Type 0) where
  runs_from-All :
      (row : List Point) (last_p : Point) (count : ℕ)
      → P last_p
      → All P row
      → All (λ u. P u.end_p) (runs_from last_p count row)
  unfolding runs_from
  runs_from-All [] last_p count p h = (p, tt)
  runs_from-All (q ∷ row) last_p count p h = elim (Bool-cases (q.c == last_p.c)) [
    | inl e ↦ rw (runs_from-same q last_p count row e) (runs_from-All row q (count + 1) h.0 h.1)
    | inr e ↦ rw (runs_from-other q last_p count row e) (p, runs_from-All row q 1 h.0 h.1)
  ]

  All-tabulate_below : (n : ℕ) (f : ℕ → Point) → ((i : ℕ) → i < n → P (f i)) → All P (tabulate n f)
  All-tabulate_below zero f h = tt
  All-tabulate_below (suc n) f h =
      (h 0 (omega arith), All-tabulate_below n (λ i. f (suc i)) (λ i l. h (suc i) (omega arith)))

module _ (w h : ℕ) where
  -- A point of the picture.
  abbrev IsPoint : Point → Type 0
  IsPoint p = (p.x ≤ w) × (p.y ≤ h)

  pairs-Inside :
      (us : List ColorSeqUnit) (low : ℕ)
      → Climbs low us
      → All (λ u. IsPoint u.end_p) us
      → All (IsInside w h) (neighbours (map (λ (r : Range). r.from) (pairs us)))
  pairs-Inside [] low c i = tt
  pairs-Inside (u ∷ []) low c i = tt
  pairs-Inside (u ∷ v ∷ []) low c i = tt
  pairs-Inside (u ∷ v ∷ u2 ∷ []) low c i = tt
  pairs-Inside (u ∷ v ∷ u2 ∷ v2 ∷ us) low c i = (
    (i.1.1.0.0, omega (arith, c.1.0, c.1.1.0), i.0.1),
    pairs-Inside (u2 ∷ v2 ∷ us) (suc v.end_p.x) c.1.1 i.1.1,
  )

  take_whole : (n : ℕ) (xs ys : List Range) → length xs ≡ n → take n (xs ++ ys) ≡ xs
  take_whole zero [] ys e = refl
  take_whole zero (x ∷ xs) ys e = absurd (omega arith)
  take_whole (suc n) [] ys e = absurd (omega arith)
  take_whole (suc n) (x ∷ xs) ys e = ap (λ l. x ∷ l) (take_whole n xs ys (omega arith))

  pub lines-Inside :
      (n : ℕ) (rs : List (List Point))
      → All (IsClean n 5) rs
      → All (λ r. All IsPoint r) rs
      → All (IsInside w h) (neighbours (corners (line_ranges 5 rs) 5))
  lines-Inside n [] c i = tt
  lines-Inside n ([] ∷ rs) c i = absurd c.0
  lines-Inside n ((p ∷ row) ∷ rs) c i =
      let us = runs (p ∷ row) in
      let ctx : Context = record { width = 5; height = 0; ranges = []; offset = 0; calls = 0 } in
      elim (Bool-cases (5 == dark us)) [
        | inl e ↦
            let lp : length (pairs us) ≡ 5 =
              length-pairs (λ k m. []) p row n ctx c.0.0 c.0.1 ∙ sym ((==_iff 5 (dark us)).0 e) in
            let front = take_whole 5 (pairs us) (line_ranges 5 rs) lp in
            rw e (
              subst (λ l. All (IsInside w h) (neighbours (map (λ (r : Range). r.from) l)))
                (sym front)
                (pairs-Inside us p.x (runs_from-Climbs row p 1 c.0.2)
                  (runs_from-All IsPoint row p 1 i.0.0 i.0.1)))
        | inr e ↦ rw e (lines-Inside n rs c.1 i.1)
      ]

-- The points of the rows of a picture.
pub rows-IsPoint :
    (arr : List ℕ) (w h rounds row : ℕ)
    → row + rounds ≤ h
    → All (λ r. All (λ (p : Point). (p.x ≤ w) × (p.y ≤ h)) r) (rows (image arr w h) w rounds row)
rows-IsPoint arr w h zero row l = tt
rows-IsPoint arr w h (suc rounds) row l =
    let e = image_row arr w h row (omega arith) in
    (
      subst (All (IsPoint w h)) (sym e) (
          All-tabulate_below (IsPoint w h) w (pixel arr w row) (λ i k. (omega arith, omega arith))),
      rows-IsPoint arr w h rounds (row + 1) (omega arith),
    )
