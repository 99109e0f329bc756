-- ===== src/Recognizer/Lines/Rises.antt =====
-- The pairs of the runs of a row of points with growing columns.
use c_workspace.Common.{
  ℕ, suc, ◌+◌, ◌≤◌, ◌<◌, ◌≡◌, ◌⊎◌, false, ◌==◌, Bool-cases, inl, inr, List, [], ◌∷◌, arith, length,
  All,
}
use c_workspace.Recognizer.Image.{Point, dot, blank}
use c_workspace.Recognizer.Runs.{ColorSeqUnit}
use c_workspace.Recognizer.Runs.Encoding.{runs_from, runs_from-same, runs_from-other}
use c_workspace.Recognizer.Runs.Decode.{Alternates}
use c_workspace.Recognizer.Runs.Visible.{dark}
use c_workspace.Recognizer.Lines.{skipped}
use c_workspace.Recognizer.Lines.Pairs.{range_of, pairs}

-- The columns of a row grow.
abbrev pub Rises : List Point → Type 0
Rises [] = Unit
Rises (p ∷ []) = Unit
Rises (p ∷ q ∷ row) = (p.x < q.x) × Rises (q ∷ row)

-- The runs end at growing columns, each behind `low`.
abbrev pub Climbs : ℕ → List ColorSeqUnit → Type 0
Climbs low [] = Unit
Climbs low (u ∷ us) = (low ≤ u.end_p.x) × Climbs (suc u.end_p.x) us

Climbs-le : (us : List ColorSeqUnit) (low low' : ℕ) → low' ≤ low → Climbs low us → Climbs low' us
Climbs-le [] low low' h c = tt
Climbs-le (u ∷ us) low low' h c = (omega (arith, c.0), c.1)

pub runs_from-Climbs :
    (row : List Point) (last_p : Point) (count : ℕ)
    → Rises (last_p ∷ row)
    → Climbs last_p.x (runs_from last_p count row)
runs_from-Climbs [] last_p count h = unfold runs_from in (omega arith, tt)
runs_from-Climbs (p ∷ row) last_p count h = elim (Bool-cases (p.c == last_p.c)) [
  | inl e ↦
      rw (runs_from-same p last_p count row e)
        (Climbs-le _ p.x last_p.x (omega (arith, h.0)) (runs_from-Climbs row p (count + 1) h.1))
  | inr e ↦ rw (runs_from-other p last_p count row e) (
      (
        omega arith,
        Climbs-le _ p.x (suc last_p.x) (omega (arith, h.0)) (runs_from-Climbs row p 1 h.1),
      ))
]

kept : (u v : ColorSeqUnit) → u.end_p.x < v.end_p.x → skipped (range_of u v) ≡ false
unfolding skipped
kept u v h = ground arith

-- None of their pairs is skipped.
pub Climbs-kept :
    (us : List ColorSeqUnit) (low : ℕ) → Climbs low us → All (λ r. skipped r ≡ false) (pairs us)
Climbs-kept [] low c = tt
Climbs-kept (u ∷ []) low c = tt
Climbs-kept (u ∷ v ∷ us) low c =
    (kept u v (omega (arith, c.1.0)), Climbs-kept us (suc v.end_p.x) c.1.1)

-- Every run is dark or blank.
abbrev pub TwoColors : List ColorSeqUnit → Type 0
TwoColors us = All (λ u. (u.end_p.c ≡ dot) ⊎ (u.end_p.c ≡ blank)) us

-- Of a blank run and the runs behind it, each pair has one dark run.
pub pairs-dark :
    (u : ColorSeqUnit) (us : List ColorSeqUnit)
    → u.end_p.c ≡ blank
    → Alternates (u ∷ us)
    → TwoColors (u ∷ us)
    → length (pairs (u ∷ us)) ≡ dark (u ∷ us)
pairs-dark u [] e a t = ground arith
pairs-dark u (v ∷ []) e a t = ground (arith, a.0, t.1.0)
pairs-dark u (v ∷ w ∷ us) e a t =
    ground (arith, a.0, t.1.0, a.1.0, t.1.1.0, pairs-dark w us, a.1.1, t.1.1)

abbrev pub IsColored : Point → Type 0
IsColored p = (p.c ≡ dot) ⊎ (p.c ≡ blank)

pub runs_from-TwoColors :
    (row : List Point) (last_p : Point) (count : ℕ)
    → All IsColored (last_p ∷ row)
    → TwoColors (runs_from last_p count row)
runs_from-TwoColors [] last_p count t = unfold runs_from in (t.0, tt)
runs_from-TwoColors (p ∷ row) last_p count t = elim (Bool-cases (p.c == last_p.c)) [
  | inl e ↦ rw (runs_from-same p last_p count row e) (runs_from-TwoColors row p (count + 1) t.1)
  | inr e ↦ rw (runs_from-other p last_p count row e) ((t.0, runs_from-TwoColors row p 1 t.1))
]
