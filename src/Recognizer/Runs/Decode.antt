-- ===== src/Recognizer/Runs/Decode.antt =====
-- The runs of a row give back its colours, and neighbours differ.
use c_workspace.Common.{
  ℕ, ◌+◌, ◌≡◌, ◌≢◌, refl, ap, ◌∙◌, ◌==◌, Bool-cases, inl, inr, List, [], ◌∷◌, ◌++◌, arith,
  replicate, replicate-append,
}
use mathlib.Core.List.{map}
use c_workspace.Recognizer.Image.{Point}
use c_workspace.Recognizer.Runs.{ColorSeqUnit}
use c_workspace.Recognizer.Runs.Encoding.{unit, runs_from, runs, runs_from-same, runs_from-other}

-- The colours that runs stand for.
unfoldable pub decode : List ColorSeqUnit → List ℕ
decode [] = []
decode (u ∷ us) = replicate u.count u.end_p.c ++ decode us

abbrev pub Alternates : List ColorSeqUnit → Type 0
Alternates [] = Unit
Alternates (u ∷ []) = Unit
Alternates (u ∷ v ∷ us) = (u.end_p.c ≢ v.end_p.c) × Alternates (v ∷ us)

decode-runs_from :
    (row : List Point) (last_p : Point) (count : ℕ)
    → decode (runs_from last_p count row) ≡ replicate count last_p.c ++ map (λ (p : Point). p.c) row
unfolding decode
decode-runs_from [] last_p count = unfold runs_from in refl
decode-runs_from (p ∷ row) last_p count = elim (Bool-cases (p.c == last_p.c)) [
  | inl e ↦
      let e' : p.c ≡ last_p.c = ground arith in
      rw (runs_from-same p last_p count row e) (
        decode-runs_from row p (count + 1)
        ∙ rw e' (replicate-append count last_p.c (map (λ (p : Point). p.c) row)))
  | inr e ↦
      rw (runs_from-other p last_p count row e)
        (ap (λ l. replicate count last_p.c ++ l) (decode-runs_from row p 1))
]

-- The encoding loses no colour of a row.
pub decode-runs : (row : List Point) → decode (runs row) ≡ map (λ (p : Point). p.c) row
unfolding decode
decode-runs [] = refl
decode-runs (p ∷ row) = decode-runs_from row p 1

-- The first run of a row has the colour of the points read.
pub first_color :
    (row : List Point) (last_p : Point) (count : ℕ)
    → (u : ColorSeqUnit) × (us : List ColorSeqUnit) × (runs_from last_p count row ≡ u ∷ us)
      × (u.end_p.c ≡ last_p.c)
first_color [] last_p count = unfold runs_from in (unit count last_p, [], refl, refl)
first_color (p ∷ row) last_p count = elim (Bool-cases (p.c == last_p.c)) [
  | inl e ↦
      let (u, us, f, h) = first_color row p (count + 1) in
      (u, us, runs_from-same p last_p count row e ∙ f, ground arith)
  | inr e ↦ (unit count last_p, runs_from p 1 row, runs_from-other p last_p count row e, refl)
]

runs_from-Alternates :
    (row : List Point) (last_p : Point) (count : ℕ) → Alternates (runs_from last_p count row)
runs_from-Alternates [] last_p count = unfold runs_from in tt
runs_from-Alternates (p ∷ row) last_p count = elim (Bool-cases (p.c == last_p.c)) [
  | inl e ↦ rw (runs_from-same p last_p count row e) (runs_from-Alternates row p (count + 1))
  | inr e ↦
      let (u, us, f, h) = first_color row p 1 in
      rw (runs_from-other p last_p count row e, f)
        ((ground arith, rw f at (runs_from-Alternates row p 1)))
]

-- Two runs side by side differ in colour, so that each is as long as it can be.
pub runs-Alternates : (row : List Point) → Alternates (runs row)
runs-Alternates [] = tt
runs-Alternates (p ∷ row) = runs_from-Alternates row p 1
