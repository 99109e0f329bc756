-- ===== src/Recognizer/Main/Rows.antt =====
-- The rows of a picture, as c/pic-recognizer reads them.
use c_workspace.Common.{
  ℕ, zero, suc, ◌+◌, ◌*◌, ◌/◌, ◌%◌, ◌≤◌, ◌<◌, ◌≡◌, ◌⊎◌, ◌==◌, true, refl, sym, ap, subst, ◌∙◌, ltb,
  Bool-cases, inl, inr, some, List, [], ◌∷◌, arith, length, get_elem?, drop, take, length-drop, All,
}
use c_workspace.Recognizer.Image.{Point, dot, blank, color, to_hex}
use c_workspace.Recognizer.Image.Coordinate.{pixel, index_injective}
use c_workspace.Recognizer.Image.Picture.{tabulate, length-tabulate, same_elements, image, place}
use c_workspace.Recognizer.Runs.Encoding.{runs}
use c_workspace.Recognizer.Lines.Pairs.{IsPaired}
use c_workspace.Recognizer.Runs.Visible.{dark}
use c_workspace.Recognizer.Lines.Rises.{Rises, IsColored}
use c_workspace.Recognizer.Lines.Picture.{rows, IsClean}

get_elem?-tabulate :
    (n : ℕ) (f : ℕ → Point) (i : ℕ) → i < n → get_elem? (tabulate n f) i ≡ some (f i)
get_elem?-tabulate zero f i h = absurd (omega arith)
get_elem?-tabulate (suc n) f zero h = refl
get_elem?-tabulate (suc n) f (suc i) h = get_elem?-tabulate n (λ j. f (suc j)) i (omega arith)

get_elem?-take : (n i : ℕ) (xs : List Point) → i < n → get_elem? (take n xs) i ≡ get_elem? xs i
get_elem?-take zero i xs h = absurd (omega arith)
get_elem?-take (suc n) i [] h = refl
get_elem?-take (suc n) zero (x ∷ xs) h = refl
get_elem?-take (suc n) (suc i) (x ∷ xs) h = get_elem?-take n i xs (omega arith)

get_elem?-drop : (n i : ℕ) (xs : List Point) → get_elem? (drop n xs) i ≡ get_elem? xs (n + i)
get_elem?-drop zero i xs = let e : 0 + i ≡ i = omega arith in ap (get_elem? xs) (sym e)
get_elem?-drop (suc n) i [] = refl
get_elem?-drop (suc n) i (x ∷ xs) =
    (let e : suc n + i ≡ suc (n + i) = omega arith in
      get_elem?-drop n i xs ∙ ap (get_elem? (x ∷ xs)) (sym e))

length-take : (n : ℕ) (xs : List Point) → n ≤ length xs → length (take n xs) ≡ n
length-take zero xs h = refl
length-take (suc n) [] h = absurd (omega arith)
length-take (suc n) (x ∷ xs) h = ap suc (length-take n xs (omega arith))

module _ (arr : List ℕ) (w h : ℕ) where
  -- A row of the picture.
  pub image_row :
      (row : ℕ) → row < h → take w (drop (row * w) (image arr w h)) ≡ tabulate w (pixel arr w row)
  image_row row l =
      let size = length-tabulate (h * w) (λ i. pixel arr w (i / w) (i % w)) in
      let fits : row * w + w ≤ h * w = grind arith in
      same_elements (take w (drop (row * w) (image arr w h))) w (pixel arr w row)
        (length-take w (drop (row * w) (image arr w h))
          (omega (arith, length-drop (row * w) (image arr w h), size)))
        (λ c k.
          let p = place w h (row * w + c) (omega arith) in
          let (e, f) = index_injective w ((row * w + c) / w) ((row * w + c) % w) row c p.1 k p.2 in
          get_elem?-take w c (drop (row * w) (image arr w h)) k
          ∙ get_elem?-drop (row * w) c (image arr w h)
          ∙ get_elem?-tabulate (h * w) (λ i. pixel arr w (i / w) (i % w)) (row * w + c)
              (omega arith)
          ∙ ap some (λ i. pixel arr w (e i) (f i)))

-- What may still fail in a row of pixels: it begins blank, its runs are at most as many as `rowProcessor` has
-- memory for, and it ends dark where it has `width` dark runs.
abbrev pub IsLegible : ℕ → ℕ → List Point → Type 0
IsLegible n width [] = ⊥
IsLegible n width (p ∷ row) =
    (p.c ≡ blank)
    × (length (runs (p ∷ row)) ≤ n / 2 + 1)
    × ((width == dark (runs (p ∷ row))) ≡ true → IsPaired (runs (p ∷ row)))

All-tabulate :
    (P : Point → Type 0) (n : ℕ) (f : ℕ → Point) → ((i : ℕ) → P (f i)) → All P (tabulate n f)
All-tabulate P zero f h = tt
All-tabulate P (suc n) f h = (h 0, All-tabulate P n (λ i. f (suc i)) (λ i. h (suc i)))

tabulate-Rises :
    (n : ℕ) (f : ℕ → Point) → ((i : ℕ) → (f i).x < (f (suc i)).x) → Rises (tabulate n f)
tabulate-Rises zero f h = tt
tabulate-Rises (suc zero) f h = tt
tabulate-Rises (suc (suc n)) f h = (h 0, tabulate-Rises (suc n) (λ i. f (suc i)) (λ i. h (suc i)))

color_two : (r g b : ℕ) → (color r g b ≡ dot) ⊎ (color r g b ≡ blank)
unfolding color
color_two r g b = elim (Bool-cases (ltb 0xaaaaaa (to_hex r g b))) [
  | inl e ↦ inr (rw e refl)
  | inr e ↦ inl (rw e refl)
]

legible-IsClean :
    (n width : ℕ) (row : List Point)
    → All IsColored row
    → Rises row
    → IsLegible n width row
    → IsClean n width row
legible-IsClean n width [] c r h = h
legible-IsClean n width (p ∷ row) c r h = (h.0, c, r, h.1, h.2)

-- The legible rows of a picture are clean.
pub rows-IsClean :
    (arr : List ℕ) (w h width rounds row : ℕ)
    → row + rounds ≤ h
    → All (IsLegible w width) (rows (image arr w h) w rounds row)
    → All (IsClean w width) (rows (image arr w h) w rounds row)
rows-IsClean arr w h width zero row l v = tt
rows-IsClean arr w h width (suc rounds) row l v =
    let e = image_row arr w h row (omega arith) in
    let here = take w (drop (row * w) (image arr w h)) in
    (
      legible-IsClean w width here
          (subst (All IsColored) (sym e)
            (All-tabulate IsColored w (pixel arr w row) (λ i. color_two _ _ _)))
          (subst Rises (sym e) (tabulate-Rises w (pixel arr w row) (λ i. omega arith))) v.0,
      rows-IsClean arr w h width rounds (row + 1) (omega arith) v.1,
    )
