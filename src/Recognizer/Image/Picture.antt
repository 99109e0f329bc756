-- ===== src/Recognizer/Image/Picture.antt =====
-- The points that `_make_standard_coordinate` makes of a picture, as one list.
use mathlib.Core.Option.{some-injective}
use native.Mathlib.Nat.{mod-lt, div-add-mod', mul-le-mul_right}
use native.Mathlib.Decide.{dec_lt}
use c_workspace.Common.{
  ℕ, zero, suc, ◌+◌, ◌*◌, ◌/◌, ◌%◌, ◌≤◌, ◌<◌, ◌≡◌, refl, sym, ap, ◌∙◌, some, List, [], ◌∷◌, arith,
  length, get_elem?,
}
use c_workspace.Recognizer.Image.{Point, make_standard_coordinate}
use c_workspace.Recognizer.Image.Coordinate.{pixel, make_standard_coordinate_lem}

module _ {ℓ} {A : Type ℓ} where
  abbrev pub tabulate : ℕ → (ℕ → A) → List A
  tabulate zero f = []
  tabulate (suc n) f = f 0 ∷ tabulate n (λ i. f (suc i))

  pub length-tabulate : (n : ℕ) (f : ℕ → A) → length (tabulate n f) ≡ n
  length-tabulate zero f = refl
  length-tabulate (suc n) f = ap suc (length-tabulate n (λ i. f (suc i)))

  pub same_elements :
      (xs : List A) (n : ℕ) (f : ℕ → A)
      → length xs ≡ n
      → ((i : ℕ) → i < n → get_elem? xs i ≡ some (f i))
      → xs ≡ tabulate n f
  same_elements [] zero f e h = refl
  same_elements [] (suc n) f e h = absurd (omega arith)
  same_elements (x ∷ xs) zero f e h = absurd (omega arith)
  same_elements (x ∷ xs) (suc n) f e h =
      let e' : length xs ≡ n = omega arith in
      ap (λ y. y ∷ xs) (some-injective x (f 0) (h 0 (omega arith)))
      ∙ ap (λ l. f 0 ∷ l) (same_elements xs n (λ j. f (suc j)) e' (λ j l. h (suc j) (omega arith)))

-- The points of a picture of rows of `w` pixels.
abbrev pub image : List ℕ → ℕ → ℕ → List Point
image arr w h = tabulate (h * w) (λ i. pixel arr w (i / w) (i % w))

pub place : (w h i : ℕ) → i < h * w → (i / w < h) × (i % w < w) × (i / w * w + i % w ≡ i)
place zero h i l = absurd (omega arith)
place (suc w) h i l = elim (dec_lt (i / suc w) h) [
  | yes p ↦ (p, mod-lt i (omega arith), div-add-mod' i (suc w))
  | no p ↦
      let m : h * suc w ≤ i / suc w * suc w = mul-le-mul_right (suc w) (omega arith) in
      absurd (omega (arith, m, div-add-mod' i (suc w)))
]

-- `_make_standard_coordinate` gives the points of the picture.
pub make_standard_coordinate-image :
    (arr : List ℕ) (w h : ℕ) (memory : List Point)
    → length arr ≡ h * (w * 3)
    → length memory ≡ h * w
    → make_standard_coordinate arr w h memory ≡ some (image arr w h)
make_standard_coordinate-image arr w h memory full size =
    let (co, e, f) = make_standard_coordinate_lem arr w h memory full size in
    e
    ∙ ap some (
        same_elements co (h * w) (λ i. pixel arr w (i / w) (i % w)) f.0
          (λ i l.
            let p = place w h i l in ap (get_elem? co) (sym p.2) ∙ f.1 (i / w) (i % w) p.0 p.1))
