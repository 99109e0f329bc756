-- ===== src/Stub/Templates/Fill.antt =====
-- `replaceAll` for one mark of a template after the other, as in cpp/scripts/gene-gtest-stub.cpp.
use c_workspace.Common.{
  ℕ, ◌≤◌, ◌<◌, ◌≡◌, refl, sym, ap, ◌∙◌, ◌==◌, true, false, Bool-cases, inl, inr, if◌then◌else◌,
  some, List, [], ◌∷◌, ◌++◌, append_assoc, arith, length, All, ==_iff,
}
use c_workspace.Utils.Text.{Text, replace_all}
use c_workspace.Utils.Text.Template.{
  is_free, is_free-append, fill, fill-appends, replace_all-fill_glued,
}
use c_workspace.Stub.Templates.{fill_marks}

-- The texts between the places of the mark `k`.
abbrev texts : ℕ → (ℕ → Text) → Text → List (ℕ × Text) → Text × List Text
texts k at first [] = (first, [])
texts k at first ((j, next) ∷ rest) =
    let r = texts k at next rest in
    if j == k then (first, r.0 ∷ r.1) else (first ++ (at j ++ r.0), r.1)

fill_marks-fill :
    (k : ℕ) (at at' : ℕ → Text) (first : Text) (rest : List (ℕ × Text))
    → ((j : ℕ) → (j == k) ≡ false → at' j ≡ at j)
    → fill_marks at' first rest ≡ fill (at' k) (texts k at first rest).0 (texts k at first rest).1
fill_marks-fill k at at' first [] h = refl
fill_marks-fill k at at' first ((j, next) ∷ rest) h =
    let r = texts k at next rest in
    let later = fill_marks-fill k at at' next rest h in
    elim (Bool-cases (j == k)) [
      | inl here ↦
          let e : j ≡ k = (==_iff j k).0 here in
          rw here (
            ap (λ t. first ++ (at' j ++ t)) later
            ∙ ap (λ i. first ++ (at' i ++ fill (at' k) r.0 r.1)) e)
      | inr other ↦ rw other (
          ap (λ t. first ++ (at' j ++ t)) later
          ∙ ap (λ t. first ++ (t ++ fill (at' k) r.0 r.1)) (h j other)
          ∙ sym (fill-appends (at' k) first (at j) r.0 r.1))
    ]

length-texts :
    (k : ℕ) (at : ℕ → Text) (first : Text) (rest : List (ℕ × Text))
    → length (texts k at first rest).1 ≤ length rest
length-texts k at first [] = omega arith
length-texts k at first ((j, next) ∷ rest) = elim (Bool-cases (j == k)) [
  | inl here ↦ rw here (omega (arith, length-texts k at next rest))
  | inr other ↦ rw other (omega (arith, length-texts k at next rest))
]

-- A mark neither stands nor begins behind the places of the marks, with what is put there.
abbrev pub Glued : Text → (ℕ → Text) → List (ℕ × Text) → Type 0
Glued m at rest = All (λ r. is_free m (at r.0 ++ r.1) ≡ true) rest

texts-free :
    (m : Text) (k : ℕ) (at at' : ℕ → Text) (a first : Text) (rest : List (ℕ × Text))
    → ((j : ℕ) → (j == k) ≡ false → at' j ≡ at j)
    → is_free m (a ++ first) ≡ true
    → Glued m at' rest
    → (is_free m (a ++ (texts k at first rest).0) ≡ true)
      × All (λ s. is_free m (at' k ++ s) ≡ true) (texts k at first rest).1
texts-free m k at at' a first [] h f g = (f, tt)
texts-free m k at at' a first ((j, next) ∷ rest) h f g =
    let r = texts k at next rest in
    let later = texts-free m k at at' (at' j) next rest h g.0 g.1 in
    elim (Bool-cases (j == k)) [
      | inl here ↦
          rw here
            (f, (ap (λ i. is_free m (at' i ++ r.0)) (sym ((==_iff j k).0 here)) ∙ later.0, later.1))
      | inr other ↦ rw other (
        ap (is_free m) (sym (append_assoc a first (at j ++ r.0)))
            ∙ is_free-append m (a ++ first) (at j ++ r.0) f
                (ap (λ t. is_free m (t ++ r.0)) (sym (h j other)) ∙ later.0),
        later.1,
      )
    ]

-- One mark is replaced everywhere.
pub fill_mark :
    (fuel x : ℕ) (p : Text) (k : ℕ) (at at' : ℕ → Text) (first : Text) (rest : List (ℕ × Text))
    → at k ≡ x ∷ p
    → ((j : ℕ) → (j == k) ≡ false → at' j ≡ at j)
    → is_free (x ∷ p) first ≡ true
    → Glued (x ∷ p) at' rest
    → length rest < fuel
    → replace_all fuel (fill_marks at first rest) (x ∷ p) (at' k)
      ≡ some (false, fill_marks at' first rest)
fill_mark fuel x p k at at' first rest e h f g l =
    let t = texts k at first rest in
    let free = texts-free (x ∷ p) k at at' [] first rest h f g in
    let before : fill_marks at first rest ≡ fill (x ∷ p) t.0 t.1 =
      fill_marks-fill k at at first rest (λ j o. refl) ∙ ap (λ m. fill m t.0 t.1) e in
    ap (λ s. replace_all fuel s (x ∷ p) (at' k)) before
    ∙ replace_all-fill_glued fuel x p (at' k) t.0 t.1 free.0 free.1
        (omega (arith, length-texts k at first rest))
    ∙ ap (λ s. some (false, s)) (sym (fill_marks-fill k at at' first rest h))
