-- ===== src/Stub/Templates/Each.antt =====
-- `replaceAll` for each mark of a template of cpp/scripts/gene-gtest-stub.cpp.
use c_workspace.Common.{
  ℕ, zero, suc, ◌<◌, ◌≡◌, refl, sym, ap, ◌∙◌, ◌==◌, ltb, Bool, true, false, ◌&&◌, Bool-cases, inl,
  inr, if◌then◌else◌, some, ◌>>=◌, List, [], ◌∷◌, ◌++◌, arith, length, All,
}
use c_workspace.Utils.Text.{Text, replace_all}
use c_workspace.Utils.Text.Template.{is_free, is_free-append}
use c_workspace.Stub.Templates.{Template, fill_marks, nth, filled, replace_each, instantiate}
use c_workspace.Stub.Templates.Fill.{Glued, fill_mark}

-- The marks below `i` have their values.
abbrev stage : List Text → List Text → ℕ → ℕ → Text
stage marks values i j = if ltb j i then nth values j else nth marks j

stage_other :
    (marks values : List Text) (i j : ℕ)
    → (j == i) ≡ false
    → stage marks values (suc i) j ≡ stage marks values i j
stage_other marks values i j h = ground arith

stage_here : (marks values : List Text) (i : ℕ) → stage marks values i i ≡ nth marks i
stage_here marks values i = ground arith

stage_new : (marks values : List Text) (i : ℕ) → stage marks values (suc i) i ≡ nth values i
stage_new marks values i = ground arith

fill_marks-congr :
    (at at' : ℕ → Text) (first : Text) (rest : List (ℕ × Text))
    → All (λ r. at r.0 ≡ at' r.0) rest
    → fill_marks at first rest ≡ fill_marks at' first rest
fill_marks-congr at at' first [] h = refl
fill_marks-congr at at' first (r ∷ rest) h =
    λ i. first ++ (h.0 i ++ fill_marks-congr at at' r.1 rest h.1 i)

-- Where a mark has its value, or is still itself, nothing behind it makes the mark `m`.
abbrev glued_below : Text → List Text → ℕ → List (ℕ × Text) → Bool
glued_below m marks i [] = true
glued_below m marks i ((j, next) ∷ rest) =
    (if ltb j i then true else is_free m (nth marks j ++ next)) && glued_below m marks i rest

-- What a template has to be: no mark is empty, and none stands in its texts, or begins there and goes on
-- in them or in a later mark.
abbrev checks : Text → List (ℕ × Text) → List Text → ℕ → List Text → Bool
checks first rest marks i [] = true
checks first rest marks i ([] ∷ later) = false
checks first rest marks i ((x ∷ p) ∷ later) =
    is_free (x ∷ p) first
    && glued_below (x ∷ p) marks (suc i) rest
    && checks first rest marks (suc i) later

abbrev all_below : ℕ → List (ℕ × Text) → Bool
all_below n [] = true
all_below n ((j, next) ∷ rest) = ltb j n && all_below n rest

abbrev pub is_template : Template → Bool
is_template t = all_below (length t.marks) t.rest && checks t.first t.rest t.marks 0 t.marks

stage-Glued :
    (m : Text) (marks values : List Text) (i : ℕ) (rest : List (ℕ × Text))
    → glued_below m marks i rest ≡ true
    → Glued m (nth values) rest
    → Glued m (stage marks values i) rest
stage-Glued m marks values i [] h g = tt
stage-Glued m marks values i ((j, next) ∷ rest) h g = elim (Bool-cases (ltb j i)) [
  | inl done ↦ (rw done g.0, stage-Glued m marks values i rest (ground arith) g.1)
  | inr open' ↦ (rw open' (ground arith), stage-Glued m marks values i rest (ground arith) g.1)
]

-- The rest of a list, from the index `i` on.
abbrev Behind : List Text → ℕ → List Text → Type 0
Behind all i [] = i ≡ length all
Behind all i (x ∷ later) = (nth all i ≡ x) × Behind all (suc i) later

Behind-lt :
    (all : List Text) (i : ℕ) (m : Text) (later : List Text)
    → Behind all i (m ∷ later)
    → i < length all
Behind-lt all i m [] b = omega (arith, b.1)
Behind-lt all i m (m' ∷ later) b = omega (arith, Behind-lt all (suc i) m' later b.1)

nth-past : (xs : List Text) (i : ℕ) → Behind xs i [] → nth xs i ≡ []
nth-past [] i b = refl
nth-past (x ∷ xs) zero b = absurd (omega arith)
nth-past (x ∷ xs) (suc i) b = nth-past xs i (omega arith)

Behind-suc :
    (x : Text) (xs : List Text) (i : ℕ) (later : List Text)
    → Behind xs i later
    → Behind (x ∷ xs) (suc i) later
Behind-suc x xs i [] b = omega arith
Behind-suc x xs i (y ∷ later) b = (b.0, Behind-suc x xs (suc i) later b.1)

Behind-all : (xs : List Text) → Behind xs 0 xs
Behind-all [] = refl
Behind-all (x ∷ xs) = (refl, Behind-suc x xs 0 xs (Behind-all xs))

module _ (fuel : ℕ) (first : Text) (rest : List (ℕ × Text)) (marks values : List Text) where
  replace_each-stages :
      length values ≡ length marks
      → length rest < fuel
      → (i : ℕ) (ms vs : List Text) → Behind marks i ms
      → Behind values i vs
      → checks first rest marks i ms ≡ true
      → All (λ m. Glued m (nth values) rest) ms
      → replace_each fuel (fill_marks (stage marks values i) first rest) ms vs
        ≡ some (fill_marks (stage marks values (length marks)) first rest)
  unfolding replace_each
  replace_each-stages k l i [] vs b d c g =
      ap (λ j. some (fill_marks (stage marks values j) first rest)) b
  replace_each-stages k l i (m ∷ ms) [] b d c g =
      absurd (omega (arith, Behind-lt marks i m ms b, d, k))
  replace_each-stages k l i ([] ∷ ms) (v ∷ vs) b d c g = absurd (ground arith)
  replace_each-stages k l i ((x ∷ p) ∷ ms) (v ∷ vs) b d c g =
      let here = stage marks values i in
      let next = stage marks values (suc i) in
      let step : replace_all fuel (fill_marks here first rest) (x ∷ p) v
          ≡ some (false, fill_marks next first rest) =
        ap (λ u. replace_all fuel (fill_marks here first rest) (x ∷ p) u)
          (sym (stage_new marks values i ∙ d.0))
        ∙ fill_mark fuel x p i here next first rest (stage_here marks values i ∙ b.0)
            (λ j o. stage_other marks values i j o) (ground arith)
            (stage-Glued (x ∷ p) marks values (suc i) rest (ground arith) g.0) l in
      rw (step, ◌>>=◌) (replace_each-stages k l (suc i) ms vs b.1 d.1 (ground arith) g.1)

stage_all :
    (marks values : List Text) (n : ℕ) (rest : List (ℕ × Text))
    → all_below n rest ≡ true
    → All (λ r. stage marks values n r.0 ≡ nth values r.0) rest
stage_all marks values n [] h = tt
stage_all marks values n ((j, next) ∷ rest) h =
    (ground arith, stage_all marks values n rest (ground arith))

stage_none :
    (marks values : List Text) (rest : List (ℕ × Text))
    → All (λ r. nth marks r.0 ≡ stage marks values 0 r.0) rest
stage_none marks values [] = tt
stage_none marks values ((j, next) ∷ rest) = (ground arith, stage_none marks values rest)

-- A copy of a template has each value at the places of its mark.
pub instantiate_lem :
    (fuel : ℕ) (t : Template) (values : List Text)
    → is_template t ≡ true
    → length values ≡ length t.marks
    → length t.rest < fuel
    → All (λ m. Glued m (nth values) t.rest) t.marks
    → instantiate fuel t values ≡ some (filled t values)
unfolding instantiate
instantiate_lem fuel t values h k l g =
    ap (λ s. replace_each fuel s t.marks values)
      (fill_marks-congr (nth t.marks) (stage t.marks values 0) t.first t.rest
        (stage_none t.marks values t.rest))
    ∙ replace_each-stages fuel t.first t.rest t.marks values k l 0 t.marks values
        (Behind-all t.marks) (Behind-all values) (ground arith) g
    ∙ ap some (
        fill_marks-congr (stage t.marks values (length t.marks)) (nth values) t.first t.rest
          (stage_all t.marks values (length t.marks) t.rest (ground arith)))

-- No mark stands in the texts behind the places of the marks, or begins there.
abbrev pub rest_free : Text → List (ℕ × Text) → Bool
rest_free m [] = true
rest_free m ((j, next) ∷ rest) = is_free m next && rest_free m rest

nth-free :
    (m : Text) (values : List Text) (j : ℕ) (next : Text)
    → All (λ v. is_free m v ≡ true) values
    → is_free m next ≡ true
    → is_free m (nth values j ++ next) ≡ true
nth-free m [] j next a h = h
nth-free m (v ∷ values) zero next a h = is_free-append m v next a.0 h
nth-free m (v ∷ values) (suc j) next a h = nth-free m values j next a.1 h

-- So it is with values that are free of the mark.
pub free-Glued :
    (m : Text) (values : List Text) (rest : List (ℕ × Text))
    → All (λ v. is_free m v ≡ true) values
    → rest_free m rest ≡ true
    → Glued m (nth values) rest
free-Glued m values [] a h = tt
free-Glued m values ((j, next) ∷ rest) a h =
    (nth-free m values j next a (ground arith), free-Glued m values rest a (ground arith))
