-- ===== src/Stub/Templates/Dollar.antt =====
-- Texts without "$", which is the first byte of many marks in cpp/scripts/gene-gtest-stub.cpp.
use c_workspace.Common.{
  ℕ, zero, suc, ◌≡◌, ◌==◌, Bool, true, false, ◌&&◌, Bool-cases, inl, inr, if◌then◌else◌, List, [],
  ◌∷◌, ◌++◌, arith, All, All-append, All-imp,
}
use c_workspace.Utils.Text.{Text}
use c_workspace.Utils.Text.Template.{is_free_of_first}
use c_workspace.Stub.Templates.{Template, nth, fill_marks, filled}
use c_workspace.Stub.Templates.Fill.{Glued}
use c_workspace.Stub.Templates.Each.{rest_free, free-Glued}

abbrev pub NoDollar : Text → Type 0
NoDollar = All (λ c. (36 == c) ≡ false)

abbrev pub has_no_dollar : Text → Bool
has_no_dollar [] = true
has_no_dollar (c ∷ s) = if 36 == c then false else has_no_dollar s

pub has_no_dollar-NoDollar : (s : Text) → has_no_dollar s ≡ true → NoDollar s
has_no_dollar-NoDollar [] h = tt
has_no_dollar-NoDollar (c ∷ s) h = elim (Bool-cases (36 == c)) [
  | inl dollar ↦ absurd (ground arith)
  | inr other ↦ (other, has_no_dollar-NoDollar s (ground arith))
]

abbrev rest_no_dollar : List (ℕ × Text) → Bool
rest_no_dollar [] = true
rest_no_dollar ((j, next) ∷ rest) = has_no_dollar next && rest_no_dollar rest

-- But for its marks.
abbrev pub template_no_dollar : Template → Bool
template_no_dollar t = has_no_dollar t.first && rest_no_dollar t.rest

-- A mark that begins with "$" does not arise from values without one.
pub NoDollar-Glued :
    (p : Text) (values : List Text) (rest : List (ℕ × Text))
    → All NoDollar values
    → rest_free (36 ∷ p) rest ≡ true
    → Glued (36 ∷ p) (nth values) rest
NoDollar-Glued p values rest a h =
    free-Glued (36 ∷ p) values rest (All-imp (λ v f. is_free_of_first 36 p v f) values a) h

nth-NoDollar : (values : List Text) (j : ℕ) → All NoDollar values → NoDollar (nth values j)
nth-NoDollar [] j a = tt
nth-NoDollar (v ∷ values) zero a = a.0
nth-NoDollar (v ∷ values) (suc j) a = nth-NoDollar values j a.1

fill_marks-NoDollar :
    (values : List Text) (first : Text) (rest : List (ℕ × Text))
    → All NoDollar values
    → has_no_dollar first ≡ true
    → rest_no_dollar rest ≡ true
    → NoDollar (fill_marks (nth values) first rest)
fill_marks-NoDollar values first [] a h k = has_no_dollar-NoDollar first h
fill_marks-NoDollar values first ((j, next) ∷ rest) a h k =
    All-append (λ c. (36 == c) ≡ false) first (nth values j ++ fill_marks (nth values) next rest)
      (has_no_dollar-NoDollar first h)
      (All-append (λ c. (36 == c) ≡ false) (nth values j) (fill_marks (nth values) next rest)
        (nth-NoDollar values j a)
        (fill_marks-NoDollar values next rest a (ground arith) (ground arith)))

-- A copy of a template has no "$" but those of its values.
pub filled-NoDollar :
    (t : Template) (values : List Text)
    → template_no_dollar t ≡ true
    → All NoDollar values
    → NoDollar (filled t values)
filled-NoDollar t values h a =
    fill_marks-NoDollar values t.first t.rest a (ground arith) (ground arith)
