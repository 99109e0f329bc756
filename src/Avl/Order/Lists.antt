-- ===== src/Avl/Order/Lists.antt =====
-- The operations of a sorted list that the tree implements.
use c_workspace.Common.{◌≡◌, ℤ, sign, List, [], ◌∷◌, All, Option, none, some}
use c_workspace.Common.Sign.{negative, zero_sign, positive}

module _ {ℓ} {A : Type ℓ} (compare_func : A → A → ℤ) where
  -- `x` before the first datum that is greater, unless one is equal.
  unfoldable pub insert_sorted : A → List A → List A
  insert_sorted x [] = x ∷ []
  insert_sorted x (y ∷ ys) = elim (sign (compare_func y x)) [
    | positive ↦ x ∷ y ∷ ys
    | zero_sign ↦ y ∷ ys
    | negative ↦ y ∷ insert_sorted x ys
  ]

  -- The same, where an equal datum makes room for `x`.
  unfoldable pub replace_sorted : A → List A → List A
  replace_sorted x [] = x ∷ []
  replace_sorted x (y ∷ ys) = elim (sign (compare_func y x)) [
    | positive ↦ x ∷ y ∷ ys
    | zero_sign ↦ x ∷ ys
    | negative ↦ y ∷ replace_sorted x ys
  ]

  -- The data equal to `x`.
  unfoldable pub equals : A → List A → List A
  equals x [] = []
  equals x (y ∷ ys) = elim (sign (compare_func y x)) [
    | zero_sign ↦ y ∷ equals x ys
    | _ ↦ equals x ys
  ]

  -- The data not equal to `x`.
  unfoldable pub without : A → List A → List A
  without x [] = []
  without x (y ∷ ys) = elim (sign (compare_func y x)) [
    | zero_sign ↦ without x ys
    | _ ↦ y ∷ without x ys
  ]

  -- The first datum that is not less than `x`.
  unfoldable pub first_ge : A → List A → Option A
  first_ge x [] = none
  first_ge x (y ∷ ys) = elim (sign (compare_func y x)) [ negative ↦ first_ge x ys | _ ↦ some y ]

  abbrev pub Below : A → List A → Type 0
  Below x xs = All (λ y. sign (compare_func y x) ≡ negative) xs

  abbrev pub Past : A → List A → Type 0
  Past x ys = All (λ y. sign (compare_func y x) ≡ positive) ys

-- The first of a list.
abbrev pub first {ℓ} : {A : Type ℓ} → List A → Option A
first [] = none
first (x ∷ xs) = some x

-- `x`, or else `y`.
abbrev pub or_else {ℓ} : {A : Type ℓ} → Option A → Option A → Option A
or_else (some x) y = some x
or_else none y = y
