-- ===== src/Avl/Order/Cut.antt =====
-- How the operations of a sorted list act on a list that is cut at a datum `d`.
use c_workspace.Common.{
  ◌≡◌, refl, ℤ, sign, List, [], ◌∷◌, ◌++◌, All, All-imp, All-cut, some, arith, append-nil,
}
use c_workspace.Common.Sign.{negative, zero_sign, positive}
use c_workspace.Avl.Order.{IsComparison, IsSorted}
use c_workspace.Avl.Order.Lists.{
  insert_sorted, replace_sorted, equals, without, first_ge, Below, Past,
}
use c_workspace.Avl.Order.Pieces.{
  insert_sorted-right, insert_sorted-here, replace_sorted-right, replace_sorted-here,
  first_ge-right, without-append, without-Below, without-Past, equals-append, equals-Below,
  equals-Past,
}

module _ {ℓ} {A : Type ℓ} (compare_func : A → A → ℤ) where
  abbrev Above : A → List A → Type 0
  Above d ys = All (λ y. sign (compare_func d y) ≡ negative) ys

  pub IsSorted-cut :
      (xs : List A) (d : A) (ys : List A)
      → IsSorted compare_func (xs ++ (d ∷ ys))
      → IsSorted compare_func xs × Below compare_func d xs × Above d ys × IsSorted compare_func ys
  IsSorted-cut [] d ys s = (tt, tt, s.0, s.1)
  IsSorted-cut (x ∷ xs) d ys s =
      let (sx, b, a, sy) = IsSorted-cut xs d ys s.1 in
      let (front, back) = All-cut _ xs d ys s.0 in ((front, sx), (back, b), a, sy)

  module _ (law : IsComparison compare_func) (xs : List A) (d : A) (ys : List A)
      (s : IsSorted compare_func (xs ++ (d ∷ ys))) (x : A) where
    -- What stands before a datum that is at most `x` is less than `x`.
    pub Below-cut : (sign (compare_func d x) ≡ positive → ⊥) → Below compare_func x xs
    Below-cut h = All-imp (λ y b. law.lt_of_lt_of_le y d x b h) xs (IsSorted-cut xs d ys s).1

    -- What stands behind a datum that is at least `x` is greater than `x`.
    pub Past-cut : (sign (compare_func d x) ≡ negative → ⊥) → Past compare_func x ys
    Past-cut h = All-imp past ys (IsSorted-cut xs d ys s).2
      where
        past : (y : A) → sign (compare_func d y) ≡ negative → sign (compare_func y x) ≡ positive
        past y b = ground (arith, law.turn x y, law.turn x d, law.lt_of_le_of_lt x d y)

module _ {ℓ} {A : Type ℓ} (compare_func : A → A → ℤ) (law : IsComparison compare_func) (xs : List A)
    (d : A) (ys : List A) (s : IsSorted compare_func (xs ++ (d ∷ ys))) (x : A) where
  module _ (h : sign (compare_func d x) ≡ positive) where
    past : Past compare_func x ys
    past = Past-cut compare_func law xs d ys s x (λ k. cc)

    pub equals-cut_left : equals compare_func x (xs ++ (d ∷ ys)) ≡ equals compare_func x xs
    unfolding equals
    equals-cut_left =
        simp (equals-append, h, equals, equals-Past compare_func x ys past, append-nil)

    pub without-cut_left :
        without compare_func x (xs ++ (d ∷ ys)) ≡ without compare_func x xs ++ (d ∷ ys)
    unfolding without
    without-cut_left = simp (without-append, h, without, without-Past compare_func x ys past)

  module _ (h : sign (compare_func d x) ≡ negative) where
    below : Below compare_func x xs
    below = Below-cut compare_func law xs d ys s x (λ k. cc)

    pub equals-cut_right : equals compare_func x (xs ++ (d ∷ ys)) ≡ equals compare_func x ys
    unfolding equals
    equals-cut_right = simp (equals-append, h, equals, equals-Below compare_func x xs below)

    pub without-cut_right :
        without compare_func x (xs ++ (d ∷ ys)) ≡ xs ++ (d ∷ without compare_func x ys)
    unfolding without
    without-cut_right = simp (without-append, h, without, without-Below compare_func x xs below)

    pub insert_sorted-cut_right :
        insert_sorted compare_func x (xs ++ (d ∷ ys)) ≡ xs ++ (d ∷ insert_sorted compare_func x ys)
    insert_sorted-cut_right = insert_sorted-right compare_func x d xs ys below h

    pub replace_sorted-cut_right :
        replace_sorted compare_func x (xs ++ (d ∷ ys))
        ≡ xs ++ (d ∷ replace_sorted compare_func x ys)
    replace_sorted-cut_right = replace_sorted-right compare_func x d xs ys below h

    pub first_ge-cut_right : first_ge compare_func x (xs ++ (d ∷ ys)) ≡ first_ge compare_func x ys
    unfolding first_ge
    first_ge-cut_right = rw (first_ge-right compare_func x xs (d ∷ ys) below, h, first_ge) refl

  module _ (h : sign (compare_func d x) ≡ zero_sign) where
    before : Below compare_func x xs
    before = Below-cut compare_func law xs d ys s x (λ k. cc)

    behind : Past compare_func x ys
    behind = Past-cut compare_func law xs d ys s x (λ k. cc)

    pub equals-cut_here : equals compare_func x (xs ++ (d ∷ ys)) ≡ d ∷ []
    unfolding equals
    equals-cut_here = simp (
      equals-append,
      h,
      equals,
      equals-Below compare_func x xs before,
      equals-Past compare_func x ys behind,
    )

    pub without-cut_here : without compare_func x (xs ++ (d ∷ ys)) ≡ xs ++ ys
    unfolding without
    without-cut_here = simp (
      without-append,
      h,
      without,
      without-Below compare_func x xs before,
      without-Past compare_func x ys behind,
    )

    pub insert_sorted-cut_here : insert_sorted compare_func x (xs ++ (d ∷ ys)) ≡ xs ++ (d ∷ ys)
    insert_sorted-cut_here = insert_sorted-here compare_func x d xs ys before h

    pub replace_sorted-cut_here : replace_sorted compare_func x (xs ++ (d ∷ ys)) ≡ xs ++ (x ∷ ys)
    replace_sorted-cut_here = replace_sorted-here compare_func x d xs ys before h

    pub first_ge-cut_here : first_ge compare_func x (xs ++ (d ∷ ys)) ≡ some d
    unfolding first_ge
    first_ge-cut_here = rw (first_ge-right compare_func x xs (d ∷ ys) before, h, first_ge) refl
