-- ===== src/Avl/Order/Pieces.antt =====
-- How the operations of a sorted list act on an append of lists, where what stands before is less than
-- the datum, or what stands behind is greater.
use c_workspace.Common.{◌≡◌, refl, ap, ℤ, sign, List, [], ◌∷◌, ◌++◌, some, arith}
use c_workspace.Common.Sign.{negative, zero_sign, positive}
use c_workspace.Avl.Order.Lists.{
  insert_sorted, replace_sorted, equals, without, first_ge, Below, Past, or_else,
}

module _ {ℓ} {A : Type ℓ} (compare_func : A → A → ℤ) where
  pub insert_sorted-left :
      (x d : A) (xs ys : List A)
      → sign (compare_func d x) ≡ positive
      → insert_sorted compare_func x (xs ++ (d ∷ ys)) ≡ insert_sorted compare_func x xs ++ (d ∷ ys)
  unfolding insert_sorted
  insert_sorted-left x d [] ys h = rw (h, insert_sorted) refl
  insert_sorted-left x d (y ∷ xs) ys h = ground (arith, insert_sorted-left x d xs ys h)

  pub insert_sorted-right :
      (x d : A) (xs ys : List A)
      → Below compare_func x xs
      → sign (compare_func d x) ≡ negative
      → insert_sorted compare_func x (xs ++ (d ∷ ys)) ≡ xs ++ (d ∷ insert_sorted compare_func x ys)
  unfolding insert_sorted
  insert_sorted-right x d [] ys b h = rw (h, insert_sorted) refl
  insert_sorted-right x d (y ∷ xs) ys b h = ground (arith, insert_sorted-right x d xs ys b.1 h)

  pub insert_sorted-here :
      (x d : A) (xs ys : List A)
      → Below compare_func x xs
      → sign (compare_func d x) ≡ zero_sign
      → insert_sorted compare_func x (xs ++ (d ∷ ys)) ≡ xs ++ (d ∷ ys)
  unfolding insert_sorted
  insert_sorted-here x d [] ys b h = rw (h, insert_sorted) refl
  insert_sorted-here x d (y ∷ xs) ys b h = ground (arith, insert_sorted-here x d xs ys b.1 h)

  pub replace_sorted-left :
      (x d : A) (xs ys : List A)
      → sign (compare_func d x) ≡ positive
      → replace_sorted compare_func x (xs ++ (d ∷ ys))
        ≡ replace_sorted compare_func x xs ++ (d ∷ ys)
  unfolding replace_sorted
  replace_sorted-left x d [] ys h = rw (h, replace_sorted) refl
  replace_sorted-left x d (y ∷ xs) ys h = ground (arith, replace_sorted-left x d xs ys h)

  pub replace_sorted-right :
      (x d : A) (xs ys : List A)
      → Below compare_func x xs
      → sign (compare_func d x) ≡ negative
      → replace_sorted compare_func x (xs ++ (d ∷ ys))
        ≡ xs ++ (d ∷ replace_sorted compare_func x ys)
  unfolding replace_sorted
  replace_sorted-right x d [] ys b h = rw (h, replace_sorted) refl
  replace_sorted-right x d (y ∷ xs) ys b h = ground (arith, replace_sorted-right x d xs ys b.1 h)

  pub replace_sorted-here :
      (x d : A) (xs ys : List A)
      → Below compare_func x xs
      → sign (compare_func d x) ≡ zero_sign
      → replace_sorted compare_func x (xs ++ (d ∷ ys)) ≡ xs ++ (x ∷ ys)
  unfolding replace_sorted
  replace_sorted-here x d [] ys b h = rw (h, replace_sorted) refl
  replace_sorted-here x d (y ∷ xs) ys b h = ground (arith, replace_sorted-here x d xs ys b.1 h)

  pub first_ge-left :
      (x d : A) (xs ys : List A)
      → sign (compare_func d x) ≡ positive
      → first_ge compare_func x (xs ++ (d ∷ ys)) ≡ or_else (first_ge compare_func x xs) (some d)
  unfolding first_ge
  first_ge-left x d [] ys h = rw (h, first_ge) refl
  first_ge-left x d (y ∷ xs) ys h = ground (arith, first_ge-left x d xs ys h)

  pub first_ge-right :
      (x : A) (xs ys : List A)
      → Below compare_func x xs
      → first_ge compare_func x (xs ++ ys) ≡ first_ge compare_func x ys
  unfolding first_ge
  first_ge-right x [] ys b = refl
  first_ge-right x (y ∷ xs) ys b = rw (b.0, first_ge) (first_ge-right x xs ys b.1)

  pub without-append :
      (x : A) (xs ys : List A)
      → without compare_func x (xs ++ ys) ≡ without compare_func x xs ++ without compare_func x ys
  unfolding without
  without-append x [] ys = refl
  without-append x (y ∷ xs) ys = ground (arith, without-append x xs ys)

  pub without-Below :
      (x : A) (xs : List A) → Below compare_func x xs → without compare_func x xs ≡ xs
  unfolding without
  without-Below x [] b = refl
  without-Below x (y ∷ xs) b = rw (b.0, without) (ap (λ l. y ∷ l) (without-Below x xs b.1))

  pub without-Past : (x : A) (xs : List A) → Past compare_func x xs → without compare_func x xs ≡ xs
  unfolding without
  without-Past x [] b = refl
  without-Past x (y ∷ xs) b = rw (b.0, without) (ap (λ l. y ∷ l) (without-Past x xs b.1))

  pub equals-append :
      (x : A) (xs ys : List A)
      → equals compare_func x (xs ++ ys) ≡ equals compare_func x xs ++ equals compare_func x ys
  unfolding equals
  equals-append x [] ys = refl
  equals-append x (y ∷ xs) ys = ground (arith, equals-append x xs ys)

  pub equals-Below : (x : A) (xs : List A) → Below compare_func x xs → equals compare_func x xs ≡ []
  unfolding equals
  equals-Below x [] b = refl
  equals-Below x (y ∷ xs) b = rw (b.0, equals) (equals-Below x xs b.1)

  pub equals-Past : (x : A) (xs : List A) → Past compare_func x xs → equals compare_func x xs ≡ []
  unfolding equals
  equals-Past x [] b = refl
  equals-Past x (y ∷ xs) b = rw (b.0, equals) (equals-Past x xs b.1)
