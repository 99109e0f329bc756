-- ===== src/Avl/Order/Sorted.antt =====
-- The operations of a sorted list leave it sorted.
use c_workspace.Common.{◌≡◌, ◌≢◌, ℤ, sign, Sign-cases, List, [], ◌∷◌, All, arith}
use c_workspace.Common.SignCase.{greater, less, equal}
use c_workspace.Common.Sign.{negative}
use c_workspace.Avl.Order.{IsComparison, IsSorted}
use c_workspace.Avl.Order.Lists.{insert_sorted, replace_sorted, without}

module _ {ℓ κ} {A : Type ℓ} (compare_func : A → A → ℤ) (P : A → Type κ) (x : A) where
  All-insert_sorted : (xs : List A) → P x → All P xs → All P (insert_sorted compare_func x xs)
  unfolding insert_sorted
  All-insert_sorted [] p a = (p, tt)
  All-insert_sorted (y ∷ ys) p a = ground (arith, All-insert_sorted ys p a.1)

  All-replace_sorted : (xs : List A) → P x → All P xs → All P (replace_sorted compare_func x xs)
  unfolding replace_sorted
  All-replace_sorted [] p a = (p, tt)
  All-replace_sorted (y ∷ ys) p a = ground (arith, All-replace_sorted ys p a.1)

  All-without : (xs : List A) → All P xs → All P (without compare_func x xs)
  unfolding without
  All-without [] a = tt
  All-without (y ∷ ys) a = ground (arith, All-without ys a.1)

module _ {ℓ} {A : Type ℓ} (compare_func : A → A → ℤ) (law : IsComparison compare_func) where
  All-Less :
      (x y : A) (ys : List A)
      → sign (compare_func y x) ≢ negative
      → All (λ z. sign (compare_func y z) ≡ negative) ys
      → All (λ z. sign (compare_func x z) ≡ negative) ys
  All-Less x y [] h a = tt
  All-Less x y (z ∷ ys) h a =
      (ground (arith, law.turn y x, law.lt_of_le_of_lt x y z), All-Less x y ys h a.1)

  module _ (x : A) where
    pub insert_sorted-IsSorted :
        (xs : List A)
        → IsSorted compare_func xs
        → IsSorted compare_func (insert_sorted compare_func x xs)
    unfolding insert_sorted
    insert_sorted-IsSorted [] s = (tt, tt)
    insert_sorted-IsSorted (y ∷ ys) s = elim (Sign-cases (sign (compare_func y x))) [
      | greater e ↦
          rw (e, insert_sorted) ((ground (arith, law.turn y x), All-Less x y ys (λ n. cc) s.0), s)
      | equal e ↦ rw (e, insert_sorted) s
      | less e ↦
          rw (e, insert_sorted)
            (All-insert_sorted compare_func _ x ys e s.0, insert_sorted-IsSorted ys s.1)
    ]

    pub replace_sorted-IsSorted :
        (xs : List A)
        → IsSorted compare_func xs
        → IsSorted compare_func (replace_sorted compare_func x xs)
    unfolding replace_sorted
    replace_sorted-IsSorted [] s = (tt, tt)
    replace_sorted-IsSorted (y ∷ ys) s = elim (Sign-cases (sign (compare_func y x))) [
      | greater e ↦
          rw (e, replace_sorted) ((ground (arith, law.turn y x), All-Less x y ys (λ n. cc) s.0), s)
      | equal e ↦ rw (e, replace_sorted) (All-Less x y ys (λ n. cc) s.0, s.1)
      | less e ↦
          rw (e, replace_sorted)
            (All-replace_sorted compare_func _ x ys e s.0, replace_sorted-IsSorted ys s.1)
    ]

    pub without-IsSorted :
        (xs : List A) → IsSorted compare_func xs → IsSorted compare_func (without compare_func x xs)
    unfolding without
    without-IsSorted [] s = tt
    without-IsSorted (y ∷ ys) s = ground (
      arith,
      All-without compare_func (λ z. sign (compare_func y z) ≡ negative) x ys s.0,
      without-IsSorted ys s.1,
    )
