-- ===== src/Avl/Contents/Insert.antt =====
-- An insertion acts on the data of a sorted tree as on a sorted list.
use c_workspace.Common.{
  ◌≡◌, refl, ℤ, pos, sign, Sign-cases, Bool, if◌then◌else◌, List, [], ◌∷◌, ◌++◌, arith, Ensures,
}
use c_workspace.Common.SignCase.{greater, less, equal}
use c_workspace.Common.Sign.{negative, zero_sign, positive}
use c_workspace.Avl.Node.{Node, null, node}
use c_workspace.Avl.Insert.{enomem, grow_leaf, insert_loop}
use c_workspace.Avl.Order.{IsComparison, IsSorted, elements}
use c_workspace.Avl.Order.Lists.{insert_sorted, equals}
use c_workspace.Avl.Order.Cut.{
  IsSorted-cut, equals-cut_left, equals-cut_right, equals-cut_here, insert_sorted-cut_right,
  insert_sorted-cut_here,
}
use c_workspace.Avl.Order.Pieces.{insert_sorted-left}
use c_workspace.Avl.Contents.Grown.{Leaves, left_step, right_step}

-- The number that a call returns, from what the tree holds of the datum.
abbrev pub insert_result {ℓ} : {A : Type ℓ} → Bool → List A → ℤ
insert_result malloc_ok [] = if malloc_ok then pos 1 else enomem
insert_result malloc_ok (y ∷ ys) = pos 0

module _ {ℓ} {A : Type ℓ} (compare_func : A → A → ℤ) (malloc_ok : Bool) (x : A) where
  -- The data after an insertion.
  abbrev pub inserted : List A → List A
  inserted xs = if malloc_ok then insert_sorted compare_func x xs else xs

  -- The number that both operations return.
  abbrev pub answer_of : List A → ℤ
  answer_of xs = insert_result malloc_ok (equals compare_func x xs)

module _ {ℓ} {A : Type ℓ} (compare_func : A → A → ℤ) (malloc_ok : Bool) (x : A)
    (law : IsComparison compare_func) (xs : List A) (d : A) (ys : List A)
    (s : IsSorted compare_func (xs ++ (d ∷ ys))) where
  inserted-left :
      sign (compare_func d x) ≡ positive
      → inserted compare_func malloc_ok x (xs ++ (d ∷ ys))
        ≡ inserted compare_func malloc_ok x xs ++ (d ∷ ys)
  inserted-left e = ground (arith, insert_sorted-left compare_func x d xs ys e)

  inserted-right :
      sign (compare_func d x) ≡ negative
      → inserted compare_func malloc_ok x (xs ++ (d ∷ ys))
        ≡ xs ++ (d ∷ inserted compare_func malloc_ok x ys)
  inserted-right e = ground (arith, insert_sorted-cut_right compare_func law xs d ys s x e)

  inserted-here :
      sign (compare_func d x) ≡ zero_sign
      → inserted compare_func malloc_ok x (xs ++ (d ∷ ys)) ≡ xs ++ (d ∷ ys)
  inserted-here e = ground (arith, insert_sorted-cut_here compare_func law xs d ys s x e)

module _ {ℓ} {A : Type ℓ} (compare_func : A → A → ℤ) (x : A) (law : IsComparison compare_func)
    (m : Bool) where
  pub insert_loop-Leaves :
      (t : Node A) (k : Bool)
      → IsSorted compare_func (elements t)
      → Ensures (insert_loop compare_func m t x k) (
          Leaves
            (inserted compare_func m x (elements t))
            (answer_of compare_func m x (elements t))
            [])
  unfolding insert_loop grow_leaf insert_sorted equals
  insert_loop-Leaves null k s = ground arith
  insert_loop-Leaves (node d l r b) k s =
      let (sl, _, _, sr) = IsSorted-cut compare_func (elements l) d (elements r) s in
      elim (Sign-cases (sign (compare_func d x))) [
        | greater e ↦
            rw (e, insert_loop)
              (rw
                (
                  inserted-left compare_func m x law _ _ _ s e,
                  equals-cut_left compare_func law _ _ _ s x e,
                )
                (left_step _ _ _ _ (insert_loop-Leaves l k sl) d r b))
        | less e ↦
            rw (e, insert_loop)
              (rw
                (
                  inserted-right compare_func m x law _ _ _ s e,
                  equals-cut_right compare_func law _ _ _ s x e,
                )
                (right_step _ _ _ _ (insert_loop-Leaves r k sr) d l b))
        | equal e ↦
            rw (e, insert_loop)
              (rw
                (
                  inserted-here compare_func m x law _ _ _ s e,
                  equals-cut_here compare_func law _ _ _ s x e,
                )
                (record { contents = refl; answer = refl; released = refl }))
      ]
