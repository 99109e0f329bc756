-- ===== src/Avl/Contents/Replace.antt =====
-- A replacement acts on the data of a sorted tree as on a sorted list, and frees what it displaces.
use c_workspace.Common.{
  ◌≡◌, refl, ℤ, sign, Sign-cases, Bool, if◌then◌else◌, List, [], ◌∷◌, ◌++◌, arith, Ensures,
}
use c_workspace.Common.SignCase.{greater, less, equal}
use c_workspace.Common.Sign.{negative, zero_sign, positive}
use c_workspace.Avl.Node.{Node, null, node}
use c_workspace.Avl.Insert.{grow_leaf, replace_loop}
use c_workspace.Avl.Order.{IsComparison, IsSorted, elements}
use c_workspace.Avl.Order.Lists.{replace_sorted, equals}
use c_workspace.Avl.Order.Cut.{
  IsSorted-cut, equals-cut_left, equals-cut_right, equals-cut_here, replace_sorted-cut_right,
  replace_sorted-cut_here,
}
use c_workspace.Avl.Order.Pieces.{replace_sorted-left}
use c_workspace.Avl.Contents.Grown.{Leaves, left_step, right_step}
use c_workspace.Avl.Contents.Insert.{answer_of}

module _ {ℓ} {A : Type ℓ} (compare_func : A → A → ℤ) (malloc_ok : Bool) (x : A) where
  -- The data after a replacement: only a datum that is not held needs memory.
  abbrev pub replaced : List A → List A
  replaced xs = elim (equals compare_func x xs) [
    | [] ↦ if malloc_ok then replace_sorted compare_func x xs else xs
    | y ∷ ys ↦ replace_sorted compare_func x xs
  ]

module _ {ℓ} {A : Type ℓ} (compare_func : A → A → ℤ) (malloc_ok : Bool) (x : A)
    (law : IsComparison compare_func) (xs : List A) (d : A) (ys : List A)
    (s : IsSorted compare_func (xs ++ (d ∷ ys))) where
  replaced-left :
      sign (compare_func d x) ≡ positive
      → replaced compare_func malloc_ok x (xs ++ (d ∷ ys))
        ≡ replaced compare_func malloc_ok x xs ++ (d ∷ ys)
  replaced-left e = ground (
    arith,
    replace_sorted-left compare_func x d xs ys e,
    equals-cut_left compare_func law xs d ys s x e,
  )

  replaced-right :
      sign (compare_func d x) ≡ negative
      → replaced compare_func malloc_ok x (xs ++ (d ∷ ys))
        ≡ xs ++ (d ∷ replaced compare_func malloc_ok x ys)
  replaced-right e = ground (
    arith,
    replace_sorted-cut_right compare_func law xs d ys s x e,
    equals-cut_right compare_func law xs d ys s x e,
  )

  replaced-here :
      sign (compare_func d x) ≡ zero_sign
      → replaced compare_func malloc_ok x (xs ++ (d ∷ ys)) ≡ xs ++ (x ∷ ys)
  replaced-here e = ground (
    arith,
    replace_sorted-cut_here compare_func law xs d ys s x e,
    equals-cut_here compare_func law xs d ys s x e,
  )

module _ {ℓ} {A : Type ℓ} (compare_func : A → A → ℤ) (x : A) (law : IsComparison compare_func)
    (frees m : Bool) where
  pub replace_loop-Leaves :
      (t : Node A) (k : Bool)
      → IsSorted compare_func (elements t)
      → Ensures (replace_loop compare_func frees m t x k) (
          Leaves
            (replaced compare_func m x (elements t))
            (answer_of compare_func m x (elements t))
            (if frees then equals compare_func x (elements t) else []))
  unfolding replace_loop grow_leaf replace_sorted equals
  replace_loop-Leaves null k s = ground arith
  replace_loop-Leaves (node d l r b) k s =
      let (sl, _, _, sr) = IsSorted-cut compare_func (elements l) d (elements r) s in
      elim (Sign-cases (sign (compare_func d x))) [
        | greater e ↦
            rw (e, replace_loop)
              (rw
                (
                  replaced-left compare_func m x law _ _ _ s e,
                  equals-cut_left compare_func law _ _ _ s x e,
                )
                (left_step _ _ _ _ (replace_loop-Leaves l k sl) d r b))
        | less e ↦
            rw (e, replace_loop)
              (rw
                (
                  replaced-right compare_func m x law _ _ _ s e,
                  equals-cut_right compare_func law _ _ _ s x e,
                )
                (right_step _ _ _ _ (replace_loop-Leaves r k sr) d l b))
        | equal e ↦
            rw (e, replace_loop)
              (rw
                (
                  replaced-here compare_func m x law _ _ _ s e,
                  equals-cut_here compare_func law _ _ _ s x e,
                )
                (record { contents = refl; answer = refl; released = refl }))
      ]
