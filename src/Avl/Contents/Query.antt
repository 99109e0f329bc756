-- ===== src/Avl/Contents/Query.antt =====
-- What the reading operations return, in terms of the data in order.
use c_workspace.Common.{
  ℕ, ◌+◌, ◌≡◌, refl, ℤ, pos, sign, Sign-cases, true, false, List, [], ◌∷◌, ◌++◌, arith, length,
  length-append,
}
use c_workspace.Common.SignCase.{greater, less, equal}
use c_workspace.Common.Sign.{zero_sign}
use c_workspace.Avl.Node.{Node, null, node}
use c_workspace.Avl.Query.{find_loop, find_ge_loop, walk_loop, count_loop, destroy_loop}
use c_workspace.Avl.Order.{IsComparison, IsSorted, elements}
use c_workspace.Avl.Order.Lists.{equals, first_ge, first}
use c_workspace.Avl.Order.Cut.{
  IsSorted-cut, equals-cut_left, equals-cut_right, equals-cut_here, first_ge-cut_right,
  first_ge-cut_here,
}
use c_workspace.Avl.Order.Pieces.{first_ge-left}
use mathlib.Core.List.{Perm, perm_append_singleton}
use mathlib.Core.List.Perm

module _ {ℓ} {A : Type ℓ} (compare_func : A → A → ℤ) (law : IsComparison compare_func) (x : A) where
  pub find_loop-equals :
      (t : Node A)
      → IsSorted compare_func (elements t)
      → find_loop compare_func t x ≡ first (equals compare_func x (elements t))
  unfolding find_loop equals
  find_loop-equals null s = refl
  find_loop-equals (node d l r b) s =
      let (sl, _, _, sr) = IsSorted-cut compare_func (elements l) d (elements r) s in
      elim (Sign-cases (sign (compare_func d x))) [
        | greater e ↦
            rw (equals-cut_left compare_func law _ _ _ s x e)
              (rw (e, find_loop) (find_loop-equals l sl))
        | less e ↦
            rw (equals-cut_right compare_func law _ _ _ s x e)
              (rw (e, find_loop) (find_loop-equals r sr))
        | equal e ↦ rw (equals-cut_here compare_func law _ _ _ s x e) (rw (e, find_loop) refl)
      ]

  pub find_ge_loop-first_ge :
      (t : Node A)
      → IsSorted compare_func (elements t)
      → find_ge_loop compare_func t x ≡ first_ge compare_func x (elements t)
  unfolding find_ge_loop first_ge
  find_ge_loop-first_ge null s = refl
  find_ge_loop-first_ge (node d l r b) s =
      let (sl, _, _, sr) = IsSorted-cut compare_func (elements l) d (elements r) s in
      elim (Sign-cases (sign (compare_func d x))) [
        | greater e ↦
            rw (first_ge-left compare_func x d (elements l) (elements r) e)
              (ground (arith, e, find_ge_loop-first_ge l sl))
        | less e ↦
            rw (first_ge-cut_right compare_func law _ _ _ s x e)
              (rw (e, find_ge_loop) (find_ge_loop-first_ge r sr))
        | equal e ↦ rw (first_ge-cut_here compare_func law _ _ _ s x e) (rw (e, find_ge_loop) refl)
      ]

module _ {ℓ κ} {A : Type ℓ} {S : Type κ} (data_op_func : A → S → ℤ × S) where
  -- The operation on each datum in turn, until one returns something else than 0.
  unfoldable pub walk_list : List A → S → ℤ × S
  walk_list [] s = (pos 0, s)
  walk_list (y ∷ ys) s =
      let (result, s') = data_op_func y s in
      elim (sign result) [ zero_sign ↦ walk_list ys s' | _ ↦ (result, s') ]

  walk_list-append :
      (xs ys : List A) (s : S)
      → walk_list (xs ++ ys) s ≡ (
          let (result, s') = walk_list xs s in
          elim (sign result) [ zero_sign ↦ walk_list ys s' | _ ↦ (result, s') ])
  unfolding walk_list
  walk_list-append [] ys s = refl
  walk_list-append (x ∷ xs) ys s = elim (Sign-cases (sign (data_op_func x s).0)) [
    | greater e ↦ ground (arith, e)
    | less e ↦ ground (arith, e)
    | equal e ↦ ground (arith, e, walk_list-append xs ys (data_op_func x s).1)
  ]

  pub walk_loop-walk_list :
      (t : Node A) (s : S) → walk_loop data_op_func t s ≡ walk_list (elements t) s
  unfolding walk_loop walk_list
  walk_loop-walk_list null s = refl
  walk_loop-walk_list (node d l r b) s = ground (
    arith,
    walk_loop-walk_list l s,
    walk_list-append (elements l) (d ∷ elements r) s,
    walk_loop-walk_list r (data_op_func d (walk_list (elements l) s).1).1,
  )

module _ {ℓ} {A : Type ℓ} where
  pub count_loop-length : (t : Node A) (n : ℕ) → count_loop t n ≡ n + length (elements t)
  unfolding count_loop
  count_loop-length null n = omega arith
  count_loop-length (node d l r b) n = omega (
    arith,
    count_loop-length l n,
    count_loop-length r (count_loop l n + 1),
    length-append (elements l) (d ∷ elements r),
  )

  pub destroy_loop-Perm : (t : Node A) → Perm (destroy_loop true t) (elements t)
  unfolding destroy_loop
  destroy_loop-Perm null = Perm.refl []
  destroy_loop-Perm (node d l r b) = Perm.append (destroy_loop-Perm l) (
      Perm.trans (perm_append_singleton d (destroy_loop true r))
        (Perm.cons d (destroy_loop-Perm r)))

  pub destroy_loop-false : (t : Node A) → destroy_loop false t ≡ []
  unfolding destroy_loop
  destroy_loop-false null = refl
  destroy_loop-false (node d l r b) = rw (destroy_loop-false l, destroy_loop-false r) refl
