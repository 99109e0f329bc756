-- ===== src/Avl/Query.antt =====
-- c/libs/fastcommon/src/avl_tree.c: the operations that only read a tree, and its destruction.
-- A call on a NULL child, which the C code tests for first, is the clause for `null`.
use c_workspace.Common.{
  ℕ, ◌+◌, ℤ, pos, sign, tilt, Bool, if◌then◌else◌, Option, none, some, List, [], ◌∷◌, ◌++◌,
}
use c_workspace.Common.Sign.{negative, zero_sign, positive}
use c_workspace.Common.Tilt.{left_high}
use c_workspace.Avl.Node.{Node, null, node}

module _ {ℓ} {A : Type ℓ} (compare_func : A → A → ℤ) where
  unfoldable pub find_loop : Node A → A → Option A
  find_loop null x = none
  find_loop (node d l r b) x = elim (sign (compare_func d x)) [
    | positive ↦ find_loop l x
    | negative ↦ find_loop r x
    | zero_sign ↦ some d
  ]

  unfoldable pub find_ge_loop : Node A → A → Option A
  find_ge_loop null x = none
  find_ge_loop (node d l r b) x = elim (sign (compare_func d x)) [
    | positive ↦ elim (find_ge_loop l x) [ some y ↦ some y | none ↦ some d ]
    | negative ↦ find_ge_loop r x
    | zero_sign ↦ some d
  ]

module _ {ℓ κ} {A : Type ℓ} {S : Type κ} (data_op_func : A → S → ℤ × S) where
  -- The state is what `args` points to.
  unfoldable pub walk_loop : Node A → S → ℤ × S
  walk_loop null s = (pos 0, s)
  walk_loop (node d l r b) s =
      let (result, s1) = walk_loop l s in
      elim (sign result) [
        | zero_sign ↦
            let (result2, s2) = data_op_func d s1 in
            elim (sign result2) [ zero_sign ↦ walk_loop r s2 | _ ↦ (result2, s2) ]
        | _ ↦ (result, s1)
      ]

module _ {ℓ} {A : Type ℓ} where
  unfoldable pub count_loop : Node A → ℕ → ℕ
  count_loop null count = count
  count_loop (node d l r b) count = count_loop r (count_loop l count + 1)

  -- The loop of `avl_tree_depth`: down the side that the balance points to.
  unfoldable pub depth_loop : Node A → ℕ → ℕ
  depth_loop null depth = depth
  depth_loop (node d l r b) depth = elim (tilt b) [
    | left_high ↦ depth_loop l (depth + 1)
    | _ ↦ depth_loop r (depth + 1)
  ]

  -- The data handed to the free function, in order.
  unfoldable pub destroy_loop : Bool → Node A → List A
  destroy_loop frees null = []
  destroy_loop frees (node d l r b) =
      destroy_loop frees l ++ (destroy_loop frees r ++ (if frees then d ∷ [] else []))
