-- ===== src/Avl/Laws/Read.antt =====
-- What the reading functions of avl_tree.h return, in terms of the data in order.
use c_workspace.Common.{◌+◌, ◌≤◌, ◌/◌, ◌^◌, ◌≡◌, ℤ, arith, length}
use c_workspace.Avl.Tree.{
  AvlTreeInfo, avl_tree_find, avl_tree_find_ge, avl_tree_walk, avl_tree_count, avl_tree_depth,
}
use c_workspace.Avl.Shape.{height}
use c_workspace.Avl.Shape.Depth.{depth_loop-height, height_bound}
use c_workspace.Avl.Order.Lists.{equals, first_ge, first}
use c_workspace.Avl.Contents.Query.{
  find_loop-equals, find_ge_loop-first_ge, walk_list, walk_loop-walk_list, count_loop-length,
}
use c_workspace.Avl.Laws.{IsAvl, contents}

module _ {ℓ} {A : Type ℓ} (tree : AvlTreeInfo A) (v : IsAvl tree) (x : A) where
  open tree use {compare_func}

  -- On a balanced and sorted tree `avl_tree_find` returns the datum equal to the target, or NULL if there
  -- is none.
  pub avl_tree_find_lem : avl_tree_find tree x ≡ first (equals compare_func x (contents tree))
  unfolding avl_tree_find
  avl_tree_find_lem = find_loop-equals compare_func v.law x tree.root v.sorted

  -- On a balanced and sorted tree `avl_tree_find_ge` returns the first datum that is not less than the
  -- target, or NULL if there is none.
  pub avl_tree_find_ge_lem : avl_tree_find_ge tree x ≡ first_ge compare_func x (contents tree)
  unfolding avl_tree_find_ge
  avl_tree_find_ge_lem = find_ge_loop-first_ge compare_func v.law x tree.root v.sorted

module _ {ℓ} {A : Type ℓ} (tree : AvlTreeInfo A) where
  -- `avl_tree_count` is the number of data.
  pub avl_tree_count_lem : avl_tree_count tree ≡ length (contents tree)
  unfolding avl_tree_count
  avl_tree_count_lem = omega (arith, count_loop-length tree.root 0)

  -- On a balanced and sorted tree `avl_tree_depth`, which follows the balances down, is the height, and
  -- 2 to the half of it is at most the number of data and 1.
  pub avl_tree_depth_lem :
      IsAvl tree
      → (avl_tree_depth tree ≡ height tree.root)
        × (2 ^ (avl_tree_depth tree / 2) ≤ avl_tree_count tree + 1)
  unfolding avl_tree_depth
  avl_tree_depth_lem v =
      let e : avl_tree_depth tree ≡ height tree.root =
        omega (arith, depth_loop-height tree.root 0 v.balanced) in
      (e, rw (e, avl_tree_count_lem) (height_bound tree.root v.balanced))

  -- `avl_tree_walk` calls the function on the data in order until a call returns something else than 0,
  -- and returns that, or 0.
  pub avl_tree_walk_lem {κ} :
      {S : Type κ} (data_op_func : A → S → ℤ × S) (args : S)
      → avl_tree_walk tree data_op_func args ≡ walk_list data_op_func (contents tree) args
  unfolding avl_tree_walk
  avl_tree_walk_lem data_op_func args = walk_loop-walk_list data_op_func tree.root args
