-- ===== src/Avl/Tree.antt =====
-- c/libs/fastcommon/src/avl_tree.c: the functions of avl_tree.h, over `AVLTreeInfo`. A test for a
-- NULL root is the clause for `null` of the function that is called.
use c_workspace.Common.{ℕ, ℤ, pos, Bool, true, false, Option, some, ◌>>=◌, List, []}
use c_workspace.Avl.Node.{Node, null, is_null}
use c_workspace.Avl.Insert.{insert_loop, replace_loop}
use c_workspace.Avl.Delete.{delete_loop}
use c_workspace.Avl.Query.{find_loop, find_ge_loop, walk_loop, count_loop, depth_loop, destroy_loop}

-- `free_data_func` says whether there is a free function: what it is called with stands in `freed`.
pub record AvlTreeInfo {ℓ} (A : Type ℓ) : Type ℓ where
  pub root : Node A
  pub free_data_func : Bool
  pub compare_func : A → A → ℤ

-- What a call leaves and returns.
pub record Reply {ℓ} (A : Type ℓ) : Type ℓ where
  pub tree : AvlTreeInfo A
  pub result : ℤ
  pub freed : List A

module _ {ℓ} {A : Type ℓ} where
  unfoldable pub avl_tree_init : Bool → (A → A → ℤ) → AvlTreeInfo A
  avl_tree_init free_data_func compare_func = record {
    root = null;
    free_data_func = free_data_func;
    compare_func = compare_func;
  }

  unfoldable pub avl_tree_insert : AvlTreeInfo A → A → Bool → Option (Reply A)
  avl_tree_insert tree x malloc_ok = do
    o ← insert_loop tree.compare_func malloc_ok tree.root x false
    some (record { tree = record tree { root = o.root }; result = o.result; freed = o.freed })

  unfoldable pub avl_tree_replace : AvlTreeInfo A → A → Bool → Option (Reply A)
  avl_tree_replace tree x malloc_ok = do
    o ← replace_loop tree.compare_func tree.free_data_func malloc_ok tree.root x false
    some (record { tree = record tree { root = o.root }; result = o.result; freed = o.freed })

  unfoldable pub avl_tree_delete : AvlTreeInfo A → A → Option (Reply A)
  avl_tree_delete tree x = elim (is_null tree.root) [
    | true ↦ some (record { tree = tree; result = pos 0; freed = [] })
    | false ↦ do
      o ← delete_loop tree.compare_func tree.free_data_func tree.root x false false
      some (record { tree = record tree { root = o.root }; result = o.result; freed = o.freed })
  ]

  unfoldable pub avl_tree_find : AvlTreeInfo A → A → Option A
  avl_tree_find tree x = find_loop tree.compare_func tree.root x

  unfoldable pub avl_tree_find_ge : AvlTreeInfo A → A → Option A
  avl_tree_find_ge tree x = find_ge_loop tree.compare_func tree.root x

  unfoldable pub avl_tree_walk {κ} : {S : Type κ} → AvlTreeInfo A → (A → S → ℤ × S) → S → ℤ × S
  avl_tree_walk tree data_op_func args = walk_loop data_op_func tree.root args

  unfoldable pub avl_tree_count : AvlTreeInfo A → ℕ
  avl_tree_count tree = count_loop tree.root 0

  unfoldable pub avl_tree_depth : AvlTreeInfo A → ℕ
  avl_tree_depth tree = depth_loop tree.root 0

  unfoldable pub avl_tree_destroy : AvlTreeInfo A → AvlTreeInfo A × List A
  avl_tree_destroy tree = (record tree { root = null }, destroy_loop tree.free_data_func tree.root)
