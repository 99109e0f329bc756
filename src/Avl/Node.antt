-- ===== src/Avl/Node.antt =====
-- c/libs/fastcommon/src/avl_tree.h and the first part of avl_tree.c: the nodes and the rotations.
-- A tree is reached from its root through one pointer to each node, so a subtree is a value and an
-- update through `AVLTreeNode **` returns the new one.
use c_workspace.Common.{ℤ, pos, Bool, true, false, Option, none, some}

-- `AVLTreeNode *`. `balance` is a `signed char`, of which -1, 0 and 1 are used.
pub data Node {ℓ} (A : Type ℓ) : Type ℓ where
  null : Node A
  node : (datum : A) → (left right : Node A) → (balance : ℤ) → Node A

module _ {ℓ} {A : Type ℓ} where
  -- `createTreeNode` after a `malloc` that gave memory.
  unfoldable pub create_tree_node : A → Node A
  create_tree_node x = node x null null (pos 0)

  -- `none`: the child that would be raised is NULL.
  unfoldable pub rotate_left : Node A → Option (Node A)
  rotate_left (node d l (node rd rl rr rb) b) = some (node rd (node d l rl b) rr rb)
  rotate_left _ = none

  unfoldable pub rotate_right : Node A → Option (Node A)
  rotate_right (node d (node ld ll lr lb) r b) = some (node ld ll (node d lr r b) lb)
  rotate_right _ = none

  abbrev pub is_null : Node A → Bool
  is_null null = true
  is_null (node d l r b) = false
