-- ===== src/Avl/Rebalance.antt =====
-- c/libs/fastcommon/src/avl_tree.c: the four rebalancing functions. Each takes the node whose one side
-- is too high and the flag `taller` or `shorter`, and returns both.
use c_workspace.Common.{ℤ, pos, negsuc, tilt, Bool, false, Option, none, some, ◌>>=◌}
use c_workspace.Common.Tilt.{left_high, even, right_high, other}
use c_workspace.Avl.Node.{Node, node, rotate_left, rotate_right}

-- The inner `switch` on the balance of the grandchild: the balances of the node and of its left child.
abbrev left_double : ℤ → ℤ → ℤ → ℤ × ℤ
left_double grandchild b lb = elim (tilt grandchild) [
  | left_high ↦ (pos 1, pos 0)
  | even ↦ (pos 0, pos 0)
  | right_high ↦ (pos 0, negsuc 0)
  | other ↦ (b, lb)
]

-- The same for a node and its right child.
abbrev right_double : ℤ → ℤ → ℤ → ℤ × ℤ
right_double grandchild b rb = elim (tilt grandchild) [
  | right_high ↦ (negsuc 0, pos 0)
  | even ↦ (pos 0, pos 0)
  | left_high ↦ (pos 0, pos 1)
  | other ↦ (b, rb)
]

module _ {ℓ} {A : Type ℓ} where
  -- The `case 1` of the left functions: a rotation at the left child, then one at the node.
  left_twice : Node A → Option (Node A)
  unfolding rotate_left rotate_right
  left_twice (node d (node ld ll (node gd gl gr gb) lb) r b) = do
    let balances = left_double gb b lb
    l ← rotate_left (node ld ll (node gd gl gr (pos 0)) balances.1)
    rotate_right (node d l r balances.0)
  left_twice _ = none

  right_twice : Node A → Option (Node A)
  unfolding rotate_left rotate_right
  right_twice (node d l (node rd (node gd gl gr gb) rr rb) b) = do
    let balances = right_double gb b rb
    r ← rotate_right (node rd (node gd gl gr (pos 0)) rr balances.1)
    rotate_left (node d l r balances.0)
  right_twice _ = none

  -- `avlLeftBalanceWhenInsert`
  unfoldable pub left_balance_when_insert : Node A → Bool → Option (Node A × Bool)
  unfolding left_twice rotate_right
  left_balance_when_insert (node d (node ld ll lr lb) r b) taller = elim (tilt lb) [
    | left_high ↦ do t ← rotate_right (node d (node ld ll lr (pos 0)) r (pos 0)); some (t, false)
    | right_high ↦ do t ← left_twice (node d (node ld ll lr lb) r b); some (t, false)
    | even ↦ some (node d (node ld ll lr lb) r b, taller)
    | other ↦ some (node d (node ld ll lr lb) r b, taller)
  ]
  left_balance_when_insert _ taller = none

  -- `avlRightBalanceWhenInsert`
  unfoldable pub right_balance_when_insert : Node A → Bool → Option (Node A × Bool)
  unfolding right_twice rotate_left
  right_balance_when_insert (node d l (node rd rl rr rb) b) taller = elim (tilt rb) [
    | right_high ↦ do t ← rotate_left (node d l (node rd rl rr (pos 0)) (pos 0)); some (t, false)
    | left_high ↦ do t ← right_twice (node d l (node rd rl rr rb) b); some (t, false)
    | even ↦ some (node d l (node rd rl rr rb) b, taller)
    | other ↦ some (node d l (node rd rl rr rb) b, taller)
  ]
  right_balance_when_insert _ taller = none

  -- `avlLeftBalanceWhenDelete`
  unfoldable pub left_balance_when_delete : Node A → Bool → Option (Node A × Bool)
  unfolding left_twice rotate_right
  left_balance_when_delete (node d (node ld ll lr lb) r b) shorter = elim (tilt lb) [
    | left_high ↦ do t ← rotate_right (node d (node ld ll lr (pos 0)) r (pos 0)); some (t, shorter)
    | even ↦ do t ← rotate_right (node d (node ld ll lr (pos 1)) r b); some (t, false)
    | right_high ↦ do t ← left_twice (node d (node ld ll lr lb) r b); some (t, shorter)
    | other ↦ some (node d (node ld ll lr lb) r b, shorter)
  ]
  left_balance_when_delete _ shorter = none

  -- `avlRightBalanceWhenDelete`
  unfoldable pub right_balance_when_delete : Node A → Bool → Option (Node A × Bool)
  unfolding right_twice rotate_left
  right_balance_when_delete (node d l (node rd rl rr rb) b) shorter = elim (tilt rb) [
    | right_high ↦ do t ← rotate_left (node d l (node rd rl rr (pos 0)) (pos 0)); some (t, shorter)
    | even ↦ do t ← rotate_left (node d l (node rd rl rr (negsuc 0)) b); some (t, false)
    | left_high ↦ do t ← right_twice (node d l (node rd rl rr rb) b); some (t, shorter)
    | other ↦ some (node d l (node rd rl rr rb) b, shorter)
  ]
  right_balance_when_delete _ shorter = none
