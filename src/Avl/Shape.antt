-- ===== src/Avl/Shape.antt =====
-- The balance invariant of an AVL tree: what `balance` means, and how high a tree is.
pub mod Insert
pub mod Delete
pub mod Depth
use c_workspace.Common.{ℕ, suc, max, ◌+◌, ◌≤◌, ◌≡◌, ◌≢◌, ℤ, pos_part, neg_part, Bool, true, false}
use c_workspace.Avl.Node.{Node, null, node}

-- `b` is -1, 0 or 1, and is the height of the right side less that of the left.
abbrev pub Balances : ℤ → ℕ → ℕ → Type 0
Balances b hl hr = (hr + neg_part b ≡ hl + pos_part b) × (pos_part b + neg_part b ≤ 1)

module _ {ℓ} {A : Type ℓ} where
  abbrev pub height : Node A → ℕ
  height null = 0
  height (node d l r b) = suc (max (height l) (height r))

  abbrev pub IsBalanced : Node A → Type 0
  IsBalanced null = Unit
  IsBalanced (node d l r b) = IsBalanced l × IsBalanced r × Balances b (height l) (height r)

  -- One side is higher than the other.
  abbrev pub Leans : Node A → Type 0
  Leans null = ⊥
  Leans (node d l r b) = height l ≢ height r

-- The number that a flag adds to a height.
abbrev pub step : Bool → ℕ
step true = 1
step false = 0
