-- ===== src/Avl/Insert.antt =====
-- c/libs/fastcommon/src/avl_tree.c: insertion and replacement.
-- `malloc_ok` says whether the one `malloc` that a call can make gives memory.
use c_workspace.Common.{
  ℤ, pos, negsuc, sign, tilt, Bool, true, false, if◌then◌else◌, Option, some, ◌>>=◌, List, [], ◌∷◌,
}
use c_workspace.Common.Sign.{negative, zero_sign, positive}
use c_workspace.Common.Tilt.{left_high, even, right_high, other}
use c_workspace.Avl.Node.{Node, null, node, create_tree_node}
use c_workspace.Avl.Rebalance.{left_balance_when_insert, right_balance_when_insert}

-- What a call leaves: `*pCurrentNode`, the returned number, `*taller`, and the data that was handed
-- to the free function, in order.
pub record Grown {ℓ} (A : Type ℓ) : Type ℓ where
  pub root : Node A
  pub result : ℤ
  pub taller : Bool
  pub freed : List A

-- -ENOMEM
abbrev pub enomem : ℤ
enomem = negsuc 11

module _ {ℓ} {A : Type ℓ} where
  -- The end of the `nCompRes > 0` branch, with `o` from the call on the left child.
  unfoldable pub left_grown : A → Grown A → Node A → ℤ → Option (Grown A)
  left_grown d o r b =
      if o.taller
      then (elim (tilt b) [
        | left_high ↦ do
          (t, taller) ← left_balance_when_insert (node d o.root r b) o.taller
          some (record o { root = t; taller = taller })
        | even ↦ some (record o { root = node d o.root r (negsuc 0) })
        | right_high ↦ some (record o { root = node d o.root r (pos 0); taller = false })
        | other ↦ some (record o { root = node d o.root r b })
      ])
      else some (record o { root = node d o.root r b })

  -- The end of the `nCompRes < 0` branch, with `o` from the call on the right child.
  unfoldable pub right_grown : A → Node A → Grown A → ℤ → Option (Grown A)
  right_grown d l o b =
      if o.taller
      then (elim (tilt b) [
        | left_high ↦ some (record o { root = node d l o.root (pos 0); taller = false })
        | even ↦ some (record o { root = node d l o.root (pos 1) })
        | right_high ↦ do
          (t, taller) ← right_balance_when_insert (node d l o.root b) o.taller
          some (record o { root = t; taller = taller })
        | other ↦ some (record o { root = node d l o.root b })
      ])
      else some (record o { root = node d l o.root b })

  -- The branch for a NULL pointer.
  unfoldable pub grow_leaf : Bool → A → Bool → Grown A
  unfolding create_tree_node
  grow_leaf malloc_ok x taller =
      if malloc_ok
      then record { root = create_tree_node x; result = pos 1; taller = true; freed = [] }
      else record { root = null; result = enomem; taller = taller; freed = [] }

module _ {ℓ} {A : Type ℓ} (compare_func : A → A → ℤ) where
  unfoldable pub insert_loop : Bool → Node A → A → Bool → Option (Grown A)
  insert_loop malloc_ok null x taller = some (grow_leaf malloc_ok x taller)
  insert_loop malloc_ok (node d l r b) x taller = elim (sign (compare_func d x)) [
    | positive ↦ do o ← insert_loop malloc_ok l x taller; left_grown d o r b
    | negative ↦ do o ← insert_loop malloc_ok r x taller; right_grown d l o b
    | zero_sign ↦ some (record { root = node d l r b; result = pos 0; taller = taller; freed = [] })
  ]

  -- `frees` says whether there is a free function.
  unfoldable pub replace_loop : Bool → Bool → Node A → A → Bool → Option (Grown A)
  replace_loop frees malloc_ok null x taller = some (grow_leaf malloc_ok x taller)
  replace_loop frees malloc_ok (node d l r b) x taller = elim (sign (compare_func d x)) [
    | positive ↦ do o ← replace_loop frees malloc_ok l x taller; left_grown d o r b
    | negative ↦ do o ← replace_loop frees malloc_ok r x taller; right_grown d l o b
    | zero_sign ↦ some (record {
      root = node x l r b;
      result = pos 0;
      taller = taller;
      freed = if frees then d ∷ [] else [];
    })
  ]
