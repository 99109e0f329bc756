-- ===== src/Avl/Delete.antt =====
-- c/libs/fastcommon/src/avl_tree.c: deletion.
use c_workspace.Common.{
  ℤ, pos, negsuc, sign, tilt, Bool, true, false, if◌then◌else◌, Option, none, some, ◌>>=◌, List, [],
  ◌∷◌, ◌++◌,
}
use c_workspace.Common.Sign.{negative, zero_sign, positive}
use c_workspace.Common.Tilt.{left_high, even, right_high, other}
use c_workspace.Avl.Node.{Node, null, node, is_null}
use c_workspace.Avl.Rebalance.{left_balance_when_delete, right_balance_when_delete}

-- What a call leaves: `*pCurrentNode`, the returned number, `*shorter`, the data that was handed to
-- the free function, and what was stored in `pDeletedDataNode->data`.
pub record Shrunk {ℓ} (A : Type ℓ) : Type ℓ where
  pub root : Node A
  pub result : ℤ
  pub shorter : Bool
  pub freed : List A
  pub moved : Option A

module _ {ℓ} {A : Type ℓ} where
  -- The `switch` after a call on the left child.
  unfoldable pub left_shrunk : A → Shrunk A → Node A → ℤ → Option (Shrunk A)
  left_shrunk d o r b =
      if o.shorter
      then (elim (tilt b) [
        | left_high ↦ some (record o { root = node d o.root r (pos 0) })
        | even ↦ some (record o { root = node d o.root r (pos 1); shorter = false })
        | right_high ↦ do
          (t, shorter) ← right_balance_when_delete (node d o.root r b) o.shorter
          some (record o { root = t; shorter = shorter })
        | other ↦ some (record o { root = node d o.root r b })
      ])
      else some (record o { root = node d o.root r b })

  -- The `switch` after a call on the right child.
  unfoldable pub right_shrunk : A → Node A → Shrunk A → ℤ → Option (Shrunk A)
  right_shrunk d l o b =
      if o.shorter
      then (elim (tilt b) [
        | left_high ↦ do
          (t, shorter) ← left_balance_when_delete (node d l o.root b) o.shorter
          some (record o { root = t; shorter = shorter })
        | even ↦ some (record o { root = node d l o.root (negsuc 0); shorter = false })
        | right_high ↦ some (record o { root = node d l o.root (pos 0) })
        | other ↦ some (record o { root = node d l o.root b })
      ])
      else some (record o { root = node d l o.root b })

  -- The node's datum after a call that may have stored another one in it.
  unfoldable pub datum_after : A → Shrunk A → A
  datum_after d o = elim o.moved [ none ↦ d | some y ↦ y ]

module _ {ℓ} {A : Type ℓ} (compare_func : A → A → ℤ) (frees : Bool) where
  -- The last argument says that `pDeletedDataNode` is not NULL: the greatest node of the subtree is
  -- taken out, and its datum is stored there.
  unfoldable pub delete_loop : Node A → A → Bool → Bool → Option (Shrunk A)
  unfolding datum_after
  delete_loop null x shorter moving = none
  delete_loop (node d l r b) x shorter true = elim (is_null r) [
    | true ↦ some (record { root = l; result = pos 1; shorter = true; freed = []; moved = some d })
    | false ↦ do o ← delete_loop r x shorter true; right_shrunk d l o b
  ]
  delete_loop (node d l r b) x shorter false = elim (sign (compare_func d x)) [
    | positive ↦ elim (is_null l) [
      | true ↦ some (record {
        root = node d l r b;
        result = pos 0;
        shorter = shorter;
        freed = [];
        moved = none;
      })
      | false ↦ do o ← delete_loop l x shorter false; left_shrunk d o r b
    ]
    | negative ↦ elim (is_null r) [
      | true ↦ some (record {
        root = node d l r b;
        result = pos 0;
        shorter = shorter;
        freed = [];
        moved = none;
      })
      | false ↦ do o ← delete_loop r x shorter false; right_shrunk d l o b
    ]
    | zero_sign ↦
        let freed = if frees then d ∷ [] else [] in
        elim (is_null l) [
          | true ↦
              some
                (record { root = r; result = pos 1; shorter = true; freed = freed; moved = none })
          | false ↦ elim (is_null r) [
            | true ↦
                some
                  (record { root = l; result = pos 1; shorter = true; freed = freed; moved = none })
            | false ↦ do
              o ← delete_loop l x shorter true
              o' ← left_shrunk (datum_after d o) o r b
              some (record o' { result = pos 1; freed = freed ++ o.freed; moved = none })
          ]
        ]
  ]
