-- ===== src/Chain/Remove.antt =====
-- c/libs/fastcommon/src/chain.c: taking nodes out of the middle of a list.
use c_workspace.Common.{
  ℕ, zero, suc, ◌+◌, ◌==◌, ℤ, pos, negsuc, sign, Bool, true, false, if◌then◌else◌, Option, none,
  some, ◌>>=◌,
}
use c_workspace.Common.Sign.{negative, zero_sign, positive}
use c_workspace.Chain.{ChainList, same, set_next, free_chain_node, chain_type_sorted}

module _ {ℓ} {A : Type ℓ} where
  -- `deleteNodeEx`
  unfoldable pub delete_node_ex : ChainList A → Option ℕ → ℕ → Option (ChainList A)
  unfolding set_next free_chain_node
  delete_node_ex l previous p = do
    c ← l.nodes p
    l1 ←
        if same (some p) l.head
        then some (record l { head = c.next })
        else (previous >>= λ b. set_next l b c.next)
    free_chain_node (if same (some p) l.tail then record l1 { tail = previous } else l1) p

  -- The loop of `deleteToNodePrevious`.
  unfoldable pub delete_to_loop : ℕ → ChainList A → Option ℕ → Option ℕ → Option (ChainList A)
  unfolding free_chain_node
  delete_to_loop zero l stop p = none
  delete_to_loop (suc fuel) l stop none = some l
  delete_to_loop (suc fuel) l stop (some p) = elim (same (some p) stop) [
    | true ↦ some l
    | false ↦ do c ← l.nodes p; l' ← free_chain_node l p; delete_to_loop fuel l' stop c.next
  ]

  -- `deleteToNodePrevious`
  unfoldable pub delete_to_node_previous :
      ℕ → ChainList A → Option ℕ → Option ℕ → Option (ChainList A)
  unfolding set_next delete_to_loop
  delete_to_node_previous fuel l previous stop = do
    l1 ← elim previous [
      | none ↦ delete_to_loop fuel (record l { head = stop }) stop l.head
      | some b ↦ do c ← l.nodes b; l' ← set_next l b stop; delete_to_loop fuel l' stop c.next
    ]
    some (if same stop none then record l1 { tail = previous } else l1)

  -- The loop of `deleteNode`, with fuel: the count, and the list.
  unfoldable pub delete_nodes :
      (A → A → ℤ) → A → Bool → ℕ → ChainList A → Option ℕ → Option ℕ → ℕ → Option (ℕ × ChainList A)
  unfolding delete_node_ex
  delete_nodes compare_func x delete_all zero l previous p count = none
  delete_nodes compare_func x delete_all (suc fuel) l previous none count = some (count, l)
  delete_nodes compare_func x delete_all (suc fuel) l previous (some p) count = do
    c ← l.nodes p
    elim (sign (compare_func c.datum x)) [
      | zero_sign ↦ do
        l' ← delete_node_ex l previous p
        elim delete_all [
          | false ↦ some (count + 1, l')
          | true ↦ delete_nodes compare_func x delete_all fuel l' previous c.next (count + 1)
        ]
      | positive ↦ elim (l.kind == chain_type_sorted) [
        | true ↦ some (count, l)
        | false ↦ delete_nodes compare_func x delete_all fuel l (some p) c.next count
      ]
      | negative ↦ delete_nodes compare_func x delete_all fuel l (some p) c.next count
    ]

  -- `deleteNode`, and the two calls of it.
  unfoldable pub delete_node : ℕ → ChainList A → A → Bool → Option (ℤ × ChainList A)
  unfolding delete_nodes
  delete_node fuel l x delete_all = elim l.compare_func [
    | none ↦ some (negsuc 21, l)
    | some compare_func ↦ do
      (count, l') ← delete_nodes compare_func x delete_all fuel l none l.head 0
      some (pos count, l')
  ]

  unfoldable pub delete_one : ℕ → ChainList A → A → Option (ℤ × ChainList A)
  unfolding delete_node
  delete_one fuel l x = delete_node fuel l x false

  unfoldable pub delete_all : ℕ → ChainList A → A → Option (ℤ × ChainList A)
  unfolding delete_node
  delete_all fuel l x = delete_node fuel l x true
