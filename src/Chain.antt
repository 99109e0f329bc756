-- ===== src/Chain.antt =====
-- c/libs/fastcommon/src/chain.c: a linked list with a pointer to its first and its last node.
-- A node is an address, which the store maps to what it holds; an address that is not in the store is
-- not allocated, and reading or writing there is `none`.
pub mod Remove
pub mod Linked
pub mod Place
pub mod Adds
pub mod Sorted
pub mod Deletes
pub mod Pops
pub mod Removes
pub mod Destroys
pub mod Abstract
pub mod Calls
pub mod Steps
pub mod Refines
mod Examples
use c_workspace.Common.{
  ℕ, zero, suc, ◌+◌, ◌==◌, ℤ, pos, negsuc, sign, Bool, true, false, if◌then◌else◌, Option, none,
  some, ◌>>=◌, List, [], ◌∷◌, ◌++◌,
}
use c_workspace.Common.Sign.{negative, zero_sign, positive}

-- `ChainNode`
pub record ChainNode {ℓ} (A : Type ℓ) : Type ℓ where
  pub datum : A
  pub next : Option ℕ

-- `ChainList`, and the store. `free_data_func` says whether there is a free function; what it is called
-- with stands in `freed`.
pub record ChainList {ℓ} (A : Type ℓ) : Type ℓ where
  pub kind : ℕ
  pub head : Option ℕ
  pub tail : Option ℕ
  pub free_data_func : Bool
  pub compare_func : Option (A → A → ℤ)
  pub nodes : ℕ → Option (ChainNode A)
  pub freed : List A

-- EINVAL, ENOMEM, and the types of a list.
abbrev pub einval : ℕ
einval = 22

abbrev pub enomem : ℕ
enomem = 12

abbrev pub chain_type_insert : ℕ
chain_type_insert = 0

abbrev pub chain_type_append : ℕ
chain_type_append = 1

abbrev pub chain_type_sorted : ℕ
chain_type_sorted = 2

-- `p == q`, of two pointers.
abbrev pub same : Option ℕ → Option ℕ → Bool
same none none = true
same none (some q) = false
same (some p) none = false
same (some p) (some q) = p == q

module _ {ℓ} {A : Type ℓ} where
  -- The store after a node is written, or is no more.
  abbrev pub put : (ℕ → Option (ChainNode A)) → ℕ → Option (ChainNode A) → ℕ → Option (ChainNode A)
  put nodes a c = λ b. if b == a then c else nodes b

  -- `p->next = q`
  unfoldable pub set_next : ChainList A → ℕ → Option ℕ → Option (ChainList A)
  set_next l p q = do
    c ← l.nodes p
    some (record l { nodes = put l.nodes p (some (record c { next = q })) })

  unfoldable pub chain_init :
      ℕ → Bool → Option (A → A → ℤ) → (ℕ → Option (ChainNode A)) → ChainList A
  chain_init kind free_data_func compare_func nodes = record {
    kind = kind;
    head = none;
    tail = none;
    free_data_func = free_data_func;
    compare_func = compare_func;
    nodes = nodes;
    freed = [];
  }

  -- `freeChainNode`
  unfoldable pub free_chain_node : ChainList A → ℕ → Option (ChainList A)
  free_chain_node l p = do
    c ← l.nodes p
    some (record l {
      nodes = put l.nodes p none;
      freed = if l.free_data_func then l.freed ++ (c.datum ∷ []) else l.freed;
    })

  -- `insertNodePrior`, on a list that is not NULL. `new` is what malloc gives.
  unfoldable pub insert_node_prior : Option ℕ → ChainList A → A → ℕ × ChainList A
  insert_node_prior none l x = (enomem, l)
  insert_node_prior (some new) l x = (
    0,
    record l {
      nodes = put l.nodes new (some (record { datum = x; next = l.head }));
      head = some new;
      tail = if same l.tail none then some new else l.tail;
    },
  )

  -- `appendNode`
  unfoldable pub append_node : Option ℕ → ChainList A → A → Option (ℕ × ChainList A)
  unfolding set_next
  append_node none l x = some (enomem, l)
  append_node (some new) l x = do
    let l1 = record l { nodes = put l.nodes new (some (record { datum = x; next = none })) }
    l2 ← elim l.tail [ none ↦ some l1 | some t ↦ set_next l1 t (some new) ]
    some (0, record l2 { tail = some new; head = if same l.head none then some new else l.head })

  -- The loop of `insertNodeAsc`, with fuel: `pPrevious` and `pNode`.
  unfoldable pub asc_loop :
      (A → A → ℤ) → ChainList A → A → ℕ → Option ℕ → Option ℕ → Option (Option ℕ × Option ℕ)
  asc_loop compare_func l x zero previous p = none
  asc_loop compare_func l x (suc fuel) previous none = some (previous, none)
  asc_loop compare_func l x (suc fuel) previous (some p) = do
    c ← l.nodes p
    elim (sign (compare_func c.datum x)) [
      | negative ↦ asc_loop compare_func l x fuel (some p) c.next
      | _ ↦ some (previous, some p)
    ]

  -- The rest of `insertNodeAsc`: the new node is linked between `pPrevious` and `pNode`.
  unfoldable pub link_asc : ChainList A → A → ℕ → Option ℕ × Option ℕ → Option (ℕ × ChainList A)
  unfolding set_next
  link_asc l x n (previous, p) = do
    let l1 = record l { nodes = put l.nodes n (some (record { datum = x; next = p })) }
    l2 ← elim previous [
      | none ↦ some (record l1 { head = some n })
      | some b ↦ set_next l1 b (some n)
    ]
    some (0, record l2 { tail = if same p none then some n else l2.tail })

  -- `insertNodeAsc`
  unfoldable pub insert_node_asc : ℕ → Option ℕ → ChainList A → A → Option (ℕ × ChainList A)
  unfolding asc_loop link_asc
  insert_node_asc fuel new l x = elim l.compare_func [
    | none ↦ some (einval, l)
    | some compare_func ↦ elim new [
      | none ↦ some (enomem, l)
      | some n ↦ do place ← asc_loop compare_func l x fuel none l.head; link_asc l x n place
    ]
  ]

  -- `addNode`
  unfoldable pub add_node : ℕ → Option ℕ → ChainList A → A → Option (ℕ × ChainList A)
  unfolding insert_node_prior append_node insert_node_asc
  add_node fuel new l x =
      if l.kind == chain_type_insert
      then some (insert_node_prior new l x)
      else if l.kind == chain_type_append
      then append_node new l x
      else insert_node_asc fuel new l x

  -- `chain_pop_head`: the datum, or NULL.
  unfoldable pub chain_pop_head : ChainList A → Option (Option A × ChainList A)
  chain_pop_head l = elim l.head [
    | none ↦ some (none, l)
    | some p ↦ do
      c ← l.nodes p
      some (
        some c.datum,
        record l {
          head = c.next;
          tail = if same c.next none then none else l.tail;
          nodes = put l.nodes p none;
        },
      )
  ]

  -- The loop of `chain_count`, with fuel.
  unfoldable pub count_nodes : ℕ → ChainList A → Option ℕ → ℕ → Option ℕ
  count_nodes zero l p count = none
  count_nodes (suc fuel) l none count = some count
  count_nodes (suc fuel) l (some p) count = do c ← l.nodes p; count_nodes fuel l c.next (count + 1)

  unfoldable pub chain_count : ℕ → ChainList A → Option ℕ
  unfolding count_nodes
  chain_count fuel l = count_nodes fuel l l.head 0

  -- The loop of `chain_destroy`, with fuel.
  unfoldable pub destroy_nodes : ℕ → ChainList A → Option ℕ → Option (ChainList A)
  unfolding free_chain_node
  destroy_nodes zero l p = none
  destroy_nodes (suc fuel) l none = some l
  destroy_nodes (suc fuel) l (some p) = do
    c ← l.nodes p
    l' ← free_chain_node l p
    destroy_nodes fuel l' c.next

  unfoldable pub chain_destroy : ℕ → ChainList A → Option (ChainList A)
  unfolding destroy_nodes
  chain_destroy fuel l = elim (same l.head none) [
    | true ↦ some l
    | false ↦ do l' ← destroy_nodes fuel l l.head; some (record l' { head = none; tail = none })
  ]
