-- ===== src/PriorityQueue.antt =====
-- c/libs/pqueue: a heap in an array, of pointers to entries of the caller.
-- An entry is its address. `pri` and `pos` are what the callbacks of the caller read, and `set_pri` and
-- `set_pos` what they store; a queue has the callbacks of one kind of entry.
pub mod Moves
pub mod Order
pub mod Settle
pub mod Items
pub mod Keeps
pub mod Laws
pub mod Change
pub mod Valid
mod Examples
use c_workspace.Common.{
  ℕ, zero, suc, ◌+◌, ◌-◌, ◌*◌, ◌/◌, ◌==◌, ltb, leb, ◌&&◌, Bool, true, false, if◌then◌else◌, ℤ, pos,
  Option, none, some, ◌>>=◌, List, [], ◌∷◌, ◌++◌, get_elem?, write,
}

-- What the entries hold.
pub record Entries {ℓ} (P : Type ℓ) : Type ℓ where
  pub pri : ℕ → P
  pub position : ℕ → ℕ

-- `pqueue_t` without the callbacks. `d` is what is allocated.
pub record PQueue : Type 0 where
  pub size : ℕ
  pub avail : ℕ
  pub step : ℕ
  pub d : List ℕ

-- `store f e v`: `f` after `v` is stored at `e`.
abbrev pub store {ℓ} : {V : Type ℓ} → (ℕ → V) → ℕ → V → ℕ → V
store f e v = λ e'. if e' == e then v else f e'

-- `pqueue_init`, NULL or a queue: whether malloc gives memory for the queue, and the memory that it gives
-- for `n + 1` items, if any.
unfoldable pub pqueue_init : ℕ → Bool → Option (List ℕ) → Option PQueue
pqueue_init n false memory = none
pqueue_init n true none = none
pqueue_init n true (some d) = some (record { size = 1; avail = n + 1; step = n + 1; d = d })

unfoldable pub pqueue_size : PQueue → ℕ
pqueue_size q = q.size - 1

module _ {ℓ} {P : Type ℓ} (cmppri : P → P → Bool) where
  -- The loop of `bubble_up`, with fuel: where it stops, the array, and the positions.
  unfoldable pub bubble_loop :
      ℕ → (ℕ → P) → P → ℕ → List ℕ → (ℕ → ℕ) → Option (ℕ × List ℕ × (ℕ → ℕ))
  bubble_loop zero pri moving_pri i d position = none
  bubble_loop (suc fuel) pri moving_pri i d position = elim (ltb 1 i) [
    | false ↦ some (i, d, position)
    | true ↦ do
      p ← get_elem? d (i / 2)
      elim (cmppri (pri p) moving_pri) [
        | false ↦ some (i, d, position)
        | true ↦ do
          d' ← write d i p
          bubble_loop fuel pri moving_pri (i / 2) d' (store position p i)
      ]
  ]

  -- `bubble_up`: an index is halved each time.
  unfoldable pub bubble_up : Entries P → List ℕ → ℕ → Option (List ℕ × Entries P)
  unfolding bubble_loop
  bubble_up entries d i = do
    moving ← get_elem? d i
    (i', d', position) ← bubble_loop (i + 1) entries.pri (entries.pri moving) i d entries.position
    d'' ← write d' i' moving
    some (d'', record entries { position = store position moving i' })

  -- `maxchild`, on the first `size` items.
  unfoldable pub maxchild : (ℕ → P) → List ℕ → ℕ → ℕ → Option ℕ
  maxchild pri d size i = elim (leb size (2 * i)) [
    | true ↦ some 0
    | false ↦ elim (ltb (2 * i + 1) size) [
      | false ↦ some (2 * i)
      | true ↦ do
        l ← get_elem? d (2 * i)
        r ← get_elem? d (2 * i + 1)
        some (if cmppri (pri l) (pri r) then 2 * i + 1 else 2 * i)
    ]
  ]

  -- The loop of `percolate_down`, with fuel.
  unfoldable pub percolate_loop :
      ℕ → (ℕ → P) → P → ℕ → ℕ → List ℕ → (ℕ → ℕ) → Option (ℕ × List ℕ × (ℕ → ℕ))
  unfolding maxchild
  percolate_loop zero pri moving_pri size i d position = none
  percolate_loop (suc fuel) pri moving_pri size i d position = do
    child ← maxchild pri d size i
    elim (child == 0) [
      | true ↦ some (i, d, position)
      | false ↦ do
        c ← get_elem? d child
        elim (cmppri moving_pri (pri c)) [
          | false ↦ some (i, d, position)
          | true ↦ do
            d' ← write d i c
            percolate_loop fuel pri moving_pri size child d' (store position c i)
        ]
    ]

  -- `percolate_down`: an index in the queue grows each time.
  unfoldable pub percolate_down : Entries P → List ℕ → ℕ → ℕ → Option (List ℕ × Entries P)
  unfolding percolate_loop
  percolate_down entries d size i = do
    moving ← get_elem? d i
    (i', d', position) ←
        percolate_loop (size + 1) entries.pri (entries.pri moving) size i d entries.position
    d'' ← write d' i' moving
    some (d'', record entries { position = store position moving i' })

  -- `pqueue_insert`. `more n` is the memory that realloc adds for `n` items, where it gives any.
  unfoldable pub pqueue_insert :
      (ℕ → Option (List ℕ)) → PQueue → Entries P → ℕ → Option (ℕ × PQueue × Entries P)
  unfolding bubble_up
  pqueue_insert more q entries x = elim (leb q.avail q.size) [
    | true ↦ elim (more q.step) [
      | none ↦ some (1, q, entries)
      | some extra ↦ do
        d ← write (q.d ++ extra) q.size x
        (d', entries') ← bubble_up entries d q.size
        some (0, record q { avail = q.size + q.step; size = q.size + 1; d = d' }, entries')
    ]
    | false ↦ do
      d ← write q.d q.size x
      (d', entries') ← bubble_up entries d q.size
      some (0, record q { size = q.size + 1; d = d' }, entries')
  ]

  -- The ends of `pqueue_change_priority` and `pqueue_remove`.
  unfoldable pub move : Bool → PQueue → Entries P → ℕ → Option (PQueue × Entries P)
  unfolding bubble_up percolate_down
  move up q entries i = do
    (d, entries') ← if up then bubble_up entries q.d i else percolate_down entries q.d q.size i
    some (record q { d = d }, entries')

  unfoldable pub pqueue_change_priority : PQueue → Entries P → P → ℕ → Option (PQueue × Entries P)
  unfolding move
  pqueue_change_priority q entries new_pri e =
      move (cmppri (entries.pri e) new_pri) q (record entries { pri = store entries.pri e new_pri })
        (entries.position e)

  unfoldable pub pqueue_remove : PQueue → Entries P → ℕ → Option (PQueue × Entries P)
  unfolding move
  pqueue_remove q entries e = do
    last ← get_elem? q.d (q.size - 1)
    d ← write q.d (entries.position e) last
    move (cmppri (entries.pri e) (entries.pri last)) (record q { size = q.size - 1; d = d }) entries
        (entries.position e)

  -- `pqueue_pop`: the head, or NULL.
  unfoldable pub pqueue_pop : PQueue → Entries P → Option (Option ℕ × PQueue × Entries P)
  unfolding percolate_down
  pqueue_pop q entries = elim (q.size == 1) [
    | true ↦ some (none, q, entries)
    | false ↦ do
      head ← get_elem? q.d 1
      last ← get_elem? q.d (q.size - 1)
      d ← write q.d 1 last
      (d', entries') ← percolate_down entries d (q.size - 1) 1
      some (some head, record q { size = q.size - 1; d = d' }, entries')
  ]

module _ {ℓ} {P : Type ℓ} (cmppri : P → P → Bool) (pri : ℕ → P) (d : List ℕ) (size : ℕ) where
  -- One of the two tests of `subtree_is_valid` at `p`, for the child `c`: `check` is the recursive call.
  unfoldable pub child_is_valid : (ℕ → Option Bool) → ℕ → ℕ → Option Bool
  child_is_valid check p c = elim (ltb c size) [
    | false ↦ some true
    | true ↦ do
      a ← get_elem? d p
      b ← get_elem? d c
      elim (cmppri (pri a) (pri b)) [ true ↦ some false | false ↦ check c ]
  ]

  -- `subtree_is_valid`, with fuel.
  unfoldable pub subtree_is_valid : ℕ → ℕ → Option Bool
  unfolding child_is_valid
  subtree_is_valid zero p = none
  subtree_is_valid (suc fuel) p = do
    ok ← child_is_valid (λ c. subtree_is_valid fuel c) p (2 * p)
    elim ok [
      | false ↦ some false
      | true ↦ child_is_valid (λ c. subtree_is_valid fuel c) p (2 * p + 1)
    ]

-- `pqueue_is_valid`: an index below grows up to the size.
unfoldable pub pqueue_is_valid {ℓ} :
    {P : Type ℓ} → (P → P → Bool) → PQueue → Entries P → Option Bool
unfolding subtree_is_valid
pqueue_is_valid cmppri q entries = subtree_is_valid cmppri entries.pri q.d q.size (q.size + 1) 1

-- `pqueue_peek`
unfoldable pub pqueue_peek : PQueue → Option (Option ℕ)
pqueue_peek q = if q.size == 1 then some none else (get_elem? q.d 1 >>= λ e. some (some e))
