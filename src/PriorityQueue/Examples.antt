-- ===== src/PriorityQueue/Examples.antt =====
-- Runs of c/libs/pqueue/pqueue.c.
use c_workspace.Common.{
  ℕ, zero, suc, ◌+◌, ◌-◌, ◌*◌, ◌/◌, ◌≤◌, ◌<◌, ◌≡◌, ◌⊎◌, ◌↔◌, refl, ap, ltb, true, false, Option,
  some, none, List, [], ◌∷◌, arith, length, get_or, replicate, Returns, All, drop,
}
use mathlib.Core.List.{Perm}
use c_workspace.PriorityQueue.{
  Entries, PQueue, store, pqueue_insert, pqueue_pop, pqueue_remove, pqueue_change_priority,
  pqueue_is_valid,
}
use c_workspace.PriorityQueue.Order.{IsPriority, IsHeap}
use c_workspace.PriorityQueue.Items.{slots, IsAllocated}
use c_workspace.PriorityQueue.Laws.{IsQueue, pqueue_insert_lem, pqueue_pop_lem}
use c_workspace.PriorityQueue.Change.{pqueue_remove_lem, pqueue_change_priority_lem}
use c_workspace.PriorityQueue.Valid.{pqueue_is_valid_lem}

-- Three entries of priorities 30, 20 and 10 at the addresses 1, 2 and 3, with no room left.
abbrev entries : Entries ℕ
entries = record { pri = λ e. 40 - 10 * e; position = λ e. e }

abbrev full : PQueue
full = record { size = 4; avail = 4; step = 4; d = 0 ∷ 1 ∷ 2 ∷ 3 ∷ [] }

full-IsAllocated : IsAllocated full
full-IsAllocated = record { one = omega arith; fits = omega arith; all = refl; grows = omega arith }

ltb-IsPriority : IsPriority ltb
ltb-IsPriority = record {
  asym = λ p q b. ground (arith, b);
  trans = λ p q r b c. ground (arith, b, c);
}

at_slot : (j : ℕ) → j < 4 → get_or full.d j 0 ≡ j
at_slot zero h = refl
at_slot (suc zero) h = refl
at_slot (suc (suc zero)) h = refl
at_slot (suc (suc (suc zero))) h = refl
at_slot (suc (suc (suc (suc j)))) h = absurd (omega arith)

full-IsQueue : IsQueue ltb full entries
full-IsQueue = record {
  allocated = full-IsAllocated;
  ordered = record {
    heap = λ c two l. ground (arith, at_slot c l, at_slot (c / 2));
    placed = λ j one l. at_slot j l;
  };
}

abbrev zeroed : ℕ → Option (List ℕ)
zeroed n = some (replicate n 0)

length-zeroed : (n : ℕ) (extra : List ℕ) → zeroed n ≡ some extra → length extra ≡ n
length-zeroed n extra e = omega (arith, ap size e, length-replicate n)
  where
    size : Option (List ℕ) → ℕ
    size none = 0
    size (some xs) = length xs

    length-replicate : (n : ℕ) → length {A = ℕ} (replicate n 0) ≡ n
    length-replicate zero = refl
    length-replicate (suc n) = ap suc (length-replicate n)

pqueue_pop_lem_example : Returns (pqueue_pop ltb full entries) (λ o.
    IsQueue ltb o.1 o.2
    × (((full.size ≡ 1) × (o.0 ≡ none) × (o.1 ≡ full))
        ⊎ ((head : ℕ) × (o.0 ≡ some head)
            × (o.1.size + 1 ≡ 4)
            × Perm (head ∷ slots o.1) (slots full)
            × All (λ e. ltb (entries.pri head) (entries.pri e) ≡ false) (drop 1 (slots full)))))
pqueue_pop_lem_example = pqueue_pop_lem ltb ltb-IsPriority full entries full-IsQueue

pqueue_insert_lem_example : Returns (pqueue_insert ltb zeroed full entries 7) (λ o.
    IsQueue ltb o.1 o.2
    × (((o.0 ≡ 0) × (o.1.size ≡ 5) × Perm (slots o.1) (7 ∷ slots full))
        ⊎ ((o.0 ≡ 1) × (4 ≤ 4) × (zeroed 4 ≡ none) × (o.1 ≡ full))))
pqueue_insert_lem_example =
    pqueue_insert_lem ltb ltb-IsPriority full entries full-IsQueue zeroed 7 length-zeroed
      (λ j one l. omega (arith, at_slot j l))

pqueue_is_valid_lem_example :
    Returns (pqueue_is_valid ltb full entries) (λ b. (b ≡ true) ↔ IsHeap ltb entries.pri 4 full.d)
pqueue_is_valid_lem_example = pqueue_is_valid_lem ltb full entries full-IsAllocated

pqueue_remove_lem_example :
    Returns
      (pqueue_remove ltb full entries 1)
      (λ o. IsQueue ltb o.0 o.1 × (o.0.size + 1 ≡ 4) × Perm (1 ∷ slots o.0) (slots full))
pqueue_remove_lem_example =
    pqueue_remove_lem ltb ltb-IsPriority full entries full-IsQueue 1 (omega arith) (omega arith)
      refl

-- The first entry becomes the last.
pqueue_change_priority_lem_example : Returns (pqueue_change_priority ltb full entries 5 1) (λ o.
    IsQueue ltb o.0 o.1
    × (o.0.size ≡ 4)
    × Perm (slots o.0) (slots full)
    × (o.1.pri ≡ store entries.pri 1 5))
pqueue_change_priority_lem_example =
    pqueue_change_priority_lem ltb ltb-IsPriority full entries full-IsQueue 1 (omega arith)
      (omega arith) refl 5
