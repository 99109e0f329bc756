-- ===== src/PriorityQueue/Laws.antt =====
-- What the functions of pqueue.h promise on a queue in order.
use c_workspace.Common.{
  ℕ, zero, suc, ◌+◌, ◌-◌, ◌/◌, ◌≤◌, ◌<◌, ◌≡◌, ◌≢◌, ◌⊎◌, refl, inl, inr, ◌==◌, leb, Bool, false,
  Bool-cases, if◌then◌else◌, Option, Option-cases, some, none, List, [], ◌∷◌, ◌++◌, arith, length,
  length-set, length-append, get_elem?-eq-get_or, get_or, get_or-append, set, write-set, Returns,
  All, drop, take, Returns-both, Returns-imp,
}
use mathlib.Core.List.{Perm}
use c_workspace.PriorityQueue.{Entries, PQueue, pqueue_insert, pqueue_pop}
use c_workspace.PriorityQueue.Order.{IsPriority, key, get_or-set}
use c_workspace.PriorityQueue.Items.{slots, IsAllocated, pqueue_pop-Perm, pqueue_insert-Perm}
use c_workspace.PriorityQueue.Keeps.{IsOrdered, appended, percolate_down-IsOrdered}

-- A queue that is allocated and in order.
pub record IsQueue {ℓ} {P : Type ℓ} (cmppri : P → P → Bool) (q : PQueue) (entries : Entries P)
    : Type 0 where
  pub allocated : IsAllocated q
  pub ordered : IsOrdered cmppri q.size q.d entries

take-All :
    (R : ℕ → Type 0) (d : List ℕ) (n : ℕ) → ((j : ℕ) → j < n → R (get_or d j 0)) → All R (take n d)
take-All R d zero h = tt
take-All R [] (suc n) h = tt
take-All R (x ∷ d) (suc n) h = (h 0 (omega arith), take-All R d n (λ j k. h (suc j) (omega arith)))

drop_take-All :
    (R : ℕ → Type 0) (d : List ℕ) (n : ℕ)
    → ((j : ℕ) → 1 ≤ j → j < n → R (get_or d j 0))
    → All R (drop 1 (take n d))
drop_take-All R d zero h = tt
drop_take-All R [] (suc n) h = tt
drop_take-All R (x ∷ d) (suc n) h = take-All R d n (λ j k. h (suc j) (omega arith) (omega arith))

module _ {ℓ} {P : Type ℓ} (cmppri : P → P → Bool) (law : IsPriority cmppri) (q : PQueue)
    (entries : Entries P) (v : IsQueue cmppri q entries) where
  first_below :
      (k j : ℕ)
      → j < k
      → 1 ≤ j
      → j < q.size
      → cmppri (key cmppri entries.pri q.d 1) (key cmppri entries.pri q.d j) ≡ false
  first_below zero j f one hj = absurd (omega arith)
  first_below (suc k) j f one hj = elim (Bool-cases (j == 1)) [
    | inl e ↦ let g : j ≡ 1 = ground arith in rw g (first_self (key cmppri entries.pri q.d 1))
    | inr e ↦
        law.trans (key cmppri entries.pri q.d 1) (key cmppri entries.pri q.d (j / 2))
          (key cmppri entries.pri q.d j)
          (first_below k (j / 2) (ground arith) (ground arith) (omega arith))
          (v.ordered.heap j (ground arith) hj)
  ]
    where
      first_self : (p : P) → cmppri p p ≡ false
      first_self p = ground (arith, law.asym p p)

  -- No item is before the first.
  pub first_best :
      (j : ℕ)
      → 1 ≤ j
      → j < q.size
      → cmppri (key cmppri entries.pri q.d 1) (key cmppri entries.pri q.d j) ≡ false
  first_best j one hj = first_below (suc j) j (omega arith) one hj

  pub room : q.size ≤ length q.d
  room = let a = v.allocated in omega (arith, a.fits, a.all)

  pop-IsOrdered : Returns (pqueue_pop cmppri q entries) (λ o.
      IsOrdered cmppri o.1.size o.1.d o.2
      × (o.0 ≡ (if q.size == 1 then none else some (get_or q.d 1 0))))
  unfolding pqueue_pop
  pop-IsOrdered = elim (Bool-cases (q.size == 1)) [
    | inl b ↦ rw (b, pqueue_pop) ((none, q, entries), refl, (v.ordered, refl))
    | inr b ↦
        let n = q.size - 1 in
        let one = v.allocated.one in
        let two : 2 ≤ q.size = ground arith in
        let last = get_or q.d n 0 in
        let d = set q.d 1 last in
        let at = λ (j : ℕ). get_or-set q.d 1 j last in
        let r = room in
        let (o, e, w) =
          percolate_down-IsOrdered cmppri law entries n d 1 last (omega arith) (omega arith)
            (omega (arith, length-set q.d 1 last)) (omega (arith, length-set q.d 1 last))
            (ground (arith, at 1))
            (record {
              edges = λ c x y z w. ground (arith, at c, at (c / 2), v.ordered.heap c);
              above = λ x y. absurd (omega arith);
              bridged = λ c x y z w. absurd (omega arith);
            })
            (record {
              placed = λ j x y z. ground (arith, at j, v.ordered.placed j);
              apart = λ j x y z. ground (arith, at j, v.ordered.placed j, v.ordered.placed n);
            }) in
        (
          (some (get_or q.d 1 0), record q { size = n; d = o.0 }, o.1),
          rw
              (
                b,
                pqueue_pop,
                get_elem?-eq-get_or q.d 1 0 (omega arith),
                get_elem?-eq-get_or q.d n 0 (omega arith),
                write-set q.d 1 last (omega arith),
                e,
              )
              refl,
          (w, rw b refl),
        )
  ]

  insert-IsOrdered :
      (more : ℕ → Option (List ℕ)) (x : ℕ)
      → ((n : ℕ) (extra : List ℕ) → more n ≡ some extra → length extra ≡ n)
      → ((j : ℕ) → 1 ≤ j → j < q.size → get_or q.d j 0 ≢ x)
      → Returns (pqueue_insert cmppri more q entries x) (λ o. IsOrdered cmppri o.1.size o.1.d o.2)
  unfolding pqueue_insert
  insert-IsOrdered more x asked new =
      let al = v.allocated in
      let r = room in
      elim (Bool-cases (leb q.avail q.size)) [
        | inr b ↦
            let free : q.size < length q.d = ground (arith, al.all) in
            let (o, e, w) =
              appended cmppri law q entries al v.ordered q.d x free (λ j h. refl) new in
            (
              (0, record q { size = q.size + 1; d = o.0 }, o.1),
              rw (b, pqueue_insert, write-set q.d q.size x free, e) refl,
              w,
            )
        | inl b ↦ elim (Option-cases (more q.step)) [
          | inl c ↦ ((1, q, entries), rw (b, pqueue_insert, c) refl, v.ordered)
          | inr (extra, c) ↦
              let len : q.size < length (q.d ++ extra) =
                omega (arith, length-append q.d extra, asked q.step extra c, al.grows) in
              let (o, e, w) =
                appended cmppri law q entries al v.ordered (q.d ++ extra) x len
                  (λ j h. get_or-append q.d extra j 0 (omega arith)) new in
              (
                (0, record q { avail = q.size + q.step; size = q.size + 1; d = o.0 }, o.1),
                rw (b, pqueue_insert, c, write-set (q.d ++ extra) q.size x len, e) refl,
                w,
              )
        ]
      ]

  -- `pqueue_insert` of an entry that is not in the queue, where realloc gives as much memory as is asked
  -- for, or none, keeps a queue in order. It returns 0 and adds the entry, or it returns 1 and changes
  -- nothing: then the queue is full, and there was no memory.
  pub pqueue_insert_lem :
      (more : ℕ → Option (List ℕ)) (x : ℕ)
      → ((n : ℕ) (extra : List ℕ) → more n ≡ some extra → length extra ≡ n)
      → ((j : ℕ) → 1 ≤ j → j < q.size → get_or q.d j 0 ≢ x)
      → Returns (pqueue_insert cmppri more q entries x) (λ o.
        IsQueue cmppri o.1 o.2
        × (((o.0 ≡ 0) × (o.1.size ≡ q.size + 1) × Perm (slots o.1) (x ∷ slots q))
            ⊎ ((o.0 ≡ 1) × (q.avail ≤ q.size) × (more q.step ≡ none) × (o.1 ≡ q))))
  pqueue_insert_lem more x asked new =
      Returns-imp _ _ _
        (Returns-both _ _ _ (pqueue_insert-Perm cmppri q entries v.allocated more asked x)
          (insert-IsOrdered more x asked new))
        (λ o h. (record { allocated = h.0.0; ordered = h.1 }, h.0.1))

  -- `pqueue_pop` keeps a queue in order. It gives NULL and changes nothing if there is no entry; else it
  -- gives the entry at the index 1, takes only that out, and no entry of the queue is before it.
  pub pqueue_pop_lem : Returns (pqueue_pop cmppri q entries) (λ o.
      IsQueue cmppri o.1 o.2
      × (((q.size ≡ 1) × (o.0 ≡ none) × (o.1 ≡ q))
          ⊎ ((head : ℕ) × (o.0 ≡ some head)
              × (o.1.size + 1 ≡ q.size)
              × Perm (head ∷ slots o.1) (slots q)
              × All (λ e. cmppri (entries.pri head) (entries.pri e) ≡ false) (drop 1 (slots q)))))
  pqueue_pop_lem =
      Returns-imp _ _ _
        (Returns-both _ _ _ (pqueue_pop-Perm cmppri q entries v.allocated) pop-IsOrdered)
        (λ o h. (record { allocated = h.0.0; ordered = h.1.0 }, popped o h.0.1 h.1.1))
    where
      popped :
          (o : Option ℕ × PQueue × Entries P)
          → ((q.size ≡ 1) × (o.0 ≡ none) × (o.1 ≡ q))
            ⊎ ((head : ℕ) × (o.0 ≡ some head)
                × (o.1.size + 1 ≡ q.size)
                × Perm (head ∷ slots o.1) (slots q))
          → o.0 ≡ (if q.size == 1 then none else some (get_or q.d 1 0))
          → ((q.size ≡ 1) × (o.0 ≡ none) × (o.1 ≡ q))
            ⊎ ((head : ℕ) × (o.0 ≡ some head)
                × (o.1.size + 1 ≡ q.size)
                × Perm (head ∷ slots o.1) (slots q)
                × All (λ e. cmppri (entries.pri head) (entries.pri e) ≡ false) (drop 1 (slots q)))
      popped o (inl z) e = inl z
      popped o (inr (head, f, g, p)) e =
          let same : head ≡ get_or q.d 1 0 = ground (arith, e, f) in
          inr (
            head,
            f,
            g,
            p,
            drop_take-All (λ e. cmppri (entries.pri head) (entries.pri e) ≡ false) q.d q.size
                (λ j one hj. rw same (first_best j one hj)),
          )
