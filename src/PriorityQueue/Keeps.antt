-- ===== src/PriorityQueue/Keeps.antt =====
-- The operations keep the heap order and the positions of c/libs/pqueue/pqueue.c.
use c_workspace.Common.{
  ℕ, ◌+◌, ◌-◌, ◌/◌, ◌≤◌, ◌<◌, ◌≡◌, ◌≢◌, refl, sym, ap, subst, inl, inr, Bool, true, Bool-cases,
  if◌then◌else◌, List, arith, length, length-set, get_elem?-eq-get_or, get_or, set, write-set,
  Returns,
}
use c_workspace.PriorityQueue.{Entries, PQueue, store, bubble_up, percolate_down}
use c_workspace.PriorityQueue.Order.{
  IsPriority, IsHeap, ArePlaced, IsUp, IsDown, get_or-set, fill_placed,
}
use c_workspace.PriorityQueue.Settle.{bubble_loop-IsSettled, percolate_loop-IsSettled}
use c_workspace.PriorityQueue.Items.{IsAllocated}

-- The heap order on the first `size` items, each of which knows where it is.
pub record IsOrdered {ℓ} {P : Type ℓ} (cmppri : P → P → Bool) (size : ℕ) (d : List ℕ)
    (entries : Entries P) : Type 0 where
  pub heap : IsHeap cmppri entries.pri size d
  pub placed : (j : ℕ) → 1 ≤ j → j < size → entries.position (get_or d j 0) ≡ j

module _ {ℓ} {P : Type ℓ} (cmppri : P → P → Bool) (law : IsPriority cmppri) where
  pub bubble_up-IsOrdered :
      (entries : Entries P) (size : ℕ) (d : List ℕ) (i m : ℕ)
      → 1 ≤ i
      → i < size
      → size ≤ length d
      → get_or d i 0 ≡ m
      → IsUp cmppri entries.pri size d i (entries.pri m)
      → ArePlaced cmppri entries.pri size d i m entries.position
      → Returns (bubble_up cmppri entries d i) (λ o. IsOrdered cmppri size o.0 o.1)
  unfolding bubble_up
  bubble_up-IsOrdered entries size d i m one hi h e v w =
      let (o, f, s) =
        bubble_loop-IsSettled cmppri entries.pri law m size (i + 1) i d entries.position
          (omega arith) one hi h v w in
      (
        (set o.1 o.0 m, record entries { position = store o.2 m o.0 }),
        rw (get_elem?-eq-get_or d i 0 (omega arith), e, f, write-set o.1 o.0 m s.inside) refl,
        record {
          heap = s.heap;
          placed = fill_placed cmppri entries.pri size o.1 o.0 m o.2 s.full s.places;
        },
      )

  pub percolate_down-IsOrdered :
      (entries : Entries P) (size : ℕ) (d : List ℕ) (i m : ℕ)
      → 1 ≤ i
      → i ≤ size
      → i < length d
      → size ≤ length d
      → get_or d i 0 ≡ m
      → IsDown cmppri entries.pri size d i (entries.pri m)
      → ArePlaced cmppri entries.pri size d i m entries.position
      → Returns (percolate_down cmppri entries d size i) (λ o. IsOrdered cmppri size o.0 o.1)
  unfolding percolate_down
  percolate_down-IsOrdered entries size d i m one hi hl h e v w =
      let (o, f, s) =
        percolate_loop-IsSettled cmppri entries.pri law m size (size + 1) i d entries.position
          (omega arith) one hi hl h v w in
      (
        (set o.1 o.0 m, record entries { position = store o.2 m o.0 }),
        rw (get_elem?-eq-get_or d i 0 hl, e, f, write-set o.1 o.0 m s.inside) refl,
        record {
          heap = s.heap;
          placed = fill_placed cmppri entries.pri size o.1 o.0 m o.2 s.full s.places;
        },
      )

  irreflexive : (p : P) → cmppri p p ≡ true → ⊥
  irreflexive p b = let c = law.asym p p b in cc

  module _ (q : PQueue) (entries : Entries P) (a : IsAllocated q)
      (v : IsOrdered cmppri q.size q.d entries) where
    -- Behind the items there is place for one that is not among them.
    pub appended :
        (d : List ℕ) (x : ℕ)
        → q.size < length d
        → ((j : ℕ) → j < q.size → get_or d j 0 ≡ get_or q.d j 0)
        → ((j : ℕ) → 1 ≤ j → j < q.size → get_or q.d j 0 ≢ x)
        → Returns
            (bubble_up cmppri entries (set d q.size x) q.size)
            (λ o. IsOrdered cmppri (q.size + 1) o.0 o.1)
    appended d x h same new =
        let at = λ (j : ℕ). get_or-set d q.size j x in
        let one = a.one in
        bubble_up-IsOrdered entries (q.size + 1) (set d q.size x) q.size x a.one (omega arith)
          (omega (arith, length-set d q.size x)) (ground (arith, at q.size))
          (record {
            edges = λ c x1 y z w. ground (arith, at c, at (c / 2), same c, same (c / 2), v.heap c);
            below = λ c x1 y z. absurd (omega arith);
            bridged = λ c x1 y z w. absurd (omega arith);
          })
          (record {
            placed = λ j x1 y z. ground (arith, at j, same j, v.placed j);
            apart = λ j x1 y z. ground (arith, at j, same j, new j);
          })

    -- The last item in place of the one at `i`, which is put in order by the test that the code makes.
    pub replaced :
        (i : ℕ)
        → 1 ≤ i
        → i < q.size
        → let e = get_or q.d i 0 in
          let last = get_or q.d (q.size - 1) 0 in
          let up = cmppri (entries.pri e) (entries.pri last) in
          let d = set q.d i last in
          Returns
            (if up
              then bubble_up cmppri entries d i
              else percolate_down cmppri entries d (q.size - 1) i)
            (λ o. IsOrdered cmppri (q.size - 1) o.0 o.1)
    replaced i one hi =
        let n = q.size - 1 in
        let e = get_or q.d i 0 in
        let last = get_or q.d n 0 in
        let d = set q.d i last in
        let at = λ (j : ℕ). get_or-set q.d i j last in
        let room : q.size ≤ length q.d = omega (arith, a.fits, a.all) in
        let places : ArePlaced cmppri entries.pri n d i last entries.position = record {
          placed = λ j x y z. ground (arith, at j, v.placed j);
          apart = λ j x y z. ground (arith, at j, v.placed j, v.placed n);
        } in
        elim (Bool-cases (cmppri (entries.pri e) (entries.pri last))) [
          | inl b ↦
              let self = law.asym (entries.pri e) (entries.pri last) in
              let far : i ≢ n = λ t. irreflexive (entries.pri e) (
                subst (λ l. cmppri (entries.pri e) (entries.pri l) ≡ true)
                  (ap (λ j. get_or q.d j 0) (sym t)) b) in
              rw b (
                bubble_up-IsOrdered entries n d i last one (omega arith)
                  (omega (arith, length-set q.d i last)) (ground (arith, at i))
                  (record {
                    edges = λ c x y z w. ground (arith, at c, at (c / 2), v.heap c);
                    below = λ c x y z. ground (
                      arith,
                      at c,
                      v.heap c,
                      self,
                      law.trans (entries.pri last) (entries.pri e) (entries.pri (get_or q.d c 0)),
                    );
                    bridged = λ c x y z w. ground (
                      arith,
                      at c,
                      at (i / 2),
                      v.heap c,
                      v.heap i,
                      law.trans (entries.pri (get_or q.d (i / 2) 0)) (entries.pri e)
                          (entries.pri (get_or q.d c 0)),
                    );
                  })
                  places)
          | inr b ↦ rw b (
              percolate_down-IsOrdered entries n d i last one (omega arith)
                (omega (arith, length-set q.d i last)) (omega (arith, length-set q.d i last))
                (ground (arith, at i))
                (record {
                  edges = λ c x y z w. ground (arith, at c, at (c / 2), v.heap c);
                  above = λ x y. ground (
                    arith,
                    at (i / 2),
                    v.heap i,
                    law.trans (entries.pri (get_or q.d (i / 2) 0)) (entries.pri e)
                        (entries.pri last),
                  );
                  bridged = λ c x y z w. ground (
                    arith,
                    at c,
                    at (i / 2),
                    v.heap c,
                    v.heap i,
                    law.trans (entries.pri (get_or q.d (i / 2) 0)) (entries.pri e)
                        (entries.pri (get_or q.d c 0)),
                  );
                })
                places)
        ]
