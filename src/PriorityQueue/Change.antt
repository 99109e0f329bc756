-- ===== src/PriorityQueue/Change.antt =====
-- `pqueue_remove` and `pqueue_change_priority` of c/libs/pqueue/pqueue.c on a queue in order.
use c_workspace.Common.{
  ℕ, ◌+◌, ◌-◌, ◌/◌, ◌≤◌, ◌<◌, ◌≡◌, refl, ap, ◌∙◌, subst, inl, inr, Bool, true, false, Bool-cases,
  if◌then◌else◌, some, List, ◌∷◌, arith, length, length-set, get_elem?, get_elem?-eq-get_or, get_or,
  set, write-set, take, Returns, Returns-both,
}
use mathlib.Core.List.{Perm}
use mathlib.Core.List.Perm
use c_workspace.PriorityQueue.{
  Entries, PQueue, store, bubble_up, percolate_down, move, pqueue_remove, pqueue_change_priority,
}
use c_workspace.PriorityQueue.Order.{IsPriority, ArePlaced}
use c_workspace.PriorityQueue.Moves.{Rearranged, bubble_up-Rearranged, percolate_down-Rearranged}
use c_workspace.PriorityQueue.Items.{slots, take-Perm, item_out}
use c_workspace.PriorityQueue.Keeps.{
  IsOrdered, replaced, bubble_up-IsOrdered, percolate_down-IsOrdered,
}
use c_workspace.PriorityQueue.Laws.{IsQueue, room}

module _ {ℓ} {P : Type ℓ} (cmppri : P → P → Bool) where
  moved-Rearranged :
      (up : Bool) (entries : Entries P) (d : List ℕ) (size i : ℕ)
      → 1 ≤ i
      → i ≤ size
      → i < length d
      → size ≤ length d
      → (up ≡ true → i < size)
      → Returns
          (if up then bubble_up cmppri entries d i else percolate_down cmppri entries d size i)
          (Rearranged size entries d)
  moved-Rearranged true entries d size i one hi hl h u =
      bubble_up-Rearranged cmppri entries size d i (u refl) hl
  moved-Rearranged false entries d size i one hi hl h u =
      percolate_down-Rearranged cmppri entries d size i one hi hl h

  module _ (law : IsPriority cmppri) (q : PQueue) (entries : Entries P)
      (v : IsQueue cmppri q entries) (e : ℕ) (one : 1 ≤ entries.position e)
      (inside : entries.position e < q.size) (there : get_or q.d (entries.position e) 0 ≡ e) where
    -- `pqueue_remove` of an entry of the queue keeps the queue in order, and takes only that entry out.
    pub pqueue_remove_lem :
        Returns
          (pqueue_remove cmppri q entries e)
          (λ o. IsQueue cmppri o.0 o.1 × (o.0.size + 1 ≡ q.size) × Perm (e ∷ slots o.0) (slots q))
    unfolding pqueue_remove
    pqueue_remove_lem =
        let i = entries.position e in
        let n = q.size - 1 in
        let last = get_or q.d n 0 in
        let up = cmppri (entries.pri e) (entries.pri last) in
        let al = v.allocated in
        let rm = room cmppri law q entries v in
        let big : n + 1 ≡ q.size = omega arith in
        let d = set q.d i last in
        let f = get_elem?-eq-get_or q.d n 0 (omega arith) in
        let at_e : get_elem? q.d i ≡ some e =
          get_elem?-eq-get_or q.d i 0 (omega arith) ∙ ap some there in
        let far = λ (u : up ≡ true). before_last u in
        let (o, g, s) =
          Returns-both _ _ _
            (moved-Rearranged up entries d n i one (omega arith)
              (omega (arith, length-set q.d i last)) (omega (arith, length-set q.d i last)) far)
            (rw there at (replaced cmppri law q entries al v.ordered i one inside)) in
        let kept : Perm (take n o.0) (take n d) = take-Perm n o.0 d s.0.items s.0.rest in
        let all : Perm (e ∷ take n o.0) (take (n + 1) q.d) =
          Perm.trans (Perm.cons e kept) (item_out q.d n i e last (omega arith) at_e f) in
        (
          (record q { size = n; d = o.0 }, o.1),
          rw (f, write-set q.d i last (omega arith)) (unfold move in rw g refl),
          (
            record {
              allocated = record {
                one = omega arith;
                fits = omega (arith, al.fits);
                all = s.0.size ∙ length-set q.d i last ∙ al.all;
                grows = al.grows;
              };
              ordered = s.1;
            },
            big,
            subst (λ m. Perm (e ∷ take n o.0) (take m q.d)) big all,
          ),
        )
      where
        before_last :
            cmppri (entries.pri e) (entries.pri (get_or q.d (q.size - 1) 0)) ≡ true
            → entries.position e < q.size - 1
        before_last u =
            ground
              (arith, there, law.asym (entries.pri e) (entries.pri (get_or q.d (q.size - 1) 0)))

    settled :
        (new_pri : P)
        → let changed : Entries P = record entries { pri = store entries.pri e new_pri } in
          Returns
            (if cmppri (entries.pri e) new_pri
              then bubble_up cmppri changed q.d (entries.position e)
              else percolate_down cmppri changed q.d q.size (entries.position e))
            (λ o. IsOrdered cmppri q.size o.0 o.1)
    settled new_pri =
        let i = entries.position e in
        let changed : Entries P = record entries { pri = store entries.pri e new_pri } in
        let rm = room cmppri law q entries v in
        let w = v.ordered in
        let old = λ (c : ℕ). entries.pri (get_or q.d c 0) in
        let places : ArePlaced cmppri changed.pri q.size q.d i e changed.position = record {
          placed = λ j x y z. w.placed j x y;
          apart = λ j x y z. ground (arith, w.placed j);
        } in
        elim (Bool-cases (cmppri (entries.pri e) new_pri)) [
          | inl b ↦ rw b (
              bubble_up-IsOrdered cmppri law changed q.size q.d i e one inside rm there
                (record {
                  edges = λ c x y z t. ground (arith, w.heap c, w.placed c, w.placed (c / 2));
                  below = λ c x y z. ground (
                    arith,
                    w.heap c,
                    w.placed c,
                    there,
                    law.asym (entries.pri e) new_pri,
                    law.trans new_pri (entries.pri e) (old c),
                  );
                  bridged = λ c x y z t. ground (
                    arith,
                    w.heap c,
                    w.heap i,
                    w.placed c,
                    w.placed (i / 2),
                    there,
                    law.trans (old (i / 2)) (entries.pri e) (old c),
                  );
                })
                places)
          | inr b ↦ rw b (
              percolate_down-IsOrdered cmppri law changed q.size q.d i e one (omega arith)
                (omega arith) rm there
                (record {
                  edges = λ c x y z t. ground (arith, w.heap c, w.placed c, w.placed (c / 2));
                  above = λ x y. ground (
                    arith,
                    w.heap i,
                    w.placed (i / 2),
                    there,
                    law.trans (old (i / 2)) (entries.pri e) new_pri,
                  );
                  bridged = λ c x y z t. ground (
                    arith,
                    w.heap c,
                    w.heap i,
                    w.placed c,
                    w.placed (i / 2),
                    there,
                    law.trans (old (i / 2)) (entries.pri e) (old c),
                  );
                })
                places)
        ]

    -- `pqueue_change_priority` of an entry of the queue gives it the new priority, and leaves the queue in
    -- order for that, with the same entries.
    pub pqueue_change_priority_lem :
        (new_pri : P)
        → Returns (pqueue_change_priority cmppri q entries new_pri e) (λ o.
          IsQueue cmppri o.0 o.1
          × (o.0.size ≡ q.size)
          × Perm (slots o.0) (slots q)
          × (o.1.pri ≡ store entries.pri e new_pri))
    unfolding pqueue_change_priority
    pqueue_change_priority_lem new_pri =
        let i = entries.position e in
        let up = cmppri (entries.pri e) new_pri in
        let al = v.allocated in
        let rm = room cmppri law q entries v in
        let changed : Entries P = record entries { pri = store entries.pri e new_pri } in
        let (o, g, s) =
          Returns-both _ _ _
            (moved-Rearranged up changed q.d q.size i one (omega arith) (omega arith) rm
              (λ u. inside))
            (settled new_pri) in
        (
          (record q { d = o.0 }, o.1),
          unfold move in rw g refl,
          (
            record {
              allocated = record {
                one = al.one;
                fits = al.fits;
                all = s.0.size ∙ al.all;
                grows = al.grows;
              };
              ordered = s.1;
            },
            refl,
            take-Perm q.size o.0 q.d s.0.items s.0.rest,
            s.0.pri,
          ),
        )
