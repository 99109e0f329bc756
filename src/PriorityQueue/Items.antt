-- ===== src/PriorityQueue/Items.antt =====
-- The items of a queue of c/libs/pqueue/pqueue.c before and after an operation.
use c_workspace.Common.{
  ℕ, zero, suc, ◌+◌, ◌-◌, ◌≤◌, ◌<◌, ◌≡◌, ◌⊎◌, refl, ap, sym, subst, ◌∙◌, inl, inr, ◌==◌, leb, Bool,
  Bool-cases, some, none, Option, Option-cases, List, [], ◌∷◌, ◌++◌, append-nil, arith, length,
  length-append, length-set, get_elem?, set, write-set, drop, take, drop-elem, Returns,
}
use mathlib.Core.List.{Perm, perm_append_singleton, perm-append_right_iff}
use mathlib.Core.List.Perm
use c_workspace.Permute.Swap.{set-Perm}
use c_workspace.PriorityQueue.{Entries, PQueue, bubble_up, pqueue_insert, pqueue_pop}
use c_workspace.PriorityQueue.Moves.{bubble_up-Rearranged, percolate_down-Rearranged}

-- The slot 0, which is not used, and the items of the queue.
abbrev pub slots : PQueue → List ℕ
slots q = take q.size q.d

-- The slot 0 is counted, what is allocated is there, and more memory is asked for than nothing.
pub record IsAllocated (q : PQueue) : Type 0 where
  pub one : 1 ≤ q.size
  pub fits : q.size ≤ q.avail
  pub all : length q.d ≡ q.avail
  pub grows : 1 ≤ q.step

take-drop : (n : ℕ) (xs : List ℕ) → take n xs ++ drop n xs ≡ xs
take-drop zero xs = refl
take-drop (suc n) [] = refl
take-drop (suc n) (x ∷ xs) = ap (λ l. x ∷ l) (take-drop n xs)

pub take-Perm :
    (n : ℕ) (xs ys : List ℕ) → Perm xs ys → drop n xs ≡ drop n ys → Perm (take n xs) (take n ys)
take-Perm n xs ys p e = (perm-append_right_iff (drop n ys)).0 (
    subst (λ l. Perm (take n xs ++ l) (take n ys ++ drop n ys)) e
      (subst (λ l. Perm l (take n ys ++ drop n ys)) (sym (take-drop n xs))
        (subst (λ l. Perm xs l) (sym (take-drop n ys)) p)))

take-set : (n j m : ℕ) (xs : List ℕ) → take n (set xs j m) ≡ set (take n xs) j m
take-set zero j m xs = refl
take-set (suc n) j m [] = refl
take-set (suc n) zero m (x ∷ xs) = refl
take-set (suc n) (suc j) m (x ∷ xs) = ap (λ l. x ∷ l) (take-set n j m xs)

-- One item more.
take-append_set :
    (xs more : List ℕ) (n x : ℕ)
    → n ≤ length xs
    → n < length (xs ++ more)
    → take (n + 1) (set (xs ++ more) n x) ≡ take n xs ++ (x ∷ [])
take-append_set [] [] n x h k = absurd (omega arith)
take-append_set [] (y ∷ more) zero x h k = refl
take-append_set [] (y ∷ more) (suc n) x h k = absurd (omega arith)
take-append_set (y ∷ xs) more zero x h k = refl
take-append_set (y ∷ xs) more (suc n) x h k =
    let e : suc n + 1 ≡ suc (n + 1) = omega arith in
    rw e (ap (λ l. y ∷ l) (take-append_set xs more n x (omega arith) (omega arith)))

-- The last item.
take_last :
    (xs : List ℕ) (n last : ℕ)
    → get_elem? xs n ≡ some last
    → take (n + 1) xs ≡ take n xs ++ (last ∷ [])
take_last [] n last e = cc
take_last (x ∷ xs) zero last e = let f : x ≡ last = cc in ap (λ y. y ∷ []) f
take_last (x ∷ xs) (suc n) last e =
    let s : suc n + 1 ≡ suc (n + 1) = omega arith in rw s (ap (λ l. x ∷ l) (take_last xs n last e))

elem-take :
    (xs : List ℕ) (n i a : ℕ) → i < n → get_elem? xs i ≡ some a → get_elem? (take n xs) i ≡ some a
elem-take [] n i a h e = cc
elem-take (x ∷ xs) zero i a h e = absurd (omega arith)
elem-take (x ∷ xs) (suc n) zero a h e = e
elem-take (x ∷ xs) (suc n) (suc i) a h e = elem-take xs n i a (omega arith) e

out_of_range : (xs : List ℕ) (n m : ℕ) → set (take n xs) n m ≡ take n xs
out_of_range xs zero m = refl
out_of_range [] (suc n) m = refl
out_of_range (x ∷ xs) (suc n) m = ap (λ l. x ∷ l) (out_of_range xs n m)

-- An item goes, and the last one takes its place.
pub item_out :
    (d : List ℕ) (n i e last : ℕ)
    → i ≤ n
    → get_elem? d i ≡ some e
    → get_elem? d n ≡ some last
    → Perm (e ∷ take n (set d i last)) (take (n + 1) d)
item_out d n i e last h f g =
    rw (take-set n i last d, take_last d n last g)
      (Perm.trans
        (elim (Bool-cases (i == n)) [
          | inl b ↦
              let same : i ≡ n = ground arith in
              let same' : e ≡ last = cc in
              rw (same, same')
                (subst (λ l. Perm (last ∷ l) (last ∷ take n d)) (sym (out_of_range d n last))
                  (Perm.refl (last ∷ take n d)))
          | inr b ↦ set-Perm (take n d) i last e (elem-take d n i e (ground arith) f)
        ])
        (Perm.symm (perm_append_singleton last (take n d))))

module _ {ℓ} {P : Type ℓ} (cmppri : P → P → Bool) (q : PQueue) (entries : Entries P)
    (v : IsAllocated q) where
  -- Putting `x` behind the items and moving it up.
  bubbled :
      (more : List ℕ) (x : ℕ)
      → q.size < length (q.d ++ more)
      → Returns
          (bubble_up cmppri entries (set (q.d ++ more) q.size x) q.size)
          (λ o. (length o.0 ≡ length (q.d ++ more)) × Perm (take (q.size + 1) o.0) (x ∷ slots q))
  bubbled more x h =
      let (o, e, r) =
        bubble_up-Rearranged cmppri entries (q.size + 1) (set (q.d ++ more) q.size x) q.size
          (omega arith) (omega (arith, length-set (q.d ++ more) q.size x)) in
      (
        o,
        e,
        (
          r.size ∙ length-set (q.d ++ more) q.size x,
          Perm.trans (take-Perm (q.size + 1) o.0 (set (q.d ++ more) q.size x) r.items r.rest) (
              subst (λ l. Perm l (x ∷ slots q))
                (sym (take-append_set q.d more q.size x (omega (arith, v.fits, v.all)) h))
                (perm_append_singleton x (slots q))),
        ),
      )

  -- `pqueue_pop` on a queue returns and keeps it allocated. It gives NULL and changes nothing if there is
  -- no item, and else an item: that and the items left are the items before.
  pub pqueue_pop-Perm : Returns (pqueue_pop cmppri q entries) (λ o.
      IsAllocated o.1
      × (((q.size ≡ 1) × (o.0 ≡ none) × (o.1 ≡ q))
          ⊎ ((head : ℕ) × (o.0 ≡ some head)
              × (o.1.size + 1 ≡ q.size)
              × Perm (head ∷ slots o.1) (slots q))))
  unfolding pqueue_pop
  pqueue_pop-Perm = elim (Bool-cases (q.size == 1)) [
    | inl b ↦ rw (b, pqueue_pop) (_, refl, (v, inl (ground arith, refl, refl)))
    | inr b ↦
        let n = q.size - 1 in
        let two : 2 ≤ q.size = ground (arith, v.one) in
        let big : (1 ≤ n) × (n + 1 ≡ q.size) = (omega arith, omega arith) in
        let room : q.size ≤ length q.d = omega (arith, v.fits, v.all) in
        let (head, e, _) = drop-elem q.d 1 (omega arith) in
        let (last, f, _) = drop-elem q.d n (omega arith) in
        let d0 = set q.d 1 last in
        let (o, k, r) =
          percolate_down-Rearranged cmppri entries d0 n 1 (omega arith) big.0
            (omega (arith, length-set q.d 1 last)) (omega (arith, length-set q.d 1 last)) in
        let kept : Perm (take n o.0) (take n d0) = take-Perm n o.0 d0 r.items r.rest in
        let all : Perm (head ∷ take n o.0) (take (n + 1) q.d) =
          Perm.trans (Perm.cons head kept) (item_out q.d n 1 head last big.0 e f) in
        (
          (some head, record q { size = n; d = o.0 }, o.1),
          rw (b, pqueue_pop, e, f, write-set q.d 1 last (omega arith), k) refl,
          (
            record {
              one = big.0;
              fits = omega (arith, v.fits);
              all = r.size ∙ length-set q.d 1 last ∙ v.all;
              grows = v.grows;
            },
            inr (head, refl, big.1, subst (λ m. Perm (head ∷ take n o.0) (take m q.d)) big.1 all),
          ),
        )
  ]

  -- `pqueue_insert`, where realloc gives as much memory as is asked for, or none, returns and keeps the
  -- queue allocated. It returns 0 and adds the item, or it returns 1 and changes nothing: then the queue is
  -- full, and there was no memory.
  pub pqueue_insert-Perm :
      (more : ℕ → Option (List ℕ))
      → ((n : ℕ) (extra : List ℕ) → more n ≡ some extra → length extra ≡ n)
      → (x : ℕ)
      → Returns (pqueue_insert cmppri more q entries x) (λ o.
        IsAllocated o.1
        × (((o.0 ≡ 0) × (o.1.size ≡ q.size + 1) × Perm (slots o.1) (x ∷ slots q))
            ⊎ ((o.0 ≡ 1) × (q.avail ≤ q.size) × (more q.step ≡ none) × (o.1 ≡ q))))
  unfolding pqueue_insert
  pqueue_insert-Perm more asked x = elim (Bool-cases (leb q.avail q.size)) [
    | inr b ↦
        let free : q.size < length q.d = ground (arith, v.all) in
        let (o, e, r) = rw (append-nil q.d) at (bubbled [] x (rw (append-nil q.d) free)) in
        (
          (0, record q { size = q.size + 1; d = o.0 }, o.1),
          rw (b, pqueue_insert, write-set q.d q.size x free, e) refl,
          (
            record {
              one = omega arith;
              fits = omega (arith, v.all);
              all = r.0 ∙ v.all;
              grows = v.grows;
            },
            inl (refl, refl, r.1),
          ),
        )
    | inl b ↦
        let full : q.avail ≤ q.size = ground arith in
        elim (Option-cases (more q.step)) [
          | inl c ↦ ((1, q, entries), rw (b, pqueue_insert, c) refl, (v, inr (refl, full, c, refl)))
          | inr (extra, c) ↦
              let len : length (q.d ++ extra) ≡ q.size + q.step =
                omega (arith, length-append q.d extra, asked q.step extra c, v.all, v.fits) in
              let (o, e, r) = bubbled extra x (omega (arith, v.grows)) in
              (
                (0, record q { avail = q.size + q.step; size = q.size + 1; d = o.0 }, o.1),
                rw
                    (
                      b,
                      pqueue_insert,
                      c,
                      write-set (q.d ++ extra) q.size x (omega (arith, v.grows)),
                      e,
                    )
                    refl,
                (
                  record {
                    one = omega arith;
                    fits = omega (arith, v.grows);
                    all = r.0 ∙ len;
                    grows = v.grows;
                  },
                  inl (refl, refl, r.1),
                ),
              )
        ]
  ]
