-- ===== src/PriorityQueue/Moves.antt =====
-- `bubble_up` and `percolate_down` of c/libs/pqueue/pqueue.c move the items of the array.
use c_workspace.Common.{
  ℕ, zero, suc, ◌+◌, ◌*◌, ◌/◌, ◌≤◌, ◌<◌, ◌≡◌, ◌≢◌, ◌⊎◌, refl, ap, sym, subst, ◌∙◌, inl, inr, ◌==◌,
  ltb, leb, Bool, Bool-cases, some, ◌>>=◌, List, [], ◌∷◌, arith, length, length-set, get_elem?, set,
  write-set, drop, drop-elem, Returns,
}
use mathlib.Core.List.{Perm}
use mathlib.Core.List.Perm
use c_workspace.Permute.Swap.{set-Perm}
use c_workspace.PriorityQueue.{
  Entries, store, bubble_loop, bubble_up, maxchild, percolate_loop, percolate_down,
}

set_here : (xs : List ℕ) (i m p : ℕ) → i < length xs → Perm (m ∷ set xs i p) (p ∷ set xs i m)
set_here [] i m p h = absurd (omega arith)
set_here (z ∷ zs) zero m p h = Perm.swap p m zs
set_here (z ∷ zs) (suc i) m p h =
    Perm.trans (Perm.swap z m (set zs i p))
      (Perm.trans (Perm.cons z (set_here zs i m p (omega arith))) (Perm.swap p z (set zs i m)))

-- A hole that the item `m` is for moves from `i` to `j`.
hole-Perm :
    (d : List ℕ) (i j m p : ℕ)
    → i ≢ j
    → i < length d
    → get_elem? d j ≡ some p
    → Perm (set (set d i p) j m) (set d i m)
hole-Perm [] i j m p ne h e = absurd (omega arith)
hole-Perm (x ∷ xs) zero zero m p ne h e = absurd (ne refl)
hole-Perm (x ∷ xs) zero (suc j) m p ne h e = set-Perm xs j m p e
hole-Perm (x ∷ xs) (suc i) zero m p ne h e =
    let f : x ≡ p = cc in rw f (set_here xs i m p (omega arith))
hole-Perm (x ∷ xs) (suc i) (suc j) m p ne h e =
    Perm.cons x (hole-Perm xs i j m p (λ q. ne (ap suc q)) (omega arith) e)

set_self : (d : List ℕ) (i m : ℕ) → get_elem? d i ≡ some m → set d i m ≡ d
set_self [] i m e = refl
set_self (x ∷ xs) zero m e = let f : x ≡ m = cc in ap (λ y. y ∷ xs) (sym f)
set_self (x ∷ xs) (suc i) m e = ap (λ l. x ∷ l) (set_self xs i m e)

drop-set : (d : List ℕ) (i n m : ℕ) → i < n → drop n (set d i m) ≡ drop n d
drop-set [] i n m h = refl
drop-set (x ∷ xs) i zero m h = absurd (omega arith)
drop-set (x ∷ xs) zero (suc n) m h = refl
drop-set (x ∷ xs) (suc i) (suc n) m h = drop-set xs i n m (omega arith)

-- What a loop that starts at `i` leaves: a hole within the array, for `m` as before. Nothing changes
-- from `bound` on.
record Moved (bound : ℕ) (d : List ℕ) (i m : ℕ) (o : ℕ × List ℕ × (ℕ → ℕ)) : Type 0 where
  inside : o.0 < length d
  size : length o.1 ≡ length d
  items : Perm (set o.1 o.0 m) (set d i m)
  rest : drop bound (set o.1 o.0 m) ≡ drop bound (set d i m)

step-Moved :
    (bound : ℕ) (d : List ℕ) (i j m p : ℕ) (o : ℕ × List ℕ × (ℕ → ℕ))
    → i ≢ j
    → i < length d
    → get_elem? d j ≡ some p
    → i < bound
    → j < bound
    → Moved bound (set d i p) j m o
    → Moved bound d i m o
step-Moved bound d i j m p o ne h e bi bj v = record {
  inside = omega (arith, v.inside, length-set d i p);
  size = v.size ∙ length-set d i p;
  items = Perm.trans v.items (hole-Perm d i j m p ne h e);
  rest =
      v.rest
      ∙ drop-set (set d i p) j bound m bj
      ∙ drop-set d i bound p bi
      ∙ sym (drop-set d i bound m bi);
}

here-Moved :
    (bound : ℕ) (d : List ℕ) (i m : ℕ) (position : ℕ → ℕ)
    → i < length d
    → Moved bound d i m (i, d, position)
here-Moved bound d i m position h = record {
  inside = h;
  size = refl;
  items = Perm.refl (set d i m);
  rest = refl;
}

module _ {ℓ} {P : Type ℓ} (cmppri : P → P → Bool) (pri : ℕ → P) (mp : P) where
  bubble_loop-Moved :
      (bound m fuel i : ℕ) (d : List ℕ) (position : ℕ → ℕ)
      → i < fuel
      → i < bound
      → i < length d
      → Returns (bubble_loop cmppri fuel pri mp i d position) (Moved bound d i m)
  unfolding bubble_loop
  bubble_loop-Moved bound m zero i d position f hb h = absurd (omega arith)
  bubble_loop-Moved bound m (suc fuel) i d position f hb h = elim (Bool-cases (ltb 1 i)) [
    | inr b ↦ rw (b, bubble_loop) ((i, d, position), refl, here-Moved bound d i m position h)
    | inl b ↦
        let big : 1 < i = ground arith in
        let (p, e, _) = drop-elem d (i / 2) (omega arith) in
        elim (Bool-cases (cmppri (pri p) mp)) [
          | inr c ↦
              rw (b, bubble_loop, e, ◌>>=◌, c)
                ((i, d, position), refl, here-Moved bound d i m position h)
          | inl c ↦
              let (o, k, v) =
                bubble_loop-Moved bound m fuel (i / 2) (set d i p) (store position p i)
                  (omega arith) (omega arith) (omega (arith, length-set d i p)) in
              (
                o,
                rw (b, bubble_loop, e, ◌>>=◌, c, write-set d i p h) k,
                step-Moved bound d i (i / 2) m p o (λ q. omega arith) h e hb (omega arith) v,
              )
        ]
  ]

  -- The child is none, or an item of the queue behind its parent.
  maxchild-behind :
      (d : List ℕ) (size i : ℕ)
      → 1 ≤ i
      → size ≤ length d
      → Returns (maxchild cmppri pri d size i) (λ c. (c ≡ 0) ⊎ ((i < c) × (c < size)))
  unfolding maxchild
  maxchild-behind d size i one h = elim (Bool-cases (leb size (2 * i))) [
    | inl b ↦ rw (b, maxchild) (0, refl, inl refl)
    | inr b ↦
        let left : 2 * i < size = ground arith in
        elim (Bool-cases (ltb (2 * i + 1) size)) [
          | inr c ↦ rw (b, maxchild, c) (2 * i, refl, inr (omega arith, left))
          | inl c ↦
              let right : 2 * i + 1 < size = ground arith in
              let (l, e, _) = drop-elem d (2 * i) (omega arith) in
              let (r, f, _) = drop-elem d (2 * i + 1) (omega arith) in
              rw (b, maxchild, c, e, f) (_, refl, ground arith)
        ]
  ]

  percolate_loop-Moved :
      (m fuel size i : ℕ) (d : List ℕ) (position : ℕ → ℕ)
      → 1 ≤ i
      → i ≤ size
      → size < fuel + i
      → i < length d
      → size ≤ length d
      → Returns (percolate_loop cmppri fuel pri mp size i d position) (Moved size d i m)
  unfolding percolate_loop
  percolate_loop-Moved m zero size i d position one s f h k = absurd (omega arith)
  percolate_loop-Moved m (suc fuel) size i d position one s f h k =
      let (child, e, v) = maxchild-behind d size i one k in
      elim (Bool-cases (child == 0)) [
        | inl b ↦ rw (e, ◌>>=◌, b) ((i, d, position), refl, here-Moved size d i m position h)
        | inr b ↦
            let w : (i < child) × (child < size) = ground arith in
            let (c, g, _) = drop-elem d child (omega (arith, w.1)) in
            elim (Bool-cases (cmppri mp (pri c))) [
              | inr q ↦
                  rw (e, ◌>>=◌, b, g, ◌>>=◌, q)
                    ((i, d, position), refl, here-Moved size d i m position h)
              | inl q ↦
                  let (o, r, x) =
                    percolate_loop-Moved m fuel size child (set d i c) (store position c i)
                      (omega (arith, w.0)) (omega (arith, w.1)) (omega (arith, w.0))
                      (omega (arith, w.1, length-set d i c)) (omega (arith, length-set d i c)) in
                  (
                    o,
                    rw (e, ◌>>=◌, b, g, ◌>>=◌, q, write-set d i c h) r,
                    step-Moved size d i child m c o (λ t. omega (arith, w.0)) h g
                        (omega (arith, w.0, w.1)) w.1 x,
                  )
            ]
      ]

-- What the two functions leave: a permutation of the array, the same from `bound` on, and the priorities.
pub record Rearranged {ℓ} {P : Type ℓ} (bound : ℕ) (entries : Entries P) (d : List ℕ)
    (o : List ℕ × Entries P) : Type ℓ where
  pub size : length o.0 ≡ length d
  pub items : Perm o.0 d
  pub rest : drop bound o.0 ≡ drop bound d
  pub pri : o.1.pri ≡ entries.pri

module _ {ℓ} {P : Type ℓ} (cmppri : P → P → Bool) (entries : Entries P) where
  Moved-Rearranged :
      (bound : ℕ) (d : List ℕ) (i m : ℕ) (o : ℕ × List ℕ × (ℕ → ℕ)) (position : ℕ → ℕ)
      → get_elem? d i ≡ some m
      → Moved bound d i m o
      → Rearranged bound entries d (set o.1 o.0 m, record entries { position = position })
  Moved-Rearranged bound d i m o position e v = record {
    size = length-set o.1 o.0 m ∙ v.size;
    items = subst (λ l. Perm (set o.1 o.0 m) l) (set_self d i m e) v.items;
    rest = v.rest ∙ ap (λ l. drop bound l) (set_self d i m e);
    pri = refl;
  }

  -- `bubble_up` from an index of the array returns, and rearranges the items up to there.
  pub bubble_up-Rearranged :
      (bound : ℕ) (d : List ℕ) (i : ℕ)
      → i < bound
      → i < length d
      → Returns (bubble_up cmppri entries d i) (Rearranged bound entries d)
  unfolding bubble_up
  bubble_up-Rearranged bound d i hb h =
      let (m, e, _) = drop-elem d i h in
      let (o, f, v) =
        bubble_loop-Moved cmppri entries.pri (entries.pri m) bound m (i + 1) i d entries.position
          (omega arith) hb h in
      (
        (set o.1 o.0 m, record entries { position = store o.2 m o.0 }),
        rw (e, f, write-set o.1 o.0 m (omega (arith, v.inside, v.size))) refl,
        Moved-Rearranged bound d i m o (store o.2 m o.0) e v,
      )

  -- `percolate_down` from an index of the queue, or just behind it, returns, and rearranges the items of
  -- the queue.
  pub percolate_down-Rearranged :
      (d : List ℕ) (size i : ℕ)
      → 1 ≤ i
      → i ≤ size
      → i < length d
      → size ≤ length d
      → Returns (percolate_down cmppri entries d size i) (Rearranged size entries d)
  unfolding percolate_down
  percolate_down-Rearranged d size i one s h k =
      let (m, e, _) = drop-elem d i h in
      let (o, f, v) =
        percolate_loop-Moved cmppri entries.pri (entries.pri m) m (size + 1) size i d
          entries.position one s (omega arith) h k in
      (
        (set o.1 o.0 m, record entries { position = store o.2 m o.0 }),
        rw (e, f, write-set o.1 o.0 m (omega (arith, v.inside, v.size))) refl,
        Moved-Rearranged size d i m o (store o.2 m o.0) e v,
      )
