-- ===== src/PriorityQueue/Settle.antt =====
-- The loops of `bubble_up` and `percolate_down` end with the heap order and the right positions.
use c_workspace.Common.{
  ℕ, zero, suc, ◌+◌, ◌*◌, ◌/◌, ◌≤◌, ◌<◌, ◌≡◌, ◌⊎◌, refl, inl, inr, ◌==◌, ltb, leb, Bool, true,
  false, Bool-cases, ◌>>=◌, List, arith, length, length-set, get_elem?-eq-get_or, get_or, set,
  write-set, Returns,
}
use c_workspace.PriorityQueue.{store, bubble_loop, maxchild, percolate_loop}
use c_workspace.PriorityQueue.Order.{
  IsPriority, key, IsHeap, ArePlaced, IsUp, IsDown, fill_up, fill_down, step-IsUp, step-IsDown,
  step_placed,
}

module _ {ℓ} {P : Type ℓ} (cmppri : P → P → Bool) (pri : ℕ → P) where
  -- Where a loop stops, the item `m` can be put.
  pub record IsSettled (size m : ℕ) (o : ℕ × List ℕ × (ℕ → ℕ)) : Type 0 where
    pub heap : IsHeap cmppri pri size (set o.1 o.0 m)
    pub places : ArePlaced cmppri pri size o.1 o.0 m o.2
    pub full : size ≤ length o.1
    pub inside : o.0 < length o.1

  module _ (law : IsPriority cmppri) (m : ℕ) where
    pub bubble_loop-IsSettled :
        (size fuel i : ℕ) (d : List ℕ) (position : ℕ → ℕ)
        → i < fuel
        → 1 ≤ i
        → i < size
        → size ≤ length d
        → IsUp cmppri pri size d i (pri m)
        → ArePlaced cmppri pri size d i m position
        → Returns (bubble_loop cmppri fuel pri (pri m) i d position) (IsSettled size m)
    unfolding bubble_loop
    bubble_loop-IsSettled size zero i d position f one hi h v w = absurd (omega arith)
    bubble_loop-IsSettled size (suc fuel) i d position f one hi h v w =
        elim (Bool-cases (ltb 1 i)) [
          | inr b ↦
              rw (b, bubble_loop)
                (
                  (i, d, position),
                  refl,
                  record {
                    heap = fill_up cmppri pri size d i m h v (λ two. absurd (ground arith));
                    places = w;
                    full = h;
                    inside = omega arith;
                  },
                )
          | inl b ↦
              let big : 2 ≤ i = ground arith in
              let p = get_or d (i / 2) 0 in
              let e = get_elem?-eq-get_or d (i / 2) 0 (omega arith) in
              elim (Bool-cases (cmppri (pri p) (pri m))) [
                | inr c ↦
                    rw (b, bubble_loop, e, ◌>>=◌, c)
                      (
                        (i, d, position),
                        refl,
                        record {
                          heap = fill_up cmppri pri size d i m h v (λ two. c);
                          places = w;
                          full = h;
                          inside = omega arith;
                        },
                      )
                | inl c ↦
                    rw (b, bubble_loop, e, ◌>>=◌, c, write-set d i p (omega arith))
                      (bubble_loop-IsSettled size fuel (i / 2) (set d i p) (store position p i)
                        (omega arith) (omega arith) (omega arith) (omega (arith, length-set d i p))
                        (step-IsUp cmppri pri law size d i (pri m) h big hi v c)
                        (step_placed cmppri pri size d i (i / 2) m position h one (omega arith)
                          (omega arith) hi (λ q. omega arith) w))
              ]
        ]

    -- The child that `maxchild` gives is not behind the other; there is none where it gives 0.
    record IsFirst (size : ℕ) (d : List ℕ) (i k : ℕ) : Type 0 where
      child : k / 2 ≡ i
      inside : k < size
      best :
          (c : ℕ)
          → 2 ≤ c
          → c < size
          → c / 2 ≡ i
          → cmppri (key cmppri pri d k) (key cmppri pri d c) ≡ false

    refl_law : (p : P) → cmppri p p ≡ false
    refl_law p = ground (arith, law.asym p p)

    maxchild-IsFirst :
        (d : List ℕ) (size i : ℕ)
        → 1 ≤ i
        → size ≤ length d
        → Returns
            (maxchild cmppri pri d size i)
            (λ k. ((k ≡ 0) × (size ≤ 2 * i)) ⊎ ((1 ≤ k) × IsFirst size d i k))
    unfolding maxchild
    maxchild-IsFirst d size i one h = elim (Bool-cases (leb size (2 * i))) [
      | inl b ↦ rw (b, maxchild) (0, refl, inl (refl, ground arith))
      | inr b ↦
          let left : 2 * i < size = ground arith in
          let same = refl_law (key cmppri pri d (2 * i)) in
          elim (Bool-cases (ltb (2 * i + 1) size)) [
            | inr c ↦
                let lone : size ≤ 2 * i + 1 = ground arith in
                rw (b, maxchild, c)
                  (
                    2 * i,
                    refl,
                    inr (
                      omega arith,
                      record {
                        child = omega arith;
                        inside = left;
                        best = λ k x y z. let e : k ≡ 2 * i = omega arith in rw e same;
                      },
                    ),
                  )
            | inl c ↦
                let right : 2 * i + 1 < size = ground arith in
                let same' = refl_law (key cmppri pri d (2 * i + 1)) in
                let e = get_elem?-eq-get_or d (2 * i) 0 (omega arith) in
                let f = get_elem?-eq-get_or d (2 * i + 1) 0 (omega arith) in
                elim (Bool-cases
                  (cmppri (key cmppri pri d (2 * i)) (key cmppri pri d (2 * i + 1)))) [
                    | inl q ↦
                        rw (b, maxchild, c, e, f, ◌>>=◌, q)
                          (
                            2 * i + 1,
                            refl,
                            inr (
                              omega arith,
                              record {
                                child = omega arith;
                                inside = right;
                                best = λ k x y z. elim (two_children i k z) [
                                  | inl l ↦ rw l (law.asym _ _ q)
                                  | inr r ↦ rw r same'
                                ];
                              },
                            ),
                          )
                    | inr q ↦
                        rw (b, maxchild, c, e, f, ◌>>=◌, q)
                          (
                            2 * i,
                            refl,
                            inr (
                              omega arith,
                              record {
                                child = omega arith;
                                inside = left;
                                best = λ k x y z. elim (two_children i k z) [
                                  | inl l ↦ rw l same
                                  | inr r ↦ rw r q
                                ];
                              },
                            ),
                          )
                  ]
          ]
    ]
      where
        two_children : (i k : ℕ) → k / 2 ≡ i → (k ≡ 2 * i) ⊎ (k ≡ 2 * i + 1)
        two_children i k e = ground arith

    pub percolate_loop-IsSettled :
        (size fuel i : ℕ) (d : List ℕ) (position : ℕ → ℕ)
        → size < fuel + i
        → 1 ≤ i
        → i ≤ size
        → i < length d
        → size ≤ length d
        → IsDown cmppri pri size d i (pri m)
        → ArePlaced cmppri pri size d i m position
        → Returns (percolate_loop cmppri fuel pri (pri m) size i d position) (IsSettled size m)
    unfolding percolate_loop
    percolate_loop-IsSettled size zero i d position f one hi hl h v w = absurd (omega arith)
    percolate_loop-IsSettled size (suc fuel) i d position f one hi hl h v w =
        let (k, e, s) = maxchild-IsFirst d size i one h in
        elim s [
          | inl z ↦
              let none_left : size ≤ 2 * i = z.1 in
              let b : (k == 0) ≡ true = ground (arith, z.0) in
              rw (e, ◌>>=◌, b)
                (
                  (i, d, position),
                  refl,
                  record {
                    heap = fill_down cmppri pri size d i m h v (λ c x y t. absurd (omega arith));
                    places = w;
                    full = h;
                    inside = hl;
                  },
                )
          | inr z ↦
              let first = z.1 in
              let pos : 1 ≤ k = z.0 in
              let b : (k == 0) ≡ false = ground arith in
              let p = get_or d k 0 in
              let child : k / 2 ≡ i = first.child in
              let hk : k < size = first.inside in
              let g = get_elem?-eq-get_or d k 0 (omega arith) in
              elim (Bool-cases (cmppri (pri m) (pri p))) [
                | inr q ↦
                    rw (e, ◌>>=◌, b, g, ◌>>=◌, q)
                      (
                        (i, d, position),
                        refl,
                        record {
                          heap =
                              fill_down cmppri pri size d i m h v
                                (λ c x y t. law.trans _ _ _ q (first.best c x y t));
                          places = w;
                          full = h;
                          inside = hl;
                        },
                      )
                | inl q ↦
                    rw (e, ◌>>=◌, b, g, ◌>>=◌, q, write-set d i p hl)
                      (percolate_loop-IsSettled size fuel k (set d i p) (store position p i)
                        (omega arith) pos (omega arith) (omega (arith, length-set d i p))
                        (omega (arith, length-set d i p))
                        (step-IsDown cmppri pri law size d i k (pri m) h one hk child v first.best
                          q)
                        (step_placed cmppri pri size d i k m position h one pos hk (omega arith)
                          (λ t. omega arith) w))
              ]
        ]
