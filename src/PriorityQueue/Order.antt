-- ===== src/PriorityQueue/Order.antt =====
-- The heap order of c/libs/pqueue/pqueue.c, and a hole in it.
use c_workspace.Common.{
  ℕ, zero, suc, ◌/◌, ◌≤◌, ◌<◌, ◌≡◌, ◌≢◌, refl, ◌==◌, Bool, true, false, if◌then◌else◌, List, [],
  ◌∷◌, arith, length, get_or, set,
}
use c_workspace.PriorityQueue.{store}

-- `cmppri p q` says that the priority `p` is behind `q`.
pub record IsPriority {ℓ} {P : Type ℓ} (cmppri : P → P → Bool) : Type ℓ where
  pub asym : (p q : P) → cmppri p q ≡ true → cmppri q p ≡ false
  pub trans : (p q r : P) → cmppri p q ≡ false → cmppri q r ≡ false → cmppri p r ≡ false

pub get_or-set :
    (d : List ℕ) (i j v : ℕ)
    → j < length d
    → get_or (set d i v) j 0 ≡ (if j == i then v else get_or d j 0)
get_or-set [] i j v h = absurd (omega arith)
get_or-set (x ∷ d) zero zero v h = refl
get_or-set (x ∷ d) zero (suc j) v h = ground arith
get_or-set (x ∷ d) (suc i) zero v h = ground arith
get_or-set (x ∷ d) (suc i) (suc j) v h = ground (arith, get_or-set d i j v)

module _ {ℓ} {P : Type ℓ} (cmppri : P → P → Bool) (pri : ℕ → P) where
  -- The priority at an index.
  abbrev pub key : List ℕ → ℕ → P
  key d i = pri (get_or d i 0)

  -- No item of the first `size` is behind its child.
  abbrev pub IsHeap : ℕ → List ℕ → Type 0
  IsHeap size d = (c : ℕ) → 2 ≤ c → c < size → cmppri (key d (c / 2)) (key d c) ≡ false

  -- Each item but the one at `i` knows where it is, and none of them is `m`.
  pub record ArePlaced (size : ℕ) (d : List ℕ) (i m : ℕ) (position : ℕ → ℕ) : Type 0 where
    pub placed : (j : ℕ) → 1 ≤ j → j < size → j ≢ i → position (get_or d j 0) ≡ j
    pub apart : (j : ℕ) → 1 ≤ j → j < size → j ≢ i → get_or d j 0 ≢ m

  -- The order without the item at `i`, where one of the priority `mp` is wanted: it may only be too
  -- far down.
  pub record IsUp (size : ℕ) (d : List ℕ) (i : ℕ) (mp : P) : Type 0 where
    pub edges :
        (c : ℕ) → 2 ≤ c → c < size → c ≢ i → c / 2 ≢ i → cmppri (key d (c / 2)) (key d c) ≡ false
    pub below : (c : ℕ) → 2 ≤ c → c < size → c / 2 ≡ i → cmppri mp (key d c) ≡ false
    pub bridged :
        (c : ℕ) → 2 ≤ c → c < size → c / 2 ≡ i → 2 ≤ i → cmppri (key d (i / 2)) (key d c) ≡ false

  -- The same, where it may only be too far up.
  pub record IsDown (size : ℕ) (d : List ℕ) (i : ℕ) (mp : P) : Type 0 where
    pub edges :
        (c : ℕ) → 2 ≤ c → c < size → c ≢ i → c / 2 ≢ i → cmppri (key d (c / 2)) (key d c) ≡ false
    pub above : 2 ≤ i → i < size → cmppri (key d (i / 2)) mp ≡ false
    pub bridged :
        (c : ℕ) → 2 ≤ c → c < size → c / 2 ≡ i → 2 ≤ i → cmppri (key d (i / 2)) (key d c) ≡ false

  -- Filling the hole.
  pub fill_up :
      (size : ℕ) (d : List ℕ) (i m : ℕ)
      → size ≤ length d
      → IsUp size d i (pri m)
      → (2 ≤ i → cmppri (key d (i / 2)) (pri m) ≡ false)
      → IsHeap size (set d i m)
  fill_up size d i m h v top = λ c p q.
      ground (arith, get_or-set d i c m, get_or-set d i (c / 2) m, v.edges c, v.below c, top)

  pub fill_down :
      (size : ℕ) (d : List ℕ) (i m : ℕ)
      → size ≤ length d
      → IsDown size d i (pri m)
      → ((c : ℕ) → 2 ≤ c → c < size → c / 2 ≡ i → cmppri (pri m) (key d c) ≡ false)
      → IsHeap size (set d i m)
  fill_down size d i m h v low = λ c p q.
      ground (arith, get_or-set d i c m, get_or-set d i (c / 2) m, v.edges c, v.above, low c)

  module _ (law : IsPriority cmppri) where
    -- The item above the hole comes down.
    pub step-IsUp :
        (size : ℕ) (d : List ℕ) (i : ℕ) (mp : P)
        → size ≤ length d
        → 2 ≤ i
        → i < size
        → IsUp size d i mp
        → cmppri (key d (i / 2)) mp ≡ true
        → IsUp size (set d i (get_or d (i / 2) 0)) (i / 2) mp
    step-IsUp size d i mp h two hi v b =
        let p = get_or d (i / 2) 0 in
        record {
          edges = λ c x y z w.
              ground (arith, get_or-set d i c p, get_or-set d i (c / 2) p, v.edges c, v.bridged c);
          below = λ c x y z. ground (
            arith,
            get_or-set d i c p,
            v.edges c,
            law.asym (key d (i / 2)) mp,
            law.trans mp (key d (i / 2)) (key d c),
          );
          bridged = λ c x y z w. ground (
            arith,
            get_or-set d i c p,
            get_or-set d i (i / 2 / 2) p,
            v.edges c,
            v.edges (i / 2),
            law.trans (key d (i / 2 / 2)) (key d (i / 2)) (key d c),
          );
        }

    -- The child `k` of the hole, which is not behind the other, goes up.
    pub step-IsDown :
        (size : ℕ) (d : List ℕ) (i k : ℕ) (mp : P)
        → size ≤ length d
        → 1 ≤ i
        → k < size
        → k / 2 ≡ i
        → IsDown size d i mp
        → ((c : ℕ) → 2 ≤ c → c < size → c / 2 ≡ i → cmppri (key d k) (key d c) ≡ false)
        → cmppri mp (key d k) ≡ true
        → IsDown size (set d i (get_or d k 0)) k mp
    step-IsDown size d i k mp h one hk e v best b =
        let p = get_or d k 0 in
        record {
          edges = λ c x y z w.
              ground (
                arith,
                get_or-set d i c p,
                get_or-set d i (c / 2) p,
                v.edges c,
                v.bridged k,
                best c,
              );
          above = λ x y. ground (arith, get_or-set d i (k / 2) p, law.asym mp (key d k));
          bridged =
              λ c x y z w. ground (arith, get_or-set d i c p, get_or-set d i (k / 2) p, v.edges c);
        }

  -- The positions after a step.
  pub step_placed :
      (size : ℕ) (d : List ℕ) (i k m : ℕ) (position : ℕ → ℕ)
      → size ≤ length d
      → 1 ≤ i
      → 1 ≤ k
      → k < size
      → i < size
      → i ≢ k
      → ArePlaced size d i m position
      → ArePlaced size (set d i (get_or d k 0)) k m (store position (get_or d k 0) i)
  step_placed size d i k m position h one onek hk hi ne v =
      let p = get_or d k 0 in
      record {
        placed = λ j x y z. ground (arith, get_or-set d i j p, v.placed j, v.placed k);
        apart = λ j x y z. ground (arith, get_or-set d i j p, v.apart j, v.apart k);
      }

  pub fill_placed :
      (size : ℕ) (d : List ℕ) (i m : ℕ) (position : ℕ → ℕ)
      → size ≤ length d
      → ArePlaced size d i m position
      → (j : ℕ) → 1 ≤ j
      → j < size
      → store position m i (get_or (set d i m) j 0) ≡ j
  fill_placed size d i m position h v j one hj =
      ground (arith, get_or-set d i j m, v.placed j, v.apart j)
