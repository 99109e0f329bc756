-- ===== src/PriorityQueue/Valid.antt =====
-- `pqueue_is_valid` of c/libs/pqueue/pqueue.c decides the heap order.
use c_workspace.Common.{
  ℕ, zero, suc, ◌+◌, ◌*◌, ◌/◌, ◌≤◌, ◌<◌, ◌≡◌, ◌⊎◌, ◌↔◌, refl, ap, ◌∙◌, inl, inr, ltb, Bool, true,
  false, Bool-cases, Option, some, ◌>>=◌, List, arith, length, get_elem?-eq-get_or, get_or, Returns,
  Returns-imp,
}
use c_workspace.PriorityQueue.{Entries, PQueue, child_is_valid, subtree_is_valid, pqueue_is_valid}
use c_workspace.PriorityQueue.Order.{key, IsHeap}
use c_workspace.PriorityQueue.Items.{IsAllocated}

-- The index `k` levels above.
abbrev above : ℕ → ℕ → ℕ
above zero c = c
above (suc k) c = above k c / 2

above-half : (k c : ℕ) → above k c / 2 ≡ above k (c / 2)
above-half zero c = refl
above-half (suc k) c = ap (λ n. n / 2) (above-half k c)

above-le : (k c : ℕ) → above k c ≤ c
above-le zero c = omega arith
above-le (suc k) c = omega (arith, above-le k c)

-- The root is above each index.
root_above : (fuel c : ℕ) → c < fuel → 2 ≤ c → (k : ℕ) × (above (suc k) c ≡ 1)
root_above zero c f two = absurd (omega arith)
root_above (suc fuel) c f two = elim (Bool-cases (ltb (c / 2) 2)) [
  | inl b ↦ (0, ground arith)
  | inr b ↦
      let (k, e) = root_above fuel (c / 2) (omega arith) (ground arith) in
      (suc k, ap (λ n. n / 2) (above-half k c) ∙ e)
]

module _ {ℓ} {P : Type ℓ} (cmppri : P → P → Bool) (pri : ℕ → P) (d : List ℕ) (size : ℕ)
    (full : size ≤ length d) where
  abbrev Edge : ℕ → Type 0
  Edge c = cmppri (key cmppri pri d (c / 2)) (key cmppri pri d c) ≡ false

  -- The edges below `p` are in order.
  abbrev IsOrderedBelow : ℕ → Type 0
  IsOrderedBelow p = (k c : ℕ) → 2 ≤ c → c < size → above (suc k) c ≡ p → Edge c

  -- The answer for the child `c` of `p`.
  abbrev Decides : ℕ → Bool → Type 0
  Decides p true = IsOrderedBelow p
  Decides p false =
      (c : ℕ) × (2 ≤ c)
      × (c < size)
      × (cmppri (key cmppri pri d (c / 2)) (key cmppri pri d c) ≡ true)

  -- The edge to `c`, and the edges below it.
  abbrev DecidesChild : ℕ → Bool → Type 0
  DecidesChild c true = c < size → Edge c × IsOrderedBelow c
  DecidesChild c false = Decides c false

  child-Decides :
      (check : ℕ → Option Bool) (p c : ℕ)
      → c / 2 ≡ p
      → 1 ≤ p
      → (c < size → Returns (check c) (Decides c))
      → Returns (child_is_valid cmppri pri d size check p c) (DecidesChild c)
  unfolding child_is_valid
  child-Decides check p c half one h = elim (Bool-cases (ltb c size)) [
    | inr b ↦ rw (b, child_is_valid) (true, refl, λ l. absurd (ground arith))
    | inl b ↦
        let l : c < size = ground arith in
        let e = get_elem?-eq-get_or d p 0 (omega arith) in
        let f = get_elem?-eq-get_or d c 0 (omega arith) in
        elim (Bool-cases (cmppri (pri (get_or d p 0)) (pri (get_or d c 0)))) [
          | inl t ↦
              rw (b, child_is_valid, e, f, ◌>>=◌, t) (false, refl, (c, omega arith, l, rw half t))
          | inr t ↦
              let (r, g, u) = h l in
              rw (b, child_is_valid, e, f, ◌>>=◌, t) (r, g, answer r (rw half t) u)
        ]
  ]
    where
      answer : (r : Bool) → Edge c → Decides c r → DecidesChild c r
      answer true t u = λ l. (t, u)
      answer false t u = u

  both :
      (p : ℕ) → 1 ≤ p → DecidesChild (2 * p) true → DecidesChild (2 * p + 1) true → IsOrderedBelow p
  both p one l r zero c two h e = elim (two_children c e) [
    | inl x ↦ let y = l (omega arith) in rw x y.0
    | inr x ↦ let y = r (omega arith) in rw x y.0
  ]
    where
      two_children : (c : ℕ) → c / 2 ≡ p → (c ≡ 2 * p) ⊎ (c ≡ 2 * p + 1)
      two_children c e = ground arith
  both p one l r (suc k) c two h e = elim (two_children (above (suc k) c) e) [
    | inl x ↦ (l (omega (arith, above-le (suc k) c))).1 k c two h x
    | inr x ↦ (r (omega (arith, above-le (suc k) c))).1 k c two h x
  ]
    where
      two_children : (c : ℕ) → c / 2 ≡ p → (c ≡ 2 * p) ⊎ (c ≡ 2 * p + 1)
      two_children c e = ground arith

  subtree-Decides :
      (fuel p : ℕ)
      → 1 ≤ p
      → p ≤ size
      → size < fuel + p
      → Returns (subtree_is_valid cmppri pri d size fuel p) (Decides p)
  unfolding subtree_is_valid
  subtree-Decides zero p one below f = absurd (omega arith)
  subtree-Decides (suc fuel) p one below f =
      let (a, e, u) =
        child-Decides (λ c. subtree_is_valid cmppri pri d size fuel c) p (2 * p) (omega arith) one
          (λ l. subtree-Decides fuel (2 * p) (omega arith) (omega arith) (omega arith)) in
      let (b, g, w) =
        child-Decides (λ c. subtree_is_valid cmppri pri d size fuel c) p (2 * p + 1) (omega arith)
          one (λ l. subtree-Decides fuel (2 * p + 1) (omega arith) (omega arith) (omega arith)) in
      rw e (joined a b u w g)
    where
      joined :
          (a b : Bool)
          → DecidesChild (2 * p) a
          → DecidesChild (2 * p + 1) b
          → child_is_valid cmppri pri d size
              (λ c. subtree_is_valid cmppri pri d size fuel c)
              p
              (2 * p + 1)
            ≡ some b
          → Returns
              (elim a as (λ x. Option Bool) [
                | false ↦ some false
                | true ↦
                    child_is_valid cmppri pri d size
                      (λ c. subtree_is_valid cmppri pri d size fuel c)
                      p
                      (2 * p + 1)
              ])
              (Decides p)
      joined false b u w g = (false, refl, u)
      joined true false u w g = (false, g, w)
      joined true true u w g = (true, g, both p one u w)

-- `pqueue_is_valid` of an allocated queue ends with an answer: true just where no item is behind its child.
pub pqueue_is_valid_lem {ℓ} :
    {P : Type ℓ} (cmppri : P → P → Bool) (q : PQueue) (entries : Entries P)
    → IsAllocated q
    → Returns
        (pqueue_is_valid cmppri q entries)
        (λ b. (b ≡ true) ↔ IsHeap cmppri entries.pri q.size q.d)
unfolding pqueue_is_valid
pqueue_is_valid_lem cmppri q entries al =
    let full : q.size ≤ length q.d = omega (arith, al.fits, al.all) in
    Returns-imp _ _ _
      (subtree-Decides cmppri entries.pri q.d q.size full (q.size + 1) 1 (omega arith) al.one
        (omega arith))
      decided
  where
    decided :
        (b : Bool)
        → Decides cmppri entries.pri q.d q.size (omega (arith, al.fits, al.all)) 1 b
        → (b ≡ true) ↔ IsHeap cmppri entries.pri q.size q.d
    decided true h = (
      λ _. (λ c two l. let (k, e) = root_above (suc c) c (omega arith) two in h k c two l e),
      λ _. refl,
    )
    decided false (c, two, l, t) =
        (λ e. absurd (ground (arith, e)), λ v. absurd (ground (arith, v c two l, t)))
