-- ===== src/Avl/Shape/Insert.antt =====
-- Insertion keeps the balance invariant, and `taller` says whether the height grew.
use c_workspace.Common.{
  ℕ, zero, suc, max, ◌+◌, ◌≤◌, ◌≡◌, refl, ℤ, pos, negsuc, sign, Sign-cases, arith, Bool, true,
  false, Option, ◌>>=◌, List, [], Returns,
}
use c_workspace.Common.SignCase.{greater, less, equal}
use c_workspace.Avl.Node.{Node, null, node}
use c_workspace.Avl.Rebalance.{left_balance_when_insert, right_balance_when_insert}
use c_workspace.Avl.Insert.{Grown, left_grown, right_grown, grow_leaf, insert_loop, replace_loop}
use c_workspace.Avl.Shape.{height, Balances, IsBalanced, Leans, step}

module _ {ℓ} {A : Type ℓ} (d : A) (r : Node A) (b : ℤ) (hr : IsBalanced r) where
  left_insert :
      (l : Node A)
      → IsBalanced l
      → Leans l
      → height l ≡ suc (suc (height r))
      → Returns
          (left_balance_when_insert (node d l r b) true)
          (λ o. IsBalanced o.0 × (height o.0 ≡ height l) × (o.1 ≡ false))
  unfolding left_balance_when_insert
  left_insert null hl ln e = absurd ln
  left_insert (node ld ll lr (negsuc zero)) hl ln e =
      ((node ld ll (node d lr r (pos 0)) (pos 0), false), refl, ground arith)
  left_insert (node ld ll lr (negsuc (suc n))) hl ln e = absurd (omega arith)
  left_insert (node ld ll lr (pos zero)) hl ln e = absurd (omega arith)
  left_insert (node ld ll lr (pos (suc (suc n)))) hl ln e = absurd (omega arith)
  left_insert (node ld ll null (pos (suc zero))) hl ln e = absurd (omega arith)
  left_insert (node ld ll (node gd gl gr (negsuc zero)) (pos (suc zero))) hl ln e =
      ((node gd (node ld ll gl (pos 0)) (node d gr r (pos 1)) (pos 0), false), refl, ground arith)
  left_insert (node ld ll (node gd gl gr (negsuc (suc n))) (pos (suc zero))) hl ln e =
      absurd (omega arith)
  left_insert (node ld ll (node gd gl gr (pos zero)) (pos (suc zero))) hl ln e =
      ((node gd (node ld ll gl (pos 0)) (node d gr r (pos 0)) (pos 0), false), refl, ground arith)
  left_insert (node ld ll (node gd gl gr (pos (suc zero))) (pos (suc zero))) hl ln e = (
    (node gd (node ld ll gl (negsuc 0)) (node d gr r (pos 0)) (pos 0), false),
    refl,
    ground arith,
  )
  left_insert (node ld ll (node gd gl gr (pos (suc (suc n)))) (pos (suc zero))) hl ln e =
      absurd (omega arith)

  right_insert :
      (l : Node A)
      → IsBalanced l
      → Leans l
      → height l ≡ suc (suc (height r))
      → Returns
          (right_balance_when_insert (node d r l b) true)
          (λ o. IsBalanced o.0 × (height o.0 ≡ height l) × (o.1 ≡ false))
  unfolding right_balance_when_insert
  right_insert null hl ln e = absurd ln
  right_insert (node ld lr ll (pos (suc zero))) hl ln e =
      ((node ld (node d r lr (pos 0)) ll (pos 0), false), refl, ground arith)
  right_insert (node ld lr ll (pos (suc (suc n)))) hl ln e = absurd (omega arith)
  right_insert (node ld lr ll (pos zero)) hl ln e = absurd (omega arith)
  right_insert (node ld lr ll (negsuc (suc n))) hl ln e = absurd (omega arith)
  right_insert (node ld null ll (negsuc zero)) hl ln e = absurd (omega arith)
  right_insert (node ld (node gd gl gr (pos (suc zero))) ll (negsuc zero)) hl ln e = (
    (node gd (node d r gl (negsuc 0)) (node ld gr ll (pos 0)) (pos 0), false),
    refl,
    ground arith,
  )
  right_insert (node ld (node gd gl gr (pos (suc (suc n)))) ll (negsuc zero)) hl ln e =
      absurd (omega arith)
  right_insert (node ld (node gd gl gr (pos zero)) ll (negsuc zero)) hl ln e =
      ((node gd (node d r gl (pos 0)) (node ld gr ll (pos 0)) (pos 0), false), refl, ground arith)
  right_insert (node ld (node gd gl gr (negsuc zero)) ll (negsuc zero)) hl ln e =
      ((node gd (node d r gl (pos 0)) (node ld gr ll (pos 1)) (pos 0), false), refl, ground arith)
  right_insert (node ld (node gd gl gr (negsuc (suc n))) ll (negsuc zero)) hl ln e =
      absurd (omega arith)

module _ {ℓ} {A : Type ℓ} where
  -- What a call makes of a tree of height `h`.
  abbrev pub Grows : ℕ → Grown A → Type 0
  Grows h o =
      IsBalanced o.root
      × (height o.root ≡ h + step o.taller)
      × (o.taller ≡ true → 1 ≤ h → Leans o.root)

abbrev out {ℓ} : {A : Type ℓ} → ℤ → List A → Node A → Bool → Grown A
out res fr t k = record { root = t; result = res; taller = k; freed = fr }

module _ {ℓ} {A : Type ℓ} (d : A) (h : ℕ) (r : Node A) (hr : IsBalanced r) (res : ℤ)
    (fr : List A) where
  left_grown-Grows :
      (b : ℤ) (t : Node A) (k : Bool)
      → Balances b h (height r)
      → Grows h (out res fr t k)
      → Returns (left_grown d (out res fr t k) r b) (Grows (suc (max h (height r))))
  unfolding left_grown
  left_grown-Grows b t false hb g = (out res fr (node d t r b) false, refl, ground arith)
  left_grown-Grows (negsuc zero) t true hb g =
      let (v, e, p) = left_insert d r (negsuc 0) hr t g.0 (g.2 refl (omega arith)) (omega arith) in
      (out res fr v.0 v.1, rw e refl, ground arith)
  left_grown-Grows (negsuc (suc n)) t true hb g = absurd (omega arith)
  left_grown-Grows (pos zero) t true hb g =
      (out res fr (node d t r (negsuc 0)) true, refl, ground arith)
  left_grown-Grows (pos (suc zero)) t true hb g =
      (out res fr (node d t r (pos 0)) false, refl, ground arith)
  left_grown-Grows (pos (suc (suc n))) t true hb g = absurd (omega arith)

  right_grown-Grows :
      (b : ℤ) (t : Node A) (k : Bool)
      → Balances b (height r) h
      → Grows h (out res fr t k)
      → Returns (right_grown d r (out res fr t k) b) (Grows (suc (max (height r) h)))
  unfolding right_grown
  right_grown-Grows b t false hb g = (out res fr (node d r t b) false, refl, ground arith)
  right_grown-Grows (pos (suc zero)) t true hb g =
      let (v, e, p) = right_insert d r (pos 1) hr t g.0 (g.2 refl (omega arith)) (omega arith) in
      (out res fr v.0 v.1, rw e refl, ground arith)
  right_grown-Grows (negsuc (suc n)) t true hb g = absurd (omega arith)
  right_grown-Grows (pos zero) t true hb g =
      (out res fr (node d r t (pos 1)) true, refl, ground arith)
  right_grown-Grows (negsuc zero) t true hb g =
      (out res fr (node d r t (pos 0)) false, refl, ground arith)
  right_grown-Grows (pos (suc (suc n))) t true hb g = absurd (omega arith)

module _ {ℓ} {A : Type ℓ} where
  grow_leaf-Grows : (malloc_ok : Bool) (x : A) → Grows 0 (grow_leaf malloc_ok x false)
  unfolding grow_leaf
  grow_leaf-Grows true x = ground arith
  grow_leaf-Grows false x = ground arith

  left_step :
      (d : A) (r : Node A) (b : ℤ) (l : Node A) (m : Option (Grown A))
      → IsBalanced (node d l r b)
      → Returns m (Grows (height l))
      → Returns (m >>= λ o. left_grown d o r b) (Grows (height (node d l r b)))
  left_step d r b l m v (o, e, g) =
      rw e (left_grown-Grows d (height l) r v.1 o.result o.freed b o.root o.taller v.2 g)

  right_step :
      (d : A) (r : Node A) (b : ℤ) (l : Node A) (m : Option (Grown A))
      → IsBalanced (node d l r b)
      → Returns m (Grows (height r))
      → Returns (m >>= λ o. right_grown d l o b) (Grows (height (node d l r b)))
  right_step d r b l m v (o, e, g) =
      rw e (right_grown-Grows d (height r) l v.0 o.result o.freed b o.root o.taller v.2 g)

module _ {ℓ} {A : Type ℓ} (compare_func : A → A → ℤ) (malloc_ok : Bool) (x : A) where
  pub insert_loop-Grows :
      (t : Node A)
      → IsBalanced t
      → Returns (insert_loop compare_func malloc_ok t x false) (Grows (height t))
  unfolding insert_loop
  insert_loop-Grows null v = (grow_leaf malloc_ok x false, refl, grow_leaf-Grows malloc_ok x)
  insert_loop-Grows (node d l r b) v = elim (Sign-cases (sign (compare_func d x))) [
    | greater e ↦ rw (e, insert_loop) (left_step d r b l _ v (insert_loop-Grows l v.0))
    | less e ↦ rw (e, insert_loop) (right_step d r b l _ v (insert_loop-Grows r v.1))
    | equal e ↦ rw (e, insert_loop) (out (pos 0) [] (node d l r b) false, refl, ground arith)
  ]

  pub replace_loop-Grows :
      (frees : Bool) (t : Node A)
      → IsBalanced t
      → Returns (replace_loop compare_func frees malloc_ok t x false) (Grows (height t))
  unfolding replace_loop
  replace_loop-Grows frees null v = (grow_leaf malloc_ok x false, refl, grow_leaf-Grows malloc_ok x)
  replace_loop-Grows frees (node d l r b) v = elim (Sign-cases (sign (compare_func d x))) [
    | greater e ↦ rw (e, replace_loop) (left_step d r b l _ v (replace_loop-Grows frees l v.0))
    | less e ↦ rw (e, replace_loop) (right_step d r b l _ v (replace_loop-Grows frees r v.1))
    | equal e ↦ rw (e, replace_loop) (_, refl, ground arith)
  ]
