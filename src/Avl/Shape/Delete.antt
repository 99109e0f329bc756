-- ===== src/Avl/Shape/Delete.antt =====
-- Deletion keeps the balance invariant, and `shorter` says whether the height fell.
use c_workspace.Common.{
  ℕ, zero, suc, max, ◌+◌, ◌≡◌, refl, ℤ, pos, negsuc, sign, Sign-cases, arith, Bool, true, false,
  Option, none, some, ◌>>=◌, List, ◌++◌, Returns, Bool-cases, inl, inr,
}
use c_workspace.Common.SignCase.{greater, less, equal}
use c_workspace.Avl.Node.{Node, null, node, is_null}
use c_workspace.Avl.Rebalance.{left_balance_when_delete, right_balance_when_delete}
use c_workspace.Avl.Delete.{Shrunk, left_shrunk, right_shrunk, datum_after, delete_loop}
use c_workspace.Avl.Shape.{height, Balances, IsBalanced, step}

module _ {ℓ} {A : Type ℓ} (d : A) (r : Node A) (hr : IsBalanced r) where
  left_delete :
      (l : Node A)
      → IsBalanced l
      → height l ≡ suc (suc (height r))
      → Returns
          (left_balance_when_delete (node d l r (negsuc 0)) true)
          (λ o. IsBalanced o.0 × (height o.0 + step o.1 ≡ suc (height l)))
  unfolding left_balance_when_delete
  left_delete null hl e = absurd (omega arith)
  left_delete (node ld ll lr (negsuc zero)) hl e =
      ((node ld ll (node d lr r (pos 0)) (pos 0), true), refl, ground arith)
  left_delete (node ld ll lr (negsuc (suc n))) hl e = absurd (omega arith)
  left_delete (node ld ll lr (pos zero)) hl e =
      ((node ld ll (node d lr r (negsuc 0)) (pos 1), false), refl, ground arith)
  left_delete (node ld ll lr (pos (suc (suc n)))) hl e = absurd (omega arith)
  left_delete (node ld ll null (pos (suc zero))) hl e = absurd (omega arith)
  left_delete (node ld ll (node gd gl gr (negsuc zero)) (pos (suc zero))) hl e =
      ((node gd (node ld ll gl (pos 0)) (node d gr r (pos 1)) (pos 0), true), refl, ground arith)
  left_delete (node ld ll (node gd gl gr (negsuc (suc n))) (pos (suc zero))) hl e =
      absurd (omega arith)
  left_delete (node ld ll (node gd gl gr (pos zero)) (pos (suc zero))) hl e =
      ((node gd (node ld ll gl (pos 0)) (node d gr r (pos 0)) (pos 0), true), refl, ground arith)
  left_delete (node ld ll (node gd gl gr (pos (suc zero))) (pos (suc zero))) hl e =
      ((node gd (node ld ll gl (negsuc 0)) (node d gr r (pos 0)) (pos 0), true), refl, ground arith)
  left_delete (node ld ll (node gd gl gr (pos (suc (suc n)))) (pos (suc zero))) hl e =
      absurd (omega arith)

  right_delete :
      (l : Node A)
      → IsBalanced l
      → height l ≡ suc (suc (height r))
      → Returns
          (right_balance_when_delete (node d r l (pos 1)) true)
          (λ o. IsBalanced o.0 × (height o.0 + step o.1 ≡ suc (height l)))
  unfolding right_balance_when_delete
  right_delete null hl e = absurd (omega arith)
  right_delete (node ld lr ll (pos (suc zero))) hl e =
      ((node ld (node d r lr (pos 0)) ll (pos 0), true), refl, ground arith)
  right_delete (node ld lr ll (pos (suc (suc n)))) hl e = absurd (omega arith)
  right_delete (node ld lr ll (pos zero)) hl e =
      ((node ld (node d r lr (pos 1)) ll (negsuc 0), false), refl, ground arith)
  right_delete (node ld lr ll (negsuc (suc n))) hl e = absurd (omega arith)
  right_delete (node ld null ll (negsuc zero)) hl e = absurd (omega arith)
  right_delete (node ld (node gd gl gr (pos (suc zero))) ll (negsuc zero)) hl e =
      ((node gd (node d r gl (negsuc 0)) (node ld gr ll (pos 0)) (pos 0), true), refl, ground arith)
  right_delete (node ld (node gd gl gr (pos (suc (suc n)))) ll (negsuc zero)) hl e =
      absurd (omega arith)
  right_delete (node ld (node gd gl gr (pos zero)) ll (negsuc zero)) hl e =
      ((node gd (node d r gl (pos 0)) (node ld gr ll (pos 0)) (pos 0), true), refl, ground arith)
  right_delete (node ld (node gd gl gr (negsuc zero)) ll (negsuc zero)) hl e =
      ((node gd (node d r gl (pos 0)) (node ld gr ll (pos 1)) (pos 0), true), refl, ground arith)
  right_delete (node ld (node gd gl gr (negsuc (suc n))) ll (negsuc zero)) hl e =
      absurd (omega arith)

-- What a call makes of a tree of height `h`.
abbrev pub Shrinks {ℓ} : {A : Type ℓ} → ℕ → Shrunk A → Type 0
Shrinks h o = IsBalanced o.root × (height o.root + step o.shorter ≡ h)

abbrev out {ℓ} : {A : Type ℓ} → ℤ → List A → Option A → Node A → Bool → Shrunk A
out res fr mv t k = record { root = t; result = res; shorter = k; freed = fr; moved = mv }

module _ {ℓ} {A : Type ℓ} (d : A) (h : ℕ) (r : Node A) (hr : IsBalanced r) (res : ℤ) (fr : List A)
    (mv : Option A) where
  left_shrunk-Shrinks :
      (b : ℤ) (t : Node A) (k : Bool)
      → Balances b h (height r)
      → Shrinks h (out res fr mv t k)
      → Returns (left_shrunk d (out res fr mv t k) r b) (Shrinks (suc (max h (height r))))
  unfolding left_shrunk
  left_shrunk-Shrinks b t false hb g = (_, refl, ground arith)
  left_shrunk-Shrinks (pos (suc zero)) t true hb g =
      let (v, e, p) = right_delete d t g.0 r hr (omega arith) in
      (out res fr mv v.0 v.1, rw e refl, ground arith)
  left_shrunk-Shrinks (negsuc (suc n)) t true hb g = absurd (omega arith)
  left_shrunk-Shrinks (pos zero) t true hb g = (_, refl, ground arith)
  left_shrunk-Shrinks (negsuc zero) t true hb g = (_, refl, ground arith)
  left_shrunk-Shrinks (pos (suc (suc n))) t true hb g = absurd (omega arith)

  right_shrunk-Shrinks :
      (b : ℤ) (t : Node A) (k : Bool)
      → Balances b (height r) h
      → Shrinks h (out res fr mv t k)
      → Returns (right_shrunk d r (out res fr mv t k) b) (Shrinks (suc (max (height r) h)))
  unfolding right_shrunk
  right_shrunk-Shrinks b t false hb g = (_, refl, ground arith)
  right_shrunk-Shrinks (negsuc zero) t true hb g =
      let (v, e, p) = left_delete d t g.0 r hr (omega arith) in
      (out res fr mv v.0 v.1, rw e refl, ground arith)
  right_shrunk-Shrinks (negsuc (suc n)) t true hb g = absurd (omega arith)
  right_shrunk-Shrinks (pos zero) t true hb g = (_, refl, ground arith)
  right_shrunk-Shrinks (pos (suc zero)) t true hb g = (_, refl, ground arith)
  right_shrunk-Shrinks (pos (suc (suc n))) t true hb g = absurd (omega arith)

module _ {ℓ} {A : Type ℓ} where
  left_step :
      (d : A) (r : Node A) (b : ℤ) (l : Node A) (m : Option (Shrunk A))
      → IsBalanced (node d l r b)
      → Returns m (Shrinks (height l))
      → Returns (m >>= λ o. left_shrunk d o r b) (Shrinks (height (node d l r b)))
  left_step d r b l m v (o, e, g) =
      rw e
        (left_shrunk-Shrinks d (height l) r v.1 o.result o.freed o.moved b o.root o.shorter v.2 g)

  right_step :
      (d : A) (r : Node A) (b : ℤ) (l : Node A) (m : Option (Shrunk A))
      → IsBalanced (node d l r b)
      → Returns m (Shrinks (height r))
      → Returns (m >>= λ o. right_shrunk d l o b) (Shrinks (height (node d l r b)))
  right_step d r b l m v (o, e, g) =
      rw e
        (right_shrunk-Shrinks d (height r) l v.0 o.result o.freed o.moved b o.root o.shorter v.2 g)

  -- The branch that replaces the datum of a node with two children.
  both_step :
      (fr : List A) (d : A) (r : Node A) (b : ℤ) (l : Node A) (m : Option (Shrunk A))
      → IsBalanced (node d l r b)
      → Returns m (Shrinks (height l))
      → Returns
          (m >>= λ o. left_shrunk (datum_after d o) o r b >>= λ o'.
            some (record o' { result = pos 1; freed = fr ++ o.freed; moved = none }))
          (Shrinks (height (node d l r b)))
  both_step fr d r b l m v (o, e, g) =
      let (o', e', g') =
        left_shrunk-Shrinks (datum_after d o) (height l) r v.1 o.result o.freed o.moved b o.root
          o.shorter v.2 g in
      rw (e, e') (_, refl, g')

  null_height : (t : Node A) → is_null t ≡ true → height t ≡ 0
  null_height null e = refl
  null_height (node d l r b) e = cc

module _ {ℓ} {A : Type ℓ} (compare_func : A → A → ℤ) (frees : Bool) (x : A) where
  pub delete_loop-Shrinks :
      (t : Node A) (moving : Bool)
      → IsBalanced t
      → is_null t ≡ false
      → Returns (delete_loop compare_func frees t x false moving) (Shrinks (height t))
  unfolding delete_loop
  delete_loop-Shrinks null moving v n = cc
  delete_loop-Shrinks (node d l r b) true v n = elim (Bool-cases (is_null r)) [
    | inl e ↦ rw (e, delete_loop) (_, refl, (v.0, omega (arith, null_height r e)))
    | inr e ↦ rw (e, delete_loop) (right_step d r b l _ v (delete_loop-Shrinks r true v.1 e))
  ]
  delete_loop-Shrinks (node d l r b) false v n = elim (Sign-cases (sign (compare_func d x))) [
    | greater e ↦ elim (Bool-cases (is_null l)) [
      | inl e' ↦ rw (e, e', delete_loop) (_, refl, ground arith)
      | inr e' ↦
          rw (e, e', delete_loop) (left_step d r b l _ v (delete_loop-Shrinks l false v.0 e'))
    ]
    | less e ↦ elim (Bool-cases (is_null r)) [
      | inl e' ↦ rw (e, e', delete_loop) (_, refl, ground arith)
      | inr e' ↦
          rw (e, e', delete_loop) (right_step d r b l _ v (delete_loop-Shrinks r false v.1 e'))
    ]
    | equal e ↦ elim (Bool-cases (is_null l)) [
      | inl e' ↦ rw (e, e', delete_loop) (_, refl, (v.1, omega (arith, null_height l e')))
      | inr e' ↦ elim (Bool-cases (is_null r)) [
        | inl e'' ↦ rw (e, e', e'', delete_loop) (_, refl, (v.0, omega (arith, null_height r e'')))
        | inr e'' ↦
            rw (e, e', e'', delete_loop)
              (both_step _ d r b l _ v (delete_loop-Shrinks l true v.0 e'))
      ]
    ]
  ]
