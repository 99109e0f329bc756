-- ===== src/Avl/Shape/Depth.antt =====
-- How high a balanced tree is: what `avl_tree_depth` returns, and its bound in the number of nodes.
use Prim.Native.Nat.{ℕ, ◌/◌, ◌^◌, ◌≤◌}
use native.Mathlib.Nat.{two-pow-succ}
use c_workspace.Common.{
  zero, suc, max, ◌+◌, ◌≡◌, refl, ℤ, pos, negsuc, arith, length, length-append, ◌∷◌,
}
use c_workspace.Avl.Node.{Node, null, node}
use c_workspace.Avl.Query.{depth_loop}
use c_workspace.Avl.Order.{elements}
use c_workspace.Avl.Shape.{height, Balances, IsBalanced}

module _ {ℓ} {A : Type ℓ} where
  pub depth_loop-height : (t : Node A) (n : ℕ) → IsBalanced t → depth_loop t n ≡ n + height t
  unfolding depth_loop
  depth_loop-height null n v = omega arith
  depth_loop-height (node d l r (negsuc zero)) n v = omega (arith, depth_loop-height l (n + 1) v.0)
  depth_loop-height (node d l r (negsuc (suc k))) n v = absurd (omega arith)
  depth_loop-height (node d l r (pos zero)) n v = omega (arith, depth_loop-height r (n + 1) v.1)
  depth_loop-height (node d l r (pos (suc zero))) n v =
      omega (arith, depth_loop-height r (n + 1) v.1)
  depth_loop-height (node d l r (pos (suc (suc k)))) n v = absurd (omega arith)

-- Twice the number at two levels less.
abbrev min_size : ℕ → ℕ
min_size zero = 1
min_size (suc zero) = 1
min_size (suc (suc h)) = min_size h + min_size h

min_size-pow : (h : ℕ) → min_size h ≡ 2 ^ (h / 2)
min_size-pow zero = refl
min_size-pow (suc zero) = refl
min_size-pow (suc (suc h)) =
    let e : suc (suc h) / 2 ≡ suc (h / 2) = omega arith in rw (e, two-pow-succ, min_size-pow h) refl

min_size-step : (h : ℕ) → min_size h ≤ min_size (suc h)
min_size-step zero = omega arith
min_size-step (suc zero) = omega arith
min_size-step (suc (suc h)) = omega (arith, min_size-step h)

-- Two sides whose heights differ by one at most.
min_size-max :
    (b : ℤ) (hl hr : ℕ) → Balances b hl hr → min_size (suc (max hl hr)) ≤ min_size hl + min_size hr
min_size-max (pos zero) hl hr v =
    let e : max hl hr ≡ hl = omega arith in
    let e' : hr ≡ hl = omega arith in rw (e, e') (min_size-step (suc hl))
min_size-max (pos (suc zero)) hl hr v =
    let e : max hl hr ≡ suc hl = omega arith in
    let e' : hr ≡ suc hl = omega arith in rw (e, e') (omega (arith, min_size-step hl))
min_size-max (negsuc zero) hl hr v =
    let e : max hl hr ≡ suc hr = omega arith in
    let e' : hl ≡ suc hr = omega arith in rw (e, e') (omega (arith, min_size-step hr))
min_size-max (negsuc (suc k)) hl hr v = absurd (omega arith)
min_size-max (pos (suc (suc k))) hl hr v = absurd (omega arith)

module _ {ℓ} {A : Type ℓ} where
  min_size-le : (t : Node A) → IsBalanced t → min_size (height t) ≤ length (elements t) + 1
  min_size-le null v = omega arith
  min_size-le (node d l r b) v = omega (
    arith,
    min_size-max b (height l) (height r) v.2,
    min_size-le l v.0,
    min_size-le r v.1,
    length-append (elements l) (d ∷ elements r),
  )

  pub height_bound : (t : Node A) → IsBalanced t → 2 ^ (height t / 2) ≤ length (elements t) + 1
  height_bound t v = rw (← min_size-pow (height t)) (min_size-le t v)
