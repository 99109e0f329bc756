-- ===== src/Permute/Visits.antt =====
-- What `heapPermute` gives to its callback.
use c_workspace.Common.{
  ℕ, zero, suc, ◌+◌, ◌-◌, ◌*◌, ◌%◌, ◌≤◌, ◌≡◌, refl, ◌∙◌, ◌==◌, if◌then◌else◌, Option, List, [], ◌∷◌,
  ◌++◌, arith, length, length-append, All, All-append, All-imp, Returns,
}
use mathlib.Core.List.{Perm}
use mathlib.Core.List.Perm
use c_workspace.Permute.{permute_loop, permute_byte}
use c_workspace.Permute.Swap.{swap-Perm}

abbrev pub factorial : ℕ → ℕ
factorial zero = 1
factorial (suc n) = suc n * factorial n

-- A call on `v` that gives `count` permutations of it to the callback, and leaves a permutation.
pub record Visits {ℓ} {A : Type ℓ} (v : List A) (count : ℕ) (o : List A × List (List A))
    : Type ℓ where
  pub left : Perm o.0 v
  pub size : length o.0 ≡ length v
  pub many : length o.1 ≡ count
  pub given : All (λ w. Perm w v) o.1

module _ {ℓ} {A : Type ℓ} where
  permute_loop-Visits :
      (recurse : List A → Option (List A × List (List A))) (n count : ℕ)
      → ((v : List A) → n ≤ length v → Returns (recurse v) (Visits v count))
      → (rounds i : ℕ) (v : List A) → i + rounds ≡ n
      → n ≤ length v
      → Returns (permute_loop recurse n rounds i v) (Visits v (rounds * count))
  unfolding permute_loop
  permute_loop-Visits recurse n count r zero i v e h =
      ((v, []), refl, record { left = Perm.refl v; size = refl; many = omega arith; given = tt })
  permute_loop-Visits recurse n count r (suc rounds) i v e h =
      let (o, f, p) = r v h in
      let (w, g, q) =
        swap-Perm o.0 (if n % 2 == 1 then 0 else i) (n - 1) (ground arith)
          (omega (arith, p.size)) in
      let (o', k, s) =
        permute_loop-Visits recurse n count r rounds (i + 1) w (omega arith)
          (omega (arith, p.size, q.1)) in
      let back : Perm w v = Perm.trans q.0 p.left in
      (
        (o'.0, o.1 ++ o'.1),
        rw (f, g, k) refl,
        record {
          left = Perm.trans s.left back;
          size = s.size ∙ q.1 ∙ p.size;
          many = omega (arith, length-append o.1 o'.1, p.many, s.many);
          given =
              All-append (λ u. Perm u v) o.1 o'.1 p.given
                (All-imp {P = λ u. Perm u w} (λ u t. Perm.trans t back) o'.1 s.given);
        },
      )

  -- `heapPermute` on `n` items.
  pub permute_byte-Visits :
      (n : ℕ) (v : List A)
      → 1 ≤ n
      → n ≤ length v
      → Returns (permute_byte n v) (Visits v (factorial n))
  unfolding permute_byte
  permute_byte-Visits zero v one h = absurd (omega arith)
  permute_byte-Visits (suc zero) v one h = (
    (v, v ∷ []),
    refl,
    record { left = Perm.refl v; size = refl; many = refl; given = (Perm.refl v, tt) },
  )
  permute_byte-Visits (suc (suc m)) v one h =
      permute_loop-Visits (λ w. permute_byte (suc m) w) (suc (suc m)) (factorial (suc m))
        (λ w k. permute_byte-Visits (suc m) w (omega arith) (omega arith)) (suc (suc m)) 0 v
        (omega arith) h
