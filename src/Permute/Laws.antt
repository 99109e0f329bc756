-- ===== src/Permute/Laws.antt =====
-- What `heapPermute` of c/libs/heap-permutation.h gives to its callback, and leaves.
use c_workspace.Common.{
  some, ◌%◌, ◌^◌, ◌≤◌, ◌≡◌, refl, sym, ap, ◌∙◌, List, [], ◌∷◌, ◌++◌, arith, length, length-append,
  All, Returns,
}
use mathlib.Core.List.{Perm, Mem, Nodup, map, mem-map_of_mem}
use c_workspace.Permute.{heap_permute, permute_byte}
use c_workspace.Permute.Visits.{factorial, permute_byte-Visits}
use c_workspace.Permute.Orders.{orders, left}
use c_workspace.Permute.Rounds.{permute_byte-orders}
use c_workspace.Permute.Once.{map_append-Nodup, orders-Perm, orders-mem, orders-Nodup}

module _ {ℓ} {A : Type ℓ} where
  map_append-All :
      (xs ys : List A) (zs : List (List A))
      → All (λ w. Perm w xs) zs
      → All (λ u. (w : List A) × (u ≡ w ++ ys) × Perm w xs) (map (λ z. z ++ ys) zs)
  map_append-All xs ys [] a = tt
  map_append-All xs ys (z ∷ zs) a = ((z, refl, a.0), map_append-All xs ys zs a.1)

  -- The arrays that are given, and the one that is left, on the items `xs` before `ys`.
  pub record Permutes (xs ys : List A) (o : List A × List (List A)) : Type ℓ where
    pub left_as : o.0 ≡ left (length xs) xs ++ ys
    pub many : length o.1 ≡ factorial (length xs)
    pub only : All (λ u. (w : List A) × (u ≡ w ++ ys) × Perm w xs) o.1
    pub each : (w : List A) → Perm w xs → Mem (w ++ ys) o.1
    pub once : Nodup xs → Nodup o.1

  -- `heapPermute` on the first items of an array, of which there are one to 255, returns. It gives to the
  -- callback each permutation of them, and nothing else, with what stands behind left alone, as often in
  -- all as the factorial of their number; no array twice, where no two items are the same. It leaves the
  -- items as they were, if their number is odd, else the last before the others. Told that there are 256,
  -- it gives nothing.
  pub heap_permute-Permutes :
      (xs ys : List A)
      → 1 ≤ length xs
      → length xs ≤ 255
      → Returns (heap_permute (length xs) (xs ++ ys)) (Permutes xs ys)
        × (heap_permute 256 (xs ++ ys) ≡ some (xs ++ ys, []))
  unfolding heap_permute permute_byte
  heap_permute-Permutes xs ys h few =
      let n = length xs in
      let byte : n % 2 ^ 8 ≡ n = omega arith in
      let run = permute_byte-orders n h xs ys refl in
      let (o, e, visits) =
        permute_byte-Visits n (xs ++ ys) h (omega (arith, length-append xs ys)) in
      let same : o.1 ≡ map (λ z. z ++ ys) (orders n xs) = cc in
      (
        (
          (left n xs ++ ys, map (λ z. z ++ ys) (orders n xs)),
          ap (λ k. permute_byte k (xs ++ ys)) byte ∙ run,
          record {
            left_as = refl;
            many = sym (ap length same) ∙ visits.many;
            only = map_append-All xs ys (orders n xs) (orders-Perm n xs);
            each = λ w p. mem-map_of_mem (λ z. z ++ ys) (orders-mem n xs w h refl p);
            once = λ k. map_append-Nodup ys (orders n xs) (orders-Nodup n xs k);
          },
        ),
        refl,
      )
