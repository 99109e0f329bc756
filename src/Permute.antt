-- ===== src/Permute.antt =====
-- c/libs/heap-permutation.h: Heap's algorithm, with a callback on each permutation.
pub mod Swap
pub mod Visits
pub mod Orders
pub mod Loops
pub mod Rounds
pub mod Lasts
pub mod Once
pub mod Laws
mod Examples
use c_workspace.Common.{
  ℕ, zero, suc, ◌+◌, ◌-◌, ◌%◌, ◌^◌, ◌==◌, if◌then◌else◌, Option, some, ◌>>=◌, List, [], ◌∷◌, ◌++◌,
  get_elem?, write,
}

-- `swap(&v[i], &v[j])`
unfoldable pub swap {ℓ} : {A : Type ℓ} → List A → ℕ → ℕ → Option (List A)
swap v i j = do a ← get_elem? v i; b ← get_elem? v j; v' ← write v i b; write v' j a

-- The loop of `heapPermute` with `rounds` left: `recurse` is the recursive call. What a call leaves is
-- the array, and what the callback was given, in order.
unfoldable pub permute_loop {ℓ} :
    {A : Type ℓ}
    → (List A → Option (List A × List (List A)))
    → ℕ
    → ℕ
    → ℕ
    → List A
    → Option (List A × List (List A))
unfolding swap
permute_loop recurse n zero i v = some (v, [])
permute_loop recurse n (suc rounds) i v = do
  (v1, seen) ← recurse v
  v2 ← swap v1 (if n % 2 == 1 then 0 else i) (n - 1)
  (v3, rest) ← permute_loop recurse n rounds (i + 1) v2
  some (v3, seen ++ rest)

-- `heapPermute` of a byte `n`: in the loop neither `n - 1` nor `i++` leaves the bytes.
unfoldable pub permute_byte {ℓ} : {A : Type ℓ} → ℕ → List A → Option (List A × List (List A))
unfolding permute_loop
permute_byte zero v = some (v, [])
permute_byte (suc zero) v = some (v, v ∷ [])
permute_byte (suc (suc m)) v =
    permute_loop (λ w. permute_byte (suc m) w) (suc (suc m)) (suc (suc m)) 0 v

-- `heapPermute`: a number of items is taken to a byte.
unfoldable pub heap_permute {ℓ} : {A : Type ℓ} → ℕ → List A → Option (List A × List (List A))
unfolding permute_byte
heap_permute n v = permute_byte (n % 2 ^ 8) v
