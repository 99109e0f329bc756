-- ===== src/Permute/Rounds.antt =====
-- `heapPermute` of c/libs/heap-permutation.h runs through the rounds of Orders, whatever stands behind the
-- items.
use c_workspace.Common.{
  Bool, ℕ, zero, suc, ◌%◌, ◌≤◌, ◌≡◌, refl, ap, ◌∙◌, ◌==◌, true, false, Bool-cases, inl, inr,
  if◌then◌else◌, Option, some, List, [], ◌∷◌, ◌++◌, append_assoc, append-nil, arith, length,
}
use mathlib.Core.List.{map}
use c_workspace.Permute.{permute_loop, permute_byte}
use c_workspace.Permute.Orders.{
  backward, backward-backward, length-backward, rotated, exchanges, gather, orders, turn, left,
}
use c_workspace.Permute.Loops.{exchanged-run, rotated-run}

-- What is known of the parity of one item less.
odd-pred : (m : ℕ) → (suc m % 2 == 1) ≡ true → (m % 2 == 1) ≡ false
odd-pred m h = ground arith

even-pred : (m : ℕ) → (suc m % 2 == 1) ≡ false → (m % 2 == 1) ≡ true
even-pred m h = ground arith

-- What a call on `n` items does.
abbrev Runs {ℓ} : Type ℓ → ℕ → Type ℓ
Runs A n =
    (xs ys : List A)
    → length xs ≡ n
    → permute_byte n (xs ++ ys) ≡ some (left n xs ++ ys, map (λ z. z ++ ys) (orders n xs))

module _ {ℓ} {A : Type ℓ} where
  permute_byte-loop :
      (m : ℕ) (v : List A)
      → permute_byte (suc (suc m)) v
        ≡ permute_loop (λ w. permute_byte (suc m) w) (suc (suc m)) (suc (suc m)) 0 v
  unfolding permute_byte
  permute_byte-loop m v = refl

  heap_permute_one : (v : List A) → permute_byte 1 v ≡ some (v, v ∷ [])
  unfolding permute_byte
  heap_permute_one v = refl

  -- The loop on an even number of items, whose last is `e`.
  exchanges-run :
      (recurse : List A → Option (List A × List (List A))) (f : List A → List (List A)) (m : ℕ)
      (b ys : List A)
      → ((us ys : List A)
          → length us ≡ m
          → recurse (us ++ ys) ≡ some (us ++ ys, map (λ z. z ++ ys) (f us)))
      → (suc m % 2 == 1) ≡ false
      → length b ≡ suc m
      → permute_loop recurse (suc m) (length b) 0 (backward b ++ ys)
        ≡ some (turn b ++ ys, map (λ z. z ++ ys) (gather f (exchanges b)))
  exchanges-run recurse f m [] ys keeps even k = absurd (omega arith)
  exchanges-run recurse f m (e ∷ t) ys keeps even k =
      let start : (backward t ++ (e ∷ [])) ++ ys ≡ backward t ++ (e ∷ ys) = simp append_assoc in
      rw (start, ← length-backward t)
        (exchanged-run recurse f m keeps even [] (backward t) e ys
          (omega (arith, length-backward t)))

  sized :
      {B : Type ℓ} (f : ℕ → List A → B) {k k' : ℕ} {v v' : List A}
      → k' ≡ k
      → v' ≡ v
      → f k v ≡ f k' v'
  sized f e h = rw (e, h) refl

  left_of :
      (n : ℕ) (b : Bool)
      → (n % 2 == 1) ≡ b
      → Runs A n
      → (us zs : List A) → length us ≡ n
      → permute_byte n (us ++ zs)
        ≡ some ((if b then us else turn (backward us)) ++ zs, map (λ z. z ++ zs) (orders n us))
  left_of n b e runs us zs k =
      runs us zs k
      ∙ ap
          (λ b.
            some ((if b then us else turn (backward us)) ++ zs, map (λ z. z ++ zs) (orders n us)))
          e

  permute_byte-loop_by :
      (m : ℕ) (b : Bool) (xs ys : List A)
      → (suc (suc m) % 2 == 1) ≡ b
      → length (backward xs) ≡ suc (suc m)
      → permute_loop
          (λ w. permute_byte (suc m) w)
          (suc (suc m))
          (length (backward xs))
          0
          (backward (backward xs) ++ ys)
        ≡ some (
          (if b then xs else turn (backward xs)) ++ ys,
          map
              (λ z. z ++ ys)
              (gather
                (orders (suc m))
                (if b then rotated [] (backward xs) else exchanges (backward xs))),
        )
      → permute_byte (suc (suc m)) (xs ++ ys)
        ≡ some (left (suc (suc m)) xs ++ ys, map (λ z. z ++ ys) (orders (suc (suc m)) xs))
  permute_byte-loop_by m b xs ys e size run =
      permute_byte-loop m (xs ++ ys)
      ∙ sized (λ k v. permute_loop (λ w. permute_byte (suc m) w) (suc (suc m)) k 0 v) size
          (ap (λ v. v ++ ys) (backward-backward xs))
      ∙ run
      ∙ rw e refl

  -- `heapPermute` gives the orders of its items one by one, and leaves them as they were, or turned.
  pub permute_byte-orders : (n : ℕ) → 1 ≤ n → Runs A n
  permute_byte-orders zero h xs ys k = absurd (omega arith)
  permute_byte-orders (suc zero) h xs ys k = heap_permute_one (xs ++ ys)
  permute_byte-orders (suc (suc m)) h xs ys k =
      let below = permute_byte-orders (suc m) (omega arith) in
      let size : length (backward xs) ≡ suc (suc m) = omega (arith, length-backward xs) in
      elim (Bool-cases (suc (suc m) % 2 == 1)) [
        | inl odd ↦ permute_byte-loop_by m true xs ys odd size (
            rotated-run (λ w. permute_byte (suc m) w) (orders (suc m)) (suc m)
              (left_of (suc m) false (odd-pred (suc m) odd) below) odd (omega arith) []
              (backward xs) ys 0 (omega (arith, size))
            ∙ ap
                (λ v. some (
                  v ++ ys,
                  map (λ z. z ++ ys) (gather (orders (suc m)) (rotated [] (backward xs))),
                ))
                (append-nil (backward (backward xs)) ∙ backward-backward xs))
        | inr even ↦ permute_byte-loop_by m false xs ys even size (
            exchanges-run (λ w. permute_byte (suc m) w) (orders (suc m)) (suc m) (backward xs) ys
              (left_of (suc m) true (even-pred (suc m) even) below) even size)
      ]
