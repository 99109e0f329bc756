-- ===== src/Permute/Loops.antt =====
-- One loop of `heapPermute` of c/libs/heap-permutation.h runs through the rounds of Orders, if the call on
-- one item less runs through its orders.
use c_workspace.Common.{
  ℕ, suc, ◌+◌, ◌-◌, ◌%◌, ◌≤◌, ◌≡◌, refl, sym, ap, ◌∙◌, ◌==◌, true, false, if◌then◌else◌, Option,
  some, ◌>>=◌, List, [], ◌∷◌, ◌++◌, append_assoc, append-nil, arith, length, length-append,
}
use mathlib.Core.List.{map, map-append}
use c_workspace.Permute.{swap, permute_loop}
use c_workspace.Permute.Swap.{swap_apart, swap_same}
use c_workspace.Permute.Orders.{
  backward, backward-backward, length-backward, rotated, exchanged, rounds, gather, turn,
}

module _ {ℓ} {A : Type ℓ} where
  map_ends :
      (e : A) (ys : List A) (zs : List (List A))
      → map (λ z. z ++ ys) (map (λ z. z ++ (e ∷ [])) zs) ≡ map (λ z. z ++ (e ∷ ys)) zs
  map_ends e ys [] = refl
  map_ends e ys (z ∷ zs) = λ i. append_assoc z (e ∷ []) ys i ∷ map_ends e ys zs i

  -- What a round and those behind it give.
  seen-gather :
      (f : List A → List (List A)) (us : List A) (e : A) (stops : List (List A × A)) (ys : List A)
      → map (λ z. z ++ (e ∷ ys)) (f us) ++ map (λ z. z ++ ys) (gather f stops)
        ≡ map (λ z. z ++ ys) (gather f ((us, e) ∷ stops))
  seen-gather f us e stops ys =
      ap (λ s. s ++ map (λ z. z ++ ys) (gather f stops)) (sym (map_ends e ys (f us)))
      ∙ sym (map-append (λ z. z ++ ys) (map (λ z. z ++ (e ∷ [])) (f us)) (gather f stops))

  pub turned :
      (b us : List A)
      → us ≡ backward b
      → 1 ≤ length us
      → (g : A) × (s : List A) × (us ≡ backward s ++ (g ∷ []))
        × (turn (backward us) ≡ g ∷ backward s)
  turned [] us e h = absurd (omega (arith, ap length e))
  turned (g ∷ s) us e h =
      (g, s, e, ap (λ u. turn (backward u)) e ∙ ap turn (backward-backward (g ∷ s)))

module _ {ℓ} {A : Type ℓ} (recurse : List A → Option (List A × List (List A))) (n : ℕ) where
  loop_end : (i : ℕ) (v : List A) → permute_loop recurse n 0 i v ≡ some (v, [])
  unfolding permute_loop
  loop_end i v = refl

  loop_step :
      (rounds i : ℕ) {v v1 v2 v3 : List A} {seen rest : List (List A)}
      → recurse v ≡ some (v1, seen)
      → swap v1 (if n % 2 == 1 then 0 else i) (n - 1) ≡ some v2
      → permute_loop recurse n rounds (i + 1) v2 ≡ some (v3, rest)
      → permute_loop recurse n (suc rounds) i v ≡ some (v3, seen ++ rest)
  unfolding permute_loop
  loop_step rounds i e f g = rw (e, ◌>>=◌, f, ◌>>=◌, g) refl

module _ {ℓ} {A : Type ℓ} (recurse : List A → Option (List A × List (List A)))
    (f : List A → List (List A)) (m : ℕ) where
  pub rotated-run :
      ((us ys : List A)
        → length us ≡ m
        → recurse (us ++ ys) ≡ some (turn (backward us) ++ ys, map (λ z. z ++ ys) (f us)))
      → (suc m % 2 == 1) ≡ true
      → 1 ≤ m
      → (p t ys : List A) (i : ℕ) → length p + length t ≡ suc m
      → permute_loop recurse (suc m) (length t) i ((p ++ backward t) ++ ys)
        ≡ some ((backward t ++ p) ++ ys, map (λ z. z ++ ys) (gather f (rotated p t)))
  rotated-run turns odd h p [] ys i k =
      loop_end recurse (suc m) i ((p ++ []) ++ ys) ∙ ap (λ v. some (v ++ ys, [])) (append-nil p)
  rotated-run turns odd h p (e ∷ t) ys i k =
      let us = p ++ backward t in
      let size : length us ≡ m = omega (arith, length-append p (backward t), length-backward t) in
      let (g, s, whole, last) =
        turned (backward us) us (sym (backward-backward us)) (omega arith) in
      let size' : length (backward s) + 1 ≡ m =
        omega (arith, ap length whole, length-append (backward s) (g ∷ [])) in
      let start : (p ++ (backward t ++ (e ∷ []))) ++ ys ≡ us ++ (e ∷ ys) = simp append_assoc in
      let call : recurse (us ++ (e ∷ ys))
          ≡ some (g ∷ (backward s ++ (e ∷ ys)), map (λ z. z ++ (e ∷ ys)) (f us)) =
        turns us (e ∷ ys) size
        ∙ ap (λ b. some (b ++ (e ∷ ys), map (λ z. z ++ (e ∷ ys)) (f us))) last in
      let next : e ∷ (backward s ++ (g ∷ ys)) ≡ ((e ∷ p) ++ backward t) ++ ys =
        ap (λ v. e ∷ v)
          (sym (append_assoc (backward s) (g ∷ []) ys) ∙ ap (λ v. v ++ ys) (sym whole)) in
      let m' : suc m - 1 ≡ m = omega arith in
      let swaps : swap (g ∷ (backward s ++ (e ∷ ys))) 0 m ≡ some (((e ∷ p) ++ backward t) ++ ys) =
        swap_apart [] g (backward s) e ys 0 m refl (omega arith) ∙ ap some next in
      rw start (
        loop_step recurse (suc m) (length t) i call (rw (odd, m') swaps)
          (rotated-run turns odd h (e ∷ p) t ys (i + 1) (omega arith))
        ∙ λ j. some (
          sym (append_assoc (backward t) (e ∷ []) p) j ++ ys,
          seen-gather f us e (rotated (e ∷ p) t) ys j,
        ))

  pub exchanged-run :
      ((us ys : List A)
        → length us ≡ m
        → recurse (us ++ ys) ≡ some (us ++ ys, map (λ z. z ++ ys) (f us)))
      → (suc m % 2 == 1) ≡ false
      → (q r : List A) (e : A) (ys : List A) → length q + length r ≡ m
      → permute_loop recurse (suc m) (suc (length r)) (length q) ((q ++ r) ++ (e ∷ ys))
        ≡ some ((q ++ (e ∷ r)) ++ ys, map (λ z. z ++ ys) (gather f (exchanged q r e)))
  exchanged-run keeps even q [] e ys k =
      let m' : suc m - 1 ≡ m = omega arith in
      rw (append-nil q) (
        loop_step recurse (suc m) 0 (length q) (keeps q (e ∷ ys) (omega arith))
          (rw (even, m') (swap_same q e ys (length q) m refl (omega arith)))
          (loop_end recurse (suc m) (length q + 1) (q ++ (e ∷ ys)))
        ∙ λ j. some (sym (append_assoc q (e ∷ []) ys) j, seen-gather f q e [] ys j))
  exchanged-run keeps even q (c ∷ r) e ys k =
      let us = q ++ (c ∷ r) in
      let m' : suc m - 1 ≡ m = omega arith in
      let size : length us ≡ m = omega (arith, length-append q (c ∷ r)) in
      let next : q ++ (e ∷ (r ++ (c ∷ ys))) ≡ ((q ++ (e ∷ [])) ++ r) ++ (c ∷ ys) =
        simp append_assoc in
      let swaps : swap (us ++ (e ∷ ys)) (length q) m ≡ some (((q ++ (e ∷ [])) ++ r) ++ (c ∷ ys)) =
        ap (λ v. swap v (length q) m) (append_assoc q (c ∷ r) (e ∷ ys))
        ∙ swap_apart q c r e ys (length q) m refl (omega arith)
        ∙ ap some next in
      let place : length q + 1 ≡ length (q ++ (e ∷ [])) = omega (arith, length-append q (e ∷ [])) in
      let later : permute_loop recurse (suc m) (suc (length r)) (length q + 1)
            (((q ++ (e ∷ [])) ++ r) ++ (c ∷ ys))
          ≡ some (
            ((q ++ (e ∷ [])) ++ (c ∷ r)) ++ ys,
            map (λ z. z ++ ys) (gather f (exchanged (q ++ (e ∷ [])) r c)),
          ) =
        rw place (exchanged-run keeps even (q ++ (e ∷ [])) r c ys (omega (arith, place))) in
      loop_step recurse (suc m) (suc (length r)) (length q) (keeps us (e ∷ ys) size)
        (rw (even, m') swaps) later
      ∙ λ j. some (
        append_assoc q (e ∷ []) (c ∷ r) j ++ ys,
        seen-gather f us e (exchanged (q ++ (e ∷ [])) r c) ys j,
      )
