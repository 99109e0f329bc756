-- ===== src/Permute/Orders.antt =====
-- The arrays that c/libs/heap-permutation.h gives to its callback, one by one: each round of the loop
-- has an item at the end, and before it the items for the recursive call.
use c_workspace.Common.{
  ℕ, zero, suc, ◌%◌, ◌≡◌, refl, sym, ap, ◌∙◌, ◌==◌, if◌then◌else◌, List, [], ◌∷◌, ◌++◌,
  append_assoc, append-nil, arith, length, length-append,
}
use mathlib.Core.List.{map}

module _ {ℓ} {A : Type ℓ} where
  abbrev pub backward : List A → List A
  backward [] = []
  backward (e ∷ t) = backward t ++ (e ∷ [])

  pub backward-append : (s t : List A) → backward (s ++ t) ≡ backward t ++ backward s
  backward-append [] t = sym (append-nil (backward t))
  backward-append (x ∷ s) t =
      rw (backward-append s t) (append_assoc (backward t) (backward s) (x ∷ []))

  pub backward-backward : (xs : List A) → backward (backward xs) ≡ xs
  backward-backward [] = refl
  backward-backward (x ∷ xs) =
      backward-append (backward xs) (x ∷ []) ∙ ap (λ s. x ∷ s) (backward-backward xs)

  pub length-backward : (xs : List A) → length (backward xs) ≡ length xs
  length-backward [] = refl
  length-backward (x ∷ xs) = omega (arith, length-append (backward xs) (x ∷ []), length-backward xs)

  -- The rounds where each call turns the items before the last: those are `p`, then `t` backward.
  abbrev pub rotated : List A → List A → List (List A × A)
  rotated p [] = []
  rotated p (e ∷ t) = (p ++ backward t, e) ∷ rotated (e ∷ p) t

  -- The rounds where each call leaves the items: `q` are those that were last, `e` is last.
  abbrev pub exchanged : List A → List A → A → List (List A × A)
  exchanged q [] e = (q, e) ∷ []
  exchanged q (c ∷ r) e = (q ++ (c ∷ r), e) ∷ exchanged (q ++ (e ∷ [])) r c

  abbrev pub exchanges : List A → List (List A × A)
  exchanges [] = []
  exchanges (e ∷ t) = exchanged [] (backward t) e

  -- The rounds on `n` items.
  abbrev pub rounds : ℕ → List A → List (List A × A)
  rounds n xs = if n % 2 == 1 then rotated [] (backward xs) else exchanges (backward xs)

  abbrev pub gather : (List A → List (List A)) → List (List A × A) → List (List A)
  gather f [] = []
  gather f ((us, e) ∷ stops) = map (λ z. z ++ (e ∷ [])) (f us) ++ gather f stops

  abbrev pub orders : ℕ → List A → List (List A)
  orders zero xs = []
  orders (suc zero) xs = xs ∷ []
  orders (suc (suc m)) xs = gather (orders (suc m)) (rounds (suc (suc m)) xs)

  -- What a call leaves of an even number of items, which are given backward.
  abbrev pub turn : List A → List A
  turn [] = []
  turn (e ∷ t) = e ∷ backward t

  abbrev pub left : ℕ → List A → List A
  left n xs = if n % 2 == 1 then xs else turn (backward xs)
