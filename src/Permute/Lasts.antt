-- ===== src/Permute/Lasts.antt =====
-- The rounds of c/libs/heap-permutation.h: each has the items of the array, and each item is last in one.
use c_workspace.Common.{
  ℕ, ◌%◌, ◌≡◌, refl, sym, ap, ◌==◌, Bool-cases, inl, inr, List, [], ◌∷◌, ◌++◌, append_assoc,
  append-nil, All, subst,
}
use mathlib.Core.List.{Perm, perm_append_singleton}
use mathlib.Core.List.Perm
use c_workspace.Permute.Orders.{backward, rotated, exchanged, exchanges, rounds}

module _ {ℓ} {A : Type ℓ} where
  backward-Perm : (xs : List A) → Perm (backward xs) xs
  backward-Perm [] = Perm.refl []
  backward-Perm (x ∷ xs) =
      Perm.trans (perm_append_singleton x (backward xs)) (Perm.cons x (backward-Perm xs))

  abbrev pub lasts : List (List A × A) → List A
  lasts [] = []
  lasts ((us, e) ∷ stops) = e ∷ lasts stops

  -- The items of a round are those of the array.
  abbrev pub Fits : List A → List A × A → Type ℓ
  Fits xs (us, e) = Perm (e ∷ us) xs

  lasts-rotated : (p t : List A) → lasts (rotated p t) ≡ t
  lasts-rotated p [] = refl
  lasts-rotated p (e ∷ t) = ap (λ s. e ∷ s) (lasts-rotated (e ∷ p) t)

  lasts-exchanged : (q r : List A) (e : A) → lasts (exchanged q r e) ≡ e ∷ r
  lasts-exchanged q [] e = refl
  lasts-exchanged q (c ∷ r) e = ap (λ s. e ∷ s) (lasts-exchanged (q ++ (e ∷ [])) r c)

  middle : (q r : List A) (e : A) → Perm (q ++ (e ∷ r)) (e ∷ (q ++ r))
  middle [] r e = Perm.refl (e ∷ r)
  middle (x ∷ q) r e = Perm.trans (Perm.cons x (middle q r e)) (Perm.swap e x (q ++ r))

  rotated-Fits : (xs p t : List A) → Perm (p ++ t) xs → All (Fits xs) (rotated p t)
  rotated-Fits xs p [] h = tt
  rotated-Fits xs p (e ∷ t) h =
      let front = Perm.trans (Perm.symm (middle p t e)) h in
      (
        Perm.trans (Perm.cons e (Perm.append_left p (backward-Perm t))) front,
        rotated-Fits xs (e ∷ p) t front,
      )

  exchanged-Fits :
      (xs q r : List A) (e : A) → Perm (e ∷ (q ++ r)) xs → All (Fits xs) (exchanged q r e)
  exchanged-Fits xs q [] e h = (subst (λ u. Perm (e ∷ u) xs) (append-nil q) h, tt)
  exchanged-Fits xs q (c ∷ r) e h = (
    h,
    exchanged-Fits xs (q ++ (e ∷ [])) r c (
        Perm.trans (Perm.symm (middle (q ++ (e ∷ [])) r c)) (
          subst (λ u. Perm u xs) (sym (append_assoc q (e ∷ []) (c ∷ r)))
            (Perm.trans (middle q (c ∷ r) e) h))),
  )

  exchanges-Fits : (xs b : List A) → Perm b xs → All (Fits xs) (exchanges b)
  exchanges-Fits xs [] h = tt
  exchanges-Fits xs (e ∷ t) h =
      exchanged-Fits xs [] (backward t) e (Perm.trans (Perm.cons e (backward-Perm t)) h)

  lasts-exchanges : (b : List A) → Perm (lasts (exchanges b)) b
  lasts-exchanges [] = Perm.refl []
  lasts-exchanges (e ∷ t) = rw (lasts-exchanged [] (backward t) e) (Perm.cons e (backward-Perm t))

  pub rounds-Fits : (n : ℕ) (xs : List A) → All (Fits xs) (rounds n xs)
  rounds-Fits n xs = elim (Bool-cases (n % 2 == 1)) [
    | inl odd ↦ rw odd (rotated-Fits xs [] (backward xs) (backward-Perm xs))
    | inr even ↦ rw even (exchanges-Fits xs (backward xs) (backward-Perm xs))
  ]

  -- Each item is last in one round.
  pub lasts-rounds : (n : ℕ) (xs : List A) → Perm (lasts (rounds n xs)) xs
  lasts-rounds n xs = elim (Bool-cases (n % 2 == 1)) [
    | inl odd ↦ rw (odd, lasts-rotated [] (backward xs)) (backward-Perm xs)
    | inr even ↦ rw even (Perm.trans (lasts-exchanges (backward xs)) (backward-Perm xs))
  ]
