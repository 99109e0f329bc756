-- ===== src/Permute/Once.antt =====
-- The orders that c/libs/heap-permutation.h gives to its callback are the permutations of the items, each
-- of them, and each once where no two items are the same.
use c_workspace.Common.{
  ℕ, zero, suc, ◌≤◌, ◌≡◌, refl, sym, ap, ◌∙◌, List, [], ◌∷◌, ◌++◌, arith, length, length-append,
  All, All-append, subst,
}
use mathlib.Core.Logic.{∥∥₁_elim}
use mathlib.Core.Logic.Or
use mathlib.Core.HLevel.{⊥_prop}
use mathlib.Core.List.{
  Perm, Permᴰ, Mem, Mem-prop, Nodup, Nodup-append, Nodup-cons, map, mem-cons, mem-append,
  mem-append_left, mem-append_right, mem-map_of_mem, exists_of_mem-map, perm_append_singleton,
  not-mem-nil, append_cancel_right, mem-cons_self, Pairwise,
}
use mathlib.Core.List.Perm
use c_workspace.Permute.Orders.{backward, backward-append, rounds, gather, orders}
use c_workspace.Permute.Lasts.{lasts, Fits, rounds-Fits, lasts-rounds}

module _ {ℓ} {A : Type ℓ} where
  length-Permᴰ : {xs ys : List A} → Permᴰ xs ys → length xs ≡ length ys
  length-Permᴰ Permᴰ.nil = refl
  length-Permᴰ (Permᴰ.cons e p) = ap suc (length-Permᴰ p)
  length-Permᴰ (Permᴰ.swap e f) = refl
  length-Permᴰ (Permᴰ.trans p q) = length-Permᴰ p ∙ length-Permᴰ q

  length-Perm : {xs ys : List A} → Perm xs ys → length xs ≡ length ys
  length-Perm {xs} {ys} p = ∥∥₁_elim p (hlevel) length-Permᴰ

  end_view : (xs : List A) → 1 ≤ length xs → (z : List A) × (x : A) × (xs ≡ z ++ (x ∷ []))
  end_view [] h = absurd (omega arith)
  end_view (x ∷ []) h = ([], x, refl)
  end_view (x ∷ y ∷ xs) h =
      let (z, e, k) = end_view (y ∷ xs) (omega arith) in (x ∷ z, e, ap (λ s. x ∷ s) k)

  end_inj : (z z' : List A) (e e' : A) → z ++ (e ∷ []) ≡ z' ++ (e' ∷ []) → e ≡ e'
  end_inj z z' e e' h =
      let k : e ∷ backward z ≡ e' ∷ backward z' =
        sym (backward-append z (e ∷ [])) ∙ ap backward h ∙ backward-append z' (e' ∷ []) in
      cc

  pub map_append-Nodup :
      (ys : List A) (zs : List (List A)) → Nodup zs → Nodup (map (λ z. z ++ ys) zs)
  map_append-Nodup ys [] h = Pairwise.nil
  map_append-Nodup ys (z ∷ zs) h = Nodup-cons.1 (
    λ m.
        ∥∥₁_elim (exists_of_mem-map m) ⊥_prop
          (λ r. (Nodup-cons.0 h).0 (subst (λ u. Mem u zs) (append_cancel_right r.0 z ys r.2) r.1)),
    map_append-Nodup ys zs (Nodup-cons.0 h).1,
  )

  All-map_end :
      (xs us : List A) (e : A) (zs : List (List A))
      → Perm (e ∷ us) xs
      → All (λ z. Perm z us) zs
      → All (λ w. Perm w xs) (map (λ z. z ++ (e ∷ [])) zs)
  All-map_end xs us e [] h a = tt
  All-map_end xs us e (z ∷ zs) h a = (
    Perm.trans (perm_append_singleton e z) (Perm.trans (Perm.cons e a.0) h),
    All-map_end xs us e zs h a.1,
  )

  module _ (f : List A → List (List A)) where
    gather-Perm :
        ((us : List A) → All (λ z. Perm z us) (f us))
        → (xs : List A) (stops : List (List A × A)) → All (Fits xs) stops
        → All (λ w. Perm w xs) (gather f stops)
    gather-Perm h xs [] a = tt
    gather-Perm h xs ((us, e) ∷ stops) a =
        All-append (λ w. Perm w xs) (map (λ z. z ++ (e ∷ [])) (f us)) (gather f stops)
          (All-map_end xs us e (f us) a.0 (h us)) (gather-Perm h xs stops a.1)

    gather-mem :
        (xs z : List A) (x : A) (stops : List (List A × A))
        → ((us : List A) → length us ≡ length z → Perm z us → Mem z (f us))
        → All (Fits xs) stops
        → Perm (x ∷ z) xs
        → Mem x (lasts stops)
        → Mem (z ++ (x ∷ [])) (gather f stops)
    gather-mem xs z x [] h a p m = absurd (not-mem-nil m)
    gather-mem xs z x ((us, e) ∷ stops) h a p m =
        Or.elim Mem-prop (mem-cons.0 m)
          (λ same.
            let fits : Perm (x ∷ us) xs = subst (λ c. Perm (c ∷ us) xs) (sym same) a.0 in
            let front : Perm z us = Perm.cons_inv (Perm.trans p (Perm.symm fits)) in
            mem-append_left (gather f stops) (
              subst (λ c. Mem (z ++ (x ∷ [])) (map (λ z. z ++ (c ∷ [])) (f us))) same
                (mem-map_of_mem (λ z. z ++ (x ∷ [])) (h us (sym (length-Perm front)) front))))
          (λ later.
            mem-append_right (map (λ z. z ++ (e ∷ [])) (f us))
              (gather-mem xs z x stops h a.1 p later))

    -- What the rounds give ends with the last item of a round.
    last-mem :
        (z : List A) (x : A) (stops : List (List A × A))
        → Mem (z ++ (x ∷ [])) (gather f stops)
        → Mem x (lasts stops)
    last-mem z x [] m = absurd (not-mem-nil m)
    last-mem z x ((us, e) ∷ stops) m =
        Or.elim Mem-prop (mem-append.0 m)
          (λ here.
            ∥∥₁_elim (exists_of_mem-map here) Mem-prop
              (λ r. subst (λ c. Mem c (e ∷ lasts stops)) (end_inj r.0 z e x r.2) mem-cons_self))
          (λ later. mem-cons.1 (Or.inr (last-mem z x stops later)))

    gather-Nodup :
        (xs : List A) (stops : List (List A × A))
        → ((us : List A) → Nodup us → Nodup (f us))
        → All (Fits xs) stops
        → Nodup xs
        → Nodup (lasts stops)
        → Nodup (gather f stops)
    gather-Nodup xs [] h a n k = Pairwise.nil
    gather-Nodup xs ((us, e) ∷ stops) h a n k =
        let front : Nodup us = (Nodup-cons.0 (Perm.nodup (Perm.symm a.0) n)).1 in
        Nodup-append.1 (
          map_append-Nodup (e ∷ []) (f us) (h us front),
          gather-Nodup xs stops h a.1 n (Nodup-cons.0 k).1,
          λ w here later. ∥∥₁_elim (exists_of_mem-map here) ⊥_prop (λ r.
              (Nodup-cons.0 k).0
                (last-mem r.0 e stops (subst (λ u. Mem u (gather f stops)) (sym r.2) later))),
        )

  pub orders-Perm : (n : ℕ) (xs : List A) → All (λ w. Perm w xs) (orders n xs)
  orders-Perm zero xs = tt
  orders-Perm (suc zero) xs = (Perm.refl xs, tt)
  orders-Perm (suc (suc m)) xs =
      gather-Perm (orders (suc m)) (λ us. orders-Perm (suc m) us) xs (rounds (suc (suc m)) xs)
        (rounds-Fits (suc (suc m)) xs)

  one-mem : (w xs : List A) → length xs ≡ 1 → Perm w xs → Mem w (xs ∷ [])
  one-mem w [] h p = absurd (omega arith)
  one-mem [] (x ∷ xs) h p = absurd (omega (arith, length-Perm p))
  one-mem (c ∷ w) (x ∷ y ∷ xs) h p = absurd (omega arith)
  one-mem (c ∷ d ∷ w) (x ∷ []) h p = absurd (omega (arith, length-Perm p))
  one-mem (c ∷ []) (x ∷ []) h p =
      Or.elim Mem-prop (mem-cons.0 ((Perm.mem_iff p).0 mem-cons_self))
        (λ same. subst (λ y. Mem (c ∷ []) ((y ∷ []) ∷ [])) same mem-cons_self)
        (λ none'. absurd (not-mem-nil none'))

  pub orders-mem : (n : ℕ) (xs w : List A) → 1 ≤ n → length xs ≡ n → Perm w xs → Mem w (orders n xs)
  orders-mem zero xs w h k p = absurd (omega arith)
  orders-mem (suc zero) xs w h k p = one-mem w xs k p
  orders-mem (suc (suc m)) xs w h k p =
      let size = length-Perm p in
      let (z, x, e) = end_view w (omega arith) in
      let short : length z ≡ suc m = omega (arith, ap length e, length-append z (x ∷ [])) in
      let whole : Perm (x ∷ z) xs =
        Perm.trans (Perm.symm (perm_append_singleton x z)) (subst (λ u. Perm u xs) e p) in
      let last : Mem x (lasts (rounds (suc (suc m)) xs)) =
        (Perm.mem_iff (Perm.trans whole (Perm.symm (lasts-rounds (suc (suc m)) xs)))).0
          mem-cons_self in
      subst (λ u. Mem u (orders (suc (suc m)) xs)) (sym e)
        (gather-mem (orders (suc m)) xs z x (rounds (suc (suc m)) xs)
          (λ us l q. orders-mem (suc m) us z (omega arith) (omega arith) q)
          (rounds-Fits (suc (suc m)) xs) whole last)

  pub orders-Nodup : (n : ℕ) (xs : List A) → Nodup xs → Nodup (orders n xs)
  orders-Nodup zero xs h = Pairwise.nil
  orders-Nodup (suc zero) xs h = Nodup-cons.1 (not-mem-nil, Pairwise.nil)
  orders-Nodup (suc (suc m)) xs h =
      gather-Nodup (orders (suc m)) xs (rounds (suc (suc m)) xs) (λ us k. orders-Nodup (suc m) us k)
        (rounds-Fits (suc (suc m)) xs) h (Perm.nodup (Perm.symm (lasts-rounds (suc (suc m)) xs)) h)
