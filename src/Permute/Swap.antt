-- ===== src/Permute/Swap.antt =====
-- `swap` of two items of an array.
use c_workspace.Common.{
  ◌+◌, sym, ap, ◌>>=◌, ◌++◌, append_assoc, length-append, write-append, ℕ, zero, suc, ◌≤◌, ◌<◌, ◌≡◌,
  refl, ◌∙◌, some, List, [], ◌∷◌, arith, length, length-set, get_elem?, set, write-set, drop-elem,
  Returns,
}
use mathlib.Core.List.{Perm}
use mathlib.Core.List.Perm
use c_workspace.Permute.{swap}

module _ {ℓ} {A : Type ℓ} where
  pub set-Perm :
      (xs : List A) (j : ℕ) (x y : A) → get_elem? xs j ≡ some y → Perm (y ∷ set xs j x) (x ∷ xs)
  set-Perm [] j x y e = cc
  set-Perm (z ∷ zs) zero x y e = let f : z ≡ y = cc in rw f (Perm.swap x y zs)
  set-Perm (z ∷ zs) (suc j) x y e =
      Perm.trans (Perm.swap z y (set zs j x))
        (Perm.trans (Perm.cons z (set-Perm zs j x y e)) (Perm.swap x z zs))

  swapped :
      (v : List A) (i j : ℕ) (a b : A)
      → get_elem? v i ≡ some a
      → get_elem? v j ≡ some b
      → i ≤ j
      → Perm (set (set v i b) j a) v
  swapped [] i j a b e f h = Perm.refl []
  swapped (x ∷ xs) zero zero a b e f h = let g : x ≡ a = cc in rw g (Perm.refl (a ∷ xs))
  swapped (x ∷ xs) zero (suc j) a b e f h = let g : x ≡ a = cc in rw g (set-Perm xs j a b f)
  swapped (x ∷ xs) (suc i) zero a b e f h = absurd (omega arith)
  swapped (x ∷ xs) (suc i) (suc j) a b e f h = Perm.cons x (swapped xs i j a b e f (omega arith))

  -- Within the array it gives a permutation of it.
  pub swap-Perm :
      (v : List A) (i j : ℕ)
      → i ≤ j
      → j < length v
      → Returns (swap v i j) (λ w. Perm w v × (length w ≡ length v))
  unfolding swap
  swap-Perm v i j h k =
      let (a, e, _) = drop-elem v i (omega arith) in
      let (b, f, _) = drop-elem v j k in
      (
        set (set v i b) j a,
        rw
            (
              e,
              f,
              write-set v i b (omega arith),
              write-set (set v i b) j a (omega (arith, length-set v i b)),
            )
            refl,
        (swapped v i j a b e f h, length-set (set v i b) j a ∙ length-set v i b),
      )

  get_elem?-append_at :
      (q : List A) (c : A) (s : List A) → get_elem? (q ++ (c ∷ s)) (length q) ≡ some c
  get_elem?-append_at [] c s = refl
  get_elem?-append_at (x ∷ q) c s = get_elem?-append_at q c s

  -- Two items at different places.
  pub swap_apart :
      (q : List A) (c : A) (r : List A) (e : A) (ys : List A) (i j : ℕ)
      → i ≡ length q
      → j ≡ length q + 1 + length r
      → swap (q ++ (c ∷ (r ++ (e ∷ ys)))) i j ≡ some (q ++ (e ∷ (r ++ (c ∷ ys))))
  unfolding swap
  swap_apart q c r e ys i j h k =
      let whole : (x : A) → q ++ (x ∷ (r ++ (e ∷ ys))) ≡ (q ++ (x ∷ r)) ++ (e ∷ ys) =
        λ x. sym (append_assoc q (x ∷ r) (e ∷ ys)) in
      let size : (x : A) → j ≡ length (q ++ (x ∷ r)) =
        λ x. omega (arith, length-append q (x ∷ r)) in
      let last : get_elem? (q ++ (c ∷ (r ++ (e ∷ ys)))) j ≡ some e =
        rw (whole c, size c) (get_elem?-append_at (q ++ (c ∷ r)) e ys) in
      let first : get_elem? (q ++ (c ∷ (r ++ (e ∷ ys)))) i ≡ some c =
        rw h (get_elem?-append_at q c (r ++ (e ∷ ys))) in
      rw (first, ◌>>=◌, last, ◌>>=◌, write-append q c (r ++ (e ∷ ys)) i e h, ◌>>=◌, whole e)
        (write-append (q ++ (e ∷ r)) e ys j c (size e) ∙ ap some (append_assoc q (e ∷ r) (c ∷ ys)))

  -- One item with itself.
  pub swap_same :
      (q : List A) (e : A) (ys : List A) (i j : ℕ)
      → i ≡ length q
      → j ≡ length q
      → swap (q ++ (e ∷ ys)) i j ≡ some (q ++ (e ∷ ys))
  unfolding swap
  swap_same q e ys i j h k =
      let there : get_elem? (q ++ (e ∷ ys)) i ≡ some e = rw h (get_elem?-append_at q e ys) in
      let there' : get_elem? (q ++ (e ∷ ys)) j ≡ some e = rw k (get_elem?-append_at q e ys) in
      rw (there, ◌>>=◌, there', ◌>>=◌, write-append q e ys i e h, ◌>>=◌) (write-append q e ys j e k)
