-- ===== src/Recognizer/Marks/Most.antt =====
-- `_scan_to_count_area_with_most_dot` finds the first area with the greatest count.
use c_workspace.Common.{
  ℕ, zero, suc, ◌+◌, ◌≤◌, ◌<◌, ◌≡◌, refl, ap, true, false, ltb, Bool-cases, inl, inr, some, ◌>>=◌,
  List, [], ◌∷◌, ◌++◌, append_assoc, arith, length, length-append, get_elem?, get_elem?-append,
  take, All, All-append, All-imp, Returns,
}
use c_workspace.Recognizer.Image.{Point, Range}
use c_workspace.Recognizer.Marks.{
  count_dot_start_with_range, most_loop, scan_to_count_area_with_most_dot,
}

-- `i` is the first place of the greatest number.
abbrev pub IsFirstMax : List ℕ → ℕ → Type 0
IsFirstMax cs i =
    (m : ℕ) × (get_elem? cs i ≡ some m) × All (λ c. c ≤ m) cs × All (λ c. c < m) (take i cs)

-- The counts of the areas.
abbrev pub CountsAre : List Point → ℕ → ℕ → List Range → List ℕ → Type 0
CountsAre coordinate w h [] [] = Unit
CountsAre coordinate w h [] (c ∷ cs) = ⊥
CountsAre coordinate w h (r ∷ areas) [] = ⊥
CountsAre coordinate w h (r ∷ areas) (c ∷ cs) =
    (count_dot_start_with_range r coordinate w h ≡ some c) × CountsAre coordinate w h areas cs

take-all : (xs ys : List ℕ) (i : ℕ) → i ≡ length xs → take i (xs ++ ys) ≡ xs
take-all [] ys zero e = refl
take-all [] ys (suc i) e = absurd (omega arith)
take-all (x ∷ xs) ys zero e = absurd (omega arith)
take-all (x ∷ xs) ys (suc i) e = ap (λ l. x ∷ l) (take-all xs ys i (omega arith))

take-before : (xs ys : List ℕ) (i : ℕ) → i < length xs → take i (xs ++ ys) ≡ take i xs
take-before [] ys i h = absurd (omega arith)
take-before (x ∷ xs) ys zero h = refl
take-before (x ∷ xs) ys (suc i) h = ap (λ l. x ∷ l) (take-before xs ys i (omega arith))

elem-before :
    (xs : List ℕ) (ys : List ℕ) (i m : ℕ)
    → get_elem? xs i ≡ some m
    → (get_elem? (xs ++ ys) i ≡ some m) × (i < length xs)
elem-before [] ys i m e = cc
elem-before (x ∷ xs) ys zero m e = (e, omega arith)
elem-before (x ∷ xs) ys (suc i) m e = let (f, h) = elem-before xs ys i m e in (f, omega arith)

module _ (coordinate : List Point) (w h : ℕ) where
  most_more :
      (r : Range) (areas : List Range) (i marked total c : ℕ)
      → count_dot_start_with_range r coordinate w h ≡ some c
      → ltb total c ≡ true
      → most_loop coordinate w h (r ∷ areas) i marked total
        ≡ most_loop coordinate w h areas (i + 1) i c
  unfolding most_loop
  most_more r areas i marked total c e l = rw (e, ◌>>=◌, l) refl

  most_less :
      (r : Range) (areas : List Range) (i marked total c : ℕ)
      → count_dot_start_with_range r coordinate w h ≡ some c
      → ltb total c ≡ false
      → most_loop coordinate w h (r ∷ areas) i marked total
        ≡ most_loop coordinate w h areas (i + 1) marked total
  unfolding most_loop
  most_less r areas i marked total c e l = rw (e, ◌>>=◌, l) refl

  most_loop-IsFirstMax :
      (areas : List Range) (cs before : List ℕ) (i marked total : ℕ)
      → CountsAre coordinate w h areas cs
      → i ≡ length before
      → get_elem? before marked ≡ some total
      → All (λ d. d ≤ total) before
      → All (λ d. d < total) (take marked before)
      → Returns (most_loop coordinate w h areas i marked total) (IsFirstMax (before ++ cs))
  most_loop-IsFirstMax [] [] before i marked total k ei e le lt =
      unfold most_loop in
      (
        marked,
        refl,
        (
          total,
          (elem-before before [] marked total e).0,
          All-append (λ d. d ≤ total) before [] le tt,
          rw (take-before before [] marked (elem-before before [] marked total e).1) lt,
        ),
      )
  most_loop-IsFirstMax [] (c ∷ cs) before i marked total k ei e le lt = absurd k
  most_loop-IsFirstMax (r ∷ areas) [] before i marked total k ei e le lt = absurd k
  most_loop-IsFirstMax (r ∷ areas) (c ∷ cs) before i marked total k ei e le lt =
      elim (Bool-cases (ltb total c)) [
        | inl b ↦ rw (most_more r areas i marked total c k.0 b) (
            rw (append_assoc before (c ∷ []) cs) at (
              most_loop-IsFirstMax areas cs (before ++ (c ∷ [])) (i + 1) i c k.1
                (omega (arith, length-append before (c ∷ []))) (get_elem?-append before c [] i ei)
                (All-append (λ d. d ≤ c) before (c ∷ [])
                  (All-imp {P = λ d. d ≤ total} (λ d q. ground arith) before le) (omega arith, tt))
                (rw (take-all before (c ∷ []) i ei)
                  (All-imp {P = λ d. d ≤ total} (λ d q. ground arith) before le))))
        | inr b ↦
            let (f, q) = elem-before before (c ∷ []) marked total e in
            rw (most_less r areas i marked total c k.0 b) (
              rw (append_assoc before (c ∷ []) cs) at (
                most_loop-IsFirstMax areas cs (before ++ (c ∷ [])) (i + 1) marked total k.1
                  (omega (arith, length-append before (c ∷ []))) f
                  (All-append (λ d. d ≤ total) before (c ∷ []) le (ground arith, tt))
                  (rw (take-before before (c ∷ []) marked q) lt)))
      ]

  -- From the counts of the areas, the index of the first greatest.
  pub scan-IsFirstMax :
      (r : Range) (areas : List Range) (c : ℕ) (cs : List ℕ)
      → CountsAre coordinate w h (r ∷ areas) (c ∷ cs)
      → Returns (scan_to_count_area_with_most_dot (r ∷ areas) coordinate w h) (IsFirstMax (c ∷ cs))
  unfolding scan_to_count_area_with_most_dot
  scan-IsFirstMax r areas c cs k =
      rw k.0 (most_loop-IsFirstMax areas cs (c ∷ []) 1 0 c k.1 refl refl (omega arith, tt) tt)
