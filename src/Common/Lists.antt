-- ===== src/Common/Lists.antt =====
-- Lists measured and indexed by native numbers, under the library's names.
use Prim.Native.Nat.{ℕ, zero, suc, ◌+◌, ◌-◌, ◌<◌, ◌≤◌}
use mathlib.Core.Logic.{◌≢◌}
use mathlib.Core.Path.{◌≡◌, refl, ap}
use mathlib.Core.List.{List, [], ◌∷◌, ◌++◌}
use mathlib.Core.Option.{Option, none, some}
use native.Mathlib.Omega.{arith}

module _ {ℓ} {A : Type ℓ} where
  abbrev pub length : List A → ℕ
  length [] = 0
  length (x ∷ xs) = suc (length xs)

  abbrev pub get_elem? : List A → ℕ → Option A
  get_elem? [] i = none
  get_elem? (x ∷ xs) zero = some x
  get_elem? (x ∷ xs) (suc i) = get_elem? xs i

  -- A write out of bounds changes nothing.
  abbrev pub set : List A → ℕ → A → List A
  set [] i v = []
  set (x ∷ xs) zero v = v ∷ xs
  set (x ∷ xs) (suc i) v = x ∷ set xs i v

  pub length-append : (xs ys : List A) → length (xs ++ ys) ≡ length xs + length ys
  length-append [] ys = omega arith
  length-append (x ∷ xs) ys = omega (arith, length-append xs ys)

  -- A write that is `none` out of range.
  abbrev pub write : List A → ℕ → A → Option (List A)
  write [] i v = none
  write (x ∷ xs) zero v = some (v ∷ xs)
  write (x ∷ xs) (suc i) v = elim (write xs i v) [ none ↦ none | some ys ↦ some (x ∷ ys) ]

  abbrev pub get_or : List A → ℕ → A → A
  get_or [] i d = d
  get_or (x ∷ xs) zero d = x
  get_or (x ∷ xs) (suc i) d = get_or xs i d

module _ {ℓ} {A : Type ℓ} where
  pub length-set : (xs : List A) (i : ℕ) (v : A) → length (set xs i v) ≡ length xs
  length-set [] i v = refl
  length-set (x ∷ xs) zero v = refl
  length-set (x ∷ xs) (suc i) v = ap suc (length-set xs i v)

  pub get_elem?-set_self :
      (xs : List A) (i : ℕ) (v : A) → i < length xs → get_elem? (set xs i v) i ≡ some v
  get_elem?-set_self [] i v h = elim h [ ]
  get_elem?-set_self (x ∷ xs) zero v h = refl
  get_elem?-set_self (x ∷ xs) (suc i) v h = get_elem?-set_self xs i v (omega arith)

  pub get_elem?-set_ne :
      (xs : List A) (i j : ℕ) (v : A) → i ≢ j → get_elem? (set xs i v) j ≡ get_elem? xs j
  get_elem?-set_ne [] i j v h = refl
  get_elem?-set_ne (x ∷ xs) zero zero v h = absurd (h refl)
  get_elem?-set_ne (x ∷ xs) zero (suc j) v h = refl
  get_elem?-set_ne (x ∷ xs) (suc i) zero v h = refl
  get_elem?-set_ne (x ∷ xs) (suc i) (suc j) v h = get_elem?-set_ne xs i j v (λ e. h (ap suc e))

  pub get_elem?-eq-get_or :
      (xs : List A) (i : ℕ) (d : A) → i < length xs → get_elem? xs i ≡ some (get_or xs i d)
  get_elem?-eq-get_or [] i d h = absurd (omega arith)
  get_elem?-eq-get_or (x ∷ xs) zero d h = refl
  get_elem?-eq-get_or (x ∷ xs) (suc i) d h = get_elem?-eq-get_or xs i d (omega arith)

  -- In range a write succeeds.
  pub write-set : (xs : List A) (i : ℕ) (v : A) → i < length xs → write xs i v ≡ some (set xs i v)
  write-set [] i v h = elim h [ ]
  write-set (x ∷ xs) zero v h = refl
  write-set (x ∷ xs) (suc i) v h = rw (write-set xs i v (omega arith)) refl

  -- Out of range it does not.
  pub write-none : (xs : List A) (i : ℕ) (v : A) → length xs ≤ i → write xs i v ≡ none
  write-none [] i v h = refl
  write-none (x ∷ xs) zero v h = absurd (omega arith)
  write-none (x ∷ xs) (suc i) v h = rw (write-none xs i v (omega arith)) refl

  -- A write just behind a prefix.
  pub write-append :
      (xs : List A) (y : A) (ys : List A) (i : ℕ) (v : A)
      → i ≡ length xs
      → write (xs ++ (y ∷ ys)) i v ≡ some (xs ++ (v ∷ ys))
  write-append [] y ys zero v e = refl
  write-append [] y ys (suc i) v e = absurd (omega arith)
  write-append (x ∷ xs) y ys zero v e = absurd (omega arith)
  write-append (x ∷ xs) y ys (suc i) v e = rw (write-append xs y ys i v (omega arith)) refl

  pub get_or-append :
      (xs ys : List A) (i : ℕ) (d : A) → i < length xs → get_or (xs ++ ys) i d ≡ get_or xs i d
  get_or-append [] ys i d h = absurd (omega arith)
  get_or-append (x ∷ xs) ys zero d h = refl
  get_or-append (x ∷ xs) ys (suc i) d h = get_or-append xs ys i d (omega arith)

-- The memory `ms` after the values `xs` were written to its start.
abbrev pub overlay {ℓ} : {A : Type ℓ} → List A → List A → List A
overlay [] ms = ms
overlay (x ∷ xs) [] = []
overlay (x ∷ xs) (m ∷ ms) = x ∷ overlay xs ms

module _ {ℓ} {A : Type ℓ} where
  abbrev pub replicate : ℕ → A → List A
  replicate zero a = []
  replicate (suc n) a = a ∷ replicate n a

  pub replicate-append :
      (n : ℕ) (a : A) (xs : List A) → replicate (n + 1) a ++ xs ≡ replicate n a ++ (a ∷ xs)
  replicate-append zero a xs = refl
  replicate-append (suc n) a xs =
      let e : suc n + 1 ≡ suc (n + 1) = omega arith in
      rw e (ap (λ ys. a ∷ ys) (replicate-append n a xs))

  -- The first behind a prefix.
  pub get_elem?-append :
      (xs : List A) (y : A) (ys : List A) (i : ℕ)
      → i ≡ length xs
      → get_elem? (xs ++ (y ∷ ys)) i ≡ some y
  get_elem?-append [] y ys zero e = refl
  get_elem?-append [] y ys (suc i) e = absurd (omega arith)
  get_elem?-append (x ∷ xs) y ys zero e = absurd (omega arith)
  get_elem?-append (x ∷ xs) y ys (suc i) e = get_elem?-append xs y ys i (omega arith)

  pub get_elem?-none : (xs : List A) (i : ℕ) → length xs ≤ i → get_elem? xs i ≡ none
  get_elem?-none [] i h = refl
  get_elem?-none (x ∷ xs) zero h = absurd (omega arith)
  get_elem?-none (x ∷ xs) (suc i) h = get_elem?-none xs i (omega arith)

  -- What is behind the first `n` items.
  abbrev pub drop : ℕ → List A → List A
  drop zero xs = xs
  drop (suc n) [] = []
  drop (suc n) (x ∷ xs) = drop n xs

  pub overlay-drop :
      (xs ms : List A) → length xs ≤ length ms → overlay xs ms ≡ xs ++ drop (length xs) ms
  overlay-drop [] ms h = refl
  overlay-drop (x ∷ xs) [] h = absurd (omega arith)
  overlay-drop (x ∷ xs) (m ∷ ms) h = ap (λ l. x ∷ l) (overlay-drop xs ms (omega arith))

  -- The first `n` items.
  abbrev pub take : ℕ → List A → List A
  take zero xs = []
  take (suc n) [] = []
  take (suc n) (x ∷ xs) = x ∷ take n xs

  -- In range there is an item, and the rest behind it.
  pub drop-elem :
      (xs : List A) (i : ℕ)
      → i < length xs
      → (x : A) × (get_elem? xs i ≡ some x) × (drop i xs ≡ x ∷ drop (i + 1) xs)
  drop-elem [] i h = absurd (omega arith)
  drop-elem (x ∷ xs) zero h = (x, refl, refl)
  drop-elem (x ∷ xs) (suc i) h =
      let (y, e, f) = drop-elem xs i (omega arith) in
      let s : suc i + 1 ≡ suc (i + 1) = omega arith in (y, e, rw s f)

  pub length-drop : (n : ℕ) (xs : List A) → length (drop n xs) ≡ length xs - n
  length-drop zero xs = omega arith
  length-drop (suc n) [] = omega arith
  length-drop (suc n) (x ∷ xs) = omega (arith, length-drop n xs)

  -- Values written one after the other.
  pub overlay-append :
      (xs ys ms : List A)
      → length xs ≤ length ms
      → overlay (xs ++ ys) ms ≡ xs ++ overlay ys (drop (length xs) ms)
  overlay-append [] ys ms h = refl
  overlay-append (x ∷ xs) ys [] h = absurd (omega arith)
  overlay-append (x ∷ xs) ys (m ∷ ms) h = ap (λ l. x ∷ l) (overlay-append xs ys ms (omega arith))
