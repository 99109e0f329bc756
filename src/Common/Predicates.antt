-- ===== src/Common/Predicates.antt =====
-- Predicates on optional results and on lists, by recursion.
use mathlib.Core.List.{List, [], ◌∷◌, ◌++◌}
use mathlib.Core.Option.{Option, none, some}
use c_workspace.Common.Tests.{◌>>=◌, Returns}
use mathlib.Core.Path.{◌≡◌, subst}

-- The value has the property, where there is one.
abbrev pub Ensures {ℓ κ} : {A : Type ℓ} → Option A → (A → Type κ) → Type κ
Ensures none P = Unit
Ensures (some a) P = P a

abbrev pub All {ℓ κ} : {A : Type ℓ} → (A → Type κ) → List A → Type κ
All P [] = Unit
All P (x ∷ xs) = P x × All P xs

module _ {ℓ κ} {A : Type ℓ} (P : A → Type κ) where
  pub All-append : (xs ys : List A) → All P xs → All P ys → All P (xs ++ ys)
  All-append [] ys h k = k
  All-append (x ∷ xs) ys h k = (h.0, All-append xs ys h.1 k)

  pub All-cut : (xs : List A) (d : A) (ys : List A) → All P (xs ++ (d ∷ ys)) → All P xs × P d
  All-cut [] d ys h = (tt, h.0)
  All-cut (x ∷ xs) d ys h = let (front, here) = All-cut xs d ys h.1 in ((h.0, front), here)

  pub Ensures-eq : (o : Option A) {a : A} → Ensures o P → o ≡ some a → P a
  Ensures-eq none h e = cc
  Ensures-eq (some b) h e = subst (λ o. Ensures o P) e h

module _ {ℓ κ μ} {A : Type ℓ} {P : A → Type κ} {Q : A → Type μ} (f : (a : A) → P a → Q a) where
  pub All-imp : (xs : List A) → All P xs → All Q xs
  All-imp [] h = tt
  All-imp (x ∷ xs) h = (f x h.0, All-imp xs h.1)

pub Ensures-bind {ℓ κ μ ν} :
    {A : Type ℓ} {B : Type κ} (P : A → Type μ) (Q : B → Type ν) (m : Option A) (f : A → Option B)
    → Ensures m P
    → ((a : A) → P a → Ensures (f a) Q)
    → Ensures (m >>= f) Q
Ensures-bind P Q none f h k = tt
Ensures-bind P Q (some a) f h k = k a h

pub Ensures-imp {ℓ μ ν} :
    {A : Type ℓ} (P : A → Type μ) (Q : A → Type ν) (m : Option A)
    → Ensures m P
    → ((a : A) → P a → Q a)
    → Ensures m Q
Ensures-imp P Q none h k = tt
Ensures-imp P Q (some a) h k = k a h

pub Returns-both {ℓ κ μ} :
    {A : Type ℓ} (P : A → Type κ) (Q : A → Type μ) (m : Option A)
    → Returns m P
    → Returns m Q
    → Returns m (λ a. P a × Q a)
Returns-both P Q m (a, e, p) (b, f, q) = let same : b ≡ a = cc in (a, e, (p, subst Q same q))

pub Returns-imp {ℓ κ μ} :
    {A : Type ℓ} (P : A → Type κ) (Q : A → Type μ) (m : Option A)
    → Returns m P
    → ((a : A) → P a → Q a)
    → Returns m Q
Returns-imp P Q m (a, e, p) f = (a, e, f a p)
