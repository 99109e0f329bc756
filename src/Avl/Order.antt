-- ===== src/Avl/Order.antt =====
-- What `CompareFunc` promises, and the data of a tree in order.
pub mod Lists
pub mod Pieces
pub mod Cut
pub mod Sorted
use c_workspace.Common.{◌≡◌, ◌≢◌, ℤ, sign, Sign, List, [], ◌∷◌, ◌++◌, All}
use c_workspace.Common.Sign.{negative, zero_sign, positive}
use c_workspace.Avl.Node.{Node, null, node}

abbrev pub opposite : Sign → Sign
opposite negative = positive
opposite zero_sign = zero_sign
opposite positive = negative

-- A total preorder, read from the sign of the returned number.
pub record IsComparison {ℓ} {A : Type ℓ} (compare_func : A → A → ℤ) : Type ℓ where
  pub turn : (a b : A) → sign (compare_func b a) ≡ opposite (sign (compare_func a b))
  pub lt_of_lt_of_le :
      (a b c : A)
      → sign (compare_func a b) ≡ negative
      → sign (compare_func b c) ≢ positive
      → sign (compare_func a c) ≡ negative
  pub lt_of_le_of_lt :
      (a b c : A)
      → sign (compare_func a b) ≢ positive
      → sign (compare_func b c) ≡ negative
      → sign (compare_func a c) ≡ negative

-- The data from left to right.
abbrev pub elements {ℓ} : {A : Type ℓ} → Node A → List A
elements null = []
elements (node d l r b) = elements l ++ (d ∷ elements r)

module _ {ℓ} {A : Type ℓ} (compare_func : A → A → ℤ) where
  -- Each datum is less than all behind it.
  abbrev pub IsSorted : List A → Type 0
  IsSorted [] = Unit
  IsSorted (x ∷ xs) = All (λ y. sign (compare_func x y) ≡ negative) xs × IsSorted xs
