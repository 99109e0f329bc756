-- ===== src/Utils/Combinator.antt =====
-- cpp/src/utils/combinator/Combinator.h: operations on a copy of a collection. A collection is the list of
-- its elements. A function given to `map` may throw, which is `none`.
pub mod Laws
use c_workspace.Common.{
  Bool, true, false, ◌&&◌, ◌||◌, if◌then◌else◌, Option, none, some, ◌>>=◌, List, [], ◌∷◌,
}

pub record Combinator {ℓ} (A : Type ℓ) : Type ℓ where
  pub real : List A

abbrev pub not_that {ℓ} : {A : Type ℓ} → (A → Bool) → A → Bool
not_that predicate a = if predicate a then false else true

-- `std::accumulate`
abbrev pub accumulate {ℓ κ} : {A : Type ℓ} {B : Type κ} → (B → A → B) → List A → B → B
accumulate op [] accu = accu
accumulate op (a ∷ l) accu = accumulate op l (op accu a)

module _ {ℓ} {A : Type ℓ} where
  abbrev pub transform : (A → Option A) → List A → Option (List A)
  transform op [] = some []
  transform op (a ∷ l) = do b ← op a; rest ← transform op l; some (b ∷ rest)

  -- `std::remove_if`, and the `erase` of what is behind the end that it gives.
  abbrev pub remove_if : (A → Bool) → List A → List A
  remove_if predicate [] = []
  remove_if predicate (a ∷ l) =
      if predicate a then remove_if predicate l else a ∷ remove_if predicate l

  abbrev pub all_of : (A → Bool) → List A → Bool
  all_of predicate [] = true
  all_of predicate (a ∷ l) = predicate a && all_of predicate l

  abbrev pub any_of : (A → Bool) → List A → Bool
  any_of predicate [] = false
  any_of predicate (a ∷ l) = predicate a || any_of predicate l

  -- The constructor `Combinator`.
  abbrev pub combinator : List A → Combinator A
  combinator col = record { real = col }

  unfoldable pub map : (A → Option A) → Combinator A → Option (Combinator A)
  map op c = do l ← transform op c.real; some (record { real = l })

  unfoldable pub filter_not : (A → Bool) → Combinator A → Combinator A
  filter_not predicate c = record { real = remove_if predicate c.real }

  unfoldable pub filter : (A → Bool) → Combinator A → Combinator A
  unfolding filter_not
  filter predicate c = filter_not (not_that predicate) c

  unfoldable pub all : (A → Bool) → Combinator A → Bool
  all predicate c = all_of predicate c.real

  unfoldable pub none_that : (A → Bool) → Combinator A → Bool
  none_that predicate c = if any_of predicate c.real then false else true

  unfoldable pub any : (A → Bool) → Combinator A → Bool
  any predicate c = any_of predicate c.real

  unfoldable pub collect : Combinator A → List A
  collect c = c.real

module _ {ℓ κ} {A : Type ℓ} {B : Type κ} where
  unfoldable pub reduce : B → (B → A → B) → Combinator A → B
  reduce accumulator op c = accumulate op c.real accumulator

  -- `none` on an empty collection, of which `real[0]` is read.
  unfoldable pub reduce_first : (A → B) → (B → A → B) → Combinator A → Option B
  reduce_first first_lamda op c = elim c.real [
    | [] ↦ none
    | a ∷ rest ↦ some (accumulate op rest (first_lamda a))
  ]
