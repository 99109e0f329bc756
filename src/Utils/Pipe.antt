-- ===== src/Utils/Pipe.antt =====
-- cpp/src/utils/pipe/Pipe.h: steps that are run in the order of their numbers. The std::map is the list
-- of its items by ascending keys.
pub mod Steps
pub mod Laws
use c_workspace.Common.{ℕ, ◌==◌, ltb, if◌then◌else◌, Option, none, some, List, [], ◌∷◌}

pub record Pipe {ℓ κ} (T : Type ℓ) (ReturnType : Type κ) : Type (ℓ ⊔ κ) where
  pub steps : List (ℕ × (T → ReturnType))

module _ {ℓ κ} {T : Type ℓ} {ReturnType : Type κ} where
  -- The constructor `Pipe`.
  abbrev pub new_pipe : Pipe T ReturnType
  new_pipe = record { steps = [] }

  -- `emplace`: nothing where the key is taken.
  abbrev pub emplace :
      ℕ → (T → ReturnType) → List (ℕ × (T → ReturnType)) → List (ℕ × (T → ReturnType))
  emplace order step [] = (order, step) ∷ []
  emplace order step ((key, s) ∷ steps) =
      if order == key
      then (key, s) ∷ steps
      else if ltb order key
      then (order, step) ∷ (key, s) ∷ steps
      else (key, s) ∷ emplace order step steps

  abbrev pub erase : ℕ → List (ℕ × (T → ReturnType)) → List (ℕ × (T → ReturnType))
  erase order [] = []
  erase order ((key, s) ∷ steps) = if order == key then steps else (key, s) ∷ erase order steps

  abbrev pub at : ℕ → List (ℕ × (T → ReturnType)) → Option (T → ReturnType)
  at order [] = none
  at order ((key, s) ∷ steps) = if order == key then some s else at order steps

  unfoldable pub add_step_at : ℕ → (T → ReturnType) → Pipe T ReturnType → Pipe T ReturnType
  add_step_at order step pipe = record { steps = emplace order step pipe.steps }

  unfoldable pub remove_step_at : ℕ → Pipe T ReturnType → Pipe T ReturnType
  remove_step_at order pipe = record { steps = erase order pipe.steps }

  -- `none` where `at` throws.
  unfoldable pub get_step_at : ℕ → Pipe T ReturnType → Option (T → ReturnType)
  get_step_at order pipe = at order pipe.steps

  -- `std::accumulate`, whose accumulator is a `T`: what a step returns is converted to one.
  abbrev pub accumulate : (ReturnType → T) → List (ℕ × (T → ReturnType)) → T → T
  accumulate to_param [] accu = accu
  accumulate to_param ((key, s) ∷ steps) accu = accumulate to_param steps (to_param (s accu))

  -- `start`, with the conversions between the two types.
  unfoldable pub start : (ReturnType → T) → (T → ReturnType) → Pipe T ReturnType → T → ReturnType
  start to_param to_return pipe init_value = to_return (accumulate to_param pipe.steps init_value)
