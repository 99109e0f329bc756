-- ===== src/Utils/Dispatcher.antt =====
-- cpp/src/utils/dispatcher/Dispatcher.h: named processes, of which the first that fits does the work.
-- The unordered_map is the list of its items in the order of iteration. What an insertion does to that
-- order is not specified: it is an argument of the operations that insert.
pub mod Table
pub mod Registry
pub mod Laws
pub mod Proceeds
pub mod Calls
use c_workspace.Common.{
  Bool, true, false, ◌&&◌, if◌then◌else◌, Option, none, some, ◌>>=◌, List, [], ◌∷◌,
}
use c_workspace.Utils.Text.{Text, same}

-- A test gives a Boolean; a run gives a result, or `none` if it throws.
pub record Process {ℓ κ} (R : Type ℓ) (D : Type κ) : Type (ℓ ⊔ κ) where
  pub name : Text
  pub is_enable : Bool
  pub can_proceed : D → Bool
  pub proceed : D → Option R

-- Of each name the pointer to its process, or NULL.
abbrev pub Table {ℓ κ} : Type ℓ → Type κ → Type (ℓ ⊔ κ)
Table R D = List (Text × Option (Process R D))

-- How the items stand after an insertion.
abbrev pub Order {ℓ κ} : Type ℓ → Type κ → Type (ℓ ⊔ κ)
Order R D = Table R D → Table R D

pub record Dispatcher {ℓ κ} (R : Type ℓ) (D : Type κ) : Type (ℓ ⊔ κ) where
  pub processes : Table R D
  pub none_process : D → Option R

module _ {ℓ} {V : Type ℓ} where
  abbrev pub find : Text → List (Text × V) → Option V
  find name [] = none
  find name ((key, v) ∷ items) = if same key name then some v else find name items

  -- The value of a name that is there.
  abbrev pub assign : Text → V → List (Text × V) → List (Text × V)
  assign name v [] = []
  assign name v ((key, w) ∷ items) =
      if same key name then (key, v) ∷ items else (key, w) ∷ assign name v items

  abbrev pub erase : Text → List (Text × V) → List (Text × V)
  erase name [] = []
  erase name ((key, w) ∷ items) = if same key name then items else (key, w) ∷ erase name items

module _ {ℓ κ} {R : Type ℓ} {D : Type κ} where
  -- The constructor `Dispatcher`.
  abbrev pub dispatcher : (D → Option R) → Dispatcher R D
  dispatcher none_process = record { processes = []; none_process = none_process }

  -- The constructor `LamdaProcess`.
  abbrev pub lamda_process : Text → (D → Bool) → (D → Option R) → Process R D
  lamda_process name criteria process = record {
    name = name;
    is_enable = true;
    can_proceed = criteria;
    proceed = process;
  }

  -- `addProcess` of a process: in the place of one of the same name.
  unfoldable pub add_process : Order R D → Process R D → Dispatcher R D → Dispatcher R D
  add_process order process d = elim (find process.name d.processes) [
    | none ↦ record d { processes = order ((process.name, some process) ∷ d.processes) }
    | some old ↦ record d { processes = assign process.name (some process) d.processes }
  ]

  -- `addProcess` of a name, a test and a function: nothing where the name is taken.
  unfoldable pub add_lamda :
      Order R D → Text → (D → Bool) → (D → Option R) → Dispatcher R D → Dispatcher R D
  add_lamda order name criteria process d = elim (find name d.processes) [
    | none ↦ record d {
      processes = order ((name, some (lamda_process name criteria process)) ∷ d.processes);
    }
    | some old ↦ d
  ]

  unfoldable pub remove_process : Text → Dispatcher R D → Dispatcher R D
  remove_process name d = record d { processes = erase name d.processes }

  -- `(*processes)[name]->enable()` or `->disable()`: `none` where the pointer is NULL, as it is for a name
  -- that is not there, which [] inserts.
  unfoldable pub set_enable : Bool → Text → Dispatcher R D → Option (Dispatcher R D)
  set_enable enable name d = do
    pointer ← find name d.processes
    process ← pointer
    some (record d {
      processes = assign name (some (record process { is_enable = enable })) d.processes;
    })

  unfoldable pub enable_process : Text → Dispatcher R D → Option (Dispatcher R D)
  unfolding set_enable
  enable_process name d = set_enable true name d

  unfoldable pub disable_process : Text → Dispatcher R D → Option (Dispatcher R D)
  unfolding set_enable
  disable_process name d = set_enable false name d

  -- The loop of `proceed`: what is returned or thrown, or `none` where a pointer is NULL.
  unfoldable pub proceed_loop : (D → Option R) → D → Table R D → Option (Option R)
  proceed_loop none_process data_item [] = some (none_process data_item)
  proceed_loop none_process data_item ((name, none) ∷ items) = none
  proceed_loop none_process data_item ((name, some process) ∷ items) =
      let rest = proceed_loop none_process data_item items in
      if process.is_enable && process.can_proceed data_item
      then some (process.proceed data_item)
      else rest

  unfoldable pub proceed : Dispatcher R D → D → Option (Option R)
  unfolding proceed_loop
  proceed d data_item = proceed_loop d.none_process data_item d.processes
