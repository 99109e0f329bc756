-- ===== src/Utils/Dispatcher/Registry.antt =====
-- The processes of cpp/src/utils/dispatcher/Dispatcher.h by name, and a change at one name.
use mathlib.Core.List.{Permᴰ}
use c_workspace.Common.{
  ◌≡◌, ◌⊎◌, refl, sym, ap, ◌∙◌, ◌&&◌, Bool, true, false, if◌then◌else◌, Option, none, some, ◌∷◌,
  arith,
}
use c_workspace.Utils.Text.{Text, same}
use c_workspace.Utils.Dispatcher.{Process, Table, Order, Dispatcher, find, assign}
use c_workspace.Utils.Dispatcher.Table.{IsDistinct, find-assign, assign-IsDistinct, find-Perm}

-- The processes by name.
abbrev pub Registry {ℓ κ} : Type ℓ → Type κ → Type (ℓ ⊔ κ)
Registry R D = Text → Option (Process R D)

module _ {ℓ κ} {R : Type ℓ} {D : Type κ} where
  abbrev pub value : Option (Option (Process R D)) → Option (Process R D)
  value none = none
  value (some pointer) = pointer

  abbrev pub view : Dispatcher R D → Registry R D
  view d name = value (find name d.processes)

  -- No name stands twice, and no pointer is NULL.
  pub record IsDispatcher (d : Dispatcher R D) : Type (ℓ ⊔ κ) where
    pub distinct : IsDistinct d.processes
    pub stored :
        (name : Text) (o : Option (Process R D))
        → find name d.processes ≡ some o
        → (p : Process R D) × (o ≡ some p)

  -- An order of iteration has the same items.
  abbrev pub IsOrder : Order R D → Type (ℓ ⊔ κ)
  IsOrder order = (items : Table R D) → Permᴰ items (order items)

  abbrev pub accepts : Process R D → D → Bool
  accepts p x = p.is_enable && p.can_proceed x

  -- A result of `proceed`: that of some enabled process that can proceed, or that of `none_process` if there
  -- is none.
  abbrev pub IsChosen : (D → Option R) → Registry R D → D → Option R → Type (ℓ ⊔ κ)
  IsChosen none_process m x r =
      ((name : Text) × (p : Process R D) × (m name ≡ some p)
        × (accepts p x ≡ true)
        × (r ≡ p.proceed x))
      ⊎ (((name : Text) (p : Process R D) → m name ≡ some p → accepts p x ≡ false)
          × (r ≡ none_process x))

  -- The items after a change at one name.
  pub record IsUpdated (name : Text) (v : Option (Process R D)) (old new : Dispatcher R D)
      : Type (ℓ ⊔ κ) where
    pub distinct : IsDistinct new.processes
    pub finds :
        (other : Text)
        → find other new.processes ≡ (
            if same name other
            then (elim v [ none ↦ none | some p ↦ some (some p) ])
            else find other old.processes)

  pub updated :
      (name : Text) (v : Option (Process R D)) (old new : Dispatcher R D)
      → IsDispatcher old
      → IsUpdated name v old new
      → old.none_process ≡ new.none_process
      → IsDispatcher new
        × ((other : Text) → view new other ≡ (if same name other then v else view old other))
        × (old.none_process ≡ new.none_process)
  updated name v old new h u e = (record { distinct = u.distinct; stored = stored }, seen, e)
    where
      kept :
          (b : Bool) (v : Option (Process R D)) (o : Option (Option (Process R D)))
          (q : Option (Process R D))
          → ((q : Option (Process R D)) → o ≡ some q → (p : Process R D) × (q ≡ some p))
          → (if b then (elim v [ none ↦ none | some p ↦ some (some p) ]) else o) ≡ some q
          → (p : Process R D) × (q ≡ some p)
      kept true none o q f e = absurd (ground arith)
      kept true (some p) o q f e = (p, ground arith)
      kept false v o q f e = f q e

      stored :
          (other : Text) (q : Option (Process R D))
          → find other new.processes ≡ some q
          → (p : Process R D) × (q ≡ some p)
      stored other q e =
          kept (same name other) v (find other old.processes) q (h.stored other)
            (sym (u.finds other) ∙ e)

      value_if :
          (b : Bool) (v : Option (Process R D)) (o : Option (Option (Process R D)))
          → value (if b then (elim v [ none ↦ none | some p ↦ some (some p) ]) else o)
            ≡ (if b then v else value o)
      value_if true none o = refl
      value_if true (some p) o = refl
      value_if false v o = refl

      seen : (other : Text) → view new other ≡ (if same name other then v else view old other)
      seen other =
          ap value (u.finds other) ∙ value_if (same name other) v (find other old.processes)

  pub inserted :
      (order : Order R D)
      → IsOrder order
      → (name : Text) (p : Process R D) (d : Dispatcher R D) → IsDispatcher d
      → find name d.processes ≡ none
      → IsUpdated name (some p) d (record d { processes = order ((name, some p) ∷ d.processes) })
  inserted order law name p d h e =
      let items = (name, some p) ∷ d.processes in
      record {
        distinct = (find-Perm name (law items) (e, h.distinct)).1;
        finds = λ other. sym (find-Perm other (law items) (e, h.distinct)).0;
      }

  pub assigned :
      (name : Text) (p : Process R D) (d : Dispatcher R D)
      → IsDispatcher d
      → (w : Option (Process R D)) → find name d.processes ≡ some w
      → IsUpdated name (some p) d (record d { processes = assign name (some p) d.processes })
  assigned name p d h w e = record {
    distinct = assign-IsDistinct name (some p) d.processes h.distinct;
    finds = λ other. find-assign name other (some p) d.processes w e;
  }
