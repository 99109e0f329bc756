-- ===== src/Utils/Dispatcher/Laws.antt =====
-- What each operation of cpp/src/utils/dispatcher/Dispatcher.h does to the processes by name.
use c_workspace.Common.{
  ◌≡◌, ◌⊎◌, refl, sym, ap, ◌∙◌, inl, inr, Bool, true, false, if◌then◌else◌, Option, Option-cases,
  none, some, arith, Returns,
}
use c_workspace.Utils.Text.{Text, same}
use c_workspace.Utils.Text.Search.{same_iff}
use c_workspace.Utils.Dispatcher.{
  Process, Order, Dispatcher, find, assign, lamda_process, add_process, add_lamda, remove_process,
  set_enable,
}
use c_workspace.Utils.Dispatcher.Table.{erase-IsDistinct, find-erase}
use c_workspace.Utils.Dispatcher.Registry.{
  IsDispatcher, IsOrder, assigned, inserted, updated, value, view,
}

module _ {ℓ κ} {R : Type ℓ} {D : Type κ} where
  pub add_process_lem :
      (order : Order R D)
      → IsOrder order
      → (p : Process R D) (d : Dispatcher R D) → IsDispatcher d
      → IsDispatcher (add_process order p d)
        × ((other : Text)
            → view (add_process order p d) other
              ≡ (if same p.name other then some p else view d other))
        × (d.none_process ≡ (add_process order p d).none_process)
  unfolding add_process
  add_process_lem order law p d h = elim (Option-cases (find p.name d.processes)) [
    | inl e ↦
        rw (add_process, e) (updated p.name (some p) d _ h (inserted order law p.name p d h e) refl)
    | inr (w, e) ↦
        rw (add_process, e) (updated p.name (some p) d _ h (assigned p.name p d h w e) refl)
  ]

  pub add_lamda_lem :
      (order : Order R D)
      → IsOrder order
      → (name : Text) (criteria : D → Bool) (process : D → Option R) (d : Dispatcher R D)
      → IsDispatcher d
      → IsDispatcher (add_lamda order name criteria process d)
        × ((other : Text)
            → view (add_lamda order name criteria process d) other ≡ (elim (view d other) [
              | some p ↦ some p
              | none ↦ if same name other then some (lamda_process name criteria process) else none
            ]))
        × (d.none_process ≡ (add_lamda order name criteria process d).none_process)
  unfolding add_lamda
  add_lamda_lem order law name criteria process d h = elim (Option-cases (find name d.processes)) [
    | inl e ↦
        let (v, f, _) =
          updated name (some added) d _ h (inserted order law name added d h e) refl in
        rw (add_lamda, e)
          (
            v,
            λ other.
                f other
                ∙ free (same name other) (view d other)
                    (λ b. let g = (same_iff name other).0 b in rw (sym g) (ap value e)),
            refl,
          )
    | inr (w, e) ↦
        let (p, f) = h.stored name w e in
        rw (add_lamda, e)
          (
            h,
            λ other.
                taken (same name other) (view d other)
                  (λ b. let g = (same_iff name other).0 b in (p, rw (sym g) (ap value e ∙ f))),
            refl,
          )
  ]
    where
      added : Process R D
      added = lamda_process name criteria process

      free :
          (b : Bool) (o : Option (Process R D))
          → (b ≡ true → o ≡ none)
          → (if b then some added else o)
            ≡ (elim o [ some p ↦ some p | none ↦ if b then some added else none ])
      free true none k = refl
      free true (some p) k = absurd (ground (arith, k refl))
      free false none k = refl
      free false (some p) k = refl

      taken :
          (b : Bool) (o : Option (Process R D))
          → (b ≡ true → (p : Process R D) × (o ≡ some p))
          → o ≡ (elim o [ some p ↦ some p | none ↦ if b then some added else none ])
      taken true none k = let (p, e) = k refl in absurd (ground arith)
      taken false none k = refl
      taken b (some p) k = refl

  pub remove_process_lem :
      (name : Text) (d : Dispatcher R D)
      → IsDispatcher d
      → IsDispatcher (remove_process name d)
        × ((other : Text)
            → view (remove_process name d) other ≡ (if same name other then none else view d other))
        × (d.none_process ≡ (remove_process name d).none_process)
  unfolding remove_process
  remove_process_lem name d h =
      updated name none d _ h
        (record {
          distinct = erase-IsDistinct name d.processes h.distinct;
          finds = λ other. find-erase name other d.processes h.distinct;
        })
        refl

  -- It fails just for a name that is not there.
  pub set_enable_lem :
      (enable : Bool) (name : Text) (d : Dispatcher R D)
      → IsDispatcher d
      → ((set_enable enable name d ≡ none) × (view d name ≡ none))
        ⊎ ((p : Process R D) × (view d name ≡ some p)
            × Returns (set_enable enable name d) (λ new.
              IsDispatcher new
              × ((other : Text)
                  → view new other ≡ (
                      if same name other
                      then some (record p { is_enable = enable })
                      else view d other))
              × (d.none_process ≡ new.none_process)))
  unfolding set_enable
  set_enable_lem enable name d h = elim (Option-cases (find name d.processes)) [
    | inl e ↦ inl (rw (set_enable, e) refl, ap value e)
    | inr (w, e) ↦
        let (p, f) = h.stored name w e in
        let q : Process R D = record p { is_enable = enable } in
        inr (
          p,
          ap value e ∙ f,
          (
            record d { processes = assign name (some q) d.processes },
            rw (set_enable, e, f) refl,
            updated name (some q) d _ h (assigned name q d h w e) refl,
          ),
        )
  ]
