-- ===== src/Utils/Dispatcher/Calls.antt =====
-- Any calls of cpp/src/utils/dispatcher/Dispatcher.h, against a registry of processes by name.
use c_workspace.Common.{
  ◌≡◌, ◌⊎◌, refl, sym, subst, inl, inr, Bool, true, false, if◌then◌else◌, Option, none, some, ◌>>=◌,
  List, [], ◌∷◌, ◌++◌, arith, Returns, All,
}
use c_workspace.Utils.Text.{Text, same}
use c_workspace.Utils.Dispatcher.{
  Process, Order, Dispatcher, dispatcher, lamda_process, add_process, add_lamda, remove_process,
  enable_process, disable_process, proceed,
}
use c_workspace.Utils.Dispatcher.Registry.{Registry, view, IsDispatcher, IsOrder, IsChosen}
use c_workspace.Utils.Dispatcher.Laws.{
  add_process_lem, add_lamda_lem, remove_process_lem, set_enable_lem,
}
use c_workspace.Utils.Dispatcher.Proceeds.{proceed_lem}

-- A call; `Order` says how the items stand if it inserts one.
pub data Call {ℓ κ} (R : Type ℓ) (D : Type κ) : Type (ℓ ⊔ κ) where
  add : Process R D → Call R D
  add_by_lamda : Text → (D → Bool) → (D → Option R) → Call R D
  remove enable disable : Text → Call R D
  run : D → Call R D

module _ {ℓ κ} {R : Type ℓ} {D : Type κ} where
  -- What a call gives, and the dispatcher after it.
  pub call : Order R D → Call R D → Dispatcher R D → Option (List (Option R) × Dispatcher R D)
  call order (Call.add p) d = some ([], add_process order p d)
  call order (Call.add_by_lamda name criteria process) d =
      some ([], add_lamda order name criteria process d)
  call order (Call.remove name) d = some ([], remove_process name d)
  call order (Call.enable name) d = enable_process name d >>= λ d'. some ([], d')
  call order (Call.disable name) d = disable_process name d >>= λ d'. some ([], d')
  call order (Call.run x) d = proceed d x >>= λ r. some (r ∷ [], d)

  pub calls : List (Order R D × Call R D) → Dispatcher R D → Option (List (Option R))
  calls [] d = some []
  calls ((order, c) ∷ cs) d = do (r, d') ← call order c d; rs ← calls cs d'; some (r ++ rs)

  -- The same registry, but that the name has another process.
  abbrev Sets : Text → Option (Process R D) → Registry R D → Registry R D → Type (ℓ ⊔ κ)
  Sets name v m m' = (other : Text) → m' other ≡ (if same name other then v else m other)

  -- What a call does to a registry, and gives.
  abbrev pub Step :
      (D → Option R) → Call R D → Registry R D → List (Option R) → Registry R D → Type (ℓ ⊔ κ)
  Step none_process (Call.add p) m rs m' = (rs ≡ []) × Sets p.name (some p) m m'
  Step none_process (Call.add_by_lamda name criteria process) m rs m' =
      (rs ≡ [])
      × ((other : Text)
          → m' other ≡ (elim (m other) [
            | some p ↦ some p
            | none ↦ if same name other then some (lamda_process name criteria process) else none
          ]))
  Step none_process (Call.remove name) m rs m' = (rs ≡ []) × Sets name none m m'
  Step none_process (Call.enable name) m rs m' =
      (rs ≡ [])
      × ((p : Process R D) × (m name ≡ some p)
          × Sets name (some (record p { is_enable = true })) m m')
  Step none_process (Call.disable name) m rs m' =
      (rs ≡ [])
      × ((p : Process R D) × (m name ≡ some p)
          × Sets name (some (record p { is_enable = false })) m m')
  Step none_process (Call.run x) m rs m' =
      ((r : Option R) × (rs ≡ r ∷ []) × IsChosen none_process m x r)
      × ((other : Text) → m' other ≡ m other)

  -- A call that follows NULL.
  pub data IsFault (m : Registry R D) : Call R D → Type (ℓ ⊔ κ) where
    enables : {name : Text} → m name ≡ none → IsFault m (Call.enable name)
    disables : {name : Text} → m name ≡ none → IsFault m (Call.disable name)

  -- The results of calls on a registry: `none` after a fault.
  pub data Steps (none_process : D → Option R)
      : List (Order R D × Call R D) → Registry R D → Option (List (Option R)) → Type (ℓ ⊔ κ) where
    done : {m : Registry R D} → Steps none_process [] m (some [])
    fault :
        {order : Order R D} {c : Call R D} {cs : List (Order R D × Call R D)} {m : Registry R D}
        → IsFault m c
        → Steps none_process ((order, c) ∷ cs) m none
    step :
        {order : Order R D} {c : Call R D} {cs : List (Order R D × Call R D)} {m : Registry R D}
        {o : Option (List (Option R))} (m' : Registry R D) (rs : List (Option R))
        → Step none_process c m rs m'
        → Steps none_process cs m' o
        → Steps none_process ((order, c) ∷ cs) m (o >>= λ more. some (rs ++ more))

  -- A call fails on NULL, or gives a step.
  Served :
      (D → Option R)
      → Call R D
      → Dispatcher R D
      → Option (List (Option R) × Dispatcher R D)
      → Type (ℓ ⊔ κ)
  Served none_process c d o =
      (IsFault (view d) c × (o ≡ none))
      ⊎ Returns o (λ r.
        IsDispatcher r.1
        × (none_process ≡ r.1.none_process)
        × Step none_process c (view d) r.0 (view r.1))

  call-Served :
      (order : Order R D)
      → IsOrder order
      → (c : Call R D) (d : Dispatcher R D) → IsDispatcher d
      → Served d.none_process c d (call order c d)
  unfolding call Served enable_process disable_process
  call-Served order law (Call.add p) d h =
      let (v, f, e) = add_process_lem order law p d h in
      inr (([], add_process order p d), refl, (v, e, (refl, f)))
  call-Served order law (Call.add_by_lamda name criteria process) d h =
      let (v, f, e) = add_lamda_lem order law name criteria process d h in
      inr (([], add_lamda order name criteria process d), refl, (v, e, (refl, f)))
  call-Served order law (Call.remove name) d h =
      let (v, f, e) = remove_process_lem name d h in
      inr (([], remove_process name d), refl, (v, e, (refl, f)))
  call-Served order law (Call.enable name) d h = elim (set_enable_lem true name d h) [
    | inl (e, f) ↦ inl (IsFault.enables f, rw e refl)
    | inr (p, f, (d', e, (v, g, k))) ↦ inr (([], d'), rw e refl, (v, k, (refl, (p, f, g))))
  ]
  call-Served order law (Call.disable name) d h = elim (set_enable_lem false name d h) [
    | inl (e, f) ↦ inl (IsFault.disables f, rw e refl)
    | inr (p, f, (d', e, (v, g, k))) ↦ inr (([], d'), rw e refl, (v, k, (refl, (p, f, g))))
  ]
  call-Served order law (Call.run x) d h =
      let (r, e, c) = proceed_lem d x h in
      inr ((r ∷ [], d), rw e refl, (h, refl, ((r, refl, c), λ other. refl)))

  calls-Steps :
      (cs : List (Order R D × Call R D)) (d : Dispatcher R D)
      → All (λ c. IsOrder c.0) cs
      → IsDispatcher d
      → Steps d.none_process cs (view d) (calls cs d)
  unfolding calls Served
  calls-Steps [] d laws h = Steps.done
  calls-Steps ((order, c) ∷ cs) d laws h = elim (call-Served order laws.0 c d h) [
    | inl (f, e) ↦ rw e (Steps.fault f)
    | inr (r, e, (v, k, s)) ↦
        let rest = calls-Steps cs r.1 laws.1 v in
        rw e (
          Steps.step (view r.1) r.0 s
            (subst (λ g. Steps g cs (view r.1) (calls cs r.1)) (sym k) rest))
  ]

  -- Whatever the order of iteration, any calls on a new dispatcher do what they do on a registry of
  -- processes by name: an added process replaces one of its name, an added lambda does not, and `proceed`
  -- gives the result of some enabled process that can proceed, or of the given function if there is none.
  -- They fail just at the first call that enables or disables a name that is not there.
  pub dispatches_refine :
      (none_process : D → Option R) (cs : List (Order R D × Call R D))
      → All (λ c. IsOrder c.0) cs
      → Steps none_process cs (λ name. none) (calls cs (dispatcher none_process))
  dispatches_refine none_process cs laws =
      calls-Steps cs (dispatcher none_process) laws
        (record { distinct = tt; stored = λ name o e. absurd (ground arith) })
