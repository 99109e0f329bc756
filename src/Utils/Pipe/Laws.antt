-- ===== src/Utils/Pipe/Laws.antt =====
-- The order of the steps of cpp/src/utils/pipe/Pipe.h.
use mathlib.Core.List.{Permᴰ, foldl}
use c_workspace.Common.{
  ℕ, ◌<◌, ◌≡◌, ◌≢◌, refl, sym, subst, ap, ◌∙◌, ◌==◌, if◌then◌else◌, none, some, List, [], ◌∷◌, ◌++◌,
  append_assoc, append-nil, arith, All, All-imp,
}
use c_workspace.Utils.Pipe.{
  Pipe, new_pipe, emplace, add_step_at, remove_step_at, get_step_at, accumulate, start,
}
use c_workspace.Utils.Pipe.Steps.{
  IsAscending, at-emplace, at-erase, emplace-All, emplace-IsAscending, erase-IsAscending,
}

module _ {ℓ κ} {T : Type ℓ} {R : Type κ} where
  abbrev IsDistinct : List (ℕ × (T → R)) → Type 0
  IsDistinct [] = Unit
  IsDistinct ((key, s) ∷ steps) = All (λ e. key ≢ e.0) steps × IsDistinct steps

  -- Steps that are added one after the other.
  abbrev pub add_all : List (ℕ × (T → R)) → Pipe T R → Pipe T R
  add_all [] pipe = pipe
  add_all ((order, step) ∷ steps) pipe = add_all steps (add_step_at order step pipe)

  emplace_comm :
      (a b : ℕ) (s t : T → R) (steps : List (ℕ × (T → R)))
      → a ≢ b
      → emplace a s (emplace b t steps) ≡ emplace b t (emplace a s steps)
  emplace_comm a b s t [] h = ground arith
  emplace_comm a b s t ((key, u) ∷ steps) h = ground (arith, emplace_comm a b s t steps h)

  -- `addStepAt` and `removeStepAt` keep the numbers ascending. After `addStepAt`, `getStepAt` gives the step
  -- at its number if that was free, else what was there; after `removeStepAt` it throws there. At other
  -- numbers neither changes what it gives.
  pub steps_lem :
      (order other : ℕ) (step : T → R) (pipe : Pipe T R)
      → IsAscending pipe.steps
      → IsAscending (add_step_at order step pipe).steps
        × IsAscending (remove_step_at order pipe).steps
        × (get_step_at other (add_step_at order step pipe) ≡ (
            if other == order
            then (elim (get_step_at order pipe) [ none ↦ some step | some old ↦ some old ])
            else get_step_at other pipe))
        × (get_step_at other (remove_step_at order pipe)
            ≡ (if other == order then none else get_step_at other pipe))
  unfolding add_step_at remove_step_at get_step_at
  steps_lem order other step pipe h = (
    emplace-IsAscending order step pipe.steps h,
    erase-IsAscending order pipe.steps h,
    at-emplace order other step pipe.steps h,
    at-erase order other pipe.steps h,
  )

  All-Perm :
      (P : ℕ × (T → R) → Type 0) {xs ys : List (ℕ × (T → R))} → Permᴰ xs ys → All P xs → All P ys
  All-Perm P Permᴰ.nil h = tt
  All-Perm P (Permᴰ.cons e p) h = (subst P e h.0, All-Perm P p h.1)
  All-Perm P (Permᴰ.swap e f) h = (subst P f h.1.0, (subst P e h.0, h.1.1))
  All-Perm P (Permᴰ.trans p q) h = All-Perm P q (All-Perm P p h)

  add_step_at_comm :
      (a b : ℕ × (T → R)) (pipe : Pipe T R)
      → a.0 ≢ b.0
      → add_step_at b.0 b.1 (add_step_at a.0 a.1 pipe)
        ≡ add_step_at a.0 a.1 (add_step_at b.0 b.1 pipe)
  unfolding add_step_at
  add_step_at_comm a b pipe h =
      ap (λ l. record { steps = l }) (emplace_comm b.0 a.0 b.1 a.1 pipe.steps (λ z. h (sym z)))

  -- Steps of different numbers can be added in any order.
  add_all-Perm :
      {xs ys : List (ℕ × (T → R))} (pipe : Pipe T R)
      → Permᴰ xs ys
      → IsDistinct xs
      → (add_all xs pipe ≡ add_all ys pipe) × IsDistinct ys
  add_all-Perm pipe Permᴰ.nil h = (refl, tt)
  add_all-Perm pipe (Permᴰ.cons {a = a} {b = b} {l₁ = xs} {l₂ = ys} e p) h =
      let (f, d) = add_all-Perm (add_step_at a.0 a.1 pipe) p h.1 in
      (
        f ∙ ap (λ z. add_all ys (add_step_at z.0 z.1 pipe)) e,
        (subst (λ z. All (λ w. z.0 ≢ w.0) ys) e (All-Perm (λ w. a.0 ≢ w.0) p h.0), d),
      )
  add_all-Perm pipe (Permᴰ.swap {a = a} {b = b} {a' = c} {l = l} e f) h =
      subst (λ ys. (add_all (a ∷ b ∷ l) pipe ≡ add_all ys pipe) × IsDistinct ys)
        (ap (λ x. x ∷ a ∷ l) f ∙ ap (λ x. c ∷ x ∷ l) e)
        (
          ap (add_all l) (add_step_at_comm a b pipe h.0.0),
          ((λ z. h.0.0 (sym z), h.1.0), (h.0.1, h.1.1)),
        )
  add_all-Perm pipe (Permᴰ.trans p q) h =
      let (e, d) = add_all-Perm pipe p h in let (f, c) = add_all-Perm pipe q d in (e ∙ f, c)

  emplace_last :
      (order : ℕ) (step : T → R) (steps : List (ℕ × (T → R)))
      → All (λ e. e.0 < order) steps
      → emplace order step steps ≡ steps ++ ((order, step) ∷ [])
  emplace_last order step [] h = refl
  emplace_last order step ((key, u) ∷ steps) h =
      let l : key < order = h.0 in ground (arith, emplace_last order step steps h.1)

  ascending-IsDistinct : (steps : List (ℕ × (T → R))) → IsAscending steps → IsDistinct steps
  ascending-IsDistinct [] h = tt
  ascending-IsDistinct ((key, u) ∷ steps) h =
      (All-imp (λ e l k. absurd (omega (arith, l, k))) steps h.0, ascending-IsDistinct steps h.1)

  emplace_below :
      (order : ℕ) (step : T → R) (ps steps : List (ℕ × (T → R)))
      → All (λ e. All (λ f. f.0 < e.0) ps) steps
      → All (λ e. order < e.0) steps
      → All (λ e. All (λ f. f.0 < e.0) (emplace order step ps)) steps
  emplace_below order step ps [] h k = tt
  emplace_below order step ps ((key, u) ∷ steps) h k =
      (emplace-All (λ j. j < key) order step ps k.0 h.0, emplace_below order step ps steps h.1 k.1)

  nothing_below : (steps : List (ℕ × (T → R))) → All (λ e. Unit {0}) steps
  nothing_below [] = tt
  nothing_below (e ∷ steps) = (tt, nothing_below steps)

  add_all_ascending :
      (steps : List (ℕ × (T → R))) (pipe : Pipe T R)
      → IsAscending steps
      → All (λ e. All (λ f. f.0 < e.0) pipe.steps) steps
      → (add_all steps pipe).steps ≡ pipe.steps ++ steps
  unfolding add_step_at
  add_all_ascending [] pipe h k = sym (append-nil pipe.steps)
  add_all_ascending ((order, step) ∷ steps) pipe h k =
      let last = emplace_last order step pipe.steps k.0 in
      add_all_ascending steps (add_step_at order step pipe) h.1
        (emplace_below order step pipe.steps steps k.1 h.0)
      ∙ ap (λ l. l ++ steps) last
      ∙ append_assoc pipe.steps ((order, step) ∷ []) steps

  -- The value after the steps in their order, the first of them first.
  abbrev pub after_all : (R → T) → List (ℕ × (T → R)) → T → T
  after_all to_param steps v = foldl (λ t step. to_param (step.1 t)) v steps

  accumulate-after_all :
      (to_param : R → T) (steps : List (ℕ × (T → R))) (v : T)
      → accumulate to_param steps v ≡ after_all to_param steps v
  accumulate-after_all to_param [] v = refl
  accumulate-after_all to_param (step ∷ steps) v =
      accumulate-after_all to_param steps (to_param (step.1 v))

  -- Steps of different numbers that are added to a new pipe, in whatever order, are run by `start` in
  -- ascending order of their numbers, each on what the step before gave.
  pub start_lem :
      (to_param : R → T) (to_return : T → R) (ascending added : List (ℕ × (T → R)))
      → IsAscending ascending
      → Permᴰ ascending added
      → (v : T)
      → start to_param to_return (add_all added new_pipe) v
        ≡ to_return (after_all to_param ascending v)
  unfolding start
  start_lem to_param to_return ascending added h p v =
      ap (λ z. to_return (accumulate to_param z.steps v))
        (sym (add_all-Perm new_pipe p (ascending-IsDistinct ascending h)).0)
      ∙ ap (λ l. to_return (accumulate to_param l v))
          (add_all_ascending ascending new_pipe h (nothing_below ascending))
      ∙ ap to_return (accumulate-after_all to_param ascending v)
