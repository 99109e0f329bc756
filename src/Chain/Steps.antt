-- ===== src/Chain/Steps.antt =====
-- Each call of c/libs/fastcommon/src/chain.c does what the list of data does.
use c_workspace.Common.{
  ℕ, ◌<◌, ◌≡◌, refl, ap, subst, ◌==◌, ℤ, pos, negsuc, true, false, Bool, if◌then◌else◌, Option,
  none, some, ◌>>=◌, List, [], ◌∷◌, ◌++◌, arith, length, Returns,
}
use c_workspace.Chain.{
  ChainList, einval, enomem, chain_type_insert, chain_type_append, chain_type_sorted,
  insert_node_prior, append_node, insert_node_asc, add_node, chain_pop_head, chain_destroy,
}
use c_workspace.Chain.Remove.{delete_node}
use c_workspace.Chain.Place.{Holds, Turns}
use c_workspace.Chain.Adds.{insert_node_prior-Holds, append_node-Holds}
use c_workspace.Chain.Sorted.{insert_asc, insert_node_asc-by, insert_node_asc-Holds}
use c_workspace.Chain.Pops.{chain_pop_head-none, chain_pop_head-Holds}
use c_workspace.Chain.Removes.{remove, freed_all, delete_node-none, delete_node-Turns}
use c_workspace.Chain.Destroys.{chain_destroy-Turns, chain_count_lem}
use c_workspace.Chain.Abstract.{
  Model, Call, Outcome, with_memory, added, popped, released, expected,
}
use c_workspace.Chain.Calls.{given, call}

module _ {A : Type 0} where
  abbrev pub view : ChainList A → List A → Model A
  view l xs = record {
    kind = l.kind;
    compare_func = l.compare_func;
    frees = l.free_data_func;
    items = xs;
    freed = l.freed;
  }

  -- The list holds the data of the model, in order, and has freed the same.
  abbrev pub Shows : ChainList A → Model A → Type 0
  Shows l m = Holds l m.items × (view l m.items ≡ m)

  abbrev pub Fits : {R : Type 0} → R × ChainList A → R × Model A → Type 0
  Fits o s = (o.0 ≡ s.0) × Shows o.1 s.1

  Turns-Shows :
      (l l' : ChainList A) (xs ys freed : List A)
      → Turns l l' ys freed
      → Shows l' (record (view l xs) { items = ys; freed = freed })
  Turns-Shows l l' xs ys freed (held, k, c, f, d) =
      (held, λ i. record { kind = k i; compare_func = c i; frees = f i; items = ys; freed = d i })

  -- What malloc may give.
  abbrev pub Free : ChainList A → Option ℕ → Type 0
  Free l none = Unit
  Free l (some new) = l.nodes new ≡ none

  if_Fits :
      {R : Type 0} (b : Bool) (s t : Option (R × ChainList A)) (u v : R × Model A)
      → Returns s (λ o. Fits o u)
      → Returns t (λ o. Fits o v)
      → Returns (if b then s else t) (λ o. Fits o (if b then u else v))
  if_Fits true s t u v h k = h
  if_Fits false s t u v h k = k

  module _ (l : ChainList A) (xs : List A) (held : Holds l xs) (fuel : ℕ)
      (h : length xs < fuel) where
    prior_Fits :
        (new : Option ℕ) (x : A)
        → Free l new
        → Fits (insert_node_prior new l x) (with_memory (given new) (view l xs) (x ∷ xs))
    unfolding insert_node_prior
    prior_Fits none x f = (refl, (held, refl))
    prior_Fits (some new) x f = (refl, (insert_node_prior-Holds l xs new x held f, refl))

    append_Fits :
        (new : Option ℕ) (x : A)
        → Free l new
        → Returns
            (append_node new l x)
            (λ o. Fits o (with_memory (given new) (view l xs) (xs ++ (x ∷ []))))
    unfolding append_node
    append_Fits none x f = ((enomem, l), refl, (refl, (held, refl)))
    append_Fits (some new) x f =
        let (o, e, (z, t)) = append_node-Holds l xs new x held f in
        (o, e, (z, Turns-Shows l o.1 xs (xs ++ (x ∷ [])) l.freed t))

    asc_Fits :
        (new : Option ℕ) (x : A) (q : Option (A → A → ℤ))
        → Free l new
        → l.compare_func ≡ q
        → Returns (insert_node_asc fuel new l x) (λ o. Fits o (elim q [
          | none ↦ (einval, view l xs)
          | some compare_func ↦ with_memory (given new) (view l xs) (insert_asc compare_func x xs)
        ]))
    asc_Fits new x none f c =
        ((einval, l), insert_node_asc-by fuel new l x none c, (refl, (held, refl)))
    asc_Fits none x (some compare_func) f c =
        ((enomem, l), insert_node_asc-by fuel none l x (some compare_func) c, (refl, (held, refl)))
    asc_Fits (some new) x (some compare_func) f c =
        let (o, e, (z, t)) = insert_node_asc-Holds compare_func l x xs fuel new c held h f in
        (o, e, (z, Turns-Shows l o.1 xs (insert_asc compare_func x xs) l.freed t))

    add_Fits :
        (new : Option ℕ) (x : A)
        → Free l new
        → Returns (add_node fuel new l x) (λ o. Fits o (added (given new) x (view l xs)))
    unfolding add_node
    add_Fits new x f =
        if_Fits (l.kind == chain_type_insert) _ _ _ _
          (insert_node_prior new l x, refl, prior_Fits new x f)
          (if_Fits (l.kind == chain_type_append) _ _ _ _ (append_Fits new x f)
            (asc_Fits new x l.compare_func f refl))

    destroy_Fits : Returns (chain_destroy fuel l) (λ l'. Shows l' (released (view l xs) [] xs))
    destroy_Fits =
        let (l', e, t) = chain_destroy-Turns l xs fuel held h in
        (l', e, Turns-Shows l l' xs [] (freed_all l xs) t)

  pop_Fits :
      (l : ChainList A) (xs : List A)
      → Holds l xs
      → Returns (chain_pop_head l) (λ o. Fits o (popped (view l xs)))
  pop_Fits l [] (n ∷ ns, a, d) = absurd (ground (arith, d))
  pop_Fits l [] ([], a, d) = ((none, l), chain_pop_head-none l a.onward, (refl, (([], a, d), refl)))
  pop_Fits l (x ∷ xs) held =
      let (o, e, (z, t)) = chain_pop_head-Holds l x xs held in
      (o, e, (z, Turns-Shows l o.1 (x ∷ xs) xs l.freed t))

  remove-Fits :
      (l : ChainList A) (xs : List A) (fuel : ℕ) (every : Bool) (x : A) (q : Option (A → A → ℤ))
      → Holds l xs
      → length xs < fuel
      → l.compare_func ≡ q
      → Returns (delete_node fuel l x every) (λ o. Fits o (elim q [
        | none ↦ (negsuc 21, view l xs)
        | some compare_func ↦
            let r = remove (l.kind == chain_type_sorted) every compare_func x xs in
            (pos (length r.1), released (view l xs) r.0 r.1)
      ]))
  remove-Fits l xs fuel every x none held h c =
      ((negsuc 21, l), delete_node-none l x every fuel c, (refl, (held, refl)))
  remove-Fits l xs fuel every x (some compare_func) held h c =
      let r = remove (l.kind == chain_type_sorted) every compare_func x xs in
      let (o, e, (z, t)) = delete_node-Turns compare_func l x xs every fuel c held h in
      (o, e, (z, Turns-Shows l o.1 xs r.0 (freed_all l r.1) t))

  -- A call of a list that holds the data of a model, with fuel for more than all nodes, ends: it gives what
  -- the model gives, and then the list holds what the model holds.
  call_at :
      (l : ChainList A) (xs : List A) (fuel : ℕ) (new : Option ℕ) (c : Call A)
      → Holds l xs
      → length xs < fuel
      → Free l new
      → Returns (call fuel new l c) (λ o. Fits o (expected (given new) c (view l xs)))
  unfolding call
  call_at l xs fuel new (Call.add x) held h f =
      let (o, e, (z, s)) = add_Fits l xs held fuel h new x f in
      ((Outcome.code o.0, o.1), rw (e, ◌>>=◌) refl, (ap Outcome.code z, s))
  call_at l xs fuel new Call.pop_head held h f =
      let (o, e, (z, s)) = pop_Fits l xs held in
      ((Outcome.datum o.0, o.1), rw (e, ◌>>=◌) refl, (ap Outcome.datum z, s))
  call_at l xs fuel new (Call.remove_equal every x) held h f =
      let (o, e, (z, s)) = remove-Fits l xs fuel every x l.compare_func held h refl in
      ((Outcome.number o.0, o.1), rw (e, ◌>>=◌) refl, (ap Outcome.number z, s))
  call_at l xs fuel new Call.count held h f = (
    (Outcome.number (pos (length xs)), l),
    rw (chain_count_lem l xs fuel held h, ◌>>=◌) refl,
    (refl, (held, refl)),
  )
  call_at l xs fuel new Call.destroy held h f =
      let (l', e, s) = destroy_Fits l xs held fuel h in
      ((Outcome.code 0, l'), rw (e, ◌>>=◌) refl, (refl, s))

  pub call-Fits :
      (l : ChainList A) (m : Model A) (fuel : ℕ) (new : Option ℕ) (c : Call A)
      → Shows l m
      → length m.items < fuel
      → Free l new
      → Returns (call fuel new l c) (λ o. Fits o (expected (given new) c m))
  call-Fits l m fuel new c (held, e) h f =
      subst (λ m. Returns (call fuel new l c) (λ o. Fits o (expected (given new) c m))) e
        (call_at l m.items fuel new c held h f)
