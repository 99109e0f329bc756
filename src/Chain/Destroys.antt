-- ===== src/Chain/Destroys.antt =====
-- `chain_destroy` and `chain_count` of c/libs/fastcommon/src/chain.c.
use c_workspace.Common.{
  ℕ, zero, suc, ◌+◌, ◌<◌, ◌≡◌, refl, ap, subst, ◌∙◌, true, false, Bool, Option, none, some, ◌>>=◌,
  List, [], ◌∷◌, arith, length, Returns,
}
use c_workspace.Chain.{ChainList, put, same, destroy_nodes, chain_destroy, count_nodes, chain_count}
use c_workspace.Chain.Linked.{Onward, Onward-put, Apart}
use c_workspace.Chain.Place.{Holds, Turns, data_of, length-data_of}
use c_workspace.Chain.Deletes.{freed_with}
use c_workspace.Chain.Removes.{freed_all, freed_nil, freed_more}

module _ {A : Type 0} where
  -- Only the store has changed, and so much is freed.
  abbrev Freed : ChainList A → List A → ChainList A → Type 0
  Freed l gone l' =
      (l'.kind ≡ l.kind)
      × (l'.compare_func ≡ l.compare_func)
      × (l'.free_data_func ≡ l.free_data_func)
      × (l'.freed ≡ freed_all l gone)

  destroy_nodes-Freed :
      (fuel : ℕ) (l : ChainList A) (ns : List (ℕ × A)) (p : Option ℕ)
      → Onward l.nodes p ns
      → Apart ns
      → length ns < fuel
      → Returns (destroy_nodes fuel l p) (Freed l (data_of ns))
  unfolding destroy_nodes
  destroy_nodes-Freed zero l ns p o a h = absurd (omega arith)
  destroy_nodes-Freed (suc fuel) l [] p o a h =
      rw o (l, refl, (refl, refl, refl, freed_nil l.free_data_func l.freed))
  destroy_nodes-Freed (suc fuel) l (n ∷ ns) p (next, e, f, o) a h =
      let l1 = record l { nodes = put l.nodes n.0 none; freed = freed_with l n.1 } in
      let (l', r, (k, c, d, g)) =
        destroy_nodes-Freed fuel l1 ns next (Onward-put l.nodes n.0 none next ns a.0 o) a.1
          (omega arith) in
      rw (e, f, ◌>>=◌) (l', r, (k, c, d, g ∙ freed_more l.free_data_func l.freed n.1 (data_of ns)))

  nothing_Holds : (l : ChainList A) → Holds (record l { head = none; tail = none }) []
  nothing_Holds l = ([], record { back = refl; onward = refl; apart = tt; tail_last = refl }, refl)

  abbrev emptied : Option (ChainList A) → Option (ChainList A)
  emptied o = do l' ← o; some (record l' { head = none; tail = none })

  abbrev destroyed : ChainList A → ℕ → Bool → Option (ChainList A)
  destroyed l fuel empty = elim empty as (λ y. Option (ChainList A)) [
    | true ↦ some l
    | false ↦ emptied (destroy_nodes fuel l l.head)
  ]

  -- `chain_destroy`, with fuel for more than all nodes, frees all data and leaves an empty list.
  pub chain_destroy-Turns :
      (l : ChainList A) (xs : List A) (fuel : ℕ)
      → Holds l xs
      → length xs < fuel
      → Returns (chain_destroy fuel l) (λ l'. Turns l l' [] (freed_all l xs))
  unfolding chain_destroy
  chain_destroy-Turns l xs fuel ([], a, d) h = (
    l,
    ap (destroyed l fuel) (ap (λ q. same q none) a.onward),
    (
      ([], a, refl),
      refl,
      refl,
      refl,
      subst (λ ys. l.freed ≡ freed_all l ys) d (freed_nil l.free_data_func l.freed),
    ),
  )
  chain_destroy-Turns l xs fuel (n ∷ ns, a, d) h =
      let (next, e, f, o) = a.onward in
      let same_length : length (n ∷ ns) ≡ length xs = length-data_of (n ∷ ns) ∙ ap length d in
      let (l', r, (k, c, g, freed)) =
        destroy_nodes-Freed fuel l (n ∷ ns) l.head a.onward a.apart (omega arith) in
      (
        record l' { head = none; tail = none },
        ap (destroyed l fuel) (ap (λ q. same q none) e) ∙ ap emptied r,
        (nothing_Holds l', k, c, g, subst (λ ys. l'.freed ≡ freed_all l ys) d freed),
      )

  count_nodes_lem :
      (fuel : ℕ) (l : ChainList A) (ns : List (ℕ × A)) (p : Option ℕ) (count : ℕ)
      → Onward l.nodes p ns
      → length ns < fuel
      → count_nodes fuel l p count ≡ some (count + length ns)
  unfolding count_nodes
  count_nodes_lem zero l ns p count o h = absurd (omega arith)
  count_nodes_lem (suc fuel) l [] p count o h = rw o (ap some (omega arith))
  count_nodes_lem (suc fuel) l (n ∷ ns) p count (next, e, f, o) h =
      rw (e, f) (count_nodes_lem fuel l ns next (count + 1) o (omega arith) ∙ ap some (omega arith))

  -- `chain_count`, with such fuel, is the number of the data.
  pub chain_count_lem :
      (l : ChainList A) (xs : List A) (fuel : ℕ)
      → Holds l xs
      → length xs < fuel
      → chain_count fuel l ≡ some (length xs)
  unfolding chain_count
  chain_count_lem l xs fuel (ns, a, d) h =
      let same_length : length ns ≡ length xs = length-data_of ns ∙ ap length d in
      count_nodes_lem fuel l ns l.head 0 a.onward (omega arith) ∙ ap some (omega arith)
