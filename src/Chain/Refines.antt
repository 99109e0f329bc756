-- ===== src/Chain/Refines.antt =====
-- Sequences of calls of c/libs/fastcommon/src/chain.c.
use c_workspace.Common.{
  ℕ, suc, ◌+◌, ◌<◌, ◌≤◌, ◌≡◌, refl, ap, ◌==◌, ℤ, sign, Sign-cases, SignCase, true, false, Bool,
  if◌then◌else◌, Option, none, some, ◌>>=◌, List, [], ◌∷◌, ◌++◌, arith, length, length-append,
  Returns,
}
use c_workspace.Chain.{
  ChainNode, ChainList, einval, chain_type_insert, chain_type_append, chain_type_sorted, chain_init,
}
use c_workspace.Chain.Sorted.{insert_asc}
use c_workspace.Chain.Removes.{remove}
use c_workspace.Chain.Abstract.{
  Model, Call, with_memory, added, popped, removed, expected, Expected,
}
use c_workspace.Chain.Calls.{given, run}
use c_workspace.Chain.Steps.{Shows, Free, call-Fits}

module _ {A : Type 0} where
  length-insert_asc :
      (compare_func : A → A → ℤ) (x : A) (xs : List A)
      → length (insert_asc compare_func x xs) ≡ suc (length xs)
  length-insert_asc compare_func x [] = refl
  length-insert_asc compare_func x (y ∷ ys) = elim (Sign-cases (sign (compare_func y x))) [
    | SignCase.less s ↦ rw (insert_asc, s) (ap suc (length-insert_asc compare_func x ys))
    | SignCase.equal s ↦ rw (insert_asc, s) refl
    | SignCase.greater s ↦ rw (insert_asc, s) refl
  ]

  if_shorter :
      (b : Bool) (u v : List A × List A) (n : ℕ)
      → length u.0 ≤ n
      → length v.0 ≤ n
      → length (if b then u else v).0 ≤ n
  if_shorter true u v n h k = h
  if_shorter false u v n h k = k

  length-remove :
      (sorted every : Bool) (compare_func : A → A → ℤ) (x : A) (xs : List A)
      → length (remove sorted every compare_func x xs).0 ≤ length xs
  length-remove sorted every compare_func x [] = omega arith
  length-remove sorted every compare_func x (y ∷ ys) =
      let shorter = length-remove sorted every compare_func x ys in
      elim (Sign-cases (sign (compare_func y x))) [
        | SignCase.less s ↦ rw (remove, s) (omega arith)
        | SignCase.equal s ↦
            rw (remove, s) (if_shorter every _ _ (suc (length ys)) (omega arith) (omega arith))
        | SignCase.greater s ↦
            rw (remove, s) (if_shorter sorted _ _ (suc (length ys)) (omega arith) (omega arith))
      ]

  -- One call adds one datum at most.
  length-with_memory :
      (memory : Bool) (m : Model A) (ys : List A)
      → length ys ≤ length m.items + 1
      → length (with_memory memory m ys).1.items ≤ length m.items + 1
  length-with_memory true m ys h = h
  length-with_memory false m ys h = omega arith

  if_fewer :
      (b : Bool) (u v : ℕ × Model A) (n : ℕ)
      → length u.1.items ≤ n
      → length v.1.items ≤ n
      → length (if b then u else v).1.items ≤ n
  if_fewer true u v n h k = h
  if_fewer false u v n h k = k

  length-sorted :
      (memory : Bool) (x : A) (m : Model A) (q : Option (A → A → ℤ))
      → length
          (elim q as (λ y. ℕ × Model A) [
            | none ↦ (einval, m)
            | some compare_func ↦ with_memory memory m (insert_asc compare_func x m.items)
          ]).1.items
        ≤ length m.items + 1
  length-sorted memory x m none = omega arith
  length-sorted memory x m (some compare_func) =
      length-with_memory memory m (insert_asc compare_func x m.items)
        (rw (length-insert_asc compare_func x m.items) (omega arith))

  length-added :
      (memory : Bool) (x : A) (m : Model A) → length (added memory x m).1.items ≤ length m.items + 1
  length-added memory x m =
      if_fewer (m.kind == chain_type_insert) _ _ (length m.items + 1)
        (length-with_memory memory m (x ∷ m.items) (omega arith))
        (if_fewer (m.kind == chain_type_append) _ _ (length m.items + 1)
          (length-with_memory memory m (m.items ++ (x ∷ []))
            (rw (length-append m.items (x ∷ [])) (omega arith)))
          (length-sorted memory x m m.compare_func))

  length-popped :
      (m : Model A) (xs : List A)
      → length (popped (record m { items = xs })).1.items ≤ length xs + 1
  length-popped m [] = omega arith
  length-popped m (x ∷ xs) = omega arith

  length-removed :
      (m : Model A) (every : Bool) (x : A) (q : Option (A → A → ℤ))
      → length (removed every x (record m { compare_func = q })).1.items ≤ length m.items + 1
  length-removed m every x none = omega arith
  length-removed m every x (some compare_func) =
      let shorter = length-remove (m.kind == chain_type_sorted) every compare_func x m.items in
      omega arith

  length-expected :
      (memory : Bool) (c : Call A) (m : Model A)
      → length (expected memory c m).1.items ≤ length m.items + 1
  length-expected memory (Call.add x) m = length-added memory x m
  length-expected memory Call.pop_head m = length-popped m m.items
  length-expected memory (Call.remove_equal every x) m = length-removed m every x m.compare_func
  length-expected memory Call.count m = omega arith
  length-expected memory Call.destroy m = omega arith

  module _ (malloc : ℕ → (ℕ → Option (ChainNode A)) → Option ℕ)
      (malloc_free : (k : ℕ) (nodes : ℕ → Option (ChainNode A)) (a : ℕ)
        → malloc k nodes ≡ some a
        → nodes a ≡ none) where
    malloc-Free : (k : ℕ) (l : ChainList A) (new : Option ℕ) → malloc k l.nodes ≡ new → Free l new
    malloc-Free k l none e = tt
    malloc-Free k l (some a) e = malloc_free k l.nodes a e

    run-Expected :
        (k : ℕ) (l : ChainList A) (m : Model A) (fuel : ℕ) (cs : List (Call A))
        → Shows l m
        → length m.items + length cs < fuel
        → Returns (run malloc fuel k l cs) (λ o. Expected m cs o.0 o.1.freed)
    unfolding run
    run-Expected k l m fuel [] s h = (([], l), refl, (refl, ap (λ m. m.freed) s.1))
    run-Expected k l m fuel (c ∷ cs) s h =
        let memory = given (malloc k l.nodes) in
        let (o, e, (z, s')) =
          call-Fits l m fuel (malloc k l.nodes) c s (omega arith)
            (malloc-Free k l (malloc k l.nodes) refl) in
        let longer = length-expected memory c m in
        let (os, e', rest) =
          run-Expected (suc k) o.1 (expected memory c m).1 fuel cs s' (omega arith) in
        (((memory, o.0) ∷ os.0, os.1), rw (e, e', ◌>>=◌) refl, (z, rest))

    -- A list that `chain_init` has made, and then any calls of `addNode`, `chain_pop_head`, `deleteOne`,
    -- `deleteAll`, `chain_count` and `chain_destroy`: if malloc gives only what is not allocated, or
    -- nothing, and the fuel is more than the number of calls, then the calls end, and their outcomes and
    -- the data that they free are those of a list of data, to which a datum is added just where malloc gave
    -- memory for it.
    pub chain-Refines :
        (kind : ℕ) (frees : Bool) (compare_func : Option (A → A → ℤ))
        (nodes : ℕ → Option (ChainNode A)) (fuel : ℕ) (cs : List (Call A))
        → length cs < fuel
        → Returns (run malloc fuel 0 (chain_init kind frees compare_func nodes) cs) (λ o.
          Expected
            (record {
              kind = kind;
              compare_func = compare_func;
              frees = frees;
              items = [];
              freed = [];
            })
            cs
            o.0
            o.1.freed)
    unfolding chain_init
    chain-Refines kind frees compare_func nodes fuel cs h =
        run-Expected 0 (chain_init kind frees compare_func nodes)
          (record {
            kind = kind;
            compare_func = compare_func;
            frees = frees;
            items = [];
            freed = [];
          })
          fuel cs
          (([], record { back = refl; onward = refl; apart = tt; tail_last = refl }, refl), refl)
          (omega arith)
