-- ===== src/Avl/Laws/Client.antt =====
-- What a client of avl_tree.h can observe over any sequence of calls.
use c_workspace.Common.{
  ℕ, ◌≡◌, refl, ℤ, Bool, if◌then◌else◌, Option, some, ◌>>=◌, List, [], ◌∷◌, length, Returns,
}
use c_workspace.Avl.Tree.{
  AvlTreeInfo, Reply, avl_tree_insert, avl_tree_replace, avl_tree_delete, avl_tree_find,
  avl_tree_find_ge, avl_tree_count,
}
use c_workspace.Avl.Order.Lists.{equals, without, first_ge, first}
use c_workspace.Avl.Contents.Insert.{inserted, answer_of}
use c_workspace.Avl.Contents.Replace.{replaced}
use c_workspace.Avl.Contents.Delete.{delete_result}
use c_workspace.Avl.Laws.{
  IsAvl, contents, Does, avl_tree_insert_lem, avl_tree_replace_lem, avl_tree_delete_lem,
}
use c_workspace.Avl.Laws.Read.{avl_tree_find_lem, avl_tree_find_ge_lem, avl_tree_count_lem}

-- A call; a `Bool` says whether its `malloc` gives memory.
pub data Call {ℓ} (A : Type ℓ) : Type ℓ where
  insert replace : A → Bool → Call A
  delete find find_ge : A → Call A
  count : Call A

-- What the client sees of a call.
pub data Answer {ℓ} (A : Type ℓ) : Type ℓ where
  code : ℤ → List A → Answer A
  found : Option A → Answer A
  counted : ℕ → Answer A

module _ {ℓ} {A : Type ℓ} where
  abbrev answer : Option (Reply A) → Option (Answer A × AvlTreeInfo A)
  answer m = m >>= λ r. some (Answer.code r.result r.freed, r.tree)

  -- A call on the tree.
  pub call : Call A → AvlTreeInfo A → Option (Answer A × AvlTreeInfo A)
  call (Call.insert x ok) tree = answer (avl_tree_insert tree x ok)
  call (Call.replace x ok) tree = answer (avl_tree_replace tree x ok)
  call (Call.delete x) tree = answer (avl_tree_delete tree x)
  call (Call.find x) tree = some (Answer.found (avl_tree_find tree x), tree)
  call (Call.find_ge x) tree = some (Answer.found (avl_tree_find_ge tree x), tree)
  call Call.count tree = some (Answer.counted (avl_tree_count tree), tree)

  pub calls : List (Call A) → AvlTreeInfo A → Option (List (Answer A))
  calls [] tree = some []
  calls (c ∷ cs) tree = do (a, tree') ← call c tree; rest ← calls cs tree'; some (a ∷ rest)

module _ {ℓ} {A : Type ℓ} (free_data_func : Bool) (compare_func : A → A → ℤ) where
  abbrev given : List A → List A
  given fr = if free_data_func then fr else []

  -- The same call on a sorted list.
  pub call_list : Call A → List A → Answer A × List A
  call_list (Call.insert x ok) xs =
      (Answer.code (answer_of compare_func ok x xs) [], inserted compare_func ok x xs)
  call_list (Call.replace x ok) xs = (
    Answer.code (answer_of compare_func ok x xs) (given (equals compare_func x xs)),
    replaced compare_func ok x xs,
  )
  call_list (Call.delete x) xs = (
    Answer.code (delete_result (equals compare_func x xs)) (given (equals compare_func x xs)),
    without compare_func x xs,
  )
  call_list (Call.find x) xs = (Answer.found (first (equals compare_func x xs)), xs)
  call_list (Call.find_ge x) xs = (Answer.found (first_ge compare_func x xs), xs)
  call_list Call.count xs = (Answer.counted (length xs), xs)

  pub calls_list : List (Call A) → List A → List (Answer A)
  calls_list [] xs = []
  calls_list (c ∷ cs) xs = let (a, xs') = call_list c xs in a ∷ calls_list cs xs'

module _ {ℓ} {A : Type ℓ} where
  -- A good tree, for the given free function and comparison, with the data `xs`.
  record Shows (free_data_func : Bool) (compare_func : A → A → ℤ) (xs : List A)
      (tree : AvlTreeInfo A) : Type ℓ where
    good : IsAvl tree
    frees : tree.free_data_func ≡ free_data_func
    compares : tree.compare_func ≡ compare_func
    holds : contents tree ≡ xs

  Does-Shows :
      (tree : AvlTreeInfo A) (xs : List A) (n : ℤ) (fr : List A) (m : Option (Reply A))
      → Returns m (Does tree xs n fr)
      → Returns
          (answer m)
          (λ o. (o.0 ≡ Answer.code n fr) × Shows tree.free_data_func tree.compare_func xs o.1)
  Does-Shows tree xs n fr m (r, e, d) = (
    (Answer.code r.result r.freed, r.tree),
    rw e refl,
    (
      rw (d.returned, d.released) refl,
      record { good = d.good; frees = d.same_free; compares = d.same_compare; holds = d.holds },
    ),
  )

  call-Shows :
      (c : Call A) (tree : AvlTreeInfo A)
      → IsAvl tree
      → Returns (call c tree) (λ o.
        let (a, xs) = call_list tree.free_data_func tree.compare_func c (contents tree) in
        (o.0 ≡ a) × Shows tree.free_data_func tree.compare_func xs o.1)
  unfolding call call_list
  call-Shows (Call.insert x ok) tree v = Does-Shows _ _ _ _ _ (avl_tree_insert_lem ok tree v x)
  call-Shows (Call.replace x ok) tree v = Does-Shows _ _ _ _ _ (avl_tree_replace_lem ok tree v x)
  call-Shows (Call.delete x) tree v = Does-Shows _ _ _ _ _ (avl_tree_delete_lem tree v x)
  call-Shows (Call.find x) tree v = (
    _,
    refl,
    (
      rw (avl_tree_find_lem tree v x) refl,
      record { good = v; frees = refl; compares = refl; holds = refl },
    ),
  )
  call-Shows (Call.find_ge x) tree v = (
    _,
    refl,
    (
      rw (avl_tree_find_ge_lem tree v x) refl,
      record { good = v; frees = refl; compares = refl; holds = refl },
    ),
  )
  call-Shows Call.count tree v = (
    _,
    refl,
    (
      rw (avl_tree_count_lem tree) refl,
      record { good = v; frees = refl; compares = refl; holds = refl },
    ),
  )

  -- Any sequence of calls that insert, replace, delete, find, find the first not less, or count, on a
  -- balanced and sorted tree, runs to its end, and returns and frees the same as on the sorted list of the
  -- tree's data, whichever calls of `malloc` fail.
  pub calls_refine :
      (cs : List (Call A)) (tree : AvlTreeInfo A)
      → IsAvl tree
      → calls cs tree ≡ some (calls_list tree.free_data_func tree.compare_func cs (contents tree))
  unfolding calls calls_list
  calls_refine [] tree v = refl
  calls_refine (c ∷ cs) tree v =
      let (o, e, p) = call-Shows c tree v in
      rw (e, calls_refine cs o.1 p.1.good, p.1.frees, p.1.compares, p.1.holds, p.0) refl
