-- ===== src/Avl/Laws/Examples.antt =====
-- Runs of avl_tree.c on a small tree of pairs that are compared by their first number.
use Prim.Native.Nat.{compare, Ordering}
use c_workspace.Common.{
  ℕ, ◌+◌, ◌≤◌, ◌/◌, ◌^◌, ◌≡◌, refl, ℤ, pos, negsuc, true, false, some, List, [], ◌∷◌, arith,
  Returns,
}
use c_workspace.Avl.Node.{null, node}
use c_workspace.Avl.Rebalance.{left_balance_when_insert, right_balance_when_insert}
use c_workspace.Avl.Insert.{insert_loop, left_grown, right_grown, grow_leaf}
use c_workspace.Avl.Tree.{
  AvlTreeInfo, avl_tree_init, avl_tree_insert, avl_tree_replace, avl_tree_delete, avl_tree_find,
  avl_tree_find_ge, avl_tree_walk, avl_tree_count, avl_tree_depth, avl_tree_destroy,
}
use c_workspace.Avl.Shape.{height}
use c_workspace.Avl.Contents.Query.{walk_list}
use mathlib.Core.List.{Perm}
use c_workspace.Avl.Order.{IsComparison}
use c_workspace.Avl.Order.Lists.{equals, without, first, first_ge}
use c_workspace.Avl.Contents.Insert.{inserted, answer_of}
use c_workspace.Avl.Contents.Replace.{replaced}
use c_workspace.Avl.Contents.Delete.{delete_result}
use c_workspace.Avl.Laws.{
  IsAvl, Does, contents, avl_tree_init_lem, avl_tree_insert_lem, avl_tree_replace_lem,
  avl_tree_delete_lem, avl_tree_destroy_lem,
}
use c_workspace.Avl.Laws.Read.{
  avl_tree_find_lem, avl_tree_find_ge_lem, avl_tree_depth_lem, avl_tree_walk_lem,
}
use c_workspace.Avl.Laws.Client.{Call, calls, calls_list, calls_refine}
use c_workspace.Avl.Laws.Lookup.{find-update_ne}

abbrev by_key : ℕ × ℕ → ℕ × ℕ → ℤ
by_key a b = elim (compare a.0 b.0) [
  | Ordering.lt ↦ negsuc 0
  | Ordering.eq ↦ pos 0
  | Ordering.gt ↦ pos 1
]

by_key-IsComparison : IsComparison by_key
by_key-IsComparison = record {
  turn = λ a b. ground arith;
  lt_of_lt_of_le = λ a b c. ground arith;
  lt_of_le_of_lt = λ a b c. ground arith;
}

-- Keys 2, 5, 6, 8; the root leans to the right.
abbrev sample : AvlTreeInfo (ℕ × ℕ)
sample = record {
  root =
      node (5, 50) (node (2, 20) null null (pos 0))
        (node (8, 80) (node (6, 60) null null (pos 0)) null (negsuc 0)) (pos 1);
  free_data_func = true;
  compare_func = by_key;
}

sample-IsAvl : IsAvl sample
sample-IsAvl = record { law = by_key-IsComparison; balanced = omega arith; sorted = ground arith }

-- Key 7 makes the right child lean too far: a double rotation.
insert_rotates :
    insert_loop by_key true sample.root (7, 70) false
    ≡ some (record {
      root =
          node
            (5, 50)
            (node (2, 20) null null (pos 0))
            (node (7, 70) (node (6, 60) null null (pos 0)) (node (8, 80) null null (pos 0)) (pos 0))
            (pos 1);
      result = pos 1;
      taller = false;
      freed = [];
    })
unfolding insert_loop left_grown right_grown grow_leaf left_balance_when_insert
    right_balance_when_insert
insert_rotates = refl

avl_tree_init_lem_example :
    IsAvl (avl_tree_init true by_key) × (contents (avl_tree_init true by_key) ≡ [])
avl_tree_init_lem_example = avl_tree_init_lem true by_key by_key-IsComparison

avl_tree_insert_lem_example : Returns (avl_tree_insert sample (7, 70) true) (
    Does sample
      (inserted by_key true (7, 70) (contents sample))
      (answer_of by_key true (7, 70) (contents sample))
      [])
avl_tree_insert_lem_example = avl_tree_insert_lem true sample sample-IsAvl (7, 70)

avl_tree_replace_lem_example : Returns (avl_tree_replace sample (6, 66) true) (
    Does sample
      (replaced by_key true (6, 66) (contents sample))
      (answer_of by_key true (6, 66) (contents sample))
      (equals by_key (6, 66) (contents sample)))
avl_tree_replace_lem_example = avl_tree_replace_lem true sample sample-IsAvl (6, 66)

avl_tree_delete_lem_example : Returns (avl_tree_delete sample (5, 0)) (
    Does sample
      (without by_key (5, 0) (contents sample))
      (delete_result (equals by_key (5, 0) (contents sample)))
      (equals by_key (5, 0) (contents sample)))
avl_tree_delete_lem_example = avl_tree_delete_lem sample sample-IsAvl (5, 0)

avl_tree_find_lem_example :
    avl_tree_find sample (6, 0) ≡ first (equals by_key (6, 0) (contents sample))
avl_tree_find_lem_example = avl_tree_find_lem sample sample-IsAvl (6, 0)

avl_tree_find_ge_lem_example :
    avl_tree_find_ge sample (7, 0) ≡ first_ge by_key (7, 0) (contents sample)
avl_tree_find_ge_lem_example = avl_tree_find_ge_lem sample sample-IsAvl (7, 0)

avl_tree_depth_lem_example :
    (avl_tree_depth sample ≡ height sample.root)
    × (2 ^ (avl_tree_depth sample / 2) ≤ avl_tree_count sample + 1)
avl_tree_depth_lem_example = avl_tree_depth_lem sample sample-IsAvl

abbrev script : List (Call (ℕ × ℕ))
script =
    Call.insert (7, 70) true
    ∷ Call.insert (9, 90) false
    ∷ Call.replace (6, 66) true
    ∷ Call.delete (5, 0)
    ∷ Call.find (6, 0)
    ∷ Call.count
    ∷ []

calls_refine_example : calls script sample ≡ some (calls_list true by_key script (contents sample))
calls_refine_example = calls_refine script sample sample-IsAvl

find-update_ne_example :
    Returns
      (avl_tree_insert sample (5, 0) true)
      (λ r. avl_tree_find r.tree (6, 0) ≡ avl_tree_find sample (6, 0))
    × Returns
        (avl_tree_delete sample (5, 0))
        (λ r. avl_tree_find r.tree (6, 0) ≡ avl_tree_find sample (6, 0))
find-update_ne_example = find-update_ne sample sample-IsAvl (5, 0) (6, 0) (ground arith)

-- Adds the values up, and stops at the first key above 6.
abbrev add_up : ℕ × ℕ → ℕ → ℤ × ℕ
add_up a total = elim (compare a.0 7) [ Ordering.lt ↦ (pos 0, total + a.1) | _ ↦ (pos 1, total) ]

avl_tree_walk_lem_example : avl_tree_walk sample add_up 0 ≡ walk_list add_up (contents sample) 0
avl_tree_walk_lem_example = avl_tree_walk_lem sample add_up 0

avl_tree_destroy_lem_example :
    (contents (avl_tree_destroy sample).0 ≡ []) × Perm (avl_tree_destroy sample).1 (contents sample)
avl_tree_destroy_lem_example = avl_tree_destroy_lem sample
