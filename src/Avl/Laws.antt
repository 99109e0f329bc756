-- ===== src/Avl/Laws.antt =====
-- What the functions of avl_tree.h promise, on a tree that is balanced and sorted.
mod Read
mod Client
mod Lookup
mod Examples
use c_workspace.Common.{
  ℕ, ◌+◌, ◌≤◌, ◌/◌, ◌^◌, ◌≡◌, refl, ◌∙◌, ℤ, pos, sign, Bool, true, false, Bool-cases, if◌then◌else◌,
  inl, inr, Option, none, some, ◌>>=◌, List, [], ◌∷◌, arith, length, Returns, Ensures, Ensures-eq,
}
use c_workspace.Common.Sign.{negative, zero_sign, positive}
use c_workspace.Avl.Node.{Node, null, is_null}
use c_workspace.Avl.Insert.{insert_loop, replace_loop}
use c_workspace.Avl.Delete.{delete_loop}
use c_workspace.Avl.Query.{destroy_loop}
use c_workspace.Avl.Tree.{
  AvlTreeInfo, Reply, avl_tree_init, avl_tree_insert, avl_tree_replace, avl_tree_delete,
  avl_tree_find, avl_tree_find_ge, avl_tree_walk, avl_tree_count, avl_tree_depth, avl_tree_destroy,
}
use c_workspace.Avl.Shape.{height, IsBalanced}
use c_workspace.Avl.Shape.Insert.{insert_loop-Grows, replace_loop-Grows}
use c_workspace.Avl.Shape.Delete.{delete_loop-Shrinks}
use c_workspace.Avl.Shape.Depth.{depth_loop-height, height_bound}
use c_workspace.Avl.Order.{IsComparison, IsSorted, elements}
use c_workspace.Avl.Order.Lists.{insert_sorted, replace_sorted, equals, without, first_ge, first}
use c_workspace.Avl.Order.Sorted.{insert_sorted-IsSorted, replace_sorted-IsSorted, without-IsSorted}
use c_workspace.Avl.Contents.Insert.{inserted, answer_of, insert_loop-Leaves}
use c_workspace.Avl.Contents.Replace.{replaced, replace_loop-Leaves}
use c_workspace.Avl.Contents.Delete.{delete_result, delete_loop-Leaves}
use c_workspace.Avl.Contents.Query.{
  find_loop-equals, find_ge_loop-first_ge, walk_list, walk_loop-walk_list, count_loop-length,
  destroy_loop-Perm, destroy_loop-false,
}
use mathlib.Core.List.{Perm}
use mathlib.Core.List.Perm

pub record IsAvl {ℓ} {A : Type ℓ} (tree : AvlTreeInfo A) : Type ℓ where
  pub law : IsComparison tree.compare_func
  pub balanced : IsBalanced tree.root
  pub sorted : IsSorted tree.compare_func (elements tree.root)

-- The data of a tree, in order.
abbrev pub contents {ℓ} : {A : Type ℓ} → AvlTreeInfo A → List A
contents tree = elements tree.root

-- A call that leaves a good tree with the data `xs`, the free function and the comparison of `tree`,
-- returns `n`, and frees `fr`.
pub record Does {ℓ} {A : Type ℓ} (tree : AvlTreeInfo A) (xs : List A) (n : ℤ) (fr : List A)
    (r : Reply A) : Type ℓ where
  pub good : IsAvl r.tree
  pub same_compare : r.tree.compare_func ≡ tree.compare_func
  pub same_free : r.tree.free_data_func ≡ tree.free_data_func
  pub holds : contents r.tree ≡ xs
  pub returned : r.result ≡ n
  pub released : r.freed ≡ fr

module _ {ℓ} {A : Type ℓ} (malloc_ok : Bool) (tree : AvlTreeInfo A) (v : IsAvl tree) (x : A) where
  open tree use {compare_func, free_data_func}

  inserted-IsSorted :
      (xs : List A)
      → IsSorted compare_func xs
      → IsSorted compare_func (inserted compare_func malloc_ok x xs)
  inserted-IsSorted xs s = ground (arith, insert_sorted-IsSorted compare_func v.law x xs s)

  replaced-IsSorted :
      (xs : List A)
      → IsSorted compare_func xs
      → IsSorted compare_func (replaced compare_func malloc_ok x xs)
  replaced-IsSorted xs s = ground (arith, replace_sorted-IsSorted compare_func v.law x xs s)

  -- `avl_tree_insert` on a balanced and sorted tree returns, leaves such a tree with the datum at its
  -- place in the order, if none equal was there and `malloc` gave memory, and frees nothing. It returns
  -- 1 for a datum that is new, 0 for one that is not, and -ENOMEM without memory.
  pub avl_tree_insert_lem : Returns (avl_tree_insert tree x malloc_ok) (
      Does tree
        (inserted compare_func malloc_ok x (contents tree))
        (answer_of compare_func malloc_ok x (contents tree))
        [])
  unfolding avl_tree_insert
  avl_tree_insert_lem =
      let (o, e, g) = insert_loop-Grows compare_func malloc_ok x tree.root v.balanced in
      let l =
        Ensures-eq _ (insert_loop compare_func malloc_ok tree.root x false)
          (insert_loop-Leaves compare_func x v.law malloc_ok tree.root false v.sorted) e in
      (
        record { tree = record tree { root = o.root }; result = o.result; freed = o.freed },
        rw e refl,
        record {
          good = record {
            law = v.law;
            balanced = g.0;
            sorted = rw l.contents (inserted-IsSorted _ v.sorted);
          };
          same_compare = refl;
          same_free = refl;
          holds = l.contents;
          returned = l.answer;
          released = l.released;
        },
      )

  -- `avl_tree_replace` on a balanced and sorted tree returns and leaves such a tree. A datum equal to the
  -- given one is replaced and handed to the free function, if there is one; else the call inserts like
  -- `avl_tree_insert`, with the same results.
  pub avl_tree_replace_lem : Returns (avl_tree_replace tree x malloc_ok) (
      Does tree
        (replaced compare_func malloc_ok x (contents tree))
        (answer_of compare_func malloc_ok x (contents tree))
        (if free_data_func then equals compare_func x (contents tree) else []))
  unfolding avl_tree_replace
  avl_tree_replace_lem =
      let (o, e, g) =
        replace_loop-Grows compare_func malloc_ok x free_data_func tree.root v.balanced in
      let l =
        Ensures-eq _ (replace_loop compare_func free_data_func malloc_ok tree.root x false)
          (replace_loop-Leaves compare_func x v.law free_data_func malloc_ok tree.root false
            v.sorted)
          e in
      (
        record { tree = record tree { root = o.root }; result = o.result; freed = o.freed },
        rw e refl,
        record {
          good = record {
            law = v.law;
            balanced = g.0;
            sorted = rw l.contents (replaced-IsSorted _ v.sorted);
          };
          same_compare = refl;
          same_free = refl;
          holds = l.contents;
          returned = l.answer;
          released = l.released;
        },
      )

module _ {ℓ} {A : Type ℓ} (tree : AvlTreeInfo A) (v : IsAvl tree) (x : A) where
  open tree use {compare_func, free_data_func}

  empty_delete : is_null tree.root ≡ true → elements tree.root ≡ []
  empty_delete = null_lem tree.root
    where
      null_lem : (t : Node A) → is_null t ≡ true → elements t ≡ []
      null_lem null e = refl
      null_lem (Node.node d l r b) e = cc

  -- `avl_tree_delete` on a balanced and sorted tree returns, and leaves such a tree without the datum that
  -- is equal to the given one. It returns 1 if there was one, which goes to the free function, if there
  -- is one, and else 0. No other datum is freed.
  pub avl_tree_delete_lem : Returns (avl_tree_delete tree x) (
      Does tree
        (without compare_func x (contents tree))
        (delete_result (equals compare_func x (contents tree)))
        (if free_data_func then equals compare_func x (contents tree) else []))
  unfolding avl_tree_delete without equals
  avl_tree_delete_lem = elim (Bool-cases (is_null tree.root)) [
    | inl e ↦
        rw (e, avl_tree_delete)
          (
            _,
            refl,
            record {
              good = v;
              same_compare = refl;
              same_free = refl;
              holds = rw (empty_delete e) refl;
              returned = rw (empty_delete e) refl;
              released = rw (empty_delete e) (ground arith);
            },
          )
    | inr n ↦
        let (o, e, g) =
          delete_loop-Shrinks compare_func free_data_func x tree.root false v.balanced n in
        let l =
          Ensures-eq _ (delete_loop compare_func free_data_func tree.root x false false)
            (delete_loop-Leaves compare_func free_data_func x v.law tree.root false v.sorted) e in
        (
          record { tree = record tree { root = o.root }; result = o.result; freed = o.freed },
          rw (n, avl_tree_delete, e) refl,
          record {
            good = record {
              law = v.law;
              balanced = g.0;
              sorted = rw l.contents (without-IsSorted compare_func v.law x _ v.sorted);
            };
            same_compare = refl;
            same_free = refl;
            holds = l.contents;
            returned = l.answer;
            released = l.released;
          },
        )
  ]

module _ {ℓ} {A : Type ℓ} (tree : AvlTreeInfo A) where
  -- `avl_tree_destroy` leaves an empty tree, and hands each datum to the free function once, if there is
  -- one.
  pub avl_tree_destroy_lem :
      (contents (avl_tree_destroy tree).0 ≡ [])
      × Perm (avl_tree_destroy tree).1 (if tree.free_data_func then contents tree else [])
  unfolding avl_tree_destroy
  avl_tree_destroy_lem = (
    refl,
    (elim (Bool-cases tree.free_data_func) [
      | inl e ↦ rw (e, if◌then◌else◌) (destroy_loop-Perm tree.root)
      | inr e ↦ rw (e, destroy_loop-false tree.root, if◌then◌else◌) (Perm.refl [])
    ]),
  )

-- `avl_tree_init` with a comparison that is an order gives a balanced and sorted tree without data.
pub avl_tree_init_lem {ℓ} :
    {A : Type ℓ} (free_data_func : Bool) (compare_func : A → A → ℤ)
    → IsComparison compare_func
    → IsAvl (avl_tree_init free_data_func compare_func)
      × (contents (avl_tree_init free_data_func compare_func) ≡ [])
unfolding avl_tree_init
avl_tree_init_lem free_data_func compare_func law =
    (record { law = law; balanced = tt; sorted = tt }, refl)
