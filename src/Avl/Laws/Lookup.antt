-- ===== src/Avl/Laws/Lookup.antt =====
-- What a search finds after an insertion or a deletion.
use c_workspace.Common.{
  ◌≡◌, ◌≢◌, refl, ◌∙◌, ℤ, sign, Sign-cases, true, none, some, List, [], ◌∷◌, arith, Returns,
}
use c_workspace.Common.SignCase.{greater, less, equal}
use c_workspace.Common.Sign.{zero_sign}
use c_workspace.Avl.Tree.{AvlTreeInfo, avl_tree_insert, avl_tree_delete, avl_tree_find}
use c_workspace.Avl.Order.{IsComparison}
use c_workspace.Avl.Order.Lists.{insert_sorted, equals, without, first}
use c_workspace.Avl.Laws.{IsAvl, contents, avl_tree_insert_lem, avl_tree_delete_lem}
use c_workspace.Avl.Laws.Read.{avl_tree_find_lem}

module _ {ℓ} {A : Type ℓ} (compare_func : A → A → ℤ) (law : IsComparison compare_func) (x : A) where
  compare_self : sign (compare_func x x) ≡ zero_sign
  compare_self = elim (Sign-cases (sign (compare_func x x))) [
    | greater e ↦ ground (arith, law.turn x x)
    | less e ↦ ground (arith, law.turn x x)
    | equal e ↦ e
  ]

  equals-insert_self :
      (xs : List A)
      → (y : A) × (first (equals compare_func x (insert_sorted compare_func x xs)) ≡ some y)
        × (sign (compare_func y x) ≡ zero_sign)
  unfolding equals insert_sorted
  equals-insert_self [] = (x, rw (compare_self, equals) refl, compare_self)
  equals-insert_self (y ∷ ys) = elim (Sign-cases (sign (compare_func y x))) [
    | greater e ↦ (x, rw (e, insert_sorted, compare_self, equals) refl, compare_self)
    | less e ↦ let (z, f, h) = equals-insert_self ys in (z, rw (e, insert_sorted, e, equals) f, h)
    | equal e ↦ (y, rw (e, insert_sorted, e, equals) refl, e)
  ]

  equals-without_self : (xs : List A) → equals compare_func x (without compare_func x xs) ≡ []
  unfolding equals without
  equals-without_self [] = refl
  equals-without_self (y ∷ ys) = ground (arith, equals-without_self ys)

  module _ (z : A) (ne : sign (compare_func x z) ≢ zero_sign) where
    equals-insert_ne :
        (xs : List A)
        → equals compare_func z (insert_sorted compare_func x xs) ≡ equals compare_func z xs
    unfolding equals insert_sorted
    equals-insert_ne [] = ground arith
    equals-insert_ne (y ∷ ys) = ground (arith, equals-insert_ne ys)

    equal_trans :
        (y : A) → sign (compare_func y x) ≡ zero_sign → sign (compare_func y z) ≢ zero_sign
    equal_trans y e f = ground (
      arith,
      e,
      f,
      law.turn x z,
      law.turn y x,
      law.turn y z,
      law.lt_of_lt_of_le x z y,
      law.lt_of_lt_of_le z x y,
    )

    equals-without_ne :
        (xs : List A) → equals compare_func z (without compare_func x xs) ≡ equals compare_func z xs
    unfolding equals without
    equals-without_ne [] = refl
    equals-without_ne (y ∷ ys) = ground (arith, equals-without_ne ys, equal_trans y)

module _ {ℓ} {A : Type ℓ} (tree : AvlTreeInfo A) (v : IsAvl tree) (x : A) where
  open tree use {compare_func}

  -- After an insertion with memory, a datum equal to the inserted one is found.
  pub find-insert_self :
      Returns
        (avl_tree_insert tree x true)
        (λ r. (y : A) × (avl_tree_find r.tree x ≡ some y) × (sign (compare_func y x) ≡ zero_sign))
  find-insert_self =
      let (r, e, d) = avl_tree_insert_lem true tree v x in
      let (y, f, h) = equals-insert_self compare_func v.law x (contents tree) in
      (r, e, (y, avl_tree_find_lem r.tree d.good x ∙ rw (d.same_compare, d.holds) f, h))

  -- After a deletion nothing equal to the deleted datum is found.
  pub find-delete_self : Returns (avl_tree_delete tree x) (λ r. avl_tree_find r.tree x ≡ none)
  find-delete_self =
      let (r, e, d) = avl_tree_delete_lem tree v x in
      (
        r,
        e,
        avl_tree_find_lem r.tree d.good x
            ∙ rw (d.same_compare, d.holds, equals-without_self compare_func v.law x (contents tree))
                refl,
      )

  -- The insertion of a datum, with memory, and its deletion change nothing for a target that is not equal
  -- to it.
  pub find-update_ne :
      (z : A)
      → sign (compare_func x z) ≢ zero_sign
      → Returns (avl_tree_insert tree x true) (λ r. avl_tree_find r.tree z ≡ avl_tree_find tree z)
        × Returns (avl_tree_delete tree x) (λ r. avl_tree_find r.tree z ≡ avl_tree_find tree z)
  find-update_ne z ne =
      let (r, e, d) = avl_tree_insert_lem true tree v x in
      let (r', e', d') = avl_tree_delete_lem tree v x in
      (
        (
          r,
          e,
          avl_tree_find_lem r.tree d.good z
              ∙ rw
                  (
                    d.same_compare,
                    d.holds,
                    equals-insert_ne compare_func v.law x z ne (contents tree),
                    avl_tree_find_lem tree v z,
                  )
                  refl,
        ),
        (
          r',
          e',
          avl_tree_find_lem r'.tree d'.good z
              ∙ rw
                  (
                    d'.same_compare,
                    d'.holds,
                    equals-without_ne compare_func v.law x z ne (contents tree),
                    avl_tree_find_lem tree v z,
                  )
                  refl,
        ),
      )
