-- ===== src/Chain/Examples.antt =====
-- Runs of c/libs/fastcommon/src/chain.c.
use c_workspace.Common.{
  ℕ, zero, suc, Bool, false, ◌≡◌, refl, subst, ltb, true, if◌then◌else◌, ℤ, pos, negsuc, Option,
  some, none, List, [], ◌∷◌, arith, Returns,
}
use c_workspace.Chain.{ChainNode, ChainList, chain_init, chain_type_sorted}
use c_workspace.Chain.Abstract.{Call, Outcome, Expected}
use c_workspace.Chain.Calls.{run}
use c_workspace.Chain.Refines.{chain-Refines}

-- Memory for two nodes, at 7 and at 8.
abbrev two_places : (ℕ → Option (ChainNode ℕ)) → Option ℕ
two_places nodes = elim (nodes 7) [
  | none ↦ some 7
  | some c ↦ elim (nodes 8) [ none ↦ some 8 | some c ↦ none ]
]

by_places :
    (nodes : ℕ → Option (ChainNode ℕ)) (a : ℕ) (p q : Option (ChainNode ℕ))
    → nodes 7 ≡ p
    → nodes 8 ≡ q
    → (elim p as (λ y. Option ℕ) [
      | none ↦ some 7
      | some c ↦ elim q as (λ y. Option ℕ) [ none ↦ some 8 | some c ↦ none ]
    ])
      ≡ some a
    → nodes a ≡ none
by_places nodes a none q e f g =
    let same_place : 7 ≡ a = ground (arith, g) in subst (λ b. nodes b ≡ none) same_place e
by_places nodes a (some c) none e f g =
    let same_place : 8 ≡ a = ground (arith, g) in subst (λ b. nodes b ≡ none) same_place f
by_places nodes a (some c) (some d) e f g = absurd (ground (arith, g))

two_places_free :
    (nodes : ℕ → Option (ChainNode ℕ)) (a : ℕ) → two_places nodes ≡ some a → nodes a ≡ none
two_places_free nodes a e = by_places nodes a (nodes 7) (nodes 8) refl refl e

-- There is none at the first call.
abbrev late : ℕ → (ℕ → Option (ChainNode ℕ)) → Option ℕ
late zero nodes = none
late (suc k) nodes = two_places nodes

late_free :
    (k : ℕ) (nodes : ℕ → Option (ChainNode ℕ)) (a : ℕ) → late k nodes ≡ some a → nodes a ≡ none
late_free zero nodes a e = absurd (ground arith)
late_free (suc k) nodes a e = two_places_free nodes a e

abbrev compare_numbers : ℕ → ℕ → ℤ
compare_numbers x y = if ltb x y then negsuc 0 else if ltb y x then pos 1 else pos 0

abbrev calls : List (Call ℕ)
calls =
    Call.add 40
    ∷ Call.add 50
    ∷ Call.add 30
    ∷ Call.add 90
    ∷ Call.count
    ∷ Call.pop_head
    ∷ Call.add 50
    ∷ Call.remove_equal true 50
    ∷ Call.pop_head
    ∷ Call.destroy
    ∷ []

abbrev sorted_list : ChainList ℕ
unfolding chain_init
sorted_list = chain_init chain_type_sorted true (some compare_numbers) (λ b. none)

abbrev outcomes : List (Bool × Outcome ℕ)
outcomes =
    (false, Outcome.code 12)
    ∷ (true, Outcome.code 0)
    ∷ (true, Outcome.code 0)
    ∷ (false, Outcome.code 12)
    ∷ (false, Outcome.number (pos 2))
    ∷ (false, Outcome.datum (some 30))
    ∷ (true, Outcome.code 0)
    ∷ (false, Outcome.number (pos 2))
    ∷ (true, Outcome.datum none)
    ∷ (true, Outcome.code 0)
    ∷ []

outcomes_lem :
    Returns (run late 11 0 sorted_list calls) (λ o. (o.0 ≡ outcomes) × (o.1.freed ≡ 50 ∷ 50 ∷ []))
unfolding run sorted_list
outcomes_lem = (_, refl, (refl, refl))

chain-Refines_example :
    Returns
      (run late 11 0 (chain_init chain_type_sorted true (some compare_numbers) (λ b. none)) calls)
      (λ o.
        Expected
          (record {
            kind = chain_type_sorted;
            compare_func = some compare_numbers;
            frees = true;
            items = [];
            freed = [];
          })
          calls
          o.0
          o.1.freed)
chain-Refines_example =
    chain-Refines late late_free chain_type_sorted true (some compare_numbers) (λ b. none) 11 calls
      (omega arith)
