-- ===== src/Chain/Calls.antt =====
-- Calls of c/libs/fastcommon/src/chain.c, one after another.
use c_workspace.Common.{ℕ, suc, pos, Bool, true, false, Option, none, some, ◌>>=◌, List, [], ◌∷◌}
use c_workspace.Chain.{ChainNode, ChainList, add_node, chain_pop_head, chain_count, chain_destroy}
use c_workspace.Chain.Remove.{delete_node}
use c_workspace.Chain.Abstract.{Call, Outcome}

-- Whether malloc gives memory.
abbrev pub given : Option ℕ → Bool
given none = false
given (some new) = true

module _ {A : Type 0} where
  -- One call. `new` is what malloc gives.
  unfoldable pub call : ℕ → Option ℕ → ChainList A → Call A → Option (Outcome A × ChainList A)
  unfolding add_node chain_pop_head chain_count chain_destroy delete_node
  call fuel new l (Call.add x) = do (c, l') ← add_node fuel new l x; some (Outcome.code c, l')
  call fuel new l Call.pop_head = do (x, l') ← chain_pop_head l; some (Outcome.datum x, l')
  call fuel new l (Call.remove_equal every x) = do
    (n, l') ← delete_node fuel l x every
    some (Outcome.number n, l')
  call fuel new l Call.count = do n ← chain_count fuel l; some (Outcome.number (pos n), l)
  call fuel new l Call.destroy = do l' ← chain_destroy fuel l; some (Outcome.code 0, l')

  -- A sequence of calls from the `k`th on: `malloc k` is what malloc gives then, where these nodes are
  -- allocated. Each outcome comes with whether there was memory.
  unfoldable pub run :
      (ℕ → (ℕ → Option (ChainNode A)) → Option ℕ)
      → ℕ
      → ℕ
      → ChainList A
      → List (Call A)
      → Option (List (Bool × Outcome A) × ChainList A)
  unfolding call
  run malloc fuel k l [] = some ([], l)
  run malloc fuel k l (c ∷ cs) = do
    (o, l') ← call fuel (malloc k l.nodes) l c
    (os, l'') ← run malloc fuel (suc k) l' cs
    some ((given (malloc k l.nodes), o) ∷ os, l'')
