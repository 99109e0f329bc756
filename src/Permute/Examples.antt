-- ===== src/Permute/Examples.antt =====
-- Runs of c/libs/heap-permutation.h.
use c_workspace.Common.{ℕ, ◌≡◌, refl, some, List, [], ◌∷◌, ◌++◌, arith, Returns}
use c_workspace.Permute.{heap_permute}
use c_workspace.Permute.Laws.{Permutes, heap_permute-Permutes}

abbrev three : List ℕ
three = 1 ∷ 2 ∷ 3 ∷ []

-- The example at the top of the file.
six_orders :
    heap_permute 3 three
    ≡ some (
      three,
      three
          ∷ (2 ∷ 1 ∷ 3 ∷ [])
          ∷ (3 ∷ 1 ∷ 2 ∷ [])
          ∷ (1 ∷ 3 ∷ 2 ∷ [])
          ∷ (2 ∷ 3 ∷ 1 ∷ [])
          ∷ (3 ∷ 2 ∷ 1 ∷ [])
          ∷ [],
    )
unfolding heap_permute
six_orders = refl

heap_permute-Permutes_example :
    Returns (heap_permute 3 (three ++ (4 ∷ []))) (Permutes three (4 ∷ []))
    × (heap_permute 256 (three ++ (4 ∷ [])) ≡ some (three ++ (4 ∷ []), []))
heap_permute-Permutes_example = heap_permute-Permutes three (4 ∷ []) (omega arith) (omega arith)
