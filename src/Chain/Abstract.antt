-- ===== src/Chain/Abstract.antt =====
-- What the calls of c/libs/fastcommon/src/chain.c do, as a user sees it: a list of data.
use c_workspace.Common.{
  ℕ, ◌==◌, ◌≡◌, ℤ, pos, negsuc, Bool, if◌then◌else◌, Option, none, some, List, [], ◌∷◌, ◌++◌,
  length,
}
use c_workspace.Chain.{einval, enomem, chain_type_insert, chain_type_append, chain_type_sorted}
use c_workspace.Chain.Sorted.{insert_asc}
use c_workspace.Chain.Removes.{remove}

pub record Model (A : Type 0) : Type 0 where
  pub kind : ℕ
  pub compare_func : Option (A → A → ℤ)
  pub frees : Bool
  pub items : List A
  pub freed : List A

pub data Call (A : Type 0) : Type 0 where
  add : A → Call A
  pop_head : Call A
  remove_equal : Bool → A → Call A
  count : Call A
  destroy : Call A

pub data Outcome (A : Type 0) : Type 0 where
  code : ℕ → Outcome A
  datum : Option A → Outcome A
  number : ℤ → Outcome A

module _ {A : Type 0} where
  -- Whether there was memory for a node.
  abbrev pub with_memory : Bool → Model A → List A → ℕ × Model A
  with_memory given m ys = if given then (0, record m { items = ys }) else (enomem, m)

  abbrev pub added : Bool → A → Model A → ℕ × Model A
  added given x m =
      if m.kind == chain_type_insert
      then with_memory given m (x ∷ m.items)
      else if m.kind == chain_type_append
      then with_memory given m (m.items ++ (x ∷ []))
      else elim m.compare_func [
        | none ↦ (einval, m)
        | some compare_func ↦ with_memory given m (insert_asc compare_func x m.items)
      ]

  abbrev pub popped : Model A → Option A × Model A
  popped m = elim m.items [ [] ↦ (none, m) | x ∷ xs ↦ (some x, record m { items = xs }) ]

  abbrev pub released : Model A → List A → List A → Model A
  released m kept gone = record m {
    items = kept;
    freed = if m.frees then m.freed ++ gone else m.freed;
  }

  abbrev pub removed : Bool → A → Model A → ℤ × Model A
  removed every x m = elim m.compare_func [
    | none ↦ (negsuc 21, m)
    | some compare_func ↦
        let (kept, gone) = remove (m.kind == chain_type_sorted) every compare_func x m.items in
        (pos (length gone), released m kept gone)
  ]

  abbrev pub expected : Bool → Call A → Model A → Outcome A × Model A
  expected given (add x) m = let (c, m') = added given x m in (code c, m')
  expected given pop_head m = let (x, m') = popped m in (datum x, m')
  expected given (remove_equal every x) m = let (n, m') = removed every x m in (number n, m')
  expected given count m = (number (pos (length m.items)), m)
  expected given destroy m = (code 0, released m [] m.items)

  -- The outcomes of a sequence of calls, for whether there was memory at each of them, and the data that
  -- are freed then.
  abbrev pub Expected : Model A → List (Call A) → List (Bool × Outcome A) → List A → Type 0
  Expected m [] outcomes freed = (outcomes ≡ []) × (freed ≡ m.freed)
  Expected m (c ∷ cs) [] freed = ⊥
  Expected m (c ∷ cs) ((memory, o) ∷ os) freed =
      (o ≡ (expected memory c m).0) × Expected (expected memory c m).1 cs os freed
