-- ===== src/Avl/Contents/Rebalance.antt =====
-- The rebalancing functions keep the data in order, for every tree.
use c_workspace.Common.{◌≡◌, refl, zero, suc, pos, negsuc, Bool, append_assoc, Ensures}
use c_workspace.Avl.Node.{Node, null, node}
use c_workspace.Avl.Rebalance.{
  left_balance_when_insert, right_balance_when_insert, left_balance_when_delete,
  right_balance_when_delete,
}
use c_workspace.Avl.Order.{elements}

module _ {ℓ} {A : Type ℓ} where
  pub elements-left_balance_when_insert :
      (t : Node A) (k : Bool)
      → Ensures (left_balance_when_insert t k) (λ o. elements o.0 ≡ elements t)
  unfolding left_balance_when_insert
  elements-left_balance_when_insert null k = tt
  elements-left_balance_when_insert (node d null r b) k = tt
  elements-left_balance_when_insert (node d (node c ll lr (pos zero)) r b) k = refl
  elements-left_balance_when_insert (node d (node c ll lr (pos (suc (suc n)))) r b) k = refl
  elements-left_balance_when_insert (node d (node c ll lr (negsuc (suc n))) r b) k = refl
  elements-left_balance_when_insert (node d (node c ll lr (negsuc zero)) r b) k = simp append_assoc
  elements-left_balance_when_insert (node d (node c ll null (pos (suc zero))) r b) k = tt
  elements-left_balance_when_insert (node d (node c ll (node g gl gr gb) (pos (suc zero))) r b) k =
      simp append_assoc

  pub elements-right_balance_when_insert :
      (t : Node A) (k : Bool)
      → Ensures (right_balance_when_insert t k) (λ o. elements o.0 ≡ elements t)
  unfolding right_balance_when_insert
  elements-right_balance_when_insert null k = tt
  elements-right_balance_when_insert (node d l null b) k = tt
  elements-right_balance_when_insert (node d l (node c ll lr (pos zero)) b) k = refl
  elements-right_balance_when_insert (node d l (node c ll lr (pos (suc (suc n)))) b) k = refl
  elements-right_balance_when_insert (node d l (node c ll lr (negsuc (suc n))) b) k = refl
  elements-right_balance_when_insert (node d l (node c ll lr (pos (suc zero))) b) k =
      simp append_assoc
  elements-right_balance_when_insert (node d l (node c null lr (negsuc zero)) b) k = tt
  elements-right_balance_when_insert (node d l (node c (node g gl gr gb) lr (negsuc zero)) b) k =
      simp append_assoc

  pub elements-left_balance_when_delete :
      (t : Node A) (k : Bool)
      → Ensures (left_balance_when_delete t k) (λ o. elements o.0 ≡ elements t)
  unfolding left_balance_when_delete
  elements-left_balance_when_delete null k = tt
  elements-left_balance_when_delete (node d null r b) k = tt
  elements-left_balance_when_delete (node d (node c ll lr (pos zero)) r b) k = simp append_assoc
  elements-left_balance_when_delete (node d (node c ll lr (pos (suc (suc n)))) r b) k = refl
  elements-left_balance_when_delete (node d (node c ll lr (negsuc (suc n))) r b) k = refl
  elements-left_balance_when_delete (node d (node c ll lr (negsuc zero)) r b) k = simp append_assoc
  elements-left_balance_when_delete (node d (node c ll null (pos (suc zero))) r b) k = tt
  elements-left_balance_when_delete (node d (node c ll (node g gl gr gb) (pos (suc zero))) r b) k =
      simp append_assoc

  pub elements-right_balance_when_delete :
      (t : Node A) (k : Bool)
      → Ensures (right_balance_when_delete t k) (λ o. elements o.0 ≡ elements t)
  unfolding right_balance_when_delete
  elements-right_balance_when_delete null k = tt
  elements-right_balance_when_delete (node d l null b) k = tt
  elements-right_balance_when_delete (node d l (node c ll lr (pos zero)) b) k = simp append_assoc
  elements-right_balance_when_delete (node d l (node c ll lr (pos (suc (suc n)))) b) k = refl
  elements-right_balance_when_delete (node d l (node c ll lr (negsuc (suc n))) b) k = refl
  elements-right_balance_when_delete (node d l (node c ll lr (pos (suc zero))) b) k =
      simp append_assoc
  elements-right_balance_when_delete (node d l (node c null lr (negsuc zero)) b) k = tt
  elements-right_balance_when_delete (node d l (node c (node g gl gr gb) lr (negsuc zero)) b) k =
      simp append_assoc
