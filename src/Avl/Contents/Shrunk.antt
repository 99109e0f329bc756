-- ===== src/Avl/Contents/Shrunk.antt =====
-- What the ends of the two branches of a deletion do to the data.
use c_workspace.Common.{
  zero, suc, ◌≡◌, refl, ap, ◌∙◌, ℤ, pos, negsuc, Bool, true, false, Option, some, ◌>>=◌, List, ◌∷◌,
  ◌++◌, [], Ensures, Ensures-bind, Ensures-imp,
}
use c_workspace.Avl.Node.{Node, node}
use c_workspace.Avl.Delete.{Shrunk, left_shrunk, right_shrunk}
use c_workspace.Avl.Order.{elements}
use c_workspace.Avl.Contents.Rebalance.{
  elements-left_balance_when_delete, elements-right_balance_when_delete,
}

-- `o` with the data `xs`, and all else as it was.
abbrev pub Keeps {ℓ} : {A : Type ℓ} → Shrunk A → List A → Shrunk A → Type ℓ
Keeps o xs o' =
    (elements o'.root ≡ xs) × (o'.result ≡ o.result) × (o'.freed ≡ o.freed) × (o'.moved ≡ o.moved)

abbrev out {ℓ} : {A : Type ℓ} → ℤ → List A → Option A → Node A → Bool → Shrunk A
out res fr mv t k = record { root = t; result = res; shorter = k; freed = fr; moved = mv }

module _ {ℓ} {A : Type ℓ} (d : A) (r : Node A) (res : ℤ) (fr : List A) (mv : Option A) where
  left-Keeps :
      (t : Node A) (k : Bool) (b : ℤ)
      → Ensures
          (left_shrunk d (out res fr mv t k) r b)
          (Keeps (out res fr mv t k) (elements t ++ (d ∷ elements r)))
  unfolding left_shrunk
  left-Keeps t false b = (refl, refl, refl, refl)
  left-Keeps t true (pos (suc zero)) =
      Ensures-bind (λ o. elements o.0 ≡ elements t ++ (d ∷ elements r))
        (Keeps (out res fr mv t true) (elements t ++ (d ∷ elements r))) _ _
        (elements-right_balance_when_delete (node d t r (pos 1)) true)
        (λ o h. (h, refl, refl, refl))
  left-Keeps t true (negsuc zero) = (refl, refl, refl, refl)
  left-Keeps t true (negsuc (suc n)) = (refl, refl, refl, refl)
  left-Keeps t true (pos zero) = (refl, refl, refl, refl)
  left-Keeps t true (pos (suc (suc n))) = (refl, refl, refl, refl)

  right-Keeps :
      (t : Node A) (k : Bool) (b : ℤ)
      → Ensures
          (right_shrunk d r (out res fr mv t k) b)
          (Keeps (out res fr mv t k) (elements r ++ (d ∷ elements t)))
  unfolding right_shrunk
  right-Keeps t false b = (refl, refl, refl, refl)
  right-Keeps t true (negsuc zero) =
      Ensures-bind (λ o. elements o.0 ≡ elements r ++ (d ∷ elements t))
        (Keeps (out res fr mv t true) (elements r ++ (d ∷ elements t))) _ _
        (elements-left_balance_when_delete (node d r t (negsuc 0)) true)
        (λ o h. (h, refl, refl, refl))
  right-Keeps t true (pos (suc zero)) = (refl, refl, refl, refl)
  right-Keeps t true (negsuc (suc n)) = (refl, refl, refl, refl)
  right-Keeps t true (pos zero) = (refl, refl, refl, refl)
  right-Keeps t true (pos (suc (suc n))) = (refl, refl, refl, refl)

module _ {ℓ} {A : Type ℓ} (d : A) (o : Shrunk A) (t : Node A) (b : ℤ) where
  pub left_shrunk-Keeps :
      Ensures (left_shrunk d o t b) (Keeps o (elements o.root ++ (d ∷ elements t)))
  left_shrunk-Keeps = left-Keeps d t o.result o.freed o.moved o.root o.shorter b

  pub right_shrunk-Keeps :
      Ensures (right_shrunk d t o b) (Keeps o (elements t ++ (d ∷ elements o.root)))
  right_shrunk-Keeps = right-Keeps d t o.result o.freed o.moved o.root o.shorter b

-- A call that leaves the data `xs`, returns `n` and frees `fr`.
pub record Leaves {ℓ} {A : Type ℓ} (xs : List A) (n : ℤ) (fr : List A) (o : Shrunk A) : Type ℓ where
  pub contents : elements o.root ≡ xs
  pub answer : o.result ≡ n
  pub released : o.freed ≡ fr

module _ {ℓ} {A : Type ℓ} (xs : List A) (n : ℤ) (fr : List A) (m : Option (Shrunk A))
    (h : Ensures m (Leaves xs n fr)) (d : A) (t : Node A) (b : ℤ) where
  pub left_step : Ensures (m >>= λ o. left_shrunk d o t b) (Leaves (xs ++ (d ∷ elements t)) n fr)
  left_step = Ensures-bind (Leaves xs n fr) (Leaves (xs ++ (d ∷ elements t)) n fr) m _ h (λ o l.
      Ensures-imp (Keeps o (elements o.root ++ (d ∷ elements t))) _ (left_shrunk d o t b)
        (left_shrunk-Keeps d o t b)
        (λ o' k. record {
          contents = k.0 ∙ ap (λ l. l ++ (d ∷ elements t)) l.contents;
          answer = k.1 ∙ l.answer;
          released = k.2 ∙ l.released;
        }))

  pub right_step : Ensures (m >>= λ o. right_shrunk d t o b) (Leaves (elements t ++ (d ∷ xs)) n fr)
  right_step = Ensures-bind (Leaves xs n fr) (Leaves (elements t ++ (d ∷ xs)) n fr) m _ h (λ o l.
      Ensures-imp (Keeps o (elements t ++ (d ∷ elements o.root))) _ (right_shrunk d t o b)
        (right_shrunk-Keeps d o t b)
        (λ o' k. record {
          contents = k.0 ∙ ap (λ l. elements t ++ (d ∷ l)) l.contents;
          answer = k.1 ∙ l.answer;
          released = k.2 ∙ l.released;
        }))

-- A call that takes the last datum out of `xs` and stores it through `pDeletedDataNode`.
pub record TakesLast {ℓ} {A : Type ℓ} (xs : List A) (o : Shrunk A) : Type ℓ where
  pub last : A
  pub stored : o.moved ≡ some last
  pub split : elements o.root ++ (last ∷ []) ≡ xs
  pub released : o.freed ≡ []
