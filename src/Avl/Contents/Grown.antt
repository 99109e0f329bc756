-- ===== src/Avl/Contents/Grown.antt =====
-- What the ends of the two branches of an insertion do to the data.
use c_workspace.Common.{
  zero, suc, ◌≡◌, refl, ap, ◌∙◌, ℤ, pos, negsuc, Bool, true, false, Option, ◌>>=◌, List, ◌∷◌, ◌++◌,
  Ensures, Ensures-bind, Ensures-imp,
}
use c_workspace.Avl.Node.{Node, node}
use c_workspace.Avl.Insert.{Grown, left_grown, right_grown}
use c_workspace.Avl.Order.{elements}
use c_workspace.Avl.Contents.Rebalance.{
  elements-left_balance_when_insert, elements-right_balance_when_insert,
}

-- `o` with the data `xs`, and all else as it was.
abbrev pub Keeps {ℓ} : {A : Type ℓ} → Grown A → List A → Grown A → Type ℓ
Keeps o xs o' = (elements o'.root ≡ xs) × (o'.result ≡ o.result) × (o'.freed ≡ o.freed)

abbrev out {ℓ} : {A : Type ℓ} → ℤ → List A → Node A → Bool → Grown A
out res fr t k = record { root = t; result = res; taller = k; freed = fr }

module _ {ℓ} {A : Type ℓ} (d : A) (r : Node A) (res : ℤ) (fr : List A) where
  left_grown-Keeps :
      (t : Node A) (k : Bool) (b : ℤ)
      → Ensures
          (left_grown d (out res fr t k) r b)
          (Keeps (out res fr t k) (elements t ++ (d ∷ elements r)))
  unfolding left_grown
  left_grown-Keeps t false b = (refl, refl, refl)
  left_grown-Keeps t true (negsuc zero) =
      Ensures-bind (λ o. elements o.0 ≡ elements t ++ (d ∷ elements r))
        (Keeps (out res fr t true) (elements t ++ (d ∷ elements r))) _ _
        (elements-left_balance_when_insert (node d t r (negsuc 0)) true) (λ o h. (h, refl, refl))
  left_grown-Keeps t true (negsuc (suc n)) = (refl, refl, refl)
  left_grown-Keeps t true (pos zero) = (refl, refl, refl)
  left_grown-Keeps t true (pos (suc zero)) = (refl, refl, refl)
  left_grown-Keeps t true (pos (suc (suc n))) = (refl, refl, refl)

  right_grown-Keeps :
      (t : Node A) (k : Bool) (b : ℤ)
      → Ensures
          (right_grown d r (out res fr t k) b)
          (Keeps (out res fr t k) (elements r ++ (d ∷ elements t)))
  unfolding right_grown
  right_grown-Keeps t false b = (refl, refl, refl)
  right_grown-Keeps t true (pos (suc zero)) =
      Ensures-bind (λ o. elements o.0 ≡ elements r ++ (d ∷ elements t))
        (Keeps (out res fr t true) (elements r ++ (d ∷ elements t))) _ _
        (elements-right_balance_when_insert (node d r t (pos 1)) true) (λ o h. (h, refl, refl))
  right_grown-Keeps t true (negsuc (suc n)) = (refl, refl, refl)
  right_grown-Keeps t true (pos zero) = (refl, refl, refl)
  right_grown-Keeps t true (negsuc zero) = (refl, refl, refl)
  right_grown-Keeps t true (pos (suc (suc n))) = (refl, refl, refl)

-- A call that leaves the data `xs`, returns `n` and frees `fr`.
pub record Leaves {ℓ} {A : Type ℓ} (xs : List A) (n : ℤ) (fr : List A) (o : Grown A) : Type ℓ where
  pub contents : elements o.root ≡ xs
  pub answer : o.result ≡ n
  pub released : o.freed ≡ fr

module _ {ℓ} {A : Type ℓ} (xs : List A) (n : ℤ) (fr : List A) (m : Option (Grown A))
    (h : Ensures m (Leaves xs n fr)) (d : A) (t : Node A) (b : ℤ) where
  pub left_step : Ensures (m >>= λ o. left_grown d o t b) (Leaves (xs ++ (d ∷ elements t)) n fr)
  left_step = Ensures-bind (Leaves xs n fr) (Leaves (xs ++ (d ∷ elements t)) n fr) m _ h (λ o l.
      Ensures-imp (Keeps o (elements o.root ++ (d ∷ elements t))) _ (left_grown d o t b)
        (left_grown-Keeps d t o.result o.freed o.root o.taller b)
        (λ o' k. record {
          contents = k.0 ∙ ap (λ l. l ++ (d ∷ elements t)) l.contents;
          answer = k.1 ∙ l.answer;
          released = k.2 ∙ l.released;
        }))

  pub right_step : Ensures (m >>= λ o. right_grown d t o b) (Leaves (elements t ++ (d ∷ xs)) n fr)
  right_step = Ensures-bind (Leaves xs n fr) (Leaves (elements t ++ (d ∷ xs)) n fr) m _ h (λ o l.
      Ensures-imp (Keeps o (elements t ++ (d ∷ elements o.root))) _ (right_grown d t o b)
        (right_grown-Keeps d t o.result o.freed o.root o.taller b)
        (λ o' k. record {
          contents = k.0 ∙ ap (λ l. elements t ++ (d ∷ l)) l.contents;
          answer = k.1 ∙ l.answer;
          released = k.2 ∙ l.released;
        }))
