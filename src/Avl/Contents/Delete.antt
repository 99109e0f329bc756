-- ===== src/Avl/Contents/Delete.antt =====
-- A deletion acts on the data of a sorted tree as on a list, and frees what it takes out.
use c_workspace.Common.{
  ◌≡◌, refl, ap, ◌∙◌, sym, ℤ, pos, sign, Sign-cases, Bool, true, false, Bool-cases, if◌then◌else◌,
  Option, none, some, ◌>>=◌, List, [], ◌∷◌, ◌++◌, append_assoc, append-nil, arith, Ensures,
  Ensures-bind, Ensures-imp, inl, inr,
}
use c_workspace.Common.SignCase.{greater, less, equal}
use c_workspace.Avl.Node.{Node, null, node, is_null}
use c_workspace.Avl.Delete.{Shrunk, left_shrunk, right_shrunk, datum_after, delete_loop}
use c_workspace.Avl.Order.{IsComparison, IsSorted, elements}
use c_workspace.Avl.Order.Lists.{without, equals}
use c_workspace.Avl.Order.Cut.{
  IsSorted-cut, equals-cut_left, equals-cut_right, equals-cut_here, without-cut_left,
  without-cut_right, without-cut_here,
}
use c_workspace.Avl.Contents.Shrunk.{
  Keeps, Leaves, TakesLast, left_step, right_step, left_shrunk-Keeps, right_shrunk-Keeps,
}

null_elements {ℓ} : {A : Type ℓ} (t : Node A) → is_null t ≡ true → elements t ≡ []
null_elements null e = refl
null_elements (node d l r b) e = cc

-- The number that a deletion returns, from what the tree holds of the datum.
abbrev pub delete_result {ℓ} : {A : Type ℓ} → List A → ℤ
delete_result [] = pos 0
delete_result (y ∷ ys) = pos 1

datum_after-moved {ℓ} :
    {A : Type ℓ} (d : A) (o : Shrunk A) {y : A} → o.moved ≡ some y → datum_after d o ≡ y
unfolding datum_after
datum_after-moved d o e = rw (e, datum_after) refl

module _ {ℓ} {A : Type ℓ} (compare_func : A → A → ℤ) (frees : Bool) (x : A) where
  take_last :
      (t : Node A) (k : Bool)
      → Ensures (delete_loop compare_func frees t x k true) (TakesLast (elements t))
  unfolding delete_loop
  take_last null k = tt
  take_last (node d l r b) k = elim (Bool-cases (is_null r)) [
    | inl e ↦
        rw (e, delete_loop)
          (record { last = d; stored = refl; split = rw (null_elements r e); released = refl })
    | inr e ↦
        rw (e, delete_loop)
          (Ensures-bind (TakesLast (elements r)) (TakesLast (elements (node d l r b))) _ _
            (take_last r k)
            (λ o h.
              Ensures-imp (Keeps o (elements l ++ (d ∷ elements o.root))) _ (right_shrunk d l o b)
                (right_shrunk-Keeps d o l b)
                (λ o' k. record {
                  last = h.last;
                  stored = k.3 ∙ h.stored;
                  released = k.2 ∙ h.released;
                  split =
                      ap (λ l. l ++ (h.last ∷ [])) k.0
                      ∙ append_assoc (elements l) (d ∷ elements o.root) (h.last ∷ [])
                      ∙ ap (λ xs. elements l ++ (d ∷ xs)) h.split;
                })))
  ]

  -- The datum of a node with two children is replaced by the greatest of its left side.
  both_step :
      (fr : List A) (d : A) (l r : Node A) (b : ℤ) (m : Option (Shrunk A))
      → Ensures m (TakesLast (elements l))
      → Ensures
          (m >>= λ o. left_shrunk (datum_after d o) o r b >>= λ o'.
            some (record o' { result = pos 1; freed = fr ++ o.freed; moved = none }))
          (Leaves (elements l ++ elements r) (pos 1) fr)
  both_step fr d l r b m h =
      Ensures-bind (TakesLast (elements l)) (Leaves (elements l ++ elements r) (pos 1) fr) m _ h
        (λ o g.
          Ensures-bind (Keeps o (elements o.root ++ (datum_after d o ∷ elements r)))
            (Leaves (elements l ++ elements r) (pos 1) fr) (left_shrunk (datum_after d o) o r b) _
            (left_shrunk-Keeps (datum_after d o) o r b)
            (λ o' k. record {
              contents =
                  k.0
                  ∙ ap (λ y. elements o.root ++ (y ∷ elements r)) (datum_after-moved d o g.stored)
                  ∙ sym (append_assoc (elements o.root) (g.last ∷ []) (elements r))
                  ∙ ap (λ xs. xs ++ elements r) g.split;
              answer = refl;
              released = rw g.released (append-nil fr);
            }))

  module _ (law : IsComparison compare_func) where
    pub delete_loop-Leaves :
        (t : Node A) (k : Bool)
        → IsSorted compare_func (elements t)
        → Ensures (delete_loop compare_func frees t x k false) (
            Leaves
              (without compare_func x (elements t))
              (delete_result (equals compare_func x (elements t)))
              (if frees then equals compare_func x (elements t) else []))
    unfolding delete_loop without equals
    delete_loop-Leaves null k s = tt
    delete_loop-Leaves (node d l r b) k s =
        let (sl, _, _, sr) = IsSorted-cut compare_func (elements l) d (elements r) s in
        elim (Sign-cases (sign (compare_func d x))) [
          | greater e ↦
              rw
                (
                  without-cut_left compare_func law _ _ _ s x e,
                  equals-cut_left compare_func law _ _ _ s x e,
                )
                (elim (Bool-cases (is_null l)) [
                  | inl e' ↦
                      rw (e, e', delete_loop)
                        (rw (null_elements l e') (record {
                          contents = rw (null_elements l e') refl;
                          answer = refl;
                          released = ground arith;
                        }))
                  | inr e' ↦
                      rw (e, e', delete_loop) (left_step _ _ _ _ (delete_loop-Leaves l k sl) d r b)
                ])
          | less e ↦
              rw
                (
                  without-cut_right compare_func law _ _ _ s x e,
                  equals-cut_right compare_func law _ _ _ s x e,
                )
                (elim (Bool-cases (is_null r)) [
                  | inl e' ↦
                      rw (e, e', delete_loop)
                        (rw (null_elements r e') (record {
                          contents = rw (null_elements r e') refl;
                          answer = refl;
                          released = ground arith;
                        }))
                  | inr e' ↦
                      rw (e, e', delete_loop) (right_step _ _ _ _ (delete_loop-Leaves r k sr) d l b)
                ])
          | equal e ↦
              rw
                (
                  without-cut_here compare_func law _ _ _ s x e,
                  equals-cut_here compare_func law _ _ _ s x e,
                )
                (elim (Bool-cases (is_null l)) [
                  | inl e' ↦
                      rw (e, e', delete_loop)
                        (record {
                          contents = rw (null_elements l e') refl;
                          answer = refl;
                          released = refl;
                        })
                  | inr e' ↦ elim (Bool-cases (is_null r)) [
                    | inl e'' ↦
                        rw (e, e', e'', delete_loop)
                          (record {
                            contents = rw (null_elements r e'', append-nil) refl;
                            answer = refl;
                            released = refl;
                          })
                    | inr e'' ↦ rw (e, e', e'', delete_loop) (both_step _ d l r b _ (take_last l k))
                  ]
                ])
        ]
