-- ===== src/Utils/Dispatcher/Table.antt =====
-- Items by name, in any order.
use mathlib.Core.List.{Permᴰ}
use c_workspace.Common.{
  ◌≡◌, refl, sym, subst, ap, ◌∙◌, inl, inr, Bool, true, false, Bool-cases, if◌then◌else◌, Option,
  none, some, List, [], ◌∷◌, arith,
}
use c_workspace.Utils.Text.{Text, same}
use c_workspace.Utils.Text.Search.{same_iff}
use c_workspace.Utils.Dispatcher.{find, assign, erase}

pub same_refl : (s : Text) → same s s ≡ true
same_refl s = (same_iff s s).1 refl

module _ {ℓ} {V : Type ℓ} where
  -- No name stands twice.
  abbrev pub IsDistinct : List (Text × V) → Type ℓ
  IsDistinct [] = Unit
  IsDistinct ((key, v) ∷ items) = (find key items ≡ none) × IsDistinct items

  pub find-assign :
      (name other : Text) (v : V) (items : List (Text × V)) (w : V)
      → find name items ≡ some w
      → find other (assign name v items) ≡ (if same name other then some v else find other items)
  find-assign name other v [] w h = absurd (ground arith)
  find-assign name other v ((key, u) ∷ items) w h = ground (
    arith,
    same_iff key name,
    same_iff key other,
    same_iff name other,
    find-assign name other v items w,
  )

  find-assign-none :
      (name other : Text) (v : V) (items : List (Text × V))
      → find other items ≡ none
      → find other (assign name v items) ≡ none
  find-assign-none name other v [] h = refl
  find-assign-none name other v ((key, u) ∷ items) h =
      ground (arith, find-assign-none name other v items)

  pub assign-IsDistinct :
      (name : Text) (v : V) (items : List (Text × V))
      → IsDistinct items
      → IsDistinct (assign name v items)
  assign-IsDistinct name v [] h = tt
  assign-IsDistinct name v ((key, u) ∷ items) h = elim (Bool-cases (same key name)) [
    | inl b ↦ rw b h
    | inr b ↦ rw b (find-assign-none name key v items h.0, assign-IsDistinct name v items h.1)
  ]

  find-erase-none :
      (name other : Text) (items : List (Text × V))
      → find other items ≡ none
      → find other (erase name items) ≡ none
  find-erase-none name other [] h = refl
  find-erase-none name other ((key, u) ∷ items) h = ground (arith, find-erase-none name other items)

  pub erase-IsDistinct :
      (name : Text) (items : List (Text × V)) → IsDistinct items → IsDistinct (erase name items)
  erase-IsDistinct name [] h = tt
  erase-IsDistinct name ((key, u) ∷ items) h = elim (Bool-cases (same key name)) [
    | inl b ↦ rw b h.1
    | inr b ↦ rw b (find-erase-none name key items h.0, erase-IsDistinct name items h.1)
  ]

  pub find-erase :
      (name other : Text) (items : List (Text × V))
      → IsDistinct items
      → find other (erase name items) ≡ (if same name other then none else find other items)
  find-erase name other [] h = ground arith
  find-erase name other ((key, u) ∷ items) h = ground (
    arith,
    same_iff key name,
    same_iff key other,
    same_iff name other,
    find-erase name other items h.1,
    h.0,
  )

  both_none :
      (p q : Bool) (x y : V) (o : Option V)
      → (if p then some x else (if q then some y else o)) ≡ none
      → (if q then some y else (if p then some x else o)) ≡ none
  both_none true q x y o h = absurd (ground arith)
  both_none false true x y o h = absurd (ground arith)
  both_none false false x y o h = h

  find-Perm_none :
      (name : Text) {xs ys : List (Text × V)}
      → Permᴰ xs ys
      → find name xs ≡ none
      → find name ys ≡ none
  find-Perm_none name Permᴰ.nil h = h
  find-Perm_none name (Permᴰ.cons {a = a} {l₁ = xs} {l₂ = ys} e p) h =
      rw (sym e) (ground (arith, find-Perm_none name p))
  find-Perm_none name (Permᴰ.swap {a = a} {b = b} {l = l} e f) h =
      let g : (if same a.0 name
            then some a.1
            else (if same b.0 name then some b.1 else find name l))
          ≡ none =
        h in
      rw (sym e, sym f) (both_none (same a.0 name) (same b.0 name) a.1 b.1 (find name l) g)
  find-Perm_none name (Permᴰ.trans p q) h = find-Perm_none name q (find-Perm_none name p h)

  find_swapped :
      (name : Text) (a b : Text × V) (l : List (Text × V))
      → find a.0 (b ∷ l) ≡ none
      → find name (a ∷ b ∷ l) ≡ find name (b ∷ a ∷ l)
  find_swapped name a b l h =
      let g : (if same b.0 a.0 then some b.1 else find a.0 l) ≡ none = h in
      ground (arith, same_iff a.0 name, same_iff b.0 name, same_iff b.0 a.0, g)

  swapped-IsDistinct :
      (a b : Text × V) (l : List (Text × V)) → IsDistinct (a ∷ b ∷ l) → IsDistinct (b ∷ a ∷ l)
  swapped-IsDistinct a b l h =
      let g : (if same b.0 a.0 then some b.1 else find a.0 l) ≡ none = h.0 in
      let k : find b.0 l ≡ none = h.1.0 in
      (ground (arith, same_iff a.0 b.0, same_iff b.0 a.0, g, k), (ground (arith, g), h.1.1))

  -- Another order of items of different names finds the same.
  pub find-Perm :
      (name : Text) {xs ys : List (Text × V)}
      → Permᴰ xs ys
      → IsDistinct xs
      → (find name xs ≡ find name ys) × IsDistinct ys
  find-Perm name Permᴰ.nil h = (refl, h)
  find-Perm name (Permᴰ.cons {a = a} {l₁ = xs} {l₂ = ys} e p) h =
      let (f, d) = find-Perm name p h.1 in
      rw (sym e) (ap (λ o. if same a.0 name then some a.1 else o) f, (find-Perm_none a.0 p h.0, d))
  find-Perm name (Permᴰ.swap {a = a} {b = b} {a' = c} {l = l} e f) h =
      subst (λ ys. (find name (a ∷ b ∷ l) ≡ find name ys) × IsDistinct ys)
        (ap (λ x. x ∷ a ∷ l) f ∙ ap (λ x. c ∷ x ∷ l) e)
        (find_swapped name a b l h.0, swapped-IsDistinct a b l h)
  find-Perm name (Permᴰ.trans p q) h =
      let (e, d) = find-Perm name p h in let (f, c) = find-Perm name q d in (e ∙ f, c)
