-- ===== src/Utils/Combinator/Laws.antt =====
-- Chains of cpp/src/utils/combinator/Combinator.h.
use mathlib.Core.List.{Memᴰ, foldl}
use mathlib.Core.List.Memᴰ
use c_workspace.Common.{
  ◌≡◌, ◌↔◌, refl, sym, ap, ◌∙◌, Bool, true, false, Bool-cases, inl, inr, ◌&&◌, if◌then◌else◌, List,
  [], ◌∷◌, arith, All,
}
use c_workspace.Utils.Combinator.{
  Combinator, not_that, accumulate, remove_if, all_of, any_of, filter, all, any, none_that, reduce,
}

and_parts : (a b : Bool) → a && b ≡ true → (a ≡ true) × (b ≡ true)
and_parts true b h = (refl, h)
and_parts false b h = absurd (ground arith)

and_both : (a b : Bool) → a ≡ true → b ≡ true → a && b ≡ true
and_both a b h k = rw (h, k) refl

module _ {ℓ} {A : Type ℓ} (p q : A → Bool) where
  -- Some element has both.
  abbrev pub Some : List A → Type ℓ
  Some l = (a : A) × Memᴰ a l × (p a ≡ true) × (q a ≡ true)

  Some-tail : (a : A) (l : List A) → Some l → Some (a ∷ l)
  Some-tail a l (b, m, h, k) = (b, Memᴰ.tail m, h, k)

  all-filtered :
      (l : List A)
      → (all_of q (remove_if (not_that p) l) ≡ true) ↔ All (λ a. p a ≡ true → q a ≡ true) l
  all-filtered [] = (λ h. tt, λ h. refl)
  all-filtered (a ∷ l) =
      let ih = all-filtered l in
      elim (Bool-cases (p a)) [
        | inl b ↦ rw b (
          λ h.
              let parts = and_parts (q a) (all_of q (remove_if (not_that p) l)) h in
              (λ e. parts.0, ih.0 parts.1),
          λ k. and_both (q a) (all_of q (remove_if (not_that p) l)) (k.0 refl) (ih.1 k.1),
        )
        | inr b ↦ rw b (λ h. (λ e. absurd (ground arith), ih.0 h), λ k. ih.1 k.1)
      ]

  any-found : (l : List A) → any_of q (remove_if (not_that p) l) ≡ true → Some l
  any-found [] h = absurd (ground arith)
  any-found (a ∷ l) h = elim (Bool-cases (p a)) [
    | inl b ↦ elim (Bool-cases (q a)) [
      | inl c ↦ (a, Memᴰ.head refl, b, c)
      | inr c ↦ Some-tail a l (any-found l (rw (b, c) at h))
    ]
    | inr b ↦ Some-tail a l (any-found l (rw b at h))
  ]

  any-missed :
      (l : List A)
      → any_of q (remove_if (not_that p) l) ≡ false
      → All (λ a. p a ≡ true → q a ≡ false) l
  any-missed [] h = tt
  any-missed (a ∷ l) h = elim (Bool-cases (p a)) [
    | inl b ↦ elim (Bool-cases (q a)) [
      | inl c ↦ let e : true ≡ false = rw (b, c) at h in absurd (ground arith)
      | inr c ↦ (λ e. c, any-missed l (rw (b, c) at h))
    ]
    | inr b ↦ (λ e. absurd (ground arith), any-missed l (rw b at h))
  ]

  none-found :
      (l : List A)
      → All (λ a. p a ≡ true → q a ≡ false) l
      → (a : A) → Memᴰ a l
      → p a ≡ true
      → q a ≡ false
  none-found [] h a m b = absurd (Memᴰ.not-nil m)
  none-found (x ∷ l) h a (Memᴰ.head e) b = ap q e ∙ h.0 (sym (ap p e) ∙ b)
  none-found (x ∷ l) h a (Memᴰ.tail m) b = none-found l h.1 a m b

  any-filtered : (l : List A) → (any_of q (remove_if (not_that p) l) ≡ true) ↔ Some l
  any-filtered l = (
    any-found l,
    λ s. elim (Bool-cases (any_of q (remove_if (not_that p) l))) [
      | inl b ↦ b
      | inr b ↦
          let (a, m, h, k) = s in
          let e = none-found l (any-missed l b) a m h in absurd (ground arith)
    ],
  )

  none-filtered :
      (l : List A)
      → ((if any_of q (remove_if (not_that p) l) then false else true) ≡ true)
        ↔ All (λ a. p a ≡ true → q a ≡ false) l
  none-filtered l = elim (Bool-cases (any_of q (remove_if (not_that p) l))) [
    | inl b ↦
        let (a, m, h, k) = any-found l b in
        rw b
          (λ e. absurd (ground arith), λ n. let e = none-found l n a m h in absurd (ground arith))
    | inr b ↦ rw b (λ e. any-missed l b, λ n. refl)
  ]

module _ {ℓ κ} {A : Type ℓ} {B : Type κ} where
  accumulate-remove_if :
      (p : A → Bool) (op : B → A → B) (l : List A) (z : B)
      → accumulate op (remove_if (not_that p) l) z ≡ foldl (λ b a. if p a then op b a else b) z l
  accumulate-remove_if p op [] z = refl
  accumulate-remove_if p op (a ∷ l) z = elim (Bool-cases (p a)) [
    | inl b ↦ rw b (accumulate-remove_if p op l (op z a))
    | inr b ↦ rw b (accumulate-remove_if p op l z)
  ]

  -- After `filter` by `p`, `all` answers whether `q` holds of all elements of which `p` does, `any` whether
  -- it holds of one of them, `none` whether of none, and `reduce` is the fold from the left over these.
  pub filter_lem :
      (p q : A → Bool) (op : B → A → B) (z : B) (c : Combinator A)
      → ((all q (filter p c) ≡ true) ↔ All (λ a. p a ≡ true → q a ≡ true) c.real)
        × ((any q (filter p c) ≡ true) ↔ Some p q c.real)
        × ((none_that q (filter p c) ≡ true) ↔ All (λ a. p a ≡ true → q a ≡ false) c.real)
        × (reduce z op (filter p c) ≡ foldl (λ b a. if p a then op b a else b) z c.real)
  unfolding filter all any none_that reduce
  filter_lem p q op z c = (
    all-filtered p q c.real,
    any-filtered p q c.real,
    none-filtered p q c.real,
    accumulate-remove_if p op c.real z,
  )
