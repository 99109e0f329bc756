-- ===== src/Utils/Pipe/Steps.antt =====
-- The map of the steps of cpp/src/utils/pipe/Pipe.h.
use c_workspace.Common.{
  ℕ, ◌<◌, ◌≡◌, refl, ◌==◌, ltb, true, false, Bool-cases, inl, inr, if◌then◌else◌, none, some, List,
  [], ◌∷◌, arith, All, All-imp, ◌≤◌,
}
use c_workspace.Utils.Pipe.{emplace, erase, at}

module _ {ℓ κ} {T : Type ℓ} {R : Type κ} where
  -- Each number is below those behind it.
  abbrev pub IsAscending : List (ℕ × (T → R)) → Type 0
  IsAscending [] = Unit
  IsAscending ((key, s) ∷ steps) = All (λ e. key < e.0) steps × IsAscending steps

  at-none :
      (order key : ℕ) (steps : List (ℕ × (T → R)))
      → order ≤ key
      → All (λ e. key < e.0) steps
      → at order steps ≡ none
  at-none order key [] h k = refl
  at-none order key ((j, u) ∷ steps) h k =
      let l : key < j = k.0 in ground (arith, at-none order key steps h k.1)

  pub at-emplace :
      (order other : ℕ) (step : T → R) (steps : List (ℕ × (T → R)))
      → IsAscending steps
      → at other (emplace order step steps) ≡ (
          if other == order
          then (elim (at order steps) [ none ↦ some step | some old ↦ some old ])
          else at other steps)
  at-emplace order other step [] h = ground arith
  at-emplace order other step ((key, u) ∷ steps) h =
      let gone : order ≤ key → at order steps ≡ none = λ l. at-none order key steps l h.0 in
      elim (Bool-cases (order == key)) [
        | inl b ↦ elim (Bool-cases (other == order)) [
          | inl d ↦ let e : (other == key) ≡ true = ground arith in rw (b, d, e) refl
          | inr d ↦ let e : (other == key) ≡ false = ground arith in rw (b, d, e) refl
        ]
        | inr b ↦ elim (Bool-cases (ltb order key)) [
          | inl c ↦ rw (b, c, gone (ground arith)) refl
          | inr c ↦ elim (Bool-cases (other == key)) [
            | inl e ↦ let d : (other == order) ≡ false = ground arith in rw (b, c, d, e) refl
            | inr e ↦ rw (b, c, e) (at-emplace order other step steps h.1)
          ]
        ]
      ]

  pub at-erase :
      (order other : ℕ) (steps : List (ℕ × (T → R)))
      → IsAscending steps
      → at other (erase order steps) ≡ (if other == order then none else at other steps)
  at-erase order other [] h = ground arith
  at-erase order other ((key, u) ∷ steps) h = elim (Bool-cases (order == key)) [
    | inl b ↦ elim (Bool-cases (other == order)) [
      | inl d ↦ rw (b, d) (at-none other key steps (ground arith) h.0)
      | inr d ↦ let e : (other == key) ≡ false = ground arith in rw (b, d, e) refl
    ]
    | inr b ↦ elim (Bool-cases (other == key)) [
      | inl e ↦ let d : (other == order) ≡ false = ground arith in rw (b, d, e) refl
      | inr e ↦ rw (b, e) (at-erase order other steps h.1)
    ]
  ]

  pub emplace-All :
      (P : ℕ → Type 0) (order : ℕ) (step : T → R) (steps : List (ℕ × (T → R)))
      → P order
      → All (λ e. P e.0) steps
      → All (λ e. P e.0) (emplace order step steps)
  emplace-All P order step [] p h = (p, tt)
  emplace-All P order step ((key, u) ∷ steps) p h = elim (Bool-cases (order == key)) [
    | inl b ↦ rw b h
    | inr b ↦ elim (Bool-cases (ltb order key)) [
      | inl c ↦ rw (b, c) (p, h)
      | inr c ↦ rw (b, c) (h.0, emplace-All P order step steps p h.1)
    ]
  ]

  pub emplace-IsAscending :
      (order : ℕ) (step : T → R) (steps : List (ℕ × (T → R)))
      → IsAscending steps
      → IsAscending (emplace order step steps)
  emplace-IsAscending order step [] h = (tt, tt)
  emplace-IsAscending order step ((key, u) ∷ steps) h = elim (Bool-cases (order == key)) [
    | inl b ↦ rw b h
    | inr b ↦ elim (Bool-cases (ltb order key)) [
      | inl c ↦
          let k : order < key = ground arith in
          rw (b, c) ((k, All-imp (λ e l. omega (arith, k, l)) steps h.0), h)
      | inr c ↦
          rw (b, c)
            (
              emplace-All (λ k. key < k) order step steps (ground arith) h.0,
              emplace-IsAscending order step steps h.1,
            )
    ]
  ]

  erase-All :
      (P : ℕ → Type 0) (order : ℕ) (steps : List (ℕ × (T → R)))
      → All (λ e. P e.0) steps
      → All (λ e. P e.0) (erase order steps)
  erase-All P order [] h = tt
  erase-All P order ((key, u) ∷ steps) h = elim (Bool-cases (order == key)) [
    | inl b ↦ rw b h.1
    | inr b ↦ rw b (h.0, erase-All P order steps h.1)
  ]

  pub erase-IsAscending :
      (order : ℕ) (steps : List (ℕ × (T → R))) → IsAscending steps → IsAscending (erase order steps)
  erase-IsAscending order [] h = tt
  erase-IsAscending order ((key, u) ∷ steps) h = elim (Bool-cases (order == key)) [
    | inl b ↦ rw b h.1
    | inr b ↦ rw b (erase-All (λ k. key < k) order steps h.0, erase-IsAscending order steps h.1)
  ]
