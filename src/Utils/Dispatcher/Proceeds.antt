-- ===== src/Utils/Dispatcher/Proceeds.antt =====
-- `proceed` of cpp/src/utils/dispatcher/Dispatcher.h.
use c_workspace.Common.{
  ◌≡◌, refl, ap, subst, inl, inr, false, Bool-cases, Option, none, some, [], ◌∷◌, arith, Returns,
}
use c_workspace.Utils.Text.{Text, same}
use c_workspace.Utils.Text.Search.{same_iff}
use c_workspace.Utils.Dispatcher.{Process, Table, Dispatcher, find, proceed_loop, proceed}
use c_workspace.Utils.Dispatcher.Table.{IsDistinct, same_refl}
use c_workspace.Utils.Dispatcher.Registry.{IsChosen, IsDispatcher, accepts, value, view}

module _ {ℓ κ} {R : Type ℓ} {D : Type κ} where
  behind :
      (key name : Text) (items : Table R D) (o : Option (Process R D))
      → find key items ≡ none
      → find name items ≡ some o
      → same key name ≡ false
  behind key name items o e f = elim (Bool-cases (same key name)) [
    | inl t ↦ let g = (same_iff key name).0 t in absurd (ground (arith, ap (λ k. find k items) g))
    | inr t ↦ t
  ]

  held :
      (o : Option (Option (Process R D))) (q : Process R D) → value o ≡ some q → o ≡ some (some q)
  held none q e = absurd (ground arith)
  held (some none) q e = absurd (ground arith)
  held (some (some p)) q e = ap some e

  -- The loop of `proceed` ends with a result that is chosen.
  proceed_loop_lem :
      (none_process : D → Option R) (x : D) (items : Table R D)
      → IsDistinct items
      → ((name : Text) (o : Option (Process R D))
          → find name items ≡ some o
          → (p : Process R D) × (o ≡ some p))
      → Returns
          (proceed_loop none_process x items)
          (λ r. IsChosen none_process (λ name. value (find name items)) x r)
  unfolding proceed_loop
  proceed_loop_lem none_process x [] d s =
      (none_process x, refl, inr (λ name p e. absurd (ground arith), refl))
  proceed_loop_lem none_process x ((key, none) ∷ items) d s =
      let (p, e) = s key none (rw (same_refl key) refl) in absurd (ground arith)
  proceed_loop_lem none_process x ((key, some p) ∷ items) d s = elim (Bool-cases (accepts p x)) [
    | inl b ↦ (p.proceed x, rw b refl, inl (key, p, rw (same_refl key) refl, b, refl))
    | inr b ↦
        let (r, e, c) =
          proceed_loop_lem none_process x items d.1
            (λ name o f. s name o (rw (behind key name items o d.0 f) f)) in
        (r, rw (b, e) refl, passed b c)
  ]
    where
      passed :
          {r : Option R}
          → accepts p x ≡ false
          → IsChosen none_process (λ name. value (find name items)) x r
          → IsChosen none_process (λ name. value (find name ((key, some p) ∷ items))) x r
      passed b (inl (name, q, f, a, g)) =
          let t = behind key name items (some q) d.0 (held (find name items) q f) in
          inl (name, q, rw t f, a, g)
      passed b (inr (k, g)) = inr (
        λ name q f. elim (Bool-cases (same key name)) [
          | inl t ↦
              let e : some p ≡ some q = rw t at f in
              let g : p ≡ q = cc in subst (λ z. accepts z x ≡ false) g b
          | inr t ↦ k name q (rw t at f)
        ],
        g,
      )

  pub proceed_lem :
      (d : Dispatcher R D) (x : D)
      → IsDispatcher d
      → Returns (proceed d x) (λ r. IsChosen d.none_process (view d) x r)
  unfolding proceed
  proceed_lem d x h = proceed_loop_lem d.none_process x d.processes h.distinct h.stored
