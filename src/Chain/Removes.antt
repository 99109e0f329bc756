-- ===== src/Chain/Removes.antt =====
-- `deleteNode` of c/libs/fastcommon/src/chain.c.
use c_workspace.Common.{
  ℕ, zero, suc, ◌+◌, ◌<◌, ◌≡◌, refl, ap, sym, subst, ◌∙◌, ◌==◌, ℤ, pos, negsuc, sign, Sign-cases,
  SignCase, true, false, Bool, if◌then◌else◌, Option, none, some, ◌>>=◌, List, [], ◌∷◌, ◌++◌,
  append-nil, append_assoc, arith, length, Returns,
}
use c_workspace.Common.Sign.{negative, zero_sign, positive}
use c_workspace.Chain.{ChainList, chain_type_sorted}
use c_workspace.Chain.Remove.{delete_nodes, delete_node}
use c_workspace.Chain.Linked.{Onward, top}
use c_workspace.Chain.Place.{At, Holds, Turns, data_of, length-data_of, behind, At-Holds, At-next}
use c_workspace.Chain.Deletes.{cut, cut-At, freed_with, delete_node_ex-cut}

module _ {A : Type 0} where
  abbrev keep : A → List A × List A → List A × List A
  keep y (kept, gone) = (y ∷ kept, gone)

  abbrev drop : A → List A × List A → List A × List A
  drop y (kept, gone) = (kept, y ∷ gone)

  -- The data that stay, and those that go: the first that compares equal, or all such. The search of a
  -- sorted list ends at the first that is greater.
  abbrev pub remove : Bool → Bool → (A → A → ℤ) → A → List A → List A × List A
  remove sorted every compare_func x [] = ([], [])
  remove sorted every compare_func x (y ∷ ys) =
      let rest = remove sorted every compare_func x ys in
      elim (sign (compare_func y x)) [
        | zero_sign ↦ if every then drop y rest else (ys, y ∷ [])
        | positive ↦ if sorted then (y ∷ ys, []) else keep y rest
        | negative ↦ keep y rest
      ]

  -- What is freed when these data go.
  abbrev pub freed_all : ChainList A → List A → List A
  freed_all l gone = if l.free_data_func then l.freed ++ gone else l.freed

  pub freed_nil : (frees : Bool) (freed : List A) → freed ≡ (if frees then freed ++ [] else freed)
  freed_nil true freed = sym (append-nil freed)
  freed_nil false freed = refl

  pub freed_more :
      (frees : Bool) (freed : List A) (x : A) (gone : List A)
      → (if frees
          then (if frees then freed ++ (x ∷ []) else freed) ++ gone
          else (if frees then freed ++ (x ∷ []) else freed))
        ≡ (if frees then freed ++ (x ∷ gone) else freed)
  freed_more true freed x gone = append_assoc freed (x ∷ []) gone
  freed_more false freed x gone = refl

  -- The count and the list that the loop gives.
  abbrev Done : ChainList A → List (ℕ × A) → ℕ → List A × List A → ℕ × ChainList A → Type 0
  Done l bs count r o =
      (o.0 ≡ count + length r.1) × Turns l o.1 (behind (data_of bs) r.0) (freed_all l r.1)

  stopped :
      (l : ChainList A) (bs ns : List (ℕ × A)) (p : Option ℕ) (count : ℕ)
      → At l bs ns p
      → Done l bs count (data_of ns, []) (count, l)
  stopped l bs ns p count a =
      (omega arith, (At-Holds l bs ns p a, refl, refl, refl, freed_nil l.free_data_func l.freed))

  -- The loop after it has found a datum that compares equal.
  after_equal :
      (l : ChainList A) (bs : List (ℕ × A)) (n : ℕ × A) (ns : List (ℕ × A)) (p next : Option ℕ)
      (count : ℕ) (a : At l bs (n ∷ ns) p) (o : Onward l.nodes next ns) (every : Bool)
      (rest : Option (ℕ × ChainList A)) (r : List A × List A)
      → Returns rest (Done (cut l bs n ns next (freed_with l n.1)) bs (count + 1) r)
      → Returns
          (elim every as (λ b. Option (ℕ × ChainList A)) [
            | false ↦ some (count + 1, cut l bs n ns next (freed_with l n.1))
            | true ↦ rest
          ])
          (Done l bs count (if every then drop n.1 r else (data_of ns, n.1 ∷ [])))
  after_equal l bs n ns p next count a o false rest r h =
      let l' = cut l bs n ns next (freed_with l n.1) in
      (
        (count + 1, l'),
        refl,
        (
          refl,
          (
            At-Holds l' bs ns next (cut-At l bs n ns p next (freed_with l n.1) a o),
            refl,
            refl,
            refl,
            refl,
          ),
        ),
      )
  after_equal l bs n ns p next count a o true rest r (o', e, (c, (held, k, f, d, g))) =
      (o', e, (c ∙ omega arith, (held, k, f, d, g ∙ freed_more l.free_data_func l.freed n.1 r.1)))

  -- After it has found a greater one.
  after_greater :
      (l : ChainList A) (bs : List (ℕ × A)) (n : ℕ × A) (ns : List (ℕ × A)) (p : Option ℕ)
      (count : ℕ) (a : At l bs (n ∷ ns) p) (sorted : Bool) (rest : Option (ℕ × ChainList A))
      (r : List A × List A)
      → Returns rest (Done l bs count (keep n.1 r))
      → Returns
          (elim sorted as (λ b. Option (ℕ × ChainList A)) [ true ↦ some (count, l) | false ↦ rest ])
          (Done l bs count (if sorted then (n.1 ∷ data_of ns, []) else keep n.1 r))
  after_greater l bs n ns p count a true rest r h =
      ((count, l), refl, stopped l bs (n ∷ ns) p count a)
  after_greater l bs n ns p count a false rest r h = h

  module _ (compare_func : A → A → ℤ) (x : A) (sorted every : Bool) where
    remove-less :
        (n : ℕ × A) (ns : List (ℕ × A))
        → sign (compare_func n.1 x) ≡ negative
        → remove sorted every compare_func x (data_of (n ∷ ns))
          ≡ keep n.1 (remove sorted every compare_func x (data_of ns))
    remove-less n ns s = rw (remove, s) refl

    remove-equal :
        (n : ℕ × A) (ns : List (ℕ × A))
        → sign (compare_func n.1 x) ≡ zero_sign
        → remove sorted every compare_func x (data_of (n ∷ ns)) ≡ (
            if every
            then drop n.1 (remove sorted every compare_func x (data_of ns))
            else (data_of ns, n.1 ∷ []))
    remove-equal n ns s = rw (remove, s) refl

    remove-greater :
        (n : ℕ × A) (ns : List (ℕ × A))
        → sign (compare_func n.1 x) ≡ positive
        → remove sorted every compare_func x (data_of (n ∷ ns)) ≡ (
            if sorted
            then (n.1 ∷ data_of ns, [])
            else keep n.1 (remove sorted every compare_func x (data_of ns)))
    remove-greater n ns s = rw (remove, s) refl

    delete_nodes-Done :
        (fuel : ℕ) (l : ChainList A) (bs ns : List (ℕ × A)) (p : Option ℕ) (count : ℕ)
        → At l bs ns p
        → length ns < fuel
        → (l.kind == chain_type_sorted) ≡ sorted
        → Returns
            (delete_nodes compare_func x every fuel l (top bs) p count)
            (Done l bs count (remove sorted every compare_func x (data_of ns)))
    unfolding delete_nodes
    delete_nodes-Done zero l bs ns p count a h k = absurd (omega arith)
    delete_nodes-Done (suc fuel) l bs [] p count a h k =
        rw (a.onward) ((count, l), refl, stopped l bs [] p count a)
    delete_nodes-Done (suc fuel) l bs (n ∷ ns) p count a h k =
        let (next, e, f, a') = At-next l bs n ns p a in
        let l' = cut l bs n ns next (freed_with l n.1) in
        let cut_at = cut-At l bs n ns p next (freed_with l n.1) a a'.onward in
        elim (Sign-cases (sign (compare_func n.1 x))) [
          | SignCase.less s ↦
              rw (e, f, ◌>>=◌, s, remove-less n ns s)
                (delete_nodes-Done fuel l (n ∷ bs) ns next count a' (omega arith) k)
          | SignCase.equal s ↦
              rw
                (
                  e,
                  f,
                  ◌>>=◌,
                  s,
                  remove-equal n ns s,
                  delete_node_ex-cut l n ns next f bs (subst (λ q. At l bs (n ∷ ns) q) e a),
                )
                (after_equal l bs n ns p next count a a'.onward every
                  (delete_nodes compare_func x every fuel l' (top bs) next (count + 1))
                  (remove sorted every compare_func x (data_of ns))
                  (delete_nodes-Done fuel l' bs ns next (count + 1) cut_at (omega arith) k))
          | SignCase.greater s ↦
              rw (e, f, ◌>>=◌, s, remove-greater n ns s, k)
                (after_greater l bs n ns p count a sorted
                  (delete_nodes compare_func x every fuel l (some n.0) next count)
                  (remove sorted every compare_func x (data_of ns))
                  (delete_nodes-Done fuel l (n ∷ bs) ns next count a' (omega arith) k))
        ]

  abbrev counted : Option (ℕ × ChainList A) → Option (ℤ × ChainList A)
  counted o = do (count, l') ← o; some (pos count, l')

  -- The call, by the comparison that the list has.
  abbrev delete_by : ChainList A → A → Bool → ℕ → Option (A → A → ℤ) → Option (ℤ × ChainList A)
  delete_by l x every fuel q = elim q as (λ y. Option (ℤ × ChainList A)) [
    | none ↦ some (negsuc 21, l)
    | some compare_func ↦ counted (delete_nodes compare_func x every fuel l none l.head 0)
  ]

  pub delete_node-none :
      (l : ChainList A) (x : A) (every : Bool) (fuel : ℕ)
      → l.compare_func ≡ none
      → delete_node fuel l x every ≡ some (negsuc 21, l)
  unfolding delete_node
  delete_node-none l x every fuel c = ap (delete_by l x every fuel) c

  -- `deleteNode`, with fuel for more than all nodes, takes out what compares equal: the first, or all if
  -- it is told so. It gives their number and frees them.
  pub delete_node-Turns :
      (compare_func : A → A → ℤ) (l : ChainList A) (x : A) (xs : List A) (every : Bool) (fuel : ℕ)
      → l.compare_func ≡ some compare_func
      → Holds l xs
      → length xs < fuel
      → let r = remove (l.kind == chain_type_sorted) every compare_func x xs in
        Returns
          (delete_node fuel l x every)
          (λ o. (o.0 ≡ pos (length r.1)) × Turns l o.1 r.0 (freed_all l r.1))
  unfolding delete_node
  delete_node-Turns compare_func l x xs every fuel c (ns, a, d) h =
      let sorted = l.kind == chain_type_sorted in
      let (o, r, (e, t)) =
        delete_nodes-Done compare_func x sorted every fuel l [] ns l.head 0 a
          (rw (length-data_of ns, d) h) refl in
      (
        (pos o.0, o.1),
        ap (delete_by l x every fuel) c ∙ ap counted r,
        subst
            (λ ys.
              let r = remove sorted every compare_func x ys in
              (pos o.0 ≡ pos (length r.1)) × Turns l o.1 r.0 (freed_all l r.1))
            d (ap pos (e ∙ omega arith), t),
      )
