-- ===== src/Chain/Sorted.antt =====
-- `insertNodeAsc` of c/libs/fastcommon/src/chain.c.
use c_workspace.Common.{
  ℕ, zero, suc, ◌<◌, ◌≡◌, refl, ap, sym, subst, ◌∙◌, ℤ, sign, Sign-cases, SignCase, if◌then◌else◌,
  Option, none, some, ◌>>=◌, List, [], ◌∷◌, arith, length, Returns,
}
use c_workspace.Common.Sign.{negative, zero_sign, positive}
use c_workspace.Chain.{ChainList, einval, enomem, put, same, asc_loop, link_asc, insert_node_asc}
use c_workspace.Chain.Linked.{node, top, last_or}
use c_workspace.Chain.Place.{At, Holds, Turns, data_of, length-data_of, behind, At-Holds, At-next}
use c_workspace.Chain.Adds.{first_At, linked, set_next-linked, linked-At}

module _ {A : Type 0} where
  -- Before the first datum that is not less.
  abbrev pub insert_asc : (A → A → ℤ) → A → List A → List A
  insert_asc compare_func x [] = x ∷ []
  insert_asc compare_func x (y ∷ ys) =
      let rest = insert_asc compare_func x ys in
      elim (sign (compare_func y x)) [ negative ↦ y ∷ rest | _ ↦ x ∷ y ∷ ys ]

  -- The place that the loop finds.
  record Found (compare_func : A → A → ℤ) (l : ChainList A) (x : A) (xs : List A)
      (o : Option ℕ × Option ℕ) : Type 0 where
    bs : List (ℕ × A)
    ns : List (ℕ × A)
    at : At l bs ns o.1
    before : o.0 ≡ top bs
    split : xs ≡ behind (data_of bs) (x ∷ data_of ns)

  module _ (compare_func : A → A → ℤ) (l : ChainList A) (x : A) where
    insert_asc-less :
        (n : ℕ × A) (ns : List (ℕ × A))
        → sign (compare_func n.1 x) ≡ negative
        → insert_asc compare_func x (data_of (n ∷ ns))
          ≡ n.1 ∷ insert_asc compare_func x (data_of ns)
    insert_asc-less n ns s = rw (insert_asc, s) refl

    insert_asc-equal :
        (n : ℕ × A) (ns : List (ℕ × A))
        → sign (compare_func n.1 x) ≡ zero_sign
        → insert_asc compare_func x (data_of (n ∷ ns)) ≡ x ∷ n.1 ∷ data_of ns
    insert_asc-equal n ns s = rw (insert_asc, s) refl

    insert_asc-greater :
        (n : ℕ × A) (ns : List (ℕ × A))
        → sign (compare_func n.1 x) ≡ positive
        → insert_asc compare_func x (data_of (n ∷ ns)) ≡ x ∷ n.1 ∷ data_of ns
    insert_asc-greater n ns s = rw (insert_asc, s) refl

    asc_loop-Found :
        (fuel : ℕ) (bs ns : List (ℕ × A)) (p : Option ℕ)
        → At l bs ns p
        → length ns < fuel
        → Returns
            (asc_loop compare_func l x fuel (top bs) p)
            (Found compare_func l x (behind (data_of bs) (insert_asc compare_func x (data_of ns))))
    unfolding asc_loop
    asc_loop-Found zero bs ns p a h = absurd (omega arith)
    asc_loop-Found (suc fuel) bs [] p a h = (
      (top bs, none),
      rw (a.onward) refl,
      record {
        bs = bs;
        ns = [];
        at = subst (λ q. At l bs [] q) a.onward a;
        before = refl;
        split = refl;
      },
    )
    asc_loop-Found (suc fuel) bs (n ∷ ns) p a h =
        let (next, e, f, a') = At-next l bs n ns p a in
        let here : Found compare_func l x (behind (data_of bs) (x ∷ n.1 ∷ data_of ns))
            (top bs, some n.0) =
          record {
            bs = bs;
            ns = n ∷ ns;
            at = subst (λ q. At l bs (n ∷ ns) q) e a;
            before = refl;
            split = refl;
          } in
        elim (Sign-cases (sign (compare_func n.1 x))) [
          | SignCase.less s ↦
              rw (e, f, ◌>>=◌, s, insert_asc-less n ns s)
                (asc_loop-Found fuel (n ∷ bs) ns next a' (omega arith))
          | SignCase.equal s ↦
              rw (e, f, ◌>>=◌, s, insert_asc-equal n ns s) ((top bs, some n.0), refl, here)
          | SignCase.greater s ↦
              rw (e, f, ◌>>=◌, s, insert_asc-greater n ns s) ((top bs, some n.0), refl, here)
        ]

  next_tail :
      (l : ChainList A) (bs ns : List (ℕ × A)) (p : Option ℕ) (new : ℕ)
      → At l bs ns p
      → (if same p none then some new else l.tail) ≡ last_or (some new) ns
  next_tail l bs [] p new a = rw (a.onward) refl
  next_tail l bs (n ∷ ns) p new a = let (next, e, f, o) = a.onward in rw (e, a.tail_last) refl

  link_asc-Holds :
      (l : ChainList A) (x : A) (new : ℕ) (bs ns : List (ℕ × A)) (p : Option ℕ)
      → l.nodes new ≡ none
      → At l bs ns p
      → Returns
          (link_asc l x new (top bs, p))
          (λ o. (o.0 ≡ 0) × Turns l o.1 (behind (data_of bs) (x ∷ data_of ns)) l.freed)
  unfolding link_asc
  link_asc-Holds l x new [] ns p f a =
      let tail = if same p none then some new else l.tail in
      let l' = record l { nodes = put l.nodes new (node x p); head = some new; tail = tail } in
      (
        (0, l'),
        refl,
        (
          refl,
          (
            At-Holds l' [] ((new, x) ∷ ns) (some new)
                (first_At l ns p new x tail a f (next_tail l [] ns p new a)),
            refl,
            refl,
            refl,
            refl,
          ),
        ),
      )
  link_asc-Holds l x new (b ∷ bs) ns p f a =
      let tail = if same p none then some new else l.tail in
      let l' = record (linked l b bs ns p new x a f) { tail = tail } in
      (
        (0, l'),
        rw (set_next-linked l b bs ns p new x a f, ◌>>=◌) refl,
        (
          refl,
          (
            At-Holds l' (b ∷ bs) ((new, x) ∷ ns) (some new)
                (linked-At l b bs ns p new x a f tail (next_tail l (b ∷ bs) ns p new a)),
            refl,
            refl,
            refl,
            refl,
          ),
        ),
      )

  -- The call, by the comparison that the list has.
  abbrev asc_by : ℕ → Option ℕ → ChainList A → A → Option (A → A → ℤ) → Option (ℕ × ChainList A)
  asc_by fuel new l x none = some (einval, l)
  asc_by fuel none l x (some compare_func) = some (enomem, l)
  asc_by fuel (some n) l x (some compare_func) =
      asc_loop compare_func l x fuel none l.head >>= link_asc l x n

  by_compare :
      (fuel : ℕ) (new : Option ℕ) (l : ChainList A) (x : A) (q : Option (A → A → ℤ))
      → (elim q as (λ y. Option (ℕ × ChainList A)) [
        | none ↦ some (einval, l)
        | some compare_func ↦ elim new as (λ y. Option (ℕ × ChainList A)) [
          | none ↦ some (enomem, l)
          | some n ↦ asc_loop compare_func l x fuel none l.head >>= link_asc l x n
        ]
      ])
        ≡ asc_by fuel new l x q
  by_compare fuel new l x none = refl
  by_compare fuel none l x (some compare_func) = refl
  by_compare fuel (some n) l x (some compare_func) = refl

  pub insert_node_asc-by :
      (fuel : ℕ) (new : Option ℕ) (l : ChainList A) (x : A) (q : Option (A → A → ℤ))
      → l.compare_func ≡ q
      → insert_node_asc fuel new l x ≡ asc_by fuel new l x q
  unfolding insert_node_asc
  insert_node_asc-by fuel new l x q c =
      by_compare fuel new l x l.compare_func ∙ ap (asc_by fuel new l x) c

  -- `insertNodeAsc` with a node that was not allocated, and fuel for more than all nodes, puts the datum
  -- before the first that is not less.
  pub insert_node_asc-Holds :
      (compare_func : A → A → ℤ) (l : ChainList A) (x : A) (xs : List A) (fuel new : ℕ)
      → l.compare_func ≡ some compare_func
      → Holds l xs
      → length xs < fuel
      → l.nodes new ≡ none
      → Returns
          (insert_node_asc fuel (some new) l x)
          (λ o. (o.0 ≡ 0) × Turns l o.1 (insert_asc compare_func x xs) l.freed)
  insert_node_asc-Holds compare_func l x xs fuel new c (ns, a, d) h f =
      let (o, r, found) =
        asc_loop-Found compare_func l x fuel [] ns l.head a (rw (length-data_of ns, d) h) in
      let (o', r', (z, held)) = link_asc-Holds l x new found.bs found.ns o.1 f found.at in
      (
        o',
        insert_node_asc-by fuel (some new) l x (some compare_func) c
            ∙ ap (λ q. q >>= link_asc l x new) r
            ∙ ap (λ q. link_asc l x new (q, o.1)) found.before
            ∙ r',
        (
          z,
          subst (λ ys. Turns l o'.1 ys l.freed) (sym found.split ∙ ap (insert_asc compare_func x) d)
              held,
        ),
      )
