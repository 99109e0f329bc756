-- ===== src/Chain/Adds.antt =====
-- The three ways to add to a list of c/libs/fastcommon/src/chain.c.
use c_workspace.Common.{
  ℕ, ◌≡◌, refl, ap, sym, subst, ◌∙◌, ◌==◌, false, if◌then◌else◌, Option, none, some, ◌>>=◌, List,
  [], ◌∷◌, ◌++◌, All-append, Returns,
}
use c_workspace.Chain.{ChainList, put, same, set_next, insert_node_prior, append_node}
use c_workspace.Chain.Linked.{
  node, last_or, Lacks, put_other, put_here, Onward-put, Backward-put, Onward-Lacks, Backward-Lacks,
  Lacks-split,
}
use c_workspace.Chain.Place.{
  At, Holds, Turns, data_of, behind, At-Holds, set_next_before, same-last_or, head_some, Lacks-flip,
  Apart-back, At-end, behind-append,
}

module _ {A : Type 0} where
  -- A node that was not allocated is linked before all nodes.
  pub first_At :
      (l : ChainList A) (ns : List (ℕ × A)) (p : Option ℕ) (new : ℕ) (x : A) (tail : Option ℕ)
      → At l [] ns p
      → l.nodes new ≡ none
      → tail ≡ last_or (some new) ns
      → At
          (record l { nodes = put l.nodes new (node x p); head = some new; tail = tail })
          []
          ((new, x) ∷ ns)
          (some new)
  first_At l ns p new x tail a f t =
      let lacks = Onward-Lacks l.nodes new p ns f a.onward in
      record {
        back = refl;
        onward = (
          p,
          refl,
          put_here l.nodes new (node x p),
          Onward-put l.nodes new (node x p) p ns lacks a.onward,
        );
        apart = (lacks, a.apart);
        tail_last = t;
      }

  prior_tail :
      (tail : Option ℕ) (ns : List (ℕ × A)) (new : ℕ)
      → tail ≡ last_or none ns
      → (if same tail none then some new else tail) ≡ last_or (some new) ns
  prior_tail tail [] new e = rw e refl
  prior_tail tail (n ∷ ns) new e = rw (e, same-last_or n.0 ns) refl

  -- `insertNodePrior` with a node that was not allocated puts the datum first.
  pub insert_node_prior-Holds :
      (l : ChainList A) (xs : List A) (new : ℕ) (x : A)
      → Holds l xs
      → l.nodes new ≡ none
      → Holds (insert_node_prior (some new) l x).1 (x ∷ xs)
  unfolding insert_node_prior
  insert_node_prior-Holds l xs new x (ns, a, d) f = (
    (new, x) ∷ ns,
    first_At l ns l.head new x (if same l.tail none then some new else l.tail) a f
        (prior_tail l.tail ns new a.tail_last),
    ap (λ ys. x ∷ ys) d,
  )

  -- A node that was not allocated is linked behind the nodes before a place.
  module _ (l : ChainList A) (b : ℕ × A) (bs ns : List (ℕ × A)) (p : Option ℕ) (new : ℕ) (x : A)
      (a : At l (b ∷ bs) ns p) (f : l.nodes new ≡ none) where
    abbrev pub linked : ChainList A
    linked = record l { nodes = put (put l.nodes new (node x p)) b.0 (node b.1 (some new)) }

    linked-Lacks : Lacks new (b ∷ bs)
    linked-Lacks = Backward-Lacks l.nodes new l.head (b ∷ bs) p f a.back

    pub set_next-linked :
        set_next (record l { nodes = put l.nodes new (node x p) }) b.0 (some new) ≡ some linked
    set_next-linked =
        set_next_before (record l { nodes = put l.nodes new (node x p) }) b p (some new)
          (put_other l.nodes new (node x p) b.0 linked-Lacks.0 ∙ a.back.0)

    pub linked-At :
        (tail : Option ℕ)
        → tail ≡ last_or (some new) ns
        → At (record linked { tail = tail }) (b ∷ bs) ((new, x) ∷ ns) (some new)
    linked-At tail t =
        let nodes' = put l.nodes new (node x p) in
        let apart_b = Lacks-split b.0 bs ns a.apart.0 in
        let onward_new = Onward-Lacks l.nodes new p ns f a.onward in
        record {
          back = (
            put_here nodes' b.0 (node b.1 (some new)),
            Backward-put nodes' b.0 (node b.1 (some new)) l.head bs (some b.0) apart_b.0
                (Backward-put l.nodes new (node x p) l.head bs (some b.0) linked-Lacks.1 a.back.1),
          );
          onward = (
            p,
            refl,
            put_other nodes' b.0 (node b.1 (some new)) new (Lacks-flip (new, x) b linked-Lacks.0)
                ∙ put_here l.nodes new (node x p),
            Onward-put nodes' b.0 (node b.1 (some new)) p ns apart_b.1
                (Onward-put l.nodes new (node x p) p ns onward_new a.onward),
          );
          apart =
              Apart-back (new, x) (b ∷ bs) ns
                (
                  All-append (λ m. (m.0 == new) ≡ false) (b ∷ bs) ns linked-Lacks onward_new,
                  a.apart,
                );
          tail_last = t;
        }

  append_at :
      (l : ChainList A) (bs : List (ℕ × A)) (new : ℕ) (x : A)
      → At l bs [] none
      → l.nodes new ≡ none
      → Returns
          (append_node (some new) l x)
          (λ o. (o.0 ≡ 0) × Turns l o.1 (behind (data_of bs) (x ∷ [])) l.freed)
  unfolding append_node
  append_at l [] new x a f =
      let l' = record l {
        nodes = put l.nodes new (node x none);
        head = some new;
        tail = some new;
      } in
      (
        (0, l'),
        rw (a.tail_last, a.back) refl,
        (
          refl,
          (
            At-Holds l' [] ((new, x) ∷ []) (some new)
                (first_At l [] none new x (some new) a f refl),
            refl,
            refl,
            refl,
            refl,
          ),
        ),
      )
  append_at l (b ∷ bs) new x a f =
      let l' = record (linked l b bs [] none new x a f) { tail = some new } in
      (
        (0, l'),
        rw
            (
              a.tail_last,
              set_next-linked l b bs [] none new x a f,
              ◌>>=◌,
              head_some l.nodes l.head b bs none a.back,
            )
            refl,
        (
          refl,
          (
            At-Holds l' (b ∷ bs) ((new, x) ∷ []) (some new)
                (linked-At l b bs [] none new x a f (some new) refl),
            refl,
            refl,
            refl,
            refl,
          ),
        ),
      )

  -- `appendNode` with such a node puts it last.
  pub append_node-Holds :
      (l : ChainList A) (xs : List A) (new : ℕ) (x : A)
      → Holds l xs
      → l.nodes new ≡ none
      → Returns (append_node (some new) l x) (λ o. (o.0 ≡ 0) × Turns l o.1 (xs ++ (x ∷ [])) l.freed)
  append_node-Holds l xs new x (ns, a, d) f =
      let (bs, a', e) = At-end l [] ns l.head a in
      let (o, r, (z, h)) = append_at l bs new x a' f in
      (
        o,
        r,
        (
          z,
          subst (λ ys. Turns l o.1 ys l.freed)
              (sym (behind-append (data_of bs) [] (x ∷ [])) ∙ ap (λ ys. ys ++ (x ∷ [])) (sym e ∙ d))
              h,
        ),
      )
