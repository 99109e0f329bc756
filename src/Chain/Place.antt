-- ===== src/Chain/Place.antt =====
-- A place in a list of c/libs/fastcommon/src/chain.c, to which its loops come.
use c_workspace.Common.{
  ℕ, suc, ◌≡◌, refl, ap, subst, ◌∙◌, ◌==◌, false, Option, none, some, ◌>>=◌, List, [], ◌∷◌, ◌++◌,
  arith, length, All-append,
}
use c_workspace.Chain.{ChainList, put, same, set_next}
use c_workspace.Chain.Linked.{
  Nodes, node, Onward, Backward, onto, Onward-onto, top, last_or, Apart, Lacks-split, Apart-middle,
}

-- The nodes before the place, the nearest first, those from it on, and the pointer there.
pub record At {A : Type 0} (l : ChainList A) (bs ns : List (ℕ × A)) (p : Option ℕ) : Type 0 where
  pub back : Backward l.nodes l.head bs p
  pub onward : Onward l.nodes p ns
  pub apart : Apart (bs ++ ns)
  pub tail_last : l.tail ≡ last_or (top bs) ns

module _ {A : Type 0} where
  abbrev pub data_of : List (ℕ × A) → List A
  data_of [] = []
  data_of (n ∷ ns) = n.1 ∷ data_of ns

  pub length-data_of : (ns : List (ℕ × A)) → length ns ≡ length (data_of ns)
  length-data_of [] = refl
  length-data_of (n ∷ ns) = ap suc (length-data_of ns)

  -- The list holds these data, in order.
  abbrev pub Holds : ChainList A → List A → Type 0
  Holds l xs = (ns : List (ℕ × A)) × At l [] ns l.head × (data_of ns ≡ xs)

  -- A call has turned the list into one that holds these data; so much is freed, the rest is as it was.
  abbrev pub Turns : ChainList A → ChainList A → List A → List A → Type 0
  Turns l l' xs freed =
      Holds l' xs
      × (l'.kind ≡ l.kind)
      × (l'.compare_func ≡ l.compare_func)
      × (l'.free_data_func ≡ l.free_data_func)
      × (l'.freed ≡ freed)

  -- What stands before, in order, and then the rest.
  abbrev pub behind : List A → List A → List A
  behind [] xs = xs
  behind (b ∷ bs) xs = behind bs (b ∷ xs)

  pub data_of-onto :
      (bs ns : List (ℕ × A)) → data_of (onto bs ns) ≡ behind (data_of bs) (data_of ns)
  data_of-onto [] ns = refl
  data_of-onto (b ∷ bs) ns = data_of-onto bs (b ∷ ns)

  pub Lacks-flip : (b n : ℕ × A) → (n.0 == b.0) ≡ false → (b.0 == n.0) ≡ false
  Lacks-flip b n h = ground arith

  pub Apart-back :
      (b : ℕ × A) (bs ns : List (ℕ × A)) → Apart (b ∷ (bs ++ ns)) → Apart (bs ++ (b ∷ ns))
  Apart-back b [] ns h = h
  Apart-back b (b' ∷ bs) ns h =
      let parts = Lacks-split b'.0 bs ns h.1.0 in
      let parts' = Lacks-split b.0 bs ns h.0.1 in
      (
        All-append (λ m. (m.0 == b'.0) ≡ false) bs (b ∷ ns) parts.0
            (Lacks-flip b b' h.0.0, parts.1),
        Apart-back b bs ns (All-append (λ m. (m.0 == b.0) ≡ false) bs ns parts'.0 parts'.1, h.1.1),
      )

  Apart-onto : (bs ns : List (ℕ × A)) → Apart (bs ++ ns) → Apart (onto bs ns)
  Apart-onto [] ns h = h
  Apart-onto (b ∷ bs) ns h = Apart-onto bs (b ∷ ns) (Apart-back b bs ns h)

  last_onto : (bs ns : List (ℕ × A)) → last_or (top bs) ns ≡ last_or none (onto bs ns)
  last_onto [] ns = refl
  last_onto (b ∷ bs) ns = last_onto bs (b ∷ ns)

  -- From any place the whole list is seen.
  pub At-Holds :
      (l : ChainList A) (bs ns : List (ℕ × A)) (p : Option ℕ)
      → At l bs ns p
      → Holds l (behind (data_of bs) (data_of ns))
  At-Holds l bs ns p a = (
    onto bs ns,
    record {
      back = refl;
      onward = Onward-onto l.nodes l.head bs ns p a.back a.onward;
      apart = Apart-onto bs ns a.apart;
      tail_last = a.tail_last ∙ last_onto bs ns;
    },
    data_of-onto bs ns,
  )

  -- A step to the next node.
  pub At-next :
      (l : ChainList A) (bs : List (ℕ × A)) (n : ℕ × A) (ns : List (ℕ × A)) (p : Option ℕ)
      → At l bs (n ∷ ns) p
      → (next : Option ℕ) × (p ≡ some n.0) × (l.nodes n.0 ≡ node n.1 next) × At l (n ∷ bs) ns next
  At-next l bs n ns p a =
      let (next, e, f, o) = a.onward in
      (
        next,
        e,
        f,
        record {
          back = (f, subst (λ q. Backward l.nodes l.head bs q) e a.back);
          onward = o;
          apart = Apart-middle n bs ns a.apart;
          tail_last = a.tail_last;
        },
      )

  -- `p->next = q` for the node before the place.
  pub set_next_before :
      (l : ChainList A) (b : ℕ × A) (p q : Option ℕ)
      → l.nodes b.0 ≡ node b.1 p
      → set_next l b.0 q ≡ some (record l { nodes = put l.nodes b.0 (node b.1 q) })
  unfolding set_next
  set_next_before l b p q e = rw (e, ◌>>=◌) refl

  pub same-last_or : (a : ℕ) (ns : List (ℕ × A)) → same (last_or (some a) ns) none ≡ false
  same-last_or a [] = refl
  same-last_or a (n ∷ ns) = same-last_or n.0 ns

  pub head_some :
      (nodes : Nodes A) (head : Option ℕ) (b : ℕ × A) (bs : List (ℕ × A)) (p : Option ℕ)
      → Backward nodes head (b ∷ bs) p
      → same head none ≡ false
  head_some nodes head b [] p (e, back) = rw back refl
  head_some nodes head b (b' ∷ bs) p (e, back) = head_some nodes head b' bs (some b.0) back

  -- The walk to the end.
  pub At-end :
      (l : ChainList A) (bs ns : List (ℕ × A)) (p : Option ℕ)
      → At l bs ns p
      → (cs : List (ℕ × A)) × At l cs [] none
        × (behind (data_of bs) (data_of ns) ≡ behind (data_of cs) [])
  At-end l bs [] p a = (bs, subst (λ q. At l bs [] q) a.onward a, refl)
  At-end l bs (n ∷ ns) p a =
      let (next, e, f, a') = At-next l bs n ns p a in At-end l (n ∷ bs) ns next a'

  pub behind-append : (bs xs ys : List A) → behind bs xs ++ ys ≡ behind bs (xs ++ ys)
  behind-append [] xs ys = refl
  behind-append (b ∷ bs) xs ys = behind-append bs (b ∷ xs) ys
