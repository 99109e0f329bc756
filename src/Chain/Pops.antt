-- ===== src/Chain/Pops.antt =====
-- `chain_pop_head` of c/libs/fastcommon/src/chain.c.
use c_workspace.Common.{
  ℕ, ◌≡◌, refl, ap, subst, ◌∙◌, if◌then◌else◌, Option, none, some, ◌>>=◌, List, [], ◌∷◌, arith,
  Returns,
}
use c_workspace.Chain.{ChainList, put, same, chain_pop_head}
use c_workspace.Chain.Linked.{node, Onward, last_or}
use c_workspace.Chain.Place.{Holds, Turns, At-Holds, At-next}
use c_workspace.Chain.Deletes.{cut, cut-At}

module _ {A : Type 0} where
  -- The tail that `chain_pop_head` leaves.
  tail_popped :
      (l : ChainList A) (n : ℕ × A) (ns : List (ℕ × A)) (next : Option ℕ)
      → l.tail ≡ last_or (some n.0) ns
      → Onward l.nodes next ns
      → (if same next none then none else l.tail) ≡ last_or none ns
  tail_popped l n [] next t o = rw o refl
  tail_popped l n (m ∷ ms) next t (q, e, f, o) = rw (e, t) refl

  -- The call, by the pointer to the first node.
  abbrev pop_by : ChainList A → Option ℕ → Option (Option A × ChainList A)
  pop_by l h = elim h as (λ y. Option (Option A × ChainList A)) [
    | none ↦ some (none, l)
    | some p ↦ do
      c ← l.nodes p
      some (
        some c.datum,
        record l {
          head = c.next;
          tail = if same c.next none then none else l.tail;
          nodes = put l.nodes p none;
        },
      )
  ]

  pub chain_pop_head-none : (l : ChainList A) → l.head ≡ none → chain_pop_head l ≡ some (none, l)
  unfolding chain_pop_head
  chain_pop_head-none l e = ap (pop_by l) e

  -- `chain_pop_head` gives the first datum and takes its node out; the datum is not freed.
  pub chain_pop_head-Holds :
      (l : ChainList A) (x : A) (xs : List A)
      → Holds l (x ∷ xs)
      → Returns (chain_pop_head l) (λ o. (o.0 ≡ some x) × Turns l o.1 xs l.freed)
  unfolding chain_pop_head
  chain_pop_head-Holds l x xs ([], a, d) = absurd (ground (arith, d))
  chain_pop_head-Holds l x xs (n ∷ ns, a, d) =
      let (next, e, f, a') = At-next l [] n ns l.head a in
      let l' = cut l [] n ns next l.freed in
      (
        (some n.1, l'),
        popped l n next e f
            ∙ ap (λ t. some (some n.1, record l' { tail = t }))
                (tail_popped l n ns next a.tail_last a'.onward),
        (
          ap some (ground (arith, d)),
          (
            subst (λ ys. Holds l' ys) (ground (arith, d))
                (At-Holds l' [] ns next (cut-At l [] n ns l.head next l.freed a a'.onward)),
            refl,
            refl,
            refl,
            refl,
          ),
        ),
      )
    where
      popped :
          (l : ChainList A) (n : ℕ × A) (next : Option ℕ)
          → l.head ≡ some n.0
          → l.nodes n.0 ≡ node n.1 next
          → chain_pop_head l
            ≡ some (
              some n.1,
              record l {
                head = next;
                tail = if same next none then none else l.tail;
                nodes = put l.nodes n.0 none;
              },
            )
      popped l n next e f = ap (pop_by l) e ∙ rw (f, ◌>>=◌) refl
