-- ===== src/Chain/Linked.antt =====
-- The nodes of a list of c/libs/fastcommon/src/chain.c at a place in it: those before it, the nearest first,
-- and those from it on.
use c_workspace.Common.{
  ℕ, ◌≡◌, refl, sym, subst, ◌∙◌, ◌==◌, false, Option, none, some, List, [], ◌∷◌, ◌++◌, arith, All,
  All-append,
}
use c_workspace.Chain.{ChainNode, put, same}

abbrev pub Nodes : Type 0 → Type 0
Nodes A = ℕ → Option (ChainNode A)

module _ {A : Type 0} where
  abbrev pub node : A → Option ℕ → Option (ChainNode A)
  node x next = some (record { datum = x; next = next })

  -- From the pointer `p` on the store has these nodes, and then NULL.
  abbrev pub Onward : Nodes A → Option ℕ → List (ℕ × A) → Type 0
  Onward nodes p [] = p ≡ none
  Onward nodes p (n ∷ ns) =
      (next : Option ℕ) × (p ≡ some n.0) × (nodes n.0 ≡ node n.1 next) × Onward nodes next ns

  -- From the pointer `head` the store has these nodes, backward, and then the pointer `p`.
  abbrev pub Backward : Nodes A → Option ℕ → List (ℕ × A) → Option ℕ → Type 0
  Backward nodes head [] p = head ≡ p
  Backward nodes head (b ∷ bs) p = (nodes b.0 ≡ node b.1 p) × Backward nodes head bs (some b.0)

  -- The nodes of both, in order.
  abbrev pub onto : List (ℕ × A) → List (ℕ × A) → List (ℕ × A)
  onto [] ns = ns
  onto (b ∷ bs) ns = onto bs (b ∷ ns)

  pub Onward-onto :
      (nodes : Nodes A) (head : Option ℕ) (bs ns : List (ℕ × A)) (p : Option ℕ)
      → Backward nodes head bs p
      → Onward nodes p ns
      → Onward nodes head (onto bs ns)
  Onward-onto nodes head [] ns p b o = subst (λ q. Onward nodes q ns) (sym b) o
  Onward-onto nodes head (b ∷ bs) ns p (e, back) o =
      Onward-onto nodes head bs (b ∷ ns) (some b.0) back (p, refl, e, o)

  -- The address of the first, or of the last behind `previous`.
  abbrev pub top : List (ℕ × A) → Option ℕ
  top [] = none
  top (b ∷ bs) = some b.0

  abbrev pub last_or : Option ℕ → List (ℕ × A) → Option ℕ
  last_or previous [] = previous
  last_or previous (n ∷ ns) = last_or (some n.0) ns

  -- The node `a` is none of these.
  abbrev pub Lacks : ℕ → List (ℕ × A) → Type 0
  Lacks a = All (λ n. (n.0 == a) ≡ false)

  -- No two have one address.
  abbrev pub Apart : List (ℕ × A) → Type 0
  Apart [] = Unit
  Apart (n ∷ ns) = Lacks n.0 ns × Apart ns

  pub put_other :
      (nodes : Nodes A) (a : ℕ) (c : Option (ChainNode A)) (b : ℕ)
      → (b == a) ≡ false
      → put nodes a c b ≡ nodes b
  put_other nodes a c b h = rw h refl

  pub put_here : (nodes : Nodes A) (a : ℕ) (c : Option (ChainNode A)) → put nodes a c a ≡ c
  put_here nodes a c = ground arith

  pub Onward-put :
      (nodes : Nodes A) (a : ℕ) (c : Option (ChainNode A)) (p : Option ℕ) (ns : List (ℕ × A))
      → Lacks a ns
      → Onward nodes p ns
      → Onward (put nodes a c) p ns
  Onward-put nodes a c p [] h o = o
  Onward-put nodes a c p (n ∷ ns) h (next, e, f, o) =
      (next, e, put_other nodes a c n.0 h.0 ∙ f, Onward-put nodes a c next ns h.1 o)

  pub Backward-put :
      (nodes : Nodes A) (a : ℕ) (c : Option (ChainNode A)) (head : Option ℕ) (bs : List (ℕ × A))
      (p : Option ℕ)
      → Lacks a bs
      → Backward nodes head bs p
      → Backward (put nodes a c) head bs p
  Backward-put nodes a c head [] p h back = back
  Backward-put nodes a c head (b ∷ bs) p h (e, back) =
      (put_other nodes a c b.0 h.0 ∙ e, Backward-put nodes a c head bs (some b.0) h.1 back)

  -- An address that is not allocated.
  pub Onward-Lacks :
      (nodes : Nodes A) (a : ℕ) (p : Option ℕ) (ns : List (ℕ × A))
      → nodes a ≡ none
      → Onward nodes p ns
      → Lacks a ns
  Onward-Lacks nodes a p [] h o = tt
  Onward-Lacks nodes a p (n ∷ ns) h (next, e, f, o) =
      (ground (arith, f, h), Onward-Lacks nodes a next ns h o)

  pub Backward-Lacks :
      (nodes : Nodes A) (a : ℕ) (head : Option ℕ) (bs : List (ℕ × A)) (p : Option ℕ)
      → nodes a ≡ none
      → Backward nodes head bs p
      → Lacks a bs
  Backward-Lacks nodes a head [] p h back = tt
  Backward-Lacks nodes a head (b ∷ bs) p h (e, back) =
      (ground (arith, e, h), Backward-Lacks nodes a head bs (some b.0) h back)

  pub head-Lacks :
      (nodes : Nodes A) (a : ℕ) (head : Option ℕ) (b : ℕ × A) (bs : List (ℕ × A)) (p : Option ℕ)
      → Lacks a (b ∷ bs)
      → Backward nodes head (b ∷ bs) p
      → same (some a) head ≡ false
  head-Lacks nodes a head b [] p h (e, back) = rw back (ground arith)
  head-Lacks nodes a head b (b' ∷ bs) p h (e, back) =
      head-Lacks nodes a head b' bs (some b.0) h.1 back

  pub Lacks-split : (a : ℕ) (bs ns : List (ℕ × A)) → Lacks a (bs ++ ns) → Lacks a bs × Lacks a ns
  Lacks-split a [] ns h = (tt, h)
  Lacks-split a (b ∷ bs) ns h = let k = Lacks-split a bs ns h.1 in ((h.0, k.0), k.1)

  -- The node between others can be taken out, and put first.
  pub Apart-middle :
      (n : ℕ × A) (bs ns : List (ℕ × A)) → Apart (bs ++ (n ∷ ns)) → Apart (n ∷ (bs ++ ns))
  Apart-middle n [] ns h = h
  Apart-middle n (b ∷ bs) ns h =
      let k = Apart-middle n bs ns h.1 in
      let parts = Lacks-split b.0 bs (n ∷ ns) h.0 in
      (
        (ground (arith, parts.1.0), k.0),
        (All-append (λ m. (m.0 == b.0) ≡ false) bs ns parts.0 parts.1.1, k.1),
      )
