-- ===== src/Chain/Deletes.antt =====
-- `deleteNodeEx` of c/libs/fastcommon/src/chain.c at a place in the list.
use c_workspace.Common.{
  ℕ, ◌≡◌, refl, ap, ◌∙◌, true, false, Bool, if◌then◌else◌, Option, none, some, ◌>>=◌, List, [], ◌∷◌,
  ◌++◌, arith,
}
use c_workspace.Chain.{ChainList, put, same, set_next, free_chain_node}
use c_workspace.Chain.Remove.{delete_node_ex}
use c_workspace.Chain.Linked.{
  Nodes, node, Onward, top, last_or, Lacks, put_other, put_here, Onward-put, Backward-put,
  Lacks-split, Apart-middle, head-Lacks,
}
use c_workspace.Chain.Place.{At, set_next_before, Lacks-flip}

same_self : (a : ℕ) → same (some a) (some a) ≡ true
same_self a = ground arith

module _ {A : Type 0} where
  pub same_last :
      (a : ℕ) (ns : List (ℕ × A)) (b : ℕ × A)
      → Lacks a (b ∷ ns)
      → same (some a) (last_or (some b.0) ns) ≡ false
  same_last a [] b h = ground (arith, h.0)
  same_last a (n ∷ ns) b h = same_last a ns n h.1

  -- The tail after the node `a` is gone.
  tail_after :
      (a : ℕ) (previous : Option ℕ) (ns : List (ℕ × A))
      → Lacks a ns
      → (if same (some a) (last_or (some a) ns) then previous else last_or (some a) ns)
        ≡ last_or previous ns
  tail_after a previous [] h = ground arith
  tail_after a previous (n ∷ ns) h = rw (same_last a ns n h) refl

  -- The pointer that led to the node is changed, and then the node is no more.
  abbrev before_nodes : Nodes A → List (ℕ × A) → Option ℕ → Nodes A
  before_nodes nodes [] next = nodes
  before_nodes nodes (b ∷ bs) next = put nodes b.0 (node b.1 next)

  abbrev cut_head : Option ℕ → List (ℕ × A) → Option ℕ → Option ℕ
  cut_head head [] next = next
  cut_head head (b ∷ bs) next = head

  -- The list after the node at a place is taken out.
  abbrev pub cut :
      ChainList A → List (ℕ × A) → ℕ × A → List (ℕ × A) → Option ℕ → List A → ChainList A
  cut l bs n ns next freed = record l {
    nodes = put (before_nodes l.nodes bs next) n.0 none;
    head = cut_head l.head bs next;
    tail = last_or (top bs) ns;
    freed = freed;
  }

  pub cut-At :
      (l : ChainList A) (bs : List (ℕ × A)) (n : ℕ × A) (ns : List (ℕ × A)) (p next : Option ℕ)
      (freed : List A)
      → At l bs (n ∷ ns) p
      → Onward l.nodes next ns
      → At (cut l bs n ns next freed) bs ns next
  cut-At l [] n ns p next freed a o = record {
    back = refl;
    onward = Onward-put l.nodes n.0 none next ns a.apart.0 o;
    apart = a.apart.1;
    tail_last = refl;
  }
  cut-At l (b ∷ bs) n ns p next freed a o =
      let (lacks_b, apart_bs) = Apart-middle n (b ∷ bs) ns a.apart in
      let parts = Lacks-split n.0 (b ∷ bs) ns lacks_b in
      let apart_b = Lacks-split b.0 bs ns apart_bs.0 in
      let nodes' = put l.nodes b.0 (node b.1 next) in
      record {
        back = Backward-put nodes' n.0 none l.head (b ∷ bs) next parts.0 (
          put_here l.nodes b.0 (node b.1 next),
          Backward-put l.nodes b.0 (node b.1 next) l.head bs (some b.0) apart_b.0 a.back.1,
        );
        onward =
            Onward-put nodes' n.0 none next ns parts.1
              (Onward-put l.nodes b.0 (node b.1 next) next ns apart_b.1 o);
        apart = apart_bs;
        tail_last = refl;
      }

  with_tail :
      (l : ChainList A) (t : Option ℕ) (at_end : Bool)
      → Path
          (ChainList A)
          (if at_end then record l { tail = t } else l)
          (record l { tail = if at_end then t else l.tail })
  with_tail l t true = refl
  with_tail l t false = refl

  pub free_node :
      (l : ChainList A) (p : ℕ) (x : A) (next : Option ℕ)
      → l.nodes p ≡ node x next
      → free_chain_node l p
        ≡ some (record l {
          nodes = put l.nodes p none;
          freed = if l.free_data_func then l.freed ++ (x ∷ []) else l.freed;
        })
  unfolding free_chain_node
  free_node l p x next e = rw (e, ◌>>=◌) refl

  -- What is freed besides the node.
  abbrev pub freed_with : ChainList A → A → List A
  freed_with l x = if l.free_data_func then l.freed ++ (x ∷ []) else l.freed

  free_last :
      (l : ChainList A) (n : ℕ × A) (next : Option ℕ) (at_end : Bool) (previous : Option ℕ)
      → l.nodes n.0 ≡ node n.1 next
      → free_chain_node (if at_end then record l { tail = previous } else l) n.0
        ≡ some (record l {
          tail = if at_end then previous else l.tail;
          nodes = put l.nodes n.0 none;
          freed = freed_with l n.1;
        })
  free_last l n next at_end previous e =
      ap (λ l'. free_chain_node l' n.0) (with_tail l previous at_end)
      ∙ free_node (record l { tail = if at_end then previous else l.tail }) n.0 n.1 next e

  module _ (l : ChainList A) (n : ℕ × A) (ns : List (ℕ × A)) (next : Option ℕ)
      (f : l.nodes n.0 ≡ node n.1 next) where
    tail_gone :
        (bs : List (ℕ × A))
        → At l bs (n ∷ ns) (some n.0)
        → (if same (some n.0) l.tail then top bs else l.tail) ≡ last_or (top bs) ns
    tail_gone bs a =
        ap (λ t. if same (some n.0) t then top bs else t) a.tail_last
        ∙ tail_after n.0 (top bs) ns (Lacks-split n.0 bs ns (Apart-middle n bs ns a.apart).0).1

    free_then : List (ℕ × A) → ChainList A → Option (ChainList A)
    free_then bs l1 =
        free_chain_node (if same (some n.0) l.tail then record l1 { tail = top bs } else l1) n.0

    linked_cut :
        (bs : List (ℕ × A))
        → At l bs (n ∷ ns) (some n.0)
        → (if same (some n.0) l.head
            then some (record l { head = next })
            else (top bs >>= λ b. set_next l b next))
          ≡ some (record l { head = cut_head l.head bs next; nodes = before_nodes l.nodes bs next })
    linked_cut [] a =
        ap
          (λ h.
            if same (some n.0) h
            then some (record l { head = next })
            else (none >>= λ b. set_next l b next))
          a.back
        ∙ rw (same_self n.0) refl
    linked_cut (b ∷ bs) a =
        let parts = Lacks-split n.0 (b ∷ bs) ns (Apart-middle n (b ∷ bs) ns a.apart).0 in
        let first : same (some n.0) l.head ≡ false =
          head-Lacks l.nodes n.0 l.head b bs (some n.0) parts.0 a.back in
        ap
          (λ h.
            if h then some (record l { head = next }) else (some b.0 >>= λ b. set_next l b next))
          first
        ∙ set_next_before l b (some n.0) next a.back.0

    still :
        (bs : List (ℕ × A))
        → At l bs (n ∷ ns) (some n.0)
        → before_nodes l.nodes bs next n.0 ≡ node n.1 next
    still [] a = f
    still (b ∷ bs) a =
        let parts = Lacks-split n.0 (b ∷ bs) ns (Apart-middle n (b ∷ bs) ns a.apart).0 in
        put_other l.nodes b.0 (node b.1 next) n.0 (Lacks-flip n b parts.0.0) ∙ f

    -- `deleteNodeEx` at a place takes the node there out.
    pub delete_node_ex-cut :
        (bs : List (ℕ × A))
        → At l bs (n ∷ ns) (some n.0)
        → delete_node_ex l (top bs) n.0 ≡ some (cut l bs n ns next (freed_with l n.1))
    unfolding delete_node_ex free_then
    delete_node_ex-cut bs a =
        let l1 = record l {
          head = cut_head l.head bs next;
          nodes = before_nodes l.nodes bs next;
        } in
        ap
          (λ c. c >>= λ c.
            (if same (some n.0) l.head
              then some (record l { head = c.next })
              else (top bs >>= λ b. set_next l b c.next))
            >>= free_then bs)
          f
        ∙ ap (λ q. q >>= free_then bs) (linked_cut bs a)
        ∙ free_last l1 n next (same (some n.0) l.tail) (top bs) (still bs a)
        ∙ ap (λ t. some (record (cut l bs n ns next (freed_with l n.1)) { tail = t }))
            (tail_gone bs a)
