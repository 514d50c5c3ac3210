-- ===== src/Node/Edges.antt =====
-- What adding a node or an edge to the graph does: the links of each node, and that edges lead to
-- deeper nodes. Code: wavelet/src/runtime/node.rs and wavelet/src/runtime/graph.rs.
use wavelet_rs.Prelude.{
  ℕ, ap, ◌<◌, ◌≡◌, ◌≢◌, refl, sym, ◌∙◌, ◌⊎◌, inl, inr, List, map, keep, false, [], ◌∷◌, none, some,
  ◌==◌, ==_iff, Bool-cases, ==_refl, arith, eq_of_some,
}
use wavelet_rs.Control.{Relationship, is_trigger}
use wavelet_rs.StableGraph.{StableGraph, Link}
use wavelet_rs.Graph.{NodeContext, target}
use wavelet_rs.Scheduling.Entries.{All-map, In}
use wavelet_rs.Executor.Wiring.{IsWired}
use wavelet_rs.Node.{RawHandle}

-- The link stands in the list.
abbrev pub Linked : Link Relationship → List (Link Relationship) → Type 0
Linked x [] = ⊥
Linked x (y ∷ l) = (y ≡ x) ⊎ Linked x l

-- Over a link that triggers, a node is among the triggered ones.
pub Linked-triggers :
    (i : ℕ) (ls : List (Link Relationship))
    → Linked (Relationship.trigger, i) ls
    → In i (map target (keep (λ l. is_trigger l.0) ls))
Linked-triggers i [] h = elim h [ ]
Linked-triggers i ((r, j) ∷ ls) (inl e) = rw (ap (λ x. x.0) e) (inl (ap (λ x. x.1) e))
Linked-triggers i ((Relationship.trigger, j) ∷ ls) (inr h) = inr (Linked-triggers i ls h)
Linked-triggers i ((Relationship.observe, j) ∷ ls) (inr h) = Linked-triggers i ls h

module _ {F : Type 0} (P : StableGraph (NodeContext F) Relationship) where
  open P use {Carrier, node_weight, outgoing}

  -- A handle that tells the truth: its node is in the graph, at its depth.
  pub record Names (g : Carrier) (p : RawHandle) : Type 0 where
    pub node : NodeContext F
    pub found : node_weight g p.index ≡ some node
    pub at_depth : node.depth ≡ p.depth

  pub not_gone :
      {g : Carrier} {i : ℕ} {n : NodeContext F} → node_weight g i ≡ some n → node_weight g i ≢ none
  not_gone e gone = let clash = sym e ∙ gone in cc

  -- Adding a node: what was there stays, and the index is new.
  pub added_ne :
      (g : Carrier) (n m : NodeContext F) (j : ℕ)
      → node_weight g j ≡ some m
      → ((P.add_node g n).0 == j) ≡ false
  added_ne g n m j e = elim (Bool-cases ((P.add_node g n).0 == j)) [
    | inr ne ↦ ne
    | inl eq ↦
        let clash : some m ≡ none =
          sym e ∙ ap (node_weight g) (sym ((==_iff _ j).0 eq)) ∙ P.add_node_fresh g n in
        cc
  ]

  pub add_node-keeps :
      (g : Carrier) (n m : NodeContext F) (j : ℕ)
      → node_weight g j ≡ some m
      → node_weight (P.add_node g n).1 j ≡ some m
  add_node-keeps g n m j e = P.node_weight-add_node g n j ∙ rw (added_ne g n m j e) e

  pub add_node_self :
      (g : Carrier) (n : NodeContext F) → node_weight (P.add_node g n).1 (P.add_node g n).0 ≡ some n
  add_node_self g n =
      P.node_weight-add_node g n (P.add_node g n).0 ∙ rw (==_refl (P.add_node g n).0)

  pub add_node-IsWired :
      (g : Carrier) (n : NodeContext F) → IsWired P g → IsWired P (P.add_node g n).1
  add_node-IsWired g n w j m e = elim (Bool-cases ((P.add_node g n).0 == j)) [
    | inl eq ↦ rw (P.outgoing-add_node g n j, eq) tt
    | inr ne ↦
        let old : node_weight g j ≡ some m = sym (P.node_weight-add_node g n j ∙ rw ne) ∙ e in
        rw (P.outgoing-add_node g n j, ne)
          (All-map (outgoing g j)
            (λ l x. record {
              node = x.node;
              found = add_node-keeps g n x.node (target l) x.found;
              deeper = x.deeper;
            })
            (w j m old))
  ]

  -- Adding an edge from a node to a deeper one.
  pub add_edge-IsWired :
      (g : Carrier) (a b : ℕ) (r : Relationship) (n m : NodeContext F)
      → IsWired P g
      → node_weight g a ≡ some n
      → node_weight g b ≡ some m
      → n.depth < m.depth
      → IsWired P (P.add_edge g a b r)
  add_edge-IsWired g a b r n m w ea eb deeper j o e =
      let old : node_weight g j ≡ some o = sym (P.node_weight-add_edge g a b r j) ∙ e in
      let kept =
        All-map (outgoing g j)
          (λ l x. record {
            node = x.node;
            found = P.node_weight-add_edge g a b r (target l) ∙ x.found;
            deeper = x.deeper;
          })
          (w j o old) in
      elim (Bool-cases (a == j)) [
        | inr ne ↦ rw (P.outgoing-add_edge g a b r j (not_gone ea), ne) kept
        | inl eq ↦
            let same : n ≡ o = eq_of_some (sym ea ∙ ap (node_weight g) ((==_iff a j).0 eq) ∙ old) in
            rw (P.outgoing-add_edge g a b r j (not_gone ea), eq)
              (
                record {
                  node = m;
                  found = P.node_weight-add_edge g a b r b ∙ eb;
                  deeper = omega (arith, ap (λ x. x.depth) same);
                },
                kept,
              )
      ]

  pub add_edge-Linked :
      (g : Carrier) (a b : ℕ) (r : Relationship)
      → node_weight g a ≢ none
      → ((j : ℕ) (x : Link Relationship)
          → Linked x (outgoing g j)
          → Linked x (outgoing (P.add_edge g a b r) j))
        × Linked (r, b) (outgoing (P.add_edge g a b r) a)
  add_edge-Linked g a b r there = (
    λ j x h. elim (Bool-cases (a == j)) [
      | inl eq ↦ rw (P.outgoing-add_edge g a b r j there, eq) (inr h)
      | inr ne ↦ rw (P.outgoing-add_edge g a b r j there, ne) h
    ],
    rw (P.outgoing-add_edge g a b r a there, ==_refl a) (inl refl),
  )
