-- ===== src/Node/Building.antt =====
-- What building a node does to the graph: edges lead to deeper nodes, and the new node is triggered
-- by the parents that it names. Code: wavelet/src/runtime/node.rs.
use wavelet_rs.Prelude.{
  ℕ, ◌+◌, ◌<◌, ◌≡◌, refl, sym, ◌∙◌, ◌⊎◌, inl, inr, [], ◌∷◌, none, some, ◌==◌, ==_iff, ret, All,
  Returns, returns, Returns-bind, Returns-map, Bool-cases, arith, u32_mod,
}
use wavelet_rs.Control.{Relationship}
use wavelet_rs.StableGraph.{StableGraph, Link}
use wavelet_rs.Graph.{NodeContext, new_node, add_node, add_edge}
use wavelet_rs.Scheduling.Entries.{All-map}
use wavelet_rs.Executor.Wiring.{IsWired}
use wavelet_rs.Node.{Parents, build_depth, add_parents, attach}
use wavelet_rs.Node.Depth.{Above, build_depth-Above}
use wavelet_rs.Node.Edges.{
  Linked, Names, not_gone, added_ne, add_node-keeps, add_node_self, add_node-IsWired,
  add_edge-IsWired, add_edge-Linked,
}

module _ {F : Type 0} (P : StableGraph (NodeContext F) Relationship) where
  open P use {Carrier, node_weight, outgoing}

  -- The graph after the new node's edges: nothing else has changed in it.
  pub record Attached (g : Carrier) (idx : ℕ) (ps : Parents) (h : Carrier) : Type 0 where
    pub wired : IsWired P h
    pub same_nodes : (j : ℕ) → node_weight h j ≡ node_weight g j
    pub same_links :
        (j : ℕ) (x : Link Relationship) → Linked x (outgoing g j) → Linked x (outgoing h j)
    pub linked : All (λ (p, r). Linked (r, idx) (outgoing h p.index)) ps

  add_edge-found :
      (g : Carrier) (a b : ℕ) (r : Relationship) (n m : NodeContext F)
      → node_weight g a ≡ some n
      → node_weight g b ≡ some m
      → add_edge P g a b r ≡ ret (P.add_edge g a b r)
  unfolding add_edge
  add_edge-found g a b r n m ea eb = rw (ea, eb, add_edge)

  add_parents-Attached :
      (ps : Parents) (g : Carrier) (idx : ℕ) (n : NodeContext F)
      → IsWired P g
      → node_weight g idx ≡ some n
      → Above n.depth ps
      → All (λ (p, r). Names P g p) ps
      → Returns (Attached g idx ps) (add_parents P g idx ps)
  unfolding add_parents
  add_parents-Attached [] g idx n w e above named =
      returns _ (record { wired = w; same_nodes = λ j. refl; same_links = λ j x h. h; linked = tt })
  add_parents-Attached ((p, r) ∷ ps) g idx n w e above named =
      let x = named.0 in
      let h = P.add_edge g p.index idx r in
      let same = λ (j : ℕ). P.node_weight-add_edge g p.index idx r j in
      let (old, new) = add_edge-Linked P g p.index idx r (not_gone P x.found) in
      rw (add_edge-found g p.index idx r x.node n x.found e) (
        Returns-map
          (λ k a. record {
            wired = a.wired;
            same_nodes = λ j. a.same_nodes j ∙ same j;
            same_links = λ j l y. a.same_links j l (old j l y);
            linked = (a.same_links p.index (r, idx) new, a.linked);
          })
          (add_parents-Attached ps h idx n
            (add_edge-IsWired P g p.index idx r x.node n w x.found e
              (omega (arith, x.at_depth, above.0)))
            (same idx ∙ e) above.1
            (All-map ps
              (λ (q, _) y. record {
                node = y.node;
                found = same q.index ∙ y.found;
                at_depth = y.at_depth;
              })
              named.1)))

  -- What a new node leaves: it is in the graph, unmarked and at the depth that was worked out, with
  -- an edge from each parent; the nodes that were there are as they were and keep their edges, and
  -- every edge still leads to a deeper node.
  pub record Built (g : Carrier) (f : F) (ps : Parents) (out : ℕ × Carrier) : Type 0 where
    pub fresh : node_weight g out.0 ≡ none
    pub added : node_weight out.1 out.0 ≡ some (new_node f (build_depth ps))
    pub others :
        (j : ℕ) (n : NodeContext F) → node_weight g j ≡ some n → node_weight out.1 j ≡ some n
    pub no_more :
        (j : ℕ) (n : NodeContext F)
        → node_weight out.1 j ≡ some n
        → (out.0 ≡ j) ⊎ (node_weight g j ≡ some n)
    pub linked : All (λ (p, r). Linked (r, out.0) (outgoing out.1 p.index)) ps
    pub same_links :
        (j : ℕ) (n : NodeContext F)
        → node_weight g j ≡ some n
        → (x : Link Relationship) → Linked x (outgoing g j)
        → Linked x (outgoing out.1 j)
    pub wired : IsWired P out.1

  -- Building a node under parents that its handles name truly, short of a depth of 2^32, does not
  -- panic. The new node has an edge from each parent, with the relationship to it; the nodes that
  -- were there stay as they were with their edges, and the graph stays wired from shallow to deep.
  pub attach-Built :
      (g : Carrier) (f : F) (ps : Parents)
      → IsWired P g
      → All (λ (p, r). Names P g p) ps
      → All (λ (p, r). p.depth + 1 < u32_mod) ps
      → Returns (Built g f ps) (attach P g f ps)
  unfolding attach add_node new_node
  attach-Built g f ps w named fits =
      let n = new_node f (build_depth ps) in
      let h = (P.add_node g n).1 in
      Returns-bind _
        (add_parents-Attached ps h (P.add_node g n).0 n (add_node-IsWired P g n w)
          (add_node_self P g n) (build_depth-Above ps fits)
          (All-map ps
            (λ (q, _) y. record {
              node = y.node;
              found = add_node-keeps P g n y.node q.index y.found;
              at_depth = y.at_depth;
            })
            named))
        λ k a. returns _ (record {
          fresh = P.add_node_fresh g n;
          added = a.same_nodes _ ∙ add_node_self P g n;
          others = λ j m e. a.same_nodes j ∙ add_node-keeps P g n m j e;
          no_more = λ j m e. elim (Bool-cases ((P.add_node g n).0 == j)) [
            | inl eq ↦ inl ((==_iff _ j).0 eq)
            | inr ne ↦ inr (sym (P.node_weight-add_node g n j ∙ rw ne) ∙ sym (a.same_nodes j) ∙ e)
          ];
          linked = a.linked;
          same_links = λ j m e x h.
              a.same_links j x (rw (P.outgoing-add_node g n j, added_ne P g n m j e) h);
          wired = a.wired;
        })
