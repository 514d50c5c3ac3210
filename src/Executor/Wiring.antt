-- ===== src/Executor/Wiring.antt =====
-- Edges that lead to deeper nodes, and what the executor does with a node's children.
use wavelet_rs.Prelude.{
  ℕ, ap, ◌<◌, ◌≤◌, ◌≡◌, refl, sym, ◌∙◌, inl, inr, Bool, true, List, [], ◌∷◌, some, map, keep, ret,
  arith, All, Bool-cases, eq_of_some, ◌==◌, ==_iff,
}
use wavelet_rs.Control.{Relationship, is_trigger}
use wavelet_rs.StableGraph.{StableGraph, Link}
use wavelet_rs.Graph.{NodeContext, triggering_edges, edges, mark_poisoned, target}
use wavelet_rs.Scheduler.{Scheduler}
use wavelet_rs.Scheduler.Order.{contents}
use wavelet_rs.Scheduling.Entries.{All-map}
use wavelet_rs.Scheduling.Keeps.{
  Marked, Keeps, set-Keeps, set_self, set_ne, Marked-Keeps, Queued-Keeps, Enabled-Keeps,
}
use wavelet_rs.Scheduling.Ready.{Ready, IsReachable}

module _ {F : Type 0} (P : StableGraph (NodeContext F) Relationship) where
  open P use {Carrier, node_weight, set_weight, outgoing}

  -- The node is there, and stands deeper than `d`.
  pub record Deeper (g : Carrier) (d i : ℕ) : Type 0 where
    pub node : NodeContext F
    pub found : node_weight g i ≡ some node
    pub deeper : d < node.depth

  -- Every edge leads from a node to a deeper node.
  abbrev pub IsWired : Carrier → Type 0
  IsWired g =
      (i : ℕ) (n : NodeContext F)
      → node_weight g i ≡ some n
      → All (λ l. Deeper g n.depth (target l)) (outgoing g i)

  pub Deeper-Keeps :
      {epoch : ℕ} {g h : Carrier} (d i : ℕ) → Keeps P epoch g h → Deeper g d i → Deeper h d i
  Deeper-Keeps d i k x =
      let (m, e, dm, _, _) = k.forward i x.node x.found in
      record { node = m; found = e; deeper = omega (arith, x.deeper) }

  pub IsWired-Keeps : {epoch : ℕ} {g h : Carrier} → Keeps P epoch g h → IsWired g → IsWired h
  IsWired-Keeps {g = g} {h = h} k w i m e =
      let (n, en, dn) = k.backward i m e in
      rw (k.same_edges i, dn)
        (All-map (outgoing g i) (λ l. Deeper-Keeps n.depth (target l) k) (w i n en))

  All-target :
      (Q : ℕ → Type 0) (ls : List (Link Relationship))
      → All (λ l. Q (target l)) ls
      → All Q (map target ls)
  All-target Q [] h = tt
  All-target Q (l ∷ ls) h = (h.0, All-target Q ls h.1)

  All-keep :
      (Q : Link Relationship → Type 0) (p : Link Relationship → Bool)
      (ls : List (Link Relationship))
      → All Q ls
      → All Q (keep p ls)
  All-keep Q p [] h = tt
  All-keep Q p (l ∷ ls) h = elim (Bool-cases (p l)) [
    | inl e ↦ rw e (h.0, All-keep Q p ls h.1)
    | inr e ↦ rw e (All-keep Q p ls h.1)
  ]

  pub triggering_edges-Deeper :
      (g : Carrier) (i : ℕ) (n : NodeContext F)
      → IsWired g
      → node_weight g i ≡ some n
      → All (Deeper g n.depth) (triggering_edges P g i)
  unfolding triggering_edges
  triggering_edges-Deeper g i n w e =
      All-target (Deeper g n.depth) (keep (λ l. is_trigger l.0) (outgoing g i))
        (All-keep (λ l. Deeper g n.depth (target l)) (λ l. is_trigger l.0) (outgoing g i) (w i n e))

  pub edges-Deeper :
      (g : Carrier) (i : ℕ) (n : NodeContext F)
      → IsWired g
      → node_weight g i ≡ some n
      → All (Deeper g n.depth) (edges P g i)
  unfolding edges
  edges-Deeper g i n w e = All-target (Deeper g n.depth) (outgoing g i) (w i n e)

  pub triggering_edges-Keeps :
      {epoch : ℕ} {g h : Carrier} (i : ℕ)
      → Keeps P epoch g h
      → triggering_edges P h i ≡ triggering_edges P g i
  unfolding triggering_edges
  triggering_edges-Keeps i k = rw (k.same_edges i)

  pub IsReachable-Deeper :
      (g : Carrier) (s : Scheduler) (d i : ℕ)
      → s.curr_depth ≤ d
      → Deeper g d i
      → IsReachable P g s i
  IsReachable-Deeper g s d i h x m e =
      let same : x.node ≡ m = eq_of_some (sym x.found ∙ e) in
      omega (arith, x.deeper, ap (λ n. n.depth) same)

  -- Poisoning a node changes no mark.
  pub poison-Keeps :
      (epoch : ℕ) (g : Carrier) (i : ℕ) (n : NodeContext F)
      → node_weight g i ≡ some n
      → Keeps P epoch g (set_weight g i (record n { poisoned = true }))
  poison-Keeps epoch g i n e =
      set-Keeps P epoch g i n (record n { poisoned = true }) e refl refl (inr refl)

  pub Marked-poison :
      (epoch : ℕ) (g : Carrier) (i : ℕ) (n : NodeContext F) (j : ℕ)
      → node_weight g i ≡ some n
      → Marked P epoch (set_weight g i (record n { poisoned = true })) j
      → Marked P epoch g j
  Marked-poison epoch g i n j e a = elim (Bool-cases (i == j)) [
    | inr ne ↦ record {
      node = a.node;
      found = sym (set_ne P g i j _ ne) ∙ a.found;
      stamped = a.stamped;
    }
    | inl eq ↦
        let at : i ≡ j = (==_iff i j).0 eq in
        let same : record n { poisoned = true } ≡ a.node = eq_of_some (
          sym (set_self P g i n (record n { poisoned = true }) e)
          ∙ ap (node_weight (set_weight g i (record n { poisoned = true }))) at
          ∙ a.found) in
        record {
          node = n;
          found = ap (node_weight g) (sym at) ∙ e;
          stamped = ap (λ m. m.sched_epoch) same ∙ a.stamped;
        }
  ]

  pub poison-Ready :
      (epoch : ℕ) (seen : List ℕ) (g : Carrier) (s : Scheduler) (i : ℕ) (n : NodeContext F)
      → node_weight g i ≡ some n
      → Ready P epoch seen g s
      → Ready P epoch seen (set_weight g i (record n { poisoned = true })) s
  poison-Ready epoch seen g s i n e r =
      let k = poison-Keeps epoch g i n e in
      record {
        valid = r.valid;
        enabled = Enabled-Keeps P s s k (omega arith) r.enabled;
        queued = All-map (contents s) (Queued-Keeps P k) r.queued;
        distinct = r.distinct;
        unseen = r.unseen;
        seen_marked = All-map seen (Marked-Keeps P k) r.seen_marked;
        seen_distinct = r.seen_distinct;
        accounted = λ j a. r.accounted j (Marked-poison epoch g i n j e a);
      }

  pub mark_poisoned-found :
      (g : Carrier) (i : ℕ) (n : NodeContext F)
      → node_weight g i ≡ some n
      → mark_poisoned P g i ≡ ret (set_weight g i (record n { poisoned = true }))
  unfolding mark_poisoned
  mark_poisoned-found g i n e = rw (e, mark_poisoned)
