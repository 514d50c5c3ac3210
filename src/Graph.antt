-- ===== src/Graph.antt =====
-- wavelet/src/runtime/graph.rs: the nodes, their scheduling marks and their edges.
-- A closure is a value of a type `F`; what running it does is an argument of `cycle`.
use wavelet_rs.Prelude.{
  ℕ, Bool, true, false, List, Option, none, some, ◌==◌, if◌then◌else◌, keep, map, Call, ret, panic,
}
use wavelet_rs.Control.{Control, Relationship, is_trigger}
use wavelet_rs.StableGraph.{StableGraph, Link}

pub record NodeContext (F : Type 0) : Type 0 where
  pub cycle_fn : F
  pub sched_epoch : ℕ
  pub depth : ℕ
  pub poisoned : Bool

module _ {F : Type 0} where
  unfoldable pub new_node : F → ℕ → NodeContext F
  new_node cycle_fn depth = record {
    cycle_fn = cycle_fn;
    sched_epoch = 0;
    depth = depth;
    poisoned = false;
  }

  -- `NodeContext::cycle`: a poisoned node asks to be swept without being run.
  unfoldable pub cycle_node :
      {C : Type 0} → (F → C → Call (Control × C)) → NodeContext F → C → Call (Control × C)
  cycle_node run n ctx = if n.poisoned then ret (Control.sweep, ctx) else run n.cycle_fn ctx

abbrev pub target : Link Relationship → ℕ
target l = l.1

module _ {F : Type 0} (P : StableGraph (NodeContext F) Relationship) where
  open P use {Carrier, node_weight, set_weight, outgoing}

  -- A missing node is not scheduled; one that was marked in this epoch is not scheduled again.
  unfoldable pub can_schedule : Carrier → ℕ → ℕ → Option ℕ × Carrier
  can_schedule g i epoch = elim (node_weight g i) [
    | none ↦ (none, g)
    | some n ↦
        if n.sched_epoch == epoch
        then (none, g)
        else (some n.depth, set_weight g i (record n { sched_epoch = epoch }))
  ]

  unfoldable pub triggering_edges : Carrier → ℕ → List ℕ
  triggering_edges g i = map target (keep (λ l. is_trigger l.0) (outgoing g i))

  unfoldable pub edges : Carrier → ℕ → List ℕ
  edges g i = map target (outgoing g i)

  -- Indexing the graph at a missing node panics.
  unfoldable pub cycle :
      {C : Type 0} → (F → C → Call (Control × C)) → Carrier → C → ℕ → Call (Control × C)
  cycle run g ctx i = elim (node_weight g i) [ none ↦ panic | some n ↦ cycle_node run n ctx ]

  unfoldable pub mark_poisoned : Carrier → ℕ → Call Carrier
  mark_poisoned g i = elim (node_weight g i) [
    | none ↦ panic
    | some n ↦ ret (set_weight g i (record n { poisoned = true }))
  ]

  unfoldable pub add_node : Carrier → NodeContext F → ℕ × Carrier
  add_node g n = P.add_node g n

  -- petgraph panics if an end of the edge is missing.
  unfoldable pub add_edge : Carrier → ℕ → ℕ → Relationship → Call Carrier
  add_edge g parent child relationship = elim (node_weight g parent) [
    | none ↦ panic
    | some n ↦ elim (node_weight g child) [
      | none ↦ panic
      | some m ↦ ret (P.add_edge g parent child relationship)
    ]
  ]

  unfoldable pub remove_node : Carrier → ℕ → Carrier
  remove_node g i = P.remove_node g i

  unfoldable pub node_count : Carrier → ℕ
  node_count g = P.node_count g

  unfoldable pub is_empty : Carrier → Bool
  is_empty g = node_count g == 0
