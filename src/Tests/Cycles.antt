-- ===== src/Tests/Cycles.antt =====
-- The executor's theorems at a graph of two nodes, where the first triggers the second.
use wavelet_rs.Prelude.{
  ℕ, zero, suc, ap, ◌≡◌, refl, ◌⊎◌, inl, inr, false, [], ◌∷◌, some, arith, Returns, eq_of_some,
}
use wavelet_rs.Control.{Control, Relationship}
use wavelet_rs.StableGraph.Slots.{slots}
use wavelet_rs.Graph.{NodeContext}
use wavelet_rs.EventDriver.{EventDriver, spin}
use wavelet_rs.EventDriver
use wavelet_rs.Scheduler.Order.{contents}
use wavelet_rs.Scheduling.Entries.{In, Waits}
use wavelet_rs.Scheduling.Keeps.{Marked}
use wavelet_rs.Scheduling.Offers.{Enabled}
use wavelet_rs.Executor.Context
use wavelet_rs.Executor.Cycle.{Work, node_loop}
use wavelet_rs.Executor.Wiring.{IsWired}
use wavelet_rs.Executor.Turns.{Looping}
use wavelet_rs.Executor.NodeLoop.{Propagates, node_loop-Propagates}
use wavelet_rs.Tests.Sample.{sample, constant, constant-IsQuiet}

abbrev parent : NodeContext Control
parent = record { cycle_fn = Control.broadcast; sched_epoch = 1; depth = 0; poisoned = false }

abbrev child : NodeContext Control
child = record { cycle_fn = Control.unchanged; sched_epoch = 0; depth = 1; poisoned = false }

-- Node 0 waits in the first epoch.
abbrev two_nodes : Work sample
unfolding slots
two_nodes = record {
  graph = some (parent, (Relationship.trigger, 1) ∷ []) ∷ some (child, []) ∷ [];
  context =
      Context.new sample (EventDriver.new _ _ _ spin)
        (record { multi_queue = (0 ∷ []) ∷ [] ∷ []; curr_depth = 0; pending_events = 1 }) []
        (record { instant = 0; unix_time = 0 }) 1 (record { removal_queue = [] }) 0;
  edge_buffer = [];
}

two_nodes-IsWired : IsWired sample.graphs two_nodes.graph
unfolding slots
two_nodes-IsWired zero n e =
    let top : parent ≡ n = eq_of_some e in
    (record { node = child; found = refl; deeper = omega (arith, ap (λ x. x.depth) top) }, tt)
two_nodes-IsWired (suc zero) n e = tt
two_nodes-IsWired (suc (suc i)) n e = tt

two_nodes-Enabled : Enabled sample.graphs two_nodes.graph two_nodes.context.scheduler
unfolding slots Context.new
two_nodes-Enabled zero n e =
    let top : parent ≡ n = eq_of_some e in omega (arith, ap (λ x. x.depth) top)
two_nodes-Enabled (suc zero) n e =
    let low : child ≡ n = eq_of_some e in omega (arith, ap (λ x. x.depth) low)
two_nodes-Enabled (suc (suc i)) n e = cc

two_nodes-accounted :
    (i : ℕ)
    → Marked sample.graphs 1 two_nodes.graph i
    → In i [] ⊎ Waits i (contents two_nodes.context.scheduler)
unfolding slots Context.new
two_nodes-accounted zero a = inr (inl refl)
two_nodes-accounted (suc zero) a =
    let low : child ≡ a.node = eq_of_some a.found in
    absurd (omega (arith, ap (λ x. x.sched_epoch) low, a.stamped))
two_nodes-accounted (suc (suc i)) a = let gone = a.found in cc

two_nodes-Looping : Looping sample 1 [] two_nodes
unfolding slots Context.new
two_nodes-Looping = record {
  ready = record {
    valid = record { counted = refl; drained = tt };
    enabled = two_nodes-Enabled;
    queued = (record { node = parent; found = refl; stamped = refl; placed_at = refl }, tt);
    distinct = (tt, tt);
    unseen = (tt, tt);
    seen_marked = tt;
    seen_distinct = tt;
    accounted = two_nodes-accounted;
  };
  wired = two_nodes-IsWired;
  no_buffer = refl;
}

node_loop-Propagates_example :
    Returns (Propagates sample constant 1 two_nodes) (node_loop sample constant 3 1 two_nodes)
unfolding slots
node_loop-Propagates_example =
    node_loop-Propagates sample constant constant-IsQuiet 1 3 two_nodes two_nodes-Looping
      (omega arith)
