-- ===== src/Tests/Budgets.antt =====
-- The node loop at a graph of two nodes, where the first triggers the second and also schedules it.
use wavelet_rs.Prelude.{
  ℕ, zero, suc, ap, ◌≡◌, refl, ◌⊎◌, inl, inr, false, [], ◌∷◌, Option, none, some, arith, Returns,
  eq_of_some, returns, Returns-bind, ret, ◌>>=◌,
}
use wavelet_rs.Control.{Control, Relationship}
use wavelet_rs.StableGraph.Slots.{slots}
use wavelet_rs.ArrayQueue.Bounded.{bounded}
use wavelet_rs.Graph.{NodeContext, edges}
use wavelet_rs.Platform.{Platform}
use wavelet_rs.EventDriver.{spin}
use wavelet_rs.EventDriver
use wavelet_rs.Scheduler.Order.{contents}
use wavelet_rs.Scheduling.Entries.{In, Waits}
use wavelet_rs.Scheduling.Keeps.{Marked}
use wavelet_rs.Scheduling.Offers.{Enabled}
use wavelet_rs.Executor.{Closures}
use wavelet_rs.Executor.Context
use wavelet_rs.Executor.Context.{schedule_node}
use wavelet_rs.Executor.Cycle.{Work, node_loop}
use wavelet_rs.Executor.Wiring.{IsWired}
use wavelet_rs.Executor.Answers.{Carrying}
use wavelet_rs.Executor.Frugal.{IsFrugal, HasBudget, Adds-none, schedule_node-Adds}
use wavelet_rs.Executor.Spending.{Spends, node_loop-Spends}
use wavelet_rs.Tests.Sample.{scripted, table}

-- A closure may schedule one node, with its depth, and then broadcasts.
abbrev caller : Platform
caller = record {
  mio = scripted;
  slab = table ℕ;
  queue = bounded ℕ;
  Closure = Option (ℕ × ℕ);
  Spawn = ℕ;
  Store = ℕ;
  Time = ℕ;
  graphs = slots (NodeContext (Option (ℕ × ℕ))) Relationship;
}

abbrev calls : Closures caller
calls = record {
  run = λ f ctx. elim f [
    | none ↦ ret (Control.unchanged, ctx)
    | some (j, d) ↦ schedule_node caller j d ctx >>= λ (answer, ctx'). ret (Control.broadcast, ctx')
  ];
  drop = λ f r. r;
  spawn = λ f e. ret e;
}

abbrev weight : ℕ → ℕ
weight zero = 3
weight (suc i) = 1

abbrev own : ℕ → ℕ
own zero = 1
own (suc i) = 0

abbrev parent : NodeContext (Option (ℕ × ℕ))
parent = record { cycle_fn = some (1, 1); sched_epoch = 1; depth = 0; poisoned = false }

abbrev child : NodeContext (Option (ℕ × ℕ))
child = record { cycle_fn = none; sched_epoch = 0; depth = 1; poisoned = false }

-- Node 0 waits in the first epoch.
abbrev two_callers : Work caller
unfolding slots
two_callers = record {
  graph = some (parent, (Relationship.trigger, 1) ∷ []) ∷ some (child, []) ∷ [];
  context =
      Context.new caller (EventDriver.new _ _ _ spin)
        (record { multi_queue = (0 ∷ []) ∷ [] ∷ []; curr_depth = 0; pending_events = 1 }) []
        (record { instant = 0; unix_time = 0 }) 1 (record { removal_queue = [] }) 0;
  edge_buffer = [];
}

two_callers-IsFrugal : IsFrugal caller calls weight own two_callers.graph
unfolding slots
two_callers-IsFrugal zero n ctx e at here v en a =
    let top : parent ≡ n = eq_of_some e in
    rw (← top) (
      Returns-bind _
        (schedule_node-Adds caller calls weight own two_callers.graph 0 1 child ctx refl
          (omega (arith, here, ap (λ x. x.depth) top)) v en a (omega arith))
        λ r (_, adds). returns _ adds)
two_callers-IsFrugal (suc zero) n ctx e at here v en a =
    let low : child ≡ n = eq_of_some e in
    rw (← low) (returns _ (Adds-none caller calls weight own two_callers.graph 1 ctx.scheduler v a))
two_callers-IsFrugal (suc (suc i)) n ctx e at here v en a = cc

two_callers-HasBudget : HasBudget caller calls weight own two_callers.graph
unfolding slots edges
two_callers-HasBudget zero n e = omega arith
two_callers-HasBudget (suc zero) n e = omega arith
two_callers-HasBudget (suc (suc i)) n e = cc

two_callers-IsWired : IsWired caller.graphs two_callers.graph
unfolding slots
two_callers-IsWired zero n e =
    let top : parent ≡ n = eq_of_some e in
    (record { node = child; found = refl; deeper = omega (arith, ap (λ x. x.depth) top) }, tt)
two_callers-IsWired (suc zero) n e = tt
two_callers-IsWired (suc (suc i)) n e = tt

two_callers-Enabled : Enabled caller.graphs two_callers.graph two_callers.context.scheduler
unfolding slots Context.new
two_callers-Enabled zero n e =
    let top : parent ≡ n = eq_of_some e in omega (arith, ap (λ x. x.depth) top)
two_callers-Enabled (suc zero) n e =
    let low : child ≡ n = eq_of_some e in omega (arith, ap (λ x. x.depth) low)
two_callers-Enabled (suc (suc i)) n e = cc

two_callers-accounted :
    (i : ℕ)
    → Marked caller.graphs 1 two_callers.graph i
    → In i [] ⊎ Waits i (contents two_callers.context.scheduler)
unfolding slots Context.new
two_callers-accounted zero a = inr (inl refl)
two_callers-accounted (suc zero) a =
    let low : child ≡ a.node = eq_of_some a.found in
    absurd (omega (arith, ap (λ x. x.sched_epoch) low, a.stamped))
two_callers-accounted (suc (suc i)) a = let gone = a.found in cc

two_callers-Carrying : Carrying caller weight 1 [] two_callers
unfolding slots Context.new
two_callers-Carrying = record {
  loaded = record {
    valid = record { counted = refl; drained = tt };
    enabled = two_callers-Enabled;
    all_placed = (record { node = parent; found = refl; placed_at = refl }, tt);
    accounted = two_callers-accounted;
  };
  wired = two_callers-IsWired;
  no_buffer = refl;
}

node_loop-Spends_example :
    Returns (Spends caller calls weight own 1 two_callers) (node_loop caller calls 4 1 two_callers)
unfolding slots Context.new
node_loop-Spends_example =
    node_loop-Spends caller calls weight own 1 4 two_callers two_callers-IsFrugal
      two_callers-HasBudget two_callers-Carrying (omega arith)
