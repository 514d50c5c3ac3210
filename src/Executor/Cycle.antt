-- ===== src/Executor/Cycle.antt =====
-- `Executor::cycle` of wavelet/src/runtime/executor.rs, with each of its loops.
use wavelet_rs.Prelude.{
  length, ℕ, zero, suc, ◌+◌, ◌%◌, List, [], ◌∷◌, ◌++◌, Option, none, some, Call, ret, out_of_fuel,
  ◌>>=◌, Result, ok, err, usize_mod,
}
use wavelet_rs.Control.{Control}
use wavelet_rs.Scheduler.{Scheduler, pop}
use wavelet_rs.Graph.{triggering_edges, edges, mark_poisoned, remove_node}
use wavelet_rs.Graph
use wavelet_rs.Scheduling.{Sched, try_schedule, try_all}
use wavelet_rs.EventDriver.{EventDriver}
use wavelet_rs.EventDriver
use wavelet_rs.Collector.{mark_for_sweep}
use wavelet_rs.Clock.{Clock, CycleTime}
use wavelet_rs.Platform.{Platform}
use wavelet_rs.Executor.{ExecutorState, running, terminated, ExecutionContext, Executor, Closures}
use wavelet_rs.Executor.Context.{set_current}
use wavelet_rs.Executor.Context

module _ (K : Platform) where
  open K use {mio, slab, queue, Closure, Spawn, Store, Time, graphs}

  -- What the node loop works on.
  pub record Work : Type 0 where
    pub graph : graphs.Carrier
    pub context : ExecutionContext K
    pub edge_buffer : List ℕ

  abbrev pub sched : Work → Sched graphs
  sched w = (w.graph, w.context.scheduler)

  -- The graph and the scheduler after a loop over `edge_buffer.drain(..)`.
  abbrev pub drained : Work → Sched graphs → Work
  drained w st = record w {
    graph = st.0;
    context = record w.context { scheduler = st.1 };
    edge_buffer = [];
  }

  -- `Control::Broadcast`: the triggered children are scheduled.
  unfoldable pub broadcast_node : ℕ → ℕ → Work → Call Work
  broadcast_node epoch i w =
      try_all graphs epoch (w.edge_buffer ++ triggering_edges graphs w.graph i) (sched w) >>= λ st.
      ret (drained w st)

  -- `Control::Sweep`: the node is marked for removal, and each child is poisoned and scheduled.
  unfoldable pub poison_all : ℕ → List ℕ → Sched graphs → Call (Sched graphs)
  poison_all epoch [] st = ret st
  poison_all epoch (child ∷ children) (g, s) = mark_poisoned graphs g child >>= λ g'.
      try_schedule graphs epoch child (g', s) >>= poison_all epoch children

  unfoldable pub sweep_node : ℕ → ℕ → Work → Call Work
  sweep_node epoch i w =
      let w' : Work = record w {
        context = record w.context { gc = mark_for_sweep w.context.gc i };
      } in
      poison_all epoch (w'.edge_buffer ++ edges graphs w'.graph i) (sched w') >>= λ st.
      ret (drained w' st)

  unfoldable pub handle : ℕ → Control → ℕ → Work → Call (ExecutorState × Work)
  handle epoch Control.broadcast i w = broadcast_node epoch i w >>= λ w'. ret (running, w')
  handle epoch Control.unchanged i w = ret (running, w)
  handle epoch Control.sweep i w = sweep_node epoch i w >>= λ w'. ret (running, w')
  handle epoch Control.terminate i w = ret (terminated, w)

  -- What a node's removal works on. The queue of the collector is an argument of the loop.
  pub record Swept : Type 0 where
    pub graph : graphs.Carrier
    pub event_driver : EventDriver mio slab queue
    pub store : Store

  module _ (B : Closures K) where
    -- One turn of the node loop: the node that was popped is run and its answer handled.
    unfoldable pub turn : ℕ → ℕ → Work → Call (ExecutorState × Work)
    turn epoch i w =
        Graph.cycle graphs B.run w.graph (set_current K i w.context) i >>= λ (control, ctx).
        handle epoch control i (record w { context = ctx })

    abbrev pub popped : Work → Scheduler → Work
    popped w s = record w { context = record w.context { scheduler = s } }

    unfoldable pub node_loop : ℕ → ℕ → Work → Call (ExecutorState × Work)
    node_loop zero epoch w = out_of_fuel
    node_loop (suc fuel) epoch w =
        let (item, s) = pop w.context.scheduler in
        elim item [
          | none ↦ ret (running, popped w s)
          | some i ↦ turn epoch i (popped w s) >>= λ (state, w'). elim state [
            | terminated ↦ ret (terminated, w')
            | running ↦ node_loop fuel epoch w'
          ]
        ]

    -- The loop over `gc.next_to_sweep()`. Only the removal of a node that is there drops a closure,
    -- which may mark further nodes, so the loop recurs on a bound for the nodes and on the queue.
    unfoldable pub sweep_loop : ℕ → List ℕ → Swept → Call Swept
    sweep_loop nodes [] x = ret x
    sweep_loop zero (i ∷ q) x = elim (graphs.node_weight x.graph i) [
      | none ↦ sweep_loop zero q (record x { graph = remove_node graphs x.graph i })
      | some n ↦ out_of_fuel
    ]
    sweep_loop (suc nodes) (i ∷ q) x = elim (graphs.node_weight x.graph i) [
      | none ↦ sweep_loop (suc nodes) q (record x { graph = remove_node graphs x.graph i })
      | some n ↦
          let r = B.drop n.cycle_fn (record {
            event_driver = x.event_driver;
            gc = record { removal_queue = q };
            store = x.store;
          }) in
          sweep_loop nodes r.gc.removal_queue (record {
            graph = remove_node graphs x.graph i;
            event_driver = r.event_driver;
            store = r.store;
          })
    ]

    unfoldable pub spawn_loop : ℕ → Executor K → Call (Executor K)
    spawn_loop zero e = elim e.deferred_spawns [ [] ↦ ret e | f ∷ rest ↦ out_of_fuel ]
    spawn_loop (suc fuel) e = elim e.deferred_spawns [
      | [] ↦ ret e
      | f ∷ rest ↦ B.spawn f (record e { deferred_spawns = rest }) >>= spawn_loop fuel
    ]

    -- The executor with what the node loop has left.
    abbrev pub with_work : Executor K → Work → Executor K
    with_work e w = record e {
      graph = w.graph;
      scheduler = w.context.scheduler;
      event_driver = w.context.event_driver;
      edge_buffer = w.edge_buffer;
      deferred_spawns = w.context.deferred_spawns;
      gc = w.context.gc;
      store = w.context.store;
    }

    -- The phases behind the node loop: removal, then the deferred spawns. The spawns get fuel for
    -- those that wait, and the given fuel more.
    unfoldable pub finish : ℕ → Executor K → Call (Executor K)
    finish fuel e =
        sweep_loop (graphs.node_count e.graph) e.gc.removal_queue
          (record { graph = e.graph; event_driver = e.event_driver; store = e.store })
        >>= λ x. spawn_loop (fuel + length e.deferred_spawns) (record e {
          graph = x.graph;
          event_driver = x.event_driver;
          gc = record { removal_queue = [] };
          store = x.store;
        })

    module _ {C : Type 0} (clock : Clock Time C) where
      abbrev pub Cycled : Type 0
      Cycled = Result ExecutorState mio.IoError × (Executor K × C)

      abbrev pub start :
          Executor K → EventDriver mio slab queue → Sched graphs → CycleTime Time → Work
      start e d st cycle_time = record {
        graph = st.0;
        context = Context.new K d st.1 e.deferred_spawns cycle_time e.epoch e.gc e.store;
        edge_buffer = e.edge_buffer;
      }

      -- `cycle`, with fuel for the node loop and for the loop of the deferred spawns. A termination
      -- returns at once: neither the removals nor the spawns are done.
      unfoldable pub cycle : ℕ → Executor K → C → Option ℕ → Call Cycled
      cycle fuel e₀ c timeout =
          let epoch = (e₀.epoch + 1) % usize_mod in
          let e : Executor K = record e₀ { epoch = epoch } in
          EventDriver.poll mio slab queue graphs clock e.event_driver (e.graph, e.scheduler) c
            timeout epoch
          >>= λ (answer, (d, st, c')). elim answer [
            | err x ↦
                ret (err x, (record e { graph = st.0; scheduler = st.1; event_driver = d }, c'))
            | ok cycle_time ↦ node_loop fuel epoch (start e d st cycle_time) >>= λ (state, w).
                elim state [
                  | terminated ↦ ret (ok terminated, (with_work e w, c'))
                  | running ↦ finish fuel (with_work e w) >>= λ e'. ret (ok running, (e', c'))
                ]
          ]
