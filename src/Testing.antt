-- ===== src/Testing.antt =====
-- wavelet/src/testing.rs: a source that a program pushes values into, and the contexts that stand in
-- for those of an executor. The handles to a source share it; it lies in the program's store.
use wavelet_rs.Prelude.{ℕ, ◌+◌, ◌%◌, List, [], Option, none, some, Call, ret, ◌>>=◌, usize_mod}
use wavelet_rs.Control.{Control}
use wavelet_rs.Scheduler.{Scheduler}
use wavelet_rs.Scheduler
use wavelet_rs.EventDriver.{EventDriver, Notifier, notify, spin}
use wavelet_rs.EventDriver
use wavelet_rs.Collector.{GarbageCollector}
use wavelet_rs.Clock.{Clock, CycleTime}
use wavelet_rs.Clock.Manual.{TestClock}
use wavelet_rs.Node.{NodeInner}
use wavelet_rs.Node.Builder.{NodeBuilder, OnInit}
use wavelet_rs.Node.Builder
use wavelet_rs.Platform.{Platform}
use wavelet_rs.Executor.{ExecutionContext, Executor, ExecutorState, Closures}
use wavelet_rs.Executor.Context
use wavelet_rs.Clock.Historical.{Calendar}
use wavelet_rs.Runtime.{Runtime, run_one_cycle, advance_clock}

module _ (K : Platform) (T : Type 0) where
  open K use {mio, slab, queue}

  pub record Push : Type 0 where
    pub data_of : T
    pub notifier : Option (Notifier mio slab queue)

  -- Where the source lies in the store.
  pub record Place : Type 0 where
    pub get : K.Store → Push
    pub put : Push → K.Store → K.Store

module _ {K : Platform} {T : Type 0} where
  open K use {mio, slab, queue}

  unfoldable pub new : T → Push K T
  new default = record { data_of = default; notifier = none }

  -- `PushInner::push`.
  unfoldable pub push_inner :
      T → Push K T → EventDriver mio slab queue → Push K T × EventDriver mio slab queue
  push_inner d p driver = elim p.notifier [
    | none ↦ (record p { data_of = d }, driver)
    | some n ↦ (record p { data_of = d }, notify mio slab queue n driver)
  ]

  unfoldable pub take : T → Push K T → T × Push K T
  take default p = (p.data_of, record p { data_of = default })

  unfoldable pub register_notifier : Notifier mio slab queue → Push K T → Push K T
  register_notifier n p = record p { notifier = some n }

module _ {K : Platform} {T : Type 0} (default : T) (place : Place K T) where
  open K use {mio, slab, queue}

  -- What a node for a source does in a cycle.
  unfoldable pub push_cycle : T → ExecutionContext K → Control × (T × ExecutionContext K)
  unfolding take
  push_cycle this ctx =
      let (d, p) = take default (place.get ctx.store) in
      (Control.broadcast, (d, record ctx { store = place.put p ctx.store }))

  -- The source learns of its node's notifier when the node is built.
  abbrev pub register : OnInit K T
  register idx d e =
      let n = EventDriver.register_notifier mio slab queue e.event_driver idx in
      ret (d, record e { store = place.put (register_notifier n (place.get e.store)) e.store })

  unfoldable pub push_node :
      ((T → ExecutionContext K → Control × (T × ExecutionContext K)) → K.Closure)
      → T
      → Executor K
      → Call (NodeInner T × Executor K)
  unfolding new push_cycle
  push_node close d executor =
      let e : Executor K = record executor { store = place.put (new default) executor.store } in
      let b : NodeBuilder K T (Unit {0}) = Builder.new d in
      Builder.on_init b register >>= λ b'. Builder.build (close push_cycle) b' e

  module _ {C : Type 0} where
    -- `Push::push`, while a runtime is not in a cycle.
    unfoldable pub push : T → Runtime K C → Runtime K C
    unfolding push_inner
    push d rt =
        let e = rt.executor in
        let (p, driver) = push_inner d (place.get e.store) e.event_driver in
        record rt { executor = record e { event_driver = driver; store = place.put p e.store } }

    unfoldable pub push_with_cycle :
        Closures K → Clock K.Time C → T → Runtime K C → Call (ExecutorState × Runtime K C)
    unfolding push
    push_with_cycle B clock d rt = run_one_cycle K B clock (push d rt)

  -- `clock` is the reading of the test clock, where it returns.
  unfoldable pub push_with_cycle_advance :
      (L : Calendar K.Time) (last_instant : ℕ)
      → Closures K
      → Clock K.Time (TestClock L last_instant)
      → T
      → ℕ
      → Runtime K (TestClock L last_instant)
      → Call (ExecutorState × Runtime K (TestClock L last_instant))
  unfolding push
  push_with_cycle_advance L last_instant B clock d duration rt =
      advance_clock K L last_instant duration (push d rt) >>= run_one_cycle K B clock

module _ (K : Platform) where
  open K use {mio, slab, queue, Spawn, Store, Time}

  pub record MockContextGenerator : Type 0 where
    pub event_driver : EventDriver mio slab queue
    pub scheduler : Scheduler
    pub deferred_spawns : List Spawn
    pub current : ℕ
    pub cycle_time : CycleTime Time
    pub epoch : ℕ

module _ {K : Platform} where
  open K use {mio, slab, queue, Spawn, Store, Time}

  -- `now` is what the operating system's clocks give.
  unfoldable pub new_generator : CycleTime Time → MockContextGenerator K
  new_generator now = record {
    event_driver = EventDriver.new mio slab queue spin;
    scheduler = Scheduler.new;
    deferred_spawns = [];
    current = 0;
    cycle_time = now;
    epoch = 0;
  }

  -- The current node of the generator is not handed on.
  unfoldable pub context : MockContextGenerator K → GarbageCollector → Store → ExecutionContext K
  context m gc store =
      Context.new K m.event_driver m.scheduler m.deferred_spawns m.cycle_time m.epoch gc store

  unfoldable pub set_current : MockContextGenerator K → ℕ → MockContextGenerator K
  set_current m node_index = record m { current = node_index }

  unfoldable pub set_cycle_time : MockContextGenerator K → CycleTime Time → MockContextGenerator K
  set_cycle_time m cycle_time = record m { cycle_time = cycle_time }

  unfoldable pub advance_epoch : MockContextGenerator K → MockContextGenerator K
  advance_epoch m = record m { epoch = (m.epoch + 1) % usize_mod }
