-- ===== src/Executor.antt =====
-- wavelet/src/runtime/executor.rs: the executor, and the context that a node's closure is given.
-- A closure also reaches what it has captured (`store`) and the collector that every node shares;
-- both pass through its context. What a closure does is given by `Closures`.
pub mod Context
pub mod Cycle
pub mod Wiring
pub mod Turns
pub mod Propagation
pub mod NodeLoop
pub mod Sweeping
pub mod Whole
pub mod Rest
pub mod Drivers
pub mod Answers
pub mod Frugal
pub mod Budget
pub mod Spending
use wavelet_rs.Prelude.{
  ℕ, ◌+◌, ◌%◌, Bool, ◌==◌, List, [], ◌∷◌, ◌++◌, Call, ret, panic, out_of_fuel, ◌>>=◌, Result, ok,
  err, usize_mod,
}
use wavelet_rs.Scheduler.{Scheduler, SchedulerError}
use wavelet_rs.Scheduler
use wavelet_rs.Scheduling.{or_same}
use wavelet_rs.Control.{Control}
use wavelet_rs.EventDriver.{EventDriver, EventDriverConfig, ExecutionMode}
use wavelet_rs.EventDriver
use wavelet_rs.EventDriver.Timer.{TimerSource}
use wavelet_rs.Collector.{GarbageCollector}
use wavelet_rs.Collector
use wavelet_rs.Clock.{CycleTime}
use wavelet_rs.Platform.{Platform}

pub data ExecutorState : Type 0 where
  running terminated : ExecutorState

module _ (K : Platform) where
  open K use {mio, slab, queue, Closure, Spawn, Store, Time, graphs}

  pub record ExecutionContext : Type 0 where
    pub event_driver : EventDriver mio slab queue
    pub scheduler : Scheduler
    pub deferred_spawns : List Spawn
    pub current : ℕ
    pub cycle_time : CycleTime Time
    pub epoch : ℕ
    pub gc : GarbageCollector
    pub store : Store

  pub record Executor : Type 0 where
    pub graph : graphs.Carrier
    pub scheduler : Scheduler
    pub event_driver : EventDriver mio slab queue
    pub edge_buffer : List ℕ
    pub deferred_spawns : List Spawn
    pub gc : GarbageCollector
    pub epoch : ℕ
    pub store : Store

  -- `Executor::new` and `Executor::with_config`, over what the program has captured so far.
  unfoldable pub with_config : EventDriverConfig → ExecutionMode → Store → Executor
  with_config cfg mode store = record {
    graph = graphs.empty;
    scheduler = Scheduler.new;
    event_driver = EventDriver.with_config mio slab queue cfg mode;
    edge_buffer = [];
    deferred_spawns = [];
    gc = Collector.new;
    epoch = 0;
    store = store;
  }

  unfoldable pub new : ExecutionMode → Store → Executor
  unfolding with_config
  new mode store = with_config EventDriver.default_config mode store

  -- What the drop of a closure can reach: nodes mark themselves, a sender notifies.
  pub record Reach : Type 0 where
    pub event_driver : EventDriver mio slab queue
    pub gc : GarbageCollector
    pub store : Store

  -- Running a cycle closure, dropping one, and calling a deferred spawn function.
  pub record Closures : Type 0 where
    pub run : Closure → ExecutionContext → Call (Control × ExecutionContext)
    pub drop : Closure → Reach → Reach
    pub spawn : Spawn → Executor → Call Executor
