-- ===== src/Executor/Context.antt =====
-- The methods of `ExecutionContext` in wavelet/src/runtime/executor.rs.
use wavelet_rs.Prelude.{
  ℕ, Bool, ◌==◌, List, [], ◌∷◌, ◌++◌, none, some, Call, ret, panic, ◌>>=◌, Result, ok, err,
}
use wavelet_rs.Scheduler.{Scheduler, SchedulerError, schedule}
use wavelet_rs.EventDriver.{EventDriver}
use wavelet_rs.EventDriver.Timer.{TimerSource, TimerDriver}
use wavelet_rs.EventDriver.Timer
use wavelet_rs.EventDriver.Yield
use wavelet_rs.EventDriver.Io.{IoDriver, IoSource}
use wavelet_rs.EventDriver.Io
use wavelet_rs.Collector.{GarbageCollector}
use wavelet_rs.Clock.{CycleTime}
use wavelet_rs.Platform.{Platform}
use wavelet_rs.Executor.{ExecutionContext}

module _ (K : Platform) where
  open K use {mio, slab, queue, Spawn, Store, Time}

  unfoldable pub new :
      EventDriver mio slab queue
      → Scheduler
      → List Spawn
      → CycleTime Time
      → ℕ
      → GarbageCollector
      → Store
      → ExecutionContext K
  new event_driver scheduler deferred_spawns cycle_time epoch gc store = record {
    event_driver = event_driver;
    scheduler = scheduler;
    deferred_spawns = deferred_spawns;
    current = 0;
    cycle_time = cycle_time;
    epoch = epoch;
    gc = gc;
    store = store;
  }

  abbrev with_io : ExecutionContext K → IoDriver mio slab → ExecutionContext K
  with_io c io = record c { event_driver = record c.event_driver { io_driver = some io } }

  abbrev with_timers : ExecutionContext K → TimerDriver → ExecutionContext K
  with_timers c t = record c { event_driver = record c.event_driver { timer_driver = some t } }

  -- A method of a driver that is not configured panics.
  unfoldable pub register_io :
      mio.Source
      → ℕ
      → mio.Interest
      → ExecutionContext K
      → Call (Result (IoSource mio slab) mio.IoError × ExecutionContext K)
  register_io source idx interest c = elim c.event_driver.io_driver [
    | none ↦ panic
    | some io ↦
        let (answer, io') = Io.register_source mio slab io source idx interest in
        ret (answer, with_io c io')
  ]

  unfoldable pub deregister_io :
      IoSource mio slab → ExecutionContext K → Call (Result ℕ mio.IoError × ExecutionContext K)
  deregister_io source c = elim c.event_driver.io_driver [
    | none ↦ panic
    | some io ↦
        Io.deregister_source mio slab io source >>= λ (answer, io'). ret (answer, with_io c io')
  ]

  unfoldable pub reregister_io :
      IoSource mio slab
      → mio.Interest
      → ExecutionContext K
      → Call (Result (IoSource mio slab) mio.IoError × ExecutionContext K)
  reregister_io handle interest c = elim c.event_driver.io_driver [
    | none ↦ panic
    | some io ↦
        let (answer, io') = Io.reregister_source mio slab io handle interest in
        ret (answer, with_io c io')
  ]

  unfoldable pub register_timer :
      ℕ → ℕ → ExecutionContext K → Call (TimerSource × ExecutionContext K)
  register_timer node_index when c = elim c.event_driver.timer_driver [
    | none ↦ panic
    | some t ↦
        let (source, t') = Timer.register_timer t node_index when in ret (source, with_timers c t')
  ]

  unfoldable pub deregister_timer : TimerSource → ExecutionContext K → Call (ExecutionContext K)
  deregister_timer source c = elim c.event_driver.timer_driver [
    | none ↦ panic
    | some t ↦ ret (with_timers c (Timer.deregister_timer t source))
  ]

  unfoldable pub yield_now : ℕ → ExecutionContext K → ExecutionContext K
  yield_now node_index c =
      let d = c.event_driver in
      record c {
        event_driver = record d { yield_driver = Yield.yield_now d.yield_driver node_index };
      }

  unfoldable pub set_current : ℕ → ExecutionContext K → ExecutionContext K
  set_current node_index c = record c { current = node_index }

  -- `schedule_node` for a node with this index and depth.
  unfoldable pub schedule_node :
      ℕ → ℕ → ExecutionContext K → Call (Result (Unit {0}) SchedulerError × ExecutionContext K)
  schedule_node index depth c = schedule c.scheduler index depth >>= λ r. elim r [
    | ok s ↦ ret (ok tt, record c { scheduler = s })
    | err e ↦ ret (err e, c)
  ]

  -- `has_mutated` for a parent with this mutation epoch.
  unfoldable pub has_mutated : ℕ → ExecutionContext K → Bool
  has_mutated mut_epoch c = mut_epoch == c.epoch

  unfoldable pub spawn_subgraph : Spawn → ExecutionContext K → ExecutionContext K
  spawn_subgraph spawn_fn c = record c { deferred_spawns = c.deferred_spawns ++ spawn_fn ∷ [] }
