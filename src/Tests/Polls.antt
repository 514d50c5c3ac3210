-- ===== src/Tests/Polls.antt =====
-- The poll of the event driver at a graph of two nodes: the first has yielded, and the second has a
-- timer that is due.
use wavelet_rs.Prelude.{
  ℕ, zero, suc, ap, ◌+◌, ◌≡◌, refl, [], ◌∷◌, none, some, eq_of_some, arith, Returns, returns, false,
}
use wavelet_rs.Control.{Control}
use wavelet_rs.StableGraph.Slots.{slots}
use wavelet_rs.Graph.{NodeContext}
use wavelet_rs.Scheduling.{Sched}
use wavelet_rs.Scheduling.Keeps.{Marked}
use wavelet_rs.Scheduling.Offers.{Enabled}
use wavelet_rs.Clock.{Clock}
use wavelet_rs.EventDriver.{EventDriver, spin, poll}
use wavelet_rs.EventDriver.Polling.{Open, sched_of}
use wavelet_rs.EventDriver.Sources.{Gathered, poll-Gathered}
use wavelet_rs.Executor.{Executor}
use wavelet_rs.Executor.Cycle.{cycle}
use wavelet_rs.Executor.Wiring.{IsWired}
use wavelet_rs.Executor.Whole.{SpawnsReturn, Cycles, cycle-Cycles}
use wavelet_rs.Tests.Sample.{sample, constant, constant-IsQuiet}
use wavelet_rs.Tests.Sweeps.{constant-OnlyMarks}

abbrev pub node : ℕ → NodeContext Control
node depth = record {
  cycle_fn = Control.unchanged;
  sched_epoch = 0;
  depth = depth;
  poisoned = false;
}

abbrev pub idle : Sched sample.graphs
unfolding slots
idle = (
  some (node 0, []) ∷ some (node 1, []) ∷ [],
  record { multi_queue = [] ∷ [] ∷ []; curr_depth = 0; pending_events = 0 },
)

abbrev driver : EventDriver sample.mio sample.slab sample.queue
driver = record {
  io_driver = none;
  timer_driver = some (record { timers = (record { when = 20; id = 0 }, 1) ∷ []; sequence = 1 });
  yield_driver = record { indices = 0 ∷ [] };
  notifications = sample.queue.new 4;
  poll_limit = 16;
  mode = spin;
}

abbrev pub ticking : Clock ℕ ℕ
ticking c = (record { instant = c; unix_time = c }, c + 1)

pub idle-Enabled : Enabled sample.graphs idle.0 idle.1
unfolding slots
idle-Enabled zero n e = let top : node 0 ≡ n = eq_of_some e in omega (arith, ap (λ x. x.depth) top)
idle-Enabled (suc zero) n e =
    let low : node 1 ≡ n = eq_of_some e in omega (arith, ap (λ x. x.depth) low)
idle-Enabled (suc (suc i)) n e = cc

pub not-Marked : (i : ℕ) → Marked sample.graphs 1 idle.0 i → ⊥
unfolding slots
not-Marked zero a =
    let top : node 0 ≡ a.node = eq_of_some a.found in
    omega (arith, ap (λ x. x.sched_epoch) top, a.stamped)
not-Marked (suc zero) a =
    let low : node 1 ≡ a.node = eq_of_some a.found in
    omega (arith, ap (λ x. x.sched_epoch) low, a.stamped)
not-Marked (suc (suc i)) a = let gone = a.found in cc

idle-Open : Open sample.graphs 1 idle
unfolding slots
idle-Open = record {
  ready = record {
    valid = record { counted = refl; drained = tt };
    enabled = idle-Enabled;
    queued = tt;
    distinct = tt;
    unseen = tt;
    seen_marked = tt;
    seen_distinct = tt;
    accounted = λ i a. absurd (not-Marked i a);
  };
  top = refl;
}

poll-Gathered_example :
    Returns
      (λ out.
        Gathered sample.graphs sample.queue sample.mio sample.slab ticking driver idle 25 1
          (sched_of sample.graphs sample.queue sample.mio sample.slab ticking out))
      (poll sample.mio sample.slab sample.queue sample.graphs ticking driver idle 25 (some 0) 1)
poll-Gathered_example =
    poll-Gathered sample.graphs sample.queue sample.mio sample.slab ticking driver idle 25 (some 0)
      1 idle-Open (tt, tt) tt

-- The executor before its first cycle.
abbrev pub resting : Executor sample
resting = record {
  graph = idle.0;
  scheduler = idle.1;
  event_driver = driver;
  edge_buffer = [];
  deferred_spawns = [];
  gc = record { removal_queue = [] };
  epoch = 0;
  store = 0;
}

pub idle-IsWired : IsWired sample.graphs idle.0
unfolding slots
idle-IsWired zero n e = tt
idle-IsWired (suc zero) n e = tt
idle-IsWired (suc (suc i)) n e = tt

pub constant-SpawnsReturn : SpawnsReturn sample constant
constant-SpawnsReturn f e = returns e refl

cycle-Cycles_example :
    Returns
      (Cycles sample constant ticking 1 3 (record resting { epoch = 1 }) 25 (some 0))
      (cycle sample constant ticking 3 resting 25 (some 0))
unfolding slots
cycle-Cycles_example =
    cycle-Cycles sample constant ticking constant-IsQuiet constant-OnlyMarks constant-SpawnsReturn 3
      resting 25 (some 0)
      (record {
        top = idle-Open;
        wired = idle-IsWired;
        no_buffer = refl;
        sorted = (tt, tt);
        known = tt;
      })
      (omega arith)
