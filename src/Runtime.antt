-- ===== src/Runtime.antt =====
-- wavelet/src/runtime.rs: an executor with a clock, and the loops that run its cycles.
pub mod Completion
use wavelet_rs.Prelude.{
  ℕ, zero, suc, Bool, true, false, not, ◌&&◌, Option, none, some, Call, ret, out_of_fuel, ◌>>=◌,
  Result, ok, err, if◌then◌else◌,
}
use wavelet_rs.Clock.{Clock}
use wavelet_rs.Clock.Historical.{Calendar}
use wavelet_rs.Clock.Historical.Replay.{Replay, replay_time}
use wavelet_rs.Clock.Manual.{TestClock}
use wavelet_rs.Clock.Manual
use wavelet_rs.Clock.Precision.{Timeline, SystemClocks, PrecisionClock}
use wavelet_rs.Clock.Precision
use wavelet_rs.EventDriver.{ExecutionMode, EventDriverConfig, spin, park}
use wavelet_rs.Platform.{Platform}
use wavelet_rs.Executor.{ExecutorState, running, terminated, Executor, Closures}
use wavelet_rs.Executor
use wavelet_rs.Executor.Cycle.{cycle}

pub record Runtime (K : Platform) (C : Type 0) : Type 0 where
  pub executor : Executor K
  pub clock : C
  pub mode : ExecutionMode

-- How long a cycle of `run_forever` may wait.
abbrev pub wait_of : ExecutionMode → Option ℕ
wait_of ExecutionMode.park = none
wait_of ExecutionMode.spin = some 0

-- `unwrap_or(ExecutorState::Running)`.
abbrev pub state_of : {E : Type 0} → Result ExecutorState E → ExecutorState
state_of (ok state) = state
state_of (err x) = running

module _ (K : Platform) {C : Type 0} where
  -- `Runtime::new` of the test and of the historical runtime.
  unfoldable pub new : K.Store → C → Runtime K C
  unfolding Executor.new
  new store c = record {
    executor = Executor.new K ExecutionMode.spin store;
    clock = c;
    mode = ExecutionMode.spin;
  }

  -- `Runtime::with_config` of the realtime runtime.
  unfoldable pub with_config : EventDriverConfig → ExecutionMode → K.Store → C → Runtime K C
  unfolding Executor.with_config
  with_config cfg mode store c = record {
    executor = Executor.with_config K cfg mode store;
    clock = c;
    mode = mode;
  }

  module _ (B : Closures K) (clock : Clock K.Time C) where
    -- One cycle, with fuel for each node and one turn more.
    unfoldable pub cycle_for : Option ℕ → Runtime K C → Call (ExecutorState × Runtime K C)
    cycle_for timeout rt =
        cycle K B clock (suc (K.graphs.node_count rt.executor.graph)) rt.executor rt.clock timeout
        >>= λ (answer, (e, c)). ret (state_of answer, record rt { executor = e; clock = c })

    unfoldable pub run_one_cycle : Runtime K C → Call (ExecutorState × Runtime K C)
    run_one_cycle rt = cycle_for (some 0) rt

    -- `shutdown n` is what the flag says before the round `n`; without the feature `signals` it is
    -- never set. The result is the runtime when the loop ends. These are the runs in which each poll
    -- returns: with the mode `Park`, a poll without an event or a timer blocks until there is one.
    unfoldable pub run_forever : (ℕ → Bool) → ℕ → ℕ → Runtime K C → Call (Runtime K C)
    run_forever shutdown zero n rt = if shutdown n then ret rt else out_of_fuel
    run_forever shutdown (suc rounds) n rt = elim (shutdown n) [
      | true ↦ ret rt
      | false ↦ cycle_for (wait_of rt.mode) rt >>= λ (state, rt'). elim state [
        | terminated ↦ ret rt'
        | running ↦ run_forever shutdown rounds (suc n) rt'
      ]
    ]

module _ (K : Platform) (L : Timeline K.Time) where
  -- `Runtime::new` of the realtime runtime; its clock stands with the state of the system's clocks.
  unfoldable pub new_realtime :
      (S : SystemClocks K.Time)
      → ExecutionMode
      → K.Store
      → S.Os
      → Runtime K (PrecisionClock K.Time × S.Os)
  unfolding Executor.new Precision.new
  new_realtime S mode store os = record {
    executor = Executor.new K mode store;
    clock = Precision.new L S os;
    mode = mode;
  }

-- The test runtime's clock is moved by hand.
module _ (K : Platform) (L : Calendar K.Time) (last_instant : ℕ) where
  unfoldable pub advance_clock :
      ℕ → Runtime K (TestClock L last_instant) → Call (Runtime K (TestClock L last_instant))
  advance_clock duration rt =
      Manual.advance L last_instant rt.clock duration >>= λ clock. ret (record rt { clock = clock })

-- A clock whose readings return.
module _ (K : Platform) (B : Closures K) (L : Calendar K.Time) where
  -- The result says whether a node has terminated the loop.
  unfoldable pub run_until_completion :
      ℕ → Runtime K (Replay L) → Call (ExecutorState × Runtime K (Replay L))
  run_until_completion zero rt = if rt.clock.inner.exhausted then ret (running, rt) else out_of_fuel
  run_until_completion (suc rounds) rt = elim (rt.clock.inner.exhausted) [
    | true ↦ ret (running, rt)
    | false ↦ cycle_for K B (replay_time L) (some 0) rt >>= λ (state, rt'). elim state [
      | terminated ↦ ret (terminated, rt')
      | running ↦ run_until_completion rounds rt'
    ]
  ]
