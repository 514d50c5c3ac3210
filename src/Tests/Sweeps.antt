-- ===== src/Tests/Sweeps.antt =====
-- The removals at a graph of two nodes, where the drop of a closure marks nothing.
use wavelet_rs.Prelude.{false, [], ◌∷◌, some, arith, Returns, sym, append-nil}
use wavelet_rs.Control.{Control, Relationship}
use wavelet_rs.StableGraph.Slots.{slots}
use wavelet_rs.Graph.{NodeContext}
use wavelet_rs.EventDriver.{spin}
use wavelet_rs.EventDriver
use wavelet_rs.Executor.Cycle.{Swept, sweep_loop}
use wavelet_rs.Executor.Sweeping.{Sweeps, OnlyMarks, sweep_loop-Sweeps}
use wavelet_rs.Tests.Sample.{sample, constant}

abbrev pub node : NodeContext Control
node = record { cycle_fn = Control.sweep; sched_epoch = 1; depth = 0; poisoned = false }

abbrev pub remaining : Swept sample
unfolding slots
remaining = record {
  graph = some (node, []) ∷ some (node, (Relationship.observe, 0) ∷ []) ∷ [];
  event_driver = EventDriver.new _ _ _ spin;
  store = 0;
}

pub constant-OnlyMarks : OnlyMarks sample constant
constant-OnlyMarks f r = ([], sym (append-nil r.gc.removal_queue))

sweep_loop-Sweeps_example :
    Returns
      (Sweeps sample constant (0 ∷ 0 ∷ []) remaining)
      (sweep_loop sample constant 2 (0 ∷ 0 ∷ []) remaining)
unfolding slots
sweep_loop-Sweeps_example =
    sweep_loop-Sweeps sample constant constant-OnlyMarks 2 (0 ∷ 0 ∷ []) remaining (omega arith)
