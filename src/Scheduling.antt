-- ===== src/Scheduling.antt =====
-- The way in which the event drivers (wavelet/src/runtime/event_driver.rs and its modules) and the
-- executor (wavelet/src/runtime/executor.rs) put a node into the scheduler: ask the graph with
-- `can_schedule`, then call `schedule` at the depth that it answers.
pub mod Offers
pub mod Entries
pub mod Keeps
pub mod Ready
pub mod Loads
use wavelet_rs.Prelude.{
  ℕ, List, [], ◌∷◌, Option, none, some, Call, ret, panic, ◌>>=◌, Result, ok, err,
}
use wavelet_rs.Control.{Relationship}
use wavelet_rs.StableGraph.{StableGraph}
use wavelet_rs.Graph.{NodeContext, can_schedule}
use wavelet_rs.Scheduler.{Scheduler, SchedulerError, schedule}

-- `let _ = scheduler.schedule(..)`: a refusal is dropped.
abbrev pub or_same : Scheduler → Result Scheduler SchedulerError → Scheduler
or_same s (ok t) = t
or_same s (err e) = s

-- `.expect(..)` and `.unwrap()`.
abbrev pub expect {ℓ κ} : {A : Type ℓ} {E : Type κ} → Result A E → Call A
expect (ok a) = ret a
expect (err e) = panic

module _ {F : Type 0} (P : StableGraph (NodeContext F) Relationship) where
  abbrev pub Sched : Type 0
  Sched = P.Carrier × Scheduler

  unfoldable pub try_schedule : ℕ → ℕ → Sched → Call Sched
  try_schedule epoch i (g, s) =
      let (depth, g') = can_schedule P g i epoch in
      elim depth [ none ↦ ret (g', s) | some d ↦ schedule s i d >>= λ r. ret (g', or_same s r) ]

  unfoldable pub must_schedule : ℕ → ℕ → Sched → Call Sched
  must_schedule epoch i (g, s) =
      let (depth, g') = can_schedule P g i epoch in
      elim depth [
        | none ↦ ret (g', s)
        | some d ↦ schedule s i d >>= λ r. expect r >>= λ t. ret (g', t)
      ]

  -- The loop over a list of nodes.
  unfoldable pub try_all : ℕ → List ℕ → Sched → Call Sched
  try_all epoch [] st = ret st
  try_all epoch (i ∷ is) st = try_schedule epoch i st >>= try_all epoch is
