-- ===== src/EventDriver/Yield.antt =====
-- wavelet/src/runtime/event_driver/yield_driver.rs: nodes to be run in the next poll.
use wavelet_rs.Prelude.{ℕ, List, [], ◌∷◌, ◌++◌, Call, ret, ◌>>=◌}
use wavelet_rs.Control.{Relationship}
use wavelet_rs.StableGraph.{StableGraph}
use wavelet_rs.Graph.{NodeContext}
use wavelet_rs.Scheduling.{Sched, try_all}

pub record YieldDriver : Type 0 where
  pub indices : List ℕ

unfoldable pub new : YieldDriver
new = record { indices = [] }

unfoldable pub yield_now : YieldDriver → ℕ → YieldDriver
yield_now d node_index = record { indices = d.indices ++ node_index ∷ [] }

module _ {F : Type 0} (P : StableGraph (NodeContext F) Relationship) where
  -- `drain(..)` empties the vector.
  unfoldable pub poll : YieldDriver → Sched P → ℕ → Call (YieldDriver × Sched P)
  poll d st epoch = try_all P epoch d.indices st >>= λ st'. ret (record { indices = [] }, st')
