-- ===== src/Collector.antt =====
-- wavelet/src/runtime/garbage_collector.rs: the nodes to be removed when the cycle ends.
use wavelet_rs.Prelude.{ℕ, List, [], ◌∷◌, ◌++◌, Option, none, some}

pub record GarbageCollector : Type 0 where
  pub removal_queue : List ℕ

unfoldable pub new : GarbageCollector
new = record { removal_queue = [] }

unfoldable pub mark_for_sweep : GarbageCollector → ℕ → GarbageCollector
mark_for_sweep gc node = record { removal_queue = gc.removal_queue ++ node ∷ [] }

unfoldable pub next_to_sweep : GarbageCollector → Option ℕ × GarbageCollector
next_to_sweep gc = elim gc.removal_queue [
  | [] ↦ (none, gc)
  | node ∷ rest ↦ (some node, record { removal_queue = rest })
]
