-- ===== src/Scheduler.antt =====
-- wavelet/src/runtime/scheduler.rs: one queue for each depth of the graph.
-- A `VecDeque` is a list, its front first; `&mut self` methods return the new scheduler.
pub mod Contents
pub mod Order
pub mod Drain
use wavelet_rs.Prelude.{
  ℕ, zero, suc, ◌+◌, ◌-◌, ◌%◌, Bool, ◌&&◌, List, [], ◌∷◌, ◌++◌, Option, none, some, ltb,
  if◌then◌else◌, u32_mod, Call, ret, panic, Result, ok, err, length, get_elem?, set, replicate,
  take,
}

pub record SchedulerError : Type 0 where

pub record Scheduler : Type 0 where
  pub multi_queue : List (List ℕ)
  pub curr_depth : ℕ
  pub pending_events : ℕ

unfoldable pub new : Scheduler
new = record { multi_queue = []; curr_depth = 0; pending_events = 0 }

unfoldable pub has_pending_event : Scheduler → Bool
has_pending_event s = ltb 0 s.pending_events

-- `Vec::resize`: cut to the new length, or filled up with empty queues.
unfoldable pub resize : Scheduler → ℕ → Scheduler
resize s max_depth = record s {
  multi_queue =
      if ltb (length s.multi_queue) max_depth
      then s.multi_queue ++ replicate (max_depth - length s.multi_queue) []
      else take max_depth s.multi_queue;
}

-- `depth + 1` is an addition on u32.
unfoldable pub enable_depth : Scheduler → ℕ → Scheduler
enable_depth s depth =
    let required_len = (depth + 1) % u32_mod in
    if ltb (length s.multi_queue) required_len then resize s required_len else s

-- Indexing the queues out of bounds panics. On an error the scheduler stays as it is.
unfoldable pub schedule : Scheduler → ℕ → ℕ → Call (Result Scheduler SchedulerError)
schedule s node_index depth =
    if ltb depth s.curr_depth then ret (err (record {})) else elim (get_elem? s.multi_queue depth) [
      | none ↦ panic
      | some queue ↦ ret (
          ok (record s {
            multi_queue = set s.multi_queue depth (queue ++ node_index ∷ []);
            pending_events = s.pending_events + 1;
          }))
    ]

-- What follows the loop of `pop`.
reset : Scheduler → Scheduler
reset s = record s { curr_depth = 0 }

-- The loop of `pop`. `fuel` is the number of queues from `curr_depth` on, so it runs out just
-- where the loop's own test `curr_depth < multi_queue.len()` fails.
pop_loop : ℕ → Scheduler → Option ℕ × Scheduler
pop_loop zero s = (none, reset s)
pop_loop (suc fuel) s =
    let rest = pop_loop fuel (record s { curr_depth = s.curr_depth + 1 }) in
    if ltb s.curr_depth (length s.multi_queue) && has_pending_event s
    then elim (get_elem? s.multi_queue s.curr_depth) [
      | none ↦ (none, reset s)
      | some [] ↦ rest
      | some (item ∷ queue) ↦ (
        some item,
        record s {
          multi_queue = set s.multi_queue s.curr_depth queue;
          pending_events = s.pending_events - 1;
        },
      )
    ]
    else (none, reset s)

unfoldable pub pop : Scheduler → Option ℕ × Scheduler
unfolding pop_loop reset has_pending_event
pop s = pop_loop (length s.multi_queue - s.curr_depth) s
