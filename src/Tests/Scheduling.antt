-- ===== src/Tests/Scheduling.antt =====
-- The scheduler's theorems at a scheduler with three nodes at two depths.
use wavelet_rs.Prelude.{◌≡◌, ◌≤◌, ◌<◌, refl, [], ◌∷◌, none, some, length, arith}
use wavelet_rs.Scheduler.{Scheduler, schedule, pop, enable_depth}
use wavelet_rs.Scheduler.Order.{IsValid, contents, Pops, pop-Pops, Schedules, schedule-Schedules}
use wavelet_rs.Scheduler.Drain.{pop_many, pop_many-contents, enable_depth_lem}

-- Node 7 waits at depth 1, and nodes 4 and 9 at depth 2.
abbrev three : Scheduler
three = record {
  multi_queue = [] ∷ (7 ∷ []) ∷ (4 ∷ 9 ∷ []) ∷ [];
  curr_depth = 1;
  pending_events = 3;
}

three-IsValid : IsValid three
three-IsValid = record { counted = refl; drained = (refl, tt) }

pop-three : (pop three).0 ≡ some 7
unfolding pop
pop-three = refl

pop_many-three : (pop_many 4 three).0 ≡ some 7 ∷ some 4 ∷ some 9 ∷ none ∷ []
unfolding pop pop_many
pop_many-three = refl

pop-Pops_example : Pops three (pop three)
pop-Pops_example = pop-Pops three three-IsValid

schedule-Schedules_example : Schedules three 5 2 (schedule three 5 2)
schedule-Schedules_example = schedule-Schedules three 5 2 three-IsValid

pop_many-contents_example : (pop_many 4 three).0 ≡ some 7 ∷ some 4 ∷ some 9 ∷ none ∷ []
pop_many-contents_example = pop_many-contents three three-IsValid

enable_depth_example :
    let t = enable_depth three 5 in
    IsValid t
    × (5 < length t.multi_queue)
    × (3 ≤ length t.multi_queue)
    × (contents t ≡ (1, 7) ∷ (2, 4) ∷ (2, 9) ∷ [])
    × (t.curr_depth ≡ 1)
enable_depth_example = enable_depth_lem three 5 three-IsValid (omega arith)
