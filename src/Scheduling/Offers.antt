-- ===== src/Scheduling/Offers.antt =====
-- What one attempt to schedule a node does, case by case.
use wavelet_rs.Prelude.{
  ℕ, ap, ◌<◌, ◌≤◌, ◌≡◌, ◌≢◌, ◌⊎◌, inl, inr, ◌∙◌, none, some, ◌==◌, ==_iff, Call, ret, ◌>>=◌, Result,
  length, Option-cases, Bool-cases, arith, if◌then◌else◌,
}
use wavelet_rs.Control.{Relationship}
use wavelet_rs.StableGraph.{StableGraph}
use wavelet_rs.Graph.{NodeContext, can_schedule}
use wavelet_rs.Scheduler.{Scheduler, SchedulerError}
use wavelet_rs.Scheduler.Contents.{insert_entry}
use wavelet_rs.Scheduler.Order.{
  IsValid, contents, Schedules, refused, out_of_bounds, queued, schedule-Schedules,
}
use wavelet_rs.Scheduling.{Sched, or_same, try_schedule}

module _ {F : Type 0} (P : StableGraph (NodeContext F) Relationship) where
  open P use {Carrier, node_weight, set_weight, node_weight-set_weight}

  abbrev pub mark : ℕ → Carrier → ℕ → NodeContext F → Carrier
  mark epoch g i n = set_weight g i (record n { sched_epoch = epoch })

  -- The node is gone, or it was marked in this epoch.
  abbrev pub Idle : ℕ → Carrier → ℕ → Type 0
  Idle epoch g i =
      (node_weight g i ≡ none)
      ⊎ ((n : NodeContext F) × (node_weight g i ≡ some n) × (n.sched_epoch ≡ epoch))

  pub can_schedule-cases :
      (g : Carrier) (i epoch : ℕ)
      → Idle epoch g i × (can_schedule P g i epoch ≡ (none, g))
        ⊎ ((n : NodeContext F) × (node_weight g i ≡ some n)
            × (n.sched_epoch ≢ epoch)
            × (can_schedule P g i epoch ≡ (some n.depth, mark epoch g i n)))
  unfolding can_schedule
  can_schedule-cases g i epoch = elim (Option-cases (node_weight g i)) [
    | inl gone ↦ inl (inl gone, rw (gone, can_schedule))
    | inr (n, e) ↦ elim (Bool-cases (n.sched_epoch == epoch)) [
      | inl old ↦ inl (inr (n, e, (==_iff _ _).0 old), rw (e, old, can_schedule))
      | inr new ↦ inr (n, e, (λ same. ground arith), rw (e, new, can_schedule))
    ]
  ]

  pub node_weight-mark :
      (epoch : ℕ) (g : Carrier) (i : ℕ) (n : NodeContext F) (j : ℕ)
      → node_weight g i ≡ some n
      → node_weight (mark epoch g i n) j
        ≡ (if i == j then some (record n { sched_epoch = epoch }) else node_weight g j)
  node_weight-mark epoch g i n j e =
      node_weight-set_weight g i j (record n { sched_epoch = epoch }) ∙ rw e

  -- What one attempt does to a valid scheduler that has a queue for every node: nothing, if the
  -- node is idle; else the node is marked and queued, unless its depth has been passed already.
  pub data Offers (epoch i : ℕ) (g : Carrier) (s : Scheduler) : Call (Sched P) → Type 0 where
    skipped : Idle epoch g i → Offers epoch i g s (ret (g, s))
    late :
        (n : NodeContext F)
        → node_weight g i ≡ some n
        → n.sched_epoch ≢ epoch
        → n.depth < s.curr_depth
        → Offers epoch i g s (ret (mark epoch g i n, s))
    placed :
        (n : NodeContext F) (t : Scheduler)
        → node_weight g i ≡ some n
        → n.sched_epoch ≢ epoch
        → s.curr_depth ≤ n.depth
        → contents t ≡ insert_entry (n.depth, i) (contents s)
        → t.curr_depth ≡ s.curr_depth
        → length t.multi_queue ≡ length s.multi_queue
        → IsValid t
        → Offers epoch i g s (ret (mark epoch g i n, t))

  -- Every node of the graph has a queue.
  abbrev pub Enabled : Carrier → Scheduler → Type 0
  Enabled g s =
      (i : ℕ) (n : NodeContext F) → node_weight g i ≡ some n → n.depth < length s.multi_queue

  placed_or_late :
      (epoch i : ℕ) (g : Carrier) (s : Scheduler) (n : NodeContext F)
      (r : Call (Result Scheduler SchedulerError))
      → node_weight g i ≡ some n
      → n.sched_epoch ≢ epoch
      → n.depth < length s.multi_queue
      → Schedules s i n.depth r
      → Offers epoch i g s (r >>= λ u. ret (mark epoch g i n, or_same s u))
  placed_or_late epoch i g s n r e new b (refused x above) = late n e new above
  placed_or_late epoch i g s n r e new b (out_of_bounds low none_there) = absurd (omega arith)
  placed_or_late epoch i g s n r e new b (queued t low _ c d l v) = placed n t e new low c d l v

  pub try_schedule-Offers :
      (epoch i : ℕ) (g : Carrier) (s : Scheduler)
      → IsValid s
      → Enabled g s
      → Offers epoch i g s (try_schedule P epoch i (g, s))
  unfolding try_schedule
  try_schedule-Offers epoch i g s v h = elim (can_schedule-cases g i epoch) [
    | inl (idle, e) ↦ rw (e, try_schedule, ap (λ c. c.1) e) (skipped idle)
    | inr (n, live, new, e) ↦
        rw (e, try_schedule, ap (λ c. c.1) e)
          (placed_or_late epoch i g s n _ live new (h i n live) (schedule-Schedules s i n.depth v))
  ]
