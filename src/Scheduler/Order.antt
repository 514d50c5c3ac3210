-- ===== src/Scheduler/Order.antt =====
-- `schedule` and `pop` of runtime/scheduler.rs against one list of entries (depth, node): the
-- queues are a stable priority queue, and `pop` visits every depth before it gives up.
use wavelet_rs.Prelude.{
  ℕ, zero, suc, ◌+◌, ◌-◌, ◌≤◌, ◌<◌, ◌≡◌, refl, ◌∙◌, inl, inr, List, [], ◌∷◌, ◌++◌, Option, none,
  some, ltb, ltb→lt, ltb→ge, arith, length, get_elem?, get_elem?-some, le_of_get_elem?-none,
  lt_of_get_elem?, length-set, length-append, set, Call, ret, panic, Result, ok, err, Bool-cases,
  Option-cases, ap, true, false,
}
use native.Mathlib.Numerals.{add-one}
use wavelet_rs.Scheduler.{
  Scheduler, SchedulerError, new, has_pending_event, schedule, reset, pop_loop, pop,
}
use wavelet_rs.Scheduler.Contents.{
  Entry, entries, total, Drained, insert_entry, entries_empty, total-Drained, Drained-suc,
  Drained-set, total-set, entries-front, entries-insert,
}

-- The count is that of the queued nodes, and nothing waits above the current depth.
pub record IsValid (s : Scheduler) : Type 0 where
  pub counted : s.pending_events ≡ total s.multi_queue
  pub drained : Drained s.curr_depth s.multi_queue

abbrev pub contents : Scheduler → List Entry
contents s = entries 0 s.multi_queue

pub new-IsValid : IsValid new
unfolding new
new-IsValid = record { counted = refl; drained = tt }

-- What `pop` promises of a scheduler: the first entry and its depth, or that there is none.
pub data Pops (s : Scheduler) : Option ℕ × Scheduler → Type 0 where
  taken :
      (node : ℕ) (t : Scheduler)
      → contents s ≡ (t.curr_depth, node) ∷ contents t
      → s.curr_depth ≤ t.curr_depth
      → t.curr_depth < length t.multi_queue
      → length t.multi_queue ≡ length s.multi_queue
      → IsValid t
      → Pops s (some node, t)
  exhausted :
      (t : Scheduler)
      → contents s ≡ []
      → t ≡ record s { curr_depth = 0 }
      → IsValid t
      → Pops s (none, t)

-- One turn of the loop does not change what is queued.
Pops-deeper :
    (s : Scheduler) (r : Option ℕ × Scheduler)
    → Pops (record s { curr_depth = s.curr_depth + 1 }) r
    → Pops s r
Pops-deeper s r (taken node t c d b l v) = taken node t c (omega arith) b l v
Pops-deeper s r (exhausted t c e v) = exhausted t c e v

reset-Pops : (s : Scheduler) → IsValid s → total s.multi_queue ≡ 0 → Pops s (none, reset s)
unfolding reset
reset-Pops s v h =
    exhausted _ (entries_empty 0 s.multi_queue h) refl
      (record { counted = v.counted; drained = tt })

take-Pops :
    (s : Scheduler) (item : ℕ) (queue : List ℕ)
    → IsValid s
    → get_elem? s.multi_queue s.curr_depth ≡ some (item ∷ queue)
    → Pops s (
      some item,
      record s {
        multi_queue = set s.multi_queue s.curr_depth queue;
        pending_events = s.pending_events - 1;
      },
    )
take-Pops s item queue v e =
    let d = s.curr_depth in
    let same : d + 0 ≡ d = omega arith in
    taken item _
      (entries-front d 0 s.multi_queue item queue v.drained e
        ∙ ap (λ (t : ℕ). (t, item) ∷ entries 0 (set s.multi_queue d queue)) same)
      (omega arith)
      (omega (arith, lt_of_get_elem? s.multi_queue d e, length-set s.multi_queue d queue))
      (length-set s.multi_queue d queue)
      (record {
        counted = omega (arith, v.counted, total-set d s.multi_queue (item ∷ queue) queue e);
        drained = Drained-set d d s.multi_queue queue (omega arith) v.drained;
      })

idle-total : (s : Scheduler) → IsValid s → has_pending_event s ≡ false → total s.multi_queue ≡ 0
unfolding has_pending_event
idle-total s v h = omega (arith, v.counted, ltb→ge _ _ h)

-- One turn, for what stands in the queue of the current depth.
pop_turn-Pops :
    (fuel : ℕ) (s : Scheduler) (q : List ℕ)
    → IsValid s
    → ltb s.curr_depth (length s.multi_queue) ≡ true
    → has_pending_event s ≡ true
    → get_elem? s.multi_queue s.curr_depth ≡ some q
    → (q ≡ [] → Pops s (pop_loop fuel (record s { curr_depth = s.curr_depth + 1 })))
    → Pops s (pop_loop (suc fuel) s)
unfolding pop_loop
pop_turn-Pops fuel s [] v inside busy e rest = rw (inside, busy, e) (rest refl)
pop_turn-Pops fuel s (item ∷ queue) v inside busy e rest =
    rw (inside, busy, e) (take-Pops s item queue v e)

next_depth-IsValid :
    (s : Scheduler)
    → IsValid s
    → get_elem? s.multi_queue s.curr_depth ≡ some []
    → IsValid (record s { curr_depth = s.curr_depth + 1 })
next_depth-IsValid s v e = record {
  counted = v.counted;
  drained = rw add-one (Drained-suc s.curr_depth s.multi_queue v.drained e);
}

pop_loop-Pops :
    (fuel : ℕ) (s : Scheduler)
    → IsValid s
    → length s.multi_queue ≤ fuel + s.curr_depth
    → Pops s (pop_loop fuel s)
pop_loop-Pops zero s v h =
    unfold pop_loop in
    reset-Pops s v (total-Drained s.curr_depth s.multi_queue v.drained (omega arith))
pop_loop-Pops (suc fuel) s v h = elim (Bool-cases (ltb s.curr_depth (length s.multi_queue))) [
  | inr out ↦
      unfold pop_loop in
      rw out (reset-Pops s v (total-Drained s.curr_depth s.multi_queue v.drained (ltb→ge _ _ out)))
  | inl inside ↦ elim (Bool-cases (has_pending_event s)) [
    | inr idle ↦ unfold pop_loop in rw (inside, idle) (reset-Pops s v (idle-total s v idle))
    | inl busy ↦
        let (q, e) = get_elem?-some s.multi_queue s.curr_depth (ltb→lt _ _ inside) in
        pop_turn-Pops fuel s q v inside busy e (λ empty. Pops-deeper s _ (
          pop_loop-Pops fuel (record s { curr_depth = s.curr_depth + 1 })
            (next_depth-IsValid s v (e ∙ ap some empty)) (omega arith)))
  ]
]

-- On a valid scheduler `pop` takes the first entry, or says that there is none and starts over.
pub pop-Pops : (s : Scheduler) → IsValid s → Pops s (pop s)
unfolding pop
pop-Pops s v = pop_loop-Pops _ s v (omega arith)

-- What `schedule` promises: it is refused above the current depth, it panics at a depth that has
-- no queue, and else the entry goes behind all that is not deeper.
pub data Schedules (s : Scheduler) (node depth : ℕ)
    : Call (Result Scheduler SchedulerError) → Type 0 where
  refused : (e : SchedulerError) → depth < s.curr_depth → Schedules s node depth (ret (err e))
  out_of_bounds : s.curr_depth ≤ depth → length s.multi_queue ≤ depth → Schedules s node depth panic
  queued :
      (t : Scheduler)
      → s.curr_depth ≤ depth
      → depth < length s.multi_queue
      → contents t ≡ insert_entry (depth, node) (contents s)
      → t.curr_depth ≡ s.curr_depth
      → length t.multi_queue ≡ length s.multi_queue
      → IsValid t
      → Schedules s node depth (ret (ok t))

schedule_at-IsValid :
    (s : Scheduler) (node depth : ℕ) (q : List ℕ)
    → IsValid s
    → s.curr_depth ≤ depth
    → get_elem? s.multi_queue depth ≡ some q
    → IsValid (record s {
      multi_queue = set s.multi_queue depth (q ++ node ∷ []);
      pending_events = s.pending_events + 1;
    })
schedule_at-IsValid s node depth q v low e = record {
  counted = omega (
    arith,
    v.counted,
    total-set depth s.multi_queue q (q ++ node ∷ []) e,
    length-append q (node ∷ []),
  );
  drained = Drained-set s.curr_depth depth s.multi_queue _ low v.drained;
}

schedule_at-contents :
    (s : Scheduler) (node depth : ℕ) (q : List ℕ)
    → get_elem? s.multi_queue depth ≡ some q
    → entries 0 (set s.multi_queue depth (q ++ node ∷ [])) ≡ insert_entry (depth, node) (contents s)
schedule_at-contents s node depth q e =
    let same : depth + 0 ≡ depth = omega arith in
    entries-insert depth 0 s.multi_queue q node e
    ∙ ap (λ (d : ℕ). insert_entry (d, node) (contents s)) same

-- On a valid scheduler `schedule` is refused above the current depth, panics at a depth that has no
-- queue, and else puts the node behind all entries that are not deeper; the result is valid, at the
-- same current depth, with as many queues.
pub schedule-Schedules :
    (s : Scheduler) (node depth : ℕ) → IsValid s → Schedules s node depth (schedule s node depth)
unfolding schedule
schedule-Schedules s node depth v = elim (Bool-cases (ltb depth s.curr_depth)) [
  | inl above ↦ rw above (refused (record {}) (ltb→lt _ _ above))
  | inr low ↦ elim (Option-cases (get_elem? s.multi_queue depth)) [
    | inl missing ↦
        rw (low, missing)
          (out_of_bounds (ltb→ge _ _ low) (le_of_get_elem?-none s.multi_queue depth missing))
    | inr (q, e) ↦
        rw (low, e)
          (queued _ (ltb→ge _ _ low) (lt_of_get_elem? s.multi_queue depth e)
            (schedule_at-contents s node depth q e) refl (length-set s.multi_queue depth _)
            (schedule_at-IsValid s node depth q v (ltb→ge _ _ low) e))
  ]
]
