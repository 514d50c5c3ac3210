-- ===== src/EventDriver/Sources.antt =====
-- One poll of all the sources of wavelet/src/runtime/event_driver.rs.
use wavelet_rs.Prelude.{
  ℕ, ◌||◌, inl, inr, List, [], Option, none, some, All, Returns, returns, Returns-bind, Returns-map,
  Bool-cases, bind_assoc,
}
use wavelet_rs.Control.{Relationship}
use wavelet_rs.StableGraph.{StableGraph}
use wavelet_rs.Graph.{NodeContext}
use wavelet_rs.Scheduler.{has_pending_event}
use wavelet_rs.Scheduling.{Sched, try_all}
use wavelet_rs.Scheduling.Entries.{All-map}
use wavelet_rs.Scheduling.Keeps.{Keeps}
use wavelet_rs.Scheduling.Ready.{After, After-trans, Reached, Reached-Keeps, try_all-After}
use wavelet_rs.ArrayQueue.{ArrayQueue}
use wavelet_rs.Mio.{Mio}
use wavelet_rs.Slab.{Slab}
use wavelet_rs.Clock.{Clock, now}
use wavelet_rs.EventDriver.{EventDriver, poll_timer_driver, poll, Polled, is_zero_timeout}
use wavelet_rs.EventDriver.Timer.{TimerDriver}
use wavelet_rs.EventDriver.Timer.Due.{IsSorted, due, poll-due}
use wavelet_rs.EventDriver.Yield
use wavelet_rs.EventDriver.Yield.{YieldDriver}
use wavelet_rs.EventDriver.Polling.{
  Open, Open-After, all-IsReachable, stays, AnswersKnown, sched_of, poll_notifications-After,
  fast_poll-After, slow_poll-After,
}

-- The nodes with a timer that is due.
abbrev pub due_nodes : Option TimerDriver → ℕ → List ℕ
due_nodes none t_now = []
due_nodes (some t) t_now = due t_now t.timers

abbrev pub HasSorted : Option TimerDriver → Type 0
HasSorted none = Unit
HasSorted (some t) = IsSorted t.timers

module _ {F : Type 0} (P : StableGraph (NodeContext F) Relationship) where
  -- After an attempt to schedule all these nodes, with the attempts before and behind it.
  abbrev Offered : ℕ → Sched P → List ℕ → Sched P → Type 0
  Offered epoch st is su = After P epoch [] st.0 st.1 su × All (Reached P epoch su.0) is

  Reached-later :
      (epoch : ℕ) (st su : Sched P) (is : List ℕ)
      → After P epoch [] st.0 st.1 su
      → All (Reached P epoch st.0) is
      → All (Reached P epoch su.0) is
  Reached-later epoch st su is a = All-map is (λ i. Reached-Keeps P i a.keeps)

  yields-Offered :
      (epoch : ℕ) (y : YieldDriver) (st : Sched P)
      → Open P epoch st
      → Returns (λ (_, su). Offered epoch st y.indices su) (Yield.poll P y st epoch)
  unfolding Yield.poll
  yields-Offered epoch y st o =
      Returns-bind _
        (try_all-After P epoch y.indices [] st.0 st.1 o.ready
          (all-IsReachable P epoch st o y.indices))
        λ su a. returns _ a

  module _ (Q : ArrayQueue ℕ) (M : Mio) (L : Slab ℕ) where
    timers-Offered :
        (epoch t_now : ℕ) (t : Option TimerDriver) (st : Sched P)
        → Open P epoch st
        → HasSorted t
        → Returns
            (λ (_, su). Offered epoch st (due_nodes t t_now) su)
            (poll_timer_driver M L Q P t st t_now epoch)
    unfolding poll_timer_driver
    timers-Offered epoch t_now none st o h = returns _ (stays P epoch st o, tt)
    timers-Offered epoch t_now (some t) st o h = rw (poll-due P t st t_now epoch h) (
        rw (bind_assoc (try_all P epoch (due t_now t.timers) st) _ _) (
          Returns-bind _
            (try_all-After P epoch (due t_now t.timers) [] st.0 st.1 o.ready
              (all-IsReachable P epoch st o (due t_now t.timers)))
            λ su a. returns _ a))

    -- What a poll leaves.
    pub record Gathered {T C : Type 0} (clock : Clock T C) (d : EventDriver M L Q) (st : Sched P)
        (c : C) (epoch : ℕ) (su : Sched P) : Type 0 where
      pub open_again : Open P epoch su
      pub same_nodes : Keeps P epoch st.0 su.0
      pub yielded : All (Reached P epoch su.0) d.yield_driver.indices
      pub timed : All (Reached P epoch su.0) (due_nodes d.timer_driver (now (clock c).0))

    conclude :
        {T C : Type 0} (clock : Clock T C) (d : EventDriver M L Q) (st s2 s3 : Sched P) (c : C)
        (epoch : ℕ)
        → Open P epoch s3
        → After P epoch [] st.0 st.1 s3
        → After P epoch [] s2.0 s2.1 s3
        → All (Reached P epoch s2.0) d.yield_driver.indices
        → All (Reached P epoch s3.0) (due_nodes d.timer_driver (now (clock c).0))
        → (out : Polled M L Q P clock) → After P epoch [] s3.0 s3.1 (sched_of P Q M L clock out)
        → Gathered clock d st c epoch (sched_of P Q M L clock out)
    conclude clock d st s2 s3 c epoch o3 a a3 r2 r3 out a4 =
        let su = sched_of P Q M L clock out in
        record {
          open_again = Open-After P epoch s3 su o3 a4;
          same_nodes = (After-trans P a a4).keeps;
          yielded =
              Reached-later epoch s3 su d.yield_driver.indices a4
                (Reached-later epoch s2 s3 d.yield_driver.indices a3 r2);
          timed = Reached-later epoch s3 su (due_nodes d.timer_driver (now (clock c).0)) a4 r3;
        }

    -- Take a cycle's start: the scheduler is valid, at depth zero, with a queue for the depth of
    -- every node, and just the nodes that wait are marked with the epoch. If the timers are in the
    -- order of their keys and mio answers only with tokens of registered sources or of the waker,
    -- then `poll` returns without a panic and leaves such a state, with the same nodes and edges,
    -- in which every node that is there and has yielded, or has a timer that is due at the clock's
    -- time, is marked with the epoch. This holds whether or not polling for I/O fails.
    pub poll-Gathered :
        {T C : Type 0} (clock : Clock T C) (d : EventDriver M L Q) (st : Sched P) (c : C)
        (timeout : Option ℕ) (epoch : ℕ)
        → Open P epoch st
        → HasSorted d.timer_driver
        → AnswersKnown P Q M L d.io_driver
        → Returns
            (λ out. Gathered clock d st c epoch (sched_of P Q M L clock out))
            (poll M L Q P clock d st c timeout epoch)
    unfolding poll
    poll-Gathered clock d st c timeout epoch o sorted known =
        Returns-bind _ (poll_notifications-After P Q M L epoch d.poll_limit d.notifications st o)
          λ (q, s1) a1.
            let o1 = Open-After P epoch st s1 o a1 in
            Returns-bind _ (yields-Offered epoch d.yield_driver s1 o1) λ (y, s2) (a2, r2).
              let o2 = Open-After P epoch s1 s2 o1 a2 in
              Returns-bind _ (timers-Offered epoch (now (clock c).0) d.timer_driver s2 o2 sorted)
                λ (t, s3) (a3, r3).
                  let o3 = Open-After P epoch s2 s3 o2 a3 in
                  let d' : EventDriver M L Q = record d {
                    notifications = q;
                    yield_driver = y;
                    timer_driver = t;
                  } in
                  elim (Bool-cases (has_pending_event s3.1 || is_zero_timeout timeout)) [
                    | inl fast ↦ rw fast (
                        Returns-map
                          (conclude clock d st s2 s3 c epoch o3
                            (After-trans P (After-trans P a1 a2) a3) a3 r2 r3)
                          (fast_poll-After P Q M L clock d' s3 (clock c).1 (clock c).0 epoch o3
                            known))
                    | inr slow ↦ rw slow (
                        Returns-map
                          (conclude clock d st s2 s3 c epoch o3
                            (After-trans P (After-trans P a1 a2) a3) a3 r2 r3)
                          (slow_poll-After P Q M L clock d' s3 (clock c).1 (clock c).0 timeout epoch
                            o3 known))
                  ]
