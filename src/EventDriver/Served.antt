-- ===== src/EventDriver/Served.antt =====
-- A driver with both an I/O and a timer driver, as `EventDriver::new` of
-- wavelet/src/runtime/event_driver.rs makes it, on a mio that does not fail: what its poll keeps.
use wavelet_rs.Prelude.{
  ℕ, ◌≡◌, subst, refl, inl, inr, ◌||◌, ◌&&◌, not, Option, none, some, ret, Result, ok, bind-ret,
  Bool-cases,
}
use wavelet_rs.Control.{Relationship}
use wavelet_rs.StableGraph.{StableGraph}
use wavelet_rs.Graph.{NodeContext}
use wavelet_rs.Scheduler.{has_pending_event}
use wavelet_rs.Scheduling.{Sched}
use wavelet_rs.ArrayQueue.{ArrayQueue}
use wavelet_rs.Mio.{Mio}
use wavelet_rs.Slab.{Slab}
use wavelet_rs.Clock.{Clock, CycleTime, now}
use wavelet_rs.EventDriver.{
  EventDriver, poll_notifications, poll_timer_driver, fast_poll, slow_poll, poll, Polled,
  is_zero_timeout, is_park, effective_timeout,
}
use wavelet_rs.EventDriver.Io.{IoDriver, handle_events}
use wavelet_rs.EventDriver.Io
use wavelet_rs.EventDriver.Yield
use wavelet_rs.EventDriver.Timer.{TimerDriver}
use wavelet_rs.EventDriver.Timer
use wavelet_rs.EventDriver.Timer.Life.{poll-IsSorted}
use wavelet_rs.EventDriver.Polling.{AnswersKnown}
use wavelet_rs.EventDriver.Sources.{HasSorted}

module _ {F : Type 0} (P : StableGraph (NodeContext F) Relationship) (Q : ArrayQueue ℕ) (M : Mio)
    (L : Slab ℕ) (Good : IoDriver M L → Type 0) where
  -- What is asked of the I/O driver: its mio answers with known tokens, and goes on to do so.
  pub record Serves : Type 0 where
    pub known : (io : IoDriver M L) → Good io → AnswersKnown P Q M L (some io)
    pub fine :
        (io : IoDriver M L) (wait : Option ℕ)
        → Good io
        → (events : _) × ((M.poll io.poller wait).0 ≡ ok events)
    pub keeps :
        (io : IoDriver M L) (wait : Option ℕ) (events : _)
        → Good io
        → Good (record io { poller = (M.poll io.poller wait).1; events = events })

  abbrev pub IsServed : EventDriver M L Q → Type 0
  IsServed d = ((io : IoDriver M L) × (d.io_driver ≡ some io) × Good io) × HasSorted d.timer_driver

  module _ (h : Serves) where
    io_poll-Good :
        (io : IoDriver M L) (st : Sched P) (wait : Option ℕ) (epoch : ℕ)
        (out : Result (Unit {0}) M.IoError × (IoDriver M L × Sched P))
        → Io.poll M L P io st wait epoch ≡ ret out
        → Good io
        → (out.0 ≡ ok tt) × Good out.1.0
    unfolding Io.poll
    io_poll-Good io st wait epoch out e g =
        let (events, answered) = h.fine io wait g in
        let (su, _, left) =
          bind-ret (handle_events M L P epoch io.indices events st) _
            (rw (Io.poll, answered) at e) in
        let now_io : IoDriver M L = record io {
          poller = (M.poll io.poller wait).1;
          events = events;
        } in
        let same : (ok tt, (now_io, su)) ≡ out = cc in
        subst
          (λ (o : Result (Unit {0}) M.IoError × (IoDriver M L × Sched P)).
            (o.0 ≡ ok tt) × Good o.1.0)
          same (refl, h.keeps io wait events g)

    timers-HasSorted :
        (o : Option TimerDriver) (st : Sched P) (t_now epoch : ℕ)
        (out : Option TimerDriver × Sched P)
        → poll_timer_driver M L Q P o st t_now epoch ≡ ret out
        → HasSorted o
        → HasSorted out.0
    unfolding poll_timer_driver
    timers-HasSorted none st t_now epoch out e s =
        let same : (none, st) ≡ out = cc in
        subst (λ (o : Option TimerDriver × Sched P). HasSorted o.0) same tt
    timers-HasSorted (some d) st t_now epoch out e s =
        let (r, polled, left) = bind-ret (Timer.poll P d st t_now epoch) _ e in
        let same : (some r.0, r.1) ≡ out = cc in
        subst (λ (o : Option TimerDriver × Sched P). HasSorted o.0) same
          (poll-IsSorted P d r.0 t_now epoch st r.1 s polled)

    module _ {T C : Type 0} (clock : Clock T C) where
      Fine : Polled M L Q P clock → Type 0
      Fine out = IsServed out.1.0 × ((cycle_time : CycleTime T) × (out.0 ≡ ok cycle_time))

      fast_poll-Fine :
          (d : EventDriver M L Q) (st : Sched P) (c : C) (cycle_time : CycleTime T) (epoch : ℕ)
          (out : Polled M L Q P clock)
          → fast_poll M L Q P clock d st c cycle_time epoch ≡ ret out
          → IsServed d
          → Fine out
      unfolding fast_poll Fine
      fast_poll-Fine d st c cycle_time epoch out e ((io, has_io, g), s) =
          let (r, polled, left) =
            bind-ret (Io.poll M L P io st (some 0) epoch) _ (rw (fast_poll, has_io) at e) in
          let (fine, good) = io_poll-Good io st (some 0) epoch r polled g in
          let end = rw fine at left in
          let same : (ok cycle_time, (record d { io_driver = some r.1.0 }, r.1.1, c)) ≡ out = cc in
          subst Fine same (((r.1.0, refl, good), s), (cycle_time, refl))

      slow_poll-Fine :
          (d : EventDriver M L Q) (st : Sched P) (c : C) (cycle_time : CycleTime T)
          (timeout : Option ℕ) (epoch : ℕ) (out : Polled M L Q P clock)
          → slow_poll M L Q P clock d st c cycle_time timeout epoch ≡ ret out
          → IsServed d
          → Fine out
      unfolding slow_poll Fine
      slow_poll-Fine d st c cycle_time timeout epoch out e ((io, has_io, g), s) =
          let wait = effective_timeout d.timer_driver timeout (now cycle_time) in
          let (r, polled, left) =
            bind-ret (Io.poll M L P io st wait epoch) _ (rw (slow_poll, has_io) at e) in
          let (fine, good) = io_poll-Good io st wait epoch r polled g in
          elim (Bool-cases (is_park d.mode && not (is_zero_timeout wait))) [
            | inl parked ↦
                let end = rw (fine, parked) at left in
                let same : (
                  ok (clock c).0,
                  (record d { io_driver = some r.1.0 }, r.1.1, (clock c).1),
                )
                    ≡ out =
                  cc in
                subst Fine same (((r.1.0, refl, good), s), ((clock c).0, refl))
            | inr awake ↦
                let end = rw (fine, awake) at left in
                let same : (ok cycle_time, (record d { io_driver = some r.1.0 }, r.1.1, c)) ≡ out =
                  cc in
                subst Fine same (((r.1.0, refl, good), s), (cycle_time, refl))
          ]

      pub poll-IsServed :
          (d : EventDriver M L Q) (st : Sched P) (c : C) (timeout : Option ℕ) (epoch : ℕ)
          (out : Polled M L Q P clock)
          → poll M L Q P clock d st c timeout epoch ≡ ret out
          → IsServed d
          → IsServed out.1.0 × ((cycle_time : CycleTime T) × (out.0 ≡ ok cycle_time))
      unfolding poll Fine
      poll-IsServed d st c timeout epoch out e (io, s) =
          let (a, _, e1) =
            bind-ret (poll_notifications M L Q P epoch d.poll_limit d.notifications st) _ e in
          let (y, _, e2) = bind-ret (Yield.poll P d.yield_driver a.1 epoch) _ e1 in
          let (t, left, e3) =
            bind-ret (poll_timer_driver M L Q P d.timer_driver y.1 (now (clock c).0) epoch) _ e2 in
          let sorted = timers-HasSorted d.timer_driver y.1 (now (clock c).0) epoch t left s in
          elim (Bool-cases (has_pending_event t.1.1 || is_zero_timeout timeout)) [
            | inl fast ↦
                fast_poll-Fine _ t.1 (clock c).1 (clock c).0 epoch out (rw fast at e3) (io, sorted)
            | inr slow ↦
                slow_poll-Fine _ t.1 (clock c).1 (clock c).0 timeout epoch out (rw slow at e3)
                  (io, sorted)
          ]
