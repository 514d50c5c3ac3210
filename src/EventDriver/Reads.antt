-- ===== src/EventDriver/Reads.antt =====
-- How often a poll of wavelet/src/runtime/event_driver.rs reads the clock.
use wavelet_rs.Prelude.{
  ℕ, ◌≡◌, inl, inr, ◌||◌, true, some, ret, bind-ret, Option-cases, Result-cases, arith,
}
use wavelet_rs.Control.{Relationship}
use wavelet_rs.StableGraph.{StableGraph}
use wavelet_rs.Graph.{NodeContext}
use wavelet_rs.Scheduler.{has_pending_event}
use wavelet_rs.Scheduling.{Sched}
use wavelet_rs.ArrayQueue.{ArrayQueue}
use wavelet_rs.Mio.{Mio}
use wavelet_rs.Slab.{Slab}
use wavelet_rs.Clock.{Clock, CycleTime, now}
use wavelet_rs.EventDriver.{
  EventDriver, poll_notifications, poll_timer_driver, fast_poll, poll, Polled, is_zero_timeout,
}
use wavelet_rs.EventDriver.Yield
use wavelet_rs.EventDriver.Io

module _ {F : Type 0} (P : StableGraph (NodeContext F) Relationship) (Q : ArrayQueue ℕ) (M : Mio)
    (L : Slab ℕ) {T C : Type 0} (clock : Clock T C) where
  fast_poll-clock :
      (d : EventDriver M L Q) (st : Sched P) (c : C) (cycle_time : CycleTime T) (epoch : ℕ)
      (out : Polled M L Q P clock)
      → fast_poll M L Q P clock d st c cycle_time epoch ≡ ret out
      → out.1.2 ≡ c
  unfolding fast_poll
  fast_poll-clock d st c cycle_time epoch out e = elim (Option-cases d.io_driver) [
    | inl no_io ↦ let r = rw (fast_poll, no_io) at e in cc
    | inr (io, there) ↦
        let (r, _, f) =
          bind-ret (Io.poll M L P io st (some 0) epoch) _ (rw (fast_poll, there) at e) in
        elim (Result-cases r.0) [
          | inl (u, fine) ↦ let q = rw fine at f in cc
          | inr (x, failed) ↦ let q = rw failed at f in cc
        ]
  ]

  -- A poll that may not wait reads the clock once.
  pub poll_zero-clock :
      (d : EventDriver M L Q) (st : Sched P) (c : C) (epoch : ℕ) (out : Polled M L Q P clock)
      → poll M L Q P clock d st c (some 0) epoch ≡ ret out
      → out.1.2 ≡ (clock c).1
  unfolding poll
  poll_zero-clock d st c epoch out e =
      let (a, _, e1) =
        bind-ret (poll_notifications M L Q P epoch d.poll_limit d.notifications st) _ e in
      let (y, _, e2) = bind-ret (Yield.poll P d.yield_driver a.1 epoch) _ e1 in
      let (t, _, e3) =
        bind-ret (poll_timer_driver M L Q P d.timer_driver y.1 (now (clock c).0) epoch) _ e2 in
      let zero : (has_pending_event t.1.1 || is_zero_timeout (some 0)) ≡ true = ground arith in
      fast_poll-clock _ t.1 (clock c).1 (clock c).0 epoch out (rw zero at e3)
