-- ===== src/EventDriver/Polling.antt =====
-- What a poll of wavelet/src/runtime/event_driver.rs schedules.
use wavelet_rs.Prelude.{
  ℕ, zero, suc, ◌≡◌, refl, ◌∙◌, ◌⊎◌, inl, inr, not, ◌&&◌, List, [], ◌∷◌, Option, none, some, ◌==◌,
  get_elem?, Call, ret, ◌>>=◌, ok, All, Returns, returns, Returns-bind, Returns-map, Bool-cases,
  Result-cases, Option-cases, arith,
}
use wavelet_rs.Control.{Relationship}
use wavelet_rs.StableGraph.{StableGraph}
use wavelet_rs.Graph.{NodeContext, can_schedule}
use wavelet_rs.Scheduler.{Scheduler, schedule}
use wavelet_rs.Scheduling.{Sched, try_schedule, must_schedule, or_same, expect}
use wavelet_rs.Scheduling.Keeps.{Keeps-refl}
use wavelet_rs.Scheduling.Ready.{Ready, After, After-trans, try_schedule-After, IsReachable}
use wavelet_rs.ArrayQueue.{ArrayQueue}
use wavelet_rs.Mio.{Mio}
use wavelet_rs.Slab.{Slab}
use wavelet_rs.Clock.{Clock, CycleTime, now}
use wavelet_rs.EventDriver.{
  EventDriver, poll_notifications, fast_poll, slow_poll, effective_timeout, Polled, is_zero_timeout,
  is_park,
}
use wavelet_rs.EventDriver.Io.{IoDriver, handle_events, waker_token}
use wavelet_rs.EventDriver.Io

-- At depth zero nothing is above, so `schedule` refuses nothing.
schedule_top :
    {A : Type 0} (s : Scheduler) (i d : ℕ) (f : Scheduler → Call A)
    → s.curr_depth ≡ 0
    → (schedule s i d >>= λ r. expect r >>= f) ≡ (schedule s i d >>= λ r. f (or_same s r))
unfolding schedule
schedule_top s i d f top = elim (Option-cases (get_elem? s.multi_queue d)) [
  | inl no_queue ↦ ground (arith, no_queue)
  | inr (q, e) ↦ ground (arith, e)
]

module _ {F : Type 0} (P : StableGraph (NodeContext F) Relationship) where
  open P use {Carrier}

  must-try :
      (epoch i : ℕ) (g : Carrier) (s : Scheduler)
      → s.curr_depth ≡ 0
      → must_schedule P epoch i (g, s) ≡ try_schedule P epoch i (g, s)
  unfolding must_schedule try_schedule
  must-try epoch i g s top = elim (Option-cases (can_schedule P g i epoch).0) [
    | inl no_depth ↦ rw (must_schedule, try_schedule, no_depth)
    | inr (d, e) ↦
        rw (must_schedule, try_schedule, e)
          (schedule_top s i d (λ t. ret ((can_schedule P g i epoch).1, t)) top)
  ]

  -- A scheduler that is ready and stands at depth zero.
  pub record Open (epoch : ℕ) (st : Sched P) : Type 0 where
    pub ready : Ready P epoch [] st.0 st.1
    pub top : st.1.curr_depth ≡ 0

  pub Open-After :
      (epoch : ℕ) (st su : Sched P) → Open epoch st → After P epoch [] st.0 st.1 su → Open epoch su
  Open-After epoch st su o a = record { ready = a.ready; top = a.same_depth ∙ o.top }

  reachable : (epoch : ℕ) (st : Sched P) → Open epoch st → (i : ℕ) → IsReachable P st.0 st.1 i
  reachable epoch st o i n e = let t = o.top in omega (arith, t)

  pub all-IsReachable :
      (epoch : ℕ) (st : Sched P) → Open epoch st → (is : List ℕ) → All (IsReachable P st.0 st.1) is
  all-IsReachable epoch st o [] = tt
  all-IsReachable epoch st o (i ∷ is) = (reachable epoch st o i, all-IsReachable epoch st o is)

  must_schedule-After :
      (epoch i : ℕ) (st : Sched P)
      → Open epoch st
      → Returns (After P epoch [] st.0 st.1) (must_schedule P epoch i st)
  must_schedule-After epoch i st o = rw (must-try epoch i st.0 st.1 o.top) (
      Returns-map (λ su (a, _). a)
        (try_schedule-After P epoch i [] st.0 st.1 o.ready (reachable epoch st o i)))

  pub stays : (epoch : ℕ) (st : Sched P) → Open epoch st → After P epoch [] st.0 st.1 st
  stays epoch st o = record { ready = o.ready; keeps = Keeps-refl P epoch st.0; same_depth = refl }

  module _ (Q : ArrayQueue ℕ) (M : Mio) (L : Slab ℕ) where
    pub poll_notifications-After :
        (epoch n : ℕ) (q : Q.Carrier) (st : Sched P)
        → Open epoch st
        → Returns
            (λ (_, su). After P epoch [] st.0 st.1 su)
            (poll_notifications M L Q P epoch n q st)
    unfolding poll_notifications
    poll_notifications-After epoch zero q st o = returns _ (stays epoch st o)
    poll_notifications-After epoch (suc n) q st o = elim (Option-cases (Q.pop q).0) [
      | inl no_more ↦ rw (poll_notifications, no_more) (returns _ (stays epoch st o))
      | inr (i, e) ↦
          rw (poll_notifications, e)
            (Returns-bind _ (must_schedule-After epoch i st o) λ su a.
              Returns-map (λ out b. After-trans P a b)
                (poll_notifications-After epoch n (Q.pop q).1 su (Open-After epoch st su o a)))
    ]

    -- The token is the waker's, or that of a source that is registered.
    abbrev pub IsKnown : L.Carrier → ℕ → Type 0
    IsKnown indices k = (k ≡ waker_token) ⊎ ((i : ℕ) × (L.get indices k ≡ some i))

    handle_events-After :
        (epoch : ℕ) (indices : L.Carrier) (events : List ℕ) (st : Sched P)
        → Open epoch st
        → All (IsKnown indices) events
        → Returns (After P epoch [] st.0 st.1) (handle_events M L P epoch indices events st)
    unfolding handle_events
    handle_events-After epoch indices [] st o h = returns _ (stays epoch st o)
    handle_events-After epoch indices (k ∷ events) st o (known, h) =
        elim (Bool-cases (k == waker_token)) [
          | inl waker ↦ rw waker (handle_events-After epoch indices events st o h)
          | inr source ↦ elim known [
            | inl same ↦ absurd (ground (arith, same))
            | inr (i, e) ↦
                rw (source, e)
                  (Returns-bind _ (must_schedule-After epoch i st o) λ su a.
                    Returns-map (λ out b. After-trans P a b)
                      (handle_events-After epoch indices events su (Open-After epoch st su o a) h))
          ]
        ]

    -- The events of a poll carry the tokens of registered sources, or the waker's.
    abbrev pub AnswersKnown : Option (IoDriver M L) → Type 0
    AnswersKnown none = Unit
    AnswersKnown (some io) =
        (wait : Option ℕ) (events : List ℕ)
        → (M.poll io.poller wait).0 ≡ ok events
        → All (IsKnown io.indices) events

    io_poll-After :
        (io : IoDriver M L) (st : Sched P) (wait : Option ℕ) (epoch : ℕ)
        → Open epoch st
        → AnswersKnown (some io)
        → Returns (λ (_, (_, su)). After P epoch [] st.0 st.1 su) (Io.poll M L P io st wait epoch)
    unfolding Io.poll
    io_poll-After io st wait epoch o h = elim (Result-cases (M.poll io.poller wait).0) [
      | inr (e, failed) ↦ rw (Io.poll, failed) (returns _ (stays epoch st o))
      | inl (events, answered) ↦
          rw (Io.poll, answered)
            (Returns-bind _
              (handle_events-After epoch io.indices events st o (h wait events answered))
              λ su a. returns _ a)
    ]

    module _ {T C : Type 0} (clock : Clock T C) where
      abbrev pub sched_of : Polled M L Q P clock → Sched P
      sched_of out = out.1.1

      pub fast_poll-After :
          (d : EventDriver M L Q) (st : Sched P) (c : C) (cycle_time : CycleTime T) (epoch : ℕ)
          → Open epoch st
          → AnswersKnown d.io_driver
          → Returns
              (λ out. After P epoch [] st.0 st.1 (sched_of out))
              (fast_poll M L Q P clock d st c cycle_time epoch)
      unfolding fast_poll
      fast_poll-After d st c cycle_time epoch o h = elim (Option-cases d.io_driver) [
        | inl no_io ↦ rw (fast_poll, no_io) (returns _ (stays epoch st o))
        | inr (io, e) ↦
            rw (fast_poll, e)
              (Returns-bind _ (io_poll-After io st (some 0) epoch o (rw e at h)) λ r a.
                elim (Result-cases r.0) [
                  | inr (x, failed) ↦ rw failed (returns _ a)
                  | inl (u, fine) ↦ rw fine (returns _ a)
                ])
      ]

      pub slow_poll-After :
          (d : EventDriver M L Q) (st : Sched P) (c : C) (cycle_time : CycleTime T)
          (timeout : Option ℕ) (epoch : ℕ)
          → Open epoch st
          → AnswersKnown d.io_driver
          → Returns
              (λ out. After P epoch [] st.0 st.1 (sched_of out))
              (slow_poll M L Q P clock d st c cycle_time timeout epoch)
      unfolding slow_poll
      slow_poll-After d st c cycle_time timeout epoch o h =
          let wait = effective_timeout d.timer_driver timeout (now cycle_time) in
          elim (Option-cases d.io_driver) [
            | inl no_io ↦ rw (slow_poll, no_io) (returns _ (stays epoch st o))
            | inr (io, e) ↦
                rw (slow_poll, e)
                  (Returns-bind _ (io_poll-After io st wait epoch o (rw e at h)) λ r a.
                    elim (Result-cases r.0) [
                      | inr (x, failed) ↦ rw failed (returns _ a)
                      | inl (u, fine) ↦
                          elim (Bool-cases (is_park d.mode && not (is_zero_timeout wait))) [
                            | inl again ↦ rw (fine, again) (returns _ a)
                            | inr once ↦ rw (fine, once) (returns _ a)
                          ]
                    ])
          ]
