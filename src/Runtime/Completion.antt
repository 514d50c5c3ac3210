-- ===== src/Runtime/Completion.antt =====
-- The loops `run_forever` and `run_until_completion` of wavelet/src/runtime.rs, from cycle to cycle.
use wavelet_rs.Prelude.{
  ℕ, zero, suc, ◌+◌, ◌%◌, ◌*◌, ◌≡◌, ◌≤◌, ◌<◌, refl, sym, ◌∙◌, ap, subst, true, Option, some, Call,
  ret, ok, err, Returns, returns, Returns-bind, Returns-ret, Returns-if, Returns-elim, arith,
  usize_mod,
}
use native.Mathlib.Nat.{mod-eq_of_lt}
use wavelet_rs.Clock.{Clock}
use wavelet_rs.Clock.Historical.{Calendar, HistoricalClock, read}
use wavelet_rs.Clock.Historical.Exhausting.{read_exhausts}
use wavelet_rs.Clock.Historical.Replay.{Replay, replay_time, read-replay_time}
use wavelet_rs.EventDriver.{EventDriver}
use wavelet_rs.EventDriver.Reads.{poll_zero-clock}
use wavelet_rs.Platform.{Platform}
use wavelet_rs.Executor.{ExecutorState, running, terminated, Executor, Closures}
use wavelet_rs.Executor.Cycle.{Cycled}
use wavelet_rs.Executor.Propagation.{IsQuiet}
use wavelet_rs.Executor.Sweeping.{OnlyMarks}
use wavelet_rs.Executor.Whole.{SpawnsReturn, polling, Cycles, poll_failed, polled, cycle-Cycles}
use wavelet_rs.Executor.Rest.{Resting, SpawnsKeep, Resting-AtRest, Completes-Resting, IsStamped}
use wavelet_rs.Executor.Drivers.{Discipline, Completes-Fit}
use wavelet_rs.Runtime.{Runtime, cycle_for, run_until_completion, state_of}

module _ (K : Platform) (B : Closures K) {C : Type 0} (clock : Clock K.Time C)
    (Fit : EventDriver K.mio K.slab K.queue → Type 0) where
  -- What is asked of the program's closures, and of the drivers under them.
  pub record Program : Type 0 where
    pub quiet : IsQuiet K B
    pub marks : OnlyMarks K B
    pub spawns : SpawnsReturn K B
    pub keeps : SpawnsKeep K B
    pub drivers : Discipline K B clock Fit

  -- A runtime before a cycle, with room for `k` epochs more.
  pub record Goes (k : ℕ) (rt : Runtime K C) : Type 0 where
    pub resting : Resting K rt.executor
    pub fit : Fit rt.executor.event_driver
    pub room : rt.executor.epoch + k < usize_mod

  -- A cycle of the runtime ends the program, or leaves it ready for the next cycle; if it may not
  -- wait, it has read the clock once.
  pub data Next (timeout : Option ℕ) (k : ℕ) (rt : Runtime K C)
      : ExecutorState × Runtime K C → Type 0 where
    stops : (rt' : Runtime K C) → rt'.mode ≡ rt.mode → Next timeout k rt (terminated, rt')
    goes :
        (rt' : Runtime K C)
        → Goes k rt'
        → rt'.mode ≡ rt.mode
        → (timeout ≡ some 0 → rt'.clock ≡ (clock rt.clock).1)
        → Next timeout k rt (running, rt')

  module _ (p : Program) (timeout : Option ℕ) (k : ℕ) (rt : Runtime K C) (g : Goes (suc k) rt) where
    epoch : ℕ
    epoch = (rt.executor.epoch + 1) % usize_mod

    begun : Executor K
    begun = record (rt.executor) { epoch = epoch }

    after_cycle :
        (fuel : ℕ) (out : Cycled K B clock)
        → Cycles K B clock epoch fuel begun rt.clock timeout out
        → Next timeout k rt (state_of out.0, record rt { executor = out.1.0; clock = out.1.1 })
    unfolding epoch begun
    after_cycle fuel _ (poll_failed x d st r e) =
        let D = p.drivers in
        absurd (D.poll_fine epoch begun rt.clock timeout x (err x, (d, st, r.1)) e g.fit refl)
    after_cycle fuel _ (polled terminated r c) = stops _ refl
    after_cycle fuel _ (polled running r c) =
        let next : epoch ≡ rt.executor.epoch + 1 =
          mod-eq_of_lt (let h = g.room in omega (arith, h)) in
        let rest = g.resting in
        let stamped : IsStamped K epoch rt.executor.graph =
          λ i n en. (let s = rest.stamped i n en in omega (arith, s, next)) in
        let (q, kept) =
          Completes-Resting K B clock p.spawns p.keeps p.marks epoch fuel begun rt.clock timeout r
            refl stamped c in
        goes _
          (record {
            resting = q;
            fit = Completes-Fit K B clock Fit p.drivers epoch fuel begun rt.clock timeout r c g.fit;
            room = (let h = g.room in omega (arith, h, kept, next));
          })
          refl
          λ zero.
            poll_zero-clock K.graphs K.queue K.mio K.slab clock begun.event_driver
              (begun.graph, begun.scheduler) rt.clock epoch (ok c.cycle_time, (c.driver, c.st, r.1))
              (subst
                (λ t.
                  polling K B clock epoch begun rt.clock t
                  ≡ ret (ok c.cycle_time, (c.driver, c.st, r.1)))
                zero c.poll_ok)

    -- A cycle of a runtime that is ready for it.
    pub cycle_for-Next : Returns (Next timeout k rt) (cycle_for K B clock timeout rt)
    unfolding cycle_for epoch begun
    cycle_for-Next =
        let D = p.drivers in
        let d = rt.executor.event_driver in
        Returns-bind _
          (cycle-Cycles K B clock p.quiet p.marks p.spawns
            (suc (K.graphs.node_count rt.executor.graph)) rt.executor rt.clock timeout
            (Resting-AtRest K B clock rt.executor g.resting (let h = g.room in omega (arith, h))
              (D.sorted d g.fit) (D.known d g.fit))
            (omega arith))
          λ out cycles. returns _ (after_cycle _ out cycles)

  -- A round of a loop over cycles: what follows the cycle is known for both ways it can go.
  module _ {ℓ} {A : Type 0} (Q : A → Type ℓ) (stop go : Runtime K C → Call A) (timeout : Option ℕ)
      (k : ℕ) (rt : Runtime K C) where
    after_round :
        ((rt' : Runtime K C) → rt'.mode ≡ rt.mode → Returns Q (stop rt'))
        → ((rt' : Runtime K C)
            → Goes k rt'
            → rt'.mode ≡ rt.mode
            → (timeout ≡ some 0 → rt'.clock ≡ (clock rt.clock).1)
            → Returns Q (go rt'))
        → (out : ExecutorState × Runtime K C) → Next timeout k rt out
        → Returns Q (elim out.0 [ terminated ↦ stop out.1 | running ↦ go out.1 ])
    after_round s g _ (stops rt' mode) = s rt' mode
    after_round s g _ (goes rt' ready mode time) = g rt' ready mode time

module _ (K : Platform) (B : Closures K) (L : Calendar K.Time)
    (Fit : EventDriver K.mio K.slab K.queue → Type 0) where
  -- The loop has come to an end: a node has terminated it, or the clock is exhausted.
  abbrev pub IsOver : ExecutorState × Runtime K (Replay L) → Type 0
  IsOver (state, rt) = state ≡ running → rt.clock.inner.exhausted ≡ true

  abbrev IsExhausted : Call (HistoricalClock L) → Type 0
  IsExhausted x = Returns (λ d. d.exhausted ≡ true) x

  completes :
      Program K B (replay_time L) Fit
      → (k : ℕ) (rt : Runtime K (Replay L)) → Goes K B (replay_time L) Fit k rt
      → Returns (λ d. d.exhausted ≡ true) (read L k rt.clock.inner)
      → Returns IsOver (run_until_completion K B L k rt)
  unfolding run_until_completion
  completes p zero rt g done =
      Returns-if rt.clock.inner.exhausted (λ now. returns (running, rt) (λ _. now))
        λ on. (let now = Returns-ret rt.clock.inner done refl in cc)
  completes p (suc k) rt g done =
      Returns-elim rt.clock.inner.exhausted (λ now. returns (running, rt) (λ _. now))
        λ on. Returns-bind _ (cycle_for-Next K B (replay_time L) Fit p (some 0) k rt g) (
          after_round K B (replay_time L) Fit IsOver (λ rt'. ret (terminated, rt'))
            (run_until_completion K B L k) (some 0) k rt
            (λ rt' mode. returns (terminated, rt') λ e. cc)
            λ rt' ready mode time. completes p k rt' ready (
              subst IsExhausted
                (read-replay_time L k rt.clock
                  ∙ ap (λ (r : Replay L). read L k r.inner) (sym (time refl)))
                done))

  -- Take a program whose closures return without touching the scheduler, whose drops only mark
  -- nodes, whose deferred functions return, defer nothing and leave the executor at rest, and a
  -- property of its event driver that every call keeps and by which the timers are in order, mio
  -- answers only with known tokens and no poll fails. Take a runtime that is at rest, has the
  -- property, has room for `n + 1` epochs more, whose clock is within its interval, where a step from
  -- the interval's end is not behind the last moment, and `n` steps of the clock reach the end. Then `run_until_completion` returns within
  -- `n + 1` cycles and without a panic, and the clock is exhausted then, unless a node has
  -- terminated the loop.
  pub run_until_completion-Returns :
      Program K B (replay_time L) Fit
      → (n : ℕ) (rt : Runtime K (Replay L)) → Goes K B (replay_time L) Fit (suc n) rt
      → L.nanos rt.clock.inner.interval.end
        ≤ L.nanos rt.clock.inner.current_time + n * rt.clock.inner.time_step
      → Returns IsOver (run_until_completion K B L (suc n) rt)
  run_until_completion-Returns p n rt g h =
      completes p (suc n) rt g (read_exhausts L n rt.clock.inner rt.clock.within rt.clock.fits h)
