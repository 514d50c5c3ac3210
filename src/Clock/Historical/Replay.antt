-- ===== src/Clock/Historical/Replay.antt =====
-- The clock of wavelet/src/runtime/clock/historical.rs where each reading returns, as a clock of the
-- executor.
use wavelet_rs.Prelude.{◌≡◌, ap, subst, ℕ, suc, ret, ◌>>=◌, ◌≤◌, ◌+◌, sym, Returns-value}
use wavelet_rs.Clock.{CycleTime, Clock}
use wavelet_rs.Clock.Historical.{
  Calendar, Interval, HistoricalClock, IsWithin, Fits, Advances, read, cycle_time,
  cycle_time-Returns,
}

module _ {Time : Type 0} (L : Calendar Time) where
  -- The position is in the interval, and a step from the interval's end is not behind the last moment.
  pub record Replay : Type 0 where
    pub inner : HistoricalClock L
    pub within : IsWithin L inner
    pub fits : Fits L inner

  abbrev reading :
      (r : Replay)
      → (out : CycleTime Time × HistoricalClock L) × (cycle_time L r.inner ≡ ret out)
        × Advances L r.inner out.1
  reading r = Returns-value (cycle_time-Returns L r.inner r.within r.fits)

  pub Advances-Fits : (c d : HistoricalClock L) → Advances L c d → Fits L c → Fits L d
  Advances-Fits c d a fits =
      subst (λ s. L.nanos d.interval.end + s ≤ L.last) (sym a.same_step)
        (subst (λ (i : Interval L). L.nanos i.end + c.time_step ≤ L.last) (sym a.same_interval)
          fits)

  abbrev pub replay_time : Clock Time Replay
  replay_time r =
      let (out, e, a) = reading r in
      (
        out.0,
        record { inner = out.1; within = a.within; fits = Advances-Fits r.inner out.1 a r.fits },
      )

  -- The executor's reading is the clock's own.
  pub replay_time-cycle_time :
      (r : Replay) → cycle_time L r.inner ≡ ret ((replay_time r).0, (replay_time r).1.inner)
  replay_time-cycle_time r = let (out, e, a) = reading r in e

  pub read-replay_time :
      (n : ℕ) (r : Replay) → read L (suc n) r.inner ≡ read L n (replay_time r).1.inner
  read-replay_time n r = ap (λ x. x >>= λ (time, d). read L n d) (replay_time-cycle_time r)
