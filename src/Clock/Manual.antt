-- ===== src/Clock/Manual.antt =====
-- wavelet/src/runtime/clock/test_clock.rs: a clock that is set by hand.
use wavelet_rs.Prelude.{ℕ, ◌+◌, ◌*◌, leb, ltb, if◌then◌else◌, Call, ret, panic, ◌>>=◌}
use wavelet_rs.Clock.{CycleTime}
use wavelet_rs.Clock.Historical.{Calendar}

-- A `Duration` has fewer nanoseconds than this: its seconds are a number of 64 bits.
abbrev pub duration_mod : ℕ
duration_mod = 18_446_744_073_709_551_616 * 1_000_000_000

-- `last_instant` is the last `Instant` of the platform; a sum behind it panics.
module _ {Time : Type 0} (L : Calendar Time) (last_instant : ℕ) where
  open L use {plus}

  pub record TestClock : Type 0 where
    pub baseline_wall_time : Time
    pub baseline_instant : ℕ
    pub elapsed : ℕ

  -- `baseline` is what `Instant::now()` less the time since 1970 gives; for `TestClock::new` the wall
  -- time is the start of 1970.
  unfoldable pub starting_at : Time → ℕ → TestClock
  starting_at wall_time baseline = record {
    baseline_wall_time = wall_time;
    baseline_instant = baseline;
    elapsed = 0;
  }

  unfoldable pub advance : TestClock → ℕ → Call TestClock
  advance c duration =
      if ltb (c.elapsed + duration) duration_mod
      then ret (record c { elapsed = c.elapsed + duration })
      else panic

  unfoldable pub set_elapsed : TestClock → ℕ → TestClock
  set_elapsed c elapsed = record c { elapsed = elapsed }

  unfoldable pub reset : TestClock → TestClock
  reset c = record c { elapsed = 0 }

  unfoldable pub current_instant : TestClock → Call ℕ
  current_instant c =
      if leb (c.baseline_instant + c.elapsed) last_instant
      then ret (c.baseline_instant + c.elapsed)
      else panic

  unfoldable pub current_wall_time : TestClock → Call Time
  current_wall_time c = plus c.baseline_wall_time c.elapsed

  -- A reading does not move the clock.
  unfoldable pub cycle_time : TestClock → Call (CycleTime Time × TestClock)
  cycle_time c = current_instant c >>= λ instant. current_wall_time c >>= λ unix_time.
      ret (record { instant = instant; unix_time = unix_time }, c)
