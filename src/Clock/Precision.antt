-- ===== src/Clock/Precision.antt =====
-- wavelet/src/runtime/clock/precision_clock.rs: a clock that keeps the wall time by the monotonic one
-- and samples the two against each other from time to time.
pub mod Accuracy
use wavelet_rs.Prelude.{
  ℕ, zero, suc, ◌≡◌, ◌+◌, ◌-◌, ◌*◌, ◌/◌, Bool, true, false, Option, none, some, ltb, leb,
  if◌then◌else◌,
}
use wavelet_rs.Clock.{CycleTime, Clock}

-- The `OffsetDateTime` of the time crate, far enough from its last moment that no sum overflows:
-- moments, counted in nanoseconds from the earliest one.
pub record Timeline (Time : Type 0) : Type 0 where
  pub nanos : Time → ℕ
  pub plus : Time → ℕ → Time
  pub nanos-plus : (t : Time) (d : ℕ) → nanos (plus t d) ≡ nanos t + d

-- The operating system's clocks, `Instant::now()` and `OffsetDateTime::now_utc()`. A reading takes
-- the system to its next state.
pub record SystemClocks (Time : Type 0) : Type 1 where
  pub Os : Type 0
  pub instant_now : Os → ℕ × Os
  pub now_utc : Os → Time × Os

-- One second, the variance that any sample has to beat.
abbrev pub second : ℕ
second = 1_000_000_000

-- The defaults on Linux; the interval is an hour.
abbrev pub default_measurement_threshold : ℕ
default_measurement_threshold = 500

abbrev pub default_max_retries : ℕ
default_max_retries = 5

abbrev pub default_resync_interval : ℕ
default_resync_interval = 3600 * second

pub record PrecisionClock (Time : Type 0) : Type 0 where
  pub base_wall_time : Time
  pub base_instant : ℕ
  pub last_resync : ℕ
  pub resync_interval : ℕ
  pub measurement_threshold : ℕ
  pub max_measurement_retries : ℕ
  pub is_accurate : Bool

-- A wall time, the instant at which it is taken to have been read, and the time that the reading
-- may have taken.
pub record Measurement (Time : Type 0) : Type 0 where
  pub estimated_instant : ℕ
  pub wall_time : Time
  pub variance : ℕ

module _ {Time : Type 0} (L : Timeline Time) (S : SystemClocks Time) where
  open S use {Os, instant_now, now_utc}

  -- The wall time between two instants; their difference stops at zero.
  unfoldable pub measure : Os → Measurement Time × Os
  measure os =
      let (instant_before, os₁) = instant_now os in
      let (wall_time, os₂) = now_utc os₁ in
      let (instant_after, os₃) = instant_now os₂ in
      let variance = instant_after - instant_before in
      (
        record {
          estimated_instant = instant_before + variance / 2;
          wall_time = wall_time;
          variance = variance;
        },
        os₃,
      )

  -- The attempts that are left, and the best measurement so far.
  unfoldable pub attempts :
      ℕ → ℕ → Option (Measurement Time) → ℕ → Os → Option (Measurement Time) × Os
  attempts threshold zero best best_variance os = (best, os)
  attempts threshold (suc n) best best_variance os =
      let (m, os') = measure os in
      elim (ltb m.variance best_variance) [
        | false ↦ attempts threshold n best best_variance os'
        | true ↦ elim (leb m.variance threshold) [
          | true ↦ (some m, os')
          | false ↦ attempts threshold n (some m) m.variance os'
        ]
      ]

  -- Where no attempt took less than a second, the clocks are just read one after the other.
  unfoldable pub apply_best :
      PrecisionClock Time → Option (Measurement Time) → Os → PrecisionClock Time × Os
  apply_best c (some m) os = (
    record c {
      base_wall_time = m.wall_time;
      base_instant = m.estimated_instant;
      last_resync = m.estimated_instant;
      is_accurate = leb m.variance c.measurement_threshold;
    },
    os,
  )
  apply_best c none os =
      let (now_instant, os₁) = instant_now os in
      let (wall_time, os₂) = now_utc os₁ in
      (
        record c {
          base_wall_time = wall_time;
          base_instant = now_instant;
          last_resync = now_instant;
          is_accurate = false;
        },
        os₂,
      )

  unfoldable pub resync_with_quality_control : PrecisionClock Time → Os → PrecisionClock Time × Os
  unfolding apply_best
  resync_with_quality_control c os =
      let (best, os') = attempts c.measurement_threshold c.max_measurement_retries none second os in
      apply_best c best os'

  unfoldable pub resync : PrecisionClock Time → Os → PrecisionClock Time × Os
  unfolding resync_with_quality_control
  resync c os = resync_with_quality_control c os

  unfoldable pub with_config : ℕ → ℕ → ℕ → Os → PrecisionClock Time × Os
  with_config resync_interval measurement_threshold max_retries os =
      let (base_wall_time, os₁) = now_utc os in
      let (base_instant, os₂) = instant_now os₁ in
      let (last_resync, os₃) = instant_now os₂ in
      resync_with_quality_control
        (record {
          base_wall_time = base_wall_time;
          base_instant = base_instant;
          last_resync = last_resync;
          resync_interval = resync_interval;
          measurement_threshold = measurement_threshold;
          max_measurement_retries = max_retries;
          is_accurate = false;
        })
        os₃

  unfoldable pub new : Os → PrecisionClock Time × Os
  unfolding with_config
  new os = with_config default_resync_interval default_measurement_threshold default_max_retries os

  unfoldable pub check_and_resync : PrecisionClock Time → ℕ → Os → PrecisionClock Time × Os
  check_and_resync c now os =
      if leb c.resync_interval (now - c.last_resync)
      then resync_with_quality_control c os
      else (c, os)

  -- The instant of the cycle is read before the clock may sample again.
  unfoldable pub cycle_time : Clock Time (PrecisionClock Time × Os)
  cycle_time (c, os) =
      let (now_instant, os₁) = instant_now os in
      let (c', os₂) = check_and_resync c now_instant os₁ in
      (
        record {
          instant = now_instant;
          unix_time = L.plus c'.base_wall_time (now_instant - c'.base_instant);
        },
        (c', os₂),
      )
