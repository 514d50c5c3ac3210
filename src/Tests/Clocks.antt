-- ===== src/Tests/Clocks.antt =====
-- The precision clock where every reading of the system's clocks takes 10 nanoseconds.
use wavelet_rs.Prelude.{ℕ, ◌+◌, ◌≡◌, refl, arith, true}
use wavelet_rs.Clock.Precision.{
  SystemClocks, with_config, cycle_time, resync_with_quality_control, attempts, measure,
}
use wavelet_rs.Clock.Precision.Accuracy.{InStep, Tells, reads, cycle_time-Tells}
use wavelet_rs.Tests.Streams.{numbers}

-- The wall time is a thousand ahead of the monotonic clock.
abbrev ticking : SystemClocks ℕ
ticking = record { Os = ℕ; instant_now = λ t. (t, t + 10); now_utc = λ t. (t + 1000, t + 10) }

ticking-InStep : InStep numbers ticking 1000
ticking-InStep = record {
  shows = λ t. t;
  instant_shows = λ t. refl;
  instant_forward = λ t. omega arith;
  read_at = λ t. t;
  after_before = λ t. omega arith;
  before_after = λ t. omega arith;
  utc_shows = λ t. refl;
}

-- Sampled within the threshold at once.
made : (with_config numbers ticking 3600 500 5 0).0.is_accurate ≡ true
unfolding with_config resync_with_quality_control attempts measure
made = refl

cycle_time-Tells_example :
    let (c, os₁) = reads numbers ticking 3 (with_config numbers ticking 100 500 5 0) in
    let (t, (c', os₂)) = cycle_time numbers ticking (c, os₁) in
    Tells numbers ticking 1000 ticking-InStep c t c' os₂
cycle_time-Tells_example = cycle_time-Tells numbers ticking 1000 ticking-InStep 100 500 5 3 0
