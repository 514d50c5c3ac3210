-- ===== src/Clock/Precision/Accuracy.antt =====
-- How far the wall time of the clock of wavelet/src/runtime/clock/precision_clock.rs is off.
use wavelet_rs.Prelude.{
  ℕ, zero, suc, ◌+◌, ◌-◌, ◌/◌, ◌≤◌, ◌≡◌, inl, inr, true, Bool-cases, Option, none, some, ltb, leb,
  leb→le, arith,
}
use wavelet_rs.Clock.{CycleTime}
use wavelet_rs.Clock.Precision.{
  Timeline, SystemClocks, PrecisionClock, Measurement, measure, attempts, apply_best,
  resync_with_quality_control, with_config, check_and_resync, cycle_time, second,
}

-- The operating system's clocks run in step: an instant is what the monotonic clock shows, which
-- never goes back, and the wall time is read between two such values and is `offset` ahead.
pub record InStep {Time : Type 0} (L : Timeline Time) (S : SystemClocks Time) (offset : ℕ)
    : Type 0 where
  pub shows : S.Os → ℕ
  pub instant_shows : (os : S.Os) → (S.instant_now os).0 ≡ shows os
  pub instant_forward : (os : S.Os) → shows os ≤ shows (S.instant_now os).1
  pub read_at : (os : S.Os) → ℕ
  pub after_before : (os : S.Os) → shows os ≤ read_at os
  pub before_after : (os : S.Os) → read_at os ≤ shows (S.now_utc os).1
  pub utc_shows : (os : S.Os) → L.nanos (S.now_utc os).0 ≡ read_at os + offset

-- The numbers differ by at most `error`.
abbrev pub Within : ℕ → ℕ → ℕ → Type 0
Within error a b = (a ≤ b + error) × (b ≤ a + error)

-- Half, rounded up.
abbrev pub half : ℕ → ℕ
half v = v - v / 2

module _ {Time : Type 0} (L : Timeline Time) (S : SystemClocks Time) where
  -- The clock after a number of readings.
  abbrev pub reads : ℕ → PrecisionClock Time × S.Os → PrecisionClock Time × S.Os
  reads zero x = x
  reads (suc n) x = reads n (cycle_time L S x).1

module _ {Time : Type 0} (L : Timeline Time) (S : SystemClocks Time) (offset : ℕ)
    (law : InStep L S offset) where
  abbrev IsFair : Measurement Time → Type 0
  IsFair m = Within (half m.variance) (L.nanos m.wall_time) (m.estimated_instant + offset)

  measure-IsFair : (os : S.Os) → IsFair (measure L S os).0
  unfolding measure
  measure-IsFair os =
      let os₁ = (S.instant_now os).1 in
      let os₂ = (S.now_utc os₁).1 in
      let forward = law.instant_forward os in
      let a = law.after_before os₁ in
      let b = law.before_after os₁ in
      let u = law.utc_shows os₁ in
      let i = law.instant_shows os in
      let j = law.instant_shows os₂ in
      (omega (arith, forward, a, b, u, i, j), omega (arith, forward, a, b, u, i, j))

  -- What holds of the best measurement when the monotonic clock shows `t`.
  abbrev Known : ℕ → Option (Measurement Time) → Type 0
  Known t none = Unit
  Known t (some m) = IsFair m × (m.estimated_instant ≤ t)

  Known-later : (t u : ℕ) (best : Option (Measurement Time)) → t ≤ u → Known t best → Known u best
  Known-later t u none h k = tt
  Known-later t u (some m) h k = (k.0, omega arith)

  measure-Known :
      (os : S.Os)
      → let (m, os') = measure L S os in
        (m.estimated_instant ≤ law.shows os') × (law.shows os ≤ law.shows os')
  unfolding measure
  measure-Known os =
      let os₁ = (S.instant_now os).1 in
      let os₂ = (S.now_utc os₁).1 in
      let f = law.instant_forward os in
      let g = law.instant_forward os₂ in
      let a = law.after_before os₁ in
      let b = law.before_after os₁ in
      let i = law.instant_shows os in
      let j = law.instant_shows os₂ in (omega (arith, f, g, a, b, i, j), omega (arith, f, g, a, b))

  attempts-Known :
      (threshold n : ℕ) (best : Option (Measurement Time)) (best_variance : ℕ) (os : S.Os)
      → Known (law.shows os) best
      → let (best', os') = attempts L S threshold n best best_variance os in
        Known (law.shows os') best'
  unfolding attempts
  attempts-Known threshold zero best v os h = h
  attempts-Known threshold (suc n) best v os h =
      let m = (measure L S os).0 in
      let os' = (measure L S os).1 in
      let (past, forward) = measure-Known os in
      let known : Known (law.shows os') (some m) = (measure-IsFair os, past) in
      elim (Bool-cases (ltb m.variance v)) [
        | inr worse ↦
            rw (attempts, worse)
              (attempts-Known threshold n best v os' (Known-later _ _ best forward h))
        | inl better ↦ elim (Bool-cases (leb m.variance threshold)) [
          | inl fine ↦ rw (attempts, better, fine) known
          | inr coarse ↦
              rw (attempts, better, coarse)
                (attempts-Known threshold n (some m) m.variance os' known)
        ]
      ]

  -- A clock that calls itself accurate was off by at most half its threshold, rounded up, when it
  -- was last sampled, which the monotonic clock has passed.
  pub record IsClose (c : PrecisionClock Time) (os : S.Os) : Type 0 where
    pub close :
        c.is_accurate ≡ true
        → Within (half c.measurement_threshold) (L.nanos c.base_wall_time) (c.base_instant + offset)
    pub past : c.base_instant ≤ law.shows os

  apply_best-IsClose :
      (c : PrecisionClock Time) (best : Option (Measurement Time)) (os : S.Os)
      → Known (law.shows os) best
      → let (c', os') = apply_best L S c best os in IsClose c' os'
  unfolding apply_best
  apply_best-IsClose c (some m) os (fair, past) = record {
    close = λ accurate. (let v = leb→le _ _ accurate in omega (arith, v, fair.0, fair.1));
    past = past;
  }
  apply_best-IsClose c none os k =
      let os₁ = (S.instant_now os).1 in
      let i = law.instant_shows os in
      let f = law.instant_forward os in
      let a = law.after_before os₁ in
      let b = law.before_after os₁ in
      record { close = λ accurate. cc; past = omega (arith, i, f, a, b) }

  resync-IsClose :
      (c : PrecisionClock Time) (os : S.Os)
      → let (c', os') = resync_with_quality_control L S c os in IsClose c' os'
  unfolding resync_with_quality_control
  resync-IsClose c os =
      let (best, os') =
        attempts L S c.measurement_threshold c.max_measurement_retries none second os in
      apply_best-IsClose c best os'
        (attempts-Known c.measurement_threshold c.max_measurement_retries none second os tt)

  -- A new clock is close.
  with_config-IsClose :
      (interval threshold retries : ℕ) (os : S.Os)
      → let (c', os') = with_config L S interval threshold retries os in IsClose c' os'
  unfolding with_config
  with_config-IsClose interval threshold retries os =
      resync-IsClose _ (S.instant_now (S.instant_now (S.now_utc os).1).1).1

  -- What a reading gives: the clock stays close, and if it is accurate then, its wall time is off by
  -- at most half the threshold, and by the time from the cycle's instant to the last sampling, if
  -- it has been sampled after the instant was read.
  pub record Tells (c : PrecisionClock Time) (t : CycleTime Time) (c' : PrecisionClock Time)
      (os' : S.Os) : Type 0 where
    pub still_close : IsClose c' os'
    pub error :
        c'.is_accurate ≡ true
        → Within
            (half c'.measurement_threshold + (c'.base_instant - t.instant))
            (L.nanos t.unix_time)
            (t.instant + offset)
    pub sampled_before : c.base_instant ≤ t.instant

  check-IsClose :
      (c : PrecisionClock Time) (now : ℕ) (os : S.Os)
      → IsClose c os
      → let (c', os') = check_and_resync L S c now os in IsClose c' os'
  unfolding check_and_resync
  check-IsClose c now os h = elim (Bool-cases (leb c.resync_interval (now - c.last_resync))) [
    | inl due ↦ rw (check_and_resync, due) (resync-IsClose c os)
    | inr fresh ↦ rw (check_and_resync, fresh) h
  ]

  reading-Tells :
      (c : PrecisionClock Time) (os : S.Os)
      → IsClose c os
      → let (t, (c', os')) = cycle_time L S (c, os) in Tells c t c' os'
  unfolding cycle_time
  reading-Tells c os h =
      let os₁ = (S.instant_now os).1 in
      let now = (S.instant_now os).0 in
      let i = law.instant_shows os in
      let f = law.instant_forward os in
      let h₁ : IsClose c os₁ = record { close = h.close; past = omega (arith, h.past, f) } in
      let h' = check-IsClose c now os₁ h₁ in
      let c' = (check_and_resync L S c now os₁).0 in
      let sum = L.nanos-plus c'.base_wall_time (now - c'.base_instant) in
      record {
        still_close = h';
        error = λ accurate.
            (let (lo, hi) = h'.close accurate in
              (omega (arith, lo, hi, sum), omega (arith, lo, hi, sum)));
        sampled_before = omega (arith, i, h.past);
      }

  reads-IsClose :
      (n : ℕ) (x : PrecisionClock Time × S.Os)
      → IsClose x.0 x.1
      → IsClose (reads L S n x).0 (reads L S n x).1
  reads-IsClose zero x h = h
  reads-IsClose (suc n) (c, os) h =
      let r = reading-Tells c os h in reads-IsClose n (cycle_time L S (c, os)).1 r.still_close

  -- Let the operating system's clocks run in step, the wall time a constant ahead. Take a clock that
  -- was made with any interval, threshold and number of retries, and read any number of times. If it
  -- is accurate behind its next reading, then the wall time of that reading differs from the true
  -- one at its instant by at most half the threshold, rounded up, and the time from the instant to
  -- the last sampling, if that comes later; the last sampling before the reading does not.
  pub cycle_time-Tells :
      (interval threshold retries n : ℕ) (os : S.Os)
      → let (c, os₁) = reads L S n (with_config L S interval threshold retries os) in
        let (t, (c', os₂)) = cycle_time L S (c, os₁) in Tells c t c' os₂
  cycle_time-Tells interval threshold retries n os =
      let x = reads L S n (with_config L S interval threshold retries os) in
      reading-Tells x.0 x.1 (reads-IsClose n _ (with_config-IsClose interval threshold retries os))
