-- ===== src/Clock/Historical/Exhausting.antt =====
-- How many readings exhaust the clock of wavelet/src/runtime/clock/historical.rs.
use wavelet_rs.Prelude.{
  ℕ, zero, suc, ◌+◌, ◌*◌, ◌≡◌, subst, ◌≤◌, refl, sym, ◌∙◌, ap, true, Call, Returns, returns, ret,
  Returns-ret, ◌>>=◌, arith,
}
use wavelet_rs.Clock.{CycleTime}
use wavelet_rs.Clock
use wavelet_rs.Clock.Historical.{
  Calendar, HistoricalClock, IsWithin, Fits, Steps, stopped, ended, finished, moved, late,
  Reads-Returns, Steps-Reads, read, cycle_time, try_advance, try_advance-Steps, current_instant,
  if_true,
}

module _ {Time : Type 0} (L : Calendar Time) where
  open L use {nanos}

  stays_exhausted : (n : ℕ) (c : HistoricalClock L) → c.exhausted ≡ true → read L n c ≡ ret c
  unfolding cycle_time try_advance
  stays_exhausted zero c e = refl
  stays_exhausted (suc n) c e =
      ap
        (λ (x : Call (HistoricalClock L)).
          (x >>= λ d. ret (Clock.new (current_instant L c) c.current_time, d)) >>= λ (time, d).
          read L n d)
        (if_true _ e)
      ∙ stays_exhausted n c e

  abbrev IsExhausted : Call (HistoricalClock L) → Type 0
  IsExhausted x = Returns (λ d. d.exhausted ≡ true) x

  done : (n : ℕ) (c : HistoricalClock L) → c.exhausted ≡ true → IsExhausted (read L n c)
  done n c e = subst IsExhausted (sym (stays_exhausted n c e)) (returns c e)

  stepped-IsWithin :
      (c d : HistoricalClock L) → IsWithin L c → Fits L c → Steps L c (ret d) → IsWithin L d
  stepped-IsWithin c d w fits s =
      (Returns-ret d (Reads-Returns L c (ret d) fits (Steps-Reads L c (ret d) w s)) refl).within

  exhausts :
      (n : ℕ) (t : CycleTime Time) (c : HistoricalClock L) (x : Call (HistoricalClock L))
      → ((m : ℕ)
          → n ≡ suc m
          → (e : HistoricalClock L) → IsWithin L e
          → Fits L e
          → nanos e.interval.end ≤ nanos e.current_time + m * e.time_step
          → IsExhausted (read L n e))
      → IsWithin L c
      → Fits L c
      → nanos c.interval.end ≤ nanos c.current_time + n * c.time_step
      → Steps L c x
      → IsExhausted ((x >>= λ d. ret (t, d)) >>= λ (time, d). read L n d)
  exhausts n t c _ ih w fits h (stopped e) = done n c e
  exhausts n t c _ ih w fits h (ended e there) = done n (record c { exhausted = true }) refl
  exhausts zero t c _ ih w fits h (finished e ne past) =
      absurd (ne (let b = w.before_end in omega (arith, b, h)))
  exhausts (suc n) t c _ ih w fits h (finished e ne past) =
      ih n refl (record c { current_time = c.interval.end })
        (stepped-IsWithin c _ w fits (finished e ne past)) fits (omega arith)
  exhausts zero t c _ ih w fits h (moved u e sum short) = absurd (omega (arith, h, sum, short))
  exhausts (suc n) t c _ ih w fits h (moved u e sum short) =
      ih n refl (record c { current_time = u }) (stepped-IsWithin c _ w fits (moved u e sum short))
        fits (omega (arith, h, sum))
  exhausts n t c _ ih w fits h (late o) = absurd (let b = w.before_end in omega (arith, b, fits, o))

  -- Let a step from the interval's end not be behind the last moment. If `n` steps reach the end of
  -- the interval from a position in it, then `n + 1` readings return and exhaust the clock.
  pub read_exhausts :
      (n : ℕ) (c : HistoricalClock L)
      → IsWithin L c
      → Fits L c
      → nanos c.interval.end ≤ nanos c.current_time + n * c.time_step
      → Returns (λ d. d.exhausted ≡ true) (read L (suc n) c)
  unfolding cycle_time
  read_exhausts zero c w fits h =
      exhausts zero _ c (try_advance L c) (λ m e. cc) w fits h (try_advance-Steps L c)
  read_exhausts (suc n) c w fits h =
      exhausts (suc n) _ c (try_advance L c)
        (λ m e d.
          (let same : n ≡ m = omega (arith, e) in
            subst
              (λ k.
                IsWithin L d
                → Fits L d
                → nanos d.interval.end ≤ nanos d.current_time + k * d.time_step
                → IsExhausted (read L (suc n) d))
              same (read_exhausts n d)))
        w fits h (try_advance-Steps L c)
