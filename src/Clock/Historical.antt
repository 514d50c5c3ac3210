-- ===== src/Clock/Historical.antt =====
-- wavelet/src/runtime/clock/historical.rs: a clock that walks through an interval of the past.
pub mod Exhausting
pub mod Replay
use wavelet_rs.Prelude.{
  ℕ, zero, suc, ◌+◌, ◌-◌, ◌*◌, ◌≡◌, ◌≢◌, subst, ◌≤◌, ◌<◌, refl, sym, ◌∙◌, ap, Bool, true, false,
  inl, inr, Call, Returns, returns, Returns-bind, Returns-value, Returns-ret, ◌>>=◌, ret, panic,
  ltb, leb, ◌==◌, ==_iff, if◌then◌else◌, leb→le, leb→gt, Bool-cases, arith,
}
use wavelet_rs.Clock.{CycleTime}
use wavelet_rs.Clock

-- The `OffsetDateTime` of the time crate: moments, counted in nanoseconds from the earliest one. A sum
-- behind the last moment panics.
pub record Calendar (Time : Type 0) : Type 0 where
  pub nanos : Time → ℕ
  pub last : ℕ
  pub plus : Time → ℕ → Call Time
  pub plus-fits :
      (t : Time) (d : ℕ) → nanos t + d ≤ last → Returns (λ u. nanos u ≡ nanos t + d) (plus t d)
  pub plus-late : (t : Time) (d : ℕ) → last < nanos t + d → plus t d ≡ panic

module _ {A : Type 0} where
  pub if_true : {b : Bool} {x : A} (y : A) → b ≡ true → (if b then x else y) ≡ x
  if_true y e = rw e

  if_false : {b : Bool} (x : A) {y : A} → b ≡ false → (if b then x else y) ≡ y
  if_false x e = rw e

  bind_ret : {B : Type 0} {x : Call A} {a : A} (f : A → Call B) → x ≡ ret a → (x >>= f) ≡ f a
  bind_ret f e = rw e

  bind_panic : {B : Type 0} {x : Call A} (f : A → Call B) → x ≡ panic → (x >>= f) ≡ panic
  bind_panic f e = rw e

module _ {Time : Type 0} (L : Calendar Time) where
  open L use {nanos, plus}

  pub record Interval : Type 0 where
    pub start : Time
    pub end : Time

  unfoldable pub interval : Time → Time → Call Interval
  interval start end =
      if ltb (nanos start) (nanos end) then ret (record { start = start; end = end }) else panic

  unfoldable pub duration : Interval → ℕ
  duration i = nanos i.end - nanos i.start

  unfoldable pub contains : Interval → Time → Bool
  contains i time =
      if leb (nanos i.start) (nanos time) then leb (nanos time) (nanos i.end) else false

  pub record HistoricalClock : Type 0 where
    pub interval : Interval
    pub time_step : ℕ
    pub current_time : Time
    pub baseline_instant : ℕ
    pub exhausted : Bool

  -- `baseline` is what `Instant::now()` less the start's time since 1970 gives.
  unfoldable pub with_time_step : Interval → ℕ → ℕ → HistoricalClock
  with_time_step i time_step baseline = record {
    interval = i;
    time_step = time_step;
    current_time = i.start;
    baseline_instant = baseline;
    exhausted = false;
  }

  -- A step of 100 microseconds.
  unfoldable pub new : Interval → ℕ → HistoricalClock
  unfolding with_time_step
  new i baseline = with_time_step i 100_000 baseline

  unfoldable pub reset : HistoricalClock → HistoricalClock
  reset c = record c { current_time = c.interval.start; exhausted = false }

  -- Before the start the time in the interval is zero, as the subtraction gives.
  unfoldable pub current_instant : HistoricalClock → ℕ
  current_instant c = c.baseline_instant + (nanos c.current_time - nanos c.interval.start)

  unfoldable pub try_advance : HistoricalClock → Call HistoricalClock
  try_advance c =
      if c.exhausted
      then ret c
      else if nanos c.current_time == nanos c.interval.end
      then ret (record c { exhausted = true })
      else plus c.current_time c.time_step >>= λ next_time. ret (
          if leb (nanos c.interval.end) (nanos next_time)
          then record c { current_time = c.interval.end }
          else record c { current_time = next_time })

  unfoldable pub cycle_time : HistoricalClock → Call (CycleTime Time × HistoricalClock)
  cycle_time c =
      let result = Clock.new (current_instant c) c.current_time in
      try_advance c >>= λ d. ret (result, d)

  -- The position lies in the interval, and an exhausted clock stands at its end.
  pub record IsWithin (c : HistoricalClock) : Type 0 where
    pub after_start : nanos c.interval.start ≤ nanos c.current_time
    pub before_end : nanos c.current_time ≤ nanos c.interval.end
    pub at_end : c.exhausted ≡ true → nanos c.current_time ≡ nanos c.interval.end

  -- The clock after a number of readings.
  abbrev pub read : ℕ → HistoricalClock → Call HistoricalClock
  read zero c = ret c
  read (suc n) c = cycle_time c >>= λ (time, d). read n d

  pub record Advances (c d : HistoricalClock) : Type 0 where
    pub within : IsWithin d
    pub forward : nanos c.current_time ≤ nanos d.current_time
    pub same_interval : d.interval ≡ c.interval
    pub same_step : d.time_step ≡ c.time_step
    pub same_baseline : d.baseline_instant ≡ c.baseline_instant

  -- What readings of the clock come to.
  pub data Reads (c : HistoricalClock) : Call HistoricalClock → Type 0 where
    advanced : (d : HistoricalClock) → Advances c d → Reads c (ret d)
    overflowed : L.last < nanos c.interval.end + c.time_step → Reads c panic

  -- The ways in which a clock steps.
  pub data Steps (c : HistoricalClock) : Call HistoricalClock → Type 0 where
    stopped : c.exhausted ≡ true → Steps c (ret c)
    ended :
        c.exhausted ≡ false
        → nanos c.current_time ≡ nanos c.interval.end
        → Steps c (ret (record c { exhausted = true }))
    finished :
        c.exhausted ≡ false
        → nanos c.current_time ≢ nanos c.interval.end
        → nanos c.interval.end ≤ nanos c.current_time + c.time_step
        → Steps c (ret (record c { current_time = c.interval.end }))
    moved :
        (u : Time)
        → c.exhausted ≡ false
        → nanos u ≡ nanos c.current_time + c.time_step
        → nanos u < nanos c.interval.end
        → Steps c (ret (record c { current_time = u }))
    late : L.last < nanos c.current_time + c.time_step → Steps c panic

  pub try_advance-Steps : (c : HistoricalClock) → Steps c (try_advance c)
  unfolding try_advance
  try_advance-Steps c = elim (Bool-cases c.exhausted) [
    | inl done ↦ subst (Steps c) (sym (if_true _ done)) (stopped done)
    | inr on ↦ elim (Bool-cases (nanos c.current_time == nanos c.interval.end)) [
      | inl there ↦
          subst (Steps c) (sym (if_false _ on ∙ if_true _ there)) (ended on ((==_iff _ _).0 there))
      | inr before ↦
          let ne : nanos c.current_time ≢ nanos c.interval.end = λ e. ground (arith, e) in
          elim (Bool-cases (leb (nanos c.current_time + c.time_step) L.last)) [
            | inr over ↦
                let o = leb→gt _ _ over in
                subst (Steps c)
                  (sym (
                    if_false _ on
                    ∙ (if_false _ before
                        ∙ bind_panic _ (L.plus-late c.current_time c.time_step o))))
                  (late o)
            | inl fits ↦
                let (u, e, sum) =
                  Returns-value (L.plus-fits c.current_time c.time_step (leb→le _ _ fits)) in
                elim (Bool-cases (leb (nanos c.interval.end) (nanos u))) [
                  | inl past ↦
                      subst (Steps c)
                        (sym (
                          if_false _ on
                          ∙ (if_false _ before ∙ (bind_ret _ e ∙ ap ret (if_true _ past)))))
                        (finished on ne (omega (arith, leb→le _ _ past, sum)))
                  | inr short ↦
                      subst (Steps c)
                        (sym (
                          if_false _ on
                          ∙ (if_false _ before ∙ (bind_ret _ e ∙ ap ret (if_false _ short)))))
                        (moved u on sum (leb→gt _ _ short))
                ]
          ]
    ]
  ]

  within-bounds :
      (c : HistoricalClock)
      → IsWithin c
      → (nanos c.interval.start ≤ nanos c.current_time)
        × (nanos c.current_time ≤ nanos c.interval.end)
  within-bounds c w = (w.after_start, w.before_end)

  pub Steps-Reads :
      (c : HistoricalClock) (x : Call HistoricalClock) → IsWithin c → Steps c x → Reads c x
  Steps-Reads c _ w (stopped e) = advanced c (record {
    within = w;
    forward = omega arith;
    same_interval = refl;
    same_step = refl;
    same_baseline = refl;
  })
  Steps-Reads c _ w (ended e there) =
      advanced (record c { exhausted = true })
        (record {
          within = record {
            after_start = w.after_start;
            before_end = w.before_end;
            at_end = λ _. there;
          };
          forward = omega arith;
          same_interval = refl;
          same_step = refl;
          same_baseline = refl;
        })
  Steps-Reads c _ w (finished e ne past) =
      let (a, b) = within-bounds c w in
      advanced (record c { current_time = c.interval.end })
        (record {
          within = record {
            after_start = omega (arith, a, b);
            before_end = omega arith;
            at_end = λ _. refl;
          };
          forward = b;
          same_interval = refl;
          same_step = refl;
          same_baseline = refl;
        })
  Steps-Reads c _ w (moved u e sum short) =
      let (a, b) = within-bounds c w in
      advanced (record c { current_time = u })
        (record {
          within = record {
            after_start = omega (arith, a, sum);
            before_end = omega (arith, short);
            at_end = λ done. (let clash : true ≡ false = sym done ∙ e in cc);
          };
          forward = omega (arith, sum);
          same_interval = refl;
          same_step = refl;
          same_baseline = refl;
        })
  Steps-Reads c _ w (late o) = overflowed (let b = w.before_end in omega (arith, b, o))

  Advances-trans : (c d e : HistoricalClock) → Advances c d → Advances d e → Advances c e
  Advances-trans c d e a b = record {
    within = b.within;
    forward = (let x = a.forward in let y = b.forward in omega (arith, x, y));
    same_interval = b.same_interval ∙ a.same_interval;
    same_step = b.same_step ∙ a.same_step;
    same_baseline = b.same_baseline ∙ a.same_baseline;
  }

  Reads-after :
      (c d : HistoricalClock) (x : Call HistoricalClock) → Advances c d → Reads d x → Reads c x
  Reads-after c d _ a (advanced e b) = advanced e (Advances-trans c d e a b)
  Reads-after c d _ a (overflowed o) = overflowed (
      subst (λ s. L.last < nanos c.interval.end + s) a.same_step
        (subst (λ (i : Interval). L.last < nanos i.end + d.time_step) a.same_interval o))

  bind-Reads :
      (f : HistoricalClock → Call HistoricalClock) (t : CycleTime Time) (c : HistoricalClock)
      (x : Call HistoricalClock)
      → ((d : HistoricalClock) → IsWithin d → Reads d (f d))
      → Reads c x
      → Reads c ((x >>= λ d. ret (t, d)) >>= λ (time, d). f d)
  bind-Reads f t c _ ih (advanced d a) = Reads-after c d (f d) a (ih d a.within)
  bind-Reads f t c _ ih (overflowed o) = overflowed o

  -- Reading a clock whose position is in its interval, any number of times, moves it forward and
  -- not past the interval's end, and the interval, the step and the baseline stay the same; or it
  -- panics, which it does only where a step from the interval's end is behind the last moment.
  pub read-Advances : (n : ℕ) (c : HistoricalClock) → IsWithin c → Reads c (read n c)
  unfolding cycle_time
  read-Advances zero c w = advanced c (record {
    within = w;
    forward = omega arith;
    same_interval = refl;
    same_step = refl;
    same_baseline = refl;
  })
  read-Advances (suc n) c w =
      bind-Reads (read n) (Clock.new (current_instant c) c.current_time) c (try_advance c)
        (read-Advances n) (Steps-Reads c (try_advance c) w (try_advance-Steps c))

  -- A step from the interval's end is not behind the last moment.
  abbrev pub Fits : HistoricalClock → Type 0
  Fits c = nanos c.interval.end + c.time_step ≤ L.last

  pub Reads-Returns :
      (c : HistoricalClock) (x : Call HistoricalClock) → Fits c → Reads c x → Returns (Advances c) x
  Reads-Returns c _ fits (advanced d a) = returns d a
  Reads-Returns c _ fits (overflowed o) = absurd (omega (arith, o, fits))

  -- One reading of such a clock.
  pub cycle_time-Returns :
      (c : HistoricalClock) → IsWithin c → Fits c → Returns (λ out. Advances c out.1) (cycle_time c)
  unfolding cycle_time
  cycle_time-Returns c w fits =
      Returns-bind _
        (Reads-Returns c (try_advance c) fits
          (Steps-Reads c (try_advance c) w (try_advance-Steps c)))
        λ d a. returns _ a
