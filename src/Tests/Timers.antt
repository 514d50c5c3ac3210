-- ===== src/Tests/Timers.antt =====
-- The timer driver's theorems at three timers, two of them due at time 20.
use wavelet_rs.Prelude.{ℕ, ◌≡◌, refl, [], ◌∷◌, true, false, ret, ◌>>=◌, some, arith, ltb}
use wavelet_rs.Scheduler.{new}
use wavelet_rs.Scheduling.{Sched, try_all}
use wavelet_rs.EventDriver.Timer.{
  TimerSource, TimerDriver, register_timer, deregister_timer, is_registered, poll,
}
use wavelet_rs.EventDriver.Timer.Due.{IsSorted, due, poll-due}
use wavelet_rs.EventDriver.Timer.Life.{
  IsNumbered, node_of, Spares, no_call, cancels, registered_until_due,
}
use wavelet_rs.Tests.Sample.{sample}

abbrev source : ℕ → ℕ → TimerSource
source when id = record { when = when; id = id }

abbrev alarms : TimerDriver
alarms = record {
  timers = (source 10 1, 5) ∷ (source 20 0, 3) ∷ (source 30 2, 4) ∷ [];
  sequence = 3;
}

alarms-IsSorted : IsSorted alarms.timers
alarms-IsSorted = ((refl, (refl, tt)), ((refl, tt), (tt, tt)))

due_alarms : due 20 alarms.timers ≡ 5 ∷ 3 ∷ []
due_alarms = refl

alarms-IsNumbered : IsNumbered alarms
alarms-IsNumbered = record {
  sorted = alarms-IsSorted;
  given = (omega arith, (omega arith, (omega arith, tt)));
}

-- A new timer at 20, behind the cancellation of the old one there.
abbrev renewed : TimerDriver
renewed = deregister_timer (register_timer alarms 8 20).1 (source 20 0)

renewed-Spares :
    Spares sample.graphs (register_timer alarms 8 20).0 (register_timer alarms 8 20).1 renewed
unfolding register_timer
renewed-Spares = cancels _ _ (source 20 0) refl (no_call renewed)

nobody : Sched sample.graphs
nobody = (sample.graphs.empty, new)

registered_until_due_example :
    let s = (register_timer alarms 8 20).0 in
    (is_registered s alarms ≡ false)
    × (is_registered s renewed ≡ true)
    × (node_of s renewed.timers ≡ some 8)
    × (is_registered s (deregister_timer renewed s) ≡ false)
    × (is_registered s renewed ≡ ltb 5 20)
unfolding register_timer deregister_timer poll
registered_until_due_example =
    registered_until_due sample.graphs alarms renewed renewed 8 20 5 1 nobody nobody
      alarms-IsNumbered (omega arith) renewed-Spares refl

poll-due_example : poll sample.graphs alarms (sample.graphs.empty, new) 20 1 ≡ (
    try_all sample.graphs 1 (5 ∷ 3 ∷ []) (sample.graphs.empty, new) >>= λ st.
    ret (record alarms { timers = (source 30 2, 4) ∷ [] }, st))
poll-due_example = poll-due sample.graphs alarms (sample.graphs.empty, new) 20 1 alarms-IsSorted
