-- ===== src/EventDriver/Waiting.antt =====
-- How long a poll of wavelet/src/runtime/event_driver.rs may block.
use wavelet_rs.Prelude.{ℕ, ◌-◌, ◌≤◌, ◌≡◌, Option, none, some, max, min}
use wavelet_rs.EventDriver.{minimum_timer_precision}
use wavelet_rs.EventDriver.Timer.{TimerDriver, next_timer}

-- The deadline of the first timer, where there are timers.
abbrev pub first_deadline : Option TimerDriver → Option ℕ
first_deadline none = none
first_deadline (some t) = next_timer t

-- What a wait respects. Without a deadline it is the caller's timeout. With one it is no longer than
-- the timeout and no longer than until the deadline, both up to the least wait of a millisecond, and
-- no shorter than the earlier of the two.
pub record Respects (timeout deadline : Option ℕ) (t_now : ℕ) (wait : Option ℕ) : Type 0 where
  pub without_timers : deadline ≡ none → wait ≡ timeout
  pub within_timeout :
      (w t : ℕ) → wait ≡ some w → timeout ≡ some t → w ≤ max t minimum_timer_precision
  pub within_deadline :
      (w d : ℕ) → wait ≡ some w → deadline ≡ some d → w ≤ max (d - t_now) minimum_timer_precision
  pub long_enough :
      (w t d : ℕ) → wait ≡ some w → timeout ≡ some t → deadline ≡ some d → min t (d - t_now) ≤ w
  pub until_deadline : (d : ℕ) → timeout ≡ none → deadline ≡ some d → wait ≡ some (d - t_now)
