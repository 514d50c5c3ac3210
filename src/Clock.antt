-- ===== src/Clock.antt =====
-- wavelet/src/runtime/clock.rs: the time of a cycle, and what a clock is to the executor.
-- An `Instant` is a number of nanoseconds; `T` stands for the `OffsetDateTime` of the time crate.
pub mod Historical
pub mod Manual
pub mod Precision
use wavelet_rs.Prelude.{ℕ}

pub record CycleTime (T : Type 0) : Type 0 where
  pub instant : ℕ
  pub unix_time : T

module _ {T : Type 0} where
  unfoldable pub new : ℕ → T → CycleTime T
  new instant system_time = record { instant = instant; unix_time = system_time }

  unfoldable pub now : CycleTime T → ℕ
  now c = c.instant

  unfoldable pub unix_timestamp : CycleTime T → T
  unix_timestamp c = c.unix_time

-- The trait `Clock`, for a clock whose state is of the type `C`.
abbrev pub Clock : Type 0 → Type 0 → Type 0
Clock T C = C → CycleTime T × C
