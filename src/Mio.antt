-- ===== src/Mio.antt =====
-- mio, which the I/O driver uses as a library. What the operating system answers is part of the
-- poller's state. Tokens are numbers, and a time to wait is a number of nanoseconds or none.
use wavelet_rs.Prelude.{ℕ, List, Option, Result}

pub record Mio : Type 1 where
  pub Poller : Type 0
  pub Source : Type 0
  pub Interest : Type 0
  pub IoError : Type 0
  -- `Poll::new` and the waker with its token.
  pub new : ℕ → Poller
  pub register : Poller → Source → ℕ → Interest → Result Source IoError × Poller
  pub deregister : Poller → Source → Result Source IoError × Poller
  pub reregister : Poller → Source → ℕ → Interest → Result Source IoError × Poller
  -- The tokens of the events, in the order of the iterator.
  pub poll : Poller → Option ℕ → Result (List ℕ) IoError × Poller
  pub wake : Poller → Poller
