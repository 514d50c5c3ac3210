-- ===== src/Channel/Sender.antt =====
-- The sending end in wavelet/src/channel.rs: every success notifies the receiving node.
use wavelet_rs.Prelude.{ℕ, if◌then◌else◌, Result, ok, err, Call, ret, ◌>>=◌}
use wavelet_rs.ArrayQueue.{ArrayQueue}
use wavelet_rs.EventDriver.{EventDriver, Notifier, notify}
use wavelet_rs.Mio.{Mio}
use wavelet_rs.Slab.{Slab}
use wavelet_rs.Channel.{Channel, TrySendError, release_sender}
use wavelet_rs.Channel

-- `N` is the queue of notifications of the event driver that the sender's notifier stands for.
module _ {A : Type 0} (Q : ArrayQueue A) (M : Mio) (L : Slab ℕ) (N : ArrayQueue ℕ) where
  abbrev pub Shared : Type 0
  Shared = Channel Q × EventDriver M L N

  unfoldable pub try_send :
      Notifier M L N → A → Shared → Result (Unit {0}) (TrySendError A) × Shared
  try_send n item (ch, d) = elim (Channel.try_send Q ch item) [
    | ok ch' ↦ (ok tt, (ch', notify M L N n d))
    | err e ↦ (err e, (ch, d))
  ]

  unfoldable pub blocking_send :
      (ℕ → Channel Q → Channel Q)
      → ℕ
      → Notifier M L N
      → A
      → Shared
      → Call (Result (Unit {0}) A × Shared)
  blocking_send others fuel n item (ch, d) = Channel.blocking_send Q others fuel 0 ch item >>= λ r.
      elim r [ ok ch' ↦ ret (ok tt, (ch', notify M L N n d)) | err a ↦ ret (err a, (ch, d)) ]

  unfoldable pub force_send : Notifier M L N → A → Shared → Result (Unit {0}) A × Shared
  force_send n item (ch, d) = elim (Channel.force_send Q ch item) [
    | ok ch' ↦ (ok tt, (ch', notify M L N n d))
    | err a ↦ (err a, (ch, d))
  ]

  -- The last sender wakes the node, which then finds the channel closed.
  unfoldable pub drop : Notifier M L N → Shared → Shared
  drop n (ch, d) =
      let (last, ch') = release_sender Q ch in (ch', if last then notify M L N n d else d)
