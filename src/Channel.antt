-- ===== src/Channel.antt =====
-- wavelet/src/channel.rs: the channel between threads, and the ends that hold it.
-- Each access to the queue or to a count is one step on the shared channel; the threads' steps
-- interleave in a sequence. The counts are `AtomicUsize`s, which wrap around.
pub mod Fifo
pub mod Trace
pub mod Sender
use wavelet_rs.Prelude.{
  ℕ, zero, suc, ◌+◌, ◌-◌, ◌%◌, Bool, ◌==◌, if◌then◌else◌, List, [], Option, none, some, Result, ok,
  err, Call, ret, out_of_fuel, usize_mod,
}
use wavelet_rs.ArrayQueue.{ArrayQueue}

pub data TrySendError (A : Type 0) : Type 0 where
  channel_closed channel_full : A → TrySendError A

pub data TryReceiveError : Type 0 where
  empty closed : TryReceiveError

module _ {A : Type 0} (Q : ArrayQueue A) where
  pub record Channel : Type 0 where
    pub queue : Q.Carrier
    pub senders : ℕ
    pub receivers : ℕ

  unfoldable pub new : ℕ → Channel
  new capacity = record { queue = Q.new capacity; senders = 1; receivers = 1 }

  abbrev pushed : Channel → Result Q.Carrier A → Result Channel (TrySendError A)
  pushed ch (ok q) = ok (record ch { queue = q })
  pushed ch (err a) = err (channel_full a)

  -- The methods of `Channel`.
  unfoldable pub try_send : Channel → A → Result Channel (TrySendError A)
  try_send ch item =
      if ch.receivers == 0 then err (channel_closed item) else pushed ch (Q.push ch.queue item)

  -- An error gives the item back.
  unfoldable pub force_send : Channel → A → Result Channel A
  force_send ch item =
      if ch.receivers == 0
      then err item
      else ok (record ch { queue = (Q.force_push ch.queue item).1 })

  -- `others` is what the other threads do to the channel between the two steps, the pop and the
  -- reading of the count of senders.
  unfoldable pub try_receive : (Channel → Channel) → Channel → Result A TryReceiveError × Channel
  try_receive others ch =
      let (item, q) = Q.pop ch.queue in
      elim item [
        | some a ↦ (ok a, record ch { queue = q })
        | none ↦
            let ch' = others (record ch { queue = q }) in
            (err (if ch'.senders == 0 then closed else empty), ch')
      ]

  -- `others n` is what the other threads do to the channel in the wait after the attempt `n`.
  unfoldable pub blocking_send :
      (ℕ → Channel → Channel) → ℕ → ℕ → Channel → A → Call (Result Channel A)
  blocking_send others zero n ch item = out_of_fuel
  blocking_send others (suc fuel) n ch item = elim (try_send ch item) [
    | ok ch' ↦ ret (ok ch')
    | err (channel_full val) ↦ blocking_send others fuel (suc n) (others n ch) val
    | err (channel_closed val) ↦ ret (err val)
  ]

  unfoldable pub clone_sender : Channel → Channel
  clone_sender ch = record ch { senders = (ch.senders + 1) % usize_mod }

  -- The result says whether the count was one before.
  unfoldable pub release_sender : Channel → Bool × Channel
  release_sender ch =
      (ch.senders == 1, record ch { senders = (ch.senders + (usize_mod - 1)) % usize_mod })

  unfoldable pub drop_receiver : Channel → Channel
  drop_receiver ch = record ch { receivers = (ch.receivers + (usize_mod - 1)) % usize_mod }
