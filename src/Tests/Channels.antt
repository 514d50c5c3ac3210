-- ===== src/Tests/Channels.antt =====
-- The channel's theorems at a channel of capacity two.
use wavelet_rs.Prelude.{ℕ, ◌≡◌, ◌≤◌, refl, List, [], ◌∷◌, ◌++◌, arith, Returns, length, inr, err}
use wavelet_rs.ArrayQueue.Bounded.{bounded}
use wavelet_rs.Channel.{
  Channel, closed, try_send, try_receive, blocking_send, release_sender, force_send,
}
use wavelet_rs.Channel.Fifo.{
  held, Sends, try_send-Sends, Receives, try_receive-Receives, Delivers, Waits, now, later,
  blocking_send-Delivers,
}
use wavelet_rs.Channel.Trace.{Action, send, force, receive, drop_tx, run, start, run-conserves}

-- Full, with one sender and one receiver.
abbrev full_channel : Channel (bounded ℕ)
unfolding bounded
full_channel = record {
  queue = record { held = 5 ∷ 6 ∷ []; limit = 2 };
  senders = 1;
  receivers = 1;
}

-- The receiver takes one item in each wait.
abbrev receiving : ℕ → Channel (bounded ℕ) → Channel (bounded ℕ)
receiving n ch = (try_receive (bounded ℕ) (λ ch'. ch') ch).1

abbrev script : List (Action ℕ)
script = send 7 ∷ force 8 ∷ receive ∷ send 9 ∷ drop_tx ∷ receive ∷ []

script_gone : (run (bounded ℕ) script (start (bounded ℕ) full_channel)).gone ≡ 5 ∷ 6 ∷ 8 ∷ []
unfolding bounded try_send try_receive release_sender force_send
script_gone = refl

try_send-Sends_example : Sends (bounded ℕ) full_channel 7 (try_send (bounded ℕ) full_channel 7)
unfolding bounded
try_send-Sends_example = try_send-Sends (bounded ℕ) full_channel 7 (omega arith)

-- Empty, with one sender.
abbrev empty_channel : Channel (bounded ℕ)
unfolding bounded
empty_channel = record { queue = record { held = []; limit = 2 }; senders = 1; receivers = 1 }

-- The last sender sends an item and goes.
abbrev send_and_go : Channel (bounded ℕ) → Channel (bounded ℕ)
unfolding bounded
send_and_go ch = record ch { queue = record { held = 7 ∷ []; limit = 2 }; senders = 0 }

-- The channel is said to be closed, with an item in it.
closed_early :
    try_receive (bounded ℕ) send_and_go empty_channel ≡ (err closed, send_and_go empty_channel)
unfolding bounded try_receive
closed_early = refl

try_receive-Receives_example :
    Receives
      (bounded ℕ)
      send_and_go
      empty_channel
      (try_receive (bounded ℕ) send_and_go empty_channel)
try_receive-Receives_example = try_receive-Receives (bounded ℕ) send_and_go empty_channel

one_wait : Waits (bounded ℕ) receiving 7 0 1 full_channel
unfolding bounded try_receive
one_wait = later 0 0 full_channel (omega arith) refl (now 1 _ (omega arith) (inr (omega arith)))

blocking_send-Delivers_example :
    Returns
      (Delivers (bounded ℕ) (receiving 0 full_channel) 7)
      (blocking_send (bounded ℕ) receiving 2 0 full_channel 7)
blocking_send-Delivers_example =
    blocking_send-Delivers (bounded ℕ) receiving 2 0 1 full_channel 7 (omega arith) one_wait

run-conserves_example :
    let t = run (bounded ℕ) script (start (bounded ℕ) full_channel) in
    (t.gone ++ held (bounded ℕ) t.channel ≡ held (bounded ℕ) full_channel ++ t.accepted)
    × (length (held (bounded ℕ) t.channel) ≤ 2)
unfolding bounded
run-conserves_example = run-conserves (bounded ℕ) script full_channel (omega arith) (omega arith)
