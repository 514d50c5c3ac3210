-- ===== src/Channel/Fifo.antt =====
-- The channel as a queue: what goes in comes out, in order.
use wavelet_rs.Prelude.{
  ℕ, zero, suc, ◌≡◌, ◌≢◌, ◌≤◌, ◌<◌, refl, sym, ap, ◌∙◌, ◌⊎◌, inl, inr, ◌==◌, ==_iff, List, [], ◌∷◌,
  ◌++◌, length, Result, ok, err, Bool-cases, arith, Returns, returns, ltb, ltb→lt, ltb→ge,
}
use wavelet_rs.ArrayQueue.{ArrayQueue}
use wavelet_rs.Channel.{
  Channel, TrySendError, channel_full, channel_closed, TryReceiveError, empty, closed, try_send,
  try_receive, blocking_send,
}

module _ {A : Type 0} (Q : ArrayQueue A) where
  abbrev pub held : Channel Q → List A
  held ch = Q.items ch.queue

  abbrev pub IsBounded : Channel Q → Type 0
  IsBounded ch = length (held ch) ≤ Q.capacity ch.queue

  -- What `try_send` promises.
  pub data Sends (ch : Channel Q) (a : A) : Result (Channel Q) (TrySendError A) → Type 0 where
    refused : ch.receivers ≡ 0 → Sends ch a (err (channel_closed a))
    full :
        ch.receivers ≢ 0
        → length (held ch) ≡ Q.capacity ch.queue
        → Sends ch a (err (channel_full a))
    taken :
        (d : Channel Q)
        → ch.receivers ≢ 0
        → length (held ch) < Q.capacity ch.queue
        → held d ≡ held ch ++ a ∷ []
        → Q.capacity d.queue ≡ Q.capacity ch.queue
        → (d.senders ≡ ch.senders) × (d.receivers ≡ ch.receivers)
        → Sends ch a (ok d)

  -- On a channel within its capacity, `try_send` is refused with the item given back if there is
  -- no receiver, or if the queue is full; else the item goes behind all others and nothing else
  -- changes.
  pub try_send-Sends : (ch : Channel Q) (a : A) → IsBounded ch → Sends ch a (try_send Q ch a)
  unfolding try_send
  try_send-Sends ch a b = elim (Bool-cases (ch.receivers == 0)) [
    | inl gone ↦ rw gone (refused ((==_iff _ _).0 gone))
    | inr there ↦
        let live : ch.receivers ≢ 0 = λ e. ground (arith, e) in
        elim (Bool-cases (ltb (length (held ch)) (Q.capacity ch.queue))) [
          | inr no_room ↦
              rw (there, Q.push_full ch.queue a (ltb→ge _ _ no_room))
                (full live (omega (arith, ltb→ge _ _ no_room)))
          | inl room ↦
              let (r, e, i, c) = Q.push_room ch.queue a (ltb→lt _ _ room) in
              rw (there, e)
                (taken (record ch { queue = r }) live (ltb→lt _ _ room) i c (refl, refl))
        ]
  ]

  -- What `try_receive` promises, where the others act between the pop and the reading of the count.
  pub data Receives (others : Channel Q → Channel Q) (ch : Channel Q)
      : Result A TryReceiveError × Channel Q → Type 0 where
    closed_now : held ch ≡ [] → (others ch).senders ≡ 0 → Receives others ch (err closed, others ch)
    none_yet : held ch ≡ [] → (others ch).senders ≢ 0 → Receives others ch (err empty, others ch)
    received :
        (a : A) (d : Channel Q)
        → held ch ≡ a ∷ held d
        → Q.capacity d.queue ≡ Q.capacity ch.queue
        → (d.senders ≡ ch.senders) × (d.receivers ≡ ch.receivers)
        → Receives others ch (ok a, d)

  List-cases : (l : List A) → (l ≡ []) ⊎ ((a : A) × (rest : List A) × (l ≡ a ∷ rest))
  List-cases [] = inl refl
  List-cases (a ∷ rest) = inr (a, rest, refl)

  -- `try_receive` takes the oldest item, and changes nothing else. An error means that the channel was
  -- empty at the pop; it is the error of a closed channel just if there is no sender when the count
  -- is read, behind whatever the others have done since the pop, and that stays as they left it.
  pub try_receive-Receives :
      (others : Channel Q → Channel Q) (ch : Channel Q)
      → Receives others ch (try_receive Q others ch)
  unfolding try_receive
  try_receive-Receives others ch = elim (List-cases (held ch)) [
    | inl e ↦ elim (Bool-cases ((others ch).senders == 0)) [
      | inl gone ↦
          rw (try_receive, Q.pop_nil ch.queue e, ap (λ p. p.1) (Q.pop_nil ch.queue e), gone)
            (closed_now e ((==_iff _ _).0 gone))
      | inr there ↦
          rw (try_receive, Q.pop_nil ch.queue e, ap (λ p. p.1) (Q.pop_nil ch.queue e), there)
            (none_yet e (λ z. ground (arith, z)))
    ]
    | inr (a, rest, e) ↦
        let (first, others', c) = Q.pop_cons ch.queue a rest e in
        rw (try_receive, first)
          (received a (record ch { queue = (Q.pop ch.queue).1 }) (e ∙ ap (λ l. a ∷ l) (sym others'))
            c (refl, refl))
  ]

  -- The channel at the attempt that follows `k` waits.
  abbrev pub at_attempt : (ℕ → Channel Q → Channel Q) → ℕ → ℕ → Channel Q → Channel Q
  at_attempt others n zero ch = ch
  at_attempt others n (suc k) ch = at_attempt others (suc n) k (others n ch)

  -- How the wait ends, at a channel with room or without a receiver.
  pub data Delivers (ch : Channel Q) (a : A) : Result (Channel Q) A → Type 0 where
    abandoned : ch.receivers ≡ 0 → Delivers ch a (err a)
    delivered :
        (d : Channel Q) → ch.receivers ≢ 0 → held d ≡ held ch ++ a ∷ [] → Delivers ch a (ok d)

  abbrev pub CanEnd : Channel Q → Type 0
  CanEnd ch = (ch.receivers ≡ 0) ⊎ (length (held ch) < Q.capacity ch.queue)

  one_attempt :
      (others : ℕ → Channel Q → Channel Q) (n fuel : ℕ) (ch : Channel Q) (a : A)
      {r : Result (Channel Q) (TrySendError A)}
      → CanEnd ch
      → Sends ch a r
      → try_send Q ch a ≡ r
      → Returns (Delivers ch a) (blocking_send Q others (suc fuel) n ch a)
  unfolding blocking_send
  one_attempt others n fuel ch a c (refused gone) e =
      rw (blocking_send, e) (returns _ (abandoned gone))
  one_attempt others n fuel ch a c (taken d live room i k same) e =
      rw (blocking_send, e) (returns _ (delivered d live i))
  one_attempt others n fuel ch a (inl gone) (full live no_room) e = absurd (live gone)
  one_attempt others n fuel ch a (inr room) (full live no_room) e = absurd (omega arith)

  -- The attempts before: they find the channel full and wait, or end earlier.
  pub data Waits (others : ℕ → Channel Q → Channel Q) (a : A) : ℕ → ℕ → Channel Q → Type 0 where
    now : (n : ℕ) (ch : Channel Q) → IsBounded ch → CanEnd ch → Waits others a n 0 ch
    later :
        (n k : ℕ) (ch : Channel Q)
        → ch.receivers ≢ 0
        → length (held ch) ≡ Q.capacity ch.queue
        → Waits others a (suc n) k (others n ch)
        → Waits others a n (suc k) ch

  full_again :
      (ch : Channel Q) (a : A)
      → ch.receivers ≢ 0
      → length (held ch) ≡ Q.capacity ch.queue
      → try_send Q ch a ≡ err (channel_full a)
  unfolding try_send
  full_again ch a live e = elim (Bool-cases (ch.receivers == 0)) [
    | inl gone ↦ absurd (live ((==_iff _ _).0 gone))
    | inr there ↦ rw (there, Q.push_full ch.queue a (omega (arith, e)))
  ]

  -- If `k` waits find the channel full and the attempt after them finds room or no receiver, then
  -- `blocking_send` returns, with fuel for more than `k` attempts. It puts the item behind all that
  -- the channel holds then, and gives it back just if there is no receiver then.
  pub blocking_send-Delivers :
      (others : ℕ → Channel Q → Channel Q) (fuel n k : ℕ) (ch : Channel Q) (a : A)
      → k < fuel
      → Waits others a n k ch
      → Returns (Delivers (at_attempt others n k ch) a) (blocking_send Q others fuel n ch a)
  unfolding blocking_send
  blocking_send-Delivers others zero n k ch a h w = absurd (omega arith)
  blocking_send-Delivers others (suc fuel) n _ ch a h (now _ _ b c) =
      one_attempt others n fuel ch a c (try_send-Sends ch a b) refl
  blocking_send-Delivers others (suc fuel) n _ ch a h (later _ k _ live e w) =
      rw (blocking_send, full_again ch a live e)
        (blocking_send-Delivers others fuel (suc n) k (others n ch) a (omega arith) w)
