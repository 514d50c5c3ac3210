-- ===== src/Channel/Trace.antt =====
-- Any interleaving of the steps of senders and of the receiver.
use wavelet_rs.Prelude.{
  ℕ, ◌≡◌, ◌≤◌, ◌<◌, refl, sym, ap, ◌∙◌, ◌⊎◌, inl, inr, ◌==◌, List, [], ◌∷◌, ◌++◌, append_assoc,
  append-nil, length, length-append, Option, none, some, Result, ok, err, Bool-cases, arith, ltb,
  ltb→lt, ltb→ge,
}
use wavelet_rs.ArrayQueue.{ArrayQueue}
use wavelet_rs.Channel.{
  Channel, TrySendError, TryReceiveError, try_send, force_send, try_receive, clone_sender,
  release_sender, drop_receiver,
}
use wavelet_rs.Channel.Fifo.{
  held, IsBounded, Sends, refused, full, taken, try_send-Sends, Receives, closed_now, none_yet,
  received, try_receive-Receives,
}

pub data Action (A : Type 0) : Type 0 where
  send force : A → Action A
  receive clone_tx drop_tx drop_rx : Action A

module _ {A : Type 0} (Q : ArrayQueue A) where
  -- What the steps have accepted, what has left the queue, and the channel.
  pub record Trace : Type 0 where
    pub accepted : List A
    pub gone : List A
    pub channel : Channel Q

  abbrev sent : Trace → A → Result (Channel Q) (TrySendError A) → Trace
  sent t a (ok ch) = record t { accepted = t.accepted ++ a ∷ []; channel = ch }
  sent t a (err e) = t

  abbrev taken_out : Trace → Result A TryReceiveError × Channel Q → Trace
  taken_out t (ok a, ch) = record t { gone = t.gone ++ a ∷ []; channel = ch }
  taken_out t (err e, ch) = record t { channel = ch }

  abbrev dropped : Option A → List A
  dropped none = []
  dropped (some a) = a ∷ []

  abbrev forced : Trace → A → Result (Channel Q) A → Trace
  forced t a (ok ch) = record {
    accepted = t.accepted ++ a ∷ [];
    gone = t.gone ++ dropped (Q.force_push t.channel.queue a).0;
    channel = ch;
  }
  forced t a (err e) = t

  -- A receive that finds the queue empty changes nothing, whatever the others do before it reads the
  -- count, so that their steps stand behind it.
  abbrev pub step : Action A → Trace → Trace
  step (send a) t = sent t a (try_send Q t.channel a)
  step (force a) t = forced t a (force_send Q t.channel a)
  step receive t = taken_out t (try_receive Q (λ ch. ch) t.channel)
  step clone_tx t = record t { channel = clone_sender Q t.channel }
  step drop_tx t = record t { channel = (release_sender Q t.channel).1 }
  step drop_rx t = record t { channel = drop_receiver Q t.channel }

  abbrev pub run : List (Action A) → Trace → Trace
  run [] t = t
  run (x ∷ xs) t = run xs (step x t)

  record Balanced (first : List A) (c : ℕ) (t : Trace) : Type 0 where
    flow : t.gone ++ held Q t.channel ≡ first ++ t.accepted
    bounded : IsBounded Q t.channel
    limit : Q.capacity t.channel.queue ≡ c

  append_last :
      (first g h l : List A) (a : A)
      → g ++ h ≡ first ++ l
      → g ++ (h ++ a ∷ []) ≡ first ++ (l ++ a ∷ [])
  append_last first g h l a e =
      sym (append_assoc g h (a ∷ [])) ∙ ap (λ x. x ++ a ∷ []) e ∙ append_assoc first l (a ∷ [])

  sent-Balanced :
      (first : List A) (c : ℕ) (t : Trace) (a : A) {r : Result (Channel Q) (TrySendError A)}
      → Balanced first c t
      → Sends Q t.channel a r
      → Balanced first c (sent t a r)
  sent-Balanced first c t a b (refused _) = b
  sent-Balanced first c t a b (full _ _) = b
  sent-Balanced first c t a b (taken d _ room i k _) = record {
    flow =
        ap (λ x. t.gone ++ x) i ∙ append_last first t.gone (held Q t.channel) t.accepted a b.flow;
    bounded = omega (arith, ap length i, length-append (held Q t.channel) (a ∷ []), k);
    limit = k ∙ b.limit;
  }

  taken_out-Balanced :
      (first : List A) (c : ℕ) (t : Trace) {r : Result A TryReceiveError × Channel Q}
      → Balanced first c t
      → Receives Q (λ ch. ch) t.channel r
      → Balanced first c (taken_out t r)
  taken_out-Balanced first c t b (closed_now _ _) = b
  taken_out-Balanced first c t b (none_yet _ _) = b
  taken_out-Balanced first c t b (received a d e k _) = record {
    flow = append_assoc t.gone (a ∷ []) (held Q d) ∙ ap (λ x. t.gone ++ x) (sym e) ∙ b.flow;
    bounded = let old = b.bounded in omega (arith, ap length e, k, old);
    limit = k ∙ b.limit;
  }

  List-cases : (l : List A) → (l ≡ []) ⊎ ((a : A) × (rest : List A) × (l ≡ a ∷ rest))
  List-cases [] = inl refl
  List-cases (a ∷ rest) = inr (a, rest, refl)

  forced-Balanced :
      (first : List A) (c : ℕ) (t : Trace) (a : A)
      → 0 < c
      → Balanced first c t
      → Balanced first c (forced t a (force_send Q t.channel a))
  unfolding force_send
  forced-Balanced first c t a h b =
      let q = t.channel.queue in
      elim (Bool-cases (t.channel.receivers == 0)) [
        | inl gone ↦ rw gone b
        | inr there ↦ elim (Bool-cases (ltb (length (Q.items q)) (Q.capacity q))) [
          | inl room ↦
              let (none_lost, i, k) = Q.force_push_room q a (ltb→lt _ _ room) in
              rw there (record {
                flow =
                    ap (λ x. (t.gone ++ dropped x) ++ Q.items (Q.force_push q a).1) none_lost
                    ∙ ap (λ x. x ++ Q.items (Q.force_push q a).1) (append-nil t.gone)
                    ∙ ap (λ x. t.gone ++ x) i
                    ∙ append_last first t.gone (Q.items q) t.accepted a b.flow;
                bounded =
                    omega
                      (arith, ltb→lt _ _ room, ap length i, length-append (Q.items q) (a ∷ []), k);
                limit = k ∙ b.limit;
              })
          | inr no_room ↦ elim (List-cases (Q.items q)) [
            | inl nothing ↦
                absurd (let z = b.limit in omega (arith, ltb→ge _ _ no_room, ap length nothing, z))
            | inr (o, rest, e) ↦
                let (lost, i, k) = Q.force_push_full q a o rest e (ltb→ge _ _ no_room) in
                rw there (record {
                  flow =
                      ap (λ x. (t.gone ++ dropped x) ++ Q.items (Q.force_push q a).1) lost
                      ∙ append_assoc t.gone (o ∷ []) (Q.items (Q.force_push q a).1)
                      ∙ ap (λ x. t.gone ++ o ∷ x) i
                      ∙ ap (λ x. t.gone ++ (x ++ a ∷ [])) (sym e)
                      ∙ append_last first t.gone (Q.items q) t.accepted a b.flow;
                  bounded =
                      let old = b.bounded in
                      omega (arith, old, ap length i, ap length e, length-append rest (a ∷ []), k);
                  limit = k ∙ b.limit;
                })
          ]
        ]
      ]

  step-Balanced :
      (first : List A) (c : ℕ) (x : Action A) (t : Trace)
      → 0 < c
      → Balanced first c t
      → Balanced first c (step x t)
  unfolding clone_sender release_sender drop_receiver
  step-Balanced first c (send a) t h b =
      sent-Balanced first c t a b (try_send-Sends Q t.channel a b.bounded)
  step-Balanced first c (force a) t h b = forced-Balanced first c t a h b
  step-Balanced first c receive t h b =
      taken_out-Balanced first c t b (try_receive-Receives Q (λ ch. ch) t.channel)
  step-Balanced first c clone_tx t h b = record {
    flow = b.flow;
    bounded = b.bounded;
    limit = b.limit;
  }
  step-Balanced first c drop_tx t h b = record {
    flow = b.flow;
    bounded = b.bounded;
    limit = b.limit;
  }
  step-Balanced first c drop_rx t h b = record {
    flow = b.flow;
    bounded = b.bounded;
    limit = b.limit;
  }

  run-Balanced :
      (first : List A) (c : ℕ) (xs : List (Action A)) (t : Trace)
      → 0 < c
      → Balanced first c t
      → Balanced first c (run xs t)
  run-Balanced first c [] t h b = b
  run-Balanced first c (x ∷ xs) t h b =
      run-Balanced first c xs (step x t) h (step-Balanced first c x t h b)

  abbrev pub start : Channel Q → Trace
  start ch = record { accepted = []; gone = []; channel = ch }

  -- Whatever senders and receivers do to a channel of positive capacity, in whatever order: what
  -- has left the queue, then what it holds, are what it held first, then what it has accepted, in
  -- that order; and it never holds more than its capacity. Items leave by `try_receive`, and by
  -- `force_send` on a full queue.
  pub run-conserves :
      (xs : List (Action A)) (ch : Channel Q)
      → IsBounded Q ch
      → 0 < Q.capacity ch.queue
      → let t = run xs (start ch) in
        (t.gone ++ held Q t.channel ≡ held Q ch ++ t.accepted)
        × (length (held Q t.channel) ≤ Q.capacity ch.queue)
  run-conserves xs ch b h =
      let r =
        run-Balanced (held Q ch) (Q.capacity ch.queue) xs (start ch) h
          (record { flow = sym (append-nil (held Q ch)); bounded = b; limit = refl }) in
      (r.flow, (let x = r.bounded in let y = r.limit in omega (arith, x, y)))
