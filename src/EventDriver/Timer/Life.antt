-- ===== src/EventDriver/Timer/Life.antt =====
-- The life of one timer in wavelet/src/runtime/event_driver/timer_driver.rs, through any calls for
-- other timers.
use wavelet_rs.Prelude.{
  ℕ, ◌+◌, ◌<◌, ◌≡◌, refl, ◌∙◌, sym, ap, subst, inl, inr, true, false, [], ◌∷◌, Option, none, some,
  ltb, ret, All, arith, Bool-cases, lt→ltb, if◌then◌else◌, usize_mod, bind-ret,
}
use native.Mathlib.Nat.{mod-eq_of_lt}
use wavelet_rs.Control.{Relationship}
use wavelet_rs.StableGraph.{StableGraph}
use wavelet_rs.Graph.{NodeContext}
use wavelet_rs.Scheduling.{Sched, try_all}
use wavelet_rs.Scheduling.Entries.{All-map}
use wavelet_rs.EventDriver.Timer.{
  TimerSource, TimerDriver, Timers, before, same_key, insert, remove, contains_key, contains,
  is_registered, register_timer, deregister_timer, poll,
}
use wavelet_rs.EventDriver.Timer.Due.{
  IsSorted, All-insert, All-remove, insert-IsSorted, remove-IsSorted, due, later, poll-due,
}

-- The node of a timer.
abbrev pub node_of : TimerSource → Timers → Option ℕ
node_of k [] = none
node_of k ((j, w) ∷ m) = if same_key k j then some w else node_of k m

node_of-insert :
    (j k : TimerSource) (v : ℕ) (m : Timers)
    → node_of j (insert k v m) ≡ (if same_key j k then some v else node_of j m)
node_of-insert j k v [] = refl
node_of-insert j k v ((i, w) ∷ m) = ground (arith, node_of-insert j k v m)

node_of-remove :
    (j k : TimerSource) (m : Timers) → same_key j k ≡ false → node_of j (remove k m) ≡ node_of j m
node_of-remove j k [] ne = refl
node_of-remove j k ((i, w) ∷ m) ne = ground (arith, node_of-remove j k m ne)

-- A key that stands before all others is in the map no more.
node_of-above :
    (k : TimerSource) (m : Timers) → All (λ y. before k y.0 ≡ true) m → node_of k m ≡ none
node_of-above k [] h = refl
node_of-above k ((j, w) ∷ m) h = ground (arith, node_of-above k m h.1)

node_of-same : (j k : TimerSource) (m : Timers) → same_key j k ≡ true → node_of j m ≡ node_of k m
node_of-same j k [] e = refl
node_of-same j k ((i, w) ∷ m) e = ground (arith, node_of-same j k m e)

node_of-removed : (k : TimerSource) (m : Timers) → IsSorted m → node_of k (remove k m) ≡ none
node_of-removed k [] h = refl
node_of-removed k ((i, w) ∷ m) h = elim (Bool-cases (same_key k i)) [
  | inl e ↦ rw e (node_of-same k i m e ∙ node_of-above i m h.0)
  | inr e ↦ rw (e, e) (node_of-removed k m h.1)
]

node_of-later :
    (k : TimerSource) (now : ℕ) (m : Timers)
    → node_of k (later now m) ≡ (if ltb now k.when then node_of k m else none)
node_of-later k now [] = ground arith
node_of-later k now ((i, w) ∷ m) = ground (arith, node_of-later k now m)

later-All : (Q : TimerSource × ℕ → Type 0) (now : ℕ) (m : Timers) → All Q m → All Q (later now m)
later-All Q now [] h = tt
later-All Q now (x ∷ m) h = elim (Bool-cases (ltb now x.0.when)) [
  | inl e ↦ rw e (h.0, later-All Q now m h.1)
  | inr e ↦ rw e (later-All Q now m h.1)
]

later-IsSorted : (now : ℕ) (m : Timers) → IsSorted m → IsSorted (later now m)
later-IsSorted now [] h = tt
later-IsSorted now (x ∷ m) h = elim (Bool-cases (ltb now x.0.when)) [
  | inl e ↦ rw e (later-All (λ y. before x.0 y.0 ≡ true) now m h.0, later-IsSorted now m h.1)
  | inr e ↦ rw e (later-IsSorted now m h.1)
]

-- A timer is registered just if it has a node.
is_registered-node_of :
    (k : TimerSource) (m : Timers)
    → contains_key k m ≡ (elim (node_of k m) [ none ↦ false | some i ↦ true ])
is_registered-node_of k [] = refl
is_registered-node_of k ((j, w) ∷ m) = elim (Bool-cases (same_key k j)) [
  | inl e ↦ rw e refl
  | inr e ↦ rw e (is_registered-node_of k m)
]

-- A number that is too high for the timers in the map.
fresh_number : (k : TimerSource) (m : Timers) → All (λ y. y.0.id < k.id) m → node_of k m ≡ none
fresh_number k [] h = refl
fresh_number k ((j, w) ∷ m) h = ground (arith, fresh_number k m h.1)

-- The timers are in the order of their keys, and their numbers have been given out before.
pub record IsNumbered (d : TimerDriver) : Type 0 where
  pub sorted : IsSorted d.timers
  pub given : All (λ y. y.0.id < d.sequence) d.timers

module _ {F : Type 0} (P : StableGraph (NodeContext F) Relationship) where
  -- Calls that do not cancel the timer `s`, and polls before its deadline. The number of the next
  -- timer does not wrap around.
  pub data Spares (s : TimerSource) : TimerDriver → TimerDriver → Type 0 where
    no_call : (d : TimerDriver) → Spares s d d
    registers :
        (d e : TimerDriver) (idx when : ℕ)
        → d.sequence + 1 < usize_mod
        → Spares s (register_timer d idx when).1 e
        → Spares s d e
    cancels :
        (d e : TimerDriver) (other : TimerSource)
        → same_key s other ≡ false
        → Spares s (deregister_timer d other) e
        → Spares s d e
    polls :
        (d d' e : TimerDriver) (now epoch : ℕ) (st st' : Sched P)
        → poll P d st now epoch ≡ ret (d', st')
        → now < s.when
        → Spares s d' e
        → Spares s d e

  register-IsNumbered :
      (d : TimerDriver) (idx when : ℕ)
      → d.sequence + 1 < usize_mod
      → IsNumbered d
      → IsNumbered (register_timer d idx when).1
  unfolding register_timer
  register-IsNumbered d idx when room h =
      let next = mod-eq_of_lt room in
      record {
        sorted = insert-IsSorted _ idx d.timers h.sorted;
        given =
            All-insert (λ y. y.0.id < (register_timer d idx when).1.sequence) _ idx d.timers
              (omega (arith, next)) (All-map d.timers (λ y b. omega (arith, b, next)) h.given);
      }

  cancel-IsNumbered :
      (d : TimerDriver) (other : TimerSource) → IsNumbered d → IsNumbered (deregister_timer d other)
  unfolding deregister_timer
  cancel-IsNumbered d other h = record {
    sorted = remove-IsSorted other d.timers h.sorted;
    given = All-remove (λ y. y.0.id < d.sequence) other d.timers h.given;
  }

  -- What a poll leaves.
  polled :
      (d d' : TimerDriver) (now epoch : ℕ) (st st' : Sched P)
      → IsSorted d.timers
      → poll P d st now epoch ≡ ret (d', st')
      → d' ≡ record d { timers = later now d.timers }
  polled d d' now epoch st st' h e =
      let (_, _, same) =
        bind-ret (try_all P epoch (due now d.timers) st) _
          (sym (poll-due P d st now epoch h) ∙ e) in
      cc

  pub poll-IsSorted :
      (d d' : TimerDriver) (now epoch : ℕ) (st st' : Sched P)
      → IsSorted d.timers
      → poll P d st now epoch ≡ ret (d', st')
      → IsSorted d'.timers
  poll-IsSorted d d' now epoch st st' h e =
      subst (λ x. IsSorted x.timers) (sym (polled d d' now epoch st st' h e))
        (later-IsSorted now d.timers h)

  poll-IsNumbered :
      (d d' : TimerDriver) (now epoch : ℕ) (st st' : Sched P)
      → poll P d st now epoch ≡ ret (d', st')
      → IsNumbered d
      → IsNumbered d'
  poll-IsNumbered d d' now epoch st st' e h =
      subst IsNumbered (sym (polled d d' now epoch st st' h.sorted e)) (record {
        sorted = later-IsSorted now d.timers h.sorted;
        given = later-All (λ y. y.0.id < d.sequence) now d.timers h.given;
      })

  -- The timer is there, with its node, and has a number that has been given out.
  record Lives (s : TimerSource) (i : ℕ) (d : TimerDriver) : Type 0 where
    numbered : IsNumbered d
    there : node_of s d.timers ≡ some i
    old : s.id < d.sequence

  other_number : (s k : TimerSource) → s.id < k.id → same_key s k ≡ false
  other_number s k h = ground arith

  Spares-Lives :
      (s : TimerSource) (i : ℕ) (d e : TimerDriver) → Spares s d e → Lives s i d → Lives s i e
  unfolding register_timer deregister_timer
  Spares-Lives s i d _ (no_call _) l = l
  Spares-Lives s i d e (registers _ _ idx when room more) l =
      let k : TimerSource = record { when = when; id = d.sequence } in
      let next = mod-eq_of_lt room in
      let old = l.old in
      Spares-Lives s i _ e more (record {
        numbered = register-IsNumbered d idx when room l.numbered;
        there = node_of-insert s k idx d.timers ∙ rw (other_number s k l.old) l.there;
        old = omega (arith, next, old);
      })
  Spares-Lives s i d e (cancels _ _ other ne more) l = Spares-Lives s i _ e more (record {
    numbered = cancel-IsNumbered d other l.numbered;
    there = node_of-remove s other d.timers ne ∙ l.there;
    old = l.old;
  })
  Spares-Lives s i d e (polls _ d' _ now epoch st st' p ahead more) l =
      let same = polled d d' now epoch st st' l.numbered.sorted p in
      Spares-Lives s i d' e more (record {
        numbered = poll-IsNumbered d d' now epoch st st' p l.numbered;
        there =
            ap (λ x. node_of s x.timers) same
            ∙ (node_of-later s now d.timers ∙ rw (lt→ltb _ _ ahead) l.there);
        old = subst (λ x. s.id < x.sequence) (sym same) l.old;
      })

  -- Let the timers be in the order of their keys, with numbers that have been given out, and let the
  -- number of the next one not wrap around. A new timer is one that was not registered. Through any
  -- calls that do not cancel it and any polls before its deadline it stays registered, with its node.
  -- Its cancellation then ends that, and a poll does so just if the deadline is not after the poll.
  pub registered_until_due :
      (d e e' : TimerDriver) (idx when now epoch : ℕ) (st st' : Sched P)
      → IsNumbered d
      → d.sequence + 1 < usize_mod
      → Spares (register_timer d idx when).0 (register_timer d idx when).1 e
      → poll P e st now epoch ≡ ret (e', st')
      → let s = (register_timer d idx when).0 in
        (is_registered s d ≡ false)
        × (is_registered s e ≡ true)
        × (node_of s e.timers ≡ some idx)
        × (is_registered s (deregister_timer e s) ≡ false)
        × (is_registered s e' ≡ ltb now when)
  unfolding register_timer deregister_timer is_registered contains
  registered_until_due d e e' idx when now epoch st st' h room calls p =
      let s : TimerSource = record { when = when; id = d.sequence } in
      let next = mod-eq_of_lt room in
      let l = Spares-Lives s idx (register_timer d idx when).1 e calls (record {
        numbered = register-IsNumbered d idx when room h;
        there = node_of-insert s s idx d.timers ∙ ground arith;
        old = omega (arith, next);
      }) in
      (
        is_registered-node_of s d.timers ∙ rw (fresh_number s d.timers h.given) refl,
        is_registered-node_of s e.timers ∙ rw l.there refl,
        l.there,
        is_registered-node_of s (remove s e.timers)
            ∙ rw (node_of-removed s e.timers l.numbered.sorted) refl,
        ap (λ x. contains_key s x.timers) (polled e e' now epoch st st' l.numbered.sorted p)
            ∙ (is_registered-node_of s (later now e.timers)
                ∙ rw (node_of-later s now e.timers, l.there) (ground arith)),
      )
