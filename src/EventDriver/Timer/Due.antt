-- ===== src/EventDriver/Timer/Due.antt =====
-- The map of event_driver/timer_driver.rs stays ordered, and `poll` takes out just the timers that
-- are due.
use wavelet_rs.Prelude.{
  ℕ, ◌<◌, ◌≡◌, refl, ◌∙◌, sym, inl, inr, true, false, List, [], ◌∷◌, ltb, leb, ret, ◌>>=◌, All,
  arith, Bool-cases, keep, map, leb→le, leb→gt, lt→ltb, ge→ltb, bind_assoc, bind_congr,
}
use wavelet_rs.Control.{Relationship}
use wavelet_rs.StableGraph.{StableGraph}
use wavelet_rs.Graph.{NodeContext}
use wavelet_rs.Scheduling.{Sched, try_schedule, try_all}
use wavelet_rs.EventDriver.Timer.{
  TimerSource, TimerDriver, Timers, before, same_key, insert, remove, poll_timers, poll,
}

-- The keys grow strictly along the list.
abbrev pub IsSorted : Timers → Type 0
IsSorted [] = Unit
IsSorted (x ∷ m) = All (λ y. before x.0 y.0 ≡ true) m × IsSorted m

before_trans : (a b c : TimerSource) → before a b ≡ true → before b c ≡ true → before a c ≡ true
before_trans a b c h k = ground arith

before_total : (a b : TimerSource) → same_key a b ≡ false → before a b ≡ false → before b a ≡ true
before_total a b h k = ground arith

same_before : (a b c : TimerSource) → same_key a b ≡ true → before b c ≡ true → before a c ≡ true
same_before a b c h k = ground arith

All-before :
    (a b : TimerSource) (m : Timers)
    → ((c : TimerSource) → before b c ≡ true → before a c ≡ true)
    → All (λ y. before b y.0 ≡ true) m
    → All (λ y. before a y.0 ≡ true) m
All-before a b [] f h = tt
All-before a b (y ∷ m) f h = (f y.0 h.0, All-before a b m f h.1)

pub All-insert {κ} :
    (Q : TimerSource × ℕ → Type κ) (k : TimerSource) (v : ℕ) (m : Timers)
    → Q (k, v)
    → All Q m
    → All Q (insert k v m)
All-insert Q k v [] q h = (q, tt)
All-insert Q k v ((j, w) ∷ m) q h = elim (Bool-cases (same_key k j)) [
  | inl e ↦ rw e (q, h.1)
  | inr e ↦ elim (Bool-cases (before k j)) [
    | inl b ↦ rw (e, b) (q, h)
    | inr b ↦ rw (e, b) (h.0, All-insert Q k v m q h.1)
  ]
]

pub insert-IsSorted : (k : TimerSource) (v : ℕ) (m : Timers) → IsSorted m → IsSorted (insert k v m)
insert-IsSorted k v [] h = (tt, tt)
insert-IsSorted k v ((j, w) ∷ m) h = elim (Bool-cases (same_key k j)) [
  | inl e ↦ rw e (All-before k j m (λ c. same_before k j c e) h.0, h.1)
  | inr e ↦ elim (Bool-cases (before k j)) [
    | inl b ↦ rw (e, b) ((b, All-before k j m (λ c. before_trans k j c b) h.0), h)
    | inr b ↦
        rw (e, b)
          (
            All-insert (λ y. before j y.0 ≡ true) k v m (before_total k j e b) h.0,
            insert-IsSorted k v m h.1,
          )
  ]
]

pub All-remove {κ} :
    (Q : TimerSource × ℕ → Type κ) (k : TimerSource) (m : Timers) → All Q m → All Q (remove k m)
All-remove Q k [] h = tt
All-remove Q k ((j, w) ∷ m) h = elim (Bool-cases (same_key k j)) [
  | inl e ↦ rw e h.1
  | inr e ↦ rw e (h.0, All-remove Q k m h.1)
]

pub remove-IsSorted : (k : TimerSource) (m : Timers) → IsSorted m → IsSorted (remove k m)
remove-IsSorted k [] h = tt
remove-IsSorted k ((j, w) ∷ m) h = elim (Bool-cases (same_key k j)) [
  | inl e ↦ rw e h.1
  | inr e ↦ rw e (All-remove (λ y. before j y.0 ≡ true) k m h.0, remove-IsSorted k m h.1)
]

-- The nodes whose timers are due, in the order of their deadlines, and the timers that stay.
abbrev pub due : ℕ → Timers → List ℕ
due now m = map (λ x. x.1) (keep (λ x. leb x.0.when now) m)

abbrev pub later : ℕ → Timers → Timers
later now m = keep (λ x. ltb now x.0.when) m

none_due :
    (now : ℕ) (k : TimerSource) (m : Timers)
    → now < k.when
    → All (λ y. before k y.0 ≡ true) m
    → (due now m ≡ []) × (later now m ≡ m)
none_due now k [] h a = (refl, refl)
none_due now k ((j, w) ∷ m) h a =
    let rest = none_due now k m h a.1 in ground (arith, rest.0, rest.1)

module _ {F : Type 0} (P : StableGraph (NodeContext F) Relationship) where
  poll_timers-due :
      (now epoch : ℕ) (m : Timers) (st : Sched P)
      → IsSorted m
      → poll_timers P now epoch m st
        ≡ (try_all P epoch (due now m) st >>= λ st'. ret (later now m, st'))
  unfolding poll_timers try_all
  poll_timers-due now epoch [] st h = refl
  poll_timers-due now epoch ((k, idx) ∷ m) st h = elim (Bool-cases (leb k.when now)) [
    | inr ahead ↦
        let (none_now, all_later) = none_due now k m (leb→gt _ _ ahead) h.0 in
        rw (ahead, lt→ltb _ _ (leb→gt _ _ ahead), none_now, all_later)
    | inl past ↦
        rw (past, ge→ltb _ _ (leb→le _ _ past))
          (bind_congr (try_schedule P epoch idx st) (λ su. poll_timers-due now epoch m su h.1)
            ∙ sym (bind_assoc (try_schedule P epoch idx st) (try_all P epoch (due now m)) _))
  ]

  -- With the map in the order of its keys, `poll` schedules the nodes of the timers whose deadline is not after `now`, in the order of
  -- the deadlines, and keeps exactly the timers that lie ahead.
  pub poll-due :
      (d : TimerDriver) (st : Sched P) (now epoch : ℕ)
      → IsSorted d.timers
      → poll P d st now epoch ≡ (
          try_all P epoch (due now d.timers) st >>= λ st'.
          ret (record d { timers = later now d.timers }, st'))
  unfolding poll
  poll-due d st now epoch h =
      rw (poll_timers-due now epoch d.timers st h)
        (bind_assoc (try_all P epoch (due now d.timers) st) _ _)
