-- ===== src/EventDriver/Timer.antt =====
-- wavelet/src/runtime/event_driver/timer_driver.rs: timers ordered by deadline, then by number.
-- A `BTreeMap` is the list of its entries in the order of the keys; an `Instant` is a number.
pub mod Due
pub mod Life
use wavelet_rs.Prelude.{
  ℕ, suc, ◌+◌, ◌%◌, Bool, ◌&&◌, ◌||◌, List, [], ◌∷◌, Option, none, some, ltb, leb, ◌==◌,
  if◌then◌else◌, usize_mod, Call, ret, ◌>>=◌, length,
}
use wavelet_rs.Control.{Relationship}
use wavelet_rs.StableGraph.{StableGraph}
use wavelet_rs.Graph.{NodeContext}
use wavelet_rs.Scheduling.{Sched, try_schedule}

pub record TimerSource : Type 0 where
  pub when : ℕ
  pub id : ℕ

-- The derived order compares the deadlines first.
abbrev pub before : TimerSource → TimerSource → Bool
before a b = ltb a.when b.when || (a.when == b.when && ltb a.id b.id)

abbrev pub same_key : TimerSource → TimerSource → Bool
same_key a b = a.when == b.when && a.id == b.id

unfoldable pub deadline : TimerSource → ℕ
deadline t = t.when

unfoldable pub has_expired : TimerSource → ℕ → Bool
has_expired t now = ltb t.when now

abbrev pub Timers : Type 0
Timers = List (TimerSource × ℕ)

-- `BTreeMap::insert` and `BTreeMap::remove`.
abbrev pub insert : TimerSource → ℕ → Timers → Timers
insert k v [] = (k, v) ∷ []
insert k v ((j, w) ∷ m) =
    if same_key k j
    then (k, v) ∷ m
    else if before k j
    then (k, v) ∷ (j, w) ∷ m
    else (j, w) ∷ insert k v m

abbrev pub remove : TimerSource → Timers → Timers
remove k [] = []
remove k ((j, w) ∷ m) = if same_key k j then m else (j, w) ∷ remove k m

abbrev pub contains_key : TimerSource → Timers → Bool
contains_key k [] = Bool.false
contains_key k ((j, w) ∷ m) = same_key k j || contains_key k m

pub record TimerDriver : Type 0 where
  pub timers : Timers
  pub sequence : ℕ

unfoldable pub new : TimerDriver
new = record { timers = []; sequence = 0 }

unfoldable pub contains : TimerDriver → TimerSource → Bool
contains d source = contains_key source d.timers

unfoldable pub is_registered : TimerSource → TimerDriver → Bool
unfolding contains
is_registered source d = contains d source

unfoldable pub next_timer : TimerDriver → Option ℕ
next_timer d = elim d.timers [ [] ↦ none | x ∷ rest ↦ some x.0.when ]

unfoldable pub register_timer : TimerDriver → ℕ → ℕ → TimerSource × TimerDriver
register_timer d idx when =
    let registration : TimerSource = record { when = when; id = d.sequence } in
    (
      registration,
      record { timers = insert registration idx d.timers; sequence = (d.sequence + 1) % usize_mod },
    )

unfoldable pub deregister_timer : TimerDriver → TimerSource → TimerDriver
deregister_timer d source = record d { timers = remove source d.timers }

module _ {F : Type 0} (P : StableGraph (NodeContext F) Relationship) where
  -- The loop of `poll`: each turn takes the first entry out of the map, so it is a recursion on
  -- the entries. It stops at the first deadline that lies ahead.
  poll_timers : ℕ → ℕ → Timers → Sched P → Call (Timers × Sched P)
  poll_timers now epoch [] st = ret ([], st)
  poll_timers now epoch ((k, idx) ∷ rest) st =
      let go = try_schedule P epoch idx st >>= poll_timers now epoch rest in
      if leb k.when now then go else ret ((k, idx) ∷ rest, st)

  unfoldable pub poll : TimerDriver → Sched P → ℕ → ℕ → Call (TimerDriver × Sched P)
  unfolding poll_timers
  poll d st now epoch =
      poll_timers now epoch d.timers st >>= λ (timers, st'). ret (record d { timers = timers }, st')
