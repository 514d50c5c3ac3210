-- ===== src/Tests/Rounds.antt =====
-- The loops of the runtime at a graph of two nodes, with a timer that is due and an event that waits.
use wavelet_rs.Prelude.{
  ℕ, zero, suc, ◌≡◌, ◌≤◌, ap, refl, some, eq_of_some, arith, ret, ok, Returns, Option, subst, sym,
  List, [], ◌∷◌, All, inr,
}
use wavelet_rs.Control.{Control}
use wavelet_rs.StableGraph.Slots.{slots}
use wavelet_rs.Graph.{NodeContext}
use wavelet_rs.Clock.{Clock, CycleTime}
use wavelet_rs.Clock.Historical.Replay.{Replay, replay_time}
use wavelet_rs.EventDriver.{EventDriver, spin, Polled}
use wavelet_rs.EventDriver.Served.{Serves, IsServed, poll-IsServed}
use wavelet_rs.EventDriver.Io.{IoDriver}
use wavelet_rs.EventDriver.Polling.{AnswersKnown, IsKnown}
use wavelet_rs.Executor.{Executor}
use wavelet_rs.Executor.Cycle.{cycle}
use wavelet_rs.Executor.Whole.{polling}
use wavelet_rs.Executor.Rest.{Resting, SpawnsKeep, Leaves, cycle-Leaves}
use wavelet_rs.Executor.Drivers.{Discipline}
use wavelet_rs.Runtime.{Runtime, run_until_completion}
use wavelet_rs.Runtime.Completion.{Program, Goes, IsOver, run_until_completion-Returns}
use wavelet_rs.Tests.Sample.{sample, table, constant, constant-IsQuiet}
use wavelet_rs.Tests.Sweeps.{constant-OnlyMarks}
use wavelet_rs.Tests.Polls.{
  node, idle, idle-Enabled, idle-IsWired, constant-SpawnsReturn, ticking, resting,
}
use wavelet_rs.Tests.Streams.{calendar, replay, replay-IsWithin}

constant-SpawnsKeep : SpawnsKeep sample constant
constant-SpawnsKeep f e e' returned rests =
    let same : e ≡ e' = cc in (subst (Resting sample) same rests, ap (λ x. x.epoch) (sym same))

idle-IsStamped :
    (i : ℕ) (n : NodeContext Control)
    → sample.graphs.node_weight idle.0 i ≡ some n
    → n.sched_epoch ≤ 0
unfolding slots
idle-IsStamped zero n e =
    let top : node 0 ≡ n = eq_of_some e in omega (arith, ap (λ x. x.sched_epoch) top)
idle-IsStamped (suc zero) n e =
    let low : node 1 ≡ n = eq_of_some e in omega (arith, ap (λ x. x.sched_epoch) low)
idle-IsStamped (suc (suc i)) n e = cc

resting-Resting : Resting sample resting
unfolding slots
resting-Resting = record {
  valid = record { counted = refl; drained = tt };
  top = refl;
  empty = refl;
  enabled = idle-Enabled;
  stamped = idle-IsStamped;
  wired = idle-IsWired;
  no_buffer = refl;
}

cycle-Leaves_example :
    Returns (Leaves sample constant ticking 1) (cycle sample constant ticking 3 resting 25 (some 0))
unfolding slots
cycle-Leaves_example =
    cycle-Leaves sample constant ticking constant-IsQuiet constant-OnlyMarks constant-SpawnsReturn
      constant-SpawnsKeep 3 resting 25 (some 0) resting-Resting (omega arith) (tt, tt) tt
      (omega arith)

abbrev Io : Type 0
Io = IoDriver sample.mio sample.slab

abbrev Known : Io → List ℕ → Type 0
Known io events = All (IsKnown sample.graphs sample.queue sample.mio sample.slab io.indices) events

-- The batches that the script of mio still holds carry known tokens.
abbrev OnlyKnown : Io → Type 0
OnlyKnown io = All (Known io) io.poller

first-Known :
    (io : Io) (p : List (List ℕ)) (wait : Option ℕ) (events : List ℕ)
    → All (Known io) p
    → (sample.mio.poll p wait).0 ≡ ok events
    → Known io events
first-Known io [] wait events h e =
    (let none_left : [] ≡ events = cc in subst (Known io) none_left tt)
first-Known io (batch ∷ rest) wait events h e =
    let first : batch ≡ events = cc in subst (Known io) first h.0

rest-Known :
    (io : Io) (p : List (List ℕ)) (wait : Option ℕ)
    → All (Known io) p
    → All (Known io) (sample.mio.poll p wait).1
rest-Known io [] wait h = tt
rest-Known io (batch ∷ rest) wait h = h.1

answers :
    (p : List (List ℕ)) (wait : Option ℕ)
    → (events : List ℕ) × ((sample.mio.poll p wait).0 ≡ ok events)
answers [] wait = ([], refl)
answers (batch ∷ rest) wait = (batch, refl)

scripted-Serves : Serves sample.graphs sample.queue sample.mio sample.slab OnlyKnown
scripted-Serves = record {
  known = λ io g wait events e. first-Known io io.poller wait events g e;
  fine = λ io wait g. answers io.poller wait;
  keeps = λ io wait events g. rest-Known io io.poller wait g;
}

module _ {C : Type 0} (clock : Clock ℕ C) where
  abbrev Fit : EventDriver sample.mio sample.slab sample.queue → Type 0
  Fit = IsServed sample.graphs sample.queue sample.mio sample.slab OnlyKnown

  polling-Fit :
      (epoch : ℕ) (e : Executor sample) (c : C) (timeout : Option ℕ)
      (out : Polled sample.mio sample.slab sample.queue sample.graphs clock)
      → polling sample constant clock epoch e c timeout ≡ ret out
      → Fit e.event_driver
      → Fit out.1.0 × ((cycle_time : CycleTime ℕ) × (out.0 ≡ ok cycle_time))
  polling-Fit epoch e c timeout out polled h =
      poll-IsServed sample.graphs sample.queue sample.mio sample.slab OnlyKnown scripted-Serves
        clock e.event_driver (e.graph, e.scheduler) c timeout epoch out polled h

  constant-Discipline : Discipline sample constant clock Fit
  constant-Discipline = record {
    sorted = λ d h. h.1;
    known = λ d h.
        (let (io, there, good) = h.0 in
          subst (AnswersKnown sample.graphs sample.queue sample.mio sample.slab) (sym there)
            (scripted-Serves.known io good));
    poll_fit = λ epoch e c timeout out p h. (polling-Fit epoch e c timeout out p h).0;
    poll_fine = λ epoch e c timeout x out p h failed.
        (let (t, fine) = (polling-Fit epoch e c timeout out p h).1 in cc);
    run_fit =
        λ f ctx out e h. (let same : ctx ≡ out.1 = cc in subst (λ x. Fit x.event_driver) same h);
    drop_fit = λ f r h. h;
    spawn_fit = λ f e e' p h. (let same : e ≡ e' = cc in subst (λ x. Fit x.event_driver) same h);
  }

  constant-Program : Program sample constant clock Fit
  constant-Program = record {
    quiet = constant-IsQuiet;
    marks = constant-OnlyMarks;
    spawns = constant-SpawnsReturn;
    keeps = constant-SpawnsKeep;
    drivers = constant-Discipline;
  }

-- A source of the node 1, for which mio has an event at its first poll.
abbrev served : Io
served = record {
  poller = (0 ∷ []) ∷ [];
  events = [];
  indices = sample.slab.insert (sample.slab.with_capacity 4) 1;
}

-- A runtime whose clock counts its readings, and one that replays.
module _ {C : Type 0} (clock : Clock ℕ C) (c : C) where
  abbrev fresh : Runtime sample C
  fresh = record {
    executor = record resting {
      event_driver = record (resting.event_driver) { io_driver = some served };
    };
    clock = c;
    mode = spin;
  }

  fresh-Resting : Resting sample fresh.executor
  unfolding slots
  fresh-Resting = record {
    valid = record { counted = refl; drained = tt };
    top = refl;
    empty = refl;
    enabled = idle-Enabled;
    stamped = idle-IsStamped;
    wired = idle-IsWired;
    no_buffer = refl;
  }

  fresh-Goes : Goes sample constant clock (Fit clock) 4 fresh
  unfolding table
  fresh-Goes = record {
    resting = fresh-Resting;
    fit = ((served, refl, ((inr (1, refl), tt), tt)), (tt, tt));
    room = omega arith;
  }

abbrev replaying : Replay calendar
replaying = record { inner = replay; within = replay-IsWithin; fits = omega arith }

run_until_completion-Returns_example :
    Returns
      (IsOver sample constant calendar (Fit (replay_time calendar)))
      (run_until_completion sample constant calendar 4 (fresh (replay_time calendar) replaying))
run_until_completion-Returns_example =
    run_until_completion-Returns sample constant calendar (Fit (replay_time calendar))
      (constant-Program (replay_time calendar)) 3 (fresh (replay_time calendar) replaying)
      (fresh-Goes (replay_time calendar) replaying) (omega arith)
