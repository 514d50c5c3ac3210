-- ===== src/Executor/Whole.antt =====
-- `Executor::cycle` of wavelet/src/runtime/executor.rs as a whole: the poll, the node loop, the
-- removals and the deferred spawns.
use wavelet_rs.Prelude.{
  subst, Returns-bind_eq, Call, ◌∙◌, ap, ℕ, zero, suc, ◌+◌, ◌%◌, ◌≡◌, ◌≤◌, ◌<◌, refl, inl, inr, ◌⊎◌,
  List, [], ◌∷◌, Option, some, ret, ◌>>=◌, ok, err, Result-cases, All, Returns, returns,
  Returns-bind, arith, usize_mod, length,
}
use wavelet_rs.Graph.{NodeContext}
use wavelet_rs.Scheduling.{Sched}
use wavelet_rs.Scheduling.Entries.{All-map, In}
use wavelet_rs.Scheduling.Keeps.{Keeps}
use wavelet_rs.Scheduling.Ready.{Reached}
use wavelet_rs.Clock.{Clock, CycleTime, now}
use wavelet_rs.EventDriver.{EventDriver, Polled}
use wavelet_rs.EventDriver
use wavelet_rs.EventDriver.Polling.{Open, AnswersKnown}
use wavelet_rs.EventDriver.Sources.{due_nodes, HasSorted, Gathered, poll-Gathered}
use wavelet_rs.Platform.{Platform}
use wavelet_rs.Executor.{ExecutorState, running, terminated, Executor, Closures}
use wavelet_rs.Executor.Context
use wavelet_rs.Executor.Cycle.{Work, node_loop, spawn_loop, finish, cycle, Cycled, start, with_work}
use wavelet_rs.Executor.Wiring.{IsWired, IsWired-Keeps}
use wavelet_rs.Executor.Turns.{Looping}
use wavelet_rs.Executor.Propagation.{IsQuiet, nodes}
use wavelet_rs.Executor.NodeLoop.{Propagates, node_loop-Propagates}
use wavelet_rs.Executor.Sweeping.{OnlyMarks, sweep_loop-Sweeps}

module _ (K : Platform) (B : Closures K) where
  open K use {graphs, mio, slab, queue, Time, Closure, Spawn}

  -- A deferred function returns, and defers nothing itself: only a node's context can.
  abbrev pub SpawnsReturn : Type 0
  SpawnsReturn =
      (f : Spawn) (e : Executor K)
      → Returns (λ e'. e'.deferred_spawns ≡ e.deferred_spawns) (B.spawn f e)

  spawn_loop-Returns :
      SpawnsReturn
      → (fuel : ℕ) (e : Executor K) (l : List Spawn) → e.deferred_spawns ≡ l
      → length l ≤ fuel
      → Returns (λ e'. e'.deferred_spawns ≡ []) (spawn_loop K B fuel e)
  unfolding spawn_loop
  spawn_loop-Returns r zero e [] same h = rw (spawn_loop, same) (returns e same)
  spawn_loop-Returns r (suc fuel) e [] same h = rw (spawn_loop, same) (returns e same)
  spawn_loop-Returns r zero e (f ∷ l) same h = absurd (omega arith)
  spawn_loop-Returns r (suc fuel) e (f ∷ l) same h =
      rw (spawn_loop, same)
        (Returns-bind _ (r f (record e { deferred_spawns = l }))
          λ e' kept. spawn_loop-Returns r fuel e' l kept (omega arith))

  finish-Returns :
      SpawnsReturn
      → OnlyMarks K B
      → (fuel : ℕ) (e : Executor K) → Returns (λ e'. e'.deferred_spawns ≡ []) (finish K B fuel e)
  unfolding finish
  finish-Returns r m fuel e =
      Returns-bind _
        (sweep_loop-Sweeps K B m (graphs.node_count e.graph) e.gc.removal_queue
          (record { graph = e.graph; event_driver = e.event_driver; store = e.store })
          (omega arith))
        λ x s.
          spawn_loop-Returns r (fuel + length e.deferred_spawns) _ e.deferred_spawns refl
            (omega arith)

  module _ {C : Type 0} (clock : Clock Time C) where
    -- The node, if it is there, has been run.
    abbrev RanIn : Executor K → List ℕ → ℕ → Type 0
    RanIn e l i = (n : NodeContext Closure) → graphs.node_weight e.graph i ≡ some n → In i l

    -- The poll of a cycle.
    abbrev pub polling : ℕ → Executor K → C → Option ℕ → Call (Polled mio slab queue graphs clock)
    polling epoch e c timeout =
        EventDriver.poll mio slab queue graphs clock e.event_driver (e.graph, e.scheduler) c timeout
          epoch

    -- What a cycle does that gets past its poll, and how it ends at the executor and clock `r`.
    pub record Completes (epoch fuel : ℕ) (e : Executor K) (c : C) (timeout : Option ℕ)
        (state : ExecutorState) (r : Executor K × C) : Type 0 where
      pub cycle_time : CycleTime Time
      pub driver : EventDriver mio slab queue
      pub st : Sched graphs
      pub end : Work K
      pub poll_ok : polling epoch e c timeout ≡ ret (ok cycle_time, (driver, st, r.1))
      pub same_nodes : Keeps graphs epoch e.graph st.0
      pub loop : Propagates K B epoch (start K B clock e driver st cycle_time) (state, end)
      pub finished : state ≡ running → finish K B fuel (with_work K B e end) ≡ ret r.0
      pub stopped : state ≡ terminated → r.0 ≡ with_work K B e end
      pub yielded :
          state ≡ running → All (RanIn e (nodes loop.turns)) e.event_driver.yield_driver.indices
      pub timed :
          state ≡ running
          → All
              (RanIn e (nodes loop.turns))
              (due_nodes e.event_driver.timer_driver (now (clock c).0))

    pub data Cycles (epoch fuel : ℕ) (e : Executor K) (c : C) (timeout : Option ℕ)
        : Cycled K B clock → Type 0 where
      poll_failed :
          (x : mio.IoError) (d : EventDriver mio slab queue) (st : Sched graphs)
          (r : Executor K × C)
          → polling epoch e c timeout ≡ ret (err x, (d, st, r.1))
          → Cycles epoch fuel e c timeout (err x, r)
      polled :
          (state : ExecutorState) (r : Executor K × C)
          → Completes epoch fuel e c timeout state r
          → Cycles epoch fuel e c timeout (ok state, r)

    RanIn-marked :
        (epoch : ℕ) (e : Executor K) (w : Work K) (state : ExecutorState) (out : Work K)
        (is : List ℕ) (p : Propagates K B epoch w (state, out))
        → Keeps graphs epoch e.graph w.graph
        → All (Reached graphs epoch w.graph) is
        → state ≡ running
        → All (RanIn e (nodes p.turns)) is
    RanIn-marked epoch e w state out is p k r runs =
        All-map is
          (λ i reached n en.
            let (m, em, _, _, _) = k.forward i n en in p.all_marked runs i (reached m em))
          r

    -- What holds of an executor before a cycle of this epoch.
    pub record AtRest (epoch : ℕ) (e : Executor K) : Type 0 where
      pub top : Open graphs epoch (e.graph, e.scheduler)
      pub wired : IsWired graphs e.graph
      pub no_buffer : e.edge_buffer ≡ []
      pub sorted : HasSorted e.event_driver.timer_driver
      pub known : AnswersKnown graphs queue mio slab e.event_driver.io_driver

    state-cases : (s : ExecutorState) → (s ≡ running) ⊎ (s ≡ terminated)
    state-cases running = inl refl
    state-cases terminated = inr refl

    looping :
        (epoch : ℕ) (e : Executor K) (c : C) (d : EventDriver mio slab queue) (st : Sched graphs)
        (cycle_time : CycleTime Time)
        → AtRest epoch e
        → Gathered graphs queue mio slab clock e.event_driver (e.graph, e.scheduler) c epoch st
        → Looping K epoch [] (start K B clock e d st cycle_time)
    unfolding Context.new
    looping epoch e c d st cycle_time a g = record {
      ready = (let o = g.open_again in o.ready);
      wired = IsWired-Keeps graphs g.same_nodes a.wired;
      no_buffer = a.no_buffer;
    }

    module _ (quiet : IsQuiet K B) (m : OnlyMarks K B) (spawns : SpawnsReturn) (epoch fuel : ℕ)
        (e : Executor K) (c c' : C) (timeout : Option ℕ) (d : EventDriver mio slab queue)
        (st : Sched graphs) (cycle_time : CycleTime Time)
        (answers : polling epoch e c timeout ≡ ret (ok cycle_time, (d, st, c')))
        (g : Gathered graphs queue mio slab clock e.event_driver
          (e.graph, e.scheduler)
          c
          epoch
          st) where
      completes :
          (state : ExecutorState) (out : Work K) (e' : Executor K)
          → Propagates K B epoch (start K B clock e d st cycle_time) (state, out)
          → (state ≡ running → finish K B fuel (with_work K B e out) ≡ ret e')
          → (state ≡ terminated → e' ≡ with_work K B e out)
          → Completes epoch fuel e c timeout state (e', c')
      completes state out e' p fin stop =
          let w = start K B clock e d st cycle_time in
          record {
            cycle_time = cycle_time;
            driver = d;
            st = st;
            end = out;
            poll_ok = answers;
            same_nodes = g.same_nodes;
            loop = p;
            finished = fin;
            stopped = stop;
            yielded =
                RanIn-marked epoch e w state out e.event_driver.yield_driver.indices p g.same_nodes
                  g.yielded;
            timed =
                RanIn-marked epoch e w state out
                  (due_nodes e.event_driver.timer_driver (now (clock c).0)) p g.same_nodes g.timed;
          }

      after_poll :
          AtRest epoch e
          → graphs.node_count e.graph < fuel
          → Returns (Cycles epoch fuel e c timeout) (
              node_loop K B fuel epoch (start K B clock e d st cycle_time) >>= λ (state, w).
              elim state [
                | terminated ↦ ret (ok terminated, (with_work K B e w, c'))
                | running ↦ finish K B fuel (with_work K B e w) >>= λ e'. ret (ok running, (e', c'))
              ])
      unfolding Context.new
      after_poll a h =
          let w = start K B clock e d st cycle_time in
          let count = (let k = g.same_nodes in k.same_count) in
          Returns-bind _
            (node_loop-Propagates K B quiet epoch fuel w (looping epoch e c d st cycle_time a g)
              (omega (arith, count)))
            λ so p. elim (state-cases so.0) [
              | inr ends ↦ rw ends (
                  returns _ (
                    polled terminated _ (
                      completes terminated so.1 (with_work K B e so.1)
                        (subst (λ z. Propagates K B epoch w (z, so.1)) ends p) (λ no_run. cc)
                        (λ _. refl))))
              | inl runs ↦ rw runs (
                  Returns-bind_eq _ (finish-Returns spawns m fuel (with_work K B e so.1))
                    λ e' fin none_left. returns _ (
                      polled running _ (
                        completes running so.1 e'
                          (subst (λ z. Propagates K B epoch w (z, so.1)) runs p) (λ _. fin)
                          (λ no_stop. cc))))
            ]

    -- Take an executor at rest: the scheduler is valid, at depth zero, with a queue for the depth of
    -- every node; just the nodes that wait are marked with the epoch that begins; edges lead to
    -- deeper nodes; the edge buffer is empty; the timers are in the order of their keys; and mio
    -- answers only with tokens of registered sources or of the waker. Let closures return without
    -- touching the scheduler, let the drop of a closure only mark nodes, and let deferred functions
    -- return and defer nothing. Then `cycle`, with more fuel than there are nodes, returns without a
    -- panic. Unless polling for I/O fails, it runs nodes by depth, each at most once, and unless a
    -- node ends the program, among them all nodes that are there and have yielded or have a timer
    -- that is due, and the triggered children of every node that broadcast.
    pub cycle-Cycles :
        IsQuiet K B
        → OnlyMarks K B
        → SpawnsReturn
        → (fuel : ℕ) (e₀ : Executor K) (c : C) (timeout : Option ℕ)
        → let epoch = (e₀.epoch + 1) % usize_mod in
          let e : Executor K = record e₀ { epoch = epoch } in
          AtRest epoch e
          → graphs.node_count e₀.graph < fuel
          → Returns (Cycles epoch fuel e c timeout) (cycle K B clock fuel e₀ c timeout)
    unfolding cycle
    cycle-Cycles quiet m r fuel e₀ c timeout a h =
        let epoch = (e₀.epoch + 1) % usize_mod in
        let e : Executor K = record e₀ { epoch = epoch } in
        Returns-bind_eq _
          (poll-Gathered graphs queue mio slab clock e.event_driver (e.graph, e.scheduler) c timeout
            epoch a.top a.sorted a.known)
          λ out answers g. elim (Result-cases out.0) [
            | inr (x, failed) ↦ rw failed (
                returns _
                  (poll_failed x out.1.0 out.1.1 _ (answers ∙ ap (λ z. ret (z, out.1)) failed)))
            | inl (cycle_time, fine) ↦ rw fine (
                after_poll quiet m r epoch fuel e c out.1.2 timeout out.1.0 out.1.1 cycle_time
                  (answers ∙ ap (λ z. ret (z, out.1)) fine) g a h)
          ]
