-- ===== src/Executor/Drivers.antt =====
-- A property of the event driver that every call keeps, through a whole cycle of
-- wavelet/src/runtime/executor.rs.
use wavelet_rs.Prelude.{
  ℕ, zero, suc, ◌≡◌, ◌≢◌, refl, sym, subst, inl, inr, List, [], ◌∷◌, Option, Call, ret, ok, err,
  bind-ret, Bool-cases, Option-cases, ◌++◌, length, ◌+◌,
}
use wavelet_rs.Control.{Control}
use wavelet_rs.Graph.{NodeContext, cycle_node, triggering_edges, edges}
use wavelet_rs.Graph
use wavelet_rs.Scheduling.{try_all}
use wavelet_rs.Clock.{Clock}
use wavelet_rs.EventDriver.{EventDriver, Polled}
use wavelet_rs.EventDriver.Polling.{AnswersKnown}
use wavelet_rs.EventDriver.Sources.{HasSorted}
use wavelet_rs.Platform.{Platform}
use wavelet_rs.Executor.{
  ExecutorState, running, terminated, ExecutionContext, Executor, Closures, Reach,
}
use wavelet_rs.Executor.Context.{set_current}
use wavelet_rs.Executor.Context
use wavelet_rs.Executor.Cycle.{
  Work, Swept, handle, broadcast_node, sweep_node, poison_all, sweep_loop, spawn_loop, finish,
  with_work, start, popped,
}
use wavelet_rs.Executor.Propagation.{Turn, Runs, idle, stop, step}
use wavelet_rs.Executor.Whole.{polling, Completes}

module _ (K : Platform) (B : Closures K) {C : Type 0} (clock : Clock (Platform.Time K) C)
    (Fit : EventDriver (Platform.mio K) (Platform.slab K) (Platform.queue K) → Type 0) where
  open K use {graphs, mio, slab, queue, Closure, Spawn}

  -- What the property says of a driver, and that no call breaks it: the poll, which answers without
  -- an error, a closure that is run or dropped, and a deferred function.
  pub record Discipline : Type 0 where
    pub sorted : (d : EventDriver mio slab queue) → Fit d → HasSorted d.timer_driver
    pub known :
        (d : EventDriver mio slab queue) → Fit d → AnswersKnown graphs queue mio slab d.io_driver
    pub poll_fit :
        (epoch : ℕ) (e : Executor K) (c : C) (timeout : Option ℕ)
        (out : Polled mio slab queue graphs clock)
        → polling K B clock epoch e c timeout ≡ ret out
        → Fit e.event_driver
        → Fit out.1.0
    pub poll_fine :
        (epoch : ℕ) (e : Executor K) (c : C) (timeout : Option ℕ) (x : mio.IoError)
        (out : Polled mio slab queue graphs clock)
        → polling K B clock epoch e c timeout ≡ ret out
        → Fit e.event_driver
        → out.0 ≢ err x
    pub run_fit :
        (f : Closure) (ctx : ExecutionContext K) (out : Control × ExecutionContext K)
        → B.run f ctx ≡ ret out
        → Fit ctx.event_driver
        → Fit out.1.event_driver
    pub drop_fit : (f : Closure) (r : Reach K) → Fit r.event_driver → Fit (B.drop f r).event_driver
    pub spawn_fit :
        (f : Spawn) (e e' : Executor K)
        → B.spawn f e ≡ ret e'
        → Fit e.event_driver
        → Fit e'.event_driver

  -- Handling an answer does not touch the driver.
  handle-driver :
      (epoch : ℕ) (c : Control) (i : ℕ) (w : Work K) (out : ExecutorState × Work K)
      → handle K epoch c i w ≡ ret out
      → out.1.context.event_driver ≡ w.context.event_driver
  unfolding handle broadcast_node sweep_node
  handle-driver epoch Control.broadcast i w out e =
      let (w', e1, e2) = bind-ret (broadcast_node K epoch i w) _ e in
      let (st, _, e3) =
        bind-ret (try_all graphs epoch (w.edge_buffer ++ triggering_edges graphs w.graph i) _) _
          e1 in
      cc
  handle-driver epoch Control.sweep i w out e =
      let (w', e1, e2) = bind-ret (sweep_node K epoch i w) _ e in
      let (st, _, e3) =
        bind-ret (poison_all K epoch (w.edge_buffer ++ edges graphs w.graph i) _) _ e1 in
      cc
  handle-driver epoch Control.unchanged i w out e = cc
  handle-driver epoch Control.terminate i w out e = cc

  module _ (D : Discipline) where
    cycle-Fit :
        (g : graphs.Carrier) (ctx : ExecutionContext K) (i : ℕ) (out : Control × ExecutionContext K)
        → Graph.cycle graphs B.run g ctx i ≡ ret out
        → Fit ctx.event_driver
        → Fit out.1.event_driver
    unfolding Graph.cycle cycle_node
    cycle-Fit g ctx i out e h = elim (Option-cases (graphs.node_weight g i)) [
      | inl gone ↦ let no : Call.panic ≡ ret out = rw (Graph.cycle, gone) at e in cc
      | inr (n, there) ↦ elim (Bool-cases n.poisoned) [
        | inl poisoned ↦
            let same : ret (Control.sweep, ctx) ≡ ret out =
              rw (Graph.cycle, there, poisoned) at e in
            let ctx-same : ctx ≡ out.1 = cc in subst (λ z. Fit z.event_driver) ctx-same h
        | inr sound ↦ D.run_fit n.cycle_fn ctx out (rw (Graph.cycle, there, sound) at e) h
      ]
    ]

    turn-Fit :
        (epoch : ℕ) (w w' : Work K) (s : _) (i : ℕ) (c : Control) (ctx : ExecutionContext K)
        (state : ExecutorState)
        → Graph.cycle graphs B.run w.graph (set_current K i (popped K B w s).context) i
          ≡ ret (c, ctx)
        → handle K epoch c i (record w { context = ctx }) ≡ ret (state, w')
        → Fit w.context.event_driver
        → Fit w'.context.event_driver
    unfolding set_current
    turn-Fit epoch w w' s i c ctx state e h f =
        subst Fit (sym (handle-driver epoch c i (record w { context = ctx }) (state, w') h))
          (cycle-Fit w.graph (set_current K i (popped K B w s).context) i (c, ctx) e f)

    Runs-Fit :
        (epoch : ℕ) (w : Work K) (l : List Turn) (out : ExecutorState × Work K)
        → Runs K B epoch w l out
        → Fit w.context.event_driver
        → Fit out.1.context.event_driver
    Runs-Fit epoch _ _ _ (idle w s e) f = f
    Runs-Fit epoch _ _ _ (stop w w' s i c ctx e answers h) f =
        turn-Fit epoch w w' s i c ctx terminated answers h f
    Runs-Fit epoch _ _ _ (step w w' s i c ctx l out e answers h r) f =
        Runs-Fit epoch w' l out r (turn-Fit epoch w w' s i c ctx running answers h f)

    sweep_loop-Fit :
        (b : ℕ) (q : List ℕ) (x y : Swept K)
        → sweep_loop K B b q x ≡ ret y
        → Fit x.event_driver
        → Fit y.event_driver
    unfolding sweep_loop
    sweep_loop-Fit b [] x y e f = let same : x ≡ y = cc in subst (λ z. Fit z.event_driver) same f
    sweep_loop-Fit zero (i ∷ q) x y e f = elim (Option-cases (graphs.node_weight x.graph i)) [
      | inl gone ↦ sweep_loop-Fit zero q _ y (rw (sweep_loop, gone) at e) f
      | inr (n, there) ↦ let no : Call.out_of_fuel ≡ ret y = rw (sweep_loop, there) at e in cc
    ]
    sweep_loop-Fit (suc b) (i ∷ q) x y e f = elim (Option-cases (graphs.node_weight x.graph i)) [
      | inl gone ↦ sweep_loop-Fit (suc b) q _ y (rw (sweep_loop, gone) at e) f
      | inr (n, there) ↦
          let reach : Reach K = record {
            event_driver = x.event_driver;
            gc = record { removal_queue = q };
            store = x.store;
          } in
          sweep_loop-Fit b (B.drop n.cycle_fn reach).gc.removal_queue _ y
            (rw (sweep_loop, there) at e) (D.drop_fit n.cycle_fn reach f)
    ]

    spawn_loop-Fit :
        (fuel : ℕ) (e e' : Executor K) (l : List Spawn)
        → e.deferred_spawns ≡ l
        → spawn_loop K B fuel e ≡ ret e'
        → Fit e.event_driver
        → Fit e'.event_driver
    unfolding spawn_loop
    spawn_loop-Fit zero e e' [] none_left h f =
        let r : ret e ≡ ret e' = rw (spawn_loop, none_left) at h in
        let same : e ≡ e' = cc in subst (λ z. Fit z.event_driver) same f
    spawn_loop-Fit (suc fuel) e e' [] none_left h f =
        let r : ret e ≡ ret e' = rw (spawn_loop, none_left) at h in
        let same : e ≡ e' = cc in subst (λ z. Fit z.event_driver) same f
    spawn_loop-Fit zero e e' (g ∷ l) some_left h f =
        let no : Call.out_of_fuel ≡ ret e' = rw (spawn_loop, some_left) at h in cc
    spawn_loop-Fit (suc fuel) e e' (g ∷ l) some_left h f =
        let e₁ : Executor K = record e { deferred_spawns = l } in
        let (e₂, s, more) =
          bind-ret (B.spawn g e₁) (spawn_loop K B fuel) (rw (spawn_loop, some_left) at h) in
        spawn_loop-Fit fuel e₂ e' e₂.deferred_spawns refl more (D.spawn_fit g e₁ e₂ s f)

    finish-Fit :
        (fuel : ℕ) (e e' : Executor K)
        → finish K B fuel e ≡ ret e'
        → Fit e.event_driver
        → Fit e'.event_driver
    unfolding finish
    finish-Fit fuel e e' h f =
        let (x, s, more) =
          bind-ret (sweep_loop K B (graphs.node_count e.graph) e.gc.removal_queue _) _ h in
        spawn_loop-Fit (fuel + length e.deferred_spawns) _ e' _ refl more
          (sweep_loop-Fit (graphs.node_count e.graph) e.gc.removal_queue _ x s f)

    -- A cycle that goes on keeps the property.
    pub Completes-Fit :
        (epoch fuel : ℕ) (e : Executor K) (c : C) (timeout : Option ℕ) (r : Executor K × C)
        → Completes K B clock epoch fuel e c timeout running r
        → Fit e.event_driver
        → Fit r.0.event_driver
    unfolding Context.new
    Completes-Fit epoch fuel e c timeout r p f =
        let w = start K B clock e p.driver p.st p.cycle_time in
        let l = p.loop in
        finish-Fit fuel (with_work K B e p.end) r.0 (p.finished refl) (
          Runs-Fit epoch w l.turns (running, p.end) l.runs
            (D.poll_fit epoch e c timeout (ok p.cycle_time, (p.driver, p.st, r.1)) p.poll_ok f))
