-- ===== src/Executor/Turns.antt =====
-- One turn of the node loop of wavelet/src/runtime/executor.rs: what handling a node's answer does.
use wavelet_rs.Prelude.{
  ℕ, true, ◌≤◌, ◌≡◌, refl, List, [], ◌∷◌, some, arith, All, Returns, returns, Returns-bind,
  Returns-map,
}
use wavelet_rs.Control.{Control}
use wavelet_rs.Graph.{NodeContext, triggering_edges, edges}
use wavelet_rs.Scheduler.{Scheduler}
use wavelet_rs.Scheduling.{Sched}
use wavelet_rs.Scheduling.Entries.{All-map}
use wavelet_rs.Scheduling.Keeps.{Marked, Keeps, Keeps-refl, Keeps-trans}
use wavelet_rs.Scheduling.Ready.{
  Ready, IsReachable-Keeps, After, Reached, try_schedule-After, try_all-After, After-trans,
}
use wavelet_rs.Platform.{Platform}
use wavelet_rs.Executor.{ExecutorState, running}
use wavelet_rs.Executor.Cycle.{Work, drained, broadcast_node, poison_all, sweep_node, handle}
use wavelet_rs.Executor.Wiring.{
  IsWired, IsWired-Keeps, Deeper, Deeper-Keeps, triggering_edges-Deeper, edges-Deeper,
  IsReachable-Deeper, poison-Keeps, poison-Ready, mark_poisoned-found,
}

module _ (K : Platform) where
  open K use {graphs}

  -- What holds of the loop's state between two turns.
  pub record Looping (epoch : ℕ) (seen : List ℕ) (w : Work K) : Type 0 where
    pub ready : Ready graphs epoch seen w.graph w.context.scheduler
    pub wired : IsWired graphs w.graph
    pub no_buffer : w.edge_buffer ≡ []

  -- What a node's answer leaves: the loop can go on, nodes and edges are the same, and after a
  -- broadcast every triggered child has been marked.
  pub record Handled (epoch : ℕ) (seen : List ℕ) (w : Work K) (i : ℕ) (control : Control)
      (out : ExecutorState × Work K) : Type 0 where
    pub looping : Looping epoch seen out.1
    pub keeps : Keeps graphs epoch w.graph out.1.graph
    pub same_depth : out.1.context.scheduler.curr_depth ≡ w.context.scheduler.curr_depth
    pub reached :
        control ≡ Control.broadcast
        → All (Marked graphs epoch out.1.graph) (triggering_edges graphs w.graph i)

  After-Looping :
      (epoch : ℕ) (seen : List ℕ) (w : Work K) (st : Sched graphs)
      → Looping epoch seen w
      → After graphs epoch seen w.graph w.context.scheduler st
      → Looping epoch seen (drained K w st)
  After-Looping epoch seen w st l a = record {
    ready = a.ready;
    wired = IsWired-Keeps graphs a.keeps l.wired;
    no_buffer = refl;
  }

  -- A child that was there and has been reached is marked.
  pub Marked-Reached :
      (epoch : ℕ) (g h : graphs.Carrier) (d : ℕ) (is : List ℕ)
      → Keeps graphs epoch g h
      → All (Deeper graphs g d) is
      → All (Reached graphs epoch h) is
      → All (Marked graphs epoch h) is
  Marked-Reached epoch g h d [] k x r = tt
  Marked-Reached epoch g h d (i ∷ is) k x r =
      let (m, e, _, _, _) = k.forward i x.0.node x.0.found in
      (r.0 m e, Marked-Reached epoch g h d is k x.1 r.1)

  -- Poisoning and scheduling the children of a node, one after the other.
  poison_all-After :
      (epoch d : ℕ) (is : List ℕ) (seen : List ℕ) (g : graphs.Carrier) (s : Scheduler)
      → Ready graphs epoch seen g s
      → s.curr_depth ≤ d
      → All (Deeper graphs g d) is
      → Returns (After graphs epoch seen g s) (poison_all K epoch is (g, s))
  unfolding poison_all
  poison_all-After epoch d [] seen g s r low deep =
      returns _ (record { ready = r; keeps = Keeps-refl graphs epoch g; same_depth = refl })
  poison_all-After epoch d (i ∷ is) seen g s r low deep =
      let x = deep.0 in
      let k = poison-Keeps graphs epoch g i x.node x.found in
      let poisoned = graphs.set_weight g i (record (x.node) { poisoned = true }) in
      let r' = poison-Ready graphs epoch seen g s i x.node x.found r in
      let low_i = IsReachable-Keeps graphs s s i k refl (IsReachable-Deeper graphs g s d i low x) in
      rw (mark_poisoned-found graphs g i x.node x.found) (
        Returns-bind _ (try_schedule-After graphs epoch i seen poisoned s r' low_i) λ st (a, _).
          let start : After graphs epoch seen g s st = record {
            ready = a.ready;
            keeps = Keeps-trans graphs k a.keeps;
            same_depth = a.same_depth;
          } in
          Returns-map (λ su b. After-trans graphs start b)
            (poison_all-After epoch d is seen st.0 st.1 a.ready (omega (arith, a.same_depth))
              (All-map is (λ c. Deeper-Keeps graphs d c start.keeps) deep.1)))

  module _ (epoch : ℕ) (seen : List ℕ) (w : Work K) (i : ℕ) (n : NodeContext K.Closure)
      (found : graphs.node_weight w.graph i ≡ some n)
      (here : n.depth ≡ w.context.scheduler.curr_depth) (l : Looping epoch seen w) where
    broadcast-Handled :
        Returns
          (λ w'. Handled epoch seen w i Control.broadcast (running, w'))
          (broadcast_node K epoch i w)
    unfolding broadcast_node
    broadcast-Handled = rw l.no_buffer (
        Returns-bind _
          (try_all-After graphs epoch (triggering_edges graphs w.graph i) seen w.graph
            w.context.scheduler l.ready
            (All-map _
              (λ c.
                IsReachable-Deeper graphs w.graph w.context.scheduler n.depth c
                  (omega (arith, here)))
              (triggering_edges-Deeper graphs w.graph i n l.wired found)))
          λ st (a, reached). returns _ (record {
            looping = After-Looping epoch seen w st l a;
            keeps = a.keeps;
            same_depth = a.same_depth;
            reached = λ _.
                Marked-Reached epoch w.graph st.0 n.depth _ a.keeps
                  (triggering_edges-Deeper graphs w.graph i n l.wired found) reached;
          }))

    sweep-Handled :
        Returns (λ w'. Handled epoch seen w i Control.sweep (running, w')) (sweep_node K epoch i w)
    unfolding sweep_node
    sweep-Handled = rw l.no_buffer (
        Returns-bind _
          (poison_all-After epoch n.depth (edges graphs w.graph i) seen w.graph w.context.scheduler
            l.ready (omega (arith, here)) (edges-Deeper graphs w.graph i n l.wired found))
          λ st a. returns _ (record {
            looping = record {
              ready = a.ready;
              wired = IsWired-Keeps graphs a.keeps l.wired;
              no_buffer = refl;
            };
            keeps = a.keeps;
            same_depth = a.same_depth;
            reached = λ e. cc;
          }))

    -- Whatever the node answers, handling it does not panic and the loop can go on from there.
    pub handle-Handled :
        (control : Control) → Returns (Handled epoch seen w i control) (handle K epoch control i w)
    unfolding handle
    handle-Handled Control.broadcast = Returns-bind _ broadcast-Handled (λ w' h. returns _ h)
    handle-Handled Control.sweep = Returns-bind _ sweep-Handled (λ w' h. returns _ h)
    handle-Handled Control.unchanged = returns _ (record {
      looping = l;
      keeps = Keeps-refl graphs epoch w.graph;
      same_depth = refl;
      reached = λ e. cc;
    })
    handle-Handled Control.terminate = returns _ (record {
      looping = l;
      keeps = Keeps-refl graphs epoch w.graph;
      same_depth = refl;
      reached = λ e. cc;
    })
