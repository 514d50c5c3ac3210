-- ===== src/Executor/Answers.antt =====
-- Handling a node's answer in the node loop of wavelet/src/runtime/executor.rs, where nodes may wait
-- more than once: at most the node's children are added to what waits.
use wavelet_rs.Prelude.{
  ℕ, ◌+◌, ◌≤◌, ◌≡◌, refl, inl, inr, List, [], ◌∷◌, some, arith, All, Returns, returns, Returns-bind,
  Returns-map, map, keep, Bool-cases, true,
}
use wavelet_rs.Control.{Control, Relationship, is_trigger}
use wavelet_rs.StableGraph.{Link}
use wavelet_rs.Graph.{NodeContext, triggering_edges, edges, target}
use wavelet_rs.Scheduler.{Scheduler}
use wavelet_rs.Scheduler.Order.{contents}
use wavelet_rs.Scheduling.{Sched}
use wavelet_rs.Scheduling.Entries.{All-map, Waits}
use wavelet_rs.Scheduling.Keeps.{Marked, Keeps, Keeps-refl, Keeps-trans, Enabled-Keeps}
use wavelet_rs.Scheduling.Ready.{IsReachable-Keeps}
use wavelet_rs.Scheduling.Loads.{
  load, waiting, Loaded, Placed-Keeps, Fills, Fills-none, Fills-trans, try_schedule-Fills,
  try_all-Fills,
}
use wavelet_rs.Platform.{Platform}
use wavelet_rs.Executor.{ExecutorState, running}
use wavelet_rs.Executor.Cycle.{Work, drained, broadcast_node, poison_all, sweep_node, handle}
use wavelet_rs.Executor.Wiring.{
  IsWired, IsWired-Keeps, Deeper, Deeper-Keeps, triggering_edges-Deeper, edges-Deeper,
  IsReachable-Deeper, poison-Keeps, Marked-poison, mark_poisoned-found,
}
use wavelet_rs.Executor.Turns.{Marked-Reached}

-- The triggered children weigh no more than all children.
load-keep :
    (weight : ℕ → ℕ) (ls : List (Link Relationship))
    → load weight (map target (keep (λ l. is_trigger l.0) ls)) ≤ load weight (map target ls)
load-keep weight [] = omega arith
load-keep weight (l ∷ ls) = elim (Bool-cases (is_trigger l.0)) [
  | inl e ↦ rw e (omega (arith, load-keep weight ls))
  | inr e ↦ rw e (omega (arith, load-keep weight ls))
]

module _ (K : Platform) (weight : ℕ → ℕ) where
  open K use {graphs}

  -- What holds of the loop's state between two turns.
  pub record Carrying (epoch : ℕ) (seen : List ℕ) (w : Work K) : Type 0 where
    pub loaded : Loaded graphs weight epoch seen w.graph w.context.scheduler
    pub wired : IsWired graphs w.graph
    pub no_buffer : w.edge_buffer ≡ []

  -- What a node's answer leaves.
  pub record Answered (epoch : ℕ) (seen : List ℕ) (w : Work K) (i : ℕ) (control : Control)
      (out : ExecutorState × Work K) : Type 0 where
    pub carrying : Carrying epoch seen out.1
    pub keeps : Keeps graphs epoch w.graph out.1.graph
    pub same_depth : out.1.context.scheduler.curr_depth ≡ w.context.scheduler.curr_depth
    pub reached :
        control ≡ Control.broadcast
        → All (Marked graphs epoch out.1.graph) (triggering_edges graphs w.graph i)
    pub still_waits :
        (j : ℕ)
        → Waits j (contents w.context.scheduler)
        → Waits j (contents out.1.context.scheduler)
    pub spent :
        waiting weight (contents out.1.context.scheduler)
        ≤ waiting weight (contents w.context.scheduler) + load weight (edges graphs w.graph i)

  triggering-load :
      (g : graphs.Carrier) (i : ℕ)
      → load weight (triggering_edges graphs g i) ≤ load weight (edges graphs g i)
  unfolding triggering_edges edges
  triggering-load g i = load-keep weight (graphs.outgoing g i)

  poison-Loaded :
      (epoch : ℕ) (seen : List ℕ) (g : graphs.Carrier) (s : Scheduler) (i : ℕ)
      (n : NodeContext K.Closure)
      → graphs.node_weight g i ≡ some n
      → Loaded graphs weight epoch seen g s
      → Loaded graphs weight epoch seen (graphs.set_weight g i (record n { poisoned = true })) s
  poison-Loaded epoch seen g s i n e r =
      let k = poison-Keeps graphs epoch g i n e in
      record {
        valid = r.valid;
        enabled = Enabled-Keeps graphs s s k (omega arith) r.enabled;
        all_placed = All-map (contents s) (Placed-Keeps graphs weight k) r.all_placed;
        accounted = λ j a. r.accounted j (Marked-poison graphs epoch g i n j e a);
      }

  poison_all-Fills :
      (epoch d : ℕ) (is : List ℕ) (seen : List ℕ) (g : graphs.Carrier) (s : Scheduler)
      → Loaded graphs weight epoch seen g s
      → s.curr_depth ≤ d
      → All (Deeper graphs g d) is
      → Returns (Fills graphs weight epoch seen (load weight is) g s) (poison_all K epoch is (g, s))
  unfolding poison_all
  poison_all-Fills epoch d [] seen g s r low deep =
      returns _ (Fills-none graphs weight epoch seen 0 g s r)
  poison_all-Fills epoch d (i ∷ is) seen g s r low deep =
      let x = deep.0 in
      let k = poison-Keeps graphs epoch g i x.node x.found in
      let poisoned = graphs.set_weight g i (record (x.node) { poisoned = true }) in
      let r' = poison-Loaded epoch seen g s i x.node x.found r in
      let low_i = IsReachable-Keeps graphs s s i k refl (IsReachable-Deeper graphs g s d i low x) in
      rw (mark_poisoned-found graphs g i x.node x.found) (
        Returns-bind _ (try_schedule-Fills graphs weight epoch i seen poisoned s r' low_i)
          λ st (a, _).
            let start : Fills graphs weight epoch seen (weight i) g s st = record {
              loaded = a.loaded;
              keeps = Keeps-trans graphs k a.keeps;
              same_depth = a.same_depth;
              still_waits = a.still_waits;
              spent = a.spent;
            } in
            Returns-map (λ su b. Fills-trans graphs weight (weight i) (load weight is) start b)
              (poison_all-Fills epoch d is seen st.0 st.1 a.loaded (omega (arith, a.same_depth))
                (All-map is (λ c. Deeper-Keeps graphs d c start.keeps) deep.1)))

  module _ (epoch : ℕ) (seen : List ℕ) (w : Work K) (i : ℕ) (n : NodeContext K.Closure)
      (found : graphs.node_weight w.graph i ≡ some n)
      (here : n.depth ≡ w.context.scheduler.curr_depth) (l : Carrying epoch seen w) where
    Fills-Carrying :
        (b : ℕ) (st : Sched graphs) (w' : Work K)
        → Fills graphs weight epoch seen b w.graph w.context.scheduler st
        → (w'.graph ≡ st.0) × (w'.context.scheduler ≡ st.1) × (w'.edge_buffer ≡ [])
        → Carrying epoch seen w'
    Fills-Carrying b st w' a (g, s, e) = record {
      loaded = rw (g, s) a.loaded;
      wired = rw g (IsWired-Keeps graphs a.keeps l.wired);
      no_buffer = e;
    }

    broadcast-Answered :
        Returns
          (λ w'. Answered epoch seen w i Control.broadcast (running, w'))
          (broadcast_node K epoch i w)
    unfolding broadcast_node
    broadcast-Answered = rw l.no_buffer (
        Returns-bind _
          (try_all-Fills graphs weight epoch (triggering_edges graphs w.graph i) seen w.graph
            w.context.scheduler l.loaded
            (All-map _
              (λ c.
                IsReachable-Deeper graphs w.graph w.context.scheduler n.depth c
                  (omega (arith, here)))
              (triggering_edges-Deeper graphs w.graph i n l.wired found)))
          λ st (a, reached). returns _ (record {
            carrying = Fills-Carrying _ st (drained K w st) a (refl, refl, refl);
            keeps = a.keeps;
            same_depth = a.same_depth;
            reached = λ _.
                Marked-Reached K epoch w.graph st.0 n.depth _ a.keeps
                  (triggering_edges-Deeper graphs w.graph i n l.wired found) reached;
            still_waits = a.still_waits;
            spent = (let x = a.spent in omega (arith, x, triggering-load w.graph i));
          }))

    sweep-Answered :
        Returns (λ w'. Answered epoch seen w i Control.sweep (running, w')) (sweep_node K epoch i w)
    unfolding sweep_node
    sweep-Answered = rw l.no_buffer (
        Returns-bind _
          (poison_all-Fills epoch n.depth (edges graphs w.graph i) seen w.graph w.context.scheduler
            l.loaded (omega (arith, here)) (edges-Deeper graphs w.graph i n l.wired found))
          λ st a. returns _ (record {
            carrying = Fills-Carrying _ st _ a (refl, refl, refl);
            keeps = a.keeps;
            same_depth = a.same_depth;
            reached = λ e. cc;
            still_waits = a.still_waits;
            spent = a.spent;
          }))

    -- Whatever the node answers, handling it does not panic, and it adds no more to what waits than
    -- the children weigh.
    pub handle-Answered :
        (control : Control) → Returns (Answered epoch seen w i control) (handle K epoch control i w)
    unfolding handle
    handle-Answered Control.broadcast = Returns-bind _ broadcast-Answered (λ w' h. returns _ h)
    handle-Answered Control.sweep = Returns-bind _ sweep-Answered (λ w' h. returns _ h)
    handle-Answered Control.unchanged = returns _ (record {
      carrying = l;
      keeps = Keeps-refl graphs epoch w.graph;
      same_depth = refl;
      reached = λ e. cc;
      still_waits = λ j h. h;
      spent = omega arith;
    })
    handle-Answered Control.terminate = returns _ (record {
      carrying = l;
      keeps = Keeps-refl graphs epoch w.graph;
      same_depth = refl;
      reached = λ e. cc;
      still_waits = λ j h. h;
      spent = omega arith;
    })
