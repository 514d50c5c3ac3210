-- ===== src/Executor/Spending.antt =====
-- The node loop of wavelet/src/runtime/executor.rs, where closures schedule nodes by
-- `ExecutionContext::schedule_node` besides the triggers of the graph.
use wavelet_rs.Prelude.{
  ℕ, zero, suc, ap, ◌<◌, ◌≤◌, ◌≡◌, refl, sym, ◌∙◌, inl, inr, List, [], ◌∷◌, Option, some, ret,
  arith, All, Returns, returns, Returns-map, Returns-value, length,
}
use wavelet_rs.Control.{Control}
use wavelet_rs.Graph.{triggering_edges}
use wavelet_rs.Graph
use wavelet_rs.Scheduler.{Scheduler, pop}
use wavelet_rs.Scheduler.Order.{contents, Pops, taken, exhausted, pop-Pops}
use wavelet_rs.Scheduling.Entries.{All-map, In, Waits}
use wavelet_rs.Scheduling.Keeps.{Keeps, Keeps-refl, Keeps-trans, Marked, Marked-Keeps}
use wavelet_rs.Platform.{Platform}
use wavelet_rs.Executor.{ExecutorState, running, terminated, ExecutionContext, Closures}
use wavelet_rs.Executor.Context.{set_current}
use wavelet_rs.Executor.Cycle.{Work, handle, turn, popped, node_loop}
use wavelet_rs.Executor.Wiring.{triggering_edges-Keeps}
use wavelet_rs.Executor.Propagation.{Turn, nodes, Rises, Runs, HasReached, Settled}
use wavelet_rs.Executor.Answers.{Carrying, Answered, handle-Answered}
use wavelet_rs.Executor.Frugal.{
  Adds, IsFrugal, HasBudget, HasBudget-Keeps, Loaded-Adds, Takes, Takes-pop, cycle-Adds,
}
use wavelet_rs.Executor.Budget.{waiting_in, Ends, idle-Ends, falls, stop-Ends, step-Ends}

module _ (K : Platform) (B : Closures K) (weight own : ℕ → ℕ) where
  open K use {graphs}

  module _ (first : graphs.Carrier) (frugal : IsFrugal K B weight own first)
      (budget : HasBudget K B weight own first) (epoch fuel : ℕ)
      (rest : (seen : List ℕ) (w : Work K)
        → Carrying K weight epoch seen w
        → Keeps graphs epoch first w.graph
        → waiting_in K B weight own w < fuel
        → Returns (Ends K B weight own epoch seen w) (node_loop K B fuel epoch w)) where
    -- A turn that has been handled, followed by the rest of the loop.
    after_turn :
        (seen : List ℕ) (w : Work K) (s : Scheduler) (i : ℕ) (c : Control)
        (ctx : ExecutionContext K) (out : ExecutorState × Work K)
        → waiting_in K B weight own w < suc fuel
        → Keeps graphs epoch first w.graph
        → pop w.context.scheduler ≡ (some i, s)
        → contents w.context.scheduler ≡ (s.curr_depth, i) ∷ contents s
        → w.context.scheduler.curr_depth ≤ s.curr_depth
        → Takes K B weight own epoch seen w.graph i s
        → Graph.cycle graphs B.run w.graph (set_current K i (popped K B w s).context) i
          ≡ ret (c, ctx)
        → Adds K B weight own first i s ctx.scheduler
        → handle K epoch c i (record w { context = ctx }) ≡ ret out
        → Answered K weight epoch (i ∷ seen) (record w { context = ctx }) i c out
        → Returns (Ends K B weight own epoch seen w) (elim out.0 [
          | terminated ↦ ret (terminated, out.1)
          | running ↦ node_loop K B fuel epoch out.1
        ])
    after_turn seen w s i c ctx (terminated, w') b k takes front deeper took answers adds e h =
        returns _ (
          stop-Ends K B weight own epoch seen w w' s i c ctx takes front deeper
            (HasBudget-Keeps K B weight own k budget i took.node took.found) answers first adds e h)
    after_turn seen w s i c ctx (running, w') b k takes front deeper took answers adds e h =
        let waits = HasBudget-Keeps K B weight own k budget i took.node took.found in
        let less =
          falls K B weight own epoch seen w w' s i c ctx takes front deeper waits answers first adds
            (running, w') h in
        Returns-map
          (λ out r.
            step-Ends K B weight own epoch seen w w' s i c ctx takes front deeper waits answers
              first adds out e h r)
          (rest (i ∷ seen) w' h.carrying (Keeps-trans graphs k h.keeps) (omega (arith, less)))

    Answered-turn :
        (seen : List ℕ) (w : Work K) (s : Scheduler) (i : ℕ) (c : Control)
        (ctx : ExecutionContext K)
        → Carrying K weight epoch seen w
        → Keeps graphs epoch first w.graph
        → Takes K B weight own epoch seen w.graph i s
        → Adds K B weight own first i s ctx.scheduler
        → Returns
            (Answered K weight epoch (i ∷ seen) (record w { context = ctx }) i c)
            (handle K epoch c i (record w { context = ctx }))
    Answered-turn seen w s i c ctx l k took adds =
        handle-Answered K weight epoch (i ∷ seen) (record w { context = ctx }) i took.node
          took.found (took.here ∙ sym adds.same_depth)
          (record {
            loaded =
                Loaded-Adds K B weight own epoch (i ∷ seen) first w.graph i s ctx.scheduler k
                  took.loaded adds;
            wired = l.wired;
            no_buffer = l.no_buffer;
          })
          c

    one_turn :
        (seen : List ℕ) (w : Work K)
        → Carrying K weight epoch seen w
        → Keeps graphs epoch first w.graph
        → waiting_in K B weight own w < suc fuel
        → (r : Option ℕ × Scheduler) → pop w.context.scheduler ≡ r
        → Pops w.context.scheduler r
        → Returns (Ends K B weight own epoch seen w) (node_loop K B (suc fuel) epoch w)
    unfolding node_loop turn set_current
    one_turn seen w l k b r e (exhausted s c same v) =
        rw (e, node_loop, ap (λ p. p.1) e)
          (returns _ (idle-Ends K B weight own epoch seen w s l e c same v))
    one_turn seen w l k b r e (taken i s c d _ m v) =
        let took =
          Takes-pop K B weight own epoch seen w.graph w.context.scheduler s i l.loaded c m v in
        let (answer, answers, adds) = Returns-value (
          cycle-Adds K B weight own epoch seen first w.graph
            (set_current K i (popped K B w s).context) i frugal k refl took) in
        let (out, handles, h) =
          Returns-value (Answered-turn seen w s i answer.0 answer.1 l k took adds) in
        rw (e, node_loop, ap (λ p. p.1) e, answers, handles)
          (after_turn seen w s i answer.0 answer.1 out b k e c d took answers adds handles h)

  -- With more fuel than what waits weighs, the loop returns.
  node_loop-Ends :
      (first : graphs.Carrier)
      → IsFrugal K B weight own first
      → HasBudget K B weight own first
      → (epoch fuel : ℕ) (seen : List ℕ) (w : Work K) → Carrying K weight epoch seen w
      → Keeps graphs epoch first w.graph
      → waiting_in K B weight own w < fuel
      → Returns (Ends K B weight own epoch seen w) (node_loop K B fuel epoch w)
  node_loop-Ends first frugal budget epoch zero seen w l k b = absurd (omega arith)
  node_loop-Ends first frugal budget epoch (suc fuel) seen w l k b =
      one_turn first frugal budget epoch fuel (node_loop-Ends first frugal budget epoch fuel) seen w
        l k b (pop w.context.scheduler) refl (pop-Pops w.context.scheduler l.loaded.valid)

  -- What one run of the loop does, from a graph and a scheduler whose waiting nodes are weighed.
  pub record Spends (epoch : ℕ) (w : Work K) (out : ExecutorState × Work K) : Type 0 where
    pub turns : List Turn
    pub runs : Runs K B epoch w turns out
    pub in_order : Rises w.context.scheduler.curr_depth turns
    pub bound : length turns ≤ waiting_in K B weight own w
    pub keeps : Keeps graphs epoch w.graph out.1.graph
    pub settled : out.0 ≡ running → Settled K B out.1
    pub all_marked : out.0 ≡ running → (i : ℕ) → Marked graphs epoch w.graph i → In i (nodes turns)
    pub all_waiting :
        out.0 ≡ running → (i : ℕ) → Waits i (contents w.context.scheduler) → In i (nodes turns)
    pub all_children :
        out.0 ≡ running
        → All
            (λ x.
              x.answer ≡ Control.broadcast
              → All (λ c. In c (nodes turns)) (triggering_edges graphs w.graph x.node))
            turns

  children-Ends :
      (epoch : ℕ) (w : Work K) (out : ExecutorState × Work K)
      (r : Ends K B weight own epoch [] w out)
      → out.0 ≡ running
      → (x : Turn) → HasReached K B epoch out.1.graph x
      → x.answer ≡ Control.broadcast
      → All (λ c. In c (nodes r.turns)) (triggering_edges graphs w.graph x.node)
  children-Ends epoch w out r ends x h b = rw (← triggering_edges-Keeps graphs x.node r.keeps) (
      All-map _
        (λ c m. elim (r.accounted ends c m) [ inl none_seen ↦ absurd none_seen | inr ran ↦ ran ])
        (h b))

  -- Let closures schedule nodes themselves: node `i`, run in its turn, returns and may make nodes of
  -- the graph wait at their depths, of no more weight than `own i`, and every node weighs more than
  -- its own budget and its children together. Take a state in which the scheduler is valid and has
  -- a queue for the depth of every node, each entry stands at the depth of its node, every node that
  -- is marked with the epoch waits, every edge leads to a deeper node and the edge buffer is empty;
  -- nodes may wait more than once. Then the node loop, given more fuel than the waiting nodes weigh,
  -- returns without a panic, after at most that many turns, which it makes by depth. Unless a node
  -- stops it, it runs every waiting node and every triggered child of every node that broadcast, and
  -- leaves an empty scheduler at depth zero.
  pub node_loop-Spends :
      (epoch fuel : ℕ) (w : Work K)
      → IsFrugal K B weight own w.graph
      → HasBudget K B weight own w.graph
      → Carrying K weight epoch [] w
      → waiting_in K B weight own w < fuel
      → Returns (Spends epoch w) (node_loop K B fuel epoch w)
  node_loop-Spends epoch fuel w frugal budget l b =
      Returns-map
        (λ out r. record {
          turns = r.turns;
          runs = r.runs;
          in_order = r.rises;
          bound = r.bound;
          keeps = r.keeps;
          settled = r.settled;
          all_marked = λ ends i m. elim (r.accounted ends i (Marked-Keeps graphs r.keeps i m)) [
            | inl none_seen ↦ absurd none_seen
            | inr ran ↦ ran
          ];
          all_waiting = r.all_waiting;
          all_children =
              λ ends. All-map r.turns (λ x. children-Ends epoch w out r ends x) r.reached;
        })
        (node_loop-Ends w.graph frugal budget epoch fuel [] w l (Keeps-refl graphs epoch w.graph) b)
