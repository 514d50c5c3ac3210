-- ===== src/Executor/NodeLoop.antt =====
-- The node loop of wavelet/src/runtime/executor.rs ends, and runs what it has to.
use wavelet_rs.Prelude.{
  ℕ, zero, suc, ap, subst, ◌+◌, ◌<◌, ◌≤◌, ◌≡◌, refl, sym, ◌∙◌, inl, inr, List, [], ◌∷◌, Option,
  none, some, ret, arith, All, Returns, returns, Returns-map, Returns-value, AllDistinct, length,
}
use wavelet_rs.Control.{Control}
use wavelet_rs.Graph.{NodeContext, triggering_edges}
use wavelet_rs.Graph
use wavelet_rs.Scheduler.{Scheduler, pop}
use wavelet_rs.Scheduler.Order.{IsValid, contents, Pops, taken, exhausted, pop-Pops}
use wavelet_rs.Scheduling.Entries.{All-map, In}
use wavelet_rs.Scheduling.Keeps.{Keeps, Keeps-refl, Marked, Marked-Keeps}
use wavelet_rs.Scheduling.Ready.{Ready}
use wavelet_rs.Platform.{Platform}
use wavelet_rs.Executor.{ExecutorState, running, terminated, ExecutionContext, Closures}
use wavelet_rs.Executor.Context.{set_current}
use wavelet_rs.Executor.Cycle.{Work, handle, turn, popped, node_loop}
use wavelet_rs.Executor.Wiring.{triggering_edges-Keeps}
use wavelet_rs.Executor.Turns.{Looping, Handled, handle-Handled}
use wavelet_rs.Executor.Propagation.{
  Turn, nodes, Rises, IsQuiet, Runs, idle, HasReached, Settled, Ran, Took, Took-pop, cycle-quiet,
  seen_bounded, stop-Ran, step-Ran,
}

module _ (K : Platform) (B : Closures K) where
  open K use {graphs}

  -- No node is left: the loop ends, and every marked node has been run.
  idle-Ran :
      (epoch : ℕ) (seen : List ℕ) (w : Work K) (s : Scheduler)
      → Looping K epoch seen w
      → pop w.context.scheduler ≡ (none, s)
      → contents w.context.scheduler ≡ []
      → s ≡ record (w.context.scheduler) { curr_depth = 0 }
      → IsValid s
      → Ran K B epoch seen w (running, popped K B w s)
  idle-Ran epoch seen w s l e c same v = record {
    turns = [];
    runs = idle w s e;
    rises = tt;
    distinct = tt;
    unseen = tt;
    keeps = Keeps-refl graphs epoch w.graph;
    reached = tt;
    accounted = λ _ i a. elim (l.ready.accounted i a) [
      | inl done ↦ inl done
      | inr waits ↦ absurd (rw c at waits)
    ];
    settled = λ _. record {
      valid = v;
      top = ap (λ t. t.curr_depth) same;
      empty = ap contents same ∙ c;
      enabled = λ i n en.
          let q = ap (λ t. length t.multi_queue) same in omega (arith, l.ready.enabled i n en, q);
      wired = l.wired;
      no_buffer = l.no_buffer;
    };
  }

  module _ (quiet : IsQuiet K B) (epoch fuel : ℕ)
      (rest : (seen : List ℕ) (w : Work K)
        → Looping K epoch seen w
        → graphs.node_count w.graph < fuel + length seen
        → Returns (Ran K B epoch seen w) (node_loop K B fuel epoch w)) where
    -- A turn that has been handled, followed by the rest of the loop.
    after_turn :
        (seen : List ℕ) (w : Work K) (s : Scheduler) (i : ℕ) (c : Control)
        (ctx : ExecutionContext K) (out : ExecutorState × Work K)
        → graphs.node_count w.graph < suc fuel + length seen
        → pop w.context.scheduler ≡ (some i, s)
        → w.context.scheduler.curr_depth ≤ s.curr_depth
        → Took K B epoch seen w.graph i s
        → Graph.cycle graphs B.run w.graph (set_current K i (popped K B w s).context) i
          ≡ ret (c, ctx)
        → ctx.scheduler ≡ s
        → handle K epoch c i (record w { context = ctx }) ≡ ret out
        → Handled K epoch (i ∷ seen) (record w { context = ctx }) i c out
        → Returns (Ran K B epoch seen w) (elim out.0 [
          | terminated ↦ ret (terminated, out.1)
          | running ↦ node_loop K B fuel epoch out.1
        ])
    after_turn seen w s i c ctx (terminated, w') b takes deeper took answers same e h =
        returns _ (stop-Ran K B epoch seen w w' s i c ctx takes deeper took answers same e h)
    after_turn seen w s i c ctx (running, w') b takes deeper took answers same e h =
        Returns-map
          (λ out. step-Ran K B epoch seen w w' s i c ctx takes deeper took answers same out e h)
          (rest (i ∷ seen) w' h.looping (omega (arith, h.keeps.same_count)))

    Handled-turn :
        (seen : List ℕ) (w : Work K) (s : Scheduler) (i : ℕ) (c : Control)
        (ctx : ExecutionContext K)
        → Looping K epoch seen w
        → Took K B epoch seen w.graph i s
        → ctx.scheduler ≡ s
        → Returns
            (Handled K epoch (i ∷ seen) (record w { context = ctx }) i c)
            (handle K epoch c i (record w { context = ctx }))
    Handled-turn seen w s i c ctx l took same =
        handle-Handled K epoch (i ∷ seen) (record w { context = ctx }) i took.node took.found
          (took.here ∙ ap (λ x. x.curr_depth) (sym same))
          (record {
            ready = subst (Ready graphs epoch (i ∷ seen) w.graph) (sym same) took.ready;
            wired = l.wired;
            no_buffer = l.no_buffer;
          })
          c

    one_turn :
        (seen : List ℕ) (w : Work K)
        → Looping K epoch seen w
        → graphs.node_count w.graph < suc fuel + length seen
        → (r : Option ℕ × Scheduler) → pop w.context.scheduler ≡ r
        → Pops w.context.scheduler r
        → Returns (Ran K B epoch seen w) (node_loop K B (suc fuel) epoch w)
    unfolding node_loop turn set_current
    one_turn seen w l b r e (exhausted s c same v) =
        rw (e, node_loop, ap (λ p. p.1) e) (returns _ (idle-Ran epoch seen w s l e c same v))
    one_turn seen w l b r e (taken i s c d _ m v) =
        let took = Took-pop K B epoch seen w.graph w.context.scheduler s i l.ready c m v in
        let (answer, answers, same) = Returns-value (
          cycle-quiet K B quiet w.graph (set_current K i (popped K B w s).context) i took.node
            took.found) in
        let (out, handles, h) =
          Returns-value (Handled-turn seen w s i answer.0 answer.1 l took same) in
        rw (e, node_loop, ap (λ p. p.1) e, answers, handles)
          (after_turn seen w s i answer.0 answer.1 out b e d took answers same handles h)

  -- With more fuel than there are nodes the loop returns.
  node_loop-Ran :
      IsQuiet K B
      → (epoch fuel : ℕ) (seen : List ℕ) (w : Work K) → Looping K epoch seen w
      → graphs.node_count w.graph < fuel + length seen
      → Returns (Ran K B epoch seen w) (node_loop K B fuel epoch w)
  node_loop-Ran quiet epoch zero seen w l b =
      absurd (
        omega
          (arith, seen_bounded K B epoch seen w.graph l.ready.seen_distinct l.ready.seen_marked))
  node_loop-Ran quiet epoch (suc fuel) seen w l b =
      one_turn quiet epoch fuel (node_loop-Ran quiet epoch fuel) seen w l b
        (pop w.context.scheduler) refl (pop-Pops w.context.scheduler l.ready.valid)

  -- What one run of the loop does, from a graph and a scheduler that are ready for the epoch.
  pub record Propagates (epoch : ℕ) (w : Work K) (out : ExecutorState × Work K) : Type 0 where
    pub turns : List Turn
    pub runs : Runs K B epoch w turns out
    pub in_order : Rises w.context.scheduler.curr_depth turns
    pub once : AllDistinct (nodes turns)
    pub keeps : Keeps graphs epoch w.graph out.1.graph
    pub settled : out.0 ≡ running → Settled K B out.1
    pub all_marked : out.0 ≡ running → (i : ℕ) → Marked graphs epoch w.graph i → In i (nodes turns)
    pub all_children :
        out.0 ≡ running
        → All
            (λ x.
              x.answer ≡ Control.broadcast
              → All (λ c. In c (nodes turns)) (triggering_edges graphs w.graph x.node))
            turns

  children-Ran :
      (epoch : ℕ) (w : Work K) (out : ExecutorState × Work K) (r : Ran K B epoch [] w out)
      → out.0 ≡ running
      → (x : Turn) → HasReached K B epoch out.1.graph x
      → x.answer ≡ Control.broadcast
      → All (λ c. In c (nodes r.turns)) (triggering_edges graphs w.graph x.node)
  children-Ran epoch w out r ends x h b = rw (← triggering_edges-Keeps graphs x.node r.keeps) (
      All-map _
        (λ c m. elim (r.accounted ends c m) [ inl none_seen ↦ absurd none_seen | inr ran ↦ ran ])
        (h b))

  -- Take a state in which the scheduler is valid and has a queue for the depth of every node, just
  -- the waiting nodes are marked with the epoch, each waits once, every edge leads to a deeper node
  -- and the edge buffer is empty. If closures return and do not touch the scheduler themselves, then
  -- the node loop, given more fuel than there are nodes, returns without a panic. It runs the nodes
  -- by depth, each at most once, and unless a node stops it, it runs every waiting node and every
  -- triggered child of every node that broadcast, and leaves an empty scheduler at depth zero.
  pub node_loop-Propagates :
      IsQuiet K B
      → (epoch fuel : ℕ) (w : Work K) → Looping K epoch [] w
      → graphs.node_count w.graph < fuel
      → Returns (Propagates epoch w) (node_loop K B fuel epoch w)
  node_loop-Propagates quiet epoch fuel w l b =
      Returns-map
        (λ out r. record {
          turns = r.turns;
          runs = r.runs;
          in_order = r.rises;
          once = r.distinct;
          keeps = r.keeps;
          settled = r.settled;
          all_marked = λ ends i m. elim (r.accounted ends i (Marked-Keeps graphs r.keeps i m)) [
            | inl none_seen ↦ absurd none_seen
            | inr ran ↦ ran
          ];
          all_children = λ ends. All-map r.turns (λ x. children-Ran epoch w out r ends x) r.reached;
        })
        (node_loop-Ran quiet epoch fuel [] w l (omega arith))
