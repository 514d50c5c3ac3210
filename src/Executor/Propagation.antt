-- ===== src/Executor/Propagation.antt =====
-- The node loop of wavelet/src/runtime/executor.rs as a relation, and what one cycle runs: which
-- nodes, in which order, how often, and that the loop ends.
use wavelet_rs.Prelude.{
  ℕ, ap, subst, ◌≤◌, ◌≡◌, refl, sym, ◌∙◌, ◌⊎◌, inl, inr, List, [], ◌∷◌, none, some, ret, arith, All,
  Returns, returns, Fresh, AllDistinct, length, Bool-cases,
}
use wavelet_rs.Control.{Control}
use wavelet_rs.Graph.{NodeContext, triggering_edges, cycle_node}
use wavelet_rs.Graph
use wavelet_rs.Scheduler.{Scheduler, pop}
use wavelet_rs.Scheduler.Contents.{Entry}
use wavelet_rs.Scheduler.Order.{IsValid, contents}
use wavelet_rs.Scheduling.Entries.{All-map, In, Waits, Absent, Distinct}
use wavelet_rs.Scheduling.Keeps.{Marked, Marked-Keeps, Queued, Keeps, Keeps-trans}
use wavelet_rs.Scheduling.Offers.{Enabled}
use wavelet_rs.Scheduling.Ready.{Ready}
use wavelet_rs.Platform.{Platform}
use wavelet_rs.Executor.{ExecutorState, running, terminated, ExecutionContext, Closures}
use wavelet_rs.Executor.Context.{set_current}
use wavelet_rs.Executor.Cycle.{Work, handle, popped}
use wavelet_rs.Executor.Wiring.{triggering_edges-Keeps, IsWired}
use wavelet_rs.Executor.Turns.{Handled}

-- A node that was run: its depth and what it answered.
pub record Turn : Type 0 where
  pub node : ℕ
  pub depth : ℕ
  pub answer : Control

abbrev pub nodes : List Turn → List ℕ
nodes [] = []
nodes (x ∷ l) = x.node ∷ nodes l

-- The depths never fall along the list.
abbrev pub Rises : ℕ → List Turn → Type 0
Rises d [] = Unit
Rises d (x ∷ l) = (d ≤ x.depth) × Rises x.depth l

module _ (K : Platform) (B : Closures K) where
  open K use {graphs}

  -- The closures schedule nodes through the graph's edges only, and do not unwind out of the cycle.
  abbrev pub IsQuiet : Type 0
  IsQuiet =
      (f : K.Closure) (ctx : ExecutionContext K)
      → Returns (λ (_, ctx'). ctx'.scheduler ≡ ctx.scheduler) (B.run f ctx)

  -- One run of the loop: the turns that it makes, and how it ends.
  pub data Runs (epoch : ℕ) : Work K → List Turn → ExecutorState × Work K → Type 0 where
    idle :
        (w : Work K) (s : Scheduler)
        → pop w.context.scheduler ≡ (none, s)
        → Runs epoch w [] (running, popped K B w s)
    stop :
        (w w' : Work K) (s : Scheduler) (i : ℕ) (c : Control) (ctx : ExecutionContext K)
        → pop w.context.scheduler ≡ (some i, s)
        → Graph.cycle graphs B.run w.graph (set_current K i (popped K B w s).context) i
          ≡ ret (c, ctx)
        → handle K epoch c i (record w { context = ctx }) ≡ ret (terminated, w')
        → Runs epoch w (record { node = i; depth = s.curr_depth; answer = c } ∷ []) (terminated, w')
    step :
        (w w' : Work K) (s : Scheduler) (i : ℕ) (c : Control) (ctx : ExecutionContext K)
        (l : List Turn) (out : ExecutorState × Work K)
        → pop w.context.scheduler ≡ (some i, s)
        → Graph.cycle graphs B.run w.graph (set_current K i (popped K B w s).context) i
          ≡ ret (c, ctx)
        → handle K epoch c i (record w { context = ctx }) ≡ ret (running, w')
        → Runs epoch w' l out
        → Runs epoch w (record { node = i; depth = s.curr_depth; answer = c } ∷ l) out

  -- A broadcast in the list has reached its triggered children.
  abbrev pub HasReached : ℕ → graphs.Carrier → Turn → Type 0
  HasReached epoch g x =
      x.answer ≡ Control.broadcast → All (Marked graphs epoch g) (triggering_edges graphs g x.node)

  -- The loop has come to its end: nothing waits, and the scheduler stands at depth zero again.
  pub record Settled (w : Work K) : Type 0 where
    pub valid : IsValid w.context.scheduler
    pub top : w.context.scheduler.curr_depth ≡ 0
    pub empty : contents w.context.scheduler ≡ []
    pub enabled : Enabled graphs w.graph w.context.scheduler
    pub wired : IsWired graphs w.graph
    pub no_buffer : w.edge_buffer ≡ []

  pub record Ran (epoch : ℕ) (seen : List ℕ) (w : Work K) (out : ExecutorState × Work K)
      : Type 0 where
    pub turns : List Turn
    pub runs : Runs epoch w turns out
    pub rises : Rises w.context.scheduler.curr_depth turns
    pub distinct : AllDistinct (nodes turns)
    pub unseen : All (λ i. Fresh i seen) (nodes turns)
    pub keeps : Keeps graphs epoch w.graph out.1.graph
    pub reached : All (HasReached epoch out.1.graph) turns
    pub accounted :
        out.0 ≡ running
        → (i : ℕ) → Marked graphs epoch out.1.graph i
        → In i seen ⊎ In i (nodes turns)
    pub settled : out.0 ≡ running → Settled out.1

  -- Taking a node: it is in the graph at the depth that is now current, and has not been run.
  pub record Took (epoch : ℕ) (seen : List ℕ) (g : graphs.Carrier) (i : ℕ) (s : Scheduler)
      : Type 0 where
    pub node : NodeContext K.Closure
    pub found : graphs.node_weight g i ≡ some node
    pub here : node.depth ≡ s.curr_depth
    pub fresh : Fresh i seen
    pub ready : Ready graphs epoch (i ∷ seen) g s

  pub unseen_by :
      (i : ℕ) (seen : List ℕ) (l : List Entry)
      → Absent i l
      → All (λ x. Fresh x.1 seen) l
      → All (λ x. Fresh x.1 (i ∷ seen)) l
  unseen_by i seen [] a h = tt
  unseen_by i seen (x ∷ l) a h = ((λ e. a.0 (sym e), h.0), unseen_by i seen l a.1 h.1)

  pub Took-pop :
      (epoch : ℕ) (seen : List ℕ) (g : graphs.Carrier) (s t : Scheduler) (i : ℕ)
      → Ready graphs epoch seen g s
      → contents s ≡ (t.curr_depth, i) ∷ contents t
      → length t.multi_queue ≡ length s.multi_queue
      → IsValid t
      → Took epoch seen g i t
  Took-pop epoch seen g s t i r c l v =
      let q = subst (All (Queued graphs epoch g)) c r.queued in
      let d = subst Distinct c r.distinct in
      let u = subst (All (λ x. Fresh x.1 seen)) c r.unseen in
      record {
        node = q.0.node;
        found = q.0.found;
        here = q.0.placed_at;
        fresh = u.0;
        ready = record {
          valid = v;
          enabled = λ j n e. omega (arith, r.enabled j n e);
          queued = q.1;
          distinct = d.1;
          unseen = unseen_by i seen (contents t) d.0 u.1;
          seen_marked =
              (record { node = q.0.node; found = q.0.found; stamped = q.0.stamped }, r.seen_marked);
          seen_distinct = (u.0, r.seen_distinct);
          accounted = λ j a. elim (r.accounted j a) [
            | inl done ↦ inl (inr done)
            | inr waits ↦ elim (subst (Waits j) c waits) [
              | inl same ↦ inl (inl same)
              | inr still ↦ inr still
            ]
          ];
        };
      }

  -- A quiet closure, or a poisoned node, leaves the scheduler alone.
  pub cycle-quiet :
      IsQuiet
      → (g : graphs.Carrier) (ctx : ExecutionContext K) (i : ℕ) (n : NodeContext K.Closure)
      → graphs.node_weight g i ≡ some n
      → Returns (λ (_, ctx'). ctx'.scheduler ≡ ctx.scheduler) (Graph.cycle graphs B.run g ctx i)
  unfolding Graph.cycle cycle_node
  cycle-quiet quiet g ctx i n e = elim (Bool-cases n.poisoned) [
    | inl p ↦ rw (e, Graph.cycle, p) (returns _ refl)
    | inr p ↦ rw (e, Graph.cycle, p) (quiet n.cycle_fn ctx)
  ]

  -- Every node that was run is in the graph, so the nodes bound their number.
  pub seen_bounded :
      (epoch : ℕ) (seen : List ℕ) (g : graphs.Carrier)
      → AllDistinct seen
      → All (Marked graphs epoch g) seen
      → length seen ≤ graphs.node_count g
  seen_bounded epoch seen g d m =
      graphs.node_count-bounds g seen d
        (All-map seen (λ i a gone. let e : some a.node ≡ none = sym a.found ∙ gone in cc) m)

  pub HasReached-Keeps :
      {epoch : ℕ} {g h : graphs.Carrier} (x : Turn)
      → Keeps graphs epoch g h
      → (x.answer ≡ Control.broadcast
          → All (Marked graphs epoch g) (triggering_edges graphs g x.node))
      → HasReached epoch h x
  HasReached-Keeps x k r b =
      rw (triggering_edges-Keeps graphs x.node k) (All-map _ (λ j. Marked-Keeps graphs k j) (r b))

  pub Rises-le : (d e : ℕ) (l : List Turn) → d ≤ e → Rises e l → Rises d l
  Rises-le d e [] h r = tt
  Rises-le d e (x ∷ l) h r = (omega arith, r.1)

  Fresh-tail :
      (i : ℕ) (seen l : List ℕ)
      → All (λ j. Fresh j (i ∷ seen)) l
      → Fresh i l × All (λ j. Fresh j seen) l
  Fresh-tail i seen [] h = (tt, tt)
  Fresh-tail i seen (j ∷ l) h =
      let (f, a) = Fresh-tail i seen l h.1 in (((λ e. h.0.0 (sym e)), f), (h.0.1, a))

  module _ (epoch : ℕ) (seen : List ℕ) (w w' : Work K) (s : Scheduler) (i : ℕ) (c : Control)
      (ctx : ExecutionContext K) (takes : pop w.context.scheduler ≡ (some i, s))
      (deeper : w.context.scheduler.curr_depth ≤ s.curr_depth) (took : Took epoch seen w.graph i s)
      (answers : Graph.cycle graphs B.run w.graph (set_current K i (popped K B w s).context) i
        ≡ ret (c, ctx))
      (same_sched : ctx.scheduler ≡ s) where
    abbrev pub this : Turn
    this = record { node = i; depth = s.curr_depth; answer = c }

    pub stop-Ran :
        handle K epoch c i (record w { context = ctx }) ≡ ret (terminated, w')
        → Handled K epoch (i ∷ seen) (record w { context = ctx }) i c (terminated, w')
        → Ran epoch seen w (terminated, w')
    stop-Ran e h = record {
      turns = this ∷ [];
      runs = stop w w' s i c ctx takes answers e;
      rises = (deeper, tt);
      distinct = (tt, tt);
      unseen = (took.fresh, tt);
      keeps = h.keeps;
      reached = ((λ b. rw (triggering_edges-Keeps graphs i h.keeps) (h.reached b)), tt);
      accounted = λ no_run. cc;
      settled = λ no_run. cc;
    }

    pub step-Ran :
        (out : ExecutorState × Work K)
        → handle K epoch c i (record w { context = ctx }) ≡ ret (running, w')
        → Handled K epoch (i ∷ seen) (record w { context = ctx }) i c (running, w')
        → Ran epoch (i ∷ seen) w' out
        → Ran epoch seen w out
    step-Ran out e h r =
        let (apart, others) = Fresh-tail i seen (nodes r.turns) r.unseen in
        record {
          turns = this ∷ r.turns;
          runs = step w w' s i c ctx r.turns out takes answers e r.runs;
          rises = (
            deeper,
            Rises-le s.curr_depth w'.context.scheduler.curr_depth r.turns
                (omega (arith, h.same_depth, ap (λ x. x.curr_depth) same_sched)) r.rises,
          );
          distinct = (apart, r.distinct);
          unseen = (took.fresh, others);
          keeps = Keeps-trans graphs h.keeps r.keeps;
          reached = (
            HasReached-Keeps this r.keeps
                (λ b. rw (triggering_edges-Keeps graphs i h.keeps) (h.reached b)),
            r.reached,
          );
          accounted = λ runs_on j a. elim (r.accounted runs_on j a) [
            | inl (inl same) ↦ inr (inl same)
            | inl (inr before) ↦ inl before
            | inr after ↦ inr (inr after)
          ];
          settled = r.settled;
        }
