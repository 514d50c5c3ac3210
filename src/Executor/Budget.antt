-- ===== src/Executor/Budget.antt =====
-- The node loop of wavelet/src/runtime/executor.rs with closures that schedule nodes themselves:
-- it ends, within the weight of what waits, and nothing that was scheduled is left out.
use wavelet_rs.Prelude.{
  ℕ, ap, subst, ◌+◌, ◌<◌, ◌≤◌, ◌≡◌, ◌∙◌, ◌⊎◌, inl, inr, List, [], ◌∷◌, none, some, ret, arith, All,
  length,
}
use wavelet_rs.Control.{Control}
use wavelet_rs.Graph.{triggering_edges, edges}
use wavelet_rs.Graph
use wavelet_rs.Scheduler.{Scheduler, pop}
use wavelet_rs.Scheduler.Order.{IsValid, contents}
use wavelet_rs.Scheduling.Entries.{In, Waits}
use wavelet_rs.Scheduling.Keeps.{Keeps, Keeps-refl, Keeps-trans, Marked}
use wavelet_rs.Scheduling.Loads.{load, waiting}
use wavelet_rs.Platform.{Platform}
use wavelet_rs.Executor.{ExecutorState, running, terminated, ExecutionContext, Closures}
use wavelet_rs.Executor.Context.{set_current}
use wavelet_rs.Executor.Cycle.{Work, handle, popped}
use wavelet_rs.Executor.Wiring.{triggering_edges-Keeps}
use wavelet_rs.Executor.Propagation.{
  Turn, nodes, Rises, Runs, idle, stop, step, HasReached, HasReached-Keeps, Rises-le, Settled,
}
use wavelet_rs.Executor.Answers.{Carrying, Answered}
use wavelet_rs.Executor.Frugal.{Adds}

module _ (K : Platform) (B : Closures K) (weight own : ℕ → ℕ) where
  open K use {graphs}

  abbrev pub waiting_in : Work K → ℕ
  waiting_in w = waiting weight (contents w.context.scheduler)

  pub record Ends (epoch : ℕ) (seen : List ℕ) (w : Work K) (out : ExecutorState × Work K)
      : Type 0 where
    pub turns : List Turn
    pub runs : Runs K B epoch w turns out
    pub rises : Rises w.context.scheduler.curr_depth turns
    pub bound : length turns ≤ waiting_in w
    pub keeps : Keeps graphs epoch w.graph out.1.graph
    pub reached : All (HasReached K B epoch out.1.graph) turns
    pub accounted :
        out.0 ≡ running
        → (i : ℕ) → Marked graphs epoch out.1.graph i
        → In i seen ⊎ In i (nodes turns)
    pub all_waiting :
        out.0 ≡ running → (i : ℕ) → Waits i (contents w.context.scheduler) → In i (nodes turns)
    pub settled : out.0 ≡ running → Settled K B out.1

  pub idle-Ends :
      (epoch : ℕ) (seen : List ℕ) (w : Work K) (s : Scheduler)
      → Carrying K weight epoch seen w
      → pop w.context.scheduler ≡ (none, s)
      → contents w.context.scheduler ≡ []
      → s ≡ record (w.context.scheduler) { curr_depth = 0 }
      → IsValid s
      → Ends epoch seen w (running, popped K B w s)
  idle-Ends epoch seen w s l e c same v = record {
    turns = [];
    runs = idle w s e;
    rises = tt;
    bound = omega arith;
    keeps = Keeps-refl graphs epoch w.graph;
    reached = tt;
    accounted = λ _ i a. elim (l.loaded.accounted i a) [
      | inl done ↦ inl done
      | inr waits ↦ absurd (rw c at waits)
    ];
    all_waiting = λ _ i waits. absurd (rw c at waits);
    settled = λ _. record {
      valid = v;
      top = ap (λ t. t.curr_depth) same;
      empty = ap contents same ∙ c;
      enabled = λ i n en.
          let q = ap (λ t. length t.multi_queue) same in omega (arith, l.loaded.enabled i n en, q);
      wired = l.wired;
      no_buffer = l.no_buffer;
    };
  }

  -- A turn: the node is taken, its closure stays within its budget, and the answer is handled.
  module _ (epoch : ℕ) (seen : List ℕ) (w w' : Work K) (s : Scheduler) (i : ℕ) (c : Control)
      (ctx : ExecutionContext K) (takes : pop w.context.scheduler ≡ (some i, s))
      (front : contents w.context.scheduler ≡ (s.curr_depth, i) ∷ contents s)
      (deeper : w.context.scheduler.curr_depth ≤ s.curr_depth)
      (budget : own i + load weight (edges graphs w.graph i) < weight i)
      (answers : Graph.cycle graphs B.run w.graph (set_current K i (popped K B w s).context) i
        ≡ ret (c, ctx))
      (first : graphs.Carrier) (adds : Adds K B weight own first i s ctx.scheduler) where
    abbrev this : Turn
    this = record { node = i; depth = s.curr_depth; answer = c }

    -- What waits has become less.
    pub falls :
        (out : ExecutorState × Work K)
        → Answered K weight epoch (i ∷ seen) (record w { context = ctx }) i c out
        → waiting_in out.1 < waiting_in w
    falls out h =
        let before : waiting_in w ≡ weight i + waiting weight (contents s) =
          ap (waiting weight) front in
        omega (arith, before, adds.spent, h.spent, budget)

    pub stop-Ends :
        handle K epoch c i (record w { context = ctx }) ≡ ret (terminated, w')
        → Answered K weight epoch (i ∷ seen) (record w { context = ctx }) i c (terminated, w')
        → Ends epoch seen w (terminated, w')
    stop-Ends e h = record {
      turns = this ∷ [];
      runs = stop w w' s i c ctx takes answers e;
      rises = (deeper, tt);
      bound = omega (arith, falls (terminated, w') h);
      keeps = h.keeps;
      reached = ((λ b. rw (triggering_edges-Keeps graphs i h.keeps) (h.reached b)), tt);
      accounted = λ no_run. cc;
      all_waiting = λ no_run. cc;
      settled = λ no_run. cc;
    }

    pub step-Ends :
        (out : ExecutorState × Work K)
        → handle K epoch c i (record w { context = ctx }) ≡ ret (running, w')
        → Answered K weight epoch (i ∷ seen) (record w { context = ctx }) i c (running, w')
        → Ends epoch (i ∷ seen) w' out
        → Ends epoch seen w out
    step-Ends out e h r = record {
      turns = this ∷ r.turns;
      runs = step w w' s i c ctx r.turns out takes answers e r.runs;
      rises = (
        deeper,
        Rises-le K B s.curr_depth w'.context.scheduler.curr_depth r.turns
            (omega (arith, h.same_depth, adds.same_depth)) r.rises,
      );
      bound = omega (arith, r.bound, falls (running, w') h);
      keeps = Keeps-trans graphs h.keeps r.keeps;
      reached = (
        HasReached-Keeps K B this r.keeps
            (λ b. rw (triggering_edges-Keeps graphs i h.keeps) (h.reached b)),
        r.reached,
      );
      accounted = λ runs_on j a. elim (r.accounted runs_on j a) [
        | inl (inl same) ↦ inr (inl same)
        | inl (inr before) ↦ inl before
        | inr after ↦ inr (inr after)
      ];
      all_waiting = λ runs_on j waits. elim (subst (Waits j) front waits) [
        | inl same ↦ inl same
        | inr still ↦ inr (r.all_waiting runs_on j (h.still_waits j (adds.still_waits j still)))
      ];
      settled = r.settled;
    }
