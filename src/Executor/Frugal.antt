-- ===== src/Executor/Frugal.antt =====
-- Closures of wavelet/src/runtime/executor.rs that schedule nodes themselves, by
-- `ExecutionContext::schedule_node`, within a budget that the node's weight pays.
use wavelet_rs.Prelude.{
  ℕ, ap, subst, ◌+◌, ◌<◌, ◌≤◌, ◌≡◌, refl, sym, ◌∙◌, inl, inr, List, ◌∷◌, some, arith, All, Returns,
  returns, Returns-bind, length, Bool-cases, eq_of_some, Call, Result, ok,
}
use wavelet_rs.Graph.{NodeContext, edges, cycle_node}
use wavelet_rs.Graph
use wavelet_rs.Scheduler.{Scheduler, SchedulerError}
use wavelet_rs.Scheduler.Contents.{Entry}
use wavelet_rs.Scheduler.Order.{
  IsValid, contents, Schedules, refused, out_of_bounds, queued, schedule-Schedules,
}
use wavelet_rs.Scheduling.Entries.{All-map, All-insert, Waits, Waits-insert}
use wavelet_rs.Scheduling.Keeps.{Keeps}
use wavelet_rs.Scheduling.Offers.{Enabled}
use wavelet_rs.Scheduling.Loads.{load, waiting, waiting-insert, Placed, Placed-Keeps, Loaded}
use wavelet_rs.Platform.{Platform}
use wavelet_rs.Executor.{ExecutionContext, Closures}
use wavelet_rs.Executor.Context.{schedule_node}

module _ (K : Platform) (B : Closures K) (weight own : ℕ → ℕ) where
  open K use {graphs}

  -- What the closure of node `i` may do to the scheduler: let more nodes wait, each at the depth of
  -- the node, of no more weight than the node's own budget.
  pub record Adds (g : graphs.Carrier) (i : ℕ) (s t : Scheduler) : Type 0 where
    pub valid : IsValid t
    pub same_depth : t.curr_depth ≡ s.curr_depth
    pub same_length : length t.multi_queue ≡ length s.multi_queue
    pub all_placed : All (Placed graphs weight g) (contents t)
    pub still_waits : (j : ℕ) → Waits j (contents s) → Waits j (contents t)
    pub spent : waiting weight (contents t) ≤ waiting weight (contents s) + own i

  -- Run in its turn, every closure returns and stays within its budget.
  abbrev pub IsFrugal : graphs.Carrier → Type 0
  IsFrugal g =
      (i : ℕ) (n : NodeContext K.Closure) (ctx : ExecutionContext K)
      → graphs.node_weight g i ≡ some n
      → ctx.current ≡ i
      → n.depth ≡ ctx.scheduler.curr_depth
      → IsValid ctx.scheduler
      → Enabled graphs g ctx.scheduler
      → All (Placed graphs weight g) (contents ctx.scheduler)
      → Returns (λ (_, ctx'). Adds g i ctx.scheduler ctx'.scheduler) (B.run n.cycle_fn ctx)

  -- The weight of a node is more than its budget and its children together.
  abbrev pub HasBudget : graphs.Carrier → Type 0
  HasBudget g =
      (i : ℕ) (n : NodeContext K.Closure)
      → graphs.node_weight g i ≡ some n
      → own i + load weight (edges graphs g i) < weight i

  pub Adds-none :
      (g : graphs.Carrier) (i : ℕ) (s : Scheduler)
      → IsValid s
      → All (Placed graphs weight g) (contents s)
      → Adds g i s s
  Adds-none g i s v a = record {
    valid = v;
    same_depth = refl;
    same_length = refl;
    all_placed = a;
    still_waits = λ j h. h;
    spent = omega arith;
  }

  -- The same node before steps that change marks and poison only.
  Placed-before :
      {epoch : ℕ} {g h : graphs.Carrier} (x : ℕ × ℕ)
      → Keeps graphs epoch g h
      → Placed graphs weight h x
      → Placed graphs weight g x
  Placed-before x k a =
      let (n, e, d) = k.backward x.1 a.node a.found in
      record { node = n; found = e; placed_at = sym d ∙ a.placed_at }

  Enabled-before :
      {epoch : ℕ} {g h : graphs.Carrier} (s : Scheduler)
      → Keeps graphs epoch g h
      → Enabled graphs h s
      → Enabled graphs g s
  Enabled-before s k en i n e =
      let (m, em, d, _, _) = k.forward i n e in omega (arith, en i m em, d)

  pub HasBudget-Keeps :
      {epoch : ℕ} {g h : graphs.Carrier} → Keeps graphs epoch g h → HasBudget g → HasBudget h
  unfolding edges
  HasBudget-Keeps k b i m e = let (n, en, _) = k.backward i m e in rw (k.same_edges i) (b i n en)

  pub Loaded-Adds :
      (epoch : ℕ) (seen : List ℕ) (first g : graphs.Carrier) (i : ℕ) (s t : Scheduler)
      → Keeps graphs epoch first g
      → Loaded graphs weight epoch seen g s
      → Adds first i s t
      → Loaded graphs weight epoch seen g t
  Loaded-Adds epoch seen first g i s t k l a = record {
    valid = a.valid;
    enabled = λ j n e. omega (arith, l.enabled j n e, a.same_length);
    all_placed = All-map (contents t) (Placed-Keeps graphs weight k) a.all_placed;
    accounted = λ j m. elim (l.accounted j m) [
      | inl done ↦ inl done
      | inr waits ↦ inr (a.still_waits j waits)
    ];
  }

  -- A node that has been taken: it is in the graph at the depth that is now current.
  pub record Takes (epoch : ℕ) (seen : List ℕ) (g : graphs.Carrier) (i : ℕ) (s : Scheduler)
      : Type 0 where
    pub node : NodeContext K.Closure
    pub found : graphs.node_weight g i ≡ some node
    pub here : node.depth ≡ s.curr_depth
    pub loaded : Loaded graphs weight epoch (i ∷ seen) g s

  pub Takes-pop :
      (epoch : ℕ) (seen : List ℕ) (g : graphs.Carrier) (s t : Scheduler) (i : ℕ)
      → Loaded graphs weight epoch seen g s
      → contents s ≡ (t.curr_depth, i) ∷ contents t
      → length t.multi_queue ≡ length s.multi_queue
      → IsValid t
      → Takes epoch seen g i t
  Takes-pop epoch seen g s t i r c l v =
      let q = subst (All (Placed graphs weight g)) c r.all_placed in
      record {
        node = q.0.node;
        found = q.0.found;
        here = q.0.placed_at;
        loaded = record {
          valid = v;
          enabled = λ j n e. omega (arith, r.enabled j n e);
          all_placed = q.1;
          accounted = λ j a. elim (r.accounted j a) [
            | inl done ↦ inl (inr done)
            | inr waits ↦ elim (subst (Waits j) c waits) [
              | inl same ↦ inl (inl same)
              | inr still ↦ inr still
            ]
          ];
        };
      }

  -- The turn of a node: a poisoned one is not run, and any other stays within its budget.
  pub cycle-Adds :
      (epoch : ℕ) (seen : List ℕ) (first g : graphs.Carrier) (ctx : ExecutionContext K) (i : ℕ)
      → IsFrugal first
      → Keeps graphs epoch first g
      → ctx.current ≡ i
      → Takes epoch seen g i ctx.scheduler
      → Returns
          (λ (_, ctx'). Adds first i ctx.scheduler ctx'.scheduler)
          (Graph.cycle graphs B.run g ctx i)
  unfolding Graph.cycle cycle_node
  cycle-Adds epoch seen first g ctx i frugal k at took =
      let placed =
        All-map (contents ctx.scheduler) (λ x. Placed-before x k) took.loaded.all_placed in
      let (n, en, dn) = k.backward i took.node took.found in
      let (m, em, _, cm, _) = k.forward i n en in
      let same : m ≡ took.node = eq_of_some (sym em ∙ took.found) in
      let code : took.node.cycle_fn ≡ n.cycle_fn = ap (λ x. x.cycle_fn) (sym same) ∙ cm in
      elim (Bool-cases took.node.poisoned) [
        | inl p ↦
            rw (took.found, Graph.cycle, p)
              (returns _ (Adds-none first i ctx.scheduler took.loaded.valid placed))
        | inr p ↦
            rw (took.found, Graph.cycle, p, code)
              (frugal i n ctx en at (sym dn ∙ took.here) took.loaded.valid
                (Enabled-before ctx.scheduler k took.loaded.enabled) placed)
      ]

  Schedules-Adds :
      (g : graphs.Carrier) (i j : ℕ) (m : NodeContext K.Closure) (ctx : ExecutionContext K)
      {r : Call (Result Scheduler SchedulerError)}
      → graphs.node_weight g j ≡ some m
      → ctx.scheduler.curr_depth ≤ m.depth
      → Enabled graphs g ctx.scheduler
      → All (Placed graphs weight g) (contents ctx.scheduler)
      → weight j ≤ own i
      → Schedules ctx.scheduler j m.depth r
      → Returns (λ r. (t : Scheduler) × (r ≡ ok t) × Adds g i ctx.scheduler t) r
  Schedules-Adds g i j m ctx e low en a less (refused x above) = absurd (omega (arith, above))
  Schedules-Adds g i j m ctx e low en a less (out_of_bounds _ out) =
      absurd (omega (arith, en j m e))
  Schedules-Adds g i j m ctx e low en a less (queued t _ _ c d l v) =
      let x : Entry = (m.depth, j) in
      returns _ (
        t,
        refl,
        record {
          valid = v;
          same_depth = d;
          same_length = l;
          all_placed = rw c (
              All-insert (Placed graphs weight g) x (contents ctx.scheduler)
                (record { node = m; found = e; placed_at = refl }) a);
          still_waits = λ k h. rw c (Waits-insert k x (contents ctx.scheduler) h);
          spent =
              (let sum = ap (waiting weight) c ∙ waiting-insert weight x (contents ctx.scheduler) in
                omega (arith, sum));
        },
      )

  -- Scheduling a node of the graph that is not above the current depth succeeds, within the budget
  -- of a node that pays for it.
  pub schedule_node-Adds :
      (g : graphs.Carrier) (i j : ℕ) (m : NodeContext K.Closure) (ctx : ExecutionContext K)
      → graphs.node_weight g j ≡ some m
      → ctx.scheduler.curr_depth ≤ m.depth
      → IsValid ctx.scheduler
      → Enabled graphs g ctx.scheduler
      → All (Placed graphs weight g) (contents ctx.scheduler)
      → weight j ≤ own i
      → Returns
          (λ (answer, ctx'). (answer ≡ ok tt) × Adds g i ctx.scheduler ctx'.scheduler)
          (schedule_node K j m.depth ctx)
  unfolding schedule_node
  schedule_node-Adds g i j m ctx e low v en a less =
      Returns-bind _
        (Schedules-Adds g i j m ctx e low en a less (schedule-Schedules ctx.scheduler j m.depth v))
        λ r (t, at, adds). rw at (returns _ (refl, adds))
