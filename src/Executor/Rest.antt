-- ===== src/Executor/Rest.antt =====
-- An executor between two cycles (wavelet/src/runtime/executor.rs), and that a cycle leaves it so.
use wavelet_rs.Prelude.{
  ℕ, zero, suc, ◌+◌, ◌%◌, ◌≡◌, ◌≤◌, ◌<◌, refl, sym, ◌∙◌, subst, inl, inr, List, [], ◌∷◌, Option,
  some, ret, ok, err, All, Returns, returns, Returns-bind, Returns-map, Returns-bind_eq,
  Returns-ret, arith, usize_mod, length,
}
use native.Mathlib.Nat.{mod-eq_of_lt}
use wavelet_rs.Graph.{NodeContext}
use wavelet_rs.Scheduler.Order.{IsValid, contents}
use wavelet_rs.Scheduling.Offers.{Enabled}
use wavelet_rs.Scheduling.Entries.{Distinct}
use wavelet_rs.Scheduling.Keeps.{Queued, Keeps}
use wavelet_rs.Scheduling.Ready.{Ready}
use wavelet_rs.EventDriver.Polling.{AnswersKnown}
use wavelet_rs.EventDriver.Sources.{HasSorted}
use wavelet_rs.Clock.{Clock}
use wavelet_rs.Platform.{Platform}
use wavelet_rs.Executor.{running, terminated, Executor, Closures}
use wavelet_rs.Executor.Cycle.{Cycled, with_work, finish, cycle, spawn_loop}
use wavelet_rs.Executor.Wiring.{IsWired}
use wavelet_rs.Executor.Propagation.{IsQuiet}
use wavelet_rs.Executor.Sweeping.{OnlyMarks, sweep_loop-Sweeps}
use wavelet_rs.Executor.Whole.{
  AtRest, Completes, Cycles, poll_failed, polled, SpawnsReturn, cycle-Cycles,
}

module _ (K : Platform) where
  open K use {graphs, mio, slab, queue, Time, Closure, Spawn}

  -- No node was marked after the epoch `b`.
  abbrev pub IsStamped : ℕ → graphs.Carrier → Type 0
  IsStamped b g =
      (i : ℕ) (n : NodeContext Closure) → graphs.node_weight g i ≡ some n → n.sched_epoch ≤ b

  pub record Resting (e : Executor K) : Type 0 where
    pub valid : IsValid e.scheduler
    pub top : e.scheduler.curr_depth ≡ 0
    pub empty : contents e.scheduler ≡ []
    pub enabled : Enabled graphs e.graph e.scheduler
    pub stamped : IsStamped e.epoch e.graph
    pub wired : IsWired graphs e.graph
    pub no_buffer : e.edge_buffer ≡ []

  -- At a new epoch no node is marked, so that the scheduler is ready.
  Resting-Ready :
      (e : Executor K) (epoch : ℕ)
      → Resting e
      → e.epoch < epoch
      → Ready graphs epoch [] e.graph e.scheduler
  Resting-Ready e epoch r h = record {
    valid = r.valid;
    enabled = r.enabled;
    queued = subst (All (Queued graphs epoch e.graph)) (sym r.empty) tt;
    distinct = subst Distinct (sym r.empty) tt;
    unseen = subst (All _) (sym r.empty) tt;
    seen_marked = tt;
    seen_distinct = tt;
    accounted = λ i a. absurd (omega (arith, r.stamped i a.node a.found, a.stamped));
  }

  IsStamped-Keeps :
      (epoch b : ℕ) (g h : graphs.Carrier)
      → epoch ≤ b
      → Keeps graphs epoch g h
      → IsStamped b g
      → IsStamped b h
  IsStamped-Keeps epoch b g h le k s i m e = elim (k.stamps i m e) [
    | inl new ↦ omega (arith, new)
    | inr (n, en, same) ↦ omega (arith, s i n en, same)
  ]

  module _ (B : Closures K) where
    -- A deferred function leaves an executor that is at rest at rest, in the same epoch.
    abbrev pub SpawnsKeep : Type 0
    SpawnsKeep =
        (f : Spawn) (e e' : Executor K)
        → B.spawn f e ≡ ret e'
        → Resting e
        → Resting e' × (e'.epoch ≡ e.epoch)

    spawn_loop-Resting :
        SpawnsReturn K B
        → SpawnsKeep
        → (fuel : ℕ) (e : Executor K) (l : List Spawn) → e.deferred_spawns ≡ l
        → length l ≤ fuel
        → Resting e
        → Returns (λ e'. Resting e' × (e'.epoch ≡ e.epoch)) (spawn_loop K B fuel e)
    unfolding spawn_loop
    spawn_loop-Resting r k zero e [] same h q = rw (spawn_loop, same) (returns e (q, refl))
    spawn_loop-Resting r k (suc fuel) e [] same h q = rw (spawn_loop, same) (returns e (q, refl))
    spawn_loop-Resting r k zero e (f ∷ l) same h q = absurd (omega arith)
    spawn_loop-Resting r k (suc fuel) e (f ∷ l) same h q =
        let e₁ : Executor K = record e { deferred_spawns = l } in
        let q₁ : Resting e₁ = record {
          valid = q.valid;
          top = q.top;
          empty = q.empty;
          enabled = q.enabled;
          stamped = q.stamped;
          wired = q.wired;
          no_buffer = q.no_buffer;
        } in
        rw (spawn_loop, same)
          (Returns-bind_eq _ (r f e₁) λ e' eq kept.
            let (q', epoch) = k f e₁ e' eq q₁ in
            Returns-map (λ e'' (q'', epoch'). (q'', epoch' ∙ epoch))
              (spawn_loop-Resting r k fuel e' l kept (omega arith) q'))

    pub finish-Resting :
        SpawnsReturn K B
        → SpawnsKeep
        → OnlyMarks K B
        → (fuel : ℕ) (e : Executor K) → Resting e
        → Returns (λ e'. Resting e' × (e'.epoch ≡ e.epoch)) (finish K B fuel e)
    unfolding finish
    finish-Resting r k m fuel e q =
        Returns-bind _
          (sweep_loop-Sweeps K B m (graphs.node_count e.graph) e.gc.removal_queue
            (record { graph = e.graph; event_driver = e.event_driver; store = e.store })
            (omega arith))
          λ x s.
            spawn_loop-Resting r k (fuel + length e.deferred_spawns) _ e.deferred_spawns refl
              (omega arith)
              (record {
                valid = q.valid;
                top = q.top;
                empty = q.empty;
                enabled = λ i n en. q.enabled i n (s.kept i n en);
                stamped = λ i n en. q.stamped i n (s.kept i n en);
                wired = s.wired q.wired;
                no_buffer = q.no_buffer;
              })

    module _ {C : Type 0} (clock : Clock Time C) where
      -- Short of a wrap of the epoch, an executor between two cycles is at rest for the next one.
      pub Resting-AtRest :
          (e : Executor K)
          → Resting e
          → e.epoch + 1 < usize_mod
          → HasSorted e.event_driver.timer_driver
          → AnswersKnown graphs queue mio slab e.event_driver.io_driver
          → AtRest K B clock
              ((e.epoch + 1) % usize_mod)
              (record e { epoch = (e.epoch + 1) % usize_mod })
      Resting-AtRest e r h sorted known =
          let next : (e.epoch + 1) % usize_mod ≡ e.epoch + 1 = mod-eq_of_lt h in
          record {
            top = record { ready = Resting-Ready e _ r (omega (arith, next)); top = r.top };
            wired = r.wired;
            no_buffer = r.no_buffer;
            sorted = sorted;
            known = known;
          }

      -- The executor behind a node loop that has come to its end.
      Settled-Resting :
          (epoch fuel : ℕ) (e : Executor K) (c : C) (timeout : Option ℕ) (r : Executor K × C)
          (p : Completes K B clock epoch fuel e c timeout running r)
          → e.epoch ≡ epoch
          → IsStamped epoch e.graph
          → Resting (with_work K B e p.end)
      Settled-Resting epoch fuel e c timeout r p same s =
          let l = p.loop in
          let q = l.settled refl in
          record {
            valid = q.valid;
            top = q.top;
            empty = q.empty;
            enabled = q.enabled;
            stamped =
                subst (λ b. IsStamped b (p.end).graph) (sym same)
                  (IsStamped-Keeps epoch epoch (p.st).0 (p.end).graph (omega arith) l.keeps
                    (IsStamped-Keeps epoch epoch e.graph (p.st).0 (omega arith) p.same_nodes s));
            wired = q.wired;
            no_buffer = q.no_buffer;
          }

      -- A cycle that goes on leaves an executor that rests in the cycle's epoch.
      pub Completes-Resting :
          SpawnsReturn K B
          → SpawnsKeep
          → OnlyMarks K B
          → (epoch fuel : ℕ) (e : Executor K) (c : C) (timeout : Option ℕ) (r : Executor K × C)
          → e.epoch ≡ epoch
          → IsStamped epoch e.graph
          → Completes K B clock epoch fuel e c timeout running r
          → Resting r.0 × (r.0.epoch ≡ epoch)
      Completes-Resting r k m epoch fuel e c timeout out same s p =
          let (q, kept) =
            Returns-ret out.0
              (finish-Resting r k m fuel (with_work K B e p.end)
                (Settled-Resting epoch fuel e c timeout out p same s))
              (p.finished refl) in
          (q, kept ∙ same)

      -- What a cycle leaves.
      pub data Leaves (epoch : ℕ) : Cycled K B clock → Type 0 where
        no_poll : (x : mio.IoError) (r : Executor K × C) → Leaves epoch (err x, r)
        at_end : (r : Executor K × C) → Leaves epoch (ok terminated, r)
        at_rest :
            (r : Executor K × C) → Resting r.0 → r.0.epoch ≡ epoch → Leaves epoch (ok running, r)

      Cycles-Leaves :
          SpawnsReturn K B
          → SpawnsKeep
          → OnlyMarks K B
          → (epoch fuel : ℕ) (e : Executor K) (c : C) (timeout : Option ℕ) (out : Cycled K B clock)
          → e.epoch ≡ epoch
          → IsStamped epoch e.graph
          → Cycles K B clock epoch fuel e c timeout out
          → Leaves epoch out
      Cycles-Leaves r k m epoch fuel e c timeout _ same s (poll_failed x d st out _) = no_poll x out
      Cycles-Leaves r k m epoch fuel e c timeout _ same s (polled terminated out p) = at_end out
      Cycles-Leaves r k m epoch fuel e c timeout _ same s (polled running out p) =
          let (q, kept) = Completes-Resting r k m epoch fuel e c timeout out same s p in
          at_rest out q kept

      -- Take an executor between two cycles: the scheduler is valid, empty and at depth zero, with a
      -- queue for the depth of every node; no node is marked with a later epoch; edges lead to
      -- deeper nodes; the edge buffer is empty. Let the epoch be short of its wrap, the timers in
      -- the order of their keys, and let mio answer only with known tokens. Let closures return
      -- without touching the scheduler, drops only mark nodes, and deferred functions return, defer
      -- nothing and keep such a state. Then a cycle, with more fuel than there are nodes, returns,
      -- and unless polling fails or a node terminates it, it leaves such a state in the next epoch.
      pub cycle-Leaves :
          IsQuiet K B
          → OnlyMarks K B
          → SpawnsReturn K B
          → SpawnsKeep
          → (fuel : ℕ) (e : Executor K) (c : C) (timeout : Option ℕ) → Resting e
          → e.epoch + 1 < usize_mod
          → HasSorted e.event_driver.timer_driver
          → AnswersKnown graphs queue mio slab e.event_driver.io_driver
          → graphs.node_count e.graph < fuel
          → Returns (Leaves (e.epoch + 1)) (cycle K B clock fuel e c timeout)
      cycle-Leaves quiet m r k fuel e c timeout q h sorted known b =
          let next : (e.epoch + 1) % usize_mod ≡ e.epoch + 1 = mod-eq_of_lt h in
          let e₁ : Executor K = record e { epoch = (e.epoch + 1) % usize_mod } in
          Returns-map
            (λ out p.
              Cycles-Leaves r k m (e.epoch + 1) fuel e₁ c timeout out next
                (λ i n en. (let s = q.stamped i n en in omega (arith, s)))
                (subst (λ t. Cycles K B clock t fuel e₁ c timeout out) next p))
            (cycle-Cycles K B clock quiet m r fuel e c timeout (Resting-AtRest e q h sorted known)
              b)
