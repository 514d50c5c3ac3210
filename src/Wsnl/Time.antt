-- ===== src/Wsnl/Time.antt =====
-- wavelet/src/wsnl/time.rs: the node that is meant to broadcast at fixed intervals.
use wavelet_rs.Prelude.{
  ℕ, ◌+◌, ◌≡◌, refl, Option, none, some, Call, ret, ◌>>=◌, List, [], ◌∷◌, Returns, returns,
  Returns-bind, ◌≢◌, inl, inr, Option-cases, All, ◌++◌,
}
use wavelet_rs.Control.{Control}
use wavelet_rs.Clock.{now}
use wavelet_rs.EventDriver.Timer.{TimerSource}
use wavelet_rs.Platform.{Platform}
use wavelet_rs.Executor.{ExecutionContext, Executor}
use wavelet_rs.Node.{NodeInner, uninitialized, build_depth}
use wavelet_rs.Node.Building.{attach-Built}
use wavelet_rs.Executor.Wiring.{IsWired}
use wavelet_rs.EventDriver.Yield.{yield_now}
use wavelet_rs.Graph.{new_node}
use wavelet_rs.Node.Builder.{NodeBuilder}
use wavelet_rs.Node.Builder
use wavelet_rs.Wsnl.Bootstrap.{yield_first}
use wavelet_rs.Executor.Context.{register_timer}

module _ (K : Platform) where
  -- Only a node that has a source keeps the new one.
  unfoldable pub periodic_cycle :
      ℕ
      → Option TimerSource
      → ExecutionContext K
      → Call (Control × (Option TimerSource × ExecutionContext K))
  periodic_cycle duration this ctx =
      register_timer K ctx.current (now ctx.cycle_time + duration) ctx >>= λ (source, ctx').
      elim this [
        | some old ↦ ret (Control.broadcast, (some source, ctx'))
        | none ↦ ret (Control.unchanged, (none, ctx'))
      ]

  -- The data that the builder gives to the node.
  abbrev pub periodic_data : Option TimerSource
  periodic_data = none

  -- `close` gives the closure around the cycle function.
  unfoldable pub periodic_trigger_node :
      ((Option TimerSource
          → ExecutionContext K
          → Call (Control × (Option TimerSource × ExecutionContext K)))
        → K.Closure)
      → ℕ
      → Executor K
      → Call (NodeInner (Option TimerSource) × Executor K)
  unfolding periodic_cycle
  periodic_trigger_node close duration executor =
      let b : NodeBuilder K (Option TimerSource) (Unit {0}) = Builder.new periodic_data in
      Builder.on_init b yield_first >>= λ b'.
      Builder.build (close (periodic_cycle duration)) b' executor

  -- What the node answers and keeps in a sequence of cycles, each with the context it is run in.
  abbrev pub periodic_runs :
      ℕ → Option TimerSource → List (ExecutionContext K) → Call (List Control × Option TimerSource)
  periodic_runs duration this [] = ret ([], this)
  periodic_runs duration this (ctx ∷ rest) =
      periodic_cycle duration this ctx >>= λ (control, (this', ctx')).
      periodic_runs duration this' rest >>= λ (more, last). ret (control ∷ more, last)

  abbrev pub HasTimers : ExecutionContext K → Type 0
  HasTimers ctx = ctx.event_driver.timer_driver ≢ none

  one_cycle :
      (duration : ℕ) (ctx : ExecutionContext K)
      → HasTimers ctx
      → Returns
          (λ (control, (this, _)). (control ≡ Control.unchanged) × (this ≡ none))
          (periodic_cycle duration none ctx)
  unfolding periodic_cycle register_timer
  one_cycle duration ctx h = elim (Option-cases ctx.event_driver.timer_driver) [
    | inl no_timers ↦ absurd (h no_timers)
    | inr (t, e) ↦ rw (periodic_cycle, register_timer, e) (returns _ (refl, refl))
  ]

  abbrev pub IsSilent : List Control × Option TimerSource → Type 0
  IsSilent (controls, last) = All (λ c. c ≡ Control.unchanged) controls × (last ≡ none)

  -- Where timers are enabled, a node with the data that the builder gives to it never broadcasts,
  -- however many cycles it is run in, and its data stays empty.
  pub periodic_runs_unchanged :
      (duration : ℕ) (ctxs : List (ExecutionContext K))
      → All HasTimers ctxs
      → Returns IsSilent (periodic_runs duration periodic_data ctxs)
  periodic_runs_unchanged duration [] h = returns _ (tt, refl)
  periodic_runs_unchanged duration (ctx ∷ ctxs) (h, others) =
      Returns-bind _ (one_cycle duration ctx h) λ out (same, empty).
        let rest : Returns IsSilent (periodic_runs duration out.1.0 ctxs) =
          rw empty (periodic_runs_unchanged duration ctxs others) in
        Returns-bind _ rest λ more a. returns _ ((same, a.0), a.1)

  -- In a wired graph the builder of the periodic node returns without a panic and leaves a node that
  -- yields, so that it is run in the next cycle; but where timers are enabled, from the data that the
  -- builder gives to it, the node never broadcasts, however many cycles it is run in, and its data
  -- stays empty.
  pub periodic_trigger_node-IsSilent :
      (close : (Option TimerSource
          → ExecutionContext K
          → Call (Control × (Option TimerSource × ExecutionContext K)))
        → K.Closure)
      (duration : ℕ) (e : Executor K) (ctxs : List (ExecutionContext K))
      → IsWired K.graphs e.graph
      → All HasTimers ctxs
      → Returns
          (λ out.
            (K.graphs.node_weight out.1.graph out.0.index
              ≡ some (new_node (close (periodic_cycle duration)) 0))
            × (out.1.event_driver.yield_driver.indices
                ≡ e.event_driver.yield_driver.indices ++ out.0.index ∷ [])
            × Returns IsSilent (periodic_runs duration out.0.data_of ctxs))
          (periodic_trigger_node close duration e)
  unfolding periodic_trigger_node Builder.on_init Builder.new Builder.build yield_now uninitialized
      build_depth
  periodic_trigger_node-IsSilent close duration e ctxs wired timers =
      Returns-bind _
        (attach-Built K.graphs e.graph (close (periodic_cycle duration)) [] wired tt tt)
        λ out b. returns _ (b.added, refl, periodic_runs_unchanged duration ctxs timers)
