-- ===== src/Node/Builder/Dropping.antt =====
-- From the drop of a node's cell (wavelet/src/runtime/node.rs) to the node's removal at the end of
-- the cycle (wavelet/src/runtime/executor.rs).
use wavelet_rs.Prelude.{
  ℕ, ◌≡◌, ◌≤◌, refl, ◌∙◌, subst, List, [], ◌∷◌, ◌++◌, Option, none, some, All, Returns, Returns-map,
  append_assoc,
}
use wavelet_rs.Collector.{mark_for_sweep}
use wavelet_rs.Node.{NodeInner}
use wavelet_rs.Node.Builder.{OnDrop, drop_inner}
use wavelet_rs.Platform.{Platform}
use wavelet_rs.Executor.{Closures, Reach}
use wavelet_rs.Executor.Cycle.{Swept, sweep_loop}
use wavelet_rs.Executor.Sweeping.{OnlyMarks, sweep_loop-Sweeps}

All-behind : (P : ℕ → Type 0) (xs : List ℕ) (i : ℕ) (ys : List ℕ) → All P (xs ++ i ∷ ys) → P i
All-behind P [] i ys h = h.0
All-behind P (x ∷ xs) i ys h = All-behind P xs i ys h.1

module _ (K : Platform) {D : Type 0} where
  -- The callback reaches the collector only through `mark_for_sweep`.
  abbrev pub DropMarks : Option (OnDrop K D) → Type 0
  DropMarks none = Unit
  DropMarks (some f) =
      (d : D) (r : Reach K)
      → (more : List ℕ) × ((f d r).gc.removal_queue ≡ r.gc.removal_queue ++ more)

  drop_inner-queue :
      (n : NodeInner D) (f : Option (OnDrop K D)) (r : Reach K)
      → DropMarks f
      → (more : List ℕ) × ((drop_inner n f r).gc.removal_queue
          ≡ r.gc.removal_queue ++ n.index ∷ more)
  unfolding drop_inner mark_for_sweep
  drop_inner-queue n none r m = ([], refl)
  drop_inner-queue n (some f) r m =
      let r' : Reach K = record r { gc = mark_for_sweep r.gc n.index } in
      let (more, e) = m n.data_of r' in
      (more, e ∙ append_assoc r.gc.removal_queue (n.index ∷ []) more)

  -- Let the drops of closures and the callback only mark nodes. When the last handle to a cell is
  -- dropped, then the removals at the end of the cycle, given as many turns as there are nodes, come
  -- to an end without a panic, and the cell's node is not in the graph any more.
  pub drop_inner-Returns :
      (B : Closures K)
      → OnlyMarks K B
      → (n : NodeInner D) (f : Option (OnDrop K D)) (r : Reach K) (x : Swept K) → DropMarks f
      → (turns : ℕ) → K.graphs.node_count x.graph ≤ turns
      → Returns
          (λ y. K.graphs.node_weight y.graph n.index ≡ none)
          (sweep_loop K B turns (drop_inner n f r).gc.removal_queue x)
  drop_inner-Returns B m n f r x marks turns h =
      let (more, e) = drop_inner-queue n f r marks in
      Returns-map
        (λ y s.
          All-behind (λ i. K.graphs.node_weight y.graph i ≡ none) r.gc.removal_queue n.index more
            (subst (All (λ i. K.graphs.node_weight y.graph i ≡ none)) e s.cleared))
        (sweep_loop-Sweeps K B m turns (drop_inner n f r).gc.removal_queue x h)
