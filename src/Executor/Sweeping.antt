-- ===== src/Executor/Sweeping.antt =====
-- The removal of nodes at the end of `Executor::cycle` (wavelet/src/runtime/executor.rs).
use wavelet_rs.Prelude.{
  subst, keep, not, false, ℕ, zero, suc, ap, ◌≤◌, ◌≡◌, refl, sym, ◌∙◌, inl, inr, List, [], ◌∷◌,
  ◌++◌, none, some, ◌==◌, ==_refl, All, Returns, returns, Returns-map, Bool-cases, Option-cases,
  arith,
}
use wavelet_rs.Control.{Relationship}
use wavelet_rs.StableGraph.{Link}
use wavelet_rs.Executor.Wiring.{IsWired, Deeper}
use wavelet_rs.Graph.{NodeContext, remove_node, target}
use wavelet_rs.Platform.{Platform}
use wavelet_rs.Executor.{Closures, Reach}
use wavelet_rs.Executor.Cycle.{Swept, sweep_loop}

module _ (K : Platform) (B : Closures K) where
  open K use {graphs, Closure}

  abbrev pub Gone : graphs.Carrier → ℕ → Type 0
  Gone g i = graphs.node_weight g i ≡ none

  -- The nodes of the queue are gone, and what is left was there before, as it is.
  pub record Sweeps (q : List ℕ) (x y : Swept K) : Type 0 where
    pub cleared : All (Gone y.graph) q
    pub kept :
        (j : ℕ) (n : NodeContext Closure)
        → graphs.node_weight y.graph j ≡ some n
        → graphs.node_weight x.graph j ≡ some n
    pub wired : IsWired graphs x.graph → IsWired graphs y.graph

  removed-kept :
      (g : graphs.Carrier) (i j : ℕ) (n : NodeContext Closure)
      → graphs.node_weight (graphs.remove_node g i) j ≡ some n
      → graphs.node_weight g j ≡ some n
  removed-kept g i j n e = elim (Bool-cases (i == j)) [
    | inl eq ↦
        let clash : none ≡ some n = sym (graphs.node_weight-remove_node g i j ∙ rw eq) ∙ e in cc
    | inr ne ↦ sym (graphs.node_weight-remove_node g i j ∙ rw ne) ∙ e
  ]

  removed-Gone : (g : graphs.Carrier) (i : ℕ) → Gone (graphs.remove_node g i) i
  removed-Gone g i = graphs.node_weight-remove_node g i i ∙ rw (==_refl i)

  Gone-later :
      (g h : graphs.Carrier) (i : ℕ)
      → ((j : ℕ) (n : NodeContext Closure)
          → graphs.node_weight h j ≡ some n
          → graphs.node_weight g j ≡ some n)
      → Gone g i
      → Gone h i
  Gone-later g h i k e = elim (Option-cases (graphs.node_weight h i)) [
    | inl gone ↦ gone
    | inr (n, there) ↦ let clash : none ≡ some n = sym e ∙ k i n there in cc
  ]

  fewer :
      (g : graphs.Carrier) (i : ℕ) (n : NodeContext Closure)
      → graphs.node_weight g i ≡ some n
      → graphs.node_count g ≡ suc (graphs.node_count (graphs.remove_node g i))
  fewer g i n e = graphs.node_count-remove_node g i ∙ rw e

  same_count :
      (g : graphs.Carrier) (i : ℕ)
      → Gone g i
      → graphs.node_count g ≡ graphs.node_count (graphs.remove_node g i)
  same_count g i e = graphs.node_count-remove_node g i ∙ rw e

  -- The edges that stay lead to nodes that stay.
  staying-Deeper :
      (g : graphs.Carrier) (i d : ℕ) (ls : List (Link Relationship))
      → All (λ l. Deeper graphs g d (target l)) ls
      → All
          (λ l. Deeper graphs (graphs.remove_node g i) d (target l))
          (keep (λ l. not (l.1 == i)) ls)
  staying-Deeper g i d [] h = tt
  staying-Deeper g i d (l ∷ ls) h = elim (Bool-cases (l.1 == i)) [
    | inl gone ↦ rw gone (staying-Deeper g i d ls h.1)
    | inr stays ↦
        let ne : (i == l.1) ≡ false = ground arith in
        rw stays (
          record {
            node = h.0.node;
            found = graphs.node_weight-remove_node g i l.1 ∙ (rw ne h.0.found);
            deeper = h.0.deeper;
          },
          staying-Deeper g i d ls h.1,
        )
  ]

  remove_node-IsWired :
      (g : graphs.Carrier) (i : ℕ) → IsWired graphs g → IsWired graphs (graphs.remove_node g i)
  remove_node-IsWired g i w j n e = elim (Bool-cases (i == j)) [
    | inl eq ↦
        let clash : none ≡ some n = sym (graphs.node_weight-remove_node g i j ∙ rw eq) ∙ e in cc
    | inr ne ↦
        rw (graphs.outgoing-remove_node g i j, ne)
          (staying-Deeper g i n.depth (graphs.outgoing g j) (w j n (removed-kept g i j n e)))
  ]

  -- After one removal.
  one-Sweeps :
      (i : ℕ) (q : List ℕ) (x x' y : Swept K)
      → x'.graph ≡ graphs.remove_node x.graph i
      → All (Gone y.graph) q
      → ((j : ℕ) (n : NodeContext Closure)
          → graphs.node_weight y.graph j ≡ some n
          → graphs.node_weight x'.graph j ≡ some n)
      → (IsWired graphs x'.graph → IsWired graphs y.graph)
      → Sweeps (i ∷ q) x y
  one-Sweeps i q x x' y e c k v = record {
    cleared = (
      Gone-later x'.graph y.graph i k (ap (λ g. graphs.node_weight g i) e ∙ removed-Gone x.graph i),
      c,
    );
    kept =
        λ j n en. removed-kept x.graph i j n (sym (ap (λ g. graphs.node_weight g j) e) ∙ k j n en);
    wired = λ w. v (subst (IsWired graphs) (sym e) (remove_node-IsWired x.graph i w));
  }

  -- The drop of a closure reaches the collector only through `mark_for_sweep`.
  abbrev pub OnlyMarks : Type 0
  OnlyMarks =
      (f : Closure) (r : Reach K)
      → (more : List ℕ) × ((B.drop f r).gc.removal_queue ≡ r.gc.removal_queue ++ more)

  All-first : (P : ℕ → Type 0) (xs ys : List ℕ) → All P (xs ++ ys) → All P xs
  All-first P [] ys h = tt
  All-first P (x ∷ xs) ys h = (h.0, All-first P xs ys h.1)

  -- If the drop of a closure only marks nodes, then the loop ends within as many removals as there
  -- are nodes, and all the nodes that were marked before are gone, no node is new or changed, and
  -- edges still lead to deeper nodes if they did.
  pub sweep_loop-Sweeps :
      OnlyMarks
      → (b : ℕ) (q : List ℕ) (x : Swept K) → graphs.node_count x.graph ≤ b
      → Returns (Sweeps q x) (sweep_loop K B b q x)
  unfolding sweep_loop remove_node
  sweep_loop-Sweeps m b [] x h =
      returns x (record { cleared = tt; kept = λ j n e. e; wired = λ w. w })
  sweep_loop-Sweeps m zero (i ∷ q) x h = elim (Option-cases (graphs.node_weight x.graph i)) [
    | inr (n, e) ↦ absurd (omega (arith, fewer x.graph i n e))
    | inl e ↦
        let x' : Swept K = record x { graph = graphs.remove_node x.graph i } in
        rw (sweep_loop, e)
          (Returns-map (λ y s. one-Sweeps i q x x' y refl s.cleared s.kept s.wired)
            (sweep_loop-Sweeps m zero q x' (omega (arith, same_count x.graph i e))))
  ]
  sweep_loop-Sweeps m (suc b) (i ∷ q) x h = elim (Option-cases (graphs.node_weight x.graph i)) [
    | inl e ↦
        let x' : Swept K = record x { graph = graphs.remove_node x.graph i } in
        rw (sweep_loop, e)
          (Returns-map (λ y s. one-Sweeps i q x x' y refl s.cleared s.kept s.wired)
            (sweep_loop-Sweeps m (suc b) q x' (omega (arith, same_count x.graph i e))))
    | inr (n, e) ↦
        let reach : Reach K = record {
          event_driver = x.event_driver;
          gc = record { removal_queue = q };
          store = x.store;
        } in
        let r = B.drop n.cycle_fn reach in
        let x' : Swept K = record {
          graph = graphs.remove_node x.graph i;
          event_driver = r.event_driver;
          store = r.store;
        } in
        let (more, same) = m n.cycle_fn reach in
        rw (sweep_loop, e)
          (Returns-map
            (λ y s.
              one-Sweeps i q x x' y refl (All-first (Gone y.graph) q more (rw same at s.cleared))
                s.kept s.wired)
            (sweep_loop-Sweeps m b r.gc.removal_queue x' (omega (arith, fewer x.graph i n e))))
  ]
