-- ===== src/Node/Builder/Counting.antt =====
-- The life of a node's cell (wavelet/src/runtime/node.rs) under any sequence of calls on its handles:
-- the node is marked for removal when the last handle goes, once, and not before.
use wavelet_rs.Prelude.{
  ℕ, ◌+◌, ◌-◌, ◌==◌, ◌≡◌, ◌≢◌, refl, sym, ◌∙◌, subst, inl, inr, false, if◌then◌else◌, List, [], ◌∷◌,
  ◌++◌, Option, none, some, Bool-cases, eq_of_some, ==_refl, ==_iff, arith, ◌≤◌, ◌<◌, All, Returns,
  Returns-map,
}
use wavelet_rs.Node.{NodeInner, is_exclusive}
use wavelet_rs.Node.Builder.{OnDrop, drop_inner}
use wavelet_rs.Node.Builder.Handles.{
  clone, downgrade, release_weak, upgrade_weak, write, release, upgrade,
}
use wavelet_rs.Collector.{mark_for_sweep}
use wavelet_rs.Platform.{Platform}
use wavelet_rs.Executor.{Closures, Reach}
use wavelet_rs.Executor.Cycle.{Swept, sweep_loop}
use wavelet_rs.Executor.Sweeping.{OnlyMarks, sweep_loop-Sweeps}

-- How often the node stands in the list.
abbrev pub occurrences : ℕ → List ℕ → ℕ
occurrences i [] = 0
occurrences i (j ∷ l) = (if j == i then 1 else 0) + occurrences i l

occurrences-append :
    (i : ℕ) (l m : List ℕ) → occurrences i (l ++ m) ≡ occurrences i l + occurrences i m
occurrences-append i [] m = omega arith
occurrences-append i (j ∷ l) m = omega (arith, occurrences-append i l m)

All-occurrences : (P : ℕ → Type 0) (i : ℕ) (l : List ℕ) → 0 < occurrences i l → All P l → P i
All-occurrences P i [] h a = absurd (omega arith)
All-occurrences P i (j ∷ l) h a = elim (Bool-cases (j == i)) [
  | inl same ↦ subst P ((==_iff j i).0 same) a.0
  | inr other ↦ All-occurrences P i l (let k = rw other at h in omega (arith, k)) a.1
]

abbrev pub marks : {K : Platform} → ℕ → Reach K → ℕ
marks i r = occurrences i r.gc.removal_queue

marked :
    {K : Platform} (i : ℕ) (r : Reach K)
    → marks i (record r { gc = mark_for_sweep r.gc i }) ≡ marks i r + 1
unfolding mark_for_sweep
marked i r = occurrences-append i r.gc.removal_queue (i ∷ []) ∙ rw (==_refl i) (omega arith)

more_than_one : (a : ℕ) → a ≢ 0 → (a == 1) ≡ false → a - 1 ≢ 0
more_than_one a live more gone = ground arith

module _ {K : Platform} {D : Type 0} where
  -- The callback of the node's drop does not mark the node itself.
  abbrev pub Spares : ℕ → Option (OnDrop K D) → Type 0
  Spares i none = Unit
  Spares i (some f) = (d : D) (r : Reach K) → marks i (f d r) ≡ marks i r

  -- One call on a handle, or anything that happens elsewhere in the program meanwhile and does not
  -- mark the node. A call on a `Node` needs a cell that is alive.
  pub data Calls (f : Option (OnDrop K D))
      : NodeInner D × Reach K → NodeInner D × Reach K → Type 0 where
    clones : (n : NodeInner D) (r : Reach K) → n.strong_count ≢ 0 → Calls f (n, r) (clone n, r)
    downgrades :
        (n : NodeInner D) (r : Reach K) → n.strong_count ≢ 0 → Calls f (n, r) (downgrade n, r)
    drops : (n : NodeInner D) (r : Reach K) → n.strong_count ≢ 0 → Calls f (n, r) (release f n r)
    upgrades :
        (n : NodeInner D) (r : Reach K) → n.strong_count ≢ 0 → Calls f (n, r) (upgrade f n r).1
    writes :
        (n : NodeInner D) (r : Reach K) (d : D) → n.strong_count ≢ 0 → Calls f (n, r) (write n d, r)
    drops_weak : (n : NodeInner D) (r : Reach K) → Calls f (n, r) (release_weak n, r)
    revives : (n m : NodeInner D) (r : Reach K) → upgrade_weak n ≡ some m → Calls f (n, r) (m, r)
    meanwhile :
        (n : NodeInner D) (r r' : Reach K)
        → marks n.index r' ≡ marks n.index r
        → Calls f (n, r) (n, r')

  pub data AllCalls (f : Option (OnDrop K D))
      : NodeInner D × Reach K → NodeInner D × Reach K → Type 0 where
    no_more : (x : NodeInner D × Reach K) → AllCalls f x x
    one_more : (x y z : NodeInner D × Reach K) → Calls f x y → AllCalls f y z → AllCalls f x z

  -- The node of a cell that is alive is not marked; that of a dropped cell is marked once.
  pub record Counted (i : ℕ) (x : NodeInner D × Reach K) : Type 0 where
    pub same_node : x.0.index ≡ i
    pub alive : x.0.strong_count ≢ 0 → marks i x.1 ≡ 0
    pub dropped : x.0.strong_count ≡ 0 → marks i x.1 ≡ 1

  drop_inner-marks :
      (n : NodeInner D) (f : Option (OnDrop K D)) (r : Reach K)
      → Spares n.index f
      → marks n.index (drop_inner n f r) ≡ marks n.index r + 1
  unfolding drop_inner mark_for_sweep
  drop_inner-marks n none r s = marked n.index r
  drop_inner-marks n (some f) r s = s n.data_of _ ∙ marked n.index r

  release-Counted :
      (i : ℕ) (f : Option (OnDrop K D)) (n : NodeInner D) (r : Reach K)
      → Spares i f
      → n.strong_count ≢ 0
      → Counted i (n, r)
      → Counted i (release f n r)
  unfolding release
  release-Counted i f n r s live c =
      let before = c.alive live in
      elim (Bool-cases (n.strong_count == 1)) [
        | inl last ↦
            rw (last, release)
              (record {
                same_node = c.same_node;
                alive = λ gone. absurd (gone refl);
                dropped = λ _.
                    let s' = subst (λ j. Spares j f) (sym c.same_node) s in
                    let e = drop_inner-marks n f r s' in
                    let b = subst (λ j. marks j r ≡ 0) (sym c.same_node) before in
                    rw (← c.same_node) (omega (arith, e, b));
              })
        | inr more ↦
            rw (more, release)
              (record {
                same_node = c.same_node;
                alive = λ _. before;
                dropped = λ gone. absurd (more_than_one n.strong_count live more gone);
              })
      ]

  Calls-Counted :
      (i : ℕ) (f : Option (OnDrop K D)) (x y : NodeInner D × Reach K)
      → Spares i f
      → Calls f x y
      → Counted i x
      → Counted i y
  unfolding clone downgrade release upgrade write release_weak upgrade_weak
  Calls-Counted i f x y s (clones n r live) c = record {
    same_node = c.same_node;
    alive = λ _. c.alive live;
    dropped = λ gone. absurd (omega (arith, gone));
  }
  Calls-Counted i f x y s (downgrades n r live) c = record {
    same_node = c.same_node;
    alive = c.alive;
    dropped = c.dropped;
  }
  Calls-Counted i f x y s (drops n r live) c = release-Counted i f n r s live c
  Calls-Counted i f x y s (upgrades n r live) c = elim (Bool-cases (is_exclusive n)) [
    | inl only ↦ rw (only, upgrade) c
    | inr shared ↦ rw (shared, upgrade) (release-Counted i f n r s live c)
  ]
  Calls-Counted i f x y s (writes n r d live) c = record {
    same_node = c.same_node;
    alive = c.alive;
    dropped = c.dropped;
  }
  Calls-Counted i f x y s (drops_weak n r) c = record {
    same_node = c.same_node;
    alive = c.alive;
    dropped = c.dropped;
  }
  Calls-Counted i f x y s (revives n m r e) c = elim (Bool-cases (n.strong_count == 0)) [
    | inl gone ↦ let no_cell = rw (upgrade_weak, gone) at e in cc
    | inr here ↦
        let live : n.strong_count ≢ 0 = λ none_left. ground arith in
        let grown : record n { strong_count = n.strong_count + 1 } ≡ m =
          eq_of_some (rw (upgrade_weak, here) at e) in
        rw (← grown) (record {
          same_node = c.same_node;
          alive = λ _. c.alive live;
          dropped = λ gone. absurd (omega (arith, gone));
        })
  ]
  Calls-Counted i f x y s (meanwhile n r r' e) c =
      let e' = subst (λ j. marks j r' ≡ marks j r) c.same_node e in
      record {
        same_node = c.same_node;
        alive = λ h. e' ∙ c.alive h;
        dropped = λ h. e' ∙ c.dropped h;
      }

  AllCalls-Counted :
      (i : ℕ) (f : Option (OnDrop K D)) (x y : NodeInner D × Reach K)
      → Spares i f
      → AllCalls f x y
      → Counted i x
      → Counted i y
  AllCalls-Counted i f x y s (no_more z) c = c
  AllCalls-Counted i f x y s (one_more u v w call rest) c =
      AllCalls-Counted i f v w s rest (Calls-Counted i f u v s call c)

  -- Let the callback of a node's drop not mark the node itself, nothing else do so, and the drops of
  -- closures only mark nodes. Take a cell that is alive, whose node is not marked, and any calls on
  -- its handles, in any order. While a handle is left, the node is not marked for removal. Once the
  -- last one has gone, it is marked, once, no weak handle revives the cell, and the removals at the
  -- end of the cycle, given as many turns as there are nodes, return without a panic and leave a graph
  -- without the node.
  pub handles-Removed :
      (B : Closures K) (f : Option (OnDrop K D)) (n : NodeInner D) (r : Reach K)
      (out : NodeInner D × Reach K) (x : Swept K) (turns : ℕ)
      → OnlyMarks K B
      → Spares n.index f
      → n.strong_count ≢ 0
      → marks n.index r ≡ 0
      → AllCalls f (n, r) out
      → K.graphs.node_count x.graph ≤ turns
      → (out.0.strong_count ≢ 0 → marks n.index out.1 ≡ 0)
        × (out.0.strong_count ≡ 0
            → (marks n.index out.1 ≡ 1)
              × (upgrade_weak out.0 ≡ none)
              × Returns
                  (λ y. K.graphs.node_weight y.graph n.index ≡ none)
                  (sweep_loop K B turns out.1.gc.removal_queue x))
  unfolding upgrade_weak
  handles-Removed B f n r out x turns m s live unmarked calls enough =
      let c =
        AllCalls-Counted n.index f (n, r) out s calls
          (record {
            same_node = refl;
            alive = λ _. unmarked;
            dropped = λ gone. absurd (live gone);
          }) in
      (
        c.alive,
        λ gone.
            let once = c.dropped gone in
            (
              once,
              rw (gone, upgrade_weak) refl,
              Returns-map
                  (λ y swept.
                    All-occurrences (λ i. K.graphs.node_weight y.graph i ≡ none) n.index
                      out.1.gc.removal_queue (omega (arith, once)) swept.cleared)
                  (sweep_loop-Sweeps K B m turns out.1.gc.removal_queue x enough),
            ),
      )
