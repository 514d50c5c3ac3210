-- ===== src/Wsnl/Logic/Following.antt =====
-- The nodes that the functions of wavelet/src/wsnl/logic.rs leave.
use wavelet_rs.Prelude.{
  ℕ, subst, ◌+◌, ◌<◌, ◌≡◌, refl, inl, inr, Bool, false, xor, ◌&&◌, ◌||◌, List, [], ◌∷◌, ◌++◌, none,
  some, All, Returns, returns, Returns-bind, Bool-cases, u32_mod,
}
use wavelet_rs.Control.{Relationship}
use wavelet_rs.Graph.{new_node, triggering_edges}
use wavelet_rs.Scheduling.Entries.{In}
use wavelet_rs.EventDriver.Yield.{yield_now}
use wavelet_rs.Executor.{Executor}
use wavelet_rs.Executor.Wiring.{IsWired}
use wavelet_rs.Platform.{Platform}
use wavelet_rs.Node.{
  RawHandle, NodeInner, Parents, uninitialized, add_relationship, same_handle, build_depth, attach,
}
use wavelet_rs.Node.Builder.{NodeBuilder}
use wavelet_rs.Node.Builder
use wavelet_rs.Node.Depth.{build_depth-Above}
use wavelet_rs.Node.Edges.{Linked, Linked-triggers, Names}
use wavelet_rs.Node.Building.{Built, attach-Built}
use wavelet_rs.Wsnl.Logic.{and_cycle, or_cycle, xor_cycle, Tracks, logic-Tracks}
use wavelet_rs.Wsnl.Logic.Building.{
  LogicCycle, under, with_init, with_bootstrap, and_node_with_init, and_node_with_bootstrap,
  or_node_with_init, or_node_with_bootstrap, xor_node_with_init, xor_node_with_bootstrap,
}
use wavelet_rs.Node.Builder.Relating.{same_handle-eq}

module _ (K : Platform) (close : LogicCycle → RawHandle → RawHandle → K.Closure) where
  -- What has been built: a node below its two parents, which both trigger it, whose cycle function
  -- follows an operation on their values.
  pub record Follows (op : Bool → Bool → Bool) (init : Bool) (left right : RawHandle)
      (e : Executor K) (out : NodeInner Bool × Executor K) : Type 0 where
    pub cycle : LogicCycle
    pub starts : out.0.data_of ≡ init
    pub fresh : K.graphs.node_weight e.graph out.0.index ≡ none
    pub added :
        K.graphs.node_weight out.1.graph out.0.index
        ≡ some (new_node (close cycle left right) out.0.depth)
    pub below : (left.depth < out.0.depth) × (right.depth < out.0.depth)
    pub triggered :
        In out.0.index (triggering_edges K.graphs out.1.graph left.index)
        × In out.0.index (triggering_edges K.graphs out.1.graph right.index)
    pub wired : IsWired K.graphs out.1.graph
    pub tracks : (l r this : Bool) → Tracks (op l r) this (cycle l r this)

  -- What is to be run in the next cycle.
  abbrev pub yielded : Executor K → List ℕ
  yielded e = e.event_driver.yield_driver.indices

  -- What the functions leave, with an initial value and with a bootstrap.
  abbrev pub AllFollow : Executor K → RawHandle → RawHandle → Bool → Type 0
  AllFollow e left right init =
      (Returns (λ out. Follows ◌&&◌ init left right e out × (yielded out.1 ≡ yielded e))
          (and_node_with_init K close left right init e)
        × Returns (λ out. Follows ◌||◌ init left right e out × (yielded out.1 ≡ yielded e))
            (or_node_with_init K close left right init e)
        × Returns (λ out. Follows xor init left right e out × (yielded out.1 ≡ yielded e))
            (xor_node_with_init K close left right init e))
      × (Returns
            (λ out.
              Follows ◌&&◌ false left right e out × (yielded out.1 ≡ yielded e ++ out.0.index ∷ []))
            (and_node_with_bootstrap K close left right e)
          × Returns
              (λ out.
                Follows ◌||◌ false left right e out
                × (yielded out.1 ≡ yielded e ++ out.0.index ∷ []))
              (or_node_with_bootstrap K close left right e)
          × Returns
              (λ out.
                Follows xor false left right e out
                × (yielded out.1 ≡ yielded e ++ out.0.index ∷ []))
              (xor_node_with_bootstrap K close left right e))

  module _ (e : Executor K) (left right : RawHandle) (wired : IsWired K.graphs e.graph)
      (names_left : Names K.graphs e.graph left) (names_right : Names K.graphs e.graph right)
      (fits : (left.depth + 1 < u32_mod) × (right.depth + 1 < u32_mod)) where
    both : Parents
    both = (under K close false left right).parents

    both-All :
        (Q : RawHandle × Relationship → Type 0)
        → Q (left, Relationship.trigger)
        → Q (right, Relationship.trigger)
        → All Q both
    unfolding both Builder.relate add_relationship Builder.new
    both-All Q a b = elim (Bool-cases (same_handle left right)) [
      | inl e ↦ rw e (a, tt)
      | inr e ↦ rw e (a, (b, tt))
    ]

    -- What holds of all parents holds of the two.
    All-both :
        (Q : RawHandle × Relationship → Type 0)
        → All Q both
        → Q (left, Relationship.trigger) × Q (right, Relationship.trigger)
    unfolding both Builder.relate add_relationship Builder.new
    All-both Q h = elim (Bool-cases (same_handle left right)) [
      | inl e ↦
          let a = (rw e at h).0 in
          (a, subst (λ p. Q (p, Relationship.trigger)) (same_handle-eq left right e) a)
      | inr e ↦ let a = (rw e at h) in (a.0, a.1.0)
    ]

    triggers :
        (i : ℕ) (g : K.graphs.Carrier) (p : RawHandle)
        → Linked (Relationship.trigger, i) (K.graphs.outgoing g p.index)
        → In i (triggering_edges K.graphs g p.index)
    unfolding triggering_edges
    triggers i g p h = Linked-triggers i (K.graphs.outgoing g p.index) h

    Built-Follows :
        (c : LogicCycle) (op : Bool → Bool → Bool) (init : Bool)
        → ((l r this : Bool) → Tracks (op l r) this (c l r this))
        → (out : ℕ × K.graphs.Carrier) → Built K.graphs e.graph (close c left right) both out
        → (e' : Executor K) → e'.graph ≡ out.1
        → Follows op init left right e (
          record (uninitialized init) { index = out.0; depth = build_depth both; weak_count = 1 },
          e',
        )
    unfolding uninitialized
    Built-Follows c op init t out b e' same =
        let fit =
          build_depth-Above both (both-All (λ (p, r). p.depth + 1 < u32_mod) fits.0 fits.1) in
        let links =
          All-both (λ (p, r). Linked (r, out.0) (K.graphs.outgoing out.1 p.index)) b.linked in
        record {
          cycle = c;
          starts = refl;
          fresh = b.fresh;
          added = rw same b.added;
          below = All-both (λ (p, r). p.depth < build_depth both) fit;
          triggered =
              rw same (triggers out.0 out.1 left links.0, triggers out.0 out.1 right links.1);
          wired = rw same b.wired;
          tracks = t;
        }

    attached :
        (f : K.Closure) → Returns (Built K.graphs e.graph f both) (attach K.graphs e.graph f both)
    attached f =
        attach-Built K.graphs e.graph f both wired
          (both-All (λ (p, r). Names K.graphs e.graph p) names_left names_right)
          (both-All (λ (p, r). p.depth + 1 < u32_mod) fits.0 fits.1)

    with_init-Follows :
        (c : LogicCycle) (op : Bool → Bool → Bool) (init : Bool)
        → ((l r this : Bool) → Tracks (op l r) this (c l r this))
        → Returns
            (λ out. Follows op init left right e out × (yielded out.1 ≡ yielded e))
            (with_init K close c left right init e)
    unfolding Builder.build Builder.new Builder.relate both
    with_init-Follows c op init t =
        Returns-bind _ (attached (close c left right))
          λ out b. returns _ (Built-Follows c op init t out b _ refl, refl)

    with_bootstrap-Follows :
        (c : LogicCycle) (op : Bool → Bool → Bool)
        → ((l r this : Bool) → Tracks (op l r) this (c l r this))
        → Returns
            (λ out.
              Follows op false left right e out × (yielded out.1 ≡ yielded e ++ out.0.index ∷ []))
            (with_bootstrap K close c left right e)
    unfolding Builder.build Builder.new Builder.relate Builder.on_init both yield_now
    with_bootstrap-Follows c op t =
        Returns-bind _ (attached (close c left right))
          λ out b. returns _ (Built-Follows c op false t out b _ refl, refl)

    -- Take a wired graph and two handles that name their nodes truly, at depths short of 2^32 - 1. The
    -- functions that build a conjunction, a disjunction or an exclusive disjunction return without a
    -- panic. Each leaves a new node below both parents, which both trigger it; its value is the
    -- initial one, and its cycle function takes the value of the operation on the parents' values and
    -- broadcasts just if its value changes. With an initial value no node comes to yield; with a
    -- bootstrap the value is false, and the new node yields behind those that have yielded.
    pub logic_nodes-Follows : (init : Bool) → AllFollow e left right init
    unfolding and_node_with_init and_node_with_bootstrap or_node_with_init or_node_with_bootstrap
        xor_node_with_init xor_node_with_bootstrap
    logic_nodes-Follows init =
        let all = λ (l r this : Bool). logic-Tracks l r this in
        (
          (
            with_init-Follows and_cycle ◌&&◌ init (λ l r this. (all l r this).0),
            with_init-Follows or_cycle ◌||◌ init (λ l r this. (all l r this).1),
            with_init-Follows xor_cycle xor init (λ l r this. (all l r this).2),
          ),
          (
            with_bootstrap-Follows and_cycle ◌&&◌ (λ l r this. (all l r this).0),
            with_bootstrap-Follows or_cycle ◌||◌ (λ l r this. (all l r this).1),
            with_bootstrap-Follows xor_cycle xor (λ l r this. (all l r this).2),
          ),
        )
