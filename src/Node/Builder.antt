-- ===== src/Node/Builder.antt =====
-- `NodeBuilder` of wavelet/src/runtime/node.rs: what it gathers, the ways to build, and the drop of a
-- node's cell.
pub mod Relating
pub mod Dropping
pub mod Handles
pub mod Counting
use wavelet_rs.Prelude.{
  ℕ, Bool, true, false, ◌==◌, if◌then◌else◌, List, [], ◌∷◌, Option, none, some, Call, ret, panic,
  ◌>>=◌,
}
use wavelet_rs.Control.{Relationship}
use wavelet_rs.Scheduler.{enable_depth}
use wavelet_rs.ArrayQueue.{ArrayQueue}
use wavelet_rs.EventDriver.{Notifier}
use wavelet_rs.EventDriver
use wavelet_rs.Collector.{mark_for_sweep}
use wavelet_rs.Channel.{Channel}
use wavelet_rs.Channel
use wavelet_rs.Node.{
  RawHandle, NodeInner, Parents, uninitialized, add_relationship, add_many_relationships,
  build_depth, attach,
}
use wavelet_rs.Platform.{Platform}
use wavelet_rs.Executor.{Executor, Reach}

module _ (K : Platform) (D : Type 0) where
  -- The initialiser is given the node's index; both callbacks can change the node's data.
  abbrev pub OnInit : Type 0
  OnInit = ℕ → D → Executor K → Call (D × Executor K)

  abbrev pub OnDrop : Type 0
  OnDrop = D → Reach K → Reach K

module _ (K : Platform) (D Name : Type 0) where
  pub record NodeBuilder : Type 0 where
    pub data_of : D
    pub name : Option Name
    pub parents : Parents
    pub on_init : Option (OnInit K D)
    pub on_drop : Option (OnDrop K D)
    pub allow_panic : Bool

module _ {K : Platform} {D : Type 0} where
  abbrev initialized :
      Option (OnInit K D) → NodeInner D → Executor K → Call (NodeInner D × Executor K)
  initialized none n e = ret (n, e)
  initialized (some f) n e = f n.index n.data_of e >>= λ (d, e'). ret (record n { data_of = d }, e')

  -- The drop of the cell: its node is marked, then the callback is run.
  unfoldable pub drop_inner : NodeInner D → Option (OnDrop K D) → Reach K → Reach K
  drop_inner n f r =
      let r' : Reach K = record r { gc = mark_for_sweep r.gc n.index } in
      elim f [ none ↦ r' | some on_drop ↦ on_drop n.data_of r' ]

module _ {K : Platform} {D Name : Type 0} where
  unfoldable pub new : D → NodeBuilder K D Name
  new d = record {
    data_of = d;
    name = none;
    parents = [];
    on_init = none;
    on_drop = none;
    allow_panic = false;
  }

  unfoldable pub named : NodeBuilder K D Name → Name → NodeBuilder K D Name
  named b name = record b { name = some name }

  unfoldable pub relate : NodeBuilder K D Name → RawHandle → Relationship → NodeBuilder K D Name
  relate b parent r = record b { parents = add_relationship b.parents parent r }

  unfoldable pub triggered_by_many : NodeBuilder K D Name → List RawHandle → NodeBuilder K D Name
  triggered_by_many b ps = record b {
    parents = add_many_relationships b.parents ps Relationship.trigger;
  }

  unfoldable pub observer_of_many : NodeBuilder K D Name → List RawHandle → NodeBuilder K D Name
  observer_of_many b ps = record b {
    parents = add_many_relationships b.parents ps Relationship.observe;
  }

  -- A second initialiser is a panic, and so is a second drop callback.
  unfoldable pub on_init : NodeBuilder K D Name → OnInit K D → Call (NodeBuilder K D Name)
  on_init b f = elim b.on_init [ none ↦ ret (record b { on_init = some f }) | some g ↦ panic ]

  unfoldable pub on_drop : NodeBuilder K D Name → OnDrop K D → Call (NodeBuilder K D Name)
  on_drop b f = elim b.on_drop [ none ↦ ret (record b { on_drop = some f }) | some g ↦ panic ]

  unfoldable pub allow_panic : NodeBuilder K D Name → Bool → NodeBuilder K D Name
  allow_panic b allowed = record b { allow_panic = allowed }

  -- `build` with its cell, which the closure `cycle_fn` has a weak handle to.
  unfoldable pub build :
      K.Closure → NodeBuilder K D Name → Executor K → Call (NodeInner D × Executor K)
  build cycle_fn b e = attach K.graphs e.graph cycle_fn b.parents >>= λ (idx, g).
      let depth = build_depth b.parents in
      let cell : NodeInner D = record (uninitialized b.data_of) {
        index = idx;
        depth = depth;
        weak_count = 1;
      } in
      initialized b.on_init cell
        (record e { graph = g; scheduler = enable_depth e.scheduler depth })

  -- `spawn`: the closure has the only handle, a strong one.
  unfoldable pub spawn :
      K.Closure → NodeBuilder K D Name → Executor K → Call (NodeInner D × Executor K)
  spawn cycle_fn b e = build cycle_fn b e >>= λ (cell, e'). ret (record cell { weak_count = 0 }, e')

  unfoldable pub build_with_notifier :
      K.Closure
      → NodeBuilder K D Name
      → Executor K
      → Call (NodeInner D × Notifier K.mio K.slab K.queue × Executor K)
  build_with_notifier cycle_fn b e = build cycle_fn b e >>= λ (cell, e').
      ret (cell, EventDriver.register_notifier K.mio K.slab K.queue e'.event_driver cell.index, e')

  -- The closure has the receiver; the notifier makes the sender with the channel.
  unfoldable pub build_with_channel :
      {A : Type 0} (Q : ArrayQueue A)
      → ℕ
      → K.Closure
      → NodeBuilder K D Name
      → Executor K
      → Call (NodeInner D × (Channel Q × Notifier K.mio K.slab K.queue) × Executor K)
  build_with_channel Q capacity cycle_fn b e =
      if capacity == 0
      then panic
      else (build_with_notifier cycle_fn b e >>= λ (cell, notifier, e').
          ret (cell, (Channel.new Q capacity, notifier), e'))
