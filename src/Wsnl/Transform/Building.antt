-- ===== src/Wsnl/Transform/Building.antt =====
-- The functions of wavelet/src/wsnl/transform.rs that build a node below one stream. `close` gives the
-- closure around a cycle function of the stream's batch and of the node's data, with a handle to the
-- stream; `member`'s equality stands for that of the keys.
use wavelet_rs.Prelude.{Bool, List, [], Call}
use wavelet_rs.Control.{Control, Relationship}
use wavelet_rs.Node.{RawHandle, NodeInner}
use wavelet_rs.Node.Builder.{NodeBuilder}
use wavelet_rs.Node.Builder
use wavelet_rs.Platform.{Platform}
use wavelet_rs.Executor.{Executor}
use wavelet_rs.Wsnl.Transform.{
  accumulate_cycle, accumulate_with_reset_cycle, deduplicate_cycle, filter_cycle,
}

module _ (K : Platform) {T D : Type 0}
    (close : (List T → D → Control × D) → RawHandle → K.Closure) where
  -- A node that one stream triggers.
  abbrev pub below :
      (List T → D → Control × D) → RawHandle → D → Executor K → Call (NodeInner D × Executor K)
  below cycle parent initial executor =
      let b : NodeBuilder K D (Unit {0}) = Builder.new initial in
      Builder.build (close cycle parent) (Builder.relate b parent Relationship.trigger) executor

  unfoldable pub accumulate_stream_node :
      (D → T → D) → RawHandle → D → Executor K → Call (NodeInner D × Executor K)
  unfolding accumulate_cycle
  accumulate_stream_node fold_fn parent initial executor =
      below (accumulate_cycle fold_fn) parent initial executor

  unfoldable pub accumulate_stream_with_reset_node :
      (D → T → D) → D → RawHandle → Executor K → Call (NodeInner D × Executor K)
  unfolding accumulate_with_reset_cycle
  accumulate_stream_with_reset_node fold_fn default parent executor =
      below (accumulate_with_reset_cycle fold_fn default) parent default executor

module _ (K : Platform) {T : Type 0}
    (close : (List T → List T → Control × List T) → RawHandle → K.Closure) where
  unfoldable pub deduplicate_stream_node :
      {Key : Type 0}
      → (Key → Key → Bool)
      → (T → Key)
      → RawHandle
      → Executor K
      → Call (NodeInner (List T) × Executor K)
  unfolding deduplicate_cycle
  deduplicate_stream_node eq key_fn parent executor =
      below K close (deduplicate_cycle eq key_fn) parent [] executor

  unfoldable pub filter_stream_node :
      (T → Bool) → RawHandle → Executor K → Call (NodeInner (List T) × Executor K)
  unfolding filter_cycle
  filter_stream_node predicate parent executor =
      below K close (filter_cycle predicate) parent [] executor
