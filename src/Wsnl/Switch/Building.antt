-- ===== src/Wsnl/Switch/Building.antt =====
-- The functions of wavelet/src/wsnl/control.rs that build a switch. `close` gives the closure around a
-- cycle function, with handles to the three parents and the switch's value at the time.
use wavelet_rs.Prelude.{Bool, List, [], Call}
use wavelet_rs.Control.{Control, Relationship}
use wavelet_rs.Node.{RawHandle, NodeInner, raw_handle}
use wavelet_rs.Node.Builder.{NodeBuilder}
use wavelet_rs.Node.Builder
use wavelet_rs.Platform.{Platform}
use wavelet_rs.Executor.{ExecutionContext, Executor}
use wavelet_rs.Wsnl.Switch.{
  Parents, Switch, switch_stream_cycle, take_switch_stream_cycle, switch_cycle, take_switch_cycle,
}

module _ (K : Platform) (D Out : Type 0) where
  -- What the closure of a switch is made from.
  abbrev pub Closing : Type 0
  Closing =
      (Parents D → Switch D → ExecutionContext K → Out)
      → Bool
      → RawHandle
      → RawHandle
      → RawHandle
      → K.Closure

module _ (K : Platform) {D Out : Type 0} where
  -- A node that its three parents trigger.
  abbrev pub below :
      Closing K D Out
      → (Parents D → Switch D → ExecutionContext K → Out)
      → Parents D
      → D
      → Executor K
      → Call (NodeInner D × Executor K)
  below close cycle ps initial executor =
      let use_primary = ps.switch.data_of in
      let primary = raw_handle ps.primary in
      let secondary = raw_handle ps.secondary in
      let switch = raw_handle ps.switch in
      let b : NodeBuilder K D (Unit {0}) = Builder.new initial in
      let b₁ = Builder.relate b primary Relationship.trigger in
      let b₂ = Builder.relate b₁ secondary Relationship.trigger in
      let b₃ = Builder.relate b₂ switch Relationship.trigger in
      Builder.build (close cycle use_primary primary secondary switch) b₃ executor

module _ (K : Platform) {T : Type 0} where
  unfoldable pub switch_stream_node :
      Closing K (List T) (Control × Switch (List T))
      → Parents (List T)
      → Executor K
      → Call (NodeInner (List T) × Executor K)
  unfolding switch_stream_cycle
  switch_stream_node close ps executor = below K close (switch_stream_cycle K) ps [] executor

  unfoldable pub take_switch_stream_node :
      Closing K (List T) ((Control × Switch (List T)) × Parents (List T))
      → Parents (List T)
      → Executor K
      → Call (NodeInner (List T) × Executor K)
  unfolding take_switch_stream_cycle
  take_switch_stream_node close ps executor =
      below K close (take_switch_stream_cycle K) ps [] executor

  unfoldable pub switch_node :
      Closing K T (Control × Switch T)
      → Parents T
      → T
      → Executor K
      → Call (NodeInner T × Executor K)
  unfolding switch_cycle
  switch_node close ps initial executor = below K close (switch_cycle K) ps initial executor

  unfoldable pub take_switch_node :
      Closing K T ((Control × Switch T) × Parents T)
      → T
      → Parents T
      → Executor K
      → Call (NodeInner T × Executor K)
  unfolding take_switch_cycle
  take_switch_node close default ps executor =
      below K close (take_switch_cycle K default) ps default executor
