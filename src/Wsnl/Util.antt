-- ===== src/Wsnl/Util.antt =====
-- wavelet/src/wsnl/util.rs: a node that never changes, and one that sweeps another. `close` gives the
-- closure around a cycle function.
use wavelet_rs.Prelude.{Call}
use wavelet_rs.Control.{Control, Relationship}
use wavelet_rs.Node.{RawHandle, NodeInner}
use wavelet_rs.Node.Builder.{NodeBuilder}
use wavelet_rs.Node.Builder
use wavelet_rs.Platform.{Platform}
use wavelet_rs.Executor.{Executor}

unfoldable pub constant_cycle : {T : Type 0} → T → Control × T
constant_cycle this = (Control.unchanged, this)

-- The closure owns a handle to the node that is to be swept.
unfoldable pub sweep_cycle : Unit {0} → Control × Unit {0}
sweep_cycle this = (Control.sweep, this)

module _ (K : Platform) where
  unfoldable pub constant_node :
      {T : Type 0}
      → ((T → Control × T) → K.Closure)
      → T
      → Executor K
      → Call (NodeInner T × Executor K)
  unfolding constant_cycle
  constant_node {T = T} close constant executor =
      let b : NodeBuilder K T (Unit {0}) = Builder.new constant in
      Builder.build (close constant_cycle) b executor

  unfoldable pub sweep_node :
      ((Unit {0} → Control × Unit {0}) → RawHandle → K.Closure)
      → RawHandle
      → RawHandle
      → Executor K
      → Call (NodeInner (Unit {0}) × Executor K)
  unfolding sweep_cycle
  sweep_node close node_to_sweep sweep_trigger executor =
      let b : NodeBuilder K (Unit {0}) (Unit {0}) = Builder.new tt in
      let b' = Builder.relate b sweep_trigger Relationship.trigger in
      let b'' = Builder.relate b' node_to_sweep Relationship.observe in
      Builder.build (close sweep_cycle node_to_sweep) b'' executor
