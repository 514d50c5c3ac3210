-- ===== src/Wsnl/Logic/Building.antt =====
-- The functions of wavelet/src/wsnl/logic.rs that build a Boolean node.
-- `close` gives the closure around a cycle function, with handles to the two parents.
use wavelet_rs.Prelude.{Bool, false, Call, ◌>>=◌}
use wavelet_rs.Control.{Control, Relationship}
use wavelet_rs.Executor.{Executor}
use wavelet_rs.Platform.{Platform}
use wavelet_rs.Node.{RawHandle, NodeInner}
use wavelet_rs.Node.Builder.{NodeBuilder}
use wavelet_rs.Node.Builder
use wavelet_rs.Wsnl.Bootstrap.{yield_first}
use wavelet_rs.Wsnl.Logic.{and_cycle, or_cycle, xor_cycle}

-- A cycle function of the values of two parents and of the node's own.
abbrev pub LogicCycle : Type 0
LogicCycle = Bool → Bool → Bool → Control × Bool

module _ (K : Platform) (close : LogicCycle → RawHandle → RawHandle → K.Closure) where
  abbrev Name : Type 0
  Name = Unit

  -- Both parents trigger the node.
  abbrev pub under : Bool → RawHandle → RawHandle → NodeBuilder K Bool Name
  under init left right =
      Builder.relate (Builder.relate (Builder.new init) left Relationship.trigger) right
        Relationship.trigger

  abbrev pub with_init :
      LogicCycle → RawHandle → RawHandle → Bool → Executor K → Call (NodeInner Bool × Executor K)
  with_init cycle left right init e =
      Builder.build (close cycle left right) (under init left right) e

  abbrev pub with_bootstrap :
      LogicCycle → RawHandle → RawHandle → Executor K → Call (NodeInner Bool × Executor K)
  with_bootstrap cycle left right e = Builder.on_init (under false left right) yield_first >>= λ b.
      Builder.build (close cycle left right) b e

  unfoldable pub and_node_with_init :
      RawHandle → RawHandle → Bool → Executor K → Call (NodeInner Bool × Executor K)
  and_node_with_init left right init e = with_init and_cycle left right init e

  unfoldable pub and_node : RawHandle → RawHandle → Executor K → Call (NodeInner Bool × Executor K)
  unfolding and_node_with_init
  and_node left right e = and_node_with_init left right false e

  unfoldable pub and_node_with_bootstrap :
      RawHandle → RawHandle → Executor K → Call (NodeInner Bool × Executor K)
  and_node_with_bootstrap left right e = with_bootstrap and_cycle left right e

  unfoldable pub or_node_with_init :
      RawHandle → RawHandle → Bool → Executor K → Call (NodeInner Bool × Executor K)
  or_node_with_init left right init e = with_init or_cycle left right init e

  unfoldable pub or_node : RawHandle → RawHandle → Executor K → Call (NodeInner Bool × Executor K)
  unfolding or_node_with_init
  or_node left right e = or_node_with_init left right false e

  unfoldable pub or_node_with_bootstrap :
      RawHandle → RawHandle → Executor K → Call (NodeInner Bool × Executor K)
  or_node_with_bootstrap left right e = with_bootstrap or_cycle left right e

  unfoldable pub xor_node_with_init :
      RawHandle → RawHandle → Bool → Executor K → Call (NodeInner Bool × Executor K)
  xor_node_with_init left right init e = with_init xor_cycle left right init e

  unfoldable pub xor_node : RawHandle → RawHandle → Executor K → Call (NodeInner Bool × Executor K)
  unfolding xor_node_with_init
  xor_node left right e = xor_node_with_init left right false e

  unfoldable pub xor_node_with_bootstrap :
      RawHandle → RawHandle → Executor K → Call (NodeInner Bool × Executor K)
  xor_node_with_bootstrap left right e = with_bootstrap xor_cycle left right e
