-- ===== src/Tests/Gates.antt =====
-- What the builders of stream nodes leave in a graph of one node, which is both parents of a Boolean
-- node.
use wavelet_rs.Prelude.{◌≡◌, refl, some, Returns, false, true, ◌++◌, [], ◌∷◌, arith}
use wavelet_rs.Control.{Control}
use wavelet_rs.Graph.{new_node}
use wavelet_rs.EventDriver
use wavelet_rs.Executor.Context
use wavelet_rs.Wsnl.Time.{
  periodic_trigger_node, periodic_runs, IsSilent, periodic_trigger_node-IsSilent,
}
use wavelet_rs.Tests.Streams.{context}
use wavelet_rs.StableGraph.Slots.{slots}
use wavelet_rs.EventDriver.{spin}
use wavelet_rs.Executor.{Executor, new}
use wavelet_rs.Node.{RawHandle}
use wavelet_rs.Wsnl.Logic.Building.{LogicCycle}
use wavelet_rs.Wsnl.Logic.Following.{AllFollow, logic_nodes-Follows}
use wavelet_rs.Tests.Sample.{sample}
use wavelet_rs.Tests.Nodes.{root, root-IsWired}

abbrev close : LogicCycle → RawHandle → RawHandle → Control
close cycle left right = (cycle true true false).0

abbrev one_node : Executor sample
one_node = record (new sample spin 0) { graph = root }

abbrev top : RawHandle
top = record { index = 0; depth = 0 }

logic_nodes-Follows_example : AllFollow sample close one_node top top true
unfolding slots new
logic_nodes-Follows_example =
    logic_nodes-Follows sample close one_node top top root-IsWired
      (record { node = _; found = refl; at_depth = refl })
      (record { node = _; found = refl; at_depth = refl }) (omega arith, omega arith) true

periodic_trigger_node-IsSilent_example :
    Returns
      (λ out.
        (sample.graphs.node_weight out.1.graph out.0.index ≡ some (new_node Control.unchanged 0))
        × (out.1.event_driver.yield_driver.indices
            ≡ one_node.event_driver.yield_driver.indices ++ out.0.index ∷ [])
        × Returns (IsSilent sample) (periodic_runs sample 5 out.0.data_of (context ∷ context ∷ [])))
      (periodic_trigger_node sample (λ cycle. Control.unchanged) 5 one_node)
unfolding slots new Context.new EventDriver.new EventDriver.with_config EventDriver.default_config
periodic_trigger_node-IsSilent_example =
    periodic_trigger_node-IsSilent sample (λ cycle. Control.unchanged) 5 one_node
      (context ∷ context ∷ []) root-IsWired ((λ e. cc), ((λ e. cc), tt))
