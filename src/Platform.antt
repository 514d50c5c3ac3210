-- ===== src/Platform.antt =====
-- What wavelet takes from elsewhere, for one program: the libraries that it calls, and the types
-- of the program's closures, of the values that they capture and of wall-clock times.
use wavelet_rs.Prelude.{ℕ}
use wavelet_rs.Control.{Relationship}
use wavelet_rs.StableGraph.{StableGraph}
use wavelet_rs.Graph.{NodeContext}
use wavelet_rs.ArrayQueue.{ArrayQueue}
use wavelet_rs.Mio.{Mio}
use wavelet_rs.Slab.{Slab}

pub record Platform : Type 1 where
  pub mio : Mio
  pub slab : Slab ℕ
  pub queue : ArrayQueue ℕ
  pub Closure : Type 0
  pub Spawn : Type 0
  pub Store : Type 0
  pub Time : Type 0
  pub graphs : StableGraph (NodeContext Closure) Relationship
