-- ===== src/Wsnl/Route/Building.antt =====
-- The functions of wavelet/src/wsnl/control.rs that build a router. `close` gives the closure around a
-- cycle function, with the handle to the source; `outputs` says where the outputs' cells lie in the
-- store.
use wavelet_rs.Prelude.{ℕ, Bool, List, none, some, Call, ◌>>=◌}
use wavelet_rs.Control.{Control, Relationship}
use wavelet_rs.ArrayQueue.{ArrayQueue}
use wavelet_rs.EventDriver.{Notifier}
use wavelet_rs.Channel.{Channel}
use wavelet_rs.Node.{RawHandle, NodeInner}
use wavelet_rs.Node.Builder.{NodeBuilder, OnDrop}
use wavelet_rs.Node.Builder
use wavelet_rs.Platform.{Platform}
use wavelet_rs.Executor.{Executor}
use wavelet_rs.Wsnl.Route.{
  Router, Routing, new, drop_router, route_stream_cycle, take_route_stream_cycle,
  channel_route_stream_cycle,
}

module _ (K : Platform) {T Key : Type 0} (eq : Key → Key → Bool)
    (outputs : K.Store → List (NodeInner (List T))) where
  -- The outputs are marked for removal.
  unfoldable pub on_drop : OnDrop K (Router Key)
  unfolding drop_router
  on_drop this r = record r { gc = (drop_router (outputs r.store) this r.gc).1 }

  abbrev routed : RawHandle → Call (NodeBuilder K (Router Key) (Unit {0}))
  routed source =
      let b : NodeBuilder K (Router Key) (Unit {0}) = Builder.new (new (some source)) in
      Builder.on_drop (Builder.relate b source Relationship.trigger) on_drop

  unfoldable pub route_stream_node :
      ((List T → Routing K T Key → Call (Control × Routing K T Key)) → RawHandle → K.Closure)
      → (T → Key)
      → RawHandle
      → Executor K
      → Call (NodeInner (Router Key) × Executor K)
  unfolding route_stream_cycle new
  route_stream_node close route source executor =
      routed source >>= λ b. Builder.build (close (route_stream_cycle K eq route) source) b executor

  unfoldable pub take_route_stream_node :
      ((List T → Routing K T Key → Call (Control × Routing K T Key × List T))
        → RawHandle
        → K.Closure)
      → (T → Key)
      → RawHandle
      → Executor K
      → Call (NodeInner (Router Key) × Executor K)
  unfolding take_route_stream_cycle new
  take_route_stream_node close route source executor = routed source >>= λ b.
      Builder.build (close (take_route_stream_cycle K eq route) source) b executor

  -- The node with what the sender is made from. The channel's own closure gets the receiver.
  unfoldable pub channel_route_stream_node :
      (Q : ArrayQueue T)
      → (((ℕ → Channel Q → Channel Q)
            → (ℕ → Channel Q → Channel Q)
            → Channel Q
            → Routing K T Key
            → Call (Control × Channel Q × Routing K T Key))
          → K.Closure)
      → (T → Key)
      → ℕ
      → ℕ
      → Executor K
      → Call (NodeInner (Router Key) × (Channel Q × Notifier K.mio K.slab K.queue) × Executor K)
  unfolding channel_route_stream_cycle new
  channel_route_stream_node Q close route capacity poll_limit executor =
      let b : NodeBuilder K (Router Key) (Unit {0}) = Builder.new (new none) in
      Builder.on_drop b on_drop >>= λ b'.
      Builder.build_with_channel Q capacity
        (close (λ before within. channel_route_stream_cycle K eq Q before within route poll_limit))
        b' executor
