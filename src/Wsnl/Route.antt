-- ===== src/Wsnl/Route.antt =====
-- The router of wavelet/src/wsnl/control.rs: a node that hands the items of a batch to one output
-- node for each key. The outputs' cells are listed by their address; a weak handle is an address.
pub mod Delivery
pub mod Receiving
pub mod Sharing
pub mod Writing
pub mod Batches
pub mod Building
use wavelet_rs.Prelude.{
  ℕ, zero, suc, ◌+◌, Bool, true, false, not, ◌==◌, if◌then◌else◌, List, [], ◌∷◌, ◌++◌, Option, none,
  some, Call, ret, ◌>>=◌, ok, err, length, get_elem?, set,
}
use wavelet_rs.Control.{Control, Relationship, from_bool}
use wavelet_rs.ArrayQueue.{ArrayQueue}
use wavelet_rs.Scheduling.{expect}
use wavelet_rs.Collector.{GarbageCollector, mark_for_sweep}
use wavelet_rs.Node.{NodeInner, RawHandle}
use wavelet_rs.Node.Builder.{NodeBuilder, OnDrop}
use wavelet_rs.Node.Builder
use wavelet_rs.Platform.{Platform}
use wavelet_rs.Executor.{ExecutionContext, Executor}
use wavelet_rs.Executor.Context.{schedule_node}
use wavelet_rs.Channel.{Channel, TryReceiveError, try_receive}
use wavelet_rs.Channel
use wavelet_rs.Factory.{lookup}
use wavelet_rs.Wsnl.Transform.{is_empty}

-- A weak handle to an output, and the epoch at which it was cleared.
pub record Output : Type 0 where
  pub weak : ℕ
  pub epoch : ℕ

pub record Router (Key : Type 0) : Type 0 where
  pub parent : Option RawHandle
  pub cache : List (Key × Output)

unfoldable pub new : {Key : Type 0} → Option RawHandle → Router Key
new parent = record { parent = parent; cache = [] }

module _ {Key : Type 0} (eq : Key → Key → Bool) where
  -- The write through `get_mut`.
  abbrev pub write : Key → Output → List (Key × Output) → List (Key × Output)
  write key o [] = []
  write key o ((k, p) ∷ cache) = if eq key k then (k, o) ∷ cache else (k, p) ∷ write key o cache

  abbrev without : Key → List (Key × Output) → List (Key × Output)
  without key [] = []
  without key ((k, p) ∷ cache) = if eq key k then without key cache else (k, p) ∷ without key cache

module _ {T : Type 0} where
  -- `WeakNode::upgrade`: a cell with no strong handle is gone.
  unfoldable pub upgrade : List (NodeInner (List T)) → ℕ → Option (NodeInner (List T))
  upgrade cells weak = elim (get_elem? cells weak) [
    | none ↦ none
    | some n ↦ if n.strong_count == 0 then none else some n
  ]

  abbrev mark_outputs :
      {Key : Type 0}
      → List (NodeInner (List T))
      → List (Key × Output)
      → GarbageCollector
      → GarbageCollector
  mark_outputs cells [] gc = gc
  mark_outputs cells ((k, o) ∷ more) gc = elim (upgrade cells o.weak) [
    | none ↦ mark_outputs cells more gc
    | some n ↦ mark_outputs cells more (mark_for_sweep gc n.index)
  ]

  -- The `on_drop` of a router: its outputs are marked, and its cache is emptied.
  unfoldable pub drop_router :
      {Key : Type 0}
      → List (NodeInner (List T))
      → Router Key
      → GarbageCollector
      → Router Key × GarbageCollector
  drop_router cells r gc = (record r { cache = [] }, mark_outputs cells r.cache gc)

  -- An output's cycle function.
  unfoldable pub output_cycle : List T → Control × List T
  output_cycle this = (from_bool (not (is_empty this)), this)

module _ (K : Platform) (T Key : Type 0) where
  -- What a router's cycle works on.
  pub record Routing : Type 0 where
    pub cache : List (Key × Output)
    pub cells : List (NodeInner (List T))
    pub context : ExecutionContext K

module _ (K : Platform) {T Key : Type 0} (eq : Key → Key → Bool) where
  -- `close` gives the closure for an output at an address, and `forget` its `on_drop`, which takes the
  -- key out of the cache. The cell gets a second weak handle for the cache.
  unfoldable pub new_node :
      (Key → ℕ → K.Closure)
      → (Key → OnDrop K (List T))
      → Router Key
      → List (NodeInner (List T))
      → Executor K
      → Key
      → Call ((ℕ × ℕ) × List (NodeInner (List T)) × Executor K)
  new_node close forget r cells executor key =
      let address = length cells in
      let b : NodeBuilder K (List T) (Unit {0}) = Builder.new [] in
      Builder.on_drop b (forget key) >>= λ b'.
      let b'' : NodeBuilder K (List T) (Unit {0}) = elim r.parent [
        | none ↦ b'
        | some p ↦ Builder.relate b' p Relationship.observe
      ] in
      Builder.build (close key address) b'' executor >>= λ (cell, executor').
      ret ((address, 0), cells ++ record cell { weak_count = cell.weak_count + 1 } ∷ [], executor')

  abbrev hold : List (NodeInner (List T)) → ℕ → NodeInner (List T) → List (NodeInner (List T))
  hold cells weak n = set cells weak (record n { strong_count = n.strong_count + 1 })

  -- `Router::route`: the address of the output for the key, with a strong handle to it.
  unfoldable pub route :
      (Key → ℕ → K.Closure)
      → (Key → OnDrop K (List T))
      → Router Key
      → List (NodeInner (List T))
      → Executor K
      → Key
      → Call (ℕ × Router Key × List (NodeInner (List T)) × Executor K)
  route close forget r cells executor key =
      let make =
        new_node close forget r cells executor key >>= λ ((weak, epoch), cells', executor'). ret (
          weak,
          record r {
            cache = (key, record { weak = weak; epoch = epoch }) ∷ without eq key r.cache;
          },
          cells',
          executor',
        ) in
      elim (lookup eq key r.cache) [
        | none ↦ make
        | some o ↦ elim (upgrade cells o.weak) [
          | none ↦ make
          | some n ↦ ret (o.weak, r, hold cells o.weak n, executor)
        ]
      ]

  abbrev push : NodeInner (List T) → T → NodeInner (List T)
  push n item = record n { data_of = n.data_of ++ item ∷ [] }

  abbrev clear : NodeInner (List T) → NodeInner (List T)
  clear n = record n { data_of = [] }

  -- The first item of a cycle for an output clears it and schedules its node.
  unfoldable pub deliver :
      Key → T → Output → NodeInner (List T) → Routing K T Key → Call (Routing K T Key)
  deliver key item o n r =
      if o.epoch == r.context.epoch
      then ret (record r { cells = set r.cells o.weak (push n item) })
      else (schedule_node K n.index n.depth r.context >>= λ (answer, context').
          expect answer >>= λ _. ret (record {
            cache = write eq key (record o { epoch = r.context.epoch }) r.cache;
            cells = set r.cells o.weak (push (clear n) item);
            context = context';
          }))

  -- An item for which there is no output is dropped.
  unfoldable pub route_item : (T → Key) → T → Routing K T Key → Call (Routing K T Key)
  route_item key_of item r = elim (lookup eq (key_of item) r.cache) [
    | none ↦ ret r
    | some o ↦ elim (upgrade r.cells o.weak) [
      | none ↦ ret r
      | some n ↦ deliver (key_of item) item o n r
    ]
  ]

  unfoldable pub route_items : (T → Key) → List T → Routing K T Key → Call (Routing K T Key)
  route_items key_of [] r = ret r
  route_items key_of (item ∷ items) r = route_item key_of item r >>= route_items key_of items

  unfoldable pub route_stream_cycle :
      (T → Key) → List T → Routing K T Key → Call (Control × Routing K T Key)
  route_stream_cycle key_of source r =
      route_items key_of source r >>= λ r'. ret (Control.unchanged, r')

  -- The source is left empty.
  unfoldable pub take_route_stream_cycle :
      (T → Key) → List T → Routing K T Key → Call (Control × Routing K T Key × List T)
  take_route_stream_cycle key_of source r =
      route_items key_of source r >>= λ r'. ret (Control.unchanged, r', [])

  module _ (Q : ArrayQueue T) where
    -- `before n` is what the other threads do to the channel before the attempt of that number, and
    -- `within n` what they do between its two accesses; the count behind the key is the poll limit.
    unfoldable pub channel_route_stream_cycle :
        (ℕ → Channel Q → Channel Q)
        → (ℕ → Channel Q → Channel Q)
        → (T → Key)
        → ℕ
        → Channel Q
        → Routing K T Key
        → Call (Control × Channel Q × Routing K T Key)
    channel_route_stream_cycle before within key_of zero rx r = ret (Control.unchanged, rx, r)
    channel_route_stream_cycle before within key_of (suc limit) rx r =
        let (answer, rx') = try_receive Q (within limit) (before limit rx) in
        elim answer [
          | ok item ↦
              route_item key_of item r >>= channel_route_stream_cycle before within key_of limit rx'
          | err TryReceiveError.empty ↦ ret (Control.unchanged, rx', r)
          | err TryReceiveError.closed ↦ ret (Control.sweep, rx', r)
        ]
