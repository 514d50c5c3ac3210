-- ===== src/EventDriver/Io.antt =====
-- wavelet/src/runtime/event_driver/io_driver.rs: mio's sources, by tokens that are slab keys.
use wavelet_rs.Prelude.{
  ℕ, ◌-◌, List, [], ◌∷◌, Option, none, some, ◌==◌, if◌then◌else◌, usize_mod, Call, ret, panic,
  ◌>>=◌, Result, ok, err,
}
use wavelet_rs.Control.{Relationship}
use wavelet_rs.StableGraph.{StableGraph}
use wavelet_rs.Graph.{NodeContext}
use wavelet_rs.Scheduling.{Sched, must_schedule}
use wavelet_rs.Mio.{Mio}
use wavelet_rs.Slab.{Slab}

-- `usize::MAX`, the token of the waker.
abbrev pub waker_token : ℕ
waker_token = usize_mod - 1

module _ (M : Mio) (L : Slab ℕ) where
  pub record IoSource : Type 0 where
    pub source : M.Source
    pub token : ℕ

  pub record IoDriver : Type 0 where
    pub poller : M.Poller
    pub events : List ℕ
    pub indices : L.Carrier

  unfoldable pub with_capacity : ℕ → IoDriver
  with_capacity capacity = record {
    poller = M.new waker_token;
    events = [];
    indices = L.with_capacity capacity;
  }

  -- The entry is filled only after mio has taken the source.
  unfoldable pub register_source :
      IoDriver → M.Source → ℕ → M.Interest → Result IoSource M.IoError × IoDriver
  register_source d source idx interest =
      let token = L.vacant_key d.indices in
      let (answer, poller) = M.register d.poller source token interest in
      elim answer [
        | err e ↦ (err e, record d { poller = poller })
        | ok source' ↦ (
          ok (record { source = source'; token = token }),
          record d { poller = poller; indices = L.insert d.indices idx },
        )
      ]

  -- `Slab::remove` panics at a key that is not there.
  unfoldable pub deregister_source : IoDriver → IoSource → Call (Result ℕ M.IoError × IoDriver)
  deregister_source d source =
      let (answer, poller) = M.deregister d.poller source.source in
      elim answer [
        | err e ↦ ret (err e, record d { poller = poller })
        | ok _ ↦ elim (L.get d.indices source.token) [
          | none ↦ panic
          | some idx ↦
              ret (ok idx, record d { poller = poller; indices = L.remove d.indices source.token })
        ]
      ]

  unfoldable pub reregister_source :
      IoDriver → IoSource → M.Interest → Result IoSource M.IoError × IoDriver
  reregister_source d source interest =
      let (answer, poller) = M.reregister d.poller source.source source.token interest in
      elim answer [
        | err e ↦ (err e, record d { poller = poller })
        | ok source' ↦ (ok (record source { source = source' }), record d { poller = poller })
      ]

  module _ {F : Type 0} (P : StableGraph (NodeContext F) Relationship) where
    -- The events of one poll. Indexing the slab at a missing key panics.
    unfoldable pub handle_events : ℕ → L.Carrier → List ℕ → Sched P → Call (Sched P)
    handle_events epoch indices [] st = ret st
    handle_events epoch indices (token ∷ events) st =
        let others = handle_events epoch indices events in
        if token == waker_token then others st else elim (L.get indices token) [
          | none ↦ panic
          | some node_index ↦ must_schedule P epoch node_index st >>= others
        ]

    unfoldable pub poll :
        IoDriver
        → Sched P
        → Option ℕ
        → ℕ
        → Call (Result (Unit {0}) M.IoError × (IoDriver × Sched P))
    unfolding handle_events
    poll d st timeout epoch =
        let (answer, poller) = M.poll d.poller timeout in
        elim answer [
          | err e ↦ ret (err e, (record d { poller = poller; events = [] }, st))
          | ok events ↦ handle_events epoch d.indices events st >>= λ st'.
              ret (ok tt, (record d { poller = poller; events = events }, st'))
        ]
