-- ===== src/Tests/Handles.antt =====
-- The builder's parents, the handles of a cell, the wait of a poll and the registration of sources, at
-- small inputs.
use wavelet_rs.Prelude.{ℕ, Option, ◌≢◌, ◌≡◌, refl, [], ◌∷◌, none, some, arith, Returns}
use wavelet_rs.Control.{Relationship}
use wavelet_rs.StableGraph.Slots.{slots}
use wavelet_rs.Slab.{Slab}
use wavelet_rs.EventDriver.Io
use wavelet_rs.Node.{RawHandle, NodeInner, is_exclusive}
use wavelet_rs.Node.Builder.{OnDrop}
use wavelet_rs.Node.Builder.Relating.{
  add_all, relationship_to, stronger, strongest, add_all-strongest,
}
use wavelet_rs.Node.Builder.Handles.{clone, upgrade, upgrade_weak, release}
use wavelet_rs.Node.Builder.Counting.{
  AllCalls, marks, handles-Removed, clones, upgrades, one_more, no_more,
}
use wavelet_rs.EventDriver.{spin}
use wavelet_rs.EventDriver
use wavelet_rs.EventDriver.Timer.{TimerDriver}
use wavelet_rs.EventDriver.Io.{IoDriver, deregister_source}
use wavelet_rs.EventDriver.Registration.{Undoes, deregister_source-Undoes}
use wavelet_rs.Executor.{Reach}
use wavelet_rs.Executor.Cycle.{sweep_loop}
use wavelet_rs.Tests.Sample.{sample, scripted, table, constant}
use wavelet_rs.Tests.Sweeps.{remaining, constant-OnlyMarks}

abbrev feed : RawHandle
feed = record { index = 3; depth = 1 }

abbrev config : RawHandle
config = record { index = 4; depth = 0 }

add_all-strongest_example :
    relationship_to feed (
      add_all [] (
        (feed, Relationship.observe)
        ∷ (config, Relationship.observe)
        ∷ (feed, Relationship.trigger)
        ∷ (feed, Relationship.observe)
        ∷ []))
    ≡ stronger none (
        strongest feed (
          (feed, Relationship.observe)
          ∷ (config, Relationship.observe)
          ∷ (feed, Relationship.trigger)
          ∷ (feed, Relationship.observe)
          ∷ []))
add_all-strongest_example =
    add_all-strongest
      ((feed, Relationship.observe)
        ∷ (config, Relationship.observe)
        ∷ (feed, Relationship.trigger)
        ∷ (feed, Relationship.observe)
        ∷ [])
      [] feed

-- The cell of the second node of the graph `remaining`, with a weak handle besides the graph's.
abbrev shared : NodeInner ℕ
shared = record {
  data_of = 8;
  index = 1;
  mut_epoch = 0;
  depth = 0;
  strong_count = 1;
  weak_count = 2;
}

abbrev keep_data : Option (OnDrop sample ℕ)
keep_data = some λ d r. record r { store = d }

abbrev reach : Reach sample
reach = record {
  event_driver = EventDriver.new _ _ _ spin;
  gc = record { removal_queue = 0 ∷ [] };
  store = 0;
}

-- What a clone and two failed attempts to own the cell alone leave.
abbrev left_over : NodeInner ℕ × Reach sample
left_over = let x = (upgrade keep_data (clone shared) reach).1 in (upgrade keep_data x.0 x.1).1

left_over-AllCalls : AllCalls keep_data (shared, reach) left_over
unfolding clone upgrade release is_exclusive
left_over-AllCalls = one_more _ _ _ (clones shared reach (λ none_left. cc)) (
    one_more _ _ _ (upgrades (clone shared) reach (λ none_left. cc))
      (one_more _ _ _ (upgrades _ reach (λ none_left. cc)) (no_more left_over)))

handles-Removed_example :
    (left_over.0.strong_count ≢ 0 → marks 1 left_over.1 ≡ 0)
    × (left_over.0.strong_count ≡ 0
        → (marks 1 left_over.1 ≡ 1)
          × (upgrade_weak left_over.0 ≡ none)
          × Returns
              (λ y. sample.graphs.node_weight y.graph 1 ≡ none)
              (sweep_loop sample constant 2 left_over.1.gc.removal_queue remaining))
unfolding slots
handles-Removed_example =
    handles-Removed constant keep_data shared reach left_over remaining 2 constant-OnlyMarks
      (λ d r. refl) (λ none_left. cc) refl left_over-AllCalls (omega arith)

abbrev timers : TimerDriver
timers = record { timers = (record { when = 20; id = 0 }, 1) ∷ []; sequence = 1 }

abbrev occupied : Slab.Carrier (table ℕ)
occupied = (table ℕ).insert ((table ℕ).with_capacity 4) 6

abbrev before : IoDriver scripted (table ℕ)
before = record { poller = []; events = []; indices = occupied }

abbrev after : IoDriver scripted (table ℕ)
after = record { poller = []; events = []; indices = (table ℕ).insert occupied 9 }

deregister_source-Undoes_example :
    Returns
      (Undoes scripted (table ℕ) before 9 after)
      (deregister_source scripted (table ℕ) after (record { source = 70; token = 1 }))
unfolding Io.register_source table
deregister_source-Undoes_example =
    deregister_source-Undoes scripted (table ℕ) before 70 9 1 (record { source = 70; token = 1 })
      after refl
