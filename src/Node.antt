-- ===== src/Node.antt =====
-- wavelet/src/runtime/node.rs: node cells, the builder, and the closure that it puts into the graph.
pub mod Wrapping
pub mod Depth
pub mod Edges
pub mod Building
pub mod Builder
use wavelet_rs.Prelude.{
  ℕ, suc, ◌+◌, ◌-◌, ◌%◌, Bool, true, false, ◌&&◌, ◌==◌, if◌then◌else◌, List, [], ◌∷◌, Option, none,
  some, max, u32_mod, Call, ret, panic, ◌>>=◌,
}
use wavelet_rs.Control.{Control, Relationship, is_trigger, is_broadcast}
use wavelet_rs.StableGraph.{StableGraph}
use wavelet_rs.Graph.{NodeContext, new_node, add_node, add_edge}
use wavelet_rs.Scheduler.{enable_depth}
use wavelet_rs.Platform.{Platform}
use wavelet_rs.Executor.{Executor}

-- What a handle says of its node.
pub record RawHandle : Type 0 where
  pub index : ℕ
  pub depth : ℕ

-- The shared cell behind the handles, with the counts of its strong and of its weak handles. A
-- cell with no strong handle has been dropped.
pub record NodeInner (D : Type 0) : Type 0 where
  pub data_of : D
  pub index : ℕ
  pub mut_epoch : ℕ
  pub depth : ℕ
  pub strong_count : ℕ
  pub weak_count : ℕ

-- What a user's cycle function does: it answers, or it unwinds; the cell's data and the context
-- stay as they were left. The number is that of the strong handles to the cell that are left then,
-- besides the one that the call itself has: the function may clone and drop others.
pub data Outcome (D C : Type 0) : Type 0 where
  answered : Control → D → ℕ → C → Outcome D C
  unwound : D → ℕ → C → Outcome D C

module _ {D : Type 0} where
  unfoldable pub uninitialized : D → NodeInner D
  uninitialized d = record {
    data_of = d;
    index = 0;
    mut_epoch = 0;
    depth = 0;
    strong_count = 1;
    weak_count = 0;
  }

  unfoldable pub raw_handle : NodeInner D → RawHandle
  raw_handle n = record { index = n.index; depth = n.depth }

  unfoldable pub set_mut_epoch : NodeInner D → ℕ → NodeInner D
  set_mut_epoch n epoch = record n { mut_epoch = epoch }

  -- `Node::upgrade`: the handle becomes exclusive if it is the only strong one and the only weak
  -- one is the graph's.
  unfoldable pub is_exclusive : NodeInner D → Bool
  is_exclusive n = n.strong_count == 1 && n.weak_count == 1

  -- The arms for a cell that is alive. `epoch` reads the context's epoch after the call.
  unfoldable pub after_call :
      {C : Type 0} → (C → ℕ) → Bool → NodeInner D → Outcome D C → Call (Control × (NodeInner D × C))
  after_call epoch allow_panic n (answered ctrl d handles c) =
      let n' : NodeInner D = record n { data_of = d; strong_count = handles } in
      ret (ctrl, (if is_broadcast ctrl then set_mut_epoch n' (epoch c) else n', c))
  after_call epoch true n (unwound d handles c) = panic
  after_call epoch false n (unwound d handles c) =
      ret (Control.sweep, (record n { data_of = d; strong_count = handles }, c))

  -- The drop of the call's own handle, outside of the guard against panics. `drop_cell` is the drop of
  -- the cell, where the handle is the last one.
  unfoldable pub end_call :
      {C : Type 0}
      → (NodeInner D → C → Call C)
      → Control × (NodeInner D × C)
      → Call (Control × (NodeInner D × C))
  end_call drop_cell (ctrl, (n, c)) =
      if n.strong_count == 0
      then (drop_cell n c >>= λ c'. ret (ctrl, (n, c')))
      else ret (ctrl, (n, c))

  -- The closure that `build` and `build_with_channel` give to the graph: a weak handle to the cell,
  -- made strong for the call. The function is given the data and the number of the other handles.
  unfoldable pub weak_closure :
      {C : Type 0}
      → (C → ℕ)
      → Bool
      → (D → ℕ → C → Outcome D C)
      → (NodeInner D → C → Call C)
      → NodeInner D
      → C
      → Call (Control × (NodeInner D × C))
  unfolding after_call end_call
  weak_closure epoch allow_panic cycle_fn drop_cell n c =
      if n.strong_count == 0
      then ret (Control.sweep, (n, c))
      else after_call epoch allow_panic n (cycle_fn n.data_of n.strong_count c)
        >>= end_call drop_cell

  abbrev with_own : {C : Type 0} → Control × (NodeInner D × C) → Control × (NodeInner D × C)
  with_own (ctrl, (n, c)) = (ctrl, (record n { strong_count = n.strong_count + 1 }, c))

  -- The closure that `spawn` gives to the graph: it owns a strong handle, so that the cell is alive
  -- behind the call as well.
  unfoldable pub strong_closure :
      {C : Type 0}
      → (C → ℕ)
      → Bool
      → (D → ℕ → C → Outcome D C)
      → NodeInner D
      → C
      → Call (Control × (NodeInner D × C))
  unfolding after_call
  strong_closure epoch allow_panic cycle_fn n c =
      after_call epoch allow_panic n (cycle_fn n.data_of (n.strong_count - 1) c) >>= λ out.
      ret (with_own out)

-- The builder's parents: handles, each once, with the relationship to it.
abbrev pub Parents : Type 0
Parents = List (RawHandle × Relationship)

abbrev pub same_handle : RawHandle → RawHandle → Bool
same_handle a b = a.index == b.index && a.depth == b.depth

-- An observed parent can become a triggering one, never the other way round.
unfoldable pub add_relationship : Parents → RawHandle → Relationship → Parents
add_relationship [] parent relationship = (parent, relationship) ∷ []
add_relationship ((p, r) ∷ ps) parent relationship =
    if same_handle p parent
    then (p, if is_trigger relationship then relationship else r) ∷ ps
    else (p, r) ∷ add_relationship ps parent relationship

unfoldable pub add_many_relationships : Parents → List RawHandle → Relationship → Parents
add_many_relationships ps [] relationship = ps
add_many_relationships ps (p ∷ more) relationship =
    add_many_relationships (add_relationship ps p relationship) more relationship

unfoldable pub triggered_by : Parents → RawHandle → Parents
triggered_by ps parent = add_relationship ps parent Relationship.trigger

unfoldable pub observer_of : Parents → RawHandle → Parents
observer_of ps parent = add_relationship ps parent Relationship.observe

-- `iter().max()` of the parents' depths.
abbrev pub deepest : Parents → Option ℕ
deepest [] = none
deepest ((p, r) ∷ ps) = elim (deepest ps) [ none ↦ some p.depth | some d ↦ some (max p.depth d) ]

-- One below the deepest parent; the addition is one on u32.
unfoldable pub build_depth : Parents → ℕ
build_depth ps = elim (deepest ps) [ none ↦ 0 | some d ↦ (d + 1) % u32_mod ]

module _ {F : Type 0} (P : StableGraph (NodeContext F) Relationship) where
  unfoldable pub add_parents : P.Carrier → ℕ → Parents → Call P.Carrier
  add_parents g idx [] = ret g
  add_parents g idx ((p, r) ∷ ps) = add_edge P g p.index idx r >>= λ g'. add_parents g' idx ps

  -- The node and its edges.
  unfoldable pub attach : P.Carrier → F → Parents → Call (ℕ × P.Carrier)
  attach g cycle_fn ps =
      let (idx, g') = add_node P g (new_node cycle_fn (build_depth ps)) in
      add_parents g' idx ps >>= λ g''. ret (idx, g'')
