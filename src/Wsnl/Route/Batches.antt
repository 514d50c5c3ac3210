-- ===== src/Wsnl/Route/Batches.antt =====
-- What the router of wavelet/src/wsnl/control.rs does with a batch.
use wavelet_rs.Prelude.{
  ◌≡◌, refl, sym, ◌∙◌, ap, subst, inl, inr, Bool, true, false, ◌==◌, ==_iff, List, [], ◌∷◌, ◌++◌,
  some, Bool-cases, Option-cases, length, set, Returns, returns, Returns-bind, Returns-map,
  Returns-if,
}
use wavelet_rs.Node.{NodeInner}
use wavelet_rs.Platform.{Platform}
use wavelet_rs.Scheduler.{Scheduler}
use wavelet_rs.Scheduler.Contents.{insert_entry}
use wavelet_rs.Scheduler.Order.{IsValid, contents, schedule-Schedules}
use wavelet_rs.Scheduling.Entries.{Waits, Waits-insert, Waits-insert_self}
use wavelet_rs.Executor.Context.{schedule_node}
use wavelet_rs.Factory.{lookup}
use wavelet_rs.Wsnl.Route.{Output, Routing, write, upgrade, deliver, route_item, route_items}
use wavelet_rs.Wsnl.Route.Receiving.{map_same, taken}
use wavelet_rs.Wsnl.Route.Delivery.{view, lookup-write}
use wavelet_rs.Wsnl.Route.Sharing.{outputs, Ready, Routes, idle-Routes, Routes-trans}
use wavelet_rs.Wsnl.Route.Writing.{Writes, Writes-Routes}

module _ (K : Platform) {T Key : Type 0} (eq : Key → Key → Bool)
    (sound : (k j : Key) → eq k j ≡ true → k ≡ j) (same : (k : Key) → eq k k ≡ true)
    (key_of : T → Key) where
  -- The same output again in this epoch.
  again :
      (item : T) (o : Output) (n : NodeInner (List T)) (r : Routing K T Key)
      → Ready K eq sound same key_of r
      → lookup eq (key_of item) r.cache ≡ some o
      → upgrade r.cells o.weak ≡ some n
      → o.epoch ≡ r.context.epoch
      → Writes K eq sound same key_of item o n r
          (record r { cells = set r.cells o.weak (record n { data_of = n.data_of ++ item ∷ [] }) })
  again item o n r h found live fresh = record {
    found = found;
    live = live;
    cells = (let yet : (o.epoch == r.context.epoch) ≡ true = (==_iff _ _).1 fresh in rw yet refl);
    cache = λ k. elim (Bool-cases (eq k (key_of item))) [
      | inl hit ↦ rw hit (
          ap (λ j. lookup eq j r.cache) (sound k (key_of item) hit)
          ∙ (found ∙ ap (λ e. some (record o { epoch = e })) fresh))
      | inr miss ↦ rw miss refl
    ];
    same_epoch = refl;
    waits = λ i w. w;
    queued_now = λ stale. absurd (stale fresh);
    valid = h.valid;
    same_depth = refl;
    same_length = refl;
  }

  -- The output's first item in this epoch, at a scheduler that has taken the output's node.
  first_item :
      (item : T) (o : Output) (n : NodeInner (List T)) (r : Routing K T Key) (t : Scheduler)
      → Ready K eq sound same key_of r
      → lookup eq (key_of item) r.cache ≡ some o
      → upgrade r.cells o.weak ≡ some n
      → (o.epoch == r.context.epoch) ≡ false
      → contents t ≡ insert_entry (n.depth, n.index) (contents r.context.scheduler)
      → t.curr_depth ≡ r.context.scheduler.curr_depth
      → length t.multi_queue ≡ length r.context.scheduler.multi_queue
      → IsValid t
      → Writes K eq sound same key_of item o n r (record {
        cache = write eq (key_of item) (record o { epoch = r.context.epoch }) r.cache;
        cells = set r.cells o.weak (record n { data_of = item ∷ [] });
        context = record (r.context) { scheduler = t };
      })
  first_item item o n r t h found live stale c d l v = record {
    found = found;
    live = live;
    cells = rw stale refl;
    cache = λ k.
        lookup-write eq sound same r.cache (key_of item) k (record o { epoch = r.context.epoch })
          found;
    same_epoch = refl;
    waits = λ i w. subst (Waits i) (sym c) (Waits-insert i (n.depth, n.index) _ w);
    queued_now = λ _. subst (Waits n.index) (sym c) (Waits-insert_self (n.depth, n.index) _);
    valid = v;
    same_depth = d;
    same_length = l;
  }

  deliver-Routes :
      (item : T) (o : Output) (n : NodeInner (List T)) (r : Routing K T Key)
      → Ready K eq sound same key_of r
      → lookup eq (key_of item) r.cache ≡ some o
      → upgrade r.cells o.weak ≡ some n
      → Returns
          (Routes K eq sound same key_of (item ∷ []) r)
          (deliver K eq (key_of item) item o n r)
  unfolding deliver schedule_node
  deliver-Routes item o n r h found live =
      Returns-if (o.epoch == r.context.epoch)
        (λ fresh. returns _ (
          Writes-Routes K eq sound same key_of item o n r _ h
            (again item o n r h found live ((==_iff _ _).0 fresh))))
        λ stale.
          (let here : outputs K eq sound same key_of r (key_of item) ≡ some (o, n) =
              rw (view, found, live) refl in
            let (low, high) = h.deep (key_of item) o n here in
            let (t, e, c, d, l, v) =
              taken r.context.scheduler n.index n.depth _
                (schedule-Schedules r.context.scheduler n.index n.depth h.valid) low high in
            rw e (
              returns _ (
                Writes-Routes K eq sound same key_of item o n r _ h
                  (first_item item o n r t h found live stale c d l v))))

  pub route_item-Routes :
      (item : T) (r : Routing K T Key)
      → Ready K eq sound same key_of r
      → Returns (Routes K eq sound same key_of (item ∷ []) r) (route_item K eq key_of item r)
  unfolding route_item
  route_item-Routes item r h = elim (Option-cases (lookup eq (key_of item) r.cache)) [
    | inl absent ↦
        rw (route_item, absent)
          (returns r (idle-Routes K eq sound same key_of r item h (rw (view, absent) refl)))
    | inr (o, found) ↦ elim (Option-cases (upgrade r.cells o.weak)) [
      | inl dead ↦
          rw (route_item, found, dead)
            (returns r (idle-Routes K eq sound same key_of r item h (rw (view, found, dead) refl)))
      | inr (n, live) ↦ rw (route_item, found, live) (deliver-Routes item o n r h found live)
    ]
  ]

  pub nothing-Routes :
      (r : Routing K T Key) → Ready K eq sound same key_of r → Routes K eq sound same key_of [] r r
  nothing-Routes r h = record {
    received = λ k. sym (map_same r.context.epoch (outputs K eq sound same key_of r k));
    scheduled = λ k o n there stale some_left. absurd (some_left refl);
    still_waits = λ i w. w;
    same_epoch = refl;
    ready = h;
  }

  -- Let the scheduler be valid, let every live output of the router have a depth that is not above
  -- the current one and has a queue, and let no two keys share an output. Then routing a batch
  -- returns without a panic. The output of each key has got, in their order, the items with that
  -- key and no others, behind what it got before in this cycle; an output that got none is as it
  -- was; and an output that got its first items of the cycle waits in the scheduler.
  pub route_items-Routes :
      (items : List T) (r : Routing K T Key)
      → Ready K eq sound same key_of r
      → Returns (Routes K eq sound same key_of items r) (route_items K eq key_of items r)
  unfolding route_items
  route_items-Routes [] r h = returns r (nothing-Routes r h)
  route_items-Routes (item ∷ items) r h = Returns-bind _ (route_item-Routes item r h) λ s p.
      Returns-map (λ t q. Routes-trans K eq sound same key_of (item ∷ []) items r s t p q)
        (route_items-Routes items s p.ready)
