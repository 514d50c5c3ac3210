-- ===== src/Tests/Routes.antt =====
-- The switches and the router at small inputs.
use wavelet_rs.Prelude.{
  ℕ, ◌%◌, ◌≡◌, refl, sym, List, [], ◌∷◌, some, true, false, not, ap, Bool, ◌==◌, arith, Returns,
  eq_of_some,
}
use wavelet_rs.EventDriver.{spin}
use wavelet_rs.EventDriver
use wavelet_rs.Node.{NodeInner}
use wavelet_rs.Executor.{ExecutionContext}
use wavelet_rs.Executor.Context
use wavelet_rs.Wsnl.Switch.{
  Parents, switch_cycle, switch_stream_cycle, take_switch_cycle, take_switch_stream_cycle,
}
use wavelet_rs.Wsnl.Switch.Following.{
  InStep, Takes, switch_cycle-InStep, take_switch_cycle-switch_cycle,
}
use wavelet_rs.Wsnl.Route.{Output, Routing, route_items, upgrade}
use wavelet_rs.Wsnl.Route.Delivery.{view, Apart}
use wavelet_rs.Wsnl.Route.Sharing.{Ready, Routes}
use wavelet_rs.Wsnl.Route.Batches.{route_items-Routes}
use wavelet_rs.Tests.Sample.{sample}

-- The third cycle.
abbrev context : ExecutionContext sample
context =
    Context.new sample (EventDriver.new _ _ _ spin)
      (record { multi_queue = [] ∷ [] ∷ []; curr_depth = 1; pending_events = 0 }) []
      (record { instant = 0; unix_time = 0 }) 3 (record { removal_queue = [] }) 0

abbrev cell : {D : Type 0} → ℕ → ℕ → D → NodeInner D
cell index mut_epoch d = record {
  data_of = d;
  index = index;
  mut_epoch = mut_epoch;
  depth = 1;
  strong_count = 1;
  weak_count = 1;
}

-- The switch has changed to the secondary source.
abbrev values : Bool → ℕ → Parents ℕ
values control mut_epoch = record {
  primary = cell 0 2 10;
  secondary = cell 1 1 20;
  switch = cell 2 mut_epoch control;
}

abbrev batches : Bool → ℕ → Parents (List ℕ)
batches control mut_epoch = record {
  primary = cell 0 2 (10 ∷ []);
  secondary = cell 1 1 (20 ∷ 21 ∷ []);
  switch = cell 2 mut_epoch control;
}

switch_cycle-InStep_example :
    InStep
      (values false 3)
      (switch_cycle sample (values false 3) (record { use_primary = true; this = 10 }) context).1
    × InStep
        (batches false 3)
        (switch_stream_cycle sample
          (batches false 3)
          (record { use_primary = true; this = 10 ∷ [] })
          context).1
unfolding Context.new Context.has_mutated
switch_cycle-InStep_example =
    switch_cycle-InStep sample context (values true 1) (values false 3)
      (record { use_primary = true; this = 10 }) (batches true 1) (batches false 3)
      (record { use_primary = true; this = 10 ∷ [] })
      (record {
        switch_kept = λ e. (let no = e in cc);
        primary_kept = λ e. refl;
        secondary_kept = λ e. refl;
      })
      (record { follows = refl; holds = refl })
      (record {
        switch_kept = λ e. (let no = e in cc);
        primary_kept = λ e. refl;
        secondary_kept = λ e. refl;
      })
      (record { follows = refl; holds = refl })

-- Its cells are drained where they are taken.
take_switch_cycle-switch_cycle_example :
    ((take_switch_cycle sample 0
        (values false 3)
        (record { use_primary = true; this = 10 })
        context).0
      ≡ switch_cycle sample (values false 3) (record { use_primary = true; this = 10 }) context)
    × Takes 0 (values false 3) (
        take_switch_cycle sample 0
          (values false 3)
          (record { use_primary = true; this = 10 })
          context)
    × ((take_switch_stream_cycle sample
          (batches false 3)
          (record { use_primary = true; this = [] })
          context).0
        ≡ switch_stream_cycle sample
            (batches false 3)
            (record { use_primary = true; this = [] })
            context)
    × Takes [] (batches false 3) (
        take_switch_stream_cycle sample
          (batches false 3)
          (record { use_primary = true; this = [] })
          context)
take_switch_cycle-switch_cycle_example =
    take_switch_cycle-switch_cycle sample context 0 (values false 3)
      (record { use_primary = true; this = 10 }) (batches false 3)
      (record { use_primary = true; this = [] })

abbrev agree : Bool → Bool → Bool
agree true b = b
agree false b = not b

agree_sound : (k j : Bool) → agree k j ≡ true → k ≡ j
agree_sound true true e = refl
agree_sound true false e = cc
agree_sound false true e = cc
agree_sound false false e = refl

agree_refl : (k : Bool) → agree k k ≡ true
agree_refl true = refl
agree_refl false = refl

abbrev is_odd : ℕ → Bool
is_odd n = n % 2 == 1

-- A router by parity: the output for the even numbers was cleared in an older cycle, the one for the
-- odd numbers in this cycle.
abbrev routing : Routing sample ℕ Bool
routing = record {
  cache = (false, record { weak = 0; epoch = 1 }) ∷ (true, record { weak = 1; epoch = 3 }) ∷ [];
  cells = cell 4 1 (90 ∷ []) ∷ cell 5 2 (1 ∷ []) ∷ [];
  context = context;
}

routing_depth :
    (k : Bool) (o : Output) (n : NodeInner (List ℕ))
    → view agree agree_sound agree_refl sample routing k ≡ some (o, n)
    → n.depth ≡ 1
unfolding upgrade
routing_depth true o n e =
    let shown = eq_of_some e in ap (λ (x : Output × NodeInner (List ℕ)). x.1.depth) (sym shown)
routing_depth false o n e =
    let shown = eq_of_some e in ap (λ (x : Output × NodeInner (List ℕ)). x.1.depth) (sym shown)

routing-Apart : Apart agree agree_sound agree_refl sample routing
routing-Apart true true o p fk fj shared = refl
routing-Apart true false o p fk fj shared = absurd (
    omega (
      arith,
      shared,
      ap (λ (x : Output). x.weak) (eq_of_some fk),
      ap (λ (x : Output). x.weak) (eq_of_some fj),
    ))
routing-Apart false true o p fk fj shared = absurd (
    omega (
      arith,
      shared,
      ap (λ (x : Output). x.weak) (eq_of_some fk),
      ap (λ (x : Output). x.weak) (eq_of_some fj),
    ))
routing-Apart false false o p fk fj shared = refl

routing-Ready : Ready sample agree agree_sound agree_refl is_odd routing
unfolding Context.new
routing-Ready = record {
  valid = record { counted = refl; drained = (refl, tt) };
  deep = λ k o n e. (let d = routing_depth k o n e in (omega (arith, d), omega (arith, d)));
  apart = routing-Apart;
}

route_items-Routes_example :
    Returns
      (Routes sample agree agree_sound agree_refl is_odd (3 ∷ 4 ∷ 5 ∷ 6 ∷ []) routing)
      (route_items sample agree is_odd (3 ∷ 4 ∷ 5 ∷ 6 ∷ []) routing)
route_items-Routes_example =
    route_items-Routes sample agree agree_sound agree_refl is_odd (3 ∷ 4 ∷ 5 ∷ 6 ∷ []) routing
      routing-Ready
