-- ===== src/Wsnl/Switch/Following.antt =====
-- What the switches of wavelet/src/wsnl/control.rs hold.
use wavelet_rs.Prelude.{
  ◌≡◌, refl, sym, ◌∙◌, ap, Bool, true, false, not, ◌&&◌, List, [], Option, none, some,
  if◌then◌else◌, subst,
}
use wavelet_rs.Control.{Control, from_bool}
use wavelet_rs.Platform.{Platform}
use wavelet_rs.Executor.{ExecutionContext}
use wavelet_rs.Wsnl.Transform.{is_empty}
use wavelet_rs.Wsnl.Switch.{
  Parents, Switch, switch_mutated, primary_mutated, secondary_mutated, refill, adopt, drain,
  switch_stream_cycle, take_switch_stream_cycle, switch_cycle, take_switch_cycle,
}

-- The source that is read, if one is: for whether the switch has mutated and what it says, whether
-- the sources have mutated, and the source that was followed.
pick : Bool → Bool → Bool → Bool → Bool → Option Bool
pick true d pm qm u = some d
pick false d true qm true = some true
pick false d false qm true = none
pick false d pm true false = some false
pick false d pm false false = none

module _ {A : Type 0} (x y : Bool → A) (z : A) where
  abbrev read : Option Bool → A
  read none = z
  read (some true) = x true
  read (some false) = y false

  nest-pick :
      (sm d pm qm u : Bool)
      → (if sm
          then if d then x true else y false
          else if u && pm
          then x u
          else if not u && qm
          then y u
          else z)
        ≡ read (pick sm d pm qm u)
  unfolding pick
  nest-pick true true pm qm u = refl
  nest-pick true false pm qm u = refl
  nest-pick false d true qm true = refl
  nest-pick false d false qm true = refl
  nest-pick false d pm true false = refl
  nest-pick false d pm false false = refl

read-map :
    {A B : Type 0} (f : A → B) (x y : Bool → A) (z : A) (o : Option Bool)
    → f (read x y z o) ≡ read (λ b. f (x b)) (λ b. f (y b)) (f z) o
read-map f x y z none = refl
read-map f x y z (some true) = refl
read-map f x y z (some false) = refl

pick-some :
    (sm d pm qm u : Bool) {b : Bool} → pick sm d pm qm u ≡ some b → (sm ≡ false → u ≡ d) → b ≡ d
unfolding pick
pick-some true d pm qm u e h = cc
pick-some false d true qm true e h = let same = h refl in cc
pick-some false d false qm true e h = cc
pick-some false d pm true false e h = let same = h refl in cc
pick-some false d pm false false e h = cc

pick-none :
    (sm d pm qm u : Bool)
    → pick sm d pm qm u ≡ none
    → (sm ≡ false) × ((if u then pm else qm) ≡ false)
unfolding pick
pick-none true d pm qm u e = cc
pick-none false d true qm true e = cc
pick-none false d false qm true e = (refl, refl)
pick-none false d pm true false e = cc
pick-none false d pm false false e = (refl, refl)

module _ {D : Type 0} where
  -- The data of the source that the switch selects.
  abbrev pub selected : Parents D → D
  selected ps = if ps.switch.data_of then ps.primary.data_of else ps.secondary.data_of

  -- The node holds what it would pass on.
  pub record InStep (ps : Parents D) (s : Switch D) : Type 0 where
    pub follows : s.use_primary ≡ ps.switch.data_of
    pub holds : s.this ≡ selected ps

module _ (K : Platform) {D : Type 0} (ctx : ExecutionContext K) where
  picked : Parents D → Switch D → Option Bool
  picked qs s =
      pick (switch_mutated K ctx qs) qs.switch.data_of (primary_mutated K ctx qs)
        (secondary_mutated K ctx qs) s.use_primary

  -- The parents in the next cycle: a parent that has not mutated in it holds what it held.
  pub record Next (ps qs : Parents D) : Type 0 where
    pub switch_kept : switch_mutated K ctx qs ≡ false → qs.switch.data_of ≡ ps.switch.data_of
    pub primary_kept : primary_mutated K ctx qs ≡ false → qs.primary.data_of ≡ ps.primary.data_of
    pub secondary_kept :
        secondary_mutated K ctx qs ≡ false → qs.secondary.data_of ≡ ps.secondary.data_of

  module _ (ps qs : Parents D) (s : Switch D) (n : Next ps qs) (h : InStep ps s) where
    -- A source that has not mutated holds what the node holds.
    not_read :
        (b d d' pm qm : Bool)
        → b ≡ d
        → d' ≡ d
        → (pm ≡ false → qs.primary.data_of ≡ ps.primary.data_of)
        → (qm ≡ false → qs.secondary.data_of ≡ ps.secondary.data_of)
        → (if b then pm else qm) ≡ false
        → (if d then ps.primary.data_of else ps.secondary.data_of)
          ≡ (if d' then qs.primary.data_of else qs.secondary.data_of)
    not_read b true true pm qm e e' p q f =
        sym (p (subst (λ x. (if x then pm else qm) ≡ false) e f))
    not_read b false false pm qm e e' p q f =
        sym (q (subst (λ x. (if x then pm else qm) ≡ false) e f))
    not_read b true false pm qm e e' p q f = cc
    not_read b false true pm qm e e' p q f = cc

    step : Bool → D → Switch D
    step b d = record { use_primary = b; this = d }

    read-InStep :
        (o : Option Bool)
        → picked qs s ≡ o
        → InStep qs (read (λ b. step b qs.primary.data_of) (λ b. step b qs.secondary.data_of) s o)
    unfolding picked step
    read-InStep none e =
        let (still, unread) = pick-none _ _ _ _ _ e in
        let same = n.switch_kept still in
        record {
          follows = h.follows ∙ sym same;
          holds =
              h.holds
              ∙ not_read s.use_primary ps.switch.data_of qs.switch.data_of _ _ h.follows same
                  n.primary_kept n.secondary_kept unread;
        }
    read-InStep (some true) e =
        let d = pick-some _ _ _ _ _ e (λ still. h.follows ∙ sym (n.switch_kept still)) in
        record {
          follows = d;
          holds = ap (λ b. if b then qs.primary.data_of else qs.secondary.data_of) d;
        }
    read-InStep (some false) e =
        let d = pick-some _ _ _ _ _ e (λ still. h.follows ∙ sym (n.switch_kept still)) in
        record {
          follows = d;
          holds = ap (λ b. if b then qs.primary.data_of else qs.secondary.data_of) d;
        }

-- What is left of the sources: as they were, if the node does not change; else the source that
-- the node follows now has `default` in the place of its data, which the node has got.
pub data Takes {D : Type 0} (default : D) (ps : Parents D)
    : (Control × Switch D) × Parents D → Type 0 where
  nothing : (s : Switch D) → Takes default ps ((Control.unchanged, s), ps)
  from_primary :
      (c : Control) (s : Switch D)
      → s.use_primary ≡ true
      → s.this ≡ ps.primary.data_of
      → Takes default ps ((c, s), record ps { primary = record (ps.primary) { data_of = default } })
  from_secondary :
      (c : Control) (s : Switch D)
      → s.use_primary ≡ false
      → s.this ≡ ps.secondary.data_of
      → Takes default ps
          ((c, s), record ps { secondary = record (ps.secondary) { data_of = default } })

read-Takes :
    {D : Type 0} (default : D) (ps : Parents D) (s : Switch D) (f : D → Control) (o : Option Bool)
    → Takes default ps (
        read
          (λ b. (
            (f ps.primary.data_of, record { use_primary = b; this = ps.primary.data_of }),
            record ps { primary = record (ps.primary) { data_of = default } },
          ))
          (λ b. (
            (f ps.secondary.data_of, record { use_primary = b; this = ps.secondary.data_of }),
            record ps { secondary = record (ps.secondary) { data_of = default } },
          ))
          ((Control.unchanged, s), ps)
          o)
read-Takes default ps s f none = nothing s
read-Takes default ps s f (some true) = from_primary _ _ refl refl
read-Takes default ps s f (some false) = from_secondary _ _ refl refl

module _ (K : Platform) {T : Type 0} (ctx : ExecutionContext K) where
  switch_cycle-read :
      (qs : Parents T) (s : Switch T)
      → switch_cycle K qs s ctx
        ≡ read
            (adopt qs.primary.data_of)
            (adopt qs.secondary.data_of)
            (Control.unchanged, s)
            (picked K ctx qs s)
  unfolding switch_cycle picked
  switch_cycle-read qs s =
      nest-pick (adopt qs.primary.data_of) (adopt qs.secondary.data_of) (Control.unchanged, s) _ _ _
        _ _

  switch_stream_cycle-read :
      (qs : Parents (List T)) (s : Switch (List T))
      → switch_stream_cycle K qs s ctx
        ≡ read
            (refill qs.primary.data_of)
            (refill qs.secondary.data_of)
            (Control.unchanged, s)
            (picked K ctx qs s)
  unfolding switch_stream_cycle picked
  switch_stream_cycle-read qs s =
      nest-pick (refill qs.primary.data_of) (refill qs.secondary.data_of) (Control.unchanged, s) _ _
        _ _ _

  -- Let a switch hold the data of the source that its control selects, and let a parent that has not
  -- mutated in the next cycle hold what it held. Then the switch, run in that cycle, again follows
  -- its control and holds the data of the source that is selected now, be it a switch of single
  -- values or of batches.
  pub switch_cycle-InStep :
      (ps qs : Parents T) (s : Switch T) (ps' qs' : Parents (List T)) (s' : Switch (List T))
      → Next K ctx ps qs
      → InStep ps s
      → Next K ctx ps' qs'
      → InStep ps' s'
      → InStep qs (switch_cycle K qs s ctx).1 × InStep qs' (switch_stream_cycle K qs' s' ctx).1
  unfolding step
  switch_cycle-InStep ps qs s ps' qs' s' n h n' h' = (
    subst (InStep qs)
        (sym (
          ap (λ r. r.1) (switch_cycle-read qs s)
          ∙ read-map (λ (r : Control × Switch T). r.1) (adopt qs.primary.data_of)
              (adopt qs.secondary.data_of) (Control.unchanged, s) (picked K ctx qs s)))
        (read-InStep K ctx ps qs s n h _ refl),
    subst (InStep qs')
        (sym (
          ap (λ r. r.1) (switch_stream_cycle-read qs' s')
          ∙ read-map (λ (r : Control × Switch (List T)). r.1) (refill qs'.primary.data_of)
              (refill qs'.secondary.data_of) (Control.unchanged, s') (picked K ctx qs' s')))
        (read-InStep K ctx ps' qs' s' n' h' _ refl),
  )

  -- A switch that takes answers and holds what the switch that clones would, for single values and
  -- for batches; and it takes the data of just the source that it follows then, if it changes.
  pub take_switch_cycle-switch_cycle :
      (default : T) (ps : Parents T) (s : Switch T) (ps' : Parents (List T)) (s' : Switch (List T))
      → ((take_switch_cycle K default ps s ctx).0 ≡ switch_cycle K ps s ctx)
        × Takes default ps (take_switch_cycle K default ps s ctx)
        × ((take_switch_stream_cycle K ps' s' ctx).0 ≡ switch_stream_cycle K ps' s' ctx)
        × Takes [] ps' (take_switch_stream_cycle K ps' s' ctx)
  unfolding take_switch_cycle take_switch_stream_cycle picked
  take_switch_cycle-switch_cycle default ps s ps' s' =
      let x : Bool → (Control × Switch T) × Parents T = λ b. (
        adopt ps.primary.data_of b,
        record ps { primary = record (ps.primary) { data_of = default } },
      ) in
      let y : Bool → (Control × Switch T) × Parents T = λ b. (
        adopt ps.secondary.data_of b,
        record ps { secondary = record (ps.secondary) { data_of = default } },
      ) in
      let x' : Bool → (Control × Switch (List T)) × Parents (List T) =
        λ b. (refill ps'.primary.data_of b, record ps' { primary = drain ps'.primary }) in
      let y' : Bool → (Control × Switch (List T)) × Parents (List T) =
        λ b. (refill ps'.secondary.data_of b, record ps' { secondary = drain ps'.secondary }) in
      let e =
        nest-pick x y ((Control.unchanged, s), ps) (switch_mutated K ctx ps) ps.switch.data_of
          (primary_mutated K ctx ps) (secondary_mutated K ctx ps) s.use_primary in
      let e' =
        nest-pick x' y' ((Control.unchanged, s'), ps') (switch_mutated K ctx ps') ps'.switch.data_of
          (primary_mutated K ctx ps') (secondary_mutated K ctx ps') s'.use_primary in
      (
        ap (λ r. r.0) e
            ∙ (read-map (λ (r : (Control × Switch T) × Parents T). r.0) x y
                  ((Control.unchanged, s), ps) (picked K ctx ps s)
                ∙ sym (switch_cycle-read ps s)),
        subst (Takes default ps) (sym e) (read-Takes default ps s (λ _. Control.broadcast) _),
        ap (λ r. r.0) e'
            ∙ (read-map (λ (r : (Control × Switch (List T)) × Parents (List T)). r.0) x' y'
                  ((Control.unchanged, s'), ps') (picked K ctx ps' s')
                ∙ sym (switch_stream_cycle-read ps' s')),
        subst (Takes [] ps') (sym e')
            (read-Takes [] ps' s' (λ items. from_bool (not (is_empty items))) _),
      )
