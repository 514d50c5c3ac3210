-- ===== src/Wsnl/Switch.antt =====
-- The switches of wavelet/src/wsnl/control.rs: nodes that follow one of two sources.
pub mod Following
pub mod Building
use wavelet_rs.Prelude.{
  ℕ, ◌≡◌, refl, sym, ◌∙◌, ap, inl, inr, ◌⊎◌, Bool, true, false, not, ◌&&◌, List, [], ◌∷◌,
  if◌then◌else◌, Bool-cases,
}
use wavelet_rs.Control.{Control, from_bool}
use wavelet_rs.Node.{NodeInner}
use wavelet_rs.Platform.{Platform}
use wavelet_rs.Executor.{ExecutionContext}
use wavelet_rs.Executor.Context.{has_mutated}
use wavelet_rs.Wsnl.Transform.{is_empty}

-- The parents of a switch.
pub record Parents (D : Type 0) : Type 0 where
  pub primary : NodeInner D
  pub secondary : NodeInner D
  pub switch : NodeInner Bool

-- The state of a switch: which source it follows, and the node's data.
pub record Switch (D : Type 0) : Type 0 where
  pub use_primary : Bool
  pub this : D

module _ (K : Platform) {D : Type 0} (ctx : ExecutionContext K) (ps : Parents D) where
  abbrev pub switch_mutated : Bool
  switch_mutated = has_mutated K ps.switch.mut_epoch ctx

  abbrev pub primary_mutated : Bool
  primary_mutated = has_mutated K ps.primary.mut_epoch ctx

  abbrev pub secondary_mutated : Bool
  secondary_mutated = has_mutated K ps.secondary.mut_epoch ctx

module _ {T : Type 0} where
  -- `clear`, then `extend` by the clones.
  abbrev pub refill : List T → Bool → Control × Switch (List T)
  refill items first =
      (from_bool (not (is_empty items)), record { use_primary = first; this = items })

  abbrev pub drain : NodeInner (List T) → NodeInner (List T)
  drain n = record n { data_of = [] }

  abbrev pub adopt : T → Bool → Control × Switch T
  adopt item first = (Control.broadcast, record { use_primary = first; this = item })

module _ (K : Platform) {T : Type 0} where
  unfoldable pub switch_stream_cycle :
      Parents (List T) → Switch (List T) → ExecutionContext K → Control × Switch (List T)
  switch_stream_cycle ps s ctx =
      if switch_mutated K ctx ps
      then if ps.switch.data_of
        then refill ps.primary.data_of true
        else refill ps.secondary.data_of false
      else if s.use_primary && primary_mutated K ctx ps
      then refill ps.primary.data_of s.use_primary
      else if not s.use_primary && secondary_mutated K ctx ps
      then refill ps.secondary.data_of s.use_primary
      else (Control.unchanged, s)

  -- The drained source is left empty.
  unfoldable pub take_switch_stream_cycle :
      Parents (List T)
      → Switch (List T)
      → ExecutionContext K
      → (Control × Switch (List T)) × Parents (List T)
  take_switch_stream_cycle ps s ctx =
      if switch_mutated K ctx ps
      then if ps.switch.data_of
        then (refill ps.primary.data_of true, record ps { primary = drain ps.primary })
        else (refill ps.secondary.data_of false, record ps { secondary = drain ps.secondary })
      else if s.use_primary && primary_mutated K ctx ps
      then (refill ps.primary.data_of s.use_primary, record ps { primary = drain ps.primary })
      else if not s.use_primary && secondary_mutated K ctx ps
      then (refill ps.secondary.data_of s.use_primary, record ps { secondary = drain ps.secondary })
      else ((Control.unchanged, s), ps)

module _ (K : Platform) {T : Type 0} where
  unfoldable pub switch_cycle : Parents T → Switch T → ExecutionContext K → Control × Switch T
  switch_cycle ps s ctx =
      if switch_mutated K ctx ps
      then if ps.switch.data_of
        then adopt ps.primary.data_of true
        else adopt ps.secondary.data_of false
      else if s.use_primary && primary_mutated K ctx ps
      then adopt ps.primary.data_of s.use_primary
      else if not s.use_primary && secondary_mutated K ctx ps
      then adopt ps.secondary.data_of s.use_primary
      else (Control.unchanged, s)

  -- `std::mem::take` leaves the type's default.
  unfoldable pub take_switch_cycle :
      T → Parents T → Switch T → ExecutionContext K → (Control × Switch T) × Parents T
  take_switch_cycle default ps s ctx =
      let taken = record ps { primary = record (ps.primary) { data_of = default } } in
      let taken' = record ps { secondary = record (ps.secondary) { data_of = default } } in
      if switch_mutated K ctx ps
      then if ps.switch.data_of
        then (adopt ps.primary.data_of true, taken)
        else (adopt ps.secondary.data_of false, taken')
      else if s.use_primary && primary_mutated K ctx ps
      then (adopt ps.primary.data_of s.use_primary, taken)
      else if not s.use_primary && secondary_mutated K ctx ps
      then (adopt ps.secondary.data_of s.use_primary, taken')
      else ((Control.unchanged, s), ps)
