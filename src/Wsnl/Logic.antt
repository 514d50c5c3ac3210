-- ===== src/Wsnl/Logic.antt =====
-- wavelet/src/wsnl/logic.rs: Boolean nodes of two parents.
pub mod Building
pub mod Following
use wavelet_rs.Prelude.{◌≡◌, ◌≢◌, ◌↔◌, refl, Bool, true, false, xor, ◌&&◌, ◌||◌, []}
use wavelet_rs.Control.{Control, from_bool}
use wavelet_rs.Node.{RawHandle, Parents, triggered_by}

-- Both parents trigger the node.
unfoldable pub parents : RawHandle → RawHandle → Parents
parents left right = triggered_by (triggered_by [] left) right

abbrev update : Bool → Bool → Control × Bool
update new_value this = (from_bool (xor new_value this), new_value)

unfoldable pub and_cycle : Bool → Bool → Bool → Control × Bool
and_cycle left right this = update (left && right) this

unfoldable pub or_cycle : Bool → Bool → Bool → Control × Bool
or_cycle left right this = update (left || right) this

unfoldable pub xor_cycle : Bool → Bool → Bool → Control × Bool
xor_cycle left right this = update (xor left right) this

-- The node takes the value and broadcasts just if the value is not the one that it had.
abbrev pub Tracks : Bool → Bool → Control × Bool → Type 0
Tracks new_value this (control, value) =
    (value ≡ new_value) × ((control ≡ Control.broadcast) ↔ (this ≢ new_value))

update-Tracks : (v this : Bool) → Tracks v this (update v this)
unfolding from_bool xor
update-Tracks true true = (
  refl,
  ((λ e _. let clash : Control.unchanged ≡ Control.broadcast = e in cc), λ ne. absurd (ne refl)),
)
update-Tracks true false = (refl, ((λ _ e. cc), λ _. refl))
update-Tracks false true = (refl, ((λ _ e. cc), λ _. refl))
update-Tracks false false = (
  refl,
  ((λ e _. let clash : Control.unchanged ≡ Control.broadcast = e in cc), λ ne. absurd (ne refl)),
)

-- Each of the three nodes takes the conjunction, the disjunction or the exclusive disjunction of
-- its parents' values, and broadcasts just if its value changes.
pub logic-Tracks :
    (left right this : Bool)
    → Tracks (left && right) this (and_cycle left right this)
      × Tracks (left || right) this (or_cycle left right this)
      × Tracks (xor left right) this (xor_cycle left right this)
unfolding and_cycle or_cycle xor_cycle
logic-Tracks left right this = (
  update-Tracks (left && right) this,
  update-Tracks (left || right) this,
  update-Tracks (xor left right) this,
)
