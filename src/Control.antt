-- ===== src/Control.antt =====
-- wavelet/src/lib.rs: how nodes relate, and what a node's cycle asks of the executor.
use wavelet_rs.Prelude.{Bool, true, false}

pub data Relationship : Type 0 where
  trigger observe : Relationship

pub data Control : Type 0 where
  broadcast unchanged terminate sweep : Control

-- `impl From<bool> for Control`.
unfoldable pub from_bool : Bool → Control
from_bool true = Control.broadcast
from_bool false = Control.unchanged

-- The tests that the enums derive.
abbrev pub is_trigger : Relationship → Bool
is_trigger Relationship.trigger = true
is_trigger Relationship.observe = false

abbrev pub is_broadcast : Control → Bool
is_broadcast Control.broadcast = true
is_broadcast _ = false
