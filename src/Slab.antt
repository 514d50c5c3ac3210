-- ===== src/Slab.antt =====
-- slab's `Slab`, which the I/O driver uses as a library: values under keys that are reused.
use wavelet_rs.Prelude.{ℕ, ◌≡◌, Option, none, some, ◌==◌, if◌then◌else◌}

pub record Slab (A : Type 0) : Type 1 where
  pub Carrier : Type 0
  pub with_capacity : ℕ → Carrier
  -- The key that `vacant_entry` offers, and the insertion through that entry.
  pub vacant_key : Carrier → ℕ
  pub insert : Carrier → A → Carrier
  pub get : Carrier → ℕ → Option A
  -- `remove` at a key that is there.
  pub remove : Carrier → ℕ → Carrier
  pub get-with_capacity : (c k : ℕ) → get (with_capacity c) k ≡ none
  pub get-vacant_key : (s : Carrier) → get s (vacant_key s) ≡ none
  pub get-insert :
      (s : Carrier) (a : A) (k : ℕ)
      → get (insert s a) k ≡ (if vacant_key s == k then some a else get s k)
  pub get-remove : (s : Carrier) (j k : ℕ) → get (remove s j) k ≡ (if j == k then none else get s k)
