-- ===== src/ArrayQueue.antt =====
-- crossbeam's `ArrayQueue`, which the event driver and the channel use as a library: a bounded
-- queue, first in, first out. `items` is what it holds, the oldest first.
pub mod Bounded
use wavelet_rs.Prelude.{
  ℕ, ◌≡◌, ◌≤◌, ◌<◌, List, [], ◌∷◌, ◌++◌, Option, none, some, Result, ok, err, ltb, if◌then◌else◌,
  length,
}

pub record ArrayQueue (A : Type 0) : Type 1 where
  pub Carrier : Type 0
  pub new : ℕ → Carrier
  -- `push` gives the value back when the queue is full; `force_push` drops the oldest instead.
  pub push : Carrier → A → Result Carrier A
  pub force_push : Carrier → A → Option A × Carrier
  pub pop : Carrier → Option A × Carrier
  pub items : Carrier → List A
  pub capacity : Carrier → ℕ
  pub items-new : (c : ℕ) → items (new c) ≡ []
  pub capacity-new : (c : ℕ) → capacity (new c) ≡ c
  pub push_full : (q : Carrier) (a : A) → capacity q ≤ length (items q) → push q a ≡ err a
  pub push_room :
      (q : Carrier) (a : A)
      → length (items q) < capacity q
      → (r : Carrier) × (push q a ≡ ok r)
        × (items r ≡ items q ++ a ∷ [])
        × (capacity r ≡ capacity q)
  pub force_push_room :
      (q : Carrier) (a : A)
      → length (items q) < capacity q
      → ((force_push q a).0 ≡ none)
        × (items (force_push q a).1 ≡ items q ++ a ∷ [])
        × (capacity (force_push q a).1 ≡ capacity q)
  pub force_push_full :
      (q : Carrier) (a b : A) (rest : List A)
      → items q ≡ b ∷ rest
      → capacity q ≤ length (items q)
      → ((force_push q a).0 ≡ some b)
        × (items (force_push q a).1 ≡ rest ++ a ∷ [])
        × (capacity (force_push q a).1 ≡ capacity q)
  pub pop_nil : (q : Carrier) → items q ≡ [] → pop q ≡ (none, q)
  pub pop_cons :
      (q : Carrier) (a : A) (rest : List A)
      → items q ≡ a ∷ rest
      → ((pop q).0 ≡ some a) × (items (pop q).1 ≡ rest) × (capacity (pop q).1 ≡ capacity q)
