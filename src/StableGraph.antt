-- ===== src/StableGraph.antt =====
-- petgraph's `StableGraph`, which wavelet/src/runtime/graph.rs uses as a library: the operations
-- that the code calls, and what their documentation says of them.
pub mod Slots
use wavelet_rs.Prelude.{
  ℕ, suc, ◌+◌, ◌≡◌, ◌≢◌, ◌≤◌, Bool, not, List, [], ◌∷◌, Option, none, some, ◌==◌, if◌then◌else◌,
  keep, All, AllDistinct, length,
}

-- An edge as `edges_directed` shows it: its weight and its target.
abbrev pub Link : Type 0 → Type 0
Link E = E × ℕ

abbrev pub is_live {ℓ} : {N : Type ℓ} → Option N → Bool
is_live none = Bool.false
is_live (some n) = Bool.true

pub record StableGraph (N E : Type 0) : Type 1 where
  pub Carrier : Type 0
  pub empty : Carrier
  -- `node_weight`, and the write through `node_weight_mut` or through an index.
  pub node_weight : Carrier → ℕ → Option N
  pub set_weight : Carrier → ℕ → N → Carrier
  pub add_node : Carrier → N → ℕ × Carrier
  pub add_edge : Carrier → ℕ → ℕ → E → Carrier
  pub remove_node : Carrier → ℕ → Carrier
  -- `edges_directed(_, Outgoing)`, in the order of the iterator.
  pub outgoing : Carrier → ℕ → List (Link E)
  pub node_count : Carrier → ℕ
  pub node_weight-empty : (i : ℕ) → node_weight empty i ≡ none
  pub node_weight-set_weight :
      (g : Carrier) (i j : ℕ) (n : N)
      → node_weight (set_weight g i n) j
        ≡ (if i == j then (if is_live (node_weight g i) then some n else none) else node_weight g j)
  pub outgoing-set_weight :
      (g : Carrier) (i j : ℕ) (n : N) → outgoing (set_weight g i n) j ≡ outgoing g j
  -- A new node takes a free index and has no edges.
  pub add_node_fresh : (g : Carrier) (n : N) → node_weight g (add_node g n).0 ≡ none
  pub node_weight-add_node :
      (g : Carrier) (n : N) (j : ℕ)
      → node_weight (add_node g n).1 j ≡ (if (add_node g n).0 == j then some n else node_weight g j)
  pub outgoing-add_node :
      (g : Carrier) (n : N) (j : ℕ)
      → outgoing (add_node g n).1 j ≡ (if (add_node g n).0 == j then [] else outgoing g j)
  pub node_weight-add_edge :
      (g : Carrier) (a b : ℕ) (e : E) (j : ℕ) → node_weight (add_edge g a b e) j ≡ node_weight g j
  -- The edges of a node are listed from the last one added.
  pub outgoing-add_edge :
      (g : Carrier) (a b : ℕ) (e : E) (j : ℕ)
      → node_weight g a ≢ none
      → outgoing (add_edge g a b e) j ≡ (if a == j then (e, b) ∷ outgoing g j else outgoing g j)
  pub node_weight-remove_node :
      (g : Carrier) (i j : ℕ)
      → node_weight (remove_node g i) j ≡ (if i == j then none else node_weight g j)
  pub outgoing-remove_node :
      (g : Carrier) (i j : ℕ)
      → outgoing (remove_node g i) j
        ≡ (if i == j then [] else keep (λ l. not (l.1 == i)) (outgoing g j))
  pub node_count-empty : node_count empty ≡ 0
  pub node_count-set_weight :
      (g : Carrier) (i : ℕ) (n : N) → node_count (set_weight g i n) ≡ node_count g
  pub node_count-add_node : (g : Carrier) (n : N) → node_count (add_node g n).1 ≡ suc (node_count g)
  pub node_count-add_edge :
      (g : Carrier) (a b : ℕ) (e : E) → node_count (add_edge g a b e) ≡ node_count g
  pub node_count-remove_node :
      (g : Carrier) (i : ℕ)
      → node_count g ≡ (
          if is_live (node_weight g i)
          then suc (node_count (remove_node g i))
          else node_count (remove_node g i))
  -- The count covers every node: as many different nodes as there are cannot be exceeded.
  pub node_count-bounds :
      (g : Carrier) (l : List ℕ)
      → AllDistinct l
      → All (λ i. node_weight g i ≢ none) l
      → length l ≤ node_count g
