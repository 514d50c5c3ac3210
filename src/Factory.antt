-- ===== src/Factory.antt =====
-- wavelet/src/factory/keyed.rs: a factory that makes a node at the first request for a key and hands
-- out the same node from then on. The attached function works on an executor `E` and does not reach
-- the factory itself, which the code's `RefCell` forbids with a panic.
pub mod Simple
use wavelet_rs.Prelude.{
  ◌≡◌, refl, Bool, true, List, [], ◌∷◌, Option, none, some, if◌then◌else◌, Call, ret, panic, ◌>>=◌,
  inl, inr, Option-cases, bind_assoc, bind_congr, ◌∙◌,
}

abbrev pub lookup : {K N : Type 0} → (K → K → Bool) → K → List (K × N) → Option N
lookup eq key [] = none
lookup eq key ((k, node) ∷ cache) = if eq key k then some node else lookup eq key cache

pub record KeyedFactory (K N E : Type 0) : Type 0 where
  pub cache : List (K × N)
  pub factory : Option (K → E → Call (N × E))

module _ {K N E : Type 0} where
  unfoldable pub new : KeyedFactory K N E
  new = record { cache = []; factory = none }

  unfoldable pub attach : KeyedFactory K N E → (K → E → Call (N × E)) → Call (KeyedFactory K N E)
  attach self f = elim self.factory [
    | none ↦ ret (record self { factory = some f })
    | some g ↦ panic
  ]

  unfoldable pub get :
      (K → K → Bool) → KeyedFactory K N E → E → K → Call (N × KeyedFactory K N E × E)
  get eq self executor key = elim (lookup eq key self.cache) [
    | some node ↦ ret (node, self, executor)
    | none ↦ elim self.factory [
      | none ↦ panic
      | some f ↦ f key executor >>= λ (node, executor').
          ret (node, record self { cache = (key, node) ∷ self.cache }, executor')
    ]
  ]

  -- If a key equals itself, a second request for it changes nothing: it gives the node of the first
  -- one, whether that one made the node or not, and leaves the factory and the executor as the
  -- first one has left them; and where the first one panics, there is no second.
  pub get-get :
      (eq : K → K → Bool)
      → ((k : K) → eq k k ≡ true)
      → (self : KeyedFactory K N E) (executor : E) (key : K)
      → (get eq self executor key >>= λ (node, self', executor'). get eq self' executor' key)
        ≡ get eq self executor key
  unfolding get
  get-get eq same self executor key = elim (Option-cases (lookup eq key self.cache)) [
    | inr (node, e) ↦ rw (get, e) (rw (get, e) refl)
    | inl absent ↦ elim (Option-cases self.factory) [
      | inl no_factory ↦ rw (get, absent, no_factory) refl
      | inr (f, e) ↦
          rw (get, absent, e)
            (bind_assoc (f key executor) _ _
              ∙ bind_congr (f key executor) λ r. rw (get, same key) refl)
    ]
  ]
