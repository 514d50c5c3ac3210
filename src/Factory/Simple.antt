-- ===== src/Factory/Simple.antt =====
-- wavelet/src/factory/simple.rs: a factory that makes its node at the first request and hands out the
-- same node from then on. As in the keyed factory, the attached function works on an executor `E`.
use wavelet_rs.Prelude.{
  ◌≡◌, refl, sym, ◌∙◌, Option, none, some, Call, ret, panic, ◌>>=◌, bind_assoc, bind_congr,
}

pub record SimpleFactory (N E : Type 0) : Type 0 where
  pub node : Option N
  pub factory : Option (E → Call (N × E))

module _ {N E : Type 0} where
  unfoldable pub new : SimpleFactory N E
  new = record { node = none; factory = none }

  unfoldable pub attach : SimpleFactory N E → (E → Call (N × E)) → Call (SimpleFactory N E)
  attach self f = elim self.factory [
    | none ↦ ret (record self { factory = some f })
    | some g ↦ panic
  ]

  -- The attached function is taken out and called once.
  unfoldable pub get : SimpleFactory N E → E → Call (N × SimpleFactory N E × E)
  get self executor = elim self.node [
    | some node ↦ ret (node, self, executor)
    | none ↦ elim self.factory [
      | none ↦ panic
      | some f ↦ f executor >>= λ (node, executor').
          ret (node, record { node = some node; factory = none }, executor')
    ]
  ]

  -- A factory that has its node does not need the function any more.
  pub record IsSpent (self : SimpleFactory N E) : Type 0 where
    pub spent : (node : N) → self.node ≡ some node → self.factory ≡ none

  -- A request, and what it gives: the node and the executor.
  abbrev pub request : SimpleFactory N E → E → Call (N × E)
  request self executor = get self executor >>= λ (r : N × SimpleFactory N E × E). ret (r.0, r.2)

  -- A request, then the attachment of `f`, then another request.
  abbrev pub request_again : SimpleFactory N E → (E → Call (N × E)) → E → Call (N × E)
  request_again self f executor = get self executor >>= λ (r : N × SimpleFactory N E × E).
      attach r.1 f >>= λ (self' : SimpleFactory N E). request self' r.2

  again-request :
      (o : Option N) (g : Option (E → Call (N × E))) (f : E → Call (N × E)) (executor : E)
      → ((node : N) → o ≡ some node → g ≡ none)
      → request_again (record { node = o; factory = g }) f executor
        ≡ request (record { node = o; factory = g }) executor
  unfolding get attach
  again-request (some node) none f executor s = refl
  again-request (some node) (some g) f executor s = let no = s node refl in cc
  again-request none none f executor s = refl
  again-request none (some g) f executor s =
      bind_assoc (g executor) _ _
      ∙ (bind_congr (g executor) (λ r. refl) ∙ sym (bind_assoc (g executor) _ _))

  -- Take a factory that has dropped its function if it has its node. Once a request has been
  -- answered, another function can be attached without a panic, and it is never called: the next
  -- request gives the same node and leaves the executor as the first one has left it.
  pub request_again-request :
      (self : SimpleFactory N E) (f : E → Call (N × E)) (executor : E)
      → IsSpent self
      → request_again self f executor ≡ request self executor
  request_again-request self f executor s = again-request self.node self.factory f executor s.spent
