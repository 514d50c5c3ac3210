-- ===== src/ArrayQueue/Bounded.antt =====
-- An instance of the interface: a list beside its capacity.
use wavelet_rs.Prelude.{
  ℕ, refl, List, [], ◌∷◌, ◌++◌, Option, none, some, Result, ok, err, ltb, if◌then◌else◌, length,
  lt→ltb, ge→ltb,
}
use wavelet_rs.ArrayQueue.{ArrayQueue}

pub record Bounded (A : Type 0) : Type 0 where
  pub held : List A
  pub limit : ℕ

module _ {A : Type 0} where
  abbrev push : Bounded A → A → Result (Bounded A) A
  push q a =
      if ltb (length q.held) q.limit then ok (record q { held = q.held ++ a ∷ [] }) else err a

  abbrev shift : List A → A → Option A × List A
  shift [] a = (none, a ∷ [])
  shift (b ∷ rest) a = (some b, rest ++ a ∷ [])

  abbrev force_push : Bounded A → A → Option A × Bounded A
  force_push q a =
      if ltb (length q.held) q.limit
      then (none, record q { held = q.held ++ a ∷ [] })
      else ((shift q.held a).0, record q { held = (shift q.held a).1 })

  abbrev pop : Bounded A → Option A × Bounded A
  pop q = elim q.held [ [] ↦ (none, q) | a ∷ rest ↦ (some a, record q { held = rest }) ]

unfoldable pub bounded : (A : Type 0) → ArrayQueue A
bounded A = record {
  Carrier = Bounded A;
  new = λ c. record { held = []; limit = c };
  push = push;
  force_push = force_push;
  pop = pop;
  items = λ q. q.held;
  capacity = λ q. q.limit;
  items-new = λ c. refl;
  capacity-new = λ c. refl;
  push_full = λ q a h. rw (ge→ltb _ _ h);
  push_room = λ q a h. (record q { held = q.held ++ a ∷ [] }, rw (lt→ltb _ _ h), refl, refl);
  force_push_room = λ q a h. rw (lt→ltb _ _ h) (refl, refl, refl);
  force_push_full = λ q a b rest e h. rw (ge→ltb _ _ h, e) (refl, refl, refl);
  pop_nil = λ q e. rw e;
  pop_cons = λ q a rest e. rw e (refl, refl, refl);
}
