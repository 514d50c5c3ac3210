-- ===== src/Wsnl/Route/Sharing.antt =====
-- What routing a batch means for every output of the router of wavelet/src/wsnl/control.rs.
use wavelet_rs.Prelude.{
  ℕ, ◌≡◌, ◌≢◌, ◌≤◌, ◌<◌, refl, sym, ◌∙◌, ap, inl, inr, Bool, true, List, [], ◌∷◌, ◌++◌, Option,
  none, some, Bool-cases, keep, length,
}
use mathlib.Core.Option.{map}
use wavelet_rs.Node.{NodeInner}
use wavelet_rs.Platform.{Platform}
use wavelet_rs.Scheduler.Order.{IsValid, contents}
use wavelet_rs.Scheduling.Entries.{Waits}
use wavelet_rs.Wsnl.Route.{Output, Routing}
use wavelet_rs.Wsnl.Route.Receiving.{receive, List-cases, map-receive, map_same}
use wavelet_rs.Wsnl.Route.Delivery.{view, Apart}

module _ (K : Platform) {T Key : Type 0} (eq : Key → Key → Bool)
    (sound : (k j : Key) → eq k j ≡ true → k ≡ j) (same : (k : Key) → eq k k ≡ true)
    (key_of : T → Key) where
  -- The items with this key.
  abbrev pub for_key : Key → List T → List T
  for_key k items = keep (λ item. eq k (key_of item)) items

  pub for_key-append :
      (k : Key) (xs ys : List T) → for_key k (xs ++ ys) ≡ for_key k xs ++ for_key k ys
  for_key-append k [] ys = refl
  for_key-append k (x ∷ xs) ys = elim (Bool-cases (eq k (key_of x))) [
    | inl hit ↦ rw hit (ap (λ l. x ∷ l) (for_key-append k xs ys))
    | inr miss ↦ rw miss (for_key-append k xs ys)
  ]

  abbrev pub outputs : Routing K T Key → Key → Option (Output × NodeInner (List T))
  outputs = view eq sound same K

  -- Every output can be scheduled in the cycle of the router, and no two keys share one.
  pub record Ready (r : Routing K T Key) : Type 0 where
    pub valid : IsValid r.context.scheduler
    pub deep :
        (k : Key) (o : Output) (n : NodeInner (List T))
        → outputs r k ≡ some (o, n)
        → (r.context.scheduler.curr_depth ≤ n.depth)
          × (n.depth < length r.context.scheduler.multi_queue)
    pub apart : Apart eq sound same K r

  -- What routing these items does, for every key.
  pub record Routes (items : List T) (r r' : Routing K T Key) : Type 0 where
    pub received :
        (k : Key) → outputs r' k ≡ map (receive r.context.epoch (for_key k items)) (outputs r k)
    pub scheduled :
        (k : Key) (o : Output) (n : NodeInner (List T))
        → outputs r k ≡ some (o, n)
        → o.epoch ≢ r.context.epoch
        → for_key k items ≢ []
        → Waits n.index (contents r'.context.scheduler)
    pub still_waits :
        (i : ℕ) → Waits i (contents r.context.scheduler) → Waits i (contents r'.context.scheduler)
    pub same_epoch : r'.context.epoch ≡ r.context.epoch
    pub ready : Ready r'

  -- Nothing has been done, and no output is there for any of the items.
  pub idle-Routes :
      (r : Routing K T Key) (item : T)
      → Ready r
      → outputs r (key_of item) ≡ none
      → Routes (item ∷ []) r r
  idle-Routes r item h absent =
      let missing : (k : Key) → eq k (key_of item) ≡ true → outputs r k ≡ none =
        λ k hit. ap (outputs r) (sound k (key_of item) hit) ∙ absent in
      record {
        received = λ k. elim (Bool-cases (eq k (key_of item))) [
          | inl hit ↦ missing k hit ∙ sym (ap (map _) (missing k hit))
          | inr miss ↦ rw miss (sym (map_same r.context.epoch (outputs r k)))
        ];
        scheduled = λ k o n there stale some_left. elim (Bool-cases (eq k (key_of item))) [
          | inl hit ↦ let clash : none ≡ some (o, n) = sym (missing k hit) ∙ there in cc
          | inr miss ↦ absurd (some_left (rw miss refl))
        ];
        still_waits = λ i w. w;
        same_epoch = refl;
        ready = h;
      }

  pub Routes-trans :
      (xs ys : List T) (r s t : Routing K T Key)
      → Routes xs r s
      → Routes ys s t
      → Routes (xs ++ ys) r t
  Routes-trans xs ys r s t p q = record {
    received = λ k.
        let e = r.context.epoch in
        q.received k
        ∙ (ap (λ e. map (receive e (for_key k ys)) (outputs s k)) p.same_epoch
            ∙ (ap (map (receive e (for_key k ys))) (p.received k)
                ∙ (map-receive e (for_key k xs) (for_key k ys) (outputs r k)
                    ∙ ap (λ l. map (receive e l) (outputs r k)) (sym (for_key-append k xs ys)))));
    scheduled = λ k o n there stale some_left. elim (List-cases (for_key k xs)) [
      | inr got ↦ q.still_waits n.index (p.scheduled k o n there stale got)
      | inl none_yet ↦
          let kept : outputs s k ≡ some (o, n) =
            p.received k
            ∙ (ap (λ l. map (receive r.context.epoch l) (outputs r k)) none_yet
                ∙ (map_same r.context.epoch (outputs r k) ∙ there)) in
          let rest : for_key k (xs ++ ys) ≡ for_key k ys =
            for_key-append k xs ys ∙ ap (λ l. l ++ for_key k ys) none_yet in
          q.scheduled k o n kept (λ e. stale (e ∙ p.same_epoch)) (λ e. some_left (rest ∙ e))
    ];
    still_waits = λ i w. q.still_waits i (p.still_waits i w);
    same_epoch = q.same_epoch ∙ p.same_epoch;
    ready = q.ready;
  }
