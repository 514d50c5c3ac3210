-- ===== src/Wsnl/Route/Writing.antt =====
-- The write of one item to an output of the router of wavelet/src/wsnl/control.rs.
use wavelet_rs.Prelude.{
  ℕ, ◌≡◌, ◌≢◌, refl, sym, ◌∙◌, ap, subst, inl, inr, Bool, true, false, if◌then◌else◌, List, [], ◌∷◌,
  some, Bool-cases, eq_of_some, arith, length, set,
}
use mathlib.Core.Option.{map}
use wavelet_rs.Node.{NodeInner}
use wavelet_rs.Platform.{Platform}
use wavelet_rs.Scheduler.Order.{IsValid, contents}
use wavelet_rs.Scheduling.Entries.{Waits}
use wavelet_rs.Factory.{lookup}
use wavelet_rs.Wsnl.Route.{Output, Routing, upgrade}
use wavelet_rs.Wsnl.Route.Receiving.{receive, map_same}
use wavelet_rs.Wsnl.Route.Delivery.{view, view-write}
use wavelet_rs.Wsnl.Route.Sharing.{outputs, Ready, Routes}

module _ (K : Platform) {T Key : Type 0} (eq : Key → Key → Bool)
    (sound : (k j : Key) → eq k j ≡ true → k ≡ j) (same : (k : Key) → eq k k ≡ true)
    (key_of : T → Key) where
  -- A write of one item to the output for its key.
  pub record Writes (item : T) (o : Output) (n : NodeInner (List T)) (r r' : Routing K T Key)
      : Type 0 where
    pub found : lookup eq (key_of item) r.cache ≡ some o
    pub live : upgrade r.cells o.weak ≡ some n
    pub cells : r'.cells ≡ set r.cells o.weak (receive r.context.epoch (item ∷ []) (o, n)).1
    pub cache :
        (k : Key)
        → lookup eq k r'.cache ≡ (
            if eq k (key_of item)
            then some (record o { epoch = r.context.epoch })
            else lookup eq k r.cache)
    pub same_epoch : r'.context.epoch ≡ r.context.epoch
    pub waits :
        (i : ℕ) → Waits i (contents r.context.scheduler) → Waits i (contents r'.context.scheduler)
    pub queued_now : o.epoch ≢ r.context.epoch → Waits n.index (contents r'.context.scheduler)
    pub valid : IsValid r'.context.scheduler
    pub same_depth : r'.context.scheduler.curr_depth ≡ r.context.scheduler.curr_depth
    pub same_length :
        length r'.context.scheduler.multi_queue ≡ length r.context.scheduler.multi_queue

  module _ (item : T) (o : Output) (n : NodeInner (List T)) (r r' : Routing K T Key)
      (h : Ready K eq sound same key_of r) (w : Writes item o n r r') where
    key : Key
    key = key_of item

    shown :
        (k : Key)
        → outputs K eq sound same key_of r' k ≡ (
            if eq k key
            then some (receive r.context.epoch (item ∷ []) (o, n))
            else outputs K eq sound same key_of r k)
    unfolding key
    shown k =
        view-write eq sound same K r r' (key_of item) k o (record o { epoch = r.context.epoch }) n
          (receive r.context.epoch (item ∷ []) (o, n)).1 h.apart w.found w.live refl refl w.cells
          (w.cache k)

    before : (k : Key) → eq k key ≡ true → outputs K eq sound same key_of r k ≡ some (o, n)
    unfolding key
    before k hit =
        let here : outputs K eq sound same key_of r (key_of item) ≡ some (o, n) =
          rw (view, w.found, w.live) refl in
        ap (outputs K eq sound same key_of r) (sound k (key_of item) hit) ∙ here

    got : Output × NodeInner (List T)
    got = receive r.context.epoch (item ∷ []) (o, n)

    shown_hit : (k : Key) → eq k key ≡ true → outputs K eq sound same key_of r' k ≡ some got
    unfolding got
    shown_hit k hit = shown k ∙ rw hit refl

    shown_miss :
        (k : Key)
        → eq k key ≡ false
        → outputs K eq sound same key_of r' k ≡ outputs K eq sound same key_of r k
    shown_miss k miss = shown k ∙ rw miss refl

    -- The addresses of the outputs K eq sound same key_of stay.
    address :
        (k : Key) (p : Output)
        → lookup eq k r'.cache ≡ some p
        → (p₀ : Output) × (lookup eq k r.cache ≡ some p₀) × (p₀.weak ≡ p.weak)
    unfolding key
    address k p there = elim (Bool-cases (eq k (key_of item))) [
      | inl hit ↦
          let now : some (record o { epoch = r.context.epoch }) ≡ some p =
            sym (w.cache k ∙ rw hit refl) ∙ there in
          (
            o,
            ap (λ j. lookup eq j r.cache) (sound k (key_of item) hit) ∙ w.found,
            ap (λ (x : Output). x.weak) (eq_of_some now),
          )
      | inr miss ↦ (p, sym (w.cache k ∙ rw miss refl) ∙ there, refl)
    ]

    Writes-Ready : Ready K eq sound same key_of r'
    unfolding key got
    Writes-Ready = record {
      valid = w.valid;
      deep = λ k p m there. elim (Bool-cases (eq k (key_of item))) [
        | inl hit ↦
            let e : some got ≡ some (p, m) = sym (shown_hit k hit) ∙ there in
            let d : n.depth ≡ m.depth =
              ap (λ (x : Output × NodeInner (List T)). x.1.depth) (eq_of_some e) in
            let (low, high) = h.deep k o n (before k hit) in
            (omega (arith, low, d, w.same_depth), omega (arith, high, d, w.same_length))
        | inr miss ↦
            let (low, high) = h.deep k p m (sym (shown_miss k miss) ∙ there) in
            (omega (arith, low, w.same_depth), omega (arith, high, w.same_length))
      ];
      apart = λ k j p q fk fj shared.
          (let (p₀, found, a) = address k p fk in
            let (q₀, found', b) = address j q fj in
            h.apart k j p₀ q₀ found found' (a ∙ (shared ∙ sym b)));
    }

    pub Writes-Routes : Routes K eq sound same key_of (item ∷ []) r r'
    unfolding key got
    Writes-Routes = record {
      received = λ k. elim (Bool-cases (eq k (key_of item))) [
        | inl hit ↦
            rw hit (
              shown_hit k hit ∙ sym (ap (map (receive r.context.epoch (item ∷ []))) (before k hit)))
        | inr miss ↦ rw miss (
            shown_miss k miss ∙ sym (map_same r.context.epoch (outputs K eq sound same key_of r k)))
      ];
      scheduled = λ k p m there stale some_left. elim (Bool-cases (eq k (key_of item))) [
        | inl hit ↦
            let e : some (o, n) ≡ some (p, m) = sym (before k hit) ∙ there in
            let node : n ≡ m = ap (λ (x : Output × NodeInner (List T)). x.1) (eq_of_some e) in
            let out : o ≡ p = ap (λ (x : Output × NodeInner (List T)). x.0) (eq_of_some e) in
            subst (λ (x : NodeInner (List T)). Waits x.index (contents r'.context.scheduler)) node
              (w.queued_now (λ fresh. stale (ap (λ (x : Output). x.epoch) (sym out) ∙ fresh)))
        | inr miss ↦ absurd (some_left (rw miss refl))
      ];
      still_waits = w.waits;
      same_epoch = w.same_epoch;
      ready = Writes-Ready;
    }
