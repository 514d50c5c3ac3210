-- ===== src/Wsnl/Route/Delivery.antt =====
-- The outputs of the router of wavelet/src/wsnl/control.rs by their keys, and what a write does.
use wavelet_rs.Prelude.{
  ℕ, zero, suc, ◌≡◌, ◌≢◌, refl, sym, ◌∙◌, ap, inl, inr, Bool, true, false, ◌==◌, if◌then◌else◌,
  List, [], ◌∷◌, Option, none, some, Bool-cases, Option-cases, eq_of_some, get_elem?, set,
  get_elem?-set_self, lt_of_get_elem?,
}
use wavelet_rs.Node.{NodeInner}
use wavelet_rs.Platform.{Platform}
use wavelet_rs.Factory.{lookup}
use wavelet_rs.Wsnl.Route.{Output, Routing, write, upgrade}

module _ {A : Type 0} where
  get_elem?-set_other :
      (xs : List A) (i j : ℕ) (v : A) → i ≢ j → get_elem? (set xs i v) j ≡ get_elem? xs j
  get_elem?-set_other [] i j v h = refl
  get_elem?-set_other (x ∷ xs) zero zero v h = absurd (h refl)
  get_elem?-set_other (x ∷ xs) zero (suc j) v h = refl
  get_elem?-set_other (x ∷ xs) (suc i) zero v h = refl
  get_elem?-set_other (x ∷ xs) (suc i) (suc j) v h =
      get_elem?-set_other xs i j v (λ e. h (ap suc e))

module _ {T : Type 0} where
  pub upgrade-some :
      (cells : List (NodeInner (List T))) (w : ℕ) {n : NodeInner (List T)}
      → upgrade cells w ≡ some n
      → (get_elem? cells w ≡ some n) × ((n.strong_count == 0) ≡ false)
  unfolding upgrade
  upgrade-some cells w {n} e = elim (Option-cases (get_elem? cells w)) [
    | inl absent ↦ let no : none ≡ some n = rw (upgrade, absent) at e in cc
    | inr (m, there) ↦ elim (Bool-cases (m.strong_count == 0)) [
      | inl dead ↦ let no : none ≡ some n = rw (upgrade, there, dead) at e in cc
      | inr live ↦
          let same : some m ≡ some n = rw (upgrade, there, live) at e in
          (
            there ∙ same,
            ap (λ (x : NodeInner (List T)). x.strong_count == 0) (sym (eq_of_some same)) ∙ live,
          )
    ]
  ]

  upgrade-set_self :
      (cells : List (NodeInner (List T))) (w : ℕ) {n : NodeInner (List T)} (m : NodeInner (List T))
      → upgrade cells w ≡ some n
      → m.strong_count ≡ n.strong_count
      → upgrade (set cells w m) w ≡ some m
  unfolding upgrade
  upgrade-set_self cells w m e same =
      let (there, live) = upgrade-some cells w e in
      rw (upgrade, get_elem?-set_self cells w m (lt_of_get_elem? cells w there), same, live) refl

  upgrade-set_other :
      (cells : List (NodeInner (List T))) (w v : ℕ) (m : NodeInner (List T))
      → w ≢ v
      → upgrade (set cells w m) v ≡ upgrade cells v
  unfolding upgrade
  upgrade-set_other cells w v m h = rw (upgrade, get_elem?-set_other cells w v m h) refl

module _ {Key : Type 0} (eq : Key → Key → Bool) (sound : (k j : Key) → eq k j ≡ true → k ≡ j)
    (same : (k : Key) → eq k k ≡ true) where
  eq-false : (k j i : Key) → eq k i ≡ true → eq j i ≡ false → eq k j ≡ false
  eq-false k j i e f = elim (Bool-cases (eq k j)) [
    | inr differ ↦ differ
    | inl hit ↦ let clash : true ≡ false = sym e ∙ (ap (λ x. eq x i) (sound k j hit) ∙ f) in cc
  ]

  pub lookup-write :
      (cache : List (Key × Output)) (key k : Key) (o' : Output) {o : Output}
      → lookup eq key cache ≡ some o
      → lookup eq k (write eq key o' cache) ≡ (if eq k key then some o' else lookup eq k cache)
  lookup-write [] key k o' e = cc
  lookup-write ((j, p) ∷ cache) key k o' e = elim (Bool-cases (eq key j)) [
    | inl here ↦ elim (Bool-cases (eq k j)) [
      | inl hit ↦
          let t : eq k key ≡ true = ap (eq k) (sound key j here) ∙ hit in rw (here, hit, t) refl
      | inr miss ↦
          let t : eq k key ≡ false = ap (eq k) (sound key j here) ∙ miss in rw (here, miss, t) refl
    ]
    | inr past ↦
        let ih = lookup-write cache key k o' (rw past at e) in
        elim (Bool-cases (eq k j)) [
          | inl hit ↦ rw (past, hit, eq-false k key j hit past) refl
          | inr miss ↦ rw (past, miss) ih
        ]
  ]

  module _ (K : Platform) {T : Type 0} where
    -- The output for a key, if there is one that is alive.
    abbrev pub view : Routing K T Key → Key → Option (Output × NodeInner (List T))
    view r k = elim (lookup eq k r.cache) [
      | none ↦ none
      | some o ↦ elim (upgrade r.cells o.weak) [ none ↦ none | some n ↦ some (o, n) ]
    ]

    -- No two keys share an output.
    abbrev pub Apart : Routing K T Key → Type 0
    Apart r =
        (k j : Key) (o p : Output)
        → lookup eq k r.cache ≡ some o
        → lookup eq j r.cache ≡ some p
        → o.weak ≡ p.weak
        → k ≡ j

    -- A write to the output for a key changes what that key shows, and no other.
    pub view-write :
        (r r' : Routing K T Key) (key k : Key) (o o' : Output) (n n' : NodeInner (List T))
        → Apart r
        → lookup eq key r.cache ≡ some o
        → upgrade r.cells o.weak ≡ some n
        → o'.weak ≡ o.weak
        → n'.strong_count ≡ n.strong_count
        → r'.cells ≡ set r.cells o.weak n'
        → lookup eq k r'.cache ≡ (if eq k key then some o' else lookup eq k r.cache)
        → view r' k ≡ (if eq k key then some (o', n') else view r k)
    view-write r r' key k o o' n n' apart found live weak strong cells cache =
        elim (Bool-cases (eq k key)) [
          | inl hit ↦
              let c : lookup eq k r'.cache ≡ some o' = rw hit at cache in
              let u : upgrade r'.cells o'.weak ≡ some n' =
                rw (cells, weak) (upgrade-set_self r.cells o.weak n' live strong) in
              rw (view, hit, c, u) refl
          | inr miss ↦
              let c : lookup eq k r'.cache ≡ lookup eq k r.cache = rw miss at cache in
              elim (Option-cases (lookup eq k r.cache)) [
                | inl absent ↦ rw (view, miss, c, absent) refl
                | inr (p, there) ↦
                    let ne : o.weak ≢ p.weak = λ shared.
                      (let clash : true ≡ false =
                          sym (same key)
                          ∙ (ap (λ x. eq x key) (apart key k o p found there shared) ∙ miss) in
                        cc) in
                    let u : upgrade r'.cells p.weak ≡ upgrade r.cells p.weak =
                      rw cells (upgrade-set_other r.cells o.weak p.weak n' ne) in
                    rw (view, miss, c, there, u) refl
              ]
        ]
