-- ===== src/Scheduling/Keeps.antt =====
-- Steps that change marks and poison only, and what is known of marked nodes.
use wavelet_rs.Prelude.{
  ==_refl, eq_of_some, Fresh, ℕ, ap, ◌≤◌, ◌≡◌, ◌≢◌, refl, sym, ◌⊎◌, inl, inr, ◌∙◌, List, [], ◌∷◌,
  some, ◌==◌, length, arith, All, Bool-cases, ==_iff, false,
}
use wavelet_rs.Control.{Relationship}
use wavelet_rs.StableGraph.{StableGraph}
use wavelet_rs.Graph.{NodeContext}
use wavelet_rs.Scheduler.{Scheduler}
use wavelet_rs.Scheduler.Contents.{Entry}
use wavelet_rs.Scheduling.Offers.{mark, Enabled}
use wavelet_rs.Scheduling.Entries.{Absent}

module _ {F : Type 0} (P : StableGraph (NodeContext F) Relationship) where
  open P use {
    Carrier, node_weight, set_weight, outgoing, node_count, node_weight-set_weight,
    outgoing-set_weight, node_count-set_weight,
  }

  -- The node is in the graph and was marked in this epoch.
  pub record Marked (epoch : ℕ) (g : Carrier) (i : ℕ) : Type 0 where
    pub node : NodeContext F
    pub found : node_weight g i ≡ some node
    pub stamped : node.sched_epoch ≡ epoch

  -- An entry is marked, and stands at the depth of its node.
  pub record Queued (epoch : ℕ) (g : Carrier) (x : Entry) : Type 0 where
    pub node : NodeContext F
    pub found : node_weight g x.1 ≡ some node
    pub stamped : node.sched_epoch ≡ epoch
    pub placed_at : node.depth ≡ x.0

  -- A step that changes marks and poison only: nodes keep their depth and their closure, no node
  -- comes or goes, marks of the epoch stay, a new mark is one of the epoch, and edges stay.
  pub record Keeps (epoch : ℕ) (g h : Carrier) : Type 0 where
    pub forward :
        (i : ℕ) (n : NodeContext F)
        → node_weight g i ≡ some n
        → (m : NodeContext F) × (node_weight h i ≡ some m)
          × (m.depth ≡ n.depth)
          × (m.cycle_fn ≡ n.cycle_fn)
          × (n.sched_epoch ≡ epoch → m.sched_epoch ≡ epoch)
    pub backward :
        (i : ℕ) (m : NodeContext F)
        → node_weight h i ≡ some m
        → (n : NodeContext F) × (node_weight g i ≡ some n) × (m.depth ≡ n.depth)
    pub stamps :
        (i : ℕ) (m : NodeContext F)
        → node_weight h i ≡ some m
        → (m.sched_epoch ≡ epoch)
          ⊎ ((n : NodeContext F) × (node_weight g i ≡ some n) × (m.sched_epoch ≡ n.sched_epoch))
    pub same_edges : (i : ℕ) → outgoing h i ≡ outgoing g i
    pub same_count : node_count h ≡ node_count g

  pub Keeps-refl : (epoch : ℕ) (g : Carrier) → Keeps epoch g g
  Keeps-refl epoch g = record {
    forward = λ i n e. (n, e, refl, refl, λ m. m);
    backward = λ i n e. (n, e, refl);
    stamps = λ i n e. inr (n, e, refl);
    same_edges = λ i. refl;
    same_count = refl;
  }

  pub Keeps-trans :
      {epoch : ℕ} {g h k : Carrier} → Keeps epoch g h → Keeps epoch h k → Keeps epoch g k
  Keeps-trans a b = record {
    forward = λ i n e.
        let (m, em, dm, cm, sm) = a.forward i n e in
        let (o, eo, d, c, s) = b.forward i m em in (o, eo, d ∙ dm, c ∙ cm, λ x. s (sm x));
    backward = λ i o e.
        let (m, em, dm) = b.backward i o e in
        let (n, en, dn) = a.backward i m em in (n, en, dm ∙ dn);
    stamps = λ i o e. elim (b.stamps i o e) [
      | inl new ↦ inl new
      | inr (m, em, sm) ↦ elim (a.stamps i m em) [
        | inl new ↦ inl (sm ∙ new)
        | inr (n, en, sn) ↦ inr (n, en, sm ∙ sn)
      ]
    ];
    same_edges = λ i. b.same_edges i ∙ a.same_edges i;
    same_count = b.same_count ∙ a.same_count;
  }

  pub set_self :
      (g : Carrier) (i : ℕ) (n m : NodeContext F)
      → node_weight g i ≡ some n
      → node_weight (set_weight g i m) i ≡ some m
  set_self g i n m e = node_weight-set_weight g i i m ∙ rw (e, ==_refl i)

  pub set_ne :
      (g : Carrier) (i j : ℕ) (m : NodeContext F)
      → (i == j) ≡ false
      → node_weight (set_weight g i m) j ≡ node_weight g j
  set_ne g i j m ne = node_weight-set_weight g i j m ∙ rw ne

  -- A write to one node that keeps its depth and its closure.
  pub set-Keeps :
      (epoch : ℕ) (g : Carrier) (i : ℕ) (n m : NodeContext F)
      → node_weight g i ≡ some n
      → m.depth ≡ n.depth
      → m.cycle_fn ≡ n.cycle_fn
      → (m.sched_epoch ≡ epoch) ⊎ (m.sched_epoch ≡ n.sched_epoch)
      → Keeps epoch g (set_weight g i m)
  set-Keeps epoch g i n m e d c s = record {
    forward = λ j o eo. elim (Bool-cases (i == j)) [
      | inr ne ↦ (o, set_ne g i j m ne ∙ eo, refl, refl, λ x. x)
      | inl eq ↦
          let at : i ≡ j = (==_iff i j).0 eq in
          let same : o ≡ n = eq_of_some (sym eo ∙ ap (node_weight g) (sym at) ∙ e) in
          (
            m,
            ap (node_weight (set_weight g i m)) (sym at) ∙ set_self g i n m e,
            d ∙ ap (λ x. x.depth) (sym same),
            c ∙ ap (λ x. x.cycle_fn) (sym same),
            λ x. elim s [ inl new ↦ new | inr old ↦ old ∙ ap (λ y. y.sched_epoch) (sym same) ∙ x ],
          )
    ];
    backward = λ j o eo. elim (Bool-cases (i == j)) [
      | inr ne ↦ (o, sym (set_ne g i j m ne) ∙ eo, refl)
      | inl eq ↦
          let at : i ≡ j = (==_iff i j).0 eq in
          let same : o ≡ m =
            eq_of_some
              (sym eo ∙ ap (node_weight (set_weight g i m)) (sym at) ∙ set_self g i n m e) in
          (n, ap (node_weight g) (sym at) ∙ e, ap (λ x. x.depth) same ∙ d)
    ];
    stamps = λ j o eo. elim (Bool-cases (i == j)) [
      | inr ne ↦ inr (o, sym (set_ne g i j m ne) ∙ eo, refl)
      | inl eq ↦
          let at : i ≡ j = (==_iff i j).0 eq in
          let same : o ≡ m =
            eq_of_some
              (sym eo ∙ ap (node_weight (set_weight g i m)) (sym at) ∙ set_self g i n m e) in
          let stamp : o.sched_epoch ≡ m.sched_epoch = ap (λ x. x.sched_epoch) same in
          elim s [
            | inl new ↦ inl (stamp ∙ new)
            | inr old ↦ inr (n, ap (node_weight g) (sym at) ∙ e, stamp ∙ old)
          ]
    ];
    same_edges = λ j. outgoing-set_weight g i j m;
    same_count = node_count-set_weight g i m;
  }

  -- What holds of the marks and queues survives such steps.
  pub Marked-Keeps :
      {epoch : ℕ} {g h : Carrier} → Keeps epoch g h → (i : ℕ) → Marked epoch g i → Marked epoch h i
  Marked-Keeps k i a =
      let (m, e, _, _, s) = k.forward i a.node a.found in
      record { node = m; found = e; stamped = s a.stamped }

  pub Queued-Keeps :
      {epoch : ℕ} {g h : Carrier}
      → Keeps epoch g h
      → (x : Entry) → Queued epoch g x
      → Queued epoch h x
  Queued-Keeps k x a =
      let (m, e, d, _, s) = k.forward x.1 a.node a.found in
      record { node = m; found = e; stamped = s a.stamped; placed_at = d ∙ a.placed_at }

  pub Enabled-Keeps :
      {epoch : ℕ} {g h : Carrier} (s t : Scheduler)
      → Keeps epoch g h
      → length s.multi_queue ≤ length t.multi_queue
      → Enabled P g s
      → Enabled P h t
  Enabled-Keeps s t k l en i m e =
      let (n, en', d) = k.backward i m e in omega (arith, en i n en', d)

  -- An idle node is in no queue and has not been run, once it is to be marked.
  pub Absent-unmarked :
      (epoch : ℕ) (g : Carrier) (i : ℕ) (n : NodeContext F) (l : List Entry)
      → node_weight g i ≡ some n
      → n.sched_epoch ≢ epoch
      → All (Queued epoch g) l
      → Absent i l
  Absent-unmarked epoch g i n [] e new q = tt
  Absent-unmarked epoch g i n (x ∷ l) e new q = (
    λ same.
        let at : q.0.node ≡ n = eq_of_some (sym q.0.found ∙ ap (node_weight g) same ∙ e) in
        new (ap (λ y. y.sched_epoch) (sym at) ∙ q.0.stamped),
    Absent-unmarked epoch g i n l e new q.1,
  )

  pub Fresh-unmarked :
      (epoch : ℕ) (g : Carrier) (i : ℕ) (n : NodeContext F) (l : List ℕ)
      → node_weight g i ≡ some n
      → n.sched_epoch ≢ epoch
      → All (Marked epoch g) l
      → Fresh i l
  Fresh-unmarked epoch g i n [] e new q = tt
  Fresh-unmarked epoch g i n (j ∷ l) e new q = (
    λ same.
        let at : q.0.node ≡ n = eq_of_some (sym q.0.found ∙ ap (node_weight g) same ∙ e) in
        new (ap (λ y. y.sched_epoch) (sym at) ∙ q.0.stamped),
    Fresh-unmarked epoch g i n l e new q.1,
  )

  pub mark-Keeps :
      (epoch : ℕ) (g : Carrier) (i : ℕ) (n : NodeContext F)
      → node_weight g i ≡ some n
      → Keeps epoch g (mark P epoch g i n)
  mark-Keeps epoch g i n e =
      set-Keeps epoch g i n (record n { sched_epoch = epoch }) e refl refl (inl refl)

  -- After a mark, a node is marked in the epoch if it was, or if it is the one.
  pub Marked-mark :
      (epoch : ℕ) (g : Carrier) (i : ℕ) (n : NodeContext F) (j : ℕ)
      → node_weight g i ≡ some n
      → Marked epoch (mark P epoch g i n) j
      → (i ≡ j) ⊎ Marked epoch g j
  Marked-mark epoch g i n j e a = elim (Bool-cases (i == j)) [
    | inl eq ↦ inl ((==_iff i j).0 eq)
    | inr ne ↦ inr (record {
      node = a.node;
      found = sym (set_ne g i j (record n { sched_epoch = epoch }) ne) ∙ a.found;
      stamped = a.stamped;
    })
  ]
