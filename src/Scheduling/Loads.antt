-- ===== src/Scheduling/Loads.antt =====
-- The state between two turns of a cycle where a node may wait more than once, since a closure may
-- schedule it without a mark (`ExecutionContext::schedule_node` of wavelet/src/runtime/executor.rs).
-- Every node has a weight, and what waits is measured by the sum of the weights.
use wavelet_rs.Prelude.{
  ℕ, ◌+◌, subst, ◌≤◌, ◌≡◌, refl, ◌⊎◌, inl, inr, ◌∙◌, List, [], ◌∷◌, some, Call, length, ap, leb,
  Bool-cases, arith, All, Returns, returns, Returns-bind, Returns-map,
}
use wavelet_rs.Control.{Relationship}
use wavelet_rs.StableGraph.{StableGraph}
use wavelet_rs.Graph.{NodeContext}
use wavelet_rs.Scheduler.{Scheduler}
use wavelet_rs.Scheduler.Contents.{Entry, insert_entry}
use wavelet_rs.Scheduler.Order.{IsValid, contents}
use wavelet_rs.Scheduling.{Sched, try_schedule, try_all}
use wavelet_rs.Scheduling.Offers.{mark, Enabled, Offers, skipped, late, placed, try_schedule-Offers}
use wavelet_rs.Scheduling.Entries.{In, Waits, All-insert, All-map, Waits-insert, Waits-insert_self}
use wavelet_rs.Scheduling.Keeps.{
  Marked, Keeps, Keeps-refl, Keeps-trans, set_self, Enabled-Keeps, mark-Keeps, Marked-mark,
}
use wavelet_rs.Scheduling.Ready.{
  IsReachable, IsReachable-Keeps, Reached, Reached-Idle, Reached-Keeps,
}

-- The sum of the weights.
abbrev pub load : (ℕ → ℕ) → List ℕ → ℕ
load weight [] = 0
load weight (i ∷ l) = weight i + load weight l

abbrev pub waiting : (ℕ → ℕ) → List Entry → ℕ
waiting weight [] = 0
waiting weight (x ∷ l) = weight x.1 + waiting weight l

pub waiting-insert :
    (weight : ℕ → ℕ) (x : Entry) (l : List Entry)
    → waiting weight (insert_entry x l) ≡ weight x.1 + waiting weight l
waiting-insert weight x [] = refl
waiting-insert weight x (y ∷ l) = elim (Bool-cases (leb y.0 x.0)) [
  | inl e ↦ rw e (omega (arith, waiting-insert weight x l))
  | inr e ↦ rw e refl
]

module _ {F : Type 0} (P : StableGraph (NodeContext F) Relationship) (weight : ℕ → ℕ) where
  open P use {Carrier, node_weight}

  -- An entry stands at the depth of its node.
  pub record Placed (g : Carrier) (x : Entry) : Type 0 where
    pub node : NodeContext F
    pub found : node_weight g x.1 ≡ some node
    pub placed_at : node.depth ≡ x.0

  -- `seen` are the nodes that have been run in this epoch, some perhaps more than once.
  pub record Loaded (epoch : ℕ) (seen : List ℕ) (g : Carrier) (s : Scheduler) : Type 0 where
    pub valid : IsValid s
    pub enabled : Enabled P g s
    pub all_placed : All (Placed g) (contents s)
    pub accounted : (i : ℕ) → Marked P epoch g i → In i seen ⊎ Waits i (contents s)

  -- A loaded state from another one, with at most `b` more that waits.
  pub record Fills (epoch : ℕ) (seen : List ℕ) (b : ℕ) (g : Carrier) (s : Scheduler) (st : Sched P)
      : Type 0 where
    pub loaded : Loaded epoch seen st.0 st.1
    pub keeps : Keeps P epoch g st.0
    pub same_depth : st.1.curr_depth ≡ s.curr_depth
    pub still_waits : (i : ℕ) → Waits i (contents s) → Waits i (contents st.1)
    pub spent : waiting weight (contents st.1) ≤ waiting weight (contents s) + b

  pub Placed-Keeps :
      {epoch : ℕ} {g h : Carrier} → Keeps P epoch g h → (x : Entry) → Placed g x → Placed h x
  Placed-Keeps k x a =
      let (m, e, d, _, _) = k.forward x.1 a.node a.found in
      record { node = m; found = e; placed_at = d ∙ a.placed_at }

  place-Loaded :
      (epoch i : ℕ) (seen : List ℕ) (g : Carrier) (s t : Scheduler) (n : NodeContext F)
      → Loaded epoch seen g s
      → node_weight g i ≡ some n
      → contents t ≡ insert_entry (n.depth, i) (contents s)
      → length t.multi_queue ≡ length s.multi_queue
      → IsValid t
      → Loaded epoch seen (mark P epoch g i n) t
  place-Loaded epoch i seen g s t n r e c l v =
      let k = mark-Keeps P epoch g i n e in
      let x : Entry = (n.depth, i) in
      record {
        valid = v;
        enabled = Enabled-Keeps P s t k (omega (arith, l)) r.enabled;
        all_placed = rw c (
            All-insert (Placed (mark P epoch g i n)) x (contents s)
              (record {
                node = record n { sched_epoch = epoch };
                found = set_self P g i n _ e;
                placed_at = refl;
              })
              (All-map (contents s) (Placed-Keeps k) r.all_placed));
        accounted = λ j a. rw c (elim (Marked-mark P epoch g i n j e a) [
          | inl same ↦ inr (
              subst (λ k. Waits k (insert_entry x (contents s))) same
                (Waits-insert_self x (contents s)))
          | inr old ↦ elim (r.accounted j old) [
            | inl done ↦ inl done
            | inr waits ↦ inr (Waits-insert j x (contents s) waits)
          ]
        ]);
      }

  pub Fills-none :
      (epoch : ℕ) (seen : List ℕ) (b : ℕ) (g : Carrier) (s : Scheduler)
      → Loaded epoch seen g s
      → Fills epoch seen b g s (g, s)
  Fills-none epoch seen b g s r = record {
    loaded = r;
    keeps = Keeps-refl P epoch g;
    same_depth = refl;
    still_waits = λ i h. h;
    spent = omega arith;
  }

  Offers-Fills :
      (epoch i : ℕ) (seen : List ℕ) (g : Carrier) (s : Scheduler) {r : Call (Sched P)}
      → Loaded epoch seen g s
      → IsReachable P g s i
      → Offers P epoch i g s r
      → Returns (λ st. Fills epoch seen (weight i) g s st × Reached P epoch st.0 i) r
  Offers-Fills epoch i seen g s r low (skipped idle) =
      returns _ (Fills-none epoch seen (weight i) g s r, Reached-Idle P epoch i g idle)
  Offers-Fills epoch i seen g s r low (late n e new above) = absurd (omega (arith, low n e))
  Offers-Fills epoch i seen g s r low (placed n t e new _ c d l v) = returns _ (
    record {
      loaded = place-Loaded epoch i seen g s t n r e c l v;
      keeps = mark-Keeps P epoch g i n e;
      same_depth = d;
      still_waits = λ j h. rw c (Waits-insert j (n.depth, i) (contents s) h);
      spent =
          (let sum = ap (waiting weight) c ∙ waiting-insert weight (n.depth, i) (contents s) in
            omega (arith, sum));
    },
    λ m _. record {
      node = record n { sched_epoch = epoch };
      found = set_self P g i n _ e;
      stamped = refl;
    },
  )

  pub try_schedule-Fills :
      (epoch i : ℕ) (seen : List ℕ) (g : Carrier) (s : Scheduler)
      → Loaded epoch seen g s
      → IsReachable P g s i
      → Returns
          (λ st. Fills epoch seen (weight i) g s st × Reached P epoch st.0 i)
          (try_schedule P epoch i (g, s))
  try_schedule-Fills epoch i seen g s r low =
      Offers-Fills epoch i seen g s r low (try_schedule-Offers P epoch i g s r.valid r.enabled)

  pub Fills-trans :
      {epoch : ℕ} {seen : List ℕ} {g : Carrier} {s : Scheduler} {st su : Sched P} (a b : ℕ)
      → Fills epoch seen a g s st
      → Fills epoch seen b st.0 st.1 su
      → Fills epoch seen (a + b) g s su
  Fills-trans a b p q = record {
    loaded = q.loaded;
    keeps = Keeps-trans P p.keeps q.keeps;
    same_depth = q.same_depth ∙ p.same_depth;
    still_waits = λ i h. q.still_waits i (p.still_waits i h);
    spent = (let x = p.spent in let y = q.spent in omega (arith, x, y));
  }

  pub try_all-Fills :
      (epoch : ℕ) (is : List ℕ) (seen : List ℕ) (g : Carrier) (s : Scheduler)
      → Loaded epoch seen g s
      → All (IsReachable P g s) is
      → Returns
          (λ st. Fills epoch seen (load weight is) g s st × All (Reached P epoch st.0) is)
          (try_all P epoch is (g, s))
  unfolding try_all
  try_all-Fills epoch [] seen g s r low = returns _ (Fills-none epoch seen 0 g s r, tt)
  try_all-Fills epoch (i ∷ is) seen g s r low =
      Returns-bind (try_all P epoch is) (try_schedule-Fills epoch i seen g s r low.0)
        λ st (a, reached).
          Returns-map
            (λ su (b, others). (
              Fills-trans (weight i) (load weight is) a b,
              (Reached-Keeps P i b.keeps reached, others),
            ))
            (try_all-Fills epoch is seen st.0 st.1 a.loaded
              (All-map is (λ j. IsReachable-Keeps P s st.1 j a.keeps a.same_depth) low.1))
