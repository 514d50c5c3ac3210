-- ===== src/Scheduling/Ready.antt =====
-- The state between two turns of a cycle: the scheduler is valid, every node has a queue, and the
-- nodes marked with the epoch are those that wait or have been run, each once.
use wavelet_rs.Prelude.{
  ℕ, subst, ◌≤◌, ◌≡◌, ◌≢◌, refl, sym, ◌⊎◌, inl, inr, ◌∙◌, List, [], ◌∷◌, none, some, Call, length,
  Fresh, AllDistinct, arith, All, Returns, returns, Returns-bind, Returns-map,
}
use wavelet_rs.Control.{Relationship}
use wavelet_rs.StableGraph.{StableGraph}
use wavelet_rs.Graph.{NodeContext}
use wavelet_rs.Scheduler.{Scheduler}
use wavelet_rs.Scheduler.Contents.{Entry, insert_entry}
use wavelet_rs.Scheduler.Order.{IsValid, contents}
use wavelet_rs.Scheduling.{Sched, try_schedule, try_all}
use wavelet_rs.Scheduling.Offers.{
  mark, Idle, Enabled, Offers, skipped, late, placed, try_schedule-Offers,
}
use wavelet_rs.Scheduling.Entries.{
  Distinct, In, Waits, All-insert, All-map, Distinct-insert, Waits-insert, Waits-insert_self,
}
use wavelet_rs.Scheduling.Keeps.{
  Marked, Queued, Keeps, Keeps-refl, Keeps-trans, set_self, Marked-Keeps, Queued-Keeps,
  Enabled-Keeps, Absent-unmarked, Fresh-unmarked, mark-Keeps, Marked-mark,
}

module _ {F : Type 0} (P : StableGraph (NodeContext F) Relationship) where
  open P use {Carrier, node_weight}

  -- `seen` are the nodes that have been run in this epoch.
  pub record Ready (epoch : ℕ) (seen : List ℕ) (g : Carrier) (s : Scheduler) : Type 0 where
    pub valid : IsValid s
    pub enabled : Enabled P g s
    pub queued : All (Queued P epoch g) (contents s)
    pub distinct : Distinct (contents s)
    pub unseen : All (λ x. Fresh x.1 seen) (contents s)
    pub seen_marked : All (Marked P epoch g) seen
    pub seen_distinct : AllDistinct seen
    pub accounted : (i : ℕ) → Marked P epoch g i → In i seen ⊎ Waits i (contents s)

  -- The node, if it is there, does not stand above the current depth.
  abbrev pub IsReachable : Carrier → Scheduler → ℕ → Type 0
  IsReachable g s i = (n : NodeContext F) → node_weight g i ≡ some n → s.curr_depth ≤ n.depth

  pub IsReachable-Keeps :
      {epoch : ℕ} {g h : Carrier} (s t : Scheduler) (i : ℕ)
      → Keeps P epoch g h
      → t.curr_depth ≡ s.curr_depth
      → IsReachable g s i
      → IsReachable h t i
  IsReachable-Keeps s t i k d r m e = let (n, en, dn) = k.backward i m e in omega (arith, r n en)

  place-Ready :
      (epoch i : ℕ) (seen : List ℕ) (g : Carrier) (s t : Scheduler) (n : NodeContext F)
      → Ready epoch seen g s
      → node_weight g i ≡ some n
      → n.sched_epoch ≢ epoch
      → contents t ≡ insert_entry (n.depth, i) (contents s)
      → length t.multi_queue ≡ length s.multi_queue
      → IsValid t
      → Ready epoch seen (mark P epoch g i n) t
  place-Ready epoch i seen g s t n r e new c l v =
      let k = mark-Keeps P epoch g i n e in
      let x : Entry = (n.depth, i) in
      record {
        valid = v;
        enabled = Enabled-Keeps P s t k (omega (arith, l)) r.enabled;
        queued = rw c (
            All-insert (Queued P epoch (mark P epoch g i n)) x (contents s)
              (record {
                node = record n { sched_epoch = epoch };
                found = set_self P g i n _ e;
                stamped = refl;
                placed_at = refl;
              })
              (All-map (contents s) (Queued-Keeps P k) r.queued));
        distinct = rw c (
            Distinct-insert x (contents s) (Absent-unmarked P epoch g i n _ e new r.queued)
              r.distinct);
        unseen = rw c (
            All-insert (λ y. Fresh y.1 seen) x (contents s)
              (Fresh-unmarked P epoch g i n seen e new r.seen_marked) r.unseen);
        seen_marked = All-map seen (Marked-Keeps P k) r.seen_marked;
        seen_distinct = r.seen_distinct;
        accounted = λ j a. rw c (elim (Marked-mark P epoch g i n j e a) [
          | inl same ↦ inr (
              subst (λ k. Waits k (insert_entry x (contents s))) same
                (Waits-insert_self x (contents s)))
          | inr old ↦ elim (r.accounted j old) [
            | inl done ↦ inl done
            | inr waits ↦ inr (Waits-insert j x (contents s) waits)
          ]
        ]);
      }

  -- What an attempt leaves, for the ready state from which it starts.
  pub record After (epoch : ℕ) (seen : List ℕ) (g : Carrier) (s : Scheduler) (st : Sched P)
      : Type 0 where
    pub ready : Ready epoch seen st.0 st.1
    pub keeps : Keeps P epoch g st.0
    pub same_depth : st.1.curr_depth ≡ s.curr_depth

  -- The node is marked, unless it is gone.
  abbrev pub Reached : ℕ → Carrier → ℕ → Type 0
  Reached epoch g i = (n : NodeContext F) → node_weight g i ≡ some n → Marked P epoch g i

  pub Reached-Idle : (epoch i : ℕ) (g : Carrier) → Idle P epoch g i → Reached epoch g i
  Reached-Idle epoch i g (inl gone) n e = absurd (let no_node : some n ≡ none = sym e ∙ gone in cc)
  Reached-Idle epoch i g (inr (m, e, stamped)) n _ = record {
    node = m;
    found = e;
    stamped = stamped;
  }

  Offers-After :
      (epoch i : ℕ) (seen : List ℕ) (g : Carrier) (s : Scheduler) {r : Call (Sched P)}
      → Ready epoch seen g s
      → IsReachable g s i
      → Offers P epoch i g s r
      → Returns (λ st. After epoch seen g s st × Reached epoch st.0 i) r
  Offers-After epoch i seen g s r low (skipped idle) = returns _ (
    record { ready = r; keeps = Keeps-refl P epoch g; same_depth = refl },
    Reached-Idle epoch i g idle,
  )
  Offers-After epoch i seen g s r low (late n e new above) = absurd (omega (arith, low n e))
  Offers-After epoch i seen g s r low (placed n t e new _ c d l v) = returns _ (
    record {
      ready = place-Ready epoch i seen g s t n r e new c l v;
      keeps = mark-Keeps P epoch g i n e;
      same_depth = d;
    },
    λ m _. record {
      node = record n { sched_epoch = epoch };
      found = set_self P g i n _ e;
      stamped = refl;
    },
  )

  -- From a ready state an attempt to schedule a node that is not above the current depth never
  -- panics, leaves a ready state and reaches the node.
  pub try_schedule-After :
      (epoch i : ℕ) (seen : List ℕ) (g : Carrier) (s : Scheduler)
      → Ready epoch seen g s
      → IsReachable g s i
      → Returns
          (λ st. After epoch seen g s st × Reached epoch st.0 i)
          (try_schedule P epoch i (g, s))
  try_schedule-After epoch i seen g s r low =
      Offers-After epoch i seen g s r low (try_schedule-Offers P epoch i g s r.valid r.enabled)

  pub After-trans :
      {epoch : ℕ} {seen : List ℕ} {g : Carrier} {s : Scheduler} {st su : Sched P}
      → After epoch seen g s st
      → After epoch seen st.0 st.1 su
      → After epoch seen g s su
  After-trans a b = record {
    ready = b.ready;
    keeps = Keeps-trans P a.keeps b.keeps;
    same_depth = b.same_depth ∙ a.same_depth;
  }

  pub Reached-Keeps :
      {epoch : ℕ} {g h : Carrier} (i : ℕ)
      → Keeps P epoch g h
      → Reached epoch g i
      → Reached epoch h i
  Reached-Keeps i k r m e = let (n, en, _) = k.backward i m e in Marked-Keeps P k i (r n en)

  All-IsReachable :
      {epoch : ℕ} {g h : Carrier} (s t : Scheduler) (is : List ℕ)
      → Keeps P epoch g h
      → t.curr_depth ≡ s.curr_depth
      → All (IsReachable g s) is
      → All (IsReachable h t) is
  All-IsReachable s t is k d = All-map is (λ i. IsReachable-Keeps s t i k d)

  -- The same of a loop over nodes.
  pub try_all-After :
      (epoch : ℕ) (is : List ℕ) (seen : List ℕ) (g : Carrier) (s : Scheduler)
      → Ready epoch seen g s
      → All (IsReachable g s) is
      → Returns
          (λ st. After epoch seen g s st × All (Reached epoch st.0) is)
          (try_all P epoch is (g, s))
  unfolding try_all
  try_all-After epoch [] seen g s r low =
      returns _ (record { ready = r; keeps = Keeps-refl P epoch g; same_depth = refl }, tt)
  try_all-After epoch (i ∷ is) seen g s r low =
      Returns-bind (try_all P epoch is) (try_schedule-After epoch i seen g s r low.0)
        λ st (a, reached).
          Returns-map
            (λ su (b, others). (After-trans a b, (Reached-Keeps i b.keeps reached, others)))
            (try_all-After epoch is seen st.0 st.1 a.ready
              (All-IsReachable s st.1 is a.keeps a.same_depth low.1))
