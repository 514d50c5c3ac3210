-- ===== src/Scheduler/Drain.antt =====
-- Taking nodes from runtime/scheduler.rs until it has none, and making room for a depth.
use native.Mathlib.Nat.{mod-eq_of_lt}
use wavelet_rs.Prelude.{
  ℕ, zero, suc, ◌+◌, ◌-◌, ◌%◌, ◌≤◌, ◌<◌, ◌≡◌, refl, sym, ◌∙◌, ◌⊎◌, List, [], ◌∷◌, ◌++◌, Option,
  none, some, ltb, ltb→lt, ltb→ge, arith, length, length-append, length-replicate, replicate,
  u32_mod, Bool-cases, ap, inl, inr,
}
use wavelet_rs.Scheduler.{Scheduler, resize, enable_depth, pop}
use wavelet_rs.Scheduler.Contents.{Entry, entries-replicate, total-replicate, Drained-replicate}
use wavelet_rs.Scheduler.Order.{IsValid, contents, Pops, taken, exhausted, pop-Pops}

-- The nodes that `n` calls of `pop` return, and the scheduler that they leave.
unfoldable pub pop_many : ℕ → Scheduler → List (Option ℕ) × Scheduler
pop_many zero s = ([], s)
pop_many (suc n) s = let (item, t) = pop s in let (items, u) = pop_many n t in (item ∷ items, u)

abbrev pub nodes : List Entry → List (Option ℕ)
nodes [] = none ∷ []
nodes ((d, i) ∷ l) = some i ∷ nodes l

-- What one call returns, as equations.
abbrev pub Taken : Scheduler → Option ℕ × Scheduler → Type 0
Taken s r =
    (i : ℕ) × (t : Scheduler) × (contents s ≡ (t.curr_depth, i) ∷ contents t)
    × IsValid t
    × (r ≡ (some i, t))

abbrev pub Exhausted : Scheduler → Option ℕ × Scheduler → Type 0
Exhausted s r = (contents s ≡ []) × (r ≡ (none, record s { curr_depth = 0 })) × IsValid r.1

pub Pops-cases : {s : Scheduler} {r : Option ℕ × Scheduler} → Pops s r → Taken s r ⊎ Exhausted s r
Pops-cases (taken i t c d b l v) = inl (i, t, c, v, refl)
Pops-cases (exhausted t c e v) = inr (c, ap (λ u. (none, u)) e, v)

pop_many-entries :
    (l : List Entry) (s : Scheduler)
    → IsValid s
    → contents s ≡ l
    → (pop_many (suc (length l)) s).0 ≡ nodes l
unfolding pop_many
pop_many-entries [] s v e = elim (Pops-cases (pop-Pops s v)) [
  | inl (i, t, c, _, r) ↦ cc
  | inr (_, r, _) ↦ rw r
]
pop_many-entries (x ∷ l) s v e = elim (Pops-cases (pop-Pops s v)) [
  | inl (i, t, c, w, r) ↦
      let item : i ≡ x.1 = cc in
      rw (r, item) (ap (λ k. some x.1 ∷ k) (pop_many-entries l t w (ground arith)))
  | inr (c, _, _) ↦ cc
]

-- On a valid scheduler `pop`, called until it returns nothing, gives every queued node once: by depth, and first come
-- first served within a depth; then it returns nothing.
pub pop_many-contents :
    (s : Scheduler) → IsValid s → (pop_many (suc (length (contents s))) s).0 ≡ nodes (contents s)
pop_many-contents s v = pop_many-entries (contents s) s v refl

-- Making room for a depth: a queue for it and for each depth above it.
enable_depth-cases :
    (s : Scheduler) (depth : ℕ)
    → depth + 1 < u32_mod
    → (enable_depth s depth ≡ s) × (depth < length s.multi_queue)
      ⊎ (length s.multi_queue ≤ depth)
        × (enable_depth s depth ≡ record s {
          multi_queue = s.multi_queue ++ replicate (depth + 1 - length s.multi_queue) [];
        })
unfolding enable_depth resize
enable_depth-cases s depth h =
    let fits : (depth + 1) % u32_mod ≡ depth + 1 = mod-eq_of_lt h in
    elim (Bool-cases (ltb (length s.multi_queue) (depth + 1))) [
      | inl short ↦ inr (omega (arith, ltb→lt _ _ short), rw (fits, short))
      | inr long ↦ inl (rw (fits, long), omega (arith, ltb→ge _ _ long))
    ]

-- On a valid scheduler, for a depth below 2^32 - 1: after `enable_depth` the depth has a queue;
-- nothing that was queued has moved, no depth has lost its queue, and the scheduler is still valid,
-- at the same current depth.
pub enable_depth_lem :
    (s : Scheduler) (depth : ℕ)
    → IsValid s
    → depth + 1 < u32_mod
    → let t = enable_depth s depth in
      IsValid t
      × (depth < length t.multi_queue)
      × (length s.multi_queue ≤ length t.multi_queue)
      × (contents t ≡ contents s)
      × (t.curr_depth ≡ s.curr_depth)
enable_depth_lem s depth v h = elim (enable_depth-cases s depth h) [
  | inl (e, fits) ↦ rw e (v, fits, omega arith, refl, refl)
  | inr (short, e) ↦
      let more = depth + 1 - length s.multi_queue in
      let longer = length-append s.multi_queue (replicate more []) in
      let added = length-replicate {A = List ℕ} more [] in
      rw e (
        record {
          counted = v.counted ∙ sym (total-replicate more s.multi_queue);
          drained = Drained-replicate s.curr_depth more s.multi_queue v.drained;
        },
        omega arith,
        omega arith,
        entries-replicate 0 more s.multi_queue,
        refl,
      )
]
