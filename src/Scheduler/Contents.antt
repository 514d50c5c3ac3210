-- ===== src/Scheduler/Contents.antt =====
-- What the queues of runtime/scheduler.rs hold, seen as one list of entries (depth, node).
use wavelet_rs.Prelude.{
  ℕ, zero, suc, ◌+◌, ◌≤◌, ◌<◌, ◌≡◌, refl, ap, ◌∙◌, sym, List, [], ◌∷◌, ◌++◌, some, leb,
  if◌then◌else◌, arith, length, get_elem?, set, length-append, append_assoc, replicate,
}

abbrev pub Entry : Type 0
Entry = ℕ × ℕ

abbrev pub tag : ℕ → List ℕ → List Entry
tag d [] = []
tag d (i ∷ q) = (d, i) ∷ tag d q

-- The entries of the queues from depth `d` on, in the order in which they are due.
abbrev pub entries : ℕ → List (List ℕ) → List Entry
entries d [] = []
entries d (q ∷ mq) = tag d q ++ entries (suc d) mq

abbrev pub total : List (List ℕ) → ℕ
total [] = 0
total (q ∷ mq) = length q + total mq

-- The first `n` queues are empty.
abbrev pub Drained : ℕ → List (List ℕ) → Type 0
Drained zero mq = Unit
Drained (suc n) [] = Unit
Drained (suc n) (q ∷ mq) = (q ≡ []) × Drained n mq

-- Where a new entry goes: behind every entry that is not deeper.
abbrev pub insert_entry : Entry → List Entry → List Entry
insert_entry x [] = x ∷ []
insert_entry x (y ∷ l) = if leb y.0 x.0 then y ∷ insert_entry x l else x ∷ y ∷ l

length-tag : (d : ℕ) (q : List ℕ) → length (tag d q) ≡ length q
length-tag d [] = refl
length-tag d (i ∷ q) = ap suc (length-tag d q)

pub length-entries : (d : ℕ) (mq : List (List ℕ)) → length (entries d mq) ≡ total mq
length-entries d [] = refl
length-entries d (q ∷ mq) =
    omega (
      arith,
      length-append (tag d q) (entries (suc d) mq),
      length-tag d q,
      length-entries (suc d) mq,
    )

nil_of_length : (l : List Entry) → length l ≡ 0 → l ≡ []
nil_of_length [] h = refl
nil_of_length (x ∷ l) h = absurd (omega arith)

pub entries_empty : (d : ℕ) (mq : List (List ℕ)) → total mq ≡ 0 → entries d mq ≡ []
entries_empty d mq h = nil_of_length _ (length-entries d mq ∙ h)

pub total-Drained : (n : ℕ) (mq : List (List ℕ)) → Drained n mq → length mq ≤ n → total mq ≡ 0
total-Drained zero [] e h = refl
total-Drained zero (q ∷ mq) e h = absurd (omega arith)
total-Drained (suc n) [] e h = refl
total-Drained (suc n) (q ∷ mq) e h = rw e.0 (omega (arith, total-Drained n mq e.1 (omega arith)))

pub Drained-suc :
    (n : ℕ) (mq : List (List ℕ)) → Drained n mq → get_elem? mq n ≡ some [] → Drained (suc n) mq
Drained-suc zero [] e h = tt
Drained-suc zero (q ∷ mq) e h = (cc, tt)
Drained-suc (suc n) [] e h = tt
Drained-suc (suc n) (q ∷ mq) e h = (e.0, Drained-suc n mq e.1 h)

pub Drained-set :
    (n d : ℕ) (mq : List (List ℕ)) (q : List ℕ) → n ≤ d → Drained n mq → Drained n (set mq d q)
Drained-set zero d mq q h e = tt
Drained-set (suc n) d [] q h e = tt
Drained-set (suc n) zero (p ∷ mq) q h e = absurd (omega arith)
Drained-set (suc n) (suc d) (p ∷ mq) q h e = (e.0, Drained-set n d mq q (omega arith) e.1)

pub total-set :
    (n : ℕ) (mq : List (List ℕ)) (p q : List ℕ)
    → get_elem? mq n ≡ some p
    → total (set mq n q) + length p ≡ total mq + length q
total-set n [] p q e = cc
total-set zero (r ∷ mq) p q e = let same : r ≡ p = cc in rw same (omega arith)
total-set (suc n) (r ∷ mq) p q e = omega (arith, total-set n mq p q e)

pub entries-front :
    (n b : ℕ) (mq : List (List ℕ)) (x : ℕ) (q : List ℕ)
    → Drained n mq
    → get_elem? mq n ≡ some (x ∷ q)
    → entries b mq ≡ (n + b, x) ∷ entries b (set mq n q)
entries-front n b [] x q e h = cc
entries-front zero b (r ∷ mq) x q e h =
    let same : r ≡ x ∷ q = cc in
    let base : b ≡ zero + b = omega arith in
    rw same (ap (λ (t : ℕ). (t, x) ∷ (tag b q ++ entries (suc b) mq)) base)
entries-front (suc n) b (r ∷ mq) x q e h =
    let depth : n + suc b ≡ suc n + b = omega arith in
    rw e.0 (
      entries-front n (suc b) mq x q e.1 h
      ∙ ap (λ (t : ℕ). (t, x) ∷ entries (suc b) (set mq n q)) depth)

-- An entry passes the queues that are not deeper than it.
insert-tag :
    (x : Entry) (d : ℕ) (q : List ℕ) (l : List Entry)
    → d ≤ x.0
    → insert_entry x (tag d q ++ l) ≡ tag d q ++ insert_entry x l
insert-tag x d [] l h = refl
insert-tag x d (i ∷ q) l h = ground (arith, insert-tag x d q l h)

insert-deeper :
    (x : Entry) (d : ℕ) (mq : List (List ℕ))
    → x.0 < d
    → insert_entry x (entries d mq) ≡ x ∷ entries d mq
insert-deeper x d [] h = refl
insert-deeper x d ([] ∷ mq) h = insert-deeper x (suc d) mq (omega arith)
insert-deeper x d ((i ∷ q) ∷ mq) h = ground arith

tag-append : (d : ℕ) (p q : List ℕ) → tag d (p ++ q) ≡ tag d p ++ tag d q
tag-append d [] q = refl
tag-append d (i ∷ p) q = ap (λ l. (d, i) ∷ l) (tag-append d p q)

pub entries-insert :
    (n b : ℕ) (mq : List (List ℕ)) (q : List ℕ) (i : ℕ)
    → get_elem? mq n ≡ some q
    → entries b (set mq n (q ++ i ∷ [])) ≡ insert_entry (n + b, i) (entries b mq)
entries-insert n b [] q i e = cc
entries-insert zero b (r ∷ mq) q i e =
    let same : r ≡ q = cc in
    let base : zero + b ≡ b = omega arith in
    rw
      (
        same,
        base,
        tag-append b q (i ∷ []),
        insert-tag (b, i) b q (entries (suc b) mq) (omega arith),
        append_assoc,
      )
      (ap (λ l. tag b q ++ l) (sym (insert-deeper (b, i) (suc b) mq (omega arith))))
entries-insert (suc n) b (r ∷ mq) q i e =
    let depth : suc n + b ≡ n + suc b = omega arith in
    rw (depth, insert-tag (n + suc b, i) b r (entries (suc b) mq) (omega arith))
      (ap (λ l. tag b r ++ l) (entries-insert n (suc b) mq q i e))

-- Queues added at the end hold nothing.
pub entries-replicate :
    (b n : ℕ) (mq : List (List ℕ)) → entries b (mq ++ replicate n []) ≡ entries b mq
entries-replicate b zero [] = refl
entries-replicate b (suc n) [] = entries-replicate (suc b) n []
entries-replicate b n (q ∷ mq) = ap (λ l. tag b q ++ l) (entries-replicate (suc b) n mq)

pub total-replicate : (n : ℕ) (mq : List (List ℕ)) → total (mq ++ replicate n []) ≡ total mq
total-replicate zero [] = refl
total-replicate (suc n) [] = omega (arith, total-replicate n [])
total-replicate n (q ∷ mq) = omega (arith, total-replicate n mq)

pub Drained-replicate :
    (n k : ℕ) (mq : List (List ℕ)) → Drained n mq → Drained n (mq ++ replicate k [])
Drained-replicate zero k mq e = tt
Drained-replicate (suc n) zero [] e = tt
Drained-replicate (suc n) (suc k) [] e = (refl, Drained-replicate n k [] (nil_Drained n))
  where
    nil_Drained : (m : ℕ) → Drained m []
    nil_Drained zero = tt
    nil_Drained (suc m) = tt
Drained-replicate (suc n) k (q ∷ mq) e = (e.0, Drained-replicate n k mq e.1)
