-- ===== src/Scheduling/Entries.antt =====
-- Lists of scheduler entries: that no node stands in one twice, and who stands in one.
use wavelet_rs.Prelude.{ℕ, ◌≡◌, ◌≢◌, refl, sym, ◌⊎◌, inl, inr, List, [], ◌∷◌, leb, All, Bool-cases}
use wavelet_rs.Scheduler.Contents.{Entry, insert_entry}

-- No entry names the node.
abbrev pub Absent : ℕ → List Entry → Type 0
Absent i l = All (λ x. x.1 ≢ i) l

abbrev pub Distinct : List Entry → Type 0
Distinct [] = Unit
Distinct (x ∷ l) = Absent x.1 l × Distinct l

pub All-insert {κ} :
    (Q : Entry → Type κ) (x : Entry) (l : List Entry) → Q x → All Q l → All Q (insert_entry x l)
All-insert Q x [] q h = (q, h)
All-insert Q x (y ∷ l) q h = elim (Bool-cases (leb y.0 x.0)) [
  | inl e ↦ rw e (h.0, All-insert Q x l q h.1)
  | inr e ↦ rw e (q, h)
]

pub All-map {ℓ κ μ} :
    {A : Type ℓ} {Q : A → Type κ} {R : A → Type μ} (l : List A)
    → ((a : A) → Q a → R a)
    → All Q l
    → All R l
All-map [] f h = tt
All-map (x ∷ l) f h = (f x h.0, All-map l f h.1)

pub Distinct-insert :
    (x : Entry) (l : List Entry) → Absent x.1 l → Distinct l → Distinct (insert_entry x l)
Distinct-insert x [] a d = (tt, tt)
Distinct-insert x (y ∷ l) a d = elim (Bool-cases (leb y.0 x.0)) [
  | inl e ↦
      rw e
        (All-insert (λ z. z.1 ≢ y.1) x l (λ same. a.0 (sym same)) d.0, Distinct-insert x l a.1 d.1)
  | inr e ↦ rw e (a, d)
]

-- The node stands in the list.
abbrev pub In : ℕ → List ℕ → Type 0
In i [] = ⊥
In i (j ∷ l) = (j ≡ i) ⊎ In i l

abbrev pub Waits : ℕ → List Entry → Type 0
Waits i [] = ⊥
Waits i (x ∷ l) = (x.1 ≡ i) ⊎ Waits i l

pub Waits-insert_self : (x : Entry) (l : List Entry) → Waits x.1 (insert_entry x l)
Waits-insert_self x [] = inl refl
Waits-insert_self x (y ∷ l) = elim (Bool-cases (leb y.0 x.0)) [
  | inl e ↦ rw e (inr (Waits-insert_self x l))
  | inr e ↦ rw e (inl refl)
]

pub Waits-insert : (i : ℕ) (x : Entry) (l : List Entry) → Waits i l → Waits i (insert_entry x l)
Waits-insert i x [] w = elim w [ ]
Waits-insert i x (y ∷ l) w = elim (Bool-cases (leb y.0 x.0)) [
  | inl e ↦ rw e (elim w [ inl h ↦ inl h | inr h ↦ inr (Waits-insert i x l h) ])
  | inr e ↦ rw e (inr w)
]
