-- ===== src/StableGraph/Slots.antt =====
-- An instance of the interface: a vector of slots that are not reused.
use wavelet_rs.Prelude.{
  ℕ, zero, suc, ◌+◌, ◌≡◌, ◌≢◌, refl, ap, ◌∙◌, not, List, [], ◌∷◌, ◌++◌, Option, none, some, ◌==◌,
  ◌≤◌, All, AllDistinct, Fresh, arith, if◌then◌else◌, keep, length,
}
use wavelet_rs.StableGraph.{StableGraph, Link, is_live}

abbrev Slot : Type 0 → Type 0 → Type 0
Slot N E = Option (N × List (Link E))

module _ {N E : Type 0} where
  abbrev weight_of : Slot N E → Option N
  weight_of none = none
  weight_of (some (n, l)) = some n

  abbrev links_of : Slot N E → List (Link E)
  links_of none = []
  links_of (some (n, l)) = l

  abbrev slot : List (Slot N E) → ℕ → (Slot N E)
  slot [] i = none
  slot (s ∷ g) zero = s
  slot (s ∷ g) (suc i) = slot g i

  abbrev replace : Slot N E → N → (Slot N E)
  replace none n = none
  replace (some (m, l)) n = some (n, l)

  abbrev link : Slot N E → E → ℕ → (Slot N E)
  link none e b = none
  link (some (n, l)) e b = some (n, (e, b) ∷ l)

  abbrev at : ((Slot N E) → (Slot N E)) → ℕ → List (Slot N E) → List (Slot N E)
  at f i [] = []
  at f zero (s ∷ g) = f s ∷ g
  at f (suc i) (s ∷ g) = s ∷ at f i g

  abbrev unlink : ℕ → (Slot N E) → (Slot N E)
  unlink i none = none
  unlink i (some (n, l)) = some (n, keep (λ k. not (k.1 == i)) l)

  abbrev unlink_all : ℕ → List (Slot N E) → List (Slot N E)
  unlink_all i [] = []
  unlink_all i (s ∷ g) = unlink i s ∷ unlink_all i g

  abbrev live : Slot N E → ℕ
  live none = 0
  live (some x) = 1

  abbrev count : List (Slot N E) → ℕ
  count [] = 0
  count (s ∷ g) = live s + count g

  slot-at :
      (f : Slot N E → (Slot N E)) (i j : ℕ) (g : List (Slot N E))
      → f none ≡ none
      → slot (at f i g) j ≡ (if i == j then f (slot g j) else slot g j)
  slot-at f i j [] h = ground arith
  slot-at f zero zero (s ∷ g) h = refl
  slot-at f zero (suc j) (s ∷ g) h = ground arith
  slot-at f (suc i) zero (s ∷ g) h = ground arith
  slot-at f (suc i) (suc j) (s ∷ g) h = slot-at f i j g h ∙ ground arith

  slot-append :
      (g : List (Slot N E)) (s : (Slot N E)) (j : ℕ)
      → slot (g ++ s ∷ []) j ≡ (if length g == j then s else slot g j)
  slot-append [] s zero = refl
  slot-append [] s (suc j) = ground arith
  slot-append (t ∷ g) s zero = ground arith
  slot-append (t ∷ g) s (suc j) = slot-append g s j ∙ ground arith

  slot-length : (g : List (Slot N E)) → slot g (length g) ≡ none
  slot-length [] = refl
  slot-length (s ∷ g) = slot-length g

  slot-unlink_all : (i j : ℕ) (g : List (Slot N E)) → slot (unlink_all i g) j ≡ unlink i (slot g j)
  slot-unlink_all i j [] = refl
  slot-unlink_all i zero (s ∷ g) = refl
  slot-unlink_all i (suc j) (s ∷ g) = slot-unlink_all i j g

  count-at :
      (f : Slot N E → (Slot N E)) (i : ℕ) (g : List (Slot N E))
      → f none ≡ none
      → count (at f i g) + live (slot g i) ≡ count g + live (f (slot g i))
  count-at f i [] h = rw h
  count-at f zero (s ∷ g) h = omega arith
  count-at f (suc i) (s ∷ g) h = omega (arith, count-at f i g h)

  count-append : (g : List (Slot N E)) (s : (Slot N E)) → count (g ++ s ∷ []) ≡ count g + live s
  count-append [] s = omega arith
  count-append (t ∷ g) s = omega (arith, count-append g s)

  count-unlink_all : (i : ℕ) (g : List (Slot N E)) → count (unlink_all i g) ≡ count g
  count-unlink_all i [] = refl
  count-unlink_all i (none ∷ g) = omega (arith, count-unlink_all i g)
  count-unlink_all i (some x ∷ g) = omega (arith, count-unlink_all i g)

  count-replace :
      (g : List (Slot N E)) (i : ℕ) (n : N) → count (at (λ s. replace s n) i g) ≡ count g
  count-replace [] i n = refl
  count-replace (none ∷ g) zero n = refl
  count-replace (some x ∷ g) zero n = refl
  count-replace (s ∷ g) (suc i) n = omega (arith, count-replace g i n)

  count-link :
      (g : List (Slot N E)) (i : ℕ) (e : E) (b : ℕ) → count (at (λ s. link s e b) i g) ≡ count g
  count-link [] i e b = refl
  count-link (none ∷ g) zero e b = refl
  count-link (some x ∷ g) zero e b = refl
  count-link (s ∷ g) (suc i) e b = omega (arith, count-link g i e b)

  remove : List (Slot N E) → ℕ → List (Slot N E)
  remove g i = at (λ s. none) i (unlink_all i g)

  slot-remove :
      (g : List (Slot N E)) (i j : ℕ)
      → slot (remove g i) j ≡ (if i == j then none else unlink i (slot g j))
  unfolding remove
  slot-remove g i j = slot-at (λ s. none) i j (unlink_all i g) refl ∙ rw (slot-unlink_all i j g)

  count-remove :
      (g : List (Slot N E)) (i : ℕ)
      → count g
        ≡ (if is_live (weight_of (slot g i)) then suc (count (remove g i)) else count (remove g i))
  unfolding remove
  count-remove g i = ground (
    arith,
    count-at (λ s. none) i (unlink_all i g) refl,
    count-unlink_all i g,
    slot-unlink_all i i g,
  )

-- Numbers above zero, lowered by one.
abbrev lower : List ℕ → List ℕ
lower [] = []
lower (zero ∷ l) = lower l
lower (suc i ∷ l) = i ∷ lower l

lower-Fresh : (i : ℕ) (l : List ℕ) → Fresh (suc i) l → Fresh i (lower l)
lower-Fresh i [] h = tt
lower-Fresh i (zero ∷ l) h = lower-Fresh i l h.1
lower-Fresh i (suc j ∷ l) h = ((λ e. h.0 (ap suc e)), lower-Fresh i l h.1)

lower-AllDistinct : (l : List ℕ) → AllDistinct l → AllDistinct (lower l)
lower-AllDistinct [] h = tt
lower-AllDistinct (zero ∷ l) h = lower-AllDistinct l h.1
lower-AllDistinct (suc i ∷ l) h = (lower-Fresh i l h.0, lower-AllDistinct l h.1)

length-lower_fresh : (l : List ℕ) → Fresh zero l → length l ≤ length (lower l)
length-lower_fresh [] h = omega arith
length-lower_fresh (zero ∷ l) h = absurd (h.0 refl)
length-lower_fresh (suc i ∷ l) h = omega (arith, length-lower_fresh l h.1)

length-lower : (l : List ℕ) → AllDistinct l → length l ≤ suc (length (lower l))
length-lower [] h = omega arith
length-lower (zero ∷ l) h = omega (arith, length-lower_fresh l h.0)
length-lower (suc i ∷ l) h = omega (arith, length-lower l h.1)

module _ {N E : Type 0} where
  abbrev Occupied : List (Slot N E) → ℕ → Type 0
  Occupied g i = weight_of (slot g i) ≢ none

  lower-Occupied :
      (s : Slot N E) (g : List (Slot N E)) (l : List ℕ)
      → All (Occupied (s ∷ g)) l
      → All (Occupied g) (lower l)
  lower-Occupied s g [] h = tt
  lower-Occupied s g (zero ∷ l) h = lower-Occupied s g l h.1
  lower-Occupied s g (suc i ∷ l) h = (h.0, lower-Occupied s g l h.1)

  Fresh-none : (g : List (Slot N E)) (l : List ℕ) → All (Occupied (none ∷ g)) l → Fresh zero l
  Fresh-none g [] h = tt
  Fresh-none g (zero ∷ l) h = absurd (h.0 refl)
  Fresh-none g (suc i ∷ l) h = ((λ e. absurd (omega arith)), Fresh-none g l h.1)

  count-bounds :
      (g : List (Slot N E)) (l : List ℕ) → AllDistinct l → All (Occupied g) l → length l ≤ count g
  count-bounds [] [] d h = omega arith
  count-bounds [] (i ∷ l) d h = absurd (h.0 refl)
  count-bounds (none ∷ g) l d h = omega (
    arith,
    length-lower_fresh l (Fresh-none g l h),
    count-bounds g (lower l) (lower-AllDistinct l d) (lower-Occupied none g l h),
  )
  count-bounds (some x ∷ g) l d h = omega (
    arith,
    length-lower l d,
    count-bounds g (lower l) (lower-AllDistinct l d) (lower-Occupied (some x) g l h),
  )

unfoldable pub slots : (N E : Type 0) → StableGraph N E
unfolding remove lower-Fresh length-lower_fresh Fresh-none lower-AllDistinct lower-Occupied
    length-lower count-bounds slot-unlink_all count-at count-unlink_all slot-at slot-length
    slot-append slot-remove count-replace count-append count-link count-remove
slots N E = record {
  Carrier = List (Slot N E);
  empty = [];
  node_weight = λ g i. weight_of (slot g i);
  set_weight = λ g i n. at (λ s. replace s n) i g;
  add_node = λ g n. (length g, g ++ some (n, []) ∷ []);
  add_edge = λ g a b e. at (λ s. link s e b) a g;
  remove_node = remove;
  outgoing = λ g i. links_of (slot g i);
  node_count = count;
  node_weight-empty = λ i. refl;
  node_weight-set_weight = λ g i j n. ground (arith, slot-at (λ s. replace s n) i j g refl);
  outgoing-set_weight = λ g i j n. ground (arith, slot-at (λ s. replace s n) i j g refl);
  add_node_fresh = λ g n. ap weight_of (slot-length g);
  node_weight-add_node = λ g n j. ground (arith, slot-append g (some (n, [])) j);
  outgoing-add_node = λ g n j. ground (arith, slot-append g (some (n, [])) j);
  node_weight-add_edge = λ g a b e j. ground (arith, slot-at (λ s. link s e b) a j g refl);
  outgoing-add_edge = λ g a b e j h. ground (arith, slot-at (λ s. link s e b) a j g refl);
  node_weight-remove_node = λ g i j. ground (arith, slot-remove g i j);
  outgoing-remove_node = λ g i j. ground (arith, slot-remove g i j);
  node_count-empty = refl;
  node_count-set_weight = λ g i n. count-replace g i n;
  node_count-add_node = λ g n. omega (arith, count-append g (some (n, [])));
  node_count-add_edge = λ g a b e. count-link g a e b;
  node_count-remove_node = λ g i. count-remove g i;
  node_count-bounds = count-bounds;
}
