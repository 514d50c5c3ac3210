-- ===== src/Tests/Sample.antt =====
-- A platform to test on: slots for the graph, a bounded list for the queue, a poller that answers
-- with batches of tokens from a script, and closures that always give the same answer.
use wavelet_rs.Prelude.{
  ℕ, zero, suc, ◌≡◌, refl, List, [], ◌∷◌, ◌++◌, Option, none, some, ret, ok, ◌==◌, if◌then◌else◌,
  length, arith, ◌∙◌, returns,
}
use wavelet_rs.Control.{Control, Relationship}
use wavelet_rs.StableGraph.Slots.{slots}
use wavelet_rs.ArrayQueue.Bounded.{bounded}
use wavelet_rs.Graph.{NodeContext}
use wavelet_rs.Mio.{Mio}
use wavelet_rs.Slab.{Slab}
use wavelet_rs.Platform.{Platform}
use wavelet_rs.Executor.{Closures}
use wavelet_rs.Executor.Propagation.{IsQuiet}

-- A source and an interest are numbers; registration always succeeds.
abbrev pub scripted : Mio
scripted = record {
  Poller = List (List ℕ);
  Source = ℕ;
  Interest = ℕ;
  IoError = ℕ;
  new = λ token. [];
  register = λ p s token i. (ok s, p);
  deregister = λ p s. (ok s, p);
  reregister = λ p s token i. (ok s, p);
  poll = λ p wait. elim p [ [] ↦ (ok [], []) | batch ∷ rest ↦ (ok batch, rest) ];
  wake = λ p. p;
}

module _ {A : Type 0} where
  abbrev get : List (Option A) → ℕ → Option A
  get [] k = none
  get (x ∷ s) zero = x
  get (x ∷ s) (suc k) = get s k

  abbrev remove : List (Option A) → ℕ → List (Option A)
  remove [] k = []
  remove (x ∷ s) zero = none ∷ s
  remove (x ∷ s) (suc k) = x ∷ remove s k

  get-length : (s : List (Option A)) → get s (length s) ≡ none
  get-length [] = refl
  get-length (x ∷ s) = get-length s

  get-append :
      (s : List (Option A)) (a : A) (k : ℕ)
      → get (s ++ some a ∷ []) k ≡ (if length s == k then some a else get s k)
  get-append [] a zero = refl
  get-append [] a (suc k) = ground arith
  get-append (x ∷ s) a zero = ground arith
  get-append (x ∷ s) a (suc k) = get-append s a k ∙ ground arith

  get-remove :
      (s : List (Option A)) (j k : ℕ) → get (remove s j) k ≡ (if j == k then none else get s k)
  get-remove [] j k = ground arith
  get-remove (x ∷ s) zero zero = refl
  get-remove (x ∷ s) zero (suc k) = ground arith
  get-remove (x ∷ s) (suc j) zero = ground arith
  get-remove (x ∷ s) (suc j) (suc k) = get-remove s j k ∙ ground arith

unfoldable pub table : (A : Type 0) → Slab A
unfolding get-length get-append get-remove
table A = record {
  Carrier = List (Option A);
  with_capacity = λ c. [];
  vacant_key = λ s. length s;
  insert = λ s a. s ++ some a ∷ [];
  get = get;
  remove = remove;
  get-with_capacity = λ c k. refl;
  get-vacant_key = get-length;
  get-insert = get-append;
  get-remove = get-remove;
}

-- A closure is the answer that it gives; nothing is captured, and times are numbers.
abbrev pub sample : Platform
sample = record {
  mio = scripted;
  slab = table ℕ;
  queue = bounded ℕ;
  Closure = Control;
  Spawn = ℕ;
  Store = ℕ;
  Time = ℕ;
  graphs = slots (NodeContext Control) Relationship;
}

abbrev pub constant : Closures sample
constant = record {
  run = λ control ctx. ret (control, ctx);
  drop = λ control r. r;
  spawn = λ f e. ret e;
}

pub constant-IsQuiet : IsQuiet sample constant
constant-IsQuiet f ctx = returns _ refl
