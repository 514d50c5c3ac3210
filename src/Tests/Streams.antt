-- ===== src/Tests/Streams.antt =====
-- The theorems on clocks and on the stream nodes, at small inputs.
use wavelet_rs.Prelude.{
  none, some, ret, ==_refl, ◌>>=◌, ℕ, ◌+◌, ◌≤◌, ◌<◌, Call, Returns, returns, panic, leb, leb→le,
  leb→gt, Bool-cases, inl, inr, if◌then◌else◌, ◌≡◌, refl, [], ◌∷◌, true, false, ◌==◌, ==_iff, arith,
}
use wavelet_rs.Clock.Historical.{Calendar, HistoricalClock, IsWithin, Reads, read, read-Advances}
use wavelet_rs.Clock.Historical.Exhausting.{read_exhausts}
use wavelet_rs.Clock.Precision.{Timeline}
use wavelet_rs.EventDriver.{spin}
use wavelet_rs.EventDriver
use wavelet_rs.Executor.{ExecutionContext}
use wavelet_rs.Executor.Context
use wavelet_rs.Wsnl.Transform.{deduplicate_cycle, first_of_key, deduplicate_cycle-first}
use wavelet_rs.Factory.Simple.{
  SimpleFactory, IsSpent, request, request_again, request_again-request,
}
use wavelet_rs.Factory.{KeyedFactory, get, get-get}
use wavelet_rs.Tests.Sample.{sample}

abbrev pub numbers : Timeline ℕ
numbers = record { nanos = λ t. t; plus = λ t d. t + d; nanos-plus = λ t d. refl }

-- The moments up to 45.
pub add : ℕ → ℕ → Call ℕ
add t d = if leb (t + d) 45 then ret (t + d) else panic

pub add-fits : (t d : ℕ) → t + d ≤ 45 → Returns (λ u. u ≡ t + d) (add t d)
unfolding add
add-fits t d fits = elim (Bool-cases (leb (t + d) 45)) [
  | inl short ↦ rw short (returns _ refl)
  | inr long ↦ absurd (omega (arith, leb→gt _ _ long, fits))
]

pub add-late : (t d : ℕ) → 45 < t + d → add t d ≡ panic
unfolding add
add-late t d late = elim (Bool-cases (leb (t + d) 45)) [
  | inl fits ↦ absurd (omega (arith, leb→le _ _ fits, late))
  | inr long ↦ rw long
]

abbrev pub calendar : Calendar ℕ
calendar = record {
  nanos = λ t. t;
  last = 45;
  plus = add;
  plus-fits = add-fits;
  plus-late = add-late;
}

-- From 10 to 35, in steps of 10.
abbrev pub replay : HistoricalClock calendar
replay = record {
  interval = record { start = 10; end = 35 };
  time_step = 10;
  current_time = 10;
  baseline_instant = 100;
  exhausted = false;
}

pub replay-IsWithin : IsWithin calendar replay
replay-IsWithin = record { after_start = omega arith; before_end = omega arith; at_end = λ e. cc }

read-Advances_example : Reads calendar replay (read calendar 2 replay)
read-Advances_example = read-Advances calendar 2 replay replay-IsWithin

read_exhausts_example : Returns (λ d. d.exhausted ≡ true) (read calendar 4 replay)
read_exhausts_example = read_exhausts calendar 3 replay replay-IsWithin (omega arith) (omega arith)

deduplicate_cycle-first_example :
    (deduplicate_cycle (λ a b. a == b) (λ (a : ℕ). a) (3 ∷ 4 ∷ 3 ∷ []) (9 ∷ [])).1
    ≡ first_of_key (λ a b. a == b) (λ a. a) [] (3 ∷ 4 ∷ 3 ∷ [])
deduplicate_cycle-first_example =
    deduplicate_cycle-first (λ a b. a == b) (λ a. a) (λ k j. (==_iff k j).0) (3 ∷ 4 ∷ 3 ∷ [])
      (9 ∷ [])

abbrev pub context : ExecutionContext sample
context =
    Context.new sample (EventDriver.new _ _ _ spin)
      (record { multi_queue = []; curr_depth = 0; pending_events = 0 }) []
      (record { instant = 0; unix_time = 0 }) 1 (record { removal_queue = [] }) 0

-- The node of a key is the number of nodes that were made before.
abbrev counting : KeyedFactory ℕ ℕ ℕ
counting = record { cache = []; factory = some (λ key made. ret (made, made + 1)) }

get-get_example :
    (get (λ a b. a == b) counting 4 7 >>= λ (node, self', made'). get (λ a b. a == b) self' made' 7)
    ≡ get (λ a b. a == b) counting 4 7
get-get_example = get-get (λ a b. a == b) ==_refl counting 4 7

-- The node is the state that the function has found.
abbrev single : SimpleFactory ℕ ℕ
single = record { node = none; factory = some (λ made. ret (made, made + 1)) }

single-IsSpent : IsSpent single
single-IsSpent = record { spent = λ node e. cc }

request_again-request_example :
    request_again single (λ made. ret (made + 10, made)) 4 ≡ request single 4
request_again-request_example =
    request_again-request single (λ made. ret (made + 10, made)) 4 single-IsSpent
