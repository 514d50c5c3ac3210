-- ===== src/Wsnl/Route/Receiving.antt =====
-- An output of the router of wavelet/src/wsnl/control.rs that gets items, and how a scheduler takes
-- its node.
use wavelet_rs.Prelude.{
  ℕ, ◌≡◌, ◌≢◌, ◌≤◌, ◌<◌, refl, sym, ap, inl, inr, ◌⊎◌, ◌==◌, ==_refl, if◌then◌else◌, List, [], ◌∷◌,
  ◌++◌, Option, none, some, arith, length, append-nil, append_assoc, Call, Result, ret, ok,
}
use mathlib.Core.Option.{map}
use wavelet_rs.Node.{NodeInner}
use wavelet_rs.Scheduler.{Scheduler, SchedulerError}
use wavelet_rs.Scheduler.Contents.{insert_entry}
use wavelet_rs.Scheduler.Order.{IsValid, contents, Schedules, refused, out_of_bounds, queued}
use wavelet_rs.Wsnl.Route.{Output}

module _ {T : Type 0} where
  pub List-cases : (l : List T) → (l ≡ []) ⊎ (l ≢ [])
  List-cases [] = inl refl
  List-cases (x ∷ l) = inr λ e. cc

  -- What an output is, once it has got these items in this epoch: cleared if they are the first.
  abbrev pub receive : ℕ → List T → Output × NodeInner (List T) → Output × NodeInner (List T)
  receive epoch [] x = x
  receive epoch (item ∷ items) (o, n) = (
    record o { epoch = epoch },
    record n { data_of = (if o.epoch == epoch then n.data_of else []) ++ item ∷ items },
  )

  receive-append :
      (epoch : ℕ) (xs ys : List T) (x : Output × NodeInner (List T))
      → receive epoch (xs ++ ys) x ≡ receive epoch ys (receive epoch xs x)
  receive-append epoch [] ys x = refl
  receive-append epoch (a ∷ xs) [] x = rw (append-nil xs) refl
  receive-append epoch (a ∷ xs) (b ∷ ys) (o, n) =
      rw
        (==_refl epoch, append_assoc (if o.epoch == epoch then n.data_of else []) (a ∷ xs) (b ∷ ys))
        refl

  pub map-receive :
      (epoch : ℕ) (xs ys : List T) (o : Option (Output × NodeInner (List T)))
      → map (receive epoch ys) (map (receive epoch xs) o) ≡ map (receive epoch (xs ++ ys)) o
  map-receive epoch xs ys none = refl
  map-receive epoch xs ys (some x) = ap some (sym (receive-append epoch xs ys x))

  pub map_same :
      (epoch : ℕ) (o : Option (Output × NodeInner (List T))) → map (receive epoch []) o ≡ o
  map_same epoch none = refl
  map_same epoch (some x) = refl

-- A scheduler takes a node of a depth that it has not passed and that has a queue.
pub taken :
    (s : Scheduler) (node depth : ℕ) (c : Call (Result Scheduler SchedulerError))
    → Schedules s node depth c
    → s.curr_depth ≤ depth
    → depth < length s.multi_queue
    → (t : Scheduler) × (c ≡ ret (ok t))
      × (contents t ≡ insert_entry (depth, node) (contents s))
      × (t.curr_depth ≡ s.curr_depth)
      × (length t.multi_queue ≡ length s.multi_queue)
      × IsValid t
taken s node depth _ (refused e above) low high = absurd (omega arith)
taken s node depth _ (out_of_bounds a b) low high = absurd (omega arith)
taken s node depth _ (queued t a b c d l v) low high = (t, refl, c, d, l, v)
