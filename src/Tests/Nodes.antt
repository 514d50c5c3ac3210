-- ===== src/Tests/Nodes.antt =====
-- The theorems about node cells and about building, at small cells and graphs.
use wavelet_rs.Prelude.{
  ℕ, zero, suc, ◌+◌, ◌≡◌, ◌≢◌, refl, [], ◌∷◌, false, some, ret, Call, Returns, returns, arith,
}
use wavelet_rs.Control.{Control, Relationship}
use wavelet_rs.StableGraph.Slots.{slots}
use wavelet_rs.Executor.Wiring.{IsWired}
use wavelet_rs.Node.{NodeInner, Outcome, answered, unwound, weak_closure, Parents, attach}
use wavelet_rs.Node.Wrapping.{Wrapped, weak_closure-Wrapped}
use wavelet_rs.Node.Building.{Built, attach-Built}
use wavelet_rs.Tests.Sample.{sample}

abbrev cell : NodeInner ℕ
cell = record { data_of = 5; index = 2; mut_epoch = 1; depth = 1; strong_count = 1; weak_count = 1 }

-- Adds the context to the data and drops all other handles, and unwinds at zero.
abbrev adding : ℕ → ℕ → ℕ → Outcome ℕ ℕ
adding d handles zero = unwound d handles 0
adding d handles (suc c) = answered Control.broadcast (d + suc c) 0 (suc c)

-- The drop of the cell counts in the context.
abbrev count_drop : NodeInner ℕ → ℕ → Call ℕ
count_drop n c = ret (c + 1)

weak_closure-Wrapped_example :
    (cell.strong_count ≢ 0
      → Returns
          (Wrapped (λ c. c) count_drop cell (adding 5 1 7))
          (weak_closure (λ c. c) false adding count_drop cell 7))
    × (cell.strong_count ≡ 0
        → weak_closure (λ c. c) false adding count_drop cell 7 ≡ ret (Control.sweep, (cell, 7)))
weak_closure-Wrapped_example =
    weak_closure-Wrapped (λ c. c) adding count_drop (λ n c. returns _ tt) cell 7

-- One node at depth 0.
abbrev pub root : sample.graphs.Carrier
unfolding slots
root =
    some (record { cycle_fn = Control.broadcast; sched_epoch = 0; depth = 0; poisoned = false }, [])
    ∷ []

abbrev under_root : Parents
under_root = (record { index = 0; depth = 0 }, Relationship.trigger) ∷ []

pub root-IsWired : IsWired sample.graphs root
unfolding slots
root-IsWired zero n e = tt
root-IsWired (suc i) n e = tt

attach-Built_example :
    Returns
      (Built sample.graphs root Control.unchanged under_root)
      (attach sample.graphs root Control.unchanged under_root)
unfolding slots
attach-Built_example =
    attach-Built sample.graphs root Control.unchanged under_root root-IsWired
      (record { node = _; found = refl; at_depth = refl }, tt) (omega arith)
