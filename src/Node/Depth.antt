-- ===== src/Node/Depth.antt =====
-- The depth of a new node: one below its deepest parent. Code: wavelet/src/runtime/node.rs.
use wavelet_rs.Prelude.{
  ℕ, ◌+◌, ◌<◌, ◌≤◌, ◌≡◌, ◌≢◌, inl, inr, [], ◌∷◌, none, some, max, All, Option-cases, arith, u32_mod,
}
use native.Mathlib.Nat.{mod-eq_of_lt}
use wavelet_rs.Control.{Relationship}
use wavelet_rs.Scheduling.Entries.{All-map}
use wavelet_rs.Node.{RawHandle, Parents, deepest, build_depth}

-- Every parent is shallower than `d`.
abbrev pub Above : ℕ → Parents → Type 0
Above d ps = All (λ (p, r). p.depth < d) ps

weaken :
    (c d : ℕ) (ps : Parents)
    → c ≤ d
    → All (λ (p, r). p.depth ≤ c) ps
    → All (λ (p, r). p.depth ≤ d) ps
weaken c d ps h = All-map ps (λ (p, r) q. omega arith)

deepest_some : (x : RawHandle × Relationship) (ps : Parents) → deepest (x ∷ ps) ≢ none
deepest_some (p, r) ps e = ground arith

deepest-bounds : (ps : Parents) (d : ℕ) → deepest ps ≡ some d → All (λ (p, r). p.depth ≤ d) ps
deepest-bounds [] d e = tt
deepest-bounds ((p, r) ∷ []) d e = (ground arith, tt)
deepest-bounds ((p, r) ∷ x ∷ ps) d e = elim (Option-cases (deepest (x ∷ ps))) [
  | inl no_more ↦ absurd (deepest_some x ps no_more)
  | inr (k, more) ↦
      let top : max p.depth k ≡ d = ground arith in
      (
        omega (arith, top),
        weaken k d (x ∷ ps) (omega (arith, top)) (deepest-bounds (x ∷ ps) k more),
      )
]

deepest-fits :
    (ps : Parents) (d : ℕ)
    → deepest ps ≡ some d
    → All (λ (p, r). p.depth + 1 < u32_mod) ps
    → d + 1 < u32_mod
deepest-fits [] d e h = cc
deepest-fits ((p, r) ∷ ps) d e h = elim (Option-cases (deepest ps)) [
  | inl no_more ↦ let top : p.depth ≡ d = ground arith in omega (arith, top, h.0)
  | inr (k, more) ↦
      let top : max p.depth k ≡ d = ground arith in
      omega (arith, top, h.0, deepest-fits ps k more h.1)
]

build_depth-some :
    (ps : Parents) (d : ℕ)
    → deepest ps ≡ some d
    → All (λ (p, r). p.depth + 1 < u32_mod) ps
    → build_depth ps ≡ d + 1
unfolding build_depth
build_depth-some ps d e h = rw (e, build_depth) (mod-eq_of_lt (deepest-fits ps d e h))

-- A new node stands below each of its parents, unless the depth wraps around.
pub build_depth-Above :
    (ps : Parents) → All (λ (p, r). p.depth + 1 < u32_mod) ps → Above (build_depth ps) ps
build_depth-Above [] h = tt
build_depth-Above (x ∷ ps) h = elim (Option-cases (deepest (x ∷ ps))) [
  | inl no_more ↦ absurd (deepest_some x ps no_more)
  | inr (d, e) ↦
      let deep = build_depth-some (x ∷ ps) d e h in
      All-map (x ∷ ps) (λ (p, r) q. omega (arith, deep)) (deepest-bounds (x ∷ ps) d e)
]
