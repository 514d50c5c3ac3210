-- ===== src/Node/Builder/Relating.antt =====
-- The parents that `NodeBuilder` of wavelet/src/runtime/node.rs gathers.
use wavelet_rs.Prelude.{
  ◌≡◌, refl, sym, ◌∙◌, ap, inl, inr, true, false, if◌then◌else◌, List, [], ◌∷◌, Option, none, some,
  Bool-cases, arith,
}
use wavelet_rs.Control.{Relationship, is_trigger}
use wavelet_rs.Node.{RawHandle, Parents, same_handle, add_relationship}

-- All calls, in their order.
abbrev pub add_all : Parents → List (RawHandle × Relationship) → Parents
add_all ps [] = ps
add_all ps ((h, r) ∷ calls) = add_all (add_relationship ps h r) calls

-- The relationship to a parent, if it is one.
abbrev pub relationship_to : RawHandle → Parents → Option Relationship
relationship_to h [] = none
relationship_to h ((p, r) ∷ ps) = if same_handle p h then some r else relationship_to h ps

-- Of two relationships, one triggers if either does.
abbrev pub stronger : Option Relationship → Option Relationship → Option Relationship
stronger none s = s
stronger (some Relationship.trigger) s = some Relationship.trigger
stronger (some Relationship.observe) none = some Relationship.observe
stronger (some Relationship.observe) (some s) = some s

-- The strongest relationship that any of the calls asks for.
abbrev pub strongest : RawHandle → List (RawHandle × Relationship) → Option Relationship
strongest h [] = none
strongest h ((p, r) ∷ calls) =
    stronger (if same_handle p h then some r else none) (strongest h calls)

stronger_assoc :
    (a b c : Option Relationship) → stronger (stronger a b) c ≡ stronger a (stronger b c)
stronger_assoc none b c = refl
stronger_assoc (some Relationship.trigger) b c = refl
stronger_assoc (some Relationship.observe) none c = refl
stronger_assoc (some Relationship.observe) (some Relationship.trigger) c = refl
stronger_assoc (some Relationship.observe) (some Relationship.observe) none = refl
stronger_assoc (some Relationship.observe) (some Relationship.observe) (some s) = refl

pub same_handle-eq : (a b : RawHandle) → same_handle a b ≡ true → a ≡ b
same_handle-eq a b e =
    let i : a.index ≡ b.index = ground arith in let d : a.depth ≡ b.depth = ground arith in cc

same_handle_refl : (a : RawHandle) → same_handle a a ≡ true
same_handle_refl a = ground arith

overwritten :
    (r s : Relationship) → some (if is_trigger s then s else r) ≡ stronger (some r) (some s)
overwritten Relationship.trigger Relationship.trigger = refl
overwritten Relationship.trigger Relationship.observe = refl
overwritten Relationship.observe Relationship.trigger = refl
overwritten Relationship.observe Relationship.observe = refl

stronger-none : (a : Option Relationship) → stronger a none ≡ a
stronger-none none = refl
stronger-none (some Relationship.trigger) = refl
stronger-none (some Relationship.observe) = refl

same_handle-left : (p q h : RawHandle) → same_handle q p ≡ true → same_handle q h ≡ same_handle p h
same_handle-left p q h e = ap (λ x. same_handle x h) (same_handle-eq q p e)

add_relationship-stronger :
    (ps : Parents) (p h : RawHandle) (r : Relationship)
    → relationship_to h (add_relationship ps p r)
      ≡ stronger (relationship_to h ps) (if same_handle p h then some r else none)
unfolding add_relationship
add_relationship-stronger [] p h r = refl
add_relationship-stronger ((q, s) ∷ ps) p h r = elim (Bool-cases (same_handle q p)) [
  | inl here ↦
      let left = same_handle-left p q h here in
      elim (Bool-cases (same_handle p h)) [
        | inl hit ↦ rw (here, left, hit) (overwritten s r)
        | inr miss ↦ rw (here, left, miss) (sym (stronger-none (relationship_to h ps)))
      ]
  | inr past ↦ elim (Bool-cases (same_handle q h)) [
    | inl hit ↦ elim (Bool-cases (same_handle p h)) [
      | inl both ↦
          let clash : true ≡ false =
            sym hit ∙ (ap (same_handle q) (sym (same_handle-eq p h both)) ∙ past) in
          cc
      | inr miss ↦ rw (past, hit, miss) (sym (stronger-none (some s)))
    ]
    | inr other ↦ rw (past, other) (add_relationship-stronger ps p h r)
  ]
]

-- However often and in whatever order a builder relates to a parent, the parent's relationship is
-- the strongest of those asked for and of the one it had: it triggers if any of them does, else it
-- is observed if any of them observes it, and else it is no parent.
pub add_all-strongest :
    (calls : List (RawHandle × Relationship)) (ps : Parents) (h : RawHandle)
    → relationship_to h (add_all ps calls) ≡ stronger (relationship_to h ps) (strongest h calls)
add_all-strongest [] ps h = sym (stronger-none (relationship_to h ps))
add_all-strongest ((p, r) ∷ calls) ps h =
    add_all-strongest calls (add_relationship ps p r) h
    ∙ (ap (λ a. stronger a (strongest h calls)) (add_relationship-stronger ps p h r)
        ∙ stronger_assoc (relationship_to h ps) (if same_handle p h then some r else none)
            (strongest h calls))
