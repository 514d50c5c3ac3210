-- ===== src/Prelude/Tests.antt =====
-- Boolean tests on the native numbers, the conditional, and what a call does when it panics.
use Prim.Native.Nat.{ℕ, ◌≤◌, ◌<◌, ◌^◌, compare, Ordering}
use mathlib.Core.Path.{◌≡◌, refl, subst}
use mathlib.Core.Logic.{◌↔◌, ◌⊎◌, inl, inr}
use mathlib.Core.Bool.{Bool, true, false}
use mathlib.Core.Option.{Option, none, some}
use native.Mathlib.Omega.{arith}

abbrev pub ltb : ℕ → ℕ → Bool
ltb a b = elim (compare a b) [ Ordering.lt ↦ true | _ ↦ false ]

abbrev pub leb : ℕ → ℕ → Bool
leb a b = elim (compare a b) [ Ordering.gt ↦ false | _ ↦ true ]

infix 50 ◌==◌
abbrev pub ◌==◌ : ℕ → ℕ → Bool
a == b = elim (compare a b) [ Ordering.eq ↦ true | _ ↦ false ]

infix 1 if◌then◌else◌
abbrev pub if◌then◌else◌ {ℓ} : {A : Type ℓ} → Bool → A → A → A
if true then x else y = x
if false then x else y = y

pub ltb→lt : (a b : ℕ) → ltb a b ≡ true → a < b
ltb→lt a b h = ground arith

pub ltb→ge : (a b : ℕ) → ltb a b ≡ false → b ≤ a
ltb→ge a b h = ground arith

pub leb→le : (a b : ℕ) → leb a b ≡ true → a ≤ b
leb→le a b h = ground arith

pub leb→gt : (a b : ℕ) → leb a b ≡ false → b < a
leb→gt a b h = ground arith

pub lt→ltb : (a b : ℕ) → a < b → ltb a b ≡ true
lt→ltb a b h = ground arith

pub ge→ltb : (a b : ℕ) → b ≤ a → ltb a b ≡ false
ge→ltb a b h = ground arith

pub ==_iff : (a b : ℕ) → ((a == b) ≡ true) ↔ (a ≡ b)
==_iff a b = ground arith

pub ==_refl : (a : ℕ) → (a == a) ≡ true
==_refl a = ground arith

pub ruleset tests = (arith, ltb→lt, ltb→ge, leb→le, leb→gt)

pub Bool-cases : (b : Bool) → (b ≡ true) ⊎ (b ≡ false)
Bool-cases true = inl refl
Bool-cases false = inr refl

pub Option-cases {ℓ} : {A : Type ℓ} (o : Option A) → (o ≡ none) ⊎ ((a : A) × (o ≡ some a))
Option-cases none = inl refl
Option-cases (some a) = inr (a, refl)

pub eq_of_some {ℓ} : {A : Type ℓ} {a b : A} → some a ≡ some b → a ≡ b
eq_of_some e = cc

-- The moduli of u32 and of usize on a 64-bit target.
abbrev pub u32_mod : ℕ
u32_mod = 2 ^ 32

abbrev pub usize_mod : ℕ
usize_mod = 2 ^ 64

-- A call that may panic. `out_of_fuel` is no outcome of the program: a loop of the model had less
-- fuel than it takes turns.
pub data Call {ℓ} (A : Type ℓ) : Type ℓ where
  ret : A → Call A
  panic : Call A
  out_of_fuel : Call A

infixl 5 ◌>>=◌
abbrev pub ◌>>=◌ {ℓ κ} : {A : Type ℓ} {B : Type κ} → Call A → (A → Call B) → Call B
ret a >>= f = f a
panic >>= f = panic
out_of_fuel >>= f = out_of_fuel

pub bind_assoc {ℓ κ μ} :
    {A : Type ℓ} {B : Type κ} {C : Type μ} (c : Call A) (f : A → Call B) (g : B → Call C)
    → (c >>= f >>= g) ≡ (c >>= λ a. f a >>= g)
bind_assoc (ret a) f g = refl
bind_assoc panic f g = refl
bind_assoc out_of_fuel f g = refl

pub bind_congr {ℓ κ} :
    {A : Type ℓ} {B : Type κ} (c : Call A) {f g : A → Call B}
    → ((a : A) → f a ≡ g a)
    → (c >>= f) ≡ (c >>= g)
bind_congr (ret a) h = h a
bind_congr panic h = refl
bind_congr out_of_fuel h = refl

-- What Rust calls `Result`.
pub data Result {ℓ κ} (A : Type ℓ) (E : Type κ) : Type (ℓ ⊔ κ) where
  ok : A → Result A E
  err : E → Result A E

pub Result-cases {ℓ κ} :
    {A : Type ℓ} {E : Type κ} (r : Result A E) → ((a : A) × (r ≡ ok a)) ⊎ ((e : E) × (r ≡ err e))
Result-cases (ok a) = inl (a, refl)
Result-cases (err e) = inr (e, refl)

-- The call returns, and its value satisfies `Q`.
pub data Returns {ℓ κ} {A : Type ℓ} (Q : A → Type κ) : Call A → Type (ℓ ⊔ κ) where
  returns : (a : A) → Q a → Returns Q (ret a)

pub Returns-map {ℓ κ μ} :
    {A : Type ℓ} {Q : A → Type κ} {R : A → Type μ} {c : Call A}
    → ((a : A) → Q a → R a)
    → Returns Q c
    → Returns R c
Returns-map f (returns a q) = returns a (f a q)

pub Returns-bind {ℓ κ μ ν} :
    {A : Type ℓ} {B : Type κ} {Q : A → Type μ} {R : B → Type ν} {c : Call A} (f : A → Call B)
    → Returns Q c
    → ((a : A) → Q a → Returns R (f a))
    → Returns R (c >>= f)
Returns-bind f (returns a q) h = h a q

-- The same, with the call's value at hand.
pub Returns-bind_eq {ℓ κ μ ν} :
    {A : Type ℓ} {B : Type κ} {Q : A → Type μ} {R : B → Type ν} {c : Call A} (f : A → Call B)
    → Returns Q c
    → ((a : A) → c ≡ ret a → Q a → Returns R (f a))
    → Returns R (c >>= f)
Returns-bind_eq f (returns a q) h = h a refl q

-- A bind that returns has a first call that returns.
pub bind-ret {ℓ κ} :
    {A : Type ℓ} {B : Type κ} (c : Call A) (f : A → Call B) {b : B}
    → (c >>= f) ≡ ret b
    → (a : A) × (c ≡ ret a) × (f a ≡ ret b)
bind-ret (ret a) f e = (a, refl, e)
bind-ret panic f e = cc
bind-ret out_of_fuel f e = cc

pub Returns-ret {ℓ κ} :
    {A : Type ℓ} {Q : A → Type κ} {c : Call A} (a : A) → Returns Q c → c ≡ ret a → Q a
Returns-ret {Q = Q} a (returns b q) e = subst Q (cc) q

pub Returns-value {ℓ κ} :
    {A : Type ℓ} {Q : A → Type κ} {c : Call A} → Returns Q c → (a : A) × (c ≡ ret a) × Q a
Returns-value (returns a q) = (a, refl, q)

-- A call that turns on a test, both ways.
pub Returns-if {ℓ κ} :
    {A : Type ℓ} {Q : A → Type κ} {x y : Call A} (b : Bool)
    → (b ≡ true → Returns Q x)
    → (b ≡ false → Returns Q y)
    → Returns Q (if b then x else y)
Returns-if true first other = first refl
Returns-if false first other = other refl

pub Returns-elim {ℓ κ} :
    {A : Type ℓ} {Q : A → Type κ} {x y : Call A} (b : Bool)
    → (b ≡ true → Returns Q x)
    → (b ≡ false → Returns Q y)
    → Returns Q (elim b [ true ↦ x | false ↦ y ])
Returns-elim true first other = first refl
Returns-elim false first other = other refl
