-- ===== src/Prelude/Tests.antt =====
-- Boolean tests on the native numbers, the conditional, and case splits that keep the equation.
use Prim.Native.Nat.{ℕ, compare, Ordering}
use mathlib.Core.Path.{◌≡◌, refl}
use mathlib.Core.Logic.{◌⊎◌, inl, inr}
use mathlib.Core.Bool.{Bool, true, false}
use mathlib.Core.Option.{Option, none, some}

abbrev pub ltb : ℕ → ℕ → Bool
ltb a b = elim (compare a b) [ Ordering.lt ↦ true | _ ↦ false ]

abbrev pub leb : ℕ → ℕ → Bool
leb a b = elim (compare a b) [ Ordering.gt ↦ false | _ ↦ true ]

abbrev pub eqb : ℕ → ℕ → Bool
eqb a b = elim (compare a b) [ Ordering.eq ↦ true | _ ↦ false ]

infix 1 if◌then◌else◌
abbrev pub if◌then◌else◌ {ℓ} : {A : Type ℓ} → Bool → A → A → A
if true then x else y = x
if false then x else y = y

pub Bool-cases : (b : Bool) → (b ≡ true) ⊎ (b ≡ false)
Bool-cases true = inl refl
Bool-cases false = inr refl

pub Option-cases {ℓ} : {A : Type ℓ} (o : Option A) → (o ≡ none) ⊎ ((a : A) × (o ≡ some a))
Option-cases none = inl refl
Option-cases (some a) = inr (a, refl)

-- What both branches have, a conditional has.
pub if_both {ℓ κ} :
    {A : Type ℓ} (Q : A → Type κ) (b : Bool) (x y : A) → Q x → Q y → Q (if b then x else y)
if_both Q true x y hx hy = hx
if_both Q false x y hx hy = hy

-- A conditional has what its first branch has not: it took the second one.
pub if_second {ℓ κ} :
    {A : Type ℓ} (Q : A → Type κ) (b : Bool) (x y : A)
    → (Q x → ⊥)
    → Q (if b then x else y)
    → (b ≡ false) × Q y
if_second Q true x y lacks h = absurd (lacks h)
if_second Q false x y lacks h = (refl, h)

pub if_first {ℓ κ} :
    {A : Type ℓ} (Q : A → Type κ) (b : Bool) (x y : A)
    → (Q y → ⊥)
    → Q (if b then x else y)
    → (b ≡ true) × Q x
if_first Q true x y lacks h = (refl, h)
if_first Q false x y lacks h = absurd (lacks h)

-- A conditional whose test is known.
pub if_taken {ℓ κ} :
    {A : Type ℓ} (Q : A → Type κ) {b : Bool} (x y : A) → b ≡ true → Q (if b then x else y) → Q x
if_taken Q {b = true} x y e h = h
if_taken Q {b = false} x y e h = cc

pub if_passed {ℓ κ} :
    {A : Type ℓ} (Q : A → Type κ) {b : Bool} (x y : A) → b ≡ false → Q (if b then x else y) → Q y
if_passed Q {b = true} x y e h = cc
if_passed Q {b = false} x y e h = h
