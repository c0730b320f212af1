-- ===== src/Base/Tests.antt =====
-- Boolean tests on the native numbers, and the conditional.
use Prim.Native.Nat.{ℕ, ◌/◌, ◌%◌, ◌^◌, compare, Ordering}
use mathlib.Core.Path.{◌≡◌, refl}
use mathlib.Core.Logic.{◌↔◌, ◌⊎◌, inl, inr}
use mathlib.Core.Bool.{Bool, true, false}
use mathlib.Core.Option.{Option, none, some}
use native.Mathlib.Omega.{arith}

abbrev pub ltb : ℕ → ℕ → Bool
ltb a b = elim (compare a b) [ Ordering.lt ↦ true | _ ↦ false ]

abbrev pub leb : ℕ → ℕ → Bool
leb a b = elim (compare a b) [ Ordering.gt ↦ false | _ ↦ true ]

infix 50 ◌==◌
abbrev pub ◌==◌ : ℕ → ℕ → Bool
a == b = elim (compare a b) [ Ordering.eq ↦ true | _ ↦ false ]

infix 1 if◌then◌else◌
abbrev pub if◌then◌else◌ {ℓ} : {A : Type ℓ} → Bool → A → A → A
if true then x else y = x
if false then x else y = y

-- Whether bit `k` of a word is set: the code's `w & (1 << k)`.
abbrev pub has_bit : ℕ → ℕ → Bool
has_bit w k = w / 2 ^ k % 2 == 1

pub ==_iff : (a b : ℕ) → ((a == b) ≡ true) ↔ (a ≡ b)
==_iff a b = ground arith

-- To split on a computed value and keep the equation.
pub Bool-cases : (b : Bool) → (b ≡ true) ⊎ (b ≡ false)
Bool-cases true = inl refl
Bool-cases false = inr refl

pub Option-cases {ℓ} : {A : Type ℓ} (o : Option A) → (o ≡ none) ⊎ ((a : A) × (o ≡ some a))
Option-cases none = inl refl
Option-cases (some a) = inr (a, refl)

-- A property of a test's or an option's cases.
pub holds-if :
    {B : Type 0} (P : B → Type 0) (b : Bool) {x y : B} → P x → P y → P (if b then x else y)
holds-if P true p q = p
holds-if P false p q = q

pub holds-option :
    {A B : Type 0} (P : B → Type 0) (o : Option A) {z : B} (f : A → B)
    → P z
    → ((x : A) → P (f x))
    → P (elim o [ none ↦ z | some x ↦ f x ])
holds-option P none f p q = p
holds-option P (some x) f p q = q x

-- The same where the option is known to have a property.
pub holds-known :
    {A B : Type 0} (Q : Option A → Type 0) (P : B → Type 0) (o : Option A) {z : B} (f : A → B)
    → Q o
    → P z
    → ((x : A) → Q (some x) → P (f x))
    → P (elim o [ none ↦ z | some x ↦ f x ])
holds-known Q P none f k p q = p
holds-known Q P (some x) f k p q = q x k
