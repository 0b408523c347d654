-- ===== src/Common/Tests.antt =====
-- Boolean tests on the native numbers, the conditional, and splits on computed values.
use Prim.Native.Nat.{ℕ, ◌+◌, ◌≤◌, ◌<◌, compare, Ordering}
use mathlib.Core.Path.{◌≡◌, refl}
use mathlib.Core.Logic.{◌≢◌, ◌⊎◌, inl, inr}
use mathlib.Core.Bool.{Bool, true, false, ◌&&◌}
use mathlib.Core.Option.{Option, none, some}
use native.Mathlib.Omega.{arith}

abbrev pub ltb : ℕ → ℕ → Bool
ltb a b = elim (compare a b) [ Ordering.lt ↦ true | _ ↦ false ]

abbrev pub leb : ℕ → ℕ → Bool
leb a b = elim (compare a b) [ Ordering.gt ↦ false | _ ↦ true ]

infix 50 ◌==◌
abbrev pub ◌==◌ : ℕ → ℕ → Bool
a == b = elim (compare a b) [ Ordering.eq ↦ true | _ ↦ false ]

infix 1 if◌then◌else◌
abbrev pub if◌then◌else◌ {ℓ} : {A : Type ℓ} → Bool → A → A → A
if true then x else y = x
if false then x else y = y

pub lt→ltb : (a b : ℕ) → a < b → ltb a b ≡ true
lt→ltb a b h = ground arith

pub le→not_ltb : (a b : ℕ) → b ≤ a → ltb a b ≡ false
le→not_ltb a b h = ground arith

pub le→leb : (a b : ℕ) → a ≤ b → leb a b ≡ true
le→leb a b h = ground arith

pub ltb→lt : (a b : ℕ) → ltb a b ≡ true → a < b
ltb→lt a b h = ground arith

pub not_ltb→le : (a b : ℕ) → ltb a b ≡ false → b ≤ a
not_ltb→le a b h = ground arith

pub eq→== : (a b : ℕ) → a ≡ b → (a == b) ≡ true
eq→== a b h = ground arith

pub ne→== : (a b : ℕ) → a ≢ b → (a == b) ≡ false
ne→== a b h = ground arith

pub ==→eq : (a b : ℕ) → (a == b) ≡ true → a ≡ b
==→eq a b h = ground arith

-- To split on a computed value and keep the equation.
pub Bool-cases : (b : Bool) → (b ≡ true) ⊎ (b ≡ false)
Bool-cases true = inl refl
Bool-cases false = inr refl

pub Option-cases {ℓ} : {A : Type ℓ} (o : Option A) → (o ≡ none) ⊎ ((a : A) × (o ≡ some a))
Option-cases none = inl refl
Option-cases (some a) = inr (a, refl)

pub leb→le : (a b : ℕ) → leb a b ≡ true → a ≤ b
leb→le a b h = ground arith

pub not_leb→lt : (a b : ℕ) → leb a b ≡ false → b < a
not_leb→lt a b h = ground arith

pub ltb-suc : (a b : ℕ) → ltb a b ≡ leb (a + 1) b
ltb-suc a b = ground arith

pub &&-true : (b : Bool) → (b && true) ≡ b
&&-true true = refl
&&-true false = refl

pub lt→not_leb : (a b : ℕ) → b < a → leb a b ≡ false
lt→not_leb a b h = ground arith

-- Conditionals under each other, and one on both tests.
pub nested-tests {ℓ} :
    {A : Type ℓ} (a u : A) (b c : Bool) {m n : Bool}
    → m ≡ n
    → (if b then (if c && m then a else u) else u) ≡ (if (b && c) && n then a else u)
nested-tests a u true true e = rw e refl
nested-tests a u true false e = refl
nested-tests a u false c e = refl

pub failed-tests {ℓ} :
    {A : Type ℓ} (a x u : A) (b c : Bool) {m : Bool}
    → m ≡ false
    → (if b && false then x else u) ≡ (if (b && c) && m then a else u)
failed-tests a x u true true e = rw e refl
failed-tests a x u true false e = refl
failed-tests a x u false c e = refl

pub limit-tests {ℓ} :
    {A : Type ℓ} (a u : A) (b : Bool) (m n : ℕ)
    → (if b && leb m n then (if ltb m n then a else u) else u) ≡ (if b && ltb m n then a else u)
limit-tests a u b m n = elim (Bool-cases (ltb m n)) [
  | inl e ↦ rw (e, le→leb m n (omega (arith, ltb→lt m n e))) refl
  | inr e ↦ rw e (limit-fails b (leb m n))
]
  where
    limit-fails : (b c : Bool) → (if b && c then u else u) ≡ (if b && false then a else u)
    limit-fails true true = refl
    limit-fails true false = refl
    limit-fails false c = refl
