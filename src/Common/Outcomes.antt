-- ===== src/Common/Outcomes.antt =====
-- What a piece of code that needs no files ends with: a value, an exit with a code, undefined
-- behaviour, or no fuel; and the accesses to an array, which are undefined out of its range.
use Prim.Native.Nat.{ℕ}
use mathlib.Core.Path.{◌≡◌, refl}
use mathlib.Core.Bool.{Bool, true, false}
use mathlib.Core.Option.{none, some}
use mathlib.Core.List.{List, ◌∷◌, ◌++◌}
use the_operating_system.Common.Tests.{if◌then◌else◌}
use the_operating_system.Common.Lists.{length, get_elem?, set, get_elem-append, set-append, set_end}

pub data Outcome {ℓ} (A : Type ℓ) : Type ℓ where
  done : A → Outcome A
  exited : ℕ → Outcome A
  undefined : Outcome A
  out_of_fuel : Outcome A

infixl 5 ◌>>=◌
abbrev pub ◌>>=◌ {ℓ κ} : {A : Type ℓ} {B : Type κ} → Outcome A → (A → Outcome B) → Outcome B
done a >>= f = f a
exited code >>= f = exited code
undefined >>= f = undefined
out_of_fuel >>= f = out_of_fuel

-- The code ends; if with a value, it has the property.
abbrev pub Ends {ℓ} : {A : Type ℓ} → (A → Type 0) → Outcome A → Type 0
Ends P (done a) = P a
Ends P (exited code) = Unit
Ends P undefined = Unit
Ends P out_of_fuel = ⊥

pub Ends-bind {ℓ ℓ'} :
    {A : Type ℓ} {B : Type ℓ'} {P : A → Type 0} (Q : B → Type 0) (m : Outcome A) (f : A → Outcome B)
    → Ends P m
    → ((a : A) → P a → Ends Q (f a))
    → Ends Q (m >>= f)
Ends-bind Q (done a) f h k = k a h
Ends-bind Q (exited code) f h k = tt
Ends-bind Q undefined f h k = tt
Ends-bind Q out_of_fuel f h k = absurd h

pub Ends-weaken {ℓ} :
    {A : Type ℓ} {P : A → Type 0} {Q : A → Type 0} (m : Outcome A)
    → Ends P m
    → ((a : A) → P a → Q a)
    → Ends Q m
Ends-weaken (done a) h k = k a h
Ends-weaken (exited code) h k = tt
Ends-weaken undefined h k = tt
Ends-weaken out_of_fuel h k = absurd h

pub if-bind {ℓ κ} :
    {A : Type ℓ} {B : Type κ} (b : Bool) (a : A) (f : A → Outcome B)
    → (if b then done a else undefined) >>= f ≡ (if b then f a else undefined)
if-bind true a f = refl
if-bind false a f = refl

-- `arr[i]`
unfoldable pub load {ℓ} : {A : Type ℓ} → List A → ℕ → Outcome A
load arr i = elim (get_elem? arr i) [ none ↦ undefined | some a ↦ done a ]

-- `arr[i] = a`
unfoldable pub store {ℓ} : {A : Type ℓ} → List A → ℕ → A → Outcome (List A)
store arr i a = elim (set arr i a) [ none ↦ undefined | some arr' ↦ done arr' ]

module _ {ℓ} {A : Type ℓ} where
  pub load-append : (xs ys : List A) (a : A) → load (xs ++ (a ∷ ys)) (length xs) ≡ done a
  unfolding load
  load-append xs ys a = rw (get_elem-append xs ys a, load) refl

  pub store-append :
      (xs ys : List A) (a b : A) → store (xs ++ (a ∷ ys)) (length xs) b ≡ done (xs ++ (b ∷ ys))
  unfolding store
  store-append xs ys a b = rw (set-append xs ys a b, store) refl

  pub store_end : (xs : List A) (b : A) → store xs (length xs) b ≡ undefined
  unfolding store
  store_end xs b = rw (set_end xs b, store) refl
