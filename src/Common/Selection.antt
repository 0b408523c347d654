-- ===== src/Common/Selection.antt =====
-- What one round of a selection sort does to a list, and how it makes the list sorted.
use mathlib.Core.List.{Mem, Perm, perm_middle, mem-cons, not-mem-nil, Pairwise}
use mathlib.Core.List.Perm
use mathlib.Core.Logic.Or
use mathlib.Core.Path.{◌≡◌, refl, sym, subst}
use mathlib.Core.List.{List, [], ◌∷◌, ◌++◌}
use native.Mathlib.Omega.{arith}
use the_operating_system.Common.Lists.{length, length-append}

abbrev pub All {ℓ κ} : {A : Type ℓ} → (A → Type κ) → List A → Type κ
All P [] = Unit
All P (x ∷ xs) = P x × All P xs

-- The list behind `x` once it has changed places with the first of `before ++ (x ∷ after)`.
abbrev pub tail_of {ℓ} : {A : Type ℓ} → List A → List A → List A
tail_of [] after = after
tail_of (f ∷ mid) after = mid ++ (f ∷ after)

module _ {ℓ κ} {A : Type ℓ} (P : A → Type κ) where
  pub All-append : (xs ys : List A) → All P xs → All P ys → All P (xs ++ ys)
  All-append [] ys h k = k
  All-append (x ∷ xs) ys h k = (h.0, All-append xs ys h.1 k)

  pub All-left : (xs ys : List A) → All P (xs ++ ys) → All P xs
  All-left [] ys h = tt
  All-left (x ∷ xs) ys h = (h.0, All-left xs ys h.1)

  pub All-right : (xs ys : List A) → All P (xs ++ ys) → All P ys
  All-right [] ys h = h
  All-right (x ∷ xs) ys h = All-right xs ys h.1

  pub All-tail_of :
      (before after : List A) (x : A)
      → All P (before ++ (x ∷ after))
      → P x × All P (tail_of before after)
  All-tail_of [] after x h = h
  All-tail_of (f ∷ mid) after x h = (
    (All-right mid (x ∷ after) h.1).0,
    All-append mid (f ∷ after) (All-left mid (x ∷ after) h.1)
        (h.0, (All-right mid (x ∷ after) h.1).1),
  )

pub perm-tail_of {ℓ} :
    {A : Type ℓ} (before after : List A) (x : A)
    → Perm (x ∷ tail_of before after) (before ++ (x ∷ after))
perm-tail_of [] after x = Perm.refl (x ∷ after)
perm-tail_of (f ∷ mid) after x =
    Perm.trans (Perm.cons x (perm_middle mid after))
      (Perm.trans (Perm.swap f x (mid ++ after)) (Perm.cons f (Perm.symm (perm_middle mid after))))

pub length-tail_of {ℓ} :
    {A : Type ℓ} (before after : List A) → length (tail_of before after) ≡ length (before ++ after)
length-tail_of [] after = refl
length-tail_of (f ∷ mid) after =
    omega (arith, length-append mid (f ∷ after), length-append mid after)

module _ {ℓ κ} {A : Type ℓ} where
  All-mem :
      (P : A → Type κ)
      → ((x : A) → IsProp (P x))
      → (xs : List A) → All P xs
      → (y : A) → Mem y xs
      → P y
  All-mem P prop [] h y mem = absurd (not-mem-nil mem)
  All-mem P prop (x ∷ xs) h y mem =
      Or.elim (prop y) (mem-cons.0 mem) (λ e. subst P (sym e) h.0) (All-mem P prop xs h.1 y)

  -- An element that goes before all others, ahead of a sorted rearrangement of these.
  pub Pairwise-cons-Perm :
      (R : A → A → Type κ)
      → ((x y : A) → IsProp (R x y))
      → (x : A) (xs ys : List A) → All (R x) xs
      → Perm ys xs
      → Pairwise R ys
      → Pairwise R (x ∷ ys)
  Pairwise-cons-Perm R prop x xs ys h p s =
      Pairwise.cons (λ y mem. All-mem (R x) (prop x) xs h y ((Perm.mem_iff p).0 mem)) s
