-- ===== src/Common/Lists.antt =====
-- Lists measured by native numbers, and the part of a file that a read or a write touches.
use Prim.Native.Nat.{ℕ, zero, suc, ◌+◌, ◌-◌, ◌≤◌, min}
use mathlib.Core.Path.{◌≡◌, refl, sym, ap, ◌∙◌}
use mathlib.Core.Option.{Option, none, some}
use mathlib.Core.List.{List, [], ◌∷◌, ◌++◌, append_assoc, append-nil}
use native.Mathlib.Omega.{arith}

module _ {ℓ} {A : Type ℓ} where
  abbrev pub length : List A → ℕ
  length [] = 0
  length (x ∷ xs) = suc (length xs)

  abbrev pub take : ℕ → List A → List A
  take zero xs = []
  take (suc n) [] = []
  take (suc n) (x ∷ xs) = x ∷ take n xs

  abbrev pub drop : ℕ → List A → List A
  drop zero xs = xs
  drop (suc n) [] = []
  drop (suc n) (x ∷ xs) = drop n xs

  abbrev pub replicate : ℕ → A → List A
  replicate zero a = []
  replicate (suc n) a = a ∷ replicate n a

  -- `none` where the index is out of range.
  abbrev pub get_elem? : List A → ℕ → Option A
  get_elem? [] i = none
  get_elem? (x ∷ xs) zero = some x
  get_elem? (x ∷ xs) (suc i) = get_elem? xs i

  -- `xs[i] = a`
  abbrev pub set : List A → ℕ → A → Option (List A)
  set [] i a = none
  set (x ∷ xs) zero a = some (a ∷ xs)
  set (x ∷ xs) (suc i) a = elim (set xs i a) [ none ↦ none | some ys ↦ some (x ∷ ys) ]

  pub get_elem-append : (xs ys : List A) (a : A) → get_elem? (xs ++ (a ∷ ys)) (length xs) ≡ some a
  get_elem-append [] ys a = refl
  get_elem-append (x ∷ xs) ys a = get_elem-append xs ys a

  pub set-append :
      (xs ys : List A) (a b : A) → set (xs ++ (a ∷ ys)) (length xs) b ≡ some (xs ++ (b ∷ ys))
  set-append [] ys a b = refl
  set-append (x ∷ xs) ys a b = rw (set-append xs ys a b) refl

  pub set_end : (xs : List A) (b : A) → set xs (length xs) b ≡ none
  set_end [] b = refl
  set_end (x ∷ xs) b = rw (set_end xs b) refl

  pub length-replicate : (n : ℕ) (a : A) → length (replicate n a) ≡ n
  length-replicate zero a = refl
  length-replicate (suc n) a = ap suc (length-replicate n a)

  pub length-append : (xs ys : List A) → length (xs ++ ys) ≡ length xs + length ys
  length-append [] ys = omega arith
  length-append (x ∷ xs) ys = omega (arith, length-append xs ys)

  pub length-eq-zero : (xs : List A) → length xs ≡ 0 → xs ≡ []
  length-eq-zero [] h = refl
  length-eq-zero (x ∷ xs) h = absurd (omega arith)

  pub take-append : (xs ys : List A) → take (length xs) (xs ++ ys) ≡ xs
  take-append [] ys = refl
  take-append (x ∷ xs) ys = ap (◌∷◌ x) (take-append xs ys)

  pub drop-append : (xs ys : List A) → drop (length xs) (xs ++ ys) ≡ ys
  drop-append [] ys = refl
  drop-append (x ∷ xs) ys = drop-append xs ys

  pub length-take : (n : ℕ) (xs : List A) → length (take n xs) ≡ min n (length xs)
  length-take zero xs = omega arith
  length-take (suc n) [] = omega arith
  length-take (suc n) (x ∷ xs) = omega (arith, length-take n xs)

  pub length-drop : (n : ℕ) (xs : List A) → length (drop n xs) ≡ length xs - n
  length-drop zero xs = omega arith
  length-drop (suc n) [] = omega arith
  length-drop (suc n) (x ∷ xs) = omega (arith, length-drop n xs)

  drop-nil : (n : ℕ) → drop n [] ≡ []
  drop-nil zero = refl
  drop-nil (suc n) = refl

  drop-suc_add : (n m : ℕ) (x : A) (xs : List A) → drop (n + m) xs ≡ drop (suc n + m) (x ∷ xs)
  drop-suc_add n m x xs =
      ap (λ k. drop k (x ∷ xs)) (let e : suc (n + m) ≡ suc n + m = omega arith in e)

  pub drop-drop : (m n : ℕ) (xs : List A) → drop m (drop n xs) ≡ drop (n + m) xs
  drop-drop m zero xs = ap (λ k. drop k xs) (omega arith)
  drop-drop m (suc n) [] = drop-nil m ∙ sym (drop-nil (suc n + m))
  drop-drop m (suc n) (x ∷ xs) = drop-drop m n xs ∙ drop-suc_add n m x xs

  pub drop-append_of_le :
      (n : ℕ) (xs ys : List A) → n ≤ length xs → drop n (xs ++ ys) ≡ drop n xs ++ ys
  drop-append_of_le zero xs ys h = refl
  drop-append_of_le (suc n) [] ys h = absurd (omega arith)
  drop-append_of_le (suc n) (x ∷ xs) ys h = drop-append_of_le n xs ys (omega arith)

  pub drop_of_le : (n : ℕ) (xs : List A) → length xs ≤ n → drop n xs ≡ []
  drop_of_le zero [] h = refl
  drop_of_le zero (x ∷ xs) h = absurd (omega arith)
  drop_of_le (suc n) [] h = refl
  drop_of_le (suc n) (x ∷ xs) h = drop_of_le n xs (omega arith)

  pub take_of_le : (n : ℕ) (xs : List A) → length xs ≤ n → take n xs ≡ xs
  take_of_le zero [] h = refl
  take_of_le zero (x ∷ xs) h = absurd (omega arith)
  take_of_le (suc n) [] h = refl
  take_of_le (suc n) (x ∷ xs) h = ap (◌∷◌ x) (take_of_le n xs (omega arith))

-- `bs` stands in `xs` from position `off` on.
pub record Holds {ℓ} {A : Type ℓ} (xs : List A) (off : ℕ) (bs : List A) : Type ℓ where
  pub rest : List A
  pub here : drop off xs ≡ bs ++ rest

module _ {ℓ} {A : Type ℓ} {xs : List A} where
  pub slice-Holds : {off : ℕ} {bs : List A} → Holds xs off bs → take (length bs) (drop off xs) ≡ bs
  slice-Holds {bs} h = rw h.here (take-append bs h.rest)

  pub Holds-left : {off : ℕ} (fs bs : List A) → Holds xs off (fs ++ bs) → Holds xs off fs
  Holds-left fs bs h = record { rest = bs ++ h.rest; here = h.here ∙ append_assoc fs bs h.rest }

  pub Holds-right :
      {off : ℕ} (fs bs : List A) → Holds xs off (fs ++ bs) → Holds xs (off + length fs) bs
  Holds-right {off} fs bs h = record {
    rest = h.rest;
    here =
        sym (drop-drop (length fs) off xs)
        ∙ ap (drop (length fs)) (h.here ∙ append_assoc fs bs h.rest)
        ∙ drop-append fs (bs ++ h.rest);
  }

  pub Holds-bound :
      {off : ℕ} (b : A) (bs : List A) → Holds xs off (b ∷ bs) → off + length (b ∷ bs) ≤ length xs
  Holds-bound {off} b bs h =
      omega (arith, length-drop off xs, ap length h.here, length-append bs h.rest)

-- Bytes appended to a list leave what it holds.
pub Holds-append {ℓ} :
    {A : Type ℓ} {xs bs : List A} {off : ℕ} (ys : List A)
    → off ≤ length xs
    → Holds xs off bs
    → Holds (xs ++ ys) off bs
Holds-append {xs} {bs} {off} ys h holds = record {
  rest = holds.rest ++ ys;
  here =
      drop-append_of_le off xs ys h ∙ ap (λ l. l ++ ys) holds.here ∙ append_assoc bs holds.rest ys;
}

pub Holds-end {ℓ} : {A : Type ℓ} (xs bs : List A) → Holds (xs ++ bs) (length xs) bs
Holds-end xs bs = record { rest = []; here = drop-append xs bs ∙ sym (append-nil bs) }
