-- ===== src/Strings/Laws.antt =====
-- `strrev` against the reversal of a list.
use mathlib.Core.List.{reverse, reverse_aux}
use the_operating_system.Common.{
  ℕ, zero, suc, ◌+◌, ◌-◌, ◌/◌, ◌≡◌, refl, ap, sym, subst, ◌∙◌, some, List, [], ◌∷◌, ◌++◌, arith,
  append_assoc, append-nil, length, length-append, get_elem?, set, get_elem-append, set-append,
}
use the_operating_system.Strings.{swap_chars, strrev_loop, strrev}

module _ {ℓ} {A : Type ℓ} where
  -- What a list of two or more elements is between its ends.
  record Ends (mid : List A) : Type ℓ where
    first : A
    last : A
    inner : List A
    split : mid ≡ first ∷ (inner ++ (last ∷ []))

  ends : (x y : A) (ys : List A) → Ends (x ∷ y ∷ ys)
  ends x y [] = record { first = x; last = y; inner = []; split = refl }
  ends x y (z ∷ zs) =
      let e = ends y z zs in
      record { first = x; last = e.last; inner = e.first ∷ e.inner; split = ap (◌∷◌ x) e.split }

  swap_chars-ends :
      (xs mid ys : List A) (a b : A) (l : ℕ)
      → length xs ≡ length ys
      → l ≡ length xs + (2 + length mid) + length ys
      → swap_chars l (length xs) (xs ++ (a ∷ (mid ++ (b ∷ ys))))
        ≡ some (xs ++ (b ∷ (mid ++ (a ∷ ys))))
  unfolding swap_chars
  swap_chars-ends xs mid ys a b l same total =
      let place : l - length xs - 1 ≡ length (xs ++ (a ∷ mid)) =
        omega (arith, length-append xs (a ∷ mid)) in
      let place' : l - length xs - 1 ≡ length (xs ++ (b ∷ mid)) =
        omega (arith, length-append xs (b ∷ mid)) in
      let other : get_elem? (xs ++ (a ∷ (mid ++ (b ∷ ys)))) (l - length xs - 1) ≡ some b =
        rw (place, sym (append_assoc xs (a ∷ mid) (b ∷ ys)))
          (get_elem-append (xs ++ (a ∷ mid)) ys b) in
      let last : set (xs ++ (b ∷ (mid ++ (b ∷ ys)))) (l - length xs - 1) a
          ≡ some (xs ++ (b ∷ (mid ++ (a ∷ ys)))) =
        rw (place', sym (append_assoc xs (b ∷ mid) (b ∷ ys)))
          (set-append (xs ++ (b ∷ mid)) ys b a ∙ ap some (append_assoc xs (b ∷ mid) (a ∷ ys))) in
      rw
        (
          get_elem-append xs (mid ++ (b ∷ ys)) a,
          other,
          set-append xs (mid ++ (b ∷ ys)) a b,
          last,
          swap_chars,
        )
        refl

  reverse_aux-snoc :
      (mid : List A) (b : A) (ys : List A)
      → reverse_aux (mid ++ (b ∷ [])) ys ≡ b ∷ reverse_aux mid ys
  reverse_aux-snoc [] b ys = refl
  reverse_aux-snoc (x ∷ mid) b ys = reverse_aux-snoc mid b (x ∷ ys)

  strrev_loop-rounds :
      (k l : ℕ) (xs mid ys : List A)
      → length xs ≡ length ys
      → l ≡ length xs + length mid + length ys
      → length mid / 2 ≡ k
      → strrev_loop k l (length xs) (xs ++ (mid ++ ys)) ≡ some (xs ++ reverse_aux mid ys)
  unfolding strrev_loop
  strrev_loop-rounds zero l xs [] ys same total rounds = refl
  strrev_loop-rounds zero l xs (x ∷ []) ys same total rounds = refl
  strrev_loop-rounds zero l xs (x ∷ y ∷ mid) ys same total rounds = absurd (omega arith)
  strrev_loop-rounds (suc k) l xs [] ys same total rounds = absurd (omega arith)
  strrev_loop-rounds (suc k) l xs (x ∷ []) ys same total rounds = absurd (omega arith)
  strrev_loop-rounds (suc k) l xs (x ∷ y ∷ mid) ys same total rounds =
      let e = ends x y mid in
      let longer : length (x ∷ y ∷ mid) ≡ 2 + length e.inner =
        omega (arith, ap length e.split, length-append e.inner (e.last ∷ [])) in
      let next : length (xs ++ (e.last ∷ [])) ≡ length xs + 1 = length-append xs (e.last ∷ []) in
      let whole : xs ++ ((x ∷ y ∷ mid) ++ ys) ≡ xs ++ (e.first ∷ (e.inner ++ (e.last ∷ ys))) =
        ap (λ m. xs ++ (m ++ ys)) e.split
        ∙ ap (λ m. xs ++ (e.first ∷ m)) (append_assoc e.inner (e.last ∷ []) ys) in
      let rest =
        strrev_loop-rounds k l (xs ++ (e.last ∷ [])) e.inner (e.first ∷ ys) (omega (arith, next))
          (omega (arith, next, longer)) (omega (arith, longer)) in
      let reversed : (xs ++ (e.last ∷ [])) ++ reverse_aux e.inner (e.first ∷ ys)
          ≡ xs ++ reverse_aux (x ∷ y ∷ mid) ys =
        append_assoc xs (e.last ∷ []) (reverse_aux e.inner (e.first ∷ ys))
        ∙ ap (λ m. xs ++ m)
            (sym (reverse_aux-snoc e.inner e.last (e.first ∷ ys))
              ∙ ap (λ m. reverse_aux m ys) (sym e.split)) in
      rw
        (
          whole,
          swap_chars-ends xs e.inner ys e.first e.last l same (omega (arith, longer)),
          strrev_loop,
        )
        (subst (λ s. strrev_loop k l (length xs + 1) s ≡ some (xs ++ reverse_aux (x ∷ y ∷ mid) ys))
          (append_assoc xs (e.last ∷ []) (e.inner ++ (e.first ∷ ys)))
          (subst
            (λ i.
              strrev_loop k l i ((xs ++ (e.last ∷ [])) ++ (e.inner ++ (e.first ∷ ys)))
              ≡ some (xs ++ reverse_aux (x ∷ y ∷ mid) ys))
            next (rest ∙ ap some reversed)))

  reverse_aux-reverse_aux :
      (xs ys zs : List A) → reverse_aux (reverse_aux xs ys) zs ≡ reverse_aux ys (xs ++ zs)
  reverse_aux-reverse_aux [] ys zs = refl
  reverse_aux-reverse_aux (x ∷ xs) ys zs = reverse_aux-reverse_aux xs (x ∷ ys) zs

  -- `strrev` stays within the string, ends, and leaves the reversed string.
  pub strrev-reverse : (s : List A) → strrev s ≡ some (reverse s)
  unfolding strrev
  strrev-reverse s =
      subst (λ t. strrev_loop (length s / 2) (length s) 0 t ≡ some (reverse s)) (append-nil s)
        (strrev_loop-rounds (length s / 2) (length s) [] s [] refl (omega arith) refl)

  -- `strrev` on the string that a first `strrev` has left brings the first string back.
  pub strrev-strrev : (s : List A) → (t : List A) × (strrev s ≡ some t) × (strrev t ≡ some s)
  strrev-strrev s = (
    reverse s,
    strrev-reverse s,
    strrev-reverse (reverse s) ∙ ap some (reverse_aux-reverse_aux s [] [] ∙ append-nil s),
  )
