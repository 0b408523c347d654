-- ===== src/Collatz/Laws.antt =====
-- What the parent prints.
use the_operating_system.Common.{
  ℕ, zero, suc, ◌+◌, ◌*◌, ◌/◌, ◌%◌, ◌≤◌, ◌<◌, ◌≡◌, ◌≢◌, refl, ap₂, sym, subst, ◌∙◌, List, [], ◌∷◌,
  ◌++◌, arith, ltb, ◌==◌, if◌then◌else◌, eq→==, ne→==, ltb→lt, not_ltb→le, drop_of_le, inl, inr,
  Bool-cases, append_assoc, append-nil, replicate, length, length-append, length-replicate, drop,
  get_elem-append,
}
use native.Mathlib.Decide.{dec_lt}
use native.Mathlib.Nat.{zero-add}
use the_operating_system.Common.Bytes.{int_minus_one}
use the_operating_system.Common.Outcomes.{done, undefined, store-append, store_end}
use the_operating_system.Collatz.{shm_ints, next_term, collatz, print_terms, child, main}

-- The Collatz sequence of a positive number, up to its first 1.
pub data Trajectory : ℕ → List ℕ → Type 0 where
  stop : {n : ℕ} → n ≡ 1 → Trajectory n (n ∷ [])
  step :
      {n : ℕ} {xs : List ℕ}
      → n ≢ 1
      → Trajectory (if n % 2 == 0 then n / 2 else 3 * n + 1) xs
      → Trajectory n (n ∷ xs)

-- All numbers are `int`s that are not negative.
abbrev pub AllInts : List ℕ → Type 0
AllInts [] = Unit
AllInts (x ∷ xs) = (x < 0x8000_0000) × AllInts xs

AllInts-first : {n : ℕ} {xs : List ℕ} → Trajectory n xs → AllInts xs → n < 0x8000_0000
AllInts-first (stop e) h = h.0
AllInts-first (step ne t) h = h.0

next_term-ints :
    (n : ℕ)
    → n < 0x8000_0000
    → (if n % 2 == 0 then n / 2 else 3 * n + 1) < 0x8000_0000
    → next_term n ≡ done (if n % 2 == 0 then n / 2 else 3 * n + 1)
unfolding next_term
next_term-ints n small next_small = ground arith

collatz-stop :
    (k n : ℕ) (ws rest : List ℕ) (a : ℕ)
    → n ≡ 1
    → collatz (suc k) n (length ws) (ws ++ (a ∷ rest)) ≡ done (length ws + 1, ws ++ (n ∷ rest))
unfolding collatz
collatz-stop k n ws rest a e = rw (eq→== n 1 e, store-append ws rest a 1, e, collatz) refl

collatz-step :
    (k n n' : ℕ) (ws rest : List ℕ) (a : ℕ)
    → n ≢ 1
    → next_term n ≡ done n'
    → collatz (suc k) n (length ws) (ws ++ (a ∷ rest))
      ≡ collatz k n' (length (ws ++ (n ∷ []))) ((ws ++ (n ∷ [])) ++ rest)
unfolding collatz
collatz-step k n n' ws rest a ne e =
    rw
      (
        ne→== n 1 ne,
        store-append ws rest a n,
        e,
        collatz,
        length-append ws (n ∷ []),
        append_assoc ws (n ∷ []) rest,
      )
      refl

collatz-full : (k n : ℕ) (ws : List ℕ) → collatz (suc k) n (length ws) ws ≡ undefined
unfolding collatz
collatz-full k n ws = elim (Bool-cases (n == 1)) [
  | inl e ↦ rw (e, store_end ws 1, collatz) refl
  | inr e ↦ rw (e, store_end ws n, collatz) refl
]

-- The sequence is written behind `ws`, over as many cells of `rest`.
collatz-writes :
    (k : ℕ) (n : ℕ) (xs ws rest : List ℕ)
    → Trajectory n xs
    → AllInts xs
    → length xs ≤ length rest
    → length xs ≤ k
    → collatz k n (length ws) (ws ++ rest)
      ≡ done (length ws + length xs, ws ++ (xs ++ drop (length xs) rest))
collatz-writes zero n xs ws rest (stop e) h room fuel = absurd (omega arith)
collatz-writes zero n xs ws rest (step ne t) h room fuel = absurd (omega arith)
collatz-writes (suc k) n xs ws [] (stop e) h room fuel = absurd (omega arith)
collatz-writes (suc k) n xs ws [] (step ne t) h room fuel = absurd (omega arith)
collatz-writes (suc k) n xs ws (a ∷ rest) (stop e) h room fuel = collatz-stop k n ws rest a e
collatz-writes (suc k) n xs ws (a ∷ rest) (step {xs = ys} ne t) h room fuel =
    let n' : ℕ = if n % 2 == 0 then n / 2 else 3 * n + 1 in
    collatz-step k n n' ws rest a ne (next_term-ints n h.0 (AllInts-first t h.1))
    ∙ collatz-writes k n' ys (ws ++ (n ∷ [])) rest t h.1 (omega arith) (omega arith)
    ∙ ap₂ (λ (i : ℕ) (cells : List ℕ). done (i, cells)) (omega (arith, length-append ws (n ∷ [])))
        (append_assoc ws (n ∷ []) (ys ++ drop (length ys) rest))

-- A sequence that is longer than `rest` runs out of the segment.
collatz-overruns :
    (k : ℕ) (n : ℕ) (xs ws rest : List ℕ)
    → Trajectory n xs
    → AllInts xs
    → length rest < length xs
    → length rest < k
    → collatz k n (length ws) (ws ++ rest) ≡ undefined
collatz-overruns zero n xs ws rest t h long fuel = absurd (omega arith)
collatz-overruns (suc k) n xs ws [] t h long fuel =
    subst (λ cells. collatz (suc k) n (length ws) cells ≡ undefined) (sym (append-nil ws))
      (collatz-full k n ws)
collatz-overruns (suc k) n xs ws (a ∷ rest) (stop e) h long fuel = absurd (omega arith)
collatz-overruns (suc k) n xs ws (a ∷ rest) (step {xs = ys} ne t) h long fuel =
    let n' : ℕ = if n % 2 == 0 then n / 2 else 3 * n + 1 in
    collatz-step k n n' ws rest a ne (next_term-ints n h.0 (AllInts-first t h.1))
    ∙ collatz-overruns k n' ys (ws ++ (n ∷ [])) rest t h.1 (omega arith) (omega arith)

-- The parent prints the numbers up to the -1.
print_terms-ints :
    (k : ℕ) (ps xs rest : List ℕ)
    → AllInts xs
    → length xs < k
    → print_terms k (length ps) (ps ++ (xs ++ (int_minus_one ∷ rest))) ≡ done xs
unfolding print_terms
print_terms-ints zero ps xs rest h fuel = absurd (omega arith)
print_terms-ints (suc k) ps [] rest h fuel =
    rw (get_elem-append ps rest int_minus_one, print_terms) refl
print_terms-ints (suc k) ps (x ∷ xs) rest h fuel =
    let next = print_terms-ints k (ps ++ (x ∷ [])) xs rest h.1 (omega arith) in
    rw
      (
        get_elem-append ps (xs ++ (int_minus_one ∷ rest)) x,
        ne→== x int_minus_one (omega (arith, h.0)),
        print_terms,
        sym (length-append ps (x ∷ [])),
        sym (append_assoc ps (x ∷ []) (xs ++ (int_minus_one ∷ rest))),
        next,
      )
      refl

drop-cons :
    (n : ℕ) (xs : List ℕ) → n < length xs → (a : ℕ) × (rest : List ℕ) × (drop n xs ≡ a ∷ rest)
drop-cons n [] h = absurd (omega arith)
drop-cons zero (x ∷ xs) h = (x, xs, refl)
drop-cons (suc n) (x ∷ xs) h = drop-cons n xs (omega arith)

module _ (n : ℕ) (xs : List ℕ) (t : Trajectory n xs) (h : AllInts xs) where
  -- With room for the sequence and the -1, both are in the segment.
  child-writes :
      (cells : List ℕ)
      → length xs < length cells
      → length xs ≤ shm_ints
      → (rest : List ℕ) × (child n cells ≡ done (xs ++ (int_minus_one ∷ rest)))
  unfolding child
  child-writes cells room fuel =
      let (a, rest, e) = drop-cons (length xs) cells room in
      let written = collatz-writes (suc shm_ints) n xs [] cells t h (omega arith) (omega arith) in
      (rest, rw (written, e, zero-add, store-append xs rest a int_minus_one) refl)

  -- With room for less, the child leaves the segment.
  child-overruns :
      (cells : List ℕ)
      → length cells ≤ length xs
      → length cells ≤ shm_ints
      → child n cells ≡ undefined
  unfolding child
  child-overruns cells room fuel = elim (dec_lt (length cells) (length xs)) [
    | yes lt ↦ rw (collatz-overruns (suc shm_ints) n xs [] cells t h lt (omega arith)) refl
    | no ge ↦
        rw
          (
            collatz-writes (suc shm_ints) n xs [] cells t h (omega arith) (omega arith),
            zero-add,
            drop_of_le (length xs) cells (omega arith),
            append-nil,
            store_end xs int_minus_one,
          )
          refl
  ]

-- Where the Collatz sequence of `n` has only numbers below 2 ^ 31: if it has at most 1023, the
-- parent prints just them, in order; if it has more, the child writes behind the segment.
pub main-Trajectory :
    (n : ℕ) (xs : List ℕ)
    → Trajectory n xs
    → AllInts xs
    → main n ≡ (if ltb (length xs) shm_ints then done xs else undefined)
unfolding main
main-Trajectory n xs t h = elim (Bool-cases (ltb (length xs) shm_ints)) [
  | inl fits ↦
      let (rest, e) =
        child-writes n xs t h (replicate shm_ints 0)
          (omega (arith, length-replicate {A = ℕ} shm_ints 0, ltb→lt (length xs) shm_ints fits))
          (omega (arith, ltb→lt (length xs) shm_ints fits)) in
      rw
        (
          fits,
          e,
          print_terms-ints (suc shm_ints) [] xs rest h
              (omega (arith, ltb→lt (length xs) shm_ints fits)),
        )
        refl
  | inr long ↦
      rw
        (
          long,
          child-overruns n xs t h (replicate shm_ints 0)
              (omega
                (arith, length-replicate {A = ℕ} shm_ints 0, not_ltb→le (length xs) shm_ints long))
              (omega (arith, length-replicate {A = ℕ} shm_ints 0)),
        )
        refl
]
