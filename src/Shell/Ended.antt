-- ===== src/Shell/Ended.antt =====
-- Whatever the input, the shell's loops end; and what they do where it ends without a newline.
use the_operating_system.Common.{
  ℕ, zero, suc, ◌+◌, ◌≤◌, ◌<◌, ◌≢◌, inl, inr, Bool, true, false, ◌||◌, List, [], ◌∷◌, ◌++◌, arith,
  ltb, ◌==◌, if◌then◌else◌, length, length-append, ltb→lt, ==→eq, Bool-cases,
}
use the_operating_system.Common.Selection.{All}
use the_operating_system.Common.Outcomes.{Outcome, done, exited, undefined, out_of_fuel, ◌>>=◌}
use the_operating_system.Shell.{
  max_size, space, newline, getchar, read_word, add_word, parse, read_command,
}

-- The code ends, with a value that has the property or with undefined behaviour.
abbrev pub Stops {ℓ} : {A : Type ℓ} → (A → Type 0) → Outcome A → Type 0
Stops P (done a) = P a
Stops P (exited code) = ⊥
Stops P undefined = Unit
Stops P out_of_fuel = ⊥

Stops-bind {ℓ ℓ'} :
    {A : Type ℓ} {B : Type ℓ'} (P : A → Type 0) (Q : B → Type 0) (m : Outcome A) (f : A → Outcome B)
    → Stops P m
    → ((a : A) → P a → Stops Q (f a))
    → Stops Q (m >>= f)
Stops-bind P Q (done a) f h k = k a h
Stops-bind P Q (exited code) f h k = absurd h
Stops-bind P Q undefined f h k = tt
Stops-bind P Q out_of_fuel f h k = absurd h

Stops-weaken {ℓ} :
    {A : Type ℓ} {P Q : A → Type 0} (m : Outcome A) → Stops P m → ((a : A) → P a → Q a) → Stops Q m
Stops-weaken (done a) h k = k a h
Stops-weaken (exited code) h k = absurd h
Stops-weaken undefined h k = tt
Stops-weaken out_of_fuel h k = absurd h

-- Nowhere a newline.
abbrev pub Unfinished : List ℕ → Type 0
Unfinished input = All (λ c. c ≢ newline) input

-- What `read_word` leaves of an input.
abbrev Leaves : List ℕ → (List ℕ × ℕ × List ℕ) → Type 0
Leaves input r = (length r.2 < length input) × (Unfinished input → (r.1 ≢ newline) × Unfinished r.2)

read_word-Stops :
    (k : ℕ) (buf input : List ℕ)
    → length buf ≤ max_size
    → max_size < k + length buf
    → Stops (Leaves input) (read_word k buf input)
unfolding read_word getchar
read_word-Stops zero buf input small fuel = absurd (omega arith)
read_word-Stops (suc k) buf [] small fuel = elim (Bool-cases (ltb (length buf) max_size)) [
  | inl e ↦
      rw (e, read_word, getchar)
        (read_word-Stops k (buf ++ (255 ∷ [])) []
          (omega (arith, length-append buf (255 ∷ []), ltb→lt (length buf) max_size e))
          (omega (arith, length-append buf (255 ∷ []))))
  | inr e ↦ rw (e, read_word, getchar) tt
]
read_word-Stops (suc k) buf (c ∷ input) small fuel =
    elim (Bool-cases (c == space || c == newline)) [
      | inl e ↦ rw (e, read_word, getchar) (omega arith, λ h. h)
      | inr e ↦ elim (Bool-cases (ltb (length buf) max_size)) [
        | inl e' ↦
            rw (e, e', read_word, getchar)
              (Stops-weaken (read_word k (buf ++ (c ∷ [])) input)
                (read_word-Stops k (buf ++ (c ∷ [])) input
                  (omega (arith, length-append buf (c ∷ []), ltb→lt (length buf) max_size e'))
                  (omega (arith, length-append buf (c ∷ []))))
                (λ r l. (omega (arith, l.0), λ h. l.1 h.1)))
        | inr e' ↦ rw (e, e', read_word, getchar) tt
      ]
    ]

module _ (malloc_fails : ℕ → Bool) where
  add_word-Stops :
      (argv : List (List ℕ)) (buf : List ℕ) → Stops (λ _. Unit {0}) (add_word malloc_fails argv buf)
  unfolding add_word
  add_word-Stops argv buf = elim (Bool-cases (ltb (length buf) max_size)) [
    | inl e ↦ elim (Bool-cases (ltb (length argv) max_size)) [
      | inl e' ↦ elim (Bool-cases (malloc_fails (length argv))) [
        | inl e'' ↦ rw (e, e', e'') tt
        | inr e'' ↦ rw (e, e', e'') tt
      ]
      | inr e' ↦ rw (e, e') tt
    ]
    | inr e ↦ rw e tt
  ]

  module _ (k : ℕ) (input : List ℕ)
      (next : (argv : List (List ℕ)) (rest : List ℕ)
        → length rest < length input
        → Stops (λ _. ¬ Unfinished rest) (parse malloc_fails k argv rest)) where
    after_word-Stops :
        (r : List ℕ × ℕ × List ℕ) (argv : List (List ℕ))
        → Leaves input r
        → Stops
            (λ _. ¬ Unfinished input)
            (elim (r.1 == newline) [
              | true ↦ done (argv, r.2)
              | false ↦ parse malloc_fails k argv r.2
            ])
    after_word-Stops r argv l = elim (Bool-cases (r.1 == newline)) [
      | inl e ↦ rw e (λ h. (l.1 h).0 (==→eq r.1 newline e))
      | inr e ↦
          rw e (
            Stops-weaken (parse malloc_fails k argv r.2) (next argv r.2 l.0) (λ _ n h. n (l.1 h).1))
    ]

    -- A word that starts with `ch`, and the rest of the line.
    parse_word-Stops :
        (ch : ℕ) (argv : List (List ℕ))
        → Stops
            (λ _. ¬ Unfinished input)
            (read_word (suc max_size) (ch ∷ []) input >>= λ (buf, ch', rest').
              add_word malloc_fails argv buf >>= λ argv'. elim (ch' == newline) [
                | true ↦ done (argv', rest')
                | false ↦ parse malloc_fails k argv' rest'
              ])
    parse_word-Stops ch argv =
        Stops-bind (Leaves input) _ (read_word (suc max_size) (ch ∷ []) input) _
          (read_word-Stops (suc max_size) (ch ∷ []) input (omega arith) (omega arith))
          (λ r l.
            Stops-bind (λ _. Unit {0}) _ (add_word malloc_fails argv r.0) _
              (add_word-Stops argv r.0) (λ argv' _. after_word-Stops r argv' l))

  parse-Stops :
      (k : ℕ) (argv : List (List ℕ)) (input : List ℕ)
      → length input < k
      → Stops (λ _. ¬ Unfinished input) (parse malloc_fails k argv input)
  unfolding parse getchar
  parse-Stops zero argv input fuel = absurd (omega arith)
  parse-Stops (suc k) argv [] fuel =
      parse_word-Stops k [] (λ argv' rest less. absurd (omega arith)) 255 argv
  parse-Stops (suc k) argv (c ∷ input) fuel = elim (Bool-cases (c == newline)) [
    | inl e ↦ rw (e, parse, getchar) (λ h. h.0 (==→eq c newline e))
    | inr e ↦ elim (Bool-cases (c == space)) [
      | inl e' ↦
          rw (e, e', parse, getchar)
            (Stops-weaken (parse malloc_fails k argv input) (parse-Stops k argv input (omega arith))
              (λ _ n h. n h.1))
      | inr e' ↦
          let word =
            parse_word-Stops k input (λ argv' rest less. parse-Stops k argv' rest (omega arith)) c
              argv in
          rw (e, e', parse, getchar)
            (Stops-weaken {P = λ _. ¬ Unfinished input} {Q = λ _. ¬ Unfinished (c ∷ input)} _ word
              (λ _ n h. n h.1))
    ]
  ]

  -- Whatever the input, and whichever `malloc` fails, reading a command ends, with arguments or with
  -- undefined behaviour. It ends with
  -- arguments only where the input has a newline; without one, the behaviour is undefined.
  pub read_command-Stops :
      (input : List ℕ) → Stops (λ _. ¬ Unfinished input) (read_command malloc_fails input)
  unfolding read_command
  read_command-Stops input =
      Stops-bind (λ _. ¬ Unfinished input) (λ _. ¬ Unfinished input)
        (parse malloc_fails (suc (length input)) [] input) _
        (parse-Stops (suc (length input)) [] input (omega arith)) (λ r n. limit r n)
    where
      limit :
          (r : List (List ℕ) × List ℕ)
          → ¬ Unfinished input
          → Stops
              (λ _. ¬ Unfinished input)
              (if ltb (length r.0) max_size then done r else undefined)
      limit r n = elim (Bool-cases (ltb (length r.0) max_size)) [ inl e ↦ rw e n | inr e ↦ rw e tt ]
