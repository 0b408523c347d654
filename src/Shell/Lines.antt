-- ===== src/Shell/Lines.antt =====
-- What the shell makes of a line.
use the_operating_system.Common.{
  ℕ, zero, suc, ◌+◌, ◌≤◌, ◌<◌, ◌≡◌, refl, ap, sym, ◌∙◌, inl, inr, Bool, true, false, ◌&&◌, ◌||◌,
  List, [], ◌∷◌, ◌++◌, append_assoc, append-nil, arith, ltb, leb, ◌==◌, if◌then◌else◌, length,
  length-append, le→leb, lt→not_leb, ltb-suc, &&-true, nested-tests, failed-tests, limit-tests,
  le→not_ltb, ltb→lt, not_ltb→le, ne→==, Bool-cases,
}
use native.Mathlib.Decide.{dec_lt}
use native.Mathlib.Nat.{zero-add}
use the_operating_system.Common.Selection.{All}
use the_operating_system.Common.Outcomes.{done, exited, undefined, if-bind}
use the_operating_system.Shell.{
  max_size, space, newline, getchar, add_word, parse, read_command, child,
}
use the_operating_system.Shell.Words.{
  IsPlain, Words, empty, blank, last, word_then, all_short, fits, read_word-plain, read_word-long,
  c_string-plain,
}

module _ (malloc_fails : ℕ → Bool) (mallocs : (i : ℕ) → malloc_fails i ≡ false) where
  add_word-plain :
      (argv : List (List ℕ)) (word : List ℕ)
      → All IsPlain word
      → add_word malloc_fails argv word ≡ (
          if ltb (length word) max_size && ltb (length argv) max_size
          then done (argv ++ (word ∷ []))
          else undefined)
  unfolding add_word
  add_word-plain argv word plain = elim (Bool-cases (ltb (length word) max_size)) [
    | inl e ↦ rw (e, mallocs (length argv), c_string-plain word plain) refl
    | inr e ↦ rw e refl
  ]

  -- The word `d ∷ word` and the `c` behind it: the loop goes on with what `after` is.
  parse-word :
      (k : ℕ) (argv : List (List ℕ)) (d c : ℕ) (word rest : List ℕ)
      → IsPlain d
      → All IsPlain word
      → (c == space || c == newline) ≡ true
      → parse malloc_fails (suc k) argv (d ∷ (word ++ (c ∷ rest))) ≡ (
          if ltb (length (d ∷ word)) max_size && ltb (length argv) max_size
          then (elim (c == newline) [
            | true ↦ done (argv ++ ((d ∷ word) ∷ []), rest)
            | false ↦ parse malloc_fails k (argv ++ ((d ∷ word) ∷ [])) rest
          ])
          else undefined)
  unfolding parse getchar
  parse-word k argv d c word rest plain plains e = elim (dec_lt (length word) max_size) [
    | yes room ↦
        rw
          (
            ne→== d newline plain.not_newline,
            ne→== d space plain.not_space,
            parse,
            getchar,
            read_word-plain (suc max_size) (d ∷ []) word rest c plains e (omega arith)
                (omega arith),
            add_word-plain argv (d ∷ word) (plain, plains),
          )
          (if-bind (ltb (length (d ∷ word)) max_size && ltb (length argv) max_size)
            (argv ++ ((d ∷ word) ∷ []))
            (λ argv'. elim (c == newline) [
              | true ↦ done (argv', rest)
              | false ↦ parse malloc_fails k argv' rest
            ]))
    | no long ↦
        rw
          (
            ne→== d newline plain.not_newline,
            ne→== d space plain.not_space,
            parse,
            getchar,
            read_word-long (suc max_size) (d ∷ []) word (c ∷ rest) plains (omega arith)
                (omega arith) (omega arith),
            le→not_ltb (length (d ∷ word)) max_size (omega arith),
          )
          refl
  ]

  parse-blank :
      (k : ℕ) (argv : List (List ℕ)) (rest : List ℕ)
      → parse malloc_fails (suc k) argv (space ∷ rest) ≡ parse malloc_fails k argv rest
  unfolding parse getchar
  parse-blank k argv rest = refl

  parse-newline :
      (k : ℕ) (argv : List (List ℕ)) (rest : List ℕ)
      → parse malloc_fails (suc k) argv (newline ∷ rest) ≡ done (argv, rest)
  unfolding parse getchar
  parse-newline k argv rest = refl

  -- With `argv` stored, the words of the line have to fit behind it.
  parse-Words :
      (k : ℕ) (argv : List (List ℕ)) (line rest : List ℕ) (words : List (List ℕ))
      → Words line words
      → length line < k
      → length argv ≤ max_size
      → parse malloc_fails k argv (line ++ (newline ∷ rest)) ≡ (
          if all_short words && leb (length argv + length words) max_size
          then done (argv ++ words, rest)
          else undefined)
  parse-Words zero argv line rest words w fuel few = absurd (omega arith)
  parse-Words (suc k) argv line rest words empty fuel few =
      parse-newline k argv rest
      ∙ rw (le→leb (length argv + 0) max_size (omega arith), append-nil) refl
  parse-Words (suc k) argv line rest words (blank {line = line'} w) fuel few =
      parse-blank k argv (line' ++ (newline ∷ rest))
      ∙ parse-Words k argv line' rest words w (omega arith) few
  parse-Words (suc k) argv line rest words (last {c = d} {word} plain plains) fuel few =
      parse-word k argv d newline word rest plain plains refl
      ∙ rw (&&-true (ltb (length (d ∷ word)) max_size), sym (ltb-suc (length argv) max_size)) refl
  parse-Words (suc k) argv line rest words
        (word_then {c = d} {word} {line = line'} {words = words'} plain plains w) fuel few =
      let here = parse-word k argv d space word (line' ++ (newline ∷ rest)) plain plains refl in
      let split =
        ap (λ l. parse malloc_fails (suc k) argv (d ∷ l))
          (append_assoc word (space ∷ line') (newline ∷ rest)) in
      split ∙ here ∙ elim (Bool-cases (ltb (length argv) max_size)) [
        | inl e ↦
            let next =
              parse-Words k (argv ++ ((d ∷ word) ∷ [])) line' rest words' w
                (omega (arith, length-append word (space ∷ line')))
                (omega
                  (arith, length-append argv ((d ∷ word) ∷ []), ltb→lt (length argv) max_size e)) in
            rw
              (
                e,
                &&-true (ltb (length (d ∷ word)) max_size),
                next,
                append_assoc argv ((d ∷ word) ∷ []) words',
                length-append argv ((d ∷ word) ∷ []),
              )
              (nested-tests _ _ (ltb (length (d ∷ word)) max_size) (all_short words') (
                ap (λ m. leb m max_size)
                  (let m : length argv + 1 + length words' ≡ length argv + suc (length words') =
                      omega arith in
                    m)))
        | inr e ↦ rw e (
            failed-tests _ _ _ (ltb (length (d ∷ word)) max_size) (all_short words') (
              lt→not_leb (length argv + suc (length words')) max_size
                (omega (arith, not_ltb→le (length argv) max_size e))))
      ]

  read_command-Words :
      (line rest : List ℕ) (words : List (List ℕ))
      → Words line words
      → read_command malloc_fails (line ++ (newline ∷ rest))
        ≡ (if fits words then done (words, rest) else undefined)
  unfolding read_command
  read_command-Words line rest words w =
      rw
        (
          parse-Words (suc (length (line ++ (newline ∷ rest)))) [] line rest words w
              (omega (arith, length-append line (newline ∷ rest))) (omega arith),
          zero-add,
        )
        (if-bind (all_short words && leb (length words) max_size)
            (let r : List (List ℕ) × List ℕ = (words, rest) in r)
            (λ r. if ltb (length r.0) max_size then done r else undefined)
          ∙ limit-tests (done (words, rest)) undefined (all_short words) (length words) max_size)

  -- For a line without null characters, with a newline behind it, where no `malloc` fails: if no word
  -- has more than 99 characters and there are at most 99 words, the child executes the words of the
  -- line, or exits with 1 where that fails; else it writes behind `tempbuf` or `argv`.
  pub child-Words :
      (execve_fails : List (List ℕ) → Bool) (line rest : List ℕ) (words : List (List ℕ))
      → Words line words
      → child malloc_fails execve_fails (line ++ (newline ∷ rest))
        ≡ (if fits words then (if execve_fails words then exited 1 else done words) else undefined)
  unfolding child
  child-Words execve_fails line rest words w = rw (read_command-Words line rest words w) (
      if-bind (fits words) (let r : List (List ℕ) × List ℕ = (words, rest) in r)
        (λ r. if execve_fails r.0 then exited 1 else done r.0))
