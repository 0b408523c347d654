-- ===== src/Reversal/Printed.antt =====
-- What the programs print where no call fails.
use the_operating_system.Common.{
  ℕ, zero, suc, ◌+◌, ◌*◌, ◌≤◌, ◌<◌, ◌≡◌, refl, ap, ap₂, sym, subst, ◌∙◌, Bool, true, false,
  if◌then◌else◌, List, [], ◌∷◌, ◌++◌, append_assoc, append-nil, take, take_of_le, take-append,
  length, length-append, arith,
}
use mathlib.Core.List.{reverse}
use the_operating_system.Common.Outcomes.{done, ◌>>=◌}
use the_operating_system.Strings.Laws.{strrev-reverse}
use the_operating_system.Reversal.{
  Line, child, child_execs, original, reversed, enter_name, reverse_of, written, kept, chain,
  reverse_all, reverse_main, exec_child, exec_loop, exec_all,
}

pub reverse_of-reverse : (s : List ℕ) → reverse_of s ≡ done (reverse s)
unfolding reverse_of
reverse_of-reverse s = rw (strrev-reverse s, reverse_of) refl

-- The lines on the strings, whose numbers go on from `i`.
abbrev pub reports : List (List ℕ) → (i : ℕ) → List Line
reports [] i = []
reports (s ∷ argv) i = child (i + 1) ∷ original s ∷ reversed (reverse s) ∷ reports argv (i + 1)

length-reports : (argv : List (List ℕ)) (i : ℕ) → length (reports argv i) ≡ 3 * length argv
length-reports [] i = omega arith
length-reports (s ∷ argv) i = omega (arith, length-reports argv (i + 1))

-- The first `3 * n` lines, then the first `3 * (n - 1)`, and so on.
abbrev pub prefixes : List Line → ℕ → List Line
prefixes lines zero = []
prefixes lines (suc n) = take (3 * suc n) lines ++ prefixes lines n

-- From `n` strings more than `j` down to `j`.
abbrev stairs : List Line → (j n : ℕ) → List Line
stairs lines j zero = take (3 * j) lines
stairs lines j (suc n) = take (3 * (j + suc n)) lines ++ stairs lines j n

stairs-suc :
    (lines : List Line) (j n : ℕ)
    → stairs lines (suc j) n ++ take (3 * j) lines ≡ stairs lines j (suc n)
stairs-suc lines j zero =
    ap (λ k. take (3 * k) lines ++ take (3 * j) lines) (let e : suc j ≡ j + 1 = omega arith in e)
stairs-suc lines j (suc n) =
    append_assoc (take (3 * (suc j + suc n)) lines) (stairs lines (suc j) n) (take (3 * j) lines)
    ∙ ap₂ (λ (k : ℕ) (rest : List Line). take (3 * k) lines ++ rest)
        (let e : suc j + suc n ≡ j + suc (suc n) = omega arith in e) (stairs-suc lines j n)

stairs-zero : (lines : List Line) (n : ℕ) → stairs lines 0 n ≡ prefixes lines n
stairs-zero lines zero = refl
stairs-zero lines (suc n) =
    ap₂ (λ (k : ℕ) (rest : List Line). take (3 * k) lines ++ rest)
      (let e : 0 + suc n ≡ suc n = omega arith in e) (stairs-zero lines n)

module _ (fork_fails : ℕ → Bool) (forks : (i : ℕ) → fork_fails i ≡ false) where
  chain-cons :
      (terminal : Bool) (s : List ℕ) (argv : List (List ℕ)) (i : ℕ) (buffer below : List Line)
      → chain terminal fork_fails argv
          (i + 1)
          (kept terminal buffer (child (i + 1) ∷ original s ∷ reversed (reverse s) ∷ []))
        ≡ done below
      → chain terminal fork_fails (s ∷ argv) i buffer
        ≡ done (
            written terminal (child (i + 1) ∷ original s ∷ reversed (reverse s) ∷ [])
            ++ (below ++ buffer))
  unfolding chain
  chain-cons terminal s argv i buffer below e =
      rw (chain, forks i, reverse_of-reverse s, ◌>>=◌, e) refl

  chain-terminal :
      (argv : List (List ℕ)) (i : ℕ) → chain true fork_fails argv i [] ≡ done (reports argv i)
  unfolding chain
  chain-terminal [] i = refl
  chain-terminal (s ∷ argv) i =
      chain-cons true s argv i [] (reports argv (i + 1)) (chain-terminal argv (i + 1))
      ∙ ap (λ rest. done (child (i + 1) ∷ original s ∷ reversed (reverse s) ∷ rest))
          (append-nil (reports argv (i + 1)))

  chain-file :
      (argv : List (List ℕ)) (j i : ℕ) (buffer : List Line)
      → length buffer ≡ 3 * j
      → chain false fork_fails argv i buffer
        ≡ done (stairs (buffer ++ reports argv i) j (length argv))
  unfolding chain
  chain-file [] j i buffer e =
      ap done
        (sym (ap (take (3 * j)) (append-nil buffer) ∙ take_of_le (3 * j) buffer (omega arith)))
  chain-file (s ∷ argv) j i buffer e =
      let lines = child (i + 1) ∷ original s ∷ reversed (reverse s) ∷ [] in
      let all = buffer ++ reports (s ∷ argv) i in
      let below =
        chain-file argv (suc j) (i + 1) (buffer ++ lines)
          (omega (arith, length-append buffer lines)) in
      let whole = append_assoc buffer lines (reports argv (i + 1)) in
      let first = ap (λ k. take k all) (sym e) ∙ take-append buffer (reports (s ∷ argv) i) in
      chain-cons false s argv i buffer _ below
      ∙ ap done (
          ap₂ (λ (l b : List Line). stairs l (suc j) (length argv) ++ b) whole (sym first)
          ∙ stairs-suc all j (length argv))

  -- Where no `fork` fails, as2_1.c prints three lines on each argument, its number, the argument and
  -- its reverse: to a terminal once, in the order of the arguments; else first those on all arguments,
  -- then those on all but the last, and so on, since each child inherits the lines in the buffer.
  pub reverse_all-lines :
      (terminal : Bool) (argv : List (List ℕ))
      → reverse_all terminal fork_fails argv
        ≡ done (if terminal then reports argv 0 else prefixes (reports argv 0) (length argv))
  unfolding reverse_all
  reverse_all-lines true argv = chain-terminal argv 0
  reverse_all-lines false argv =
      chain-file argv 0 0 [] (omega arith) ∙ ap done (stairs-zero (reports argv 0) (length argv))

-- Where the `fork` for the argument `i + k` is the first that fails, the rest of the chain is left out.
chain-take :
    (terminal : Bool) (fork_fails : ℕ → Bool) (argv : List (List ℕ)) (k i : ℕ) (buffer : List Line)
    → ((j : ℕ) → i ≤ j → j < i + k → fork_fails j ≡ false)
    → fork_fails (i + k) ≡ true
    → chain terminal fork_fails argv i buffer ≡ chain terminal (λ _. false) (take k argv) i buffer
unfolding chain
chain-take terminal fork_fails [] zero i buffer ok bad = refl
chain-take terminal fork_fails [] (suc k) i buffer ok bad = refl
chain-take terminal fork_fails (s ∷ argv) zero i buffer ok bad =
    let e : fork_fails i ≡ true = subst (λ j. fork_fails j ≡ true) (omega arith) bad in
    rw (chain, e) refl
chain-take terminal fork_fails (s ∷ argv) (suc k) i buffer ok bad =
    let next =
      chain-take terminal fork_fails argv k (i + 1)
        (kept terminal buffer (child (i + 1) ∷ original s ∷ reversed (reverse s) ∷ []))
        (λ j le lt. ok j (omega arith) (omega arith))
        (subst (λ j. fork_fails j ≡ true) (let e : i + suc k ≡ i + 1 + k = omega arith in e) bad) in
    rw (chain, ok i (omega arith) (omega arith), reverse_of-reverse s, ◌>>=◌, next) refl

-- Where the `fork` for the argument behind the first `k` is the first that fails, as2_1.c prints what
-- it does for these `k` arguments alone.
pub reverse_all-take :
    (terminal : Bool) (fork_fails : ℕ → Bool) (argv : List (List ℕ)) (k : ℕ)
    → ((j : ℕ) → j < k → fork_fails j ≡ false)
    → fork_fails k ≡ true
    → reverse_all terminal fork_fails argv ≡ reverse_all terminal (λ _. false) (take k argv)
unfolding reverse_all
reverse_all-take terminal fork_fails argv k ok bad =
    chain-take terminal fork_fails argv k 0 [] (λ j le lt. ok j (omega arith))
      (subst (λ j. fork_fails j ≡ true) (let e : k ≡ 0 + k = omega arith in e) bad)

-- What each child of as3_2.c has printed by itself, and what reverse.c prints in it.
abbrev pub executed : (terminal : Bool) → List (List ℕ) → (i : ℕ) → List Line
executed terminal [] i = []
executed terminal (s ∷ argv) i =
    written terminal (child_execs (i + 1) ∷ [])
    ++ (original s ∷ reversed (reverse s) ∷ executed terminal argv (i + 1))

module _ (fork_fails execve_fails : ℕ → Bool) (forks : (i : ℕ) → fork_fails i ≡ false)
    (execs : (i : ℕ) → execve_fails i ≡ false) where
  exec_child-lines :
      (terminal : Bool) (s : List ℕ) (i : ℕ) (buffer : List Line)
      → exec_child terminal execve_fails s i buffer
        ≡ done (
            written terminal (child_execs (i + 1) ∷ []) ++ (original s ∷ reversed (reverse s) ∷ []))
  unfolding exec_child reverse_main
  exec_child-lines terminal s i buffer =
      rw (exec_child, execs i, reverse_main, reverse_of-reverse s) refl

  exec_loop-lines :
      (terminal : Bool) (argv : List (List ℕ)) (i : ℕ) (buffer : List Line)
      → exec_loop terminal fork_fails execve_fails argv i buffer
        ≡ done (executed terminal argv i ++ buffer)
  unfolding exec_loop
  exec_loop-lines terminal [] i buffer = refl
  exec_loop-lines terminal (s ∷ argv) i buffer =
      rw
        (
          exec_loop,
          forks i,
          exec_child-lines terminal s i buffer,
          ◌>>=◌,
          exec_loop-lines terminal argv (i + 1) buffer,
        )
        (ap done (joined terminal))
    where
      joined :
          (terminal : Bool)
          → (written terminal (child_execs (i + 1) ∷ [])
                ++ (original s ∷ reversed (reverse s) ∷ []))
              ++ (executed terminal argv (i + 1) ++ buffer)
            ≡ (written terminal (child_execs (i + 1) ∷ [])
                ++ (original s ∷ reversed (reverse s) ∷ executed terminal argv (i + 1)))
              ++ buffer
      joined true = refl
      joined false = refl

  -- Where no call fails, as3_2.c with reverse.c prints to a terminal its question, and for each
  -- argument that its child executes, the argument, and its reverse. Else the lines of the children
  -- themselves are lost, and the question comes last.
  pub exec_all-lines :
      (terminal : Bool) (argv : List (List ℕ))
      → exec_all terminal fork_fails execve_fails argv
        ≡ done (
            if terminal
            then enter_name ∷ executed true argv 0
            else executed false argv 0 ++ (enter_name ∷ []))
  unfolding exec_all
  exec_all-lines true argv = rw (exec_loop-lines true argv 0 [], append-nil) refl
  exec_all-lines false argv = rw (exec_loop-lines false argv 0 (enter_name ∷ [])) refl
