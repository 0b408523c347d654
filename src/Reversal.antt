-- ===== src/Reversal.antt =====
-- The programs that reverse their arguments in child processes: `main` of assignments/as2/as2_1.c, a
-- chain of processes; and `main` of assignments/as3/part2/as3_2.c, whose children execute
-- assignments/as3/part2/reverse.c. Standard output has a buffer, which a child inherits with what is
-- in it: to a terminal it is written at each end of a line, else when the process ends, for which it
-- is taken to have room; `execve` drops it. `fork_fails` and `execve_fails` say which call fails,
-- `wait` waits for the only child, and what goes to standard error is left out.
pub mod Printed
mod Witnesses
use the_operating_system.Common.{
  ℕ, zero, suc, ◌+◌, Bool, true, false, Option, none, some, List, [], ◌∷◌, ◌++◌, if◌then◌else◌,
}
use the_operating_system.Common.Outcomes.{Outcome, done, exited, undefined, ◌>>=◌}
use the_operating_system.Strings.{strrev}

-- A line of the output.
pub data Line : Type 0 where
  child child_execs : ℕ → Line
  original reversed : List ℕ → Line
  enter_name : Line

-- The string that `strrev` leaves.
pub reverse_of : List ℕ → Outcome (List ℕ)
reverse_of s = elim (strrev s) [ none ↦ undefined | some r ↦ done r ]

-- What `printf` of some lines writes at once, and what it leaves in the buffer.
abbrev pub written : (terminal : Bool) → List Line → List Line
written terminal lines = if terminal then lines else []

abbrev pub kept : (terminal : Bool) → (buffer lines : List Line) → List Line
kept terminal buffer lines = if terminal then buffer else buffer ++ lines

module _ (terminal : Bool) (fork_fails : ℕ → Bool) where
  -- The loop of as2_1.c in the process that is at `i`, with all processes below it, on the strings that
  -- are left. A process that could fork ends when its child has.
  pub chain : List (List ℕ) → (i : ℕ) → (buffer : List Line) → Outcome (List Line)
  chain [] i buffer = done buffer
  chain (s ∷ argv) i buffer = elim (fork_fails i) [
    | true ↦ done buffer
    | false ↦ do
      r ← reverse_of s
      let lines = child (i + 1) ∷ original s ∷ reversed r ∷ []
      below ← chain argv (i + 1) (kept terminal buffer lines)
      done (written terminal lines ++ (below ++ buffer))
  ]

  pub reverse_all : List (List ℕ) → Outcome (List Line)
  reverse_all argv = chain argv 0 []

-- `main` of reverse.c, on its arguments: what it prints.
pub reverse_main : List (List ℕ) → Outcome (List Line)
reverse_main [] = exited 1
reverse_main (s ∷ argv) = do r ← reverse_of s; done (original s ∷ reversed r ∷ [])

-- What the child number `i + 1` of as3_2.c prints.
pub exec_child :
    (terminal : Bool) (execve_fails : ℕ → Bool) (s : List ℕ) (i : ℕ) (buffer : List Line)
    → Outcome (List Line)
exec_child terminal execve_fails s i buffer = elim (execve_fails i) [
  | true ↦ done (
      written terminal (child_execs (i + 1) ∷ [])
      ++ kept terminal buffer (child_execs (i + 1) ∷ []))
  | false ↦ do
    lines ← reverse_main (s ∷ [])
    done (written terminal (child_execs (i + 1) ∷ []) ++ lines)
]

module _ (terminal : Bool) (fork_fails execve_fails : ℕ → Bool) where
  -- The loop of as3_2.c.
  pub exec_loop : List (List ℕ) → (i : ℕ) → (buffer : List Line) → Outcome (List Line)
  exec_loop [] i buffer = done buffer
  exec_loop (s ∷ argv) i buffer = elim (fork_fails i) [
    | true ↦ done buffer
    | false ↦ do
      lines ← exec_child terminal execve_fails s i buffer
      rest ← exec_loop argv (i + 1) buffer
      done (lines ++ rest)
  ]

  pub exec_all : List (List ℕ) → Outcome (List Line)
  exec_all argv = do
    rest ← exec_loop argv 0 (kept terminal [] (enter_name ∷ []))
    done (written terminal (enter_name ∷ []) ++ rest)
