-- ===== src/Ranking.antt =====
-- assignments/as2/as2_2.c and as2_3.c: processes that find the i-th largest numbers of an array.
-- In as2_2.c each process forks the one for the next rank, which goes on with a copy of its array,
-- and prints the number of its rank. In as2_3.c the children get the array of `main`, which reads
-- the index that each one returns from its exit status, and prints the array in the end. An `int`
-- is a number below 2 ^ 32, in two's complement. `fork_fails` says which call of `fork` fails;
-- `wait` gives the status of a child that has called `exit`, as documented. Standard output has a
-- buffer, which a child inherits with what is in it: to a terminal it is written at each end of a
-- line, else when the process ends, for which it is taken to have room. The processes of as2_2.c do
-- not wait for each other, so that they may end in any order.
pub mod Lines
pub mod Greatest
pub mod Sorted
mod Witnesses
use the_operating_system.Common.{
  ℕ, zero, suc, ◌+◌, ◌-◌, ◌*◌, ◌/◌, ◌%◌, Bool, true, false, List, [], ◌∷◌, ◌++◌, ◌==◌,
  if◌then◌else◌, length,
}
use the_operating_system.Common.Bytes.{signed_ltb}
use the_operating_system.Common.Outcomes.{Outcome, done, exited, ◌>>=◌, load, store}

-- `for (int k = i; k < n; k++)`, by the rounds that are left.
pub max_loop : ℕ → List ℕ → (k max : ℕ) → Outcome ℕ
max_loop zero arr k max = done max
max_loop (suc r) arr k max = do
  at_k ← load arr k
  at_max ← load arr max
  max_loop r arr (k + 1) (if signed_ltb at_max at_k then k else max)

-- `temp = arr[i]; arr[i] = arr[j]; arr[j] = temp`
pub exchange : List ℕ → (i j : ℕ) → Outcome (List ℕ)
exchange arr i j = do
  temp ← load arr i
  at_j ← load arr j
  arr' ← store arr i at_j
  store arr' j temp

-- What the child for a rank of as2_2.c prints.
pub record Rank : Type 0 where
  pub rank : ℕ
  pub value : ℕ
  pub idx : ℕ

-- A line of the output of as2_2.c.
pub data Line : Type 0 where
  enter_n : Line
  enter_element : ℕ → Line
  largest : Rank → Line

-- The questions for `n` elements from `l` on.
abbrev pub enter_elements : (n l : ℕ) → List Line
enter_elements zero l = []
enter_elements (suc n) l = enter_element (l + 1) ∷ enter_elements n (l + 1)

abbrev pub questions : ℕ → List Line
questions n = enter_n ∷ enter_elements n 0

-- What `printf` of some lines writes at once, and what it leaves in the buffer.
abbrev pub at_once : (terminal : Bool) → List Line → List Line
at_once terminal lines = if terminal then lines else []

abbrev pub buffered : (terminal : Bool) → (buffer lines : List Line) → List Line
buffered terminal buffer lines = if terminal then buffer else buffer ++ lines

-- What the processes write while they run, in this order, and what each writes as it ends, by the order
-- in which they were made.
pub record Output : Type 0 where
  pub running : List Line
  pub ending : List (List Line)

-- A process that ends.
abbrev pub end_with : List Line → Output
end_with buffer = record { running = []; ending = buffer ∷ [] }

-- The status that `wait` gives for a child that has called `exit(code)`.
abbrev pub exit_status : ℕ → ℕ
exit_status code = code % 256 * 256

module _ (terminal : Bool) (fork_fails : ℕ → Bool) where
  -- The loop of as2_2.c in the process with rank `i`, and those that it forks, by the ranks that are
  -- left. A process that cannot fork exits with the code 1, and one that could with 0. The child
  -- exchanges and goes on.
  pub rank_chain : ℕ → (i : ℕ) → List ℕ → (buffer : List Line) → Outcome Output
  rank_chain zero i arr buffer = done (end_with buffer)
  rank_chain (suc r) i arr buffer = elim (fork_fails i) [
    | true ↦ done (end_with buffer)
    | false ↦ do
      max ← max_loop (suc r) arr i i
      value ← load arr max
      arr' ← exchange arr i max
      let lines = largest (record { rank = i + 1; value = value; idx = max }) ∷ []
      below ← rank_chain r (i + 1) arr' (buffered terminal buffer lines)
      done (record {
        running = at_once terminal lines ++ below.running;
        ending = buffer ∷ below.ending;
      })
  ]

  -- `main` of as2_2.c, for which the user enters `arr`.
  pub print_ranks : List ℕ → Outcome Output
  print_ranks arr = do
    let asked = questions (length arr)
    below ← rank_chain (length arr) 0 arr (buffered terminal [] asked)
    done (record below { running = at_once terminal asked ++ below.running })

module _ (fork_fails : ℕ → Bool) where
  -- The loop of `main` of as2_3.c, by the ranks that are left. A child exits with the index that it
  -- has found.
  pub rank_loop : ℕ → (i : ℕ) → List ℕ → Outcome (List ℕ)
  rank_loop zero i arr = done arr
  rank_loop (suc r) i arr = elim (fork_fails i) [
    | true ↦ exited 1
    | false ↦ do
      max ← max_loop (suc r) arr i i
      let status = exit_status max
      if status % 256 == 0
          then (do arr' ← exchange arr (status / 256) i; rank_loop r (i + 1) arr')
          else exited 1
  ]

  -- The array that the last loop prints.
  pub collect_ranks : List ℕ → Outcome (List ℕ)
  collect_ranks arr = rank_loop (length arr) 0 arr
