-- ===== src/Handshake.antt =====
-- assignments/as4/part1.c: the parent hands the numbers 1 to 10 to the child through a flag and an
-- `int` in shared memory, and the child prints their factorials. part2.c and part_exec.c have the
-- same loops in two programs. The processes interleave by single accesses to the shared memory;
-- `sleep` does not order them. A fresh segment is zero. Each process has its own buffer for what it
-- prints. The order in which the arguments of a call are evaluated is open: `fact_first` says whether
-- `fact(shchild->n)` is before `shchild->n`. The factorial's overflow is undefined.
pub mod Factorial
pub mod Rounds
pub mod Steps
pub mod Reached
pub mod Finishes
pub mod Programs
mod Witnesses
use the_operating_system.Common.{
  ℕ, zero, suc, ◌+◌, ◌*◌, ◌≡◌, Bool, true, false, Option, none, some, List, [], ◌∷◌, ◌++◌, ltb, leb,
  ◌==◌, if◌then◌else◌,
}
use the_operating_system.Common.Outcomes.{Outcome, done, exited, undefined, ◌>>=◌}

-- `for(int i=1;i<=n;i++)` by the rounds that are left.
pub fact_loop : ℕ → (i fac : ℕ) → Outcome ℕ
fact_loop zero i fac = done fac
fact_loop (suc k) i fac = elim (ltb (fac * i) 0x8000_0000) [
  | true ↦ fact_loop k (i + 1) (fac * i)
  | false ↦ undefined
]

-- Of an `int` that is not negative.
pub fact : ℕ → Outcome ℕ
fact n = fact_loop n 1 1

-- Where the parent is, with its `i`: at the store before the loop, at the test, at the two stores, at
-- `printf`, or behind the loop.
pub data Parent : Type 0 where
  parent_starts : Parent
  parent_tests parent_marks parent_writes parent_prints : ℕ → Parent
  parent_waits : Parent

-- Where the child is, with its `i` and the values of `n` that it has loaded.
pub data Child : Type 0 where
  child_tests child_clears child_loads : ℕ → Child
  child_loads_again : (i first : ℕ) → Child
  child_prints : (i first second : ℕ) → Child
  child_exits : Child

pub record Line : Type 0 where
  pub n : ℕ
  pub factorial : ℕ

pub record State : Type 0 where
  pub flag : ℕ
  pub n : ℕ
  pub parent : Parent
  pub child : Child
  pub written : List ℕ
  pub printed : List Line

abbrev pub initial : State
initial = record {
  flag = 0;
  n = 0;
  parent = parent_starts;
  child = child_tests 1;
  written = [];
  printed = [];
}

-- `i<=10`
abbrev pub next_parent : ℕ → Parent
next_parent i = if leb i 10 then parent_tests i else parent_waits

abbrev pub next_child : ℕ → Child
next_child i = if leb i 10 then child_tests i else child_exits

-- The next access of the parent; `none` once it waits for the child.
abbrev pub parent_at : Parent → State → Option State
parent_at parent_starts s = some (record s { flag = 0; parent = next_parent 1 })
parent_at (parent_tests i) s =
    some (if s.flag == 0 then record s { parent = parent_marks i } else s)
parent_at (parent_marks i) s = some (record s { flag = 1; parent = parent_writes i })
parent_at (parent_writes i) s = some (record s { n = i; parent = parent_prints i })
parent_at (parent_prints i) s =
    some (record s { written = s.written ++ (i ∷ []); parent = next_parent (i + 1) })
parent_at parent_waits s = none

pub parent_step : State → Option State
parent_step s = parent_at s.parent s

-- The line of the child's `printf`.
abbrev pub line : Bool → (first second : ℕ) → Outcome Line
line true first second = do fac ← fact first; done (record { n = second; factorial = fac })
line false first second = do fac ← fact second; done (record { n = first; factorial = fac })

abbrev pub child_at : (fact_first : Bool) → Child → State → Outcome State
child_at f (child_tests i) s = done (if s.flag == 1 then record s { child = child_clears i } else s)
child_at f (child_clears i) s = done (record s { flag = 0; child = child_loads i })
child_at f (child_loads i) s = done (record s { child = child_loads_again i s.n })
child_at f (child_loads_again i first) s = done (record s { child = child_prints i first s.n })
child_at f (child_prints i first second) s = do
  l ← line f first second
  done (record s { printed = s.printed ++ (l ∷ []); child = next_child (i + 1) })
child_at f child_exits s = exited 0

pub child_step : (fact_first : Bool) → State → Outcome State
child_step f s = child_at f s.child s

-- The states that the two processes reach.
pub data Reachable (fact_first : Bool) : State → Type 0 where
  start : Reachable fact_first initial
  by_parent :
      {s t : State} → Reachable fact_first s → parent_step s ≡ some t → Reachable fact_first t
  by_child :
      {s t : State}
      → Reachable fact_first s
      → child_step fact_first s ≡ done t
      → Reachable fact_first t
