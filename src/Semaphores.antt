-- ===== src/Semaphores.antt =====
-- The processes of assignments/as5 over a set of semaphores: p1.c, p2.c and p3.c, which take turns
-- round a ring of four, and sample.c, whose parent and child share one. A process is an infinite
-- loop over a list of operations. Any process that is not blocked may make the next one. `semop`
-- does what its documentation says: an operation of -1 waits until the value is positive, and the
-- number is that of a semaphore of the set. `sleep` does nothing that the model shows. With
-- `SEM_UNDO` each operation also moves the process's adjustment of that semaphore, `semadj`, by one,
-- and fails with ERANGE where the adjustment would pass the limit of the system, 32767 on Linux. The
-- adjustments of sample.c stay at 0 and 1. Those of p1.c, p2.c and p3.c move on round by round, as
-- each lowers one semaphore and raises another, so that the processes end in some later round.
-- The model has the moves up to then: no call fails, and no process ends. The order of the lines holds
-- of any run as far as it comes; that the run goes on is stated below the limit.
pub mod Ring
pub mod Exclusion
mod Witnesses
use the_operating_system.Common.{
  ℕ, zero, suc, ◌+◌, ◌≡◌, Option, none, some, List, [], ◌∷◌, ◌++◌, get_elem?, set,
}

pub data Line : Type 0 where
  i_am_p1 i_am_p2_section1 i_am_p2_section2 i_am_p3 child parent : Line

-- `semop` by -1, `printf`, and `semop` by 1.
pub data Op : Type 0 where
  decr incr : ℕ → Op
  print : Line → Op

pub record Process : Type 0 where
  pub body : List Op
  pub rest : List Op

pub record State : Type 0 where
  pub sems : List ℕ
  pub processes : List Process
  pub output : List Line

-- The semaphore `num` with `sem_op` -1: `none` while it is 0.
abbrev pub decrease : List ℕ → ℕ → Option (List ℕ)
decrease sems num = elim (get_elem? sems num) [ some (suc value) ↦ set sems num value | _ ↦ none ]

-- The semaphore `num` with `sem_op` 1.
abbrev pub increase : List ℕ → ℕ → Option (List ℕ)
increase sems num = elim (get_elem? sems num) [
  | none ↦ none
  | some value ↦ set sems num (suc value)
]

abbrev set_sems : State → Option (List ℕ) → Option State
set_sems s none = none
set_sems s (some sems) = some (record s { sems = sems })

abbrev pub perform : Op → State → Option State
perform (decr num) s = set_sems s (decrease s.sems num)
perform (incr num) s = set_sems s (increase s.sems num)
perform (print line) s = some (record s { output = s.output ++ (line ∷ []) })

-- `while (1)`
abbrev pub proceed : Process → List Op → Process
proceed p [] = record p { rest = p.body }
proceed p (op ∷ ops) = record p { rest = op ∷ ops }

abbrev set_process : ℕ → Process → Option State → Option State
set_process i p none = none
set_process i p (some s) = elim (set s.processes i p) [
  | none ↦ none
  | some ps ↦ some (record s { processes = ps })
]

abbrev pub turn : ℕ → Process → State → Option State
turn i p s = elim p.rest [ [] ↦ none | op ∷ ops ↦ set_process i (proceed p ops) (perform op s) ]

-- The next operation of the process `i`; `none` if it is blocked, or there is no such process.
pub move : ℕ → State → Option State
move i s = elim (get_elem? s.processes i) [ none ↦ none | some p ↦ turn i p s ]

abbrev pub process : List Op → Process
process body = record { body = body; rest = body }

abbrev pub p1 : List Op
p1 = decr 0 ∷ print i_am_p1 ∷ incr 1 ∷ []

abbrev pub p2 : List Op
p2 = decr 1 ∷ print i_am_p2_section1 ∷ incr 2 ∷ decr 3 ∷ print i_am_p2_section2 ∷ incr 0 ∷ []

abbrev pub p3 : List Op
p3 = decr 2 ∷ print i_am_p3 ∷ incr 3 ∷ []

-- `semctl` of p1.c, once all three processes run.
abbrev pub ring : State
ring = record {
  sems = 1 ∷ 0 ∷ 0 ∷ 0 ∷ [];
  processes = process p1 ∷ process p2 ∷ process p3 ∷ [];
  output = [];
}

abbrev pub sample_child : List Op
sample_child = decr 0 ∷ print child ∷ incr 0 ∷ []

abbrev pub sample_parent : List Op
sample_parent = decr 0 ∷ print parent ∷ incr 0 ∷ []

-- `main` of sample.c after `fork`.
abbrev pub sample : State
sample = record {
  sems = 1 ∷ [];
  processes = process sample_child ∷ process sample_parent ∷ [];
  output = [];
}

-- The limit of `semadj`, SEMAEM. No adjustment has passed it after so many moves, since a move makes at
-- most one operation.
abbrev pub semadj_max : ℕ
semadj_max = 32767

-- `n` moves of processes that are not blocked.
pub data Moves (s : State) : ℕ → State → Type 0 where
  here : Moves s zero s
  next : {n : ℕ} {t u : State} (i : ℕ) → Moves s n t → move i t ≡ some u → Moves s (suc n) u
