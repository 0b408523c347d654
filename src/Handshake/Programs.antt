-- ===== src/Handshake/Programs.antt =====
-- assignments/as4/part2.c and part_exec.c: the parent of part1.c, and its child in a program that
-- `execve` starts. `argv[1]`, which is not set where `sprintf` writes to it, is taken to point to room
-- for the number; so the program attaches the segment. The input and the signal are left out.
use the_operating_system.Common.{
  ℕ, ◌≡◌, ◌≢◌, refl, sym, ap, subst, ◌⊎◌, inl, inr, Bool, Option, none, some, List, [], ◌∷◌, ◌==◌,
  if◌then◌else◌,
}
use the_operating_system.Common.Outcomes.{Outcome, done}
use the_operating_system.Handshake.{
  State, Parent, parent_starts, parent_tests, parent_marks, parent_writes, parent_prints,
  parent_waits, initial, parent_at, parent_step, child_step, Reachable, start, by_parent, by_child,
}

-- Where the child is: before `execve`, in the program, or at `exit(1)` behind an `execve` that failed.
pub data Stage : Type 0 where
  launching executing failed : Stage

-- The loop of part_exec.c, by its next access to the segment.
abbrev pub exec_step : (fact_first : Bool) → State → Outcome State
exec_step f s = child_step f s

-- The states that the parent and the child of part2.c reach.
pub data Launched (fact_first : Bool) : Stage → State → Type 0 where
  forks : Launched fact_first launching initial
  parent_moves :
      {g : Stage} {s t : State}
      → Launched fact_first g s
      → parent_step s ≡ some t
      → Launched fact_first g t
  execve_runs : {s : State} → Launched fact_first launching s → Launched fact_first executing s
  execve_fails : {s : State} → Launched fact_first launching s → Launched fact_first failed s
  program_moves :
      {s t : State}
      → Launched fact_first executing s
      → exec_step fact_first s ≡ done t
      → Launched fact_first executing t

-- Where the parent gets to alone.
abbrev Alone : Parent → (flag : ℕ) → (written : List ℕ) → Type 0
Alone parent_starts flag written = written ≡ []
Alone (parent_tests i) flag written =
    ((i ≡ 1) × (flag ≡ 0) × (written ≡ [])) ⊎ ((i ≡ 2) × (flag ≡ 1) × (written ≡ 1 ∷ []))
Alone (parent_marks i) flag written = (i ≡ 1) × (written ≡ [])
Alone (parent_writes i) flag written = (i ≡ 1) × (flag ≡ 1) × (written ≡ [])
Alone (parent_prints i) flag written = (i ≡ 1) × (flag ≡ 1) × (written ≡ [])
Alone parent_waits flag written = ⊥

abbrev IsAlone : Option State → Type 0
IsAlone none = ⊥
IsAlone (some s) = Alone s.parent s.flag s.written

parent_at-Alone :
    (p : Parent) (s : State) → s.parent ≡ p → Alone p s.flag s.written → IsAlone (parent_at p s)
parent_at-Alone parent_starts s e h = inl (refl, refl, h)
parent_at-Alone (parent_tests i) s e (inl (one, flag, nothing)) = rw flag (one, nothing)
parent_at-Alone (parent_tests i) s e (inr (two, flag, once)) =
    let spins : (if s.flag == 0 then record s { parent = parent_marks i } else s) ≡ s =
      ap (λ b. if b == 0 then record s { parent = parent_marks i } else s) flag in
    subst (λ t. Alone t.parent t.flag t.written) (sym spins)
      (subst (λ p. Alone p s.flag s.written) (sym e) (inr (two, flag, once)))
parent_at-Alone (parent_marks i) s e (one, nothing) = (one, refl, nothing)
parent_at-Alone (parent_writes i) s e h = h
parent_at-Alone (parent_prints i) s e (one, flag, nothing) =
    rw (one, nothing) (inr (refl, flag, refl))
parent_at-Alone parent_waits s e h = h

parent_step-Alone : (s : State) → Alone s.parent s.flag s.written → IsAlone (parent_step s)
unfolding parent_step
parent_step-Alone s h = parent_at-Alone s.parent s refl h

-- The child has made no access.
abbrev NoProgram : Stage → State → Type 0
NoProgram executing s = Unit
NoProgram launching s = Alone s.parent s.flag s.written
NoProgram failed s = Alone s.parent s.flag s.written

NoProgram-step :
    (g : Stage) (s : State) {t : State} → parent_step s ≡ some t → NoProgram g s → NoProgram g t
NoProgram-step executing s e h = tt
NoProgram-step launching s e h = subst IsAlone e (parent_step-Alone s h)
NoProgram-step failed s e h = subst IsAlone e (parent_step-Alone s h)

Launched-Alone : {f : Bool} {g : Stage} {s : State} → Launched f g s → NoProgram g s
Launched-Alone forks = refl
Launched-Alone (parent_moves {g} {s} l e) = NoProgram-step g s e (Launched-Alone l)
Launched-Alone (execve_runs l) = tt
Launched-Alone (execve_fails l) = Launched-Alone l
Launched-Alone (program_moves l e) = tt

Alone-written :
    (p : Parent) (flag : ℕ) (written : List ℕ)
    → Alone p flag written
    → (written ≡ []) ⊎ (written ≡ 1 ∷ [])
Alone-written parent_starts flag written h = inl h
Alone-written (parent_tests i) flag written (inl h) = inl h.2
Alone-written (parent_tests i) flag written (inr h) = inr h.2
Alone-written (parent_marks i) flag written h = inl h.1
Alone-written (parent_writes i) flag written h = inl h.2
Alone-written (parent_prints i) flag written h = inl h.2
Alone-written parent_waits flag written h = absurd h

-- Where `execve` has failed, the parent always has another access to make, so that it never waits for
-- the child, and it has written nothing or 1 alone.
pub failed-spins :
    {f : Bool} {s : State}
    → Launched f failed s
    → (parent_step s ≢ none) × ((s.written ≡ []) ⊎ (s.written ≡ 1 ∷ []))
failed-spins {f} {s} l =
    let h = Launched-Alone l in
    (λ e. subst IsAlone e (parent_step-Alone s h), Alone-written s.parent s.flag s.written h)

-- The two programs reach no state of the segment, of the loops and of the output that the parent and
-- the child of part1.c do not reach.
pub Launched-Reachable : {f : Bool} {g : Stage} {s : State} → Launched f g s → Reachable f s
Launched-Reachable forks = start
Launched-Reachable (parent_moves l e) = by_parent (Launched-Reachable l) e
Launched-Reachable (execve_runs l) = Launched-Reachable l
Launched-Reachable (execve_fails l) = Launched-Reachable l
Launched-Reachable (program_moves l e) = by_child (Launched-Reachable l) e
