-- ===== src/Handshake/Witnesses.antt =====
-- Runs of the parent and the child.
use the_operating_system.Common.{◌+◌, ◌⊎◌, ◌≡◌, ◌≢◌, refl, false, none, [], ◌∷◌}
use the_operating_system.Common.Outcomes.{done, undefined}
use the_operating_system.Handshake.{
  parent_tests, parent_writes, child_tests, fact_loop, fact, State, parent_step, child_step,
  Reachable, start, by_parent, by_child,
}
use the_operating_system.Handshake.Rounds.{IsLine, From}
use the_operating_system.Handshake.Finishes.{Finishes, Reachable-Finishes}
use the_operating_system.Handshake.Programs.{
  failed, Launched, forks, parent_moves, execve_fails, failed-spins,
}
use the_operating_system.Handshake.Reached.{
  Reachable-lines, Polite, polite_start, polite_parent, polite_child, factorials, Polite-lines,
}

fact_test : fact 12 ≡ done 479001600
unfolding fact fact_loop
fact_test = refl

fact_overflow_test : fact 13 ≡ undefined
unfolding fact fact_loop
fact_overflow_test = refl

-- The parent has set the flag but not yet written the number, which the child reads.
abbrev stale : State
stale = record {
  flag = 0;
  n = 0;
  parent = parent_writes 1;
  child = child_tests 2;
  written = [];
  printed = record { n = 0; factorial = 1 } ∷ [];
}

stale_reached : Reachable false stale
unfolding parent_step child_step fact fact_loop
stale_reached =
    by_child
      (by_child
        (by_child
          (by_child (by_child (by_parent (by_parent (by_parent start refl) refl) refl) refl) refl)
          refl)
        refl)
      refl

Reachable-lines_example : From (IsLine 1) 1 stale.printed
Reachable-lines_example = Reachable-lines stale_reached

-- The first round of both, one after the other.
abbrev whole : State
whole = record {
  flag = 0;
  n = 1;
  parent = parent_tests 2;
  child = child_tests 2;
  written = 1 ∷ [];
  printed = record { n = 1; factorial = 1 } ∷ [];
}

whole_reached : Polite false whole
unfolding parent_step child_step fact fact_loop
whole_reached =
    polite_child
      (polite_child
        (polite_child
          (polite_child
            (polite_child
              (polite_parent
                (polite_parent
                  (polite_parent (polite_parent (polite_parent polite_start tt refl) tt refl) tt
                    refl)
                  tt refl)
                tt refl)
              tt refl)
            tt refl)
          tt refl)
        tt refl)
      tt refl

Polite-lines_example : whole.printed ≡ factorials 1 1
Polite-lines_example = Polite-lines whole_reached

-- The parent and the child have each made some accesses.
Reachable-Finishes_example : Finishes false (38 + 45) stale
Reachable-Finishes_example = Reachable-Finishes stale_reached

-- The parent, alone, at its test for the number 2.
abbrev alone : State
alone = record {
  flag = 1;
  n = 1;
  parent = parent_tests 2;
  child = child_tests 1;
  written = 1 ∷ [];
  printed = [];
}

alone_launched : Launched false failed alone
unfolding parent_step
alone_launched =
    parent_moves
      (parent_moves
        (execve_fails
          (parent_moves (parent_moves (parent_moves (parent_moves forks refl) refl) refl) refl))
        refl)
      refl

failed-spins_example :
    (parent_step alone ≢ none) × ((alone.written ≡ []) ⊎ (alone.written ≡ 1 ∷ []))
failed-spins_example = failed-spins alone_launched
