-- ===== src/Collatz/Witnesses.antt =====
-- The sequence of 6, by evaluation and by the theorems.
use the_operating_system.Common.{ℕ, ◌≡◌, refl, List, [], ◌∷◌, arith}
use the_operating_system.Common.Outcomes.{done, undefined, store}
use the_operating_system.Collatz.{next_term, collatz, print_terms, child, main}
use the_operating_system.Collatz.Laws.{Trajectory, stop, step, main-Trajectory}

abbrev terms : List ℕ
terms = 6 ∷ 3 ∷ 10 ∷ 5 ∷ 16 ∷ 8 ∷ 4 ∷ 2 ∷ 1 ∷ []

main_test : main 6 ≡ done terms
unfolding main child collatz store next_term print_terms
main_test = refl

main_zero_test : main 0 ≡ undefined
unfolding main child collatz store next_term print_terms
main_zero_test = refl

terms-Trajectory : Trajectory 6 terms
terms-Trajectory = step (omega arith) (
    step (omega arith) (
      step (omega arith) (
        step (omega arith) (
          step (omega arith)
            (step (omega arith) (step (omega arith) (step (omega arith) (stop refl))))))))

main-Trajectory_example : main 6 ≡ done terms
main-Trajectory_example = main-Trajectory 6 terms terms-Trajectory (omega arith)
