-- ===== src/Reversal/Witnesses.antt =====
-- The arguments "ab" and "c".
use the_operating_system.Common.{ℕ, ◌≡◌, refl, Bool, false, List, [], ◌∷◌}
use the_operating_system.Common.Outcomes.{done}
use the_operating_system.Reversal.{
  Line, child, original, reversed, enter_name, reverse_all, exec_all,
}
use the_operating_system.Reversal.Printed.{reverse_all-lines, exec_all-lines}

abbrev ab : List ℕ
ab = b'a' ∷ b'b' ∷ []

abbrev c : List ℕ
c = b'c' ∷ []

abbrev arguments : List (List ℕ)
arguments = ab ∷ c ∷ []

abbrev first : List Line
first = child 1 ∷ original ab ∷ reversed (b'b' ∷ b'a' ∷ []) ∷ []

abbrev never : ℕ → Bool
never i = false

-- The lines of the first child come twice.
reverse_all-lines_example :
    reverse_all false never arguments
    ≡ done (
        child 1
        ∷ original ab
        ∷ reversed (b'b' ∷ b'a' ∷ [])
        ∷ child 2
        ∷ original c
        ∷ reversed c
        ∷ first)
reverse_all-lines_example = reverse_all-lines never (λ i. refl) false arguments

exec_all-lines_example :
    exec_all false never never arguments
    ≡ done (original ab ∷ reversed (b'b' ∷ b'a' ∷ []) ∷ original c ∷ reversed c ∷ enter_name ∷ [])
exec_all-lines_example = exec_all-lines never never (λ i. refl) (λ i. refl) false arguments
