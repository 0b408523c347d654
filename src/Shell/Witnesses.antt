-- ===== src/Shell/Witnesses.antt =====
-- The line `ls -l`, by evaluation and by the theorems, and inputs that leave the arrays.
use the_operating_system.Common.{
  ℕ, ◌≡◌, ◌≢◌, refl, Bool, true, false, List, [], ◌∷◌, ◌++◌, arith, replicate,
}
use the_operating_system.Common.Outcomes.{done, exited, undefined}
use the_operating_system.Shell.{
  newline, getchar, read_word, c_string, add_word, parse, read_command, child,
}
use the_operating_system.Shell.Words.{IsPlain, Words, word_then, last}
use the_operating_system.Shell.Lines.{child-Words}
use the_operating_system.Shell.Ended.{Unfinished, Stops, read_command-Stops}

abbrev line : List ℕ
line = 108 ∷ 115 ∷ 32 ∷ 45 ∷ 108 ∷ []

abbrev command : List (List ℕ)
command = (108 ∷ 115 ∷ []) ∷ (45 ∷ 108 ∷ []) ∷ []

abbrev succeed : ℕ → Bool
succeed i = false

abbrev none_executed : List (List ℕ) → Bool
none_executed argv = true

child_test : child succeed (λ argv. false) (line ++ (newline ∷ [])) ≡ done command
unfolding child read_command parse add_word c_string read_word getchar
child_test = refl

unfinished_test : read_command succeed line ≡ undefined
unfolding read_command parse add_word c_string read_word getchar
unfinished_test = refl

long_word_test : read_command succeed (replicate 100 108 ++ (newline ∷ [])) ≡ undefined
unfolding read_command parse add_word c_string read_word getchar
long_word_test = refl

plain : (c : ℕ) → c ≢ 32 → c ≢ 10 → c ≢ 0 → IsPlain c
plain c s n z = record { not_space = s; not_newline = n; not_null = z }

l-IsPlain : IsPlain 108
l-IsPlain = plain 108 (omega arith) (omega arith) (omega arith)

line-Words : Words line command
line-Words =
    word_then l-IsPlain (plain 115 (omega arith) (omega arith) (omega arith), tt)
      (last (plain 45 (omega arith) (omega arith) (omega arith)) (l-IsPlain, tt))

child-Words_example : child succeed none_executed (line ++ (newline ∷ [])) ≡ exited 1
child-Words_example = child-Words succeed (λ i. refl) none_executed line [] command line-Words

read_command-Stops_example : Stops (λ _. ¬ Unfinished line) (read_command succeed line)
read_command-Stops_example = read_command-Stops succeed line
