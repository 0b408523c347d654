-- ===== src/Strings/Witnesses.antt =====
-- `strrev` on the string "abcde".
use the_operating_system.Common.{ℕ, ◌≡◌, refl, some, List, [], ◌∷◌}
use the_operating_system.Strings.{swap_chars, strrev_loop, strrev}

abbrev letters : List ℕ
letters = b'a' ∷ b'b' ∷ b'c' ∷ b'd' ∷ b'e' ∷ []

strrev_test : strrev letters ≡ some (b'e' ∷ b'd' ∷ b'c' ∷ b'b' ∷ b'a' ∷ [])
unfolding strrev strrev_loop swap_chars
strrev_test = refl
