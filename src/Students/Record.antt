-- ===== src/Students/Record.antt =====
-- The structure of a record and the sizes and constants of as1_os.c.
use the_operating_system.Common.{ℕ, zero, suc, ◌+◌, Option, none, some, List, [], ◌∷◌, ◌++◌, length}
use the_operating_system.Common.Bytes.{int_bytes}

-- `struct student`, with the characters of `fname` up to its null character.
pub record Student : Type 0 where
  pub roll : ℕ
  pub fname : List ℕ

-- The initial minimum of `index_of_min`.
abbrev pub min_roll : ℕ
min_roll = 10000

-- The bytes allotted to a first name, its null character included.
abbrev pub name_room : ℕ
name_room = 50

-- `fname_len`, which counts the null character.
abbrev pub name_len : Student → ℕ
name_len s = length s.fname + 1

-- A record as it stands in the data file: rollno, fname length, fname.
abbrev pub record_bytes : Student → List ℕ
record_bytes s = int_bytes s.roll ++ (int_bytes (name_len s) ++ (s.fname ++ (0 ∷ [])))

-- What `%s` prints of an array: the characters before the first null, if there is one.
unfoldable pub until_null : List ℕ → Option (List ℕ)
until_null [] = none
until_null (zero ∷ bs) = some []
until_null (suc b ∷ bs) = elim (until_null bs) [ none ↦ none | some r ↦ some (suc b ∷ r) ]
