-- ===== src/Streams/Reads.antt =====
-- assignments/as2/as2_4.c: both processes print the characters of the stream, each behind their mark,
-- `A` for the child and `B` for the parent, until the stream ends. An empty buffer is filled with at
-- least one byte of the file, if any is left, and with at most `capacity` bytes. `fputs` on the
-- stream, which is open for reading, writes nothing.
use the_operating_system.Common.{
  ℕ, suc, ◌<◌, ◌≡◌, Option, none, some, List, [], ◌∷◌, ◌++◌, take, drop,
}

-- A process in its loop, with its buffer and what it has printed since the heading, or at its end.
pub data Reader : Type 0 where
  looping : (buffer out : List ℕ) → Reader
  exited : (out : List ℕ) → Reader

pub record State : Type 0 where
  pub file : List ℕ
  pub child : Reader
  pub parent : Reader

-- `fgetc`, where a `read` gives `suc more` bytes or, where the file has less left, those: the
-- character, or none at the end of the file, the rest of the file and the buffer afterwards.
unfoldable pub fgetc : (more : ℕ) (file buffer : List ℕ) → Option ℕ × List ℕ × List ℕ
fgetc more file (ch ∷ buffer) = (some ch, file, buffer)
fgetc more (ch ∷ file) [] = (some ch, drop more file, take more file)
fgetc more [] [] = (none, [], [])

-- The rest of a round, once `fgetc` has returned: at the end of the file, the new line and the exit.
unfoldable pub put_char : (mark : ℕ) → List ℕ → Option ℕ × List ℕ × List ℕ → List ℕ × Reader
put_char mark out (some ch, file, buffer) = (file, looping buffer (out ++ (mark ∷ ch ∷ [])))
put_char mark out (none, file, buffer) = (file, exited (out ++ (mark ∷ 10 ∷ [])))

-- A round of a process: the rest of the file and the process afterwards.
unfoldable pub next_round : (mark more : ℕ) → List ℕ → Reader → Option (List ℕ × Reader)
unfolding fgetc put_char
next_round mark more file (looping buffer out) = some (put_char mark out (fgetc more file buffer))
next_round mark more file (exited out) = none

-- `main` once it has the child.
abbrev pub forked : List ℕ → State
forked file = record { file = file; child = looping [] []; parent = looping [] [] }

-- The states after a number of rounds of the two processes.
pub data Reached (capacity : ℕ) (file : List ℕ) : ℕ → State → Type 0 where
  fork : Reached capacity file 0 (forked file)
  by_child :
      {n : ℕ} {s : State} {rest : List ℕ} {r : Reader} (more : ℕ)
      → Reached capacity file n s
      → more < capacity
      → next_round 65 more s.file s.child ≡ some (rest, r)
      → Reached capacity file (suc n) (record s { file = rest; child = r })
  by_parent :
      {n : ℕ} {s : State} {rest : List ℕ} {r : Reader} (more : ℕ)
      → Reached capacity file n s
      → more < capacity
      → next_round 66 more s.file s.parent ≡ some (rest, r)
      → Reached capacity file (suc n) (record s { file = rest; parent = r })
