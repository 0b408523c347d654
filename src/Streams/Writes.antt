-- ===== src/Streams/Writes.antt =====
-- assignments/as2/as2_5.c: the child puts `A`s into the stream, the parent `B`s. The number of rounds
-- of both loops, 1000 in the code, is `rounds`. A full buffer is written before the next character is
-- put into it, and what is left of it is written at the end of the process.
use the_operating_system.Common.{
  ℕ, zero, suc, ◌≡◌, Option, none, some, List, [], ◌∷◌, ◌++◌, length, ltb, if◌then◌else◌,
}

-- A process in its loop, with the rounds that it has left and its buffer, or at its end.
pub data Writer : Type 0 where
  looping : (left : ℕ) (buffer : List ℕ) → Writer
  exited : Writer

pub record State : Type 0 where
  pub file : List ℕ
  pub child : Writer
  pub parent : Writer

-- `putc` of a character: the buffer afterwards, and what goes to the file.
unfoldable pub putc : (capacity mark : ℕ) → List ℕ → List ℕ × List ℕ
putc capacity mark buffer =
    if ltb (length buffer) capacity then (buffer ++ (mark ∷ []), []) else (mark ∷ [], buffer)

-- A round of a process, or its exit: the process afterwards, and what goes to the file.
unfoldable pub next_round : (capacity mark : ℕ) → Writer → Option (Writer × List ℕ)
unfolding putc
next_round capacity mark (looping (suc left) buffer) =
    let (buffer', out) = putc capacity mark buffer in some (looping left buffer', out)
next_round capacity mark (looping zero buffer) = some (exited, buffer)
next_round capacity mark exited = none

-- `main` once it has the child.
abbrev pub forked : (rounds : ℕ) → State
forked rounds = record { file = []; child = looping rounds []; parent = looping rounds [] }

-- The states after a number of moves of the two processes.
pub data Reached (rounds capacity : ℕ) : ℕ → State → Type 0 where
  fork : Reached rounds capacity 0 (forked rounds)
  by_child :
      {n : ℕ} {s : State} {w : Writer} {out : List ℕ}
      → Reached rounds capacity n s
      → next_round capacity 65 s.child ≡ some (w, out)
      → Reached rounds capacity (suc n) (record s { file = s.file ++ out; child = w })
  by_parent :
      {n : ℕ} {s : State} {w : Writer} {out : List ℕ}
      → Reached rounds capacity n s
      → next_round capacity 66 s.parent ≡ some (w, out)
      → Reached rounds capacity (suc n) (record s { file = s.file ++ out; parent = w })
