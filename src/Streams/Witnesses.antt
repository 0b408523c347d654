-- ===== src/Streams/Witnesses.antt =====
-- Two rounds over large buffers, and a file of three characters.
use the_operating_system.Common.{
  ℕ, ◌+◌, ◌*◌, ◌≡◌, refl, ◌⊎◌, List, [], ◌∷◌, ◌++◌, length, replicate, arith,
}
use the_operating_system.Streams.Shuffle.{Shuffle}
use the_operating_system.Streams.Apart.{stuck-apart}
use the_operating_system.Streams.Rounds.{printed, printed_by}
use the_operating_system.Streams.Shared.{stuck-printed}
use the_operating_system.Streams.Writes
use the_operating_system.Streams.Reads

-- The parent ends first.
abbrev parent_first : Writes.State
parent_first = record {
  file = 66 ∷ 66 ∷ 65 ∷ 65 ∷ [];
  child = Writes.exited;
  parent = Writes.exited;
}

parent_first_run : Writes.Reached 2 4096 6 parent_first
unfolding Writes.next_round Writes.putc
parent_first_run =
    Writes.by_child
      (Writes.by_parent
        (Writes.by_parent
          (Writes.by_child (Writes.by_parent (Writes.by_child Writes.fork refl) refl) refl) refl)
        refl)
      refl

stuck-apart_example :
    (6 ≡ 2 * 2 + 2)
    × ((parent_first.file ≡ replicate 2 65 ++ replicate 2 66)
        ⊎ (parent_first.file ≡ replicate 2 66 ++ replicate 2 65))
unfolding Writes.next_round
stuck-apart_example = stuck-apart (omega arith) parent_first_run refl refl

-- The child gets the first two characters and prints them around the parent's.
abbrev read_all : Reads.State
read_all = record {
  file = [];
  child = Reads.exited (65 ∷ 97 ∷ 65 ∷ 98 ∷ 65 ∷ 10 ∷ []);
  parent = Reads.exited (66 ∷ 99 ∷ 66 ∷ 10 ∷ []);
}

read_run : Reads.Reached 2 (97 ∷ 98 ∷ 99 ∷ []) 5 read_all
unfolding Reads.next_round Reads.fgetc Reads.put_char
read_run =
    Reads.by_child 0
      (Reads.by_parent 0
        (Reads.by_child 0
          (Reads.by_parent 1 (Reads.by_child 1 Reads.fork (omega arith) refl) (omega arith) refl)
          (omega arith) refl)
        (omega arith) refl)
      (omega arith) refl

stuck-printed_example :
    (5 ≡ length {A = ℕ} (97 ∷ 98 ∷ 99 ∷ []) + 2)
    × (xs : List ℕ) × (ys : List ℕ) × Shuffle xs ys (97 ∷ 98 ∷ 99 ∷ [])
    × (printed_by read_all.child ≡ printed 65 xs)
    × (printed_by read_all.parent ≡ printed 66 ys)
unfolding Reads.next_round
stuck-printed_example = stuck-printed read_run refl refl
