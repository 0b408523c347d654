-- ===== src/Students/Update.antt =====
-- `input_record` and `delete` of as1_os.c.
pub mod Delete
pub mod Input
pub mod Faults
pub mod DeleteFaults
use the_operating_system.Common.{
  ℕ, ◌+◌, ◌%◌, ◌-◌, ◌++◌, Option, none, some, [], ◌∷◌, List, leb, if◌then◌else◌, length,
}
use the_operating_system.Common.Bytes.{int_bytes, off_bytes, off_minus_one}
use the_operating_system.Posix.{
  datafd, indexfd, Cmd, pure, ◌>>=◌, or_exit, undefined_behaviour, seek_set, seek_end, write,
  read_checked, read_unchecked,
}
use the_operating_system.Students.Record.{Student, name_len, name_room}
use the_operating_system.Students.Search.{search}

-- `scanf` of the name into `fname`, which holds `name_room` characters, and the two writes.
write_name : Student → Cmd ℕ
write_name s =
    if leb (name_len s) name_room
    then (do
      _ ← or_exit (write datafd (int_bytes (name_len s)))
      _ ← or_exit (write datafd (s.fname ++ (0 ∷ [])))
      pure 0)
    else undefined_behaviour

-- `s` is what the user enters. The counts in both files go up first, then comes the slot in the
-- index file, then the record.
unfoldable pub input_record : Student → Cmd ℕ
unfolding write_name
input_record s = do
  _ ← or_exit (seek_set indexfd 0)
  n ← read_checked indexfd 4
  let n' = (n + 1) % 0x1_0000_0000
  _ ← or_exit (seek_set datafd 0)
  _ ← or_exit (write datafd (int_bytes n'))
  _ ← or_exit (seek_set indexfd 0)
  _ ← or_exit (write indexfd (int_bytes n'))
  pos ← or_exit (seek_end datafd)
  _ ← or_exit (seek_end indexfd)
  _ ← or_exit (write indexfd (off_bytes pos))
  _ ← or_exit (write datafd (int_bytes s.roll))
  write_name s

-- The slot at `off_of_off` gets -1, and the counts in both files go down.
clear_slot : ℕ → Cmd ℕ
clear_slot off_of_off = do
  _ ← or_exit (seek_set indexfd 0)
  n ← read_unchecked indexfd 4
  _ ← or_exit (seek_set indexfd off_of_off)
  _ ← or_exit (write indexfd (off_bytes off_minus_one))
  _ ← or_exit (seek_set indexfd 0)
  let n' = (n + 0xffff_ffff) % 0x1_0000_0000
  _ ← or_exit (write indexfd (int_bytes n'))
  _ ← or_exit (seek_set datafd 0)
  _ ← or_exit (write datafd (int_bytes n'))
  pure 0

-- 0 if it deleted a record, 1 if there is none with `rollno`.
unfoldable pub delete : ℕ → Cmd ℕ
unfolding clear_slot
delete rollno = do
  found ← search rollno
  elim found [ none ↦ pure 1 | some off_of_off ↦ clear_slot off_of_off ]
