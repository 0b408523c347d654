-- ===== src/Students/Print.antt =====
-- `print_student` and `print_all` of as1_os.c.
pub mod Laws
use the_operating_system.Common.{
  ℕ, zero, suc, ◌+◌, ◌-◌, ◌*◌, Bool, true, false, Option, none, some, List, ◌==◌, if◌then◌else◌,
  length,
}
use the_operating_system.Common.Bytes.{off_minus_one, positive}
use the_operating_system.Posix.{
  datafd, indexfd, Cmd, World, student_info, out_of_fuel, pure, ◌>>=◌, ◌>>◌, undefined_behaviour,
  print, or_exit, seek_set, read, read_checked,
}
use the_operating_system.Students.Record.{until_null}

-- The `printf`, if `%s` finds the end of the name.
abbrev print_info : ℕ → Option (List ℕ) → Cmd ℕ
print_info rollno none = undefined_behaviour
print_info rollno (some shown) = do print (student_info rollno shown); pure 0

-- The array `fname` of `fname_len` characters, and the `printf`.
print_name : (rollno fname_len : ℕ) → Cmd ℕ
print_name rollno fname_len =
    if positive fname_len
    then (do fname ← or_exit (read datafd fname_len); print_info rollno (until_null fname))
    else undefined_behaviour

-- 0 if it printed the record, 1 if the slot at `off_of_off` is that of a deleted record.
unfoldable pub print_student : ℕ → Cmd ℕ
unfolding print_name
print_student off_of_off = do
  _ ← or_exit (seek_set indexfd off_of_off)
  idx ← read_checked indexfd 8
  if idx == off_minus_one then pure 1 else (do
    _ ← or_exit (seek_set datafd idx)
    rollno ← read_checked datafd 4
    fname_len ← read_checked datafd 4
    print_name rollno fname_len)

-- `while (n > 0)`
unfoldable pub print_loop : ℕ → (n off_of_off : ℕ) → Cmd (Unit {0})
print_loop zero n off_of_off = λ _. out_of_fuel
print_loop (suc k) n off_of_off =
    if positive n
    then (do
      flag ← print_student off_of_off
      print_loop k (if flag == 0 then n - 1 else n) (off_of_off + 8))
    else pure tt

-- A round reads eight bytes of the index file behind those of the last round, or leaves the
-- program, so the length of the file is enough fuel.
unfoldable pub print_all : Cmd ℕ
print_all = do
  _ ← or_exit (seek_set indexfd 0)
  n ← read_checked indexfd 4
  λ w. (print_loop (suc (length w.index_file.bytes)) n 4 >> pure 0) w
