-- ===== src/Students/Search.antt =====
-- `search` of as1_os.c.
pub mod Find
pub mod Found
pub mod Faults
use the_operating_system.Common.{
  ℕ, zero, suc, ◌-◌, Bool, Option, none, some, ◌==◌, if◌then◌else◌, length,
}
use the_operating_system.Common.Bytes.{off_minus_one, positive}
use the_operating_system.Posix.{
  datafd, indexfd, Cmd, out_of_fuel, pure, ◌>>=◌, or_exit, seek_set, seek_cur, read_checked,
  read_unchecked,
}

-- `while (cnt > 0)`; `none` is the result -1. At the end of the index file `index` stays unset,
-- which `read_unchecked` reports.
unfoldable pub search_loop : ℕ → (cnt rollno : ℕ) → Cmd (Option ℕ)
search_loop zero cnt rollno = λ _. out_of_fuel
search_loop (suc k) cnt rollno =
    if positive cnt
    then (do
      off_of_off ← or_exit (seek_cur indexfd)
      index ← read_unchecked indexfd 8
      if index == off_minus_one then search_loop k cnt rollno else (do
        _ ← or_exit (seek_set datafd index)
        rno ← read_unchecked datafd 4
        if rno == rollno then pure (some off_of_off) else search_loop k (cnt - 1) rollno))
    else pure none

-- The offset in the index file of the slot of the record with `rollno`.
unfoldable pub search : ℕ → Cmd (Option ℕ)
search rollno = do
  _ ← or_exit (seek_set indexfd 0)
  cnt ← read_checked indexfd 4
  λ w. search_loop (suc (length w.index_file.bytes)) cnt rollno w
