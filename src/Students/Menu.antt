-- ===== src/Students/Menu.antt =====
-- `main` of as1_os.c: one case for each option of its menu. A `Choice` is what the user enters.
-- `close` does nothing that the model shows.
pub mod Registry
pub mod Database
pub mod Refine
pub mod Modify
pub mod Session
pub mod Sorting
pub mod Trip
use the_operating_system.Common.{
  ℕ, Bool, true, false, Option, none, some, List, [], ◌∷◌, ◌==◌, if◌then◌else◌,
}
use the_operating_system.Common.Bytes.{int_bytes}
use the_operating_system.Posix.{
  Fd, datafd, indexfd, Cmd, pure, exit, ◌>>=◌, ◌>>◌, or_exit, print, open_file, open_trunc, write,
  student_found, student_not_found, no_such_student, record_deleted, record_not_deleted,
  record_input, record_modified, compaction_successful, sort_done, invalid_option,
}
use the_operating_system.Students.Record.{Student}
use the_operating_system.Students.Print.{print_student, print_all}
use the_operating_system.Students.Search.{search}
use the_operating_system.Students.Update.{input_record, delete}
use the_operating_system.Students.Compaction.{Behind, compaction}
use the_operating_system.Students.Sort.{sort}

pub data Choice : Type 0 where
  initialize compact sort_by_roll show_all invalid : Choice
  add : Student → Choice
  remove find show : ℕ → Choice
  modify : ℕ → Student → Choice

-- `open` of both files, the data file first; `append` is the flag of the data file.
unfoldable pub open_both : Bool → Cmd (Unit {0})
open_both append = do _ ← or_exit (open_file datafd append); or_exit (open_file indexfd false)

create : Fd → Cmd (Unit {0})
create fd = open_trunc fd true >>= λ r. elim r [ none ↦ exit 2 | some _ ↦ pure tt ]

unfoldable pub run_initialize : Cmd (Unit {0})
unfolding create
run_initialize = do
  create datafd
  create indexfd
  _ ← or_exit (write datafd (int_bytes 0))
  _ ← or_exit (write indexfd (int_bytes 0))
  pure tt

unfoldable pub run_add : Student → Cmd (Unit {0})
run_add s = do open_both false; _ ← input_record s; print record_input

unfoldable pub run_remove : ℕ → Cmd (Unit {0})
run_remove rollno = do
  open_both false
  flag ← delete rollno
  print (if flag == 0 then record_deleted else record_not_deleted)

unfoldable pub run_find : ℕ → Cmd (Unit {0})
run_find rollno = do
  open_both false
  found ← search rollno
  elim found [
    | none ↦ print student_not_found
    | some off ↦ do print (student_found off); _ ← print_student off; pure tt
  ]

-- The data file is open for appending, so the two counts that `delete` and `input_record` write
-- go to its end. Without such a student it writes to standard error only.
unfoldable pub run_modify : ℕ → Student → Cmd (Unit {0})
run_modify rollno s = do
  open_both true
  success ← delete rollno
  if success == 0 then (do _ ← input_record s; print record_modified) else pure tt

unfoldable pub run_compact : Behind → Cmd (Unit {0})
run_compact behind = do _ ← compaction behind; print compaction_successful

unfoldable pub run_show : ℕ → Cmd (Unit {0})
run_show rollno = do
  open_both false
  found ← search rollno
  elim found [ none ↦ print no_such_student | some off ↦ do _ ← print_student off; pure tt ]

unfoldable pub run_sort : Behind → Cmd (Unit {0})
run_sort behind = do _ ← compaction behind; open_both false; sort; print sort_done

unfoldable pub run_show_all : Cmd (Unit {0})
run_show_all = do open_both false; _ ← print_all; pure tt

-- `switch (option)`
unfoldable pub run_choice : Behind → Choice → Cmd (Unit {0})
run_choice behind initialize = run_initialize
run_choice behind (add s) = run_add s
run_choice behind (remove rollno) = run_remove rollno
run_choice behind (find rollno) = run_find rollno
run_choice behind (modify rollno s) = run_modify rollno s
run_choice behind compact = run_compact behind
run_choice behind (show rollno) = run_show rollno
run_choice behind sort_by_roll = run_sort behind
run_choice behind show_all = run_show_all
run_choice behind invalid = print invalid_option

-- `while (1)`, for the options that the user enters.
unfoldable pub main_loop : Behind → List Choice → Cmd (Unit {0})
main_loop behind [] = pure tt
main_loop behind (c ∷ cs) = run_choice behind c >> main_loop behind cs
