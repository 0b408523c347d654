-- ===== src/Students/Tests.antt =====
-- Runs of whole sessions on concrete input.
use the_operating_system.Common.{ℕ, ◌≡◌, refl, false, Option, none, some, List, [], ◌∷◌}
use the_operating_system.Common.Bytes.{signed_key, signed_ltb}
use the_operating_system.Posix.{
  File, Message, World, Run, ok, exited, undefined, student_info, student_found, record_input,
  record_deleted, record_modified, compaction_successful, sort_done, open_file, open_trunc,
  seek_set, seek_cur, seek_end, read, write, read_checked, read_unchecked,
}
use the_operating_system.Students.Record.{Student, until_null}
use the_operating_system.Students.Print.{print_student, print_loop, print_all}
use the_operating_system.Students.Search.{search_loop, search}
use the_operating_system.Students.Update.{input_record, delete}
use the_operating_system.Students.Compaction.{spare, over_n, read_intobuffer, gather, compaction}
use the_operating_system.Students.Sort.{
  min_loop, index_of_min, swap_slots, sort_round, sort_loop, sort,
}
use the_operating_system.Students.Menu.{
  initialize, compact, sort_by_roll, show_all, add, remove, find, modify, main_loop, run_choice,
  run_initialize, run_add, run_remove, run_find, run_modify, run_compact, run_sort, run_show_all,
  open_both,
}

abbrev student : ℕ → List ℕ → Student
student r n = record { roll = r; fname = n }

abbrev no_file : File
no_file = record { present = false; bytes = []; pos = 0; append = false }

abbrev fresh : World
fresh = record { data_file = no_file; index_file = no_file; faults = []; output = [] }

abbrev ann : Student
ann = student 7 (b'a' ∷ b'n' ∷ b'n' ∷ [])

abbrev bob : Student
bob = student 3 (b'b' ∷ b'o' ∷ b'b' ∷ [])

abbrev cy : Student
cy = student 5 (b'c' ∷ b'y' ∷ [])

abbrev output_of : {A : Type 0} → Run A → Option (List Message)
output_of (ok a w) = some w.output
output_of (exited c w) = some w.output
output_of undefined = none
output_of _ = none

session_test :
    output_of (
      main_loop spare
        (initialize
          ∷ add ann
          ∷ add bob
          ∷ add cy
          ∷ remove 3
          ∷ show_all
          ∷ sort_by_roll
          ∷ show_all
          ∷ modify 5 bob
          ∷ find 3
          ∷ compact
          ∷ show_all
          ∷ [])
        fresh)
    ≡ some (
        record_input
        ∷ record_input
        ∷ record_input
        ∷ record_deleted
        ∷ student_info 7 ann.fname
        ∷ student_info 5 cy.fname
        ∷ sort_done
        ∷ student_info 5 cy.fname
        ∷ student_info 7 ann.fname
        ∷ record_modified
        ∷ student_found 20
        ∷ student_info 3 bob.fname
        ∷ compaction_successful
        ∷ student_info 7 ann.fname
        ∷ student_info 3 bob.fname
        ∷ [])
unfolding main_loop run_choice run_initialize run_add run_remove run_find run_modify run_compact
    run_sort run_show_all open_both open_file open_trunc seek_set seek_cur seek_end read write
    read_checked read_unchecked input_record delete search search_loop print_student print_all
    print_loop until_null compaction gather read_intobuffer index_of_min min_loop swap_slots
    sort_round sort_loop sort signed_ltb signed_key
session_test = refl

overflow_test :
    output_of (main_loop spare (initialize ∷ add ann ∷ add bob ∷ remove 3 ∷ compact ∷ []) fresh)
    ≡ none
unfolding main_loop run_choice run_initialize run_add run_remove run_compact run_sort run_show_all
    open_both open_file open_trunc seek_set seek_cur seek_end read write read_checked read_unchecked
    input_record delete search search_loop print_student print_all print_loop until_null compaction
    gather read_intobuffer index_of_min min_loop swap_slots sort_round sort_loop sort signed_ltb
    signed_key
overflow_test = refl

-- Where `n` stands behind `idx`, `compaction` loses the student.
loss_test :
    output_of (main_loop over_n (initialize ∷ add ann ∷ compact ∷ show_all ∷ []) fresh)
    ≡ some (record_input ∷ compaction_successful ∷ [])
unfolding main_loop run_choice run_initialize run_add run_remove run_compact run_sort run_show_all
    open_both open_file open_trunc seek_set seek_cur seek_end read write read_checked read_unchecked
    input_record delete search search_loop print_student print_all print_loop until_null compaction
    gather read_intobuffer index_of_min min_loop swap_slots sort_round sort_loop sort signed_ltb
    signed_key
loss_test = refl
