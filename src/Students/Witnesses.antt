-- ===== src/Students/Witnesses.antt =====
-- The theorems on the students and the files of `Examples`.
use the_operating_system.Common.{
  replicate, ◌++◌, ◌≡◌, refl, ◌⊎◌, true, false, some, [], ◌∷◌, arith, inl,
}
use the_operating_system.Common.Bytes.{signed_key}
use the_operating_system.Posix.{
  open_file, open_trunc, seek_set, seek_end, read, write, read_unchecked, undefined, exited,
  sort_done, record_deleted, record_modified, record_input,
}
use the_operating_system.Posix.Calls.{files}
use the_operating_system.Students.Layout.{index_bytes}
use the_operating_system.Students.Compaction.Packed.{kept, kept_data, packed}
use the_operating_system.Students.Compaction.{spare, over_n, read_intobuffer, gather, compaction}
use the_operating_system.Students.Compaction.Faults.{Compacted, LeftBy, compaction-leaves}
use the_operating_system.Students.Compaction.Laws.{compaction-packed, compaction-overflow}
use the_operating_system.Students.Print.{print_all}
use the_operating_system.Students.Print.Laws.{line, lines, print_all-lines}
use the_operating_system.Students.Search.{search}
use the_operating_system.Students.Search.Find.{Reads, find_slot, search-find}
use the_operating_system.Students.Search.Found.{Absent, lookup_roll}
use the_operating_system.Students.Update.{delete, input_record}
use the_operating_system.Students.Update.Delete.{Deleted, delete-cases}
use the_operating_system.Students.Faults.{world, Ends}
use the_operating_system.Students.Update.Input.{Added, input_record-adds}
use the_operating_system.Students.Sort.{sort}
use the_operating_system.Students.Sort.Laws.{Ordered, sort-Ordered}
use the_operating_system.Students.Sort.High.{sort-keeps}
use the_operating_system.Students.Menu.{add, show, remove, run_sort, main_loop}
use the_operating_system.Students.Search.Found.{remove_roll}
use the_operating_system.Students.Menu.Database.{Served, unchanged}
use the_operating_system.Students.Menu.Trip.{add-show-remove}
use the_operating_system.Students.Menu.Session.{main_loop-Served}
use the_operating_system.Students.Menu.Sorting.{Rearranged, run_sort-Rearranged}
use the_operating_system.Students.Examples.{
  ann, bob, cy, three, ann-IsStudent, bob-IsStudent, three_data, three_slots, three_index,
  opened_files, three-Layout, three-Database, gap_slots, two_data, gap-Layout, gap-Database,
  end-Layout, end_world, visit, es, far, farther, far_data, far_index, far-Layout,
}

search-find_example : Reads three_data three_index false [] (some 12) (search 3 opened_files)
unfolding find_slot
search-find_example = search-find 3 0 0 false [] three-Layout.indexed

print_all-lines_example :
    Reads three_data three_index false (lines three) 0 (print_all opened_files)
print_all-lines_example = print_all-lines 0 0 false [] three-Layout.indexed

main_loop-Served_example :
    Served 0
      (cy ∷ ann ∷ bob ∷ [])
      (record_deleted ∷ record_modified ∷ record_input ∷ lines (cy ∷ []))
      (main_loop over_n visit opened_files)
unfolding remove_roll lookup_roll
main_loop-Served_example =
    main_loop-Served over_n visit (tt, (ann-IsStudent, (bob-IsStudent, (tt, tt)))) three-Database

run_sort-Rearranged_example :
    Rearranged 4
      (bob ∷ cy ∷ [])
      (sort_done ∷ [])
      (run_sort spare (files two_data 0 false (index_bytes gap_slots) 0 []))
unfolding signed_key
run_sort-Rearranged_example =
    run_sort-Rearranged gap-Database spare (omega arith, tt) (omega arith, (omega arith, tt))

-- The variable `n` is set to 0 where it stands behind `idx`: both students are lost.
compaction-packed_example :
    Reads
      (kept_data over_n (bob ∷ cy ∷ []))
      (index_bytes (packed 4 (kept over_n (bob ∷ cy ∷ []))))
      false
      []
      0
      (compaction over_n (files two_data 0 false (index_bytes gap_slots) 0 []))
compaction-packed_example =
    compaction-packed over_n 0 0 false [] gap-Layout.indexed (omega arith, tt)

compaction-overflow_example : compaction over_n end_world ≡ undefined
compaction-overflow_example = compaction-overflow over_n 0 0 false [] end-Layout.indexed (inl refl)

delete-cases_example :
    (Absent 3 three × Reads three_data three_index false [] 1 (delete 3 opened_files))
    ⊎ Deleted three_data three_slots 3 false [] (delete 3 opened_files)
delete-cases_example = delete-cases 3 0 0 false [] three-Layout.indexed (omega arith)

input_record-adds_example :
    Added three_data three_slots ann false [] (input_record ann opened_files)
input_record-adds_example =
    input_record-adds ann 0 0 false [] three-Layout.indexed ann-IsStudent (omega arith)
      (omega arith)

sort-Ordered_example : Ordered three_data es false [] (sort opened_files)
unfolding signed_key
sort-Ordered_example =
    sort-Ordered es 0 false [] three-Layout.indexed (omega arith, (omega arith, (omega arith, tt)))

-- The student with the roll number 30000 stays before that with 20000.
sort-keeps_example :
    Reads far_data far_index false [] tt (sort (files far_data 0 false far_index 0 []))
unfolding signed_key
sort-keeps_example =
    sort-keeps ((4, farther) ∷ (14, far) ∷ []) 0 false [] far-Layout.indexed
      (omega arith, (omega arith, tt))

add-show-remove_example :
    Served 0 three
      (record_input ∷ line far ∷ record_deleted ∷ [])
      (main_loop over_n (add far ∷ show 20000 ∷ remove 20000 ∷ []) opened_files)
add-show-remove_example =
    add-show-remove over_n far
      (record { roll_fits = omega arith; name_fits = omega arith; name_text = (omega arith, tt) })
      (
        λ e. absurd (omega (arith, e)),
        (λ e. absurd (omega (arith, e)), (λ e. absurd (omega (arith, e)), tt)),
      )
      (unchanged three-Database 0 0 false [])

compaction_fault_test :
    compaction spare
      (world two_data 0 (index_bytes gap_slots) 0 (replicate 18 false ++ (true ∷ [])) [])
    ≡ exited 1 (world two_data 39 [] 0 [] [])
unfolding compaction gather read_intobuffer open_file open_trunc seek_set seek_end read write
    read_unchecked
compaction_fault_test = refl

-- The call that fails is the second `open` for writing, behind the truncation of the index file.
compaction-leaves_example :
    Ends
      (Compacted spare (bob ∷ cy ∷ []))
      (LeftBy spare two_data (index_bytes gap_slots) (bob ∷ cy ∷ []))
      (compaction spare
        (world two_data 0 (index_bytes gap_slots) 0 (replicate 18 false ++ (true ∷ [])) []))
compaction-leaves_example =
    compaction-leaves spare 0 0 (replicate 18 false ++ (true ∷ [])) [] gap-Layout.indexed
      (omega arith, tt)
