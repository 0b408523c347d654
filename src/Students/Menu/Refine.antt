-- ===== src/Students/Menu/Refine.antt =====
-- The menu over the two files against the list of students of `Registry`.
use the_operating_system.Common.{
  ℕ, suc, ◌+◌, ap, sym, ◌∙◌, ◌⊎◌, inl, inr, false, List, [], ◌∷◌, ◌++◌, arith, length,
}
use the_operating_system.Common.Bytes.{int_bytes}
use the_operating_system.Posix.{
  Message, World, record_input, record_deleted, record_not_deleted, no_such_student,
}
use the_operating_system.Posix.Calls.{files}
use the_operating_system.Posix.Writing.{with_header}
use the_operating_system.Students.Record.{Student, name_len, record_bytes}
use the_operating_system.Students.Layout.{live, IsStudent, index_bytes as index_of}
use the_operating_system.Students.Search.{search}
use the_operating_system.Students.Search.Find.{Reads, find_slot, search-find}
use the_operating_system.Students.Search.Found.{
  Absent, remove_roll, lookup_roll, lookup_roll-Found, FindCases, find_slot-cases,
}
use the_operating_system.Students.Update.Delete.{
  Deleted, delete-cases, Found-lt, Found-Holds, Found-IsStored,
}
use the_operating_system.Students.Update.Input.{input_record-adds}
use the_operating_system.Students.Update.{delete}
use the_operating_system.Students.Menu.{run_add, run_remove, run_show, run_show_all}
use the_operating_system.Students.Menu.Registry.{removal, shown}
use the_operating_system.Students.Print.Laws.{line, lines, print_student-at, print_all-lines}
use the_operating_system.Students.Menu.Database.{
  Database, Served, open_both-ok, unchanged, lookup_none, remove_same, removed, added,
}

module _ {k : ℕ} {ss : List Student} {out : List Message} {w : World}
    (b : Database (suc k) ss out w) where
  open b use {data_bytes as d, index_bytes as i, slots, layout}

  -- Where no call of the C library fails, option 1 on a database with room for one more change puts
  -- the student that the user enters at the end, and prints that it did. The student has an `int`
  -- as roll number and a name of at most 49 characters.
  pub run_add-Served :
      (s : Student)
      → IsStudent s
      → Served k (ss ++ (s ∷ [])) (out ++ (record_input ∷ [])) (run_add s w)
  unfolding run_add
  run_add-Served s v =
      let o =
        input_record-adds s 0 0 false out layout.indexed v (omega (arith, b.data_room))
          (omega (arith, b.index_room)) in
      let (dp', ip', run) = o.run in
      record {
        after =
            files (with_header false d (int_bytes (length (live o.slots'))) ++ record_bytes s) dp'
              false (index_of o.slots') ip' (out ++ (record_input ∷ []));
        run = rw (b.world, open_both-ok _ _ _ _ _ _ _, run);
        database = added b s dp' ip' (out ++ (record_input ∷ [])) v o;
      }

  -- Where no call of the C library fails, option 2 on a database with room for one more change
  -- removes the first student with the roll number, and prints whether there was one.
  pub run_remove-Served :
      (rollno : ℕ)
      → Served k
          (remove_roll rollno ss)
          (out ++ (removal (lookup_roll rollno ss) ∷ []))
          (run_remove rollno w)
  unfolding run_remove
  run_remove-Served rollno =
      go (delete-cases rollno 0 0 false out layout.indexed (omega (arith, b.data_room)))
    where
      Goal : Type 0
      Goal =
          Served k (remove_roll rollno ss) (out ++ (removal (lookup_roll rollno ss) ∷ []))
            (run_remove rollno w)

      go :
          (Absent rollno (live slots)
              × Reads d i false out 1 (delete rollno (files d 0 false i 0 out)))
            ⊎ Deleted d slots rollno false out (delete rollno (files d 0 false i 0 out))
          → Goal
      go (inl (ab, (dp', ip', run))) =
          rw (lookup_none b rollno ab, remove_same b rollno ab)
            (record {
              after = files d dp' false i ip' (out ++ (record_not_deleted ∷ []));
              run = rw (b.world, open_both-ok _ _ _ _ _ _ _, run);
              database = unchanged b dp' ip' false (out ++ (record_not_deleted ∷ []));
            })
      go (inr o) =
          let (dp', ip', run) = o.run in
          rw (sym (ap (lookup_roll rollno) b.students) ∙ o.present) (record {
            after =
                files (with_header false d (int_bytes (length (live o.slots')))) dp' false
                  (index_of o.slots') ip' (out ++ (record_deleted ∷ []));
            run = rw (b.world, open_both-ok _ _ _ _ _ _ _, run);
            database = removed b rollno dp' ip' (out ++ (record_deleted ∷ [])) o;
          })

  -- Where no call of the C library fails, option 6 on a database with room for one more change
  -- prints the first student with the roll number, or that there is none, and keeps the students.
  pub run_show-Served :
      (rollno : ℕ) → Served k ss (out ++ shown (lookup_roll rollno ss)) (run_show rollno w)
  unfolding run_show
  run_show-Served rollno =
      go (find_slot-cases 4 rollno slots) (search-find rollno 0 0 false out layout.indexed)
    where
      go :
          FindCases 4 rollno slots
          → Reads d i false out (find_slot 4 rollno slots) (search rollno (files d 0 false i 0 out))
          → Served k ss (out ++ shown (lookup_roll rollno ss)) (run_show rollno w)
      go (inl (none_found, ab)) (dp', ip', run) = rw (lookup_none b rollno ab) (record {
        after = files d dp' false i ip' (out ++ (no_such_student ∷ []));
        run = rw (b.world, open_both-ok _ _ _ _ _ _ _, run, none_found);
        database = unchanged b dp' ip' false (out ++ (no_such_student ∷ []));
      })
      go (inr (q, found, f)) (dp', ip', run) =
          rw (sym (ap (lookup_roll rollno) b.students) ∙ lookup_roll-Found f) (record {
            after =
                files d (f.off + 4 + 4 + name_len f.who) false i (q + 8) (out ++ (line f.who ∷ []));
            run = rw (
              b.world,
              open_both-ok _ _ _ _ _ _ _,
              run,
              found,
              print_student-at d i false q dp' ip' f.off f.who out layout.indexed.data_small
                  (Found-lt layout.indexed f) (Found-IsStored layout.indexed f)
                  (Found-Holds layout.indexed f),
            );
            database =
                unchanged b (f.off + 4 + 4 + name_len f.who) (q + 8) false
                  (out ++ (line f.who ∷ []));
          })

  -- Where no call of the C library fails, option 8 on a database with room for one more change
  -- prints all students in their order, and keeps them.
  pub run_show_all-Served : Served k ss (out ++ lines ss) (run_show_all w)
  unfolding run_show_all
  run_show_all-Served =
      let (dp', ip', run) = print_all-lines 0 0 false out layout.indexed in
      record {
        after = files d dp' false i ip' (out ++ lines ss);
        run = rw (b.world, open_both-ok _ _ _ _ _ _ _, run, b.students);
        database = unchanged b dp' ip' false (out ++ lines ss);
      }
