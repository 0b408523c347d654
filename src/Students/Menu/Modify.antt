-- ===== src/Students/Menu/Modify.antt =====
-- Option 4 of the menu, which deletes a record and inputs one with the data file open for
-- appending, so that each of its two writes of the count goes to the end of the data file.
use the_operating_system.Common.{
  ℕ, suc, ◌≡◌, refl, ap, sym, subst, ◌∙◌, ◌⊎◌, inl, inr, true, List, [], ◌∷◌, ◌++◌, arith,
  append-nil, length, length-append, Holds, Holds-append,
}
use the_operating_system.Common.Bytes.{int_bytes}
use the_operating_system.Posix.{Message, World, Run, record_modified}
use the_operating_system.Posix.Calls.{files}
use the_operating_system.Students.Record.{Student, record_bytes}
use the_operating_system.Students.Layout.{
  Slot, live, IsStudent, index_bytes as index_of, length-index, length-record_bytes,
}
use the_operating_system.Students.Search.Find.{Reads}
use the_operating_system.Students.Search.Found.{Absent, remove_roll, lookup_roll}
use the_operating_system.Students.Update.{delete, input_record}
use the_operating_system.Students.Update.Delete.{Deleted, delete-cases}
use the_operating_system.Students.Update.Input.{Added, input_record-adds}
use the_operating_system.Students.Menu.{run_modify}
use the_operating_system.Students.Menu.Registry.{modified, modification}
use the_operating_system.Students.Menu.Database.{
  Database, Served, open_both-ok, unchanged, lookup_none,
}

module _ {k : ℕ} {ss : List Student} {out : List Message} {w : World}
    (b : Database (suc k) ss out w) (rollno : ℕ) (s : Student) (v : IsStudent s) where
  open b use {data_bytes as d, index_bytes as i, slots, layout}

  -- The data file after `delete`.
  abbrev shorter : (slots' : List Slot) → List ℕ
  shorter slots' = d ++ int_bytes (length (live slots'))

  module _ {r : Run ℕ} (o : Deleted d slots rollno true out r) where
    add_run :
        (dp ip : ℕ)
        → Added
            (shorter o.slots')
            o.slots'
            s
            true
            out
            (input_record s (files (shorter o.slots') dp true (index_of o.slots') ip out))
    add_run dp ip =
        input_record-adds s dp ip true out o.indexed v
          (omega (arith, b.data_room, length-append d (int_bytes (length (live o.slots')))))
          (omega (
            arith,
            b.index_room,
            o.same_length,
            length-index o.indexed,
            length-index layout.indexed,
          ))

    replaced :
        {r' : Run ℕ} (dp ip : ℕ) (out' : List Message)
        (o' : Added (shorter o.slots') o.slots' s true out r')
        → Database k (remove_roll rollno ss ++ (s ∷ [])) out' (
            files
              ((shorter o.slots' ++ int_bytes (length (live o'.slots'))) ++ record_bytes s)
              dp
              true
              (index_of o'.slots')
              ip
              out')
    replaced dp ip out' o' =
        let d' = shorter o.slots' ++ int_bytes (length (live o'.slots')) in
        let same_count : length (live slots) ≡ length (live o'.slots') =
          omega (arith, o.fewer, ap length o'.students, length-append (live o.slots') (s ∷ [])) in
        let start : Holds d 0 (int_bytes (length (live o'.slots'))) =
          subst (λ c. Holds d 0 (int_bytes c)) same_count layout.count in
        record {
          data_bytes = d' ++ record_bytes s;
          index_bytes = index_of o'.slots';
          dp = dp;
          ip = ip;
          append = true;
          slots = o'.slots';
          world = refl;
          layout = record {
            indexed = o'.indexed;
            count = Holds-append (record_bytes s) (omega arith) (
                Holds-append (int_bytes (length (live o'.slots'))) (omega arith)
                  (Holds-append (int_bytes (length (live o.slots'))) (omega arith) start));
          };
          students =
              o'.students
              ∙ ap (λ l. l ++ (s ∷ [])) (o.students ∙ ap (remove_roll rollno) b.students);
          data_room = omega (
            arith,
            b.data_room,
            v.name_fits,
            length-record_bytes s,
            length-append d' (record_bytes s),
            length-append (shorter o.slots') (int_bytes (length (live o'.slots'))),
            length-append d (int_bytes (length (live o.slots'))),
          );
          index_room = omega (
            arith,
            b.index_room,
            o.same_length,
            o'.longer,
            length-index o'.indexed,
            length-index layout.indexed,
          );
        }

  -- Where no call of the C library fails, option 4 on a database with room for one more change
  -- removes the first student with the roll number, puts the new student at the end, and prints
  -- that it did; or, if no student has it, prints nothing and changes nothing. The new
  -- student has an `int` as roll number and a name of at most 49 characters.
  pub run_modify-Served :
      Served k
        (modified rollno s ss (lookup_roll rollno ss))
        (out ++ modification (lookup_roll rollno ss))
        (run_modify rollno s w)
  unfolding run_modify
  run_modify-Served =
      go (delete-cases rollno 0 0 true out layout.indexed (omega (arith, b.data_room)))
    where
      go :
          (Absent rollno (live slots)
              × Reads d i true out 1 (delete rollno (files d 0 true i 0 out)))
            ⊎ Deleted d slots rollno true out (delete rollno (files d 0 true i 0 out))
          → Served k
              (modified rollno s ss (lookup_roll rollno ss))
              (out ++ modification (lookup_roll rollno ss))
              (run_modify rollno s w)
      go (inl (ab, (dp', ip', run))) = rw (lookup_none b rollno ab) (record {
        after = files d dp' true i ip' (out ++ []);
        run = rw (b.world, open_both-ok _ _ _ _ _ _ _, run, append-nil) refl;
        database = unchanged b dp' ip' true (out ++ []);
      })
      go (inr o) =
          let (dp', ip', run) = o.run in
          let o' = add_run o dp' ip' in
          let (dp'', ip'', run') = o'.run in
          rw (sym (ap (lookup_roll rollno) b.students) ∙ o.present) (record {
            after =
                files ((shorter o.slots' ++ int_bytes (length (live o'.slots'))) ++ record_bytes s)
                  dp'' true (index_of o'.slots') ip'' (out ++ (record_modified ∷ []));
            run = rw (b.world, open_both-ok _ _ _ _ _ _ _, run, run');
            database = replaced o dp'' ip'' (out ++ (record_modified ∷ [])) o';
          })
