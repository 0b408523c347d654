-- ===== src/Students/Menu/Session.antt =====
-- Options 0, 5 and 7 of the menu, and whole sessions.
use the_operating_system.Common.{
  ℕ, suc, ◌+◌, ◌*◌, ◌≤◌, ◌<◌, ◌≡◌, refl, ap, subst, ◌∙◌, false, List, [], ◌∷◌, ◌++◌, arith,
  append_assoc, append-nil, length,
}
use the_operating_system.Common.Bytes.{int_bytes}
use the_operating_system.Posix.{
  Fd, datafd, indexfd, File, Message, World, ok, set_file, empty_file, open_trunc,
  compaction_successful, invalid_option,
}
use the_operating_system.Posix.Calls.{files, calm}
use the_operating_system.Posix.Writing.{append_data, append_index}
use the_operating_system.Students.Record.{Student}
use the_operating_system.Students.Layout.{
  live, Layout, max_file, index_bytes as index_of, length-index, length-live-le,
}
use the_operating_system.Students.Compaction.Packed.{
  kept, kept_data, kept-Layout, length-kept, packed, live-packed, length-packed, AllStudents-live,
  length-records_bytes,
}
use the_operating_system.Students.Compaction.Laws.{compaction-packed}
use the_operating_system.Students.Compaction.Counted.{Trimmed}
use the_operating_system.Students.Compaction.{Behind}
use the_operating_system.Students.Menu.{
  Choice, initialize, compact, sort_by_roll, show_all, invalid, add, remove, find, show, modify,
  create, run_initialize, run_compact, run_choice, main_loop,
}
use the_operating_system.Students.Menu.Registry.{
  IsPlain, ArePlain, students_after, printed, session_students, session_printed,
}
use the_operating_system.Students.Menu.Refine.{
  run_add-Served, run_remove-Served, run_show-Served, run_show_all-Served,
}
use the_operating_system.Students.Menu.Database.{Database, Served, Holds-start, unchanged}
use the_operating_system.Students.Menu.Modify.{run_modify-Served}

create-ok :
    (fd : Fd) (d i : File) (out : List Message)
    → create fd (calm d i out) ≡ ok tt (set_file fd empty_file (calm d i out))
unfolding create open_trunc
create-ok datafd d i out = ground arith
create-ok indexfd d i out = ground arith

-- Where no call of the C library fails, option 0 makes a database with no students and prints
-- nothing, whatever the two files were, present or not. It has room for `k` changes, for a `k`
-- with `4 + 200 * k` below `max_file`.
pub run_initialize-Served :
    {k : ℕ} (d i : File) (out : List Message)
    → 4 + 200 * k < max_file
    → Served k [] out (run_initialize (calm d i out))
unfolding run_initialize
run_initialize-Served d i out h = record {
  after = files (int_bytes 0) 4 false (int_bytes 0) 4 out;
  run = rw (
    create-ok datafd d i out,
    create-ok indexfd empty_file i out,
    append_data [] false [] out (int_bytes 0) 0 0 refl,
    append_index (int_bytes 0) false [] out (int_bytes 0) 4 0 refl,
  );
  database = record {
    data_bytes = int_bytes 0;
    index_bytes = int_bytes 0;
    dp = 4;
    ip = 4;
    append = false;
    slots = [];
    world = refl;
    layout = record {
      indexed = record {
        index = refl;
        stored = tt;
        fits = omega arith;
        data_small = omega arith;
        index_small = omega arith;
      };
      count = Holds-start (int_bytes 0) [];
    };
    students = refl;
    data_room = omega arith;
    index_room = omega arith;
  };
}

module _ {k : ℕ} {ss : List Student} {out : List Message} {w : World}
    (b : Database (suc k) ss out w) where
  -- Each plain option does to the files what `Registry` says of the list.
  pub run_choice-Served :
      (behind : Behind) (c : Choice)
      → IsPlain c
      → Served k (students_after c ss) (out ++ printed c ss) (run_choice behind c w)
  unfolding run_choice
  run_choice-Served behind initialize v =
      rw (b.world, append-nil)
        (run_initialize-Served _ _ out (omega (arith, b.data_room, b.layout.indexed.fits)))
  run_choice-Served behind compact v = absurd v
  run_choice-Served behind sort_by_roll v = absurd v
  run_choice-Served behind show_all v = run_show_all-Served b
  run_choice-Served behind invalid v = record {
    after = files b.data_bytes b.dp b.append b.index_bytes b.ip (out ++ (invalid_option ∷ []));
    run = rw b.world;
    database = unchanged b b.dp b.ip b.append (out ++ (invalid_option ∷ []));
  }
  run_choice-Served behind (add s) v = run_add-Served b s v
  run_choice-Served behind (remove rollno) v = run_remove-Served b rollno
  run_choice-Served behind (find rollno) v = absurd v
  run_choice-Served behind (show rollno) v = run_show-Served b rollno
  run_choice-Served behind (modify rollno s) v = run_modify-Served b rollno s v

-- Where no call of the C library fails, a session of plain options, in any order, on a database
-- with room for as many changes as the session has options, ends with a database of the students
-- that `session_students` gives, and has printed what `session_printed` gives. The students that
-- the session enters have an `int` as roll number, and a name of at most 49 characters. Plain are
-- all options but 3 (find), 5 (compact) and 7 (sort).
pub main_loop-Served :
    (behind : Behind) (cs : List Choice) {ss : List Student} {out : List Message} {w : World}
    → ArePlain cs
    → Database (length cs) ss out w
    → Served 0 (session_students cs ss) (out ++ session_printed cs ss) (main_loop behind cs w)
unfolding main_loop
main_loop-Served behind [] {ss} {out} {w} v b =
    rw append-nil (record { after = w; run = refl; database = b })
main_loop-Served behind (c ∷ cs) {ss} {out} v b =
    let first = run_choice-Served b behind c v.0 in
    let rest = main_loop-Served behind cs v.1 first.database in
    record {
      after = rest.after;
      run = rw first.run rest.run;
      database =
          subst (λ o. Database 0 (session_students cs (students_after c ss)) o rest.after)
            (append_assoc out (printed c ss) (session_printed cs (students_after c ss)))
            rest.database;
    }

module _ {k : ℕ} {ss : List Student} {out : List Message} {w : World}
    (b : Database k ss out w) where
  open b use {data_bytes as d, index_bytes as i, slots, layout}

  -- The files with no gaps hold the same students, and are no longer than before.
  pub compacted-Layout :
      (behind : Behind)
      → Layout
          (kept_data behind (live slots))
          (index_of (packed 4 (kept behind (live slots))))
          (packed 4 (kept behind (live slots)))
  compacted-Layout behind =
      let l = layout.indexed in
      kept-Layout behind (live slots) (AllStudents-live d slots l.stored)
        (omega (arith, l.fits, l.data_small))
        (omega (arith, length-index l, length-live-le slots, l.index_small))

  pub packed_data-le : (behind : Behind) → length (kept_data behind (live slots)) ≤ length d
  packed_data-le behind = omega (arith, layout.indexed.fits, length-records_bytes (live slots))

  pub packed_index-le :
      (behind : Behind) → length (index_of (packed 4 (kept behind (live slots)))) ≤ length i
  packed_index-le behind = omega (
    arith,
    length-index layout.indexed,
    length-live-le slots,
    length-index (compacted-Layout behind).indexed,
    length-kept behind (live slots),
    length-packed 4 (kept behind (live slots)),
  )

  compacted :
      (behind : Behind) (dp ip : ℕ) (out' : List Message)
      → Database k (kept behind ss) out' (
          files
            (kept_data behind (live slots))
            dp
            false
            (index_of (packed 4 (kept behind (live slots))))
            ip
            out')
  compacted behind dp ip out' = record {
    data_bytes = kept_data behind (live slots);
    index_bytes = index_of (packed 4 (kept behind (live slots)));
    dp = dp;
    ip = ip;
    append = false;
    slots = packed 4 (kept behind (live slots));
    world = refl;
    layout = compacted-Layout behind;
    students = live-packed 4 (kept behind (live slots)) ∙ ap (kept behind) b.students;
    data_room = omega (arith, b.data_room, packed_data-le behind);
    index_room = omega (arith, b.index_room, packed_index-le behind);
  }

  -- Where no call of the C library fails, option 5 on a database with no slot of a deleted record
  -- behind the last live one keeps the students in their order, and prints that it succeeded;
  -- where `n` stands behind `idx` in `compaction`, it prints so and keeps none of them.
  pub run_compact-Served :
      (behind : Behind)
      → Trimmed slots
      → Served k (kept behind ss) (out ++ (compaction_successful ∷ [])) (run_compact behind w)
  unfolding run_compact
  run_compact-Served behind tr =
      let (dp', ip', run) = compaction-packed behind b.dp b.ip b.append out layout.indexed tr in
      record {
        after =
            files (kept_data behind (live slots)) dp' false
              (index_of (packed 4 (kept behind (live slots)))) ip'
              (out ++ (compaction_successful ∷ []));
        run = rw (b.world, run);
        database = compacted behind dp' ip' (out ++ (compaction_successful ∷ []));
      }
