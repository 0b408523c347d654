-- ===== src/Students/Menu/Sorting.antt =====
-- Options 3 and 7 of the menu.
use mathlib.Core.List.{Perm}
use the_operating_system.Common.{
  ℕ, suc, ◌+◌, ◌≤◌, ◌<◌, ◌≡◌, refl, ap, sym, subst, ◌∙◌, ◌⊎◌, inl, inr, Bool, false, none, some,
  List, [], ◌∷◌, ◌++◌, arith, append_assoc, length, Holds,
}
use the_operating_system.Common.Bytes.{signed_key, int_bytes}
use the_operating_system.Posix.{
  Message, World, Run, ok, sort_done, student_found, student_not_found,
}
use the_operating_system.Posix.Calls.{files}
use the_operating_system.Students.Record.{Student, min_roll, name_len}
use the_operating_system.Students.Layout.{
  live, room, Indexed, index_bytes as index_of, length-slots_bytes,
}
use the_operating_system.Students.Search.{search}
use the_operating_system.Students.Search.Find.{Reads, find_slot, search-find}
use the_operating_system.Students.Search.Found.{
  lookup_roll, lookup_roll-Found, FindCases, find_slot-cases,
}
use the_operating_system.Students.Update.Delete.{Found-lt, Found-Holds, Found-IsStored}
use the_operating_system.Students.Print.Laws.{line, print_student-at}
use the_operating_system.Students.Compaction.Packed.{kept, kept_data, records_bytes}
use the_operating_system.Students.Compaction.{Behind, spare, over_n, compaction}
use the_operating_system.Students.Compaction.Laws.{compaction-packed}
use the_operating_system.Students.Compaction.Counted.{Trimmed}
use the_operating_system.Students.Sort.Entries.{
  slots_of, slots_of-entries, slots_of-AllStored, students, students-entries, entries, key,
  IsAscending, IsAscending-students, Perm-students, live-slots_of, length-slots_of,
  length-live-slots_of,
}
use the_operating_system.Common.Selection.{All}
use the_operating_system.Students.Sort.Laws.{Ordered, sort-Ordered}
use the_operating_system.Students.Sort.Rounds.{IsLow}
use the_operating_system.Students.Menu.{run_find, run_sort}
use the_operating_system.Students.Menu.Database.{
  Database, Served, open_both-ok, unchanged, lookup_none, Holds-start,
}
use the_operating_system.Students.Menu.Session.{compacted-Layout, packed_data-le, packed_index-le}

-- The student's roll number is below the initial minimum of `index_of_min`.
abbrev pub HasLowRoll : Student → Type 0
HasLowRoll s = key s < signed_key min_roll

IsLow-entries : (off : ℕ) (ss : List Student) → All HasLowRoll ss → All IsLow (entries off ss)
IsLow-entries off [] h = tt
IsLow-entries off (s ∷ ss) h = (h.0, IsLow-entries (off + (8 + name_len s)) ss h.1)

All-kept :
    (behind : Behind) (ss : List Student) → All HasLowRoll ss → All HasLowRoll (kept behind ss)
All-kept spare ss h = h
All-kept over_n ss h = tt

-- The run ends in a database with the students `sorted`, a rearrangement of `ss`.
pub record Rearranged (k : ℕ) (ss : List Student) (out : List Message) (r : Run (Unit {0}))
    : Type 0 where
  pub sorted : List Student
  pub perm : Perm sorted ss
  pub ascending : IsAscending sorted
  pub served : Served k sorted out r

module _ {k : ℕ} {ss : List Student} {out : List Message} {w : World}
    (b : Database k ss out w) where
  open b use {slots, layout}

  compacted-Indexed :
      (behind : Behind)
      → Indexed
          (kept_data behind (live slots))
          (index_of (slots_of (entries 4 (kept behind (live slots)))))
          (slots_of (entries 4 (kept behind (live slots))))
  compacted-Indexed behind =
      subst (λ xs. Indexed (kept_data behind (live slots)) (index_of xs) xs)
        (sym (slots_of-entries 4 (kept behind (live slots)))) (compacted-Layout b behind).indexed

  -- The files once the index file lists the sorted entries.
  sorted_database :
      (behind : Behind) (dp ip : ℕ) (out' : List Message) {a : Bool} {r : Run (Unit {0})}
      (o : Ordered (kept_data behind (live slots)) (entries 4 (kept behind (live slots))) a out r)
      → Database k
          (students o.sorted)
          out'
          (files (kept_data behind (live slots)) dp false (index_of (slots_of o.sorted)) ip out')
  sorted_database behind dp ip out' o =
      let l = compacted-Layout b behind in
      let before = compacted-Indexed behind in
      let same_count : length (live (slots_of o.sorted)) ≡ length (kept behind (live slots)) =
        omega (
          arith,
          length-live-slots_of o.sorted,
          o.same_length,
          ap length (students-entries 4 (kept behind (live slots))),
          ap length (live-slots_of (entries 4 (kept behind (live slots)))),
          length-live-slots_of (entries 4 (kept behind (live slots))),
        ) in
      let same_index : length (index_of (slots_of o.sorted))
          ≡ length (index_of (slots_of (entries 4 (kept behind (live slots))))) =
        omega (
          arith,
          length-slots_bytes (slots_of o.sorted),
          length-slots_bytes (slots_of (entries 4 (kept behind (live slots)))),
          o.same_length,
          length-slots_of o.sorted,
          length-slots_of (entries 4 (kept behind (live slots))),
        ) in
      let shorter : length (index_of (slots_of (entries 4 (kept behind (live slots)))))
          ≤ length b.index_bytes =
        subst (λ xs. length (index_of xs) ≤ length b.index_bytes)
          (sym (slots_of-entries 4 (kept behind (live slots)))) (packed_index-le b behind) in
      record {
        data_bytes = kept_data behind (live slots);
        index_bytes = index_of (slots_of o.sorted);
        dp = dp;
        ip = ip;
        append = false;
        slots = slots_of o.sorted;
        world = refl;
        layout = record {
          indexed = record {
            index = refl;
            stored = slots_of-AllStored (kept_data behind (live slots)) o.sorted o.stored;
            fits = omega (
              arith,
              ap room (live-slots_of o.sorted),
              o.same_room,
              ap room (live-slots_of (entries 4 (kept behind (live slots)))),
              before.fits,
            );
            data_small = before.data_small;
            index_small = omega (arith, same_index, before.index_small);
          };
          count =
              subst (λ n. Holds (kept_data behind (live slots)) 0 (int_bytes n)) (sym same_count)
                (Holds-start (int_bytes (length (kept behind (live slots))))
                  (records_bytes (live slots)));
        };
        students = live-slots_of o.sorted;
        data_room = omega (arith, b.data_room, packed_data-le b behind);
        index_room = omega (arith, b.index_room, same_index, shorter);
      }

  -- Where no call of the C library fails, option 7 on a database with no slot of a deleted record
  -- behind the last live one, whose roll numbers are all below `min_roll`, ends with a database of
  -- the same students in ascending order of the roll numbers, if only
  -- nothing in use stands behind `idx` in `compaction`; where `n` does, with no students.
  pub run_sort-Rearranged :
      (behind : Behind)
      → Trimmed slots
      → All HasLowRoll ss
      → Rearranged k (kept behind ss) (out ++ (sort_done ∷ [])) (run_sort behind w)
  unfolding run_sort
  run_sort-Rearranged behind tr low =
      let alive = kept behind (live slots) in
      let es = entries 4 alive in
      let (dp', ip', run) = compaction-packed behind b.dp b.ip b.append out layout.indexed tr in
      let o = sort-Ordered es 0 false out (compacted-Indexed behind) (
        IsLow-entries 4 alive
          (All-kept behind (live slots) (subst (All HasLowRoll) (sym b.students) low))) in
      let (dp'', ip'', sorting) = o.run in
      let compacting =
        subst
          (λ xs.
            compaction behind (files b.data_bytes b.dp b.append b.index_bytes b.ip out)
            ≡ ok 0 (files (kept_data behind (live slots)) dp' false (index_of xs) ip' out))
          (sym (slots_of-entries 4 alive)) run in
      record {
        sorted = students o.sorted;
        perm =
            subst (Perm (students o.sorted))
              (students-entries 4 alive ∙ ap (kept behind) b.students)
              (Perm-students o.sorted es o.perm);
        ascending = IsAscending-students o.sorted o.ascending;
        served = record {
          after =
              files (kept_data behind (live slots)) dp'' false (index_of (slots_of o.sorted)) ip''
                (out ++ (sort_done ∷ []));
          run = rw (b.world, compacting, open_both-ok _ _ _ _ _ _ _, sorting);
          database = sorted_database behind dp'' ip'' (out ++ (sort_done ∷ [])) o;
        };
      }

module _ {k : ℕ} {ss : List Student} {out : List Message} {w : World}
    (b : Database (suc k) ss out w) where
  open b use {data_bytes as d, index_bytes as i, slots, layout}

  -- Where no call of the C library fails, option 3 on a database with room for one more change
  -- prints the offset of the slot of the first student with the roll number, and the student; or,
  -- if no student has it, that there is none. It keeps the students.
  pub run_find-Served :
      (rollno : ℕ)
      → ((lookup_roll rollno ss ≡ none)
          × Served k ss (out ++ (student_not_found ∷ [])) (run_find rollno w))
        ⊎ ((q : ℕ) × (s : Student) × (find_slot 4 rollno slots ≡ some q)
            × (lookup_roll rollno ss ≡ some s)
            × Served k ss (out ++ (student_found q ∷ line s ∷ [])) (run_find rollno w))
  unfolding run_find
  run_find-Served rollno =
      go (find_slot-cases 4 rollno slots) (search-find rollno 0 0 false out layout.indexed)
    where
      go :
          FindCases 4 rollno slots
          → Reads d i false out (find_slot 4 rollno slots) (search rollno (files d 0 false i 0 out))
          → ((lookup_roll rollno ss ≡ none)
              × Served k ss (out ++ (student_not_found ∷ [])) (run_find rollno w))
            ⊎ ((q : ℕ) × (s : Student) × (find_slot 4 rollno slots ≡ some q)
                × (lookup_roll rollno ss ≡ some s)
                × Served k ss (out ++ (student_found q ∷ line s ∷ [])) (run_find rollno w))
      go (inl (none_found, ab)) (dp', ip', run) = inl (
        lookup_none b rollno ab,
        record {
          after = files d dp' false i ip' (out ++ (student_not_found ∷ []));
          run = rw (b.world, open_both-ok _ _ _ _ _ _ _, run, none_found);
          database = unchanged b dp' ip' false (out ++ (student_not_found ∷ []));
        },
      )
      go (inr (q, found, f)) (dp', ip', run) = inr (
        q,
        f.who,
        found,
        sym (ap (lookup_roll rollno) b.students) ∙ lookup_roll-Found f,
        record {
          after =
              files d (f.off + 4 + 4 + name_len f.who) false i (q + 8)
                (out ++ (student_found q ∷ line f.who ∷ []));
          run = rw (
            b.world,
            open_both-ok _ _ _ _ _ _ _,
            run,
            found,
            print_student-at d i false q dp' ip' f.off f.who (out ++ (student_found q ∷ []))
                layout.indexed.data_small (Found-lt layout.indexed f)
                (Found-IsStored layout.indexed f) (Found-Holds layout.indexed f),
            append_assoc out (student_found q ∷ []) (line f.who ∷ []),
          );
          database =
              unchanged b (f.off + 4 + 4 + name_len f.who) (q + 8) false
                (out ++ (student_found q ∷ line f.who ∷ []));
        },
      )
