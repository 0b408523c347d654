-- ===== src/Students/Update/Delete.antt =====
-- `delete` against the list of students.
use the_operating_system.Common.{
  ℕ, suc, ◌+◌, ◌%◌, ◌<◌, ◌≡◌, refl, ap, sym, subst, subst₂, ◌∙◌, if◌then◌else◌, Bool, some, List,
  ◌∷◌, ◌++◌, arith, ◌⊎◌, inl, inr, append_assoc, length, length-append, drop-append, Holds,
}
use the_operating_system.Common.Bytes.{int_bytes, off_bytes, off_minus_one}
use the_operating_system.Posix.{Message, Run}
use the_operating_system.Posix.Calls.{files, seek_data, seek_index, count_unchecked}
use the_operating_system.Posix.Writing.{with_header, header_data, header_index, middle_index}
use the_operating_system.Students.Record.{Student}
use the_operating_system.Students.Layout.{
  Slot, gone, at, slots_bytes, live, room, index_bytes, AllStored, IsStored, Indexed, length-index,
  length-live-le, length-slots_bytes, max_file, Holds-count,
}
use the_operating_system.Students.Slots.{
  slots_bytes-append, live-append, room-append, AllStored-append, AllStored-left, AllStored-right,
  AllStored-mono, IsStored-with_header, length-with_header,
}
use the_operating_system.Students.Search.Find.{Reads, search-find, find_slot}
use the_operating_system.Students.Search.Found.{
  Absent, remove_roll, lookup_roll, lookup_roll-Found, Found, FindCases, find_slot-cases,
  live-Found,
}
use the_operating_system.Students.Search.{search}
use the_operating_system.Students.Update.{delete, clear_slot}

module _ {d i : List ℕ} {slots : List Slot} {rollno q : ℕ} (l : Indexed d i slots)
    (f : Found 4 rollno q slots) where
  open f use {before, after, off, who, split, place}

  abbrev pub cleared : List Slot
  cleared = before ++ (gone ∷ after)

  -- The index file up to the found slot.
  abbrev pub front : List ℕ
  front = int_bytes (length (live slots)) ++ slots_bytes before

  pub index-split : i ≡ front ++ (off_bytes off ++ slots_bytes after)
  index-split =
      l.index
      ∙ ap (λ xs. int_bytes (length (live slots)) ++ slots_bytes xs) split
      ∙ ap (λ bs. int_bytes (length (live slots)) ++ bs)
          (slots_bytes-append before (at off who ∷ after))
      ∙ sym (
          append_assoc (int_bytes (length (live slots))) (slots_bytes before)
            (off_bytes off ++ slots_bytes after))

  live-split : live slots ≡ live before ++ (who ∷ live after)
  live-split = ap live split ∙ live-append before (at off who ∷ after)

  live-cleared : live cleared ≡ live before ++ live after
  live-cleared = live-append before (gone ∷ after)

  length-cleared : length (live slots) ≡ suc (length (live cleared))
  length-cleared = omega (
    arith,
    ap length live-split,
    ap length live-cleared,
    length-append (live before) (who ∷ live after),
    length-append (live before) (live after),
  )

  pub place-front : q ≡ length front
  place-front = omega (arith, place, length-slots_bytes before)

  place-lt : q < length i
  place-lt = omega (
    arith,
    place-front,
    ap length index-split,
    length-append front (off_bytes off ++ slots_bytes after),
  )

  -- Where the found slot stands, what it holds, and the record that it points to.
  pub Found-lt : q < max_file
  Found-lt = omega (arith, place-lt, l.index_small)

  pub Found-Holds : Holds i q (off_bytes off)
  Found-Holds =
      subst₂ (λ bs p. Holds bs p (off_bytes off)) (sym index-split) (sym place-front)
        (record {
          rest = slots_bytes after;
          here = drop-append front (off_bytes off ++ slots_bytes after);
        })

  pub Found-IsStored : IsStored d off who
  Found-IsStored =
      (AllStored-right d before (at off who ∷ after) (subst (AllStored d) split l.stored)).0

  pub length-same : length cleared ≡ length slots
  length-same = omega (
    arith,
    length-append before (gone ∷ after),
    ap length split,
    length-append before (at off who ∷ after),
  )

  clear_slot-Reads :
      (dp ip : ℕ) (a : Bool) (out : List Message)
      → Reads
          (with_header a d (int_bytes (length (live cleared))))
          (index_bytes cleared)
          a
          out
          0
          (clear_slot q (files d dp a i ip out))
  unfolding clear_slot
  clear_slot-Reads dp ip a out =
      let few : length (live slots) < 0x1_0000_0000 =
        omega (arith, length-live-le slots, length-index l, l.index_small) in
      let less : (length (live slots) + 0xffff_ffff) % 0x1_0000_0000 ≡ length (live cleared) =
        omega (arith, length-cleared) in
      let low : q < 0x8000_0000_0000_0000 = omega (arith, place-lt, l.index_small) in
      rw
        (
          seek_index _ _ _ _ _ _ 0 (omega arith),
          count_unchecked _ _ _ _ _ _ (length (live slots)) (Holds-count l) few,
          seek_index _ _ _ _ _ _ q low,
          index-split,
          middle_index d dp a front (off_bytes off) (slots_bytes after) (off_bytes off_minus_one) q
              out place-front refl,
          seek_index _ _ _ _ _ _ 0 (omega arith),
          header_index _ _ _ _ _ _,
          less,
          seek_data _ _ _ _ _ _ 0 (omega arith),
          header_data _ _ _ _ _ _,
        )
        ((if a then length d else 0) + 4, 4, rw (slots_bytes-append before (gone ∷ after)))

  -- The files list the slots with the found one cleared.
  cleared-Indexed :
      (a : Bool)
      → length d + 4 < max_file
      → Indexed (with_header a d (int_bytes (length (live cleared)))) (index_bytes cleared) cleared
  cleared-Indexed a small =
      let header = int_bytes (length (live cleared)) in
      let grown = length-with_header a d header refl (omega (arith, l.fits)) in
      record {
        index = refl;
        stored =
            AllStored-mono cleared (λ o s. IsStored-with_header a d header o s refl)
              (AllStored-append d before (gone ∷ after)
                (AllStored-left d before (at off who ∷ after) st)
                (AllStored-right d before (at off who ∷ after) st).1);
        fits = omega (
          arith,
          l.fits,
          grown,
          ap room live-split,
          ap room live-cleared,
          room-append (live before) (who ∷ live after),
          room-append (live before) (live after),
        );
        data_small = omega (arith, grown);
        index_small =
            omega (arith, length-index l, l.index_small, length-slots_bytes cleared, length-same);
      }
    where
      st : AllStored d (before ++ (at off who ∷ after))
      st = subst (AllStored d) split l.stored

-- The run of `delete` returns 0, and the files list `slots'`, whose students are those of `slots`
-- without the first one that has the roll number.
pub record Deleted (d : List ℕ) (slots : List Slot) (rollno : ℕ) (a : Bool) (out : List Message)
    (r : Run ℕ) : Type 0 where
  pub slots' : List Slot
  pub run :
      Reads (with_header a d (int_bytes (length (live slots')))) (index_bytes slots') a out 0 r
  pub indexed :
      Indexed (with_header a d (int_bytes (length (live slots')))) (index_bytes slots') slots'
  pub students : live slots' ≡ remove_roll rollno (live slots)
  pub same_length : length slots' ≡ length slots
  pub who : Student
  pub present : lookup_roll rollno (live slots) ≡ some who
  pub fewer : length (live slots) ≡ suc (length (live slots'))

module _ {d i : List ℕ} {slots : List Slot} (rollno dp ip : ℕ) (a : Bool) (out : List Message)
    (l : Indexed d i slots) (small : length d + 4 < max_file) where
  -- On files in order with room for four more bytes in the data file, where no call of the C
  -- library fails: where no student has the roll number, `delete` returns 1 and leaves both files
  -- as they are. Else it returns 0, and leaves files in order: the index file has as many slots as
  -- before, its students are the old ones without the first that has the roll number, and both
  -- counts are one less. The data file changes in its count alone, which goes to its start, or to
  -- its end where it is open for appending.
  pub delete-cases :
      (Absent rollno (live slots) × Reads d i a out 1 (delete rollno (files d dp a i ip out)))
      ⊎ Deleted d slots rollno a out (delete rollno (files d dp a i ip out))
  unfolding delete
  delete-cases = go (find_slot-cases 4 rollno slots) (search-find rollno dp ip a out l)
    where
      go :
          FindCases 4 rollno slots
          → Reads d i a out (find_slot 4 rollno slots) (search rollno (files d dp a i ip out))
          → (Absent rollno (live slots) × Reads d i a out 1 (delete rollno (files d dp a i ip out)))
            ⊎ Deleted d slots rollno a out (delete rollno (files d dp a i ip out))
      go (inl (none_found, ab)) (dp', ip', run) = inl (ab, (dp', ip', rw (run, none_found)))
      go (inr (q, found, f)) (dp', ip', run) = inr (record {
        slots' = cleared l f;
        run = rw (run, found) (clear_slot-Reads l f dp' ip' a out);
        indexed = cleared-Indexed l f a small;
        students = live-Found f;
        same_length = length-same l f;
        who = f.who;
        present = lookup_roll-Found f;
        fewer = length-cleared l f;
      })
