-- ===== src/Students/Update/Input.antt =====
-- `input_record` against the list of students.
use the_operating_system.Common.{
  ℕ, suc, ◌+◌, ◌%◌, ◌≤◌, ◌<◌, ◌≡◌, refl, ap, sym, subst, ◌∙◌, Bool, true, List, [], ◌∷◌, ◌++◌,
  arith, append_assoc, append-nil, length, length-append, leb, Holds-end, le→leb,
}
use the_operating_system.Common.Bytes.{int_bytes, off_bytes}
use the_operating_system.Posix.{Message, Run}
use the_operating_system.Posix.Calls.{files, seek_data, seek_index, count_checked}
use the_operating_system.Posix.Writing.{
  with_header, header_data, header_index, append_data, append_index, end_data, end_index,
}
use the_operating_system.Students.Record.{Student, name_len, name_room, record_bytes}
use the_operating_system.Students.Layout.{
  Slot, at, slots_bytes, live, room, index_bytes, IsStudent, Indexed, length-index, length-live-le,
  length-slots_bytes, max_file, Holds-count, drop-count, length-record_bytes,
}
use the_operating_system.Students.Slots.{
  slots_bytes-append, live-append, room-append, AllStored-append, AllStored-mono,
  IsStored-with_header, IsStored-append, length-with_header,
}
use the_operating_system.Students.Search.Find.{Reads}
use the_operating_system.Students.Update.{input_record, write_name}

module _ {d i : List ℕ} {slots : List Slot} (s : Student) (a : Bool) (l : Indexed d i slots)
    (v : IsStudent s) where
  abbrev new_count : List ℕ
  new_count = int_bytes (length (live slots) + 1)

  -- The data file with the new count.
  abbrev counted : List ℕ
  counted = with_header a d new_count

  abbrev added : List Slot
  added = slots ++ (at (length counted) s ∷ [])

  grown : (length d ≤ length counted) × (length counted ≤ length d + 4)
  grown = length-with_header a d new_count refl (omega (arith, l.fits))

  live-added : live added ≡ live slots ++ (s ∷ [])
  live-added = live-append slots (at (length counted) s ∷ [])

  length-live-added : length (live added) ≡ length (live slots) + 1
  length-live-added = omega (arith, ap length live-added, length-append (live slots) (s ∷ []))

  index-added : (new_count ++ slots_bytes slots) ++ off_bytes (length counted) ≡ index_bytes added
  index-added =
      rw (length-live-added, slots_bytes-append slots (at (length counted) s ∷ []), append-nil)

  record-added :
      ((counted ++ int_bytes s.roll) ++ int_bytes (name_len s)) ++ (s.fname ++ (0 ∷ []))
      ≡ counted ++ record_bytes s
  record-added =
      append_assoc (counted ++ int_bytes s.roll) (int_bytes (name_len s)) (s.fname ++ (0 ∷ []))
      ∙ append_assoc counted (int_bytes s.roll) (int_bytes (name_len s) ++ (s.fname ++ (0 ∷ [])))

  write_name-Reads :
      (ip : ℕ) (i' : List ℕ) (out : List Message)
      → Reads
          (counted ++ record_bytes s)
          i'
          a
          out
          0
          (write_name s (files (counted ++ int_bytes s.roll) (length counted + 4) a i' ip out))
  unfolding write_name
  write_name-Reads ip i' out =
      let fits : leb (name_len s) name_room ≡ true = le→leb (name_len s) name_room v.name_fits in
      rw
        (
          fits,
          append_data (counted ++ int_bytes s.roll) a i' out (int_bytes (name_len s))
              (length counted + 4) ip (sym (length-append counted (int_bytes s.roll))),
          append_data ((counted ++ int_bytes s.roll) ++ int_bytes (name_len s)) a i' out
              (s.fname ++ (0 ∷ [])) (length (counted ++ int_bytes s.roll) + 4) ip
              (sym (length-append (counted ++ int_bytes s.roll) (int_bytes (name_len s)))),
          record-added,
        )
        (
          length ((counted ++ int_bytes s.roll) ++ int_bytes (name_len s))
              + length (s.fname ++ (0 ∷ [])),
          ip,
          refl,
        )

  input_record-Reads :
      (dp ip : ℕ) (out : List Message)
      → Reads
          (counted ++ record_bytes s)
          (index_bytes added)
          a
          out
          0
          (input_record s (files d dp a i ip out))
  unfolding input_record
  input_record-Reads dp ip out =
      let few : length (live slots) < max_file =
        omega (arith, length-live-le slots, length-index l, l.index_small) in
      let more : (length (live slots) + 1) % 0x1_0000_0000 ≡ length (live slots) + 1 =
        omega arith in
      rw
        (
          seek_index _ _ _ _ _ _ 0 (omega arith),
          count_checked _ _ _ _ _ _ (length (live slots)) (Holds-count l) (omega arith),
          more,
          seek_data _ _ _ _ _ _ 0 (omega arith),
          header_data _ _ _ _ _ _,
          seek_index _ _ _ _ _ _ 0 (omega arith),
          header_index _ _ _ _ _ _,
          drop-count l,
          end_data _ _ _ _ _ _,
          end_index _ _ _ _ _ _,
          append_index counted a (new_count ++ slots_bytes slots) out (off_bytes (length counted))
              (length counted) (length (new_count ++ slots_bytes slots)) refl,
          index-added,
          append_data counted a (index_bytes added) out (int_bytes s.roll) (length counted)
              (length (new_count ++ slots_bytes slots) + 8) refl,
        )
        (write_name-Reads (length (new_count ++ slots_bytes slots) + 8) (index_bytes added) out)

  added-Indexed :
      length d + 100 < max_file
      → length i + 8 < max_file
      → Indexed (counted ++ record_bytes s) (index_bytes added) added
  added-Indexed room_d room_i = record {
    index = refl;
    stored =
        AllStored-append (counted ++ record_bytes s) slots (at (length counted) s ∷ [])
          (AllStored-mono slots
            (λ o t st.
              IsStored-append (record_bytes s) (IsStored-with_header a d new_count o t refl st))
            l.stored)
          (
            record {
              student = v;
              behind_count = omega (arith, l.fits, grown);
              bytes = Holds-end counted (record_bytes s);
            },
            tt,
          );
    fits = omega (
      arith,
      l.fits,
      grown,
      ap room live-added,
      room-append (live slots) (s ∷ []),
      length-append counted (record_bytes s),
      length-record_bytes s,
    );
    data_small =
        omega (
          arith,
          grown,
          length-append counted (record_bytes s),
          length-record_bytes s,
          v.name_fits,
        );
    index_small = omega (
      arith,
      length-index l,
      length-slots_bytes added,
      length-append slots (at (length counted) s ∷ []),
    );
  }

-- The run of `input_record` returns 0, and the files list `slots'`, whose students are those of
-- `slots` with the new one at the end.
pub record Added (d : List ℕ) (slots : List Slot) (s : Student) (a : Bool) (out : List Message)
    (r : Run ℕ) : Type 0 where
  pub slots' : List Slot
  pub run :
      Reads
        (with_header a d (int_bytes (length (live slots'))) ++ record_bytes s)
        (index_bytes slots')
        a
        out
        0
        r
  pub indexed :
      Indexed
        (with_header a d (int_bytes (length (live slots'))) ++ record_bytes s)
        (index_bytes slots')
        slots'
  pub students : live slots' ≡ live slots ++ (s ∷ [])
  pub longer : length slots' ≡ suc (length slots)

-- On files in order with room for one more record, where no call of the C library fails,
-- `input_record` returns 0, raises both counts, and leaves files in order: the record is at the end
-- of the data file, and the index file has one more slot, its students being the old ones and the
-- new one behind them. The student has an `int` as roll number and a name of at most 49 characters.
pub input_record-adds :
    {d i : List ℕ} {slots : List Slot} (s : Student) (dp ip : ℕ) (a : Bool) (out : List Message)
    → Indexed d i slots
    → IsStudent s
    → length d + 100 < max_file
    → length i + 8 < max_file
    → Added d slots s a out (input_record s (files d dp a i ip out))
input_record-adds {d} {i} {slots} s dp ip a out l v room_d room_i =
    let same = length-live-added s a l v in
    record {
      slots' = added s a l v;
      run =
          subst
            (λ c.
              Reads (with_header a d (int_bytes c) ++ record_bytes s) (index_bytes (added s a l v))
                a out 0 (input_record s (files d dp a i ip out)))
            (sym same) (input_record-Reads s a l v dp ip out);
      indexed =
          subst
            (λ c.
              Indexed (with_header a d (int_bytes c) ++ record_bytes s)
                (index_bytes (added s a l v)) (added s a l v))
            (sym same) (added-Indexed s a l v room_d room_i);
      students = live-added s a l v;
      longer = omega (arith, length-append slots (at (length (counted s a l v)) s ∷ []));
    }
