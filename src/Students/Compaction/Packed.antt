-- ===== src/Students/Compaction/Packed.antt =====
-- The files that hold a list of students one behind the other, with no gaps.
use the_operating_system.Common.{
  ℕ, suc, ◌+◌, ◌*◌, ◌≤◌, ◌<◌, ◌≡◌, refl, ap, sym, subst, List, [], ◌∷◌, ◌++◌, arith, append_assoc,
  length, length-append, drop-append, Holds, take, take_of_le,
}
use the_operating_system.Common.Bytes.{int_bytes, off_bytes}
use the_operating_system.Students.Record.{Student, name_len, record_bytes}
use the_operating_system.Students.Layout.{
  Slot, gone, at, slots_bytes, live, room, index_bytes, AllStored, IsStudent, Layout,
  length-record_bytes, length-slots_bytes, max_file,
}
use the_operating_system.Students.Compaction.{Behind, spare, over_n, encode_slots}

-- The offsets of records that follow one another from `off` on, and the slots with them.
abbrev pub offsets : ℕ → List Student → List ℕ
offsets off [] = []
offsets off (s ∷ ss) = off ∷ offsets (off + (8 + name_len s)) ss

abbrev pub packed : ℕ → List Student → List Slot
packed off [] = []
packed off (s ∷ ss) = at off s ∷ packed (off + (8 + name_len s)) ss

abbrev pub records_bytes : List Student → List ℕ
records_bytes [] = []
records_bytes (s ∷ ss) = record_bytes s ++ records_bytes ss

abbrev pub AllStudents : List Student → Type 0
AllStudents [] = Unit
AllStudents (s ∷ ss) = IsStudent s × AllStudents ss

pub encode_slots-offsets :
    (off : ℕ) (ss : List Student) → encode_slots (offsets off ss) ≡ slots_bytes (packed off ss)
encode_slots-offsets off [] = refl
encode_slots-offsets off (s ∷ ss) =
    ap (λ bs. off_bytes off ++ bs) (encode_slots-offsets (off + (8 + name_len s)) ss)

pub length-offsets : (off : ℕ) (ss : List Student) → length (offsets off ss) ≡ length ss
length-offsets off [] = refl
length-offsets off (s ∷ ss) = ap suc (length-offsets (off + (8 + name_len s)) ss)

pub live-packed : (off : ℕ) (ss : List Student) → live (packed off ss) ≡ ss
live-packed off [] = refl
live-packed off (s ∷ ss) = ap (◌∷◌ s) (live-packed (off + (8 + name_len s)) ss)

pub length-packed : (off : ℕ) (ss : List Student) → length (packed off ss) ≡ length ss
length-packed off [] = refl
length-packed off (s ∷ ss) = ap suc (length-packed (off + (8 + name_len s)) ss)

pub length-records_bytes : (ss : List Student) → length (records_bytes ss) ≡ room ss
length-records_bytes [] = refl
length-records_bytes (s ∷ ss) = omega (
  arith,
  length-append (record_bytes s) (records_bytes ss),
  length-record_bytes s,
  length-records_bytes ss,
)

pub AllStudents-live :
    (d : List ℕ) (slots : List Slot) → AllStored d slots → AllStudents (live slots)
AllStudents-live d [] h = tt
AllStudents-live d (gone ∷ xs) h = AllStudents-live d xs h
AllStudents-live d (at off s ∷ xs) h = (h.0.student, AllStudents-live d xs h.1)

packed-AllStored :
    (pre : List ℕ) (ss : List Student)
    → 4 ≤ length pre
    → AllStudents ss
    → AllStored (pre ++ records_bytes ss) (packed (length pre) ss)
packed-AllStored pre [] h v = tt
packed-AllStored pre (s ∷ ss) h v =
    let longer : length (pre ++ record_bytes s) ≡ length pre + (8 + name_len s) =
      omega (arith, length-append pre (record_bytes s), length-record_bytes s) in
    (
      record {
        student = v.0;
        behind_count = h;
        bytes = record {
          rest = records_bytes ss;
          here = drop-append pre (record_bytes s ++ records_bytes ss);
        };
      },
      subst (λ b. AllStored b (packed (length pre + (8 + name_len s)) ss))
          (append_assoc pre (record_bytes s) (records_bytes ss))
          (subst (λ o. AllStored ((pre ++ record_bytes s) ++ records_bytes ss) (packed o ss)) longer
            (packed-AllStored (pre ++ record_bytes s) ss (omega arith) v.1)),
    )

abbrev pub packed_data : List Student → List ℕ
packed_data ss = int_bytes (length ss) ++ records_bytes ss

-- The students that the files list once `compaction` has written them: where the variable `n` stands
-- behind `idx`, there are none.
abbrev pub kept : Behind → List Student → List Student
kept spare ss = ss
kept over_n ss = []

abbrev pub kept_data : Behind → List Student → List ℕ
kept_data behind ss = int_bytes (length (kept behind ss)) ++ records_bytes ss

-- Files with no gaps are in order.
pub packed-Layout :
    (ss : List Student)
    → AllStudents ss
    → 4 + room ss < max_file
    → 4 + 8 * length ss < max_file
    → Layout (packed_data ss) (index_bytes (packed 4 ss)) (packed 4 ss)
packed-Layout ss v small few =
    let alive = live-packed 4 ss in
    record {
      indexed = record {
        index = refl;
        stored = packed-AllStored (int_bytes (length ss)) ss (omega arith) v;
        fits = omega (arith, ap room alive, length-records_bytes ss);
        data_small = omega (arith, length-records_bytes ss);
        index_small = omega (arith, length-slots_bytes (packed 4 ss), length-packed 4 ss);
      };
      count =
          subst (λ xs. Holds (packed_data ss) 0 (int_bytes (length xs))) (sym alive)
            (record { rest = records_bytes ss; here = refl });
    }

-- So are those that `compaction` writes.
pub kept-Layout :
    (behind : Behind) (ss : List Student)
    → AllStudents ss
    → 4 + room ss < max_file
    → 4 + 8 * length ss < max_file
    → Layout
        (kept_data behind ss)
        (index_bytes (packed 4 (kept behind ss)))
        (packed 4 (kept behind ss))
kept-Layout spare ss v small few = packed-Layout ss v small few
kept-Layout over_n ss v small few = record {
  indexed = record {
    index = refl;
    stored = tt;
    fits = omega arith;
    data_small = omega (arith, length-records_bytes ss);
    index_small = omega arith;
  };
  count = record { rest = records_bytes ss; here = refl };
}

pub length-kept : (behind : Behind) (ss : List Student) → length (kept behind ss) ≤ length ss
length-kept spare ss = omega arith
length-kept over_n ss = omega arith

-- The entries of the buffer that are written.
pub take-offsets :
    (behind : Behind) (ss : List Student)
    → take (length (kept behind ss)) (offsets 4 ss) ≡ offsets 4 (kept behind ss)
take-offsets spare ss = take_of_le (length ss) (offsets 4 ss) (omega (arith, length-offsets 4 ss))
take-offsets over_n ss = refl
