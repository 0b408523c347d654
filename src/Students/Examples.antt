-- ===== src/Students/Examples.antt =====
-- Three students, ann, bob and cy, and files that hold their records.
use the_operating_system.Common.{ℕ, refl, false, List, [], ◌∷◌, ◌++◌, arith}
use the_operating_system.Common.Bytes.{int_bytes}
use the_operating_system.Posix.{File, World}
use the_operating_system.Posix.Calls.{files}
use the_operating_system.Students.Record.{Student, record_bytes}
use the_operating_system.Students.Layout.{Slot, gone, at, index_bytes, IsStudent, Layout}
use the_operating_system.Students.Compaction.Packed.{
  packed, packed_data, packed-Layout, records_bytes,
}
use the_operating_system.Students.Sort.Entries.{Entry}
use the_operating_system.Students.Menu.{Choice, add, remove, show, modify}
use the_operating_system.Students.Menu.Database.{Database}

abbrev pub ann : Student
ann = record { roll = 7; fname = b'a' ∷ b'n' ∷ b'n' ∷ [] }

abbrev pub bob : Student
bob = record { roll = 3; fname = b'b' ∷ b'o' ∷ b'b' ∷ [] }

abbrev pub cy : Student
cy = record { roll = 5; fname = b'c' ∷ b'y' ∷ [] }

abbrev pub three : List Student
three = ann ∷ bob ∷ cy ∷ []

pub ann-IsStudent : IsStudent ann
ann-IsStudent = record {
  roll_fits = omega arith;
  name_fits = omega arith;
  name_text = (omega arith, (omega arith, (omega arith, tt)));
}

pub bob-IsStudent : IsStudent bob
bob-IsStudent = record {
  roll_fits = omega arith;
  name_fits = omega arith;
  name_text = (omega arith, (omega arith, (omega arith, tt)));
}

pub cy-IsStudent : IsStudent cy
cy-IsStudent = record {
  roll_fits = omega arith;
  name_fits = omega arith;
  name_text = (omega arith, (omega arith, tt));
}

abbrev pub three_data : List ℕ
three_data = packed_data three

abbrev pub three_slots : List Slot
three_slots = packed 4 three

abbrev pub three_index : List ℕ
three_index = index_bytes three_slots

abbrev pub opened_files : World
opened_files = files three_data 0 false three_index 0 []

pub three-Layout : Layout three_data three_index three_slots
three-Layout =
    packed-Layout three (ann-IsStudent, (bob-IsStudent, (cy-IsStudent, tt))) (omega arith)
      (omega arith)

abbrev pub three-Database : Database 4 three [] opened_files
three-Database = record {
  data_bytes = three_data;
  index_bytes = three_index;
  dp = 0;
  ip = 0;
  append = false;
  slots = three_slots;
  world = refl;
  layout = three-Layout;
  students = refl;
  data_room = omega arith;
  index_room = omega arith;
}

-- The three records, where that of ann is deleted.
abbrev pub gap_slots : List Slot
gap_slots = gone ∷ at 16 bob ∷ at 28 cy ∷ []

abbrev pub two_data : List ℕ
two_data = int_bytes 2 ++ records_bytes three

pub gap-Layout : Layout two_data (index_bytes gap_slots) gap_slots
gap-Layout = record {
  indexed = record {
    index = refl;
    stored = (
      record {
        student = bob-IsStudent;
        behind_count = omega arith;
        bytes = record { rest = record_bytes cy; here = refl };
      },
      (
        record {
          student = cy-IsStudent;
          behind_count = omega arith;
          bytes = record { rest = []; here = refl };
        },
        tt,
      ),
    );
    fits = omega arith;
    data_small = omega arith;
    index_small = omega arith;
  };
  count = record { rest = records_bytes three; here = refl };
}

abbrev pub gap-Database :
    Database 4 (bob ∷ cy ∷ []) [] (files two_data 0 false (index_bytes gap_slots) 0 [])
gap-Database = record {
  data_bytes = two_data;
  index_bytes = index_bytes gap_slots;
  dp = 0;
  ip = 0;
  append = false;
  slots = gap_slots;
  world = refl;
  layout = gap-Layout;
  students = refl;
  data_room = omega arith;
  index_room = omega arith;
}

-- The three records, where that of cy, the last one, is deleted.
abbrev pub end_slots : List Slot
end_slots = at 4 ann ∷ at 16 bob ∷ gone ∷ []

pub end-Layout : Layout two_data (index_bytes end_slots) end_slots
end-Layout = record {
  indexed = record {
    index = refl;
    stored = (
      record {
        student = ann-IsStudent;
        behind_count = omega arith;
        bytes = record { rest = record_bytes bob ++ record_bytes cy; here = refl };
      },
      (
        record {
          student = bob-IsStudent;
          behind_count = omega arith;
          bytes = record { rest = record_bytes cy; here = refl };
        },
        tt,
      ),
    );
    fits = omega arith;
    data_small = omega arith;
    index_small = omega arith;
  };
  count = record { rest = records_bytes three; here = refl };
}

abbrev pub end_world : World
end_world = files two_data 0 false (index_bytes end_slots) 0 []

abbrev pub visit : List Choice
visit = remove 7 ∷ modify 3 ann ∷ add bob ∷ show 5 ∷ []

abbrev pub es : List Entry
es = (4, ann) ∷ (16, bob) ∷ (28, cy) ∷ []

abbrev pub far : Student
far = record { roll = 20000; fname = b'f' ∷ [] }

abbrev pub farther : Student
farther = record { roll = 30000; fname = b'g' ∷ [] }

abbrev pub far_data : List ℕ
far_data = packed_data (farther ∷ far ∷ [])

abbrev pub far_index : List ℕ
far_index = index_bytes (packed 4 (farther ∷ far ∷ []))

pub far-Layout : Layout far_data far_index (packed 4 (farther ∷ far ∷ []))
far-Layout =
    packed-Layout (farther ∷ far ∷ [])
      (
        record { roll_fits = omega arith; name_fits = omega arith; name_text = (omega arith, tt) },
        (
          record {
            roll_fits = omega arith;
            name_fits = omega arith;
            name_text = (omega arith, tt);
          },
          tt,
        ),
      )
      (omega arith) (omega arith)

abbrev pub no_file : File
no_file = record { present = false; bytes = []; pos = 0; append = false }
