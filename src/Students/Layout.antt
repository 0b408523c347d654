-- ===== src/Students/Layout.antt =====
-- What the two files of the student database hold when no operation is under way: the invariant
-- of as1_os.c, and the list of students that a pair of files stands for.
use the_operating_system.Common.{
  ℕ, ◌+◌, ◌*◌, ◌≤◌, ◌<◌, ◌≡◌, refl, ap, List, [], ◌∷◌, ◌++◌, arith, length, length-append, Holds,
  sym, ◌∙◌, drop, drop-drop, Holds-left, Holds-bound,
}
use the_operating_system.Common.Bytes.{int_bytes, off_bytes, off_minus_one}
use the_operating_system.Students.Record.{Student, name_len, name_room, record_bytes}

-- A slot of the index file: that of a deleted record, or the offset of a record.
pub data Slot : Type 0 where
  gone : Slot
  at : ℕ → Student → Slot

abbrev pub slot_offset : Slot → ℕ
slot_offset gone = off_minus_one
slot_offset (at off s) = off

abbrev pub slots_bytes : List Slot → List ℕ
slots_bytes [] = []
slots_bytes (x ∷ xs) = off_bytes (slot_offset x) ++ slots_bytes xs

-- The students of a database, in the order of the index file.
abbrev pub live : List Slot → List Student
live [] = []
live (gone ∷ xs) = live xs
live (at off s ∷ xs) = s ∷ live xs

-- The bytes that the records take up.
abbrev pub room : List Student → ℕ
room [] = 0
room (s ∷ ss) = (8 + name_len s) + room ss

abbrev pub AllNonzero : List ℕ → Type 0
AllNonzero [] = Unit
AllNonzero (b ∷ bs) = (0 < b) × AllNonzero bs

-- A student whose record `input_record` can write: an `int`, and a name that fits its buffer.
pub record IsStudent (s : Student) : Type 0 where
  pub roll_fits : s.roll < 0x1_0000_0000
  pub name_fits : name_len s ≤ name_room
  pub name_text : AllNonzero s.fname

pub record IsStored (d : List ℕ) (off : ℕ) (s : Student) : Type 0 where
  pub student : IsStudent s
  pub behind_count : 4 ≤ off
  pub bytes : Holds d off (record_bytes s)

abbrev pub AllStored : List ℕ → List Slot → Type 0
AllStored d [] = Unit
AllStored d (gone ∷ xs) = AllStored d xs
AllStored d (at off s ∷ xs) = IsStored d off s × AllStored d xs

abbrev pub max_file : ℕ
max_file = 0x4000_0000

-- The index file `i` lists `slots`, and the data file `d` holds their records.
pub record Indexed (d i : List ℕ) (slots : List Slot) : Type 0 where
  pub index : i ≡ int_bytes (length (live slots)) ++ slots_bytes slots
  pub stored : AllStored d slots
  pub fits : 4 + room (live slots) ≤ length d
  pub data_small : length d < max_file
  pub index_small : length i < max_file

-- The data file has the right count too.
pub record Layout (d i : List ℕ) (slots : List Slot) : Type 0 where
  pub indexed : Indexed d i slots
  pub count : Holds d 0 (int_bytes (length (live slots)))

pub length-slots_bytes : (slots : List Slot) → length (slots_bytes slots) ≡ 8 * length slots
length-slots_bytes [] = refl
length-slots_bytes (x ∷ xs) = omega (arith, length-slots_bytes xs)

pub length-live-le : (slots : List Slot) → length (live slots) ≤ length slots
length-live-le [] = omega arith
length-live-le (gone ∷ xs) = omega (arith, length-live-le xs)
length-live-le (at off s ∷ xs) = omega (arith, length-live-le xs)

pub length-record_bytes : (s : Student) → length (record_bytes s) ≡ 8 + name_len s
length-record_bytes s = omega (arith, length-append s.fname (0 ∷ []))

pub length-index :
    {d i : List ℕ} {slots : List Slot} → Indexed d i slots → length i ≡ 4 + 8 * length slots
length-index {slots} l = omega (arith, ap length l.index, length-slots_bytes slots)

-- The rest of the index file behind its first slot.
pub drop-next_slot :
    (i : List ℕ) (p : ℕ) (x : Slot) (xs : List Slot)
    → drop p i ≡ slots_bytes (x ∷ xs)
    → drop (p + 8) i ≡ slots_bytes xs
drop-next_slot i p x xs e = sym (drop-drop 8 p i) ∙ ap (drop 8) e

pub Holds-slot :
    {i : List ℕ} {p : ℕ} (x : Slot) (xs : List Slot)
    → drop p i ≡ slots_bytes (x ∷ xs)
    → Holds i p (off_bytes (slot_offset x))
Holds-slot x xs e = record { rest = slots_bytes xs; here = e }

pub IsStored-lt :
    {d : List ℕ} {off : ℕ} {s : Student} → length d < max_file → IsStored d off s → off < max_file
IsStored-lt small st = omega (arith, Holds-bound _ _ st.bytes)

pub Holds-roll :
    {d : List ℕ} {off : ℕ} {s : Student} → IsStored d off s → Holds d off (int_bytes s.roll)
Holds-roll {s} st =
    Holds-left (int_bytes s.roll) (int_bytes (name_len s) ++ (s.fname ++ (0 ∷ []))) st.bytes

module _ {d i : List ℕ} {slots : List Slot} (l : Indexed d i slots) where
  pub Holds-count : Holds i 0 (int_bytes (length (live slots)))
  Holds-count = record { rest = slots_bytes slots; here = l.index }

  pub drop-count : drop 4 i ≡ slots_bytes slots
  drop-count = ap (drop 4) l.index

-- The index file that lists `slots`.
abbrev pub index_bytes : List Slot → List ℕ
index_bytes slots = int_bytes (length (live slots)) ++ slots_bytes slots
