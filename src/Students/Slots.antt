-- ===== src/Students/Slots.antt =====
-- Laws of slot lists and of the records that a data file holds, for the proofs about the student
-- database.
use the_operating_system.Common.{
  ℕ, ◌+◌, ◌-◌, ◌≤◌, ◌≡◌, refl, ap, sym, ◌∙◌, Bool, true, false, List, [], ◌∷◌, ◌++◌, arith, length,
  length-append, length-drop, drop, drop-drop, drop-append, Holds, Holds-append, Holds-bound,
}
use the_operating_system.Posix.Writing.{with_header}
use the_operating_system.Students.Record.{Student}
use the_operating_system.Students.Layout.{
  Slot, gone, at, slots_bytes, live, room, AllStored, IsStored,
}

pub slots_bytes-append :
    (xs ys : List Slot) → slots_bytes (xs ++ ys) ≡ slots_bytes xs ++ slots_bytes ys
slots_bytes-append [] ys = refl
slots_bytes-append (x ∷ xs) ys = rw (slots_bytes-append xs ys)

pub live-append : (xs ys : List Slot) → live (xs ++ ys) ≡ live xs ++ live ys
live-append [] ys = refl
live-append (gone ∷ xs) ys = live-append xs ys
live-append (at off s ∷ xs) ys = ap (◌∷◌ s) (live-append xs ys)

pub room-append : (xs ys : List Student) → room (xs ++ ys) ≡ room xs + room ys
room-append [] ys = omega arith
room-append (s ∷ xs) ys = omega (arith, room-append xs ys)

pub AllStored-append :
    (d : List ℕ) (xs ys : List Slot) → AllStored d xs → AllStored d ys → AllStored d (xs ++ ys)
AllStored-append d [] ys hx hy = hy
AllStored-append d (gone ∷ xs) ys hx hy = AllStored-append d xs ys hx hy
AllStored-append d (at off s ∷ xs) ys hx hy = (hx.0, AllStored-append d xs ys hx.1 hy)

pub AllStored-left : (d : List ℕ) (xs ys : List Slot) → AllStored d (xs ++ ys) → AllStored d xs
AllStored-left d [] ys h = tt
AllStored-left d (gone ∷ xs) ys h = AllStored-left d xs ys h
AllStored-left d (at off s ∷ xs) ys h = (h.0, AllStored-left d xs ys h.1)

pub AllStored-right : (d : List ℕ) (xs ys : List Slot) → AllStored d (xs ++ ys) → AllStored d ys
AllStored-right d [] ys h = h
AllStored-right d (gone ∷ xs) ys h = AllStored-right d xs ys h
AllStored-right d (at off s ∷ xs) ys h = AllStored-right d xs ys h.1

pub AllStored-mono :
    {d d' : List ℕ} (xs : List Slot)
    → ((off : ℕ) (s : Student) → IsStored d off s → IsStored d' off s)
    → AllStored d xs
    → AllStored d' xs
AllStored-mono [] keep h = tt
AllStored-mono (gone ∷ xs) keep h = AllStored-mono xs keep h
AllStored-mono (at off s ∷ xs) keep h = (keep off s h.0, AllStored-mono xs keep h.1)

-- Bytes added at the end of the data file leave the records.
pub IsStored-append :
    {d : List ℕ} {off : ℕ} {s : Student} (bs : List ℕ) → IsStored d off s → IsStored (d ++ bs) off s
IsStored-append bs st = record {
  student = st.student;
  behind_count = st.behind_count;
  bytes = Holds-append bs (omega (arith, Holds-bound _ _ st.bytes)) st.bytes;
}

drop-header :
    (d bs : List ℕ) (k : ℕ)
    → drop (length bs + k) (bs ++ drop (length bs) d) ≡ drop (length bs + k) d
drop-header d bs k =
    sym (drop-drop k (length bs) (bs ++ drop (length bs) d))
    ∙ ap (drop k) (drop-append bs (drop (length bs) d))
    ∙ drop-drop k (length bs) d

Holds-header :
    {d : List ℕ} {off : ℕ} {cs : List ℕ} (bs : List ℕ)
    → length bs ≤ off
    → Holds d off cs
    → Holds (bs ++ drop (length bs) d) off cs
Holds-header {d} {off} {cs} bs h holds =
    let e : length bs + (off - length bs) ≡ off = omega arith in
    record { rest = holds.rest; here = rw (← e) (drop-header d bs (off - length bs)) ∙ holds.here }

-- So does a count written at its start, or at its end.
pub IsStored-with_header :
    (a : Bool) (d bs : List ℕ) (off : ℕ) (s : Student)
    → length bs ≡ 4
    → IsStored d off s
    → IsStored (with_header a d bs) off s
IsStored-with_header true d bs off s h st = IsStored-append bs st
IsStored-with_header false d bs off s h st = record {
  student = st.student;
  behind_count = st.behind_count;
  bytes = Holds-header bs (omega (arith, st.behind_count)) st.bytes;
}

pub length-with_header :
    (a : Bool) (d bs : List ℕ)
    → length bs ≡ 4
    → 4 ≤ length d
    → (length d ≤ length (with_header a d bs)) × (length (with_header a d bs) ≤ length d + 4)
length-with_header true d bs h l = omega (arith, length-append d bs)
length-with_header false d bs h l =
    omega (arith, length-append bs (drop (length bs) d), length-drop (length bs) d)
