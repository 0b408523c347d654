-- ===== src/Students/Print/Laws.antt =====
-- `print_student` and `print_all` against the list of students.
use the_operating_system.Common.{
  ℕ, zero, suc, ◌+◌, ◌-◌, ◌*◌, ◌<◌, ◌≡◌, refl, subst, Bool, true, false, some, List, [], ◌∷◌, ◌++◌,
  arith, inl, inr, append_assoc, append-nil, length, length-append, drop, Holds, Holds-left,
  Holds-right, ne→==, Bool-cases,
}
use the_operating_system.Common.Bytes.{int_bytes, off_bytes, off_minus_one, positive}
use the_operating_system.Posix.{datafd, Message, student_info, ok, read}
use the_operating_system.Posix.Calls.{
  files, opened, seek_data, seek_index, off_checked, int_checked, count_checked, read-ok,
}
use the_operating_system.Students.Record.{Student, name_len, until_null}
use the_operating_system.Students.Layout.{
  Slot, gone, at, slots_bytes, live, AllStored, AllNonzero, IsStored, Indexed, length-index,
  length-live-le, max_file, Holds-slot, Holds-roll, IsStored-lt, drop-next_slot, Holds-count,
  drop-count,
}
use the_operating_system.Students.Search.Find.{Reads, live-eq-nil}
use the_operating_system.Students.Print.{print_student, print_loop, print_all}

-- The line that `printf` writes for a student.
abbrev pub line : Student → Message
line s = student_info s.roll s.fname

abbrev pub lines : List Student → List Message
lines [] = []
lines (s ∷ ss) = line s ∷ lines ss

until_null-name :
    (name rest : List ℕ) → AllNonzero name → until_null (name ++ (0 ∷ rest)) ≡ some name
unfolding until_null
until_null-name [] rest h = refl
until_null-name (zero ∷ bs) rest h = absurd (omega arith)
until_null-name (suc b ∷ bs) rest h = rw (until_null-name bs rest h.1)

pub Holds-len :
    {d : List ℕ} {off : ℕ} {s : Student}
    → IsStored d off s
    → Holds d (off + 4) (int_bytes (name_len s))
Holds-len {s} st =
    Holds-left (int_bytes (name_len s)) (s.fname ++ (0 ∷ []))
      (Holds-right (int_bytes s.roll) (int_bytes (name_len s) ++ (s.fname ++ (0 ∷ []))) st.bytes)

Holds-name :
    {d : List ℕ} {off : ℕ} {s : Student}
    → IsStored d off s
    → Holds d (off + 4 + 4) (s.fname ++ (0 ∷ []))
Holds-name {s} st =
    Holds-right (int_bytes (name_len s)) (s.fname ++ (0 ∷ []))
      (Holds-right (int_bytes s.roll) (int_bytes (name_len s) ++ (s.fname ++ (0 ∷ []))) st.bytes)

module _ (d i : List ℕ) (a : Bool) where
  pub name_read :
      (off ip : ℕ) (out : List Message) (s : Student)
      → IsStored d off s
      → read datafd (name_len s) (files d (off + 4 + 4) a i ip out)
        ≡ ok (some (s.fname ++ (0 ∷ []))) (files d (off + 4 + 4 + name_len s) a i ip out)
  name_read off ip out s st =
      subst
        (λ n.
          read datafd n (files d (off + 4 + 4) a i ip out)
          ≡ ok (some (s.fname ++ (0 ∷ []))) (files d (off + 4 + 4 + n) a i ip out))
        (length-append s.fname (0 ∷ []))
        (read-ok datafd (opened d (off + 4 + 4) a) (opened i ip false) out (s.fname ++ (0 ∷ []))
          (Holds-name st))

  pub print_student-at :
      (p dp ip off : ℕ) (s : Student) (out : List Message)
      → length d < max_file
      → p < max_file
      → IsStored d off s
      → Holds i p (off_bytes off)
      → print_student p (files d dp a i ip out)
        ≡ ok 0 (files d (off + 4 + 4 + name_len s) a i (p + 8) (out ++ (line s ∷ [])))
  unfolding print_student
  print_student-at p dp ip off s out small low st h =
      let b = IsStored-lt small st in
      let len_pos : positive (name_len s) ≡ true = ground (arith, st.student.name_fits) in
      rw
        (
          seek_index _ _ _ _ _ _ p (omega arith),
          off_checked _ _ _ _ _ _ off h (omega arith),
          ne→== off off_minus_one (omega arith),
          seek_data _ _ _ _ _ _ off (omega arith),
          int_checked _ _ _ _ _ _ s.roll (Holds-roll st) st.student.roll_fits,
          int_checked _ _ _ _ _ _ (name_len s) (Holds-len st) (omega (arith, st.student.name_fits)),
          len_pos,
          name_read off (p + 8) out s st,
          until_null-name s.fname [] st.student.name_text,
        )
        refl

  print_student-gone :
      (p dp ip : ℕ) (out : List Message)
      → p < max_file
      → Holds i p (off_bytes off_minus_one)
      → print_student p (files d dp a i ip out) ≡ ok 1 (files d dp a i (p + 8) out)
  unfolding print_student
  print_student-gone p dp ip out low h = rw (
    seek_index _ _ _ _ _ _ p (omega arith),
    off_checked _ _ _ _ _ _ off_minus_one h (omega arith),
  )

  print_loop-lines :
      (k : ℕ) (slots : List Slot) (p dp ip : ℕ) (out : List Message)
      → drop p i ≡ slots_bytes slots
      → AllStored d slots
      → length d < max_file
      → p + 8 * length slots < max_file
      → length slots < k
      → Reads d i a
          (out ++ lines (live slots))
          tt
          (print_loop k (length (live slots)) p (files d dp a i ip out))
  unfolding print_loop
  print_loop-lines zero slots p dp ip out e st small few fuel = absurd (omega arith)
  print_loop-lines (suc k) [] p dp ip out e st small few fuel = (dp, ip, rw (append-nil out))
  print_loop-lines (suc k) (gone ∷ xs) p dp ip out e st small few fuel =
      elim (Bool-cases (positive (length (live xs)))) [
        | inl more ↦
            rw (more, print_student-gone p dp ip out (omega arith) (Holds-slot gone xs e))
              (print_loop-lines k xs (p + 8) dp (p + 8) out (drop-next_slot i p gone xs e) st small
                (omega arith) (omega arith))
        | inr none_left ↦
            rw (none_left, live-eq-nil xs (omega (arith, length-live-le xs)) none_left, append-nil)
              (dp, ip, refl)
      ]
  print_loop-lines (suc k) (at off s ∷ xs) p dp ip out e st small few fuel =
      let pos : positive (length (live (at off s ∷ xs))) ≡ true =
        ground (arith, length-live-le xs) in
      let rest : suc (length (live xs)) - 1 ≡ length (live xs) = omega arith in
      rw
        (
          pos,
          print_student-at p dp ip off s out small (omega arith) st.0 (Holds-slot (at off s) xs e),
          rest,
          ← append_assoc out (line s ∷ []) (lines (live xs)),
        )
        (print_loop-lines k xs (p + 8) (off + 4 + 4 + name_len s) (p + 8) (out ++ (line s ∷ []))
          (drop-next_slot i p (at off s) xs e) st.1 small (omega arith) (omega arith))

-- On files in order, where no call of the C library fails, `print_all` ends, prints a line for each
-- student in the order of the index file and nothing else, returns 0 and writes to neither file.
pub print_all-lines :
    {d i : List ℕ} {slots : List Slot} (dp ip : ℕ) (a : Bool) (out : List Message)
    → Indexed d i slots
    → Reads d i a (out ++ lines (live slots)) 0 (print_all (files d dp a i ip out))
unfolding print_all
print_all-lines {d} {i} {slots} dp ip a out l =
    let (dp', ip', run) =
      print_loop-lines d i a (suc (length i)) slots 4 dp 4 out (drop-count l) l.stored l.data_small
        (omega (arith, length-index l, l.index_small)) (omega (arith, length-index l)) in
    rw
      (
        seek_index _ _ _ _ _ _ 0 (omega arith),
        count_checked _ _ _ _ _ _ (length (live slots)) (Holds-count l)
            (omega (arith, length-live-le slots, length-index l, l.index_small)),
      )
      (dp', ip', rw run)
