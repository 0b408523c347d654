-- ===== src/Students/Update/Faults.antt =====
-- `input_record` where some call of the C library fails.
use the_operating_system.Common.{
  ℕ, ◌+◌, ◌-◌, ◌≤◌, ◌≡◌, ap, sym, ◌∙◌, List, [], ◌++◌, arith, append_assoc, append-nil, length,
  length-append, drop, Holds, Holds-bound, drop-append, drop-append_of_le, drop-drop, length-drop,
}
use the_operating_system.Common.Bytes.{int_bytes, length-le_bytes}
use the_operating_system.Posix.{World, splice}
use the_operating_system.Posix.Writing.{splice_start}
use the_operating_system.Students.Record.{Student, name_len, name_room}
use the_operating_system.Students.Layout.{Slot, slots_bytes, AllStored, IsStored}
use the_operating_system.Students.Slots.{AllStored-mono}

-- Behind the count, the same bytes and maybe more.
pub record Keeps (old new : List ℕ) : Type 0 where
  pub more : List ℕ
  pub counted : 4 ≤ length new
  pub bytes : drop 4 new ≡ drop 4 old ++ more

abbrev pub Kept : List ℕ → List ℕ → World → Type 0
Kept d i w = Keeps d w.data_file.bytes × Keeps i w.index_file.bytes

pub Keeps-count :
    {old bs : List ℕ} (h : List ℕ) → length h ≡ 4 → Keeps old bs → Keeps old (splice bs 0 h)
Keeps-count {old} {bs} h four k = record {
  more = k.more;
  counted =
      omega (arith, ap (length {A = ℕ}) (splice_start bs h), length-append h (drop (length h) bs));
  bytes =
      ap (drop 4) (splice_start bs h)
      ∙ ap (λ n. drop n (h ++ drop (length h) bs)) (sym four)
      ∙ drop-append h (drop (length h) bs)
      ∙ ap (λ n. drop n bs) four
      ∙ k.bytes;
}

pub length-int_bytes : (n : ℕ) → length (int_bytes n) ≡ 4
length-int_bytes n = length-le_bytes 4 n

module _ (s : Student) (fits : name_len s ≤ name_room) (d₀ i₀ : List ℕ) where
  abbrev Returns : ℕ → World → Type 0
  Returns r w = (r ≡ 0) × Kept d₀ i₀ w

-- Records and slots are where they were.
abbrev pub Holding : List Slot → World → Type 0
Holding slots w = AllStored w.data_file.bytes slots × Holds w.index_file.bytes 4 (slots_bytes slots)

Keeps-Holds :
    {old new : List ℕ} {off : ℕ} {bs : List ℕ}
    → Keeps old new
    → 4 ≤ off
    → off ≤ length old
    → Holds old off bs
    → Holds new off bs
Keeps-Holds {old} {new} {off} {bs} k behind within h =
    let split : 4 + (off - 4) ≡ off = omega arith in
    record {
      rest = h.rest ++ k.more;
      here =
          ap (λ n. drop n new) (sym split)
          ∙ sym (drop-drop (off - 4) 4 new)
          ∙ ap (drop (off - 4)) k.bytes
          ∙ drop-append_of_le (off - 4) (drop 4 old) k.more (omega (arith, length-drop 4 old))
          ∙ ap (λ r. r ++ k.more) (drop-drop (off - 4) 4 old ∙ ap (λ n. drop n old) split ∙ h.here)
          ∙ append_assoc bs h.rest k.more;
    }

Keeps-IsStored :
    {old new : List ℕ} {off : ℕ} {s : Student}
    → Keeps old new
    → IsStored old off s
    → IsStored new off s
Keeps-IsStored k st = record {
  student = st.student;
  behind_count = st.behind_count;
  bytes = Keeps-Holds k st.behind_count (omega (arith, Holds-bound _ _ st.bytes)) st.bytes;
}

pub Kept-Holding :
    {d i : List ℕ} (slots : List Slot) (w : World)
    → AllStored d slots
    → drop 4 i ≡ slots_bytes slots
    → 4 ≤ length i
    → Kept d i w
    → Holding slots w
Kept-Holding {d} {i} slots w stored index counted (kd, ki) = (
  AllStored-mono slots (λ off s st. Keeps-IsStored kd st) stored,
  Keeps-Holds ki (omega arith) counted
      (record { rest = []; here = index ∙ sym (append-nil (slots_bytes slots)) }),
)

pub unchanged : (bs : List ℕ) → 4 ≤ length bs → Keeps bs bs
unchanged bs h = record { more = []; counted = h; bytes = sym (append-nil (drop 4 bs)) }
