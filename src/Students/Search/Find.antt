-- ===== src/Students/Search/Find.antt =====
-- `search` against the first slot with the roll number.
use the_operating_system.Common.{
  ℕ, zero, suc, ◌+◌, ◌-◌, ◌<◌, ◌≡◌, refl, Bool, true, false, Option, none, some, List, [], ◌∷◌,
  arith, inl, inr, ◌==◌, if◌then◌else◌, length, drop, ne→==, Bool-cases, length-eq-zero,
}
use the_operating_system.Common.Bytes.{off_minus_one, positive}
use the_operating_system.Posix.{Message, Run, ok}
use the_operating_system.Posix.Calls.{
  files, seek_data, seek_index, tell_index, off_unchecked, int_unchecked, count_checked,
}
use the_operating_system.Students.Layout.{
  Slot, gone, at, slots_bytes, live, AllStored, Indexed, length-index, length-live-le, max_file,
  Holds-slot, Holds-roll, IsStored-lt, drop-next_slot, Holds-count, drop-count,
}
use the_operating_system.Students.Search.{search, search_loop}

-- The offset of the first slot, from the offset `p` on, whose record has `rollno`.
unfoldable pub find_slot : (p rollno : ℕ) → List Slot → Option ℕ
find_slot p rollno [] = none
find_slot p rollno (gone ∷ xs) = find_slot (p + 8) rollno xs
find_slot p rollno (at off s ∷ xs) =
    if s.roll == rollno then some p else find_slot (p + 8) rollno xs

pub find_slot-live :
    (p rollno : ℕ) (slots : List Slot) → live slots ≡ [] → find_slot p rollno slots ≡ none
unfolding find_slot
find_slot-live p rollno [] e = refl
find_slot-live p rollno (gone ∷ xs) e = find_slot-live (p + 8) rollno xs e
find_slot-live p rollno (at off s ∷ xs) e = cc

pub live-eq-nil :
    (slots : List Slot)
    → length (live slots) < max_file
    → positive (length (live slots)) ≡ false
    → live slots ≡ []
live-eq-nil slots few h = length-eq-zero (live slots) (ground arith)

-- The run ends with the value `x`, and leaves both files but for their positions.
abbrev pub Reads : {A : Type 0} → (d i : List ℕ) (append : Bool) → List Message → A → Run A → Type 0
Reads d i append out x r = (dp ip : ℕ) × (r ≡ ok x (files d dp append i ip out))

module _ (d i : List ℕ) (append : Bool) (out : List Message) (small : length d < max_file) where
  search_loop-find :
      (k : ℕ) (slots : List Slot) (rollno p dp : ℕ)
      → drop p i ≡ slots_bytes slots
      → AllStored d slots
      → length slots < max_file
      → length slots < k
      → Reads d i append out
          (find_slot p rollno slots)
          (search_loop k (length (live slots)) rollno (files d dp append i p out))
  unfolding search_loop find_slot
  search_loop-find zero slots rollno p dp e st few fuel = absurd (omega arith)
  search_loop-find (suc k) [] rollno p dp e st few fuel = (dp, p, refl)
  search_loop-find (suc k) (gone ∷ xs) rollno p dp e st few fuel =
      elim (Bool-cases (positive (length (live xs)))) [
        | inl more ↦
            rw
              (
                more,
                tell_index _ _ _ _ _ _,
                off_unchecked _ _ _ _ _ _ off_minus_one (Holds-slot gone xs e) (omega arith),
              )
              (search_loop-find k xs rollno (p + 8) dp (drop-next_slot i p gone xs e) st
                (omega arith) (omega arith))
        | inr none_left ↦
            rw
              (
                none_left,
                find_slot-live (p + 8) rollno xs
                    (live-eq-nil xs (omega (arith, length-live-le xs)) none_left),
              )
              (dp, p, refl)
      ]
  search_loop-find (suc k) (at off s ∷ xs) rollno p dp e st few fuel =
      let b = IsStored-lt small st.0 in
      let pos : positive (length (live (at off s ∷ xs))) ≡ true =
        ground (arith, length-live-le xs) in
      let rest : suc (length (live xs)) - 1 ≡ length (live xs) = omega arith in
      rw
        (
          pos,
          tell_index _ _ _ _ _ _,
          off_unchecked _ _ _ _ _ _ off (Holds-slot (at off s) xs e) (omega arith),
          ne→== off off_minus_one (omega arith),
          seek_data _ _ _ _ _ _ off (omega arith),
          int_unchecked _ _ _ _ _ _ s.roll (Holds-roll st.0) st.0.student.roll_fits,
        )
        (elim (Bool-cases (s.roll == rollno)) [
          | inl hit ↦ rw hit (off + 4, p + 8, refl)
          | inr miss ↦
              rw (miss, rest)
                (search_loop-find k xs rollno (p + 8) (off + 4) (drop-next_slot i p (at off s) xs e)
                  st.1 (omega arith) (omega arith))
        ])

-- On files in order, where no call of the C library fails, `search` ends, writes to neither file,
-- and returns the offset of the first slot whose record has the roll number, or -1 if there is
-- none.
pub search-find :
    {d i : List ℕ} {slots : List Slot} (rollno dp ip : ℕ) (append : Bool) (out : List Message)
    → Indexed d i slots
    → Reads d i append out (find_slot 4 rollno slots) (search rollno (files d dp append i ip out))
unfolding search
search-find {d} {i} {slots} rollno dp ip append out l =
    rw
      (
        seek_index _ _ _ _ _ _ 0 (omega arith),
        count_checked _ _ _ _ _ _ (length (live slots)) (Holds-count l)
            (omega (arith, length-live-le slots, length-index l, l.index_small)),
      )
      (search_loop-find d i append out l.data_small (suc (length i)) slots rollno 4 dp
        (drop-count l) l.stored (omega (arith, length-index l, l.index_small))
        (omega (arith, length-index l)))
