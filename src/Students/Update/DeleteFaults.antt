-- ===== src/Students/Update/DeleteFaults.antt =====
-- `delete` where some call of the C library fails.
use the_operating_system.Common.{ℕ, ◌≡◌, ◌⊎◌, List}
use the_operating_system.Common.Bytes.{off_bytes, off_minus_one}
use the_operating_system.Posix.{World, splice}
use the_operating_system.Students.Layout.{Slot, live, Indexed}
use the_operating_system.Students.Search.Found.{Absent, remove_roll, Found}
use the_operating_system.Students.Update.Faults.{Holding}

-- Some slots hold the students but for the first with the roll number, and their records.
abbrev pub Removed : (rollno : ℕ) → List Slot → World → Type 0
Removed rollno slots w =
    (xs : List Slot) × (live xs ≡ remove_roll rollno (live slots)) × Holding xs w

abbrev pub MaybeRemoved : (rollno : ℕ) → List Slot → World → Type 0
MaybeRemoved rollno slots w = Holding slots w ⊎ Removed rollno slots w

abbrev pub DeleteOutcome : (rollno : ℕ) → List Slot → ℕ → World → Type 0
DeleteOutcome rollno slots r w =
    ((r ≡ 1) × Absent rollno (live slots) × Holding slots w) ⊎ ((r ≡ 0) × Removed rollno slots w)

module _ {d i : List ℕ} {slots : List Slot} {rollno q : ℕ} (l : Indexed d i slots)
    (f : Found 4 rollno q slots) where
  open f use {before, after, off, who, split}

  -- The index file once the slot is cleared.
  abbrev index : List ℕ
  index = splice i q (off_bytes off_minus_one)
