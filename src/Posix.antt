-- ===== src/Posix.antt =====
-- The calls of the C library that assignments/as1/as1_os.c makes on its two files: open, lseek,
-- read, write, close and exit, on one `World`. A file is the list of its bytes. `faults` schedules
-- failures: each call takes the next entry, and fails (returns -1) where that is `true`; an
-- exhausted schedule means no more failures. A write that does not fail writes all of its bytes.
-- A read of a variable that no call has set, or an access outside a buffer, is `undefined`.
pub mod Calls
pub mod Writing
use the_operating_system.Common.{
  ℕ, zero, suc, ◌+◌, ◌-◌, Bool, true, false, Option, none, some, List, [], ◌∷◌, ◌++◌, ltb, leb,
  ◌==◌, if◌then◌else◌, length, take, drop, replicate,
}
use the_operating_system.Common.Bytes.{le_value}

-- The two descriptors that the functions pass about.
pub data Fd : Type 0 where
  datafd indexfd : Fd

pub record File : Type 0 where
  pub present : Bool
  pub bytes : List ℕ
  pub pos : ℕ
  pub append : Bool

-- What the program prints that depends on the files.
pub data Message : Type 0 where
  student_info : ℕ → List ℕ → Message
  student_found : ℕ → Message
  student_not_found no_such_student record_deleted record_not_deleted : Message
  record_input record_modified compaction_successful sort_done invalid_option : Message

pub record World : Type 0 where
  pub data_file : File
  pub index_file : File
  pub faults : List Bool
  pub output : List Message

pub data Run (A : Type 0) : Type 0 where
  ok : A → World → Run A
  exited : ℕ → World → Run A
  undefined : Run A
  out_of_fuel : Run A

abbrev pub Cmd : Type 0 → Type 0
Cmd A = World → Run A

abbrev pub pure : {A : Type 0} → A → Cmd A
pure = ok

module _ {A B : Type 0} where
  abbrev pub and_then : Run A → (A → Cmd B) → Run B
  and_then (ok a w) k = k a w
  and_then (exited code w) k = exited code w
  and_then undefined k = undefined
  and_then out_of_fuel k = out_of_fuel

  infixl 5 ◌>>=◌ ◌>>◌
  abbrev pub ◌>>=◌ : Cmd A → (A → Cmd B) → Cmd B
  m >>= k = λ w. and_then (m w) k

  abbrev pub ◌>>◌ : Cmd A → Cmd B → Cmd B
  m >> n = m >>= λ _. n

abbrev pub exit : {A : Type 0} → ℕ → Cmd A
exit code w = exited code w

abbrev pub undefined_behaviour : {A : Type 0} → Cmd A
undefined_behaviour w = undefined

abbrev pub print : Message → Cmd (Unit {0})
print m w = ok tt (record w { output = w.output ++ (m ∷ []) })

abbrev pub file : Fd → World → File
file datafd w = w.data_file
file indexfd w = w.index_file

abbrev pub set_file : Fd → File → World → World
set_file datafd f w = record w { data_file = f }
set_file indexfd f w = record w { index_file = f }

-- Whether the next call fails, by the schedule.
abbrev pub next_fault : Cmd Bool
next_fault w = elim w.faults [ [] ↦ ok false w | b ∷ r ↦ ok b (record w { faults = r }) ]

-- A call that fails by the schedule, or does `step`; `none` is the result -1.
abbrev pub call : {A : Type 0} → Cmd (Option A) → Cmd (Option A)
call step = do failed ← next_fault; if failed then pure none else step

-- `if (flag == -1) { perror(…); exit(1); }` behind a call.
abbrev pub or_exit : {A : Type 0} → Cmd (Option A) → Cmd A
or_exit m = m >>= λ r. elim r [ none ↦ exit 1 | some a ↦ pure a ]

-- `open(name, O_RDWR)`, with `O_APPEND` or without: the file has to be there.
unfoldable pub open_file : Fd → Bool → Cmd (Option (Unit {0}))
open_file fd append = call λ w.
    let f = file fd w in
    if f.present
    then ok (some tt) (set_file fd (record f { pos = 0; append = append }) w)
    else ok none w

abbrev pub empty_file : File
empty_file = record { present = true; bytes = []; pos = 0; append = false }

-- `open(name, … | O_TRUNC)`, with `O_CREAT` or without.
unfoldable pub open_trunc : Fd → Bool → Cmd (Option (Unit {0}))
open_trunc fd create = call λ w.
    if (file fd w).present
    then ok (some tt) (set_file fd empty_file w)
    else if create
    then ok (some tt) (set_file fd empty_file w)
    else ok none w

-- `lseek(fd, off, SEEK_SET)`: an offset that is negative as an `off_t` is refused.
unfoldable pub seek_set : Fd → ℕ → Cmd (Option ℕ)
seek_set fd off = call λ w.
    if ltb off 0x8000_0000_0000_0000
    then ok (some off) (set_file fd (record (file fd w) { pos = off }) w)
    else ok none w

-- `lseek(fd, 0, SEEK_CUR)`
unfoldable pub seek_cur : Fd → Cmd (Option ℕ)
seek_cur fd = call λ w. ok (some (file fd w).pos) w

-- `lseek(fd, 0, SEEK_END)`
unfoldable pub seek_end : Fd → Cmd (Option ℕ)
seek_end fd = call λ w.
    let n = length (file fd w).bytes in ok (some n) (set_file fd (record (file fd w) { pos = n }) w)

-- `read(fd, …, k)`: the bytes that it reads, fewer than `k` at the end of the file.
unfoldable pub read : Fd → ℕ → Cmd (Option (List ℕ))
read fd k = call λ w.
    let f = file fd w in
    let bs = take k (drop f.pos f.bytes) in
    ok (some bs) (set_file fd (record f { pos = f.pos + length bs }) w)

-- The bytes of a file after a write of `bs` at `pos`; a gap is filled by zeros.
abbrev pub splice : List ℕ → ℕ → List ℕ → List ℕ
splice f pos bs = (take pos f ++ replicate (pos - length f) 0) ++ (bs ++ drop (pos + length bs) f)

-- `write(fd, bs, …)`: at the end of the file where it is open for appending.
unfoldable pub write : Fd → List ℕ → Cmd (Option ℕ)
write fd bs = call λ w.
    let f = file fd w in
    let pos = if f.append then length f.bytes else f.pos in
    ok (some (length bs))
      (set_file fd (record f { bytes = splice f.bytes pos bs; pos = pos + length bs }) w)

-- A read that exits if it fails or is short: `flag == -1 || flag != sizeof(…)`.
unfoldable pub read_checked : Fd → ℕ → Cmd ℕ
read_checked fd k = do
  bs ← or_exit (read fd k)
  if length bs == k then pure (le_value bs) else exit 1

-- A read that exits only if it fails. A short read leaves the variable unset, and it is used.
unfoldable pub read_unchecked : Fd → ℕ → Cmd ℕ
read_unchecked fd k = do
  bs ← or_exit (read fd k)
  if length bs == k then pure (le_value bs) else undefined_behaviour
