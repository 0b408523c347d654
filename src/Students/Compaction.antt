-- ===== src/Students/Compaction.antt =====
-- `read_intobuffer` and `compaction` of as1_os.c.
pub mod Packed
pub mod Counted
pub mod Buffers
pub mod Laws
pub mod Faults
use the_operating_system.Common.{
  ℕ, zero, suc, ◌+◌, ◌-◌, ◌*◌, ◌/◌, ◌%◌, ◌++◌, Bool, true, false, Option, none, some, [], ◌∷◌, List,
  ltb, leb, ◌==◌, if◌then◌else◌, length, take,
}
use the_operating_system.Common.Bytes.{
  int_bytes, off_bytes, le_value, int_minus_one, positive, widen,
}
use the_operating_system.Posix.{
  datafd, indexfd, Cmd, out_of_fuel, pure, ◌>>=◌, or_exit, undefined_behaviour, open_file,
  open_trunc, seek_set, seek_end, read, write, read_unchecked,
}

-- The characters of the name: the rest of the record, if the buffer has room for it.
read_name : (room rollno fname_len : ℕ) → Cmd (List ℕ)
read_name room rollno fname_len =
    if leb (8 + fname_len) room
    then (do
      fname ← or_exit (read datafd fname_len)
      if length fname == fname_len
          then pure (int_bytes rollno ++ (int_bytes fname_len ++ fname))
          else undefined_behaviour)
    else undefined_behaviour

-- The bytes that it puts into the buffer, which has room for `room` more. To write behind the end
-- of the buffer, or to pass on a part of it that no read has set, is undefined.
unfoldable pub read_intobuffer : (room idx : ℕ) → Cmd (List ℕ)
unfolding read_name
read_intobuffer room idx = do
  _ ← or_exit (seek_set datafd (widen idx))
  rollno ← read_unchecked datafd 4
  fname_len ← read_unchecked datafd 4
  read_name room rollno fname_len

-- `idx_buff[i] = v`, where the entries below `i` are set, and perhaps the entry at `i`.
abbrev pub store : List ℕ → ℕ → ℕ → List ℕ
store idx_buff i v = take i idx_buff ++ (v ∷ [])

abbrev pub encode_slots : List ℕ → List ℕ
encode_slots [] = []
encode_slots (v ∷ vs) = off_bytes v ++ encode_slots vs

-- What the compiler has put behind the `int` `idx` of `compaction`, into which 8 bytes are read: the
-- 4 bytes over `idx` go to bytes that are not in use, or to the variable `n`.
pub data Behind : Type 0 where
  spare over_n : Behind

-- The value of `n` once those 4 bytes are `high`.
abbrev pub clobber : Behind → (n high : ℕ) → ℕ
clobber spare n high = n
clobber over_n n high = high

-- `while (off_of_off < end)`. An `off_t` is read into the `int` `idx`, which takes its low half; the
-- high half goes behind it. `idx_buff` has `entries` entries, the value of `n` where it is declared, and
-- `data_buff` has room for `cap` bytes. The result has the value of `n` after the loop.
unfoldable pub gather :
    Behind
    → ℕ
    → (end entries cap n off_of_off i : ℕ) (idx_buff data_buff : List ℕ) → Cmd (ℕ × List ℕ × List ℕ)
gather behind zero end entries cap n off_of_off i idx_buff data_buff = λ _. out_of_fuel
gather behind (suc k) end entries cap n off_of_off i idx_buff data_buff =
    if ltb off_of_off end
    then if ltb i entries
      then (do
        let idx_buff' = store idx_buff i (length data_buff + 4)
        slot ← read_unchecked indexfd 8
        let idx = slot % 0x1_0000_0000
        let n' = clobber behind n (slot / 0x1_0000_0000)
        if idx == int_minus_one
            then gather behind k end entries cap n' (off_of_off + 8) i idx_buff' data_buff
            else (do
              bytes ← read_intobuffer (cap - length data_buff) idx
              gather behind k end entries cap n' (off_of_off + 8) (i + 1) idx_buff'
                  (data_buff ++ bytes)))
      else undefined_behaviour
    else pure (n, idx_buff, data_buff)

-- Both files are emptied, and written from the buffers. To write entries that are not set is undefined.
rewrite : (n : ℕ) → (idx_buff data_buff : List ℕ) → Cmd ℕ
rewrite n idx_buff data_buff = do
  _ ← or_exit (open_trunc indexfd false)
  _ ← or_exit (open_trunc datafd false)
  _ ← or_exit (write indexfd (int_bytes n))
  if leb n (length idx_buff)
      then (do
        _ ← or_exit (write indexfd (encode_slots (take n idx_buff)))
        _ ← or_exit (write datafd (int_bytes n))
        _ ← or_exit (write datafd data_buff)
        pure 0)
      else undefined_behaviour

unfoldable pub compaction : Behind → Cmd ℕ
unfolding rewrite
compaction behind = do
  _ ← or_exit (open_file indexfd false)
  _ ← or_exit (open_file datafd false)
  end ← or_exit (seek_end indexfd)
  _ ← or_exit (seek_set indexfd 0)
  n ← read_unchecked indexfd 4
  data_end ← or_exit (seek_end datafd)
  if ltb n 0x8000_0000
      then (do
        (n', idx_buff, data_buff) ← gather behind (suc end) end n data_end n 4 0 [] []
        rewrite n' idx_buff data_buff)
      else undefined_behaviour
