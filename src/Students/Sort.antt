-- ===== src/Students/Sort.antt =====
-- `index_of_min` and `sort` of as1_os.c.
pub mod Entries
pub mod Minimum
pub mod Swap
pub mod Rounds
pub mod Laws
pub mod High
use the_operating_system.Common.{ℕ, zero, suc, ◌+◌, ◌*◌, Bool, ltb, ◌==◌, if◌then◌else◌}
use the_operating_system.Common.Bytes.{off_bytes, signed_ltb}
use the_operating_system.Posix.{
  datafd, indexfd, Cmd, out_of_fuel, pure, ◌>>=◌, ◌>>◌, or_exit, undefined_behaviour, seek_set,
  write, read_checked,
}
use the_operating_system.Students.Record.{min_roll}

-- `while (index_offset < end)`
unfoldable pub min_loop : ℕ → (end index_offset least offset_toreturn : ℕ) → Cmd ℕ
min_loop zero end index_offset least offset_toreturn = λ _. out_of_fuel
min_loop (suc k) end index_offset least offset_toreturn =
    if ltb index_offset end
    then (do
      record_offset ← read_checked indexfd 8
      _ ← or_exit (seek_set datafd record_offset)
      roll_read ← read_checked datafd 4
      let smaller = signed_ltb roll_read least
      min_loop k end (index_offset + 8) (if smaller then roll_read else least)
          (if smaller then index_offset else offset_toreturn))
    else pure offset_toreturn

-- The offset of the slot of the least roll number below `min_roll`, among those from `start` up
-- to `end`; `start` if there is none.
unfoldable pub index_of_min : (start end : ℕ) → Cmd ℕ
index_of_min start end = do
  _ ← or_exit (seek_set indexfd start)
  min_loop (suc end) end start min_roll start

-- The two slots change places.
unfoldable pub swap_slots : (curr_idx idx_toswap : ℕ) → Cmd (Unit {0})
swap_slots curr_idx idx_toswap = do
  _ ← or_exit (seek_set indexfd curr_idx)
  curr_val ← read_checked indexfd 8
  _ ← or_exit (seek_set indexfd idx_toswap)
  val_toswap ← read_checked indexfd 8
  _ ← or_exit (seek_set indexfd curr_idx)
  _ ← or_exit (write indexfd (off_bytes val_toswap))
  _ ← or_exit (seek_set indexfd idx_toswap)
  _ ← or_exit (write indexfd (off_bytes curr_val))
  pure tt

-- The body of the `for`.
unfoldable pub sort_round : (end i : ℕ) → Cmd (Unit {0})
sort_round end i = do
  let curr_idx = 4 + 8 * i
  idx_toswap ← index_of_min curr_idx end
  if idx_toswap == curr_idx then pure tt else swap_slots curr_idx idx_toswap

-- `for (int i = 0; i < n; i++)`, by the rounds that are left.
unfoldable pub sort_loop : ℕ → (end i : ℕ) → Cmd (Unit {0})
sort_loop zero end i = pure tt
sort_loop (suc k) end i = sort_round end i >> sort_loop k end (i + 1)

-- `4 + n * 8` overflows an `int` from `n = 2 ^ 28` on, and below `n = - 2 ^ 28`; a negative `n`
-- above that makes no round.
unfoldable pub sort : Cmd (Unit {0})
sort = do
  n ← read_checked indexfd 4
  if ltb n 0x1000_0000
      then sort_loop n (4 + n * 8) 0
      else if ltb n 0xf000_0000
      then undefined_behaviour
      else pure tt
