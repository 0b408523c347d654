-- ===== src/Race.antt =====
-- thread/raceCond.c: two threads that raise a shared counter without a lock. `counter++` is a read
-- and a write, between which the other thread may run. The loop's number of rounds, 10000 in the
-- code, is `rounds` for both threads.
pub mod Lost
mod Witnesses
use the_operating_system.Common.{ℕ, zero, suc, ◌+◌, ◌%◌, ◌≡◌, Option, none, some}

-- A thread in `increment`, with the rounds that it has left: before the read, or with what it read.
pub data Increment : Type 0 where
  at_read : ℕ → Increment
  at_write : (left value : ℕ) → Increment

pub record State : Type 0 where
  pub counter : ℕ
  pub t1 : Increment
  pub t2 : Increment

-- The next access of a thread to the counter, and what it leaves there; `none` once it has ended.
abbrev pub access : Increment → ℕ → Option (Increment × ℕ)
access (at_read zero) counter = none
access (at_read (suc k)) counter = some (at_write (suc k) counter, counter)
access (at_write zero value) counter = none
access (at_write (suc k) value) counter = some (at_read k, (value + 1) % 0x1_0000_0000)

-- `main` once it has made both threads.
abbrev pub created : (rounds : ℕ) → State
created rounds = record { counter = 0; t1 = at_read rounds; t2 = at_read rounds }

-- The states that the threads reach.
pub data Reached (rounds : ℕ) : State → Type 0 where
  create : Reached rounds (created rounds)
  by_t1 :
      {s : State} {t : Increment} {c : ℕ}
      → Reached rounds s
      → access s.t1 s.counter ≡ some (t, c)
      → Reached rounds (record s { counter = c; t1 = t })
  by_t2 :
      {s : State} {t : Increment} {c : ℕ}
      → Reached rounds s
      → access s.t2 s.counter ≡ some (t, c)
      → Reached rounds (record s { counter = c; t2 = t })
