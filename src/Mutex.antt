-- ===== src/Mutex.antt =====
-- thread/mutexes.c: `n` threads that each raise a shared counter 10000 times under a mutex. In
-- `loop` a thread passes a counting semaphore before it takes the mutex; in `loop2` it does not.
-- `counter++` is a read and a write, between which other threads run. The order of the moves of
-- the threads is any. What is assumed of the mutex and the semaphore is what their documentation
-- says: a lock waits until no thread has it, and a wait until there is a slot.
pub mod Invariant
pub mod Ends
pub mod Moves
mod Witnesses
use the_operating_system.Common.{
  ℕ, suc, ◌+◌, ◌-◌, ◌%◌, ◌≤◌, ◌<◌, ◌≡◌, Bool, true, false, List, [], ◌∷◌, ◌++◌, replicate,
}

-- Where a thread is in the body of the loop.
pub data Pc : Type 0 where
  top admitted locked stored unlocked : Pc
  loaded : ℕ → Pc

-- A thread, with the rounds that it has not ended.
pub data Thread : Type 0 where
  thread : ℕ → Pc → Thread

pub record Shared : Type 0 where
  pub counter : ℕ
  pub is_locked : Bool
  pub slots : ℕ

-- One move of a thread, in `loop` where `guarded` is true and in `loop2` else.
pub data Move (guarded : Bool) (m : Shared) : Thread → Shared → Thread → Type 0 where
  wait :
      {k : ℕ}
      → guarded ≡ true
      → 0 < m.slots
      → Move guarded m
          (thread (suc k) top)
          (record m { slots = m.slots - 1 })
          (thread (suc k) admitted)
  enter :
      {k : ℕ} → guarded ≡ false → Move guarded m (thread (suc k) top) m (thread (suc k) admitted)
  lock :
      {k : ℕ}
      → m.is_locked ≡ false
      → Move guarded m
          (thread (suc k) admitted)
          (record m { is_locked = true })
          (thread (suc k) locked)
  load : {k : ℕ} → Move guarded m (thread (suc k) locked) m (thread (suc k) (loaded m.counter))
  store :
      {k v : ℕ}
      → Move guarded m
          (thread (suc k) (loaded v))
          (record m { counter = (v + 1) % 0x1_0000_0000 })
          (thread (suc k) stored)
  unlock :
      {k : ℕ}
      → Move guarded m
          (thread (suc k) stored)
          (record m { is_locked = false })
          (thread (suc k) unlocked)
  signal :
      {k : ℕ}
      → guarded ≡ true
      → Move guarded m (thread (suc k) unlocked) (record m { slots = m.slots + 1 }) (thread k top)
  leave : {k : ℕ} → guarded ≡ false → Move guarded m (thread (suc k) unlocked) m (thread k top)

pub record State : Type 0 where
  pub mem : Shared
  pub threads : List Thread

-- Any one of the threads moves.
pub data Step (guarded : Bool) : State → State → Type 0 where
  pick :
      {m m' : Shared} {t t' : Thread} (before after : List Thread)
      → Move guarded m t m' t'
      → Step guarded
          (record { mem = m; threads = before ++ (t ∷ after) })
          (record { mem = m'; threads = before ++ (t' ∷ after) })

abbrev pub rounds : ℕ
rounds = 10000

-- The length of the array `t`, in which `main` keeps its threads. To make more of them is to write
-- behind its end, which is undefined.
abbrev pub threads_max : ℕ
threads_max = 5

-- `main` once it has made its `n` threads, with `m` slots. It does so for `loop`, and once these
-- threads have ended for `loop2`, with the counter set to 0 again.
abbrev pub init : (n m : ℕ) → State
init n m = record {
  mem = record { counter = 0; is_locked = false; slots = m };
  threads = replicate n (thread rounds top);
}

pub data Reach (guarded : Bool) (n m : ℕ) : State → Type 0 where
  start : n ≤ threads_max → Reach guarded n m (init n m)
  later : {s t : State} → Reach guarded n m s → Step guarded s t → Reach guarded n m t
