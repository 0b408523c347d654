-- ===== src/Mutex/Moves.antt =====
-- How many moves the threads make.
use the_operating_system.Common.{
  ℕ, zero, suc, ◌+◌, ◌-◌, ◌*◌, ◌≤◌, ◌≡◌, refl, ap, List, [], ◌∷◌, arith, Bool,
}
use the_operating_system.Mutex.{
  top, admitted, locked, loaded, stored, unlocked, Thread, thread, Shared, Move, wait, enter, lock,
  load, store, unlock, signal, leave, State, Step, pick, rounds, threads_max, init, Reach, start,
  later,
}
use the_operating_system.Mutex.Invariant.{total, total-middle, total-init, AllDone}

-- `k` moves from the start.
pub data Run (guarded : Bool) (n m : ℕ) : ℕ → State → Type 0 where
  begin : n ≤ threads_max → Run guarded n m zero (init n m)
  go_on : {k : ℕ} {s t : State} → Run guarded n m k s → Step guarded s t → Run guarded n m (suc k) t

-- The moves that a thread has still to make.
abbrev moves : Thread → ℕ
moves (thread k top) = 6 * k
moves (thread k admitted) = 6 * k - 1
moves (thread k locked) = 6 * k - 2
moves (thread k (loaded v)) = 6 * k - 3
moves (thread k stored) = 6 * k - 4
moves (thread k unlocked) = 6 * k - 5

Move-moves :
    {guarded : Bool} {m m' : Shared} {t t' : Thread}
    → Move guarded m t m' t'
    → moves t ≡ suc (moves t')
Move-moves (wait g h) = omega arith
Move-moves (enter g) = omega arith
Move-moves (lock free) = omega arith
Move-moves load = omega arith
Move-moves store = omega arith
Move-moves unlock = omega arith
Move-moves (signal g) = omega arith
Move-moves (leave g) = omega arith

Step-moves :
    {guarded : Bool} {s t : State}
    → Step guarded s t
    → total moves s.threads ≡ suc (total moves t.threads)
Step-moves (pick {t} {t'} before after mv) =
    omega
      (arith, Move-moves mv, total-middle moves before after t, total-middle moves before after t')

pub Run-moves :
    {guarded : Bool} {n m k : ℕ} {s : State}
    → Run guarded n m k s
    → k + total moves s.threads ≡ n * (6 * rounds)
Run-moves {n} (begin few) = omega (arith, total-init moves n (thread rounds top))
Run-moves (go_on run step) = omega (arith, Run-moves run, Step-moves step)

pub Run-Reach : {guarded : Bool} {n m k : ℕ} {s : State} → Run guarded n m k s → Reach guarded n m s
Run-Reach (begin few) = start few
Run-Reach (go_on run step) = later (Run-Reach run) step

pub AllDone-moves : (ts : List Thread) → AllDone ts → total moves ts ≡ 0
AllDone-moves [] h = refl
AllDone-moves (t ∷ ts) h = omega (arith, ap moves h.0, AllDone-moves ts h.1)

-- Threads that have ended make no move.
pub AllDone-stuck : {guarded : Bool} {s t : State} → AllDone s.threads → ¬ Step guarded s t
AllDone-stuck {s} done step = absurd (omega (arith, Step-moves step, AllDone-moves s.threads done))
