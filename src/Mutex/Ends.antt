-- ===== src/Mutex/Ends.antt =====
-- The threads never wait for each other for good, and their moves are as many as their loops take.
use the_operating_system.Common.{
  ℕ, zero, suc, ◌+◌, ◌*◌, ◌≤◌, ◌<◌, ◌≡◌, ◌≢◌, refl, sym, subst, ◌∙◌, ◌⊎◌, inl, inr, Bool, true,
  false, List, [], ◌∷◌, ◌++◌, append_assoc, arith, replicate, Bool-cases,
}
use native.Mathlib.Decide.{dec_lt}
use the_operating_system.Common.Selection.{All, All-left, All-right, All-append}
use the_operating_system.Mutex.{
  top, admitted, locked, loaded, stored, unlocked, Thread, thread, Shared, Move, wait, enter, lock,
  load, store, unlock, signal, leave, State, Step, pick, rounds, threads_max, Reach, start, later,
}
use the_operating_system.Mutex.Moves.{Run, Run-moves, Run-Reach, AllDone-moves}
use the_operating_system.Mutex.Invariant.{
  holds, total, holders, total-middle, total-init, Reach-Inv, AllDone, Reach-counter,
}

-- 1 for a thread that has a slot of the semaphore.
abbrev inside : Thread → ℕ
inside (thread k top) = 0
inside _ = 1

-- A thread amid the body has a round to end.
abbrev IsInRound : Thread → Type 0
IsInRound (thread k top) = Unit
IsInRound (thread k pc) = 0 < k

record Open (guarded : Bool) (m : ℕ) (mem : Shared) (ts : List Thread) : Type 0 where
  in_round : All IsInRound ts
  -- In `loop`, a slot is free or has a thread inside.
  slots : guarded ≡ true → mem.slots + total inside ts ≡ m

Move-IsInRound :
    {guarded : Bool} {m m' : Shared} {t t' : Thread} → Move guarded m t m' t' → IsInRound t'
Move-IsInRound (wait g h) = omega arith
Move-IsInRound (enter g) = omega arith
Move-IsInRound (lock free) = omega arith
Move-IsInRound load = omega arith
Move-IsInRound store = omega arith
Move-IsInRound unlock = omega arith
Move-IsInRound (signal g) = tt
Move-IsInRound (leave g) = tt

Move-inside :
    {guarded : Bool} {m m' : Shared} {t t' : Thread}
    → Move guarded m t m' t'
    → guarded ≡ true
    → m'.slots + inside t' ≡ m.slots + inside t
Move-inside (wait g h) e = omega arith
Move-inside (enter g) e = cc
Move-inside (lock free) e = refl
Move-inside load e = refl
Move-inside store e = refl
Move-inside unlock e = refl
Move-inside (signal g) e = omega arith
Move-inside (leave g) e = cc

Step-Open :
    {guarded : Bool} {n : ℕ} {s t : State}
    → Step guarded s t
    → Open guarded n s.mem s.threads
    → Open guarded n t.mem t.threads
Step-Open (pick {t} {t'} before after mv) o = record {
  in_round =
      All-append IsInRound before (t' ∷ after) (All-left IsInRound before (t ∷ after) o.in_round)
        (Move-IsInRound mv, (All-right IsInRound before (t ∷ after) o.in_round).1);
  slots = λ e. omega (
    arith,
    o.slots e,
    Move-inside mv e,
    total-middle inside before after t,
    total-middle inside before after t',
  );
}

All-replicate : (n k : ℕ) → All IsInRound (replicate n (thread k top))
All-replicate zero k = tt
All-replicate (suc n) k = (tt, All-replicate n k)

Reach-Open :
    {guarded : Bool} {n m : ℕ} {s : State} → Reach guarded n m s → Open guarded m s.mem s.threads
Reach-Open {n} {m} (start few) = record {
  in_round = All-replicate n rounds;
  slots = λ e. omega (arith, total-init inside n (thread rounds top));
}
Reach-Open (later r step) = Step-Open step (Reach-Open r)

-- A thread that cannot move: it has ended, or waits for a slot or for the mutex.
abbrev IsBlocked : Bool → Shared → Thread → Type 0
IsBlocked guarded mem (thread k top) = (0 < k) → (guarded ≡ true) × (mem.slots ≡ 0)
IsBlocked guarded mem (thread k admitted) = mem.is_locked ≡ true
IsBlocked guarded mem (thread k _) = ⊥

-- A thread that can move.
record CanMove (guarded : Bool) (mem : Shared) (t : Thread) : Type 0 where
  mem' : Shared
  t' : Thread
  move : Move guarded mem t mem' t'

can_move :
    {guarded : Bool} {mem : Shared} {t : Thread} (mem' : Shared) (t' : Thread)
    → Move guarded mem t mem' t'
    → CanMove guarded mem t
can_move mem' t' mv = record { mem' = mem'; t' = t'; move = mv }

move_or_IsBlocked :
    (guarded : Bool) (mem : Shared) (t : Thread)
    → IsInRound t
    → CanMove guarded mem t ⊎ IsBlocked guarded mem t
move_or_IsBlocked guarded mem (thread zero top) h = inr (λ pos. absurd (omega arith))
move_or_IsBlocked true mem (thread (suc k) top) h = elim (dec_lt 0 mem.slots) [
  | yes free ↦ inl (can_move _ _ (wait refl free))
  | no full ↦ inr (λ pos. (refl, omega arith))
]
move_or_IsBlocked false mem (thread (suc k) top) h = inl (can_move _ _ (enter refl))
move_or_IsBlocked guarded mem (thread zero admitted) h = absurd (omega arith)
move_or_IsBlocked guarded mem (thread (suc k) admitted) h = elim (Bool-cases mem.is_locked) [
  | inl e ↦ inr e
  | inr e ↦ inl (can_move _ _ (lock e))
]
move_or_IsBlocked guarded mem (thread zero locked) h = absurd (omega arith)
move_or_IsBlocked guarded mem (thread (suc k) locked) h = inl (can_move _ _ load)
move_or_IsBlocked guarded mem (thread zero (loaded v)) h = absurd (omega arith)
move_or_IsBlocked guarded mem (thread (suc k) (loaded v)) h = inl (can_move _ _ store)
move_or_IsBlocked guarded mem (thread zero stored) h = absurd (omega arith)
move_or_IsBlocked guarded mem (thread (suc k) stored) h = inl (can_move _ _ unlock)
move_or_IsBlocked guarded mem (thread zero unlocked) h = absurd (omega arith)
move_or_IsBlocked true mem (thread (suc k) unlocked) h = inl (can_move _ _ (signal refl))
move_or_IsBlocked false mem (thread (suc k) unlocked) h = inl (can_move _ _ (leave refl))

-- Where no thread can move, all are blocked.
All-IsBlocked :
    (guarded : Bool) (mem : Shared) (before ts : List Thread)
    → All IsInRound ts
    → ((t : State) → ¬ Step guarded (record { mem = mem; threads = before ++ ts }) t)
    → All (IsBlocked guarded mem) ts
All-IsBlocked guarded mem before [] h stuck = tt
All-IsBlocked guarded mem before (t ∷ ts) h stuck = (
  elim (move_or_IsBlocked guarded mem t h.0) [
    | inl can ↦ absurd (stuck _ (pick before ts can.move))
    | inr blocked ↦ blocked
  ],
  All-IsBlocked guarded mem (before ++ (t ∷ [])) ts h.1 (λ u.
      subst (λ l. ¬ Step guarded (record { mem = mem; threads = l }) u)
        (sym (append_assoc before (t ∷ []) ts)) (stuck u)),
)

blocked-holds :
    (guarded : Bool) (mem : Shared) (ts : List Thread)
    → All (IsBlocked guarded mem) ts
    → total holds ts ≡ 0
blocked-holds guarded mem [] h = refl
blocked-holds guarded mem (thread k top ∷ ts) h = omega (arith, blocked-holds guarded mem ts h.1)
blocked-holds guarded mem (thread k admitted ∷ ts) h =
    omega (arith, blocked-holds guarded mem ts h.1)
blocked-holds guarded mem (thread k locked ∷ ts) h = absurd h.0
blocked-holds guarded mem (thread k (loaded v) ∷ ts) h = absurd h.0
blocked-holds guarded mem (thread k stored ∷ ts) h = absurd h.0
blocked-holds guarded mem (thread k unlocked ∷ ts) h = absurd h.0

-- With the mutex free, they all are outside.
blocked-inside :
    (guarded : Bool) (mem : Shared) (ts : List Thread)
    → mem.is_locked ≡ false
    → All (IsBlocked guarded mem) ts
    → total inside ts ≡ 0
blocked-inside guarded mem [] free h = refl
blocked-inside guarded mem (thread k top ∷ ts) free h =
    omega (arith, blocked-inside guarded mem ts free h.1)
blocked-inside guarded mem (thread k admitted ∷ ts) free h = cc
blocked-inside guarded mem (thread k locked ∷ ts) free h = absurd h.0
blocked-inside guarded mem (thread k (loaded v) ∷ ts) free h = absurd h.0
blocked-inside guarded mem (thread k stored ∷ ts) free h = absurd h.0
blocked-inside guarded mem (thread k unlocked ∷ ts) free h = absurd h.0

-- With a slot free as well, they have ended.
blocked-AllDone :
    (guarded : Bool) (mem : Shared) (ts : List Thread)
    → mem.is_locked ≡ false
    → (guarded ≡ true → mem.slots ≢ 0)
    → All (IsBlocked guarded mem) ts
    → AllDone ts
blocked-AllDone guarded mem [] free slot h = tt
blocked-AllDone guarded mem (thread zero top ∷ ts) free slot h =
    (refl, blocked-AllDone guarded mem ts free slot h.1)
blocked-AllDone guarded mem (thread (suc k) top ∷ ts) free slot h =
    (let (g, none_left) = h.0 (omega arith) in absurd (slot g none_left))
blocked-AllDone guarded mem (thread k admitted ∷ ts) free slot h = cc
blocked-AllDone guarded mem (thread k locked ∷ ts) free slot h = absurd h.0
blocked-AllDone guarded mem (thread k (loaded v) ∷ ts) free slot h = absurd h.0
blocked-AllDone guarded mem (thread k stored ∷ ts) free slot h = absurd h.0
blocked-AllDone guarded mem (thread k unlocked ∷ ts) free slot h = absurd h.0

unheld : (b : Bool) → holders b ≡ 0 → b ≡ false
unheld true h = absurd (omega arith)
unheld false h = refl

-- With at least one slot, and in whatever order the moves come: where `n` threads can move no further,
-- they have made 60000 moves each and have all ended, and the counter is `n * 10000`, for an `n` of at
-- most 5. It holds for `loop` and for `loop2`.
pub stuck-AllDone :
    {guarded : Bool} {n m k : ℕ} {s : State}
    → n ≤ threads_max
    → 0 < m
    → Run guarded n m k s
    → ((t : State) → ¬ Step guarded s t)
    → (k ≡ n * (6 * rounds)) × AllDone s.threads × (s.mem.counter ≡ n * rounds)
stuck-AllDone {guarded} {n} {m} {k} {s} few slot run stuck =
    let r = Run-Reach run in
    let o = Reach-Open r in
    let blocked = All-IsBlocked guarded s.mem [] s.threads o.in_round stuck in
    let free =
      unheld s.mem.is_locked
        (sym (Reach-Inv few r).exclusive ∙ blocked-holds guarded s.mem s.threads blocked) in
    let outside = blocked-inside guarded s.mem s.threads free blocked in
    let ended =
      blocked-AllDone guarded s.mem s.threads free (λ g none_left. omega (arith, o.slots g))
        blocked in
    (omega (arith, Run-moves run, AllDone-moves s.threads ended), ended, Reach-counter few r ended)
