-- ===== src/Mutex/Witnesses.antt =====
-- Runs of one thread and of two threads.
use the_operating_system.Common.{
  ℕ, zero, suc, ◌+◌, ◌*◌, ◌%◌, ◌<◌, ◌≡◌, refl, subst, true, false, [], ◌∷◌, arith,
}
use the_operating_system.Mutex.{
  top, admitted, loaded, thread, wait, enter, lock, load, store, unlock, leave, State, pick, rounds,
  Reach, start, later,
}
use the_operating_system.Mutex.Invariant.{Inv, AllDone, Reach-Inv}
use the_operating_system.Mutex.Ends.{stuck-AllDone}
use the_operating_system.Mutex.Moves.{Run, begin, go_on, AllDone-stuck}

-- The only thread, between two rounds.
abbrev one : (c k : ℕ) → State
one c k = record {
  mem = record { counter = c; is_locked = false; slots = 1 };
  threads = thread k top ∷ [];
}

one_round :
    (c k : ℕ)
    → c + suc k < 0x8000_0000
    → Reach false 1 1 (one c (suc k))
    → Reach false 1 1 (one (c + 1) k)
one_round c k small r =
    subst (λ c'. Reach false 1 1 (one c' k))
      (let e : (c + 1) % 0x1_0000_0000 ≡ c + 1 = omega arith in e)
      (later
        (later
          (later
            (later (later (later r (pick [] [] (enter refl))) (pick [] [] (lock refl)))
              (pick [] [] load))
            (pick [] [] store))
          (pick [] [] unlock))
        (pick [] [] (leave refl)))

all_rounds :
    (c k : ℕ) → c + k < 0x8000_0000 → Reach false 1 1 (one c k) → Reach false 1 1 (one (c + k) 0)
all_rounds c zero small r =
    subst (λ c'. Reach false 1 1 (one c' 0)) (let e : c ≡ c + 0 = omega arith in e) r
all_rounds c (suc k) small r =
    subst (λ c'. Reach false 1 1 (one c' 0)) (let e : c + 1 + k ≡ c + suc k = omega arith in e)
      (all_rounds (c + 1) k (omega arith) (one_round c k small r))

-- Two threads, of which the first has read the counter while the second waits for the mutex.
abbrev half : State
half = record {
  mem = record { counter = 0; is_locked = true; slots = 0 };
  threads = thread rounds (loaded 0) ∷ thread rounds admitted ∷ [];
}

Reach-Inv_example : Inv 20000 half.mem half.threads
Reach-Inv_example = Reach-Inv {guarded = true} {n = 2} {m = 2} {s = half} (omega arith) (
    later
      (later
        (later
          (later (start (omega arith)) (pick [] (thread rounds top ∷ []) (wait refl (omega arith))))
          (pick (thread rounds admitted ∷ []) [] (wait refl (omega arith))))
        (pick [] (thread rounds admitted ∷ []) (lock refl)))
      (pick [] (thread rounds admitted ∷ []) load))

counted : {s : State} → Reach false 1 1 s → (k : ℕ) × Run false 1 1 k s
counted (start few) = (0, begin few)
counted (later r step) = let (k, run) = counted r in (suc k, go_on run step)

-- The only thread has ended.
abbrev whole_run : (k : ℕ) × Run false 1 1 k (one (0 + rounds) 0)
whole_run = counted (all_rounds 0 rounds (omega arith) (start (omega arith)))

stuck-AllDone_example :
    (whole_run.0 ≡ 1 * (6 * rounds)) × AllDone (thread 0 top ∷ []) × (0 + rounds ≡ 1 * rounds)
stuck-AllDone_example =
    stuck-AllDone {s = one (0 + rounds) 0} (omega arith) (omega arith) whole_run.1
      (λ t step. AllDone-stuck {s = one (0 + rounds) 0} (refl, tt) step)
