-- ===== src/Mutex/Invariant.antt =====
-- Mutual exclusion, and the value of the counter.
use the_operating_system.Common.{
  ℕ, zero, suc, ◌+◌, ◌-◌, ◌*◌, ◌%◌, ◌≤◌, ◌<◌, ◌≡◌, refl, ap, sym, subst, Bool, true, false, List,
  [], ◌∷◌, ◌++◌, arith, replicate,
}
use the_operating_system.Mutex.{
  top, admitted, locked, loaded, stored, unlocked, Thread, thread, Shared, Move, wait, enter, lock,
  load, store, unlock, signal, leave, State, Step, pick, rounds, threads_max, init, Reach, start,
  later,
}

-- 1 for a thread that has the mutex.
abbrev pub holds : Thread → ℕ
holds (thread k locked) = 1
holds (thread k (loaded v)) = 1
holds (thread k stored) = 1
holds _ = 0

-- How often a thread has still to raise the counter.
abbrev pub owes : Thread → ℕ
owes (thread k stored) = k - 1
owes (thread k unlocked) = k - 1
owes (thread k _) = k

abbrev pub total : (Thread → ℕ) → List Thread → ℕ
total f [] = 0
total f (t ∷ ts) = f t + total f ts

-- What the thread has read is what the counter is.
abbrev pub IsFresh : ℕ → Thread → Type 0
IsFresh c (thread k (loaded v)) = v ≡ c
IsFresh c _ = Unit

abbrev pub AllFresh : ℕ → List Thread → Type 0
AllFresh c [] = Unit
AllFresh c (t ∷ ts) = IsFresh c t × AllFresh c ts

-- How many threads have the mutex.
abbrev pub holders : Bool → ℕ
holders true = 1
holders false = 0

holders-le : (b : Bool) → holders b ≤ 1
holders-le true = omega arith
holders-le false = omega arith

pub record Inv (goal : ℕ) (m : Shared) (ts : List Thread) : Type 0 where
  pub exclusive : total holds ts ≡ holders m.is_locked
  pub fresh : AllFresh m.counter ts
  pub sum : m.counter + total owes ts ≡ goal

pub total-middle :
    (f : Thread → ℕ) (before after : List Thread) (t : Thread)
    → total f (before ++ (t ∷ after)) ≡ total f before + f t + total f after
total-middle f [] after t = omega arith
total-middle f (x ∷ before) after t = omega (arith, total-middle f before after t)

AllFresh-middle :
    (c : ℕ) (t t' : Thread) (before after : List Thread)
    → AllFresh c (before ++ (t ∷ after))
    → (IsFresh c t → IsFresh c t')
    → AllFresh c (before ++ (t' ∷ after))
AllFresh-middle c t t' [] after h k = (k h.0, h.1)
AllFresh-middle c t t' (x ∷ before) after h k = (h.0, AllFresh-middle c t t' before after h.1 k)

IsFresh-middle :
    (c : ℕ) (t : Thread) (before after : List Thread)
    → AllFresh c (before ++ (t ∷ after))
    → IsFresh c t
IsFresh-middle c t [] after h = h.0
IsFresh-middle c t (x ∷ before) after h = IsFresh-middle c t before after h.1

IsFresh-unheld : (c : ℕ) (t : Thread) → holds t ≡ 0 → IsFresh c t
IsFresh-unheld c (thread k top) h = tt
IsFresh-unheld c (thread k admitted) h = tt
IsFresh-unheld c (thread k locked) h = tt
IsFresh-unheld c (thread k stored) h = tt
IsFresh-unheld c (thread k unlocked) h = tt
IsFresh-unheld c (thread k (loaded v)) h = absurd (omega arith)

AllFresh-unheld : (c : ℕ) (ts : List Thread) → total holds ts ≡ 0 → AllFresh c ts
AllFresh-unheld c [] h = tt
AllFresh-unheld c (t ∷ ts) h =
    (IsFresh-unheld c t (omega arith), AllFresh-unheld c ts (omega arith))

-- Whatever the other threads are, if none of them has the mutex.
AllFresh-alone :
    (t' : Thread) (c : ℕ) (before after : List Thread)
    → total holds before ≡ 0
    → total holds after ≡ 0
    → IsFresh c t'
    → AllFresh c (before ++ (t' ∷ after))
AllFresh-alone t' c [] after hb ha h = (h, AllFresh-unheld c after ha)
AllFresh-alone t' c (x ∷ before) after hb ha h =
    (IsFresh-unheld c x (omega arith), AllFresh-alone t' c before after (omega arith) ha h)

module _ {goal : ℕ} (small : goal < 0x8000_0000) (before after : List Thread) where
  -- A move of the thread `t` to `t'` that leaves the counter.
  kept :
      {m : Shared} (m' : Shared) (t t' : Thread)
      → Inv goal m (before ++ (t ∷ after))
      → m'.counter ≡ m.counter
      → (IsFresh m.counter t → IsFresh m.counter t')
      → holds t' + holders m.is_locked ≡ holds t + holders m'.is_locked
      → owes t' ≡ owes t
      → Inv goal m' (before ++ (t' ∷ after))
  kept {m} m' t t' inv same fresh lock_same owed = record {
    exclusive = omega (
      arith,
      inv.exclusive,
      total-middle holds before after t,
      total-middle holds before after t',
    );
    fresh =
        subst (λ c. AllFresh c (before ++ (t' ∷ after))) (sym same)
          (AllFresh-middle m.counter t t' before after inv.fresh fresh);
    sum =
        omega (arith, inv.sum, total-middle owes before after t, total-middle owes before after t');
  }

  -- The thread with the mutex writes what it has read and one.
  stored_one :
      {m : Shared} (k v : ℕ)
      → Inv goal m (before ++ (thread (suc k) (loaded v) ∷ after))
      → Inv goal
          (record m { counter = (v + 1) % 0x1_0000_0000 })
          (before ++ (thread (suc k) stored ∷ after))
  stored_one {m} k v inv =
      let t = thread (suc k) (loaded v) in
      let t' = thread (suc k) stored in
      let same = IsFresh-middle m.counter t before after inv.fresh in
      let held = total-middle holds before after t in
      let owed = total-middle owes before after t in
      let at_most = holders-le m.is_locked in
      record {
        exclusive = omega (arith, inv.exclusive, held, total-middle holds before after t');
        fresh =
            AllFresh-alone t' ((v + 1) % 0x1_0000_0000) before after
              (omega (arith, inv.exclusive, held, at_most))
              (omega (arith, inv.exclusive, held, at_most)) tt;
        sum = omega (arith, inv.sum, owed, same, total-middle owes before after t');
      }

  released :
      {m : Shared} (k : ℕ)
      → Inv goal m (before ++ (thread (suc k) stored ∷ after))
      → holders m.is_locked ≡ 1
  released {m} k inv =
      let at_most = holders-le m.is_locked in
      omega (arith, inv.exclusive, total-middle holds before after (thread (suc k) stored), at_most)

  Move-Inv :
      {guarded : Bool} {m m' : Shared} {t t' : Thread}
      → Move guarded m t m' t'
      → Inv goal m (before ++ (t ∷ after))
      → Inv goal m' (before ++ (t' ∷ after))
  Move-Inv {m} {m'} {t} {t'} (wait g h) inv = kept m' t t' inv refl (λ _. tt) refl refl
  Move-Inv {m} {m'} {t} {t'} (enter g) inv = kept m' t t' inv refl (λ _. tt) refl refl
  Move-Inv {m} {m'} {t} {t'} (lock free) inv =
      kept m' t t' inv refl (λ _. tt) (rw free (omega arith)) refl
  Move-Inv {m} {m'} {t} {t'} load inv = kept m' t t' inv refl (λ _. refl) refl refl
  Move-Inv (store {k} {v}) inv = stored_one k v inv
  Move-Inv {m} {m'} {t} {t'} (unlock {k}) inv =
      kept m' t t' inv refl (λ _. tt) (omega (arith, released k inv)) refl
  Move-Inv {m} {m'} {t} {t'} (signal g) inv = kept m' t t' inv refl (λ _. tt) refl (omega arith)
  Move-Inv {m} {m'} {t} {t'} (leave g) inv = kept m' t t' inv refl (λ _. tt) refl (omega arith)

pub total-init : (f : Thread → ℕ) (n : ℕ) (t : Thread) → total f (replicate n t) ≡ n * f t
total-init f zero t = omega arith
total-init f (suc n) t = omega (arith, total-init f n t)

AllFresh-init : (c n k : ℕ) → AllFresh c (replicate n (thread k top))
AllFresh-init c zero k = tt
AllFresh-init c (suc n) k = (tt, AllFresh-init c n k)

Inv-init : (n m : ℕ) → Inv (n * rounds) (init n m).mem (init n m).threads
Inv-init n m = record {
  exclusive = omega (arith, total-init holds n (thread rounds top));
  fresh = AllFresh-init 0 n rounds;
  sum = omega (arith, total-init owes n (thread rounds top));
}

Step-Inv :
    {guarded : Bool} {goal : ℕ} {s t : State}
    → goal < 0x8000_0000
    → Step guarded s t
    → Inv goal s.mem s.threads
    → Inv goal t.mem t.threads
Step-Inv small (pick before after mv) inv = Move-Inv small before after mv inv

-- In every state that `n` threads reach, for an `n` of at most 5, in `loop` and in `loop2`, and with any number of slots: the threads that have the mutex are one if it is locked
-- and none else; a thread that has read the counter and not yet written it has read what it still
-- is; and the counter and the raises that the threads still owe add up to `n * 10000`.
pub Reach-Inv :
    {guarded : Bool} {n m : ℕ} {s : State}
    → n ≤ threads_max
    → Reach guarded n m s
    → Inv (n * rounds) s.mem s.threads
Reach-Inv {n} {m} few (start room) = Inv-init n m
Reach-Inv few (later r st) = Step-Inv (omega arith) st (Reach-Inv few r)

-- All threads have ended their loop.
abbrev pub AllDone : List Thread → Type 0
AllDone [] = Unit
AllDone (t ∷ ts) = (t ≡ thread 0 top) × AllDone ts

total-done : (ts : List Thread) → AllDone ts → total owes ts ≡ 0
total-done [] h = refl
total-done (t ∷ ts) h = omega (arith, ap owes h.0, total-done ts h.1)

-- Once the `n` threads have ended, in whatever order they moved, the counter is `n * 10000`, for
-- an `n` of at most 5.
pub Reach-counter :
    {guarded : Bool} {n m : ℕ} {s : State}
    → n ≤ threads_max
    → Reach guarded n m s
    → AllDone s.threads
    → s.mem.counter ≡ n * rounds
Reach-counter {s} few r done = omega (arith, (Reach-Inv few r).sum, total-done s.threads done)
