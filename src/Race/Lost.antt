-- ===== src/Race/Lost.antt =====
-- Raises get lost, and none is made up.
use the_operating_system.Common.{ℕ, zero, suc, ◌+◌, ◌*◌, ◌≤◌, subst, Option, none, some, arith}
use the_operating_system.Race.{
  Increment, at_read, at_write, State, access, Reached, create, by_t1, by_t2,
}

abbrev pub left : Increment → ℕ
left (at_read k) = k
left (at_write k value) = k

-- The counter, and what a thread has read of it, is within the bound with the rounds that are left.
abbrev Within : (bound others : ℕ) → Increment → Type 0
Within bound others (at_read k) = Unit
Within bound others (at_write k value) = value + k + others ≤ bound

record Bounded (bound : ℕ) (s : State) : Type 0 where
  total : s.counter + left s.t1 + left s.t2 ≤ bound
  first : Within bound (left s.t2) s.t1
  second : Within bound (left s.t1) s.t2

-- What an access leads to.
abbrev Leads : (Increment → ℕ → Type 0) → Option (Increment × ℕ) → Type 0
Leads P none = Unit
Leads P (some (t, c)) = P t c

Within-mono : (bound m n : ℕ) (t : Increment) → n ≤ m → Within bound m t → Within bound n t
Within-mono bound m n (at_read k) h w = tt
Within-mono bound m n (at_write k value) h w = omega (arith, w)

-- An access keeps both bounds, and the thread does not get more rounds.
access-Within :
    (bound others c : ℕ) (t : Increment)
    → c + left t + others ≤ bound
    → Within bound others t
    → Leads
        (λ t' c'. (c' + left t' + others ≤ bound) × Within bound others t' × (left t' ≤ left t))
        (access t c)
access-Within bound others c (at_read zero) total w = tt
access-Within bound others c (at_read (suc k)) total w =
    (omega (arith, total), omega (arith, total), omega arith)
access-Within bound others c (at_write zero value) total w = tt
access-Within bound others c (at_write (suc k) value) total w = (omega (arith, w), tt, omega arith)

Reached-Bounded : {rounds : ℕ} {s : State} → Reached rounds s → Bounded (2 * rounds) s
Reached-Bounded {rounds} create = record { total = omega arith; first = tt; second = tt }
Reached-Bounded {rounds} (by_t1 {s} {t} {c} r e) =
    let b = Reached-Bounded r in
    let (total, first, less) =
      subst
        (Leads (λ t' c'.
          (c' + left t' + left s.t2 ≤ 2 * rounds)
          × Within (2 * rounds) (left s.t2) t'
          × (left t' ≤ left s.t1)))
        e (access-Within (2 * rounds) (left s.t2) s.counter s.t1 b.total b.first) in
    record {
      total = total;
      first = first;
      second = Within-mono (2 * rounds) (left s.t1) (left t) s.t2 less b.second;
    }
Reached-Bounded {rounds} (by_t2 {s} {t} {c} r e) =
    let b = Reached-Bounded r in
    let (total, second, less) =
      subst
        (Leads (λ t' c'.
          (c' + left t' + left s.t1 ≤ 2 * rounds)
          × Within (2 * rounds) (left s.t1) t'
          × (left t' ≤ left s.t2)))
        e
        (access-Within (2 * rounds) (left s.t1) s.counter s.t2 (omega (arith, b.total)) b.second) in
    record {
      total = omega (arith, total);
      first = Within-mono (2 * rounds) (left s.t2) (left t) s.t1 less b.first;
      second = second;
    }

-- However the accesses of the two threads interleave, the counter and the rounds that are left add up
-- to at most twice the number of rounds.
pub Reached-total :
    {rounds : ℕ} {s : State} → Reached rounds s → s.counter + left s.t1 + left s.t2 ≤ 2 * rounds
Reached-total r = (Reached-Bounded r).total
