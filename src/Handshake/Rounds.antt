-- ===== src/Handshake/Rounds.antt =====
-- What holds between any two accesses of the parent and the child.
use the_operating_system.Common.{
  ℕ, zero, suc, ◌+◌, ◌≤◌, ◌≡◌, refl, subst, inl, inr, Option, none, some, List, [], ◌∷◌, ◌++◌,
  arith, leb, length, leb→le, not_leb→lt, Bool-cases,
}
use the_operating_system.Common.Outcomes.{Outcome, done, exited, undefined, out_of_fuel}
use the_operating_system.Handshake.{
  Parent, parent_starts, parent_tests, parent_marks, parent_writes, parent_prints, parent_waits,
  Child, child_tests, child_clears, child_loads, child_loads_again, child_prints, child_exits, Line,
  State, initial, next_parent, next_child,
}
use the_operating_system.Handshake.Factorial.{factorial}

-- `a` is at most `slack` away from `j`.
abbrev pub Near : (slack j a : ℕ) → Type 0
Near slack j a = (j ≤ slack + a) × (a ≤ slack + j)

-- A line with a number near `j`, and the factorial of a number near `j`.
pub record IsLine (slack j : ℕ) (l : Line) : Type 0 where
  pub number : Near slack j l.n
  pub m : ℕ
  pub base : Near slack j m
  pub fac : l.factorial ≡ factorial m

-- Each line has the property for its place, counted from `j`.
abbrev pub From : (ℕ → Line → Type 0) → ℕ → List Line → Type 0
From P j [] = Unit
From P j (l ∷ ls) = P j l × From P (suc j) ls

pub From-append :
    (P : ℕ → Line → Type 0) (j : ℕ) (ls : List Line) (l : Line) (k : ℕ)
    → k ≡ j + length ls
    → From P j ls
    → P k l
    → From P j (ls ++ (l ∷ []))
From-append P j [] l k e h here = (subst (λ i. P i l) (let e' : k ≡ j = omega arith in e') here, tt)
From-append P j (x ∷ ls) l k e h here = (h.0, From-append P (suc j) ls l k (omega arith) h.1 here)

-- Where the parent has set the flag `sets` times.
abbrev pub ParentAt : Parent → (sets n flag : ℕ) → Type 0
ParentAt parent_starts sets n flag = (sets ≡ 0) × (n ≡ 0)
ParentAt (parent_tests i) sets n flag = (i ≡ suc sets) × (n ≡ sets) × (i ≤ 10)
ParentAt (parent_marks i) sets n flag = (i ≡ suc sets) × (n ≡ sets) × (i ≤ 10) × (flag ≡ 0)
ParentAt (parent_writes i) sets n flag = (i ≡ sets) × (suc n ≡ sets) × (i ≤ 10)
ParentAt (parent_prints i) sets n flag = (i ≡ sets) × (n ≡ sets) × (i ≤ 10)
ParentAt parent_waits sets n flag = (sets ≡ 10) × (n ≡ sets)

-- Where the child has cleared the flag `clears` times, and printed `lines` lines.
abbrev pub ChildAt : ℕ → Child → (clears flag lines : ℕ) → Type 0
ChildAt slack (child_tests j) clears flag lines = (j ≡ suc clears) × (j ≤ 10) × (lines ≡ clears)
ChildAt slack (child_clears j) clears flag lines =
    (j ≡ suc clears) × (j ≤ 10) × (lines ≡ clears) × (flag ≡ 1)
ChildAt slack (child_loads j) clears flag lines =
    (j ≡ clears) × (j ≤ 10) × (suc lines ≡ clears) × (flag ≤ slack)
ChildAt slack (child_loads_again j a) clears flag lines =
    (j ≡ clears) × (j ≤ 10) × (suc lines ≡ clears) × (flag ≤ slack) × Near slack j a
ChildAt slack (child_prints j a b) clears flag lines =
    (j ≡ clears) × (j ≤ 10) × (suc lines ≡ clears) × Near slack j a × Near slack j b
ChildAt slack child_exits clears flag lines = (clears ≡ 10) × (lines ≡ clears)

pub record Inv (slack : ℕ) (s : State) : Type 0 where
  pub sets : ℕ
  pub clears : ℕ
  pub count : sets ≡ clears + s.flag
  pub bit : s.flag ≤ 1
  pub at_parent : ParentAt s.parent sets s.n s.flag
  pub at_child : ChildAt slack s.child clears s.flag (length s.printed)
  pub lines : From (IsLine slack) 1 s.printed

pub initial-Inv : (slack : ℕ) → Inv slack initial
initial-Inv slack = record {
  sets = 0;
  clears = 0;
  count = omega arith;
  bit = omega arith;
  at_parent = (refl, refl);
  at_child = (refl, omega arith, refl);
  lines = tt;
}

-- Between two rounds.
abbrev pub ParentRests : Parent → Type 0
ParentRests (parent_marks i) = ⊥
ParentRests (parent_writes i) = ⊥
ParentRests (parent_prints i) = ⊥
ParentRests _ = Unit

abbrev pub ChildRests : Child → Type 0
ChildRests (child_tests i) = Unit
ChildRests child_exits = Unit
ChildRests _ = ⊥

-- The flag that the parent sets where it was clear leaves the child as it is.
pub set-ChildAt :
    (slack : ℕ) (c : Child) (clears flag lines : ℕ)
    → (slack ≡ 0 → ChildRests c)
    → flag ≡ 0
    → ChildAt slack c clears flag lines
    → ChildAt slack c clears 1 lines
set-ChildAt slack (child_tests j) clears flag lines rests zeroed h = h
set-ChildAt slack (child_clears j) clears flag lines rests zeroed h = absurd (omega (arith, h.3))
set-ChildAt zero (child_loads j) clears flag lines rests zeroed h = absurd (rests refl)
set-ChildAt (suc slack) (child_loads j) clears flag lines rests zeroed h =
    (h.0, h.1, h.2, omega arith)
set-ChildAt zero (child_loads_again j a) clears flag lines rests zeroed h = absurd (rests refl)
set-ChildAt (suc slack) (child_loads_again j a) clears flag lines rests zeroed h =
    (h.0, h.1, h.2, omega arith, h.4)
set-ChildAt slack (child_prints j a b) clears flag lines rests zeroed h = h
set-ChildAt slack child_exits clears flag lines rests zeroed h = h

pub next_parent-At :
    (i sets n flag : ℕ) → i ≡ suc sets → n ≡ sets → i ≤ 11 → ParentAt (next_parent i) sets n flag
next_parent-At i sets n flag e e' h = elim (Bool-cases (leb i 10)) [
  | inl b ↦ rw b (e, e', leb→le i 10 b)
  | inr b ↦ rw b (omega (arith, not_leb→lt i 10 b), e')
]

pub next_child-At :
    (slack i clears flag lines : ℕ)
    → i ≡ suc clears
    → i ≤ 11
    → lines ≡ clears
    → ChildAt slack (next_child i) clears flag lines
next_child-At slack i clears flag lines e h same = elim (Bool-cases (leb i 10)) [
  | inl b ↦ rw b (e, leb→le i 10 b, same)
  | inr b ↦ rw b (omega (arith, not_leb→lt i 10 b), same)
]

-- What the parent's next access leads to, if it has one.
abbrev pub Leads : (State → Type 0) → Option State → Type 0
Leads P none = Unit
Leads P (some t) = P t

-- The child's next access does not overflow, and leads to such a state, if there is one.
abbrev pub LeadsSafely : (State → Type 0) → Outcome State → Type 0
LeadsSafely P (done t) = P t
LeadsSafely P (exited code) = Unit
LeadsSafely P undefined = ⊥
LeadsSafely P out_of_fuel = ⊥
