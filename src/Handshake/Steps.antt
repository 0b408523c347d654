-- ===== src/Handshake/Steps.antt =====
-- The accesses of the parent and of the child keep what holds between them.
use the_operating_system.Common.{
  ℕ, zero, suc, ◌+◌, ◌≤◌, ◌≡◌, refl, subst, inl, inr, Bool, true, false, List, [], ◌∷◌, ◌++◌, arith,
  ◌==◌, length, length-append, ==→eq, Bool-cases,
}
use the_operating_system.Common.Outcomes.{done}
use the_operating_system.Handshake.{
  Parent, parent_starts, parent_tests, parent_marks, parent_writes, parent_prints, parent_waits,
  Child, child_tests, child_clears, child_loads, child_loads_again, child_prints, child_exits, Line,
  line, State, parent_at, child_at,
}
use the_operating_system.Handshake.Factorial.{factorial, fact_small}
use the_operating_system.Handshake.Rounds.{
  Near, IsLine, From-append, ParentAt, ChildAt, Inv, ParentRests, ChildRests, set-ChildAt,
  next_parent-At, next_child-At, Leads, LeadsSafely,
}

abbrev state : (flag n : ℕ) → Parent → Child → (written : List ℕ) → (printed : List Line) → State
state flag n q c written printed = record {
  flag = flag;
  n = n;
  parent = q;
  child = c;
  written = written;
  printed = printed;
}

pub parent_at-Inv :
    (slack flag n : ℕ) (q : Parent) (c : Child) (written : List ℕ) (printed : List Line)
    → (slack ≡ 0 → ChildRests c)
    → Inv slack (state flag n q c written printed)
    → Leads (Inv slack) (parent_at q (state flag n q c written printed))
parent_at-Inv slack flag n parent_starts c written printed rests inv = record {
  sets = 0;
  clears = inv.clears;
  count = omega (arith, inv.count, inv.at_parent);
  bit = omega arith;
  at_parent = (refl, inv.at_parent.1, omega arith);
  at_child =
      subst (λ f. ChildAt slack c inv.clears f (length printed))
        (omega (arith, inv.count, inv.at_parent)) inv.at_child;
  lines = inv.lines;
}
parent_at-Inv slack flag n (parent_tests i) c written printed rests inv =
    elim (Bool-cases (flag == 0)) [
      | inl e ↦ rw e (record {
        sets = inv.sets;
        clears = inv.clears;
        count = inv.count;
        bit = inv.bit;
        at_parent = (inv.at_parent.0, inv.at_parent.1, inv.at_parent.2, ==→eq flag 0 e);
        at_child = inv.at_child;
        lines = inv.lines;
      })
      | inr e ↦ rw e inv
    ]
parent_at-Inv slack flag n (parent_marks i) c written printed rests inv = record {
  sets = suc inv.sets;
  clears = inv.clears;
  count = omega (arith, inv.count, inv.at_parent.3);
  bit = omega arith;
  at_parent = (inv.at_parent.0, omega (arith, inv.at_parent.1), inv.at_parent.2);
  at_child =
      set-ChildAt slack c inv.clears flag (length printed) rests inv.at_parent.3 inv.at_child;
  lines = inv.lines;
}
parent_at-Inv slack flag n (parent_writes i) c written printed rests inv = record {
  sets = inv.sets;
  clears = inv.clears;
  count = inv.count;
  bit = inv.bit;
  at_parent = (inv.at_parent.0, inv.at_parent.0, inv.at_parent.2);
  at_child = inv.at_child;
  lines = inv.lines;
}
parent_at-Inv slack flag n (parent_prints i) c written printed rests inv = record {
  sets = inv.sets;
  clears = inv.clears;
  count = inv.count;
  bit = inv.bit;
  at_parent =
      next_parent-At (i + 1) inv.sets n flag (omega (arith, inv.at_parent.0)) inv.at_parent.1
        (omega (arith, inv.at_parent.2));
  at_child = inv.at_child;
  lines = inv.lines;
}
parent_at-Inv slack flag n parent_waits c written printed rests inv = tt

-- The child clears the flag only where the parent has set it.
clear-ParentAt :
    (q : Parent) (sets n flag : ℕ) → flag ≡ 1 → ParentAt q sets n flag → ParentAt q sets n 0
clear-ParentAt parent_starts sets n flag e h = h
clear-ParentAt (parent_tests i) sets n flag e h = h
clear-ParentAt (parent_marks i) sets n flag e h = absurd (omega (arith, h.3))
clear-ParentAt (parent_writes i) sets n flag e h = h
clear-ParentAt (parent_prints i) sets n flag e h = h
clear-ParentAt parent_waits sets n flag e h = h

-- What the child loads, with the flag cleared.
n-Near :
    (slack flag n sets clears : ℕ) (q : Parent)
    → sets ≡ clears + flag
    → flag ≤ slack
    → (slack ≡ 0 → ParentRests q)
    → flag ≤ 1
    → ParentAt q sets n flag
    → (1 ≤ clears)
    → Near slack clears n
n-Near slack flag n sets clears parent_starts count small rests bit at some_clears =
    (omega (arith, at), omega (arith, at))
n-Near slack flag n sets clears (parent_tests i) count small rests bit at some_clears =
    (omega (arith, at), omega (arith, at))
n-Near slack flag n sets clears (parent_marks i) count small rests bit at some_clears =
    (omega (arith, at), omega (arith, at))
n-Near zero flag n sets clears (parent_writes i) count small rests bit at some_clears =
    absurd (rests refl)
n-Near (suc slack) flag n sets clears (parent_writes i) count small rests bit at some_clears =
    (omega (arith, at), omega (arith, at))
n-Near slack flag n sets clears (parent_prints i) count small rests bit at some_clears =
    (omega (arith, at), omega (arith, at))
n-Near slack flag n sets clears parent_waits count small rests bit at some_clears =
    (omega (arith, at), omega (arith, at))

pub line-IsLine :
    (f : Bool) (slack j a b : ℕ)
    → slack ≤ 1
    → j ≤ 10
    → Near slack j a
    → Near slack j b
    → (l : Line) × (line f a b ≡ done l) × IsLine slack j l
line-IsLine true slack j a b small le na nb = (
  record { n = b; factorial = factorial a },
  rw (fact_small a (omega (arith, na))) refl,
  record { number = nb; m = a; base = na; fac = refl },
)
line-IsLine false slack j a b small le na nb = (
  record { n = a; factorial = factorial b },
  rw (fact_small b (omega (arith, nb))) refl,
  record { number = na; m = b; base = nb; fac = refl },
)

pub child_at-Inv :
    (f : Bool) (slack flag n : ℕ) (q : Parent) (c : Child) (written : List ℕ) (printed : List Line)
    → slack ≤ 1
    → (slack ≡ 0 → ParentRests q)
    → Inv slack (state flag n q c written printed)
    → LeadsSafely (Inv slack) (child_at f c (state flag n q c written printed))
child_at-Inv f slack flag n q (child_tests j) written printed small rests inv =
    elim (Bool-cases (flag == 1)) [
      | inl e ↦ rw e (record {
        sets = inv.sets;
        clears = inv.clears;
        count = inv.count;
        bit = inv.bit;
        at_parent = inv.at_parent;
        at_child = (inv.at_child.0, inv.at_child.1, inv.at_child.2, ==→eq flag 1 e);
        lines = inv.lines;
      })
      | inr e ↦ rw e inv
    ]
child_at-Inv f slack flag n q (child_clears j) written printed small rests inv = record {
  sets = inv.sets;
  clears = suc inv.clears;
  count = omega (arith, inv.count, inv.at_child.3);
  bit = omega arith;
  at_parent = clear-ParentAt q inv.sets n flag inv.at_child.3 inv.at_parent;
  at_child = (inv.at_child.0, inv.at_child.1, omega (arith, inv.at_child.2), omega arith);
  lines = inv.lines;
}
child_at-Inv f slack flag n q (child_loads j) written printed small rests inv =
    let near =
      n-Near slack flag n inv.sets inv.clears q inv.count inv.at_child.3 rests inv.bit inv.at_parent
        (omega (arith, inv.at_child.2)) in
    record {
      sets = inv.sets;
      clears = inv.clears;
      count = inv.count;
      bit = inv.bit;
      at_parent = inv.at_parent;
      at_child = (
        inv.at_child.0,
        inv.at_child.1,
        inv.at_child.2,
        inv.at_child.3,
        (omega (arith, near, inv.at_child.0), omega (arith, near, inv.at_child.0)),
      );
      lines = inv.lines;
    }
child_at-Inv f slack flag n q (child_loads_again j a) written printed small rests inv =
    let near =
      n-Near slack flag n inv.sets inv.clears q inv.count inv.at_child.3 rests inv.bit inv.at_parent
        (omega (arith, inv.at_child.2)) in
    record {
      sets = inv.sets;
      clears = inv.clears;
      count = inv.count;
      bit = inv.bit;
      at_parent = inv.at_parent;
      at_child = (
        inv.at_child.0,
        inv.at_child.1,
        inv.at_child.2,
        inv.at_child.4,
        (omega (arith, near, inv.at_child.0), omega (arith, near, inv.at_child.0)),
      );
      lines = inv.lines;
    }
child_at-Inv f slack flag n q (child_prints j a b) written printed small rests inv =
    let (l, e, is_line) =
      line-IsLine f slack j a b small inv.at_child.1 inv.at_child.3 inv.at_child.4 in
    rw e (record {
      sets = inv.sets;
      clears = inv.clears;
      count = inv.count;
      bit = inv.bit;
      at_parent = inv.at_parent;
      at_child =
          next_child-At slack (j + 1) inv.clears flag (length (printed ++ (l ∷ [])))
            (omega (arith, inv.at_child.0)) (omega (arith, inv.at_child.1))
            (omega (arith, inv.at_child.2, length-append printed (l ∷ [])));
      lines =
          From-append (IsLine slack) 1 printed l j (omega (arith, inv.at_child.0, inv.at_child.2))
            inv.lines is_line;
    })
child_at-Inv f slack flag n q child_exits written printed small rests inv = tt
