-- ===== src/Semaphores/Ring.antt =====
-- p1.c, p2.c and p3.c take turns.
use the_operating_system.Common.{
  ℕ, zero, suc, ◌+◌, ◌*◌, ◌/◌, ◌<◌, ◌≡◌, refl, ap, sym, subst, ◌∙◌, some, List, [], ◌∷◌, ◌++◌,
  arith,
}
use the_operating_system.Semaphores.{
  Line, i_am_p1, i_am_p2_section1, i_am_p2_section2, i_am_p3, Op, decr, incr, print, State, move,
  p1, p2, p3, ring, semadj_max, Moves, here, next,
}

-- Whose turn it is, by the place in the ring.
pub data Turn : Type 0 where
  turn_p1 turn_p2 turn_p3 turn_p2_again : Turn

-- What the process whose turn it is does next.
pub data Phase : Type 0 where
  waits prints signals : Turn → Phase

abbrev pub next_turn : Turn → Turn
next_turn turn_p1 = turn_p2
next_turn turn_p2 = turn_p3
next_turn turn_p3 = turn_p2_again
next_turn turn_p2_again = turn_p1

abbrev next_phase : Phase → Phase
next_phase (waits t) = prints t
next_phase (prints t) = signals t
next_phase (signals t) = waits (next_turn t)

abbrev pub line_of : Turn → Line
line_of turn_p1 = i_am_p1
line_of turn_p2 = i_am_p2_section1
line_of turn_p3 = i_am_p3
line_of turn_p2_again = i_am_p2_section2

abbrev who : Turn → ℕ
who turn_p1 = 0
who turn_p2 = 1
who turn_p3 = 2
who turn_p2_again = 1

abbrev sems_at : Phase → List ℕ
sems_at (waits turn_p1) = 1 ∷ 0 ∷ 0 ∷ 0 ∷ []
sems_at (waits turn_p2) = 0 ∷ 1 ∷ 0 ∷ 0 ∷ []
sems_at (waits turn_p3) = 0 ∷ 0 ∷ 1 ∷ 0 ∷ []
sems_at (waits turn_p2_again) = 0 ∷ 0 ∷ 0 ∷ 1 ∷ []
sems_at _ = 0 ∷ 0 ∷ 0 ∷ 0 ∷ []

abbrev rest1 : Phase → List Op
rest1 (prints turn_p1) = print i_am_p1 ∷ incr 1 ∷ []
rest1 (signals turn_p1) = incr 1 ∷ []
rest1 _ = p1

abbrev section2 : List Op
section2 = decr 3 ∷ print i_am_p2_section2 ∷ incr 0 ∷ []

abbrev rest2 : Phase → List Op
rest2 (prints turn_p2) = print i_am_p2_section1 ∷ incr 2 ∷ section2
rest2 (signals turn_p2) = incr 2 ∷ section2
rest2 (waits turn_p3) = section2
rest2 (prints turn_p3) = section2
rest2 (signals turn_p3) = section2
rest2 (waits turn_p2_again) = section2
rest2 (prints turn_p2_again) = print i_am_p2_section2 ∷ incr 0 ∷ []
rest2 (signals turn_p2_again) = incr 0 ∷ []
rest2 _ = p2

abbrev rest3 : Phase → List Op
rest3 (prints turn_p3) = print i_am_p3 ∷ incr 3 ∷ []
rest3 (signals turn_p3) = incr 3 ∷ []
rest3 _ = p3

abbrev config : Phase → List Line → State
config ph out = record {
  sems = sems_at ph;
  processes =
      record { body = p1; rest = rest1 ph }
      ∷ record { body = p2; rest = rest2 ph }
      ∷ record { body = p3; rest = rest3 ph }
      ∷ [];
  output = out;
}

abbrev printed : Phase → List Line → List Line
printed (prints t) out = out ++ (line_of t ∷ [])
printed _ out = out

-- The process whose turn it is can move, and no other one can.
move-who :
    (ph : Phase) (out : List Line)
    → (i : ℕ) × (move i (config ph out) ≡ some (config (next_phase ph) (printed ph out)))
unfolding move
move-who (waits turn_p1) out = (0, refl)
move-who (waits turn_p2) out = (1, refl)
move-who (waits turn_p3) out = (2, refl)
move-who (waits turn_p2_again) out = (1, refl)
move-who (prints turn_p1) out = (0, refl)
move-who (prints turn_p2) out = (1, refl)
move-who (prints turn_p3) out = (2, refl)
move-who (prints turn_p2_again) out = (1, refl)
move-who (signals turn_p1) out = (0, refl)
move-who (signals turn_p2) out = (1, refl)
move-who (signals turn_p3) out = (2, refl)
move-who (signals turn_p2_again) out = (1, refl)

move-only :
    (ph : Phase) (out : List Line) (i : ℕ) (u : State)
    → move i (config ph out) ≡ some u
    → u ≡ config (next_phase ph) (printed ph out)
unfolding move
move-only (waits t) out i u e = ground arith
move-only (prints t) out i u e = ground arith
move-only (signals t) out i u e = ground arith

-- The turns go round: p1, p2, p3, p2 again.
abbrev pub turn_at : ℕ → Turn
turn_at zero = turn_p1
turn_at (suc c) = next_turn (turn_at c)

-- The first `c` lines of the processes that take turns.
abbrev pub lines : ℕ → List Line
lines zero = []
lines (suc c) = lines c ++ (line_of (turn_at c) ∷ [])

-- Where the processes are after `n` moves: each turn has three.
abbrev Place : ℕ → Phase → List Line → Type 0
Place n (waits t) out = (c : ℕ) × (n ≡ 3 * c) × (t ≡ turn_at c) × (out ≡ lines c)
Place n (prints t) out = (c : ℕ) × (n ≡ 3 * c + 1) × (t ≡ turn_at c) × (out ≡ lines c)
Place n (signals t) out = (c : ℕ) × (n ≡ 3 * c + 2) × (t ≡ turn_at c) × (out ≡ lines (suc c))

Place-next :
    (n : ℕ) (ph : Phase) (out : List Line)
    → Place n ph out
    → Place (suc n) (next_phase ph) (printed ph out)
Place-next n (waits t) out (c, count, at, same) = (c, omega arith, at, same)
Place-next n (prints t) out (c, count, at, same) = (c, omega arith, at, cc)
Place-next n (signals t) out (c, count, at, same) = (suc c, omega arith, ap next_turn at, same)

lines-Place : (n : ℕ) (ph : Phase) (out : List Line) → Place n ph out → out ≡ lines ((n + 1) / 3)
lines-Place n (waits t) out (c, count, at, same) =
    let e : c ≡ (n + 1) / 3 = omega arith in same ∙ ap lines e
lines-Place n (prints t) out (c, count, at, same) =
    let e : c ≡ (n + 1) / 3 = omega arith in same ∙ ap lines e
lines-Place n (signals t) out (c, count, at, same) =
    let e : suc c ≡ (n + 1) / 3 = omega arith in same ∙ ap lines e

record Around (n : ℕ) (s : State) : Type 0 where
  phase : Phase
  out : List Line
  same : s ≡ config phase out
  place : Place n phase out

Moves-Around : {n : ℕ} {s : State} → Moves ring n s → Around n s
Moves-Around here = record {
  phase = waits turn_p1;
  out = [];
  same = refl;
  place = (0, refl, refl, refl);
}
Moves-Around (next {n} {t} {u} i ms e) =
    let a = Moves-Around ms in
    record {
      phase = next_phase a.phase;
      out = printed a.phase a.out;
      same = move-only a.phase a.out i u (subst (λ s. move i s ≡ some u) a.same e);
      place = Place-next n a.phase a.out a.place;
    }

-- After any `n` moves from the start, whichever processes made them, the output is the first
-- `(n + 1) / 3` lines of the processes that take turns: p1, section 1 of p2, p3, section 2 of p2,
-- and from the beginning.
pub Moves-lines : {n : ℕ} {s : State} → Moves ring n s → s.output ≡ lines ((n + 1) / 3)
Moves-lines {n} ms =
    let a = Moves-Around ms in ap (λ s. s.output) a.same ∙ lines-Place n a.phase a.out a.place

-- In every state after fewer moves from the start than the limit of `semadj`, one of the processes can
-- move, and all moves that are possible lead to the same state.
pub Moves-live :
    {n : ℕ} {s : State}
    → n < semadj_max
    → Moves ring n s
    → (i : ℕ) × (u : State) × (move i s ≡ some u)
      × ((j : ℕ) (v : State) → move j s ≡ some v → v ≡ u)
Moves-live {s} few ms =
    let a = Moves-Around ms in
    let (i, e) = move-who a.phase a.out in
    (
      i,
      config (next_phase a.phase) (printed a.phase a.out),
      subst (λ t. move i t ≡ some (config (next_phase a.phase) (printed a.phase a.out)))
          (sym a.same) e,
      λ j v h. move-only a.phase a.out j v (subst (λ t. move j t ≡ some v) a.same h),
    )
