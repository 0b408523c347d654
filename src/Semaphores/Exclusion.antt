-- ===== src/Semaphores/Exclusion.antt =====
-- The parent and the child of sample.c exclude each other.
use the_operating_system.Common.{
  ℕ, zero, suc, ◌+◌, ◌≡◌, refl, sym, subst, some, List, [], ◌∷◌, ◌++◌, arith,
}
use the_operating_system.Semaphores.{
  Line, child, parent, Op, decr, incr, print, Process, State, move, sample_child, sample_parent,
  sample, Moves, here, next,
}

-- Which of the two is in its critical section, and where; never both are.
data Place : Type 0 where
  neither child_prints child_leaves parent_prints parent_leaves : Place

abbrev state : (child_rest parent_rest : List Op) (value : ℕ) → List Line → State
state child_rest parent_rest value out = record {
  sems = value ∷ [];
  processes =
      record { body = sample_child; rest = child_rest }
      ∷ record { body = sample_parent; rest = parent_rest }
      ∷ [];
  output = out;
}

abbrev config : Place → List Line → State
config neither out = state sample_child sample_parent 1 out
config child_prints out = state (print child ∷ incr 0 ∷ []) sample_parent 0 out
config child_leaves out = state (incr 0 ∷ []) sample_parent 0 out
config parent_prints out = state sample_child (print parent ∷ incr 0 ∷ []) 0 out
config parent_leaves out = state sample_child (incr 0 ∷ []) 0 out

record Reached (s : State) : Type 0 where
  place : Place
  out : List Line
  same : s ≡ config place out

reached : (p : Place) (out : List Line) {s : State} → s ≡ config p out → Reached s
reached p out e = record { place = p; out = out; same = e }

-- A move keeps one of the two out.
move-Reached :
    (p : Place) (out : List Line) (i : ℕ) (u : State) → move i (config p out) ≡ some u → Reached u
unfolding move
move-Reached neither out zero u e = reached child_prints out (cc)
move-Reached neither out (suc zero) u e = reached parent_prints out (cc)
move-Reached neither out (suc (suc i)) u e = cc
move-Reached child_prints out zero u e = reached child_leaves (out ++ (child ∷ [])) (cc)
move-Reached child_prints out (suc i) u e = ground arith
move-Reached child_leaves out zero u e = reached neither out (cc)
move-Reached child_leaves out (suc i) u e = ground arith
move-Reached parent_prints out zero u e = cc
move-Reached parent_prints out (suc zero) u e = reached parent_leaves (out ++ (parent ∷ [])) (cc)
move-Reached parent_prints out (suc (suc i)) u e = cc
move-Reached parent_leaves out zero u e = cc
move-Reached parent_leaves out (suc zero) u e = reached neither out (cc)
move-Reached parent_leaves out (suc (suc i)) u e = cc

Moves-Reached : {n : ℕ} {s : State} → Moves sample n s → Reached s
Moves-Reached here = reached neither [] refl
Moves-Reached (next {t} {u} i ms e) =
    let r = Moves-Reached ms in
    move-Reached r.place r.out i u (subst (λ s. move i s ≡ some u) r.same e)

-- 1 for a process that is in its critical section.
abbrev inside : Process → ℕ
inside p = elim p.rest [ decr num ∷ ops ↦ 0 | _ ↦ 1 ]

abbrev pub all_inside : List Process → ℕ
all_inside [] = 0
all_inside (p ∷ ps) = inside p + all_inside ps

-- The set has one semaphore, which is 0 or 1, the processes in the critical section are as many as
-- it lacks of 1, and a process can move.
pub record IsExclusive (s : State) : Type 0 where
  pub value : ℕ
  pub one : s.sems ≡ value ∷ []
  pub exclusive : value + all_inside s.processes ≡ 1
  pub mover : ℕ
  pub after : State
  pub live : move mover s ≡ some after

config-IsExclusive : (p : Place) (out : List Line) → IsExclusive (config p out)
unfolding move
config-IsExclusive neither out = record {
  value = 1;
  one = refl;
  exclusive = omega arith;
  mover = 0;
  after = config child_prints out;
  live = refl;
}
config-IsExclusive child_prints out = record {
  value = 0;
  one = refl;
  exclusive = omega arith;
  mover = 0;
  after = config child_leaves (out ++ (child ∷ []));
  live = refl;
}
config-IsExclusive child_leaves out = record {
  value = 0;
  one = refl;
  exclusive = omega arith;
  mover = 0;
  after = config neither out;
  live = refl;
}
config-IsExclusive parent_prints out = record {
  value = 0;
  one = refl;
  exclusive = omega arith;
  mover = 1;
  after = config parent_leaves (out ++ (parent ∷ []));
  live = refl;
}
config-IsExclusive parent_leaves out = record {
  value = 0;
  one = refl;
  exclusive = omega arith;
  mover = 1;
  after = config neither out;
  live = refl;
}

-- In every state that the parent and the child reach: the semaphore and the number of processes in
-- the critical section add up to 1, and one of the two processes can move.
pub Moves-IsExclusive : {n : ℕ} {s : State} → Moves sample n s → IsExclusive s
Moves-IsExclusive {s} ms =
    let r = Moves-Reached ms in subst IsExclusive (sym r.same) (config-IsExclusive r.place r.out)
