-- ===== src/Handshake/Reached.antt =====
-- The states that the parent and the child reach, and the lines of the child.
use the_operating_system.Common.{
  ℕ, zero, suc, ◌≡◌, ◌≢◌, refl, ap, sym, subst, ◌∙◌, Bool, some, List, [], ◌∷◌, arith, length,
}
use the_operating_system.Common.Outcomes.{done, undefined}
use the_operating_system.Handshake.{
  child_exits, Line, State, initial, parent_step, child_step, Reachable, start, by_parent, by_child,
}
use the_operating_system.Handshake.Steps.{parent_at-Inv, child_at-Inv}
use the_operating_system.Handshake.Factorial.{factorial}
use the_operating_system.Handshake.Rounds.{
  IsLine, From, ChildAt, Inv, initial-Inv, ParentRests, ChildRests, Leads, LeadsSafely,
}

pub Reachable-Inv : {f : Bool} {s : State} → Reachable f s → Inv 1 s
unfolding parent_step child_step
Reachable-Inv start = initial-Inv 1
Reachable-Inv (by_parent {s} r e) = subst (Leads (Inv 1)) e (
    parent_at-Inv 1 s.flag s.n s.parent s.child s.written s.printed (λ h. absurd (omega arith))
      (Reachable-Inv r))
Reachable-Inv {f} (by_child {s} r e) = subst (LeadsSafely (Inv 1)) e (
    child_at-Inv f 1 s.flag s.n s.parent s.child s.written s.printed (omega arith)
      (λ h. absurd (omega arith)) (Reachable-Inv r))

-- However the accesses of the two processes interleave, the number in the child's k-th line is k - 1,
-- k or k + 1, and its factorial is that of one of these three numbers.
pub Reachable-lines : {f : Bool} {s : State} → Reachable f s → From (IsLine 1) 1 s.printed
Reachable-lines r = (Reachable-Inv r).lines

-- However the accesses interleave, the child's next access does not overflow an `int`.
pub Reachable-defined : {f : Bool} {s : State} → Reachable f s → child_step f s ≢ undefined
unfolding child_step
Reachable-defined {f} {s} r e = subst (LeadsSafely (Inv 1)) e (
    child_at-Inv f 1 s.flag s.n s.parent s.child s.written s.printed (omega arith)
      (λ h. absurd (omega arith)) (Reachable-Inv r))

-- However the accesses interleave, the child has printed 10 lines when it exits.
pub child_exits-lines :
    {f : Bool} {s : State} → Reachable f s → s.child ≡ child_exits → length s.printed ≡ 10
child_exits-lines {s} r e =
    let inv = Reachable-Inv r in
    let at : ChildAt 1 child_exits inv.clears s.flag (length s.printed) =
      subst (λ c. ChildAt 1 c inv.clears s.flag (length s.printed)) e inv.at_child in
    omega (arith, at)

-- The states that the processes reach where neither makes an access amid a round of the other, as when
-- a round takes less time than a `sleep`.
pub data Polite (fact_first : Bool) : State → Type 0 where
  polite_start : Polite fact_first initial
  polite_parent :
      {s t : State}
      → Polite fact_first s
      → ChildRests s.child
      → parent_step s ≡ some t
      → Polite fact_first t
  polite_child :
      {s t : State}
      → Polite fact_first s
      → ParentRests s.parent
      → child_step fact_first s ≡ done t
      → Polite fact_first t

Polite-Inv : {f : Bool} {s : State} → Polite f s → Inv 0 s
unfolding parent_step child_step
Polite-Inv polite_start = initial-Inv 0
Polite-Inv (polite_parent {s} r rests e) =
    subst (Leads (Inv 0)) e
      (parent_at-Inv 0 s.flag s.n s.parent s.child s.written s.printed (λ h. rests) (Polite-Inv r))
Polite-Inv {f} (polite_child {s} r rests e) = subst (LeadsSafely (Inv 0)) e (
    child_at-Inv f 0 s.flag s.n s.parent s.child s.written s.printed (omega arith) (λ h. rests)
      (Polite-Inv r))

abbrev pub factorials : (j k : ℕ) → List Line
factorials j zero = []
factorials j (suc k) = record { n = j; factorial = factorial j } ∷ factorials (suc j) k

From-factorials : (j : ℕ) (ls : List Line) → From (IsLine 0) j ls → ls ≡ factorials j (length ls)
From-factorials j [] h = refl
From-factorials j (l ∷ ls) h =
    let number : l.n ≡ j = omega (arith, h.0.number) in
    let base : h.0.m ≡ j = omega (arith, h.0.base) in
    let fac : l.factorial ≡ factorial j = h.0.fac ∙ ap factorial base in
    rw (number, fac, sym (From-factorials (suc j) ls h.1)) refl

-- Where neither process makes an access amid a round of the other, the child's lines are the numbers
-- from 1 on, with their factorials.
pub Polite-lines : {f : Bool} {s : State} → Polite f s → s.printed ≡ factorials 1 (length s.printed)
Polite-lines {s} r = From-factorials 1 s.printed (Polite-Inv r).lines
