-- ===== src/Semaphores/Witnesses.antt =====
-- The first moves round the ring, and of the parent and the child.
use the_operating_system.Common.{ℕ, ◌≡◌, refl, some, [], ◌∷◌, arith}
use the_operating_system.Semaphores.{
  i_am_p1, i_am_p2_section1, State, print, i_am_p2_section2, incr, decr, parent, move, p1, p2, p3,
  ring, sample, sample_child, sample_parent, Moves, here, next,
}
use the_operating_system.Semaphores.Ring.{lines, Moves-lines, Moves-live}
use the_operating_system.Semaphores.Exclusion.{IsExclusive, Moves-IsExclusive}

-- p1 has had its turn, and p2 has printed in its section 1.
abbrev second : State
second = record {
  sems = 0 ∷ 0 ∷ 0 ∷ 0 ∷ [];
  processes =
      record { body = p1; rest = p1 }
      ∷ record { body = p2; rest = incr 2 ∷ decr 3 ∷ print i_am_p2_section2 ∷ incr 0 ∷ [] }
      ∷ record { body = p3; rest = p3 }
      ∷ [];
  output = i_am_p1 ∷ i_am_p2_section1 ∷ [];
}

second_reached : Moves ring 5 second
unfolding move
second_reached = next 1 (next 1 (next 0 (next 0 (next 0 here refl) refl) refl) refl) refl

Moves-lines_example : second.output ≡ lines 2
Moves-lines_example = Moves-lines second_reached

Moves-live_example :
    (i : ℕ) × (u : State) × (move i second ≡ some u)
    × ((j : ℕ) (v : State) → move j second ≡ some v → v ≡ u)
Moves-live_example = Moves-live (omega arith) second_reached

-- The parent has printed, and is in its critical section.
abbrev parent_in : State
parent_in = record {
  sems = 0 ∷ [];
  processes =
      record { body = sample_child; rest = sample_child }
      ∷ record { body = sample_parent; rest = incr 0 ∷ [] }
      ∷ [];
  output = parent ∷ [];
}

parent_in_reached : Moves sample 2 parent_in
unfolding move
parent_in_reached = next 1 (next 1 here refl) refl

Moves-IsExclusive_example : IsExclusive parent_in
Moves-IsExclusive_example = Moves-IsExclusive parent_in_reached
