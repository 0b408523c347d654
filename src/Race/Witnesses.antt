-- ===== src/Race/Witnesses.antt =====
-- Two threads of one round each, where one raise gets lost.
use the_operating_system.Common.{◌+◌, ◌≤◌, refl}
use the_operating_system.Race.{at_read, State, Reached, create, by_t1, by_t2}
use the_operating_system.Race.Lost.{left, Reached-total}

abbrev lost : State
lost = record { counter = 1; t1 = at_read 0; t2 = at_read 0 }

lost_reached : Reached 1 lost
lost_reached = by_t2 (by_t1 (by_t2 (by_t1 create refl) refl) refl) refl

Reached-total_example : lost.counter + left lost.t1 + left lost.t2 ≤ 2
Reached-total_example = Reached-total lost_reached
