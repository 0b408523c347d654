-- ===== src/Ranking/Witnesses.antt =====
-- Both programs on the array 3, 9, -1, 9.
use mathlib.Core.List.{Perm}
use the_operating_system.Common.{ℕ, ◌≡◌, refl, Bool, true, false, ◌++◌, List, [], ◌∷◌, arith, ◌==◌}
use the_operating_system.Common.Bytes.{signed_ltb, signed_key}
use the_operating_system.Common.Outcomes.{done, load, store}
use the_operating_system.Ranking.{
  Rank, enter_n, enter_element, largest, questions, Output, max_loop, exchange, rank_chain,
  print_ranks, collect_ranks,
}
use the_operating_system.Ranking.Lines.{lines_of, shown}
use the_operating_system.Ranking.Sorted.{
  IsDescending, IsRanking, print_ranks-IsDescending, collect_ranks-print_ranks,
}

abbrev numbers : List ℕ
numbers = 3 ∷ 9 ∷ 0xffff_ffff ∷ 9 ∷ []

abbrev never : ℕ → Bool
never i = false

abbrev ranks : List Rank
ranks =
    record { rank = 1; value = 9; idx = 1 }
    ∷ record { rank = 2; value = 9; idx = 3 }
    ∷ record { rank = 3; value = 3; idx = 3 }
    ∷ record { rank = 4; value = 0xffff_ffff; idx = 3 }
    ∷ []

abbrev screen : Output
screen = record {
  running =
      enter_n
      ∷ enter_element 1
      ∷ enter_element 2
      ∷ enter_element 3
      ∷ enter_element 4
      ∷ lines_of ranks;
  ending = [] ∷ [] ∷ [] ∷ [] ∷ [] ∷ [];
}

print_ranks_test : print_ranks true never numbers ≡ done screen
unfolding print_ranks rank_chain max_loop exchange load store signed_ltb signed_key
print_ranks_test = refl

-- The second `fork` fails: `main` and its child have a buffer each.
print_ranks_fork_test :
    print_ranks false (λ i. i == 1) (7 ∷ 8 ∷ [])
    ≡ done (record {
      running = [];
      ending =
          questions 2
          ∷ (questions 2 ++ (largest (record { rank = 1; value = 8; idx = 1 }) ∷ []))
          ∷ [];
    })
unfolding print_ranks rank_chain max_loop exchange load store signed_ltb signed_key
print_ranks_fork_test = refl

print_ranks-IsDescending_example :
    (sorted : List ℕ) × (rs : List Rank) × Perm sorted numbers
    × IsDescending sorted
    × IsRanking 0 rs sorted
    × (print_ranks false never numbers ≡ done (shown false (questions 4) (lines_of rs)))
print_ranks-IsDescending_example = print_ranks-IsDescending never (λ i. refl) false numbers

collect_ranks-print_ranks_example :
    collect_ranks never numbers ≡ done (9 ∷ 9 ∷ 3 ∷ 0xffff_ffff ∷ [])
collect_ranks-print_ranks_example =
    collect_ranks-print_ranks never (λ i. refl) numbers screen (omega arith) print_ranks_test
