-- ===== src/Blocks/Witnesses.antt =====
-- A file that did not exist, and one whose blocks are linked in their order.
use the_operating_system.Common.{ℕ, ◌+◌, ◌/◌, ◌%◌, ◌≡◌, refl, ◌==◌, if◌then◌else◌, arith}
use the_operating_system.Common.Outcomes.{Outcome, done, ◌>>=◌}
use the_operating_system.Blocks.{
  World, init_file_dd, mark_loop, take_block, get_freeblock, seek_block, get_again, free_loop,
  free_block,
}
use the_operating_system.Blocks.Allocation.{file_size}
use the_operating_system.Blocks.Handed.{get_freeblocks, IsFresh, handed_from, get_freeblocks-handed}

abbrev empty : World
empty = record { file = record { size = 0; word = λ i. 0 }; buf = λ i. 7 }

empty-IsFresh : IsFresh empty.file
empty-IsFresh = record { small = omega arith; ubn = refl; fbn = refl; ffb = refl }

get_freeblocks-handed_example :
    (end : World) × (get_freeblocks 1025 2000 (init_file_dd empty) ≡ done (handed_from 0 1025, end))
get_freeblocks-handed_example = get_freeblocks-handed empty empty-IsFresh 1025 2000 (omega arith)

-- The blocks from 6 on are free.
abbrev linked : World
linked = record {
  file = record {
    size = file_size;
    word = λ i. if i % 1024 == 1023 then i / 1024 + 1 else (if i == 32 then 6 else 0);
  };
  buf = λ i. 0;
}

abbrev value : Outcome (ℕ × World) → Outcome ℕ
value run = run >>= λ (n, w). done n

get_freeblock_test : value (get_freeblock 3 linked) ≡ done 6
unfolding get_freeblock take_block mark_loop
get_freeblock_test = refl

free_block_test : value (free_block linked 5) ≡ done 1
unfolding free_block free_loop seek_block get_again
free_block_test = refl
