-- ===== src/Blocks/Freeing.antt =====
-- What free_block does to the header of the file.
use the_operating_system.Common.{ℕ, ◌+◌, ◌*◌}

-- The end of the block before the block `d`, or of the header.
abbrev end_before : ℕ → ℕ
end_before d = d * 1024 + 1023
