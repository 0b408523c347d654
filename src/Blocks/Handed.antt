-- ===== src/Blocks/Handed.antt =====
-- What calls of get_freeblock return after init_File_dd.
use the_operating_system.Common.{
  ℕ, zero, suc, ◌+◌, ◌-◌, ◌*◌, ◌≤◌, ◌≡◌, refl, ap, ◌∙◌, lt→ltb, le→not_ltb, arith, List, [], ◌∷◌,
}
use native.Mathlib.Decide.{dec_lt}
use the_operating_system.Common.Bytes.{int_minus_one}
use the_operating_system.Common.Outcomes.{Outcome, done, ◌>>=◌}
use the_operating_system.Blocks.{
  File, World, update, larger, init_loop, init_file_dd, read_header, get_freeblock,
}
use the_operating_system.Blocks.Files.{
  init_loop_before, init_loop_writes, init_loop-size, update_other,
}
use the_operating_system.Blocks.Allocation.{
  file_size, handed, IsLinked, world, get_freeblock-next, get_freeblock-none,
}

-- A program that calls `get_freeblock` a number of times: what it returns. Each call that can open the
-- file keeps a descriptor.
pub get_freeblocks : (k descriptors : ℕ) → World → Outcome (List ℕ × World)
get_freeblocks zero d w = done ([], w)
get_freeblocks (suc k) d w = do
  (block, w') ← get_freeblock d w
  (blocks, end) ← get_freeblocks k (d - 1) w'
  done (block ∷ blocks, end)

-- The file has no more than the 2048 blocks, and zeros for both counts and the first free block, as
-- one that did not exist.
pub record IsFresh (f : File) : Type 0 where
  pub small : f.size ≤ file_size
  pub ubn : f.word 16 ≡ 0
  pub fbn : f.word 24 ≡ 0
  pub ffb : f.word 32 ≡ 0

larger_of_ge : (a b : ℕ) → a ≤ b → larger a b ≡ b
larger_of_ge a b h = ground arith

init_words : File → ℕ → ℕ
init_words f = update (init_loop 2047 1 f).word 2097151 int_minus_one

init_file_dd-world :
    (w : World) → IsFresh w.file → init_file_dd w ≡ world (init_words w.file) (init_file_dd w).buf
unfolding init_file_dd init_words
init_file_dd-world w fresh =
    let size =
      larger_of_ge (init_loop 2047 1 w.file).size file_size
        (init_loop-size 2047 1 2048 w.file (omega arith) (omega arith) fresh.small) in
    rw size refl

init_words-IsLinked : (f : File) → IsFresh f → IsLinked 0 (init_words f)
unfolding init_words
init_words-IsLinked f fresh = record {
  ubn = init_loop_before 2047 1 f 16 (omega arith) ∙ fresh.ubn;
  fbn = init_loop_before 2047 1 f 24 (omega arith) ∙ fresh.fbn;
  ffb = init_loop_before 2047 1 f 32 (omega arith) ∙ fresh.ffb;
  links = λ b le lt.
      update_other (init_loop 2047 1 f).word 2097151 int_minus_one ((b + 1) * 1024 + 1023)
        (omega arith)
      ∙ ap (init_loop 2047 1 f).word
          (let e : (b + 1) * 1024 + 1023 ≡ 1024 * (b + 2) - 1 = omega arith in e)
      ∙ init_loop_writes 2047 1 (b + 2) f (omega arith) (omega arith) (omega arith);
  last_link = refl;
}

abbrev pub handed_from : (j k : ℕ) → List ℕ
handed_from j zero = []
handed_from j (suc k) = handed j ∷ handed_from (suc j) k

get_freeblocks-step :
    (k d b : ℕ) (bs : List ℕ) (w w' end : World)
    → get_freeblock (suc d) w ≡ done (b, w')
    → get_freeblocks k d w' ≡ done (bs, end)
    → get_freeblocks (suc k) (suc d) w ≡ done (b ∷ bs, end)
unfolding get_freeblocks
get_freeblocks-step k d b bs w w' end e es =
    let left : suc d - 1 ≡ d = omega arith in rw (get_freeblocks, e, left, es) refl

-- Once no block is free, every call returns -1.
get_freeblocks-none :
    (k d j : ℕ) (word buf : ℕ → ℕ)
    → k ≤ d
    → 1024 ≤ j
    → word 32 ≡ int_minus_one
    → (end : World) × (get_freeblocks k d (world word buf) ≡ done (handed_from j k, end))
unfolding get_freeblocks
get_freeblocks-none zero d j word buf enough le e = (world word buf, refl)
get_freeblocks-none (suc k) zero j word buf enough le e = absurd (omega arith)
get_freeblocks-none (suc k) (suc d) j word buf enough le e =
    let (end, es) =
      get_freeblocks-none k d (suc j) word (read_header (world word buf)).buf (omega arith)
        (omega arith) e in
    (
      end,
      get_freeblocks-step k d int_minus_one (handed_from (suc j) k) (world word buf)
            (read_header (world word buf)) end (get_freeblock-none d (world word buf) e) es
          ∙ rw (le→not_ltb j 1024 le) refl,
    )

get_freeblocks-linked :
    (k d j : ℕ) (word buf : ℕ → ℕ)
    → k ≤ d
    → j ≤ 1024
    → IsLinked j word
    → (end : World) × (get_freeblocks k d (world word buf) ≡ done (handed_from j k, end))
unfolding get_freeblocks
get_freeblocks-linked zero d j word buf enough le linked = (world word buf, refl)
get_freeblocks-linked (suc k) zero j word buf enough le linked = absurd (omega arith)
get_freeblocks-linked (suc k) (suc d) j word buf enough le linked = elim (dec_lt j 1024) [
  | yes lt ↦
      let (buf', word', e, linked', first) = get_freeblock-next d j word buf lt linked in
      let (end, es) =
        get_freeblocks-linked k d (suc j) word' buf' (omega arith) (omega arith) linked' in
      (
        end,
        get_freeblocks-step k d (2 * j) (handed_from (suc j) k) (world word buf) (world word' buf')
              end e es
            ∙ rw (lt→ltb j 1024 lt) refl,
      )
  | no ge ↦
      get_freeblocks-none (suc k) (suc d) j word buf enough (omega arith)
        (linked.ffb ∙ rw (le→not_ltb j 1024 (omega arith)) refl)
]

module _ (w : World) (fresh : IsFresh w.file) where
  -- After `init_File_dd` on a file of at most 2048 blocks, with zeros for both counts and the first
  -- free block, in a program that calls `get_freeblock` no more often than it can open files: the first
  -- 1024 calls return the blocks 0, 2, 4 and so on up to 2046, and all further calls return -1. The
  -- blocks with odd numbers are never handed out.
  pub get_freeblocks-handed :
      (k descriptors : ℕ)
      → k ≤ descriptors
      → (end : World) × (get_freeblocks k descriptors (init_file_dd w)
          ≡ done (handed_from 0 k, end))
  get_freeblocks-handed k d enough =
      let (end, e) =
        get_freeblocks-linked k d 0 (init_words w.file) (init_file_dd w).buf enough (omega arith)
          (init_words-IsLinked w.file fresh) in
      (end, ap (get_freeblocks k d) (init_file_dd-world w fresh) ∙ e)
