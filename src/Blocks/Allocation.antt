-- ===== src/Blocks/Allocation.antt =====
-- Which blocks get_freeblock hands out after init_File_dd.
use the_operating_system.Common.{
  ℕ, suc, ◌+◌, ◌-◌, ◌*◌, ◌%◌, ◌≤◌, ◌<◌, ◌≡◌, refl, ap, sym, subst, ◌∙◌, true, false, ltb, leb, ◌==◌,
  if◌then◌else◌, ne→==, lt→ltb, le→leb, le→not_ltb, arith,
}
use native.Mathlib.Decide.{dec_lt}
use the_operating_system.Common.Bytes.{int_minus_one}
use the_operating_system.Common.Outcomes.{done}
use the_operating_system.Blocks.{
  World, update, read_header, write_header, increment, decrement, seek_end, mark_loop, take_block,
  get_freeblock,
}
use the_operating_system.Blocks.Files.{mark_loop_behind, mark_loop-size}

abbrev pub file_size : ℕ
file_size = 0x80_0000

-- The first free block after `j` calls: all blocks with even numbers come, and then none.
abbrev pub handed : ℕ → ℕ
handed j = if ltb j 1024 then 2 * j else int_minus_one

-- The words of the file after `j` calls: both counts, the first free block, and the links from it on.
pub record IsLinked (j : ℕ) (word : ℕ → ℕ) : Type 0 where
  pub ubn : word 16 ≡ j
  pub fbn : word 24 ≡ (0x1_0000_0000 - j) % 0x1_0000_0000
  pub ffb : word 32 ≡ handed j
  pub links : (b : ℕ) → 2 * j ≤ b → b < 2046 → word ((b + 1) * 1024 + 1023) ≡ b + 2
  pub last_link : word (2047 * 1024 + 1023) ≡ int_minus_one

increment_small : (n : ℕ) → n < 0x7fff_ffff → increment n ≡ done (n + 1)
increment_small n h = rw (ne→== n 0x7fff_ffff (omega arith)) (ap done (omega arith))

decrement_small :
    (j : ℕ)
    → j < 0x7fff_ffff
    → decrement ((0x1_0000_0000 - j) % 0x1_0000_0000)
      ≡ done ((0x1_0000_0000 - (j + 1)) % 0x1_0000_0000)
decrement_small j h =
    rw (ne→== ((0x1_0000_0000 - j) % 0x1_0000_0000) 0x8000_0000 (omega arith))
      (ap done (omega arith))

seek_end_small : (here b : ℕ) → b < 2048 → seek_end here b ≡ done ((b + 1) * 1024 + 1023)
seek_end_small here b h =
    rw
      (lt→ltb b 0x8000_0000 (omega arith), lt→ltb ((b + 1) * 4096 + 4092) 0x8000_0000 (omega arith))
      refl

-- The link of the first free block.
next_link :
    (j : ℕ) (word : ℕ → ℕ)
    → j < 1024
    → IsLinked j word
    → word ((2 * j + 1) * 1024 + 1023) ≡ handed (j + 1)
next_link j word h linked = elim (dec_lt j 1023) [
  | yes more ↦
      linked.links (2 * j) (omega arith) (omega arith)
      ∙ rw (lt→ltb (j + 1) 1024 (omega arith)) (omega arith)
  | no end ↦
      let e : j ≡ 1023 = omega arith in
      subst (λ i. word ((2 * i + 1) * 1024 + 1023) ≡ handed (i + 1)) (sym e) linked.last_link
]

abbrev pub world : (word buf : ℕ → ℕ) → World
world word buf = record { file = record { size = file_size; word = word }; buf = buf }

-- What `buf` and the file have after a call that hands out the block `2 * j`.
abbrev bufs : (j : ℕ) (word buf : ℕ → ℕ) → ℕ → ℕ
bufs j word buf =
    update
      (update (update (read_header (world word buf)).buf 16 (j + 1)) 24
        ((0x1_0000_0000 - (j + 1)) % 0x1_0000_0000))
      32 (handed (j + 1))

abbrev words : (j : ℕ) (word buf : ℕ → ℕ) → ℕ → ℕ
words j word buf i =
    if ltb i 1024
    then bufs j word buf i
    else (mark_loop (2 * j) 0 (handed (j + 1)) (record { size = file_size; word = word })).word i

words-IsLinked :
    (j : ℕ) (word buf : ℕ → ℕ) → j < 1024 → IsLinked j word → IsLinked (suc j) (words j word buf)
words-IsLinked j word buf h linked = record {
  ubn = omega arith;
  fbn = ap (λ i. (0x1_0000_0000 - i) % 0x1_0000_0000) (let e : j + 1 ≡ suc j = omega arith in e);
  ffb = ap handed (let e : j + 1 ≡ suc j = omega arith in e);
  links = λ b le lt. rw (le→not_ltb ((b + 1) * 1024 + 1023) 1024 (omega arith)) (
      mark_loop_behind (2 * j) 0 (handed (j + 1)) (record { size = file_size; word = word })
        ((b + 1) * 1024 + 1023) (omega arith)
      ∙ linked.links b (omega arith) lt);
  last_link =
      mark_loop_behind (2 * j) 0 (handed (j + 1)) (record { size = file_size; word = word })
        (2047 * 1024 + 1023) (omega arith)
      ∙ linked.last_link;
}

take_block-next :
    (j : ℕ) (w : World)
    → j < 1024
    → w.file.size ≡ file_size
    → w.buf 16 ≡ j
    → w.buf 24 ≡ (0x1_0000_0000 - j) % 0x1_0000_0000
    → w.file.word ((2 * j + 1) * 1024 + 1023) ≡ handed (j + 1)
    → take_block w (2 * j)
      ≡ done (
        2 * j,
        write_header (record {
          file = mark_loop (2 * j) 0 (handed (j + 1)) w.file;
          buf =
              update
                (update (update w.buf 16 (j + 1)) 24 ((0x1_0000_0000 - (j + 1)) % 0x1_0000_0000))
                32
                (handed (j + 1));
        }),
      )
unfolding take_block
take_block-next j w h size ubn fbn link =
    let fits : leb (4 * ((2 * j + 1) * 1024 + 1023) + 4) w.file.size ≡ true =
      le→leb (4 * ((2 * j + 1) * 1024 + 1023) + 4) w.file.size (omega arith) in
    rw
      (
        take_block,
        ubn,
        fbn,
        increment_small j (omega arith),
        decrement_small j (omega arith),
        seek_end_small _ (2 * j) (omega arith),
        fits,
        lt→ltb (2 * j) 0x8000_0000 (omega arith),
        link,
      )
      refl

get_freeblock-takes :
    (d : ℕ) (w : World) (ffb : ℕ)
    → (read_header w).buf 32 ≡ ffb
    → (ffb == int_minus_one) ≡ false
    → get_freeblock (suc d) w ≡ take_block (read_header w) ffb
unfolding get_freeblock
get_freeblock-takes d w ffb e used =
    subst
      (λ b.
        (elim (b == int_minus_one) [
          | true ↦ done (int_minus_one, read_header w)
          | false ↦ take_block (read_header w) b
        ])
        ≡ take_block (read_header w) ffb)
      (sym e) (rw used refl)

pub get_freeblock-none :
    (d : ℕ) (w : World)
    → (read_header w).buf 32 ≡ int_minus_one
    → get_freeblock (suc d) w ≡ done (int_minus_one, read_header w)
unfolding get_freeblock
get_freeblock-none d w e =
    subst
      (λ b.
        (elim (b == int_minus_one) [
          | true ↦ done (int_minus_one, read_header w)
          | false ↦ take_block (read_header w) b
        ])
        ≡ done (int_minus_one, read_header w))
      (sym e) refl

pub get_freeblock-next :
    (d j : ℕ) (word buf : ℕ → ℕ)
    → j < 1024
    → IsLinked j word
    → (buf' : ℕ → ℕ) × (word' : ℕ → ℕ) × (get_freeblock (suc d) (world word buf)
        ≡ done (2 * j, world word' buf'))
      × IsLinked (suc j) word'
      × (buf' 32 ≡ handed (suc j))
get_freeblock-next d j word buf h linked =
    let free : word 32 ≡ 2 * j = linked.ffb ∙ rw (lt→ltb j 1024 h) refl in
    let used : (2 * j == int_minus_one) ≡ false = ne→== (2 * j) int_minus_one (omega arith) in
    let link = next_link j word h linked in
    let size =
      mark_loop-size (2 * j) 0 (handed (j + 1)) (record { size = file_size; word = word })
        (omega arith) in
    (
      bufs j word buf,
      words j word buf,
      get_freeblock-takes d (world word buf) (2 * j) free used
          ∙ take_block-next j (read_header (world word buf)) h refl linked.ubn linked.fbn link
          ∙ rw size refl,
      words-IsLinked j word buf h linked,
      ap handed (let e : j + 1 ≡ suc j = omega arith in e),
    )
