-- ===== src/Blocks.antt =====
-- assignments/as7_10mar/as7.c: blocks of a file, handed out and taken back by a list of free ones
-- that the last four bytes of each block link. A file is its size and its words of four bytes, zero
-- where it has a hole; every access of the code is to whole words. An `int` is a number below 2 ^ 32,
-- in two's complement, and its overflow is undefined, as is a variable that a read at the end of the
-- file leaves unset. `buf` is an array of pointers of eight bytes, so that `buf+4` is 32 bytes behind
-- its start: it is kept by words too. `get_freeblock` and `free_block` do not close the file, so that
-- each call takes one of the descriptors that the process has left. `get_freeblock` is given how many
-- they are: without any its `open` and all that follows fails. `free_block` is modelled where its `open`
-- succeeds. No other call fails but an `lseek` to a negative offset, which leaves the position as it is.
pub mod Files
pub mod Allocation
pub mod Handed
pub mod Freeing
mod Witnesses
use the_operating_system.Common.{
  ℕ, zero, suc, ◌+◌, ◌-◌, ◌*◌, ◌/◌, ◌%◌, Bool, true, false, ◌&&◌, Option, none, some, ltb, leb,
  ◌==◌, if◌then◌else◌,
}
use the_operating_system.Common.Bytes.{int_minus_one}
use the_operating_system.Common.Outcomes.{Outcome, done, undefined, out_of_fuel, ◌>>=◌}

pub record File : Type 0 where
  pub size : ℕ
  pub word : ℕ → ℕ

pub record World : Type 0 where
  pub file : File
  pub buf : ℕ → ℕ

abbrev pub update : (ℕ → ℕ) → (place value : ℕ) → ℕ → ℕ
update f place value i = if i == place then value else f i

abbrev pub larger : ℕ → ℕ → ℕ
larger a b = if ltb a b then b else a

-- `write(fd,&value,4)` at a word.
abbrev pub put_word : (place value : ℕ) → File → File
put_word place value f = record {
  size = larger f.size (4 * place + 4);
  word = update f.word place value;
}

-- `read(fd,&value,4)` at a word, of a variable that is not set.
abbrev pub get_word : ℕ → File → Outcome ℕ
get_word place f = if leb (4 * place + 4) f.size then done (f.word place) else undefined

-- `for(int i=1;i<n;i++)`, by the rounds that are left.
pub init_loop : ℕ → (i : ℕ) → File → File
init_loop zero i f = f
init_loop (suc k) i f = init_loop k (i + 1) (put_word (1024 * i - 1) i f)

-- It leaves `bsize` and `bno` aside, and returns 0.
pub init_file_dd : World → World
init_file_dd w = record {
  file = put_word (1024 * 2048 - 1) int_minus_one (init_loop 2047 1 w.file);
  buf = update (update (update (update (update w.buf 0 2048) 8 4096) 16 0) 24 2048) 32 0;
}

-- `read(fd,buf,4096)` at the start of the file.
abbrev pub read_header : World → World
read_header w = record w {
  buf = λ i. if ltb i 1024 && ltb (4 * i) w.file.size then w.file.word i else w.buf i;
}

-- `write(fd,buf,4096)` at the start of the file.
abbrev pub write_header : World → World
write_header w = record w {
  file = record {
    size = larger w.file.size 4096;
    word = λ i. if ltb i 1024 then w.buf i else w.file.word i;
  };
}

abbrev pub increment : ℕ → Outcome ℕ
increment n = if n == 0x7fff_ffff then undefined else done ((n + 1) % 0x1_0000_0000)

abbrev pub decrement : ℕ → Outcome ℕ
decrement n = if n == 0x8000_0000 then undefined else done ((n + 0xffff_ffff) % 0x1_0000_0000)

-- The word at which `lseek(fd,(b+1)*4096+4092,SEEK_SET)` leaves the file, which is at `here`.
abbrev pub seek_end : (here b : ℕ) → Outcome ℕ
seek_end here b =
    if ltb b 0x8000_0000
    then (if ltb ((b + 1) * 4096 + 4092) 0x8000_0000
        then done ((b + 1) * 1024 + 1023)
        else undefined)
    else (if leb (0xffff_ffff - b) 0x8_0000
        then (if b == int_minus_one then done 1023 else done here)
        else undefined)

-- `for(int i=0;i<ffb;i++)`, by the rounds that are left.
pub mark_loop : ℕ → (i next_fb : ℕ) → File → File
mark_loop zero i next_fb f = f
mark_loop (suc k) i next_fb f =
    mark_loop k (i + 1) next_fb (put_word ((i + 1) * 1024 + 1023) next_fb f)

-- What `get_freeblock` does with the header in `buf` and a first free block.
pub take_block : World → (ffb : ℕ) → Outcome (ℕ × World)
take_block w ffb = do
  ubn ← increment (w.buf 16)
  fbn ← decrement (w.buf 24)
  place ← seek_end (if ltb w.file.size 4096 then w.file.size / 4 else 1024) ffb
  next_fb ← get_word place w.file
  done (
    ffb,
    write_header (record {
      file = mark_loop (if ltb ffb 0x8000_0000 then ffb else 0) 0 next_fb w.file;
      buf = update (update (update w.buf 16 ubn) 24 fbn) 32 next_fb;
    }),
  )

-- `descriptors` is how many files the process can still open. Where it is 0, the first free block is
-- that in `buf`, and `next_fb` is not set.
pub get_freeblock : (descriptors : ℕ) → World → Outcome (ℕ × World)
get_freeblock zero start = elim (start.buf 32 == int_minus_one) [
  | true ↦ done (int_minus_one, start)
  | false ↦ undefined
]
get_freeblock (suc descriptors) start =
    let w = read_header start in
    elim (w.buf 32 == int_minus_one) [
      | true ↦ done (int_minus_one, w)
      | false ↦ take_block w (w.buf 32)
    ]

-- The word at which `lseek(fd,4096+b*4096+4092,SEEK_SET)` leaves the file, which is at `here`.
pub seek_block : (here b : ℕ) → Outcome ℕ
seek_block here b =
    if ltb b 0x8000_0000
    then (if ltb (4096 + b * 4096 + 4092) 0x8000_0000
        then done ((b + 1) * 1024 + 1023)
        else undefined)
    else (if leb (0x1_0000_0000 - b) 0x8_0000
        then (if b == int_minus_one then done 1023 else done here)
        else undefined)

-- `read(fd,&nfb,4)` at a word, of a variable that is set; and the word at which it leaves the file.
pub get_again : (place nfb : ℕ) → File → ℕ × ℕ
get_again place nfb f =
    if leb (4 * place + 4) f.size then (f.word place, place + 1) else (nfb, place)

-- `while(1)`: `bno` is the parameter `BNO`, and `b` the variable that counts down; `nnfb` is `none`
-- where the read has not set it.
pub free_loop : ℕ → (bno : ℕ) (nnfb : Option ℕ) (b here nfb : ℕ) → File → Outcome File
free_loop zero bno nnfb b here nfb f = out_of_fuel
free_loop (suc k) bno nnfb b here nfb f = do
  b' ← decrement b
  place ← seek_block here b'
  let (nfb', here') = get_again place nfb f
  elim (nfb' == bno) [
    | false ↦ done f
    | true ↦ do
      place' ← seek_block here' b'
      elim nnfb [
        | none ↦ undefined
        | some next ↦ free_loop k bno (some next) b' (place' + 1) nfb' (put_word place' next f)
      ]
  ]

-- The offset overflows before `b` is 2 ^ 19 below 0, so the loop has no more rounds than the fuel.
pub free_block : World → (bno : ℕ) → Outcome (ℕ × World)
free_block start bno = do
  let w = read_header start
  ubn ← decrement (w.buf 16)
  fbn ← increment (w.buf 24)
  place ← seek_block (if ltb w.file.size 4096 then w.file.size / 4 else 1024) bno
  let nnfb = if leb (4 * place + 4) w.file.size then some (w.file.word place) else none
  let here = if leb (4 * place + 4) w.file.size then place + 1 else place
  file ← free_loop (bno + 0x8_0002) bno nnfb bno here bno w.file
  done (1, record { file = file; buf = update (update w.buf 16 ubn) 24 fbn })
