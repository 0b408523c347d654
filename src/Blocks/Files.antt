-- ===== src/Blocks/Files.antt =====
-- Which words of a file the loops of init_File_dd and get_freeblock write.
use the_operating_system.Common.{
  ℕ, zero, suc, ◌+◌, ◌-◌, ◌*◌, ◌≤◌, ◌<◌, ◌≡◌, ◌≢◌, refl, sym, subst, ◌∙◌, eq→==, ne→==, arith,
}
use native.Mathlib.Decide.{dec_lt}
use the_operating_system.Blocks.{File, update, larger, put_word, init_loop, mark_loop}

pub update_other : (f : ℕ → ℕ) (place value i : ℕ) → i ≢ place → update f place value i ≡ f i
update_other f place value i ne = rw (ne→== i place ne) refl

update_same : (f : ℕ → ℕ) (place value i : ℕ) → i ≡ place → update f place value i ≡ value
update_same f place value i e = rw (eq→== i place e) refl

pub larger_of_le : (a b : ℕ) → b ≤ a → larger a b ≡ a
larger_of_le a b h = ground arith

-- The loop of `init_File_dd` writes behind its start.
pub init_loop_before :
    (k i : ℕ) (f : File) (p : ℕ) → p + 1 < 1024 * i → (init_loop k i f).word p ≡ f.word p
unfolding init_loop
init_loop_before zero i f p h = refl
init_loop_before (suc k) i f p h =
    init_loop_before k (i + 1) (put_word (1024 * i - 1) i f) p (omega arith)
    ∙ update_other f.word (1024 * i - 1) i p (omega arith)

pub init_loop_writes :
    (k i j : ℕ) (f : File) → 1 ≤ i → i ≤ j → j < i + k → (init_loop k i f).word (1024 * j - 1) ≡ j
unfolding init_loop
init_loop_writes zero i j f pos le lt = absurd (omega arith)
init_loop_writes (suc k) i j f pos le lt = elim (dec_lt i j) [
  | yes more ↦
      init_loop_writes k (i + 1) j (put_word (1024 * i - 1) i f) (omega arith) (omega arith)
        (omega arith)
  | no same ↦
      init_loop_before k (i + 1) (put_word (1024 * i - 1) i f) (1024 * j - 1) (omega arith)
      ∙ update_same f.word (1024 * i - 1) i (1024 * j - 1) (omega arith)
      ∙ (let e : i ≡ j = omega arith in e)
]

pub init_loop-size :
    (k i n : ℕ) (f : File)
    → 1 ≤ i
    → i + k ≤ n
    → f.size ≤ 4096 * n
    → (init_loop k i f).size ≤ 4096 * n
unfolding init_loop
init_loop-size zero i n f pos le h = h
init_loop-size (suc k) i n f pos le h =
    init_loop-size k (i + 1) n (put_word (1024 * i - 1) i f) (omega arith) (omega arith)
      (larger_le f.size (4 * (1024 * i - 1) + 4) (4096 * n) h (omega arith))
  where
    larger_le : (a b c : ℕ) → a ≤ c → b ≤ c → larger a b ≤ c
    larger_le a b c h k = ground arith

-- The loop of `get_freeblock` writes the ends of the blocks from `i` on, in the file.
pub mark_loop_before :
    (k i v : ℕ) (f : File) (p : ℕ)
    → p < (i + 1) * 1024 + 1023
    → (mark_loop k i v f).word p ≡ f.word p
unfolding mark_loop
mark_loop_before zero i v f p h = refl
mark_loop_before (suc k) i v f p h =
    mark_loop_before k (i + 1) v (put_word ((i + 1) * 1024 + 1023) v f) p (omega arith)
    ∙ update_other f.word ((i + 1) * 1024 + 1023) v p (omega arith)

pub mark_loop_behind :
    (k i v : ℕ) (f : File) (p : ℕ)
    → (i + k) * 1024 + 1023 < p
    → (mark_loop k i v f).word p ≡ f.word p
unfolding mark_loop
mark_loop_behind zero i v f p h = refl
mark_loop_behind (suc k) i v f p h =
    mark_loop_behind k (i + 1) v (put_word ((i + 1) * 1024 + 1023) v f) p (omega arith)
    ∙ update_other f.word ((i + 1) * 1024 + 1023) v p (omega arith)

pub mark_loop-size :
    (k i v : ℕ) (f : File) → 4096 * (i + k + 1) ≤ f.size → (mark_loop k i v f).size ≡ f.size
unfolding mark_loop
mark_loop-size zero i v f h = refl
mark_loop-size (suc k) i v f h =
    let same = larger_of_le f.size (4 * ((i + 1) * 1024 + 1023) + 4) (omega arith) in
    mark_loop-size k (i + 1) v (put_word ((i + 1) * 1024 + 1023) v f)
      (subst (λ s. 4096 * (i + 1 + k + 1) ≤ s) (sym same) (omega arith))
    ∙ same
