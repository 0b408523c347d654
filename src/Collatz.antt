-- ===== src/Collatz.antt =====
-- ipc/shared_memory.c: the child writes the Collatz sequence of a number into a segment of shared
-- memory, with -1 behind it; the parent waits for the child, and prints what it finds up to the -1.
-- The segment is 1024 `int`s, zero at first; an access outside of it is undefined. An `int` is a
-- number below 2 ^ 32, in two's complement.
pub mod Laws
mod Witnesses
use the_operating_system.Common.{
  ℕ, zero, suc, ◌+◌, ◌-◌, ◌*◌, ◌/◌, ◌%◌, Bool, true, false, Option, none, some, List, [], ◌∷◌, ltb,
  leb, ◌==◌, if◌then◌else◌, get_elem?, set, replicate,
}
use the_operating_system.Common.Bytes.{int_minus_one}
use the_operating_system.Common.Outcomes.{Outcome, done, undefined, out_of_fuel, ◌>>=◌, store}

abbrev pub shm_ints : ℕ
shm_ints = 1024

-- `n / 2`, which rounds towards 0.
abbrev pub half : ℕ → ℕ
half n =
    if ltb n 0x8000_0000 then n / 2 else (0x1_0000_0000 - (0x1_0000_0000 - n) / 2) % 0x1_0000_0000

-- `3 * n + 1`, where an overflow is undefined.
abbrev pub triple : ℕ → Outcome ℕ
triple n =
    if ltb n 0x8000_0000
    then (if ltb (3 * n + 1) 0x8000_0000 then done (3 * n + 1) else undefined)
    else (if leb (3 * (0x1_0000_0000 - n) - 1) 0x8000_0000
        then done (0x1_0000_0000 - (3 * (0x1_0000_0000 - n) - 1))
        else undefined)

pub next_term : ℕ → Outcome ℕ
next_term n = if n % 2 == 0 then done (half n) else triple n

-- `while (n != 1)`, and the store of the 1; it returns the place of `ptr` with the segment.
pub collatz : ℕ → (n i : ℕ) → List ℕ → Outcome (ℕ × List ℕ)
collatz zero n i cells = out_of_fuel
collatz (suc k) n i cells = elim (n == 1) [
  | true ↦ do cells' ← store cells i 1; done (i + 1, cells')
  | false ↦ do cells' ← store cells i n; n' ← next_term n; collatz k n' (i + 1) cells'
]

-- `while (d != -1)`: the numbers that the parent prints.
pub print_terms : ℕ → (i : ℕ) → List ℕ → Outcome (List ℕ)
print_terms zero i cells = out_of_fuel
print_terms (suc k) i cells = elim (get_elem? cells i) [
  | none ↦ undefined
  | some d ↦ elim (d == int_minus_one) [
    | true ↦ done []
    | false ↦ do ds ← print_terms k (i + 1) cells; done (d ∷ ds)
  ]
]

-- A round of either loop moves on by a cell, so one round more than there are cells is enough fuel.
unfoldable pub child : (n : ℕ) → List ℕ → Outcome (List ℕ)
child n cells = do (i, cells') ← collatz (suc shm_ints) n 0 cells; store cells' i int_minus_one

pub main : ℕ → Outcome (List ℕ)
main n = do cells ← child n (replicate shm_ints 0); print_terms (suc shm_ints) 0 cells
