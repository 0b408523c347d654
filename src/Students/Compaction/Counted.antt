-- ===== src/Students/Compaction/Counted.antt =====
-- The variable `n` of `compaction`, where the 8 bytes that are read into `idx` may reach it.
use the_operating_system.Common.{ℕ, ◌<◌, ◌≡◌, refl, ◌⊎◌, List, [], ◌∷◌, arith, length}
use the_operating_system.Common.Bytes.{int_minus_one}
use the_operating_system.Students.Layout.{Slot, gone, at, live}
use the_operating_system.Students.Compaction.{Behind, spare, over_n, clobber}
use the_operating_system.Students.Compaction.Packed.{kept}

-- Behind each slot of a deleted record stands one of a live record.
abbrev pub Trimmed : List Slot → Type 0
Trimmed [] = Unit
Trimmed (gone ∷ xs) = (0 < length (live xs)) × Trimmed xs
Trimmed (at off s ∷ xs) = Trimmed xs

-- A slot of a deleted record stands behind those of all live ones.
abbrev pub Trailing : List Slot → Type 0
Trailing [] = ⊥
Trailing (gone ∷ xs) = (length (live xs) ≡ 0) ⊎ ((0 < length (live xs)) × Trailing xs)
Trailing (at off s ∷ xs) = Trailing xs

-- The variable `n` after the loop.
abbrev pub count_after : Behind → ℕ → List Slot → ℕ
count_after behind n [] = n
count_after behind n (gone ∷ xs) = count_after behind (clobber behind n int_minus_one) xs
count_after behind n (at off s ∷ xs) = count_after behind (clobber behind n 0) xs

count_after-spare : (n : ℕ) (xs : List Slot) → count_after spare n xs ≡ n
count_after-spare n [] = refl
count_after-spare n (gone ∷ xs) = count_after-spare n xs
count_after-spare n (at off s ∷ xs) = count_after-spare n xs

count_after-over_n :
    (n : ℕ) (xs : List Slot)
    → Trimmed xs
    → (length (live xs) ≡ 0 → n ≡ 0)
    → count_after over_n n xs ≡ 0
count_after-over_n n [] tr none_left = none_left refl
count_after-over_n n (gone ∷ xs) tr none_left =
    count_after-over_n int_minus_one xs tr.1 (λ e. absurd (omega (arith, tr.0)))
count_after-over_n n (at off s ∷ xs) tr none_left = count_after-over_n 0 xs tr (λ _. refl)

pub count_after-kept :
    (behind : Behind) (xs : List Slot)
    → Trimmed xs
    → count_after behind (length (live xs)) xs ≡ length (kept behind (live xs))
count_after-kept spare xs tr = count_after-spare (length (live xs)) xs
count_after-kept over_n xs tr = count_after-over_n (length (live xs)) xs tr (λ e. e)
