-- ===== src/Strings.antt =====
-- `strrev`, which assignments/as2/as2_1.c and assignments/as3/part2/reverse.c have alike: it
-- reverses a string in place. A string is the list of its characters before the null character,
-- so that `strlen` is its length. An access outside of it is `none`.
pub mod Laws
mod Witnesses
use the_operating_system.Common.{
  ℕ, zero, suc, ◌+◌, ◌-◌, ◌/◌, Option, none, some, List, [], ◌∷◌, length, get_elem?, set,
}

-- The body of the `for`: the characters at `i` and `l - i - 1` change places.
pub swap_chars {ℓ} : {A : Type ℓ} → (l i : ℕ) → List A → Option (List A)
swap_chars l i s = elim (get_elem? s i) [
  | none ↦ none
  | some swap ↦ elim (get_elem? s (l - i - 1)) [
    | none ↦ none
    | some other ↦ elim (set s i other) [ none ↦ none | some s' ↦ set s' (l - i - 1) swap ]
  ]
]

-- `for (int i = 0; i < l / 2; i++)`, by the rounds that are left.
pub strrev_loop {ℓ} : {A : Type ℓ} → ℕ → (l i : ℕ) → List A → Option (List A)
strrev_loop zero l i s = some s
strrev_loop (suc k) l i s = elim (swap_chars l i s) [
  | none ↦ none
  | some s' ↦ strrev_loop k l (i + 1) s'
]

pub strrev {ℓ} : {A : Type ℓ} → List A → Option (List A)
strrev s = strrev_loop (length s / 2) (length s) 0 s
