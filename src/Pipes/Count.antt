-- ===== src/Pipes/Count.antt =====
-- assignments/as6_17feb/prob1.c: the child counts what comes through the pipe.
use the_operating_system.Common.{
  ℕ, ◌+◌, ◌<◌, ◌≡◌, refl, ap, ◌∙◌, inl, inr, Option, List, ◌++◌, length, length-append, ltb,
  if◌then◌else◌, le→not_ltb, not_ltb→le, Bool-cases, arith,
}
use the_operating_system.Common.Outcomes.{Outcome, done, exited, undefined, out_of_fuel, ◌>>=◌}
use the_operating_system.Pipes.{State, finished, forked, Step, Steps}
use the_operating_system.Pipes.Passed.{contents, IsSink}
use the_operating_system.Pipes.Ended.{stuck-finished, stuck-absorbed}

-- `sizeof(buf)-1`
abbrev pub buf_size : ℕ
buf_size = 99

-- `totalRead+=flag`, where an overflow is undefined.
unfoldable pub add_total : Outcome ℕ → List ℕ → Outcome ℕ
add_total total bs = do
  n ← total
  if ltb (n + length bs) 0x8000_0000 then done (n + length bs) else undefined

-- `files` are the arguments.
abbrev pub main : List (Option (List ℕ)) → State (Outcome ℕ)
main files = forked files (done 0)

add_total-IsSink : IsSink add_total (done 0)
unfolding add_total
add_total-IsSink = record { absorb-nil = refl; absorb-append = cut }
  where
    cut :
        (total : Outcome ℕ) (xs ys : List ℕ)
        → add_total total (xs ++ ys) ≡ add_total (add_total total xs) ys
    cut (done n) xs ys = elim (Bool-cases (ltb (n + length xs) 0x8000_0000)) [
      | inl e ↦
          rw (e, length-append xs ys)
            (ap (λ k. if ltb k 0x8000_0000 then done k else undefined)
              (let same : n + (length xs + length ys) ≡ n + length xs + length ys = omega arith in
                same))
      | inr e ↦
          rw
            (
              e,
              le→not_ltb (n + length (xs ++ ys)) 0x8000_0000
                  (omega (arith, length-append xs ys, not_ltb→le (n + length xs) 0x8000_0000 e)),
            )
            refl
    ]
    cut (exited code) xs ys = refl
    cut undefined xs ys = refl
    cut out_of_fuel xs ys = refl

-- However the calls interleave, and whatever their sizes, when neither process can go on, the child
-- has ended its loop, and its total is the number of bytes of the files up to the first that cannot be
-- opened, where that is an `int`; else the total overflows. The pipe holds at least one byte.
pub stuck-total :
    {capacity n : ℕ} {files : List (Option (List ℕ))} {s : State (Outcome ℕ)}
    → 0 < capacity
    → Steps buf_size capacity add_total (main files) n s
    → ((t : State (Outcome ℕ)) → ¬ Step buf_size capacity add_total s t)
    → (s.receiver ≡ finished)
      × (s.sink ≡ (
          if ltb (length (contents files)) 0x8000_0000
          then done (length (contents files))
          else undefined))
unfolding add_total
stuck-total {files} some_capacity steps stuck = (
  stuck-finished add_total-IsSink steps (omega arith) some_capacity stuck,
  stuck-absorbed add_total-IsSink steps (omega arith) some_capacity stuck
      ∙ ap (λ k. if ltb k 0x8000_0000 then done k else undefined)
          (let same : 0 + length (contents files) ≡ length (contents files) = omega arith in same),
)
