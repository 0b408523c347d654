-- ===== src/Pipes/Copy.antt =====
-- ipc/pipes.c: the child writes what comes through the pipe to the destination.
use the_operating_system.Common.{
  ℕ, ◌<◌, ◌≡◌, refl, ap, ap₂, sym, ◌∙◌, Option, none, some, List, [], ◌∷◌, ◌++◌, append_assoc,
  append-nil, length, length-append, drop, drop-drop, arith,
}
use the_operating_system.Pipes.{State, forked, Step, Steps}
use the_operating_system.Pipes.Passed.{contents, IsSink}
use the_operating_system.Pipes.Ended.{stuck-absorbed}

abbrev pub buffer_size : ℕ
buffer_size = 1024

-- The destination: its bytes before the offset, and behind it.
pub record Dest : Type 0 where
  pub before : List ℕ
  pub behind : List ℕ

-- `write(dest,buffer,bytes)`; `none` where the destination could not be opened.
unfoldable pub write_dest : Option Dest → List ℕ → Option Dest
write_dest none bs = none
write_dest (some d) bs =
    some (record { before = d.before ++ bs; behind = drop (length bs) d.behind })

-- `open(argv[2],O_CREAT|O_WRONLY,0644)` of a file with these bytes, or none.
abbrev pub open_dest : Option (List ℕ) → Option Dest
open_dest none = none
open_dest (some old) = some (record { before = []; behind = old })

-- `src` is `argv[1]`, `old` is `argv[2]` before the run.
abbrev pub main : (src old : Option (List ℕ)) → State (Option Dest)
main src old = forked (src ∷ []) (open_dest old)

-- What the destination has in the end.
abbrev pub bytes : Option Dest → Option (List ℕ)
bytes none = none
bytes (some d) = some (d.before ++ d.behind)

-- The source over the start of what was there.
abbrev pub copied : (src old : Option (List ℕ)) → Option (List ℕ)
copied src none = none
copied none (some old) = some old
copied (some file) (some old) = some (file ++ drop (length file) old)

write_dest-IsSink : (old : Option (List ℕ)) → IsSink write_dest (open_dest old)
unfolding write_dest
write_dest-IsSink old = record { absorb-nil = at_start old; absorb-append = cut }
  where
    at_start : (old : Option (List ℕ)) → write_dest (open_dest old) [] ≡ open_dest old
    at_start none = refl
    at_start (some bs) = refl

    cut :
        (d : Option Dest) (xs ys : List ℕ)
        → write_dest d (xs ++ ys) ≡ write_dest (write_dest d xs) ys
    cut none xs ys = refl
    cut (some d) xs ys =
        ap₂ (λ (before behind : List ℕ). some (record { before = before; behind = behind }))
          (sym (append_assoc d.before xs ys))
          (ap (λ k. drop k d.behind) (length-append xs ys)
            ∙ sym (drop-drop (length ys) (length xs) d.behind))

write_dest-copied :
    (src old : Option (List ℕ))
    → bytes (write_dest (open_dest old) (contents (src ∷ []))) ≡ copied src old
unfolding write_dest
write_dest-copied none none = refl
write_dest-copied (some file) none = refl
write_dest-copied none (some old) = refl
write_dest-copied (some file) (some old) = rw append-nil refl

-- However the calls interleave, and whatever their sizes, when neither process can go on, the
-- destination has the bytes of the source, and behind them what it had there before: it is not cut.
-- A source that cannot be opened leaves it as it was; one that cannot be opened itself is not written.
-- The pipe holds at least one byte.
pub stuck-copied :
    {capacity n : ℕ} (src old : Option (List ℕ)) {s : State (Option Dest)}
    → 0 < capacity
    → Steps buffer_size capacity write_dest (main src old) n s
    → ((t : State (Option Dest)) → ¬ Step buffer_size capacity write_dest s t)
    → bytes s.sink ≡ copied src old
stuck-copied src old some_capacity steps stuck =
    ap bytes (stuck-absorbed (write_dest-IsSink old) steps (omega arith) some_capacity stuck)
    ∙ write_dest-copied src old
