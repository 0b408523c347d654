-- ===== src/Pipes/Witnesses.antt =====
-- Three bytes over a longer file, and a file that is not there.
use the_operating_system.Common.{ℕ, ◌+◌, ◌≤◌, ◌≡◌, refl, Option, none, some, List, [], ◌∷◌, arith}
use the_operating_system.Common.Outcomes.{Outcome, done}
use the_operating_system.Pipes.{
  Sender, opening, ended, reading, writing, waiting, finished, holding, State, Step, open_file,
  open_fails, no_files, read_file, file_ends, write_pipe, write_ends, read_pipe, pipe_ends,
  absorb_buffer, Steps, here, next,
}
use the_operating_system.Pipes.Ended.{file_cost, Steps-bounded}
use the_operating_system.Pipes.Copy.{buffer_size, Dest, write_dest, bytes, stuck-copied}
use the_operating_system.Pipes.Count.{buf_size, add_total, stuck-total}
use the_operating_system.Pipes

abbrev old : List ℕ
old = 5 ∷ 6 ∷ 7 ∷ []

abbrev copy_end : State (Option Dest)
copy_end = record {
  files = [];
  sender = ended;
  pipe = [];
  receiver = finished;
  sink = some (record { before = 1 ∷ 2 ∷ []; behind = 7 ∷ [] });
}

copy_run :
    Steps buffer_size 1 write_dest (Pipes.Copy.main (some (1 ∷ 2 ∷ [])) (some old)) 12 copy_end
unfolding write_dest
copy_run =
    next
      (next
        (next
          (next
            (next
              (next
                (next
                  (next
                    (next
                      (next
                        (next (next here (open_file refl refl))
                          (read_file 1 (2 ∷ []) [] refl (omega arith)))
                        (write_pipe 1 [] (2 ∷ []) [] refl (omega arith)))
                      (read_pipe 1 [] [] refl refl (omega arith)))
                    (write_pipe 2 [] [] [] refl (omega arith)))
                  (absorb_buffer refl))
                (write_ends refl))
              (read_pipe 2 [] [] refl refl (omega arith)))
            (file_ends refl))
          (absorb_buffer refl))
        (no_files refl refl))
      (pipe_ends refl refl refl)

-- The files after the missing one are not read.
abbrev three : List (Option (List ℕ))
three = some (8 ∷ []) ∷ none ∷ some (9 ∷ []) ∷ []

abbrev count_end : State (Outcome ℕ)
count_end = record {
  files = none ∷ some (9 ∷ []) ∷ [];
  sender = ended;
  pipe = [];
  receiver = finished;
  sink = done 1;
}

count_run : Steps buf_size 1 add_total (Pipes.Count.main three) 9 count_end
unfolding add_total
count_run =
    next
      (next
        (next
          (next
            (next
              (next
                (next
                  (next (next here (open_file refl refl)) (read_file 8 [] [] refl (omega arith)))
                  (write_pipe 8 [] [] [] refl (omega arith)))
                (write_ends refl))
              (file_ends refl))
            (open_fails refl refl))
          (read_pipe 8 [] [] refl refl (omega arith)))
        (absorb_buffer refl))
      (pipe_ends refl refl refl)

-- No process can make a call once both have ended.
module _ {ℓ} {S : Type ℓ} {limit capacity : ℕ} {absorb : S → List ℕ → S} where
  stuck :
      {s t : State S} → s.sender ≡ ended → s.receiver ≡ finished → ¬ Step limit capacity absorb s t
  stuck sent got (open_file e f) = cc
  stuck sent got (open_fails e f) = cc
  stuck sent got (no_files e f) = cc
  stuck sent got (read_file b bs rest e h) = cc
  stuck sent got (file_ends e) = cc
  stuck sent got (write_pipe b bs later rest e h) = cc
  stuck sent got (write_ends e) = cc
  stuck sent got (read_pipe b bs rest e f h) = cc
  stuck sent got (pipe_ends e f g) = cc
  stuck sent got (absorb_buffer e) = cc

stuck-copied_example : bytes copy_end.sink ≡ some (1 ∷ 2 ∷ 7 ∷ [])
stuck-copied_example =
    stuck-copied (some (1 ∷ 2 ∷ [])) (some old) (omega arith) copy_run (λ t. stuck refl refl)

stuck-total_example : (count_end.receiver ≡ finished) × (count_end.sink ≡ done 1)
stuck-total_example = stuck-total (omega arith) count_run (λ t. stuck refl refl)

Steps-bounded_example : 12 ≤ file_cost (some (1 ∷ 2 ∷ []) ∷ []) + 3
Steps-bounded_example = Steps-bounded copy_run
