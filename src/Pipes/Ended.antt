-- ===== src/Pipes/Ended.antt =====
-- Every run ends, and not before all bytes are through.
use the_operating_system.Common.{
  ℕ, ◌+◌, ◌*◌, ◌≤◌, ◌<◌, ◌≡◌, ◌≢◌, refl, ap, sym, subst, ◌∙◌, Option, none, some, List, [], ◌∷◌,
  ◌++◌, append-nil, length, length-append, arith,
}
use the_operating_system.Pipes.{
  Sender, opening, ended, reading, writing, Receiver, waiting, finished, holding, State, forked,
  Step, open_file, open_fails, no_files, read_file, file_ends, write_pipe, write_ends, read_pipe,
  pipe_ends, absorb_buffer, Steps, here, next,
}
use the_operating_system.Pipes.Passed.{contents, InOrder, IsSink, Passing, Steps-Passing}

-- A bound on the calls that the files take.
abbrev pub file_cost : List (Option (List ℕ)) → ℕ
file_cost [] = 0
file_cost (none ∷ files) = file_cost files
file_cost (some file ∷ files) = 6 * length file + 3 + file_cost files

abbrev sender_cost : Sender → ℕ
sender_cost opening = 2
sender_cost ended = 0
sender_cost (reading rest) = 6 * length rest + 4
sender_cost (writing pending rest) = 4 * length pending + 6 * length rest + 5

abbrev receiver_cost : Receiver → ℕ
receiver_cost waiting = 1
receiver_cost finished = 0
receiver_cost (holding bs) = length bs + 2

abbrev cost {ℓ} : {S : Type ℓ} → State S → ℕ
cost s = sender_cost s.sender + file_cost s.files + 3 * length s.pipe + receiver_cost s.receiver

module _ {ℓ} {S : Type ℓ} {absorb : S → List ℕ → S} {limit capacity : ℕ} where
  Step-cost : {s t : State S} → Step limit capacity absorb s t → cost t < cost s
  Step-cost (open_file {s} {file} {files} e f) = omega (arith, ap sender_cost e, ap file_cost f)
  Step-cost (open_fails {s} {files} e f) = omega (arith, ap sender_cost e)
  Step-cost (no_files {s} e f) = omega (arith, ap sender_cost e)
  Step-cost (read_file {s} b bs rest e h) = omega (arith, ap sender_cost e, length-append bs rest)
  Step-cost (file_ends {s} e) = omega (arith, ap sender_cost e)
  Step-cost (write_pipe {s} b bs later rest e h) =
      omega (arith, ap sender_cost e, length-append bs later, length-append s.pipe (b ∷ bs))
  Step-cost (write_ends {s} {rest} e) = omega (arith, ap sender_cost e)
  Step-cost (read_pipe {s} b bs rest e f h) =
      omega (arith, ap receiver_cost e, ap (length {A = ℕ}) f, length-append bs rest)
  Step-cost (pipe_ends {s} e f g) = omega (arith, ap receiver_cost e)
  Step-cost (absorb_buffer {s} {bs} e) = omega (arith, ap receiver_cost e)

  Steps-cost :
      {s : State S} {n : ℕ} {t : State S} → Steps limit capacity absorb s n t → n + cost t ≤ cost s
  Steps-cost {s} here = omega arith
  Steps-cost (next steps step) = omega (arith, Steps-cost steps, Step-cost step)

  -- Whatever the order and the sizes of the calls, a run makes at most `file_cost` of the files and
  -- three calls.
  pub Steps-bounded :
      {n : ℕ} {files : List (Option (List ℕ))} {start : S} {s : State S}
      → Steps limit capacity absorb (forked files start) n s
      → n ≤ file_cost files + 3
  Steps-bounded steps = omega (arith, Steps-cost steps)

  module _ (some_limit : 0 < limit) (some_capacity : 0 < capacity) where
    -- With the pipe empty and the child at its `read`, the parent can go on, or the child ends.
    empty_pipe :
        (s : State S) (parent : Sender) (files : List (Option (List ℕ)))
        → s.sender ≡ parent
        → s.files ≡ files
        → s.receiver ≡ waiting
        → s.pipe ≡ []
        → (t : State S) × Step limit capacity absorb s t
    empty_pipe s opening [] e f w p = (_, no_files e f)
    empty_pipe s opening (none ∷ files) e f w p = (_, open_fails e f)
    empty_pipe s opening (some file ∷ files) e f w p = (_, open_file e f)
    empty_pipe s ended files e f w p = (_, pipe_ends w p e)
    empty_pipe s (reading []) files e f w p = (_, file_ends e)
    empty_pipe s (reading (b ∷ rest)) files e f w p = (_, read_file b [] rest e (omega arith))
    empty_pipe s (writing [] rest) files e f w p = (_, write_ends e)
    empty_pipe s (writing (b ∷ later) rest) files e f w p =
        (_, write_pipe b [] later rest e (omega (arith, ap (length {A = ℕ}) p)))

    -- While the child has not ended, one of the two processes can make a call.
    can_step :
        (s : State S) (child : Receiver) (pipe : List ℕ)
        → s.receiver ≡ child
        → s.pipe ≡ pipe
        → child ≢ finished
        → (t : State S) × Step limit capacity absorb s t
    can_step s finished pipe e p ne = absurd (ne refl)
    can_step s (holding bs) pipe e p ne = (_, absorb_buffer e)
    can_step s waiting [] e p ne = empty_pipe s s.sender s.files refl refl e p
    can_step s waiting (b ∷ rest) e p ne = (_, read_pipe b [] rest e p (omega arith))

forked-Passing {ℓ} :
    {S : Type ℓ} {absorb : S → List ℕ → S} {start : S} (files : List (Option (List ℕ)))
    → IsSink absorb start
    → Passing absorb start (contents files) (forked files start)
forked-Passing files sinks = record {
  got = [];
  absorbed = sym sinks.absorb-nil;
  whole = refl;
  in_order = tt;
}

module _ {ℓ} {S : Type ℓ} {absorb : S → List ℕ → S} {limit capacity : ℕ} {start : S}
    (sinks : IsSink absorb start) {n : ℕ} {files : List (Option (List ℕ))} {s : State S}
    (steps : Steps limit capacity absorb (forked files start) n s) where
  -- Once the child has ended, it has absorbed the files.
  finished-absorbed : s.receiver ≡ finished → s.sink ≡ absorb start (contents files)
  finished-absorbed e =
      let p =
        Steps-Passing absorb sinks (contents files) limit capacity steps
          (forked-Passing files sinks) in
      let order = subst (λ r. InOrder r s.pipe s.sender) e p.in_order in
      p.absorbed
      ∙ ap (absorb start)
          (sym (append-nil p.got) ∙ ap (◌++◌ p.got) (rw (e, order.0, order.1) refl) ∙ p.whole)

  module _ (some_limit : 0 < limit) (some_capacity : 0 < capacity)
      (stuck : (t : State S) → ¬ Step limit capacity absorb s t) where
    -- Where no process can make a call, the child has ended.
    pub stuck-finished : s.receiver ≡ finished
    stuck-finished = ends s.receiver refl
      where
        ends : (child : Receiver) → s.receiver ≡ child → s.receiver ≡ finished
        ends finished e = e
        ends waiting e =
            (let (t, step) = can_step some_limit some_capacity s waiting s.pipe e refl (λ h. cc) in
              absurd (stuck t step))
        ends (holding bs) e =
            (let (t, step) =
                can_step some_limit some_capacity s (holding bs) s.pipe e refl (λ h. cc) in
              absurd (stuck t step))

    pub stuck-absorbed : s.sink ≡ absorb start (contents files)
    stuck-absorbed = finished-absorbed stuck-finished
