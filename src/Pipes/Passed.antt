-- ===== src/Pipes/Passed.antt =====
-- The bytes of the files come through the pipe in their order, and no others.
use the_operating_system.Common.{
  ℕ, ◌≡◌, ◌≢◌, refl, ap, sym, ◌∙◌, Option, none, some, List, [], ◌∷◌, ◌++◌, append_assoc,
}
use the_operating_system.Pipes.{
  Sender, opening, ended, reading, writing, Receiver, waiting, finished, holding, State, Step,
  open_file, open_fails, no_files, read_file, file_ends, write_pipe, write_ends, read_pipe,
  pipe_ends, absorb_buffer, Steps, here, next,
}

-- The bytes of the files up to the first that cannot be opened.
abbrev pub contents : List (Option (List ℕ)) → List ℕ
contents [] = []
contents (none ∷ files) = []
contents (some file ∷ files) = file ++ contents files

-- What the parent has still to write.
abbrev pub to_send : Sender → List (Option (List ℕ)) → List ℕ
to_send opening files = contents files
to_send ended files = []
to_send (reading rest) files = rest ++ contents files
to_send (writing pending rest) files = pending ++ (rest ++ contents files)

-- What the child has in its buffer.
abbrev pub buffered : Receiver → List ℕ
buffered waiting = []
buffered finished = []
buffered (holding bs) = bs

-- The child ends only after the parent, with an empty pipe.
abbrev pub InOrder : Receiver → (pipe : List ℕ) → Sender → Type 0
InOrder finished pipe parent = (pipe ≡ []) × (parent ≡ ended)
InOrder _ pipe parent = Unit

-- The bytes on their way, in their order.
abbrev pub on_way {ℓ} : {S : Type ℓ} → State S → List ℕ
on_way s = buffered s.receiver ++ (s.pipe ++ to_send s.sender s.files)

live : {x y : Sender} → x ≡ y → y ≢ ended → x ≢ ended
live e ne h = ne (sym e ∙ h)

InOrder-live :
    (r : Receiver) (pipe pipe' : List ℕ) (parent parent' : Sender)
    → InOrder r pipe parent
    → parent ≢ ended
    → InOrder r pipe' parent'
InOrder-live waiting pipe pipe' parent parent' h live = tt
InOrder-live (holding bs) pipe pipe' parent parent' h live = tt
InOrder-live finished pipe pipe' parent parent' h live = absurd (live h.1)

module _ {ℓ} {S : Type ℓ} (absorb : S → List ℕ → S) where
  -- Where nothing has been absorbed, and how the buffers are cut, does not matter.
  pub record IsSink (start : S) : Type ℓ where
    pub absorb-nil : absorb start [] ≡ start
    pub absorb-append : (s : S) (xs ys : List ℕ) → absorb s (xs ++ ys) ≡ absorb (absorb s xs) ys

  pub record Passing (start : S) (all : List ℕ) (s : State S) : Type ℓ where
    pub got : List ℕ
    pub absorbed : s.sink ≡ absorb start got
    pub whole : got ++ on_way s ≡ all
    pub in_order : InOrder s.receiver s.pipe s.sender

  module _ {start : S} (sinks : IsSink start) (all : List ℕ) (limit capacity : ℕ) where
    -- A call of the parent that leaves the pipe.
    sends :
        {s : State S} (files : List (Option (List ℕ))) (sender : Sender)
        → Passing start all s
        → s.sender ≢ ended
        → to_send sender files ≡ to_send s.sender s.files
        → Passing start all (record s { files = files; sender = sender })
    sends {s} files sender p live same = record {
      got = p.got;
      absorbed = p.absorbed;
      whole = rw same p.whole;
      in_order = InOrder-live s.receiver s.pipe s.pipe s.sender sender p.in_order live;
    }

    pub Step-Passing :
        {s t : State S} → Step limit capacity absorb s t → Passing start all s → Passing start all t
    Step-Passing (open_file {s} {file} {files} e f) p =
        sends files (reading file) p (live e (λ h. cc)) (rw (e, f) refl)
    Step-Passing (open_fails {s} {files} e f) p =
        sends s.files ended p (live e (λ h. cc)) (rw (e, f) refl)
    Step-Passing (no_files {s} e f) p = sends s.files ended p (live e (λ h. cc)) (rw (e, f) refl)
    Step-Passing (read_file {s} b bs rest e h) p =
        sends s.files (writing (b ∷ bs) rest) p (live e (λ h. cc))
          (rw e (ap (◌∷◌ b) (sym (append_assoc bs rest (contents s.files)))))
    Step-Passing (file_ends {s} e) p = sends s.files opening p (live e (λ h. cc)) (rw e refl)
    Step-Passing (write_pipe {s} b bs later rest e h) p = record {
      got = p.got;
      absorbed = p.absorbed;
      whole =
          ap (λ l. p.got ++ (buffered s.receiver ++ l))
            (append_assoc s.pipe (b ∷ bs) (later ++ (rest ++ contents s.files))
              ∙ ap (◌++◌ s.pipe)
                  (rw e (ap (◌∷◌ b) (sym (append_assoc bs later (rest ++ contents s.files))))))
          ∙ p.whole;
      in_order =
          InOrder-live s.receiver s.pipe (s.pipe ++ (b ∷ bs)) s.sender (writing later rest)
            p.in_order (live e (λ h. cc));
    }
    Step-Passing (write_ends {s} {rest} e) p =
        sends s.files (reading rest) p (live e (λ h. cc)) (rw e refl)
    Step-Passing (read_pipe {s} b bs rest e f h) p = record {
      got = p.got;
      absorbed = p.absorbed;
      whole =
          ap (◌++◌ p.got)
            (rw (e, f) (ap (◌∷◌ b) (sym (append_assoc bs rest (to_send s.sender s.files)))))
          ∙ p.whole;
      in_order = tt;
    }
    Step-Passing (pipe_ends {s} e f g) p = record {
      got = p.got;
      absorbed = p.absorbed;
      whole = ap (◌++◌ p.got) (rw e refl) ∙ p.whole;
      in_order = (f, g);
    }
    Step-Passing (absorb_buffer {s} {bs} e) p = record {
      got = p.got ++ bs;
      absorbed = ap (λ x. absorb x bs) p.absorbed ∙ sym (sinks.absorb-append start p.got bs);
      whole =
          append_assoc p.got bs (s.pipe ++ to_send s.sender s.files)
          ∙ ap (◌++◌ p.got) (rw e refl)
          ∙ p.whole;
      in_order = tt;
    }

    -- In every state of a run from there.
    pub Steps-Passing :
        {s : State S} {n : ℕ} {t : State S}
        → Steps limit capacity absorb s n t
        → Passing start all s
        → Passing start all t
    Steps-Passing here p = p
    Steps-Passing (next steps step) p = Step-Passing step (Steps-Passing steps p)
