-- ===== src/Pipes.antt =====
-- Processes that pass the bytes of files through a pipe: ipc/pipes.c, whose child writes them to
-- another file, and assignments/as6_17feb/prob1.c, whose child counts them. Both have the same two
-- loops; they differ in the files of the parent, in the size of the buffer, and in what the child
-- does with a buffer, which are parameters here. The two processes interleave by single calls.
-- What is assumed of `read`, `write` and `pipe` is what their documentation says: `read` gives at
-- least one byte and at most as many as asked for, or 0 at the end; a pipe keeps the order of at most
-- `capacity` bytes, and ends where it is empty and no process can write to it any more; a `write` to
-- it puts its bytes there in pieces, for which it waits. `none` is a file that cannot be opened.
pub mod Passed
pub mod Ended
pub mod Copy
pub mod Count
mod Witnesses
use the_operating_system.Common.{
  ℕ, zero, suc, ◌+◌, ◌≤◌, ◌≡◌, Option, none, some, List, [], ◌∷◌, ◌++◌, length,
}

-- Where the parent is: before an `open`, at the `read` of a file with these bytes left, amid a `write`
-- of these bytes, or with no end of the pipe any more.
pub data Sender : Type 0 where
  opening ended : Sender
  reading : List ℕ → Sender
  writing : (pending rest : List ℕ) → Sender

-- Where the child is: at the `read`, with a buffer of these bytes, or behind its loop.
pub data Receiver : Type 0 where
  waiting finished : Receiver
  holding : List ℕ → Receiver

pub record State {ℓ} (S : Type ℓ) : Type ℓ where
  pub files : List (Option (List ℕ))
  pub sender : Sender
  pub pipe : List ℕ
  pub receiver : Receiver
  pub sink : S

-- After `pipe` and `fork`.
abbrev pub forked {ℓ} : {S : Type ℓ} → List (Option (List ℕ)) → S → State S
forked files sink = record {
  files = files;
  sender = opening;
  pipe = [];
  receiver = waiting;
  sink = sink;
}

-- One call of either process. `absorb` is what the child does with the bytes in its buffer.
pub data Step {ℓ} {S : Type ℓ} (limit capacity : ℕ) (absorb : S → List ℕ → S)
    : State S → State S → Type ℓ where
  open_file :
      {s : State S} {file : List ℕ} {files : List (Option (List ℕ))}
      → s.sender ≡ opening
      → s.files ≡ some file ∷ files
      → Step limit capacity absorb s (record s { files = files; sender = reading file })
  open_fails :
      {s : State S} {files : List (Option (List ℕ))}
      → s.sender ≡ opening
      → s.files ≡ none ∷ files
      → Step limit capacity absorb s (record s { sender = ended })
  no_files :
      {s : State S}
      → s.sender ≡ opening
      → s.files ≡ []
      → Step limit capacity absorb s (record s { sender = ended })
  read_file :
      {s : State S} (b : ℕ) (bs rest : List ℕ)
      → s.sender ≡ reading (b ∷ (bs ++ rest))
      → length (b ∷ bs) ≤ limit
      → Step limit capacity absorb s (record s { sender = writing (b ∷ bs) rest })
  file_ends :
      {s : State S}
      → s.sender ≡ reading []
      → Step limit capacity absorb s (record s { sender = opening })
  write_pipe :
      {s : State S} (b : ℕ) (bs later rest : List ℕ)
      → s.sender ≡ writing (b ∷ (bs ++ later)) rest
      → length s.pipe + length (b ∷ bs) ≤ capacity
      → Step limit capacity absorb s
          (record s { sender = writing later rest; pipe = s.pipe ++ (b ∷ bs) })
  write_ends :
      {s : State S} {rest : List ℕ}
      → s.sender ≡ writing [] rest
      → Step limit capacity absorb s (record s { sender = reading rest })
  read_pipe :
      {s : State S} (b : ℕ) (bs rest : List ℕ)
      → s.receiver ≡ waiting
      → s.pipe ≡ b ∷ (bs ++ rest)
      → length (b ∷ bs) ≤ limit
      → Step limit capacity absorb s (record s { pipe = rest; receiver = holding (b ∷ bs) })
  pipe_ends :
      {s : State S}
      → s.receiver ≡ waiting
      → s.pipe ≡ []
      → s.sender ≡ ended
      → Step limit capacity absorb s (record s { receiver = finished })
  absorb_buffer :
      {s : State S} {bs : List ℕ}
      → s.receiver ≡ holding bs
      → Step limit capacity absorb s (record s { receiver = waiting; sink = absorb s.sink bs })

-- A number of calls of the two processes.
pub data Steps {ℓ} {S : Type ℓ} (limit capacity : ℕ) (absorb : S → List ℕ → S) (s : State S)
    : ℕ → State S → Type ℓ where
  here : Steps limit capacity absorb s zero s
  next :
      {n : ℕ} {t u : State S}
      → Steps limit capacity absorb s n t
      → Step limit capacity absorb t u
      → Steps limit capacity absorb s (suc n) u
