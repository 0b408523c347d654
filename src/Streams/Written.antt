-- ===== src/Streams/Written.antt =====
-- What the file of `as2_5.c` has at the end.
use the_operating_system.Common.{
  ℕ, zero, suc, ◌+◌, ◌*◌, ◌<◌, ◌≡◌, refl, sym, ap, subst, subst₂, ◌∙◌, inl, inr, none, some, List,
  [], ◌∷◌, ◌++◌, append_assoc, append-nil, length, replicate, ltb, lt→ltb, Bool-cases, arith,
}
use the_operating_system.Streams.Shuffle.{Shuffle, empty, append-left, append-right}
use the_operating_system.Streams.Writes.{
  Writer, looping, exited, State, putc, next_round, Reached, fork, by_child, by_parent,
}

-- What a process has still to write.
abbrev pub owed : (mark : ℕ) → Writer → List ℕ
owed mark (looping k buffer) = buffer ++ replicate k mark
owed mark exited = []

-- The moves that a process has still to make.
abbrev to_make : Writer → ℕ
to_make (looping k buffer) = suc k
to_make exited = 0

module _ (capacity mark : ℕ) where
  -- What is put is behind what the buffer had.
  putc-keeps :
      (buffer more : List ℕ)
      → (putc capacity mark buffer).1 ++ ((putc capacity mark buffer).0 ++ more)
        ≡ buffer ++ (mark ∷ more)
  unfolding putc
  putc-keeps buffer more = elim (Bool-cases (ltb (length buffer) capacity)) [
    | inl room ↦ rw room (append_assoc buffer (mark ∷ []) more)
    | inr full ↦ rw full refl
  ]

  pub putc-room :
      (buffer : List ℕ)
      → length buffer < capacity
      → putc capacity mark buffer ≡ (buffer ++ (mark ∷ []), [])
  unfolding putc
  putc-room buffer room = rw (lt→ltb (length buffer) capacity room) refl

  -- A move writes the first of what is owed.
  pub next_round-owed :
      (w : Writer) {w' : Writer} {out : List ℕ}
      → next_round capacity mark w ≡ some (w', out)
      → (out ++ owed mark w' ≡ owed mark w) × (to_make w ≡ suc (to_make w'))
  unfolding next_round putc
  next_round-owed (looping zero buffer) {w'} {out} e =
      let w : exited ≡ w' = cc in
      let o : buffer ≡ out = cc in (rw (sym w, sym o) refl, rw (sym w) refl)
  next_round-owed (looping (suc k) buffer) {w'} {out} e =
      let w : looping k (putc capacity mark buffer).0 ≡ w' = cc in
      let o : (putc capacity mark buffer).1 ≡ out = cc in
      (rw (sym w, sym o) (putc-keeps buffer (replicate k mark)), rw (sym w) refl)
  next_round-owed exited e = cc

  pub next_round-exited : (w : Writer) → next_round capacity mark w ≡ none → w ≡ exited
  unfolding next_round putc
  next_round-exited (looping zero buffer) e = cc
  next_round-exited (looping (suc k) buffer) e = cc
  next_round-exited exited e = refl

pub owes-nothing :
    (mark : ℕ) (w : Writer) {xs ys : List ℕ} → w ≡ exited → xs ++ owed mark w ≡ ys → xs ≡ ys
owes-nothing mark w {xs} {ys} h e = sym (append-nil xs) ∙ subst (λ w'. xs ++ owed mark w' ≡ ys) h e

-- What each process has written makes up the file.
record Progress (rounds : ℕ) (n : ℕ) (s : State) : Type 0 where
  by_a : List ℕ
  by_b : List ℕ
  made_up : Shuffle by_a by_b s.file
  all_a : by_a ++ owed 65 s.child ≡ replicate rounds 65
  all_b : by_b ++ owed 66 s.parent ≡ replicate rounds 66
  moves : n + (to_make s.child + to_make s.parent) ≡ 2 * rounds + 2

module _ {rounds capacity : ℕ} where
  Reached-Progress : {n : ℕ} {s : State} → Reached rounds capacity n s → Progress rounds n s
  Reached-Progress fork = record {
    by_a = [];
    by_b = [];
    made_up = empty;
    all_a = refl;
    all_b = refl;
    moves = omega arith;
  }
  Reached-Progress (by_child {n} {s} {w} {out} r e) =
      let p = Reached-Progress r in
      let (wrote, one) = next_round-owed capacity 65 s.child e in
      record {
        by_a = p.by_a ++ out;
        by_b = p.by_b;
        made_up = append-left out p.made_up;
        all_a = rw (append_assoc p.by_a out (owed 65 w), wrote) p.all_a;
        all_b = p.all_b;
        moves = omega (arith, one, p.moves);
      }
  Reached-Progress (by_parent {n} {s} {w} {out} r e) =
      let p = Reached-Progress r in
      let (wrote, one) = next_round-owed capacity 66 s.parent e in
      record {
        by_a = p.by_a;
        by_b = p.by_b ++ out;
        made_up = append-right out p.made_up;
        all_a = p.all_a;
        all_b = rw (append_assoc p.by_b out (owed 66 w), wrote) p.all_b;
        moves = omega (arith, one, p.moves);
      }

  -- For any size of the buffers, including none, and however the moves interleave: where neither
  -- process can move, they have made twice the number of rounds and two moves, and the file has the
  -- `A`s and the `B`s of all rounds, in some order.
  pub stuck-Shuffle :
      {n : ℕ} {s : State}
      → Reached rounds capacity n s
      → next_round capacity 65 s.child ≡ none
      → next_round capacity 66 s.parent ≡ none
      → (n ≡ 2 * rounds + 2) × Shuffle (replicate rounds 65) (replicate rounds 66) s.file
  stuck-Shuffle {n} {s} r c p =
      let q = Reached-Progress r in
      let c' = next_round-exited capacity 65 s.child c in
      let p' = next_round-exited capacity 66 s.parent p in
      let a : q.by_a ≡ replicate rounds 65 = owes-nothing 65 s.child c' q.all_a in
      let b : q.by_b ≡ replicate rounds 66 = owes-nothing 66 s.parent p' q.all_b in
      (
        omega (arith, q.moves, ap to_make c', ap to_make p'),
        subst₂ (λ xs ys. Shuffle xs ys s.file) a b q.made_up,
      )
