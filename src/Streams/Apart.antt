-- ===== src/Streams/Apart.antt =====
-- With buffers that have room for all rounds, the processes of `as2_5.c` write one after the other.
use the_operating_system.Common.{
  ℕ, zero, suc, ◌+◌, ◌*◌, ◌≤◌, ◌≡◌, refl, sym, subst, ◌⊎◌, inl, inr, none, some, List, [], ◌∷◌,
  ◌++◌, append_assoc, append-nil, length, length-append, replicate, arith,
}
use the_operating_system.Streams.Writes.{
  Writer, looping, exited, State, putc, next_round, Reached, fork, by_child, by_parent,
}
use the_operating_system.Streams.Written.{
  owed, owes-nothing, putc-room, next_round-owed, next_round-exited, stuck-Shuffle,
}

-- A process in its loop has written nothing, with the rounds that it has made in its buffer.
abbrev Unflushed : (rounds : ℕ) → Writer → (written : List ℕ) → Type 0
Unflushed rounds (looping k buffer) written = (written ≡ []) × (length buffer + k ≡ rounds)
Unflushed rounds exited written = Unit

swap {ℓ₁ ℓ₂} : {A : Type ℓ₁} {B : Type ℓ₂} → A ⊎ B → B ⊎ A
swap (inl a) = inr a
swap (inr b) = inl b

module _ {rounds capacity : ℕ} (large : rounds ≤ capacity) where
  -- So a move writes nothing, or is the first to write.
  next_round-Unflushed :
      (mark : ℕ) (w : Writer) (written : List ℕ) {w' : Writer} {out : List ℕ}
      → Unflushed rounds w written
      → next_round capacity mark w ≡ some (w', out)
      → Unflushed rounds w' (written ++ out) × ((out ≡ []) ⊎ (written ≡ []))
  unfolding next_round putc
  next_round-Unflushed mark (looping zero buffer) written {w'} {out} u e =
      let w : exited ≡ w' = cc in (subst (λ v. Unflushed rounds v (written ++ out)) w tt, inr u.0)
  next_round-Unflushed mark (looping (suc k) buffer) written {w'} {out} u e =
      let (none_yet, count) = u in
      let room = putc-room capacity mark buffer (omega (arith, count, large)) in
      let w : looping k (buffer ++ (mark ∷ [])) ≡ w' = cc in
      let o : [] ≡ out = cc in
      let nothing : written ++ out ≡ [] = rw (none_yet, sym o) refl in
      (
        subst (λ v. Unflushed rounds v (written ++ out)) w
            (nothing, omega (arith, count, length-append buffer (mark ∷ []))),
        inl (sym o),
      )
  next_round-Unflushed mark exited written u e = cc

  -- The file has what one process has written, then what the other has.
  record Apart (s : State) : Type 0 where
    by_a : List ℕ
    by_b : List ℕ
    apart : (s.file ≡ by_a ++ by_b) ⊎ (s.file ≡ by_b ++ by_a)
    first : Unflushed rounds s.child by_a
    second : Unflushed rounds s.parent by_b
    all_a : by_a ++ owed 65 s.child ≡ replicate rounds 65
    all_b : by_b ++ owed 66 s.parent ≡ replicate rounds 66

  append-Apart :
      (file mine others out : List ℕ)
      → (file ≡ mine ++ others) ⊎ (file ≡ others ++ mine)
      → (out ≡ []) ⊎ (mine ≡ [])
      → (file ++ out ≡ (mine ++ out) ++ others) ⊎ (file ++ out ≡ others ++ (mine ++ out))
  append-Apart file mine others out (inl e) (inl nothing) =
      inl (rw (e, nothing, append-nil mine, append-nil (mine ++ others)) refl)
  append-Apart file mine others out (inr e) h = inr (rw e (append_assoc others mine out))
  append-Apart file mine others out (inl e) (inr nothing) = inr (rw (e, nothing) refl)

  Reached-Apart : {n : ℕ} {s : State} → Reached rounds capacity n s → Apart s
  Reached-Apart fork = record {
    by_a = [];
    by_b = [];
    apart = inl refl;
    first = (refl, omega arith);
    second = (refl, omega arith);
    all_a = refl;
    all_b = refl;
  }
  Reached-Apart (by_child {n} {s} {w} {out} r e) =
      let p = Reached-Apart r in
      let (first, either) = next_round-Unflushed 65 s.child p.by_a p.first e in
      record {
        by_a = p.by_a ++ out;
        by_b = p.by_b;
        apart = append-Apart s.file p.by_a p.by_b out p.apart either;
        first = first;
        second = p.second;
        all_a =
            rw (append_assoc p.by_a out (owed 65 w), (next_round-owed capacity 65 s.child e).0)
              p.all_a;
        all_b = p.all_b;
      }
  Reached-Apart (by_parent {n} {s} {w} {out} r e) =
      let p = Reached-Apart r in
      let (second, either) = next_round-Unflushed 66 s.parent p.by_b p.second e in
      record {
        by_a = p.by_a;
        by_b = p.by_b ++ out;
        apart = swap (append-Apart s.file p.by_b p.by_a out (swap p.apart) either);
        first = p.first;
        second = second;
        all_a = p.all_a;
        all_b =
            rw (append_assoc p.by_b out (owed 66 w), (next_round-owed capacity 66 s.parent e).0)
              p.all_b;
      }

  -- With buffers that have room for the characters of all rounds, and however the moves interleave:
  -- where neither process can move, they have made twice the number of rounds and two moves, and the
  -- file has all `A`s, then all `B`s, or the other way round.
  pub stuck-apart :
      {n : ℕ} {s : State}
      → Reached rounds capacity n s
      → next_round capacity 65 s.child ≡ none
      → next_round capacity 66 s.parent ≡ none
      → (n ≡ 2 * rounds + 2)
        × ((s.file ≡ replicate rounds 65 ++ replicate rounds 66)
            ⊎ (s.file ≡ replicate rounds 66 ++ replicate rounds 65))
  stuck-apart {n} {s} r c p =
      let q = Reached-Apart r in
      let a : q.by_a ≡ replicate rounds 65 =
        owes-nothing 65 s.child (next_round-exited capacity 65 s.child c) q.all_a in
      let b : q.by_b ≡ replicate rounds 66 =
        owes-nothing 66 s.parent (next_round-exited capacity 66 s.parent p) q.all_b in
      ((stuck-Shuffle r c p).0, rw (sym a, sym b) q.apart)
