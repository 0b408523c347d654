-- ===== src/Streams/Shared.antt =====
-- What the processes of `as2_4.c` print.
use the_operating_system.Common.{
  ℕ, ◌+◌, ◌≡◌, refl, sym, ap, subst, subst₂, ◌∙◌, none, List, [], ◌∷◌, ◌++◌, append_assoc,
  append-nil, length, arith,
}
use the_operating_system.Streams.Shuffle.{Shuffle, empty, append-left, append-right}
use the_operating_system.Streams.Reads.{
  Reader, looping, exited, State, next_round, Reached, fork, by_child, by_parent,
}
use the_operating_system.Streams.Rounds.{
  printed, printed_by, held, live, Printed, AtEnd, next_round-Round,
}

-- The buffers have, in order, what has been read of the file and not been printed.
record Progress (all : List ℕ) (n : ℕ) (s : State) : Type 0 where
  by_child : List ℕ
  by_parent : List ℕ
  consumed : List ℕ
  shuffled : Shuffle (by_child ++ held s.child) (by_parent ++ held s.parent) consumed
  whole : consumed ++ s.file ≡ all
  child_printed : Printed 65 by_child s.child
  parent_printed : Printed 66 by_parent s.parent
  child_at_end : AtEnd s.child s.file
  parent_at_end : AtEnd s.parent s.file
  rounds :
      n
        + (length (held s.child)
            + length (held s.parent)
            + length s.file
            + live s.child
            + live s.parent)
      ≡ length all + 2

nil-of-append : (xs : List ℕ) {ys : List ℕ} → xs ++ ys ≡ [] → ys ≡ []
nil-of-append [] e = e
nil-of-append (x ∷ xs) e = cc

AtEnd-rest :
    (r : Reader) (filled rest : List ℕ) {file : List ℕ}
    → filled ++ rest ≡ file
    → AtEnd r file
    → AtEnd r rest
AtEnd-rest (looping buffer out) filled rest e h = tt
AtEnd-rest (exited out) filled rest e h = nil-of-append filled (e ∙ h)

module _ {capacity : ℕ} {all : List ℕ} where
  Reached-Progress : {n : ℕ} {s : State} → Reached capacity all n s → Progress all n s
  Reached-Progress fork = record {
    by_child = [];
    by_parent = [];
    consumed = [];
    shuffled = empty;
    whole = refl;
    child_printed = refl;
    parent_printed = refl;
    child_at_end = tt;
    parent_at_end = tt;
    rounds = omega arith;
  }
  Reached-Progress (by_child {n} {s} {rest} {r} more reached fits e) =
      let p = Reached-Progress reached in
      let q = next_round-Round 65 more p.by_child s.file s.child p.child_printed e in
      record {
        by_child = q.chs';
        by_parent = p.by_parent;
        consumed = p.consumed ++ q.filled;
        shuffled =
            subst (λ xs. Shuffle xs (p.by_parent ++ held s.parent) (p.consumed ++ q.filled))
              (sym q.kept) (append-left q.filled p.shuffled);
        whole = append_assoc p.consumed q.filled rest ∙ ap (◌++◌ p.consumed) q.from_file ∙ p.whole;
        child_printed = q.printed;
        parent_printed = p.parent_printed;
        child_at_end = q.at_end;
        parent_at_end = AtEnd-rest s.parent q.filled rest q.from_file p.parent_at_end;
        rounds = omega (arith, q.one_less, p.rounds);
      }
  Reached-Progress (by_parent {n} {s} {rest} {r} more reached fits e) =
      let p = Reached-Progress reached in
      let q = next_round-Round 66 more p.by_parent s.file s.parent p.parent_printed e in
      record {
        by_child = p.by_child;
        by_parent = q.chs';
        consumed = p.consumed ++ q.filled;
        shuffled =
            subst (λ ys. Shuffle (p.by_child ++ held s.child) ys (p.consumed ++ q.filled))
              (sym q.kept) (append-right q.filled p.shuffled);
        whole = append_assoc p.consumed q.filled rest ∙ ap (◌++◌ p.consumed) q.from_file ∙ p.whole;
        child_printed = p.child_printed;
        parent_printed = q.printed;
        child_at_end = AtEnd-rest s.child q.filled rest q.from_file p.child_at_end;
        parent_at_end = q.at_end;
        rounds = omega (arith, q.one_less, p.rounds);
      }

-- What a process that has ended has printed.
ended :
    (mark : ℕ) (chs file : List ℕ) (r : Reader)
    → next_round mark 0 file r ≡ none
    → Printed mark chs r
    → AtEnd r file
    → (printed_by r ≡ printed mark chs) × (file ≡ []) × (held r ≡ []) × (live r ≡ 0)
unfolding next_round
ended mark chs file (looping buffer out) e p h = cc
ended mark chs file (exited out) e p h = (p, h, refl, refl)

-- For any size of the buffers and of what the calls of `read` give, and however the rounds interleave:
-- where neither process has another round, they have made as many as the file has characters, and two;
-- and they have printed, each behind its mark, all characters of the file between them, each process
-- in the order of the file.
pub stuck-printed :
    {capacity : ℕ} {file : List ℕ} {n : ℕ} {s : State}
    → Reached capacity file n s
    → next_round 65 0 s.file s.child ≡ none
    → next_round 66 0 s.file s.parent ≡ none
    → (n ≡ length file + 2)
      × (xs : List ℕ) × (ys : List ℕ) × Shuffle xs ys file
      × (printed_by s.child ≡ printed 65 xs)
      × (printed_by s.parent ≡ printed 66 ys)
stuck-printed {capacity} {file} {n} {s} reached c d =
    let p = Reached-Progress reached in
    let (out_c, at_end, held_c, live_c) =
      ended 65 p.by_child s.file s.child c p.child_printed p.child_at_end in
    let (out_d, _, held_d, live_d) =
      ended 66 p.by_parent s.file s.parent d p.parent_printed p.parent_at_end in
    let count : n ≡ length file + 2 = omega (
      arith,
      p.rounds,
      ap (length {A = ℕ}) held_c,
      ap (length {A = ℕ}) held_d,
      ap (length {A = ℕ}) at_end,
      live_c,
      live_d,
    ) in
    let xs : p.by_child ++ held s.child ≡ p.by_child =
      ap (◌++◌ p.by_child) held_c ∙ append-nil p.by_child in
    let ys : p.by_parent ++ held s.parent ≡ p.by_parent =
      ap (◌++◌ p.by_parent) held_d ∙ append-nil p.by_parent in
    let zs : p.consumed ≡ file =
      sym (append-nil p.consumed) ∙ ap (◌++◌ p.consumed) (sym at_end) ∙ p.whole in
    (
      count,
      p.by_child,
      p.by_parent,
      subst (Shuffle p.by_child p.by_parent) zs
          (subst₂ (λ l r. Shuffle l r p.consumed) xs ys p.shuffled),
      out_c,
      out_d,
    )
