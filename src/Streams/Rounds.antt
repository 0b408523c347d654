-- ===== src/Streams/Rounds.antt =====
-- What a round of a process of `as2_4.c` does.
use the_operating_system.Common.{
  ℕ, zero, suc, ◌+◌, ◌≡◌, refl, sym, ap, subst, subst₂, ◌∙◌, some, List, [], ◌∷◌, ◌++◌,
  append_assoc, append-nil, length, length-append, take, drop, arith,
}
use the_operating_system.Streams.Reads.{Reader, looping, exited, fgetc, put_char, next_round}

-- Characters, each behind the mark.
abbrev pub marked : (mark : ℕ) → List ℕ → List ℕ
marked mark [] = []
marked mark (ch ∷ chs) = mark ∷ ch ∷ marked mark chs

-- What is printed in a run of the loop that gets these characters.
abbrev pub printed : (mark : ℕ) → List ℕ → List ℕ
printed mark chs = marked mark chs ++ (mark ∷ 10 ∷ [])

abbrev pub printed_by : Reader → List ℕ
printed_by (looping buffer out) = out
printed_by (exited out) = out

-- What the buffer has.
abbrev pub held : Reader → List ℕ
held (looping buffer out) = buffer
held (exited out) = []

abbrev pub live : Reader → ℕ
live (looping buffer out) = 1
live (exited out) = 0

-- The process has printed these characters; it has ended only at the end of the file.
abbrev pub Printed : (mark : ℕ) → List ℕ → Reader → Type 0
Printed mark chs (looping buffer out) = out ≡ marked mark chs
Printed mark chs (exited out) = out ≡ printed mark chs

abbrev pub AtEnd : Reader → List ℕ → Type 0
AtEnd (looping buffer out) file = Unit
AtEnd (exited out) file = file ≡ []

marked-append :
    (mark : ℕ) (xs ys : List ℕ) → marked mark (xs ++ ys) ≡ marked mark xs ++ marked mark ys
marked-append mark [] ys = refl
marked-append mark (x ∷ xs) ys = ap (λ r. mark ∷ x ∷ r) (marked-append mark xs ys)

take-drop : (n : ℕ) (xs : List ℕ) → take n xs ++ drop n xs ≡ xs
take-drop zero xs = refl
take-drop (suc n) [] = refl
take-drop (suc n) (x ∷ xs) = ap (◌∷◌ x) (take-drop n xs)

-- What a round does, for a process that has printed `chs`.
pub record Round (mark : ℕ) (chs file : List ℕ) (r : Reader) (rest : List ℕ) (r' : Reader)
    : Type 0 where
  pub filled : List ℕ
  pub chs' : List ℕ
  pub from_file : filled ++ rest ≡ file
  pub kept : chs' ++ held r' ≡ (chs ++ held r) ++ filled
  pub printed : Printed mark chs' r'
  pub at_end : AtEnd r' rest
  pub one_less :
      length (held r) + length file + live r ≡ suc (length (held r') + length rest + live r')

put_char-Round :
    (mark more : ℕ) (chs file buffer : List ℕ)
    → let next = put_char mark (marked mark chs) (fgetc more file buffer) in
      Round mark chs file (looping buffer (marked mark chs)) next.0 next.1
unfolding fgetc put_char
put_char-Round mark more chs file (ch ∷ buffer) = record {
  filled = [];
  chs' = chs ++ (ch ∷ []);
  from_file = refl;
  kept = append_assoc chs (ch ∷ []) buffer ∙ sym (append-nil (chs ++ (ch ∷ buffer)));
  printed = sym (marked-append mark chs (ch ∷ []));
  at_end = tt;
  one_less = omega arith;
}
put_char-Round mark more chs (ch ∷ file) [] = record {
  filled = ch ∷ take more file;
  chs' = chs ++ (ch ∷ []);
  from_file = ap (◌∷◌ ch) (take-drop more file);
  kept = rw (append-nil chs) (append_assoc chs (ch ∷ []) (take more file));
  printed = sym (marked-append mark chs (ch ∷ []));
  at_end = tt;
  one_less = omega (
    arith,
    ap (length {A = ℕ}) (take-drop more file),
    length-append (take more file) (drop more file),
  );
}
put_char-Round mark more chs [] [] = record {
  filled = [];
  chs' = chs;
  from_file = refl;
  kept = sym (append-nil (chs ++ []));
  printed = refl;
  at_end = refl;
  one_less = omega arith;
}

pub next_round-Round :
    (mark more : ℕ) (chs file : List ℕ) (r : Reader) {rest : List ℕ} {r' : Reader}
    → Printed mark chs r
    → next_round mark more file r ≡ some (rest, r')
    → Round mark chs file r rest r'
unfolding next_round
next_round-Round mark more chs file (looping buffer out) {rest} {r'} p e =
    let next = put_char mark out (fgetc more file buffer) in
    let rests : next.0 ≡ rest = cc in
    let readers : next.1 ≡ r' = cc in
    subst₂ (λ f q. Round mark chs file (looping buffer out) f q) rests readers
      (subst
        (λ o.
          let n = put_char mark o (fgetc more file buffer) in
          Round mark chs file (looping buffer o) n.0 n.1)
        (sym p) (put_char-Round mark more chs file buffer))
next_round-Round mark more chs file (exited out) p e = cc
