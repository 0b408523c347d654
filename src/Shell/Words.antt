-- ===== src/Shell/Words.antt =====
-- The words of a line, and the shell's reading of one word.
use the_operating_system.Common.{
  ℕ, zero, suc, ◌+◌, ◌≤◌, ◌<◌, ◌≡◌, ◌≢◌, refl, inl, inr, Bool, true, ◌&&◌, ◌||◌, List, [], ◌∷◌,
  ◌++◌, append_assoc, append-nil, arith, ltb, ◌==◌, length, length-append, lt→ltb, ltb→lt, ne→==,
  Bool-cases,
}
use the_operating_system.Common.Selection.{All}
use the_operating_system.Common.Outcomes.{done, undefined}
use the_operating_system.Shell.{max_size, space, newline, getchar, read_word, c_string}

-- A character of a word.
pub record IsPlain (c : ℕ) : Type 0 where
  pub not_space : c ≢ space
  pub not_newline : c ≢ newline
  pub not_null : c ≢ 0

-- The words of a line, which spaces part.
pub data Words : List ℕ → List (List ℕ) → Type 0 where
  empty : Words [] []
  blank : {line : List ℕ} {words : List (List ℕ)} → Words line words → Words (space ∷ line) words
  last : {c : ℕ} {word : List ℕ} → IsPlain c → All IsPlain word → Words (c ∷ word) ((c ∷ word) ∷ [])
  word_then :
      {c : ℕ} {word line : List ℕ} {words : List (List ℕ)}
      → IsPlain c
      → All IsPlain word
      → Words line words
      → Words (c ∷ (word ++ (space ∷ line))) ((c ∷ word) ∷ words)

abbrev pub all_short : List (List ℕ) → Bool
all_short [] = true
all_short (word ∷ words) = ltb (length word) max_size && all_short words

-- Each word fits in `tempbuf`, and all of them, with the NULL behind them, in `argv`.
abbrev pub fits : List (List ℕ) → Bool
fits words = all_short words && ltb (length words) max_size

pub read_word-plain :
    (k : ℕ) (buf word rest : List ℕ) (c : ℕ)
    → All IsPlain word
    → (c == space || c == newline) ≡ true
    → length buf + length word ≤ max_size
    → length word < k
    → read_word k buf (word ++ (c ∷ rest)) ≡ done (buf ++ word, c, rest)
unfolding read_word getchar
read_word-plain zero buf word rest c plain e room fuel = absurd (omega arith)
read_word-plain (suc k) buf [] rest c plain e room fuel =
    rw (e, append-nil, read_word, getchar) refl
read_word-plain (suc k) buf (d ∷ word) rest c plain e room fuel =
    let next =
      read_word-plain k (buf ++ (d ∷ [])) word rest c plain.1 e
        (omega (arith, length-append buf (d ∷ []))) (omega arith) in
    rw
      (
        ne→== d space plain.0.not_space,
        ne→== d newline plain.0.not_newline,
        lt→ltb (length buf) max_size (omega arith),
        read_word,
        getchar,
        next,
        append_assoc buf (d ∷ []) word,
      )
      refl

pub read_word-long :
    (k : ℕ) (buf word rest : List ℕ)
    → All IsPlain word
    → max_size < length buf + length word
    → length buf ≤ max_size
    → max_size < k + length buf
    → read_word k buf (word ++ rest) ≡ undefined
unfolding read_word getchar
read_word-long zero buf word rest plain long small fuel = absurd (omega arith)
read_word-long (suc k) buf [] rest plain long small fuel = absurd (omega arith)
read_word-long (suc k) buf (d ∷ word) rest plain long small fuel =
    elim (Bool-cases (ltb (length buf) max_size)) [
      | inl e ↦
          let next =
            read_word-long k (buf ++ (d ∷ [])) word rest plain.1
              (omega (arith, length-append buf (d ∷ [])))
              (omega (arith, length-append buf (d ∷ []), ltb→lt (length buf) max_size e))
              (omega (arith, length-append buf (d ∷ []))) in
          rw
            (
              ne→== d space plain.0.not_space,
              ne→== d newline plain.0.not_newline,
              e,
              read_word,
              getchar,
              next,
            )
            refl
      | inr e ↦
          rw
            (
              ne→== d space plain.0.not_space,
              ne→== d newline plain.0.not_newline,
              e,
              read_word,
              getchar,
            )
            refl
    ]

pub c_string-plain : (word : List ℕ) → All IsPlain word → c_string word ≡ word
unfolding c_string
c_string-plain [] h = refl
c_string-plain (c ∷ word) h = rw (ne→== c 0 h.0.not_null, c_string, c_string-plain word h.1) refl
