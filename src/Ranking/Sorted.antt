-- ===== src/Ranking/Sorted.antt =====
-- What as2_2.c and as2_3.c print, where no `fork` fails.
use mathlib.Core.List.{Perm, Pairwise}
use mathlib.Core.List.Perm
use native.Mathlib.Bridge.{le_prop}
use the_operating_system.Common.{
  ℕ, zero, suc, ◌+◌, ◌/◌, ◌%◌, ◌≤◌, ◌<◌, ◌≡◌, refl, ap, sym, subst, subst₂, ◌∙◌, Bool, true, false,
  List, [], ◌∷◌, ◌++◌, arith, append_assoc, ◌==◌, eq→==, length, length-append,
}
use the_operating_system.Common.Bytes.{signed_key}
use the_operating_system.Common.Selection.{
  All, All-tail_of, tail_of, perm-tail_of, length-tail_of, Pairwise-cons-Perm,
}
use the_operating_system.Common.Outcomes.{done, load}
use the_operating_system.Ranking.{
  Rank, Line, largest, questions, buffered, Output, max_loop, exchange, exit_status, rank_chain,
  print_ranks, rank_loop, collect_ranks,
}
use the_operating_system.Ranking.Lines.{
  values, lines_of, line_values, line_values-lines_of, line_values-enter_elements, shown, below,
  below-cons, below-nil, below-shown,
}
use the_operating_system.Ranking.Greatest.{max_loop-finds, exchange-Greatest}

abbrev pub IsDescending : List ℕ → Type 0
IsDescending = Pairwise (λ x y. signed_key y ≤ signed_key x)

-- The ranks are numbered from `i + 1` on, and have the values.
abbrev pub IsRanking : (i : ℕ) → List Rank → List ℕ → Type 0
IsRanking i [] [] = Unit
IsRanking i (r ∷ rs) (v ∷ vs) = (r.rank ≡ i + 1) × (r.value ≡ v) × IsRanking (i + 1) rs vs
IsRanking i [] (v ∷ vs) = ⊥
IsRanking i (r ∷ rs) [] = ⊥

values-IsRanking : (i : ℕ) (rs : List Rank) (vs : List ℕ) → IsRanking i rs vs → values rs ≡ vs
values-IsRanking i [] [] h = refl
values-IsRanking i (r ∷ rs) (v ∷ vs) h =
    subst₂ (λ x xs. values (r ∷ rs) ≡ x ∷ xs) h.1 (values-IsRanking (i + 1) rs vs h.2) refl
values-IsRanking i [] (v ∷ vs) h = absurd h
values-IsRanking i (r ∷ rs) [] h = absurd h

module _ (fork_fails : ℕ → Bool) (forks : (i : ℕ) → fork_fails i ≡ false) where
  chain-step :
      (terminal : Bool) (r i q v : ℕ) (arr arr' : List ℕ) (buffer lines : List Line)
      → max_loop (suc r) arr i i ≡ done q
      → load arr q ≡ done v
      → exchange arr i q ≡ done arr'
      → rank_chain terminal fork_fails r
          (i + 1)
          arr'
          (buffered terminal buffer (largest (record { rank = i + 1; value = v; idx = q }) ∷ []))
        ≡ done (
            below terminal
              (buffered terminal buffer
                (largest (record { rank = i + 1; value = v; idx = q }) ∷ []))
              lines)
      → rank_chain terminal fork_fails (suc r) i arr buffer
        ≡ done
            (below terminal buffer (largest (record { rank = i + 1; value = v; idx = q }) ∷ lines))
  unfolding rank_chain
  chain-step terminal r i q v arr arr' buffer lines found at_q exchanged rest =
      rw (forks i, found, at_q, exchanged, rest, rank_chain)
        (ap done (below-cons terminal buffer _ lines))

  loop-step :
      (r i q : ℕ) (arr arr' out : List ℕ)
      → q < 256
      → max_loop (suc r) arr i i ≡ done q
      → exchange arr q i ≡ done arr'
      → rank_loop fork_fails r (i + 1) arr' ≡ done out
      → rank_loop fork_fails (suc r) i arr ≡ done out
  unfolding rank_loop
  loop-step r i q arr arr' out low found exchanged rest =
      let exit_ok : (exit_status q % 256 == 0) ≡ true =
        eq→== (exit_status q % 256) 0 (omega arith) in
      let index : exit_status q / 256 ≡ q = omega arith in
      rw (forks i, found, exit_ok, index, exchanged, rest, rank_loop) refl

  -- What both programs make of `ys`, where `xs` has been ranked.
  record Ranked (r : ℕ) (xs ys : List ℕ) : Type 0 where
    sorted : List ℕ
    ranks : List Rank
    perm : Perm sorted ys
    descending : IsDescending sorted
    ranking : IsRanking (length xs) ranks sorted
    chain :
        (terminal : Bool) (buffer : List Line)
        → rank_chain terminal fork_fails r (length xs) (xs ++ ys) buffer
          ≡ done (below terminal buffer (lines_of ranks))
    loop : length xs + r ≤ 256 → rank_loop fork_fails r (length xs) (xs ++ ys) ≡ done (xs ++ sorted)

  ranked : (r : ℕ) (xs ys : List ℕ) → length ys ≡ r → Ranked r xs ys
  unfolding rank_chain rank_loop
  ranked zero xs [] len = record {
    sorted = [];
    ranks = [];
    perm = Perm.refl [];
    descending = Pairwise.nil;
    ranking = tt;
    chain = λ terminal buffer. ap done (below-nil terminal buffer);
    loop = λ _. refl;
  }
  ranked zero xs (y ∷ ys) len = absurd (omega arith)
  ranked (suc r) xs [] len = absurd (omega arith)
  ranked (suc r) xs (x ∷ ys) len =
      let (q, found, g) = max_loop-finds xs x ys in
      let (at_q, forth, back) = exchange-Greatest xs x ys q g in
      let rest = tail_of g.before g.after in
      let few : length rest ≡ r = omega (
        arith,
        len,
        ap length g.split,
        length-tail_of g.before g.after,
        length-append g.before g.after,
        length-append g.before (g.value ∷ g.after),
      ) in
      let o = ranked r (xs ++ (g.value ∷ [])) rest few in
      let next : length (xs ++ (g.value ∷ [])) ≡ length xs + 1 = length-append xs (g.value ∷ []) in
      record {
        sorted = g.value ∷ o.sorted;
        ranks = record { rank = length xs + 1; value = g.value; idx = q } ∷ o.ranks;
        perm =
            Perm.trans (Perm.cons g.value o.perm)
              (subst (Perm (g.value ∷ rest)) (sym g.split) (perm-tail_of g.before g.after g.value));
        descending =
            Pairwise-cons-Perm (λ (a b : ℕ). signed_key b ≤ signed_key a) (λ a b. le_prop) g.value
              rest o.sorted
              (All-tail_of (λ a. signed_key a ≤ signed_key g.value) g.before g.after g.value
                (subst (All (λ a. signed_key a ≤ signed_key g.value)) g.split g.greatest)).1
              o.perm o.descending;
        ranking = (refl, refl, subst (λ i. IsRanking i o.ranks o.sorted) next o.ranking);
        chain = λ terminal buffer.
            chain-step terminal r (length xs) q g.value (xs ++ (x ∷ ys)) (xs ++ (g.value ∷ rest))
              buffer (lines_of o.ranks)
              (subst (λ k. max_loop k (xs ++ (x ∷ ys)) (length xs) (length xs) ≡ done q) len found)
              at_q forth
              (let line = largest (record { rank = length xs + 1; value = g.value; idx = q }) in
                let buffer' = buffered terminal buffer (line ∷ []) in
                subst₂
                  (λ i arr.
                    rank_chain terminal fork_fails r i arr buffer'
                    ≡ done (below terminal buffer' (lines_of o.ranks)))
                  next (append_assoc xs (g.value ∷ []) rest) (o.chain terminal buffer'));
        loop = λ h.
            loop-step r (length xs) q (xs ++ (x ∷ ys)) (xs ++ (g.value ∷ rest))
              (xs ++ (g.value ∷ o.sorted))
              (omega (
                arith,
                len,
                g.place,
                ap length g.split,
                length-append g.before (g.value ∷ g.after),
              ))
              (subst (λ k. max_loop k (xs ++ (x ∷ ys)) (length xs) (length xs) ≡ done q) len found)
              back
              (subst₂ (λ i arr. rank_loop fork_fails r i arr ≡ done (xs ++ (g.value ∷ o.sorted)))
                next (append_assoc xs (g.value ∷ []) rest)
                (o.loop (omega (arith, next)) ∙ ap done (append_assoc xs (g.value ∷ []) o.sorted)));
      }

  -- Where no `fork` fails, as2_2.c accesses its array in range only, and has a line for each of the ranks
  -- from 1 on, with the numbers of the array in descending order. To a terminal it prints the questions
  -- and then these lines, once each and in this order. To a file, where the buffer has room, nothing is
  -- written before a process ends, and the process of each rank writes then the questions and the lines
  -- of the ranks up to its own, and `main` the questions alone.
  pub print_ranks-IsDescending :
      (terminal : Bool) (arr : List ℕ)
      → (sorted : List ℕ) × (ranks : List Rank) × Perm sorted arr
        × IsDescending sorted
        × IsRanking 0 ranks sorted
        × (print_ranks terminal fork_fails arr
            ≡ done (shown terminal (questions (length arr)) (lines_of ranks)))
  unfolding print_ranks
  print_ranks-IsDescending terminal arr =
      let o = ranked (length arr) [] arr refl in
      let asked = questions (length arr) in
      (
        o.sorted,
        o.ranks,
        o.perm,
        o.descending,
        o.ranking,
        rw (o.chain terminal (buffered terminal [] asked))
            (ap done (below-shown terminal asked (lines_of o.ranks))),
      )

  -- Where no `fork` fails, `main` of as2_3.c has at its end, for an array of at most 256 numbers, an
  -- array of the numbers in the lines that as2_2.c prints to a terminal, in the same order.
  pub collect_ranks-print_ranks :
      (arr : List ℕ) (output : Output)
      → length arr ≤ 256
      → print_ranks true fork_fails arr ≡ done output
      → collect_ranks fork_fails arr ≡ done (line_values output.running)
  unfolding collect_ranks print_ranks
  collect_ranks-print_ranks arr output few printed =
      let o = ranked (length arr) [] arr refl in
      let asked = questions (length arr) in
      let same : shown true asked (lines_of o.ranks) ≡ output = cc (printed, o.chain true []) in
      o.loop (omega arith)
      ∙ ap done (
          sym (values-IsRanking 0 o.ranks o.sorted o.ranking)
          ∙ sym (line_values-lines_of o.ranks)
          ∙ sym (line_values-enter_elements (length arr) 0 (lines_of o.ranks))
          ∙ ap (λ u. line_values u.running) same)
