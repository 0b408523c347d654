-- ===== src/Students/Sort/Laws.antt =====
-- `sort` against the order of the roll numbers.
use mathlib.Core.List.{Perm, Pairwise}
use mathlib.Core.List.Perm
use the_operating_system.Common.{
  ℕ, zero, suc, ◌+◌, ◌*◌, ◌<◌, ◌≡◌, refl, sym, subst, subst₂, Bool, List, [], ◌∷◌, ◌++◌, arith,
  append_assoc, length, length-append, lt→ltb,
}
use the_operating_system.Common.Bytes.{int_bytes}
use the_operating_system.Posix.{Message, Run}
use the_operating_system.Posix.Calls.{files, count_checked}
use the_operating_system.Students.Layout.{
  live, room, index_bytes, IsStored, Indexed, max_file, length-index,
}
use the_operating_system.Students.Search.Find.{Reads}
use the_operating_system.Students.Sort.{sort_loop, sort}
use the_operating_system.Students.Sort.Entries.{
  Entry, slots_of, students, AllStored-slots_of, IsSorted, IsSorted-cons, length-slots_of,
  length-live-slots_of,
}
use the_operating_system.Common.Selection.{All}
use the_operating_system.Students.Sort.Swap.{listing, entry_bytes}
use the_operating_system.Students.Sort.Rounds.{IsLow, sort_round-Round}

module _ (d : List ℕ) (a : Bool) (out : List Message) (n : ℕ) (small : length d < max_file) where
  -- What the rounds that are left do to the entries that are left.
  record Sorted (done es : List Entry) (r : Run (Unit {0})) : Type 0 where
    sorted : List Entry
    perm : Perm sorted es
    ascending : IsSorted sorted
    stored : All (λ x. IsStored d x.0 x.1) sorted
    same_room : room (students sorted) ≡ room (students es)
    same_length : length sorted ≡ length es
    run : Reads d (listing n (done ++ sorted)) a out tt r

  sort_loop-Sorted :
      (k : ℕ) (done es : List Entry) (dp ip : ℕ)
      → All (λ x. IsStored d x.0 x.1) es
      → All IsLow es
      → 4 + 8 * length done + 8 * length es < max_file
      → length es ≡ k
      → Sorted done es (
          sort_loop k
            (4 + 8 * length done + 8 * length es)
            (length done)
            (files d dp a (listing n (done ++ es)) ip out))
  unfolding sort_loop
  sort_loop-Sorted zero done [] dp ip st low few len = record {
    sorted = [];
    perm = Perm.refl [];
    ascending = Pairwise.nil;
    stored = tt;
    same_room = refl;
    same_length = refl;
    run = (dp, ip, refl);
  }
  sort_loop-Sorted zero done (e ∷ es) dp ip st low few len = absurd (omega arith)
  sort_loop-Sorted (suc k) done [] dp ip st low few len = absurd (omega arith)
  sort_loop-Sorted (suc k) done (e ∷ es) dp ip st low few len =
      let o = sort_round-Round d a out n small done e es dp ip st low few in
      let (dp', ip', run) = o.run in
      let end_same : 4 + 8 * length (done ++ (o.first ∷ [])) + 8 * length o.rest
          ≡ 4 + 8 * length done + 8 * length (e ∷ es) =
        omega (arith, o.same_length, length-append done (o.first ∷ [])) in
      let next_same : length (done ++ (o.first ∷ [])) ≡ length done + 1 =
        length-append done (o.first ∷ []) in
      let next =
        sort_loop-Sorted k (done ++ (o.first ∷ [])) o.rest dp' ip' o.stored.1 o.low
          (omega (arith, end_same)) (omega (arith, o.same_length)) in
      record {
        sorted = o.first ∷ next.sorted;
        perm = Perm.trans (Perm.cons o.first next.perm) o.perm;
        ascending = IsSorted-cons o.first o.rest next.sorted o.least next.perm next.ascending;
        stored = (o.stored.0, next.stored);
        same_room = omega (arith, next.same_room, o.same_room);
        same_length = omega (arith, next.same_length, o.same_length);
        run = rw run (
            subst
              (λ l. Reads d (listing n l) a out tt (
                sort_loop k (4 + 8 * length done + 8 * length (e ∷ es)) (length done + 1)
                  (files d dp' a (listing n (done ++ (o.first ∷ o.rest))) ip' out)))
              (append_assoc done (o.first ∷ []) next.sorted)
              (subst
                (λ l. Reads d (listing n ((done ++ (o.first ∷ [])) ++ next.sorted)) a out tt (
                  sort_loop k (4 + 8 * length done + 8 * length (e ∷ es)) (length done + 1)
                    (files d dp' a (listing n l) ip' out)))
                (append_assoc done (o.first ∷ []) o.rest)
                (subst₂
                  (λ u v. Reads d (listing n ((done ++ (o.first ∷ [])) ++ next.sorted)) a out tt (
                    sort_loop k u v
                      (files d dp' a (listing n ((done ++ (o.first ∷ [])) ++ o.rest)) ip' out)))
                  end_same next_same next.run)));
      }

  -- All rounds: from an index file that lists `es`, open at its start.
  sort-Sorted :
      (es : List Entry) (dp : ℕ)
      → All (λ x. IsStored d x.0 x.1) es
      → All IsLow es
      → 4 + 8 * length es < max_file
      → n ≡ length es
      → Sorted [] es (sort (files d dp a (listing n es) 0 out))
  unfolding sort
  sort-Sorted es dp st low few same =
      let o = sort_loop-Sorted (length es) [] es dp 4 st low (omega arith) refl in
      let end_same : 4 + 8 * 0 + 8 * length es ≡ 4 + n * 8 = omega (arith, same) in
      record {
        sorted = o.sorted;
        perm = o.perm;
        ascending = o.ascending;
        stored = o.stored;
        same_room = o.same_room;
        same_length = o.same_length;
        run =
            rw
              (
                count_checked d dp a (listing n es) 0 out n
                    (record { rest = entry_bytes es; here = refl }) (omega (arith, same)),
                lt→ltb n 0x1000_0000 (omega (arith, same)),
              )
              (subst₂
                (λ k end.
                  Reads d (listing n o.sorted) a out tt
                    (sort_loop k end 0 (files d dp a (listing n es) 4 out)))
                (sym same) end_same o.run);
      }

-- The files list the entries `sorted`, a rearrangement of `es` by ascending roll numbers.
pub record Ordered (d : List ℕ) (es : List Entry) (a : Bool) (out : List Message)
    (r : Run (Unit {0})) : Type 0 where
  pub sorted : List Entry
  pub perm : Perm sorted es
  pub ascending : IsSorted sorted
  pub stored : All (λ x. IsStored d x.0 x.1) sorted
  pub same_room : room (students sorted) ≡ room (students es)
  pub same_length : length sorted ≡ length es
  pub run : Reads d (index_bytes (slots_of sorted)) a out tt r

-- On files in order with no slot of a deleted record, where all roll numbers are below `min_roll`
-- and no call of the C library fails, `sort` ends, and leaves the same entries in ascending order
-- of the roll numbers, and the data file as it is.
pub sort-Ordered :
    {d i : List ℕ} (es : List Entry) (dp : ℕ) (a : Bool) (out : List Message)
    → Indexed d i (slots_of es)
    → All IsLow es
    → Ordered d es a out (sort (files d dp a i 0 out))
sort-Ordered {d} {i} es dp a out l low =
    let n = length (live (slots_of es)) in
    let o =
      sort-Sorted d a out n l.data_small es dp (AllStored-slots_of d es l.stored) low
        (omega (arith, length-index l, l.index_small, length-slots_of es))
        (length-live-slots_of es) in
    record {
      sorted = o.sorted;
      perm = o.perm;
      ascending = o.ascending;
      stored = o.stored;
      same_room = o.same_room;
      same_length = o.same_length;
      run =
          subst₂
            (λ c bs.
              Reads d (int_bytes c ++ entry_bytes o.sorted) a out tt (sort (files d dp a bs 0 out)))
            (let e : n ≡ length (live (slots_of o.sorted)) =
                omega
                  (arith, length-live-slots_of es, length-live-slots_of o.sorted, o.same_length) in
              e)
            (sym l.index) o.run;
    }
