-- ===== src/Students/Sort/Rounds.antt =====
-- One round of `sort`.
use mathlib.Core.List.{Perm}
use the_operating_system.Common.{
  ℕ, suc, ◌+◌, ◌*◌, ◌≤◌, ◌<◌, ◌≡◌, refl, ap, sym, subst, ◌∙◌, Bool, List, [], ◌∷◌, ◌++◌, arith,
  length, length-append, drop, drop-append, ◌==◌, if◌then◌else◌, eq→==, ne→==,
}
use the_operating_system.Common.Bytes.{signed_key}
use the_operating_system.Posix.{Message, Run, pure}
use the_operating_system.Posix.Calls.{files}
use the_operating_system.Students.Record.{min_roll}
use the_operating_system.Students.Layout.{room, IsStored, max_file, IsStored-lt}
use the_operating_system.Students.Search.Find.{Reads}
use the_operating_system.Students.Sort.{swap_slots, sort_round}
use the_operating_system.Students.Sort.Entries.{Entry, students, key, room-tail_of}
use the_operating_system.Common.Selection.{All, tail_of, All-tail_of, perm-tail_of, length-tail_of}
use the_operating_system.Students.Sort.Minimum.{index_of_min-Least}
use the_operating_system.Students.Sort.Swap.{
  listing, entry_bytes, listing-append, length-entry_bytes, swap_slots-Reads,
}

-- The entry has a roll number below the initial minimum of `index_of_min`.
abbrev pub IsLow : Entry → Type 0
IsLow e = key e.1 < signed_key min_roll

module _ (d : List ℕ) (a : Bool) (out : List Message) (n : ℕ) (small : length d < max_file) where
  -- One round puts an entry with the least roll number first.
  pub record Round (done es : List Entry) (r : Run (Unit {0})) : Type 0 where
    pub first : Entry
    pub rest : List Entry
    pub perm : Perm (first ∷ rest) es
    pub least : All (λ x. key first.1 ≤ key x.1) rest
    pub stored : All (λ x. IsStored d x.0 x.1) (first ∷ rest)
    pub same_room : room (students es) ≡ room (students (first ∷ rest))
    pub low : All IsLow rest
    pub same_length : length es ≡ suc (length rest)
    pub run : Reads d (listing n (done ++ (first ∷ rest))) a out tt r

  exchange :
      (done before after : List Entry) (x : Entry) (q dp ip : ℕ)
      → q ≡ 4 + 8 * length done + 8 * length before
      → q < max_file
      → All (λ y. IsStored d y.0 y.1) (before ++ (x ∷ after))
      → Reads d (listing n (done ++ (x ∷ tail_of before after))) a out tt (
          (if q == 4 + 8 * length done then pure tt else swap_slots (4 + 8 * length done) q)
            (files d dp a (listing n (done ++ (before ++ (x ∷ after)))) ip out))
  exchange done [] after x q dp ip place low st =
      rw (eq→== q (4 + 8 * length done) (omega arith)) (dp, ip, refl)
  exchange done (f ∷ mid) after x q dp ip place low st =
      rw (ne→== q (4 + 8 * length done) (omega arith)) (
        swap_slots-Reads d dp a ip out n done mid after f x (4 + 8 * length done) q refl place
          (omega arith) (omega (arith, IsStored-lt small st.0))
          (omega (
            arith,
            IsStored-lt small (All-tail_of (λ y. IsStored d y.0 y.1) (f ∷ mid) after x st).0,
          )))

  drop-done :
      (done es : List Entry) → drop (4 + 8 * length done) (listing n (done ++ es)) ≡ entry_bytes es
  drop-done done es =
      subst (λ k. drop k (listing n (done ++ es)) ≡ entry_bytes es)
        (let e : length (listing n done) ≡ 4 + 8 * length done =
            omega (arith, length-entry_bytes done) in
          e)
        (ap (drop (length (listing n done))) (listing-append n done es)
          ∙ drop-append (listing n done) (entry_bytes es))

  pub sort_round-Round :
      (done : List Entry) (e : Entry) (es : List Entry) (dp ip : ℕ)
      → All (λ x. IsStored d x.0 x.1) (e ∷ es)
      → All IsLow (e ∷ es)
      → 4 + 8 * length done + 8 * length (e ∷ es) < max_file
      → Round done (e ∷ es) (
          sort_round
            (4 + 8 * length done + 8 * length (e ∷ es))
            (length done)
            (files d dp a (listing n (done ++ (e ∷ es))) ip out))
  unfolding sort_round
  sort_round-Round done e es dp ip st low few =
      let (q, m, (dp', ip', run)) =
        index_of_min-Least d (listing n (done ++ (e ∷ es))) a out small (4 + 8 * length done) dp ip
          e es (drop-done done (e ∷ es)) st low.0 (omega arith) in
      let kept = λ (P : Entry → Type 0) (h : All P (e ∷ es)).
        All-tail_of P m.before m.after m.entry (subst (All P) m.split h) in
      record {
        first = m.entry;
        rest = tail_of m.before m.after;
        perm =
            subst (Perm (m.entry ∷ tail_of m.before m.after)) (sym m.split)
              (perm-tail_of m.before m.after m.entry);
        least = (kept (λ x. key m.entry.1 ≤ key x.1) m.least).1;
        stored = kept (λ x. IsStored d x.0 x.1) st;
        same_room = ap (λ l. room (students l)) m.split ∙ room-tail_of m.before m.after m.entry;
        low = (kept IsLow low).1;
        same_length = omega (
          arith,
          ap length m.split,
          length-append m.before (m.entry ∷ m.after),
          length-append m.before m.after,
          length-tail_of m.before m.after,
        );
        run = rw run (
            subst
              (λ l. Reads d (listing n (done ++ (m.entry ∷ tail_of m.before m.after))) a out tt (
                (if q == 4 + 8 * length done then pure tt else swap_slots (4 + 8 * length done) q)
                  (files d dp' a (listing n (done ++ l)) ip' out)))
              (sym m.split)
              (exchange done m.before m.after m.entry q dp' ip' m.place
                (omega
                  (arith, m.place, ap length m.split, length-append m.before (m.entry ∷ m.after)))
                (subst (All (λ x. IsStored d x.0 x.1)) m.split st)));
      }
