-- ===== src/Students/Sort/High.antt =====
-- `sort` on roll numbers from `min_roll` on.
use the_operating_system.Common.{
  ℕ, zero, suc, ◌+◌, ◌*◌, ◌≤◌, ◌<◌, ◌≡◌, refl, sym, subst, Bool, List, [], ◌∷◌, arith, inl, inr,
  length, drop, eq→==, lt→ltb,
}
use the_operating_system.Common.Bytes.{signed_key}
use the_operating_system.Posix.{Message}
use the_operating_system.Posix.Calls.{files, count_checked, seek_index}
use the_operating_system.Students.Record.{min_roll}
use the_operating_system.Students.Layout.{
  slots_bytes, live, IsStored, Indexed, max_file, length-index, drop-next_slot, Holds-count,
  drop-count, at,
}
use the_operating_system.Students.Search.Find.{Reads}
use the_operating_system.Students.Sort.{index_of_min, sort_round, sort_loop, sort}
use the_operating_system.Students.Sort.Entries.{
  Entry, slots_of, key, AllStored-slots_of, length-slots_of, length-live-slots_of,
}
use the_operating_system.Common.Selection.{All, All-tail_of}
use the_operating_system.Students.Sort.Minimum.{Outcome, min_loop-Outcome}

-- The entry has a roll number that is not below the initial minimum of `index_of_min`.
abbrev pub IsHigh : Entry → Type 0
IsHigh e = signed_key min_roll ≤ key e.1

module _ (d i : List ℕ) (a : Bool) (out : List Message) (small : length d < max_file) where
  Outcome-high : {p q : ℕ} (es : List Entry) → All IsHigh es → Outcome p min_roll p q es → q ≡ p
  Outcome-high es high (inl (same, all)) = same
  Outcome-high es high (inr m) = absurd (
      omega (
        arith,
        m.below,
        (All-tail_of IsHigh m.before m.after m.entry (subst (All IsHigh) m.split high)).0,
      ))

  index_of_min-high :
      (p dp ip : ℕ) (es : List Entry)
      → drop p i ≡ slots_bytes (slots_of es)
      → All (λ x. IsStored d x.0 x.1) es
      → All IsHigh es
      → p < max_file
      → Reads d i a out p (index_of_min p (p + 8 * length es) (files d dp a i ip out))
  unfolding index_of_min
  index_of_min-high p dp ip es h st high small_p =
      let (q, o, (dp', ip', r)) =
        min_loop-Outcome d i a out small (suc (p + 8 * length es)) (p + 8 * length es) p min_roll p
          dp es h st refl (omega arith) in
      (dp', ip', rw (seek_index _ _ _ _ _ _ p (omega arith), r, Outcome-high es high o) refl)

  sort_loop-high :
      (k j p dp ip : ℕ) (es : List Entry)
      → p ≡ 4 + 8 * j
      → drop p i ≡ slots_bytes (slots_of es)
      → All (λ x. IsStored d x.0 x.1) es
      → All IsHigh es
      → p + 8 * length es < max_file
      → length es ≡ k
      → Reads d i a out tt (sort_loop k (p + 8 * length es) j (files d dp a i ip out))
  unfolding sort_loop sort_round
  sort_loop-high zero j p dp ip es place h st high few len = (dp, ip, refl)
  sort_loop-high (suc k) j p dp ip [] place h st high few len = absurd (omega arith)
  sort_loop-high (suc k) j p dp ip ((off, s) ∷ es) place h st high few len =
      let (dp', ip', r) = index_of_min-high p dp ip ((off, s) ∷ es) h st high (omega arith) in
      let next =
        sort_loop-high k (j + 1) (p + 8) dp' ip' es (omega arith)
          (drop-next_slot i p (at off s) (slots_of es) h) st.1 high.1 (omega arith) (omega arith) in
      let end_same : p + 8 + 8 * length es ≡ p + 8 * length ((off, s) ∷ es) = omega arith in
      rw (sym place, r, eq→== p p refl)
        (subst (λ end. Reads d i a out tt (sort_loop k end (j + 1) (files d dp' a i ip' out)))
          end_same next)

-- On files in order with no slot of a deleted record, where no roll number is below `min_roll` and
-- no call of the C library fails, `sort` leaves both files as they are, in whatever order the roll
-- numbers stand.
pub sort-keeps :
    {d i : List ℕ} (es : List Entry) (dp : ℕ) (a : Bool) (out : List Message)
    → Indexed d i (slots_of es)
    → All IsHigh es
    → Reads d i a out tt (sort (files d dp a i 0 out))
unfolding sort
sort-keeps {d} {i} es dp a out l high =
    let n = length (live (slots_of es)) in
    let same = length-live-slots_of es in
    let end_same : 4 + 8 * length es ≡ 4 + n * 8 = omega (arith, same) in
    rw
      (
        count_checked d dp a i 0 out n (Holds-count l)
            (omega (arith, same, length-index l, length-slots_of es, l.index_small)),
        lt→ltb n 0x1000_0000
            (omega (arith, same, length-index l, length-slots_of es, l.index_small)),
      )
      (subst (λ end. Reads d i a out tt (sort_loop n end 0 (files d dp a i 4 out))) end_same
        (sort_loop-high d i a out l.data_small n 0 4 dp 4 es refl (drop-count l)
          (AllStored-slots_of d es l.stored) high
          (omega (arith, length-index l, length-slots_of es, l.index_small)) (sym same)))
