-- ===== src/Students/Sort/Minimum.antt =====
-- `index_of_min` against the least roll number of the entries.
use the_operating_system.Common.{
  ℕ, zero, suc, ◌+◌, ◌*◌, ◌≤◌, ◌<◌, ◌≡◌, refl, ◌⊎◌, inl, inr, Bool, true, false, List, [], ◌∷◌,
  arith, length, drop, if◌then◌else◌, lt→ltb, le→not_ltb, Bool-cases,
}
use the_operating_system.Common.Bytes.{signed_key, signed_ltb, signed_ltb→lt, not_signed_ltb→le}
use the_operating_system.Posix.{Message}
use the_operating_system.Posix.Calls.{files, seek_data, seek_index, off_checked, int_checked}
use the_operating_system.Students.Record.{Student, min_roll}
use the_operating_system.Students.Layout.{
  at, slots_bytes, IsStored, max_file, Holds-slot, Holds-roll, IsStored-lt, drop-next_slot,
}
use the_operating_system.Students.Search.Find.{Reads}
use the_operating_system.Students.Sort.{min_loop, index_of_min}
use the_operating_system.Students.Sort.Entries.{Entry, slots_of, key, Least, Least-cons}
use the_operating_system.Common.Selection.{All}

-- What the loop returns: the best offset so far, if no roll number is below the least so far, or
-- that of an entry with the least roll number.
abbrev pub Outcome : (p least best q : ℕ) → List Entry → Type 0
Outcome p least best q es =
    ((q ≡ best) × All (λ x. signed_key least ≤ key x.1) es) ⊎ Least p (signed_key least) q es

Outcome-smaller :
    {p best q : ℕ} (least : ℕ) (e : Entry) (es : List Entry)
    → signed_ltb e.1.roll least ≡ true
    → Outcome (p + 8) e.1.roll p q es
    → Outcome p least best q (e ∷ es)
Outcome-smaller least e es h (inl (same, all)) = inr (record {
  before = [];
  after = es;
  entry = e;
  split = refl;
  place = omega (arith, same);
  below = signed_ltb→lt e.1.roll least h;
  least = (omega arith, all);
})
Outcome-smaller least e es h (inr m) = inr (
    Least-cons e (signed_key least) (omega arith) (omega (arith, signed_ltb→lt e.1.roll least h)) m)

Outcome-other :
    {p best q : ℕ} (least : ℕ) (e : Entry) (es : List Entry)
    → signed_ltb e.1.roll least ≡ false
    → Outcome (p + 8) least best q es
    → Outcome p least best q (e ∷ es)
Outcome-other least e es h (inl (same, all)) = inl (same, (not_signed_ltb→le e.1.roll least h, all))
Outcome-other least e es h (inr m) =
    inr (Least-cons e (signed_key least) (not_signed_ltb→le e.1.roll least h) (omega arith) m)

module _ (d i : List ℕ) (a : Bool) (out : List Message) (small : length d < max_file) where
  min_loop-round :
      (k end p least best dp off : ℕ) (s : Student) (es : List Entry)
      → drop p i ≡ slots_bytes (slots_of ((off, s) ∷ es))
      → IsStored d off s
      → p < end
      → min_loop (suc k) end p least best (files d dp a i p out)
        ≡ min_loop k end
            (p + 8)
            (if signed_ltb s.roll least then s.roll else least)
            (if signed_ltb s.roll least then p else best)
            (files d (off + 4) a i (p + 8) out)
  unfolding min_loop
  min_loop-round k end p least best dp off s es e st more =
      let b = IsStored-lt small st in
      rw (
        lt→ltb p end more,
        off_checked _ _ _ _ _ _ off (Holds-slot (at off s) (slots_of es) e) (omega arith),
        seek_data _ _ _ _ _ _ off (omega arith),
        int_checked _ _ _ _ _ _ s.roll (Holds-roll st) st.student.roll_fits,
      )

  pub min_loop-Outcome :
      (k end p least best dp : ℕ) (es : List Entry)
      → drop p i ≡ slots_bytes (slots_of es)
      → All (λ e. IsStored d e.0 e.1) es
      → p + 8 * length es ≡ end
      → length es < k
      → (q : ℕ) × Outcome p least best q es
        × Reads d i a out q (min_loop k end p least best (files d dp a i p out))
  min_loop-Outcome zero end p least best dp es e st len fuel = absurd (omega arith)
  min_loop-Outcome (suc k) end p least best dp [] e st len fuel =
      (best, inl (refl, tt), min_loop-end)
    where
      min_loop-end : Reads d i a out best (min_loop (suc k) end p least best (files d dp a i p out))
      min_loop-end = unfold min_loop in rw (le→not_ltb p end (omega arith)) (dp, p, refl)
  min_loop-Outcome (suc k) end p least best dp ((off, s) ∷ es) e st len fuel =
      let step = min_loop-round k end p least best dp off s es e st.0 (omega arith) in
      let go = λ (least' best' : ℕ).
        min_loop-Outcome k end (p + 8) least' best' (off + 4) es
          (drop-next_slot i p (at off s) (slots_of es) e) st.1 (omega arith) (omega arith) in
      elim (Bool-cases (signed_ltb s.roll least)) [
        | inl less ↦
            let (q, o, r) = go s.roll p in
            (q, Outcome-smaller least (off, s) es less o, rw (step, less) r)
        | inr more ↦
            let (q, o, r) = go least best in
            (q, Outcome-other least (off, s) es more o, rw (step, more) r)
      ]

  -- Where the index file lists the entries from the offset `p` to its end, the first of them has a
  -- roll number below `min_roll`, and no call of the C library fails, `index_of_min` ends, writes
  -- to neither file, and returns the offset of an entry with the least roll number.
  pub index_of_min-Least :
      (p dp ip : ℕ) (e : Entry) (es : List Entry)
      → drop p i ≡ slots_bytes (slots_of (e ∷ es))
      → All (λ x. IsStored d x.0 x.1) (e ∷ es)
      → key e.1 < signed_key min_roll
      → p < max_file
      → (q : ℕ) × Least p (signed_key min_roll) q (e ∷ es)
        × Reads d i a out q (index_of_min p (p + 8 * length (e ∷ es)) (files d dp a i ip out))
  unfolding index_of_min
  index_of_min-Least p dp ip e es h st low small_p =
      let (q, o, r) =
        min_loop-Outcome (suc (p + 8 * length (e ∷ es))) (p + 8 * length (e ∷ es)) p min_roll p dp
          (e ∷ es) h st refl (omega arith) in
      (q, least o, rw (seek_index _ _ _ _ _ _ p (omega arith)) r)
    where
      least : {q : ℕ} → Outcome p min_roll p q (e ∷ es) → Least p (signed_key min_roll) q (e ∷ es)
      least (inl (same, all)) = absurd (omega (arith, all.0))
      least (inr m) = m
