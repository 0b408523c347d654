-- ===== src/Students/Compaction/Buffers.antt =====
-- The loop of `compaction`, which gathers the buffers.
use the_operating_system.Common.{
  ℕ, zero, suc, ◌+◌, ◌-◌, ◌*◌, ◌/◌, ◌%◌, ◌≤◌, ◌<◌, ◌≡◌, refl, ap, ap₂, sym, subst₂, ◌∙◌, inl, inr,
  Bool, false, List, [], ◌∷◌, ◌++◌, arith, append_assoc, append-nil, length, length-append,
  take-append, drop, lt→ltb, le→leb, eq→==, ne→==, le→not_ltb,
}
use the_operating_system.Common.Bytes.{off_minus_one, int_minus_one}
use the_operating_system.Posix.{Message, Run, ok, undefined}
use the_operating_system.Posix.Calls.{files, seek_data, off_unchecked, int_unchecked}
use the_operating_system.Students.Record.{Student, name_len, record_bytes}
use the_operating_system.Students.Layout.{
  Slot, gone, at, slots_bytes, live, room, AllStored, IsStored, max_file, Holds-slot, Holds-roll,
  IsStored-lt, drop-next_slot, length-record_bytes,
}
use the_operating_system.Students.Search.Find.{Reads}
use the_operating_system.Students.Print.Laws.{Holds-len, name_read}
use the_operating_system.Students.Compaction.{Behind, clobber, read_intobuffer, gather}
use the_operating_system.Students.Compaction.Packed.{offsets, records_bytes}
use the_operating_system.Students.Compaction.Counted.{Trimmed, Trailing, count_after}

pub Reads-cast :
    {A : Type 0} {d i : List ℕ} {a : Bool} {out : List Message} {x y : A} {r r' : Run A}
    → x ≡ y
    → r ≡ r'
    → Reads d i a out x r
    → Reads d i a out y r'
Reads-cast {d} {i} {a} {out} e e' h = subst₂ (λ u v. Reads d i a out u v) e e' h

pub set-offsets :
    (n : ℕ) (set buff : List ℕ) (s : Student) (ss : List Student)
    → ◌≡◌ {A = ℕ × List ℕ × List ℕ}
        (
          n,
          (set ++ ((length buff + 4) ∷ [])) ++ offsets (length (buff ++ record_bytes s) + 4) ss,
          (buff ++ record_bytes s) ++ records_bytes ss,
        )
        (n, set ++ offsets (length buff + 4) (s ∷ ss), buff ++ records_bytes (s ∷ ss))
set-offsets n set buff s ss =
    let further : length (buff ++ record_bytes s) + 4 ≡ length buff + 4 + (8 + name_len s) =
      omega (arith, length-append buff (record_bytes s), length-record_bytes s) in
    ap₂ (λ u v. (n, u, v))
      (append_assoc set ((length buff + 4) ∷ []) (offsets (length (buff ++ record_bytes s) + 4) ss)
        ∙ ap (λ o. set ++ ((length buff + 4) ∷ offsets o ss)) further)
      (append_assoc buff (record_bytes s) (records_bytes ss))

module _ (behind : Behind) (d i : List ℕ) (out : List Message) (small : length d < max_file) where
  pub read_intobuffer-ok :
      (cap dp ip off : ℕ) (s : Student)
      → IsStored d off s
      → 8 + name_len s ≤ cap
      → read_intobuffer cap off (files d dp false i ip out)
        ≡ ok (record_bytes s) (files d (off + 4 + 4 + name_len s) false i ip out)
  unfolding read_intobuffer
  read_intobuffer-ok cap dp ip off s st fits =
      let b = IsStored-lt small st in
      rw
        (
          lt→ltb off 0x8000_0000 (omega arith),
          seek_data _ _ _ _ _ _ off (omega arith),
          int_unchecked _ _ _ _ _ _ s.roll (Holds-roll st) st.student.roll_fits,
          int_unchecked _ _ _ _ _ _ (name_len s) (Holds-len st)
              (omega (arith, st.student.name_fits)),
          le→leb (8 + name_len s) cap fits,
          name_read d i false off ip out s st,
          eq→== (length (s.fname ++ (0 ∷ []))) (name_len s) (length-append s.fname (0 ∷ [])),
        )
        refl

  -- A round at the slot of a deleted record passes over it.
  gather-gone :
      (k end n cap m p dp : ℕ) (xs : List Slot) (set unset buff : List ℕ)
      → drop p i ≡ slots_bytes (gone ∷ xs)
      → p < end
      → length set < n
      → gather behind
          (suc k)
          end
          n
          cap
          m
          p
          (length set)
          (set ++ unset)
          buff
          (files d dp false i p out)
        ≡ gather behind k end n cap
            (clobber behind m int_minus_one)
            (p + 8)
            (length set)
            (set ++ ((length buff + 4) ∷ []))
            buff
            (files d dp false i (p + 8) out)
  unfolding gather
  gather-gone k end n cap m p dp xs set unset buff e more space = rw (
    lt→ltb p end more,
    lt→ltb (length set) n space,
    off_unchecked _ _ _ _ _ _ off_minus_one (Holds-slot gone xs e) (omega arith),
    take-append set unset,
  )

  -- A round at the slot of a record sets its entry, and takes the record into the buffer.
  gather-at :
      (k end n cap m p dp off : ℕ) (s : Student) (xs : List Slot) (set unset buff : List ℕ)
      → drop p i ≡ slots_bytes (at off s ∷ xs)
      → IsStored d off s
      → p < end
      → length set < n
      → length buff + (8 + name_len s) ≤ cap
      → gather behind
          (suc k)
          end
          n
          cap
          m
          p
          (length set)
          (set ++ unset)
          buff
          (files d dp false i p out)
        ≡ gather behind k end n cap
            (clobber behind m 0)
            (p + 8)
            (length (set ++ ((length buff + 4) ∷ [])))
            ((set ++ ((length buff + 4) ∷ [])) ++ [])
            (buff ++ record_bytes s)
            (files d (off + 4 + 4 + name_len s) false i (p + 8) out)
  unfolding gather
  gather-at k end n cap m p dp off s xs set unset buff e st more space fits =
      let b = IsStored-lt small st in
      let low : off % 0x1_0000_0000 ≡ off = omega arith in
      let high : off / 0x1_0000_0000 ≡ 0 = omega arith in
      rw
        (
          lt→ltb p end more,
          lt→ltb (length set) n space,
          off_unchecked _ _ _ _ _ _ off (Holds-slot (at off s) xs e) (omega arith),
          low,
          high,
          ne→== off int_minus_one (omega arith),
          read_intobuffer-ok (cap - length buff) dp (p + 8) off s st (omega arith),
          take-append set unset,
        )
        (ap₂
          (λ j idx.
            gather behind k end n cap (clobber behind m 0) (p + 8) j idx (buff ++ record_bytes s)
              (files d (off + 4 + 4 + name_len s) false i (p + 8) out))
          (sym (length-append set ((length buff + 4) ∷ [])))
          (sym (append-nil (set ++ ((length buff + 4) ∷ [])))))

  pub gather-packed :
      (k : ℕ) (slots : List Slot) (end n cap m p dp : ℕ) (set unset data_buff : List ℕ)
      → drop p i ≡ slots_bytes slots
      → AllStored d slots
      → Trimmed slots
      → (slots ≡ [] → unset ≡ [])
      → p + 8 * length slots ≡ end
      → n ≡ length set + length (live slots)
      → length data_buff + room (live slots) ≤ cap
      → length slots < k
      → Reads d i false out
          (
            count_after behind m slots,
            set ++ offsets (length data_buff + 4) (live slots),
            data_buff ++ records_bytes (live slots),
          )
          (gather behind k end n cap m p
            (length set)
            (set ++ unset)
            data_buff
            (files d dp false i p out))
  unfolding gather
  gather-packed zero slots end n cap m p dp set unset buff e st tr none_unset len count fits fuel =
      absurd (omega arith)
  gather-packed (suc k) [] end n cap m p dp set unset buff e st tr none_unset len count fits fuel =
      rw (le→not_ltb p end (omega arith), none_unset refl, append-nil)
        (dp, p, ap (λ bs. ok (m, set, bs) (files d dp false i p out)) (sym (append-nil buff)))
  gather-packed (suc k) (gone ∷ xs) end n cap m p dp set unset buff e st tr none_unset len count
        fits fuel =
      Reads-cast refl
        (sym
          (gather-gone k end n cap m p dp xs set unset buff e (omega arith) (omega (arith, tr.0))))
        (gather-packed k xs end n cap (clobber behind m int_minus_one) (p + 8) dp set
          ((length buff + 4) ∷ []) buff (drop-next_slot i p gone xs e) st tr.1
          (λ none_left. absurd (omega (arith, tr.0, ap (λ ys. length (live ys)) none_left)))
          (omega arith) count fits (omega arith))
  gather-packed (suc k) (at off s ∷ xs) end n cap m p dp set unset buff e st tr none_unset len count
        fits fuel =
      Reads-cast (set-offsets (count_after behind (clobber behind m 0) xs) set buff s (live xs))
        (sym (
          gather-at k end n cap m p dp off s xs set unset buff e st.0 (omega arith) (omega arith)
            (omega arith)))
        (gather-packed k xs end n cap (clobber behind m 0) (p + 8) (off + 4 + 4 + name_len s)
          (set ++ ((length buff + 4) ∷ [])) [] (buff ++ record_bytes s)
          (drop-next_slot i p (at off s) xs e) st.1 tr (λ _. refl) (omega arith)
          (omega (arith, length-append set ((length buff + 4) ∷ [])))
          (omega (arith, length-append buff (record_bytes s), length-record_bytes s)) (omega arith))

  -- At the slot of a deleted record behind the last live one the loop writes behind `idx_buff`.
  pub gather-overflow :
      (k : ℕ) (slots : List Slot) (end n cap m p dp : ℕ) (set unset data_buff : List ℕ)
      → drop p i ≡ slots_bytes slots
      → AllStored d slots
      → Trailing slots
      → p + 8 * length slots ≡ end
      → n ≡ length set + length (live slots)
      → length data_buff + room (live slots) ≤ cap
      → length slots < k
      → gather behind k end n cap m p
          (length set)
          (set ++ unset)
          data_buff
          (files d dp false i p out)
        ≡ undefined
  unfolding gather
  gather-overflow zero slots end n cap m p dp set unset buff e st tr len count fits fuel =
      absurd (omega arith)
  gather-overflow (suc k) [] end n cap m p dp set unset buff e st tr len count fits fuel = absurd tr
  gather-overflow (suc k) (gone ∷ xs) end n cap m p dp set unset buff e st (inl none_left) len count
        fits fuel =
      rw (lt→ltb p end (omega arith), le→not_ltb (length set) n (omega (arith, none_left)))
  gather-overflow (suc k) (gone ∷ xs) end n cap m p dp set unset buff e st (inr (more, tr)) len
        count fits fuel =
      gather-gone k end n cap m p dp xs set unset buff e (omega arith) (omega (arith, more))
      ∙ gather-overflow k xs end n cap (clobber behind m int_minus_one) (p + 8) dp set
          ((length buff + 4) ∷ []) buff (drop-next_slot i p gone xs e) st tr (omega arith) count
          fits (omega arith)
  gather-overflow (suc k) (at off s ∷ xs) end n cap m p dp set unset buff e st tr len count fits
        fuel =
      gather-at k end n cap m p dp off s xs set unset buff e st.0 (omega arith) (omega arith)
        (omega arith)
      ∙ gather-overflow k xs end n cap (clobber behind m 0) (p + 8) (off + 4 + 4 + name_len s)
          (set ++ ((length buff + 4) ∷ [])) [] (buff ++ record_bytes s)
          (drop-next_slot i p (at off s) xs e) st.1 tr (omega arith)
          (omega (arith, length-append set ((length buff + 4) ∷ [])))
          (omega (arith, length-append buff (record_bytes s), length-record_bytes s)) (omega arith)
