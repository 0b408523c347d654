-- ===== src/Students/Compaction/Faults.antt =====
-- `compaction` where some call of the C library fails.
use the_operating_system.Common.{
  ℕ, zero, suc, ◌+◌, ◌-◌, ◌/◌, ◌%◌, ◌<◌, ◌≡◌, refl, ap, ap₂, sym, ◌∙◌, Bool, List, [], ◌++◌, arith,
  length, ltb, leb, lt→ltb, ◌==◌, le→leb,
}
use the_operating_system.Common.Bytes.{int_bytes, int_minus_one, widen, le_value-int_bytes}
use the_operating_system.Posix.{
  datafd, indexfd, Message, World, pure, or_exit, splice, seek_set, read, read_unchecked,
  undefined_behaviour,
}
use the_operating_system.Posix.Writing.{splice_end}
use the_operating_system.Students.Record.{Student}
use the_operating_system.Students.Layout.{
  Slot, live, index_bytes, Indexed, Holds-count, length-index, length-live-le,
}
use the_operating_system.Students.Faults.{
  world, Ends, open_data-Ends, open_index-Ends, empty_data-Ends, empty_index-Ends, end_data-Ends,
  end_index-Ends, seek_index-Ends, read_index-Ends, write_data-Ends, write_index-Ends,
}
use the_operating_system.Students.Faults.Reading.{
  Reading, both_out_of_fuel, bind-Reading, pure-Reading, undefined-Reading, if-Reading,
  seek_set-Reading, read-Reading, read_unchecked-Reading, Reading-Ends,
}
use the_operating_system.Students.Compaction.Packed.{
  offsets, packed, records_bytes, kept, kept_data, length-kept, take-offsets, encode_slots-offsets,
  length-offsets, live-packed,
}
use the_operating_system.Students.Compaction.Counted.{Trimmed}
use the_operating_system.Students.Compaction.Laws.{gather-all}
use the_operating_system.Students.Compaction.{
  Behind, clobber, store, encode_slots, read_name, read_intobuffer, gather, rewrite, compaction,
}

module _ (d i : List ℕ) (out : List Message) where
  read_name-Reading :
      (room rollno fname_len : ℕ) → Reading d i out (read_name room rollno fname_len)
  unfolding read_name
  read_name-Reading room rollno fname_len =
      if-Reading d i out (leb (8 + fname_len) room) _ undefined_behaviour
        (bind-Reading d i out (or_exit (read datafd fname_len)) _
          (read-Reading d i out datafd fname_len)
          (λ fname.
            if-Reading d i out (length fname == fname_len)
              (pure (int_bytes rollno ++ (int_bytes fname_len ++ fname))) undefined_behaviour
              (pure-Reading d i out (int_bytes rollno ++ (int_bytes fname_len ++ fname)))
              (undefined-Reading d i out)))
        (undefined-Reading d i out)

  read_intobuffer-Reading : (room idx : ℕ) → Reading d i out (read_intobuffer room idx)
  unfolding read_intobuffer
  read_intobuffer-Reading room idx =
      bind-Reading d i out (or_exit (seek_set datafd (widen idx))) _
        (seek_set-Reading d i out datafd (widen idx))
        (λ _.
          bind-Reading d i out (read_unchecked datafd 4) _ (read_unchecked-Reading d i out datafd 4)
            (λ rollno.
              bind-Reading d i out (read_unchecked datafd 4) _
                (read_unchecked-Reading d i out datafd 4)
                (λ fname_len. read_name-Reading room rollno fname_len)))

  gather-Reading :
      (behind : Behind) (fuel end entries cap n off_of_off place : ℕ) (idx_buff data_buff : List ℕ)
      → Reading d i out (gather behind fuel end entries cap n off_of_off place idx_buff data_buff)
  unfolding gather
  gather-Reading behind zero end entries cap n p j idx_buff data_buff = λ dp ip r. both_out_of_fuel
  gather-Reading behind (suc k) end entries cap n p j idx_buff data_buff =
      let idx_buff' = store idx_buff j (length data_buff + 4) in
      if-Reading d i out (ltb p end) _ (pure (n, idx_buff, data_buff))
        (if-Reading d i out (ltb j entries) _ undefined_behaviour
          (bind-Reading d i out (read_unchecked indexfd 8) _
            (read_unchecked-Reading d i out indexfd 8)
            (λ slot.
              if-Reading d i out (slot % 0x1_0000_0000 == int_minus_one)
                (gather behind k end entries cap (clobber behind n (slot / 0x1_0000_0000)) (p + 8) j
                  idx_buff' data_buff)
                _
                (gather-Reading behind k end entries cap (clobber behind n (slot / 0x1_0000_0000))
                  (p + 8) j idx_buff' data_buff)
                (bind-Reading d i out
                  (read_intobuffer (cap - length data_buff) (slot % 0x1_0000_0000)) _
                  (read_intobuffer-Reading (cap - length data_buff) (slot % 0x1_0000_0000))
                  (λ bytes.
                    gather-Reading behind k end entries cap
                      (clobber behind n (slot / 0x1_0000_0000)) (p + 8) (j + 1) idx_buff'
                      (data_buff ++ bytes)))))
          (undefined-Reading d i out))
        (pure-Reading d i out (n, idx_buff, data_buff))

-- What `compaction` leaves of the files `d` and `i` with the students `ss` where it exits.
pub data Left (behind : Behind) (d i : List ℕ) (ss : List Student) (d' i' : List ℕ) : Type 0 where
  untouched : d' ≡ d → i' ≡ i → Left behind d i ss d' i'
  index_emptied : d' ≡ d → i' ≡ [] → Left behind d i ss d' i'
  both_emptied : d' ≡ [] → i' ≡ [] → Left behind d i ss d' i'
  index_counted : d' ≡ [] → i' ≡ int_bytes (length (kept behind ss)) → Left behind d i ss d' i'
  index_written : d' ≡ [] → i' ≡ index_bytes (packed 4 (kept behind ss)) → Left behind d i ss d' i'
  data_counted :
      d' ≡ int_bytes (length (kept behind ss))
      → i' ≡ index_bytes (packed 4 (kept behind ss))
      → Left behind d i ss d' i'

abbrev pub Compacted : Behind → List Student → ℕ → World → Type 0
Compacted behind ss r w =
    (r ≡ 0)
    × (w.data_file.bytes ≡ kept_data behind ss)
    × (w.index_file.bytes ≡ index_bytes (packed 4 (kept behind ss)))

abbrev pub LeftBy : Behind → (d i : List ℕ) → List Student → World → Type 0
LeftBy behind d i ss w = Left behind d i ss w.data_file.bytes w.index_file.bytes

splice-nil : (bs : List ℕ) → splice [] 0 bs ≡ bs
splice-nil bs = splice_end [] bs

module _ (behind : Behind) (d i : List ℕ) (ss : List Student) where
  abbrev ks : List Student
  ks = kept behind ss

  abbrev count : List ℕ
  count = int_bytes (length ks)

  abbrev slots : List ℕ
  slots = encode_slots (offsets 4 ks)

  index-written : splice (splice [] 0 count) 4 slots ≡ index_bytes (packed 4 ks)
  index-written =
      ap (λ bs. splice bs 4 slots) (splice-nil count)
      ∙ splice_end count slots
      ∙ ap₂ (λ n bs. int_bytes (length n) ++ bs) (sym (live-packed 4 ks))
          (encode_slots-offsets 4 ks)

  data-written : splice (splice [] 0 count) 4 (records_bytes ss) ≡ kept_data behind ss
  data-written =
      ap (λ bs. splice bs 4 (records_bytes ss)) (splice-nil count)
      ∙ splice_end count (records_bytes ss)

  rewrite-Ends :
      (dp ip : ℕ) (faults : List Bool) (out : List Message)
      → Ends
          (Compacted behind ss)
          (LeftBy behind d i ss)
          (rewrite (length ks) (offsets 4 ss) (records_bytes ss) (world d dp i ip faults out))
  unfolding rewrite
  rewrite-Ends dp ip faults out =
      let Q = Compacted behind ss in
      let E = LeftBy behind d i ss in
      empty_index-Ends Q E d dp i ip faults out (λ r. untouched refl refl) _
        (λ r1.
          empty_data-Ends Q E d dp [] 0 r1 out (λ r. index_emptied refl refl) _
            (λ r2.
              write_index-Ends Q E [] 0 [] 0 r2 out (λ r. both_emptied refl refl) count _
                (λ r3.
                  rw
                    (
                      le→leb (length ks) (length (offsets 4 ss))
                          (omega (arith, length-offsets 4 ss, length-kept behind ss)),
                      take-offsets behind ss,
                    )
                    (write_index-Ends Q E [] 0 (splice [] 0 count) 4 r3 out
                      (λ r. index_counted refl (splice-nil count)) slots _
                      (λ r4.
                        write_data-Ends Q E [] 0 _ _ r4 out (λ r. index_written refl index-written)
                          count _
                          (λ r5.
                            write_data-Ends Q E (splice [] 0 count) 4 _ _ r5 out
                              (λ r. data_counted (splice-nil count) index-written)
                              (records_bytes ss) _ (λ r6. (refl, data-written, index-written))))))))

-- Whichever calls of the C library fail: on files in order with no slot of a deleted record behind the
-- last live one, `compaction` returns 0, with the records of the same students one behind the other and
-- an index of just their offsets, or it exits. Where it exits, the files are as they were, or the index
-- file is empty, or the data file has no record: it is empty, or has the count alone. So it is where
-- nothing in use stands behind `idx`; where `n` does, the counts that it writes are 0, and the index
-- has no offset.
pub compaction-leaves :
    (behind : Behind) {d i : List ℕ} {slots : List Slot} (dp ip : ℕ) (faults : List Bool)
    (out : List Message)
    → Indexed d i slots
    → Trimmed slots
    → Ends
        (Compacted behind (live slots))
        (LeftBy behind d i (live slots))
        (compaction behind (world d dp i ip faults out))
unfolding compaction
compaction-leaves behind {d} {i} {slots} dp ip faults out l tr =
    let Q = Compacted behind (live slots) in
    let E = LeftBy behind d i (live slots) in
    let n = length (live slots) in
    let few : n < 0x8000_0000 =
      omega (arith, length-live-le slots, length-index l, l.index_small) in
    open_index-Ends Q E d dp i ip faults out (λ r. untouched refl refl) _
      (λ r1.
        open_data-Ends Q E d dp i 0 r1 out (λ r. untouched refl refl) _
          (λ r2.
            end_index-Ends Q E d 0 i 0 r2 out (λ r. untouched refl refl) _
              (λ r3.
                seek_index-Ends Q E d 0 i (length i) r3 out (λ r. untouched refl refl) 0 _
                  (omega arith)
                  (λ r4.
                    read_index-Ends Q E d 0 i 0 r4 out (λ r. untouched refl refl) n _ 4
                      (Holds-count l) (le_value-int_bytes n (omega (arith, few)))
                      (λ r5.
                        end_data-Ends Q E d 0 i 4 r5 out (λ r. untouched refl refl) _
                          (λ r6. rw (lt→ltb n 0x8000_0000 few) (
                            Reading-Ends d i out Q E
                              (gather behind (suc (length i)) (length i) n (length d) n 4 0 [] []) _
                              (
                                length (kept behind (live slots)),
                                offsets 4 (live slots),
                                records_bytes (live slots),
                              )
                              (length d) 4 r6
                              (gather-Reading d i out behind (suc (length i)) (length i) n
                                (length d) n 4 0 [] [])
                              (gather-all behind (length d) out l tr)
                              (λ dp' ip' r. untouched refl refl)
                              (λ dp' ip' r.
                                rewrite-Ends behind d i (live slots) dp' ip' r out))))))))
