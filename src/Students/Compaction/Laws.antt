-- ===== src/Students/Compaction/Laws.antt =====
-- `compaction` against the list of students.
use the_operating_system.Common.{
  ℕ, suc, ◌+◌, ◌≡◌, refl, Bool, false, List, [], ◌++◌, arith, length, lt→ltb, le→leb, sym,
}
use the_operating_system.Common.Bytes.{int_bytes}
use the_operating_system.Posix.{Message, undefined, open_file, open_trunc}
use the_operating_system.Posix.Calls.{files, seek_index, count_unchecked}
use the_operating_system.Posix.Writing.{end_data, end_index, append_data, append_index}
use the_operating_system.Students.Record.{Student}
use the_operating_system.Students.Layout.{
  Slot, slots_bytes, live, index_bytes, Indexed, Holds-count, drop-count, length-index,
  length-live-le,
}
use the_operating_system.Students.Search.Find.{Reads}
use the_operating_system.Students.Compaction.{Behind, encode_slots, gather, rewrite, compaction}
use the_operating_system.Students.Compaction.Packed.{
  offsets, packed, records_bytes, kept, kept_data, encode_slots-offsets, length-offsets,
  live-packed, length-kept, take-offsets,
}
use the_operating_system.Students.Compaction.Buffers.{gather-packed, gather-overflow}
use the_operating_system.Students.Compaction.Counted.{Trimmed, Trailing, count_after-kept}

rewrite-packed :
    (behind : Behind) (d : List ℕ) (dp : ℕ) (i : List ℕ) (ip : ℕ) (out : List Message)
    (ss : List Student)
    → Reads (kept_data behind ss) (index_bytes (packed 4 (kept behind ss))) false out 0 (
        rewrite
          (length (kept behind ss))
          (offsets 4 ss)
          (records_bytes ss)
          (files d dp false i ip out))
unfolding rewrite open_trunc
rewrite-packed behind d dp i ip out ss =
    let ks = kept behind ss in
    rw
      (
        append_index [] false [] out (int_bytes (length ks)) 0 0 refl,
        le→leb (length ks) (length (offsets 4 ss))
            (omega (arith, length-offsets 4 ss, length-kept behind ss)),
        take-offsets behind ss,
        append_index [] false (int_bytes (length ks)) out (encode_slots (offsets 4 ks)) 0 4 refl,
        append_data [] false (int_bytes (length ks) ++ encode_slots (offsets 4 ks)) out
            (int_bytes (length ks)) 0 (4 + length (encode_slots (offsets 4 ks))) refl,
        append_data (int_bytes (length ks)) false
            (int_bytes (length ks) ++ encode_slots (offsets 4 ks)) out (records_bytes ss) 4
            (4 + length (encode_slots (offsets 4 ks))) refl,
        encode_slots-offsets 4 ks,
        live-packed 4 ks,
      )
      (4 + length (records_bytes ss), 4 + length (slots_bytes (packed 4 ks)), refl)

pub gather-all :
    (behind : Behind) {d i : List ℕ} {slots : List Slot} (dp : ℕ) (out : List Message)
    → Indexed d i slots
    → Trimmed slots
    → Reads d i false out
        (length (kept behind (live slots)), offsets 4 (live slots), records_bytes (live slots))
        (gather behind
          (suc (length i))
          (length i)
          (length (live slots))
          (length d)
          (length (live slots))
          4
          0
          []
          []
          (files d dp false i 4 out))
gather-all behind {d} {i} {slots} dp out l tr = rw (sym (count_after-kept behind slots tr)) (
    gather-packed behind d i out l.data_small (suc (length i)) slots (length i)
      (length (live slots)) (length d) (length (live slots)) 4 dp [] [] [] (drop-count l) l.stored
      tr (λ _. refl) (omega (arith, length-index l)) (omega arith) (omega (arith, l.fits))
      (omega (arith, length-index l)))

-- On files in order with no slot of a deleted record behind the last live one, where no call of the C
-- library fails, `compaction` returns 0, and leaves a data file that holds the records of the same
-- students in the same order, one behind the other. Where nothing in use stands behind `idx`, the data
-- file has their count, and the index file has it and just their offsets. Where `n` does, both counts
-- are 0, and the index file has no offset.
pub compaction-packed :
    (behind : Behind) {d i : List ℕ} {slots : List Slot} (dp ip : ℕ) (a : Bool) (out : List Message)
    → Indexed d i slots
    → Trimmed slots
    → Reads
        (kept_data behind (live slots))
        (index_bytes (packed 4 (kept behind (live slots))))
        false
        out
        0
        (compaction behind (files d dp a i ip out))
unfolding compaction open_file
compaction-packed behind {d} {i} {slots} dp ip a out l tr =
    rw
      (
        end_index d 0 false i 0 out,
        seek_index _ _ _ _ _ _ 0 (omega arith),
        count_unchecked _ _ _ _ _ _ (length (live slots)) (Holds-count l)
            (omega (arith, length-live-le slots, length-index l, l.index_small)),
        end_data _ _ _ _ _ _,
        lt→ltb (length (live slots)) 0x8000_0000
            (omega (arith, length-live-le slots, length-index l, l.index_small)),
        (gather-all behind (length d) out l tr).2,
      )
      (rewrite-packed behind d _ i _ out (live slots))

-- On files in order with a slot of a deleted record behind all live ones, as after the deletion of
-- the last record, where no call of the C library fails, `compaction` writes behind the end of the
-- array `idx_buff`: it is undefined.
pub compaction-overflow :
    (behind : Behind) {d i : List ℕ} {slots : List Slot} (dp ip : ℕ) (a : Bool) (out : List Message)
    → Indexed d i slots
    → Trailing slots
    → compaction behind (files d dp a i ip out) ≡ undefined
unfolding compaction open_file
compaction-overflow behind {d} {i} {slots} dp ip a out l tr = rw (
  end_index d 0 false i 0 out,
  seek_index _ _ _ _ _ _ 0 (omega arith),
  count_unchecked _ _ _ _ _ _ (length (live slots)) (Holds-count l)
      (omega (arith, length-live-le slots, length-index l, l.index_small)),
  end_data _ _ _ _ _ _,
  lt→ltb (length (live slots)) 0x8000_0000
      (omega (arith, length-live-le slots, length-index l, l.index_small)),
  gather-overflow behind d i out l.data_small (suc (length i)) slots (length i)
      (length (live slots)) (length d) (length (live slots)) 4 (length d) [] [] [] (drop-count l)
      l.stored tr (omega (arith, length-index l)) (omega arith) (omega (arith, l.fits))
      (omega (arith, length-index l)),
)
