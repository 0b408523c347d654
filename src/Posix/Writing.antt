-- ===== src/Posix/Writing.antt =====
-- The same for `write`, at the end, at the start and in the middle of a file.
use the_operating_system.Common.{
  ℕ, ◌+◌, ◌-◌, ◌≡◌, Bool, true, false, some, List, ◌++◌, arith, if◌then◌else◌, length, drop,
  take-append, drop-append, drop-drop, take_of_le, drop_of_le, append-nil, length-append,
}
use the_operating_system.Posix.{datafd, indexfd, Message, ok, splice, seek_end, write}
use the_operating_system.Posix.Calls.{opened, files, if_same, seek_end-ok}

-- The bytes of a file after `bs` is written at its start; they go to its end in appending mode.
abbrev pub with_header : Bool → List ℕ → List ℕ → List ℕ
with_header true d bs = d ++ bs
with_header false d bs = bs ++ drop (length bs) d

pub splice_end : (f bs : List ℕ) → splice f (length f) bs ≡ f ++ bs
splice_end f bs =
    let e : length f - length f ≡ 0 = omega arith in
    rw (
      e,
      take_of_le (length f) f (omega arith),
      drop_of_le (length f + length bs) f (omega arith),
      append-nil,
      append-nil,
    )

pub splice_start : (f bs : List ℕ) → splice f 0 bs ≡ bs ++ drop (length bs) f
splice_start f bs =
    let e : 0 - length f ≡ 0 = omega arith in
    let e' : 0 + length bs ≡ length bs = omega arith in rw (e, e')

pub splice_middle :
    (pre mid post bs : List ℕ)
    → length mid ≡ length bs
    → splice (pre ++ (mid ++ post)) (length pre) bs ≡ pre ++ (bs ++ post)
splice_middle pre mid post bs h =
    let e : length pre - length (pre ++ (mid ++ post)) ≡ 0 =
      omega (arith, length-append pre (mid ++ post)) in
    rw (
      e,
      take-append pre (mid ++ post),
      append-nil,
      ← drop-drop (length bs) (length pre) (pre ++ (mid ++ post)),
      drop-append pre (mid ++ post),
      ← h,
      drop-append mid post,
    )

module _ (d : List ℕ) (a : Bool) (i : List ℕ) (out : List Message) (bs : List ℕ) where
  pub append_data :
      (dp ip : ℕ)
      → dp ≡ length d
      → write datafd bs (files d dp a i ip out)
        ≡ ok (some (length bs)) (files (d ++ bs) (length d + length bs) a i ip out)
  unfolding write
  append_data dp ip e = rw (e, if_same a (length d), splice_end d bs)

  pub append_index :
      (dp ip : ℕ)
      → ip ≡ length i
      → write indexfd bs (files d dp a i ip out)
        ≡ ok (some (length bs)) (files d dp a (i ++ bs) (length i + length bs) out)
  unfolding write
  append_index dp ip e = rw (e, splice_end i bs)

  pub header_index :
      (dp : ℕ)
      → write indexfd bs (files d dp a i 0 out)
        ≡ ok (some (length bs)) (files d dp a (bs ++ drop (length bs) i) (0 + length bs) out)
  unfolding write
  header_index dp = rw (splice_start i bs)

pub header_data :
    (a : Bool) (d i bs : List ℕ) (ip : ℕ) (out : List Message)
    → write datafd bs (files d 0 a i ip out)
      ≡ ok
          (some (length bs))
          (files (with_header a d bs) ((if a then length d else 0) + length bs) a i ip out)
unfolding write
header_data true d i bs ip out = rw (splice_end d bs)
header_data false d i bs ip out = rw (splice_start d bs)

pub middle_index :
    (d : List ℕ) (dp : ℕ) (a : Bool) (pre mid post bs : List ℕ) (ip : ℕ) (out : List Message)
    → ip ≡ length pre
    → length mid ≡ length bs
    → write indexfd bs (files d dp a (pre ++ (mid ++ post)) ip out)
      ≡ ok (some (length bs)) (files d dp a (pre ++ (bs ++ post)) (length pre + length bs) out)
unfolding write
middle_index d dp a pre mid post bs ip out e h = rw (e, splice_middle pre mid post bs h)

pub end_data :
    (d : List ℕ) (dp : ℕ) (a : Bool) (i : List ℕ) (ip : ℕ) (out : List Message)
    → seek_end datafd (files d dp a i ip out) ≡ ok (some (length d)) (files d (length d) a i ip out)
end_data d dp a i ip out = seek_end-ok datafd (opened d dp a) (opened i ip false) out

pub end_index :
    (d : List ℕ) (dp : ℕ) (a : Bool) (i : List ℕ) (ip : ℕ) (out : List Message)
    → seek_end indexfd (files d dp a i ip out)
      ≡ ok (some (length i)) (files d dp a i (length i) out)
end_index d dp a i ip out = seek_end-ok indexfd (opened d dp a) (opened i ip false) out
