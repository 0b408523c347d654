-- ===== src/Posix/Calls.antt =====
-- What each call of the model of the C library returns on a world whose schedule of failures is
-- exhausted, at a position where the file holds the bytes of a number.
use the_operating_system.Common.{
  ℕ, ◌+◌, ◌<◌, ◌≡◌, refl, Bool, true, false, some, List, [], subst, if◌then◌else◌, length, Holds,
  slice-Holds, lt→ltb, eq→==,
}
use the_operating_system.Common.Bytes.{
  le_bytes, le_value, int_bytes, off_bytes, length-le_bytes, le_value-int_bytes, le_value-off_bytes,
}
use the_operating_system.Posix.{
  Fd, datafd, indexfd, File, Message, World, ok, file, set_file, seek_set, seek_cur, seek_end, read,
  read_checked, read_unchecked,
}

-- A file that is open, with its position and whether it is open for appending.
abbrev pub opened : List ℕ → ℕ → Bool → File
opened bs p a = record { present = true; bytes = bs; pos = p; append = a }

-- Both files open, and no more failures scheduled.
abbrev pub calm : File → File → List Message → World
calm d i out = record { data_file = d; index_file = i; faults = []; output = out }

abbrev pub moved : File → ℕ → File
moved f p = record f { pos = p }

module _ (fd : Fd) (d i : File) (out : List Message) where
  abbrev calm_file : File
  calm_file = file fd (calm d i out)

  abbrev with_file : File → World
  with_file f = set_file fd f (calm d i out)

  pub seek_set-ok :
      (off : ℕ)
      → off < 0x8000_0000_0000_0000
      → seek_set fd off (calm d i out) ≡ ok (some off) (with_file (moved calm_file off))
  unfolding seek_set
  seek_set-ok off h = rw (lt→ltb off 0x8000_0000_0000_0000 h)

  pub seek_cur-ok : seek_cur fd (calm d i out) ≡ ok (some calm_file.pos) (calm d i out)
  unfolding seek_cur
  seek_cur-ok = refl

  pub seek_end-ok :
      seek_end fd (calm d i out)
      ≡ ok (some (length calm_file.bytes)) (with_file (moved calm_file (length calm_file.bytes)))
  unfolding seek_end
  seek_end-ok = refl

  pub read-ok :
      (bs : List ℕ)
      → Holds calm_file.bytes calm_file.pos bs
      → read fd (length bs) (calm d i out)
        ≡ ok (some bs) (with_file (moved calm_file (calm_file.pos + length bs)))
  unfolding read
  read-ok bs h = rw (slice-Holds h)

  module _ (k n : ℕ) (h : Holds calm_file.bytes calm_file.pos (le_bytes k n))
      (e : le_value (le_bytes k n) ≡ n) where
    read_k :
        read fd k (calm d i out)
        ≡ ok (some (le_bytes k n)) (with_file (moved calm_file (calm_file.pos + k)))
    read_k =
        subst
          (λ m.
            read fd m (calm d i out)
            ≡ ok (some (le_bytes k n)) (with_file (moved calm_file (calm_file.pos + m))))
          (length-le_bytes k n) (read-ok (le_bytes k n) h)

    pub read_checked-ok :
        read_checked fd k (calm d i out) ≡ ok n (with_file (moved calm_file (calm_file.pos + k)))
    unfolding read_checked
    read_checked-ok = rw (read_k, length-le_bytes k n, eq→== k k refl, e)

    pub read_unchecked-ok :
        read_unchecked fd k (calm d i out) ≡ ok n (with_file (moved calm_file (calm_file.pos + k)))
    unfolding read_unchecked
    read_unchecked-ok = rw (read_k, length-le_bytes k n, eq→== k k refl, e)

-- Both files open, at the positions `dp` and `ip`; the index file is never open for appending.
abbrev pub files :
    (d : List ℕ) (dp : ℕ) (append : Bool) (i : List ℕ) (ip : ℕ) → List Message → World
files d dp append i ip out = calm (opened d dp append) (opened i ip false) out

module _ (d : List ℕ) (dp : ℕ) (a : Bool) (i : List ℕ) (ip : ℕ) (out : List Message) where
  pub seek_data :
      (off : ℕ)
      → off < 0x8000_0000_0000_0000
      → seek_set datafd off (files d dp a i ip out) ≡ ok (some off) (files d off a i ip out)
  seek_data = seek_set-ok datafd (opened d dp a) (opened i ip false) out

  pub seek_index :
      (off : ℕ)
      → off < 0x8000_0000_0000_0000
      → seek_set indexfd off (files d dp a i ip out) ≡ ok (some off) (files d dp a i off out)
  seek_index = seek_set-ok indexfd (opened d dp a) (opened i ip false) out

  pub tell_index : seek_cur indexfd (files d dp a i ip out) ≡ ok (some ip) (files d dp a i ip out)
  tell_index = seek_cur-ok indexfd (opened d dp a) (opened i ip false) out

  pub off_unchecked :
      (off : ℕ)
      → Holds i ip (off_bytes off)
      → off < 0x1_0000_0000_0000_0000
      → read_unchecked indexfd 8 (files d dp a i ip out) ≡ ok off (files d dp a i (ip + 8) out)
  off_unchecked off h small =
      read_unchecked-ok indexfd (opened d dp a) (opened i ip false) out 8 off h
        (le_value-off_bytes off small)

  pub off_checked :
      (off : ℕ)
      → Holds i ip (off_bytes off)
      → off < 0x1_0000_0000_0000_0000
      → read_checked indexfd 8 (files d dp a i ip out) ≡ ok off (files d dp a i (ip + 8) out)
  off_checked off h small =
      read_checked-ok indexfd (opened d dp a) (opened i ip false) out 8 off h
        (le_value-off_bytes off small)

  pub count_checked :
      (n : ℕ)
      → Holds i ip (int_bytes n)
      → n < 0x1_0000_0000
      → read_checked indexfd 4 (files d dp a i ip out) ≡ ok n (files d dp a i (ip + 4) out)
  count_checked n h small =
      read_checked-ok indexfd (opened d dp a) (opened i ip false) out 4 n h
        (le_value-int_bytes n small)

  pub count_unchecked :
      (n : ℕ)
      → Holds i ip (int_bytes n)
      → n < 0x1_0000_0000
      → read_unchecked indexfd 4 (files d dp a i ip out) ≡ ok n (files d dp a i (ip + 4) out)
  count_unchecked n h small =
      read_unchecked-ok indexfd (opened d dp a) (opened i ip false) out 4 n h
        (le_value-int_bytes n small)

  pub int_checked :
      (n : ℕ)
      → Holds d dp (int_bytes n)
      → n < 0x1_0000_0000
      → read_checked datafd 4 (files d dp a i ip out) ≡ ok n (files d (dp + 4) a i ip out)
  int_checked n h small =
      read_checked-ok datafd (opened d dp a) (opened i ip false) out 4 n h
        (le_value-int_bytes n small)

  pub int_unchecked :
      (n : ℕ)
      → Holds d dp (int_bytes n)
      → n < 0x1_0000_0000
      → read_unchecked datafd 4 (files d dp a i ip out) ≡ ok n (files d (dp + 4) a i ip out)
  int_unchecked n h small =
      read_unchecked-ok datafd (opened d dp a) (opened i ip false) out 4 n h
        (le_value-int_bytes n small)

pub if_same {ℓ} : {A : Type ℓ} (b : Bool) (x : A) → (if b then x else x) ≡ x
if_same true x = refl
if_same false x = refl
