-- ===== src/Students/Faults.antt =====
-- The calls of the C library on the two files of as1_os.c, where any of them may fail: what a run
-- does after a call, from what it does where the call succeeds and where it exits.
pub mod Reading
use the_operating_system.Common.{
  ℕ, ◌+◌, ◌<◌, ◌≡◌, subst, Bool, true, false, Option, List, [], ◌∷◌, refl, length, take, drop,
  Holds, slice-Holds, ◌==◌, eq→==, lt→ltb, if◌then◌else◌,
}
use the_operating_system.Common.Bytes.{le_bytes, le_value, length-le_bytes}
use the_operating_system.Posix.{
  datafd, indexfd, Message, World, Run, ok, exited, undefined, out_of_fuel, Cmd, pure, exit,
  and_then, or_exit, call, splice, open_file, open_trunc, seek_set, seek_cur, seek_end, read, write,
  read_checked, read_unchecked, undefined_behaviour,
}
use the_operating_system.Posix.Calls.{opened}

-- Both files open, not for appending, and any schedule of failures.
abbrev pub world : List ℕ → ℕ → List ℕ → ℕ → List Bool → List Message → World
world d dp i ip faults out = record {
  data_file = opened d dp false;
  index_file = opened i ip false;
  faults = faults;
  output = out;
}

-- The run returns with `Q`, or exits with `E`.
abbrev pub Ends : {A : Type 0} → (A → World → Type 0) → (World → Type 0) → Run A → Type 0
Ends Q E (ok a w) = Q a w
Ends Q E (exited code w) = E w
Ends Q E undefined = ⊥
Ends Q E out_of_fuel = ⊥

pub Ends-map :
    {A : Type 0} (Q Q' : A → World → Type 0) (E E' : World → Type 0) (r : Run A)
    → ((a : A) (w : World) → Q a w → Q' a w)
    → ((w : World) → E w → E' w)
    → Ends Q E r
    → Ends Q' E' r
Ends-map Q Q' E E' (ok a w) q e h = q a w h
Ends-map Q Q' E E' (exited code w) q e h = e w h
Ends-map Q Q' E E' undefined q e h = h
Ends-map Q Q' E E' out_of_fuel q e h = h

pub and_then-Ends :
    {A B C : Type 0} (Q : C → World → Type 0) (E : World → Type 0) (r : Run A) (f : A → Cmd B)
    (k : B → Cmd C)
    → Ends Q E (and_then r (λ a w. and_then (f a w) k))
    → Ends Q E (and_then (and_then r f) k)
and_then-Ends Q E (ok a w) f k h = h
and_then-Ends Q E (exited code w) f k h = h
and_then-Ends Q E undefined f k h = h
and_then-Ends Q E out_of_fuel f k h = h

module _ {B : Type 0} (Q : B → World → Type 0) (E : World → Type 0) where
  call-Ends :
      {A : Type 0} (step : Cmd (Option A)) (k : A → Cmd B) (d : List ℕ) (dp : ℕ) (i : List ℕ)
      (ip : ℕ) (faults : List Bool) (out : List Message)
      → ((r : List Bool) → E (world d dp i ip r out))
      → ((r : List Bool) → Ends Q E (and_then (or_exit step (world d dp i ip r out)) k))
      → Ends Q E (and_then (or_exit (call step) (world d dp i ip faults out)) k)
  call-Ends step k d dp i ip [] out fails runs = runs []
  call-Ends step k d dp i ip (true ∷ r) out fails runs = fails r
  call-Ends step k d dp i ip (false ∷ r) out fails runs = runs r

  module _ (d : List ℕ) (dp : ℕ) (i : List ℕ) (ip : ℕ) (faults : List Bool) (out : List Message)
      (fails : (r : List Bool) → E (world d dp i ip r out)) where
    pub open_data-Ends :
        (k : Unit {0} → Cmd B)
        → ((r : List Bool) → Ends Q E (k tt (world d 0 i ip r out)))
        → Ends Q E (and_then (or_exit (open_file datafd false) (world d dp i ip faults out)) k)
    unfolding open_file
    open_data-Ends k next = call-Ends _ k d dp i ip faults out fails next

    pub open_index-Ends :
        (k : Unit {0} → Cmd B)
        → ((r : List Bool) → Ends Q E (k tt (world d dp i 0 r out)))
        → Ends Q E (and_then (or_exit (open_file indexfd false) (world d dp i ip faults out)) k)
    unfolding open_file
    open_index-Ends k next = call-Ends _ k d dp i ip faults out fails next

    pub empty_data-Ends :
        (k : Unit {0} → Cmd B)
        → ((r : List Bool) → Ends Q E (k tt (world [] 0 i ip r out)))
        → Ends Q E (and_then (or_exit (open_trunc datafd false) (world d dp i ip faults out)) k)
    unfolding open_trunc
    empty_data-Ends k next = call-Ends _ k d dp i ip faults out fails next

    pub empty_index-Ends :
        (k : Unit {0} → Cmd B)
        → ((r : List Bool) → Ends Q E (k tt (world d dp [] 0 r out)))
        → Ends Q E (and_then (or_exit (open_trunc indexfd false) (world d dp i ip faults out)) k)
    unfolding open_trunc
    empty_index-Ends k next = call-Ends _ k d dp i ip faults out fails next

    pub seek_data-Ends :
        (off : ℕ) (k : ℕ → Cmd B)
        → off < 0x8000_0000_0000_0000
        → ((r : List Bool) → Ends Q E (k off (world d off i ip r out)))
        → Ends Q E (and_then (or_exit (seek_set datafd off) (world d dp i ip faults out)) k)
    unfolding seek_set
    seek_data-Ends off k h next =
        call-Ends _ k d dp i ip faults out fails
          (λ r. rw (lt→ltb off 0x8000_0000_0000_0000 h) (next r))

    pub seek_index-Ends :
        (off : ℕ) (k : ℕ → Cmd B)
        → off < 0x8000_0000_0000_0000
        → ((r : List Bool) → Ends Q E (k off (world d dp i off r out)))
        → Ends Q E (and_then (or_exit (seek_set indexfd off) (world d dp i ip faults out)) k)
    unfolding seek_set
    seek_index-Ends off k h next =
        call-Ends _ k d dp i ip faults out fails
          (λ r. rw (lt→ltb off 0x8000_0000_0000_0000 h) (next r))

    pub end_data-Ends :
        (k : ℕ → Cmd B)
        → ((r : List Bool) → Ends Q E (k (length d) (world d (length d) i ip r out)))
        → Ends Q E (and_then (or_exit (seek_end datafd) (world d dp i ip faults out)) k)
    unfolding seek_end
    end_data-Ends k next = call-Ends _ k d dp i ip faults out fails next

    pub end_index-Ends :
        (k : ℕ → Cmd B)
        → ((r : List Bool) → Ends Q E (k (length i) (world d dp i (length i) r out)))
        → Ends Q E (and_then (or_exit (seek_end indexfd) (world d dp i ip faults out)) k)
    unfolding seek_end
    end_index-Ends k next = call-Ends _ k d dp i ip faults out fails next

    pub write_data-Ends :
        (bs : List ℕ) (k : ℕ → Cmd B)
        → ((r : List Bool)
            → Ends Q E (k (length bs) (world (splice d dp bs) (dp + length bs) i ip r out)))
        → Ends Q E (and_then (or_exit (write datafd bs) (world d dp i ip faults out)) k)
    unfolding write
    write_data-Ends bs k next = call-Ends _ k d dp i ip faults out fails next

    pub write_index-Ends :
        (bs : List ℕ) (k : ℕ → Cmd B)
        → ((r : List Bool)
            → Ends Q E (k (length bs) (world d dp (splice i ip bs) (ip + length bs) r out)))
        → Ends Q E (and_then (or_exit (write indexfd bs) (world d dp i ip faults out)) k)
    unfolding write
    write_index-Ends bs k next = call-Ends _ k d dp i ip faults out fails next

    module _ (n : ℕ) (k : ℕ → Cmd B) where
      -- Where the file has the bytes of a number.
      pub read_index-Ends :
          (size : ℕ)
          → Holds i ip (le_bytes size n)
          → le_value (le_bytes size n) ≡ n
          → ((r : List Bool) → Ends Q E (k n (world d dp i (ip + size) r out)))
          → Ends Q E (and_then (read_unchecked indexfd size (world d dp i ip faults out)) k)
      unfolding read_unchecked read
      read_index-Ends size h value next =
          let got : take size (drop ip i) ≡ le_bytes size n =
            subst (λ m. take m (drop ip i) ≡ le_bytes size n) (length-le_bytes size n)
              (slice-Holds h) in
          and_then-Ends Q E (or_exit (read indexfd size) (world d dp i ip faults out))
            (λ bs. if length bs == size then pure (le_value bs) else undefined_behaviour) k
            (call-Ends _
              (λ bs w.
                and_then ((if length bs == size then pure (le_value bs) else undefined_behaviour) w)
                  k)
              d dp i ip faults out fails
              (λ r. rw (got, length-le_bytes size n, eq→== size size refl, value) (next r)))

      pub count-Ends :
          Holds i ip (le_bytes 4 n)
          → le_value (le_bytes 4 n) ≡ n
          → ((r : List Bool) → Ends Q E (k n (world d dp i (ip + 4) r out)))
          → Ends Q E (and_then (read_checked indexfd 4 (world d dp i ip faults out)) k)
      unfolding read_checked read
      count-Ends h value next =
          let got : take 4 (drop ip i) ≡ le_bytes 4 n = slice-Holds h in
          and_then-Ends Q E (or_exit (read indexfd 4) (world d dp i ip faults out))
            (λ bs. if length bs == 4 then pure (le_value bs) else exit 1) k
            (call-Ends _
              (λ bs w. and_then ((if length bs == 4 then pure (le_value bs) else exit 1) w) k) d dp
              i ip faults out fails (λ r. rw (got, value) (next r)))
