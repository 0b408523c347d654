-- ===== src/Students/Faults/Reading.antt =====
-- Runs that write to neither file, where any call may fail: such a run goes as where no call fails,
-- or exits on the way.
use the_operating_system.Common.{
  ℕ, ◌≡◌, subst, Bool, true, false, Option, List, [], ◌∷◌, if◌then◌else◌, length, take, drop, ◌==◌,
  ltb, ◌+◌, Bool-cases, inl, inr,
}
use the_operating_system.Posix.{
  Fd, datafd, indexfd, Message, World, Run, ok, exited, undefined, out_of_fuel, Cmd, pure, exit,
  and_then, ◌>>=◌, or_exit, call, seek_set, seek_cur, seek_end, read, read_checked, read_unchecked,
  undefined_behaviour,
}
use the_operating_system.Common.Bytes.{le_value}
use the_operating_system.Students.Search.Find.{Reads}
use the_operating_system.Students.Faults.{world, Ends}

module _ (d i : List ℕ) (out : List Message) where
  -- A run where no call fails, and one where some may.
  pub data Follows {A : Type 0} : Run A → Run A → Type 0 where
    both_ok :
        (a : A) (dp ip : ℕ) (r : List Bool)
        → Follows (ok a (world d dp i ip [] out)) (ok a (world d dp i ip r out))
    exits :
        (calm : Run A) (code dp ip : ℕ) (r : List Bool)
        → Follows calm (exited code (world d dp i ip r out))
    both_undefined : Follows undefined undefined
    both_out_of_fuel : Follows out_of_fuel out_of_fuel

  abbrev pub Reading : {A : Type 0} → Cmd A → Type 0
  Reading c =
      (dp ip : ℕ) (r : List Bool) → Follows (c (world d dp i ip [] out)) (c (world d dp i ip r out))

  module _ {A B : Type 0} where
    and_then-Follows :
        {x y : Run A} (f : A → Cmd B)
        → Follows x y
        → ((a : A) → Reading (f a))
        → Follows (and_then x f) (and_then y f)
    and_then-Follows f (both_ok a dp ip r) h = h a dp ip r
    and_then-Follows f (exits calm code dp ip r) h = exits (and_then calm f) code dp ip r
    and_then-Follows f both_undefined h = both_undefined
    and_then-Follows f both_out_of_fuel h = both_out_of_fuel

    pub bind-Reading :
        (m : Cmd A) (f : A → Cmd B) → Reading m → ((a : A) → Reading (f a)) → Reading (m >>= f)
    bind-Reading m f h g dp ip r = and_then-Follows f (h dp ip r) g

  module _ {A : Type 0} where
    pub pure-Reading : (a : A) → Reading (pure a)
    pure-Reading a dp ip r = both_ok a dp ip r

    pub exit-Reading : (code : ℕ) → Reading (exit {A = A} code)
    exit-Reading code dp ip r = exits (exited code (world d dp i ip [] out)) code dp ip r

    pub undefined-Reading : Reading (undefined_behaviour {A = A})
    undefined-Reading dp ip r = both_undefined

    pub if-Reading : (b : Bool) (m n : Cmd A) → Reading m → Reading n → Reading (if b then m else n)
    if-Reading true m n h g = h
    if-Reading false m n h g = g

  call-Reading :
      {A : Type 0} (step : Cmd (Option A)) → Reading (or_exit step) → Reading (or_exit (call step))
  call-Reading step h dp ip [] = h dp ip []
  call-Reading step h dp ip (true ∷ r) = exits (or_exit step (world d dp i ip [] out)) 1 dp ip r
  call-Reading step h dp ip (false ∷ r) = h dp ip r

  pub seek_set-Reading : (fd : Fd) (off : ℕ) → Reading (or_exit (seek_set fd off))
  unfolding seek_set
  seek_set-Reading datafd off = call-Reading _ (λ dp ip r.
      elim (Bool-cases (ltb off 0x8000_0000_0000_0000)) [
        | inl e ↦ rw e (both_ok off off ip r)
        | inr e ↦ rw e (exits (exited 1 (world d dp i ip [] out)) 1 dp ip r)
      ])
  seek_set-Reading indexfd off = call-Reading _ (λ dp ip r.
      elim (Bool-cases (ltb off 0x8000_0000_0000_0000)) [
        | inl e ↦ rw e (both_ok off dp off r)
        | inr e ↦ rw e (exits (exited 1 (world d dp i ip [] out)) 1 dp ip r)
      ])

  pub seek_cur-Reading : (fd : Fd) → Reading (or_exit (seek_cur fd))
  unfolding seek_cur
  seek_cur-Reading datafd = call-Reading _ (λ dp ip r. both_ok dp dp ip r)
  seek_cur-Reading indexfd = call-Reading _ (λ dp ip r. both_ok ip dp ip r)

  pub seek_end-Reading : (fd : Fd) → Reading (or_exit (seek_end fd))
  unfolding seek_end
  seek_end-Reading datafd = call-Reading _ (λ dp ip r. both_ok (length d) (length d) ip r)
  seek_end-Reading indexfd = call-Reading _ (λ dp ip r. both_ok (length i) dp (length i) r)

  pub read-Reading : (fd : Fd) (k : ℕ) → Reading (or_exit (read fd k))
  unfolding read
  read-Reading datafd k =
      call-Reading _
        (λ dp ip r. both_ok (take k (drop dp d)) (dp + length (take k (drop dp d))) ip r)
  read-Reading indexfd k =
      call-Reading _
        (λ dp ip r. both_ok (take k (drop ip i)) dp (ip + length (take k (drop ip i))) r)

  pub read_checked-Reading : (fd : Fd) (k : ℕ) → Reading (read_checked fd k)
  unfolding read_checked
  read_checked-Reading fd k = bind-Reading (or_exit (read fd k)) _ (read-Reading fd k) (λ bs.
      if-Reading (length bs == k) (pure (le_value bs)) (exit 1) (pure-Reading (le_value bs))
        (exit-Reading 1))

  pub read_unchecked-Reading : (fd : Fd) (k : ℕ) → Reading (read_unchecked fd k)
  unfolding read_unchecked
  read_unchecked-Reading fd k = bind-Reading (or_exit (read fd k)) _ (read-Reading fd k) (λ bs.
      if-Reading (length bs == k) (pure (le_value bs)) undefined_behaviour
        (pure-Reading (le_value bs)) undefined-Reading)

  Follows-Ends :
      {A B : Type 0} (Q : B → World → Type 0) (E : World → Type 0) {x y : Run A} (k : A → Cmd B)
      (a : A) (dp ip : ℕ)
      → Follows x y
      → x ≡ ok a (world d dp i ip [] out)
      → ((dp' ip' : ℕ) (r : List Bool) → E (world d dp' i ip' r out))
      → ((dp' ip' : ℕ) (r : List Bool) → Ends Q E (k a (world d dp' i ip' r out)))
      → Ends Q E (and_then y k)
  Follows-Ends Q E k a dp ip (both_ok b dp' ip' r) e fails next =
      let same : a ≡ b = cc in
      subst (λ v. Ends Q E (k v (world d dp' i ip' r out))) same (next dp' ip' r)
  Follows-Ends Q E k a dp ip (exits calm code dp' ip' r) e fails next = fails dp' ip' r
  Follows-Ends Q E k a dp ip both_undefined e fails next = cc
  Follows-Ends Q E k a dp ip both_out_of_fuel e fails next = cc

  -- Such a run in front of another one: its value is that of the run where no call fails.
  pub Reading-Ends :
      {A B : Type 0} (Q : B → World → Type 0) (E : World → Type 0) (c : Cmd A) (k : A → Cmd B)
      (a : A) (dp ip : ℕ) (faults : List Bool)
      → Reading c
      → Reads d i false out a (c (world d dp i ip [] out))
      → ((dp' ip' : ℕ) (r : List Bool) → E (world d dp' i ip' r out))
      → ((dp' ip' : ℕ) (r : List Bool) → Ends Q E (k a (world d dp' i ip' r out)))
      → Ends Q E (and_then (c (world d dp i ip faults out)) k)
  Reading-Ends Q E c k a dp ip faults reading (dp', ip', e) fails next =
      Follows-Ends Q E k a dp' ip' (reading dp ip faults) e fails next
