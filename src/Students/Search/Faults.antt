-- ===== src/Students/Search/Faults.antt =====
-- `search` where some call of the C library fails.
use the_operating_system.Common.{
  ℕ, zero, suc, ◌-◌, Bool, false, Option, none, some, List, ◌==◌, length,
}
use the_operating_system.Common.Bytes.{off_minus_one, positive}
use the_operating_system.Posix.{
  datafd, indexfd, Message, World, Cmd, pure, and_then, or_exit, seek_set, seek_cur, read_checked,
  read_unchecked,
}
use the_operating_system.Students.Layout.{Slot, Indexed}
use the_operating_system.Students.Faults.{world, Ends}
use the_operating_system.Students.Faults.Reading.{
  Reading, both_out_of_fuel, bind-Reading, pure-Reading, if-Reading, seek_set-Reading,
  seek_cur-Reading, read_checked-Reading, read_unchecked-Reading, Reading-Ends,
}
use the_operating_system.Students.Search.{search, search_loop}
use the_operating_system.Students.Search.Find.{find_slot, search-find}

module _ (d i : List ℕ) (out : List Message) where
  search_loop-Reading : (fuel cnt rollno : ℕ) → Reading d i out (search_loop fuel cnt rollno)
  unfolding search_loop
  search_loop-Reading zero cnt rollno = λ dp ip r. both_out_of_fuel
  search_loop-Reading (suc n) cnt rollno =
      if-Reading d i out (positive cnt) _ (pure none)
        (bind-Reading d i out (or_exit (seek_cur indexfd)) _ (seek_cur-Reading d i out indexfd)
          (λ off_of_off.
            bind-Reading d i out (read_unchecked indexfd 8) _
              (read_unchecked-Reading d i out indexfd 8)
              (λ index.
                if-Reading d i out (index == off_minus_one) (search_loop n cnt rollno) _
                  (search_loop-Reading n cnt rollno)
                  (bind-Reading d i out (or_exit (seek_set datafd index)) _
                    (seek_set-Reading d i out datafd index)
                    (λ _.
                      bind-Reading d i out (read_unchecked datafd 4) _
                        (read_unchecked-Reading d i out datafd 4)
                        (λ rno.
                          if-Reading d i out (rno == rollno) (pure (some off_of_off))
                            (search_loop n (cnt - 1) rollno)
                            (pure-Reading d i out (some off_of_off))
                            (search_loop-Reading n (cnt - 1) rollno)))))))
        (pure-Reading d i out none)

  search-Reading : (rollno : ℕ) → Reading d i out (search rollno)
  unfolding search
  search-Reading rollno =
      bind-Reading d i out (or_exit (seek_set indexfd 0)) _ (seek_set-Reading d i out indexfd 0)
        (λ _.
          bind-Reading d i out (read_checked indexfd 4) _ (read_checked-Reading d i out indexfd 4)
            (λ cnt. search_loop-Reading (suc (length i)) cnt rollno))

  -- On files in order, a run that goes on with what `search` returns where no call fails ends in the
  -- same way with the calls of `search` in front, if it may end where one of these fails.
  pub search-Ends :
      {B : Type 0} (Q : B → World → Type 0) (E : World → Type 0) {slots : List Slot}
      (rollno dp ip : ℕ) (faults : List Bool) (k : Option ℕ → Cmd B)
      → Indexed d i slots
      → ((dp' ip' : ℕ) (r : List Bool) → E (world d dp' i ip' r out))
      → ((dp' ip' : ℕ) (r : List Bool)
          → Ends Q E (k (find_slot 4 rollno slots) (world d dp' i ip' r out)))
      → Ends Q E (and_then (search rollno (world d dp i ip faults out)) k)
  search-Ends Q E {slots} rollno dp ip faults k l =
      Reading-Ends d i out Q E (search rollno) k (find_slot 4 rollno slots) dp ip faults
        (search-Reading rollno) (search-find rollno dp ip false out l)
