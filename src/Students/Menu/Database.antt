-- ===== src/Students/Menu/Database.antt =====
-- A pair of files that holds a list of students, with room for more changes.
use the_operating_system.Common.{
  ℕ, suc, ◌+◌, ◌*◌, ◌<◌, ◌≡◌, refl, ap, sym, ◌∙◌, Bool, false, none, List, [], ◌∷◌, ◌++◌, arith,
  length, length-append, drop, Holds, Holds-append,
}
use the_operating_system.Common.Bytes.{int_bytes}
use the_operating_system.Posix.{Message, World, Run, ok, open_file}
use the_operating_system.Posix.Calls.{files}
use the_operating_system.Posix.Writing.{with_header}
use the_operating_system.Students.Record.{Student, record_bytes}
use the_operating_system.Students.Layout.{
  Slot, live, Layout, IsStudent, max_file, index_bytes as index_of, length-index,
  length-record_bytes,
}
use the_operating_system.Students.Slots.{length-with_header}
use the_operating_system.Students.Search.Found.{
  Absent, remove_roll, lookup_roll, remove_roll-Absent, lookup_roll-Absent,
}
use the_operating_system.Students.Update.Delete.{Deleted}
use the_operating_system.Students.Update.Input.{Added}
use the_operating_system.Students.Menu.{open_both}

-- The files of `w` hold the students `ss`, `out` is printed, and there is room for `k` changes.
pub record Database (k : ℕ) (ss : List Student) (out : List Message) (w : World) : Type 0 where
  pub data_bytes : List ℕ
  pub index_bytes : List ℕ
  pub dp : ℕ
  pub ip : ℕ
  pub append : Bool
  pub slots : List Slot
  pub world : w ≡ files data_bytes dp append index_bytes ip out
  pub layout : Layout data_bytes index_bytes slots
  pub students : live slots ≡ ss
  pub data_room : length data_bytes + 200 * k < max_file
  pub index_room : length index_bytes + 8 * k < max_file

-- The run ends in a database with the students `ss`, and `out` printed.
pub record Served (k : ℕ) (ss : List Student) (out : List Message) (r : Run (Unit {0}))
    : Type 0 where
  pub after : World
  pub run : r ≡ ok tt after
  pub database : Database k ss out after

pub open_both-ok :
    (d i : List ℕ) (dp ip : ℕ) (a b : Bool) (out : List Message)
    → open_both b (files d dp a i ip out) ≡ ok tt (files d 0 b i 0 out)
unfolding open_both open_file
open_both-ok d i dp ip a b out = refl

pub Holds-start : (bs rest : List ℕ) → Holds (bs ++ rest) 0 bs
Holds-start bs rest = record { rest = rest; here = refl }

module _ {k : ℕ} {ss : List Student} {out : List Message} {w : World}
    (b : Database (suc k) ss out w) where
  open b use {data_bytes as d, index_bytes as i, slots, layout}

  pub unchanged :
      (dp ip : ℕ) (a : Bool) (out' : List Message) → Database k ss out' (files d dp a i ip out')
  unchanged dp ip a out' = record {
    data_bytes = d;
    index_bytes = i;
    dp = dp;
    ip = ip;
    append = a;
    slots = slots;
    world = refl;
    layout = layout;
    students = b.students;
    data_room = omega (arith, b.data_room);
    index_room = omega (arith, b.index_room);
  }

  pub lookup_none : (rollno : ℕ) → Absent rollno (live slots) → lookup_roll rollno ss ≡ none
  lookup_none rollno ab =
      sym (ap (lookup_roll rollno) b.students) ∙ lookup_roll-Absent rollno (live slots) ab

  pub remove_same : (rollno : ℕ) → Absent rollno (live slots) → remove_roll rollno ss ≡ ss
  remove_same rollno ab =
      sym (ap (remove_roll rollno) b.students)
      ∙ remove_roll-Absent rollno (live slots) ab
      ∙ b.students

  -- The files after `delete`, opened without appending.
  pub removed :
      (rollno dp ip : ℕ) (out' : List Message) {r : Run ℕ} (o : Deleted d slots rollno false out r)
      → Database k (remove_roll rollno ss) out' (
          files
            (with_header false d (int_bytes (length (live o.slots'))))
            dp
            false
            (index_of o.slots')
            ip
            out')
  removed rollno dp ip out' o =
      let header = int_bytes (length (live o.slots')) in
      let grown = length-with_header false d header refl (omega (arith, layout.indexed.fits)) in
      record {
        data_bytes = with_header false d header;
        index_bytes = index_of o.slots';
        dp = dp;
        ip = ip;
        append = false;
        slots = o.slots';
        world = refl;
        layout = record { indexed = o.indexed; count = Holds-start header (drop 4 d) };
        students = o.students ∙ ap (remove_roll rollno) b.students;
        data_room = omega (arith, grown, b.data_room);
        index_room = omega (
          arith,
          b.index_room,
          o.same_length,
          length-index o.indexed,
          length-index layout.indexed,
        );
      }

  -- The files after `input_record`, opened without appending.
  pub added :
      (s : Student) (dp ip : ℕ) (out' : List Message) {r : Run ℕ} (v : IsStudent s)
      (o : Added d slots s false out r)
      → Database k (ss ++ (s ∷ [])) out' (
          files
            (with_header false d (int_bytes (length (live o.slots'))) ++ record_bytes s)
            dp
            false
            (index_of o.slots')
            ip
            out')
  added s dp ip out' v o =
      let header = int_bytes (length (live o.slots')) in
      let grown = length-with_header false d header refl (omega (arith, layout.indexed.fits)) in
      record {
        data_bytes = with_header false d header ++ record_bytes s;
        index_bytes = index_of o.slots';
        dp = dp;
        ip = ip;
        append = false;
        slots = o.slots';
        world = refl;
        layout = record {
          indexed = o.indexed;
          count = Holds-append (record_bytes s) (omega arith) (Holds-start header (drop 4 d));
        };
        students = o.students ∙ ap (λ l. l ++ (s ∷ [])) b.students;
        data_room = omega (
          arith,
          grown,
          b.data_room,
          length-append (with_header false d header) (record_bytes s),
          length-record_bytes s,
          v.name_fits,
        );
        index_room =
            omega
              (arith, b.index_room, o.longer, length-index o.indexed, length-index layout.indexed);
      }
