-- ===== src/Students/Menu/Trip.antt =====
-- A student that is entered comes out as it went in.
use the_operating_system.Common.{◌≡◌, refl, subst₂, ◌∙◌, some, List, [], ◌∷◌, ◌++◌, append-nil}
use the_operating_system.Posix.{Message, World, record_input, record_deleted}
use the_operating_system.Students.Record.{Student}
use the_operating_system.Students.Layout.{IsStudent}
use the_operating_system.Students.Print.Laws.{line}
use the_operating_system.Students.Search.Found.{
  Absent, lookup_roll, remove_roll, lookup_roll-append, remove_roll-append,
}
use the_operating_system.Students.Compaction.{Behind}
use the_operating_system.Students.Menu.{add, remove, show, main_loop}
use the_operating_system.Students.Menu.Registry.{removal, shown}
use the_operating_system.Students.Menu.Database.{Database, Served}
use the_operating_system.Students.Menu.Session.{main_loop-Served}

-- Where no call of the C library fails, and no student of a database has the roll number of `s`: a
-- session that enters `s`, asks for its roll number and deletes it prints that a record was entered,
-- the line of `s`, and that a record was deleted, and leaves the students as they were. `s` has an
-- `int` as roll number, and a name of at most 49 characters; the database has room for three changes.
pub add-show-remove :
    (behind : Behind) (s : Student) {ss : List Student} {out : List Message} {w : World}
    → IsStudent s
    → Absent s.roll ss
    → Database 3 ss out w
    → Served 0 ss
        (out ++ (record_input ∷ line s ∷ record_deleted ∷ []))
        (main_loop behind (add s ∷ show s.roll ∷ remove s.roll ∷ []) w)
add-show-remove behind s {ss} {out} {w} v ab b =
    let found : lookup_roll s.roll (ss ++ (s ∷ [])) ≡ some s =
      lookup_roll-append s.roll s ss [] ab refl in
    let back : remove_roll s.roll (ss ++ (s ∷ [])) ≡ ss =
      remove_roll-append s.roll s ss [] ab refl ∙ append-nil ss in
    subst₂
      (λ ts o.
        Served 0 ts (out ++ (record_input ∷ (shown o ++ (removal o ∷ []))))
          (main_loop behind (add s ∷ show s.roll ∷ remove s.roll ∷ []) w))
      back found
      (main_loop-Served behind (add s ∷ show s.roll ∷ remove s.roll ∷ []) (v, (tt, (tt, tt))) b)
