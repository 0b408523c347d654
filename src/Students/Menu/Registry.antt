-- ===== src/Students/Menu/Registry.antt =====
-- What the student database promises: a list of students, the changes that each option of the
-- menu makes to it, and what it prints.
use the_operating_system.Common.{ℕ, Option, none, some, List, [], ◌∷◌, ◌++◌}
use the_operating_system.Posix.{
  Message, record_input, record_deleted, record_not_deleted, record_modified, no_such_student,
  invalid_option,
}
use the_operating_system.Students.Record.{Student}
use the_operating_system.Students.Layout.{IsStudent}
use the_operating_system.Students.Print.Laws.{line, lines}
use the_operating_system.Students.Search.Found.{lookup_roll, remove_roll}
use the_operating_system.Students.Menu.{
  Choice, initialize, compact, sort_by_roll, show_all, invalid, add, remove, find, show, modify,
}

abbrev pub removal : Option Student → Message
removal none = record_not_deleted
removal (some _) = record_deleted

abbrev pub shown : Option Student → List Message
shown none = no_such_student ∷ []
shown (some s) = line s ∷ []

-- `modify` replaces a student that is there.
abbrev pub modified : ℕ → Student → List Student → Option Student → List Student
modified rollno s ss none = ss
modified rollno s ss (some _) = remove_roll rollno ss ++ (s ∷ [])

abbrev pub modification : Option Student → List Message
modification none = []
modification (some _) = record_modified ∷ []

abbrev pub students_after : Choice → List Student → List Student
students_after initialize ss = []
students_after (add s) ss = ss ++ (s ∷ [])
students_after (remove rollno) ss = remove_roll rollno ss
students_after (modify rollno s) ss = modified rollno s ss (lookup_roll rollno ss)
students_after _ ss = ss

abbrev pub printed : Choice → List Student → List Message
printed (add s) ss = record_input ∷ []
printed (remove rollno) ss = removal (lookup_roll rollno ss) ∷ []
printed (modify rollno s) ss = modification (lookup_roll rollno ss)
printed (show rollno) ss = shown (lookup_roll rollno ss)
printed show_all ss = lines ss
printed invalid ss = invalid_option ∷ []
printed _ ss = []

-- The options whose effect on the list is a function of the list alone: all but the search, which
-- prints an offset, and compaction and sorting, which have theorems of their own.
abbrev pub IsPlain : Choice → Type 0
IsPlain (add s) = IsStudent s
IsPlain (modify rollno s) = IsStudent s
IsPlain compact = ⊥
IsPlain sort_by_roll = ⊥
IsPlain (find rollno) = ⊥
IsPlain _ = Unit

abbrev pub ArePlain : List Choice → Type 0
ArePlain [] = Unit
ArePlain (c ∷ cs) = IsPlain c × ArePlain cs

-- A session: the options in order.
abbrev pub session_students : List Choice → List Student → List Student
session_students [] ss = ss
session_students (c ∷ cs) ss = session_students cs (students_after c ss)

abbrev pub session_printed : List Choice → List Student → List Message
session_printed [] ss = []
session_printed (c ∷ cs) ss = printed c ss ++ session_printed cs (students_after c ss)
