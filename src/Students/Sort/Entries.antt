-- ===== src/Students/Sort/Entries.antt =====
-- The entries of an index file without deleted records, and what one round of the selection sort
-- does to their order.
use mathlib.Core.List.{Perm, map, Pairwise}
use mathlib.Core.List.Perm
use mathlib.Core.List.Pairwise
use native.Mathlib.Bridge.{le_prop}
use the_operating_system.Common.{
  ℕ, suc, ◌+◌, ◌*◌, ◌≤◌, ◌<◌, ◌≡◌, refl, ap, sym, subst, subst₂, List, [], ◌∷◌, ◌++◌, arith, length,
}
use the_operating_system.Common.Bytes.{signed_key}
use the_operating_system.Common.Selection.{All, tail_of, Pairwise-cons-Perm}
use the_operating_system.Students.Record.{Student, name_len}
use the_operating_system.Students.Compaction.Packed.{packed}
use the_operating_system.Students.Layout.{Slot, at, live, room, AllStored, IsStored}

abbrev pub Entry : Type 0
Entry = ℕ × Student

abbrev pub slots_of : List Entry → List Slot
slots_of [] = []
slots_of ((off, s) ∷ es) = at off s ∷ slots_of es

abbrev pub students : List Entry → List Student
students [] = []
students ((off, s) ∷ es) = s ∷ students es

-- The place of a roll number in the order of `int`s.
abbrev pub key : Student → ℕ
key s = signed_key s.roll

pub AllStored-slots_of :
    (d : List ℕ) (es : List Entry) → AllStored d (slots_of es) → All (λ e. IsStored d e.0 e.1) es
AllStored-slots_of d [] h = tt
AllStored-slots_of d ((off, s) ∷ es) h = (h.0, AllStored-slots_of d es h.1)

-- The roll numbers ascend.
abbrev pub IsSorted : List Entry → Type 0
IsSorted = Pairwise (λ e f. key e.1 ≤ key f.1)

pub IsSorted-cons :
    (e : Entry) (es fs : List Entry)
    → All (λ x. key e.1 ≤ key x.1) es
    → Perm fs es
    → IsSorted fs
    → IsSorted (e ∷ fs)
IsSorted-cons e es fs h p s =
    Pairwise-cons-Perm (λ (x y : Entry). key x.1 ≤ key y.1) (λ x y. le_prop) e es fs h p s

-- `q` is the offset of an entry with the least roll number, which is below `bound`.
pub record Least (p bound q : ℕ) (es : List Entry) : Type 0 where
  pub before : List Entry
  pub after : List Entry
  pub entry : Entry
  pub split : es ≡ before ++ (entry ∷ after)
  pub place : q ≡ p + 8 * length before
  pub below : key entry.1 < bound
  pub least : All (λ x. key entry.1 ≤ key x.1) es

pub Least-cons :
    {p bound q : ℕ} {es : List Entry} (e : Entry) (bound' : ℕ)
    → bound ≤ key e.1
    → bound ≤ bound'
    → Least (p + 8) bound q es
    → Least p bound' q (e ∷ es)
Least-cons e bound' h le m = record {
  before = e ∷ m.before;
  after = m.after;
  entry = m.entry;
  split = ap (◌∷◌ e) m.split;
  place = omega (arith, m.place);
  below = omega (arith, m.below);
  least = (omega (arith, m.below, h), m.least);
}

pub slots_of-append : (xs ys : List Entry) → slots_of (xs ++ ys) ≡ slots_of xs ++ slots_of ys
slots_of-append [] ys = refl
slots_of-append ((off, s) ∷ xs) ys = ap (◌∷◌ (at off s)) (slots_of-append xs ys)

pub live-slots_of : (es : List Entry) → live (slots_of es) ≡ students es
live-slots_of [] = refl
live-slots_of ((off, s) ∷ es) = ap (◌∷◌ s) (live-slots_of es)

pub length-slots_of : (es : List Entry) → length (slots_of es) ≡ length es
length-slots_of [] = refl
length-slots_of ((off, s) ∷ es) = ap suc (length-slots_of es)

pub length-live-slots_of : (es : List Entry) → length (live (slots_of es)) ≡ length es
length-live-slots_of [] = refl
length-live-slots_of ((off, s) ∷ es) = ap suc (length-live-slots_of es)

pub slots_of-AllStored :
    (d : List ℕ) (es : List Entry) → All (λ e. IsStored d e.0 e.1) es → AllStored d (slots_of es)
slots_of-AllStored d [] h = tt
slots_of-AllStored d ((off, s) ∷ es) h = (h.0, slots_of-AllStored d es h.1)

room-students-append :
    (xs ys : List Entry) → room (students (xs ++ ys)) ≡ room (students xs) + room (students ys)
room-students-append [] ys = omega arith
room-students-append ((off, s) ∷ xs) ys = omega (arith, room-students-append xs ys)

pub room-tail_of :
    (before after : List Entry) (x : Entry)
    → room (students (before ++ (x ∷ after))) ≡ room (students (x ∷ tail_of before after))
room-tail_of [] after x = refl
room-tail_of (f ∷ mid) after x =
    omega (arith, room-students-append mid (x ∷ after), room-students-append mid (f ∷ after))

students-map : (es : List Entry) → students es ≡ map (λ e. e.1) es
students-map [] = refl
students-map ((off, s) ∷ es) = ap (◌∷◌ s) (students-map es)

pub Perm-students : (xs ys : List Entry) → Perm xs ys → Perm (students xs) (students ys)
Perm-students xs ys p =
    subst₂ Perm (sym (students-map xs)) (sym (students-map ys)) (Perm.map (λ e. e.1) p)

-- The roll numbers of the students ascend.
abbrev pub IsAscending : List Student → Type 0
IsAscending = Pairwise (λ s t. key s ≤ key t)

pub IsAscending-students : (es : List Entry) → IsSorted es → IsAscending (students es)
IsAscending-students es h =
    subst IsAscending (sym (students-map es))
      (Pairwise.map (λ s t. le_prop) (λ e. e.1) (λ e f le. le) h)

-- The entries of students whose records stand one behind the other from `off` on.
abbrev pub entries : ℕ → List Student → List Entry
entries off [] = []
entries off (s ∷ ss) = (off, s) ∷ entries (off + (8 + name_len s)) ss

pub slots_of-entries : (off : ℕ) (ss : List Student) → slots_of (entries off ss) ≡ packed off ss
slots_of-entries off [] = refl
slots_of-entries off (s ∷ ss) = ap (◌∷◌ (at off s)) (slots_of-entries (off + (8 + name_len s)) ss)

pub students-entries : (off : ℕ) (ss : List Student) → students (entries off ss) ≡ ss
students-entries off [] = refl
students-entries off (s ∷ ss) = ap (◌∷◌ s) (students-entries (off + (8 + name_len s)) ss)
