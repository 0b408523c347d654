-- ===== src/Students/Search/Found.antt =====
-- What `find_slot` finds: the first live slot with the roll number.
use the_operating_system.Common.{
  ℕ, ◌+◌, ◌*◌, ◌≡◌, ◌≢◌, refl, ap, sym, ◌∙◌, Option, none, some, List, [], ◌∷◌, ◌++◌, arith, ◌⊎◌,
  inl, inr, ◌==◌, if◌then◌else◌, length, Bool-cases, ==→eq, eq→==, ne→==,
}
use the_operating_system.Students.Record.{Student}
use the_operating_system.Students.Layout.{Slot, gone, at, live}
use the_operating_system.Students.Slots.{live-append}
use the_operating_system.Students.Search.Find.{find_slot}

-- No student of the list has the roll number.
abbrev pub Absent : ℕ → List Student → Type 0
Absent rollno [] = Unit
Absent rollno (s ∷ ss) = (s.roll ≢ rollno) × Absent rollno ss

-- The list without the first student that has the roll number.
unfoldable pub remove_roll : ℕ → List Student → List Student
remove_roll rollno [] = []
remove_roll rollno (s ∷ ss) = if s.roll == rollno then ss else s ∷ remove_roll rollno ss

-- The first student that has the roll number.
unfoldable pub lookup_roll : ℕ → List Student → Option Student
lookup_roll rollno [] = none
lookup_roll rollno (s ∷ ss) = if s.roll == rollno then some s else lookup_roll rollno ss

-- `q` is the offset of the first slot with the roll number, where `slots` begins at offset `p`.
pub record Found (p rollno q : ℕ) (slots : List Slot) : Type 0 where
  pub before : List Slot
  pub after : List Slot
  pub off : ℕ
  pub who : Student
  pub split : slots ≡ before ++ (at off who ∷ after)
  pub place : q ≡ p + 8 * length before
  pub roll : who.roll ≡ rollno
  pub first : Absent rollno (live before)

Found-skip :
    {p rollno q : ℕ} {xs : List Slot} (x : Slot)
    → Absent rollno (live (x ∷ []))
    → Found (p + 8) rollno q xs
    → Found p rollno q (x ∷ xs)
Found-skip gone ab f = record {
  before = gone ∷ f.before;
  after = f.after;
  off = f.off;
  who = f.who;
  split = ap (◌∷◌ gone) f.split;
  place = omega (arith, f.place);
  roll = f.roll;
  first = f.first;
}
Found-skip (at off s) ab f = record {
  before = at off s ∷ f.before;
  after = f.after;
  off = f.off;
  who = f.who;
  split = ap (◌∷◌ (at off s)) f.split;
  place = omega (arith, f.place);
  roll = f.roll;
  first = (ab.0, f.first);
}

abbrev pub FindCases : (p rollno : ℕ) → List Slot → Type 0
FindCases p rollno slots =
    ((find_slot p rollno slots ≡ none) × Absent rollno (live slots))
    ⊎ ((q : ℕ) × (find_slot p rollno slots ≡ some q) × Found p rollno q slots)

FindCases-skip :
    {p rollno : ℕ} {xs : List Slot} (x : Slot)
    → Absent rollno (live (x ∷ []))
    → find_slot p rollno (x ∷ xs) ≡ find_slot (p + 8) rollno xs
    → FindCases (p + 8) rollno xs
    → FindCases p rollno (x ∷ xs)
FindCases-skip gone ab e (inl (n, h)) = inl (e ∙ n, h)
FindCases-skip (at off s) ab e (inl (n, h)) = inl (e ∙ n, (ab.0, h))
FindCases-skip x ab e (inr (q, n, f)) = inr (q, e ∙ n, Found-skip x ab f)

-- Either no live slot has the roll number, or the first one is found.
pub find_slot-cases : (p rollno : ℕ) (slots : List Slot) → FindCases p rollno slots
unfolding find_slot
find_slot-cases p rollno [] = inl (refl, tt)
find_slot-cases p rollno (gone ∷ xs) =
    FindCases-skip gone tt refl (find_slot-cases (p + 8) rollno xs)
find_slot-cases p rollno (at off s ∷ xs) = elim (Bool-cases (s.roll == rollno)) [
  | inl hit ↦ inr (
    p,
    rw hit,
    record {
      before = [];
      after = xs;
      off = off;
      who = s;
      split = refl;
      place = omega arith;
      roll = ==→eq s.roll rollno hit;
      first = tt;
    },
  )
  | inr miss ↦
      FindCases-skip (at off s) (ground arith, tt) (rw miss) (find_slot-cases (p + 8) rollno xs)
]

pub remove_roll-append :
    (rollno : ℕ) (s : Student) (xs ys : List Student)
    → Absent rollno xs
    → s.roll ≡ rollno
    → remove_roll rollno (xs ++ (s ∷ ys)) ≡ xs ++ ys
unfolding remove_roll
remove_roll-append rollno s [] ys ab e = rw (eq→== s.roll rollno e)
remove_roll-append rollno s (x ∷ xs) ys ab e =
    rw (ne→== x.roll rollno ab.0) (ap (◌∷◌ x) (remove_roll-append rollno s xs ys ab.1 e))

pub remove_roll-Absent :
    (rollno : ℕ) (xs : List Student) → Absent rollno xs → remove_roll rollno xs ≡ xs
unfolding remove_roll
remove_roll-Absent rollno [] ab = refl
remove_roll-Absent rollno (x ∷ xs) ab =
    rw (ne→== x.roll rollno ab.0) (ap (◌∷◌ x) (remove_roll-Absent rollno xs ab.1))

-- Where the found slot is cleared, its student leaves the list.
pub live-Found :
    {p rollno q : ℕ} {slots : List Slot} (f : Found p rollno q slots)
    → live (f.before ++ (gone ∷ f.after)) ≡ remove_roll rollno (live slots)
live-Found {rollno} {slots} f =
    live-append f.before (gone ∷ f.after)
    ∙ sym (remove_roll-append rollno f.who (live f.before) (live f.after) f.first f.roll)
    ∙ ap (remove_roll rollno)
        (sym (live-append f.before (at f.off f.who ∷ f.after)) ∙ ap live (sym f.split))

pub lookup_roll-Absent :
    (rollno : ℕ) (xs : List Student) → Absent rollno xs → lookup_roll rollno xs ≡ none
unfolding lookup_roll
lookup_roll-Absent rollno [] ab = refl
lookup_roll-Absent rollno (x ∷ xs) ab =
    rw (ne→== x.roll rollno ab.0) (lookup_roll-Absent rollno xs ab.1)

pub lookup_roll-append :
    (rollno : ℕ) (s : Student) (xs ys : List Student)
    → Absent rollno xs
    → s.roll ≡ rollno
    → lookup_roll rollno (xs ++ (s ∷ ys)) ≡ some s
unfolding lookup_roll
lookup_roll-append rollno s [] ys ab e = rw (eq→== s.roll rollno e)
lookup_roll-append rollno s (x ∷ xs) ys ab e =
    rw (ne→== x.roll rollno ab.0) (lookup_roll-append rollno s xs ys ab.1 e)

-- The record of the found slot is that of the first student with the roll number.
pub lookup_roll-Found :
    {p rollno q : ℕ} {slots : List Slot} (f : Found p rollno q slots)
    → lookup_roll rollno (live slots) ≡ some f.who
lookup_roll-Found {rollno} {slots} f =
    ap (lookup_roll rollno) (ap live f.split ∙ live-append f.before (at f.off f.who ∷ f.after))
    ∙ lookup_roll-append rollno f.who (live f.before) (live f.after) f.first f.roll
