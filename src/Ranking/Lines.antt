-- ===== src/Ranking/Lines.antt =====
-- The lines of as2_2.c, and what its processes write of them while they run and as they end.
use the_operating_system.Common.{
  ℕ, zero, suc, ◌+◌, ◌≡◌, refl, ap, Bool, true, false, List, [], ◌∷◌, ◌++◌, replicate, length,
}
use the_operating_system.Ranking.{
  Rank, Line, enter_n, enter_element, largest, enter_elements, at_once, buffered, Output,
}

abbrev pub values : List Rank → List ℕ
values [] = []
values (r ∷ rs) = r.value ∷ values rs

abbrev pub lines_of : List Rank → List Line
lines_of [] = []
lines_of (r ∷ rs) = largest r ∷ lines_of rs

-- The numbers that the lines show.
abbrev pub line_values : List Line → List ℕ
line_values [] = []
line_values (enter_n ∷ lines) = line_values lines
line_values (enter_element l ∷ lines) = line_values lines
line_values (largest r ∷ lines) = r.value ∷ line_values lines

pub line_values-lines_of : (rs : List Rank) → line_values (lines_of rs) ≡ values rs
line_values-lines_of [] = refl
line_values-lines_of (r ∷ rs) = ap (◌∷◌ r.value) (line_values-lines_of rs)

pub line_values-enter_elements :
    (n l : ℕ) (lines : List Line) → line_values (enter_elements n l ++ lines) ≡ line_values lines
line_values-enter_elements zero l lines = refl
line_values-enter_elements (suc n) l lines = line_values-enter_elements n (l + 1) lines

-- What a process and those below it leave, where they print the lines one by one: a process ends with
-- the lines that were printed before it was made.
abbrev pub prefixes : (buffer lines : List Line) → List (List Line)
prefixes buffer [] = buffer ∷ []
prefixes buffer (l ∷ lines) = buffer ∷ prefixes (buffer ++ (l ∷ [])) lines

-- To a terminal all lines come at once, and no process has any left as it ends. Else each process
-- writes as it ends all lines that were printed before it was made, and no line comes before that.
abbrev pub shown : (terminal : Bool) → (asked lines : List Line) → Output
shown true asked lines = record {
  running = asked ++ lines;
  ending = [] ∷ replicate (length lines) [];
}
shown false asked lines = record { running = []; ending = prefixes asked lines }

-- The same for the processes below one with the buffer.
abbrev pub below : (terminal : Bool) → (buffer lines : List Line) → Output
below true buffer lines = record {
  running = lines;
  ending = buffer ∷ replicate (length lines) buffer;
}
below false buffer lines = record { running = []; ending = prefixes buffer lines }

pub below-cons :
    (terminal : Bool) (buffer : List Line) (l : Line) (lines : List Line)
    → ◌≡◌ {A = Output}
        (record {
          running =
              at_once terminal (l ∷ [])
              ++ (below terminal (buffered terminal buffer (l ∷ [])) lines).running;
          ending = buffer ∷ (below terminal (buffered terminal buffer (l ∷ [])) lines).ending;
        })
        (below terminal buffer (l ∷ lines))
below-cons true buffer l lines = refl
below-cons false buffer l lines = refl

pub below-nil :
    (terminal : Bool) (buffer : List Line)
    → ◌≡◌ {A = Output} (record { running = []; ending = buffer ∷ [] }) (below terminal buffer [])
below-nil true buffer = refl
below-nil false buffer = refl

pub below-shown :
    (terminal : Bool) (asked lines : List Line)
    → ◌≡◌ {A = Output}
        (record (below terminal (buffered terminal [] asked) lines) {
          running =
              at_once terminal asked ++ (below terminal (buffered terminal [] asked) lines).running;
        })
        (shown terminal asked lines)
below-shown true asked lines = refl
below-shown false asked lines = refl
