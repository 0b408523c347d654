-- ===== src/Shell.antt =====
-- assignments/as3/part3/forkNexec4.c: the child of a round of the shell, which reads a line, cuts it
-- into words and executes them. A character is a byte; a string is the list of its characters before
-- the null character. The input is what the terminal still has to give: at its end `getchar` returns
-- -1, which is 255 as a `char`. `malloc_fails` says which argument's `malloc` gives no block, and
-- `execve_fails` which commands cannot be executed. An array index out of range, and a copy to where
-- `malloc` gave no block, are undefined.
pub mod Words
pub mod Lines
pub mod Ended
mod Witnesses
use the_operating_system.Common.{
  ℕ, zero, suc, ◌+◌, Bool, true, false, List, [], ◌∷◌, ◌++◌, ltb, ◌==◌, ◌||◌, if◌then◌else◌, length,
}
use the_operating_system.Common.Outcomes.{Outcome, done, exited, undefined, out_of_fuel, ◌>>=◌}

abbrev pub max_size : ℕ
max_size = 100

abbrev pub space : ℕ
space = 32

abbrev pub newline : ℕ
newline = 10

pub getchar : List ℕ → ℕ × List ℕ
getchar [] = (255, [])
getchar (c ∷ input) = (c, input)

-- `while((ch=getchar())!=' '&& ch!='\n')`: `buf` are the characters that `tempbuf` has. The fuel is
-- one more than it has room for.
pub read_word : ℕ → (buf input : List ℕ) → Outcome (List ℕ × ℕ × List ℕ)
read_word zero buf input = out_of_fuel
read_word (suc k) buf input =
    let (ch, rest) = getchar input in
    elim (ch == space || ch == newline) [
      | true ↦ done (buf, ch, rest)
      | false ↦ elim (ltb (length buf) max_size) [
        | true ↦ read_word k (buf ++ (ch ∷ [])) rest
        | false ↦ undefined
      ]
    ]

-- What `strcpy` copies from a buffer with a null character behind `buf`.
pub c_string : List ℕ → List ℕ
c_string [] = []
c_string (c ∷ buf) = if c == 0 then [] else c ∷ c_string buf

module _ (malloc_fails : ℕ → Bool) where
  -- `tempbuf[i]='\0'`, the `malloc` and the `strcpy`; `argv` are the arguments so far, `count` many.
  pub add_word : List (List ℕ) → (buf : List ℕ) → Outcome (List (List ℕ))
  add_word argv buf =
      if ltb (length buf) max_size
      then (if ltb (length argv) max_size
          then (if malloc_fails (length argv)
              then undefined
              else done (argv ++ (c_string buf ∷ [])))
          else undefined)
      else undefined

  -- `while((ch=getchar())!='\n')`: the arguments, and the input that is left.
  pub parse : ℕ → List (List ℕ) → List ℕ → Outcome (List (List ℕ) × List ℕ)
  parse zero argv input = out_of_fuel
  parse (suc k) argv input =
      let (ch, rest) = getchar input in
      elim (ch == newline) [
        | true ↦ done (argv, rest)
        | false ↦ elim (ch == space) [
          | true ↦ parse k argv rest
          | false ↦ do
            (buf, ch', rest') ← read_word (suc max_size) (ch ∷ []) rest
            argv' ← add_word argv buf
            elim (ch' == newline) [ true ↦ done (argv', rest') | false ↦ parse k argv' rest' ]
        ]
      ]

  -- The loop, and `argv[count]=NULL`. A round reads a character, if there is one.
  pub read_command : List ℕ → Outcome (List (List ℕ) × List ℕ)
  read_command input = do
    (argv, rest) ← parse (suc (length input)) [] input
    if ltb (length argv) max_size then done (argv, rest) else undefined

  -- The child: the arguments of the program that takes its place, or the exit.
  unfoldable pub child : (execve_fails : List (List ℕ) → Bool) → List ℕ → Outcome (List (List ℕ))
  child execve_fails input = do
    (argv, rest) ← read_command input
    if execve_fails argv then exited 1 else done argv
