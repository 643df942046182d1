-- ===== src/Tests/Library.antt =====
-- Numbers and formats, shell variables, and a pipe.
use buaa_os.Base.{
  ℕ, ◌+◌, ◌*◌, ◌%◌, ◌&&◌, ltb, leb, length, inl, inr, Option, ◌-◌, ◌^◌, ◌≡◌, refl, true, false,
  some, List, [], ◌∷◌, ◌==◌, if◌then◌else◌, arith,
}
use buaa_os.Print.{print_num, vprintfmt}
use buaa_os.Print.Number.{Reads, print_num-Reads}
use buaa_os.Print.Format.{vprintfmt-some}
use buaa_os.EnvValue.{
  EnvValue, Values, done, refused, sys_declare_env_value, sys_unset_env_value, sys_get_env_value,
}
use buaa_os.EnvValue.Scan.{IsString}
use buaa_os.EnvValue.Laws.{Tidy, get-declare, declare-Tidy, get-declare_other}
use buaa_os.Fd.{Space}
use buaa_os.Shell.{tokenize}
use buaa_os.Shell.Lex.{lex, between, to_quote}
use buaa_os.CString.{memcpy, strcpy, strlen}
use buaa_os.CString.Copy.{memcpy-bytes}
use buaa_os.CString.Strings.{Str, strcpy-Str}
use buaa_os.Shell.Tokens.{Words, tokenize-lex}
use buaa_os.Pipe.{Pipe, pipe_read, pipe_write}
use buaa_os.Pipe.Fifo.{
  Holds, ReadOutcome, WriteOutcome, pipe_read-ReadOutcome, pipe_write-WriteOutcome,
}

print_num-Reads_example : Reads 16 0xbeef true 8 (print_num 0xbeef 16 true 8 false 48 true)
print_num-Reads_example =
    print_num-Reads 16 0xbeef 8 true true (omega arith) (omega arith) (omega arith)

abbrev arguments : ℕ → ℕ
arguments i = if i == 0 then 42 else 0

-- `a%5d`.
abbrev format : List ℕ
format = 97 ∷ 37 ∷ 53 ∷ 100 ∷ []

formatted : vprintfmt arguments (λ _. []) 5 format 0 ≡ some (97 ∷ 32 ∷ 32 ∷ 32 ∷ 52 ∷ 50 ∷ [])
unfolding vprintfmt
formatted = refl

-- The text `a` before `%5d`.
vprintfmt-some_example :
    (out : List ℕ) × (vprintfmt arguments (λ _. []) 5 (37 ∷ 53 ∷ 100 ∷ []) 0 ≡ some out)
    × (vprintfmt arguments (λ _. []) 5 format 0 ≡ some (97 ∷ out))
vprintfmt-some_example =
    vprintfmt-some arguments (λ _. []) 5 (97 ∷ []) (37 ∷ 53 ∷ 100 ∷ []) 0 refl (omega arith)

-- No variable is declared yet.
abbrev blank : EnvValue
blank = record { name = []; value = []; shell_id = 0; mood = 0; valid = false }

abbrev empty : Values
empty = record { shell_num = 3; env_value_num = 0; env_value = λ _. blank; cur_path = 47 ∷ [] }

-- After shell 1 has declared `x`, and after shell 2 has done so too.
abbrev by_one : Values
by_one = record empty {
  env_value_num = 1;
  env_value = λ i.
      if i == 0
      then (record { name = 120 ∷ []; value = 49 ∷ []; shell_id = 1; mood = 0; valid = true })
      else blank;
}

abbrev by_two : Values
by_two = record by_one {
  env_value = λ i.
      if i == 0
      then (record { name = 120 ∷ []; value = 50 ∷ []; shell_id = 2; mood = 0; valid = true })
      else by_one.env_value i;
}

Tidy-empty : Tidy empty
Tidy-empty = record { strings = λ i. tt; unique = λ i j a b p q same. ground arith }

one_declared : sys_declare_env_value (120 ∷ []) (49 ∷ []) 1 0 empty ≡ done tt by_one
unfolding sys_declare_env_value
one_declared = refl

two_declared : sys_declare_env_value (120 ∷ []) (50 ∷ []) 2 0 by_one ≡ done tt by_two
unfolding sys_declare_env_value
two_declared = refl

x-IsString : IsString (120 ∷ [])
x-IsString = (omega arith, tt)

Tidy-one : Tidy by_one
Tidy-one = declare-Tidy (120 ∷ []) (49 ∷ []) 1 0 empty by_one Tidy-empty x-IsString one_declared

declare-Tidy_example : Tidy by_one
declare-Tidy_example =
    declare-Tidy (120 ∷ []) (49 ∷ []) 1 0 empty by_one Tidy-empty x-IsString one_declared

get-declare_example : sys_get_env_value (120 ∷ []) 2 by_two ≡ done (50 ∷ []) by_two
get-declare_example = get-declare (120 ∷ []) (50 ∷ []) 2 0 by_one by_two two_declared

get-declare_other_example : sys_get_env_value (120 ∷ []) 1 by_two ≡ refused
get-declare_other_example =
    get-declare_other (120 ∷ []) (50 ∷ []) 2 1 0 by_one by_two Tidy-one x-IsString
      (λ e. ground arith) (λ e. ground arith) two_declared

abbrev unset_one : Values
unset_one = record by_one {
  env_value =
      λ i. if i == 0 then (record (by_one.env_value 0) { valid = false }) else by_one.env_value i;
}

one_unset : sys_unset_env_value (120 ∷ []) 1 by_one ≡ done tt unset_one
unfolding sys_unset_env_value
one_unset = refl

-- A pipe about to wrap its counters, with two bytes in it.
abbrev pipe : Pipe
pipe = record {
  rpos = 2 ^ 32 - 1;
  wpos = 1;
  buf = λ i. if i == 31 then 7 else if i == 0 then 8 else 0;
}

two_bytes : Holds pipe (7 ∷ 8 ∷ [])
two_bytes = record {
  low = omega arith;
  at_end = refl;
  fits = omega arith;
  bytes = (refl, (refl, tt));
}

pipe_read-ReadOutcome_example : ReadOutcome 3 (7 ∷ 8 ∷ []) false (pipe_read 3 false pipe)
pipe_read-ReadOutcome_example = pipe_read-ReadOutcome 3 (7 ∷ 8 ∷ []) false pipe two_bytes

pipe_write-WriteOutcome_example :
    WriteOutcome (9 ∷ []) (7 ∷ 8 ∷ []) false (pipe_write (9 ∷ []) false pipe)
pipe_write-WriteOutcome_example = pipe_write-WriteOutcome (9 ∷ []) (7 ∷ 8 ∷ []) false pipe two_bytes

-- The page directory word of the descriptor table is valid, and descriptors 0 and 1 are mapped.
abbrev descriptors : Space
descriptors = record {
  vpd = λ w. if w == 383 then 512 else 0;
  vpt = λ w. if w == 392192 then 512 else if w == 392193 then 512 else 0;
  fds = λ _. record { fd_dev_id = 99; fd_offset = 0; fd_omode = 2 };
}

-- `a > b`.
abbrev command : List ℕ
command = 97 ∷ 32 ∷ 62 ∷ 32 ∷ 98 ∷ []

abbrev command_line : ℕ → ℕ
command_line i =
    if i == 0
    then 97
    else if i == 1
    then 32
    else if i == 2
    then 62
    else if i == 3
    then 32
    else if i == 4
    then 98
    else 0

command-Str : Str command_line 0 command
command-Str = (
  refl,
  (λ e. omega arith),
  (
    refl,
    (λ e. omega arith),
    (refl, (λ e. omega arith), (refl, (λ e. omega arith), (refl, (λ e. omega arith), refl))),
  ),
)

tokenize-lex_example :
    (l : List (ℕ × Option ℕ)) × (fin : ℕ → ℕ) × (tokenize 5 command_line ≡ (l, fin))
    × Words fin l (lex between (to_quote between command))
tokenize-lex_example = tokenize-lex 5 command command_line command-Str (omega arith)

abbrev bytes : ℕ → ℕ
bytes p = p * 7 % 256

-- Nine bytes from address 11 to address 3, on which a word and five bytes are moved.
memcpy-bytes_example :
    memcpy 3 11 9 bytes 5 ≡ (if leb 3 5 && ltb 5 (3 + 9) then bytes (11 + (5 - 3)) else bytes 5)
memcpy-bytes_example = memcpy-bytes 3 11 9 bytes (inl (omega arith)) 5

strcpy-Str_example :
    (m' : ℕ → ℕ) × (strcpy 6 40 0 command_line ≡ some m')
    × Str m' 40 command
    × (strlen 6 m' 40 ≡ strlen 6 command_line 0)
    × ((p : ℕ) → (leb 40 p && leb p (40 + length command)) ≡ false → m' p ≡ command_line p)
strcpy-Str_example =
    strcpy-Str 6 40 0 command command_line command-Str (omega arith) (inr (omega arith))
