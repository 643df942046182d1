-- ===== src/Shell.antt =====
-- The tokens of the shell, user/sh.c: `_gettoken` and `gettoken`. The command line is a buffer of
-- characters that ends with a 0; a `char *` into it is a position, and `none` is the null pointer.
-- A token's word is ended by a 0 that the search for the next token writes.
pub mod Lex
pub mod Quote
pub mod Str
pub mod Tokens
use buaa_os.Base.{
  ℕ, zero, suc, ◌+◌, Bool, true, false, not, ◌&&◌, ◌||◌, Option, none, some, List, [], ◌∷◌, ◌==◌,
  if◌then◌else◌, has,
}
use buaa_os.Vm.{update}

-- " \t\r\n".
abbrev pub whitespace : List ℕ
whitespace = 32 ∷ 9 ∷ 13 ∷ 10 ∷ []

-- "<|>&;()".
abbrev pub symbols : List ℕ
symbols = 60 ∷ 124 ∷ 62 ∷ 38 ∷ 59 ∷ 40 ∷ 41 ∷ []

-- `strchr(s, c)` of lib/string.c is not null; it does not find the 0 at the end.
abbrev pub strchr : List ℕ → ℕ → Bool
strchr s c = has c s

-- What `_gettoken` leaves behind: the line, the result, `*p1` and `*p2`.
pub record Token : Type 0 where
  pub line : ℕ → ℕ
  pub kind : ℕ
  pub p1 : Option ℕ
  pub p2 : Option ℕ

-- The loops over the characters from `s` on, with `n` rounds left.
abbrev pub skip_space : ℕ → (ℕ → ℕ) → ℕ → (ℕ → ℕ) × ℕ
skip_space zero line s = (line, s)
skip_space (suc n) line s =
    let rest = skip_space n (update line s 0) (s + 1) in
    if strchr whitespace (line s) then rest else (line, s)

abbrev pub quote_end : ℕ → (ℕ → ℕ) → ℕ → ℕ
quote_end zero line s = s
quote_end (suc n) line s =
    let rest = quote_end n line (s + 1) in if (line s == 0) || (line s == 34) then s else rest

abbrev pub word_end : ℕ → (ℕ → ℕ) → ℕ → ℕ
word_end zero line s = s
word_end (suc n) line s =
    let rest = word_end n line (s + 1) in
    if (line s == 0) || (strchr whitespace (line s) || strchr symbols (line s)) then s else rest

-- The letter w.
abbrev pub word_kind : ℕ
word_kind = 119

-- The part of `_gettoken` after the white space.
unfoldable pub token_at : ℕ → (ℕ → ℕ) × ℕ → Token
token_at n (line, s) =
    if line s == 0
    then record { line = line; kind = 0; p1 = none; p2 = none }
    else if strchr symbols (line s)
    then record { line = update line s 0; kind = line s; p1 = some s; p2 = some (s + 1) }
    else if line s == 34
    then (let e = quote_end n line (s + 1) in
        record { line = update line e 0; kind = word_kind; p1 = some (s + 1); p2 = some e })
    else record { line = line; kind = word_kind; p1 = some s; p2 = some (word_end n line s) }

-- `n` is at least the number of characters of the line.
unfoldable pub _gettoken : ℕ → (ℕ → ℕ) → Option ℕ → Token
unfolding token_at
_gettoken n line none = record { line = line; kind = 0; p1 = none; p2 = none }
_gettoken n line (some s) = token_at n (skip_space n line s)

-- `gettoken(0, &t)`: the static variables hold the token that was found before, and the next one is
-- looked for. The result is `c` and `*p1`.
unfoldable pub gettoken : ℕ → Token → ℕ × Option ℕ × Token
unfolding _gettoken
gettoken n t = (t.kind, t.p1, _gettoken n t.line t.p2)

-- The tokens that `parsecmd` gets one by one until the result 0, and the line at the end; `m` bounds
-- their number.
unfoldable pub get_tokens : ℕ → ℕ → Token → List (ℕ × Option ℕ) × (ℕ → ℕ)
unfolding gettoken
get_tokens zero n t = ([], t.line)
get_tokens (suc m) n t =
    let (c, p, next) = gettoken n t in
    let (l, line) = get_tokens m n next in if c == 0 then ([], next.line) else ((c, p) ∷ l, line)

-- `gettoken(s, 0)` and then all tokens.
unfoldable pub tokenize : ℕ → (ℕ → ℕ) → List (ℕ × Option ℕ) × (ℕ → ℕ)
unfolding get_tokens _gettoken
tokenize n line = get_tokens (suc n) n (_gettoken n line (some 0))
