-- ===== src/Shell/Lex.antt =====
-- A lexer that reads the command line once, character by character, as the comment of `_gettoken` of
-- user/sh.c says, the same lexer stopped behind a quoted word, as the code is, and what the loops of
-- the code pass over.
use buaa_os.Base.{
  ℕ, ◌≤◌, ◌≡◌, refl, sym, ap, ◌∙◌, Bool, true, false, ◌||◌, List, [], ◌∷◌, ◌++◌, ◌==◌,
  if◌then◌else◌, length, arith, has, Bool-cases, inl, inr,
}
use buaa_os.Shell.{whitespace, symbols}

-- The lexer: between tokens, in a word, in a quoted word, and behind a quoted word where it reads no
-- more of the line, which is a mode of `lex_to_quote` alone.
pub data Mode : Type 0 where
  between : Mode
  in_word : List ℕ → Mode
  quoted : List ℕ → Mode
  closed : Mode

abbrev pub is_space : ℕ → Bool
is_space c = has c whitespace

abbrev pub is_symbol : ℕ → Bool
is_symbol c = has c symbols

-- A token is its kind, with the characters of a word.
abbrev pub Tok : Type 0
Tok = ℕ × List ℕ

-- A quoted word ends in the mode `after`.
abbrev pub step : Mode → Mode → ℕ → List Tok × Mode
step after between c =
    if is_space c
    then ([], between)
    else if is_symbol c
    then ((c, []) ∷ [], between)
    else if c == 34
    then ([], quoted [])
    else ([], in_word (c ∷ []))
step after (in_word w) c =
    if is_space c
    then ((119, w) ∷ [], between)
    else if is_symbol c
    then ((119, w) ∷ (c, []) ∷ [], between)
    else ([], in_word (w ++ (c ∷ [])))
step after (quoted w) c = if c == 34 then ((119, w) ∷ [], after) else ([], quoted (w ++ (c ∷ [])))
step after closed c = ([], closed)

abbrev pub at_last : Mode → List Tok
at_last between = []
at_last (in_word w) = (119, w) ∷ []
at_last (quoted w) = (119, w) ∷ []
at_last closed = []

-- The lexer: it goes on behind a quoted word to the end of the string.
abbrev pub lex : Mode → List ℕ → List Tok
lex m [] = at_last m
lex m (c ∷ cs) = (step between m c).0 ++ lex (step between m c).1 cs

-- The lexer that stops behind a quoted word.
abbrev pub lex_to_quote : Mode → List ℕ → List Tok
lex_to_quote m [] = at_last m
lex_to_quote m (c ∷ cs) = (step closed m c).0 ++ lex_to_quote (step closed m c).1 cs

-- The line up to and with the closing quote of its first quoted word, and the whole line where it
-- has none that is closed.
abbrev pub closes : Mode → ℕ → Bool
closes between c = false
closes (in_word w) c = false
closes (quoted w) c = c == 34
closes closed c = false

abbrev pub to_quote : Mode → List ℕ → List ℕ
to_quote m [] = []
to_quote m (c ∷ cs) = c ∷ (if closes m c then [] else to_quote (step between m c).1 cs)

-- What the loops of `_gettoken` pass over.
abbrev pub drop_space : List ℕ → List ℕ
drop_space [] = []
drop_space (c ∷ cs) = if is_space c then drop_space cs else c ∷ cs

abbrev pub ends_word : ℕ → Bool
ends_word c = is_space c || is_symbol c

abbrev pub word_of : List ℕ → List ℕ
word_of [] = []
word_of (c ∷ cs) = if ends_word c then [] else c ∷ word_of cs

abbrev pub after_word : List ℕ → List ℕ
after_word [] = []
after_word (c ∷ cs) = if ends_word c then c ∷ cs else after_word cs

abbrev pub quote_of : List ℕ → List ℕ
quote_of [] = []
quote_of (c ∷ cs) = if c == 34 then [] else c ∷ quote_of cs

abbrev pub after_quote : List ℕ → List ℕ
after_quote [] = []
after_quote (c ∷ cs) = if c == 34 then c ∷ cs else after_quote cs

pub snoc_cons : (w cs : List ℕ) (c : ℕ) → ((w ++ (c ∷ [])) ++ cs) ≡ (w ++ (c ∷ cs))
snoc_cons [] cs c = refl
snoc_cons (x ∷ w) cs c = ap (λ l. x ∷ l) (snoc_cons w cs c)

pub append_nil : (w : List ℕ) → (w ++ []) ≡ w
append_nil [] = refl
append_nil (x ∷ w) = ap (λ l. x ∷ l) (append_nil w)

pub lex-closed : (cs : List ℕ) → lex_to_quote closed cs ≡ []
lex-closed [] = refl
lex-closed (c ∷ cs) = lex-closed cs

pub lex-space :
    (c : ℕ) (cs : List ℕ)
    → is_space c ≡ true
    → lex_to_quote between (c ∷ cs) ≡ lex_to_quote between cs
lex-space c cs e = rw e

pub lex-symbol :
    (c : ℕ) (cs : List ℕ)
    → is_space c ≡ false
    → is_symbol c ≡ true
    → lex_to_quote between (c ∷ cs) ≡ (c, []) ∷ lex_to_quote between cs
lex-symbol c cs e f = rw (e, f)

pub kept_space : (c : ℕ) (cs : List ℕ) → is_space c ≡ false → (c ∷ cs) ≡ drop_space (c ∷ cs)
kept_space c cs e = rw e

pub lex-drop_space : (cs : List ℕ) → lex_to_quote between cs ≡ lex_to_quote between (drop_space cs)
lex-drop_space [] = refl
lex-drop_space (c ∷ cs) = elim (Bool-cases (is_space c)) [
  | inl e ↦ lex-space c cs e ∙ rw e (lex-drop_space cs)
  | inr e ↦ ap (λ l. lex_to_quote between l) (kept_space c cs e)
]

pub word_over :
    (w cs : List ℕ) (c : ℕ)
    → ends_word c ≡ true
    → ((119, w) ∷ lex_to_quote between (c ∷ cs))
      ≡ (119, w ++ word_of (c ∷ cs)) ∷ lex_to_quote between (after_word (c ∷ cs))
word_over w cs c e = rw e (ap (λ l. (119, l) ∷ lex_to_quote between (c ∷ cs)) (sym (append_nil w)))

pub lex-in_word :
    (w cs : List ℕ)
    → lex_to_quote (in_word w) cs ≡ (119, w ++ word_of cs) ∷ lex_to_quote between (after_word cs)
lex-in_word w [] = ap (λ l. (119, l) ∷ []) (sym (append_nil w))
lex-in_word w (c ∷ cs) = elim (Bool-cases (is_space c)) [
  | inl e ↦
      let first : lex_to_quote (in_word w) (c ∷ cs) ≡ (119, w) ∷ lex_to_quote between cs = rw e in
      first ∙ ap (λ l. (119, w) ∷ l) (sym (lex-space c cs e)) ∙ word_over w cs c (rw e)
  | inr e ↦ elim (Bool-cases (is_symbol c)) [
    | inl f ↦
        let first : lex_to_quote (in_word w) (c ∷ cs)
            ≡ (119, w) ∷ (c, []) ∷ lex_to_quote between cs =
          rw (e, f) in
        first ∙ ap (λ l. (119, w) ∷ l) (sym (lex-symbol c cs e f)) ∙ word_over w cs c (rw (e, f))
    | inr f ↦
        rw (e, f)
          (lex-in_word (w ++ (c ∷ [])) cs
            ∙ ap (λ l. (119, l) ∷ lex_to_quote between (after_word cs))
                (snoc_cons w (word_of cs) c))
  ]
]

pub lex-quoted : (w cs : List ℕ) → lex_to_quote (quoted w) cs ≡ (119, w ++ quote_of cs) ∷ []
lex-quoted w [] = ap (λ l. (119, l) ∷ []) (sym (append_nil w))
lex-quoted w (c ∷ cs) = elim (Bool-cases (c == 34)) [
  | inl e ↦
      rw e (ap (λ l. (119, w) ∷ l) (lex-closed cs) ∙ ap (λ l. (119, l) ∷ []) (sym (append_nil w)))
  | inr e ↦
      rw e (lex-quoted (w ++ (c ∷ [])) cs ∙ ap (λ l. (119, l) ∷ []) (snoc_cons w (quote_of cs) c))
]

pub lex-word :
    (c : ℕ) (cs : List ℕ)
    → is_space c ≡ false
    → is_symbol c ≡ false
    → (c == 34) ≡ false
    → lex_to_quote between (c ∷ cs) ≡ (119, c ∷ word_of cs) ∷ lex_to_quote between (after_word cs)
lex-word c cs e f g =
    let first : lex_to_quote between (c ∷ cs) ≡ lex_to_quote (in_word (c ∷ [])) cs = rw (e, f, g) in
    first ∙ lex-in_word (c ∷ []) cs

pub length-after_word : (cs : List ℕ) → length (after_word cs) ≤ length cs
length-after_word [] = omega arith
length-after_word (c ∷ cs) = elim (Bool-cases (ends_word c)) [
  | inl e ↦ rw e (omega arith)
  | inr e ↦ rw e (omega (arith, length-after_word cs))
]

abbrev pub ends : List ℕ → Bool
ends [] = true
ends (c ∷ cs) = ends_word c

pub ends-after_word : (cs : List ℕ) → ends (after_word cs) ≡ true
ends-after_word [] = refl
ends-after_word (c ∷ cs) = elim (Bool-cases (ends_word c)) [
  | inl e ↦ rw e (rw e)
  | inr e ↦ rw e (ends-after_word cs)
]
