-- ===== src/Shell/Quote.antt =====
-- The lexer that stops behind a quoted word against the one that reads on (user/sh.c, `_gettoken`).
use buaa_os.Base.{ℕ, ◌≡◌, refl, ap, List, [], ◌∷◌, ◌++◌, ◌==◌, Bool-cases, inl, inr}
use buaa_os.Shell.Lex.{
  Mode, between, in_word, quoted, closed, lex-closed, is_space, is_symbol, lex, lex_to_quote,
  to_quote,
}

-- The lexer that stops behind a quoted word reads what the other one does in the line up to there.
abbrev pub Open : Mode → Type 0
Open closed = ⊥
Open _ = Unit

pub lex_to_quote-lex : (m : Mode) (cs : List ℕ) → Open m → lex_to_quote m cs ≡ lex m (to_quote m cs)
lex_to_quote-lex m [] o = refl
lex_to_quote-lex between (c ∷ cs) o = elim (Bool-cases (is_space c)) [
  | inl e ↦ rw e (lex_to_quote-lex between cs tt)
  | inr e ↦ elim (Bool-cases (is_symbol c)) [
    | inl f ↦ rw (e, f) (ap (λ l. (c, []) ∷ l) (lex_to_quote-lex between cs tt))
    | inr f ↦ elim (Bool-cases (c == 34)) [
      | inl g ↦ rw (e, f, g) (lex_to_quote-lex (quoted []) cs tt)
      | inr g ↦ rw (e, f, g) (lex_to_quote-lex (in_word (c ∷ [])) cs tt)
    ]
  ]
]
lex_to_quote-lex (in_word w) (c ∷ cs) o = elim (Bool-cases (is_space c)) [
  | inl e ↦ rw e (ap (λ l. (119, w) ∷ l) (lex_to_quote-lex between cs tt))
  | inr e ↦ elim (Bool-cases (is_symbol c)) [
    | inl f ↦ rw (e, f) (ap (λ l. (119, w) ∷ (c, []) ∷ l) (lex_to_quote-lex between cs tt))
    | inr f ↦ rw (e, f) (lex_to_quote-lex (in_word (w ++ (c ∷ []))) cs tt)
  ]
]
lex_to_quote-lex (quoted w) (c ∷ cs) o = elim (Bool-cases (c == 34)) [
  | inl g ↦ rw g (ap (λ l. (119, w) ∷ l) (lex-closed cs))
  | inr g ↦ rw g (lex_to_quote-lex (quoted (w ++ (c ∷ []))) cs tt)
]
lex_to_quote-lex closed (c ∷ cs) o = elim o [ ]
