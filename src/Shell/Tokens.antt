-- ===== src/Shell/Tokens.antt =====
-- The tokens of user/sh.c against a lexer that reads the line once, character by character.
use buaa_os.Base.{
  ℕ, zero, suc, ◌+◌, ◌≤◌, ◌<◌, ◌≡◌, ◌≢◌, refl, sym, subst, ◌∙◌, true, false, Option, some, List, [],
  ◌∷◌, ◌++◌, ◌==◌, length, arith, Bool-cases, inl, inr, ==-refl, ==-ne,
}
use buaa_os.Vm.{update}
use buaa_os.Shell.{
  skip_space, quote_end, word_end, token_at, _gettoken, gettoken, get_tokens, tokenize,
}
use buaa_os.Shell.Lex.{
  ends, between, is_space, is_symbol, Tok, lex, lex_to_quote, to_quote, drop_space, word_of,
  after_word, quote_of, after_quote, lex-symbol, lex-drop_space, lex-quoted, lex-word,
  length-after_word, ends-after_word,
}
use buaa_os.Shell.Quote.{lex_to_quote-lex}
use buaa_os.CString.Strings.{Str}
use buaa_os.Shell.Str.{
  Str-same, Str-cut, Str-drop, word_split, quote_split, word_end-word_of, quote_end-quote_of,
  starts_space, Skips, skip_space-Skips, Skipped,
}

-- The tokens with their words in the line `fin`.
abbrev pub Words : (ℕ → ℕ) → List (ℕ × Option ℕ) → List Tok → Type 0
Words fin [] [] = Unit
Words fin ((k, p) ∷ l) ((k', w) ∷ ts) =
    (k ≡ k') × ((q : ℕ) × (p ≡ some q) × Str fin q w) × Words fin l ts
Words fin _ _ = ⊥

-- The tokens of the string `cs` at position `i` of the line were found.
record Found (line : ℕ → ℕ) (i : ℕ) (cs : List ℕ) (l : List (ℕ × Option ℕ)) (fin : ℕ → ℕ)
    : Type 0 where
  pub words : Words fin l (lex_to_quote between cs)
  pub below : (p : ℕ) → p < i → fin p ≡ line p
  pub stop : ends cs ≡ true → fin i ≡ 0

abbrev Finds : (ℕ → ℕ) → ℕ → List ℕ → List (ℕ × Option ℕ) × (ℕ → ℕ) → Type 0
Finds line i cs (l, fin) = Found line i cs l fin

-- The tokens from a position on are found with `m` rounds.
abbrev Works : ℕ → ℕ → Type 0
Works m n =
    (i : ℕ) (cs : List ℕ) (line : ℕ → ℕ)
    → Str line i cs
    → length cs ≤ n
    → length cs < m
    → Finds line i cs (get_tokens m n (_gettoken n line (some i)))

-- One more token.
abbrev consed : ℕ × Option ℕ → List (ℕ × Option ℕ) × (ℕ → ℕ) → List (ℕ × Option ℕ) × (ℕ → ℕ)
consed t (l, line) = (t ∷ l, line)

get_tokens-more :
    (m n k : ℕ) (line : ℕ → ℕ) (p1 p2 : Option ℕ)
    → k ≢ 0
    → get_tokens (suc m) n (record { line = line; kind = k; p1 = p1; p2 = p2 })
      ≡ consed (k, p1) (get_tokens m n (_gettoken n line p2))
unfolding get_tokens gettoken
get_tokens-more m n k line p1 p2 h = rw (==-ne k 0 h)

module _ (m n j : ℕ) (line : ℕ → ℕ) (ih : Works m n) where
  symbol_found :
      (c : ℕ) (cs : List ℕ)
      → Str line j (c ∷ cs)
      → is_space c ≡ false
      → is_symbol c ≡ true
      → length cs < n
      → length cs < m
      → Finds line j (c ∷ cs) (get_tokens (suc m) n (token_at n (line, j)))
  unfolding token_at
  symbol_found c cs (e, z, r) f g h h' =
      let line1 : ℕ → ℕ = update line j 0 in
      let r1 : Str line1 (j + 1) cs =
        Str-same line line1 (j + 1) cs (λ p k. rw (==-ne p j (λ q. omega arith))) r in
      rw e (
        rw (==-ne c 0 z) (
          rw g (
            rw (get_tokens-more m n c line1 (some j) (some (j + 1)) z) (
              after (get_tokens m n (_gettoken n line1 (some (j + 1))))
                (ih (j + 1) cs line1 r1 (omega arith) h')))))
    where
      after :
          (o : List (ℕ × Option ℕ) × (ℕ → ℕ))
          → Finds (update line j 0) (j + 1) cs o
          → Finds line j (c ∷ cs) (consed (c, some j) o)
      after (l, fin) s =
          let zero_there : fin j ≡ 0 = s.below j (omega arith) ∙ rw (==-refl j) in
          record {
            words =
                subst (λ ts. Words fin ((c, some j) ∷ l) ts) (sym (lex-symbol c cs f g))
                  (refl, (j, refl, zero_there), s.words);
            below = λ p k. s.below p (omega arith) ∙ rw (==-ne p j (λ q. omega arith));
            stop = λ x. zero_there;
          }

  word_found :
      (c : ℕ) (cs : List ℕ)
      → Str line j (c ∷ cs)
      → is_space c ≡ false
      → is_symbol c ≡ false
      → (c == 34) ≡ false
      → length cs < n
      → length cs < m
      → Finds line j (c ∷ cs) (get_tokens (suc m) n (token_at n (line, j)))
  unfolding token_at
  word_found c cs (e, z, r) f f' g h h' =
      let w = c ∷ word_of cs in
      let last : word_end n line j ≡ j + length w =
        word_end-word_of n j (c ∷ cs) line (e, z, r) (omega arith) ∙ rw (f, f') in
      let whole : Str line j (w ++ after_word cs) =
        subst (λ l. Str line j (c ∷ l)) (word_split cs) (e, z, r) in
      let r1 : Str line (j + length w) (after_word cs) = Str-drop line j w (after_word cs) whole in
      rw e (
        rw (==-ne c 0 z) (
          rw f' (
            rw g (
              rw last (
                rw (get_tokens-more m n 119 line (some j) (some (j + length w)) (λ q. omega arith))
                  (after whole (get_tokens m n (_gettoken n line (some (j + length w)))) (
                    ih (j + length w) (after_word cs) line r1 (omega (arith, length-after_word cs))
                      (omega (arith, length-after_word cs)))))))))
    where
      after :
          Str line j ((c ∷ word_of cs) ++ after_word cs)
          → (o : List (ℕ × Option ℕ) × (ℕ → ℕ))
          → Finds line (j + suc (length (word_of cs))) (after_word cs) o
          → Finds line j (c ∷ cs) (consed (119, some j) o)
      after whole (l, fin) s = record {
        words =
            subst (λ ts. Words fin ((119, some j) ∷ l) ts) (sym (lex-word c cs f f' g))
              (
                refl,
                (
                  j,
                  refl,
                  Str-cut line fin j (c ∷ word_of cs) (after_word cs) s.below
                      (s.stop (ends-after_word cs)) whole,
                ),
                s.words,
              );
        below = λ p k. s.below p (omega arith);
        stop = λ x. cc;
      }

  quote_found :
      (cs : List ℕ)
      → Str line j (34 ∷ cs)
      → length cs < n
      → length cs < m
      → Finds line j (34 ∷ cs) (get_tokens (suc m) n (token_at n (line, j)))
  unfolding token_at
  quote_found cs (e, z, r) h h' =
      let q = j + 1 + length (quote_of cs) in
      let last : quote_end n line (j + 1) ≡ q =
        quote_end-quote_of n (j + 1) cs line r (omega arith) in
      let whole : Str line (j + 1) (quote_of cs ++ after_quote cs) =
        subst (λ l. Str line (j + 1) l) (quote_split cs) r in
      let line1 : ℕ → ℕ = update line q 0 in
      rw e (
        rw last (
          rw (get_tokens-more m n 119 line1 (some (j + 1)) (some q) (λ x. omega arith)) (
            after q refl whole (get_tokens m n (_gettoken n line1 (some q)))
              (ih q [] line1 (rw (==-refl q)) (omega arith) (omega arith)))))
    where
      after :
          (q : ℕ)
          → q ≡ j + 1 + length (quote_of cs)
          → Str line (j + 1) (quote_of cs ++ after_quote cs)
          → (o : List (ℕ × Option ℕ) × (ℕ → ℕ)) → Finds (update line q 0) q [] o
          → Finds line j (34 ∷ cs) (consed (119, some (j + 1)) o)
      after q at_q whole (l, fin) s = record {
        words =
            subst (λ ts. Words fin ((119, some (j + 1)) ∷ l) ts) (sym (lex-quoted [] cs))
              (
                refl,
                (
                  j + 1,
                  refl,
                  Str-cut line fin (j + 1) (quote_of cs) (after_quote cs)
                      (λ p k. s.below p (omega arith) ∙ rw (==-ne p q (λ x. omega arith)))
                      (subst (λ p. fin p ≡ 0) at_q (s.stop refl)) whole,
                ),
                s.words,
              );
        below = λ p k. s.below p (omega arith) ∙ rw (==-ne p q (λ x. omega arith));
        stop = λ x. cc;
      }

end_found :
    (m n j : ℕ) (line : ℕ → ℕ)
    → line j ≡ 0
    → Finds line j [] (get_tokens (suc m) n (token_at n (line, j)))
unfolding token_at get_tokens gettoken _gettoken
end_found m n j line e = rw e record { words = tt; below = λ p k. refl; stop = λ x. e }

token_found :
    (m n j : ℕ) (ds : List ℕ) (line : ℕ → ℕ)
    → Works m n
    → Str line j ds
    → starts_space ds ≡ false
    → length ds ≤ n
    → length ds ≤ m
    → Finds line j ds (get_tokens (suc m) n (token_at n (line, j)))
token_found m n j [] line ih r s h h' = end_found m n j line r
token_found m n j (c ∷ cs) line ih r s h h' = elim (Bool-cases (is_symbol c)) [
  | inl f ↦ symbol_found m n j line ih c cs r s f (omega arith) (omega arith)
  | inr f ↦ elim (Bool-cases (c == 34)) [
    | inl g ↦
        let quote : c ≡ 34 = ground arith in
        subst (λ x. Finds line j (x ∷ cs) (get_tokens (suc m) n (token_at n (line, j)))) (sym quote)
          (quote_found m n j line ih cs (subst (λ x. Str line j (x ∷ cs)) quote r) (omega arith)
            (omega arith))
    | inr g ↦ word_found m n j line ih c cs r s f g (omega arith) (omega arith)
  ]
]

drop_space_lem :
    (cs : List ℕ) → (starts_space (drop_space cs) ≡ false) × (length (drop_space cs) ≤ length cs)
drop_space_lem [] = (refl, omega arith)
drop_space_lem (c ∷ cs) = elim (Bool-cases (is_space c)) [
  | inl e ↦ let (a, b) = drop_space_lem cs in rw e (a, omega arith)
  | inr e ↦ rw e (e, omega arith)
]

-- What is found behind the white space is found from before it.
space_found :
    (line : ℕ → ℕ) (i : ℕ) (cs : List ℕ) (l' : ℕ → ℕ) (j : ℕ)
    → Skipped line i cs l' j
    → (o : List (ℕ × Option ℕ) × (ℕ → ℕ)) → Finds l' j (drop_space cs) o
    → Finds line i cs o
space_found line i cs l' j s (l, fin) f = record {
  words = subst (λ ts. Words fin l ts) (sym (lex-drop_space cs)) f.words;
  below = λ p k. f.below p (let a = s.above in omega arith) ∙ s.below p k;
  stop = λ x. elim (Bool-cases (starts_space cs)) [
    | inl e ↦ let (z, lt) = s.gap e in f.below i lt ∙ z
    | inr e ↦
        let (at_i, same) = s.here e in
        subst (λ p. fin p ≡ 0) at_i (f.stop (subst (λ t. ends t ≡ true) (sym same) x))
  ];
}

works : (m n : ℕ) → Works m n
unfolding _gettoken
works zero n i cs line r h h' = let bad : ⊥ = omega arith in elim bad [ ]
works (suc m) n i cs line r h h' =
    skipped (works m n) (skip_space n line i) (skip_space-Skips n i cs line r h)
  where
    skipped :
        Works m n
        → (t : (ℕ → ℕ) × ℕ) → Skips line i cs t
        → Finds line i cs (get_tokens (suc m) n (token_at n t))
    skipped ih (l', j) s =
        let (a, b) = drop_space_lem cs in
        space_found line i cs l' j s (get_tokens (suc m) n (token_at n (l', j)))
          (token_found m n j (drop_space cs) l' ih s.str a (omega arith) (omega arith))

-- A line of at most `n` characters is tokenized as the lexer reads the part of it up to the closing
-- quote of its first quoted word, and the whole line where it has no closed quoted word: the kinds are
-- those of the lexer's tokens, in order, and in the line that is left behind each pointer is to the
-- characters of its token, ended by a 0. What stands behind the first quoted word is not read.
pub tokenize-lex :
    (n : ℕ) (cs : List ℕ) (line : ℕ → ℕ)
    → Str line 0 cs
    → length cs ≤ n
    → (l : List (ℕ × Option ℕ)) × (fin : ℕ → ℕ) × (tokenize n line ≡ (l, fin))
      × Words fin l (lex between (to_quote between cs))
unfolding tokenize
tokenize-lex n cs line r h =
    let o = get_tokens (suc n) n (_gettoken n line (some 0)) in
    (
      o.0,
      o.1,
      refl,
      subst (λ ts. Words o.1 o.0 ts) (lex_to_quote-lex between cs tt)
          (works (suc n) n 0 cs line r h (omega arith)).words,
    )
