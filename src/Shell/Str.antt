-- ===== src/Shell/Str.antt =====
-- The loops of `_gettoken` of user/sh.c over the string in the line.
use buaa_os.Base.{
  ℕ, zero, suc, ◌+◌, ◌≤◌, ◌<◌, ◌≡◌, refl, sym, subst, ap, ◌∙◌, Bool, true, false, List, [], ◌∷◌,
  ◌++◌, ◌==◌, length, arith, Bool-cases, inl, inr, ==-refl, ==-ne,
}
use buaa_os.Vm.{update}
use buaa_os.Shell.{skip_space, quote_end, word_end}
use buaa_os.CString.Strings.{Str}
use buaa_os.Shell.Lex.{
  is_space, drop_space, ends_word, word_of, after_word, quote_of, after_quote, kept_space,
}

module _ (line : ℕ → ℕ) where
  pub Str-same :
      (fin : ℕ → ℕ) (i : ℕ) (cs : List ℕ)
      → ((p : ℕ) → i ≤ p → fin p ≡ line p)
      → Str line i cs
      → Str fin i cs
  Str-same fin i [] h e = h i (omega arith) ∙ e
  Str-same fin i (c ∷ cs) h (e, n, r) =
      (h i (omega arith) ∙ e, n, Str-same fin (i + 1) cs (λ p k. h p (omega arith)) r)

  -- The beginning of a string, ended by a 0 behind it.
  pub Str-cut :
      (fin : ℕ → ℕ) (i : ℕ) (w rest : List ℕ)
      → ((p : ℕ) → p < i + length w → fin p ≡ line p)
      → fin (i + length w) ≡ 0
      → Str line i (w ++ rest)
      → Str fin i w
  Str-cut fin i [] rest h z r = subst (λ p. fin p ≡ 0) {x = i + 0} {y = i} (omega arith) z
  Str-cut fin i (c ∷ w) rest h z (e, n, r) = (
    h i (omega arith) ∙ e,
    n,
    Str-cut fin (i + 1) w rest (λ p k. h p (omega arith))
        (subst (λ p. fin p ≡ 0) {x = i + suc (length w)} {y = i + 1 + length w} (omega arith) z) r,
  )

  pub Str-drop : (i : ℕ) (w rest : List ℕ) → Str line i (w ++ rest) → Str line (i + length w) rest
  Str-drop i [] rest r = subst (λ p. Str line p rest) {x = i} {y = i + 0} (omega arith) r
  Str-drop i (c ∷ w) rest (e, n, r) =
      subst (λ p. Str line p rest) {x = i + 1 + length w} {y = i + suc (length w)} (omega arith)
        (Str-drop (i + 1) w rest r)

pub word_split : (cs : List ℕ) → cs ≡ (word_of cs ++ after_word cs)
word_split [] = refl
word_split (c ∷ cs) = elim (Bool-cases (ends_word c)) [
  | inl e ↦ rw e
  | inr e ↦ rw e (ap (λ l. c ∷ l) (word_split cs))
]

pub quote_split : (cs : List ℕ) → cs ≡ (quote_of cs ++ after_quote cs)
quote_split [] = refl
quote_split (c ∷ cs) = elim (Bool-cases (c == 34)) [
  | inl e ↦ rw e
  | inr e ↦ rw e (ap (λ l. c ∷ l) (quote_split cs))
]

pub word_end-word_of :
    (n i : ℕ) (cs : List ℕ) (line : ℕ → ℕ)
    → Str line i cs
    → length cs ≤ n
    → word_end n line i ≡ i + length (word_of cs)
word_end-word_of zero i [] line r h = omega arith
word_end-word_of (suc n) i [] line r h = rw r (omega arith)
word_end-word_of zero i (c ∷ cs) line r h = omega arith
word_end-word_of (suc n) i (c ∷ cs) line (e, z, r) h = rw e (
    rw (==-ne c 0 z) (elim (Bool-cases (ends_word c)) [
      | inl f ↦ rw f (omega arith)
      | inr f ↦ rw f (word_end-word_of n (i + 1) cs line r (omega arith) ∙ omega arith)
    ]))

pub quote_end-quote_of :
    (n i : ℕ) (cs : List ℕ) (line : ℕ → ℕ)
    → Str line i cs
    → length cs ≤ n
    → quote_end n line i ≡ i + length (quote_of cs)
quote_end-quote_of zero i [] line r h = omega arith
quote_end-quote_of (suc n) i [] line r h = rw r (omega arith)
quote_end-quote_of zero i (c ∷ cs) line r h = omega arith
quote_end-quote_of (suc n) i (c ∷ cs) line (e, z, r) h = rw e (
    rw (==-ne c 0 z) (elim (Bool-cases (c == 34)) [
      | inl f ↦ rw f (omega arith)
      | inr f ↦ rw f (quote_end-quote_of n (i + 1) cs line r (omega arith) ∙ omega arith)
    ]))

abbrev pub starts_space : List ℕ → Bool
starts_space [] = false
starts_space (c ∷ cs) = is_space c

-- The white space before a token was passed over, and zeroed.
pub record Skipped (line : ℕ → ℕ) (i : ℕ) (cs : List ℕ) (l : ℕ → ℕ) (j : ℕ) : Type 0 where
  pub str : Str l j (drop_space cs)
  pub below : (p : ℕ) → p < i → l p ≡ line p
  pub gap : starts_space cs ≡ true → (l i ≡ 0) × (i < j)
  pub here : starts_space cs ≡ false → (j ≡ i) × (drop_space cs ≡ cs)
  pub above : i ≤ j

abbrev pub Skips : (ℕ → ℕ) → ℕ → List ℕ → (ℕ → ℕ) × ℕ → Type 0
Skips line i cs (l, j) = Skipped line i cs l j

pub skipped_more :
    (line : ℕ → ℕ) (i c : ℕ) (cs : List ℕ)
    → is_space c ≡ true
    → (r : (ℕ → ℕ) × ℕ) → Skips (update line i 0) (i + 1) cs r
    → Skips line i (c ∷ cs) r
skipped_more line i c cs f (l, j) s = record {
  str = rw f s.str;
  below = λ p k. s.below p (omega arith) ∙ rw (==-ne p i (λ q. omega arith));
  gap = λ g. (s.below i (omega arith) ∙ rw (==-refl i), let a = s.above in omega arith);
  here = λ g. cc;
  above = let a = s.above in omega arith;
}

pub skip_space-Skips :
    (n i : ℕ) (cs : List ℕ) (line : ℕ → ℕ)
    → Str line i cs
    → length cs ≤ n
    → Skips line i cs (skip_space n line i)
skip_space-Skips zero i [] line r h = record {
  str = r;
  below = λ p k. refl;
  gap = λ e. cc;
  here = λ e. (refl, refl);
  above = omega arith;
}
skip_space-Skips (suc n) i [] line r h = rw r record {
  str = r;
  below = λ p k. refl;
  gap = λ e. cc;
  here = λ e. (refl, refl);
  above = omega arith;
}
skip_space-Skips zero i (c ∷ cs) line r h = let bad : ⊥ = omega arith in elim bad [ ]
skip_space-Skips (suc n) i (c ∷ cs) line (e, z, r) h = elim (Bool-cases (is_space c)) [
  | inr f ↦ rw e (
      rw f record {
        str = rw f (e, z, r);
        below = λ p k. refl;
        gap = λ g. cc;
        here = λ g. (refl, sym (kept_space c cs f));
        above = omega arith;
      })
  | inl f ↦
      let line1 : ℕ → ℕ = update line i 0 in
      let r1 : Str line1 (i + 1) cs =
        Str-same line line1 (i + 1) cs (λ p k. rw (==-ne p i (λ q. omega arith))) r in
      let s = skip_space-Skips n (i + 1) cs line1 r1 (omega arith) in
      rw e (rw f (skipped_more line i c cs f (skip_space n line1 (i + 1)) s))
]
