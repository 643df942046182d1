-- ===== src/Print/Format.antt =====
-- The loop of `vprintfmt` of lib/print.c.
use buaa_os.Base.{
  ℕ, zero, suc, ◌+◌, ◌-◌, ◌*◌, ◌%◌, ◌^◌, ◌≤◌, ◌<◌, ◌≡◌, refl, ap, ◌∙◌, Bool, false, ◌&&◌, leb, ◌==◌,
  if◌then◌else◌, arith, Bool-cases, inl, inr, List, [], ◌∷◌, ◌++◌, Option, none, some, length, has,
}
use buaa_os.Print.{
  Round, stop, go, text, after_text, skip, read_width, int_width, convert, converted, specified,
  round, round_from, vprintfmt, rounds, and_rest,
}

length-after_text : (fmt : List ℕ) → length (after_text fmt) ≤ length fmt
length-after_text [] = omega arith
length-after_text (c ∷ cs) = ground (arith, length-after_text cs)

length-skip : (c : ℕ) (fmt : List ℕ) → length (skip c fmt).1 ≤ length fmt
length-skip c [] = omega arith
length-skip c (d ∷ ds) = elim (Bool-cases (d == c)) [
  | inl i ↦ rw i (omega arith)
  | inr i ↦ rw i (omega arith)
]

length-read_width : (fmt : List ℕ) (w : ℕ) → length (read_width fmt w).1 ≤ length fmt
length-read_width [] w = omega arith
length-read_width (c ∷ cs) w = elim (Bool-cases (leb 48 c && leb c 57)) [
  | inl i ↦ rw i (omega (arith, length-read_width cs ((w * 10 + c - 48) % 2 ^ 32)))
  | inr i ↦ rw i (omega arith)
]

module _ (args : ℕ → ℕ) (string_at : ℕ → List ℕ) where
  -- What is left of the format after a round is shorter than `m`.
  abbrev Shorter : ℕ → Round → Type 0
  Shorter m (stop before) = Unit
  Shorter m (go before fmt ap) = length fmt < m

  converted-Shorter :
      (before fmt : List ℕ) (width : ℕ) (ladjust : Bool) (padc ap m : ℕ)
      → length fmt < m
      → Shorter m (converted args string_at before fmt width ladjust padc ap)
  converted-Shorter before [] width ladjust padc ap m h = h
  converted-Shorter before (c ∷ cs) width ladjust padc ap m h = omega arith

  specified-Shorter :
      (before fmt : List ℕ) (ap m : ℕ)
      → length fmt < m
      → Shorter m (specified args string_at before fmt ap)
  specified-Shorter before fmt ap m h =
      let l = skip 45 fmt in
      let z = skip 48 l.1 in
      let w = read_width z.1 0 in
      converted-Shorter before (skip 108 w.1).1 (int_width w.0) l.0 (if z.0 then 48 else 32) ap m (
        omega (
          arith,
          length-skip 45 fmt,
          length-skip 48 l.1,
          length-read_width z.1 0,
          length-skip 108 w.1,
        ))

  round_from-Shorter :
      (before fmt : List ℕ) (ap m : ℕ)
      → length fmt ≤ m
      → Shorter m (round_from args string_at before fmt ap)
  round_from-Shorter before [] ap m h = tt
  round_from-Shorter before (c ∷ fmt) ap m h = specified-Shorter before fmt ap m (omega arith)

  round-Shorter : (fmt : List ℕ) (ap : ℕ) → Shorter (length fmt) (round args string_at fmt ap)
  unfolding round
  round-Shorter fmt ap =
      round_from-Shorter (text fmt) (after_text fmt) ap (length fmt) (length-after_text fmt)

  -- `text` and `after_text` of a format that starts with a text.
  text-append : (t fmt : List ℕ) → has 37 t ≡ false → text (t ++ fmt) ≡ t ++ text fmt
  text-append [] fmt h = refl
  text-append (c ∷ cs) fmt h =
      let other : (c == 37) ≡ false = ground arith in
      rw other (ap (λ l. c ∷ l) (text-append cs fmt (ground arith)))

  after_text-append : (t fmt : List ℕ) → has 37 t ≡ false → after_text (t ++ fmt) ≡ after_text fmt
  after_text-append [] fmt h = refl
  after_text-append (c ∷ cs) fmt h =
      let other : (c == 37) ≡ false = ground arith in
      rw other (after_text-append cs fmt (ground arith))

append_assoc : (a b c : List ℕ) → (a ++ b) ++ c ≡ a ++ (b ++ c)
append_assoc [] b c = refl
append_assoc (x ∷ xs) b c = ap (λ l. x ∷ l) (append_assoc xs b c)

module _ (args : ℕ → ℕ) (string_at : ℕ → List ℕ) where
  rounds-some :
      (next : List ℕ → ℕ → Option (List ℕ)) (m : ℕ) (r : Round)
      → ((fmt : List ℕ) (ap : ℕ) → length fmt < m → (out : List ℕ) × (next fmt ap ≡ some out))
      → Shorter args string_at m r
      → (out : List ℕ) × (rounds args string_at next r ≡ some out)
  rounds-some next m (stop before) f h = (before, refl)
  rounds-some next m (go before fmt i) f h =
      let (out, p) = f fmt i h in (before ++ out, ap (and_rest args string_at before) p)

  -- More rounds than the format has characters give an output.
  vprintfmt_ends :
      (n : ℕ) (fmt : List ℕ) (ap : ℕ)
      → length fmt < n
      → (out : List ℕ) × (vprintfmt args string_at n fmt ap ≡ some out)
  unfolding vprintfmt
  vprintfmt_ends zero fmt ap h = ground arith
  vprintfmt_ends (suc n) fmt ap h =
      rounds-some (vprintfmt args string_at n) (length fmt) (round args string_at fmt ap)
        (λ rest next k. vprintfmt_ends n rest next (omega arith))
        (round-Shorter args string_at fmt ap)

  -- A round, with more text before.
  abbrev prefixed : List ℕ → Round → Round
  prefixed t (stop before) = stop (t ++ before)
  prefixed t (go before fmt ap) = go (t ++ before) fmt ap

  converted-prefixed :
      (t before fmt : List ℕ) (width : ℕ) (ladjust : Bool) (padc ap : ℕ)
      → converted args string_at (t ++ before) fmt width ladjust padc ap
        ≡ prefixed t (converted args string_at before fmt width ladjust padc ap)
  converted-prefixed t before [] width ladjust padc ap = refl
  converted-prefixed t before (c ∷ cs) width ladjust padc ap =
      rw (append_assoc t before (convert args string_at c width ladjust padc ap).0)

  round_from-prefixed :
      (t before fmt : List ℕ) (ap : ℕ)
      → round_from args string_at (t ++ before) fmt ap
        ≡ prefixed t (round_from args string_at before fmt ap)
  round_from-prefixed t before [] ap = refl
  round_from-prefixed t before (c ∷ fmt) ap =
      let l = skip 45 fmt in
      let z = skip 48 l.1 in
      let w = read_width z.1 0 in
      converted-prefixed t before (skip 108 w.1).1 (int_width w.0) l.0 (if z.0 then 48 else 32) ap

  rounds-prefixed :
      (next : List ℕ → ℕ → Option (List ℕ)) (t : List ℕ) (r : Round)
      → rounds args string_at next (prefixed t r)
        ≡ and_rest args string_at t (rounds args string_at next r)
  rounds-prefixed next t (stop before) = refl
  rounds-prefixed next t (go before fmt i) = joined t before (next fmt i)
    where
      joined :
          (t before : List ℕ) (o : Option (List ℕ))
          → and_rest args string_at (t ++ before) o
            ≡ and_rest args string_at t (and_rest args string_at before o)
      joined t before none = refl
      joined t before (some rest) = ap some (append_assoc t before rest)

  -- Text without `%` at the front of a format is printed as it is, before the output of the rest.
  vprintfmt-text :
      (n : ℕ) (t fmt : List ℕ) (ap : ℕ)
      → has 37 t ≡ false
      → vprintfmt args string_at n (t ++ fmt) ap
        ≡ and_rest args string_at t (vprintfmt args string_at n fmt ap)
  unfolding vprintfmt round
  vprintfmt-text zero t fmt ap h = refl
  vprintfmt-text (suc n) t fmt ap h =
      rw (text-append args string_at t fmt h, after_text-append args string_at t fmt h)
        (rw (round_from-prefixed t (text fmt) (after_text fmt) ap) (
          rounds-prefixed (vprintfmt args string_at n) t
            (round_from args string_at (text fmt) (after_text fmt) ap)))

  -- Where the strings behind the `char *` arguments end, `vprintfmt` comes to the end of the format,
  -- whatever its conversions and the arguments are: more rounds than the format has characters give an
  -- output, and text without `%` in front of the format is printed as it is, with that output behind
  -- it. That the stack has room for the characters of a padded number is not part of the statement.
  pub vprintfmt-some :
      (n : ℕ) (t fmt : List ℕ) (ap : ℕ)
      → has 37 t ≡ false
      → length fmt < n
      → (out : List ℕ) × (vprintfmt args string_at n fmt ap ≡ some out)
        × (vprintfmt args string_at n (t ++ fmt) ap ≡ some (t ++ out))
  vprintfmt-some n t fmt i h l =
      let (out, e) = vprintfmt_ends n fmt i l in
      (out, e, vprintfmt-text n t fmt i h ∙ ap (and_rest args string_at t) e)
