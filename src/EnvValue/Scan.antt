-- ===== src/EnvValue/Scan.antt =====
-- The comparison of names and the search through the variables, in kern/syscall_all.c.
use buaa_os.Base.{
  ℕ, zero, suc, ◌+◌, ◌≤◌, ◌<◌, ◌≡◌, refl, ap, ◌∙◌, Bool, true, false, Option, none, some, List, [],
  ◌∷◌, ltb, ◌==◌, arith, Bool-cases, inl, inr, ==-refl,
}
use buaa_os.EnvValue.{equal, scan}

pub equal_refl : (p : List ℕ) → equal p p ≡ true
equal_refl [] = refl
equal_refl (p ∷ ps) = rw (==-refl p) (equal_refl ps)

-- No character of a string is 0.
abbrev pub IsString : List ℕ → Type 0
IsString [] = Unit
IsString (c ∷ cs) = (0 < c) × IsString cs

pub equal_sound : (p q : List ℕ) → IsString p → IsString q → equal p q ≡ true → p ≡ q
equal_sound [] [] hp hq e = refl
equal_sound [] (q ∷ qs) hp hq e = ground arith
equal_sound (p ∷ ps) [] hp hq e = ground arith
equal_sound (p ∷ ps) (q ∷ qs) (hp, hps) (hq, hqs) e = elim (Bool-cases (p == q)) [
  | inl i ↦
      let tail : equal ps qs ≡ true = (rw i at e) in
      let head : p ≡ q = ground arith in rw head (ap (λ l. q ∷ l) (equal_sound ps qs hps hqs tail))
  | inr i ↦ ground arith
]

-- The first index from `i` on that passes the test, below `i + n`.
abbrev pub Found : ℕ → ℕ → (ℕ → Bool) → Option ℕ → Type 0
Found n i test none = (j : ℕ) → i ≤ j → j < i + n → test j ≡ false
Found n i test (some j) =
    (i ≤ j) × (j < i + n) × (test j ≡ true) × ((m : ℕ) → i ≤ m → m < j → test m ≡ false)

later :
    (n i : ℕ) (test : ℕ → Bool) (o : Option ℕ)
    → test i ≡ false
    → Found n (i + 1) test o
    → Found (suc n) i test o
later n i test none h f = λ j a b. elim (Bool-cases (j == i)) [
  | inl e ↦ let at_i : j ≡ i = ground arith in ap test at_i ∙ h
  | inr e ↦ f j (ground arith) (omega arith)
]
later n i test (some j) h (a, b, c, d) = (
  omega arith,
  omega arith,
  c,
  λ m p q. elim (Bool-cases (m == i)) [
    | inl e ↦ let at_i : m ≡ i = ground arith in ap test at_i ∙ h
    | inr e ↦ d m (ground arith) q
  ],
)

pub scan-Found : (n i : ℕ) (test : ℕ → Bool) → Found n i test (scan n i test)
scan-Found zero i test = λ j a b. ground arith
scan-Found (suc n) i test = elim (Bool-cases (test i)) [
  | inl t ↦ rw t (omega arith, omega arith, t, λ m p q. ground arith)
  | inr t ↦ rw t (later n i test (scan n (i + 1) test) t (scan-Found n (i + 1) test))
]

clash : {A : Type 0} {b : Bool} → b ≡ true → b ≡ false → A
clash t f = cc

-- The search is determined by what it finds.
pub scan-some :
    (n : ℕ) (test : ℕ → Bool) (j : ℕ)
    → j < n
    → test j ≡ true
    → ((m : ℕ) → m < j → test m ≡ false)
    → scan n 0 test ≡ some j
scan-some n test j h t early = here (scan n 0 test) (scan-Found n 0 test)
  where
    here : (o : Option ℕ) → Found n 0 test o → o ≡ some j
    here none f = clash t (f j (omega arith) (omega arith))
    here (some x) (a, b, c, d) = elim (Bool-cases (ltb x j)) [
      | inl p ↦ clash c (early x (ground arith))
      | inr p ↦ elim (Bool-cases (ltb j x)) [
        | inl q ↦ clash t (d j (omega arith) (ground arith))
        | inr q ↦ let at_j : x ≡ j = ground arith in ap some at_j
      ]
    ]

pub scan-none :
    (n : ℕ) (test : ℕ → Bool) → ((m : ℕ) → m < n → test m ≡ false) → scan n 0 test ≡ none
scan-none n test h = here (scan n 0 test) (scan-Found n 0 test)
  where
    here : (o : Option ℕ) → Found n 0 test o → o ≡ none
    here none f = refl
    here (some x) (a, b, c, d) = clash c (h x (omega arith))
