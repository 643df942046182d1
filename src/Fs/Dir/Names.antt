-- ===== src/Fs/Dir/Names.antt =====
-- A name that was written to a slot is read there (fs/fs.c).
use buaa_os.Base.{
  ℕ, ◌+◌, ◌/◌, ◌%◌, ◌≤◌, ◌<◌, ◌≡◌, refl, ◌∙◌, sym, subst, true, false, ◌&&◌, List, [], ◌∷◌, leb,
  ◌==◌, if◌then◌else◌, length, arith, Bool-cases, inl, inr, ==-refl,
}
use buaa_os.Run.{ok}
use buaa_os.Vm.{update_word}
use buaa_os.Fs.{Fs}
use buaa_os.Fs.Dir.{byte_weight, byte_at, with_byte, name_is, put_name}
use buaa_os.Fs.Dir.Bytes.{with_byte-same, with_byte-other}

-- The characters of a name.
abbrev pub Name : List ℕ → Type 0
Name [] = Unit
Name (c ∷ cs) = (0 < c) × (c < 256) × Name cs

-- The cache with byte `k` from word `w` of page `b` on set.
abbrev pub with_char : ℕ → ℕ → ℕ → ℕ → Fs → Fs
with_char b w k c s = record s {
  mem = update_word s.mem b (w + k / 4) (with_byte (s.mem b (w + k / 4)) k c);
}

byte_at-with_char :
    (b w k j c : ℕ) (s : Fs)
    → c < 256
    → byte_at (with_char b w k c s) (b, w) j ≡ (if j == k then c else byte_at s (b, w) j)
byte_at-with_char b w k j c s h = rw (==-refl b) (elim (Bool-cases (w + j / 4 == w + k / 4)) [
  | inr e ↦ let d : (j == k) ≡ false = ground arith in rw (e, d)
  | inl e ↦ rw e (elim (Bool-cases (j == k)) [
    | inl i ↦
        let at_k : j ≡ k = ground arith in
        rw i (
          subst (λ q. with_byte (s.mem b (w + q / 4)) q c / byte_weight j % 256 ≡ c) at_k
            (with_byte-same (s.mem b (w + j / 4)) j c h))
    | inr i ↦
        let at_word : w + k / 4 ≡ w + j / 4 = ground arith in
        rw i (
          subst
            (λ q.
              with_byte (s.mem b q) k c / byte_weight j % 256
              ≡ s.mem b (w + j / 4) / byte_weight j % 256)
            (sym at_word) (with_byte-other (s.mem b (w + j / 4)) k j c h (ground arith)))
  ])
])

-- The cache after the name was written.
abbrev pub with_name : ℕ → ℕ → ℕ → List ℕ → Fs → Fs
with_name b w k [] s = with_char b w k 0 s
with_name b w k (c ∷ cs) s = with_name b w (k + 1) cs (with_char b w k c s)

pub put_name-ok :
    (b w k : ℕ) (name : List ℕ) (s : Fs) → put_name (b, w) k name s ≡ ok tt (with_name b w k name s)
unfolding put_name
put_name-ok b w k [] s = refl
put_name-ok b w k (c ∷ cs) s = put_name-ok b w (k + 1) cs (with_char b w k c s)

byte_at-with_name :
    (b w k j : ℕ) (name : List ℕ) (s : Fs)
    → Name name
    → j < k
    → byte_at (with_name b w k name s) (b, w) j ≡ byte_at s (b, w) j
byte_at-with_name b w k j [] s v h =
    byte_at-with_char b w k j 0 s (omega arith) ∙ (let d : (j == k) ≡ false = ground arith in rw d)
byte_at-with_name b w k j (c ∷ cs) s (lo, hi, v) h =
    byte_at-with_name b w (k + 1) j cs (with_char b w k c s) v (omega arith)
    ∙ byte_at-with_char b w k j c s hi
    ∙ (let d : (j == k) ≡ false = ground arith in rw d)

pub name_is-with_name :
    (b w k : ℕ) (name : List ℕ) (s : Fs)
    → Name name
    → name_is (with_name b w k name s) (b, w) k name ≡ true
name_is-with_name b w k [] s v = rw (byte_at-with_char b w k k 0 s (omega arith)) (rw (==-refl k))
name_is-with_name b w k (c ∷ cs) s (lo, hi, v) =
    let here : byte_at (with_name b w (k + 1) cs (with_char b w k c s)) (b, w) k ≡ c =
      byte_at-with_name b w (k + 1) k cs (with_char b w k c s) v (omega arith)
      ∙ byte_at-with_char b w k k c s hi
      ∙ rw (==-refl k) in
    rw here (rw (==-refl c, name_is-with_name b w (k + 1) cs (with_char b w k c s) v))

pub with_name-only_mem :
    (b w k : ℕ) (name : List ℕ) (s : Fs)
    → with_name b w k name s ≡ record s { mem = (with_name b w k name s).mem }
with_name-only_mem b w k [] s = refl
with_name-only_mem b w k (c ∷ cs) s = with_name-only_mem b w (k + 1) cs (with_char b w k c s)

char_others :
    (b w k p q c : ℕ) (s : Fs)
    → ((p == b) && (q == w + k / 4)) ≡ false
    → (with_char b w k c s).mem p q ≡ s.mem p q
char_others b w k p q c s h = elim (Bool-cases (p == b)) [
  | inl e ↦ let d : (q == w + k / 4) ≡ false = ground arith in rw (e, d)
  | inr e ↦ rw e
]

-- Words before the name's first or behind its last, and those of other pages.
pub with_name-others :
    (b w k p q : ℕ) (name : List ℕ) (s : Fs)
    → ((p == b) && (leb (w + k / 4) q && leb q (w + (k + length name) / 4))) ≡ false
    → (with_name b w k name s).mem p q ≡ s.mem p q
with_name-others b w k p q [] s h = char_others b w k p q 0 s (ground arith)
with_name-others b w k p q (c ∷ cs) s h =
    with_name-others b w (k + 1) p q cs (with_char b w k c s) (ground arith)
    ∙ char_others b w k p q c s (ground arith)

pub name_is-same :
    (b w k : ℕ) (name : List ℕ) (s s' : Fs)
    → ((j : ℕ) → j ≤ k + length name → s'.mem b (w + j / 4) ≡ s.mem b (w + j / 4))
    → name_is s' (b, w) k name ≡ name_is s (b, w) k name
name_is-same b w k [] s s' h = rw (h k (omega arith))
name_is-same b w k (c ∷ cs) s s' h =
    rw (h k (omega arith), name_is-same b w (k + 1) cs s s' (λ j l. h j (omega arith)))
