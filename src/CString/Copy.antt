-- ===== src/CString/Copy.antt =====
-- `memcpy` and `memset` of lib/string.c byte by byte.
use buaa_os.Base.{
  ℕ, zero, suc, ◌+◌, ◌-◌, ◌/◌, ◌%◌, ◌^◌, ◌≤◌, ◌<◌, ◌≡◌, ◌⊎◌, refl, sym, ap, ◌∙◌, subst, fun_ext,
  true, false, ◌&&◌, ltb, leb, ◌==◌, if◌then◌else◌, arith, Bool-cases, inl, inr, passes_below,
  passes_below_at, ==_iff,
}
use buaa_os.CString.{
  move, copy_bytes, copy_words, copy_aligned, memcpy, store_bytes, word_of, fill_bytes, fill_words,
  fill_aligned, memset,
}

-- Copying upwards is safe: the source is not below the destination, or ends before it.
abbrev pub Safe : ℕ → ℕ → ℕ → Type 0
Safe dst src n = (dst ≤ src) ⊎ (src + n ≤ dst)

no_bytes : (dst src : ℕ) (m : ℕ → ℕ) → m ≡ move 0 dst src m
no_bytes dst src m =
    fun_ext λ p. let no : (leb dst p && ltb p (dst + 0)) ≡ false = ground arith in rw no

-- A byte that is read later was not written.
not_written :
    (k n dst src p : ℕ)
    → Safe dst src (k + n)
    → dst + k ≤ p
    → p < dst + k + n
    → (leb dst (src + k + (p - (dst + k))) && ltb (src + k + (p - (dst + k))) (dst + k)) ≡ false
not_written k n dst src p safe h l = elim safe [ inl e ↦ ground arith | inr e ↦ ground arith ]

pub two_moves :
    (k n dst src : ℕ) (m : ℕ → ℕ)
    → Safe dst src (k + n)
    → move n (dst + k) (src + k) (move k dst src m) ≡ move (k + n) dst src m
two_moves k n dst src m safe = fun_ext λ p.
    elim (Bool-cases (leb (dst + k) p && ltb p (dst + k + n))) [
      | inl t ↦
          let no = not_written k n dst src p safe (ground arith) (ground arith) in
          let u : (leb dst p && ltb p (dst + (k + n))) ≡ true = ground arith in
          rw (t, no, u) (ap m (ground arith))
      | inr t ↦ rw t (elim (Bool-cases (leb dst p && ltb p (dst + k))) [
        | inl e ↦ let u : (leb dst p && ltb p (dst + (k + n))) ≡ true = ground arith in rw (e, u)
        | inr e ↦ let u : (leb dst p && ltb p (dst + (k + n))) ≡ false = ground arith in rw (e, u)
      ])
    ]

pub Safe-rest : (k n dst src : ℕ) → Safe dst src (k + n) → Safe (dst + k) (src + k) n
Safe-rest k n dst src safe = elim safe [ inl e ↦ inl (omega arith) | inr e ↦ inr (omega arith) ]

copy_bytes-move :
    (n dst src : ℕ) (m : ℕ → ℕ) → Safe dst src n → copy_bytes n dst src m ≡ move n dst src m
unfolding copy_bytes
copy_bytes-move zero dst src m safe = no_bytes dst src m
copy_bytes-move (suc n) dst src m safe =
    let one : suc n ≡ 1 + n = omega arith in
    let safe1 : Safe dst src (1 + n) = subst (Safe dst src) one safe in
    copy_bytes-move n (dst + 1) (src + 1) (move 1 dst src m) (Safe-rest 1 n dst src safe1)
    ∙ two_moves 1 n dst src m safe1
    ∙ ap (λ k. move k dst src m) (sym one)

copy_words-move :
    (k n dst src : ℕ) (m : ℕ → ℕ) → Safe dst src n → copy_words k n dst src m ≡ move n dst src m
unfolding copy_words
copy_words-move zero n dst src m safe = copy_bytes-move n dst src m safe
copy_words-move (suc k) n dst src m safe = elim (Bool-cases (leb 4 n)) [
  | inl e ↦
      let four : n ≡ 4 + (n - 4) = ground arith in
      let safe4 : Safe dst src (4 + (n - 4)) = subst (Safe dst src) four safe in
      rw e (
        copy_words-move k (n - 4) (dst + 4) (src + 4) (move 4 dst src m)
          (Safe-rest 4 (n - 4) dst src safe4)
        ∙ two_moves 4 (n - 4) dst src m safe4
        ∙ ap (λ j. move j dst src m) (sym four))
  | inr e ↦ rw e (copy_bytes-move n dst src m safe)
]

copy_aligned-move :
    (n dst src : ℕ) (m : ℕ → ℕ) → Safe dst src n → copy_aligned n dst src m ≡ move n dst src m
unfolding copy_aligned
copy_aligned-move zero dst src m safe = copy_words-move zero zero dst src m safe
copy_aligned-move (suc n) dst src m safe = elim (Bool-cases (dst % 4 == 0)) [
  | inl e ↦ rw e (copy_words-move (suc n) (suc n) dst src m safe)
  | inr e ↦
      let one : suc n ≡ 1 + n = omega arith in
      let safe1 : Safe dst src (1 + n) = subst (Safe dst src) one safe in
      rw e (
        copy_aligned-move n (dst + 1) (src + 1) (move 1 dst src m) (Safe-rest 1 n dst src safe1)
        ∙ two_moves 1 n dst src m safe1
        ∙ ap (λ k. move k dst src m) (sym one))
]

-- Where the source is not below the destination or ends before it, `memcpy` copies the `n` bytes as
-- they were before, for every alignment, and changes no other byte.
pub memcpy-bytes :
    (dst src n : ℕ) (m : ℕ → ℕ)
    → Safe dst src n
    → (p : ℕ)
    → memcpy dst src n m p ≡ (if leb dst p && ltb p (dst + n) then m (src + (p - dst)) else m p)
unfolding memcpy
memcpy-bytes dst src n m safe p = elim (Bool-cases (src % 4 == dst % 4)) [
  | inl e ↦ rw e (ap (λ f. f p) (copy_aligned-move n dst src m safe))
  | inr e ↦ rw e (ap (λ f. f p) (copy_bytes-move n dst src m safe))
]

-- The memory with `n` bytes `b` from `dst` on.
abbrev filled : ℕ → ℕ → ℕ → (ℕ → ℕ) → ℕ → ℕ
filled n dst b m p = if leb dst p && ltb p (dst + n) then b else m p

same_bytes : passes_below (λ b. passes_below (λ i. word_of b / 256 ^ i % 256 == b) 4) 256 ≡ true
unfolding passes_below
same_bytes = refl

byte_of_word : (b i : ℕ) → b < 256 → i < 4 → word_of b / 256 ^ i % 256 ≡ b
byte_of_word b i h l = (==_iff _ _).0 (
    passes_below_at _ 4 i l (
      passes_below_at (λ c. passes_below (λ j. word_of c / 256 ^ j % 256 == c) 4) 256 b h
        same_bytes))

one_stored : (dst b : ℕ) (m : ℕ → ℕ) → b < 256 → store_bytes 1 dst b m ≡ filled 1 dst b m
one_stored dst b m h = fun_ext λ p. elim (Bool-cases (leb dst p && ltb p (dst + 1))) [
  | inl t ↦
      let z : p - dst ≡ 0 = ground arith in
      let v : b / 256 ^ (p - dst) % 256 ≡ b = ap (λ j. b / 256 ^ j % 256) z ∙ omega arith in rw t v
  | inr t ↦ rw t
]

word_stored : (dst b : ℕ) (m : ℕ → ℕ) → b < 256 → store_bytes 4 dst (word_of b) m ≡ filled 4 dst b m
word_stored dst b m h = fun_ext λ p. elim (Bool-cases (leb dst p && ltb p (dst + 4))) [
  | inl t ↦ rw t (byte_of_word b (p - dst) h (ground arith))
  | inr t ↦ rw t
]

two_fills :
    (k n dst b : ℕ) (m : ℕ → ℕ) → filled n (dst + k) b (filled k dst b m) ≡ filled (k + n) dst b m
two_fills k n dst b m = fun_ext λ p. elim (Bool-cases (leb (dst + k) p && ltb p (dst + k + n))) [
  | inl t ↦ let u : (leb dst p && ltb p (dst + (k + n))) ≡ true = ground arith in rw (t, u)
  | inr t ↦
      let u : (leb dst p && ltb p (dst + (k + n))) ≡ (leb dst p && ltb p (dst + k)) =
        ground arith in
      rw (t, u)
]

no_fill : (dst b : ℕ) (m : ℕ → ℕ) → m ≡ filled 0 dst b m
no_fill dst b m =
    fun_ext λ p. let no : (leb dst p && ltb p (dst + 0)) ≡ false = ground arith in rw no

module _ (b : ℕ) (h : b < 256) where
  after_one :
      (n dst : ℕ) (m : ℕ → ℕ)
      → filled n (dst + 1) b (store_bytes 1 dst b m) ≡ filled (suc n) dst b m
  after_one n dst m =
      let one : 1 + n ≡ suc n = omega arith in
      ap (filled n (dst + 1) b) (one_stored dst b m h)
      ∙ two_fills 1 n dst b m
      ∙ ap (λ k. filled k dst b m) one

  fill_bytes-filled : (n dst : ℕ) (m : ℕ → ℕ) → fill_bytes n dst b m ≡ filled n dst b m
  unfolding fill_bytes
  fill_bytes-filled zero dst m = no_fill dst b m
  fill_bytes-filled (suc n) dst m =
      fill_bytes-filled n (dst + 1) (store_bytes 1 dst b m) ∙ after_one n dst m

  fill_words-filled : (k n dst : ℕ) (m : ℕ → ℕ) → fill_words k n dst b m ≡ filled n dst b m
  unfolding fill_words
  fill_words-filled zero n dst m = fill_bytes-filled n dst m
  fill_words-filled (suc k) n dst m = elim (Bool-cases (leb 4 n)) [
    | inl e ↦
        let four : 4 + (n - 4) ≡ n = ground arith in
        rw e (
          fill_words-filled k (n - 4) (dst + 4) (store_bytes 4 dst (word_of b) m)
          ∙ ap (filled (n - 4) (dst + 4) b) (word_stored dst b m h)
          ∙ two_fills 4 (n - 4) dst b m
          ∙ ap (λ j. filled j dst b m) four)
    | inr e ↦ rw e (fill_bytes-filled n dst m)
  ]

  fill_aligned-filled : (n dst : ℕ) (m : ℕ → ℕ) → fill_aligned n dst b m ≡ filled n dst b m
  unfolding fill_aligned
  fill_aligned-filled zero dst m = fill_words-filled zero zero dst m
  fill_aligned-filled (suc n) dst m = elim (Bool-cases (dst % 4 == 0)) [
    | inl e ↦ rw e (fill_words-filled (suc n) (suc n) dst m)
    | inr e ↦ rw e (fill_aligned-filled n (dst + 1) (store_bytes 1 dst b m) ∙ after_one n dst m)
  ]

-- `memset` makes each of the `n` bytes the low byte of `c`, and changes no other byte.
pub memset-bytes :
    (dst c n : ℕ) (m : ℕ → ℕ) (p : ℕ)
    → memset dst c n m p ≡ (if leb dst p && ltb p (dst + n) then c % 256 else m p)
unfolding memset
memset-bytes dst c n m p = ap (λ f. f p) (fill_aligned-filled (c % 256) (omega arith) n dst m)
