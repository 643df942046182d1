-- ===== src/Base/Bitmap.antt =====
-- Bitmaps of 32-bit words: the tests and updates `b[i / 32] & (1 << i % 32)`, `|=` and `&= ~`,
-- which kern/env.c and fs/fs.c share.
use Prim.Native.Nat.{ℕ, zero, suc, ◌-◌, ◌*◌, ◌/◌, ◌%◌, ◌^◌, ◌≤◌, ◌<◌, bit_and, bit_or}
use mathlib.Core.Path.{◌≡◌, refl, sym, ap, ◌∙◌}
use mathlib.Core.Logic.{inl, inr}
use mathlib.Core.Bool.{Bool, true, false, not}
use native.Mathlib.Omega.{arith}
use native.Mathlib.Nat.{pow-suc}
use buaa_os.Base.Tests.{◌==◌, if◌then◌else◌, Bool-cases, ==-ne, ==_iff}
use buaa_os.Base.Bits.{
  bit, bit-bit_or, bit-bit_and, bit_and-two_pow, bit-le-one, passes_below, passes_below_at,
}

abbrev update : (ℕ → ℕ) → ℕ → ℕ → ℕ → ℕ
update f p v q = if q == p then v else f q

abbrev pub is_set : (ℕ → ℕ) → ℕ → Bool
is_set b i = not (bit_and (b (i / 32)) (2 ^ (i % 32)) == 0)

abbrev pub mark_bit : (ℕ → ℕ) → ℕ → ℕ → ℕ
mark_bit b i = λ q. if q == i / 32 then bit_or (b (i / 32)) (2 ^ (i % 32)) else b q

abbrev pub clear_bit : (ℕ → ℕ) → ℕ → ℕ → ℕ
clear_bit b i = λ q. if q == i / 32 then bit_and (b (i / 32)) (2 ^ 32 - 1 - 2 ^ (i % 32)) else b q

one-le-two_pow : (k : ℕ) → 1 ≤ 2 ^ k
one-le-two_pow zero = omega arith
one-le-two_pow (suc k) = omega (arith, one-le-two_pow k, pow-suc 2 k)

-- Bit `k` of `w` as a test.
abbrev has_bit : ℕ → ℕ → Bool
has_bit k w = bit k w == 1

test_bit : (w k : ℕ) → not (bit_and w (2 ^ k) == 0) ≡ has_bit k w
test_bit w k = elim (Bool-cases (bit k w == 1)) [
  | inl e ↦
      let one : bit_and w (2 ^ k) ≡ 2 ^ k =
        bit_and-two_pow k w ∙ ap (λ (t : ℕ). t * 2 ^ k) ((==_iff (bit k w) 1).0 e) ∙ omega arith in
      rw e (rw (==-ne (bit_and w (2 ^ k)) 0 (omega (arith, one, one-le-two_pow k))))
  | inr e ↦
      let off : bit k w ≡ 0 = ground (arith, bit-le-one k w) in
      let none_set : bit_and w (2 ^ k) ≡ 0 =
        bit_and-two_pow k w ∙ ap (λ (t : ℕ). t * 2 ^ k) off ∙ omega arith in
      rw (e, none_set)
]

bit-zero : (m : ℕ) → bit m 0 ≡ 0
bit-zero zero = refl
bit-zero (suc m) = bit-zero m

bit-two_pow : (m n : ℕ) → bit m (2 ^ n) ≡ (if m == n then 1 else 0)
bit-two_pow zero zero = refl
bit-two_pow zero (suc n) = grind (arith, pow-suc 2 n)
bit-two_pow (suc m) zero = bit-zero m ∙ ground arith
bit-two_pow (suc m) (suc n) = ap (bit m) half ∙ bit-two_pow m n ∙ ground arith
  where
    half : 2 ^ suc n / 2 ≡ 2 ^ n
    half = omega (arith, pow-suc 2 n)

mask_table :
    passes_below
      (λ n. passes_below (λ m. bit m (2 ^ 32 - 1 - 2 ^ n) == (if m == n then 0 else 1)) 32)
      32
    ≡ true
unfolding passes_below
mask_table = refl

bit-mask : (m n : ℕ) → m < 32 → n < 32 → bit m (2 ^ 32 - 1 - 2 ^ n) ≡ (if m == n then 0 else 1)
bit-mask m n hm hn =
    (==_iff _ _).0 (passes_below_at _ 32 m hm (passes_below_at _ 32 n hn mask_table))

is_set-has_bit : (b : ℕ → ℕ) (i : ℕ) → is_set b i ≡ has_bit (i % 32) (b (i / 32))
is_set-has_bit b i = test_bit (b (i / 32)) (i % 32)

has_bit-set : (m n w : ℕ) → has_bit m (bit_or w (2 ^ n)) ≡ (if m == n then true else has_bit m w)
has_bit-set m n w = ground (arith, bit-bit_or m w (2 ^ n), bit-two_pow m n, bit-le-one m w)

has_bit-clear :
    (m n w : ℕ)
    → m < 32
    → n < 32
    → has_bit m (bit_and w (2 ^ 32 - 1 - 2 ^ n)) ≡ (if m == n then false else has_bit m w)
has_bit-clear m n w hm hn =
    ground (arith, bit-bit_and m w (2 ^ 32 - 1 - 2 ^ n), bit-mask m n hm hn, bit-le-one m w)

same_bit : (i j : ℕ) → j / 32 ≡ i / 32 → (j % 32 == i % 32) ≡ (j == i)
same_bit i j e = ground arith

other_word : (i j : ℕ) → (j / 32 == i / 32) ≡ false → (j == i) ≡ false
other_word i j e = ground arith

-- Changing bit `i % 32` of word `i / 32` to `v` changes the answer for `i` alone.
is_set-update :
    (b : ℕ → ℕ) (i j w : ℕ) (v : Bool)
    → has_bit (j % 32) w ≡ (if j % 32 == i % 32 then v else has_bit (j % 32) (b (i / 32)))
    → is_set (update b (i / 32) w) j ≡ (if j == i then v else is_set b j)
is_set-update b i j w v h =
    is_set-has_bit (update b (i / 32) w) j ∙ elim (Bool-cases (j / 32 == i / 32)) [
      | inl q ↦
          let e : j / 32 ≡ i / 32 = ground arith in
          rw q (h ∙ rw (same_bit i j e, is_set-has_bit b j) (rw e))
      | inr q ↦ rw (q, other_word i j q) (sym (is_set-has_bit b j))
    ]

pub is_set-mark :
    (b : ℕ → ℕ) (i j : ℕ) → is_set (mark_bit b i) j ≡ (if j == i then true else is_set b j)
is_set-mark b i j = is_set-update b i j _ true (has_bit-set (j % 32) (i % 32) (b (i / 32)))

pub is_set-clear :
    (b : ℕ → ℕ) (i j : ℕ) → is_set (clear_bit b i) j ≡ (if j == i then false else is_set b j)
is_set-clear b i j =
    is_set-update b i j _ false
      (has_bit-clear (j % 32) (i % 32) (b (i / 32)) (omega arith) (omega arith))
