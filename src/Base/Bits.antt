-- ===== src/Base/Bits.antt =====
-- Bit operations at variables: single bits and shifts of `bit_and` and `bit_or`.
use Prim.Native.Nat.{
  ℕ, zero, suc, ◌+◌, ◌-◌, ◌*◌, ◌/◌, ◌%◌, ◌^◌, ◌≤◌, ◌<◌, min, max, bit_and, bit_or, digits,
  bit_and-bitwise, bit_or-bitwise,
}
use mathlib.Core.Path.{◌≡◌, refl, ◌∙◌, ap, sym}
use mathlib.Core.Bool.{Bool, true, ◌&&◌}
use mathlib.Core.Logic.{inl, inr}
use native.Mathlib.Omega.{arith}
use buaa_os.Base.Tests.{◌==◌, Bool-cases}
use native.Mathlib.Nat.{pow-suc}

-- A number has no more binary digits than its value, so `digits` with the value as fuel gives all.
module _ (z : ℕ → ℕ) (f : ℕ → ℕ → ℕ) where
  one_round_more : (n x y : ℕ) → x ≤ n → digits z f (suc n) x y ≡ digits z f n x y
  one_round_more n zero y h = no_digit n
    where
      no_digit : (k : ℕ) → digits z f (suc k) zero y ≡ digits z f k zero y
      no_digit zero = refl
      no_digit (suc k) = refl
  one_round_more zero (suc x) y h = absurd (omega arith)
  one_round_more (suc n) (suc x) y h =
      omega (arith, one_round_more n (suc x / 2) (y / 2) (omega arith))

  rounds_more : (k n x y : ℕ) → x ≤ n → digits z f (k + n) x y ≡ digits z f n x y
  rounds_more zero n x y h = ap (λ (t : ℕ). digits z f t x y) (omega arith)
  rounds_more (suc k) n x y h =
      ap (λ (t : ℕ). digits z f t x y) {y = suc (k + n)} (omega arith)
      ∙ one_round_more (k + n) x y (omega arith)
      ∙ rounds_more k n x y h

  module _ (op : ℕ → ℕ → ℕ) (law : (x y : ℕ) → op x y ≡ digits z f x x y) where
    op_step : (x y : ℕ) → op (suc x) y ≡ op (suc x / 2) (y / 2) * 2 + f (suc x % 2) (y % 2)
    op_step x y =
        let half = suc x / 2 in
        let own : digits z f x half (y / 2) ≡ op half (y / 2) =
          ap (λ (t : ℕ). digits z f t half (y / 2)) {y = x - half + half} (omega arith)
          ∙ rounds_more (x - half) half half (y / 2) (omega arith)
          ∙ sym (law half (y / 2)) in
        omega (arith, law (suc x) y, own)

pub bit_and_step : (a b : ℕ) → bit_and a b ≡ bit_and (a / 2) (b / 2) * 2 + min (a % 2) (b % 2)
bit_and_step (suc x) b = op_step (λ _. 0) min bit_and bit_and-bitwise x b
bit_and_step zero b = omega (arith, bit_and-bitwise 0 (b / 2), bit_and-bitwise 0 b)

pub bit_or_step : (a b : ℕ) → bit_or a b ≡ bit_or (a / 2) (b / 2) * 2 + max (a % 2) (b % 2)
bit_or_step (suc x) b = op_step (λ y. y) max bit_or bit_or-bitwise x b
bit_or_step zero b = omega (arith, bit_or-bitwise 0 (b / 2), bit_or-bitwise 0 b)

-- Bit `i` of a number, and a number shifted right by `k`, by recursion on the place.
abbrev pub bit : ℕ → ℕ → ℕ
bit zero a = a % 2
bit (suc i) a = bit i (a / 2)

abbrev pub shr : ℕ → ℕ → ℕ
shr zero a = a
shr (suc k) a = shr k (a / 2)

pub bit-le-one : (i a : ℕ) → bit i a ≤ 1
bit-le-one zero a = omega arith
bit-le-one (suc i) a = bit-le-one i (a / 2)

bit_or-half : (a b : ℕ) → bit_or a b / 2 ≡ bit_or (a / 2) (b / 2)
bit_or-half a b = omega (arith, bit_or_step a b)

bit_and-half : (a b : ℕ) → bit_and a b / 2 ≡ bit_and (a / 2) (b / 2)
bit_and-half a b = omega (arith, bit_and_step a b)

pub bit-bit_or : (i a b : ℕ) → bit i (bit_or a b) ≡ max (bit i a) (bit i b)
bit-bit_or zero a b = omega (arith, bit_or_step a b)
bit-bit_or (suc i) a b = ap (bit i) (bit_or-half a b) ∙ bit-bit_or i (a / 2) (b / 2)

pub bit-bit_and : (i a b : ℕ) → bit i (bit_and a b) ≡ min (bit i a) (bit i b)
bit-bit_and zero a b = omega (arith, bit_and_step a b)
bit-bit_and (suc i) a b = ap (bit i) (bit_and-half a b) ∙ bit-bit_and i (a / 2) (b / 2)

pub shr-bit_or : (k a b : ℕ) → shr k (bit_or a b) ≡ bit_or (shr k a) (shr k b)
shr-bit_or zero a b = refl
shr-bit_or (suc k) a b = ap (shr k) (bit_or-half a b) ∙ shr-bit_or k (a / 2) (b / 2)

bit_or-zero_within : (n a : ℕ) → a ≤ n → bit_or a 0 ≡ a
bit_or-zero_within n zero h = refl
bit_or-zero_within zero (suc a) h = absurd (omega arith)
bit_or-zero_within (suc n) (suc a) h =
    omega (arith, bit_or_step (suc a) 0, bit_or-zero_within n (suc a / 2) (omega arith))

pub bit_or-zero : (a : ℕ) → bit_or a 0 ≡ a
bit_or-zero a = bit_or-zero_within a a (omega arith)

bit_and-zero_within : (n a : ℕ) → a ≤ n → bit_and a 0 ≡ 0
bit_and-zero_within n zero h = refl
bit_and-zero_within zero (suc a) h = absurd (omega arith)
bit_and-zero_within (suc n) (suc a) h =
    omega (arith, bit_and_step (suc a) 0, bit_and-zero_within n (suc a / 2) (omega arith))

-- `x & (1 << k)` is bit `k` in its place.
pub bit_and-two_pow : (k a : ℕ) → bit_and a (2 ^ k) ≡ bit k a * 2 ^ k
bit_and-two_pow zero a =
    omega (arith, bit_and_step a 1, bit_and-zero_within (a / 2) (a / 2) (omega arith))
bit_and-two_pow (suc k) a = omega (
  arith,
  bit_and_step a (2 ^ suc k),
  pow-suc 2 k,
  ap (λ (t : ℕ). bit k (a / 2) * t) (pow-suc 2 k),
  half,
  bit_and-two_pow k (a / 2),
)
  where
    half : bit_and (a / 2) (2 ^ suc k / 2) ≡ bit_and (a / 2) (2 ^ k)
    half = ap (bit_and (a / 2)) (omega (arith, pow-suc 2 k))

shr_twelve : (a : ℕ) → shr 12 a ≡ a / 4096
shr_twelve a = omega arith

-- The page number of `a | b` where `b` stays below the page size.
pub bit_or-page : (a b : ℕ) → b < 4096 → bit_or a b / 4096 ≡ a / 4096
bit_or-page a b h = omega (
  arith,
  shr_twelve (bit_or a b),
  shr-bit_or 12 a b,
  ap (bit_or (shr 12 a)) small,
  bit_or-zero (shr 12 a),
)
  where
    small : shr 12 b ≡ 0
    small = omega arith

-- Over a small range, check every value by evaluation.
unfoldable pub passes_below : (ℕ → Bool) → ℕ → Bool
passes_below test zero = true
passes_below test (suc k) = passes_below test k && test k

pub passes_below_at :
    (test : ℕ → Bool) (k j : ℕ) → j < k → passes_below test k ≡ true → test j ≡ true
unfolding passes_below
passes_below_at test (suc k) j below pass = elim (Bool-cases (j == k)) [
  | inl last ↦
      let at_k : j ≡ k = ground arith in
      let own : test k ≡ true = ground arith in ap test at_k ∙ own
  | inr inner ↦
      let front : passes_below test k ≡ true = ground arith in
      passes_below_at test k j (ground arith) front
]
passes_below_at test zero j below pass = ground arith

-- `q << k | r` where `r` fits in the low `k` bits.
pub bit_or-fields : (k q r : ℕ) → r < 2 ^ k → bit_or (q * 2 ^ k) r ≡ q * 2 ^ k + r
bit_or-fields zero q r h = omega (arith, ap (bit_or (q * 1)) none_left, bit_or-zero (q * 1))
  where
    none_left : r ≡ 0
    none_left = omega arith
bit_or-fields (suc k) q r h = omega (
  arith,
  bit_or_step (q * 2 ^ suc k) r,
  ap (λ (t : ℕ). q * t) (pow-suc 2 k),
  ap (λ (t : ℕ). bit_or t (r / 2)) half,
  bit_or-fields k q (r / 2) (omega (arith, pow-suc 2 k)),
)
  where
    half : q * 2 ^ suc k / 2 ≡ q * 2 ^ k
    half = omega (arith, ap (λ (t : ℕ). q * t) (pow-suc 2 k))
