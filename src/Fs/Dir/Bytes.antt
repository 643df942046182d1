-- ===== src/Fs/Dir/Bytes.antt =====
-- The bytes of a word (fs/fs.c reads and writes names by bytes).
use buaa_os.Base.{ℕ, ◌/◌, ◌%◌, ◌<◌, ◌≡◌, ◌≢◌, ◌⊎◌, ◌==◌, arith, Bool-cases, inl, inr}
use buaa_os.Fs.Dir.{byte_weight, with_byte}

-- The four places of a byte in its word.
weight_cases : (k : ℕ) → (k % 4 ≡ 0) ⊎ ((k % 4 ≡ 1) ⊎ ((k % 4 ≡ 2) ⊎ (k % 4 ≡ 3)))
weight_cases k = elim (Bool-cases (k % 4 == 0)) [
  | inl a ↦ inl (ground arith)
  | inr a ↦ elim (Bool-cases (k % 4 == 1)) [
    | inl b ↦ inr (inl (ground arith))
    | inr b ↦ elim (Bool-cases (k % 4 == 2)) [
      | inl c ↦ inr (inr (inl (ground arith)))
      | inr c ↦ inr (inr (inr (ground arith)))
    ]
  ]
]

pub with_byte-same : (v k c : ℕ) → c < 256 → with_byte v k c / byte_weight k % 256 ≡ c
with_byte-same v k c h = elim (weight_cases k) [
  | inl a ↦ rw a (omega arith)
  | inr (inl a) ↦ rw a (omega arith)
  | inr (inr (inl a)) ↦ rw a (omega arith)
  | inr (inr (inr a)) ↦ rw a (omega arith)
]

pub with_byte-other :
    (v k j c : ℕ)
    → c < 256
    → j % 4 ≢ k % 4
    → with_byte v k c / byte_weight j % 256 ≡ v / byte_weight j % 256
with_byte-other v k j c h d = elim (weight_cases k) [
  | inl a ↦ elim (weight_cases j) [
    | inl b ↦ omega arith
    | inr (inl b) ↦ rw (a, b) (omega arith)
    | inr (inr (inl b)) ↦ rw (a, b) (omega arith)
    | inr (inr (inr b)) ↦ rw (a, b) (omega arith)
  ]
  | inr (inl a) ↦ elim (weight_cases j) [
    | inl b ↦ rw (a, b) (omega arith)
    | inr (inl b) ↦ omega arith
    | inr (inr (inl b)) ↦ rw (a, b) (omega arith)
    | inr (inr (inr b)) ↦ rw (a, b) (omega arith)
  ]
  | inr (inr (inl a)) ↦ elim (weight_cases j) [
    | inl b ↦ rw (a, b) (omega arith)
    | inr (inl b) ↦ rw (a, b) (omega arith)
    | inr (inr (inl b)) ↦ omega arith
    | inr (inr (inr b)) ↦ rw (a, b) (omega arith)
  ]
  | inr (inr (inr a)) ↦ elim (weight_cases j) [
    | inl b ↦ rw (a, b) (omega arith)
    | inr (inl b) ↦ rw (a, b) (omega arith)
    | inr (inr (inl b)) ↦ rw (a, b) (omega arith)
    | inr (inr (inr b)) ↦ omega arith
  ]
]
