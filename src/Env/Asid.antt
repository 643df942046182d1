-- ===== src/Env/Asid.antt =====
-- The bitmap of address space identifiers: `asid_alloc` and `asid_free` of kern/env.c.
use buaa_os.Base.{
  ℕ, zero, suc, ◌+◌, ◌≤◌, ◌<◌, ◌≡◌, refl, true, false, Option, none, some, ◌==◌, if◌then◌else◌,
  arith, is_set-mark, is_set-clear, Bool-cases, inl, inr,
}
use buaa_os.Run.{Run, ok, fail, panic, enter, no_free_env}
use buaa_os.Kernel.{Kernel}
use buaa_os.Env.{asid_used, asid_scan, asid_result, asid_alloc, asid_clear, asid_free}

-- The outcomes of the scan from `i` with `n` rounds left: the first unused identifier is marked,
-- or all are used.
abbrev ScanOutcome : ℕ → ℕ → (ℕ → ℕ) → Option (ℕ × (ℕ → ℕ)) → Type 0
ScanOutcome n i b none = (j : ℕ) → i ≤ j → j < i + n → asid_used b j ≡ true
ScanOutcome n i b (some (a, b')) =
    (a < i + n)
    × (asid_used b a ≡ false)
    × ((j : ℕ) → i ≤ j → j < a → asid_used b j ≡ true)
    × ((j : ℕ) → asid_used b' j ≡ (if j == a then true else asid_used b j))

later :
    (b : ℕ → ℕ) (i j : ℕ)
    → asid_used b i ≡ true
    → i ≤ j
    → (i + 1 ≤ j → asid_used b j ≡ true)
    → asid_used b j ≡ true
later b i j u lo h = elim (Bool-cases (i == j)) [
  | inl e ↦ let same : j ≡ i = ground arith in rw same u
  | inr e ↦ h (ground arith)
]

scan-step :
    (n i : ℕ) (b : ℕ → ℕ) (r : Option (ℕ × (ℕ → ℕ)))
    → asid_used b i ≡ true
    → ScanOutcome n (i + 1) b r
    → ScanOutcome (suc n) i b r
scan-step n i b none u h = λ j lo hi. later b i j u lo (λ l. h j l (omega arith))
scan-step n i b (some (a, b')) u h =
    (omega (arith, h.0), h.1, (λ j lo hi. later b i j u lo (λ l. h.2 j l hi)), h.3)

asid_scan_outcome : (n i : ℕ) (b : ℕ → ℕ) → ScanOutcome n i b (asid_scan n i b)
unfolding asid_scan
asid_scan_outcome zero i b = λ j lo hi. absurd (omega arith)
asid_scan_outcome (suc n) i b = elim (Bool-cases (asid_used b i)) [
  | inl u ↦ rw u (scan-step n i b _ u (asid_scan_outcome n (i + 1) b))
  | inr u ↦ rw u (omega arith, u, (λ j lo hi. absurd (omega arith)), is_set-mark b i)
]

-- The outcomes of `asid_alloc`.
abbrev pub AsidOutcome : Kernel → Run Kernel ℕ → Type 0
AsidOutcome k (ok a k') =
    (a < 64)
    × (asid_used k.asid_bitmap a ≡ false)
    × ((j : ℕ) → j < a → asid_used k.asid_bitmap j ≡ true)
    × ((j : ℕ) → asid_used k'.asid_bitmap j ≡ (if j == a then true else asid_used k.asid_bitmap j))
    × (k' ≡ record k { asid_bitmap = k'.asid_bitmap })
AsidOutcome k (fail e k') =
    (e ≡ no_free_env) × (k' ≡ k) × ((j : ℕ) → j < 64 → asid_used k.asid_bitmap j ≡ true)
AsidOutcome k panic = ⊥
AsidOutcome k (enter k') = ⊥

-- `asid_alloc` takes the lowest identifier below 64 that is not used and marks it alone; it fails
-- only when all 64 are used, and changes nothing then.
pub asid_alloc_outcome : (k : Kernel) → AsidOutcome k (asid_alloc k)
unfolding asid_alloc
asid_alloc_outcome k = result (asid_scan 64 0 k.asid_bitmap) (asid_scan_outcome 64 0 k.asid_bitmap)
  where
    result :
        (r : Option (ℕ × (ℕ → ℕ)))
        → ScanOutcome 64 0 k.asid_bitmap r
        → AsidOutcome k (asid_result k r)
    result none h = (refl, refl, λ j lt. h j (omega arith) lt)
    result (some (a, b')) h = (omega (arith, h.0), h.1, (λ j lt. h.2 j (omega arith) lt), h.3, refl)

-- `asid_free` makes `i` unused and changes no other identifier.
pub asid_free_used :
    (i j : ℕ) (k : Kernel)
    → (k' : Kernel) × (asid_free i k ≡ ok tt k')
      × (asid_used k'.asid_bitmap j ≡ (if j == i then false else asid_used k.asid_bitmap j))
unfolding asid_free
asid_free_used i j k =
    (record k { asid_bitmap = asid_clear k.asid_bitmap i }, refl, is_set-clear k.asid_bitmap i j)
