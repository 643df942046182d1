-- ===== src/UserFile/Bytes.antt =====
-- The bytes of a data area whose pages are blocks of the cache (user/lib/file.c).
use buaa_os.Base.{
  ℕ, ◌+◌, ◌/◌, ◌%◌, ◌≤◌, ◌<◌, ◌≡◌, ◌≢◌, ◌∙◌, subst, true, false, List, [], ◌∷◌, ◌==◌, if◌then◌else◌,
  arith, Bool-cases, inl, inr, ==-refl, ==-ne,
}
use buaa_os.Vm.{update}
use buaa_os.Fs.Dir.{byte_weight, with_byte}
use buaa_os.Fs.Dir.Bytes.{with_byte-same, with_byte-other}
use buaa_os.UserFile.{page_byte, set_page_byte}

page_byte-set_page_byte :
    (m : ℕ → ℕ) (k j v : ℕ)
    → v < 256
    → page_byte (set_page_byte m k v) j ≡ (if j == k then v else page_byte m j)
page_byte-set_page_byte m k j v h = elim (Bool-cases (j / 4 == k / 4)) [
  | inr e ↦ let d : (j == k) ≡ false = ground arith in rw (e, d)
  | inl e ↦ rw e (elim (Bool-cases (j == k)) [
    | inl i ↦
        let at_k : j ≡ k = ground arith in
        rw i (
          subst (λ q. with_byte (m (j / 4)) q v / byte_weight j % 256 ≡ v) at_k
            (with_byte-same (m (j / 4)) j v h))
    | inr i ↦ rw i (with_byte-other (m (j / 4)) k j v h (ground arith))
  ])
]

-- Page `p` of the data is block `block p`, up to page `last`; no two are the same block.
module _ (block : ℕ → ℕ) (last : ℕ)
    (distinct : (p q : ℕ) → p ≤ last → q ≤ last → block p ≡ block q → p ≡ q) where
  -- The byte `off` of the data in the cache `m`, and the cache after it was set.
  abbrev pub data_byte : (ℕ → ℕ → ℕ) → ℕ → ℕ
  data_byte m off = page_byte (m (block (off / 4096))) (off % 4096)

  abbrev pub set_data_byte : (ℕ → ℕ → ℕ) → ℕ → ℕ → ℕ → ℕ → ℕ
  set_data_byte m off v =
      update m (block (off / 4096)) (set_page_byte (m (block (off / 4096))) (off % 4096) v)

  pub data_byte-set_data_byte :
      (m : ℕ → ℕ → ℕ) (k j v : ℕ)
      → v < 256
      → k / 4096 ≤ last
      → j / 4096 ≤ last
      → data_byte (set_data_byte m k v) j ≡ (if j == k then v else data_byte m j)
  data_byte-set_data_byte m k j v h a b = elim (Bool-cases (j / 4096 == k / 4096)) [
    | inl e ↦
        let page : j / 4096 ≡ k / 4096 = ground arith in
        rw page (
          rw (==-refl (block (k / 4096))) (
            page_byte-set_page_byte (m (block (k / 4096))) (k % 4096) (j % 4096) v h
            ∙ elim (Bool-cases (j == k)) [
              | inl i ↦ let t : (j % 4096 == k % 4096) ≡ true = ground arith in rw (i, t)
              | inr i ↦ let t : (j % 4096 == k % 4096) ≡ false = ground arith in rw (i, t)
            ]))
    | inr e ↦
        let d : (j == k) ≡ false = ground arith in
        let far : block (j / 4096) ≢ block (k / 4096) =
          λ p. let q = distinct (j / 4096) (k / 4096) b a p in ground arith in
        rw (==-ne (block (j / 4096)) (block (k / 4096)) far) (rw d)
  ]

  -- The cache after the bytes were set one after the other.
  abbrev pub set_data_bytes : (ℕ → ℕ → ℕ) → List ℕ → ℕ → ℕ → ℕ → ℕ
  set_data_bytes m [] off = m
  set_data_bytes m (v ∷ vs) off = set_data_bytes (set_data_byte m off v) vs (off + 1)
