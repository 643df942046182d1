-- ===== src/Fd/Table.antt =====
-- Which descriptor `fd_alloc` of user/lib/fd.c gives.
use buaa_os.Base.{
  ℕ, zero, suc, ◌+◌, ◌/◌, ◌≤◌, ◌<◌, ◌≡◌, refl, ap, sym, subst, ◌∙◌, Bool, true, false, ◌&&◌, ◌==◌,
  arith, Bool-cases, inl, inr,
}
use buaa_os.Vm.{by2pg, valid}
use buaa_os.Fd.{
  Space, Reply, reply, failed, max_open, fd_alloc_from, fd_alloc, index2fd, fd2num, pdmap,
}

-- The page of descriptor `i` is mapped.
abbrev pub in_use : Space → ℕ → Bool
in_use s i = valid (s.vpd (index2fd i / pdmap)) && valid (s.vpt (index2fd i / by2pg))

-- The outcomes of a search from descriptor `i` on that ends before `limit`.
abbrev pub FdOutcome : ℕ → ℕ → Space → Reply ℕ → Type 0
FdOutcome i limit s (reply fd s') =
    (s' ≡ s)
    × (fd ≡ index2fd (fd2num fd))
    × (i ≤ fd2num fd)
    × (fd2num fd < limit)
    × (in_use s (fd2num fd) ≡ false)
    × ((j : ℕ) → i ≤ j → j < fd2num fd → in_use s j ≡ true)
FdOutcome i limit s (failed e s') =
    (s' ≡ s) × (e ≡ max_open) × ((j : ℕ) → i ≤ j → j < limit → in_use s j ≡ true)

number : (i : ℕ) → i < 32 → fd2num (index2fd i) ≡ i
number i h = omega arith

taken_first :
    (i limit : ℕ) (s : Space) (r : Reply ℕ)
    → in_use s i ≡ true
    → FdOutcome (i + 1) limit s r
    → FdOutcome i limit s r
taken_first i limit s (reply fd s') used (a, b, c, d, e, f) = (
  a,
  b,
  omega arith,
  d,
  e,
  λ j low high. elim (Bool-cases (j == i)) [
    | inl at_i ↦ let same : j ≡ i = ground arith in ap (in_use s) same ∙ used
    | inr other ↦ f j (ground arith) high
  ],
)
taken_first i limit s (failed e s') used (a, b, f) = (
  a,
  b,
  λ j low high. elim (Bool-cases (j == i)) [
    | inl at_i ↦ let same : j ≡ i = ground arith in ap (in_use s) same ∙ used
    | inr other ↦ f j (ground arith) high
  ],
)

given :
    (i limit : ℕ) (s : Space)
    → i < limit
    → limit ≤ 32
    → in_use s i ≡ false
    → FdOutcome i limit s (reply (index2fd i) s)
given i limit s h k free =
    let own = number i (omega arith) in
    (
      refl,
      ap index2fd (sym own),
      omega (arith, own),
      omega (arith, own),
      ap (in_use s) own ∙ free,
      λ j low high. ground (arith, own),
    )

fd_alloc_from-FdOutcome :
    (n i : ℕ) (s : Space) → i + n ≤ 32 → FdOutcome i (i + n) s (fd_alloc_from n i s)
unfolding fd_alloc_from
fd_alloc_from-FdOutcome zero i s h = (refl, refl, λ j low high. ground arith)
fd_alloc_from-FdOutcome (suc n) i s h = elim (Bool-cases (valid (s.vpd (index2fd i / pdmap)))) [
  | inr d ↦ rw d (given i (i + suc n) s (omega arith) h (rw d))
  | inl d ↦ elim (Bool-cases (valid (s.vpt (index2fd i / by2pg)))) [
    | inr t ↦ rw (d, t) (given i (i + suc n) s (omega arith) h (rw (d, t)))
    | inl t ↦
        rw (d, t)
          (taken_first i (i + suc n) s (fd_alloc_from n (i + 1) s) (rw (d, t))
            (moved_limit (fd_alloc_from-FdOutcome n (i + 1) s (omega arith))))
  ]
]
  where
    moved_limit :
        FdOutcome (i + 1) (i + 1 + n) s (fd_alloc_from n (i + 1) s)
        → FdOutcome (i + 1) (i + suc n) s (fd_alloc_from n (i + 1) s)
    moved_limit o =
        subst (λ m. FdOutcome (i + 1) m s (fd_alloc_from n (i + 1) s)) {y = i + suc n} (omega arith)
          o

-- `fd_alloc` gives the page of the first descriptor below 31 whose page is not mapped, and fails
-- only where all of these are mapped; descriptor 31 is never given.
pub fd_alloc_outcome : (s : Space) → FdOutcome 0 31 s (fd_alloc s)
unfolding fd_alloc
fd_alloc_outcome s = fd_alloc_from-FdOutcome 31 0 s (omega arith)
