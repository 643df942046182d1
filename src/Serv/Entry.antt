-- ===== src/Serv/Entry.antt =====
-- The search of `open_alloc` in fs/serv.c.
use buaa_os.Base.{
  ℕ, zero, suc, ◌+◌, ◌%◌, ◌^◌, ◌≤◌, ◌<◌, ◌≡◌, ◌≢◌, ◌⊎◌, refl, subst, ◌==◌, arith, Bool-cases, inl,
  inr, ==-refl, ==-ne,
}
use buaa_os.Run.{Run, ok, fail, panic, enter, no_mem, max_open}
use buaa_os.Serv.{Serv, alloc_entry, open_alloc}

-- What `open_alloc` has done when it gives entry `i`.
pub record Allocated (b : ℕ) (s s' : Serv) (i : ℕ) : Type 0 where
  pub low : b ≤ i
  pub index : i < 1024
  pub unused : s.refs i ≤ 1
  pub one : s'.refs i ≡ 1
  pub id : s'.o_fileid i ≡ (s.o_fileid i + 1024) % 2 ^ 32
  pub lower : (j : ℕ) → b ≤ j → j < i → 2 ≤ s.refs j
  pub others : (j : ℕ) → j ≢ i → (s'.refs j ≡ s.refs j) × (s'.o_fileid j ≡ s.o_fileid j)
  pub files : (s'.o_file ≡ s.o_file) × (s'.o_mode ≡ s.o_mode) × (s'.answers ≡ s.answers)

abbrev pub EntryOutcome : ℕ → Serv → Run Serv ℕ → Type 0
EntryOutcome b s (ok i s') = Allocated b s s' i
EntryOutcome b s (fail e s') =
    (s' ≡ s)
    × (((e ≡ max_open) × ((j : ℕ) → b ≤ j → j < 1024 → 2 ≤ s.refs j))
        ⊎ ((e ≡ no_mem) × (s.fs.free_pages ≡ 0)))
EntryOutcome b s panic = ⊥
EntryOutcome b s (enter s') = ⊥

shared_first :
    (b j : ℕ) (s : Serv) → 2 ≤ s.refs b → b ≤ j → (b + 1 ≤ j → 2 ≤ s.refs j) → 2 ≤ s.refs j
shared_first b j s u low h = elim (Bool-cases (j == b)) [
  | inl e ↦ let at_b : b ≡ j = ground arith in subst (λ k. 2 ≤ s.refs k) at_b u
  | inr e ↦ h (ground arith)
]

entry_on :
    (b : ℕ) (s : Serv) (r : Run Serv ℕ)
    → 2 ≤ s.refs b
    → EntryOutcome (b + 1) s r
    → EntryOutcome b s r
entry_on b s (ok i s') u a = record {
  low = let l = a.low in omega arith;
  index = a.index;
  unused = a.unused;
  one = a.one;
  id = a.id;
  lower = λ j lo hi. shared_first b j s u lo (λ l. a.lower j l hi);
  others = a.others;
  files = a.files;
}
entry_on b s (fail e s') u (same, inl (p, all)) =
    (same, inl (p, λ j lo hi. shared_first b j s u lo (λ l. all j l hi)))
entry_on b s (fail e s') u (same, inr x) = (same, inr x)
entry_on b s panic u o = o
entry_on b s (enter s') u o = o

alloc_entry-EntryOutcome :
    (n b : ℕ) (s : Serv) → b + n ≡ 1024 → EntryOutcome b s (alloc_entry n b s)
unfolding alloc_entry
alloc_entry-EntryOutcome zero b s h = (refl, inl (refl, λ j lo hi. omega arith))
alloc_entry-EntryOutcome (suc n) b s h = elim (Bool-cases (s.refs b == 0)) [
  | inl z ↦ rw z (elim (Bool-cases (s.fs.free_pages == 0)) [
    | inl f ↦ rw f (refl, inr (refl, ground arith))
    | inr f ↦ rw f record {
      low = omega arith;
      index = omega arith;
      unused = ground arith;
      one = rw (==-refl b);
      id = rw (==-refl b);
      lower = λ j lo hi. omega arith;
      others = λ j d. rw (==-ne j b d) (refl, refl);
      files = (refl, refl, refl);
    }
  ])
  | inr z ↦ rw z (elim (Bool-cases (s.refs b == 1)) [
    | inl o ↦ rw o record {
      low = omega arith;
      index = omega arith;
      unused = ground arith;
      one = ground arith;
      id = rw (==-refl b);
      lower = λ j lo hi. omega arith;
      others = λ j d. rw (==-ne j b d) (refl, refl);
      files = (refl, refl, refl);
    }
    | inr o ↦ rw o (
        entry_on b s (alloc_entry n (b + 1) s) (ground arith)
          (alloc_entry-EntryOutcome n (b + 1) s (omega arith)))
  ])
]

pub open_alloc-EntryOutcome : (s : Serv) → EntryOutcome 0 s (open_alloc s)
unfolding open_alloc
open_alloc-EntryOutcome s = alloc_entry-EntryOutcome 1024 0 s refl
