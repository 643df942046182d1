-- ===== src/Vm/Pages.antt =====
-- The free list of kern/pmap.c: its invariant, and what each operation does to it.
use buaa_os.Base.{
  ℕ, ◌-◌, ◌/◌, ◌^◌, ◌≤◌, ◌<◌, ◌≡◌, ◌≢◌, refl, true, false, List, [], ◌∷◌, ◌==◌, if◌then◌else◌,
  arith, has, Distinct, ◌⊎◌, inl, inr, Bool-cases, List-cases, ap, ==-refl, ==-ne,
}
use buaa_os.Run.{Run, ok, fail, panic, enter, no_mem, After}
use buaa_os.Vm.{Vm, update, page_alloc, page_free, page_decref, clear_page, kaddr, page2pa, ppn}

-- The pages on the free list are distinct pages of the machine that nothing refers to.
pub record FreeOk (s : Vm) : Type 0 where
  pub distinct : Distinct s.page_free_list
  pub unref : (p : ℕ) → has p s.page_free_list ≡ true → s.pp_ref p ≡ 0
  pub below : (p : ℕ) → has p s.page_free_list ≡ true → p < s.npage
  pub small : s.npage ≤ 2 ^ 20

pub page2pa_small : (p n : ℕ) → p < n → n ≤ 2 ^ 20 → page2pa p / 2 ^ 12 ≡ p
page2pa_small p n h k = omega arith

pub kaddr-ok : (pa : ℕ) (s : Vm) → ppn pa < s.npage → kaddr pa s ≡ ok (ppn pa) s
unfolding kaddr
kaddr-ok pa s h = ground arith

abbrev pub cleared : ℕ → Vm → Vm
cleared p s = record s { mem = λ q i. if q == p then 0 else s.mem q i }

pub clear_page-ok :
    (p : ℕ) (s : Vm) → p < s.npage → s.npage ≤ 2 ^ 20 → clear_page p s ≡ ok tt (cleared p s)
unfolding clear_page
clear_page-ok p s h k =
    let e = page2pa_small p s.npage h k in rw (kaddr-ok (page2pa p) s (omega (arith, e))) (rw e)

-- `page_alloc` with a page on the list takes the first one and clears it.
pub page_alloc-cons :
    (s : Vm) (p : ℕ) (rest : List ℕ)
    → FreeOk s
    → s.page_free_list ≡ p ∷ rest
    → page_alloc s ≡ ok p (cleared p (record s { page_free_list = rest }))
unfolding page_alloc
page_alloc-cons s p rest inv e =
    let low : p < s.npage = inv.below p (rw e (ground arith)) in
    rw (e, clear_page-ok p (record s { page_free_list = rest }) low inv.small)

pub page_alloc-nil : (s : Vm) → s.page_free_list ≡ [] → page_alloc s ≡ fail no_mem s
unfolding page_alloc
page_alloc-nil s e = rw e

-- What `page_alloc` leaves behind when it succeeds with page `p`.
pub record Allocated (s s' : Vm) (p : ℕ) : Type 0 where
  pub inv : FreeOk s'
  pub fresh : has p s.page_free_list ≡ true
  pub taken : has p s'.page_free_list ≡ false
  pub others : (q : ℕ) → q ≢ p → has q s'.page_free_list ≡ has q s.page_free_list
  pub unref : s'.pp_ref p ≡ 0
  pub refs : s'.pp_ref ≡ s.pp_ref
  pub below : p < s'.npage
  pub npage : s'.npage ≡ s.npage
  pub zeroed : (i : ℕ) → s'.mem p i ≡ 0
  pub kept : (q i : ℕ) → q ≢ p → s'.mem q i ≡ s.mem q i
  pub flushed : s'.flushed ≡ s.flushed

pub cleared-Allocated :
    (s : Vm) (p : ℕ) (rest : List ℕ)
    → FreeOk s
    → s.page_free_list ≡ p ∷ rest
    → Allocated s (cleared p (record s { page_free_list = rest })) p
cleared-Allocated s p rest inv e =
    let d : Distinct (p ∷ rest) = rw e at inv.distinct in
    record {
      inv = record {
        distinct = d.1;
        unref = λ q h. inv.unref q (rw e (ground arith));
        below = λ q h. inv.below q (rw e (ground arith));
        small = inv.small;
      };
      fresh = rw e (ground arith);
      taken = d.0;
      others = λ q h. rw e (ground arith);
      unref = inv.unref p (rw e (ground arith));
      refs = refl;
      below = inv.below p (rw e (ground arith));
      npage = refl;
      zeroed = λ i. ground arith;
      kept = λ q i h. ground arith;
      flushed = refl;
    }

-- The outcomes of `page_alloc`: a cleared page that was free, or -E_NO_MEM with nothing changed
-- and an empty list.
abbrev pub AllocOutcome : Vm → Run Vm ℕ → Type 0
AllocOutcome s (ok p s') = Allocated s s' p
AllocOutcome s (fail e s') = (e ≡ no_mem) × (s' ≡ s) × (s.page_free_list ≡ [])
AllocOutcome s panic = ⊥
AllocOutcome s (enter s') = ⊥

-- For a sound free list `page_alloc` takes a page off the list and clears it, with no reference yet
-- and everything else as it was; it fails only where the list is empty, and changes nothing then.
pub page_alloc_outcome : (s : Vm) → FreeOk s → AllocOutcome s (page_alloc s)
page_alloc_outcome s inv = elim (List-cases s.page_free_list) [
  | inl e ↦ rw (page_alloc-nil s e) (refl, refl, e)
  | inr (p, rest, e) ↦ rw (page_alloc-cons s p rest inv e) (cleared-Allocated s p rest inv e)
]

-- A referenced page is not on the list.
pub not_free : (p : ℕ) (s : Vm) → FreeOk s → s.pp_ref p ≢ 0 → has p s.page_free_list ≡ false
not_free p s inv h = elim (Bool-cases (has p s.page_free_list)) [
  | inl e ↦ absurd (h (inv.unref p e))
  | inr e ↦ e
]

abbrev pub with_ref : ℕ → ℕ → Vm → Vm
with_ref p r s = record s { pp_ref = update s.pp_ref p r }

pub with_ref-FreeOk :
    (p r : ℕ) (s : Vm) → FreeOk s → has p s.page_free_list ≡ false → FreeOk (with_ref p r s)
with_ref-FreeOk p r s inv h = record {
  distinct = inv.distinct;
  unref =
      λ q k. ground (arith, inv.unref q, ap (λ (t : ℕ). has t s.page_free_list) {x = q} {y = p});
  below = inv.below;
  small = inv.small;
}

-- The state after the last reference to `p` is dropped.
abbrev pub released : ℕ → Vm → Vm
released p s = record (with_ref p 0 s) { page_free_list = p ∷ s.page_free_list }

pub released-FreeOk :
    (p : ℕ) (s : Vm)
    → FreeOk s
    → has p s.page_free_list ≡ false
    → p < s.npage
    → FreeOk (released p s)
released-FreeOk p s inv h low = record {
  distinct = (h, inv.distinct);
  unref = λ q k. ground (arith, inv.unref q);
  below = λ q k. ground (arith, inv.below q);
  small = inv.small;
}

pub page_decref-last : (p : ℕ) (s : Vm) → s.pp_ref p ≡ 1 → page_decref p s ≡ ok tt (released p s)
unfolding page_decref page_free
page_decref-last p s e = rw e (rw ==-refl)

pub page_decref-more :
    (p : ℕ) (s : Vm) → 1 < s.pp_ref p → page_decref p s ≡ ok tt (with_ref p (s.pp_ref p - 1) s)
unfolding page_decref
page_decref-more p s h =
    rw (==-ne (s.pp_ref p) 0 (omega arith), ==-ne (s.pp_ref p - 1) 0 (omega arith))

-- `page_decref` of an existing page keeps the free list sound, also where the page goes back to it.
pub page_decref-FreeOk : (p : ℕ) (s : Vm) → FreeOk s → p < s.npage → After FreeOk (page_decref p s)
page_decref-FreeOk p s inv low = elim (cases (s.pp_ref p)) [
  | inl e ↦ rw (unreferenced e) tt
  | inr (inl e) ↦
      rw (page_decref-last p s e) (released-FreeOk p s inv (not_free p s inv (omega arith)) low)
  | inr (inr h) ↦
      rw (page_decref-more p s h) (with_ref-FreeOk p _ s inv (not_free p s inv (omega arith)))
]
  where
    cases : (n : ℕ) → (n ≡ 0) ⊎ ((n ≡ 1) ⊎ (1 < n))
    cases n = omega arith

    unreferenced : s.pp_ref p ≡ 0 → page_decref p s ≡ panic
    unreferenced e = unfold page_decref in rw e
