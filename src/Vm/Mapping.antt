-- ===== src/Vm/Mapping.antt =====
-- `page_insert` and `page_remove` of kern/pmap.c, on a sound path.
use buaa_os.Base.{
  ℕ, ◌+◌, ◌-◌, ◌*◌, ◌%◌, ◌^◌, ◌<◌, ◌≡◌, ◌≢◌, refl, bit_or, true, false, none, some, List, [], ◌∷◌,
  ◌==◌, if◌then◌else◌, arith, has, inl, inr, Bool-cases, Option-cases, ap, ==-refl, ==-ne, ◌∙◌, sym,
  subst, ==_iff,
}
use buaa_os.Run.{Run, ok, fail, no_mem}
use buaa_os.Vm.{
  Vm, pte_v, pte_d, pte_of, page2pa, ppn, pdx, ptx, pte_addr, valid, update, update_word,
  write_word, page_decref, tlb_invalidate, incref, new_table, pgdir_walk, page_remove, remove_slot,
  insert_new, fill_slot,
}
use buaa_os.Vm.Pages.{
  FreeOk, with_ref, released, cleared, with_ref-FreeOk, released-FreeOk, not_free, page_decref-last,
  page_decref-more, page_alloc-cons, page_alloc-nil,
}
use buaa_os.Vm.Walk.{
  PathOk, entry, entry-some, entry-invalid, found, ppn-pte_of, pgdir_walk-hit, page_lookup_lem,
  table_slot-ok,
}

-- The key that `tlb_invalidate` hands to `tlb_out`.
abbrev pub tlb_key : ℕ → ℕ → ℕ
tlb_key asid va = bit_or (pte_addr va) (asid * 2 ^ 6 % 2 ^ 32)

abbrev pub flush : ℕ → ℕ → Vm → Vm
flush asid va s = record s { flushed = tlb_key asid va ∷ s.flushed }

abbrev pub stored : ℕ → ℕ → ℕ → Vm → Vm
stored p w v s = record s { mem = update_word s.mem p w v }

-- One reference to `q` less; the last one gives the page back.
abbrev pub dropped : ℕ → Vm → Vm
dropped q s = record s {
  pp_ref = update s.pp_ref q (s.pp_ref q - 1);
  page_free_list = if s.pp_ref q == 1 then q ∷ s.page_free_list else s.page_free_list;
}

released_eq : (q : ℕ) (s : Vm) → s.pp_ref q ≡ 1 → released q s ≡ dropped q s
released_eq q s e = rw ((==_iff (s.pp_ref q) 1).1 e, less)
  where
    less : s.pp_ref q - 1 ≡ 0
    less = omega arith

dropped_eq : (q : ℕ) (s : Vm) → s.pp_ref q ≢ 1 → with_ref q (s.pp_ref q - 1) s ≡ dropped q s
dropped_eq q s h = rw (==-ne _ _ h)

page_decref-ok : (q : ℕ) (s : Vm) → s.pp_ref q ≢ 0 → page_decref q s ≡ ok tt (dropped q s)
page_decref-ok q s h = elim (Bool-cases (s.pp_ref q == 1)) [
  | inl e ↦ page_decref-last q s (ground arith) ∙ ap (ok tt) (released_eq q s (ground arith))
  | inr e ↦ page_decref-more q s (ground arith) ∙ ap (ok tt) (dropped_eq q s (ground arith))
]

pub dropped-FreeOk :
    (q : ℕ) (s : Vm) → FreeOk s → q < s.npage → s.pp_ref q ≢ 0 → FreeOk (dropped q s)
dropped-FreeOk q s inv low h = elim (Bool-cases (s.pp_ref q == 1)) [
  | inl e ↦
      subst FreeOk (released_eq q s (ground arith))
        (released-FreeOk q s inv (not_free q s inv h) low)
  | inr e ↦
      subst FreeOk (dropped_eq q s (ground arith))
        (with_ref-FreeOk q (s.pp_ref q - 1) s inv (not_free q s inv h))
]

pub FreeOk-same :
    (s s' : Vm)
    → s'.npage ≡ s.npage
    → s'.pp_ref ≡ s.pp_ref
    → s'.page_free_list ≡ s.page_free_list
    → FreeOk s
    → FreeOk s'
FreeOk-same s s' n r l inv = record {
  distinct = rw l inv.distinct;
  unref = rw (l, r) inv.unref;
  below = rw (l, n) inv.below;
  small = rw n inv.small;
}

-- The state after `page_remove`.
abbrev pub removed : ℕ → ℕ → ℕ → ℕ → Vm → Vm
removed pgdir asid va pte s =
    flush asid va (stored (ppn (s.mem pgdir (pdx va))) (ptx va) 0 (dropped (ppn pte) s))

module _ (s : Vm) (pgdir va asid : ℕ) (path : PathOk s pgdir va) where
  pub page_remove-none : entry s pgdir va ≡ none → page_remove pgdir asid va s ≡ ok tt s
  unfolding page_remove remove_slot
  page_remove-none e = rw (page_lookup_lem s pgdir va path, ap (found s pgdir va) e)

  pub page_remove-some :
      {pte : ℕ}
      → entry s pgdir va ≡ some pte
      → page_remove pgdir asid va s ≡ ok tt (removed pgdir asid va pte s)
  unfolding page_remove remove_slot write_word tlb_invalidate
  page_remove-some {pte} e =
      rw (page_lookup_lem s pgdir va path, ap (found s pgdir va) e)
        (rw (page_decref-ok (ppn pte) s (path.page_ref pte e)))

-- The directory word for a new page table in page `p`.
abbrev pub pde_of : ℕ → ℕ
pde_of p = bit_or (bit_or (page2pa p) pte_d) pte_v

-- The state after a page table for `va` was made in page `p`, the first of the list.
abbrev pub tabled : ℕ → ℕ → ℕ → List ℕ → Vm → Vm
tabled pgdir va p rest s =
    let s1 = stored pgdir (pdx va) (page2pa p) (cleared p (record s { page_free_list = rest })) in
    with_ref p ((s.pp_ref p + 1) % 2 ^ 16) (stored pgdir (pdx va) (pde_of p) s1)

new_table-cons :
    (s : Vm) (pgdir va p : ℕ) (rest : List ℕ)
    → FreeOk s
    → s.page_free_list ≡ p ∷ rest
    → new_table pgdir va s ≡ ok (some (p, ptx va)) (tabled pgdir va p rest s)
unfolding new_table write_word incref
new_table-cons s pgdir va p rest inv e =
    let low : p < s.npage = inv.below p (rw e (ground arith)) in
    let name : ppn (pde_of p) ≡ p = ppn-pte_of p pte_d s.npage low inv.small (omega arith) in
    let s' = tabled pgdir va p rest s in
    rw (page_alloc-cons s p rest inv e) (
      simp ==-refl
        (table_slot-ok s' (pde_of p) va (rw name low) ∙ ap (λ t. ok (some (t, ptx va)) s') name))

-- Steps 2 to 4 of `page_insert` where the page table exists.
abbrev pub placed : ℕ → ℕ → ℕ → ℕ → ℕ → Vm → Vm
placed t asid pp va perm s =
    with_ref pp ((s.pp_ref pp + 1) % 2 ^ 16) (stored t (ptx va) (pte_of pp perm) (flush asid va s))

module _ (s : Vm) (pgdir asid pp va perm : ℕ) where
  pub insert_new-hit :
      valid (s.mem pgdir (pdx va)) ≡ true
      → ppn (s.mem pgdir (pdx va)) < s.npage
      → insert_new pgdir asid pp va perm s
        ≡ ok tt (placed (ppn (s.mem pgdir (pdx va))) asid pp va perm s)
  unfolding insert_new fill_slot write_word incref tlb_invalidate
  insert_new-hit v h = rw (pgdir_walk-hit (flush asid va s) pgdir va true v h)

  pub insert_new-nil :
      valid (s.mem pgdir (pdx va)) ≡ false
      → s.page_free_list ≡ []
      → insert_new pgdir asid pp va perm s ≡ fail no_mem (flush asid va s)
  unfolding insert_new pgdir_walk new_table tlb_invalidate
  insert_new-nil v e = rw v (rw (page_alloc-nil (flush asid va s) e))

  pub insert_new-cons :
      (p : ℕ) (rest : List ℕ)
      → FreeOk s
      → valid (s.mem pgdir (pdx va)) ≡ false
      → s.page_free_list ≡ p ∷ rest
      → insert_new pgdir asid pp va perm s
        ≡ ok tt (placed p asid pp va perm (tabled pgdir va p rest s))
  unfolding insert_new pgdir_walk fill_slot write_word incref tlb_invalidate
  insert_new-cons p rest inv v e = rw v (
      rw (
        new_table-cons (flush asid va s) pgdir va p rest
          (FreeOk-same s (flush asid va s) refl refl refl inv) e))

drop_one : (n : ℕ) → n ≢ 0 → n - 1 + 1 ≡ n
drop_one n h = omega arith

-- What a successful `page_remove` has done.
pub record Removed (s s' : Vm) (pgdir asid va : ℕ) : Type 0 where
  pub unmapped : entry s' pgdir va ≡ none
  pub inv : FreeOk s'
  pub dropped_one :
      (pte : ℕ)
      → entry s pgdir va ≡ some pte
      → (s'.pp_ref (ppn pte) + 1 ≡ s.pp_ref (ppn pte))
        × (has (tlb_key asid va) s'.flushed ≡ true)
        × (s.pp_ref (ppn pte) ≡ 1 → has (ppn pte) s'.page_free_list ≡ true)
  pub other_refs :
      (q : ℕ) → ((pte : ℕ) → entry s pgdir va ≡ some pte → q ≢ ppn pte) → s'.pp_ref q ≡ s.pp_ref q

abbrev pub RemoveOutcome : Vm → ℕ → ℕ → ℕ → Run Vm (Unit {0}) → Type 0
RemoveOutcome s pgdir asid va (ok _ s') = Removed s s' pgdir asid va
RemoveOutcome s pgdir asid va _ = ⊥

module _ (s : Vm) (pgdir asid va : ℕ) (inv : FreeOk s) (path : PathOk s pgdir va) where
  Removed-none : entry s pgdir va ≡ none → Removed s s pgdir asid va
  Removed-none e = record {
    unmapped = e;
    inv = inv;
    dropped_one = λ pte h. absurd (cc);
    other_refs = λ q h. refl;
  }

  Removed-some :
      (pte : ℕ)
      → entry s pgdir va ≡ some pte
      → Removed s (removed pgdir asid va pte s) pgdir asid va
  Removed-some pte e =
      let (hit, v, f) = entry-some s pgdir va e in
      let t = ppn (s.mem pgdir (pdx va)) in
      let same : (removed pgdir asid va pte s).mem pgdir (pdx va) ≡ s.mem pgdir (pdx va) =
        rw (==-ne pgdir t (λ e. path.table_ne hit (sym e))) in
      record {
        unmapped =
            entry-invalid _ pgdir va (rw same hit) (rw same (rw (==-refl t, ==-refl (ptx va))));
        inv =
            FreeOk-same (dropped (ppn pte) s) _ refl refl refl
              (dropped-FreeOk (ppn pte) s inv (path.page_below pte e) (path.page_ref pte e));
        dropped_one = λ p h.
            let is : p ≡ pte = ground arith in
            rw is (
              rw (==-refl (ppn pte)) (drop_one (s.pp_ref (ppn pte)) (path.page_ref pte e)),
              rw ==-refl,
              λ one. rw one (rw ==-refl),
            );
        other_refs = λ q h. rw (==-ne q (ppn pte) (h pte e));
      }

  -- For a sound free list and a sound path `page_remove` always returns, `va` is unmapped then, and one
  -- reference to the page that was mapped there is dropped.
  pub page_remove_outcome : RemoveOutcome s pgdir asid va (page_remove pgdir asid va s)
  page_remove_outcome = elim (Option-cases (entry s pgdir va)) [
    | inl e ↦ rw (page_remove-none s pgdir va asid path e) (Removed-none e)
    | inr (pte, e) ↦ rw (page_remove-some s pgdir va asid path e) (Removed-some pte e)
  ]
