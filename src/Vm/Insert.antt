-- ===== src/Vm/Insert.antt =====
-- The outcomes of `page_insert` of kern/pmap.c.
use buaa_os.Base.{
  ℕ, ◌+◌, ◌-◌, ◌%◌, ◌^◌, ◌<◌, ◌≡◌, ◌≢◌, refl, bit_or, Bool, true, false, Option, none, some, List,
  [], ◌∷◌, ◌==◌, if◌then◌else◌, arith, has, inl, inr, Bool-cases, List-cases, ap, ==-refl, ==-ne,
  ==_iff, ◌∙◌, sym,
}
use buaa_os.Run.{Run, ok, fail, panic, enter, no_mem}
use buaa_os.Vm.{
  Vm, pte_d, pte_of, page2pa, ppn, pdx, ptx, valid, write_word, tlb_invalidate, page_insert,
  insert_at, insert_new, replace,
}
use buaa_os.Vm.Pages.{FreeOk, with_ref, cleared, with_ref-FreeOk, cleared-Allocated}
use buaa_os.Vm.Walk.{
  PathOk, entry, entry-some, entry_intro, entry-miss, entry-invalid, valid-bit_or, ppn-pte_of,
  pgdir_walk-hit, pgdir_walk-miss, pa2page-ok,
}
use buaa_os.Vm.Mapping.{
  tlb_key, flush, stored, placed, tabled, removed, dropped, dropped-FreeOk, FreeOk-same,
  page_remove-some, insert_new-hit, insert_new-nil, insert_new-cons, pde_of,
}

-- Whether `pp` is the page mapped at `va` already.
abbrev pub names : ℕ → Option ℕ → Bool
names pp none = false
names pp (some pte) = ppn pte == pp

pub maps : Vm → ℕ → ℕ → ℕ → Bool
maps s pgdir va pp = names pp (entry s pgdir va)

pub maps_lem :
    (s : Vm) (pgdir va pp : ℕ) (e : Option ℕ)
    → entry s pgdir va ≡ e
    → maps s pgdir va pp ≡ names pp e
unfolding maps
maps_lem s pgdir va pp e h = ap (names pp) h

-- What a successful `page_insert` has done: the word, the counts, the free list and the TLB.
pub record Inserted (s s' : Vm) (pgdir asid pp va perm : ℕ) : Type 0 where
  pub mapped : entry s' pgdir va ≡ some (pte_of pp perm)
  pub inv : FreeOk s'
  pub used : has pp s'.page_free_list ≡ false
  pub counted :
      s'.pp_ref pp ≡ (if maps s pgdir va pp then s.pp_ref pp else (s.pp_ref pp + 1) % 2 ^ 16)
  pub old_dropped :
      (pte : ℕ)
      → entry s pgdir va ≡ some pte
      → ppn pte ≢ pp
      → s'.pp_ref (ppn pte) ≡ s.pp_ref (ppn pte) - 1
  pub flushed : has (tlb_key asid va) s'.flushed ≡ true
  pub path : entry s pgdir va ≡ none → s.pp_ref pp + 1 < 2 ^ 16 → PathOk s' pgdir va

-- The outcomes of `page_insert`. It fails for lack of memory only, when a page table is missing
-- and the free list is empty, and it never panics.
abbrev pub InsertOutcome : Vm → ℕ → ℕ → ℕ → ℕ → ℕ → Run Vm (Unit {0}) → Type 0
InsertOutcome s pgdir asid pp va perm (ok _ s') = Inserted s s' pgdir asid pp va perm
InsertOutcome s pgdir asid pp va perm (fail e s') =
    (e ≡ no_mem)
    × (valid (s.mem pgdir (pdx va)) ≡ false)
    × (s.page_free_list ≡ [])
    × (s'.mem ≡ s.mem)
    × (s'.pp_ref ≡ s.pp_ref)
InsertOutcome s pgdir asid pp va perm panic = ⊥
InsertOutcome s pgdir asid pp va perm (enter s') = ⊥

some_eq : {x y : ℕ} → some x ≡ some y → x ≡ y
some_eq h = ground arith

module _ (s : Vm) (pgdir asid pp va perm : ℕ) (inv : FreeOk s) (path : PathOk s pgdir va)
    (low : pp < s.npage) (used : has pp s.page_free_list ≡ false) (fits : perm < 4096) where
  abbrev table : ℕ
  table = ppn (s.mem pgdir (pdx va))

  flush_has : (l : List ℕ) → has (tlb_key asid va) (tlb_key asid va ∷ l) ≡ true
  flush_has l = rw ==-refl

  unmapped :
      entry s pgdir va ≡ none
      → (n : ℕ) → n ≡ (s.pp_ref pp + 1) % 2 ^ 16
      → n ≡ (if maps s pgdir va pp then s.pp_ref pp else (s.pp_ref pp + 1) % 2 ^ 16)
  unmapped e n h = rw (maps_lem s pgdir va pp none e) h

  none-some : {A : Type 0} → entry s pgdir va ≡ none → {pte : ℕ} → entry s pgdir va ≡ some pte → A
  none-some e h = absurd (cc)

  valid_pte : valid (pte_of pp perm) ≡ true
  valid_pte = valid-bit_or (bit_or (page2pa pp) perm)

  -- What makes the path sound where `pp` was mapped, with its page table in `t`.
  path_after :
      (s' : Vm) (t : ℕ)
      → has pgdir s'.page_free_list ≡ false
      → s'.npage ≡ s.npage
      → ppn (s'.mem pgdir (pdx va)) ≡ t
      → t < s.npage
      → t ≢ pgdir
      → entry s' pgdir va ≡ some (pte_of pp perm)
      → s'.pp_ref pp ≢ 0
      → PathOk s' pgdir va
  path_after s' t free pages word below ne there counted =
      let name : ppn (pte_of pp perm) ≡ pp = ppn-pte_of pp perm s.npage low inv.small fits in
      let it : (pte : ℕ) → entry s' pgdir va ≡ some pte → ppn pte ≡ pp =
        λ pte h. ap ppn (some_eq (sym h ∙ there)) ∙ name in
      record {
        dir_used = free;
        table_below = λ _. rw (word, pages) below;
        table_ne = λ _. rw word ne;
        page_below = λ pte h. rw (it pte h, pages) low;
        page_ref = λ pte h. rw (it pte h) counted;
      }

  -- A new page table in `p`.
  Inserted-tabled :
      (p : ℕ) (rest : List ℕ)
      → valid (s.mem pgdir (pdx va)) ≡ false
      → s.page_free_list ≡ p ∷ rest
      → Inserted s (placed p asid pp va perm (tabled pgdir va p rest s)) pgdir asid pp va perm
  Inserted-tabled p rest miss e =
      let al = cleared-Allocated s p rest inv e in
      let dir : has pgdir (p ∷ rest) ≡ false = rw e at path.dir_used in
      let mine : has pp (p ∷ rest) ≡ false = rw e at used in
      let ne : pgdir ≢ p = ground arith in
      let other : pp ≢ p = ground arith in
      let name : ppn (pde_of p) ≡ p = ppn-pte_of p pte_d s.npage al.below inv.small (omega arith) in
      record {
        mapped =
            entry_intro _ pgdir va (pde_of p) (pte_of pp perm)
              (rw (==-ne pgdir p ne, ==-refl pgdir, ==-refl (pdx va)))
              (valid-bit_or (bit_or (page2pa p) pte_d)) (rw name (rw (==-refl p, ==-refl (ptx va))))
              valid_pte;
        inv =
            FreeOk-same
              (with_ref pp _ (with_ref p _ (cleared p (record s { page_free_list = rest })))) _ refl
              refl refl
              (with_ref-FreeOk pp _ _ (with_ref-FreeOk p _ _ al.inv al.taken) (ground arith));
        used = ground arith;
        counted = unmapped (entry-miss s pgdir va miss) _ (rw (==-refl pp, ==-ne pp p other));
        old_dropped = λ pte h _. none-some (entry-miss s pgdir va miss) h;
        flushed = flush_has _;
        path = λ _ few.
            let s' = placed p asid pp va perm (tabled pgdir va p rest s) in
            let word : s'.mem pgdir (pdx va) ≡ pde_of p =
              rw (==-ne pgdir p ne, ==-refl pgdir, ==-refl (pdx va)) in
            path_after s' p (ground arith) refl (ap ppn word ∙ name) al.below (λ h. ne (sym h))
              (entry_intro s' pgdir va (pde_of p) (pte_of pp perm) word
                (valid-bit_or (bit_or (page2pa p) pte_d))
                (rw name (rw (==-refl p, ==-refl (ptx va)))) valid_pte)
              (rw (==-refl pp, ==-ne pp p other) (λ h. omega arith));
      }

  -- The page table is there, and `va` is not mapped.
  Inserted-placed :
      valid (s.mem pgdir (pdx va)) ≡ true
      → valid (s.mem table (ptx va)) ≡ false
      → Inserted s (placed table asid pp va perm s) pgdir asid pp va perm
  Inserted-placed hit v = record {
    mapped =
        entry_intro _ pgdir va (s.mem pgdir (pdx va)) (pte_of pp perm)
          (rw (==-ne pgdir table (λ e. path.table_ne hit (sym e)))) hit
          (rw (==-refl table, ==-refl (ptx va))) valid_pte;
    inv = FreeOk-same (with_ref pp _ s) _ refl refl refl (with_ref-FreeOk pp _ s inv used);
    used = used;
    counted = unmapped (entry-invalid s pgdir va hit v) _ (rw (==-refl pp));
    old_dropped = λ pte h _. none-some (entry-invalid s pgdir va hit v) h;
    flushed = flush_has _;
    path = λ _ few.
        let s' = placed table asid pp va perm s in
        let word : s'.mem pgdir (pdx va) ≡ s.mem pgdir (pdx va) =
          rw (==-ne pgdir table (λ e. path.table_ne hit (sym e))) in
        path_after s' table path.dir_used refl (ap ppn word) (path.table_below hit)
          (path.table_ne hit)
          (entry_intro s' pgdir va (s.mem pgdir (pdx va)) (pte_of pp perm) word hit
            (rw (==-refl table, ==-refl (ptx va))) valid_pte)
          (rw (==-refl pp) (λ h. omega arith));
  }

  -- The same page is mapped there: only the word changes.
  Inserted-same :
      (pte : ℕ)
      → entry s pgdir va ≡ some pte
      → ppn pte ≡ pp
      → Inserted s (stored table (ptx va) (pte_of pp perm) (flush asid va s)) pgdir asid pp va perm
  Inserted-same pte e same =
      let (hit, v, f) = entry-some s pgdir va e in
      let yes_maps : maps s pgdir va pp ≡ true =
        maps_lem s pgdir va pp (some pte) e ∙ (==_iff (ppn pte) pp).1 same in
      record {
        mapped =
            entry_intro _ pgdir va (s.mem pgdir (pdx va)) (pte_of pp perm)
              (rw (==-ne pgdir table (λ e. path.table_ne hit (sym e)))) hit
              (rw (==-refl table, ==-refl (ptx va))) valid_pte;
        inv = FreeOk-same s _ refl refl refl inv;
        used = used;
        counted = rw yes_maps;
        old_dropped = λ p h ne. absurd (ne (cc));
        flushed = flush_has _;
        path = λ h _. none-some h e;
      }

  -- Another page is mapped there: it is removed first.
  Inserted-other :
      (pte : ℕ)
      → entry s pgdir va ≡ some pte
      → ppn pte ≢ pp
      → Inserted s
          (placed table asid pp va perm (removed pgdir asid va pte s))
          pgdir
          asid
          pp
          va
          perm
  Inserted-other pte e differs =
      let (hit, v, f) = entry-some s pgdir va e in
      let q = ppn pte in
      let not_maps : maps s pgdir va pp ≡ false =
        maps_lem s pgdir va pp (some pte) e ∙ ==-ne q pp differs in
      let kept : has pp (dropped q s).page_free_list ≡ false = ground arith in
      record {
        mapped =
            entry_intro _ pgdir va (s.mem pgdir (pdx va)) (pte_of pp perm)
              (rw (==-ne pgdir table (λ e. path.table_ne hit (sym e)))) hit
              (rw (==-refl table, ==-refl (ptx va))) valid_pte;
        inv = FreeOk-same (with_ref pp _ (dropped q s)) _ refl refl refl (
            with_ref-FreeOk pp _ _
              (dropped-FreeOk q s inv (path.page_below pte e) (path.page_ref pte e)) kept);
        used = kept;
        counted = rw not_maps (rw (==-refl pp, ==-ne pp q (λ e. differs (sym e))));
        old_dropped =
            λ p h ne. let is : p ≡ pte = ground arith in rw is (rw (==-ne q pp differs, ==-refl q));
        flushed = flush_has (removed pgdir asid va pte s).flushed;
        path = λ h _. none-some h e;
      }

  insert_new-other :
      (pte : ℕ)
      → entry s pgdir va ≡ some pte
      → insert_new pgdir asid pp va perm (removed pgdir asid va pte s)
        ≡ ok tt (placed table asid pp va perm (removed pgdir asid va pte s))
  insert_new-other pte e =
      insert_new-hit s' pgdir asid pp va perm (rw same hit) (rw same (path.table_below hit))
      ∙ ap (λ w. ok tt (placed (ppn w) asid pp va perm s')) same
    where
      s' : Vm
      s' = removed pgdir asid va pte s

      hit : valid (s.mem pgdir (pdx va)) ≡ true
      hit = (entry-some s pgdir va e).0

      same : s'.mem pgdir (pdx va) ≡ s.mem pgdir (pdx va)
      same = rw (==-ne pgdir table (λ e. path.table_ne hit (sym e)))

  -- For a sound free list and path, a page in use and a permission below the page size, `page_insert` maps
  -- the page, adjusts the counts and flushes the TLB, or reports that no page table could be made.
  pub page_insert_outcome :
      InsertOutcome s pgdir asid pp va perm (page_insert pgdir asid pp va perm s)
  unfolding page_insert insert_at replace tlb_invalidate write_word
  page_insert_outcome = elim (Bool-cases (valid (s.mem pgdir (pdx va)))) [
    | inr miss ↦ rw (pgdir_walk-miss s pgdir va miss) (elim (List-cases s.page_free_list) [
      | inl e ↦ rw (insert_new-nil s pgdir asid pp va perm miss e) (refl, miss, e, refl, refl)
      | inr (p, rest, e) ↦
          rw (insert_new-cons s pgdir asid pp va perm p rest inv miss e)
            (Inserted-tabled p rest miss e)
    ])
    | inl hit ↦
        rw (pgdir_walk-hit s pgdir va false hit (path.table_below hit))
          (elim (Bool-cases (valid (s.mem table (ptx va)))) [
            | inr v ↦ rw v (
                rw (insert_new-hit s pgdir asid pp va perm hit (path.table_below hit))
                  (Inserted-placed hit v))
            | inl v ↦ rw v (
                rw (pa2page-ok (s.mem table (ptx va)) s (path.page_below _ (is_entry hit v)))
                  (elim (Bool-cases (ppn (s.mem table (ptx va)) == pp)) [
                    | inl same ↦ rw same (Inserted-same _ (is_entry hit v) (ground arith))
                    | inr differs ↦ rw differs (
                        rw (page_remove-some s pgdir va asid path (is_entry hit v)) (
                          rw (insert_new-other _ (is_entry hit v))
                            (Inserted-other _ (is_entry hit v) (ground arith))))
                  ]))
          ])
  ]
    where
      is_entry :
          valid (s.mem pgdir (pdx va)) ≡ true
          → valid (s.mem table (ptx va)) ≡ true
          → entry s pgdir va ≡ some (s.mem table (ptx va))
      is_entry hit v = entry_intro s pgdir va _ _ refl hit refl v
