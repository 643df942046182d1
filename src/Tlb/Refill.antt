-- ===== src/Tlb/Refill.antt =====
-- `_do_tlb_refill` of kern/tlbex.c: the entry of a mapped address, and the page that an unmapped one
-- gets.
use buaa_os.Base.{
  ℕ, suc, ◌+◌, ◌^◌, ◌≤◌, ◌<◌, ◌≡◌, ◌≢◌, refl, sym, ap, ◌∙◌, true, false, Option, none, some, List,
  [], ◌∷◌, ◌==◌, arith, has, ◌⊎◌, inl, inr, Bool-cases, List-cases, ==-ne,
}
use buaa_os.Run.{Run, ok, fail, panic, enter, and_then}
use buaa_os.Vm.{Vm, pte_d, pte_of, pte_addr, ppn, pdx, ptx, valid, page_insert}
use buaa_os.Vm.Pages.{
  FreeOk, Allocated, cleared, page_alloc-cons, page_alloc-nil, cleared-Allocated,
}
use buaa_os.Vm.Walk.{
  PathOk, entry, entry-some, entry-miss, entry-invalid, entry_intro, found, page_lookup_lem,
}
use buaa_os.Vm.Insert.{Inserted, InsertOutcome, maps, maps_lem, page_insert_outcome}
use buaa_os.Tlb.{is_barred, panic_on, passive_alloc, refill_from, do_tlb_refill}

-- The addresses that no page is allocated for: below UTEMP, the page over the user stack, the
-- environments and pages that are shown to programs, and the kernel's part.
abbrev pub InBarredZone : ℕ → Type 0
InBarredZone va =
    (va < 0x3f_e000)
    ⊎ (((0x7f3f_e000 ≤ va) × (va < 0x7f3f_f000))
        ⊎ (((0x7f40_0000 ≤ va) × (va < 0x7fc0_0000)) ⊎ (0x8000_0000 ≤ va)))

in_zone : (va : ℕ) → InBarredZone va → is_barred va ≡ true
in_zone va (inl h) = ground arith
in_zone va (inr (inl h)) = ground arith
in_zone va (inr (inr (inl h))) = ground arith
in_zone va (inr (inr (inr h))) = ground arith

zone_of : (va : ℕ) → is_barred va ≡ true → InBarredZone va
zone_of va h = ground arith

passive_alloc-barred :
    (va pgdir asid : ℕ) (s : Vm) → is_barred va ≡ true → passive_alloc va pgdir asid s ≡ panic
unfolding passive_alloc
passive_alloc-barred va pgdir asid s h = rw h

-- What the refill of an unmapped address gives: the entry of a page off the free list, writable and
-- with one reference, which is mapped there now; or a panic, where the list has no page, or one page
-- only and a page table is missing.
abbrev pub Refilled : Vm → ℕ → ℕ → Run Vm (Option ℕ) → Type 0
Refilled s pgdir va (ok none s') = ⊥
Refilled s pgdir va (ok (some pte) s') =
    (pp : ℕ) × (pte ≡ pte_of pp pte_d)
    × (has pp s.page_free_list ≡ true)
    × (has pp s'.page_free_list ≡ false)
    × (entry s' pgdir va ≡ some pte)
    × (s'.pp_ref pp ≡ 1)
    × FreeOk s'
Refilled s pgdir va (fail e s') = ⊥
Refilled s pgdir va panic =
    (s.page_free_list ≡ [])
    ⊎ ((valid (s.mem pgdir (pdx va)) ≡ false) × ((p : ℕ) × (s.page_free_list ≡ p ∷ [])))
Refilled s pgdir va (enter s') = ⊥

-- Two addresses of one page.
entry-same :
    (s : Vm) (pgdir a b : ℕ) → pdx a ≡ pdx b → ptx a ≡ ptx b → entry s pgdir a ≡ entry s pgdir b
unfolding entry
entry-same s pgdir a b h k = rw (h, k)

PathOk-same :
    (s : Vm) (pgdir a b : ℕ) → pdx a ≡ pdx b → ptx a ≡ ptx b → PathOk s pgdir a → PathOk s pgdir b
PathOk-same s pgdir a b h k path =
    let e = entry-same s pgdir a b h k in
    record {
      dir_used = path.dir_used;
      table_below = λ v. rw (← h) (path.table_below (rw h v));
      table_ne = λ v. rw (← h) (path.table_ne (rw h v));
      page_below = λ pte f. path.page_below pte (e ∙ f);
      page_ref = λ pte f. path.page_ref pte (e ∙ f);
    }

pdx-page : (va : ℕ) → pdx (pte_addr va) ≡ pdx va
pdx-page va = omega arith

ptx-page : (va : ℕ) → ptx (pte_addr va) ≡ ptx va
ptx-page va = omega arith

no_entry : (pte : ℕ) → ◌≡◌ {A = Option ℕ} none (some pte) → ⊥
no_entry pte e = cc

module _ (va pgdir asid p : ℕ) (rest : List ℕ) (s : Vm) (inv : FreeOk s) (path : PathOk s pgdir va)
    (free : entry s pgdir va ≡ none) (listed : s.page_free_list ≡ p ∷ rest) where
  -- The state with the page off the list and cleared.
  abbrev taken : Vm
  taken = cleared p (record s { page_free_list = rest })

  taken-Allocated : Allocated s taken p
  taken-Allocated = cleared-Allocated s p rest inv listed

  dir_ne : pgdir ≢ p
  dir_ne e =
      let used = path.dir_used in
      let there : has pgdir s.page_free_list ≡ true =
        ap (λ q. has q s.page_free_list) e ∙ taken-Allocated.fresh in
      cc

  dir_word : taken.mem pgdir (pdx va) ≡ s.mem pgdir (pdx va)
  dir_word = rw (==-ne pgdir p dir_ne)

  not_valid :
      valid (s.mem pgdir (pdx va)) ≡ true
      → valid (s.mem (ppn (s.mem pgdir (pdx va))) (ptx va)) ≡ false
  not_valid hit = elim (Bool-cases (valid (s.mem (ppn (s.mem pgdir (pdx va))) (ptx va)))) [
    | inl v ↦ elim (no_entry _ (sym free ∙ entry_intro s pgdir va _ _ refl hit refl v)) [ ]
    | inr v ↦ v
  ]

  still_free : entry taken pgdir va ≡ none
  still_free = elim (Bool-cases (valid (s.mem pgdir (pdx va)))) [
    | inr miss ↦ entry-miss taken pgdir va (rw dir_word miss)
    | inl hit ↦ entry-invalid taken pgdir va (rw dir_word hit) (
        rw dir_word (elim (Bool-cases (ppn (s.mem pgdir (pdx va)) == p)) [
          | inl e ↦ rw e refl
          | inr e ↦ rw e (not_valid hit)
        ]))
  ]

  taken-PathOk : PathOk taken pgdir va
  taken-PathOk = record {
    dir_used = taken-Allocated.others pgdir dir_ne ∙ path.dir_used;
    table_below = λ v. rw dir_word (path.table_below (rw (← dir_word) v));
    table_ne = λ v. rw dir_word (path.table_ne (rw (← dir_word) v));
    page_below = λ pte h. elim (no_entry pte (sym still_free ∙ h)) [ ];
    page_ref = λ pte h. elim (no_entry pte (sym still_free ∙ h)) [ ];
  }

-- A round for a mapped address ends the loop.
mapped_round :
    (n va pgdir asid pte : ℕ) (s : Vm)
    → PathOk s pgdir va
    → entry s pgdir va ≡ some pte
    → do_tlb_refill (suc n) va pgdir asid s ≡ ok (some pte) s
unfolding do_tlb_refill refill_from
mapped_round n va pgdir asid pte s path h =
    rw (page_lookup_lem s pgdir va path, ap (found s pgdir va) h)
      (ap (λ t. ok (some t) s) (entry-some s pgdir va h).2)

-- A round for an unmapped one allocates a page.
free_round :
    (n va pgdir asid : ℕ) (s : Vm)
    → PathOk s pgdir va
    → entry s pgdir va ≡ none
    → do_tlb_refill (suc n) va pgdir asid s
      ≡ and_then (passive_alloc va pgdir asid s) (λ _. do_tlb_refill n va pgdir asid)
unfolding do_tlb_refill refill_from
free_round n va pgdir asid s path h = rw (page_lookup_lem s pgdir va path, ap (found s pgdir va) h)

module _ (n va pgdir asid p : ℕ) (rest : List ℕ) (s : Vm) (inv : FreeOk s)
    (path : PathOk s pgdir va) (free : entry s pgdir va ≡ none)
    (listed : s.page_free_list ≡ p ∷ rest) where
  -- The page of the list is mapped, and the next round finds it.
  Inserted-Refilled :
      (s2 : Vm)
      → Inserted
          (cleared p (record s { page_free_list = rest }))
          s2
          pgdir
          asid
          p
          (pte_addr va)
          pte_d
      → Refilled s pgdir va (do_tlb_refill (suc n) va pgdir asid s2)
  Inserted-Refilled s2 r =
      let s1 : Vm = cleared p (record s { page_free_list = rest }) in
      let al : Allocated s s1 p = cleared-Allocated s p rest inv listed in
      let unmapped : entry s1 pgdir (pte_addr va) ≡ none =
        entry-same s1 pgdir (pte_addr va) va (pdx-page va) (ptx-page va)
        ∙ still_free va pgdir asid p rest s inv path free listed in
      let few : s1.pp_ref p + 1 < 2 ^ 16 = omega (arith, al.unref) in
      let path2 : PathOk s2 pgdir va =
        PathOk-same s2 pgdir (pte_addr va) va (pdx-page va) (ptx-page va) (r.path unmapped few) in
      let there : entry s2 pgdir va ≡ some (pte_of p pte_d) =
        sym (entry-same s2 pgdir (pte_addr va) va (pdx-page va) (ptx-page va)) ∙ r.mapped in
      let new : maps s1 pgdir (pte_addr va) p ≡ false =
        maps_lem s1 pgdir (pte_addr va) p none unmapped in
      let one : s2.pp_ref p ≡ 1 = r.counted ∙ rw (new, al.unref) refl in
      rw (mapped_round n va pgdir asid (pte_of p pte_d) s2 path2 there)
        (p, refl, al.fresh, r.used, there, one, r.inv)

  insert-Refilled :
      (r : Run Vm (Unit {0}))
      → InsertOutcome
          (cleared p (record s { page_free_list = rest }))
          pgdir
          asid
          p
          (pte_addr va)
          pte_d
          r
      → Refilled s pgdir va (and_then (panic_on r) (λ _. do_tlb_refill (suc n) va pgdir asid))
  insert-Refilled (ok _ s2) r = Inserted-Refilled s2 r
  insert-Refilled (fail e s2) (_, miss, empty, _, _) = inr (
    rw (← dir_word va pgdir asid p rest s inv path free listed) (rw (pdx-page va) at miss),
    (p, listed ∙ ap (λ l. p ∷ l) empty),
  )
  insert-Refilled panic o = elim o [ ]
  insert-Refilled (enter s2) o = elim o [ ]

  alloc-Refilled :
      is_barred va ≡ false
      → Refilled s pgdir va
          (and_then (passive_alloc va pgdir asid s) (λ _. do_tlb_refill (suc n) va pgdir asid))
  unfolding passive_alloc
  alloc-Refilled legal =
      let s1 : Vm = cleared p (record s { page_free_list = rest }) in
      let al : Allocated s s1 p = cleared-Allocated s p rest inv listed in
      let path1 : PathOk s1 pgdir (pte_addr va) =
        PathOk-same s1 pgdir va (pte_addr va) (sym (pdx-page va)) (sym (ptx-page va))
          (taken-PathOk va pgdir asid p rest s inv path free listed) in
      rw legal (
        rw (page_alloc-cons s p rest inv listed) (
          insert-Refilled (page_insert pgdir asid p (pte_addr va) pte_d s1) (
            page_insert_outcome s1 pgdir asid p (pte_addr va) pte_d al.inv path1 al.below al.taken
              (omega arith))))

passive_alloc-nil :
    (va pgdir asid : ℕ) (s : Vm) → s.page_free_list ≡ [] → passive_alloc va pgdir asid s ≡ panic
unfolding passive_alloc
passive_alloc-nil va pgdir asid s h = elim (Bool-cases (is_barred va)) [
  | inl e ↦ rw e
  | inr e ↦ rw e (rw (page_alloc-nil s h))
]

-- For a sound free list and a sound path the refill of a mapped address gives its page table entry in
-- the first round, and changes nothing; the refill of an unmapped address below UTEMP, in the page
-- over the user stack, from UENVS to UVPT or from ULIM on is a panic; and that of any other unmapped
-- address ends in the second round with the entry of a page off the free list, which is mapped there
-- now, writable and with one reference, or panics where the free list is empty, or has one page and a
-- page table is missing.
pub do_tlb_refill_outcome :
    (n va pgdir asid : ℕ) (s : Vm)
    → FreeOk s
    → PathOk s pgdir va
    → ((pte : ℕ)
        → entry s pgdir va ≡ some pte
        → do_tlb_refill (suc n) va pgdir asid s ≡ ok (some pte) s)
      × (entry s pgdir va ≡ none → InBarredZone va → do_tlb_refill (suc n) va pgdir asid s ≡ panic)
      × (entry s pgdir va ≡ none
          → ¬ InBarredZone va
          → Refilled s pgdir va (do_tlb_refill (suc (suc n)) va pgdir asid s))
do_tlb_refill_outcome n va pgdir asid s inv path = (
  λ pte h. mapped_round n va pgdir asid pte s path h,
  λ h zone.
      free_round n va pgdir asid s path h
      ∙ rw (passive_alloc-barred va pgdir asid s (in_zone va zone)),
  λ h legal. rw (free_round (suc n) va pgdir asid s path h) (elim (List-cases s.page_free_list) [
    | inl e ↦ rw (passive_alloc-nil va pgdir asid s e) (inl e)
    | inr (p, rest, e) ↦ alloc-Refilled n va pgdir asid p rest s inv path h e (open_zone legal)
  ]),
)
  where
    open_zone : ¬ InBarredZone va → is_barred va ≡ false
    open_zone legal = elim (Bool-cases (is_barred va)) [
      | inl e ↦ absurd (legal (zone_of va e))
      | inr e ↦ e
    ]
