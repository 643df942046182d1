-- ===== src/Vm.antt =====
-- kern/pmap.c with include/pmap.h and include/mmu.h: physical pages, their reference counts and
-- free list, and two-level page tables. A `struct Page *` is a page number, a `Pde *` the number
-- of the page that holds the directory, a `Pte *` a page and the index of a word in it.
pub mod Insert
pub mod Mapping
pub mod Pages
pub mod Walk
use buaa_os.Base.{
  ℕ, ◌+◌, ◌-◌, ◌*◌, ◌/◌, ◌%◌, ◌^◌, bit_and, bit_or, Bool, true, false, not, Option, none, some,
  List, [], ◌∷◌, ltb, leb, ◌==◌, if◌then◌else◌,
}
use buaa_os.Run.{Run, ok, fail, panic, no_mem, Cmd, pure, throw, get, put, assert, ◌>>=◌, ◌>>◌}

abbrev pub pte_v : ℕ
pte_v = 2 ^ 9

abbrev pub pte_d : ℕ
pte_d = 2 ^ 10

abbrev pub pte_g : ℕ
pte_g = 2 ^ 8

abbrev pub by2pg : ℕ
by2pg = 4096

-- PDX, PTX and PPN.
abbrev pub pdx : ℕ → ℕ
pdx va = va / 2 ^ 22 % 1024

abbrev pub ptx : ℕ → ℕ
ptx va = va / 2 ^ 12 % 1024

abbrev pub ppn : ℕ → ℕ
ppn pa = pa / 2 ^ 12

abbrev pub pte_addr : ℕ → ℕ
pte_addr pte = pte / 2 ^ 12 * 2 ^ 12

-- `entry & PTE_V` as a test.
abbrev pub valid : ℕ → Bool
valid entry = not (bit_and entry pte_v == 0)

-- The memory side of the kernel. `mem p w` is word `w` of page `p`; `flushed` lists the keys that
-- were handed to `tlb_out`, latest first.
pub record Vm : Type 0 where
  pub npage : ℕ
  pub pp_ref : ℕ → ℕ
  pub page_free_list : List ℕ
  pub mem : ℕ → ℕ → ℕ
  pub flushed : List ℕ

-- Where a page table entry lies.
abbrev pub Slot : Type 0
Slot = ℕ × ℕ

abbrev pub page2pa : ℕ → ℕ
page2pa pp = pp * 2 ^ 12 % 2 ^ 32

unfoldable pub pa2page : ℕ → Cmd Vm ℕ
pa2page pa s = if leb s.npage (ppn pa) then panic else ok (ppn pa) s

-- KADDR of a page-aligned address: the page that the kernel then reads or writes.
unfoldable pub kaddr : ℕ → Cmd Vm ℕ
kaddr pa s = if leb s.npage (ppn pa) then panic else ok (ppn pa) s

abbrev pub read_word : Slot → Cmd Vm ℕ
read_word (p, w) s = ok (s.mem p w) s

abbrev pub update_word : (ℕ → ℕ → ℕ) → ℕ → ℕ → ℕ → ℕ → ℕ → ℕ
update_word m p w v q i = if q == p then (if i == w then v else m q i) else m q i

unfoldable pub write_word : Slot → ℕ → Cmd Vm (Unit {0})
write_word (p, w) v s = ok tt (record s { mem = update_word s.mem p w v })

abbrev pub update : {A : Type 0} → (ℕ → A) → ℕ → A → ℕ → A
update f p v q = if q == p then v else f q

-- `pp->pp_ref++`, on a `u_short`.
unfoldable pub incref : ℕ → Cmd Vm (Unit {0})
incref pp s = ok tt (record s { pp_ref = update s.pp_ref pp ((s.pp_ref pp + 1) % 2 ^ 16) })

-- `memset(page2kva(pp), 0, BY2PG)`.
unfoldable pub clear_page : ℕ → Cmd Vm (Unit {0})
unfolding kaddr
clear_page pp = do
  p ← kaddr (page2pa pp)
  s ← get
  put (record s { mem = λ q i. if q == p then 0 else s.mem q i })

unfoldable pub page_alloc : Cmd Vm ℕ
unfolding clear_page
page_alloc s = elim s.page_free_list [
  | [] ↦ fail no_mem s
  | pp ∷ rest ↦ (do put (record s { page_free_list = rest }); clear_page pp; pure pp) s
]

unfoldable pub page_free : ℕ → Cmd Vm (Unit {0})
page_free pp s =
    if s.pp_ref pp == 0 then ok tt (record s { page_free_list = pp ∷ s.page_free_list }) else panic

unfoldable pub page_decref : ℕ → Cmd Vm (Unit {0})
unfolding page_free
page_decref pp s =
    if s.pp_ref pp == 0
    then panic
    else let s' : Vm = record s { pp_ref = update s.pp_ref pp (s.pp_ref pp - 1) } in
      if s.pp_ref pp - 1 == 0 then page_free pp s' else ok tt s'

unfoldable pub tlb_invalidate : ℕ → ℕ → Cmd Vm (Unit {0})
tlb_invalidate asid va s =
    ok tt (record s { flushed = bit_or (pte_addr va) (asid * 2 ^ 6 % 2 ^ 32) ∷ s.flushed })

-- The end of `pgdir_walk`: the entry for `va` in the table that the directory's word names.
unfoldable pub table_slot : ℕ → ℕ → Cmd Vm (Option Slot)
unfolding kaddr
table_slot pde va = do t ← kaddr (pte_addr pde); pure (some (t, ptx va))

unfoldable pub new_table : ℕ → ℕ → Cmd Vm (Option Slot)
unfolding page_alloc write_word incref table_slot
new_table pgdir va = do
  pp ← page_alloc
  write_word (pgdir, pdx va) (page2pa pp)
  pde ← read_word (pgdir, pdx va)
  write_word (pgdir, pdx va) (bit_or (bit_or pde pte_d) pte_v)
  incref pp
  pde ← read_word (pgdir, pdx va)
  table_slot pde va

unfoldable pub pgdir_walk : ℕ → ℕ → Bool → Cmd Vm (Option Slot)
unfolding new_table table_slot
pgdir_walk pgdir va create = do
  pde ← read_word (pgdir, pdx va)
  if valid pde then table_slot pde va else if create then new_table pgdir va else pure none

-- The tail of `page_lookup`, once the slot is known.
unfoldable pub lookup_slot : Option Slot → Cmd Vm (Option (ℕ × Slot))
unfolding pa2page
lookup_slot none = pure none
lookup_slot (some slot) = do
  pte ← read_word slot
  if valid pte then (do pp ← pa2page pte; pure (some (pp, slot))) else pure none

unfoldable pub page_lookup : ℕ → ℕ → Cmd Vm (Option (ℕ × Slot))
unfolding pgdir_walk lookup_slot
page_lookup pgdir va = do slot ← pgdir_walk pgdir va false; lookup_slot slot

unfoldable pub remove_slot : Option (ℕ × Slot) → ℕ → ℕ → Cmd Vm (Unit {0})
unfolding page_decref write_word tlb_invalidate
remove_slot none asid va = pure tt
remove_slot (some (pp, slot)) asid va = do page_decref pp; write_word slot 0; tlb_invalidate asid va

unfoldable pub page_remove : ℕ → ℕ → ℕ → Cmd Vm (Unit {0})
unfolding page_lookup remove_slot
page_remove pgdir asid va = do found ← page_lookup pgdir va; remove_slot found asid va

-- The word `page2pa(pp) | perm | PTE_V`.
abbrev pub pte_of : ℕ → ℕ → ℕ
pte_of pp perm = bit_or (bit_or (page2pa pp) perm) pte_v

-- The write through the pointer that the second walk gave; it is never `NULL` there.
unfoldable pub fill_slot : Option Slot → ℕ → ℕ → Cmd Vm (Unit {0})
unfolding write_word incref
fill_slot none pp perm = λ _. panic
fill_slot (some slot) pp perm = do write_word slot (pte_of pp perm); incref pp

-- Steps 2 to 4 of `page_insert`.
unfoldable pub insert_new : ℕ → ℕ → ℕ → ℕ → ℕ → Cmd Vm (Unit {0})
unfolding tlb_invalidate pgdir_walk fill_slot
insert_new pgdir asid pp va perm = do
  tlb_invalidate asid va
  slot ← pgdir_walk pgdir va true
  fill_slot slot pp perm

-- A page is mapped at `va` already: the same one, or another that is removed first.
unfoldable pub replace : Slot → ℕ → ℕ → ℕ → ℕ → ℕ → ℕ → Cmd Vm (Unit {0})
unfolding insert_new page_remove
replace slot old pgdir asid pp va perm =
    if old == pp
    then (do tlb_invalidate asid va; write_word slot (pte_of pp perm))
    else (do page_remove pgdir asid va; insert_new pgdir asid pp va perm)

unfoldable pub insert_at : Option Slot → ℕ → ℕ → ℕ → ℕ → ℕ → Cmd Vm (Unit {0})
unfolding insert_new pa2page replace
insert_at none pgdir asid pp va perm = insert_new pgdir asid pp va perm
insert_at (some slot) pgdir asid pp va perm = do
  pte ← read_word slot
  if valid pte
      then (do old ← pa2page pte; replace slot old pgdir asid pp va perm)
      else insert_new pgdir asid pp va perm

unfoldable pub page_insert : ℕ → ℕ → ℕ → ℕ → ℕ → Cmd Vm (Unit {0})
unfolding pgdir_walk insert_at
page_insert pgdir asid pp va perm = do
  slot ← pgdir_walk pgdir va false
  insert_at slot pgdir asid pp va perm

unfoldable pub table_va2pa : ℕ → ℕ → Cmd Vm ℕ
unfolding kaddr
table_va2pa pde va = do
  t ← kaddr (pte_addr pde)
  pte ← read_word (t, ptx va)
  pure (if valid pte then pte_addr pte else 2 ^ 32 - 1)

-- `va2pa` of include/pmap.h: the page's address, or `~0`.
unfoldable pub va2pa : ℕ → ℕ → Cmd Vm ℕ
unfolding table_va2pa
va2pa pgdir va = do
  pde ← read_word (pgdir, pdx va)
  if valid pde then table_va2pa pde va else pure (2 ^ 32 - 1)

-- `page_init`: the pages below `freemem`, rounded up, are in use; the others go to the list one by
-- one, so that the highest page comes first. `below` is the number of pages in use.
unfoldable pub insert_pages : ℕ → ℕ → List ℕ → List ℕ
insert_pages ℕ.zero pp l = l
insert_pages (ℕ.suc n) pp l = insert_pages n (pp + 1) (pp ∷ l)

unfoldable pub page_init : ℕ → Vm → Vm
unfolding insert_pages
page_init below s = record s {
  pp_ref = λ p. if ltb p below then 1 else if ltb p s.npage then 0 else s.pp_ref p;
  page_free_list = insert_pages (s.npage - below) below [];
}
