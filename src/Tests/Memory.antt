-- ===== src/Tests/Memory.antt =====
-- The pages of kern/pmap.c, on a memory of sixteen pages.
use buaa_os.Base.{
  ℕ, ◌≡◌, refl, sym, ◌∙◌, ◌&&◌, ◌||◌, Option, none, some, [], ◌∷◌, ◌==◌, if◌then◌else◌, arith,
}
use buaa_os.Run.{ok, panic}
use buaa_os.Vm.{Vm, page_alloc, page_remove, page_insert}
use buaa_os.Vm.Pages.{FreeOk, AllocOutcome, page_alloc_outcome}
use buaa_os.Vm.Walk.{PathOk, entry}
use buaa_os.Vm.Mapping.{RemoveOutcome, page_remove_outcome}
use buaa_os.Tlb.{do_tlb_refill}
use buaa_os.Tlb.Refill.{InBarredZone, Refilled, do_tlb_refill_outcome}
use buaa_os.Vm.Insert.{InsertOutcome, page_insert_outcome}

-- Page 1 is a directory, page 2 its table for the addresses from 4 MB on, and page 3 the page
-- mapped there. Pages 4 and 5 are free.
abbrev machine : Vm
machine = record {
  npage = 16;
  pp_ref = λ p. if (p == 1) || ((p == 2) || (p == 3)) then 1 else 0;
  page_free_list = 4 ∷ 5 ∷ [];
  mem = λ p w. if (p == 1) && (w == 1) then 0x2200 else if (p == 2) && (w == 0) then 0x3200 else 0;
  flushed = [];
}

abbrev address : ℕ
address = 0x40_0000

free_pages : FreeOk machine
free_pages = record {
  distinct = (refl, (refl, tt));
  unref = λ p h. ground arith;
  below = λ p h. ground arith;
  small = omega arith;
}

there : entry machine 1 address ≡ some 0x3200
unfolding entry
there = refl

some_eq : {x y : ℕ} → some x ≡ some y → x ≡ y
some_eq h = ground arith

path : PathOk machine 1 address
path = record {
  dir_used = refl;
  table_below = λ h. omega arith;
  table_ne = λ h e. ground arith;
  page_below =
      λ pte h. let named : 0x3200 ≡ pte = some_eq (rw there at h) in rw (← named) (omega arith);
  page_ref = λ pte h.
      let named : 0x3200 ≡ pte = some_eq (rw there at h) in rw (← named) (λ e. ground arith);
}

page_alloc_outcome_example : AllocOutcome machine (page_alloc machine)
page_alloc_outcome_example = page_alloc_outcome machine free_pages

page_remove_outcome_example : RemoveOutcome machine 1 7 address (page_remove 1 7 address machine)
page_remove_outcome_example = page_remove_outcome machine 1 7 address free_pages path

page_insert_outcome_example :
    InsertOutcome machine 1 7 6 address 0x400 (page_insert 1 7 6 address 0x400 machine)
page_insert_outcome_example =
    page_insert_outcome machine 1 7 6 address 0x400 free_pages path (omega arith) refl (omega arith)

-- The address above it, which is not mapped: its refill takes page 4.
abbrev next_address : ℕ
next_address = 0x40_1234

next_free : entry machine 1 next_address ≡ none
unfolding entry
next_free = refl

no_entry : (pte : ℕ) → ◌≡◌ {A = Option ℕ} none (some pte) → ⊥
no_entry pte e = cc

next_path : PathOk machine 1 next_address
next_path = record {
  dir_used = refl;
  table_below = λ h. omega arith;
  table_ne = λ h e. ground arith;
  page_below = λ pte h. elim (no_entry pte (sym next_free ∙ h)) [ ];
  page_ref = λ pte h. elim (no_entry pte (sym next_free ∙ h)) [ ];
}

do_tlb_refill_outcome_example :
    ((pte : ℕ)
      → entry machine 1 next_address ≡ some pte
      → do_tlb_refill 3 next_address 1 7 machine ≡ ok (some pte) machine)
    × (entry machine 1 next_address ≡ none
        → InBarredZone next_address
        → do_tlb_refill 3 next_address 1 7 machine ≡ panic)
    × (entry machine 1 next_address ≡ none
        → ¬ InBarredZone next_address
        → Refilled machine 1 next_address (do_tlb_refill 4 next_address 1 7 machine))
do_tlb_refill_outcome_example =
    do_tlb_refill_outcome 2 next_address 1 7 machine free_pages next_path

-- The third part at that address, which is in none of the zones.
refilled : Refilled machine 1 next_address (do_tlb_refill 4 next_address 1 7 machine)
refilled =
    (do_tlb_refill_outcome 2 next_address 1 7 machine free_pages next_path).2 next_free
      (λ zone. ground arith)
