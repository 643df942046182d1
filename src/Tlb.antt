-- ===== src/Tlb.antt =====
-- kern/tlbex.c: a page is allocated when an address without one is used.
pub mod Refill
use buaa_os.Base.{
  ℕ, zero, suc, ◌+◌, ◌-◌, ◌*◌, Bool, true, false, ◌&&◌, ◌||◌, Option, none, some, ltb, leb,
  if◌then◌else◌,
}
use buaa_os.Run.{Run, ok, fail, panic, enter, Cmd, pure, ◌>>=◌, ◌>>◌}
use buaa_os.Vm.{Vm, Slot, by2pg, pte_addr, pte_d, page_alloc, page_insert, page_lookup, read_word}
use buaa_os.Env.{utop, uvpt, ustacktop}
use buaa_os.Syscall.{utemp}

abbrev pub uenvs : ℕ
uenvs = utop

abbrev pub upages : ℕ
upages = 0x7f80_0000

abbrev pub ulim : ℕ
ulim = 0x8000_0000

-- The addresses for which `passive_alloc` panics.
abbrev pub is_barred : ℕ → Bool
is_barred va =
    ltb va utemp
    || ((leb ustacktop va && ltb va (ustacktop + by2pg))
        || ((leb uenvs va && ltb va upages) || ((leb upages va && ltb va uvpt) || leb ulim va)))

-- `panic_on`: an error code is a panic.
abbrev pub panic_on : {S A : Type 0} → Run S A → Run S A
panic_on (ok a s) = ok a s
panic_on (fail e s) = panic
panic_on panic = panic
panic_on (enter s) = enter s

unfoldable pub passive_alloc : ℕ → ℕ → ℕ → Cmd Vm (Unit {0})
unfolding page_alloc page_insert
passive_alloc va pgdir asid = if is_barred va then (λ _. panic) else do
  p ← (λ s. panic_on (page_alloc s))
  (λ s. panic_on (page_insert pgdir asid p (pte_addr va) pte_d s))

-- The body of the loop of `_do_tlb_refill`, by what `page_lookup` found.
unfoldable pub refill_from : Cmd Vm (Option ℕ) → Option (ℕ × Slot) → ℕ → ℕ → ℕ → Cmd Vm (Option ℕ)
unfolding passive_alloc
refill_from next none va pgdir asid = do passive_alloc va pgdir asid; next
refill_from next (some (pp, slot)) va pgdir asid = do pte ← read_word slot; pure (some pte)

-- `_do_tlb_refill` with `n` rounds of its loop, for `cur_pgdir` `pgdir`; `none` is a loop that has
-- not ended.
unfoldable pub do_tlb_refill : ℕ → ℕ → ℕ → ℕ → Cmd Vm (Option ℕ)
unfolding page_lookup refill_from
do_tlb_refill zero va pgdir asid = pure none
do_tlb_refill (suc n) va pgdir asid = do
  found ← page_lookup pgdir va
  refill_from (do_tlb_refill n va pgdir asid) found va pgdir asid
