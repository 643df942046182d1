-- ===== src/Fork.antt =====
-- Copy on write, user/lib/fork.c: `duppage`, the loop of `fork` and `cow_entry`, over the address
-- spaces as a program sees them. `map` is the page table of an environment, by page number, with the
-- frame and the permission bits of a page that is mapped; `frames` are the words of the frames, and
-- those from `next` on are free. The system calls have the effect of kern/syscall_all.c on the
-- environments of the two processes; for an illegal address, and where `refused` holds of a page (the
-- kernel has no memory to map it), the call is an error and changes nothing, which the code does not
-- look at.
pub mod Perms
pub mod Private
pub mod Pages
pub mod Stores
pub mod Isolated
use buaa_os.Base.{
  ℕ, zero, suc, ◌+◌, ◌-◌, ◌/◌, ◌^◌, bit_and, bit_or, Bool, true, false, not, ◌&&◌, ◌||◌, ltb, leb,
  Option, none, some, ◌==◌, if◌then◌else◌,
}
use buaa_os.Vm.{update, update_word}

pub record Spaces : Type 0 where
  pub map : ℕ → ℕ → Option (ℕ × ℕ)
  pub frames : ℕ → ℕ → ℕ
  pub next : ℕ
  pub refused : ℕ → ℕ → Bool

abbrev pub pte_cow : ℕ
pte_cow = 0x1

abbrev pub pte_library : ℕ
pte_library = 0x4

abbrev pub pte_dirty : ℕ
pte_dirty = 0x400

abbrev pub has_flag : ℕ → ℕ → Bool
has_flag perm flag = not (bit_and perm flag == 0)

-- The pages of UCOW and of USTACKTOP.
abbrev pub ucow : ℕ
ucow = 0x3f_f000 / 4096

abbrev pub stack_top : ℕ
stack_top = 0x7f3f_e000 / 4096

abbrev pub set_page : ℕ → ℕ → Option (ℕ × ℕ) → Spaces → Spaces
set_page c u o s = record s { map = λ e v. if (e == c) && (v == u) then o else s.map e v }

-- `is_illegal_va` of kern/syscall_all.c for the address of page `v`: below UTEMP, or UTOP and above.
abbrev pub is_illegal : ℕ → Bool
is_illegal v = ltb v 0x3fe || leb 0x7_f400 v

-- `syscall_mem_map(e, v, c, u, perm)`.
abbrev pub map_from : Option (ℕ × ℕ) → ℕ → ℕ → ℕ → Spaces → Spaces
map_from none c u perm s = s
map_from (some (f, _)) c u perm s = set_page c u (some (f, perm)) s

unfoldable pub mem_map : ℕ → ℕ → ℕ → ℕ → ℕ → Spaces → Spaces
mem_map e v c u perm s =
    if (is_illegal v || is_illegal u) || s.refused c u then s else map_from (s.map e v) c u perm s

unfoldable pub mem_alloc : ℕ → ℕ → ℕ → Spaces → Spaces
mem_alloc e v perm s =
    if is_illegal v || s.refused e v
    then s
    else set_page e v (some (s.next, perm))
        (record s { frames = update s.frames s.next (λ _. 0); next = s.next + 1 })

abbrev pub mem_unmap : ℕ → ℕ → Spaces → Spaces
mem_unmap e v s = set_page e v none s

-- `memcpy` of page `v` to page `u`; it fails where one of them is not mapped.
abbrev pub copy_frame : Option (ℕ × ℕ) → Option (ℕ × ℕ) → Spaces → Option Spaces
copy_frame (some (f, _)) (some (g, _)) s =
    some (record s { frames = update s.frames g (s.frames f) })
copy_frame _ _ s = none

-- `vpt[vpn] & 0xfff`; the entry is 0 where no page is mapped.
abbrev pub perm_of : Option (ℕ × ℕ) → ℕ
perm_of none = 0
perm_of (some (_, p)) = p

abbrev pub unmap_after : ℕ → ℕ → ℕ → Option Spaces → Option Spaces
unmap_after e v perm none = none
unmap_after e v perm (some s) = some (mem_unmap e ucow (mem_map e ucow e v perm s))

-- `none` is `user_panic`, or a fault of the copy.
unfoldable pub cow_entry : ℕ → ℕ → Spaces → Option Spaces
unfolding mem_alloc mem_map
cow_entry e v s =
    let p = perm_of (s.map e v) in
    let perm = bit_or (p - pte_cow) pte_dirty in
    let s1 : Spaces = mem_alloc e ucow perm s in
    if has_flag p pte_cow
    then unmap_after e v perm (copy_frame (s1.map e v) (s1.map e ucow) s1)
    else none

unfoldable pub duppage : ℕ → ℕ → ℕ → Spaces → Spaces
unfolding mem_map
duppage e c v s =
    let p = perm_of (s.map e v) in
    let q = bit_or p pte_cow - pte_dirty in
    if has_flag p pte_dirty && not (has_flag p pte_library)
    then mem_map e v e v q (mem_map e v c v q s)
    else mem_map e v c v p s

abbrev pub dup_mapped : Option (ℕ × ℕ) → ℕ → ℕ → ℕ → Spaces → Spaces
dup_mapped none e c i s = s
dup_mapped (some _) e c i s = duppage e c i s

-- The loop of `fork` in environment `e`, over `n` pages from `i` on; `c` is the child.
unfoldable pub dup_pages : ℕ → ℕ → ℕ → ℕ → Spaces → Spaces
unfolding duppage
dup_pages zero e c i s = s
dup_pages (suc n) e c i s = dup_pages n e c (i + 1) (dup_mapped (s.map e i) e c i s)

abbrev pub fork_pages : ℕ → ℕ → Spaces → Spaces
fork_pages e c s = dup_pages stack_top e c 0 s

-- A store by a program: to a page that may be written, and otherwise after `cow_entry`, which the
-- kernel enters. `none` where the store fails.
abbrev pub write_to : Option (ℕ × ℕ) → ℕ → ℕ → Spaces → Option Spaces
write_to none w x s = none
write_to (some (f, p)) w x s =
    if has_flag p pte_dirty then some (record s { frames = update_word s.frames f w x }) else none

abbrev pub write_after : ℕ → ℕ → ℕ → ℕ → Option Spaces → Option Spaces
write_after e v w x none = none
write_after e v w x (some s) = write_to (s.map e v) w x s

unfoldable pub store : ℕ → ℕ → ℕ → ℕ → Spaces → Option Spaces
unfolding cow_entry
store e v w x s =
    if has_flag (perm_of (s.map e v)) pte_dirty
    then write_to (s.map e v) w x s
    else write_after e v w x (cow_entry e v s)

-- What environment `e` reads from word `w` of page `v`.
abbrev pub read_from : Option (ℕ × ℕ) → ℕ → (ℕ → ℕ → ℕ) → Option ℕ
read_from none w frames = none
read_from (some (f, _)) w frames = some (frames f w)

abbrev pub view : ℕ → ℕ → ℕ → Spaces → Option ℕ
view e v w s = read_from (s.map e v) w s.frames
