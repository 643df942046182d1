-- ===== src/Fd.antt =====
-- The descriptor table of user/lib/fd.c. Descriptor `i` has the page at FDTABLE + i * BY2PG; `vpd`
-- and `vpt` are the program's own page directory and page tables, one word for each 4 MB and each
-- page. Numbers of descriptors and results are 32-bit patterns, negative ones from 2^31 on.
pub mod Table
use buaa_os.Base.{
  ℕ, zero, suc, ◌+◌, ◌-◌, ◌*◌, ◌/◌, ◌%◌, ◌^◌, bit_and, Bool, true, false, not, ◌&&◌, ◌||◌, Option,
  none, some, List, [], ◌∷◌, ltb, leb, ◌==◌, if◌then◌else◌,
}
use buaa_os.Vm.{by2pg, valid, update}

abbrev pub maxfd : ℕ
maxfd = 32

abbrev pub pdmap : ℕ
pdmap = 4 * 1024 * 1024

abbrev pub filebase : ℕ
filebase = 0x6000_0000

abbrev pub fdtable : ℕ
fdtable = filebase - pdmap

abbrev pub index2fd : ℕ → ℕ
index2fd i = (fdtable + i * by2pg) % 2 ^ 32

abbrev pub index2data : ℕ → ℕ
index2data i = (filebase + i * pdmap) % 2 ^ 32

-- `struct Fd`.
pub record Fd : Type 0 where
  pub fd_dev_id : ℕ
  pub fd_offset : ℕ
  pub fd_omode : ℕ

-- The address space of the program: its page tables, and the structure at each descriptor page.
pub record Space : Type 0 where
  pub vpd : ℕ → ℕ
  pub vpt : ℕ → ℕ
  pub fds : ℕ → Fd

pub data FdError : Type 0 where
  inval max_open : FdError

-- A result, or the negative of an error code.
pub data Reply (A : Type 0) : Type 0 where
  reply : A → Space → Reply A
  failed : FdError → Space → Reply A

-- The loop of `fd_alloc` from descriptor `fdno` on, with `n` rounds left.
unfoldable pub fd_alloc_from : ℕ → ℕ → Space → Reply ℕ
fd_alloc_from zero fdno s = failed max_open s
fd_alloc_from (suc n) fdno s =
    let va = index2fd fdno in
    let rest = fd_alloc_from n (fdno + 1) s in
    if not (valid (s.vpd (va / pdmap)))
    then reply va s
    else if not (valid (s.vpt (va / by2pg)))
    then reply va s
    else rest

unfoldable pub fd_alloc : Space → Reply ℕ
fd_alloc s = fd_alloc_from (maxfd - 1) 0 s

-- `fdnum >= MAXFD` on an `int`.
abbrev pub fdnum_above : ℕ → Bool
fdnum_above fdnum = ltb fdnum (2 ^ 31) && leb maxfd fdnum

unfoldable pub fd_lookup : ℕ → Space → Reply ℕ
fd_lookup fdnum s =
    let va = index2fd fdnum in
    if fdnum_above fdnum
    then failed inval s
    else if valid (s.vpt (va / by2pg))
    then reply va s
    else failed inval s

abbrev pub fd2num : ℕ → ℕ
fd2num fd = (fd + 2 ^ 32 - fdtable) % 2 ^ 32 / by2pg

abbrev pub num2fd : ℕ → ℕ
num2fd fd = (fd * by2pg + fdtable) % 2 ^ 32

abbrev pub fd2data : ℕ → ℕ
fd2data fd = index2data (fd2num fd)

abbrev pub and_found : {A : Type 0} → Reply ℕ → (ℕ → Space → Reply A) → Reply A
and_found (reply fd s) next = next fd s
and_found (failed e s) next = failed e s

abbrev pub set_offset : ℕ → ℕ → Space → Space
set_offset fd offset s = record s {
  fds = update s.fds fd (record (s.fds fd) { fd_offset = offset });
}

unfoldable pub seek : ℕ → ℕ → Space → Reply ℕ
unfolding fd_lookup
seek fdnum offset s = and_found (fd_lookup fdnum s) (λ fd s. reply 0 (set_offset fd offset s))

-- `r > 0` on an `int`: the seek position moves by the bytes transferred.
abbrev pub moved : ℕ → ℕ → Space → Space
moved fd r s =
    if ltb 0 r && ltb r (2 ^ 31) then set_offset fd (((s.fds fd).fd_offset + r) % 2 ^ 32) s else s

-- `dev_lookup` knows the devices `f`, `c` and `p`; `dev_id` names them by their characters.
abbrev pub known_device : ℕ → Bool
known_device dev_id = (dev_id == 102) || ((dev_id == 99) || (dev_id == 112))

-- `transfer dev fd n offset` is what `dev_read` or `dev_write` of the device returns; it may change
-- the memory behind the descriptor, but not the tables.
module _ (transfer : ℕ → ℕ → ℕ → ℕ → ℕ) where
  -- `read` and `write` differ in the open mode that they refuse.
  abbrev pub move_bytes : ℕ → ℕ → ℕ → Space → Reply ℕ
  move_bytes refused n fd s =
      let d = s.fds fd in
      let r = transfer d.fd_dev_id fd n d.fd_offset in
      if not (known_device d.fd_dev_id)
      then failed inval s
      else if bit_and d.fd_omode 3 == refused
      then failed inval s
      else reply r (moved fd r s)

  unfoldable pub read : ℕ → ℕ → Space → Reply ℕ
  unfolding fd_lookup
  read fdnum n s = and_found (fd_lookup fdnum s) (move_bytes 1 n)

  unfoldable pub write : ℕ → ℕ → Space → Reply ℕ
  unfolding fd_lookup
  write fdnum n s = and_found (fd_lookup fdnum s) (move_bytes 0 n)
