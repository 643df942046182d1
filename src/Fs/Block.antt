-- ===== src/Fs/Block.antt =====
-- The block cache and the bitmap of fs/fs.c.
pub mod Cache
pub mod Bits
use buaa_os.Base.{
  ℕ, zero, suc, ◌+◌, ◌-◌, ◌*◌, ◌/◌, ◌%◌, ◌^◌, bit_and, bit_or, Bool, true, false, not, ◌&&◌, ◌||◌,
  ltb, leb, ◌==◌, if◌then◌else◌, is_set,
}
use buaa_os.Run.{
  Run, ok, fail, panic, enter, no_mem, no_disk, not_found, Error, Cmd, pure, throw, get, put,
  assert, ◌>>=◌, ◌>>◌,
}
use buaa_os.Vm.{update}
use buaa_os.Fs.{Fs, load, store, s_magic, s_nblocks, bitmap, by2blk, bit2blk}
use buaa_os.Fs.Ide.{ide_read, ide_write}

abbrev pub sect2blk : ℕ
sect2blk = 8

abbrev pub fs_magic : ℕ
fs_magic = 0x6828_6097

abbrev pub diskmax : ℕ
diskmax = 0x4000_0000

abbrev pub block_is_mapped : ℕ → Fs → Bool
block_is_mapped b s = s.mapped b

abbrev pub block_is_dirty : ℕ → Fs → Bool
block_is_dirty b s = s.mapped b && s.dirty b

-- `syscall_mem_map` of a mapped page onto itself needs no memory.
unfoldable pub dirty_block : ℕ → Cmd Fs (Unit {0})
dirty_block b s =
    if not (s.mapped b)
    then fail not_found s
    else if s.dirty b
    then ok tt s
    else ok tt (record s { dirty = update s.dirty b true })

-- A test whose failure is `user_panic` or `user_assert`.
abbrev pub require : Bool → Cmd Fs (Unit {0})
require b = assert b

unfoldable pub write_block : ℕ → Cmd Fs (Unit {0})
unfolding ide_write
write_block b = do s ← get; require (s.mapped b); ide_write (b * sect2blk) b sect2blk

-- `syscall_mem_alloc` for the page of block `b`: a cleared page, not dirty.
unfoldable pub mem_alloc : ℕ → Cmd Fs (Unit {0})
mem_alloc b s =
    if s.free_pages == 0
    then fail no_mem s
    else ok tt (record s {
      mapped = update s.mapped b true;
      dirty = update s.dirty b false;
      mem = update s.mem b (λ _. 0);
      free_pages = s.free_pages - 1;
    })

abbrev pub bit_free : ℕ → Fs → Bool
bit_free b s = is_set (bitmap s) b

abbrev pub block_is_free : ℕ → Fs → Bool
block_is_free b s = s.super && (ltb b (s_nblocks s) && bit_free b s)

-- A result of `syscall_mem_alloc` that `read_block` does not look at: the transfer into the page
-- that is not there panics in the kernel.
abbrev pub unchecked : Run Fs (Unit {0}) → Run Fs (Unit {0})
unchecked (ok a s) = ok a s
unchecked (fail e s) = panic
unchecked panic = panic
unchecked (enter s) = panic

-- The result is `*isnew`.
unfoldable pub read_block : ℕ → Cmd Fs Bool
unfolding mem_alloc ide_read
read_block b = do
  s ← get
  require (not (s.super && leb (s_nblocks s) b))
  require (not (s.has_bitmap && block_is_free b s))
  if s.mapped b
      then pure false
      else do (λ s. unchecked (mem_alloc b s)); ide_read (b * sect2blk) b sect2blk; pure true

unfoldable pub map_block : ℕ → Cmd Fs (Unit {0})
unfolding mem_alloc
map_block b s = if s.mapped b then ok tt s else mem_alloc b s

-- `syscall_mem_unmap`. An access to a page that is not mapped maps a page of zeros (kern/tlbex.c), so
-- the words of the page are 0 from here on.
abbrev pub mem_unmap : ℕ → Cmd Fs (Unit {0})
mem_unmap b s = ok tt (record s {
  mapped = update s.mapped b false;
  dirty = update s.dirty b false;
  mem = update s.mem b (λ _. 0);
  free_pages = s.free_pages + 1;
})

unfoldable pub unmap_block : ℕ → Cmd Fs (Unit {0})
unfolding write_block
unmap_block b = do
  s ← get
  require (s.mapped b)
  if not (block_is_free b s) && block_is_dirty b s then write_block b else pure tt
  mem_unmap b
  s ← get
  require (not (s.mapped b))

-- `bitmap[b / 32] = v`.
abbrev pub set_bitmap : ℕ → ℕ → Cmd Fs (Unit {0})
set_bitmap b v = store (2 + b / 32 / 1024, b / 32 % 1024) v

unfoldable pub free_block : ℕ → Cmd Fs (Unit {0})
free_block b s =
    if (b == 0) || (s.super && leb (s_nblocks s) b)
    then ok tt s
    else set_bitmap b (bit_or (bitmap s (b / 32)) (2 ^ (b % 32))) s

-- A free block was found: it is marked as used, and its bitmap block goes to the disk.
unfoldable pub take_block : ℕ → Cmd Fs ℕ
unfolding write_block
take_block b = do
  s ← get
  set_bitmap b (bit_and (bitmap s (b / 32)) (2 ^ 32 - 1 - 2 ^ (b % 32)))
  write_block (b / bit2blk + 2)
  pure b

-- The loop of `alloc_block_num` from block `b` on, with `n` rounds left.
unfoldable pub alloc_scan : ℕ → ℕ → Cmd Fs ℕ
unfolding take_block
alloc_scan zero b s = fail no_disk s
alloc_scan (suc n) b s =
    let rest = alloc_scan n (b + 1) s in if bit_free b s then take_block b s else rest

unfoldable pub alloc_block_num : Cmd Fs ℕ
unfolding alloc_scan
alloc_block_num s = alloc_scan (s_nblocks s - 3) 3 s

-- `map_block` failed: the block is given back.
abbrev pub or_free : ℕ → Run Fs (Unit {0}) → Run Fs ℕ
or_free b (ok a s) = ok b s
or_free b (fail e s) = (do free_block b; throw e) s
or_free b panic = panic
or_free b (enter s) = enter s

unfoldable pub alloc_block : Cmd Fs ℕ
unfolding alloc_block_num map_block
alloc_block = do b ← alloc_block_num; (λ s. or_free b (map_block b s))

unfoldable pub read_super : Cmd Fs (Unit {0})
unfolding read_block
read_super = do
  read_block 1
  s ← get
  put (record s { super = true })
  s ← get
  require (s_magic s == fs_magic)
  require (leb (s_nblocks s) (diskmax / by2blk))

-- `n` blocks from `b` on are read.
unfoldable pub read_blocks : ℕ → ℕ → Cmd Fs (Unit {0})
unfolding read_block
read_blocks zero b = pure tt
read_blocks (suc n) b = do read_block b; read_blocks n (b + 1)

unfoldable pub require_used : ℕ → ℕ → Cmd Fs (Unit {0})
require_used zero b = pure tt
require_used (suc n) b = do s ← get; require (not (block_is_free b s)); require_used n (b + 1)

unfoldable pub read_bitmap : Cmd Fs (Unit {0})
unfolding read_blocks require_used
read_bitmap = do
  s ← get
  let nbitmap = s_nblocks s / bit2blk + 1
  read_blocks nbitmap 2
  s ← get
  put (record s { has_bitmap = true })
  require_used 2 0
  require_used nbitmap 2

-- The loop of `fs_sync`, with `n` blocks from `i` on to go.
unfoldable pub sync_blocks : ℕ → ℕ → Cmd Fs (Unit {0})
unfolding write_block
sync_blocks zero i = pure tt
sync_blocks (suc n) i = do
  s ← get
  if block_is_dirty i s then write_block i else pure tt
  sync_blocks n (i + 1)

unfoldable pub fs_sync : Cmd Fs (Unit {0})
unfolding sync_blocks
fs_sync s = sync_blocks (s_nblocks s) 0 s
