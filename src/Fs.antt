-- ===== src/Fs.antt =====
-- The file system server's memory and disk (fs/fs.c, fs/serv.h, user/include/fs.h). Disk block `b`
-- is cached in the page at DISKMAP + b * BY2BLK, here page `b`. A page is a function from word
-- indices to 32-bit words, and a pointer into the cache is a page and a word. Only words of mapped
-- pages are read: those of the super block, of the bitmap, and of blocks that `read_block` or
-- `alloc_block` gave.
pub mod Ide
pub mod Block
pub mod Inode
pub mod Dir
pub mod Init
use buaa_os.Base.{ℕ, ◌+◌, ◌-◌, ◌*◌, ◌/◌, ◌%◌, ◌^◌, Bool, true, false, ◌==◌, if◌then◌else◌, is_set}
use buaa_os.Run.{Run, ok, fail, Cmd}
use buaa_os.Vm.{update, update_word}

-- `super` and `has_bitmap` say whether the pointers `super` and `bitmap` are set; they point to
-- pages 1 and 2. `mapped` and `dirty` are the bits PTE_V and PTE_DIRTY of the cache pages, `disk`
-- holds words by sector, `bad` tells the sectors on which the drive reports a failure, and
-- `free_pages` counts the pages that the kernel can still give.
pub record Fs : Type 0 where
  pub super : Bool
  pub has_bitmap : Bool
  pub disk : ℕ → ℕ → ℕ
  pub bad : ℕ → Bool
  pub mapped : ℕ → Bool
  pub dirty : ℕ → Bool
  pub mem : ℕ → ℕ → ℕ
  pub free_pages : ℕ

-- A pointer into the cache.
abbrev pub Ptr : Type 0
Ptr = ℕ × ℕ

abbrev pub load : Ptr → Cmd Fs ℕ
load (b, w) s = ok (s.mem b w) s

abbrev pub store : Ptr → ℕ → Cmd Fs (Unit {0})
store (b, w) v s = ok tt (record s { mem = update_word s.mem b w v })

-- The words of `struct Super`: `s_magic`, `s_nblocks`, and the root's `struct File`.
abbrev pub s_magic : Fs → ℕ
s_magic s = s.mem 1 0

abbrev pub s_nblocks : Fs → ℕ
s_nblocks s = s.mem 1 1

abbrev pub s_root : Ptr
s_root = (1, 2)

-- `bitmap[i]`.
abbrev pub bitmap : Fs → ℕ → ℕ
bitmap s i = s.mem (2 + i / 1024) (i % 1024)

-- The words of `struct File`, from its first word on.
abbrev pub f_size : Ptr → Ptr
f_size (b, w) = (b, w + 32)

abbrev pub f_type : Ptr → Ptr
f_type (b, w) = (b, w + 33)

abbrev pub f_direct : Ptr → ℕ → Ptr
f_direct (b, w) i = (b, w + 34 + i)

abbrev pub f_indirect : Ptr → Ptr
f_indirect (b, w) = (b, w + 44)

abbrev pub f_dir : Ptr → Ptr
f_dir (b, w) = (b, w + 45)

abbrev pub ndirect : ℕ
ndirect = 10

abbrev pub nindirect : ℕ
nindirect = 1024

abbrev pub by2blk : ℕ
by2blk = 4096

-- Bits of a bitmap block.
abbrev pub bit2blk : ℕ
bit2blk = 32768

abbrev pub file2blk : ℕ
file2blk = 16

-- The address that a `struct File *` holds, and the place that it stands for.
abbrev pub address : Ptr → ℕ
address (b, w) = (0x1000_0000 + b * by2blk + w * 4) % 2 ^ 32

abbrev pub place : ℕ → Ptr
place a = ((a - 0x1000_0000) / by2blk, a / 4 % 1024)
