-- ===== src/Fs/Init.antt =====
-- The start of the file system server: `check_write_block` and `fs_init` of fs/fs.c.
pub mod Check
pub mod Mounted
use buaa_os.Base.{ℕ, List, [], ◌∷◌, true, false, not}
use buaa_os.Run.{Run, ok, fail, panic, enter, Cmd, get, put, ◌>>=◌, ◌>>◌}
use buaa_os.Vm.{update}
use buaa_os.Fs.{Fs}
use buaa_os.Fs.Block.{
  block_is_mapped, require, read_block, write_block, mem_unmap, read_super, read_bitmap,
}
use buaa_os.Fs.Dir.{name_is, put_name}

-- "OOPS!\n".
abbrev pub oops : List ℕ
oops = 79 ∷ 79 ∷ 80 ∷ 83 ∷ 33 ∷ 10 ∷ []

-- `memcpy(diskaddr(b), diskaddr(c), BY2PG)`.
abbrev pub copy_page : ℕ → ℕ → Cmd Fs (Unit {0})
copy_page b c s = ok tt (record s { mem = update s.mem b (s.mem c) })

-- The super block is copied to page 0, smashed, and written.
unfoldable pub smash : Cmd Fs (Unit {0})
smash = do read_block 0; copy_page 0 1; put_name (1, 0) 0 oops; write_block 1

-- It leaves the cache, and is read back.
unfoldable pub reload : Cmd Fs (Unit {0})
reload = do
  s ← get
  require (block_is_mapped 1 s)
  mem_unmap 1
  s ← get
  require (not (block_is_mapped 1 s))
  read_block 1
  s ← get
  require (name_is s (1, 0) 0 oops)

unfoldable pub restore : Cmd Fs (Unit {0})
restore = do copy_page 1 0; write_block 1

unfoldable pub check_write_block : Cmd Fs (Unit {0})
check_write_block = do
  s ← get
  put (record s { super = false })
  smash
  reload
  restore
  s ← get
  put (record s { super = true })

unfoldable pub fs_init : Cmd Fs (Unit {0})
fs_init = do read_super; check_write_block; read_bitmap
