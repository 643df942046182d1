-- ===== src/Fs/Inode.antt =====
-- The blocks of a file (fs/fs.c). A `struct File *` is the place of the structure in the cache.
pub mod Drop
pub mod Truncate
use buaa_os.Base.{
  ℕ, zero, suc, ◌+◌, ◌-◌, ◌/◌, Bool, true, false, not, ltb, leb, ◌==◌, if◌then◌else◌,
}
use buaa_os.Run.{Run, ok, fail, panic, enter, not_found, inval, Cmd, pure, throw, ◌>>=◌, ◌>>◌}
use buaa_os.Fs.{
  Fs, Ptr, load, store, f_size, f_direct, f_indirect, f_dir, ndirect, nindirect, by2blk, place,
}
use buaa_os.Fs.Block.{alloc_block, read_block, free_block, dirty_block, block_is_dirty, write_block}

-- Step 2 of `file_block_walk`: there is an indirect block afterwards.
unfoldable pub need_indirect : Ptr → Bool → Cmd Fs (Unit {0})
unfolding alloc_block
need_indirect f alloc = do
  i ← load (f_indirect f)
  if not (i == 0)
      then pure tt
      else if not alloc
      then throw not_found
      else (do r ← alloc_block; store (f_indirect f) r)

-- The result is `*ppdiskbno`.
unfoldable pub file_block_walk : Ptr → ℕ → Bool → Cmd Fs Ptr
unfolding need_indirect read_block
file_block_walk f filebno alloc =
    if ltb filebno ndirect
    then pure (f_direct f filebno)
    else if ltb filebno nindirect
    then (do need_indirect f alloc; i ← load (f_indirect f); read_block i; pure (i, filebno))
    else throw inval

unfoldable pub file_map_block : Ptr → ℕ → Bool → Cmd Fs ℕ
unfolding file_block_walk alloc_block
file_map_block f filebno alloc = do
  slot ← file_block_walk f filebno alloc
  d ← load slot
  if not (d == 0)
      then pure d
      else if not alloc
      then throw not_found
      else (do r ← alloc_block; store slot r; pure r)

unfoldable pub file_clear_block : Ptr → ℕ → Cmd Fs (Unit {0})
unfolding file_block_walk free_block
file_clear_block f filebno = do
  slot ← file_block_walk f filebno false
  d ← load slot
  if d == 0 then pure tt else (do free_block d; store slot 0)

-- The result is the page of the block.
unfoldable pub file_get_block : Ptr → ℕ → Cmd Fs ℕ
unfolding file_map_block read_block
file_get_block f filebno = do d ← file_map_block f filebno true; read_block d; pure d

unfoldable pub file_dirty : Ptr → ℕ → Cmd Fs (Unit {0})
unfolding file_map_block dirty_block
file_dirty f offset = do d ← file_map_block f (offset / by2blk) false; dirty_block d

-- A call whose error is ignored.
abbrev pub ignored : Run Fs (Unit {0}) → Run Fs (Unit {0})
ignored (ok a s) = ok tt s
ignored (fail e s) = ok tt s
ignored panic = panic
ignored (enter s) = enter s

-- The loop of `file_truncate`, with `n` blocks from `bno` on to clear.
unfoldable pub clear_blocks : ℕ → Ptr → ℕ → Cmd Fs (Unit {0})
unfolding file_clear_block
clear_blocks zero f bno = pure tt
clear_blocks (suc n) f bno = do
  (λ s. ignored (file_clear_block f bno s))
  clear_blocks n f (bno + 1)

-- The indirect block is given back.
unfoldable pub drop_indirect : Ptr → Cmd Fs (Unit {0})
unfolding free_block
drop_indirect f = do
  i ← load (f_indirect f)
  if i == 0 then pure tt else (do free_block i; store (f_indirect f) 0)

abbrev pub blocks_for : ℕ → ℕ
blocks_for newsize = if newsize == 0 then 0 else newsize / by2blk + 1

unfoldable pub file_truncate : Ptr → ℕ → Cmd Fs (Unit {0})
unfolding clear_blocks drop_indirect
file_truncate f newsize = do
  size ← load (f_size f)
  let new_nblocks = blocks_for newsize
  clear_blocks (size / by2blk + 1 - new_nblocks) f new_nblocks
  if leb new_nblocks ndirect then drop_indirect f else pure tt
  store (f_size f) newsize

-- A dirty block that was found is written; an error of the search is passed over.
abbrev pub flush_found : Run Fs ℕ → Run Fs (Unit {0})
flush_found (ok d s) = if block_is_dirty d s then write_block d s else ok tt s
flush_found (fail e s) = ok tt s
flush_found panic = panic
flush_found (enter s) = enter s

-- The loop of `file_flush`, with `n` blocks from `bno` on to go.
unfoldable pub flush_blocks : ℕ → Ptr → ℕ → Cmd Fs (Unit {0})
unfolding file_map_block write_block
flush_blocks zero f bno = pure tt
flush_blocks (suc n) f bno = do
  (λ s. flush_found (file_map_block f bno false s))
  flush_blocks n f (bno + 1)

unfoldable pub file_flush : Ptr → Cmd Fs (Unit {0})
unfolding flush_blocks
file_flush f = do size ← load (f_size f); flush_blocks (size / by2blk + 1) f 0

-- The directory of the file is flushed, if `f_dir` is set.
unfoldable pub flush_dir : Ptr → Cmd Fs (Unit {0})
unfolding file_flush
flush_dir f = do d ← load (f_dir f); if d == 0 then pure tt else file_flush (place d)

unfoldable pub file_set_size : Ptr → ℕ → Cmd Fs (Unit {0})
unfolding file_truncate flush_dir
file_set_size f newsize = do
  size ← load (f_size f)
  if ltb newsize size then file_truncate f newsize else pure tt
  store (f_size f) newsize
  flush_dir f

unfoldable pub file_close : Ptr → Cmd Fs (Unit {0})
unfolding file_flush flush_dir
file_close f = do file_flush f; flush_dir f
