-- ===== src/Fsformat.antt =====
-- tools/fsformat.c, the host program that makes the disk of the file system server: `disk`, `super`,
-- `nextbno` and `nbitblock`. The data of a block and `super` are functions from word indices to
-- 32-bit words, as in Fs; a `struct File *` is `super.s_root` or a block of `disk` and a word in it.
-- Block numbers from 1024 on are behind the array `disk`.
pub mod Bitmap
pub mod Boot
pub mod Links
pub mod Reverse
pub mod Write
use buaa_os.Base.{
  ℕ, zero, suc, ◌+◌, ◌-◌, ◌*◌, ◌/◌, ◌%◌, ◌^◌, bit_and, Bool, true, false, not, ◌&&◌, List, [], ◌∷◌,
  ◌++◌, Option, none, some, ltb, leb, ◌==◌, if◌then◌else◌, length,
}
use buaa_os.Run.{Run, ok, fail, panic, enter, Cmd, pure, get, put, assert, ◌>>=◌, ◌>>◌}
use buaa_os.Vm.{update, update_word}
use buaa_os.Fs.{by2blk, bit2blk, ndirect, nindirect, file2blk}
use buaa_os.Fs.Block.{fs_magic}
use buaa_os.Fs.Dir.{byte_weight, with_byte, maxnamelen}

-- The number of blocks on the disk, NBLOCK.
abbrev pub nblock : ℕ
nblock = 1024

-- `BLOCK_FREE` is 0.
pub data BlockType : Type 0 where
  block_free block_boot block_bmap block_super block_data block_file block_index : BlockType

pub record Image : Type 0 where
  pub words : ℕ → ℕ → ℕ
  pub types : ℕ → BlockType
  pub nbitblock : ℕ
  pub nextbno : ℕ
  pub super : ℕ → ℕ

-- The global variables at the start of the program.
abbrev pub zeroed : Image
zeroed = record {
  words = λ _ _. 0;
  types = λ _. block_free;
  nbitblock = 0;
  nextbno = 0;
  super = λ _. 0;
}

pub data FilePtr : Type 0 where
  root : FilePtr
  entry : ℕ → ℕ → FilePtr

-- Word `k` of a `struct File`; `s_root` is at word 2 of `super`.
abbrev pub word : FilePtr → ℕ → Image → ℕ
word root k m = m.super (2 + k)
word (entry b w) k m = m.words b (w + k)

abbrev pub set_word : FilePtr → ℕ → ℕ → Image → Image
set_word root k v m = record m { super = update m.super (2 + k) v }
set_word (entry b w) k v m = record m { words = update_word m.words b (w + k) v }

-- The word indices of `f_size`, `f_type`, `f_direct[i]` and `f_indirect`.
abbrev pub size_at : ℕ
size_at = 32

abbrev pub type_at : ℕ
type_at = 33

abbrev pub direct_at : ℕ → ℕ
direct_at i = 34 + i

abbrev pub indirect_at : ℕ
indirect_at = 44

-- `memset(disk[b].data + from, ..)` to the end of the block, in words.
abbrev pub fill_block : ℕ → ℕ → ℕ → Image → Image
fill_block b from v m = record m {
  words = λ q w. if (q == b) && (leb from w && ltb w 1024) then v else m.words q w;
}

-- The two loops over the `n` bitmap blocks from block `b` on.
unfoldable pub mark_bitmaps : ℕ → ℕ → Image → Image
mark_bitmaps zero b m = m
mark_bitmaps (suc n) b m = mark_bitmaps n (b + 1) (record m { types = update m.types b block_bmap })

unfoldable pub fill_bitmaps : ℕ → ℕ → Image → Image
fill_bitmaps zero b m = m
fill_bitmaps (suc n) b m = fill_bitmaps n (b + 1) (fill_block b 0 (2 ^ 32 - 1) m)

-- `diff` bytes of the last bitmap block are for blocks of the disk.
abbrev pub diff : ℕ
diff = nblock % bit2blk / 8

unfoldable pub init_disk : Image → Image
unfolding mark_bitmaps fill_bitmaps
init_disk m =
    let n = (nblock + bit2blk - 1) / bit2blk in
    let m1 : Image = record m {
      types = update m.types 0 block_boot;
      nbitblock = n;
      nextbno = 2 + n;
    } in
    let m2 : Image = fill_bitmaps n 2 (mark_bitmaps n 2 m1) in
    let m3 : Image =
      if nblock == n * bit2blk then m2 else fill_block (2 + (n - 1)) (diff / 4) 0 m2 in
    let m4 : Image = record m3 {
      types = update m3.types 1 block_super;
      super = update (update m3.super 0 fs_magic) 1 nblock;
    } in
    -- `f_type` is FTYPE_DIR, and the name is "/".
    set_word root 0 47 (set_word root type_at 1 m4)

unfoldable pub next_block : BlockType → Cmd Image ℕ
next_block t m =
    ok m.nextbno (record m { types = update m.types m.nextbno t; nextbno = m.nextbno + 1 })

-- The loop of `flush_bitmap`, with `n` blocks from `i` on to go.
unfoldable pub flush_bits : ℕ → ℕ → Image → Image
flush_bits zero i m = m
flush_bits (suc n) i m =
    let b = 2 + i / bit2blk in
    let w = i % bit2blk / 32 in
    flush_bits n (i + 1) (record m {
      words = update_word m.words b w (bit_and (m.words b w) (2 ^ 32 - 1 - 2 ^ (i % 32)));
    })

unfoldable pub flush_bitmap : Image → Image
unfolding flush_bits
flush_bitmap m = flush_bits m.nextbno 0 m

-- `super` is copied into block 1; it has 66 words. The file that is written is then the 1024 blocks
-- of `words`, or what Fsformat.Reverse makes of them for a target of another byte order.
unfoldable pub finish_fs : Image → Image
finish_fs m = record m { words = λ b w. if (b == 1) && ltb w 66 then m.super w else m.words b w }

unfoldable pub save_block_link : FilePtr → ℕ → ℕ → Cmd Image (Unit {0})
unfolding next_block
save_block_link f nblk bno = do
  assert (ltb nblk nindirect)
  if ltb nblk ndirect then (λ m. ok tt (set_word f (direct_at nblk) bno m)) else do
    m ← get
    if word f indirect_at m == 0
        then (do i ← next_block block_index; (λ m. ok tt (set_word f indirect_at i m)))
        else pure tt
    (λ m. ok tt (record m { words = update_word m.words (word f indirect_at m) nblk bno }))

unfoldable pub make_link_block : FilePtr → ℕ → Cmd Image ℕ
unfolding next_block save_block_link
make_link_block dirf nblk = do
  bno ← next_block block_file
  save_block_link dirf nblk bno
  m ← get
  put (set_word dirf size_at ((word dirf size_at m + by2blk) % 2 ^ 32) m)
  pure bno

-- The block number of block `i` of a file.
abbrev pub link : FilePtr → ℕ → Image → ℕ
link f i m = if ltb i ndirect then word f (direct_at i) m else m.words (word f indirect_at m) i

-- The first byte of the name is 0.
abbrev pub unused : FilePtr → Image → Bool
unused f m = word f 0 m % 256 == 0

-- The entries of block `b` from entry `j` on.
unfoldable pub find_entry : ℕ → ℕ → ℕ → Image → Option FilePtr
find_entry zero b j m = none
find_entry (suc n) b j m =
    let rest = find_entry n b (j + 1) m in
    if unused (entry b (j * 64)) m then some (entry b (j * 64)) else rest

abbrev pub or_else : Option FilePtr → Option FilePtr → Option FilePtr
or_else (some f) o = some f
or_else none o = o

-- The blocks of the directory from block `i` on.
unfoldable pub find_unused : ℕ → FilePtr → ℕ → Image → Option FilePtr
unfolding find_entry
find_unused zero dirf i m = none
find_unused (suc n) dirf i m =
    or_else (find_entry file2blk (link dirf i m) 0 m) (find_unused n dirf (i + 1) m)

abbrev pub or_link : Option FilePtr → FilePtr → ℕ → Cmd Image FilePtr
or_link (some f) dirf nblk = pure f
or_link none dirf nblk = do bno ← make_link_block dirf nblk; pure (entry bno 0)

unfoldable pub create_file : FilePtr → Cmd Image FilePtr
unfolding find_unused make_link_block
create_file dirf m =
    let nblk = word dirf size_at m / by2blk in or_link (find_unused nblk dirf 0 m) dirf nblk m

-- `strcpy(f->f_name, name)` and `strncpy(f->f_name, name, n)` from byte `k` on.
abbrev pub set_byte : FilePtr → ℕ → ℕ → Image → Image
set_byte f k c m = set_word f (k / 4) (with_byte (word f (k / 4) m) k c) m

unfoldable pub strcpy : FilePtr → ℕ → List ℕ → Image → Image
strcpy f k [] m = set_byte f k 0 m
strcpy f k (c ∷ cs) m = strcpy f (k + 1) cs (set_byte f k c m)

unfoldable pub strncpy : ℕ → FilePtr → ℕ → List ℕ → Image → Image
strncpy zero f k cs m = m
strncpy (suc n) f k [] m = strncpy n f (k + 1) [] (set_byte f k 0 m)
strncpy (suc n) f k (c ∷ cs) m = strncpy n f (k + 1) cs (set_byte f k c m)

-- What is behind the last `/`, or the whole path.
abbrev pub or_whole : Option (List ℕ) → List ℕ → List ℕ
or_whole (some l) path = l
or_whole none path = path

abbrev pub behind_slash : List ℕ → Option (List ℕ)
behind_slash [] = none
behind_slash (c ∷ cs) =
    let rest = behind_slash cs in if c == 47 then some (or_whole rest cs) else rest

-- The loop over `read`, which fills the data of the next block; `reads` are the words that it
-- leaves there, read by read, before it returns 0.
unfoldable pub write_blocks : FilePtr → ℕ → List (ℕ → ℕ) → Cmd Image (Unit {0})
unfolding save_block_link next_block
write_blocks target iblk [] = pure tt
write_blocks target iblk (data_read ∷ reads) = do
  m ← get
  put (record m { words = update m.words m.nextbno data_read })
  bno ← next_block block_data
  save_block_link target iblk bno
  write_blocks target (iblk + 1) reads

-- A file of the host with its size.
pub record HostFile : Type 0 where
  pub path : List ℕ
  pub size : ℕ
  pub reads : List (ℕ → ℕ)

-- FTYPE_REG is 0.
unfoldable pub write_file : FilePtr → HostFile → Cmd Image (Unit {0})
unfolding create_file strcpy write_blocks
write_file dirf h = do
  target ← create_file dirf
  m ← get
  put (strcpy target 0 (or_whole (behind_slash h.path) h.path) m)
  m ← get
  put (set_word target type_at 0 (set_word target size_at (h.size % 2 ^ 32) m))
  write_blocks target 0 h.reads
