-- ===== src/Fsformat/Boot.antt =====
-- The file system server starts on a disk that tools/fsformat.c has made (fs/fs.c).
use buaa_os.Base.{
  ℕ, ◌+◌, ◌/◌, ◌%◌, ◌^◌, ◌≤◌, ◌<◌, ◌≡◌, ap, ◌∙◌, bit_and, true, false, not, ltb, leb, ◌==◌, arith,
  is_set,
}
use buaa_os.Run.{ok}
use buaa_os.Fs.{Fs, s_nblocks, bitmap}
use buaa_os.Fs.Block.{block_is_free}
use buaa_os.Fs.Init.{fs_init}
use buaa_os.Fs.Init.Check.{on_disk}
use buaa_os.Fs.Init.Mounted.{disk_bits, Started, Bootable, cached_bit, fs_init-Mounted}
use buaa_os.Fsformat.{Image, nblock, flush_bitmap, finish_fs}
use buaa_os.Fsformat.Bitmap.{bits, Intact, Flushed, flush_bitmap-Flushed, Intact-bit}

-- The disk holds the image.
abbrev pub Holds : Fs → Image → Type 0
Holds s m = (b w : ℕ) → b < nblock → w < 1024 → on_disk s b w ≡ m.words b w

-- The image that is written to the file.
abbrev pub final : Image → Image
final m = finish_fs (flush_bitmap m)

module _ (m : Image) (intact : Intact m) (low : 3 ≤ m.nextbno) (s : Fs)
    (holds : Holds s (final m)) where
  flushed : Flushed m.nextbno 0 m (flush_bitmap m)
  flushed = flush_bitmap-Flushed m

  super_word : (w : ℕ) → w < 66 → on_disk s 1 w ≡ m.super w
  unfolding finish_fs
  super_word w h =
      let t : ltb w 66 ≡ true = ground arith in
      holds 1 w (omega arith) (omega arith) ∙ rw t (ap (λ f. f w) flushed.super)

  image_bit : (b : ℕ) → b < nblock → is_set (disk_bits s) b ≡ leb m.nextbno b
  unfolding finish_fs
  image_bit b h =
      let here : disk_bits s (b / 32) ≡ bits (flush_bitmap m) (b / 32) =
        holds (2 + b / 32 / 1024) (b / 32 % 1024) (omega arith) (omega arith)
        ∙ (let no : (2 + b / 32 / 1024 == 1) ≡ false = ground arith in rw no) in
      let same : is_set (disk_bits s) b ≡ is_set (bits (flush_bitmap m)) b =
        ap (λ v. not (bit_and v (2 ^ (b % 32)) == 0)) here in
      let all = Intact-bit m intact b h in same ∙ flushed.bit b ∙ rw all (ground arith)

  image-Bootable : Bootable s
  image-Bootable = record {
    magic = super_word 0 (omega arith) ∙ intact.magic;
    some_blocks = let n = super_word 1 (omega arith) ∙ intact.nblocks in omega arith;
    one_bitmap = let n = super_word 1 (omega arith) ∙ intact.nblocks in omega arith;
    reserved = λ b h. image_bit b (omega arith) ∙ ground arith;
  }

-- An image whose bitmap and super block are those of `init_disk`, with at least the blocks before
-- the root's in use: once `flush_bitmap` and `finish_fs` have written it, a server that has read
-- nothing yet, with an empty cache, three pages or more and a drive that works on every sector, starts
-- on it with `fs_init`, the blocks that are free are exactly those that `next_block` has not given, and
-- the root directory is that of the image.
pub fs_init-finish_fs :
    (m : Image)
    → Intact m
    → 3 ≤ m.nextbno
    → (s : Fs) → Holds s (finish_fs (flush_bitmap m))
    → Started s
    → (s' : Fs) × (fs_init s ≡ ok tt s')
      × ((b : ℕ) → b < nblock → block_is_free b s' ≡ leb m.nextbno b)
      × ((k : ℕ) → k < 64 → s'.mem 1 (2 + k) ≡ m.super (2 + k))
fs_init-finish_fs m intact low s holds start =
    let (s', e, r) = fs_init-Mounted s start (image-Bootable m intact low s holds) in
    (
      s',
      e,
      λ b h.
          let n : s_nblocks s' ≡ nblock =
            r.super_block 1 (omega arith)
            ∙ super_word m intact low s holds 1 (omega arith)
            ∙ intact.nblocks in
          let bit : is_set (bitmap s') b ≡ leb m.nextbno b =
            cached_bit s s' r.bitmap_block b (omega arith) ∙ image_bit m intact low s holds b h in
          let inside : ltb b (s_nblocks s') ≡ true = ground arith in rw (r.super, inside) bit,
      λ k h.
          r.super_block (2 + k) (omega arith)
          ∙ super_word m intact low s holds (2 + k) (omega arith),
    )
