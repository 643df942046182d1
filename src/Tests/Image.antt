-- ===== src/Tests/Image.antt =====
-- The empty disk that tools/fsformat.c makes, and the file system server on it.
use buaa_os.Base.{
  ℕ, ◌+◌, ◌*◌, ◌/◌, ◌%◌, ◌^◌, ◌<◌, ◌≡◌, refl, ap, ◌∙◌, false, ◌==◌, leb, if◌then◌else◌, arith,
}
use buaa_os.Run.{ok}
use buaa_os.Fs.{Fs}
use buaa_os.Fs.Block.{block_is_free}
use buaa_os.Fs.Init.{fs_init}
use buaa_os.Fs.Init.Mounted.{Started, Mounted}
use buaa_os.Fsformat.{
  block_file, Image, root, zeroed, nblock, init_disk, mark_bitmaps, fill_bitmaps, flush_bitmap,
  finish_fs, save_block_link,
}
use buaa_os.Fsformat.Bitmap.{init_disk-Intact}
use buaa_os.Fsformat.Boot.{Holds, fs_init-finish_fs}
use buaa_os.Fsformat.Reverse.{reverse, reverse_block}
use buaa_os.Fsformat.Reverse.Twice.{is_number, reverse_block-twice}
use buaa_os.Fsformat.Links.{Linked, save_block_link-link}

abbrev made : Image
made = init_disk zeroed

-- The server before `fs_init`; the sectors of its disk are those of the image.
abbrev stopped : (ℕ → ℕ → ℕ) → Fs
stopped words = record {
  super = false;
  has_bitmap = false;
  disk = λ q w. words (q / 8) (q % 8 * 128 + w);
  bad = λ _. false;
  mapped = λ _. false;
  dirty = λ _. false;
  mem = λ _ _. 0;
  free_pages = 3;
}

stopped-Started : (words : ℕ → ℕ → ℕ) → Started (stopped words)
stopped-Started words = record {
  super = refl;
  has_bitmap = refl;
  empty = λ b. refl;
  works = λ q. refl;
  room = omega arith;
}

stopped-Holds : (m : Image) → Holds (stopped m.words) m
stopped-Holds m b w h l =
    let p : (b * 8 + w / 128) / 8 ≡ b = omega arith in
    let q : (b * 8 + w / 128) % 8 * 128 + w % 128 ≡ w = omega arith in
    ap (λ c. m.words c ((b * 8 + w / 128) % 8 * 128 + w % 128)) p ∙ ap (m.words b) q

made_blocks : made.nextbno ≡ 3
unfolding init_disk mark_bitmaps fill_bitmaps
made_blocks = refl

fs_init-finish_fs_example :
    (s' : Fs) × (fs_init (stopped (finish_fs (flush_bitmap made)).words) ≡ ok tt s')
    × ((b : ℕ) → b < nblock → block_is_free b s' ≡ leb made.nextbno b)
    × ((k : ℕ) → k < 64 → s'.mem 1 (2 + k) ≡ made.super (2 + k))
fs_init-finish_fs_example =
    fs_init-finish_fs made init_disk-Intact (omega (arith, made_blocks))
      (stopped (finish_fs (flush_bitmap made)).words)
      (stopped-Holds (finish_fs (flush_bitmap made)))
      (stopped-Started (finish_fs (flush_bitmap made)).words)

-- A disk of 64 blocks with the blocks from 8 on free.
abbrev words_64 : ℕ → ℕ → ℕ
words_64 b w =
    if b == 1
    then (if w == 0 then 0x6828_6097 else if w == 1 then 64 else 0)
    else if b == 2
    then (if w == 0 then 0xffff_ff00 else 0xffff_ffff)
    else 0

save_block_link-link_example :
    (m' : Image) × (save_block_link root 12 7 made ≡ ok tt m') × Linked root 12 7 made m'
save_block_link-link_example = save_block_link-link root 12 7 made (omega arith) tt tt

-- The files of a block: one with the name "a".
abbrev one_file : ℕ → ℕ
one_file p = if p == 0 then 97 else if p == 32 then 4096 else 0

reverse_block-twice_example :
    ((p : ℕ)
      → reverse_block block_file one_file p
        ≡ (if is_number block_file one_file p then reverse (one_file p) else one_file p))
    × ((y : ℕ)
        → (reverse y % 256 ≡ y / 2 ^ 24 % 256)
          × (reverse y / 2 ^ 8 % 256 ≡ y / 2 ^ 16 % 256)
          × (reverse y / 2 ^ 16 % 256 ≡ y / 2 ^ 8 % 256)
          × (reverse y / 2 ^ 24 ≡ y % 256))
    × (reverse_block block_file (reverse_block block_file one_file) ≡ one_file)
reverse_block-twice_example = reverse_block-twice block_file one_file (λ p. ground arith)
