-- ===== src/Fs/Init/Mounted.antt =====
-- The start of the file system server succeeds, and leaves the disk as it was (fs/fs.c).
use buaa_os.Base.{
  ℕ, ◌+◌, bit_and, ◌/◌, ◌%◌, ◌^◌, ◌≤◌, ◌<◌, ◌≡◌, refl, ap, ◌∙◌, sym, true, false, not, leb, ◌==◌,
  arith, is_set,
}
use buaa_os.Run.{ok}
use buaa_os.Fs.{Fs, s_nblocks, s_magic, bitmap, bit2blk}
use buaa_os.Fs.Ide.Copy.{Working}
use buaa_os.Fs.Block.{
  fs_magic, block_is_free, read_block, read_super, read_bitmap, read_blocks, require_used,
}
use buaa_os.Fs.Block.Cache.{fetched, read_block-miss, fetched-words, fetched-others}
use buaa_os.Fs.Init.{check_write_block, fs_init}
use buaa_os.Fs.Init.Check.{and_then-ok, on_disk, Checked, check_write_block-Checked}

-- The bits that the bitmap on the disk has.
abbrev pub disk_bits : Fs → ℕ → ℕ
disk_bits s q = on_disk s (2 + q / 1024) (q % 1024)

-- The state in which the server starts: an empty cache, a drive that works, and room for three pages.
pub record Started (s : Fs) : Type 0 where
  pub super : s.super ≡ false
  pub has_bitmap : s.has_bitmap ≡ false
  pub empty : (b : ℕ) → s.mapped b ≡ false
  pub works : Working s
  pub room : 3 ≤ s.free_pages

-- The disk has a super block and a bitmap that the server accepts. The bitmap is one block.
pub record Bootable (s : Fs) : Type 0 where
  pub magic : on_disk s 1 0 ≡ fs_magic
  pub some_blocks : 2 < on_disk s 1 1
  pub one_bitmap : on_disk s 1 1 < bit2blk
  pub reserved : (b : ℕ) → b < 3 → is_set (disk_bits s) b ≡ false

-- The super block and the bitmap are in the cache, and the disk is as it was.
pub record Mounted (s s' : Fs) : Type 0 where
  pub super : s'.super ≡ true
  pub has_bitmap : s'.has_bitmap ≡ true
  pub bad : s'.bad ≡ s.bad
  pub cached : (p : ℕ) → s'.mapped p ≡ leb p 2
  pub super_block : (w : ℕ) → w < 1024 → s'.mem 1 w ≡ on_disk s 1 w
  pub bitmap_block : (w : ℕ) → w < 1024 → s'.mem 2 w ≡ on_disk s 2 w
  pub disk : (b w : ℕ) → w < 1024 → on_disk s' b w ≡ on_disk s b w

-- The state after `read_super`.
abbrev with_super : Fs → Fs
with_super s = record (fetched 1 s) { super = true }

read_super-ok : (s : Fs) → Started s → Bootable s → read_super s ≡ ok tt (with_super s)
unfolding read_super
read_super-ok s start boot =
    let m : s_magic (with_super s) ≡ fs_magic = fetched-words 1 0 s (omega arith) ∙ boot.magic in
    let n : s_nblocks (with_super s) ≡ on_disk s 1 1 = fetched-words 1 1 s (omega arith) in
    let small : leb (s_nblocks (with_super s)) (2 ^ 18) ≡ true =
      ground (arith, n, boot.one_bitmap) in
    and_then-ok (read_block 1 s) true (fetched 1 s) _ (
      read_block-miss 1 s start.works (rw start.super) (rw start.has_bitmap) (start.empty 1)
        (omega (arith, start.room)))
    ∙ (let t : (s_magic (with_super s) == fs_magic) ≡ true = ap (λ v. v == fs_magic) m in
        rw (t, small))

-- The state after `read_bitmap`.
abbrev with_bitmap : Fs → Fs
with_bitmap s = record (fetched 2 s) { has_bitmap = true }

first_bit :
    (s : Fs) (f : ℕ → ℕ) (b : ℕ) → bitmap s (b / 32) ≡ f (b / 32) → is_set (bitmap s) b ≡ is_set f b
first_bit s f b e = ap (λ v. not (bit_and v (2 ^ (b % 32)) == 0)) e

read_bitmap-ok :
    (s : Fs)
    → Working s
    → s.super ≡ true
    → s.has_bitmap ≡ false
    → 2 < s_nblocks s
    → s_nblocks s < bit2blk
    → s.mapped 2 ≡ false
    → 0 < s.free_pages
    → ((b : ℕ) → b < 3 → block_is_free b (with_bitmap s) ≡ false)
    → read_bitmap s ≡ ok tt (with_bitmap s)
unfolding read_bitmap read_blocks require_used
read_bitmap-ok s works su no_bitmap lo hi m room used =
    let n : s_nblocks s / bit2blk ≡ 0 = omega arith in
    let inside : leb (s_nblocks s) 2 ≡ false = ground arith in
    let e : read_block 2 s ≡ ok true (fetched 2 s) =
      read_block-miss 2 s works (rw (su, inside)) (rw no_bitmap) m room in
    let one : read_blocks 1 2 s ≡ ok tt (fetched 2 s) =
      and_then-ok (read_block 2 s) true (fetched 2 s) _ e in
    let u0 : block_is_free 0 (with_bitmap s) ≡ false = used 0 (omega arith) in
    let u1 : block_is_free 1 (with_bitmap s) ≡ false = used 1 (omega arith) in
    let u2 : block_is_free 2 (with_bitmap s) ≡ false = used 2 (omega arith) in
    rw n (and_then-ok (read_blocks 1 2 s) tt (fetched 2 s) _ one ∙ rw u0 (rw u1 (rw u2)))

-- A bit of the first bitmap block.
pub cached_bit :
    (s s' : Fs)
    → ((w : ℕ) → w < 1024 → s'.mem 2 w ≡ on_disk s 2 w)
    → (b : ℕ) → b < bit2blk
    → is_set (bitmap s') b ≡ is_set (disk_bits s) b
cached_bit s s' h b l =
    let z : 2 + b / 32 / 1024 ≡ 2 = omega arith in
    first_bit s' (disk_bits s) b (
      ap (λ p. s'.mem p (b / 32 % 1024)) z
      ∙ h (b / 32 % 1024) (omega arith)
      ∙ ap (λ p. on_disk s p (b / 32 % 1024)) (sym z))

-- The state after `read_bitmap` is that of a mounted disk.
all-Mounted : (s s2 : Fs) → Started s → Checked (with_super s) s2 → Mounted s (with_bitmap s2)
all-Mounted s s2 start c = record {
  super = c.super;
  has_bitmap = refl;
  bad = c.bad;
  cached = λ p. let e = c.mapped p in let f = start.empty p in ground (arith, e, f);
  super_block =
      λ w h. fetched-others 2 1 w s2 (λ e. omega arith) ∙ c.page w h ∙ fetched-words 1 w s h;
  bitmap_block = λ w h. fetched-words 2 w s2 h ∙ c.disk 2 w h;
  disk = λ b w h. c.disk b w h;
}

pub fs_init-Mounted :
    (s : Fs) → Started s → Bootable s → (s' : Fs) × (fs_init s ≡ ok tt s') × Mounted s s'
unfolding fs_init
fs_init-Mounted s start boot =
    let s1 : Fs = with_super s in
    let (s2, e2, c) =
      check_write_block-Checked s1 start.works start.has_bitmap (start.empty 0) refl
        (omega (arith, start.room)) (λ w h. sym (fetched-words 1 w s h)) in
    let m = all-Mounted s s2 start c in
    let n : s_nblocks s2 ≡ on_disk s 1 1 =
      c.page 1 (omega arith) ∙ fetched-words 1 1 s (omega arith) in
    (
      with_bitmap s2,
      and_then-ok (read_super s) tt s1 _ (read_super-ok s start boot)
          ∙ and_then-ok (check_write_block s1) tt s2 _ e2
          ∙ read_bitmap-ok s2 (λ q. rw c.bad (start.works q)) c.super
              (c.has_bitmap ∙ start.has_bitmap) (omega (arith, n, boot.some_blocks))
              (omega (arith, n, boot.one_bitmap)) (c.mapped 2 ∙ start.empty 2)
              (let p = c.pages in omega (arith, start.room))
              (λ b h.
                let t =
                  cached_bit s (with_bitmap s2) m.bitmap_block b (omega arith)
                  ∙ boot.reserved b h in
                rw t (ground arith)),
      m,
    )
