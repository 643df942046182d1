-- ===== src/Fsformat/Reverse.antt =====
-- `reverse` and `reverse_block` of tools/fsformat.c, for a host and a target of different byte order.
-- A word is the number that its bytes are, the lowest first.
pub mod Swapped
pub mod Twice
use buaa_os.Base.{
  ℕ, zero, suc, ◌+◌, ◌-◌, ◌*◌, ◌/◌, ◌%◌, ◌^◌, ◌≤◌, ◌<◌, ◌≡◌, ◌≢◌, refl, sym, ap, ◌∙◌, fun_ext, Bool,
  true, false, ◌&&◌, ◌||◌, ltb, leb, ltb→lt, ◌==◌, if◌then◌else◌, arith, Bool-cases, inl, inr,
  ==-refl, ==-ne,
}
use buaa_os.Vm.{update}
use buaa_os.Fs.{file2blk, ndirect}
use buaa_os.Fsformat.{
  Image, BlockType, block_free, block_boot, block_bmap, block_super, block_data, block_file,
  block_index, size_at, type_at, direct_at, indirect_at,
}

-- The bytes `x[3]`, `x[2]`, `x[1]` and `x[0]`.
abbrev pub reverse : ℕ → ℕ
reverse y =
    y % 256 * 2 ^ 24 + y / 2 ^ 8 % 256 * 2 ^ 16 + y / 2 ^ 16 % 256 * 2 ^ 8 + y / 2 ^ 24 % 256

abbrev pub reverse_at : ℕ → (ℕ → ℕ) → ℕ → ℕ
reverse_at w u = update u w (reverse (u w))

-- `n` words from `w` on.
unfoldable pub reverse_words : ℕ → ℕ → (ℕ → ℕ) → ℕ → ℕ
reverse_words zero w u = u
reverse_words (suc n) w u = reverse_words n (w + 1) (reverse_at w u)

-- The numbers of the `struct File` at word `w`.
unfoldable pub reverse_file : ℕ → (ℕ → ℕ) → ℕ → ℕ
reverse_file w u = reverse_at (w + indirect_at) (
    reverse_words ndirect (w + direct_at 0) (reverse_at (w + type_at) (reverse_at (w + size_at) u)))

-- The loop over the files of a block, with `n` of them from file `i` on; it ends at an unused one.
unfoldable pub reverse_files : ℕ → ℕ → (ℕ → ℕ) → ℕ → ℕ
reverse_files zero i u = u
reverse_files (suc n) i u =
    let rest = reverse_files n (i + 1) (reverse_file (i * 64) u) in
    if u (i * 64) % 256 == 0 then u else rest

-- BLOCK_DATA has no case.
unfoldable pub reverse_block : BlockType → (ℕ → ℕ) → ℕ → ℕ
reverse_block block_free u = u
reverse_block block_boot u = u
reverse_block block_super u = reverse_file 2 (reverse_at 1 (reverse_at 0 u))
reverse_block block_file u = reverse_files file2blk 0 u
reverse_block block_index u = reverse_words 1024 0 u
reverse_block block_bmap u = reverse_words 1024 0 u
reverse_block block_data u = u

-- The words of block `b` that `finish_fs` writes to the file; `other` says that host and target differ
-- in their byte order.
unfoldable pub written : Bool → Image → ℕ → ℕ → ℕ
written other m b = if other then reverse_block (m.types b) (m.words b) else m.words b
