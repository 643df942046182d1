-- ===== src/Elf.antt =====
-- lib/elfloader.c: a segment of an executable is handed to a callback page by page. `S` is what the
-- callback changes, and a `src` is an index into the segment's bytes, `none` for NULL.
pub mod Image
use buaa_os.Base.{
  ℕ, zero, suc, ◌+◌, ◌-◌, ◌%◌, ◌/◌, ◌^◌, bit_and, bit_or, min, Bool, true, false, not, Option, none,
  some, ltb, ◌==◌, if◌then◌else◌,
}
use buaa_os.Run.{Cmd, pure, ◌>>=◌, ◌>>◌}

-- The fields of `Elf32_Phdr` that the loader reads.
pub record Phdr : Type 0 where
  pub p_vaddr : ℕ
  pub p_filesz : ℕ
  pub p_memsz : ℕ
  pub p_flags : ℕ

abbrev pub pf_w : ℕ
pf_w = 2

-- PTE_V, and PTE_D for a segment that can be written.
abbrev pub seg_perm : ℕ → ℕ
seg_perm flags = if bit_and flags pf_w == 0 then 0x200 else bit_or 0x200 0x400

module _ {S : Type 0} (map_page : ℕ → ℕ → ℕ → Option ℕ → ℕ → Cmd S (Unit {0})) where
  -- Step 1 from `i` on, with `n` rounds; the result is `i` after the loop.
  unfoldable pub load_bytes : ℕ → ℕ → ℕ → ℕ → ℕ → Cmd S ℕ
  load_bytes zero va perm bin_size i = pure i
  load_bytes (suc n) va perm bin_size i =
      if ltb i bin_size
      then (do
        map_page ((va + i) % 2 ^ 32) 0 perm (some i) (min (bin_size - i) 4096)
        load_bytes n va perm bin_size (i + 4096))
      else pure i

  -- Step 2 from `i` on, with `n` rounds. `bin_size - i` is a `size_t`.
  unfoldable pub load_zeros : ℕ → ℕ → ℕ → ℕ → ℕ → ℕ → Cmd S (Unit {0})
  load_zeros zero va perm bin_size sgsize i = pure tt
  load_zeros (suc n) va perm bin_size sgsize i =
      if ltb i sgsize
      then (do
        map_page ((va + i) % 2 ^ 32) 0 perm none (min ((2 ^ 32 + bin_size - i) % 2 ^ 32) 4096)
        load_zeros n va perm bin_size sgsize (i + 4096))
      else pure tt

  -- The part of the first page, if the segment does not start with a page.
  abbrev pub load_first : ℕ → ℕ → ℕ → Cmd S ℕ
  load_first va perm bin_size =
      let offset = va % 4096 in
      if offset == 0 then pure 0 else (do
        map_page va offset perm (some 0) (min bin_size (4096 - offset))
        pure (min bin_size (4096 - offset)))

  -- Each round takes at least one byte of its size.
  unfoldable pub elf_load_seg : Phdr → Cmd S (Unit {0})
  unfolding load_bytes load_zeros
  elf_load_seg ph = do
    let perm = seg_perm ph.p_flags
    i ← load_first ph.p_vaddr perm ph.p_filesz
    i ← load_bytes ph.p_filesz ph.p_vaddr perm ph.p_filesz i
    load_zeros ph.p_memsz ph.p_vaddr perm ph.p_filesz ph.p_memsz i
