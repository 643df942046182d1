-- ===== src/Fs/Dir/Create.antt =====
-- A file that `file_create` has made in a directory is found by `dir_lookup` (fs/fs.c).
use buaa_os.Base.{
  ℕ, zero, suc, ◌+◌, ◌*◌, ◌/◌, ◌%◌, ◌≤◌, ◌<◌, ◌≡◌, ◌≢◌, ap, ◌∙◌, sym, subst, Bool, true, false,
  ◌&&◌, none, some, List, leb, ◌==◌, length, arith, Bool-cases, inl, inr, ==-ne,
}
use buaa_os.Run.{ok}
use buaa_os.Vm.{update_word}
use buaa_os.Fs.{Fs, Ptr, s_nblocks, address}
use buaa_os.Fs.Block.{block_is_free}
use buaa_os.Fs.Block.Bits.{bitmap_page}
use buaa_os.Fs.Block.Cache.{read_block-hit}
use buaa_os.Fs.Inode.{file_block_walk, file_map_block, file_get_block}
use buaa_os.Fs.Dir.{
  byte_at, name_is, slot, find_slot, lookup_blocks, dir_lookup, alloc_blocks, dir_alloc_file,
  missing, create_in,
}
use buaa_os.Fs.Dir.Names.{
  Name, with_name, put_name-ok, name_is-with_name, with_name-only_mem, with_name-others,
  name_is-same,
}

clash : {b : Bool} {A : Type 0} → b ≡ true → b ≡ false → A
clash t f = cc

-- The first slot that passes `P` is the first that passes `Q'`, if no slot passed `Q` and `Q'`
-- differs from `Q` at that slot alone.
find_again :
    (P Q Q' : Ptr → Bool) (n blk j k : ℕ)
    → find_slot P n blk j ≡ some (slot blk k)
    → find_slot Q n blk j ≡ none
    → Q' (slot blk k) ≡ true
    → ((i : ℕ) → i ≢ k → Q' (slot blk i) ≡ Q (slot blk i))
    → find_slot Q' n blk j ≡ some (slot blk k)
find_again P Q Q' zero blk j k p q t h = cc
find_again P Q Q' (suc n) blk j k p q t h = elim (Bool-cases (j == k)) [
  | inl e ↦
      let at_k : k ≡ j = ground arith in
      let here : Q' (slot blk j) ≡ true = subst (λ i. Q' (slot blk i) ≡ true) at_k t in
      rw here (ap (λ i. some (slot blk i)) (sym at_k))
  | inr e ↦
      let unnamed : Q (slot blk j) ≡ false = elim (Bool-cases (Q (slot blk j))) [
        | inl x ↦ let z : some (slot blk j) ≡ none = rw x at q in cc
        | inr x ↦ x
      ] in
      let used : P (slot blk j) ≡ false = elim (Bool-cases (P (slot blk j))) [
        | inl x ↦
            let z : some (slot blk j) ≡ some (slot blk k) = rw x at p in
            let same : 64 * j ≡ 64 * k = cc in ground arith
        | inr x ↦ x
      ] in
      let other : Q' (slot blk j) ≡ false = h j (λ i. ground arith) ∙ unnamed in
      rw other (find_again P Q Q' n blk (j + 1) k (rw used at p) (rw unnamed at q) t h)
]

-- A directory of one block, `d`, which is in the cache and in use, apart from the directory's own
-- structure, the super block and its bitmap block.
pub record OneBlock (b w d : ℕ) (s : Fs) : Type 0 where
  pub size : s.mem b (w + 32) ≡ 4096
  pub pointer : s.mem b (w + 34 + 0) ≡ d
  pub present : d ≢ 0
  pub there : s.mapped d ≡ true
  pub inside : (s.super && leb (s_nblocks s) d) ≡ false
  pub used : (s.has_bitmap && block_is_free d s) ≡ false
  pub apart : b ≢ d
  pub no_super : d ≢ 1
  pub no_bitmap : bitmap_page d ≢ d

file_get_block-ok : (b w d : ℕ) (s : Fs) → OneBlock b w d s → file_get_block (b, w) 0 s ≡ ok d s
unfolding file_get_block file_map_block file_block_walk
file_get_block-ok b w d s o =
    rw o.pointer (rw (==-ne d 0 o.present) (rw (read_block-hit d s o.inside o.used o.there)))

-- The words of two slots are different.
slots_apart :
    (d i k j l : ℕ)
    → i ≢ k
    → j ≤ l
    → l < 128
    → ((d == d)
        && (leb (64 * k + 0 / 4) (64 * i + j / 4) && leb (64 * i + j / 4) (64 * k + (0 + l) / 4)))
      ≡ false
slots_apart d i k j l far h short = ground arith

module _ (b w d k : ℕ) (name : List ℕ) where
  -- The cache after the name was written to slot `k` of block `d`.
  abbrev named : Fs → Fs
  named s = record s { mem = (with_name d (64 * k) 0 name s).mem }

  named-others : (p q : ℕ) (s : Fs) → p ≢ d → (named s).mem p q ≡ s.mem p q
  named-others p q s h = with_name-others d (64 * k) 0 p q name s (rw (==-ne p d h))

  named-OneBlock : (s : Fs) → OneBlock b w d s → OneBlock b w d (named s)
  named-OneBlock s o = record {
    size = named-others b (w + 32) s o.apart ∙ o.size;
    pointer = named-others b (w + 34 + 0) s o.apart ∙ o.pointer;
    present = o.present;
    there = o.there;
    inside = rw (named-others 1 1 s (λ e. o.no_super (sym e))) o.inside;
    used =
        rw
          (
            named-others 1 1 s (λ e. o.no_super (sym e)),
            named-others (bitmap_page d) (d / 32 % 1024) s o.no_bitmap,
          )
          o.used;
    apart = o.apart;
    no_super = o.no_super;
    no_bitmap = o.no_bitmap;
  }

  -- The directory has one block, which is in the cache and in use, and which is neither the super
  -- block, nor its own bitmap block, nor the page of the directory's structure. The name is of less
  -- than 128 characters, no file of the directory has it, and slot `k` is the first free one:
  -- `file_create` in this directory gives slot `k`, and then `dir_lookup` finds it under the name.
  pub dir_lookup-create_in :
      (s : Fs)
      → OneBlock b w d s
      → Name name
      → length name < 128
      → find_slot (λ f. name_is s f 0 name) 16 d 0 ≡ none
      → find_slot (λ f. byte_at s f 0 == 0) 16 d 0 ≡ some (d, 64 * k)
      → (s' s'' : Fs) × (create_in (missing (b, w) name) s ≡ ok (d, 64 * k) s')
        × (dir_lookup (b, w) name s' ≡ ok (d, 64 * k) s'')
  unfolding create_in dir_alloc_file alloc_blocks dir_lookup lookup_blocks
  dir_lookup-create_in s o v short none_there first_free =
      let s' = named s in
      let o' = named-OneBlock s o in
      let again : find_slot (λ f. name_is s' f 0 name) 16 d 0 ≡ some (d, 64 * k) =
        find_again (λ f. byte_at s f 0 == 0) (λ f. name_is s f 0 name) (λ f. name_is s' f 0 name) 16
          d 0 k first_free none_there
          (subst (λ t. name_is t (d, 64 * k) 0 name ≡ true) (with_name-only_mem d (64 * k) 0 name s)
            (name_is-with_name d (64 * k) 0 name s v))
          (λ i far. name_is-same d (64 * i) 0 name s s' (λ j l.
            with_name-others d (64 * k) 0 d (64 * i + j / 4) name s
              (slots_apart d i k j (length name) far (omega arith) short))) in
      (
        s',
        record s' { mem = update_word s'.mem d (64 * k + 45) (address (b, w)) },
        rw o.size (
            rw (file_get_block-ok b w d s o) (
              rw first_free (
                rw (put_name-ok d (64 * k) 0 name s)
                  (ap (λ t. ok (d, 64 * k) t) (with_name-only_mem d (64 * k) 0 name s))))),
        rw o'.size (rw (file_get_block-ok b w d s' o') (rw again)),
      )
