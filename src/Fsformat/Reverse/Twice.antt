-- ===== src/Fsformat/Reverse/Twice.antt =====
-- Which words `reverse_block` reverses, and reversing twice (tools/fsformat.c).
use buaa_os.Base.{
  ℕ, zero, suc, ◌+◌, ◌*◌, ◌/◌, ◌%◌, ◌^◌, ◌<◌, ◌≡◌, refl, ap, ◌∙◌, fun_ext, Bool, true, false, not,
  ◌&&◌, ◌||◌, ltb, leb, ◌==◌, if◌then◌else◌, arith, Bool-cases, inl, inr,
}
use buaa_os.Fs.{file2blk}
use buaa_os.Fsformat.{
  BlockType, block_free, block_boot, block_bmap, block_super, block_data, block_file, block_index,
}
use buaa_os.Fsformat.Reverse.{reverse, reverse_block}
use buaa_os.Fsformat.Reverse.Swapped.{
  reverse_twice, swapped, numbers, used_numbers, used_numbers-low, reversed_words,
  reverse_block-swapped, same_words,
}

-- `d` files from file `i` on are in use, that is, have a first character.
abbrev pub named_from : ℕ → ℕ → (ℕ → ℕ) → Bool
named_from zero i u = true
named_from (suc d) i u = not (u (i * 64) % 256 == 0) && named_from d (i + 1) u

-- Word `p` of a block is a number: in the super block the magic number, the count and the numbers of
-- the root, in a block of files the numbers (size, type, pointers) of a file that is in use and
-- behind none that is not, and every word of an index or bitmap block.
abbrev pub is_number : BlockType → (ℕ → ℕ) → ℕ → Bool
is_number block_free u p = false
is_number block_boot u p = false
is_number block_super u p = (p == 0) || ((p == 1) || (leb 34 p && ltb p 47))
is_number block_file u p =
    ltb (p / 64) 16 && ((leb 32 (p % 64) && ltb (p % 64) 45) && named_from (suc (p / 64)) 0 u)
is_number block_index u p = ltb p 1024
is_number block_bmap u p = ltb p 1024
is_number block_data u p = false

used_numbers-named :
    (n i d r : ℕ) (u : ℕ → ℕ) (p : ℕ)
    → p ≡ (i + d) * 64 + r
    → r < 64
    → used_numbers n i u p ≡ (ltb d n && ((leb 32 r && ltb r 45) && named_from (suc d) i u))
used_numbers-named zero i d r u p e h = let no : ltb d 0 ≡ false = ground arith in rw no
used_numbers-named (suc n) i zero r u p e h = elim (Bool-cases (u (i * 64) % 256 == 0)) [
  | inl f ↦ rw f (ground arith)
  | inr f ↦
      let low = used_numbers-low n (i + 1) u p (omega arith) in
      let here : numbers (i * 64) p ≡ (leb 32 r && ltb r 45) = ground arith in
      rw f (rw (low, here) (ground arith))
]
used_numbers-named (suc n) i (suc d) r u p e h = elim (Bool-cases (u (i * 64) % 256 == 0)) [
  | inl f ↦ rw f (ground arith)
  | inr f ↦
      let no : numbers (i * 64) p ≡ false = ground arith in
      let rest = used_numbers-named n (i + 1) d r u p (omega arith) h in
      let step : ltb (suc d) (suc n) ≡ ltb d n = ground arith in rw f (rw (no, step) rest)
]

is_number_lem : (b : BlockType) (u : ℕ → ℕ) (p : ℕ) → reversed_words b u p ≡ is_number b u p
is_number_lem block_free u p = refl
is_number_lem block_boot u p = refl
is_number_lem block_super u p = ground arith
is_number_lem block_file u p =
    used_numbers-named file2blk 0 (p / 64) (p % 64) u p (omega arith) (omega arith)
is_number_lem block_index u p = ground arith
is_number_lem block_bmap u p = ground arith
is_number_lem block_data u p = refl

-- `reverse_block` turns round the bytes of the words that are numbers of the block (in the super
-- block the magic number, the count and the numbers of the root; in a block of files those of the
-- files before the first unused one; in an index or bitmap block all) and of no other, and doing it
-- twice to 32-bit words, once for the file and once on the target, gives the block.
pub reverse_block-twice :
    (b : BlockType) (u : ℕ → ℕ)
    → ((p : ℕ) → u p < 2 ^ 32)
    → ((p : ℕ) → reverse_block b u p ≡ (if is_number b u p then reverse (u p) else u p))
      × ((y : ℕ)
          → (reverse y % 256 ≡ y / 2 ^ 24 % 256)
            × (reverse y / 2 ^ 8 % 256 ≡ y / 2 ^ 16 % 256)
            × (reverse y / 2 ^ 16 % 256 ≡ y / 2 ^ 8 % 256)
            × (reverse y / 2 ^ 24 ≡ y % 256))
      × (reverse_block b (reverse_block b u) ≡ u)
reverse_block-twice b u h = (
  λ p.
      ap (λ f. f p) (reverse_block-swapped b u)
      ∙ ap (λ t. if t then reverse (u p) else u p) (is_number_lem b u p),
  λ y. (omega arith, omega arith, omega arith, omega arith),
  reverse_block-swapped b (reverse_block b u)
      ∙ ap (λ t. swapped t (reverse_block b u)) (fun_ext (same_words b u))
      ∙ ap (swapped (reversed_words b u)) (reverse_block-swapped b u)
      ∙ fun_ext λ p. elim (Bool-cases (reversed_words b u p)) [
        | inl e ↦ rw e (reverse_twice (u p) (h p))
        | inr e ↦ rw e
      ],
)
