-- ===== src/Fsformat/Reverse/Swapped.antt =====
-- The words that `reverse_block` of tools/fsformat.c reverses, computed as its loops go over them.
use buaa_os.Base.{
  ℕ, zero, suc, ◌+◌, ◌*◌, ◌%◌, ◌^◌, ◌≤◌, ◌<◌, ◌≡◌, refl, ap, ◌∙◌, fun_ext, Bool, false, ◌&&◌, ◌||◌,
  ltb, leb, ltb→lt, ◌==◌, if◌then◌else◌, arith, Bool-cases, inl, inr,
}
use buaa_os.Fs.{file2blk, ndirect}
use buaa_os.Fsformat.{
  BlockType, block_free, block_boot, block_bmap, block_super, block_data, block_file, block_index,
  size_at, type_at, direct_at, indirect_at,
}
use buaa_os.Fsformat.Reverse.{
  reverse, reverse_at, reverse_words, reverse_file, reverse_files, reverse_block,
}

pub reverse_twice : (y : ℕ) → y < 2 ^ 32 → reverse (reverse y) ≡ y
reverse_twice y h = omega arith

reverse_bound : (y : ℕ) → reverse y < 2 ^ 32
reverse_bound y = omega arith

-- The words for which `t` holds are reversed.
abbrev pub swapped : (ℕ → Bool) → (ℕ → ℕ) → ℕ → ℕ
swapped t u p = if t p then reverse (u p) else u p

reverse_at-swapped : (w : ℕ) (u : ℕ → ℕ) → reverse_at w u ≡ swapped (λ p. p == w) u
reverse_at-swapped w u = fun_ext λ p. elim (Bool-cases (p == w)) [
  | inl e ↦ let at_w : w ≡ p = ground arith in rw e (ap (λ q. reverse (u q)) at_w)
  | inr e ↦ rw e
]

-- Two sets of words without a common one.
swapped-swapped :
    (t t' : ℕ → Bool) (u : ℕ → ℕ)
    → ((p : ℕ) → (t p && t' p) ≡ false)
    → swapped t' (swapped t u) ≡ swapped (λ p. t p || t' p) u
swapped-swapped t t' u h = fun_ext λ p. elim (Bool-cases (t p)) [
  | inl e ↦ let no : t' p ≡ false = let d = h p in ground arith in rw (e, no)
  | inr e ↦ rw e
]

-- One more word, or `n` more words.
also_at :
    (w : ℕ) (t : ℕ → Bool) (r u : ℕ → ℕ)
    → r ≡ swapped t u
    → ((p : ℕ) → (t p && (p == w)) ≡ false)
    → reverse_at w r ≡ swapped (λ p. t p || (p == w)) u
also_at w t r u e h =
    reverse_at-swapped w r ∙ ap (swapped (λ p. p == w)) e ∙ swapped-swapped t (λ p. p == w) u h

reverse_words-swapped :
    (n w : ℕ) (u : ℕ → ℕ) → reverse_words n w u ≡ swapped (λ p. leb w p && ltb p (w + n)) u
unfolding reverse_words
reverse_words-swapped zero w u =
    fun_ext λ p. let no : (leb w p && ltb p (w + 0)) ≡ false = ground arith in rw no
reverse_words-swapped (suc n) w u =
    reverse_words-swapped n (w + 1) (reverse_at w u)
    ∙ ap (swapped (λ p. leb (w + 1) p && ltb p (w + 1 + n))) (reverse_at-swapped w u)
    ∙ swapped-swapped (λ p. p == w) (λ p. leb (w + 1) p && ltb p (w + 1 + n)) u (λ p. ground arith)
    ∙ ap (λ t. swapped t u) (fun_ext λ p. ground arith)

-- The words of the numbers of the file at word `w`.
abbrev pub numbers : ℕ → ℕ → Bool
numbers w p = leb (w + size_at) p && ltb p (w + indirect_at + 1)

reverse_file-swapped : (w : ℕ) (u : ℕ → ℕ) → reverse_file w u ≡ swapped (numbers w) u
unfolding reverse_file
reverse_file-swapped w u =
    let t1 : ℕ → Bool = λ p. p == w + size_at in
    let t2 : ℕ → Bool = λ p. t1 p || (p == w + type_at) in
    let run : ℕ → Bool = λ p. leb (w + direct_at 0) p && ltb p (w + direct_at 0 + ndirect) in
    let t3 : ℕ → Bool = λ p. t2 p || run p in
    let u2 = reverse_at (w + type_at) (reverse_at (w + size_at) u) in
    let e2 : u2 ≡ swapped t2 u =
      also_at (w + type_at) t1 (reverse_at (w + size_at) u) u (reverse_at-swapped (w + size_at) u)
        (λ p. ground arith) in
    let e3 : reverse_words ndirect (w + direct_at 0) u2 ≡ swapped t3 u =
      reverse_words-swapped ndirect (w + direct_at 0) u2
      ∙ ap (swapped run) e2
      ∙ swapped-swapped t2 run u (λ p. ground arith) in
    also_at (w + indirect_at) t3 (reverse_words ndirect (w + direct_at 0) u2) u e3
      (λ p. ground arith)
    ∙ ap (λ t. swapped t u) (fun_ext λ p. ground arith)

-- The words that are reversed in the files from `i` on: those of the numbers of files before an
-- unused one.
abbrev pub used_numbers : ℕ → ℕ → (ℕ → ℕ) → ℕ → Bool
used_numbers zero i u p = false
used_numbers (suc n) i u p =
    if u (i * 64) % 256 == 0 then false else numbers (i * 64) p || used_numbers n (i + 1) u p

-- They are behind the names of the files.
pub used_numbers-low :
    (n i : ℕ) (u : ℕ → ℕ) (p : ℕ) → p < i * 64 + size_at → used_numbers n i u p ≡ false
used_numbers-low zero i u p h = refl
used_numbers-low (suc n) i u p h = elim (Bool-cases (u (i * 64) % 256 == 0)) [
  | inl e ↦ rw e
  | inr e ↦
      let no : numbers (i * 64) p ≡ false = ground arith in
      rw e (rw no (used_numbers-low n (i + 1) u p (omega arith)))
]

-- They depend on the first words of the files alone.
used_numbers-same :
    (n i : ℕ) (u u' : ℕ → ℕ) (p : ℕ)
    → ((j : ℕ) → i ≤ j → u' (j * 64) ≡ u (j * 64))
    → used_numbers n i u' p ≡ used_numbers n i u p
used_numbers-same zero i u u' p h = refl
used_numbers-same (suc n) i u u' p h =
    rw (h i (omega arith), used_numbers-same n (i + 1) u u' p (λ j l. h j (omega arith)))

apart_files :
    (n i : ℕ) (u : ℕ → ℕ) (p : ℕ) → (numbers (i * 64) p && used_numbers n (i + 1) u p) ≡ false
apart_files n i u p = elim (Bool-cases (ltb p ((i + 1) * 64 + size_at))) [
  | inl e ↦
      let no = used_numbers-low n (i + 1) u p (ltb→lt p ((i + 1) * 64 + size_at) e) in
      rw no (ground arith)
  | inr e ↦ let no : numbers (i * 64) p ≡ false = ground arith in rw no
]

-- The first words of the files are not among them.
names_kept : (n i : ℕ) (u : ℕ → ℕ) (j : ℕ) → used_numbers n i u (j * 64) ≡ false
names_kept zero i u j = refl
names_kept (suc n) i u j = elim (Bool-cases (u (i * 64) % 256 == 0)) [
  | inl e ↦ rw e
  | inr e ↦
      let no : numbers (i * 64) (j * 64) ≡ false = ground arith in
      rw e (rw no (names_kept n (i + 1) u j))
]

reverse_files-swapped : (n i : ℕ) (u : ℕ → ℕ) → reverse_files n i u ≡ swapped (used_numbers n i u) u
unfolding reverse_files
reverse_files-swapped zero i u = refl
reverse_files-swapped (suc n) i u = elim (Bool-cases (u (i * 64) % 256 == 0)) [
  | inl e ↦
      let stop : reverse_files (suc n) i u ≡ u = rw e in
      let none_left : (p : ℕ) → used_numbers (suc n) i u p ≡ false = λ p. rw e in
      stop ∙ fun_ext λ p. let no = none_left p in rw no
  | inr e ↦
      let u1 = reverse_file (i * 64) u in
      let e1 : u1 ≡ swapped (numbers (i * 64)) u = reverse_file-swapped (i * 64) u in
      let same : (p : ℕ) → used_numbers n (i + 1) u1 p ≡ used_numbers n (i + 1) u p = λ p.
        used_numbers-same n (i + 1) u u1 p (λ j l.
          ap (λ f. f (j * 64)) e1
          ∙ (let no : numbers (i * 64) (j * 64) ≡ false = ground arith in rw no)) in
      let more : reverse_files (suc n) i u ≡ reverse_files n (i + 1) u1 = rw e in
      let all : (p : ℕ)
          → (numbers (i * 64) p || used_numbers n (i + 1) u p) ≡ used_numbers (suc n) i u p =
        λ p. rw e in
      more
      ∙ reverse_files-swapped n (i + 1) u1
      ∙ ap (λ t. swapped t u1) (fun_ext same)
      ∙ ap (swapped (used_numbers n (i + 1) u)) e1
      ∙ swapped-swapped (numbers (i * 64)) (used_numbers n (i + 1) u) u (λ p. apart_files n i u p)
      ∙ ap (λ t. swapped t u) (fun_ext all)
]

-- The words that are reversed in a block.
abbrev pub reversed_words : BlockType → (ℕ → ℕ) → ℕ → Bool
reversed_words block_free u p = false
reversed_words block_boot u p = false
reversed_words block_super u p = ((p == 0) || (p == 1)) || numbers 2 p
reversed_words block_file u p = used_numbers file2blk 0 u p
reversed_words block_index u p = leb 0 p && ltb p (0 + 1024)
reversed_words block_bmap u p = leb 0 p && ltb p (0 + 1024)
reversed_words block_data u p = false

pub reverse_block-swapped :
    (b : BlockType) (u : ℕ → ℕ) → reverse_block b u ≡ swapped (reversed_words b u) u
unfolding reverse_block
reverse_block-swapped block_free u = refl
reverse_block-swapped block_boot u = refl
reverse_block-swapped block_super u =
    let first : ℕ → Bool = λ p. (p == 0) || (p == 1) in
    let e : reverse_at 1 (reverse_at 0 u) ≡ swapped first u =
      also_at 1 (λ p. p == 0) (reverse_at 0 u) u (reverse_at-swapped 0 u) (λ p. ground arith) in
    reverse_file-swapped 2 (reverse_at 1 (reverse_at 0 u))
    ∙ ap (swapped (numbers 2)) e
    ∙ swapped-swapped first (numbers 2) u (λ p. ground arith)
reverse_block-swapped block_file u = reverse_files-swapped file2blk 0 u
reverse_block-swapped block_index u = reverse_words-swapped 1024 0 u
reverse_block-swapped block_bmap u = reverse_words-swapped 1024 0 u
reverse_block-swapped block_data u = refl

-- The same words are reversed the second time.
pub same_words :
    (b : BlockType) (u : ℕ → ℕ) (p : ℕ)
    → reversed_words b (reverse_block b u) p ≡ reversed_words b u p
same_words block_free u p = refl
same_words block_boot u p = refl
same_words block_super u p = refl
same_words block_file u p = used_numbers-same file2blk 0 u (reverse_block block_file u) p (λ j l.
    ap (λ f. f (j * 64)) (reverse_block-swapped block_file u)
    ∙ (let no = names_kept file2blk 0 u j in rw no))
same_words block_index u p = refl
same_words block_bmap u p = refl
same_words block_data u p = refl
