-- ===== src/Fsformat/Bitmap.antt =====
-- The bitmap that tools/fsformat.c writes.
use buaa_os.Base.{
  ℕ, zero, suc, ◌+◌, ◌-◌, ◌/◌, ◌%◌, ◌^◌, ◌<◌, ◌≡◌, refl, ap, ◌∙◌, fun_ext, bit_and, true, false,
  not, ◌&&◌, ltb, leb, ◌==◌, if◌then◌else◌, arith, Bool-cases, inl, inr, is_set, is_set-clear,
  passes_below, passes_below_at,
}
use buaa_os.Vm.{update_word}
use buaa_os.Fsformat.{
  Image, zeroed, nblock, init_disk, mark_bitmaps, fill_bitmaps, flush_bits, flush_bitmap,
}
use buaa_os.Fs.{bit2blk}
use buaa_os.Fs.Block.{fs_magic}

-- The words of the bitmap, as the file system server numbers them.
abbrev pub bits : Image → ℕ → ℕ
bits m q = m.words (2 + q / 1024) (q % 1024)

-- The state after the bit of block `i` was cleared.
abbrev cleared : ℕ → Image → Image
cleared i m =
    let b = 2 + i / bit2blk in
    let w = i % bit2blk / 32 in
    record m { words = update_word m.words b w (bit_and (m.words b w) (2 ^ 32 - 1 - 2 ^ (i % 32))) }

bits-cleared :
    (i q : ℕ) (m : Image)
    → bits (cleared i m) q
      ≡ (if q == i / 32 then bit_and (bits m (i / 32)) (2 ^ 32 - 1 - 2 ^ (i % 32)) else bits m q)
bits-cleared i q m =
    let p : i / bit2blk ≡ i / 32 / 1024 = omega arith in
    let w : i % bit2blk / 32 ≡ i / 32 % 1024 = omega arith in
    elim (Bool-cases (q == i / 32)) [
      | inl e ↦
          let here : q ≡ i / 32 = ground arith in
          let t : (2 + q / 1024 == 2 + i / bit2blk) ≡ true = ground arith in
          let u : (q % 1024 == i % bit2blk / 32) ≡ true = ground arith in rw (t, u, e) (rw (p, w))
      | inr e ↦ rw e (elim (Bool-cases (2 + q / 1024 == 2 + i / bit2blk)) [
        | inr t ↦ rw t
        | inl t ↦ let u : (q % 1024 == i % bit2blk / 32) ≡ false = ground arith in rw (t, u)
      ])
    ]

is_set-cleared :
    (i j : ℕ) (m : Image)
    → is_set (bits (cleared i m)) j ≡ (if j == i then false else is_set (bits m) j)
is_set-cleared i j m =
    ap (λ (f : ℕ → ℕ). is_set f j) (fun_ext λ q. bits-cleared i q m) ∙ is_set-clear (bits m) i j

-- What the loop changes: the words of the bitmap alone.
pub record Flushed (n i : ℕ) (m m' : Image) : Type 0 where
  pub bit :
      (j : ℕ) → is_set (bits m') j ≡ (if leb i j && ltb j (i + n) then false else is_set (bits m) j)
  pub early : (b w : ℕ) → b < 2 → m'.words b w ≡ m.words b w
  pub super : m'.super ≡ m.super

flush_bits-Flushed : (n i : ℕ) (m : Image) → Flushed n i m (flush_bits n i m)
unfolding flush_bits
flush_bits-Flushed zero i m = record {
  bit = λ j. let no : (leb i j && ltb j (i + 0)) ≡ false = ground arith in rw no;
  early = λ b w h. refl;
  super = refl;
}
flush_bits-Flushed (suc n) i m =
    let r = flush_bits-Flushed n (i + 1) (cleared i m) in
    record {
      bit = λ j. r.bit j ∙ one j;
      early = λ b w h.
          r.early b w h ∙ (let no : (b == 2 + i / bit2blk) ≡ false = ground arith in rw no);
      super = r.super;
    }
  where
    one :
        (j : ℕ)
        → (if leb (i + 1) j && ltb j (i + 1 + n) then false else is_set (bits (cleared i m)) j)
          ≡ (if leb i j && ltb j (i + suc n) then false else is_set (bits m) j)
    one j = rw (is_set-cleared i j m) (elim (Bool-cases (j == i)) [
      | inl e ↦
          let t : (leb i j && ltb j (i + suc n)) ≡ true = ground arith in
          let u : (leb (i + 1) j && ltb j (i + 1 + n)) ≡ false = ground arith in rw (t, u, e)
      | inr e ↦
          let t : (leb i j && ltb j (i + suc n)) ≡ (leb (i + 1) j && ltb j (i + 1 + n)) =
            ground arith in
          rw (t, e)
    ])

pub flush_bitmap-Flushed : (m : Image) → Flushed m.nextbno 0 m (flush_bitmap m)
unfolding flush_bitmap
flush_bitmap-Flushed m = flush_bits-Flushed m.nextbno 0 m

-- The super block and the bitmap are as `init_disk` makes them: all blocks of the disk are free.
pub record Intact (m : Image) : Type 0 where
  pub magic : m.super 0 ≡ fs_magic
  pub nblocks : m.super 1 ≡ nblock
  pub bitmap : (w : ℕ) → w < 1024 → m.words 2 w ≡ (if ltb w 32 then 2 ^ 32 - 1 else 0)

pub init_disk-Intact : Intact (init_disk zeroed)
unfolding init_disk mark_bitmaps fill_bitmaps
init_disk-Intact = record { magic = refl; nblocks = refl; bitmap = λ w h. ground arith }

full_words : passes_below (λ k. not (bit_and (2 ^ 32 - 1) (2 ^ k) == 0)) 32 ≡ true
unfolding passes_below
full_words = refl

first_words : (m : Image) (q : ℕ) → q < 1024 → bits m q ≡ m.words 2 q
first_words m q h =
    let z : 2 + q / 1024 ≡ 2 = omega arith in
    let s : q % 1024 ≡ q = omega arith in ap (λ p. m.words p (q % 1024)) z ∙ ap (m.words 2) s

pub Intact-bit : (m : Image) → Intact m → (j : ℕ) → j < 1024 → is_set (bits m) j ≡ true
Intact-bit m intact j h =
    let t : ltb (j / 32) 32 ≡ true = ground arith in
    let ones : (if ltb (j / 32) 32 then 2 ^ 32 - 1 else 0) ≡ 2 ^ 32 - 1 = rw t in
    let all : bits m (j / 32) ≡ 2 ^ 32 - 1 =
      first_words m (j / 32) (omega arith) ∙ intact.bitmap (j / 32) (omega arith) ∙ ones in
    ap (λ v. not (bit_and v (2 ^ (j % 32)) == 0)) all
    ∙ passes_below_at (λ k. not (bit_and (2 ^ 32 - 1) (2 ^ k) == 0)) 32 (j % 32) (omega arith)
        full_words
