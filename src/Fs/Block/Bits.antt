-- ===== src/Fs/Block/Bits.antt =====
-- The bitmap of free blocks: `alloc_block_num` and `free_block` of fs/fs.c.
use buaa_os.Base.{
  ℕ, zero, suc, ◌+◌, ◌-◌, ◌*◌, ◌/◌, ◌%◌, ◌^◌, ◌≤◌, ◌<◌, ◌≡◌, ◌≢◌, refl, ap, ◌∙◌, subst, fun_ext,
  bit_and, true, false, ◌&&◌, ltb, leb, ◌==◌, if◌then◌else◌, arith, Bool-cases, inl, inr, is_set,
  is_set-clear, ==-ne,
}
use buaa_os.Run.{Run, ok, fail, panic, enter, no_disk}
use buaa_os.Vm.{update_word}
use buaa_os.Fs.{Fs, s_nblocks, bitmap}
use buaa_os.Fs.Ide.Copy.{Working, saved, ide_write-ok}
use buaa_os.Fs.Block.{bit_free, write_block, take_block, alloc_scan, alloc_block_num}

-- The bitmap block that holds the bit of block `b`.
abbrev pub bitmap_page : ℕ → ℕ
bitmap_page b = 2 + b / 32 / 1024

-- The drive works, the bitmap is in the cache, and the blocks have numbers of 32 bits.
pub record Ready (s : Fs) : Type 0 where
  pub super : s.super ≡ true
  pub works : Working s
  pub bitmap_there : (b : ℕ) → b < s_nblocks s → s.mapped (bitmap_page b) ≡ true
  pub size : s_nblocks s ≤ 2 ^ 18

pub write_block-ok :
    (b : ℕ) (s : Fs)
    → Working s
    → s.mapped b ≡ true
    → write_block b s ≡ ok tt (record s { disk = saved 8 (b * 8) b 0 s })
unfolding write_block
write_block-ok b s works m = rw m (ide_write-ok (b * 8) b 8 s works)

-- The state after a store into the bitmap.
abbrev pub with_bitmap : ℕ → ℕ → Fs → Fs
with_bitmap b v s = record s { mem = update_word s.mem (bitmap_page b) (b / 32 % 1024) v }

pub bitmap-with_bitmap :
    (b v q : ℕ) (s : Fs) → bitmap (with_bitmap b v s) q ≡ (if q == b / 32 then v else bitmap s q)
bitmap-with_bitmap b v q s = elim (Bool-cases (q == b / 32)) [
  | inl e ↦
      let at_b : q ≡ b / 32 = ground arith in
      let p : (2 + q / 1024 == bitmap_page b) ≡ true = ground arith in
      let w : (q % 1024 == b / 32 % 1024) ≡ true = ground arith in rw (e, p, w)
  | inr e ↦ rw e (elim (Bool-cases (2 + q / 1024 == bitmap_page b)) [
    | inr p ↦ rw p
    | inl p ↦ let w : (q % 1024 == b / 32 % 1024) ≡ false = ground arith in rw (p, w)
  ])
]

pub bit_free-with_bitmap :
    (b v j : ℕ) (s : Fs)
    → bit_free j (with_bitmap b v s) ≡ is_set (λ q. if q == b / 32 then v else bitmap s q) j
bit_free-with_bitmap b v j s =
    ap (λ (f : ℕ → ℕ). is_set f j) (fun_ext λ q. bitmap-with_bitmap b v q s)

-- What taking the free block `b` has done: its bit alone is cleared, in the cache and on the disk.
pub record Taken (s s' : Fs) (b : ℕ) : Type 0 where
  pub bits : (j : ℕ) → bit_free j s' ≡ (if j == b then false else bit_free j s)
  pub persisted :
      (w : ℕ)
      → w < 1024
      → s'.disk (bitmap_page b * 8 + w / 128) (w % 128) ≡ s'.mem (bitmap_page b) w
  pub other_pages : (p w : ℕ) → p ≢ bitmap_page b → s'.mem p w ≡ s.mem p w
  pub other_sectors : (q w : ℕ) → q / 8 ≢ bitmap_page b → s'.disk q w ≡ s.disk q w
  pub cache : (s'.mapped ≡ s.mapped) × (s'.dirty ≡ s.dirty) × (s'.free_pages ≡ s.free_pages)
  pub ready : Ready s'

-- A page that was written is on the disk, and nothing else has changed there.
pub saved-inside :
    (b w : ℕ) (s : Fs) → w < 1024 → saved 8 (b * 8) b 0 s (b * 8 + w / 128) (w % 128) ≡ s.mem b w
saved-inside b w s h =
    let t : ((leb (b * 8) (b * 8 + w / 128) && ltb (b * 8 + w / 128) (b * 8 + 8))
          && ltb (w % 128) 128)
        ≡ true =
      ground arith in
    let e : (0 + (b * 8 + w / 128 - b * 8)) * 128 + w % 128 ≡ w = omega arith in
    rw t (ap (s.mem b) e)

pub saved-outside : (b q w : ℕ) (s : Fs) → q / 8 ≢ b → saved 8 (b * 8) b 0 s q w ≡ s.disk q w
saved-outside b q w s h =
    let t : ((leb (b * 8) q && ltb q (b * 8 + 8)) && ltb w 128) ≡ false = ground arith in rw t

-- The state after `take_block`.
abbrev taken : ℕ → Fs → Fs
taken b s =
    let s1 = with_bitmap b (bit_and (bitmap s (b / 32)) (2 ^ 32 - 1 - 2 ^ (b % 32))) s in
    record s1 { disk = saved 8 (bitmap_page b * 8) (bitmap_page b) 0 s1 }

pub with_bitmap-nblocks : (b v : ℕ) (s : Fs) → s_nblocks (with_bitmap b v s) ≡ s_nblocks s
with_bitmap-nblocks b v s = let no : (1 == bitmap_page b) ≡ false = ground arith in rw no

module _ (s : Fs) (r : Ready s) (b : ℕ) (low : b < s_nblocks s) where
  take_block-ok : take_block b s ≡ ok b (taken b s)
  unfolding take_block
  take_block-ok =
      let v = bit_and (bitmap s (b / 32)) (2 ^ 32 - 1 - 2 ^ (b % 32)) in
      let page : b / 32768 + 2 ≡ bitmap_page b = omega arith in
      rw page
        (rw (write_block-ok (bitmap_page b) (with_bitmap b v s) r.works (r.bitmap_there b low)))

  take_block-Taken : Taken s (taken b s) b
  take_block-Taken =
      let v = bit_and (bitmap s (b / 32)) (2 ^ 32 - 1 - 2 ^ (b % 32)) in
      let s1 = with_bitmap b v s in
      record {
        bits = λ j. bit_free-with_bitmap b v j s ∙ is_set-clear (bitmap s) b j;
        persisted = λ w h. saved-inside (bitmap_page b) w s1 h;
        other_pages = λ p w h. rw (==-ne p (bitmap_page b) h);
        other_sectors = λ q w h. saved-outside (bitmap_page b) q w s1 h;
        cache = (refl, refl, refl);
        ready = record {
          super = r.super;
          works = r.works;
          bitmap_there = λ j h. r.bitmap_there j (rw (with_bitmap-nblocks b v s) at h);
          size = rw (with_bitmap-nblocks b v s) r.size;
        };
      }

-- The outcomes of a search from block `b` on that ends before block `limit`.
abbrev ScanOutcome : ℕ → ℕ → Fs → Run Fs ℕ → Type 0
ScanOutcome b limit s (ok d s') =
    (b ≤ d)
    × (d < limit)
    × (bit_free d s ≡ true)
    × ((j : ℕ) → b ≤ j → j < d → bit_free j s ≡ false)
    × Taken s s' d
ScanOutcome b limit s (fail e s') =
    (e ≡ no_disk) × (s' ≡ s) × ((j : ℕ) → b ≤ j → j < limit → bit_free j s ≡ false)
ScanOutcome b limit s panic = ⊥
ScanOutcome b limit s (enter s') = ⊥

used_first :
    (b j : ℕ) (s : Fs)
    → bit_free b s ≡ false
    → b ≤ j
    → (b + 1 ≤ j → bit_free j s ≡ false)
    → bit_free j s ≡ false
used_first b j s u low h = elim (Bool-cases (j == b)) [
  | inl e ↦ let same : j ≡ b = ground arith in ap (λ (t : ℕ). bit_free t s) same ∙ u
  | inr e ↦ h (ground arith)
]

scan_on :
    (b limit : ℕ) (s : Fs) (r : Run Fs ℕ)
    → bit_free b s ≡ false
    → ScanOutcome (b + 1) limit s r
    → ScanOutcome b limit s r
scan_on b limit s (ok d s') u (a, c, f, g, t) =
    (omega arith, c, f, (λ j lo hi. used_first b j s u lo (λ l. g j l hi)), t)
scan_on b limit s (fail e s') u (x, y, g) = (x, y, λ j lo hi. used_first b j s u lo (λ l. g j l hi))
scan_on b limit s panic u o = o
scan_on b limit s (enter s') u o = o

alloc_scan-ScanOutcome :
    (n b : ℕ) (s : Fs) → Ready s → b + n ≤ s_nblocks s → ScanOutcome b (b + n) s (alloc_scan n b s)
unfolding alloc_scan
alloc_scan-ScanOutcome zero b s r h = (refl, refl, λ j lo hi. ground arith)
alloc_scan-ScanOutcome (suc n) b s r h = elim (Bool-cases (bit_free b s)) [
  | inl f ↦ rw f (
      rw (take_block-ok s r b (omega arith)) (
        omega arith,
        omega arith,
        f,
        (λ j lo hi. ground arith),
        take_block-Taken s r b (omega arith),
      ))
  | inr u ↦ rw u (
      scan_on b (b + suc n) s (alloc_scan n (b + 1) s) u (
        subst (λ (m : ℕ). ScanOutcome (b + 1) m s (alloc_scan n (b + 1) s)) {x = b + 1 + n}
          {y = b + suc n} (omega arith) (alloc_scan-ScanOutcome n (b + 1) s r (omega arith))))
]

-- The outcomes of `alloc_block_num`.
abbrev pub NumOutcome : Fs → Run Fs ℕ → Type 0
NumOutcome s (ok d s') =
    (3 ≤ d)
    × (d < s_nblocks s)
    × (bit_free d s ≡ true)
    × ((j : ℕ) → 3 ≤ j → j < d → bit_free j s ≡ false)
    × Taken s s' d
NumOutcome s (fail e s') =
    (e ≡ no_disk) × (s' ≡ s) × ((j : ℕ) → 3 ≤ j → j < s_nblocks s → bit_free j s ≡ false)
NumOutcome s panic = ⊥
NumOutcome s (enter s') = ⊥

-- Where the super block was read, the drive works on every sector, the whole bitmap is in the cache
-- and the disk has from 3 to 2^18 blocks, `alloc_block_num` takes the lowest free block from 3 on and
-- clears its bit alone, in the cache and on the disk; it fails only where all blocks from 3 on are
-- used, and then changes nothing.
pub alloc_block_num_outcome :
    (s : Fs) → Ready s → 3 ≤ s_nblocks s → NumOutcome s (alloc_block_num s)
unfolding alloc_block_num
alloc_block_num_outcome s r h =
    counted (alloc_scan (s_nblocks s - 3) 3 s)
      (alloc_scan-ScanOutcome (s_nblocks s - 3) 3 s r (omega arith))
  where
    counted : (o : Run Fs ℕ) → ScanOutcome 3 (3 + (s_nblocks s - 3)) s o → NumOutcome s o
    counted (ok d s') (a, b, c, d', t) = (a, omega arith, c, d', t)
    counted (fail e s') (x, y, g) = (x, y, λ j lo hi. g j lo (omega arith))
    counted panic o = o
    counted (enter s') o = o
