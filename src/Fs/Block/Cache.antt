-- ===== src/Fs/Block/Cache.antt =====
-- Eviction and synchronisation of the block cache of fs/fs.c.
use buaa_os.Base.{
  ℕ, zero, suc, ◌+◌, ◌-◌, ◌*◌, ◌/◌, ◌%◌, ◌≤◌, ◌<◌, ◌≡◌, ◌≢◌, refl, ap, ◌∙◌, sym, subst, Bool, true,
  false, ◌&&◌, ltb, leb, ◌==◌, if◌then◌else◌, arith, Bool-cases, inl, inr, ==-refl, ==-ne,
}
use buaa_os.Run.{ok, and_then}
use buaa_os.Vm.{update}
use buaa_os.Fs.{Fs, s_nblocks}
use buaa_os.Fs.Ide.Copy.{Working, saved, filled, ide_read-ok}
use buaa_os.Fs.Block.{
  block_is_free, block_is_dirty, mem_alloc, read_block, unmap_block, sync_blocks, fs_sync,
}
use buaa_os.Fs.Block.Bits.{write_block-ok, saved-inside, saved-outside}

-- The page `b` after it was read from the disk into a cleared page.
abbrev pub fetched : ℕ → Fs → Fs
fetched b s =
    let s1 : Fs = record s {
      mapped = update s.mapped b true;
      dirty = update s.dirty b false;
      mem = update s.mem b (λ _. 0);
      free_pages = s.free_pages - 1;
    } in
    record s1 { mem = filled 8 (b * 8) b 0 s1 }

pub read_block-miss :
    (b : ℕ) (s : Fs)
    → Working s
    → (s.super && leb (s_nblocks s) b) ≡ false
    → (s.has_bitmap && block_is_free b s) ≡ false
    → s.mapped b ≡ false
    → 0 < s.free_pages
    → read_block b s ≡ ok true (fetched b s)
unfolding read_block mem_alloc
read_block-miss b s works inside used m room =
    rw (inside, used)
      (rw m (
        rw (==-ne s.free_pages 0 (λ e. omega arith)) (
          rw (
            ide_read-ok (b * 8) b 8
              (record s {
                mapped = update s.mapped b true;
                dirty = update s.dirty b false;
                mem = update s.mem b (λ _. 0);
                free_pages = s.free_pages - 1;
              })
              works))))

pub read_block-hit :
    (b : ℕ) (s : Fs)
    → (s.super && leb (s_nblocks s) b) ≡ false
    → (s.has_bitmap && block_is_free b s) ≡ false
    → s.mapped b ≡ true
    → read_block b s ≡ ok false s
unfolding read_block
read_block-hit b s inside used m = rw (inside, used) (rw m)

pub fetched-words :
    (b w : ℕ) (s : Fs) → w < 1024 → (fetched b s).mem b w ≡ s.disk (b * 8 + w / 128) (w % 128)
fetched-words b w s h =
    let t : ((b == b) && (leb (0 * 128) w && ltb w ((0 + 8) * 128))) ≡ true = ground arith in
    let e : b * 8 + (w / 128 - 0) ≡ b * 8 + w / 128 = omega arith in
    rw t (ap (λ (q : ℕ). s.disk q (w % 128)) e)

pub fetched-others : (b p w : ℕ) (s : Fs) → p ≢ b → (fetched b s).mem p w ≡ s.mem p w
fetched-others b p w s h = rw (==-ne p b h)

-- The state after a page left the cache; a dirty one is on the disk.
abbrev evicted : ℕ → Fs → Fs
evicted b s = record s {
  disk = if s.dirty b then saved 8 (b * 8) b 0 s else s.disk;
  mapped = update s.mapped b false;
  dirty = update s.dirty b false;
  mem = update s.mem b (λ _. 0);
  free_pages = s.free_pages + 1;
}

unmap_block-ok :
    (b : ℕ) (s : Fs)
    → Working s
    → s.mapped b ≡ true
    → block_is_free b s ≡ false
    → unmap_block b s ≡ ok tt (evicted b s)
unfolding unmap_block
unmap_block-ok b s works m used = rw m (
    rw used (elim (Bool-cases (s.dirty b)) [
      | inl d ↦ rw d (rw (write_block-ok b s works m) (rw (==-refl b)))
      | inr d ↦ rw d (rw (==-refl b))
    ]))

-- A page that came back into the cache: what was dirty is kept, what was not is the disk's.
pub record Returned (s s' : Fs) (b : ℕ) : Type 0 where
  pub words :
      (w : ℕ)
      → w < 1024
      → s'.mem b w ≡ (if s.dirty b then s.mem b w else s.disk (b * 8 + w / 128) (w % 128))
  pub there : s'.mapped b ≡ true
  pub clean : s'.dirty b ≡ false
  pub others : (p w : ℕ) → p ≢ b → s'.mem p w ≡ s.mem p w

evicted-words :
    (b w : ℕ) (s : Fs)
    → w < 1024
    → (evicted b s).disk (b * 8 + w / 128) (w % 128)
      ≡ (if s.dirty b then s.mem b w else s.disk (b * 8 + w / 128) (w % 128))
evicted-words b w s h = elim (Bool-cases (s.dirty b)) [
  | inl d ↦ rw d (saved-inside b w s h)
  | inr d ↦ rw d
]

-- Where the drive works on every sector, a cached block inside the disk that is not free, other than
-- the super block and the block of the bitmap with its own bit, can leave the cache and be read again: its words are those that it had if it was dirty, and those of the
-- disk if not, it is not dirty, and no other page changes.
pub read-unmap :
    (b : ℕ) (s : Fs)
    → Working s
    → b ≢ 1
    → b ≢ 2 + b / 32 / 1024
    → s.mapped b ≡ true
    → block_is_free b s ≡ false
    → (s.super && leb (s_nblocks s) b) ≡ false
    → (s' : Fs) × (and_then (unmap_block b s) (λ _. read_block b) ≡ ok true s') × Returned s s' b
read-unmap b s works not_super not_bits m used inside =
    let t = evicted b s in
    (
      fetched b t,
      rw (unmap_block-ok b s works m used) (
          read_block-miss b t works (rw (==-ne 1 b (λ e. not_super (sym e))) inside)
            (rw
              (
                ==-ne 1 b (λ e. not_super (sym e)),
                ==-ne (2 + b / 32 / 1024) b (λ e. not_bits (sym e)),
              )
              (rw used (ground arith)))
            (rw (==-refl b)) (omega arith)),
      record {
        words = λ w h. fetched-words b w t h ∙ evicted-words b w s h;
        there = rw (==-refl b);
        clean = rw (==-refl b);
        others = λ p w h. fetched-others b p w t h ∙ rw (==-ne p b h);
      },
    )

-- The disk after the dirty blocks from `i` to `i + n - 1` were written.
pub record Synced (i n : ℕ) (s s' : Fs) : Type 0 where
  pub disk_only : s' ≡ record s { disk = s'.disk }
  pub written :
      (b w : ℕ)
      → i ≤ b
      → b < i + n
      → block_is_dirty b s ≡ true
      → w < 1024
      → s'.disk (b * 8 + w / 128) (w % 128) ≡ s.mem b w
  pub early : (q w : ℕ) → q / 8 < i → s'.disk q w ≡ s.disk q w
  pub untouched : (q w : ℕ) → block_is_dirty (q / 8) s ≡ false → s'.disk q w ≡ s.disk q w

-- A test that holds and does not hold.
clash : {b : Bool} {A : Type 0} → b ≡ true → b ≡ false → A
clash t f = cc

sync_blocks-Synced :
    (n i : ℕ) (s : Fs) → Working s → (s' : Fs) × (sync_blocks n i s ≡ ok tt s') × Synced i n s s'
unfolding sync_blocks
sync_blocks-Synced zero i s works = (
  s,
  refl,
  record {
    disk_only = refl;
    written = λ b w lo hi d h. ground arith;
    early = λ q w h. refl;
    untouched = λ q w h. refl;
  },
)
sync_blocks-Synced (suc n) i s works = elim (Bool-cases (block_is_dirty i s)) [
  | inr d ↦
      let (s', p, y) = sync_blocks-Synced n (i + 1) s works in
      (
        s',
        rw d p,
        record {
          disk_only = y.disk_only;
          written = λ b w lo hi k h. elim (Bool-cases (b == i)) [
            | inl e ↦
                let at_i : b ≡ i = ground arith in clash k (ap (λ q. block_is_dirty q s) at_i ∙ d)
            | inr e ↦ y.written b w (ground arith) (omega arith) k h
          ];
          early = λ q w h. y.early q w (omega arith);
          untouched = y.untouched;
        },
      )
  | inl d ↦
      let t : Fs = record s { disk = saved 8 (i * 8) i 0 s } in
      let (s', p, y) = sync_blocks-Synced n (i + 1) t works in
      (
        s',
        rw d (rw (write_block-ok i s works (ground arith)) p),
        record {
          disk_only = y.disk_only;
          written = λ b w lo hi k h. elim (Bool-cases (b == i)) [
            | inl e ↦
                let at_i : b ≡ i = ground arith in
                y.early (b * 8 + w / 128) (w % 128) (omega arith)
                ∙ subst (λ q. saved 8 (q * 8) q 0 s (b * 8 + w / 128) (w % 128) ≡ s.mem b w) at_i
                    (saved-inside b w s h)
            | inr e ↦ y.written b w (ground arith) (omega arith) k h
          ];
          early = λ q w h. y.early q w (omega arith) ∙ saved-outside i q w s (λ e. omega arith);
          untouched = λ q w h.
              y.untouched q w h
              ∙ saved-outside i q w s (λ e. clash d (ap (λ p. block_is_dirty p s) (sym e) ∙ h));
        },
      )
]

-- Where the drive works on every sector, `fs_sync` succeeds and changes the disk alone: every dirty
-- block of the disk has its words of the cache there, and the sectors of other blocks are kept.
pub fs_sync_outcome :
    (s : Fs) → Working s → (s' : Fs) × (fs_sync s ≡ ok tt s') × Synced 0 (s_nblocks s) s s'
unfolding fs_sync
fs_sync_outcome s works = sync_blocks-Synced (s_nblocks s) 0 s works
