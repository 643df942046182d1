-- ===== src/Fs/Inode/Truncate.antt =====
-- How `file_truncate` of fs/fs.c gives the blocks of a file back.
use buaa_os.Base.{
  ℕ, zero, suc, ◌+◌, ◌-◌, ◌/◌, ◌≤◌, ◌<◌, ◌≡◌, refl, ap, ◌∙◌, sym, subst, Bool, true, false, not,
  ◌&&◌, ◌||◌, ltb, leb, ◌==◌, if◌then◌else◌, arith, Bool-cases, inl, inr, ==-refl, ==-ne,
}
use buaa_os.Run.{ok}
use buaa_os.Vm.{update_word}
use buaa_os.Fs.{Fs, s_nblocks}
use buaa_os.Fs.Block.{bit_free}
use buaa_os.Fs.Inode.{clear_blocks, drop_indirect, blocks_for, file_truncate}
use buaa_os.Fs.Inode.Drop.{
  Apart, Dropped, dropped, dropped-Dropped, file_clear_block-ok, free_block-ok, store-bit_free,
  or_false,
}

-- One of the `n` words from `q` on names block `j`.
abbrev pub named : ℕ → ℕ → ℕ → (ℕ → ℕ) → Bool
named zero q j m = false
named (suc n) q j m = (not (j == 0) && (m q == j)) || named n (q + 1) j m

named-same :
    (n q j : ℕ) (m m' : ℕ → ℕ) → ((p : ℕ) → q ≤ p → m' p ≡ m p) → named n q j m' ≡ named n q j m
named-same zero q j m m' h = refl
named-same (suc n) q j m m' h =
    rw (h q (omega arith), named-same n (q + 1) j m m' (λ p k. h p (omega arith)))

or_more : (x y z : Bool) → ((x || y) || z) ≡ (x || (y || z))
or_more true y z = refl
or_more false y z = refl

-- The words from `q` to `q + n - 1` of page `b` were dropped, and the blocks they named given back.
pub record Cleared (b q n : ℕ) (s s' : Fs) : Type 0 where
  pub only_mem : s' ≡ record s { mem = s'.mem }
  pub words : (p : ℕ) → s'.mem b p ≡ (if leb q p && ltb p (q + n) then 0 else s.mem b p)
  pub bits : (j : ℕ) → j < s_nblocks s → bit_free j s' ≡ (bit_free j s || named n q j (s.mem b))
  pub size : s_nblocks s' ≡ s_nblocks s

module _ (b w : ℕ) where
  cleared_word :
      (q n p : ℕ) (m m1 : ℕ → ℕ)
      → m1 p ≡ (if p == q then 0 else m p)
      → (if leb (q + 1) p && ltb p (q + 1 + n) then 0 else m1 p)
        ≡ (if leb q p && ltb p (q + suc n) then 0 else m p)
  cleared_word q n p m m1 h = elim (Bool-cases (leb (q + 1) p && ltb p (q + 1 + n))) [
    | inl t ↦ let u : (leb q p && ltb p (q + suc n)) ≡ true = ground arith in rw (t, u)
    | inr t ↦ rw t (
        h ∙ elim (Bool-cases (p == q)) [
          | inl e ↦ let u : (leb q p && ltb p (q + suc n)) ≡ true = ground arith in rw (e, u)
          | inr e ↦ let u : (leb q p && ltb p (q + suc n)) ≡ false = ground arith in rw (e, u)
        ])
  ]

  Cleared-more :
      (q n : ℕ) (s s1 s2 : Fs)
      → Dropped b w q s s1
      → Cleared b (q + 1) n s1 s2
      → Cleared b q (suc n) s s2
  Cleared-more q n s s1 s2 x y = record {
    only_mem = y.only_mem ∙ ap (λ (t : Fs). record t { mem = s2.mem }) x.only_mem;
    words = λ p. y.words p ∙ cleared_word q n p (s.mem b) (s1.mem b) (x.words p);
    bits = λ j h.
        y.bits j (subst (λ k. j < k) (sym x.size) h)
        ∙ rw
            (
              x.bits j h,
              named-same n (q + 1) j (s.mem b) (s1.mem b)
                  (λ p k. x.words p ∙ rw (==-ne p q (λ e. omega arith))),
            )
            (or_more (bit_free j s) (not (j == 0) && (s.mem b q == j))
              (named n (q + 1) j (s.mem b)));
    size = y.size ∙ x.size;
  }

  clear_blocks-Cleared :
      (n i : ℕ) (s : Fs)
      → s.super ≡ true
      → i + n ≤ 10
      → Apart b w s
      → (s' : Fs) × (clear_blocks n (b, w) i s ≡ ok tt s') × Cleared b (w + 34 + i) n s s'
  unfolding clear_blocks
  clear_blocks-Cleared zero i s on h apart = (
    s,
    refl,
    record {
      only_mem = refl;
      words = λ p.
          let no : (leb (w + 34 + i) p && ltb p (w + 34 + i + 0)) ≡ false = ground arith in rw no;
      bits = λ j k. sym (or_false (bit_free j s));
      size = refl;
    },
  )
  clear_blocks-Cleared (suc n) i s on h apart =
      let q = w + 34 + i in
      let s1 = dropped b w q s in
      let x : Dropped b w q s s1 = dropped-Dropped b w q s (omega arith) apart in
      let (s2, p, y) =
        clear_blocks-Cleared n (i + 1) s1 (ap (λ (t : Fs). t.super) x.only_mem ∙ on) (omega arith)
          (λ j k. apart j (subst (λ z. j < z) x.size k)) in
      (
        s2,
        rw (file_clear_block-ok b w i s on (omega arith)) p,
        Cleared-more q n s s1 s2 x
            (subst (λ z. Cleared b z n s1 s2) {x = w + 34 + (i + 1)} {y = q + 1} (omega arith) y),
      )

  -- What `file_truncate` has done to a file without indirect blocks: its size is set, its pointers
  -- from block `first` on are dropped, and what they and the indirect pointer named is free.
  pub record Truncated (newsize first n : ℕ) (s s' : Fs) : Type 0 where
    pub only_mem : s' ≡ record s { mem = s'.mem }
    pub set_size : s'.mem b (w + 32) ≡ newsize
    pub no_indirect : s'.mem b (w + 44) ≡ 0
    pub pointers :
        (i : ℕ)
        → i < 10
        → s'.mem b (w + 34 + i)
          ≡ (if leb first i && ltb i (first + n) then 0 else s.mem b (w + 34 + i))
    pub bits :
        (j : ℕ)
        → j < s_nblocks s
        → bit_free j s' ≡ (
            bit_free j s
            || (named n (w + 34 + first) j (s.mem b) || (not (j == 0) && (s.mem b (w + 44) == j))))

  first_low : (newsize size : ℕ) → newsize ≤ size → blocks_for newsize ≤ size / 4096 + 1
  first_low newsize size h = elim (Bool-cases (newsize == 0)) [
    | inl e ↦ rw e (omega arith)
    | inr e ↦ rw e (omega arith)
  ]

  drop_indirect-ok :
      (s : Fs) → s.super ≡ true → drop_indirect (b, w) s ≡ ok tt (dropped b w (w + 44) s)
  unfolding drop_indirect
  drop_indirect-ok s on = elim (Bool-cases (s.mem b (w + 44) == 0)) [
    | inl e ↦ rw e
    | inr e ↦ rw e (rw (free_block-ok b w (s.mem b (w + 44)) s on))
  ]

  indirect_kept :
      (first n : ℕ) (s s1 : Fs)
      → Cleared b (w + 34 + first) n s s1
      → first + n ≤ 10
      → s1.mem b (w + 44) ≡ s.mem b (w + 44)
  indirect_kept first n s s1 y few =
      y.words (w + 44)
      ∙ (let no : (leb (w + 34 + first) (w + 44) && ltb (w + 44) (w + 34 + first + n)) ≡ false =
            ground arith in
          rw no)

  pointer_cleared :
      (first n i v : ℕ)
      → (if leb (w + 34 + first) (w + 34 + i) && ltb (w + 34 + i) (w + 34 + first + n)
          then 0
          else v)
        ≡ (if leb first i && ltb i (first + n) then 0 else v)
  pointer_cleared first n i v = elim (Bool-cases (leb first i && ltb i (first + n))) [
    | inl e ↦
        let t : (leb (w + 34 + first) (w + 34 + i) && ltb (w + 34 + i) (w + 34 + first + n))
            ≡ true =
          ground arith in
        rw (e, t)
    | inr e ↦
        let t : (leb (w + 34 + first) (w + 34 + i) && ltb (w + 34 + i) (w + 34 + first + n))
            ≡ false =
          ground arith in
        rw (e, t)
  ]

  with_size-Truncated :
      (newsize first n : ℕ) (s s1 s2 : Fs)
      → Cleared b (w + 34 + first) n s s1
      → Dropped b w (w + 44) s1 s2
      → first + n ≤ 10
      → Apart b w s
      → Truncated newsize first n s (record s2 { mem = update_word s2.mem b (w + 32) newsize })
  with_size-Truncated newsize first n s s1 s2 y x few apart = record {
    only_mem =
        ap (λ (t : Fs). record t { mem = update_word s2.mem b (w + 32) newsize })
          (x.only_mem ∙ ap (λ (t : Fs). record t { mem = s2.mem }) y.only_mem);
    set_size = rw (==-refl b) (rw (==-refl (w + 32)));
    no_indirect = rw (==-refl b) (
        rw (==-ne (w + 44) (w + 32) (λ e. omega arith)) (x.words (w + 44) ∙ rw (==-refl (w + 44))));
    pointers = λ i h. rw (==-refl b) (
        rw (==-ne (w + 34 + i) (w + 32) (λ e. omega arith)) (
          x.words (w + 34 + i)
          ∙ rw (==-ne (w + 34 + i) (w + 44) (λ e. omega arith))
              (y.words (w + 34 + i) ∙ pointer_cleared first n i (s.mem b (w + 34 + i)))));
    bits = λ j h.
        store-bit_free b w (w + 32) newsize j s2 (apart j h)
        ∙ x.bits j (subst (λ k. j < k) (sym y.size) h)
        ∙ rw (y.bits j h, indirect_kept first n s s1 y few)
            (or_more (bit_free j s) (named n (w + 34 + first) j (s.mem b))
              (not (j == 0) && (s.mem b (w + 44) == j)));
  }

  -- The page of the file is no bitmap block, it and the bitmap are in the cache, the super block was
  -- read, the new size is not above the size of the file, and the file is below ten blocks:
  -- `file_truncate` sets the size, sets the indirect pointer to 0, drops the pointers from number
  -- newsize / 4096 + 1 on, or all for size 0, and keeps the others, which for a positive multiple of
  -- 4096 is one pointer more than the new size needs; the blocks that the dropped pointers and the
  -- indirect pointer named are free, and no other bit of the bitmap changes.
  pub file_truncate_outcome :
      (newsize : ℕ) (s : Fs)
      → s.super ≡ true
      → s.mapped b ≡ true
      → ((j : ℕ) → j < s_nblocks s → s.mapped (2 + j / 32 / 1024) ≡ true)
      → Apart b w s
      → newsize ≤ s.mem b (w + 32)
      → s.mem b (w + 32) < 40960
      → (s' : Fs) × (file_truncate (b, w) newsize s ≡ ok tt s')
        × Truncated newsize
            (blocks_for newsize)
            (s.mem b (w + 32) / 4096 + 1 - blocks_for newsize)
            s
            s'
  unfolding file_truncate
  file_truncate_outcome newsize s on _ _ apart less small =
      let first = blocks_for newsize in
      let n = s.mem b (w + 32) / 4096 + 1 - first in
      let low : first ≤ s.mem b (w + 32) / 4096 + 1 = first_low newsize (s.mem b (w + 32)) less in
      let few : first + n ≤ 10 = omega arith in
      let t : leb first 10 ≡ true = ground arith in
      let (s1, p, y) = clear_blocks-Cleared n first s on few apart in
      let on1 : s1.super ≡ true = ap (λ (t : Fs). t.super) y.only_mem ∙ on in
      let x =
        dropped-Dropped b w (w + 44) s1 (omega arith)
          (λ j k. apart j (subst (λ z. j < z) y.size k)) in
      (
        record (dropped b w (w + 44) s1) {
          mem = update_word (dropped b w (w + 44) s1).mem b (w + 32) newsize;
        },
        rw p (rw t (rw (drop_indirect-ok s1 on1))),
        with_size-Truncated newsize first n s s1 (dropped b w (w + 44) s1) y x few apart,
      )
