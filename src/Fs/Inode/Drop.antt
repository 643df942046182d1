-- ===== src/Fs/Inode/Drop.antt =====
-- How `file_clear_block` of fs/fs.c gives one block of a file back.
use buaa_os.Base.{
  ℕ, ◌+◌, ◌/◌, ◌%◌, ◌^◌, ◌<◌, ◌≡◌, ◌≢◌, refl, ap, ◌∙◌, sym, subst, bit_or, Bool, true, false, not,
  ◌&&◌, ◌||◌, ltb, leb, ◌==◌, if◌then◌else◌, arith, Bool-cases, inl, inr, is_set-mark, ==-refl,
  ==-ne,
}
use buaa_os.Run.{ok}
use buaa_os.Vm.{update_word}
use buaa_os.Fs.{Fs, s_nblocks, bitmap}
use buaa_os.Fs.Block.{bit_free, free_block}
use buaa_os.Fs.Block.Bits.{bitmap_page, with_bitmap, bit_free-with_bitmap, with_bitmap-nblocks}
use buaa_os.Fs.Inode.{file_block_walk, file_clear_block}

pub or_false : (x : Bool) → (x || false) ≡ x
or_false true = refl
or_false false = refl

or_true : (x : Bool) → (x || true) ≡ true
or_true true = refl
or_true false = refl

-- The file is in page `b` from word `w` on, and this page is no bitmap block.
module _ (b w : ℕ) where
  -- The bitmap of the disk is elsewhere.
  abbrev pub Apart : Fs → Type 0
  Apart s = (j : ℕ) → j < s_nblocks s → bitmap_page j ≢ b

  -- A word of the file behind its first.
  pub store-nblocks :
      (q v : ℕ) (s : Fs)
      → 1 < q
      → s_nblocks (record s { mem = update_word s.mem b q v }) ≡ s_nblocks s
  store-nblocks q v s h = elim (Bool-cases (1 == b)) [
    | inl e ↦ let d : (1 == q) ≡ false = ground arith in rw (e, d)
    | inr e ↦ rw e
  ]

  pub store-bit_free :
      (q v j : ℕ) (s : Fs)
      → bitmap_page j ≢ b
      → bit_free j (record s { mem = update_word s.mem b q v }) ≡ bit_free j s
  store-bit_free q v j s h = rw (==-ne (bitmap_page j) b h)

  -- The pointer at word `q` of the file is dropped, and its block given back.
  pub record Dropped (q : ℕ) (s s' : Fs) : Type 0 where
    pub only_mem : s' ≡ record s { mem = s'.mem }
    pub words : (p : ℕ) → s'.mem b p ≡ (if p == q then 0 else s.mem b p)
    pub bits :
        (j : ℕ)
        → j < s_nblocks s
        → bit_free j s' ≡ (bit_free j s || (not (j == 0) && (s.mem b q == j)))
    pub size : s_nblocks s' ≡ s_nblocks s

  -- The state after `free_block`, with the super block read.
  unfoldable pub freed : ℕ → Fs → Fs
  freed d s =
      if (d == 0) || leb (s_nblocks s) d
      then s
      else with_bitmap d (bit_or (bitmap s (d / 32)) (2 ^ (d % 32))) s

  pub free_block-ok : (d : ℕ) (s : Fs) → s.super ≡ true → free_block d s ≡ ok tt (freed d s)
  unfolding free_block freed
  free_block-ok d s on = elim (Bool-cases ((d == 0) || leb (s_nblocks s) d)) [
    | inl e ↦ rw (on, e)
    | inr e ↦ rw (on, e)
  ]

  freed-only_mem : (d : ℕ) (s : Fs) → freed d s ≡ record s { mem = (freed d s).mem }
  unfolding freed
  freed-only_mem d s = elim (Bool-cases ((d == 0) || leb (s_nblocks s) d)) [
    | inl e ↦ rw e
    | inr e ↦ rw e
  ]

  freed-bits :
      (d j : ℕ) (s : Fs)
      → j < s_nblocks s
      → bit_free j (freed d s) ≡ (bit_free j s || (not (j == 0) && (d == j)))
  unfolding freed
  freed-bits d j s h = elim (Bool-cases ((d == 0) || leb (s_nblocks s) d)) [
    | inl e ↦
        let no : (not (j == 0) && (d == j)) ≡ false = ground arith in
        rw (e, no) (sym (or_false (bit_free j s)))
    | inr e ↦ rw e (
        bit_free-with_bitmap d (bit_or (bitmap s (d / 32)) (2 ^ (d % 32))) j s
        ∙ is_set-mark (bitmap s) d j
        ∙ elim (Bool-cases (j == d)) [
          | inl k ↦
              let t : (not (j == 0) && (d == j)) ≡ true = ground arith in
              rw (k, t) (sym (or_true (bit_free j s)))
          | inr k ↦
              let t : (not (j == 0) && (d == j)) ≡ false = ground arith in
              rw (k, t) (sym (or_false (bit_free j s)))
        ])
  ]

  freed-words : (d p : ℕ) (s : Fs) → Apart s → (freed d s).mem b p ≡ s.mem b p
  unfolding freed
  freed-words d p s apart = elim (Bool-cases ((d == 0) || leb (s_nblocks s) d)) [
    | inl e ↦ rw e
    | inr e ↦ rw e (rw (==-ne b (bitmap_page d) (λ k. apart d (ground arith) (sym k))))
  ]

  freed-nblocks : (d : ℕ) (s : Fs) → s_nblocks (freed d s) ≡ s_nblocks s
  unfolding freed
  freed-nblocks d s = elim (Bool-cases ((d == 0) || leb (s_nblocks s) d)) [
    | inl e ↦ rw e
    | inr e ↦ rw e (with_bitmap-nblocks d (bit_or (bitmap s (d / 32)) (2 ^ (d % 32))) s)
  ]

  -- The state after the pointer at word `q` was dropped.
  abbrev pub dropped : ℕ → Fs → Fs
  dropped q s =
      let t = freed (s.mem b q) s in
      if s.mem b q == 0 then s else record t { mem = update_word t.mem b q 0 }

  pub dropped-Dropped : (q : ℕ) (s : Fs) → 1 < q → Apart s → Dropped q s (dropped q s)
  dropped-Dropped q s low apart = elim (Bool-cases (s.mem b q == 0)) [
    | inl e ↦ rw e record {
      only_mem = refl;
      words = λ p. elim (Bool-cases (p == q)) [
        | inl k ↦
            let at_q : q ≡ p = ground arith in rw k (subst (λ r. s.mem b r ≡ 0) at_q (ground arith))
        | inr k ↦ rw k
      ];
      bits = λ j h.
          let no : (not (j == 0) && (s.mem b q == j)) ≡ false = ground arith in
          rw no (sym (or_false (bit_free j s)));
      size = refl;
    }
    | inr e ↦
        let d = s.mem b q in
        rw e record {
          only_mem =
              ap (λ (t : Fs). record t { mem = update_word (freed d s).mem b q 0 })
                (freed-only_mem d s);
          words = λ p. rw (==-refl b) (elim (Bool-cases (p == q)) [
            | inl k ↦ rw k
            | inr k ↦ rw k (freed-words d p s apart)
          ]);
          bits = λ j h. store-bit_free q 0 j (freed d s) (apart j h) ∙ freed-bits d j s h;
          size = store-nblocks q 0 (freed d s) low ∙ freed-nblocks d s;
        }
  ]

  pub file_clear_block-ok :
      (i : ℕ) (s : Fs)
      → s.super ≡ true
      → i < 10
      → file_clear_block (b, w) i s ≡ ok tt (dropped (w + 34 + i) s)
  unfolding file_clear_block file_block_walk
  file_clear_block-ok i s on h =
      let t : ltb i 10 ≡ true = ground arith in
      rw t (elim (Bool-cases (s.mem b (w + 34 + i) == 0)) [
        | inl e ↦ rw e
        | inr e ↦ rw e (rw (free_block-ok (s.mem b (w + 34 + i)) s on))
      ])
