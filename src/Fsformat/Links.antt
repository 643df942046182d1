-- ===== src/Fsformat/Links.antt =====
-- The links to the blocks of a file that tools/fsformat.c makes.
use buaa_os.Base.{
  ℕ, ◌+◌, ◌≤◌, ◌<◌, ◌≡◌, ◌≢◌, refl, sym, ap, ◌∙◌, true, false, ltb, leb, ◌==◌, if◌then◌else◌, arith,
  Bool-cases, inl, inr, ==-refl, ==-ne, ◌&&◌,
}
use buaa_os.Run.{ok}
use buaa_os.Vm.{update, update_word}
use buaa_os.Fs.{ndirect, nindirect}
use buaa_os.Fsformat.{
  Image, FilePtr, root, entry, word, set_word, size_at, direct_at, indirect_at, link, block_index,
  next_block, save_block_link,
}

-- Block `b` is not the one that holds the `struct File`.
abbrev pub Apart : FilePtr → ℕ → Type 0
Apart root b = Unit
Apart (entry c w) b = c ≢ b

word-set_word :
    (f : FilePtr) (j k v : ℕ) (m : Image)
    → word f k (set_word f j v m) ≡ (if k == j then v else word f k m)
word-set_word root j k v m = let e : (2 + k == 2 + j) ≡ (k == j) = ground arith in rw e
word-set_word (entry b w) j k v m =
    let e : (w + k == w + j) ≡ (k == j) = ground arith in rw (==-refl b) (rw e)

-- Words of a block that does not hold the file.
words-set_word :
    (f : FilePtr) (j v b w : ℕ) (m : Image) → Apart f b → (set_word f j v m).words b w ≡ m.words b w
words-set_word root j v b w m a = refl
words-set_word (entry c u) j v b w m a = rw (==-ne b c (λ e. a (sym e)))

-- A store into another block does not change the file's words.
word-store :
    (f : FilePtr) (k b w v : ℕ) (m : Image)
    → Apart f b
    → word f k (record m { words = update_word m.words b w v }) ≡ word f k m
word-store root k b w v m a = refl
word-store (entry c u) k b w v m a = rw (==-ne c b a)

-- What `save_block_link f nblk bno` leaves behind.
pub record Linked (f : FilePtr) (nblk bno : ℕ) (m m' : Image) : Type 0 where
  pub here : link f nblk m' ≡ bno
  pub others :
      (i : ℕ) → i ≢ nblk → (ndirect ≤ i → word f indirect_at m ≢ 0) → link f i m' ≡ link f i m
  pub size : word f size_at m' ≡ word f size_at m
  pub next :
      m'.nextbno
      ≡ (if leb ndirect nblk && (word f indirect_at m == 0) then m.nextbno + 1 else m.nextbno)

link-direct : (f : FilePtr) (i : ℕ) (m : Image) → i < ndirect → link f i m ≡ word f (direct_at i) m
link-direct f i m h = let t : ltb i ndirect ≡ true = ground arith in rw t

link-indirect :
    (f : FilePtr) (i : ℕ) (m : Image) → ndirect ≤ i → link f i m ≡ m.words (word f indirect_at m) i
link-indirect f i m h = let t : ltb i ndirect ≡ false = ground arith in rw t

nextbno-set_word : (f : FilePtr) (k v : ℕ) (m : Image) → (set_word f k v m).nextbno ≡ m.nextbno
nextbno-set_word root k v m = refl
nextbno-set_word (entry b w) k v m = refl

-- Another word of the file.
word-set_other :
    (f : FilePtr) (j k v : ℕ) (m : Image) → k ≢ j → word f k (set_word f j v m) ≡ word f k m
word-set_other f j k v m h = word-set_word f j k v m ∙ rw (==-ne k j h)

direct_link :
    (f : FilePtr) (nblk bno : ℕ) (m : Image)
    → nblk < ndirect
    → Apart f (word f indirect_at m)
    → Linked f nblk bno m (set_word f (direct_at nblk) bno m)
direct_link f nblk bno m h a =
    let m' = set_word f (direct_at nblk) bno m in
    record {
      here =
          link-direct f nblk m' h
          ∙ word-set_word f (direct_at nblk) (direct_at nblk) bno m
          ∙ rw (==-refl (direct_at nblk));
      others = λ i n _. elim (Bool-cases (ltb i ndirect)) [
        | inl e ↦
            link-direct f i m' (ground arith)
            ∙ word-set_other f (direct_at nblk) (direct_at i) bno m (λ p. n (omega arith))
            ∙ sym (link-direct f i m (ground arith))
        | inr e ↦
            link-indirect f i m' (ground arith)
            ∙ ap (λ b. m'.words b i)
                (word-set_other f (direct_at nblk) indirect_at bno m (λ p. omega arith))
            ∙ words-set_word f (direct_at nblk) bno (word f indirect_at m) i m a
            ∙ sym (link-indirect f i m (ground arith))
      ];
      size = word-set_other f (direct_at nblk) size_at bno m (λ p. omega arith);
      next =
          let no : leb ndirect nblk ≡ false = ground arith in
          rw no (nextbno-set_word f (direct_at nblk) bno m);
    }

-- The link in the index block `b` of the file.
indirect_link :
    (f : FilePtr) (nblk bno b : ℕ) (m : Image)
    → ndirect ≤ nblk
    → word f indirect_at m ≡ b
    → Apart f b
    → let m' : Image = record m { words = update_word m.words b nblk bno } in
      (link f nblk m' ≡ bno)
      × ((i : ℕ) → i ≢ nblk → link f i m' ≡ link f i m)
      × ((k : ℕ) → word f k m' ≡ word f k m)
indirect_link f nblk bno b m h e a =
    let m' : Image = record m { words = update_word m.words b nblk bno } in
    let same : (k : ℕ) → word f k m' ≡ word f k m = λ k. word-store f k b nblk bno m a in
    let at_b : word f indirect_at m' ≡ b = same indirect_at ∙ e in
    (
      link-indirect f nblk m' h
          ∙ ap (λ c. m'.words c nblk) at_b
          ∙ rw (==-refl b) (rw (==-refl nblk)),
      λ i n. elim (Bool-cases (ltb i ndirect)) [
        | inl t ↦
            link-direct f i m' (ground arith)
            ∙ same (direct_at i)
            ∙ sym (link-direct f i m (ground arith))
        | inr t ↦
            link-indirect f i m' (ground arith)
            ∙ ap (λ c. m'.words c i) at_b
            ∙ rw (==-refl b) (rw (==-ne i nblk n))
            ∙ ap (λ c. m.words c i) (sym e)
            ∙ sym (link-indirect f i m (ground arith))
      ],
      same,
    )

-- A new index block.
new_index :
    (f : FilePtr) (i b : ℕ) (m : Image)
    → (ndirect ≤ i → word f indirect_at m ≢ 0)
    → word f indirect_at m ≡ 0
    → link f i (set_word f indirect_at b m) ≡ link f i m
new_index f i b m h z = elim (Bool-cases (ltb i ndirect)) [
  | inl e ↦
      link-direct f i (set_word f indirect_at b m) (ground arith)
      ∙ word-set_other f indirect_at (direct_at i) b m (λ p. ground arith)
      ∙ sym (link-direct f i m (ground arith))
  | inr e ↦ elim (h (ground arith) z) [ ]
]

-- The state after `next_block` has given an index block.
abbrev index_taken : Image → Image
index_taken m = record m { types = update m.types m.nextbno block_index; nextbno = m.nextbno + 1 }

word-index_taken : (f : FilePtr) (k : ℕ) (m : Image) → word f k (index_taken m) ≡ word f k m
word-index_taken root k m = refl
word-index_taken (entry b w) k m = refl

link-index_taken : (f : FilePtr) (i : ℕ) (m : Image) → link f i (index_taken m) ≡ link f i m
link-index_taken root i m = refl
link-index_taken (entry b w) i m = refl

-- Where `nblk` is a number of a link, and the `struct File` is neither in the block that comes next
-- nor in the file's index block, `save_block_link` links the block `bno` there. The other links, the
-- size, and the links behind an index block that was there stay; one block is used for the index
-- block where the file needs one and has none.
pub save_block_link-link :
    (f : FilePtr) (nblk bno : ℕ) (m : Image)
    → nblk < nindirect
    → Apart f m.nextbno
    → Apart f (word f indirect_at m)
    → (m' : Image) × (save_block_link f nblk bno m ≡ ok tt m') × Linked f nblk bno m m'
unfolding save_block_link next_block
save_block_link-link f nblk bno m h fresh a =
    let bound : ltb nblk nindirect ≡ true = ground arith in
    elim (Bool-cases (ltb nblk ndirect)) [
      | inl d ↦ (
        set_word f (direct_at nblk) bno m,
        rw (bound, d),
        direct_link f nblk bno m (ground arith) a,
      )
      | inr d ↦ elim (Bool-cases (word f indirect_at m == 0)) [
        | inl z ↦
            let m1 : Image = index_taken m in
            let m2 : Image = set_word f indirect_at m.nextbno m1 in
            let at_44 : word f indirect_at m2 ≡ m.nextbno =
              word-set_word f indirect_at indirect_at m.nextbno m1 in
            let (here, others, words) =
              indirect_link f nblk bno m.nextbno m2 (ground arith) at_44 fresh in
            let at_least : leb ndirect nblk ≡ true = ground arith in
            let none_there : word f indirect_at m ≡ 0 = ground arith in
            (
              record m2 { words = update_word m2.words m.nextbno nblk bno },
              rw (bound, d) (rw z (rw at_44)),
              record {
                here = here;
                others = λ i n g.
                    others i n
                    ∙ new_index f i m.nextbno m1 (λ l e. g l none_there)
                        (word-index_taken f indirect_at m ∙ none_there)
                    ∙ link-index_taken f i m;
                size =
                    words size_at
                    ∙ word-set_other f indirect_at size_at m.nextbno m1 (λ p. omega arith)
                    ∙ word-index_taken f size_at m;
                next = rw (z, at_least) (nextbno-set_word f indirect_at m.nextbno m1);
              },
            )
        | inr z ↦
            let (here, others, words) =
              indirect_link f nblk bno (word f indirect_at m) m (ground arith) refl a in
            let at_least : leb ndirect nblk ≡ true = ground arith in
            (
              record m { words = update_word m.words (word f indirect_at m) nblk bno },
              rw (bound, d) (rw z),
              record {
                here = here;
                others = λ i n _. others i n;
                size = words size_at;
                next = rw (z, at_least);
              },
            )
      ]
    ]
