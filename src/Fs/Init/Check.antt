-- ===== src/Fs/Init/Check.antt =====
-- `check_write_block` of fs/fs.c leaves the super block as it was.
use buaa_os.Base.{
  ℕ, ◌+◌, ◌-◌, ◌*◌, ◌/◌, ◌%◌, ◌<◌, ◌≡◌, ◌≢◌, refl, ap, ◌∙◌, sym, Bool, true, false, ◌||◌, ◌==◌,
  if◌then◌else◌, arith, Bool-cases, inl, inr, ==-ne,
}
use buaa_os.Run.{Run, ok, and_then, Cmd}
use buaa_os.Vm.{update}
use buaa_os.Fs.{Fs}
use buaa_os.Fs.Ide.Copy.{Working, saved}
use buaa_os.Fs.Block.{read_block, write_block}
use buaa_os.Fs.Block.Bits.{write_block-ok, saved-inside, saved-outside}
use buaa_os.Fs.Block.Cache.{fetched, read_block-miss, fetched-words, fetched-others}
use buaa_os.Fs.Dir.{name_is, put_name}
use buaa_os.Fs.Dir.Names.{Name, with_name, put_name-ok, name_is-with_name, name_is-same}
use buaa_os.Fs.Init.{oops, smash, reload, restore, check_write_block}

pub and_then-ok :
    {A B : Type 0} (r : Run Fs A) (a : A) (s : Fs) (k : A → Cmd Fs B)
    → r ≡ ok a s
    → and_then r k ≡ k a s
and_then-ok r a s k e = rw e

-- What the disk holds in word `w` of block `b`.
abbrev pub on_disk : Fs → ℕ → ℕ → ℕ
on_disk s b w = s.disk (b * 8 + w / 128) (w % 128)

-- The pointers, the drive and the pages are the same but for block 0, or not at all.
record Smashed (s s' : Fs) : Type 0 where
  pub backup : (w : ℕ) → w < 1024 → s'.mem 0 w ≡ s.mem 1 w
  pub written : (w : ℕ) → w < 1024 → on_disk s' 1 w ≡ s'.mem 1 w
  pub name : name_is s' (1, 0) 0 oops ≡ true
  pub disk : (q w : ℕ) → q / 8 ≢ 1 → s'.disk q w ≡ s.disk q w
  pub mapped : s'.mapped ≡ update s.mapped 0 true
  pub super : s'.super ≡ s.super
  pub has_bitmap : s'.has_bitmap ≡ s.has_bitmap
  pub bad : s'.bad ≡ s.bad
  pub pages : s'.free_pages ≡ s.free_pages - 1

oops-Name : Name oops
oops-Name = (
  omega arith,
  omega arith,
  (
    omega arith,
    omega arith,
    (
      omega arith,
      omega arith,
      (omega arith, omega arith, (omega arith, omega arith, (omega arith, omega arith, tt))),
    ),
  ),
)

smash-Smashed :
    (s : Fs)
    → Working s
    → s.super ≡ false
    → s.has_bitmap ≡ false
    → s.mapped 0 ≡ false
    → s.mapped 1 ≡ true
    → 0 < s.free_pages
    → (s' : Fs) × (smash s ≡ ok tt s') × Smashed s s'
unfolding smash
smash-Smashed s works no_super no_bitmap m0 m1 room =
    let s1 : Fs = fetched 0 s in
    let s2 : Fs = record s1 { mem = update s1.mem 0 (s1.mem 1) } in
    let s3 : Fs = with_name 1 0 0 oops s2 in
    let s4 : Fs = record s3 { disk = saved 8 8 1 0 s3 } in
    let e1 : read_block 0 s ≡ ok true s1 =
      read_block-miss 0 s works (rw no_super) (rw no_bitmap) m0 room in
    let e4 : write_block 1 s3 ≡ ok tt s4 = write_block-ok 1 s3 works m1 in
    (
      s4,
      and_then-ok (read_block 0 s) true s1 _ e1
          ∙ and_then-ok (put_name (1, 0) 0 oops s2) tt s3 _ (put_name-ok 1 0 0 oops s2)
          ∙ e4,
      record {
        backup = λ w h. refl;
        written = λ w h. saved-inside 1 w s3 h;
        name = name_is-with_name 1 0 0 oops s2 oops-Name;
        disk = λ q w h. saved-outside 1 q w s3 h;
        mapped = refl;
        super = refl;
        has_bitmap = refl;
        bad = refl;
        pages = refl;
      },
    )

record Reloaded (s s' : Fs) : Type 0 where
  pub mem : (p w : ℕ) → p ≢ 1 → s'.mem p w ≡ s.mem p w
  pub disk : s'.disk ≡ s.disk
  pub mapped : (p : ℕ) → s'.mapped p ≡ (if p == 1 then true else s.mapped p)
  pub super : s'.super ≡ s.super
  pub has_bitmap : s'.has_bitmap ≡ s.has_bitmap
  pub bad : s'.bad ≡ s.bad
  pub pages : s'.free_pages ≡ s.free_pages

reload-Reloaded :
    (s : Fs)
    → Working s
    → s.super ≡ false
    → s.has_bitmap ≡ false
    → s.mapped 1 ≡ true
    → ((w : ℕ) → w < 1024 → on_disk s 1 w ≡ s.mem 1 w)
    → name_is s (1, 0) 0 oops ≡ true
    → (s' : Fs) × (reload s ≡ ok tt s') × Reloaded s s'
unfolding reload
reload-Reloaded s works no_super no_bitmap m1 saved_1 named =
    let s1 : Fs = record s {
      mapped = update s.mapped 1 false;
      dirty = update s.dirty 1 false;
      mem = update s.mem 1 (λ _. 0);
      free_pages = s.free_pages + 1;
    } in
    let s2 : Fs = fetched 1 s1 in
    let e : read_block 1 s1 ≡ ok true s2 =
      read_block-miss 1 s1 works (rw no_super) (rw no_bitmap) refl (omega arith) in
    let back : name_is s2 (1, 0) 0 oops ≡ true =
      name_is-same 1 0 0 oops s s2
        (λ j h. fetched-words 1 (0 + j / 4) s1 (omega arith) ∙ saved_1 (0 + j / 4) (omega arith))
      ∙ named in
    (
      s2,
      rw m1 (and_then-ok (read_block 1 s1) true s2 _ e ∙ rw back),
      record {
        mem = λ p w h. fetched-others 1 p w s1 h ∙ rw (==-ne p 1 h);
        disk = refl;
        mapped = λ p. ground arith;
        super = refl;
        has_bitmap = refl;
        bad = refl;
        pages = omega arith;
      },
    )

record Restored (s s' : Fs) : Type 0 where
  pub page : (w : ℕ) → s'.mem 1 w ≡ s.mem 0 w
  pub written : (w : ℕ) → w < 1024 → on_disk s' 1 w ≡ s.mem 0 w
  pub disk : (q w : ℕ) → q / 8 ≢ 1 → s'.disk q w ≡ s.disk q w
  pub mapped : s'.mapped ≡ s.mapped
  pub has_bitmap : s'.has_bitmap ≡ s.has_bitmap
  pub bad : s'.bad ≡ s.bad
  pub pages : s'.free_pages ≡ s.free_pages

restore-Restored :
    (s : Fs) → Working s → s.mapped 1 ≡ true → (s' : Fs) × (restore s ≡ ok tt s') × Restored s s'
unfolding restore
restore-Restored s works m1 =
    let s1 : Fs = record s { mem = update s.mem 1 (s.mem 0) } in
    (
      record s1 { disk = saved 8 8 1 0 s1 },
      write_block-ok 1 s1 works m1,
      record {
        page = λ w. refl;
        written = λ w h. saved-inside 1 w s1 h;
        disk = λ q w h. saved-outside 1 q w s1 h;
        mapped = refl;
        has_bitmap = refl;
        bad = refl;
        pages = refl;
      },
    )

-- The super block is on the disk and in the cache as before, and page 0 is used.
pub record Checked (s s' : Fs) : Type 0 where
  pub page : (w : ℕ) → w < 1024 → s'.mem 1 w ≡ s.mem 1 w
  pub disk : (b w : ℕ) → w < 1024 → on_disk s' b w ≡ on_disk s b w
  pub mapped : (p : ℕ) → s'.mapped p ≡ (if (p == 0) || (p == 1) then true else s.mapped p)
  pub super : s'.super ≡ true
  pub has_bitmap : s'.has_bitmap ≡ s.has_bitmap
  pub bad : s'.bad ≡ s.bad
  pub pages : s'.free_pages ≡ s.free_pages - 1

three_steps :
    (s s1 s2 s3 : Fs)
    → ((w : ℕ) → w < 1024 → on_disk s 1 w ≡ s.mem 1 w)
    → Smashed (record s { super = false }) s1
    → Reloaded s1 s2
    → Restored s2 s3
    → Checked s (record s3 { super = true })
three_steps s s1 s2 s3 clean a b c = record {
  page = λ w h. c.page w ∙ b.mem 0 w (λ e. omega arith) ∙ a.backup w h;
  disk = λ p w h. elim (Bool-cases (p == 1)) [
    | inl e ↦
        let one : p ≡ 1 = ground arith in
        rw one (c.written w h ∙ b.mem 0 w (λ e. omega arith) ∙ a.backup w h ∙ sym (clean w h))
    | inr e ↦
        let other : (p * 8 + w / 128) / 8 ≢ 1 = λ f. ground arith in
        c.disk _ _ other
        ∙ ap (λ (d : ℕ → ℕ → ℕ). d (p * 8 + w / 128) (w % 128)) b.disk
        ∙ a.disk _ _ other
  ];
  mapped = λ p.
      ap (λ (m : ℕ → Bool). m p) c.mapped
      ∙ b.mapped p
      ∙ ap (λ (m : ℕ → Bool). if p == 1 then true else m p) a.mapped
      ∙ ground arith;
  super = refl;
  has_bitmap = c.has_bitmap ∙ b.has_bitmap ∙ a.has_bitmap;
  bad = c.bad ∙ b.bad ∙ a.bad;
  pages = c.pages ∙ b.pages ∙ a.pages;
}

pub check_write_block-Checked :
    (s : Fs)
    → Working s
    → s.has_bitmap ≡ false
    → s.mapped 0 ≡ false
    → s.mapped 1 ≡ true
    → 0 < s.free_pages
    → ((w : ℕ) → w < 1024 → on_disk s 1 w ≡ s.mem 1 w)
    → (s' : Fs) × (check_write_block s ≡ ok tt s') × Checked s s'
unfolding check_write_block
check_write_block-Checked s works no_bitmap m0 m1 room clean =
    let (s1, e1, a) = smash-Smashed (record s { super = false }) works refl no_bitmap m0 m1 room in
    let works1 : Working s1 = λ q. rw a.bad (works q) in
    let mapped1 : s1.mapped 1 ≡ true = ap (λ (m : ℕ → Bool). m 1) a.mapped ∙ m1 in
    let (s2, e2, b) =
      reload-Reloaded s1 works1 a.super (a.has_bitmap ∙ no_bitmap) mapped1 a.written a.name in
    let (s3, e3, c) = restore-Restored s2 (λ q. rw b.bad (works1 q)) (b.mapped 1) in
    (
      record s3 { super = true },
      and_then-ok (smash (record s { super = false })) tt s1 _ e1
          ∙ and_then-ok (reload s1) tt s2 _ e2
          ∙ and_then-ok (restore s2) tt s3 _ e3,
      three_steps s s1 s2 s3 clean a b c,
    )
