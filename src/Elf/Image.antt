-- ===== src/Elf/Image.antt =====
-- The image that `elf_load_seg` of lib/elfloader.c builds.
use buaa_os.Base.{
  ℕ, zero, suc, ◌+◌, ◌-◌, ◌/◌, ◌%◌, ◌^◌, ◌≤◌, ◌<◌, ◌≡◌, ◌⊎◌, refl, ap, ◌∙◌, min, true, false, ◌&&◌,
  Option, none, some, ltb, leb, ◌==◌, if◌then◌else◌, arith, Bool-cases, inl, inr,
}
use buaa_os.Run.{ok, Cmd}
use buaa_os.Elf.{Phdr, seg_perm, load_bytes, load_zeros, load_first, elf_load_seg}

-- An address space, by bytes; `none` where nothing is mapped.
abbrev pub Memory : Type 0
Memory = ℕ → Option ℕ

-- The segment's bytes are `bin`. Byte `o` of a page that a callback fills.
abbrev content : (ℕ → ℕ) → ℕ → Option ℕ → ℕ → ℕ → ℕ
content bin off none len o = 0
content bin off (some i) len o = if leb off o && ltb o (off + len) then bin (i + (o - off)) else 0

-- A callback that maps a new page of zeros with the bytes copied, as
-- load_icode_mapper of kern/env.c does while there is memory.
abbrev pub map_into : (ℕ → ℕ) → ℕ → ℕ → ℕ → Option ℕ → ℕ → Cmd Memory (Unit {0})
map_into bin va off perm src len m =
    ok tt (λ a. if a / 4096 == va / 4096 then some (content bin off src len (a % 4096)) else m a)

-- Byte `x` of the segment.
abbrev pub image : (ℕ → ℕ) → ℕ → ℕ → ℕ
image bin size x = if ltb x size then bin x else 0

-- The bytes before `i` are loaded, and lower pages are as they were.
record Loaded (bin : ℕ → ℕ) (va size i : ℕ) (m0 m : Memory) : Type 0 where
  pub bytes : (x : ℕ) → x < i → m (va + x) ≡ some (image bin size x)
  pub below : (a : ℕ) → a / 4096 < va / 4096 → m a ≡ m0 a

module _ (bin : ℕ → ℕ) (va size : ℕ) (m0 : Memory) where
  abbrev paged : ℕ → (ℕ → ℕ) → Memory → Memory
  paged i c m a = if a / 4096 == (va + i) / 4096 then some (c (a % 4096)) else m a

  paged-Loaded :
      (i : ℕ) (c : ℕ → ℕ) (m : Memory)
      → (va + i) % 4096 ≡ 0
      → ((o : ℕ) → o < 4096 → c o ≡ image bin size (i + o))
      → Loaded bin va size i m0 m
      → Loaded bin va size (i + 4096) m0 (paged i c m)
  paged-Loaded i c m start h l = record {
    bytes = λ x k. elim (Bool-cases (ltb x i)) [
      | inl e ↦
          let d : ((va + x) / 4096 == (va + i) / 4096) ≡ false = ground arith in
          rw d (l.bytes x (ground arith))
      | inr e ↦
          let d : ((va + x) / 4096 == (va + i) / 4096) ≡ true = ground arith in
          let at_x : i + (va + x) % 4096 ≡ x = ground arith in
          rw d (ap some (h ((va + x) % 4096) (omega arith) ∙ ap (image bin size) at_x))
    ];
    below =
        λ a k. let d : (a / 4096 == (va + i) / 4096) ≡ false = ground arith in rw d (l.below a k);
  }

  file_content :
      (i o : ℕ)
      → i < size
      → o < 4096
      → content bin 0 (some i) (min (size - i) 4096) o ≡ image bin size (i + o)
  file_content i o h k = elim (Bool-cases (ltb (i + o) size)) [
    | inl e ↦
        let t : (leb 0 o && ltb o (0 + min (size - i) 4096)) ≡ true = ground arith in
        let same : i + (o - 0) ≡ i + o = omega arith in rw (e, t) (ap bin same)
    | inr e ↦
        let t : (leb 0 o && ltb o (0 + min (size - i) 4096)) ≡ false = ground arith in rw (e, t)
  ]

  bytes_step :
      (n i perm : ℕ) (m : Memory)
      → ltb i size ≡ true
      → (va + i) % 2 ^ 32 ≡ va + i
      → load_bytes (map_into bin) (suc n) va perm size i m
        ≡ load_bytes
            (map_into bin)
            n
            va
            perm
            size
            (i + 4096)
            (paged i (content bin 0 (some i) (min (size - i) 4096)) m)
  unfolding load_bytes
  bytes_step n i perm m e wraps = rw e (rw wraps)

  load_bytes-Loaded :
      (n i perm : ℕ) (m : Memory)
      → size ≤ n + i
      → (va + i) % 4096 ≡ 0
      → va + size + 4096 < 2 ^ 32
      → Loaded bin va size i m0 m
      → (i' : ℕ) × (m' : Memory) × (load_bytes (map_into bin) n va perm size i m ≡ ok i' m')
        × (size ≤ i')
        × ((va + i') % 4096 ≡ 0)
        × Loaded bin va size i' m0 m'
  unfolding load_bytes
  load_bytes-Loaded zero i perm m enough start low l = (i, m, refl, omega arith, start, l)
  load_bytes-Loaded (suc n) i perm m enough start low l = elim (Bool-cases (ltb i size)) [
    | inr e ↦ (i, m, rw e, ground arith, start, l)
    | inl e ↦
        let c : ℕ → ℕ = content bin 0 (some i) (min (size - i) 4096) in
        let here : i < size = ground arith in
        let wraps : (va + i) % 2 ^ 32 ≡ va + i = omega arith in
        let (i', m', p, q, r, k) =
          load_bytes-Loaded n (i + 4096) perm (paged i c m) (omega arith) (omega arith) low
            (paged-Loaded i c m start (λ o k. file_content i o here k) l) in
        (i', m', bytes_step n i perm m e wraps ∙ p, q, r, k)
  ]

  zeros_step :
      (n i perm memsz : ℕ) (m : Memory)
      → ltb i memsz ≡ true
      → (va + i) % 2 ^ 32 ≡ va + i
      → load_zeros (map_into bin) (suc n) va perm size memsz i m
        ≡ load_zeros (map_into bin) n va perm size memsz (i + 4096) (paged i (λ _. 0) m)
  unfolding load_zeros
  zeros_step n i perm memsz m e wraps = rw e (rw wraps)

  load_zeros-Loaded :
      (n i perm memsz : ℕ) (m : Memory)
      → memsz ≤ n + i
      → size ≤ i
      → (va + i) % 4096 ≡ 0
      → va + memsz + 4096 < 2 ^ 32
      → Loaded bin va size i m0 m
      → (i' : ℕ) × (m' : Memory) × (load_zeros (map_into bin) n va perm size memsz i m ≡ ok tt m')
        × (memsz ≤ i')
        × Loaded bin va size i' m0 m'
  unfolding load_zeros
  load_zeros-Loaded zero i perm memsz m enough all start low l = (i, m, refl, omega arith, l)
  load_zeros-Loaded (suc n) i perm memsz m enough all start low l =
      elim (Bool-cases (ltb i memsz)) [
        | inr e ↦ (i, m, rw e, ground arith, l)
        | inl e ↦
            let here : i < memsz = ground arith in
            let wraps : (va + i) % 2 ^ 32 ≡ va + i = omega arith in
            let blank : (o : ℕ) → o < 4096 → 0 ≡ image bin size (i + o) =
              λ o k. let d : ltb (i + o) size ≡ false = ground arith in rw d in
            let (i', m', p, q, k) =
              load_zeros-Loaded n (i + 4096) perm memsz (paged i (λ _. 0) m) (omega arith)
                (omega arith) (omega arith) low (paged-Loaded i (λ _. 0) m start blank l) in
            (i', m', zeros_step n i perm memsz m e wraps ∙ p, q, k)
      ]

  abbrev first_page : ℕ → Memory
  first_page off a =
      if a / 4096 == va / 4096
      then some (content bin off (some 0) (4096 - off) (a % 4096))
      else m0 a

  first_byte :
      (off x : ℕ)
      → off ≡ va % 4096
      → 4096 - off ≤ size
      → x < 4096 - off
      → first_page off (va + x) ≡ some (image bin size x)
  first_byte off x e full h =
      let page : ((va + x) / 4096 == va / 4096) ≡ true = ground arith in
      let within : (leb off ((va + x) % 4096) && ltb ((va + x) % 4096) (off + (4096 - off)))
          ≡ true =
        ground arith in
      let given : ltb x size ≡ true = ground arith in
      let same : 0 + ((va + x) % 4096 - off) ≡ x = omega arith in
      rw (page, within, given) (ap (λ y. some (bin y)) same)

  load_first-Loaded :
      (perm : ℕ)
      → (va % 4096 ≡ 0) ⊎ (4096 ≤ size + va % 4096)
      → (i : ℕ) × (m : Memory) × (load_first (map_into bin) va perm size m0 ≡ ok i m)
        × ((va + i) % 4096 ≡ 0)
        × Loaded bin va size i m0 m
  load_first-Loaded perm whole = elim (Bool-cases (va % 4096 == 0)) [
    | inl e ↦
        (0, m0, rw e, ground arith, record { bytes = λ x k. ground arith; below = λ a k. refl })
    | inr e ↦
        let off = va % 4096 in
        let full : 4096 ≤ size + off = ground arith in
        let len : min size (4096 - off) ≡ 4096 - off = omega arith in
        (
          4096 - off,
          first_page off,
          rw (e, len),
          omega arith,
          record {
            bytes = λ x k. first_byte off x refl (omega arith) k;
            below = λ a k. let d : (a / 4096 == va / 4096) ≡ false = ground arith in rw d;
          },
        )
  ]

-- A segment whose file part reaches the end of its first page, if it does not start with a page,
-- and that fits in the address space: `elf_load_seg` succeeds, its bytes are loaded in order with
-- zeros behind them up to its size in memory, and the pages below it are not touched.
pub elf_load_seg-image :
    (bin : ℕ → ℕ) (ph : Phdr) (m0 : Memory)
    → (ph.p_vaddr % 4096 ≡ 0) ⊎ (4096 ≤ ph.p_filesz + ph.p_vaddr % 4096)
    → ph.p_vaddr + ph.p_memsz + 4096 < 2 ^ 32
    → ph.p_filesz ≤ ph.p_memsz
    → (m : Memory) × (elf_load_seg (map_into bin) ph m0 ≡ ok tt m)
      × ((x : ℕ) → x < ph.p_memsz → m (ph.p_vaddr + x) ≡ some (image bin ph.p_filesz x))
      × ((a : ℕ) → a / 4096 < ph.p_vaddr / 4096 → m a ≡ m0 a)
unfolding elf_load_seg
elf_load_seg-image bin ph m0 whole low fits =
    let va = ph.p_vaddr in
    let size = ph.p_filesz in
    let perm = seg_perm ph.p_flags in
    let (i1, m1, p1, a1, l1) = load_first-Loaded bin va size m0 perm whole in
    let (i2, m2, p2, all, a2, l2) =
      load_bytes-Loaded bin va size m0 size i1 perm m1 (omega arith) a1 (omega arith) l1 in
    let (i3, m3, p3, done, l3) =
      load_zeros-Loaded bin va size m0 ph.p_memsz i2 perm ph.p_memsz m2 (omega arith) all a2 low
        l2 in
    (m3, rw p1 (rw p2 p3), (λ x h. l3.bytes x (omega arith)), l3.below)
