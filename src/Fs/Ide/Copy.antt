-- ===== src/Fs/Ide/Copy.antt =====
-- What `ide_read` and `ide_write` of fs/ide.c copy.
use buaa_os.Base.{
  ℕ, zero, suc, ◌+◌, ◌-◌, ◌*◌, ◌/◌, ◌%◌, ◌≡◌, ap, ◌∙◌, fun_ext, ap₂, true, false, ◌&&◌, ltb, leb,
  ◌==◌, if◌then◌else◌, arith, Bool-cases, inl, inr,
}
use buaa_os.Run.{ok}
use buaa_os.Fs.{Fs}
use buaa_os.Fs.Ide.{read_sector, read_sectors, ide_read, write_sector, write_sectors, ide_write}

-- The drive reports no failure.
abbrev pub Working : Fs → Type 0
Working s = (q : ℕ) → s.bad q ≡ false

-- The page after `n` sectors from `sec` on were copied to its sectors from `i` on.
abbrev pub filled : ℕ → ℕ → ℕ → ℕ → Fs → ℕ → ℕ → ℕ
filled n sec b i s p w =
    if (p == b) && (leb (i * 128) w && ltb w ((i + n) * 128))
    then s.disk (sec + (w / 128 - i)) (w % 128)
    else s.mem p w

abbrev one_filled : ℕ → ℕ → ℕ → Fs → ℕ → ℕ → ℕ
one_filled sec b i s p w =
    if (p == b) && (leb (i * 128) w && ltb w ((i + 1) * 128))
    then s.disk sec (w - i * 128)
    else s.mem p w

none_filled : (sec b i : ℕ) (s : Fs) (p w : ℕ) → s.mem p w ≡ filled 0 sec b i s p w
none_filled sec b i s p w =
    let no : ((p == b) && (leb (i * 128) w && ltb w ((i + 0) * 128))) ≡ false = ground arith in
    rw no

more_filled :
    (n sec b i : ℕ) (s : Fs) (p w : ℕ)
    → filled n (sec + 1) b (i + 1) (record s { mem = one_filled sec b i s }) p w
      ≡ filled (suc n) sec b i s p w
more_filled n sec b i s p w =
    elim (Bool-cases ((p == b) && (leb ((i + 1) * 128) w && ltb w ((i + 1 + n) * 128)))) [
      | inl t ↦
          let u : ((p == b) && (leb (i * 128) w && ltb w ((i + suc n) * 128))) ≡ true =
            ground arith in
          let v : sec + 1 + (w / 128 - (i + 1)) ≡ sec + (w / 128 - i) = ground arith in
          rw (t, u) (ap (λ (q : ℕ). s.disk q (w % 128)) v)
      | inr t ↦ rw t (elim (Bool-cases ((p == b) && (leb (i * 128) w && ltb w ((i + 1) * 128)))) [
        | inl u ↦
            let v : ((p == b) && (leb (i * 128) w && ltb w ((i + suc n) * 128))) ≡ true =
              ground arith in
            let q : sec ≡ sec + (w / 128 - i) = ground arith in
            let r : w - i * 128 ≡ w % 128 = ground arith in rw (u, v) (ap₂ s.disk q r)
        | inr u ↦
            let v : ((p == b) && (leb (i * 128) w && ltb w ((i + suc n) * 128))) ≡ false =
              ground arith in
            rw (u, v)
      ])
    ]

read_sectors-ok :
    (n sec b i : ℕ) (s : Fs)
    → Working s
    → read_sectors n sec b i s ≡ ok tt (record s { mem = filled n sec b i s })
unfolding read_sectors read_sector
read_sectors-ok zero sec b i s works =
    ap (λ (m : ℕ → ℕ → ℕ). ok tt (record s { mem = m }))
      (fun_ext λ p. fun_ext λ w. none_filled sec b i s p w)
read_sectors-ok (suc n) sec b i s works = rw (works sec) (
    read_sectors-ok n (sec + 1) b (i + 1) (record s { mem = one_filled sec b i s }) works
    ∙ ap (λ (m : ℕ → ℕ → ℕ). ok tt (record s { mem = m }))
        (fun_ext λ p. fun_ext λ w. more_filled n sec b i s p w))

-- Sectors `sec` to `sec + n - 1` of the disk after they were written from page `b`, from its
-- sector `i` on.
abbrev pub saved : ℕ → ℕ → ℕ → ℕ → Fs → ℕ → ℕ → ℕ
saved n sec b i s q w =
    if (leb sec q && ltb q (sec + n)) && ltb w 128
    then s.mem b ((i + (q - sec)) * 128 + w)
    else s.disk q w

abbrev one_saved : ℕ → ℕ → ℕ → Fs → ℕ → ℕ → ℕ
one_saved sec b i s q w = if (q == sec) && ltb w 128 then s.mem b (i * 128 + w) else s.disk q w

none_saved : (sec b i : ℕ) (s : Fs) (q w : ℕ) → s.disk q w ≡ saved 0 sec b i s q w
none_saved sec b i s q w =
    let no : ((leb sec q && ltb q (sec + 0)) && ltb w 128) ≡ false = ground arith in rw no

more_saved :
    (n sec b i : ℕ) (s : Fs) (q w : ℕ)
    → saved n (sec + 1) b (i + 1) (record s { disk = one_saved sec b i s }) q w
      ≡ saved (suc n) sec b i s q w
more_saved n sec b i s q w =
    elim (Bool-cases ((leb (sec + 1) q && ltb q (sec + 1 + n)) && ltb w 128)) [
      | inl t ↦
          let u : ((leb sec q && ltb q (sec + suc n)) && ltb w 128) ≡ true = ground arith in
          let v : (i + 1 + (q - (sec + 1))) * 128 + w ≡ (i + (q - sec)) * 128 + w = ground arith in
          rw (t, u) (ap (s.mem b) v)
      | inr t ↦ rw t (elim (Bool-cases ((q == sec) && ltb w 128)) [
        | inl u ↦
            let v : ((leb sec q && ltb q (sec + suc n)) && ltb w 128) ≡ true = ground arith in
            let r : i * 128 + w ≡ (i + (q - sec)) * 128 + w = ground arith in
            rw (u, v) (ap (s.mem b) r)
        | inr u ↦
            let v : ((leb sec q && ltb q (sec + suc n)) && ltb w 128) ≡ false = ground arith in
            rw (u, v)
      ])
    ]

write_sectors-ok :
    (n sec b i : ℕ) (s : Fs)
    → Working s
    → write_sectors n sec b i s ≡ ok tt (record s { disk = saved n sec b i s })
unfolding write_sectors write_sector
write_sectors-ok zero sec b i s works =
    ap (λ (m : ℕ → ℕ → ℕ). ok tt (record s { disk = m }))
      (fun_ext λ q. fun_ext λ w. none_saved sec b i s q w)
write_sectors-ok (suc n) sec b i s works = rw (works sec) (
    write_sectors-ok n (sec + 1) b (i + 1) (record s { disk = one_saved sec b i s }) works
    ∙ ap (λ (m : ℕ → ℕ → ℕ). ok tt (record s { disk = m }))
        (fun_ext λ q. fun_ext λ w. more_saved n sec b i s q w))

pub ide_read-ok :
    (sec b n : ℕ) (s : Fs)
    → Working s
    → ide_read sec b n s ≡ ok tt (record s { mem = filled n sec b 0 s })
unfolding ide_read
ide_read-ok sec b n s works = read_sectors-ok n sec b 0 s works

pub ide_write-ok :
    (sec b n : ℕ) (s : Fs)
    → Working s
    → ide_write sec b n s ≡ ok tt (record s { disk = saved n sec b 0 s })
unfolding ide_write
ide_write-ok sec b n s works = write_sectors-ok n sec b 0 s works
