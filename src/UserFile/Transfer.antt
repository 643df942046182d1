-- ===== src/UserFile/Transfer.antt =====
-- What `file_write` puts into a file, `file_read` gets out of it (user/lib/file.c).
use buaa_os.Base.{
  ℕ, zero, suc, ◌+◌, ◌-◌, ◌*◌, ◌/◌, ◌%◌, ◌^◌, ◌≤◌, ◌<◌, ◌≡◌, refl, ap, ◌∙◌, min, false, List, [],
  ◌∷◌, ltb, ◌==◌, length, arith, Bool-cases, inl, inr, ==-refl,
}
use buaa_os.Run.{ok, and_then, pure, ◌>>=◌}
use buaa_os.Vm.{update}
use buaa_os.UserFile.{
  page_byte, DataPage, absent, own, Client, shared, with_mem, load_from, copy_out, copy_in,
  file_size, file_read, file_write, maxfilesize,
}
use buaa_os.UserFile.Bytes.{data_byte, set_data_byte, set_data_bytes, data_byte-set_data_byte}

-- The data of `fd` is in the blocks `block 0` to `block last`, all different.
pub record Spread (c : Client) (fd : ℕ) (block : ℕ → ℕ) (last : ℕ) : Type 0 where
  pub placed : (p : ℕ) → p ≤ last → c.data_pages fd p ≡ shared (block p)
  pub distinct : (p q : ℕ) → p ≤ last → q ≤ last → block p ≡ block q → p ≡ q

-- Each is a byte.
abbrev pub Bytes : List ℕ → Type 0
Bytes [] = Unit
Bytes (v ∷ vs) = (v < 256) × Bytes vs

module _ (c : Client) (fd last : ℕ) (block : ℕ → ℕ) (sp : Spread c fd block last) where
  abbrev stored : (ℕ → ℕ → ℕ) → List ℕ → ℕ → ℕ → ℕ → ℕ
  stored = set_data_bytes block last sp.distinct

  abbrev byte_in : (ℕ → ℕ → ℕ) → ℕ → ℕ
  byte_in = data_byte block last sp.distinct

  copy_in-ok :
      (vs : List ℕ) (off : ℕ) (m : ℕ → ℕ → ℕ)
      → off + length vs ≤ (last + 1) * 4096
      → copy_in fd vs off (with_mem m c) ≡ ok tt (with_mem (stored m vs off) c)
  unfolding copy_in
  copy_in-ok [] off m h = refl
  copy_in-ok (v ∷ vs) off m h =
      rw (sp.placed (off / 4096) (omega arith))
        (copy_in-ok vs (off + 1) (set_data_byte block last sp.distinct m off v) (omega arith))

  stored-before :
      (vs : List ℕ) (off j : ℕ) (m : ℕ → ℕ → ℕ)
      → Bytes vs
      → off + length vs ≤ (last + 1) * 4096
      → j < off
      → byte_in (stored m vs off) j ≡ byte_in m j
  stored-before [] off j m b h k = refl
  stored-before (v ∷ vs) off j m (b, bs) h k =
      stored-before vs (off + 1) j (set_data_byte block last sp.distinct m off v) bs (omega arith)
        (omega arith)
      ∙ data_byte-set_data_byte block last sp.distinct m off j v b (omega arith) (omega arith)
      ∙ (let d : (j == off) ≡ false = ground arith in rw d)

  copy_out-stored :
      (vs : List ℕ) (off : ℕ) (m : ℕ → ℕ → ℕ)
      → Bytes vs
      → off + length vs ≤ (last + 1) * 4096
      → copy_out fd (length vs) off (with_mem (stored m vs off) c)
        ≡ ok vs (with_mem (stored m vs off) c)
  unfolding copy_out
  copy_out-stored [] off m b h = refl
  copy_out-stored (v ∷ vs) off m (b, bs) h =
      let m1 = set_data_byte block last sp.distinct m off v in
      let first : byte_in (stored m1 vs (off + 1)) off ≡ v =
        stored-before vs (off + 1) off m1 bs (omega arith) (omega arith)
        ∙ data_byte-set_data_byte block last sp.distinct m off off v b (omega arith) (omega arith)
        ∙ rw (==-refl off) in
      rw (sp.placed (off / 4096) (omega arith))
        (rw (copy_out-stored vs (off + 1) m1 bs (omega arith)) (rw first))

-- The data of the descriptor is mapped up to the size of the file, to different blocks: bytes that
-- `file_write` stores within the size are all written, and `file_read` at the same offset returns
-- them.
pub file_read-file_write :
    (c : Client) (fd i last : ℕ) (block : ℕ → ℕ) (vs : List ℕ) (off : ℕ)
    → Spread c fd block last
    → Bytes vs
    → off + length vs ≤ file_size i c
    → file_size i c ≤ (last + 1) * 4096
    → file_size i c ≤ maxfilesize
    → (c' : Client) × (file_write fd i vs off c ≡ ok (length vs) c')
      × (file_read fd i (length vs) off c' ≡ ok vs c')
unfolding file_write file_read
file_read-file_write c fd i last block vs off sp b inside room low =
    let whole : (off + length vs) % 2 ^ 32 ≡ off + length vs = omega arith in
    let fits : ltb maxfilesize (off + length vs) ≡ false = ground arith in
    let grown : ltb (file_size i c) (off + length vs) ≡ false = ground arith in
    let there : ltb (file_size i c) off ≡ false = ground arith in
    let m = c.serv.fs.mem in
    (
      with_mem (set_data_bytes block last sp.distinct m vs off) c,
      rw whole (rw (fits, grown) (rw (copy_in-ok c fd last block sp vs off m (omega arith)))),
      rw whole (rw (there, grown) (copy_out-stored c fd last block sp vs off m b (omega arith))),
    )

copy_out-length :
    (n fd off : ℕ) (c : Client)
    → (vs : List ℕ) × (c' : Client) × (copy_out fd n off c ≡ ok vs c') × (length vs ≡ n)
unfolding copy_out
copy_out-length zero fd off c = ([], c, refl, refl)
copy_out-length (suc n) fd off c =
    loaded (c.data_pages fd (off / 4096)) (copy_out-length n fd (off + 1))
  where
    loaded :
        (page : DataPage)
        → ((d : Client)
            → (vs : List ℕ) × (c' : Client) × (copy_out fd n (off + 1) d ≡ ok vs c')
              × (length vs ≡ n))
        → (vs : List ℕ) × (c' : Client) × (and_then
              (load_from fd off page c)
              (λ v. copy_out fd n (off + 1) >>= λ vs. pure (v ∷ vs))
            ≡ ok vs c')
          × (length vs ≡ suc n)
    loaded absent rest =
        let d : Client = record c {
          data_pages =
              update c.data_pages fd (update (c.data_pages fd) (off / 4096) (own (λ _. 0)));
        } in
        let (vs, c', p, q) = rest d in (0 ∷ vs, c', rw p, ap suc q)
    loaded (shared b) rest =
        let (vs, c', p, q) = rest c in
        (page_byte (c.serv.fs.mem b) (off % 4096) ∷ vs, c', rw p, ap suc q)
    loaded (own m) rest =
        let (vs, c', p, q) = rest c in (page_byte m (off % 4096) ∷ vs, c', rw p, ap suc q)

-- Where the end of the range is a word, `file_read` ends normally and returns as many bytes as were
-- asked for, but none behind the end of the file.
pub file_read-length :
    (fd i n off : ℕ) (c : Client)
    → off + n < 2 ^ 32
    → (vs : List ℕ) × (c' : Client) × (file_read fd i n off c ≡ ok vs c')
      × (length vs ≡ min n (file_size i c - off))
unfolding file_read
file_read-length fd i n off c h =
    let size = file_size i c in
    let whole : (off + n) % 2 ^ 32 ≡ off + n = omega arith in
    elim (Bool-cases (ltb size off)) [
      | inl e ↦ ([], c, rw e, ground arith)
      | inr e ↦ elim (Bool-cases (ltb size (off + n))) [
        | inl t ↦
            let (vs, c', p, q) = copy_out-length (size - off) fd off c in
            (vs, c', rw (e, whole) (rw t p), q ∙ ground arith)
        | inr t ↦
            let (vs, c', p, q) = copy_out-length n fd off c in
            (vs, c', rw (e, whole) (rw t p), q ∙ ground arith)
      ]
    ]
