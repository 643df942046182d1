-- ===== src/Vm/Walk.antt =====
-- Page table entries of kern/pmap.c: the words that are written, and the walk to them.
use buaa_os.Base.{
  ℕ, ◌^◌, ◌≤◌, ◌<◌, ◌≡◌, ◌≢◌, refl, bit_or, Bool, true, false, Option, none, some, if◌then◌else◌,
  arith, has, inl, inr, Bool-cases, ◌∙◌, bit, bit-bit_or, bit_and-two_pow, bit_or-page, bit-le-one,
}
use buaa_os.Run.{ok}
use buaa_os.Vm.{
  Vm, Slot, pte_v, pte_of, page2pa, ppn, pdx, ptx, pte_addr, valid, table_slot, pgdir_walk,
  page_lookup, lookup_slot, pa2page,
}
use buaa_os.Vm.Pages.{kaddr-ok, page2pa_small}

-- A word is valid exactly when its bit 9 is set.
pub valid_of_bit : (e : ℕ) → bit 9 e ≡ 1 → valid e ≡ true
valid_of_bit e h = ground (arith, bit_and-two_pow 9 e)

pub valid-bit_or : (a : ℕ) → valid (bit_or a pte_v) ≡ true
valid-bit_or a =
    valid_of_bit (bit_or a pte_v) (omega (arith, bit-bit_or 9 a 512, bit-le-one 9 a, set))
  where
    set : bit 9 512 ≡ 1
    set = refl

pub ppn-pte_of : (pp perm n : ℕ) → pp < n → n ≤ 2 ^ 20 → perm < 4096 → ppn (pte_of pp perm) ≡ pp
ppn-pte_of pp perm n h k l =
    bit_or-page (bit_or (page2pa pp) perm) 512 (omega arith)
    ∙ bit_or-page (page2pa pp) perm l
    ∙ page2pa_small pp n h k

pub pa2page-ok : (pa : ℕ) (s : Vm) → ppn pa < s.npage → pa2page pa s ≡ ok (ppn pa) s
unfolding pa2page
pa2page-ok pa s h = ground arith

-- The page table word for `va`, where there is a valid one.
unfoldable pub entry : Vm → ℕ → ℕ → Option ℕ
entry s pgdir va =
    let pde = s.mem pgdir (pdx va) in
    let pte = s.mem (ppn pde) (ptx va) in
    if valid pde then (if valid pte then some pte else none) else none

-- The path to `va` is sound: a valid directory word names a page table that is a page of its own,
-- and a valid word in it names a page that is referenced.
pub record PathOk (s : Vm) (pgdir va : ℕ) : Type 0 where
  pub dir_used : has pgdir s.page_free_list ≡ false
  pub table_below : valid (s.mem pgdir (pdx va)) ≡ true → ppn (s.mem pgdir (pdx va)) < s.npage
  pub table_ne : valid (s.mem pgdir (pdx va)) ≡ true → ppn (s.mem pgdir (pdx va)) ≢ pgdir
  pub page_below : (pte : ℕ) → entry s pgdir va ≡ some pte → ppn pte < s.npage
  pub page_ref : (pte : ℕ) → entry s pgdir va ≡ some pte → s.pp_ref (ppn pte) ≢ 0

ppn-pte_addr : (e : ℕ) → ppn (pte_addr e) ≡ ppn e
ppn-pte_addr e = omega arith

pub table_slot-ok :
    (s : Vm) (pde va : ℕ) → ppn pde < s.npage → table_slot pde va s ≡ ok (some (ppn pde, ptx va)) s
unfolding table_slot
table_slot-ok s pde va h =
    rw (kaddr-ok (pte_addr pde) s (omega (arith, ppn-pte_addr pde))) (rw (ppn-pte_addr pde))

module _ (s : Vm) (pgdir va : ℕ) where
  pub pgdir_walk-hit :
      (create : Bool)
      → valid (s.mem pgdir (pdx va)) ≡ true
      → ppn (s.mem pgdir (pdx va)) < s.npage
      → pgdir_walk pgdir va create s ≡ ok (some (ppn (s.mem pgdir (pdx va)), ptx va)) s
  unfolding pgdir_walk
  pgdir_walk-hit create v h = rw v (table_slot-ok s (s.mem pgdir (pdx va)) va h)

  pub pgdir_walk-miss :
      valid (s.mem pgdir (pdx va)) ≡ false → pgdir_walk pgdir va false s ≡ ok none s
  unfolding pgdir_walk
  pgdir_walk-miss v = rw v

  -- What `page_lookup` returns, given the word for `va`.
  abbrev pub found : Option ℕ → Option (ℕ × Slot)
  found none = none
  found (some pte) = some (ppn pte, (ppn (s.mem pgdir (pdx va)), ptx va))

  -- On a sound path `page_lookup` returns the page and the place of its word, and changes nothing.
  pub page_lookup_lem : PathOk s pgdir va → page_lookup pgdir va s ≡ ok (found (entry s pgdir va)) s
  unfolding page_lookup lookup_slot entry
  page_lookup_lem path = elim (Bool-cases (valid (s.mem pgdir (pdx va)))) [
    | inr miss ↦ rw (pgdir_walk-miss miss) (rw miss)
    | inl hit ↦
        rw (pgdir_walk-hit false hit (path.table_below hit))
          (elim (Bool-cases (valid (s.mem (ppn (s.mem pgdir (pdx va))) (ptx va)))) [
            | inl v ↦
                rw (hit, v)
                  (rw (
                    pa2page-ok (s.mem (ppn (s.mem pgdir (pdx va))) (ptx va)) s
                      (path.page_below _ (rw (hit, v)))))
            | inr v ↦ rw (hit, v)
          ])
  ]

none-some : {x : ℕ} → none ≡ some x → ⊥
none-some h = cc

-- The entry is found in the table of a valid directory word, and nowhere else.
pub entry-some :
    (s : Vm) (pgdir va : ℕ) {pte : ℕ}
    → entry s pgdir va ≡ some pte
    → (valid (s.mem pgdir (pdx va)) ≡ true)
      × (valid pte ≡ true)
      × (s.mem (ppn (s.mem pgdir (pdx va))) (ptx va) ≡ pte)
unfolding entry
entry-some s pgdir va h = elim (Bool-cases (valid (s.mem pgdir (pdx va)))) [
  | inr miss ↦ absurd (none-some (rw miss at h))
  | inl hit ↦ elim (Bool-cases (valid (s.mem (ppn (s.mem pgdir (pdx va))) (ptx va)))) [
    | inr v ↦ absurd (none-some (rw (hit, v) at h))
    | inl v ↦
        let e : some (s.mem (ppn (s.mem pgdir (pdx va))) (ptx va)) ≡ some _ = rw (hit, v) at h in
        (hit, ground arith, ground arith)
  ]
]

pub entry_intro :
    (s : Vm) (pgdir va w pte : ℕ)
    → s.mem pgdir (pdx va) ≡ w
    → valid w ≡ true
    → s.mem (ppn w) (ptx va) ≡ pte
    → valid pte ≡ true
    → entry s pgdir va ≡ some pte
unfolding entry
entry_intro s pgdir va w pte e v f x = rw (e, v) (rw (f, x))

pub entry-miss :
    (s : Vm) (pgdir va : ℕ) → valid (s.mem pgdir (pdx va)) ≡ false → entry s pgdir va ≡ none
unfolding entry
entry-miss s pgdir va v = rw v

pub entry-invalid :
    (s : Vm) (pgdir va : ℕ)
    → valid (s.mem pgdir (pdx va)) ≡ true
    → valid (s.mem (ppn (s.mem pgdir (pdx va))) (ptx va)) ≡ false
    → entry s pgdir va ≡ none
unfolding entry
entry-invalid s pgdir va v w = rw (v, w)
