-- ===== src/Serv/Ids.antt =====
-- The ids of open files of fs/serv.c: when they are found, and when they are refused.
use buaa_os.Base.{
  ℕ, zero, suc, ◌+◌, ◌%◌, ◌^◌, ◌≤◌, ◌<◌, ◌≡◌, ◌≢◌, ◌⊎◌, refl, ◌∙◌, subst, true, false, ◌&&◌, ltb,
  leb, ◌==◌, if◌then◌else◌, arith, Bool-cases, inl, inr, ==-refl, ==-ne,
}
use buaa_os.Run.{Run, ok, fail, panic, enter, no_mem, max_open, inval}
use buaa_os.Vm.{update}
use buaa_os.Serv.{Serv, filefd_page, sent_refs, init_entries, serve_init, open_alloc, open_lookup}
use buaa_os.Serv.Grown.{Tidy}
use buaa_os.Serv.Entry.{EntryOutcome, open_alloc-EntryOutcome}
use buaa_os.Serv.Table.{Allocated-Grown}

pub open_lookup-held :
    (i : ℕ) (s : Serv) → Tidy s → i < 1024 → s.refs i ≢ 1 → open_lookup (s.o_fileid i) s ≡ ok i s
unfolding open_lookup
open_lookup-held i s t low n =
    let (p, q) = t i low in rw p (rw (==-ne (s.refs i) 1 n, ==-refl (s.o_fileid i)))

open_lookup-stale :
    (i id : ℕ) (s : Serv) → id % 1024 ≡ i → s.o_fileid i ≢ id → open_lookup id s ≡ fail inval s
unfolding open_lookup
open_lookup-stale i id s p n = rw p (
    rw (==-ne (s.o_fileid i) id n)
      (elim (Bool-cases (s.refs i == 1)) [ inl e ↦ rw e | inr e ↦ rw e ]))

open_lookup-alone :
    (i : ℕ) (s : Serv)
    → Tidy s
    → i < 1024
    → s.refs i ≡ 1
    → open_lookup (s.o_fileid i) s ≡ fail inval s
unfolding open_lookup
open_lookup-alone i s t low n = let (p, q) = t i low in rw p (rw n refl)

-- The Filefd page of entry `i` was mapped once more.
abbrev pub mapped_more : ℕ → Serv → Serv
mapped_more i s = record s { refs = sent_refs (filefd_page i) s.refs }

-- The outcomes of `open_alloc` and what `open_lookup` says of the ids.
abbrev pub IdOutcome : Serv → Run Serv ℕ → Type 0
IdOutcome s (ok i s') =
    (i < 1024)
    × (open_lookup (s'.o_fileid i) s' ≡ fail inval s')
    × (open_lookup (s'.o_fileid i) (mapped_more i s') ≡ ok i (mapped_more i s'))
    × (open_lookup (s.o_fileid i) (mapped_more i s') ≡ fail inval (mapped_more i s'))
    × ((j : ℕ) → j < 1024 → 2 ≤ s.refs j → open_lookup (s.o_fileid j) s' ≡ ok j s')
IdOutcome s (fail e s') =
    (s' ≡ s)
    × (((e ≡ max_open) × ((j : ℕ) → 0 ≤ j → j < 1024 → 2 ≤ s.refs j))
        ⊎ ((e ≡ no_mem) × (s.fs.free_pages ≡ 0)))
IdOutcome s panic = ⊥
IdOutcome s (enter s') = ⊥

-- The table is tidy: `open_alloc` gives an entry below 1024 or fails and changes nothing, because
-- every entry is held or no page is left. The id of the entry is refused until its page is mapped
-- once more and then found; the id that the entry had before is refused, and the ids of entries
-- that are held are still found.
pub open_alloc_ids : (s : Serv) → Tidy s → IdOutcome s (open_alloc s)
open_alloc_ids s t = named (open_alloc s) (open_alloc-EntryOutcome s)
  where
    named : (r : Run Serv ℕ) → EntryOutcome 0 s r → IdOutcome s r
    named (ok i s') a =
        let t' : Tidy s' = (Allocated-Grown s s' i a).tidy t in
        let one = a.one in
        let two : (mapped_more i s').refs i ≢ 1 =
          λ e. let e' : (s'.refs i + 1) % 2 ^ 16 ≡ 1 = rw (==-refl i) at e in omega arith in
        let (name, bound) = t i a.index in
        let id = a.id in
        (
          a.index,
          open_lookup-alone i s' t' a.index one,
          open_lookup-held i (mapped_more i s') t' a.index two,
          open_lookup-stale i (s.o_fileid i) (mapped_more i s') name (λ e. omega arith),
          λ j low k.
              let u = a.unused in
              let d : j ≢ i = λ e. let k' = subst (λ q. 2 ≤ s.refs q) e k in omega arith in
              let (x, y) = a.others j d in
              subst (λ q. open_lookup q s' ≡ ok j s') y
                (open_lookup-held j s' t' low (λ e. omega arith)),
        )
    named (fail e s') x = x
    named panic o = o
    named (enter s') o = o

init_entries-fileid :
    (n i j : ℕ) (s : Serv)
    → (init_entries n i s).o_fileid j ≡ (if leb i j && ltb j (i + n) then j else s.o_fileid j)
unfolding init_entries
init_entries-fileid zero i j s = let no : (leb i j && ltb j (i + 0)) ≡ false = ground arith in rw no
init_entries-fileid (suc n) i j s =
    init_entries-fileid n (i + 1) j (record s { o_fileid = update s.o_fileid i i })
    ∙ elim (Bool-cases (j == i)) [
      | inl e ↦
          let at_i : i ≡ j = ground arith in
          let no : (leb (i + 1) j && ltb j (i + 1 + n)) ≡ false = ground arith in
          let yes_it : (leb i j && ltb j (i + suc n)) ≡ true = ground arith in
          rw (e, no, yes_it) at_i
      | inr e ↦ elim (Bool-cases (leb i j && ltb j (i + suc n))) [
        | inl t ↦ let u : (leb (i + 1) j && ltb j (i + 1 + n)) ≡ true = ground arith in rw (e, t, u)
        | inr t ↦
            let u : (leb (i + 1) j && ltb j (i + 1 + n)) ≡ false = ground arith in rw (e, t, u)
      ]
    ]

pub serve_init-Tidy : (s : Serv) → Tidy (serve_init s)
unfolding serve_init
serve_init-Tidy s i low =
    let yes_it : (leb 0 i && ltb i (0 + 1024)) ≡ true = ground arith in
    rw (init_entries-fileid 1024 0 i s) (rw yes_it (omega arith, omega arith))
