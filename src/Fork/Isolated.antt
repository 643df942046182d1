-- ===== src/Fork/Isolated.antt =====
-- A process and its child do not see what the other one stores (user/lib/fork.c).
use buaa_os.Base.{ℕ, ◌≤◌, ◌<◌, ◌≡◌, ◌≢◌, sym, ap, ◌∙◌, Bool, false, some, ◌==◌, arith, ==-ne}
use buaa_os.Fork.{Spaces, ucow, stack_top, is_illegal, fork_pages, store, view}
use buaa_os.Fork.Perms.{Writable}
use buaa_os.Fork.Private.{Private}
use buaa_os.Fork.Pages.{Forked, dup_pages-Forked, legal}
use buaa_os.Fork.Stores.{store-Stored}

-- The loop of `fork` in `e` for the child `c`.
forked :
    (e c : ℕ) (s : Spaces)
    → Private s
    → e ≢ c
    → ((u v : ℕ) → s.refused u v ≡ false)
    → Forked e c 0 stack_top s (fork_pages e c s)
forked e c s pr ne room = dup_pages-Forked stack_top e c 0 s pr ne (omega arith) (room e) (room c)

-- Two environments after a fork: what `a` stores, `b` does not see.
store_apart :
    (a b e c v w x f p : ℕ) (s : Spaces)
    → Forked e c 0 stack_top s (fork_pages e c s)
    → ((u t : ℕ) → s.refused u t ≡ false)
    → b ≢ a
    → (fork_pages e c s).map a v ≡ some (f, p)
    → Writable p
    → v ≢ ucow
    → is_illegal v ≡ false
    → (s' : Spaces) × (store a v w x (fork_pages e c s) ≡ some s')
      × (view a v w s' ≡ some x)
      × ((u i : ℕ) → view b u i s' ≡ view b u i (fork_pages e c s))
store_apart a b e c v w x f p s r room ne m k apart lv =
    let room1 : (u t : ℕ) → (fork_pages e c s).refused u t ≡ false =
      λ u t. ap (λ (g : ℕ → ℕ → Bool). g u t) r.refused ∙ room u t in
    let (s', e1, st) =
      store-Stored a v w x f p (fork_pages e c s) r.private m k apart lv (room1 a v)
        (room1 a ucow) in
    let off : (b == a) ≡ false = ==-ne b a ne in
    (s', e1, st.seen, λ u i. st.others b u i (rw off) (rw off))

-- Where each page that may be written and is not PTE_LIBRARY has a frame of its own, and the kernel
-- has memory for every page, take a page from UTEMP on and below the stack's top, other than UCOW
-- (where `cow_entry` makes its copy), that `e` may write and that is not PTE_LIBRARY. After `fork` in
-- `e` has given its pages to the child `c`, a store of `e` to that page succeeds, `e` reads the value,
-- and the child reads, in every page from UTEMP on and below the stack's top, what `e` had there
-- before the fork. A store of the child to that page succeeds too, the child reads the value, and `e`
-- reads in every page what it had there before the fork.
pub fork-store :
    (e c v w x f p : ℕ) (s : Spaces)
    → Private s
    → e ≢ c
    → ((u t : ℕ) → s.refused u t ≡ false)
    → s.map e v ≡ some (f, p)
    → Writable p
    → v ≢ ucow
    → 0x3fe ≤ v
    → v < stack_top
    → ((s' : Spaces) × (store e v w x (fork_pages e c s) ≡ some s')
        × (view e v w s' ≡ some x)
        × ((u i y : ℕ)
            → 0x3fe ≤ u
            → u < stack_top
            → view e u i s ≡ some y
            → view c u i s' ≡ some y))
      × ((s' : Spaces) × (store c v w x (fork_pages e c s) ≡ some s')
          × (view c v w s' ≡ some x)
          × ((u i : ℕ) → view e u i s' ≡ view e u i s))
fork-store e c v w x f p s pr ne room m k apart above below =
    let r = forked e c s pr ne room in
    let (q, m1, k1) = r.writables v f p m k in
    let (q2, m2, k2) = r.gets v f p (omega arith) (omega arith) above m k in
    let (s1, e1, seen1, rest1) =
      store_apart e c e c v w x f q s r room (λ z. ne (sym z)) m1 k1 apart
        (legal v above (omega arith)) in
    let (s2, e2, seen2, rest2) =
      store_apart c e e c v w x f q2 s r room ne m2 k2 apart (legal v above (omega arith)) in
    (
      (s1, e1, seen1, λ u i y lo h g. rest1 u i ∙ r.child u i y (omega arith) (omega arith) lo g),
      (s2, e2, seen2, λ u i. rest2 u i ∙ r.others e u i ne),
    )
