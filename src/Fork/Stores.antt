-- ===== src/Fork/Stores.antt =====
-- A store is seen by the environment that stores alone (user/lib/fork.c, `cow_entry`).
use buaa_os.Base.{
  ℕ, ◌+◌, ◌<◌, ◌≡◌, ◌≢◌, refl, sym, ap, ap₂, ◌∙◌, subst, true, false, not, ◌&&◌, Option, none, some,
  ◌==◌, if◌then◌else◌, arith, Bool-cases, Option-cases, inl, inr, ◌⊎◌, ==-refl, ==-ne,
}
use buaa_os.Vm.{update, update_word}
use buaa_os.Fork.{
  Spaces, is_illegal, pte_cow, pte_library, pte_dirty, has_flag, ucow, set_page, mem_map, mem_alloc,
  perm_of, cow_entry, write_to, write_after, store, read_from, view,
}
use buaa_os.Fork.Perms.{private_perm_lem, owned, private_perm, Writable}
use buaa_os.Fork.Private.{Private, frame_of, clash}
use buaa_os.Fork.Pages.{view-frame}

-- What a store of `x` to word `w` of page `v` of `e` does: that environment sees it, and no other
-- word that an environment sees changes, but for the page UCOW of `e`.
pub record Stored (e v w x : ℕ) (s s' : Spaces) : Type 0 where
  pub private : Private s'
  pub seen : view e v w s' ≡ some x
  pub others :
      (e2 v2 w2 : ℕ)
      → ((e2 == e) && (v2 == ucow)) ≡ false
      → (((e2 == e) && (v2 == v)) && (w2 == w)) ≡ false
      → view e2 v2 w2 s' ≡ view e2 v2 w2 s
  pub mine : owned (perm_of (s'.map e v)) ≡ true

written_elsewhere :
    (e v f p w x e2 v2 w2 : ℕ) (s : Spaces)
    → Private s
    → s.map e v ≡ some (f, p)
    → owned p ≡ true
    → (((e2 == e) && (v2 == v)) && (w2 == w)) ≡ false
    → read_from (s.map e2 v2) w2 (update_word s.frames f w x) ≡ view e2 v2 w2 s
written_elsewhere e v f p w x e2 v2 w2 s pr m o t = elim (Option-cases (s.map e2 v2)) [
  | inl n ↦ rw n
  | inr (fp, n) ↦ rw n (elim (Bool-cases ((fp.0 == f) && (w2 == w))) [
    | inl u ↦
        let same : f ≡ fp.0 = ground arith in
        let (a, b) =
          pr.own e v e2 v2 f p (fp.1) m (subst (λ g. s.map e2 v2 ≡ some (g, fp.1)) (sym same) n)
            o in
        clash {b = ((e2 == e) && (v2 == v)) && (w2 == w)} (ground arith) t
    | inr u ↦ ap some (ground arith)
  ])
]

-- A store to a page that the environment owns.
write_owned :
    (e v f p w x : ℕ) (s : Spaces)
    → Private s
    → s.map e v ≡ some (f, p)
    → owned p ≡ true
    → (s' : Spaces) × (write_to (s.map e v) w x s ≡ some s') × Stored e v w x s s'
write_owned e v f p w x s pr m o =
    let d : has_flag p pte_dirty ≡ true = ground arith in
    let s' : Spaces = record s { frames = update_word s.frames f w x } in
    (
      s',
      rw m (rw d),
      record {
        private = record { own = pr.own; used = pr.used; perm = pr.perm };
        seen = rw m (rw (==-refl f) (rw (==-refl w)));
        others = λ e2 v2 w2 _ t. written_elsewhere e v f p w x e2 v2 w2 s pr m o t;
        mine = rw m o;
      },
    )

-- The state after `cow_entry` for page `v` of `e`, which had the frame `f`.
abbrev cowed : ℕ → ℕ → ℕ → ℕ → Spaces → Spaces
cowed e v f q s =
    let s1 : Spaces =
      set_page e ucow (some (s.next, q))
        (record s { frames = update s.frames s.next (λ _. 0); next = s.next + 1 }) in
    let s2 : Spaces = record s1 { frames = update s1.frames s.next (s1.frames f) } in
    set_page e ucow none (set_page e v (some (s.next, q)) s2)

no_page : (o : ℕ × ℕ) → ◌≡◌ {A = Option (ℕ × ℕ)} none (some o) → ⊥
no_page o e = cc

module _ (e v f p : ℕ) (s : Spaces) (m : s.map e v ≡ some (f, p)) (apart : v ≢ ucow)
    (lv : is_illegal v ≡ false) (rv : s.refused e v ≡ false) (ru : s.refused e ucow ≡ false) where
  cow_entry-cowed :
      has_flag p pte_cow ≡ true → cow_entry e v s ≡ some (cowed e v f (private_perm p) s)
  unfolding cow_entry mem_alloc mem_map
  cow_entry-cowed c =
      let off : (v == ucow) ≡ false = ==-ne v ucow apart in
      rw m (rw c (rw ru (rw (off, ==-refl e) (rw m (rw lv (rw rv (rw (==-refl e))))))))

  q : ℕ
  q = private_perm p

  -- The pages after `cow_entry`.
  map-unmapped :
      (e2 v2 : ℕ)
      → ((e2 == e) && (v2 == ucow)) ≡ true
      → (cowed e v f (private_perm p) s).map e2 v2 ≡ none
  map-unmapped e2 v2 t = rw t

  map-copied :
      (e2 v2 : ℕ)
      → ((e2 == e) && (v2 == ucow)) ≡ false
      → ((e2 == e) && (v2 == v)) ≡ true
      → (cowed e v f (private_perm p) s).map e2 v2 ≡ some (s.next, private_perm p)
  map-copied e2 v2 t u = rw t (rw u)

  map-kept :
      (e2 v2 : ℕ)
      → ((e2 == e) && (v2 == ucow)) ≡ false
      → ((e2 == e) && (v2 == v)) ≡ false
      → (cowed e v f (private_perm p) s).map e2 v2 ≡ s.map e2 v2
  map-kept e2 v2 t u = rw t (rw u)

  fresh_frame : Private s → f ≢ s.next
  fresh_frame pr x = let h = pr.used e v f p m in omega arith

  -- The words of a frame in use, and those of the new frame.
  frames-cowed :
      Private s
      → (g w : ℕ)
      → (cowed e v f (private_perm p) s).frames g w
        ≡ (if g == s.next then s.frames f w else s.frames g w)
  frames-cowed pr g w =
      let no : (f == s.next) ≡ false = ==-ne f s.next (fresh_frame pr) in
      elim (Bool-cases (g == s.next)) [ inl t ↦ rw t (rw no) | inr t ↦ rw t ]

  view-cowed :
      Private s
      → (e2 v2 w : ℕ) → ((e2 == e) && (v2 == ucow)) ≡ false
      → view e2 v2 w (cowed e v f (private_perm p) s) ≡ view e2 v2 w s
  view-cowed pr e2 v2 w t =
      let s' : Spaces = cowed e v f (private_perm p) s in
      elim (Bool-cases ((e2 == e) && (v2 == v))) [
        | inl u ↦
            let mine : s'.map e2 v2 ≡ some (s.next, private_perm p) = map-copied e2 v2 t u in
            let e_same : e2 ≡ e = ground arith in
            let v_same : v2 ≡ v = ground arith in
            let copied : s'.frames s.next w ≡ s.frames f w =
              frames-cowed pr s.next w ∙ rw (==-refl s.next) in
            view-frame e2 v2 s.next (private_perm p) w s' mine
            ∙ ap some copied
            ∙ sym (view-frame e2 v2 f p w s (ap₂ s.map e_same v_same ∙ m))
        | inr u ↦
            let same : s'.map e2 v2 ≡ s.map e2 v2 = map-kept e2 v2 t u in
            let rest : read_from (s.map e2 v2) w s'.frames ≡ view e2 v2 w s =
              elim (Option-cases (s.map e2 v2)) [
                | inl n ↦ rw n
                | inr (gp, n) ↦
                    let old : (gp.0 == s.next) ≡ false =
                      ==-ne (gp.0) s.next
                        (λ x. let h = pr.used e2 v2 (gp.0) (gp.1) n in omega arith) in
                    let kept : s'.frames (gp.0) w ≡ s.frames (gp.0) w =
                      frames-cowed pr (gp.0) w ∙ rw old in
                    rw n (ap some kept)
              ] in
            ap (λ o. read_from o w s'.frames) same ∙ rest
      ]

  -- A page after `cow_entry`: the one that was copied, or one that is as it was.
  page-cowed :
      (e2 v2 g r : ℕ)
      → (cowed e v f (private_perm p) s).map e2 v2 ≡ some (g, r)
      → (((e2 ≡ e) × (v2 ≡ v)) × ((g ≡ s.next) × (r ≡ private_perm p)))
        ⊎ (s.map e2 v2 ≡ some (g, r))
  page-cowed e2 v2 g r h = elim (Bool-cases ((e2 == e) && (v2 == ucow))) [
    | inl t ↦ elim (no_page (g, r) (sym (map-unmapped e2 v2 t) ∙ h)) [ ]
    | inr t ↦ elim (Bool-cases ((e2 == e) && (v2 == v))) [
      | inl u ↦
          let here : ◌≡◌ {A = Option (ℕ × ℕ)} (some (s.next, private_perm p)) (some (g, r)) =
            sym (map-copied e2 v2 t u) ∙ h in
          inl ((ground arith, ground arith), (ap frame_of (sym here), ap perm_of (sym here)))
      | inr u ↦ inr (sym (map-kept e2 v2 t u) ∙ h)
    ]
  ]

  cowed-Private : Private s → has_flag p pte_cow ≡ true → Private (cowed e v f (private_perm p) s)
  cowed-Private pr c =
      let (_, small, _) = private_perm_lem p (pr.perm e v f p m) c in
      record {
        own = λ e1 v1 e2 v2 g p1 p2 h1 h2 w. elim (page-cowed e1 v1 g p1 h1) [
          | inl ((a, b), (x, y)) ↦ elim (page-cowed e2 v2 g p2 h2) [
            | inl ((a2, b2), _) ↦ (a ∙ sym a2, b ∙ sym b2)
            | inr k ↦ let old = pr.used e2 v2 g p2 k in let bad : ⊥ = omega arith in elim bad [ ]
          ]
          | inr k1 ↦ elim (page-cowed e2 v2 g p2 h2) [
            | inl ((a2, b2), (x, y)) ↦
                let old = pr.used e1 v1 g p1 k1 in let bad : ⊥ = omega arith in elim bad [ ]
            | inr k2 ↦ pr.own e1 v1 e2 v2 g p1 p2 k1 k2 w
          ]
        ];
        used = λ e2 v2 g r h. elim (page-cowed e2 v2 g r h) [
          | inl (_, (x, y)) ↦ omega arith
          | inr k ↦ let old = pr.used e2 v2 g r k in omega arith
        ];
        perm = λ e2 v2 g r h. elim (page-cowed e2 v2 g r h) [
          | inl (_, (x, y)) ↦ subst (λ z. z < 4096) (sym y) small
          | inr k ↦ pr.perm e2 v2 g r k
        ];
      }

store-direct :
    (e v w x : ℕ) (s : Spaces)
    → has_flag (perm_of (s.map e v)) pte_dirty ≡ true
    → store e v w x s ≡ write_to (s.map e v) w x s
unfolding store
store-direct e v w x s h = rw h

store-after :
    (e v w x : ℕ) (s s1 : Spaces)
    → has_flag (perm_of (s.map e v)) pte_dirty ≡ false
    → cow_entry e v s ≡ some s1
    → store e v w x s ≡ write_to (s1.map e v) w x s1
unfolding store
store-after e v w x s s1 h c = rw h (ap (write_after e v w x) c)

private_owned :
    (p : ℕ)
    → p < 4096
    → has_flag p pte_cow ≡ true
    → has_flag p pte_library ≡ false
    → owned (private_perm p) ≡ true
private_owned p h c l =
    let (d, _, t) = private_perm_lem p h c in
    let no : not (has_flag (private_perm p) pte_library) ≡ true = sym (rw l refl) ∙ t in rw (d, no)

-- Where each page that may be written and is not PTE_LIBRARY has a frame of its own, and the kernel
-- has memory for the environment's page `v` and its page UCOW, a store to the legal page `v`, which is not
-- PTE_LIBRARY and is writable or copy-on-write, succeeds. The environment reads the value, no other
-- word of a page of any environment changes but for UCOW of `e`, and the frames are private again.
pub store-Stored :
    (e v w x f p : ℕ) (s : Spaces)
    → Private s
    → s.map e v ≡ some (f, p)
    → Writable p
    → v ≢ ucow
    → is_illegal v ≡ false
    → s.refused e v ≡ false
    → s.refused e ucow ≡ false
    → (s' : Spaces) × (store e v w x s ≡ some s') × Stored e v w x s s'
store-Stored e v w x f p s pr m (l, k) apart lv rv ru = elim (Bool-cases (has_flag p pte_dirty)) [
  | inl d ↦
      let (s', e1, st) = write_owned e v f p w x s pr m (rw (d, l)) in
      let flag : has_flag (perm_of (s.map e v)) pte_dirty ≡ true =
        ap (λ o. has_flag (perm_of o) pte_dirty) m ∙ d in
      (s', store-direct e v w x s flag ∙ e1, st)
  | inr d ↦
      let c : has_flag p pte_cow ≡ true = sym (rw d refl) ∙ k in
      let s1 = cowed e v f (private_perm p) s in
      let flag : has_flag (perm_of (s.map e v)) pte_dirty ≡ false =
        ap (λ o. has_flag (perm_of o) pte_dirty) m ∙ d in
      let m1 =
        map-copied e v f p s m apart lv rv ru e v
          (let no : (v == ucow) ≡ false = ==-ne v ucow apart in rw (no, ==-refl e))
          (rw (==-refl e, ==-refl v)) in
      let (s', e1, st) =
        write_owned e v s.next (private_perm p) w x s1
          (cowed-Private e v f p s m apart lv rv ru pr c) m1
          (private_owned p (pr.perm e v f p m) c l) in
      (
        s',
        store-after e v w x s s1 flag (cow_entry-cowed e v f p s m apart lv rv ru c) ∙ e1,
        record {
          private = st.private;
          seen = st.seen;
          others = λ e2 v2 w2 t u.
              st.others e2 v2 w2 t u ∙ view-cowed e v f p s m apart lv rv ru pr e2 v2 w2 t;
          mine = st.mine;
        },
      )
]
