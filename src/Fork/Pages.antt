-- ===== src/Fork/Pages.antt =====
-- `duppage` and the loop of `fork` in user/lib/fork.c.
use buaa_os.Base.{
  ℕ, zero, suc, ◌+◌, ◌≤◌, ◌<◌, ◌≡◌, ◌≢◌, refl, sym, ap, ap₂, ◌∙◌, subst, fun_ext, true, false, ◌&&◌,
  Option, none, some, ◌==◌, arith, Bool-cases, Option-cases, inl, inr, ==-refl, ==-ne,
}
use buaa_os.Fork.{
  Spaces, is_illegal, set_page, mem_map, perm_of, duppage, dup_pages, read_from, view,
}
use buaa_os.Fork.Perms.{
  owned, shared_perm, both, is_off, shared_perm_lem, Writable, shared_perm-Writable,
}
use buaa_os.Fork.Private.{Private, at_page, off_page, same_frame, same_perm, set-Common, give_up}

-- The pages of `e` that could be written can be written, with the same frames.
abbrev pub Writables : ℕ → Spaces → Spaces → Type 0
Writables e s s' =
    (v f p : ℕ)
    → s.map e v ≡ some (f, p)
    → Writable p
    → (p' : ℕ) × (s'.map e v ≡ some (f, p')) × Writable p'

-- Page `v` of `c` has the frame `f` and can be written.
abbrev pub Gets : ℕ → ℕ → ℕ → Spaces → Type 0
Gets c v f s = (p : ℕ) × (s.map c v ≡ some (f, p)) × Writable p

twice :
    (e c v f q : ℕ) (s : Spaces)
    → set_page e v (some (f, q)) (set_page c v (some (f, q)) s)
      ≡ set_page c v (some (f, q)) (set_page e v (some (f, q)) s)
twice e c v f q s =
    ap (λ (m : ℕ → ℕ → Option (ℕ × ℕ)). record s { map = m })
      (fun_ext λ e2. fun_ext λ v2. ground arith)

-- A page that `is_illegal_va` of the kernel does not refuse.
pub legal : (v : ℕ) → 0x3fe ≤ v → v < 0x7_f400 → is_illegal v ≡ false
legal v h l = ground arith

-- `duppage` of a legal page where the kernel maps both pages.
module _ (e c v f p : ℕ) (s : Spaces) (ne : e ≢ c) (m : s.map e v ≡ some (f, p))
    (lv : is_illegal v ≡ false) (re : s.refused e v ≡ false) (rc : s.refused c v ≡ false) where
  duppage-owned :
      owned p ≡ true
      → duppage e c v s
        ≡ set_page c v (some (f, shared_perm p)) (set_page e v (some (f, shared_perm p)) s)
  unfolding duppage mem_map
  duppage-owned w =
      let off : (e == c) ≡ false = ==-ne e c ne in
      rw m (rw w (rw lv (rw rc (rw re (rw off (rw m (twice e c v f (shared_perm p) s)))))))

  duppage-shared : owned p ≡ false → duppage e c v s ≡ set_page c v (some (f, p)) s
  unfolding duppage mem_map
  duppage-shared w = rw m (rw w (rw lv (rw rc)))

-- The kernel refuses an illegal page, and the child does not get it.
duppage-illegal : (e c v : ℕ) (s : Spaces) → is_illegal v ≡ true → duppage e c v s ≡ s
unfolding duppage mem_map
duppage-illegal e c v s h =
    rw h (elim (Bool-cases (owned (perm_of (s.map e v)))) [ inl w ↦ rw w | inr w ↦ rw w ])

-- The view of a page whose mapping has the same frame.
pub view-frame :
    (e v f p w : ℕ) (s : Spaces) → s.map e v ≡ some (f, p) → view e v w s ≡ some (s.frames f w)
view-frame e v f p w s m = ap (λ o. read_from o w s.frames) m

pub view-off :
    (c u : ℕ) (o : Option (ℕ × ℕ)) (e v w : ℕ) (s : Spaces)
    → ((e == c) && (v == u)) ≡ false
    → view e v w (set_page c u o s) ≡ view e v w s
view-off c u o e v w s t = ap (λ o. read_from o w s.frames) (off_page c u o s e v t)

-- The child has the page, for the other pages nothing changes, and all stays private.
record Dupped (e c v : ℕ) (s s' : Spaces) : Type 0 where
  pub private : Private s'
  pub child : (w : ℕ) → view c v w s' ≡ view e v w s
  pub others : (e2 v2 w : ℕ) → ((e2 == c) && (v2 == v)) ≡ false → view e2 v2 w s' ≡ view e2 v2 w s
  pub refused : s'.refused ≡ s.refused
  pub writables : Writables e s s'
  pub gets : (f p : ℕ) → s.map e v ≡ some (f, p) → Writable p → Gets c v f s'
  pub same_pages : (u : ℕ) → u ≢ v → s'.map c u ≡ s.map c u

-- A page that has the frame that it had.
view-again :
    (e v f p q e2 v2 w : ℕ) (s : Spaces)
    → s.map e v ≡ some (f, p)
    → view e2 v2 w (set_page e v (some (f, q)) s) ≡ view e2 v2 w s
view-again e v f p q e2 v2 w s m = elim (Bool-cases ((e2 == e) && (v2 == v))) [
  | inl t ↦
      let e_same : e2 ≡ e = ground arith in
      let v_same : v2 ≡ v = ground arith in
      view-frame e2 v2 f q w (set_page e v (some (f, q)) s) (at_page e v (some (f, q)) s e2 v2 t)
      ∙ sym (view-frame e2 v2 f p w s (ap₂ s.map e_same v_same ∙ m))
  | inr t ↦ view-off e v (some (f, q)) e2 v2 w s t
]

duppage-Dupped :
    (e c v f p : ℕ) (s : Spaces)
    → Private s
    → e ≢ c
    → s.map e v ≡ some (f, p)
    → is_illegal v ≡ false
    → s.refused e v ≡ false
    → s.refused c v ≡ false
    → Dupped e c v s (duppage e c v s)
duppage-Dupped e c v f p s pr ne m lv re rc = elim (Bool-cases (owned p)) [
  | inl w ↦
      let q = shared_perm p in
      let (off, _, small, _) = shared_perm_lem p (pr.perm e v f p m) (both _ _ w).0 in
      let free : owned q ≡ false = rw off in
      let (pr1, common) = give_up e v f p q s pr m w free small in
      let s1 : Spaces = set_page e v (some (f, q)) s in
      subst (Dupped e c v s) (sym (duppage-owned e c v f p s ne m lv re rc w)) record {
        private =
            (set-Common c v f q s1 pr1 (λ e2 v2 p2 _ h. common e2 v2 p2 h) free (pr.used e v f p m)
              small).0;
        child = λ w.
            view-frame c v f q w (set_page c v (some (f, q)) s1)
              (at_page c v (some (f, q)) s1 c v (rw (==-refl c, ==-refl v)))
            ∙ sym (view-frame e v f p w s m);
        others =
            λ e2 v2 w t. view-off c v (some (f, q)) e2 v2 w s1 t ∙ view-again e v f p q e2 v2 w s m;
        refused = refl;
        writables = λ v2 f2 p2 h k. elim (Bool-cases (v2 == v)) [
          | inl t ↦
              let at_v : v2 ≡ v = ground arith in
              let same : ◌≡◌ {A = Option (ℕ × ℕ)} (some (f, p)) (some (f2, p2)) =
                sym m ∙ ap (s.map e) (sym at_v) ∙ h in
              let there : (set_page c v (some (f, q)) s1).map e v2 ≡ some (f, q) =
                off_page c v (some (f, q)) s1 e v2 (rw (==-ne e c ne))
                ∙ at_page e v (some (f, q)) s e v2 (rw (==-refl e, t)) in
              (
                q,
                there ∙ ap (λ g. some (g, q)) (same_frame f f2 p p2 same),
                shared_perm-Writable p (pr.perm e v f p m) (both _ _ w).0 (is_off _ (both _ _ w).1),
              )
          | inr t ↦ (
            p2,
            off_page c v (some (f, q)) s1 e v2 (rw (==-ne e c ne))
                ∙ off_page e v (some (f, q)) s e v2 (rw (t, ==-refl e))
                ∙ h,
            k,
          )
        ];
        gets = λ f2 p2 h k. (
          q,
          at_page c v (some (f, q)) s1 c v (rw (==-refl c, ==-refl v))
              ∙ ap (λ g. some (g, q)) (same_frame f f2 p p2 (sym m ∙ h)),
          shared_perm-Writable p (pr.perm e v f p m) (both _ _ w).0 (is_off _ (both _ _ w).1),
        );
        same_pages = λ u h.
            off_page c v (some (f, q)) s1 c u (rw (==-ne u v h, ==-refl c))
            ∙ off_page e v (some (f, q)) s c u (rw (==-ne c e (λ z. ne (sym z))));
      }
  | inr w ↦ subst (Dupped e c v s) (sym (duppage-shared e c v f p s ne m lv re rc w)) record {
    private =
        (set-Common c v f p s pr
          (λ e2 v2 p2 t h. elim (Bool-cases (owned p2)) [
            | inl o ↦
                let (a, b) = pr.own e2 v2 e v f p2 p h m o in
                let there : s.map e2 v2 ≡ some (f, p) = ap₂ s.map a b ∙ m in
                ap owned (same_perm f f p2 p (sym h ∙ there)) ∙ w
            | inr o ↦ o
          ])
          w (pr.used e v f p m) (pr.perm e v f p m)).0;
    child = λ x.
        view-frame c v f p x (set_page c v (some (f, p)) s)
          (at_page c v (some (f, p)) s c v (rw (==-refl c, ==-refl v)))
        ∙ sym (view-frame e v f p x s m);
    others = λ e2 v2 x t. view-off c v (some (f, p)) e2 v2 x s t;
    refused = refl;
    writables = λ v2 f2 p2 h k. (p2, off_page c v (some (f, p)) s e v2 (rw (==-ne e c ne)) ∙ h, k);
    gets = λ f2 p2 h k.
        (p2, at_page c v (some (f, p)) s c v (rw (==-refl c, ==-refl v)) ∙ sym m ∙ h, k);
    same_pages = λ u h. off_page c v (some (f, p)) s c u (rw (==-ne u v h, ==-refl c));
  }
]

-- The loop of `fork` over the pages from `i` to `i + n - 1`, of which the child gets the legal ones.
pub record Forked (e c i n : ℕ) (s s' : Spaces) : Type 0 where
  pub private : Private s'
  pub child :
      (v w x : ℕ) → i ≤ v → v < i + n → 0x3fe ≤ v → view e v w s ≡ some x → view c v w s' ≡ some x
  pub kept : (v w : ℕ) → v < i → view c v w s' ≡ view c v w s
  pub others : (e2 v w : ℕ) → e2 ≢ c → view e2 v w s' ≡ view e2 v w s
  pub refused : s'.refused ≡ s.refused
  pub writables : Writables e s s'
  pub gets :
      (v f p : ℕ)
      → i ≤ v
      → v < i + n
      → 0x3fe ≤ v
      → s.map e v ≡ some (f, p)
      → Writable p
      → Gets c v f s'
  pub same_pages : (v : ℕ) → v < i → s'.map c v ≡ s.map c v

pub no_some : (x : ℕ) → ◌≡◌ {A = Option ℕ} none (some x) → ⊥
no_some x e = cc

no_mapping : (o : ℕ × ℕ) → ◌≡◌ {A = Option (ℕ × ℕ)} none (some o) → ⊥
no_mapping o e = cc

none_there :
    {A : Type 0} (o : Option (ℕ × ℕ)) (w : ℕ) (frames : ℕ → ℕ → ℕ) (x : ℕ)
    → o ≡ none
    → read_from o w frames ≡ some x
    → A
none_there o w frames x m g =
    let e : none ≡ some x = sym (ap (λ p. read_from p w frames) m) ∙ g in elim (no_some x e) [ ]

one_more :
    (n e c i : ℕ) (s s1 s' : Spaces)
    → e ≢ c
    → Forked e c (i + 1) n s1 s'
    → ((w x : ℕ) → 0x3fe ≤ i → view e i w s ≡ some x → view c i w s1 ≡ some x)
    → ((e2 v w : ℕ) → ((e2 == c) && (v == i)) ≡ false → view e2 v w s1 ≡ view e2 v w s)
    → s1.refused ≡ s.refused
    → Writables e s s1
    → ((g p : ℕ) → 0x3fe ≤ i → s.map e i ≡ some (g, p) → Writable p → Gets c i g s1)
    → ((u : ℕ) → u ≢ i → s1.map c u ≡ s.map c u)
    → Forked e c i (suc n) s s'
one_more n e c i s s1 s' ne f here others refused writables gets same =
    let off : (e == c) ≡ false = ==-ne e c ne in
    record {
      private = f.private;
      child = λ v w x h l lo g. elim (Bool-cases (v == i)) [
        | inl t ↦
            let at_i : v ≡ i = ground arith in
            f.kept v w (omega arith)
            ∙ ap (λ u. view c u w s1) at_i
            ∙ here w x (omega arith) (ap (λ u. view e u w s) (sym at_i) ∙ g)
        | inr t ↦ f.child v w x (ground arith) (omega arith) lo (others e v w (rw off) ∙ g)
      ];
      kept = λ v w h.
          f.kept v w (omega arith)
          ∙ others c v w (let no : (v == i) ≡ false = ground arith in rw (no, ==-refl c));
      others = λ e2 v w h. f.others e2 v w h ∙ others e2 v w (rw (==-ne e2 c h));
      refused = f.refused ∙ refused;
      writables = λ v g p h k. let (p1, h1, k1) = writables v g p h k in f.writables v g p1 h1 k1;
      gets = λ v g p lo hi le h k. elim (Bool-cases (v == i)) [
        | inl t ↦
            let at_i : v ≡ i = ground arith in
            let (p1, h1, k1) = gets g p (omega arith) (ap (s.map e) (sym at_i) ∙ h) k in
            (p1, f.same_pages v (omega arith) ∙ ap (s1.map c) at_i ∙ h1, k1)
        | inr t ↦
            let (p1, h1, k1) = writables v g p h k in
            f.gets v g p1 (ground arith) (omega arith) le h1 k1
      ];
      same_pages = λ v h. f.same_pages v (omega arith) ∙ same v (λ z. omega arith);
    }

pub dup_pages-Forked :
    (n e c i : ℕ) (s : Spaces)
    → Private s
    → e ≢ c
    → i + n ≤ 0x7_f400
    → ((v : ℕ) → s.refused e v ≡ false)
    → ((v : ℕ) → s.refused c v ≡ false)
    → Forked e c i n s (dup_pages n e c i s)
unfolding dup_pages
dup_pages-Forked zero e c i s pr ne top re rc = record {
  private = pr;
  child = λ v w x h l lo g. let bad : ⊥ = omega arith in elim bad [ ];
  kept = λ v w h. refl;
  others = λ e2 v w h. refl;
  refused = refl;
  writables = λ v f p h k. (p, h, k);
  gets = λ v f p lo hi le h k. let bad : ⊥ = omega arith in elim bad [ ];
  same_pages = λ v h. refl;
}
dup_pages-Forked (suc n) e c i s pr ne top re rc = elim (Option-cases (s.map e i)) [
  | inl m ↦ rw m (
      one_more n e c i s s (dup_pages n e c (i + 1) s) ne
        (dup_pages-Forked n e c (i + 1) s pr ne (omega arith) re rc)
        (λ w x lo g. none_there (s.map e i) w s.frames x m g) (λ e2 v w t. refl) refl
        (λ v f p h k. (p, h, k)) (λ g p lo h k. elim (no_mapping (g, p) (sym m ∙ h)) [ ])
        (λ u h. refl))
  | inr (fp, m) ↦ rw m (elim (Bool-cases (is_illegal i)) [
    | inl low ↦
        let under : (A : Type 0) → 0x3fe ≤ i → A =
          λ A lo. let bad : ⊥ = ground arith in elim bad [ ] in
        rw (duppage-illegal e c i s low) (
          one_more n e c i s s (dup_pages n e c (i + 1) s) ne
            (dup_pages-Forked n e c (i + 1) s pr ne (omega arith) re rc) (λ w x lo g. under _ lo)
            (λ e2 v w t. refl) refl (λ v f p h k. (p, h, k)) (λ g p lo h k. under _ lo)
            (λ u h. refl))
    | inr lv ↦
        let s1 = duppage e c i s in
        let d = duppage-Dupped e c i (fp.0) (fp.1) s pr ne m lv (re i) (rc i) in
        one_more n e c i s s1 (dup_pages n e c (i + 1) s1) ne
          (dup_pages-Forked n e c (i + 1) s1 d.private ne (omega arith) (λ v. rw d.refused (re v))
            (λ v. rw d.refused (rc v)))
          (λ w x lo g. d.child w ∙ g) d.others d.refused d.writables (λ g p lo h k. d.gets g p h k)
          d.same_pages
  ])
]
