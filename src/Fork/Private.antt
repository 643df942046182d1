-- ===== src/Fork/Private.antt =====
-- Pages that have their frames alone, as user/lib/fork.c keeps them.
use buaa_os.Base.{
  ℕ, ◌<◌, ◌≡◌, sym, ap, ◌∙◌, subst, Bool, true, false, ◌&&◌, Option, none, some, ◌==◌, arith,
  Bool-cases, inl, inr,
}
use buaa_os.Fork.{Spaces, set_page, perm_of}
use buaa_os.Fork.Perms.{owned}

-- An owned page has its frame alone, and the frames in use are not free.
pub record Private (s : Spaces) : Type 0 where
  pub own :
      (e1 v1 e2 v2 f p1 p2 : ℕ)
      → s.map e1 v1 ≡ some (f, p1)
      → s.map e2 v2 ≡ some (f, p2)
      → owned p1 ≡ true
      → (e1 ≡ e2) × (v1 ≡ v2)
  pub used : (e v f p : ℕ) → s.map e v ≡ some (f, p) → f < s.next
  pub perm : (e v f p : ℕ) → s.map e v ≡ some (f, p) → p < 4096

-- The parts of a mapping.
abbrev pub frame_of : Option (ℕ × ℕ) → ℕ
frame_of none = 0
frame_of (some (f, _)) = f

module _ (c u : ℕ) (o : Option (ℕ × ℕ)) (s : Spaces) where
  pub at_page : (e v : ℕ) → ((e == c) && (v == u)) ≡ true → (set_page c u o s).map e v ≡ o
  at_page e v t = rw t

  pub off_page : (e v : ℕ) → ((e == c) && (v == u)) ≡ false → (set_page c u o s).map e v ≡ s.map e v
  off_page e v t = rw t

abbrev pub Same : ℕ → ℕ → ℕ → ℕ → Type 0
Same e1 v1 e2 v2 = (e1 ≡ e2) × (v1 ≡ v2)

pub same_frame : (f g p q : ℕ) → ◌≡◌ {A = Option (ℕ × ℕ)} (some (f, p)) (some (g, q)) → f ≡ g
same_frame f g p q e = ap frame_of e

pub same_perm : (f g p q : ℕ) → ◌≡◌ {A = Option (ℕ × ℕ)} (some (f, p)) (some (g, q)) → p ≡ q
same_perm f g p q e = ap perm_of e

-- The frame `f` belongs to no page alone.
abbrev pub Common : ℕ → Spaces → Type 0
Common f s = (e v p : ℕ) → s.map e v ≡ some (f, p) → owned p ≡ false

pub clash : {b : Bool} {A : Type 0} → b ≡ true → b ≡ false → A
clash t f = cc

-- The pages but for `u` of `c`.
abbrev pub Others : ℕ → ℕ → ℕ → Spaces → Type 0
Others c u f s =
    (e v p : ℕ) → ((e == c) && (v == u)) ≡ false → s.map e v ≡ some (f, p) → owned p ≡ false

-- A mapping to a frame that no other page owns, with a permission that is not an owner's.
pub set-Common :
    (c u f q : ℕ) (s : Spaces)
    → Private s
    → Others c u f s
    → owned q ≡ false
    → f < s.next
    → q < 4096
    → Private (set_page c u (some (f, q)) s) × Common f (set_page c u (some (f, q)) s)
set-Common c u f q s pr co nq lt lo = (
  record {
    own = λ e1 v1 e2 v2 g p1 p2 h1 h2 w. elim (Bool-cases ((e1 == c) && (v1 == u))) [
      | inl t ↦
          let e = sym (at_page c u (some (f, q)) s e1 v1 t) ∙ h1 in
          clash (ap owned (same_perm f g q p1 e) ∙ w) nq
      | inr t ↦
          let k1 = sym (off_page c u (some (f, q)) s e1 v1 t) ∙ h1 in
          elim (Bool-cases ((e2 == c) && (v2 == u))) [
            | inl t2 ↦
                let e = sym (at_page c u (some (f, q)) s e2 v2 t2) ∙ h2 in
                clash w (
                  co e1 v1 p1 t
                    (subst (λ x. s.map e1 v1 ≡ some (x, p1)) (sym (same_frame f g q p2 e)) k1))
            | inr t2 ↦
                pr.own e1 v1 e2 v2 g p1 p2 k1 (sym (off_page c u (some (f, q)) s e2 v2 t2) ∙ h2) w
          ]
    ];
    used = λ e v g p h. elim (Bool-cases ((e == c) && (v == u))) [
      | inl t ↦
          subst (λ x. x < s.next) (same_frame f g q p (sym (at_page c u (some (f, q)) s e v t) ∙ h))
            lt
      | inr t ↦ pr.used e v g p (sym (off_page c u (some (f, q)) s e v t) ∙ h)
    ];
    perm = λ e v g p h. elim (Bool-cases ((e == c) && (v == u))) [
      | inl t ↦
          subst (λ x. x < 4096) (same_perm f g q p (sym (at_page c u (some (f, q)) s e v t) ∙ h)) lo
      | inr t ↦ pr.perm e v g p (sym (off_page c u (some (f, q)) s e v t) ∙ h)
    ];
  },
  λ e v p h. elim (Bool-cases ((e == c) && (v == u))) [
    | inl t ↦ ap owned (sym (same_perm f f q p (sym (at_page c u (some (f, q)) s e v t) ∙ h))) ∙ nq
    | inr t ↦ co e v p t (sym (off_page c u (some (f, q)) s e v t) ∙ h)
  ],
)

-- The owner of a frame gives it up.
pub give_up :
    (e v f p q : ℕ) (s : Spaces)
    → Private s
    → s.map e v ≡ some (f, p)
    → owned p ≡ true
    → owned q ≡ false
    → q < 4096
    → Private (set_page e v (some (f, q)) s) × Common f (set_page e v (some (f, q)) s)
give_up e v f p q s pr m o nq lo =
    set-Common e v f q s pr
      (λ e2 v2 p2 t h. elim (Bool-cases (owned p2)) [
        | inl w ↦
            let (a, b) = pr.own e2 v2 e v f p2 p h m w in
            clash {b = (e2 == e) && (v2 == v)} (ground arith) t
        | inr w ↦ w
      ])
      nq (pr.used e v f p m) lo
