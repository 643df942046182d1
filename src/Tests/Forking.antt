-- ===== src/Tests/Forking.antt =====
-- A process with a page that can be written, which forks.
use buaa_os.Base.{
  ℕ, ◌+◌, ◌≤◌, ◌<◌, ◌≡◌, refl, sym, ap, ◌∙◌, false, ◌&&◌, Option, none, some, ◌==◌, if◌then◌else◌,
  arith, Bool-cases, inl, inr,
}
use buaa_os.Fork.{Spaces, stack_top, fork_pages, store, view}
use buaa_os.Fork.Private.{Private}
use buaa_os.Fork.Isolated.{fork-store}

abbrev process : Spaces
process = record {
  map = λ e v. if (e == 1) && (v == 2048) then some (7, 0x600) else none;
  frames = λ f w. f + w;
  next = 9;
  refused = λ _ _. false;
}

frame_in : Option (ℕ × ℕ) → ℕ
frame_in none = 0
frame_in (some (f, _)) = f

perm_in : Option (ℕ × ℕ) → ℕ
perm_in none = 0
perm_in (some (_, p)) = p

no_page : (o : ℕ × ℕ) → ◌≡◌ {A = Option (ℕ × ℕ)} none (some o) → ⊥
no_page o e = cc

only_page :
    (e v f p : ℕ) → process.map e v ≡ some (f, p) → ((e ≡ 1) × (v ≡ 2048)) × ((f ≡ 7) × (p ≡ 0x600))
unfolding frame_in perm_in
only_page e v f p h = elim (Bool-cases ((e == 1) && (v == 2048))) [
  | inl t ↦
      let there : process.map e v ≡ some (7, 0x600) = rw t in
      let same : ◌≡◌ {A = Option (ℕ × ℕ)} (some (f, p)) (some (7, 0x600)) = sym h ∙ there in
      ((ground arith, ground arith), (ap frame_in same, ap perm_in same))
  | inr t ↦ let there : process.map e v ≡ none = rw t in elim (no_page (f, p) (sym there ∙ h)) [ ]
]

process-Private : Private process
process-Private = record {
  own = λ e1 v1 e2 v2 f p1 p2 h1 h2 w.
      let ((a, b), _) = only_page e1 v1 f p1 h1 in
      let ((c, d), _) = only_page e2 v2 f p2 h2 in (a ∙ sym c, b ∙ sym d);
  used = λ e v f p h. let (_, (a, _)) = only_page e v f p h in omega arith;
  perm = λ e v f p h. let (_, (_, a)) = only_page e v f p h in omega arith;
}

fork-store_example :
    ((s' : Spaces) × (store 1 2048 3 55 (fork_pages 1 4 process) ≡ some s')
      × (view 1 2048 3 s' ≡ some 55)
      × ((u i y : ℕ)
          → 0x3fe ≤ u
          → u < stack_top
          → view 1 u i process ≡ some y
          → view 4 u i s' ≡ some y))
    × ((s' : Spaces) × (store 4 2048 3 55 (fork_pages 1 4 process) ≡ some s')
        × (view 4 2048 3 s' ≡ some 55)
        × ((u i : ℕ) → view 1 u i s' ≡ view 1 u i process))
fork-store_example =
    fork-store 1 4 2048 3 55 7 0x600 process process-Private (λ z. omega arith) (λ u t. refl) refl
      (refl, refl) (λ z. omega arith) (omega arith) (omega arith)
