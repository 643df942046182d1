-- ===== src/Serv/Held.antt =====
-- The ids of open files of fs/serv.c over requests and the clients' mappings.
use buaa_os.Base.{
  ℕ, ◌+◌, ◌-◌, ◌%◌, ◌^◌, ◌≤◌, ◌<◌, ◌≡◌, refl, sym, ap, ◌∙◌, subst, bit_and, Bool, true, false, ◌||◌,
  if◌then◌else◌, List, [], ◌∷◌, leb, ◌==◌, arith, Bool-cases, inl, inr,
}
use buaa_os.Run.{Run, ok, fail, panic, enter, and_then, After}
use buaa_os.Vm.{update}
use buaa_os.Serv.{Serv, serve_init, open_lookup}
use buaa_os.Serv.Requests.{
  serve_request, Event, message, gained, released, wrote, serve_event, serve,
}
use buaa_os.Serv.Grown.{Grown, Same, Tidy}
use buaa_os.Serv.Table.{serve_request-Grows}
use buaa_os.Serv.Ids.{open_lookup-held, serve_init-Tidy}

-- An event that a client makes when it unmaps the page of entry `i`.
abbrev pub releases : ℕ → List Event → Bool
releases i [] = false
releases i (message whom perm req ∷ es) = releases i es
releases i (gained j ∷ es) = releases i es
releases i (released j ∷ es) = (j == i) || releases i es
releases i (wrote b w v ∷ es) = releases i es

-- How often the clients map the page of entry `i` once more by themselves.
abbrev pub gains : ℕ → List Event → ℕ
gains i [] = 0
gains i (message whom perm req ∷ es) = gains i es
gains i (gained j ∷ es) = (if j == i then 1 else 0) + gains i es
gains i (released j ∷ es) = gains i es
gains i (wrote b w v ∷ es) = gains i es

-- Entry `i` is still held, with at most `g` mappings more, by the same id for the same file, and the
-- table is tidy.
abbrev Holds : ℕ → ℕ → Serv → Serv → Type 0
Holds i g s s' = (2 ≤ s'.refs i) × (s'.refs i ≤ s.refs i + g) × Same i s s' × (Tidy s → Tidy s')

Holds-trans :
    (i g g' : ℕ) (s s' s'' : Serv) → Holds i g s s' → Holds i g' s' s'' → Holds i (g + g') s s''
Holds-trans i g g' s s' s'' (a, m, (b, c, d), t) (a', m', (b', c', d'), t') =
    (a', omega arith, (b' ∙ b, c' ∙ c, d' ∙ d), λ x. t' (t x))

Holds-refl : (i g : ℕ) (s : Serv) → 2 ≤ s.refs i → Holds i g s s
Holds-refl i g s h = (h, omega arith, (refl, refl, refl), λ t. t)

Grown-Holds :
    (i : ℕ) (s : Serv)
    → 2 ≤ s.refs i
    → (r : Run Serv (Unit {0})) → After (Grown s) r
    → After (Holds i 0 s) r
Grown-Holds i s h (ok a t) g = let (x, y) = g.held i h in (omega arith, omega arith, y, g.tidy)
Grown-Holds i s h (fail e t) g = let (x, y) = g.held i h in (omega arith, omega arith, y, g.tidy)
Grown-Holds i s h panic g = tt
Grown-Holds i s h (enter t) g = let (x, y) = g.held i h in (omega arith, omega arith, y, g.tidy)

-- A count below 2^16 - 1 does not wrap.
held_more :
    (i j : ℕ) (r : ℕ → ℕ)
    → 2 ≤ r i
    → r i + gains i (gained j ∷ []) < 2 ^ 16
    → (2 ≤ update r j ((r j + 1) % 2 ^ 16) i)
      × (update r j ((r j + 1) % 2 ^ 16) i ≤ r i + gains i (gained j ∷ []))
held_more i j r h small = elim (Bool-cases (i == j)) [
  | inl e ↦
      let at_j : i ≡ j = ground arith in
      let here : (j == i) ≡ true = ground arith in
      let fits : r i + (1 + 0) < 2 ^ 16 = rw here at small in
      let same : r j ≡ r i = ap r (sym at_j) in
      rw (e, here) (omega (arith, same), omega (arith, same))
  | inr e ↦ rw e (h, omega arith)
]

held_less :
    (i j : ℕ) (r : ℕ → ℕ)
    → 2 ≤ r i
    → ((j == i) || false) ≡ false
    → (2 ≤ update r j (r j - 1) i) × (update r j (r j - 1) i ≤ r i + 0)
held_less i j r h n = let d : (i == j) ≡ false = ground arith in rw d (h, omega arith)

serve_event-Holds :
    (i : ℕ) (e : Event) (s : Serv)
    → 2 ≤ s.refs i
    → s.refs i + gains i (e ∷ []) < 2 ^ 16
    → releases i (e ∷ []) ≡ false
    → After (Holds i (gains i (e ∷ [])) s) (serve_event e s)
unfolding serve_event
serve_event-Holds i (message whom perm req) s h m n = elim (Bool-cases (bit_and perm 512 == 0)) [
  | inl e ↦ rw e (Holds-refl i 0 s h)
  | inr e ↦ rw e (Grown-Holds i s h (serve_request whom req s) (serve_request-Grows whom req s))
]
serve_event-Holds i (wrote b w v) s h m n = (h, omega arith, (refl, refl, refl), λ t. t)
serve_event-Holds i (gained j) s h m n = elim (Bool-cases (leb 2 (s.refs j))) [
  | inr e ↦ rw e (Holds-refl i (gains i (gained j ∷ [])) s h)
  | inl e ↦ let (x, y) = held_more i j s.refs h m in rw e (x, y, (refl, refl, refl), λ t. t)
]
serve_event-Holds i (released j) s h m n = elim (Bool-cases (leb 2 (s.refs j))) [
  | inr e ↦ rw e (Holds-refl i 0 s h)
  | inl e ↦ let (x, y) = held_less i j s.refs h n in rw e (x, y, (refl, refl, refl), λ t. t)
]

run_events :
    (i g g' : ℕ) (s : Serv) (es : List Event)
    → s.refs i + (g + g') < 2 ^ 16
    → ((t : Serv) → 2 ≤ t.refs i → t.refs i + g' < 2 ^ 16 → After (Holds i g' t) (serve es t))
    → (r : Run Serv (Unit {0})) → After (Holds i g s) r
    → After (Holds i (g + g') s) (and_then r (λ _. serve es))
run_events i g g' s es small next (ok a t) h =
    let (two, up, x, k) = h in farther (serve es t) (next t two (omega arith))
  where
    farther : (r : Run Serv (Unit {0})) → After (Holds i g' t) r → After (Holds i (g + g') s) r
    farther (ok a u) j = Holds-trans i g g' s t u h j
    farther (fail e u) j = Holds-trans i g g' s t u h j
    farther panic j = tt
    farther (enter u) j = Holds-trans i g g' s t u h j
run_events i g g' s es small next (fail e t) (a, m, x, k) = (a, omega arith, x, k)
run_events i g g' s es small next panic h = tt
run_events i g g' s es small next (enter t) (a, m, x, k) = (a, omega arith, x, k)

serve-Holds :
    (i : ℕ) (es : List Event) (s : Serv)
    → 2 ≤ s.refs i
    → s.refs i + gains i es < 2 ^ 16
    → releases i es ≡ false
    → After (Holds i (gains i es) s) (serve es s)
unfolding serve
serve-Holds i [] s h m n = (h, omega arith, (refl, refl, refl), λ t. t)
serve-Holds i (e ∷ es) s h m n =
    let (first, rest) = releases_split i e es n in
    let sum = gains_split i e es in
    subst (λ g. After (Holds i g s) (and_then (serve_event e s) (λ _. serve es))) (sym sum)
      (run_events i (gains i (e ∷ [])) (gains i es) s es (omega (arith, sum))
        (λ t k l. serve-Holds i es t k l rest) (serve_event e s)
        (serve_event-Holds i e s h (omega (arith, sum)) first))
  where
    gains_split :
        (i : ℕ) (e : Event) (es : List Event) → gains i (e ∷ es) ≡ gains i (e ∷ []) + gains i es
    gains_split i (message whom perm req) es = omega arith
    gains_split i (gained j) es = omega arith
    gains_split i (wrote b w v) es = omega arith
    gains_split i (released j) es = omega arith

    releases_split :
        (i : ℕ) (e : Event) (es : List Event)
        → releases i (e ∷ es) ≡ false
        → (releases i (e ∷ []) ≡ false) × (releases i es ≡ false)
    releases_split i (message whom perm req) es n = (refl, n)
    releases_split i (gained j) es n = (refl, n)
    releases_split i (wrote b w v) es n = (refl, n)
    releases_split i (released j) es n = (ground arith, ground arith)

-- The table is tidy and the page of entry `i` is mapped by a client, so that its count of mappings is
-- 2 or more, and the count stays below 2^16 with the mappings that the clients add by themselves
-- (the count is a u_short, which would wrap to 0): as long as the server runs and no client unmaps
-- that page, whatever is requested, `open_lookup` finds entry `i` under its id, and it stands for the
-- same file in the same mode.
pub serve-held :
    (i : ℕ) (es : List Event) (s : Serv)
    → Tidy s
    → i < 1024
    → 2 ≤ s.refs i
    → s.refs i + gains i es < 2 ^ 16
    → releases i es ≡ false
    → After
        (λ s'.
          (open_lookup (s.o_fileid i) s' ≡ ok i s')
          × (s'.o_file i ≡ s.o_file i)
          × (s'.o_mode i ≡ s.o_mode i))
        (serve es s)
serve-held i es s t low h m n = found (serve es s) (serve-Holds i es s h m n)
  where
    Found : Serv → Type 0
    Found s' =
        (open_lookup (s.o_fileid i) s' ≡ ok i s')
        × (s'.o_file i ≡ s.o_file i)
        × (s'.o_mode i ≡ s.o_mode i)

    one_found : (s' : Serv) → Holds i (gains i es) s s' → Found s'
    one_found s' (two, _, (id, file, mode), keep) = (
      subst (λ q. open_lookup q s' ≡ ok i s') id
          (open_lookup-held i s' (keep t) low (λ e. omega arith)),
      file,
      mode,
    )

    found : (r : Run Serv (Unit {0})) → After (Holds i (gains i es) s) r → After Found r
    found (ok a u) k = one_found u k
    found (fail e u) k = one_found u k
    found panic k = tt
    found (enter u) k = one_found u k

serve_event-Tidy : (e : Event) (s : Serv) → Tidy s → After Tidy (serve_event e s)
unfolding serve_event
serve_event-Tidy (message whom perm req) s t = elim (Bool-cases (bit_and perm 512 == 0)) [
  | inl e ↦ rw e t
  | inr e ↦ rw e (grown (serve_request whom req s) (serve_request-Grows whom req s))
]
  where
    grown : (r : Run Serv (Unit {0})) → After (Grown s) r → After Tidy r
    grown (ok a u) g = g.tidy t
    grown (fail e u) g = g.tidy t
    grown panic g = tt
    grown (enter u) g = g.tidy t
serve_event-Tidy (wrote b w v) s t = t
serve_event-Tidy (gained j) s t = elim (Bool-cases (leb 2 (s.refs j))) [
  | inl e ↦ rw e t
  | inr e ↦ rw e t
]
serve_event-Tidy (released j) s t = elim (Bool-cases (leb 2 (s.refs j))) [
  | inl e ↦ rw e t
  | inr e ↦ rw e t
]

serve_from-Tidy : (es : List Event) (s : Serv) → Tidy s → After Tidy (serve es s)
unfolding serve
serve_from-Tidy [] s t = t
serve_from-Tidy (e ∷ es) s t =
    later (λ u k. serve_from-Tidy es u k) (serve_event e s) (serve_event-Tidy e s t)
  where
    later :
        ((u : Serv) → Tidy u → After Tidy (serve es u))
        → (r : Run Serv (Unit {0})) → After Tidy r
        → After Tidy (and_then r (λ _. serve es))
    later next (ok a u) k = next u k
    later next (fail e u) k = k
    later next panic k = tt
    later next (enter u) k = k

-- After `serve_init` and any sequence of requests and client mappings, if the server still runs,
-- the id of each entry is a word and names the entry.
pub serve-Tidy : (es : List Event) (s : Serv) → After Tidy (serve es (serve_init s))
serve-Tidy es s = serve_from-Tidy es (serve_init s) (serve_init-Tidy s)
