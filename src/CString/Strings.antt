-- ===== src/CString/Strings.antt =====
-- Strings in memory, and `strlen` and `strcpy` of lib/string.c.
use buaa_os.Base.{
  ℕ, zero, suc, ◌+◌, ◌≤◌, ◌<◌, ◌≡◌, ◌≢◌, sym, ap, ◌∙◌, subst, fun_ext, true, false, ◌&&◌, some,
  List, [], ◌∷◌, length, ltb, leb, ◌==◌, arith, Bool-cases, inl, inr, ==-ne,
}
use buaa_os.Vm.{update}
use buaa_os.CString.{move, strlen_from, strlen, strcpy}
use buaa_os.CString.Copy.{Safe, two_moves, Safe-rest}

-- The memory from position `i` on is the string `cs`.
abbrev pub Str : (ℕ → ℕ) → ℕ → List ℕ → Type 0
Str line i [] = line i ≡ 0
Str line i (c ∷ cs) = (line i ≡ c) × (c ≢ 0) × Str line (i + 1) cs

-- The same bytes in another place.
pub Str-moved :
    (fin line : ℕ → ℕ) (d s : ℕ) (cs : List ℕ)
    → ((j : ℕ) → j ≤ length cs → fin (d + j) ≡ line (s + j))
    → Str line s cs
    → Str fin d cs
Str-moved fin line d s [] h e =
    subst (λ p. fin p ≡ line s) {x = d + 0} {y = d} (omega arith)
      (h 0 (omega arith) ∙ ap line (omega arith))
    ∙ e
Str-moved fin line d s (c ∷ cs) h (e, n, r) = (
  subst (λ p. fin p ≡ line s) {x = d + 0} {y = d} (omega arith)
        (h 0 (omega arith) ∙ ap line (omega arith))
      ∙ e,
  n,
  Str-moved fin line (d + 1) (s + 1) cs
      (λ j l.
        ap fin {x = d + 1 + j} {y = d + (j + 1)} (omega arith)
        ∙ h (j + 1) (omega arith)
        ∙ ap line (omega arith))
      r,
)

strlen_from-length :
    (k s n : ℕ) (cs : List ℕ) (m : ℕ → ℕ)
    → Str m s cs
    → length cs < k
    → strlen_from k m s n ≡ some (n + length cs)
unfolding strlen_from
strlen_from-length zero s n cs m r h = let bad : ⊥ = omega arith in elim bad [ ]
strlen_from-length (suc k) s n [] m r h = rw r (ap some (omega arith))
strlen_from-length (suc k) s n (c ∷ cs) m (e, z, r) h = rw e (
    rw (==-ne c 0 z)
      (strlen_from-length k (s + 1) (n + 1) cs m r (omega arith) ∙ ap some (omega arith)))

update-move : (dst src : ℕ) (m : ℕ → ℕ) → update m dst (m src) ≡ move 1 dst src m
update-move dst src m = fun_ext λ p. elim (Bool-cases (p == dst)) [
  | inl e ↦
      let u : (leb dst p && ltb p (dst + 1)) ≡ true = ground arith in
      rw (e, u) (ap m (ground arith))
  | inr e ↦ let u : (leb dst p && ltb p (dst + 1)) ≡ false = ground arith in rw (e, u)
]

-- What is still to be copied is there after a byte was moved.
rest_there :
    (dst src c : ℕ) (cs : List ℕ) (m : ℕ → ℕ)
    → Safe dst src (suc (suc (length cs)))
    → Str m (src + 1) cs
    → Str (move 1 dst src m) (src + 1) cs
rest_there dst src c cs m safe r =
    Str-moved (move 1 dst src m) m (src + 1) (src + 1) cs
      (λ j h.
        let no : (leb dst (src + 1 + j) && ltb (src + 1 + j) (dst + 1)) ≡ false = elim safe [
          | inl e ↦ ground arith
          | inr e ↦ ground arith
        ] in
        rw no)
      r

strcpy-move :
    (k dst src : ℕ) (cs : List ℕ) (m : ℕ → ℕ)
    → Str m src cs
    → length cs < k
    → Safe dst src (suc (length cs))
    → strcpy k dst src m ≡ some (move (suc (length cs)) dst src m)
unfolding strcpy
strcpy-move zero dst src cs m r h safe = let bad : ⊥ = omega arith in elim bad [ ]
strcpy-move (suc k) dst src [] m r h safe =
    let z : (m src == 0) ≡ true = ap (λ v. v == 0) r in rw z (ap some (update-move dst src m))
strcpy-move (suc k) dst src (c ∷ cs) m (e, z, r) h safe =
    let more : (m src == 0) ≡ false = ap (λ v. v == 0) e ∙ ==-ne c 0 z in
    let one : suc (length (c ∷ cs)) ≡ 1 + suc (length cs) = omega arith in
    let safe1 : Safe dst src (1 + suc (length cs)) = subst (Safe dst src) one safe in
    rw more (
      ap (strcpy k (dst + 1) (src + 1)) (update-move dst src m)
      ∙ strcpy-move k (dst + 1) (src + 1) cs (move 1 dst src m) (rest_there dst src c cs m safe r)
          (omega arith) (Safe-rest 1 (suc (length cs)) dst src safe1)
      ∙ ap some
          (two_moves 1 (suc (length cs)) dst src m safe1 ∙ ap (λ j. move j dst src m) (sym one)))

-- For a string with fewer characters than the rounds, that does not begin below the destination or
-- ends before it, `strcpy` makes the destination the same string, of the length that `strlen`
-- finds in the source, and changes no byte outside it and its 0.
pub strcpy-Str :
    (k dst src : ℕ) (cs : List ℕ) (m : ℕ → ℕ)
    → Str m src cs
    → length cs < k
    → Safe dst src (suc (length cs))
    → (m' : ℕ → ℕ) × (strcpy k dst src m ≡ some m')
      × Str m' dst cs
      × (strlen k m' dst ≡ strlen k m src)
      × ((p : ℕ) → (leb dst p && leb p (dst + length cs)) ≡ false → m' p ≡ m p)
strcpy-Str k dst src cs m r h safe =
    let m' = move (suc (length cs)) dst src m in
    let there : Str m' dst cs =
      Str-moved m' m dst src cs
        (λ j l.
          let yes : (leb dst (dst + j) && ltb (dst + j) (dst + suc (length cs))) ≡ true =
            ground arith in
          rw yes (ap m (omega arith)))
        r in
    (
      m',
      strcpy-move k dst src cs m r h safe,
      there,
      strlen_from-length k dst 0 cs m' there h ∙ sym (strlen_from-length k src 0 cs m r h),
      λ p o. let no : (leb dst p && ltb p (dst + suc (length cs))) ≡ false = ground arith in rw no,
    )
