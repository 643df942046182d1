-- ===== src/Sched/Fair.antt =====
-- Every environment of the queue has its turn (kern/sched.c under timer interrupts).
use buaa_os.Base.{
  ℕ, zero, suc, ◌+◌, ◌-◌, ◌%◌, ◌^◌, ◌<◌, ◌≡◌, refl, sym, subst, ap, ◌∙◌, true, false, some, List,
  [], ◌∷◌, ◌++◌, ◌==◌, leb, arith, inl, inr, Bool-cases, if◌then◌else◌, ==-refl,
}
use buaa_os.Run.{Run, ok, fail, panic, enter}
use buaa_os.Kernel.{Kernel, env_runnable}
use buaa_os.Sched.{spent, must_switch, schedule}
use buaa_os.Sched.Rotate.{SchedOk, LastOk, Runs, Continues, turned_from, schedule_outcome}

-- `n` timer interrupts, each of which calls `schedule(0)`, with no system call between them.
abbrev pub resume : Run Kernel (Unit {0}) → (Kernel → Run Kernel (Unit {0})) → Run Kernel (Unit {0})
resume (enter k) next = next k
resume (ok a k) next = ok a k
resume (fail e k) next = fail e k
resume panic next = panic

unfoldable pub ticks : ℕ → Kernel → Run Kernel (Unit {0})
unfolding schedule
ticks zero k = enter k
ticks (suc n) k = resume (schedule false k) (ticks n)

-- The slices of a turn after its first: a turn has at least one, also for priority 0.
abbrev pub later : ℕ → ℕ
later zero = 0
later (suc p) = p

abbrev pub turn : ℕ → ℕ
turn p = suc (later p)

abbrev pub turns : (ℕ → ℕ) → List ℕ → ℕ
turns pri [] = 0
turns pri (y ∷ ys) = turn (pri y) + turns pri ys

-- Environment `x` runs, at the head of the queue, and the priorities are those of `pri`.
record Turn (pri : ℕ → ℕ) (k : Kernel) (x : ℕ) (xs : List ℕ) : Type 0 where
  pub sched : SchedOk k (x ∷ xs)
  pub cur : k.curenv ≡ some x
  pub pris : (y : ℕ) → (k.envs y).env_pri ≡ pri y

-- The slices that are left to the environment that runs.
abbrev Left : ℕ → Kernel → Type 0
Left zero k = spent k.slices ≡ true
Left (suc s) k = (k.slices ≡ suc s) × (suc s < 2 ^ 31)

Left-next :
    (s : ℕ) (k : Kernel) → k.slices ≡ (suc s + 2 ^ 32 - 1) % 2 ^ 32 → suc s < 2 ^ 31 → Left s k
Left-next zero k e h = let z : k.slices ≡ 0 = omega arith in rw z refl
Left-next (suc s) k e h = (omega arith, omega arith)

Left-first :
    (p : ℕ) (k : Kernel) → k.slices ≡ (p + 2 ^ 32 - 1) % 2 ^ 32 → p < 2 ^ 31 → Left (later p) k
Left-first zero k e h = let z : k.slices ≡ 2 ^ 32 - 1 = omega arith in rw z refl
Left-first (suc p) k e h = Left-next p k e h

running :
    (k : Kernel) (x : ℕ)
    → k.curenv ≡ some x
    → (k.envs x).env_status ≡ env_runnable
    → spent k.slices ≡ false
    → must_switch false k ≡ false
unfolding must_switch
running k x c r h = rw (h, c) (rw r)

done_with : (k : Kernel) → spent k.slices ≡ true → must_switch false k ≡ true
unfolding must_switch
done_with k h = rw h

still_running :
    (k : Kernel) (x : ℕ) (xs : List ℕ) (r : Run Kernel (Unit {0}))
    → Runs k (x ∷ xs) r
    → (k' : Kernel) × (r ≡ enter k') × Runs k (x ∷ xs) (enter k')
still_running k x xs (enter k') h = (k', refl, h)
still_running k x xs panic h = cc
still_running k x xs (ok a k') h = elim h [ ]
still_running k x xs (fail e k') h = elim h [ ]

went_on :
    (k : Kernel) (l : List ℕ) (r : Run Kernel (Unit {0}))
    → Continues k l r
    → (k' : Kernel) × (r ≡ enter k') × Continues k l (enter k')
went_on k l (enter k') h = (k', refl, h)
went_on k l panic h = elim h [ ]
went_on k l (ok a k') h = elim h [ ]
went_on k l (fail e k') h = elim h [ ]

snoc_assoc :
    (us vs : List ℕ) (e x : ℕ) → ((us ++ (e ∷ vs)) ++ (x ∷ [])) ≡ (us ++ (e ∷ (vs ++ (x ∷ []))))
snoc_assoc [] vs e x = refl
snoc_assoc (u ∷ us) vs e x = ap (λ l. u ∷ l) (snoc_assoc us vs e x)

module _ (pri : ℕ → ℕ) (low : (y : ℕ) → pri y < 2 ^ 31) where
  last_ok : (k : Kernel) (x : ℕ) (xs : List ℕ) → Turn pri k x xs → LastOk k.curenv k
  last_ok k x xs t = subst (λ o. LastOk o k) (sym t.cur) (inl (t.sched.runnable x (rw (==-refl x))))

  -- One slice goes by.
  keep_on :
      (s : ℕ) (k : Kernel) (x : ℕ) (xs : List ℕ)
      → Turn pri k x xs
      → Left (suc s) k
      → (k' : Kernel) × (schedule false k ≡ enter k') × Turn pri k' x xs × Left s k'
  keep_on s k x xs t (e, small) =
      let stays : must_switch false k ≡ false =
        running k x t.cur (t.sched.runnable x (rw (==-refl x))) (
          let z : (k.slices == 0) ≡ false = ground arith in
          let u : leb (2 ^ 31) k.slices ≡ false = ground arith in rw (z, u)) in
      let (k', p, (so, cu, sl, st)) =
        went_on k (x ∷ xs) (schedule false k)
          ((schedule_outcome false k (x ∷ xs) t.sched (last_ok k x xs t)).1 stays) in
      (
        k',
        p,
        record {
          sched = so;
          cur = cu ∙ t.cur;
          pris = λ y. st (λ v. v.env_pri) (λ _ _ _. refl) y ∙ t.pris y;
        },
        Left-next s k' (sl ∙ ap (λ p. (p + 2 ^ 32 - 1) % 2 ^ 32) e) small,
      )

  -- The turn ends, and the next environment of the queue runs.
  hand_over :
      (k : Kernel) (x y : ℕ) (ys : List ℕ)
      → Turn pri k x (y ∷ ys)
      → spent k.slices ≡ true
      → (k' : Kernel) × (schedule false k ≡ enter k')
        × Turn pri k' y (ys ++ (x ∷ []))
        × Left (later (pri y)) k'
  hand_over k x y ys t e =
      let leaves : must_switch false k ≡ true = done_with k e in
      let went : turned_from k.curenv (x ∷ y ∷ ys) ≡ y ∷ (ys ++ (x ∷ [])) =
        rw t.cur (rw (==-refl x)) in
      let r =
        subst (λ l. Runs k l (schedule false k)) went
          ((schedule_outcome false k (x ∷ y ∷ ys) t.sched (last_ok k x (y ∷ ys) t)).0 leaves) in
      let (k', p, (so, cu, sl, st)) = still_running k y (ys ++ (x ∷ [])) (schedule false k) r in
      (
        k',
        p,
        record {
          sched = so;
          cur = cu;
          pris = λ z. st (λ v. v.env_pri) (λ _ _ _. refl) z ∙ t.pris z;
        },
        Left-first (pri y) k' (sl y refl ∙ ap (λ p. (p + 2 ^ 32 - 1) % 2 ^ 32) (t.pris y)) (low y),
      )

  -- The rest of a turn goes by.
  exhaust :
      (s m : ℕ) (k : Kernel) (x : ℕ) (xs : List ℕ)
      → Turn pri k x xs
      → Left s k
      → (k' : Kernel) × Turn pri k' x xs × (spent k'.slices ≡ true) × (ticks (s + m) k ≡ ticks m k')
  unfolding ticks
  exhaust zero m k x xs t e = (k, t, e, ap (λ n. ticks n k) {y = m} (omega arith))
  exhaust (suc s) m k x xs t e =
      let (k1, p, t1, l1) = keep_on s k x xs t e in
      let (k', t', e', q) = exhaust s m k1 x xs t1 l1 in
      (k', t', e', ap (λ n. ticks n k) {y = suc (s + m)} (omega arith) ∙ rw p q)

  -- The environment behind `us` runs after the rest of the turn, one slice, and the turns of `us`.
  reaches :
      (us vs : List ℕ) (e s : ℕ) (k : Kernel) (x : ℕ)
      → Turn pri k x (us ++ (e ∷ vs))
      → Left s k
      → (k' : Kernel) × (ticks (s + suc (turns pri us)) k ≡ enter k') × (k'.curenv ≡ some e)
  unfolding ticks
  reaches [] vs e s k x t l =
      let (k1, t1, l1, p) = exhaust s 1 k x (e ∷ vs) t l in
      let (k', q, t', l') = hand_over k1 x e vs t1 l1 in (k', p ∙ rw q, t'.cur)
  reaches (u ∷ us) vs e s k x t l =
      let (k1, t1, l1, p) = exhaust s (suc (turns pri (u ∷ us))) k x (u ∷ (us ++ (e ∷ vs))) t l in
      let (k2, q, t2, l2) = hand_over k1 x u (us ++ (e ∷ vs)) t1 l1 in
      let (k', r, c) =
        reaches us (vs ++ (x ∷ [])) e (later (pri u)) k2 u
          (subst (λ xs. Turn pri k2 u xs) (snoc_assoc us vs e x) t2) l2 in
      (
        k',
        p ∙ rw q (ap (λ n. ticks n k2) {y = later (pri u) + suc (turns pri us)} (omega arith) ∙ r),
        c,
      )

-- What is left of the turn that runs: nothing where the count is negative as an `int`, as it is in
-- the first slice of an environment of priority 0.
abbrev pub slices_left : ℕ → ℕ
slices_left slices = if leb (2 ^ 31) slices then 0 else slices

Left-slices : (s : ℕ) (k : Kernel) → k.slices ≡ s → s < 2 ^ 31 → Left s k
Left-slices zero k e h = rw e refl
Left-slices (suc s) k e h = (e, h)

Left-slices_left : (k : Kernel) → Left (slices_left k.slices) k
Left-slices_left k = elim (Bool-cases (leb (2 ^ 31) k.slices)) [
  | inl e ↦ rw e (rw e (ground arith))
  | inr e ↦ rw e (Left-slices k.slices k refl (ground arith))
]

-- The environment at the head of a sound queue runs, and no priority is negative as an `int`: each
-- environment `e` behind it runs after finitely many timer interrupts with no system call between
-- them, namely after the slices that are left of the turn that runs (none if the count is negative
-- as an `int`), one more, and the turns of those before `e`, where a turn takes as many slices as
-- the priority, and one for priority 0.
pub schedule_fair :
    (k : Kernel) (x : ℕ) (us vs : List ℕ) (e : ℕ)
    → SchedOk k (x ∷ (us ++ (e ∷ vs)))
    → k.curenv ≡ some x
    → ((y : ℕ) → (k.envs y).env_pri < 2 ^ 31)
    → (k' : Kernel) × (ticks (slices_left k.slices + suc (turns (λ y. (k.envs y).env_pri) us)) k
        ≡ enter k')
      × (k'.curenv ≡ some e)
schedule_fair k x us vs e s c low =
    reaches (λ y. (k.envs y).env_pri) low us vs e (slices_left k.slices) k x
      (record { sched = s; cur = c; pris = λ y. refl }) (Left-slices_left k)
