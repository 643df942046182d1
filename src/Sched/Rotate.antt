-- ===== src/Sched/Rotate.antt =====
-- The scheduling queue and `schedule` of kern/sched.c.
use buaa_os.Base
use buaa_os.Base.{
  ℕ, ◌+◌, ◌-◌, ◌%◌, ◌^◌, ◌≡◌, ◌≢◌, refl, sym, subst, ap, ◌∙◌, Bool, true, false, not, ◌||◌, Option,
  none, some, List, [], ◌∷◌, ◌++◌, ◌==◌, if◌then◌else◌, arith, has, Distinct, Bool-cases, inl, inr,
  ◌⊎◌, ==-refl, ==-ne, ==_iff, has-append, has-remove_ne, has-remove_self,
}
use buaa_os.Run.{Run, ok, fail, panic, enter, and_then, ◌>>=◌}
use buaa_os.Queue.Tailq.{Tailq, remove}
use buaa_os.Queue.Tailq.Links.{IsQueue}
use buaa_os.Queue.Tailq.Insert.{insert_tail-IsQueue}
use buaa_os.Queue.Tailq.Remove.{remove-IsQueue}
use buaa_os.Kernel.{Trapframe, Env, Kernel, env_runnable}
use buaa_os.Vm.{update}
use buaa_os.Env.{env_run, save_context}
use buaa_os.Sched.{
  spent, must_switch, rotate, rotate_from, rejoin, pick, pick_from, run_slice, run_next, run_again,
  run_again_from, cannot_run, schedule,
}

-- The queue holds the list `l`, which contains the runnable environments and no others.
pub record SchedOk (k : Kernel) (l : List ℕ) : Type 0 where
  pub queue : IsQueue k.env_sched_list l
  pub runnable : (e : ℕ) → has e l ≡ true → (k.envs e).env_status ≡ env_runnable
  pub listed : (e : ℕ) → (k.envs e).env_status ≡ env_runnable → has e l ≡ true

-- The state in which `env_run` enters user mode.
abbrev pub entered : ℕ → Kernel → Kernel
entered e k =
    let k1 = save_context k.curenv k in
    record k1 {
      curenv = some e;
      envs =
          update k1.envs e (record (k1.envs e) { env_runs = ((k1.envs e).env_runs + 1) % 2 ^ 32 });
      cur_pgdir = (k1.envs e).env_pgdir;
    }

env_run-ok :
    (e : ℕ) (k : Kernel) → (k.envs e).env_status ≡ env_runnable → env_run e k ≡ enter (entered e k)
unfolding env_run
env_run-ok e k h = rw h (rw ==-refl)

-- A field of an environment that entering user mode does not write.
abbrev pub Stays : (Env → ℕ) → Type 0
Stays f =
    (env : Env) (tf : Trapframe) (runs : ℕ)
    → f (record env { env_tf = tf; env_runs = runs }) ≡ f env

field-update :
    (f : Env → ℕ) (envs : ℕ → Env) (e x : ℕ) (v : Env)
    → f v ≡ f (envs e)
    → f (update envs e v x) ≡ f (envs x)
field-update f envs e x v h = elim (Bool-cases (x == e)) [
  | inl i ↦ let same : x ≡ e = ground arith in rw i (h ∙ ap (λ t. f (envs t)) (sym same))
  | inr i ↦ rw i
]

field-save_context :
    (f : Env → ℕ)
    → Stays f
    → (o : Option ℕ) (k : Kernel) (x : ℕ) → f ((save_context o k).envs x) ≡ f (k.envs x)
field-save_context f h none k x = refl
field-save_context f h (some c) k x =
    field-update f k.envs c x _ (h (k.envs c) k.kstack (k.envs c).env_runs)

field-entered :
    (f : Env → ℕ) → Stays f → (e : ℕ) (k : Kernel) (x : ℕ) → f ((entered e k).envs x) ≡ f (k.envs x)
field-entered f h e k x =
    let k1 = save_context k.curenv k in
    field-update f k1.envs e x _
      (h (k1.envs e) (k1.envs e).env_tf (((k1.envs e).env_runs + 1) % 2 ^ 32))
    ∙ field-save_context f h k.curenv k x

queue-save_context :
    (o : Option ℕ) (k : Kernel) → (save_context o k).env_sched_list ≡ k.env_sched_list
queue-save_context none k = refl
queue-save_context (some c) k = refl

pub entered-SchedOk : (e : ℕ) (k : Kernel) (l : List ℕ) → SchedOk k l → SchedOk (entered e k) l
entered-SchedOk e k l s = record {
  queue = rw (queue-save_context k.curenv k) s.queue;
  runnable = λ x h. same x ∙ s.runnable x h;
  listed = λ x h. s.listed x (sym (same x) ∙ h);
}
  where
    same : (x : ℕ) → ((entered e k).envs x).env_status ≡ (k.envs x).env_status
    same x = field-entered (λ v. v.env_status) (λ _ _ _. refl) e k x

-- The state after `count--`.
abbrev pub ticked : Kernel → Kernel
ticked k = record k { slices = (k.slices + 2 ^ 32 - 1) % 2 ^ 32 }

run_slice-ok :
    (e : ℕ) (k : Kernel)
    → (k.envs e).env_status ≡ env_runnable
    → run_slice e k ≡ enter (entered e (ticked k))
unfolding run_slice
run_slice-ok e k h = env_run-ok e (ticked k) h

-- The head of a list.
abbrev pub first : List ℕ → Option ℕ
first [] = none
first (x ∷ xs) = some x

first-IsQueue : (q : Tailq) (l : List ℕ) → IsQueue q l → q.first ≡ first l
first-IsQueue q [] is = is.links.0
first-IsQueue q (x ∷ xs) is = is.links.0

-- The environment `e` runs next, with its priority less one as slices left.
abbrev pub Runs : Kernel → List ℕ → Run Kernel (Unit {0}) → Type 0
Runs k l (enter k') =
    (SchedOk k' l)
    × (k'.curenv ≡ first l)
    × ((e : ℕ) → first l ≡ some e → k'.slices ≡ ((k.envs e).env_pri + 2 ^ 32 - 1) % 2 ^ 32)
    × ((f : Env → ℕ) → Stays f → (x : ℕ) → f (k'.envs x) ≡ f (k.envs x))
Runs k l panic = l ≡ []
Runs k l (ok a k') = ⊥
Runs k l (fail e k') = ⊥

slices-save_context : (o : Option ℕ) (k : Kernel) → (save_context o k).slices ≡ k.slices
slices-save_context none k = refl
slices-save_context (some c) k = refl

some_eq : {x y : ℕ} → some x ≡ some y → x ≡ y
some_eq h = ground arith

pick-first : (k : Kernel) (l : List ℕ) → SchedOk k l → pick k ≡ pick_from (first l) k
unfolding pick
pick-first k l s = ap (λ o. pick_from o k) (first-IsQueue k.env_sched_list l s.queue)

picked : (k : Kernel) (l : List ℕ) → SchedOk k l → Runs k l (and_then (pick k) run_slice)
picked k [] s = rw (pick-first k [] s) refl
picked k (x ∷ xs) s =
    let k1 : Kernel = record k { slices = (k.envs x).env_pri } in
    rw (pick-first k (x ∷ xs) s) (
      rw (run_slice-ok x k1 (s.runnable x (rw ==-refl))) (
        entered-SchedOk x (ticked k1) (x ∷ xs)
            (record { queue = s.queue; runnable = s.runnable; listed = s.listed }),
        refl,
        λ e h.
            slices-save_context k.curenv (ticked k1)
            ∙ ap (λ t. ((k.envs t).env_pri + 2 ^ 32 - 1) % 2 ^ 32) (some_eq h),
        λ f h y. field-entered f h x (ticked k1) y,
      ))

-- The order after the environment `e` had its turn.
abbrev pub turned : ℕ → List ℕ → List ℕ
turned e l = if has e l then Base.remove e l ++ e ∷ [] else l

has-turned : (e x : ℕ) (l : List ℕ) → Distinct l → has x (turned e l) ≡ has x l
has-turned e x l d = elim (Bool-cases (has e l)) [
  | inr out ↦ rw out
  | inl in_l ↦ rw in_l (
      has-append x (Base.remove e l) (e ∷ []) ∙ elim (Bool-cases (x == e)) [
        | inl i ↦
            let present : has x l ≡ true = rw ((==_iff x e).0 i) in_l in
            rw i (ground (arith, present))
        | inr i ↦ rw i (ground (arith, has-remove_ne x e l (ground arith)))
      ])
]

module _ (k : Kernel) (l : List ℕ) (s : SchedOk k l) (e : ℕ) where
  -- A runnable environment goes to the end of the queue.
  rejoin-runnable :
      (k.envs e).env_status ≡ env_runnable
      → (q : Tailq) × (rejoin e k ≡ ok tt (record k { env_sched_list = q }))
        × IsQueue q (turned e l)
  unfolding rejoin
  rejoin-runnable h =
      let in_l : has e l ≡ true = s.listed e h in
      let (q1, p1, is1) = remove-IsQueue e k.env_sched_list l s.queue in_l in
      let (q2, p2, is2) =
        insert_tail-IsQueue e q1 (Base.remove e l) is1 (has-remove_self e l s.queue.distinct) in
      (q2, rw p1 (rw h (rw p2)), rw in_l is2)

  -- One that cannot run is not in the queue, and removing it again changes nothing.
  rejoin-stale :
      (k.envs e).env_status ≢ env_runnable
      → remove e k.env_sched_list ≡ some k.env_sched_list
      → rejoin e k ≡ ok tt k
  unfolding rejoin
  rejoin-stale h r = rw r (rw (==-ne (k.envs e).env_status 1 h))

-- What `TAILQ_REMOVE` of the environment that ran last may rely on: it is runnable, or it was
-- removed just before.
abbrev pub LastOk : Option ℕ → Kernel → Type 0
LastOk none k = Unit
LastOk (some e) k =
    ((k.envs e).env_status ≡ env_runnable)
    ⊎ ((k.envs e).env_status ≢ env_runnable) × (remove e k.env_sched_list ≡ some k.env_sched_list)

-- The order of the queue after the environment that ran last had its turn.
abbrev pub turned_from : Option ℕ → List ℕ → List ℕ
turned_from none l = l
turned_from (some e) l = turned e l

run_next-from :
    (o : Option ℕ) (k : Kernel) (l : List ℕ)
    → SchedOk k l
    → LastOk o k
    → Runs k (turned_from o l) (and_then (rotate_from o k) (λ _. pick >>= run_slice))
run_next-from none k l s last = picked k l s
run_next-from (some e) k l s (inl h) =
    let (q, r, is) = rejoin-runnable k l s e h in
    rw r (
      picked (record k { env_sched_list = q }) (turned e l)
        (record {
          queue = is;
          runnable = λ x p. s.runnable x (sym (has-turned e x l s.queue.distinct) ∙ p);
          listed = λ x p. has-turned e x l s.queue.distinct ∙ s.listed x p;
        }))
run_next-from (some e) k l s (inr (h, stale)) = rw (rejoin-stale k l s e h stale) (
    subst (λ m. Runs k m (and_then (pick k) run_slice)) (unturned (Bool-cases (has e l)))
      (picked k l s))
  where
    unturned : ((has e l ≡ true) ⊎ (has e l ≡ false)) → l ≡ turned e l
    unturned (inl p) = absurd (h (s.runnable e p))
    unturned (inr p) = rw p

-- The environment that ran last goes on with one slice less.
abbrev pub Continues : Kernel → List ℕ → Run Kernel (Unit {0}) → Type 0
Continues k l (enter k') =
    (SchedOk k' l)
    × (k'.curenv ≡ k.curenv)
    × (k'.slices ≡ (k.slices + 2 ^ 32 - 1) % 2 ^ 32)
    × ((f : Env → ℕ) → Stays f → (x : ℕ) → f (k'.envs x) ≡ f (k.envs x))
Continues k l _ = ⊥

again :
    (o : Option ℕ) (k : Kernel) (l : List ℕ)
    → k.curenv ≡ o
    → SchedOk k l
    → cannot_run o k ≡ false
    → Continues k l (run_again_from o k)
again none k l c s h = cc
again (some e) k l c s h = rw (run_slice-ok e k (ground arith)) (
  entered-SchedOk e (ticked k) l
      (record { queue = s.queue; runnable = s.runnable; listed = s.listed }),
  sym c,
  slices-save_context k.curenv (ticked k),
  λ f h' y. field-entered f h' e (ticked k) y,
)

or_false : (a b c : Bool) → (a || (b || c)) ≡ false → c ≡ false
or_false false false c h = h
or_false false true c h = cc
or_false true b c h = cc

-- `schedule` for a sound queue, where the environment that ran last is runnable or was removed from
-- the queue just before: where a switch is due, that environment goes to the end if it is runnable,
-- the head of the queue runs next with its priority less one as slices left, and only an empty queue
-- panics; otherwise the same environment goes on with one slice less.
pub schedule_outcome :
    (yield : Bool) (k : Kernel) (l : List ℕ)
    → SchedOk k l
    → LastOk k.curenv k
    → (must_switch yield k ≡ true → Runs k (turned_from k.curenv l) (schedule yield k))
      × (must_switch yield k ≡ false → Continues k l (schedule yield k))
unfolding schedule run_next run_again rotate must_switch
schedule_outcome yield k l s last = (
  λ h. rw h (run_next-from k.curenv k l s last),
  λ h. rw h (again k.curenv k l refl s (or_false yield (spent k.slices) (cannot_run k.curenv k) h)),
)
