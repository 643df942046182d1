-- ===== src/Syscall/Ipc.antt =====
-- Messages between environments: `sys_ipc_recv` and `sys_ipc_try_send` of kern/syscall_all.c.
use buaa_os.Base
use buaa_os.Base.{
  ℕ, ◌+◌, ◌-◌, ◌%◌, ◌^◌, bit_or, ◌≡◌, ◌≢◌, refl, sym, ap, ◌∙◌, subst, Bool, true, false, not, ◌&&◌,
  ◌||◌, Option, none, some, List, [], ◌∷◌, ◌++◌, ◌==◌, if◌then◌else◌, arith, has, Distinct,
  Bool-cases, inl, inr, ◌⊎◌, ==-refl, ==-ne, ==_iff, has-append, has-remove_ne, has-remove_self,
}
use buaa_os.Run.{
  Run, ok, fail, panic, enter, inval, bad_env, ipc_not_recv, Cmd, and_then, throw, ◌>>=◌, ◌>>◌,
}
use buaa_os.Queue.Tailq
use buaa_os.Queue.Tailq.{Tailq}
use buaa_os.Queue.Tailq.Insert.{insert_tail-IsQueue}
use buaa_os.Queue.Tailq.Remove.{remove-IsQueue, remove_twice}
use buaa_os.Vm.{update, pte_v}
use buaa_os.Kernel.{Env, Kernel, env_runnable, env_not_runnable, env_at, current-ok, non_null}
use buaa_os.Env.{envid2env, set_reg}
use buaa_os.Env.Ids.{EnvidOutcome, envid2env_outcome}
use buaa_os.Sched.{schedule, must_switch}
use buaa_os.Sched.Rotate.{SchedOk, Runs, LastOk, turned_from, first, schedule_outcome}
use buaa_os.Syscall.{is_illegal_va, sys_ipc_recv, sys_ipc_try_send, deliver, send_page}
use buaa_os.Syscall.Status.{rescheduled, has-snoc, has-snoc_self, unlisted}

some_eq : {A : Type 0} {x y : A} → some x ≡ some y → x ≡ y
some_eq {x = x} h = ap (λ o. elim o [ none ↦ x | some v ↦ v ]) h

-- The state in which the receiver gives up the processor.
abbrev blocked : ℕ → ℕ → (ℕ → Env) → ℕ → Env
blocked c dstva f =
    let f1 : ℕ → Env = update f c (record (f c) { env_ipc_recving = 1 }) in
    let f2 : ℕ → Env = update f1 c (record (f1 c) { env_ipc_dstva = dstva }) in
    update f2 c (record (f2 c) { env_status = env_not_runnable })

abbrev waiting : ℕ → ℕ → Tailq → Kernel → Kernel
waiting c dstva q k = record k {
  envs = blocked c dstva k.envs;
  env_sched_list = q;
  kstack = set_reg 2 0 k.kstack;
}

-- The outcomes of `sys_ipc_recv` in environment `c`.
abbrev pub RecvOutcome : Kernel → List ℕ → ℕ → ℕ → Run Kernel (Unit {0}) → Type 0
RecvOutcome k l c dstva (ok _ k') = ⊥
RecvOutcome k l c dstva (fail x k') =
    (x ≡ inval) × (k' ≡ k) × (dstva ≢ 0) × (is_illegal_va dstva ≡ true)
RecvOutcome k l c dstva panic =
    ((dstva ≡ 0) ⊎ (is_illegal_va dstva ≡ false)) × (Base.remove c l ≡ [])
RecvOutcome k l c dstva (enter k') =
    ((dstva ≡ 0) ⊎ (is_illegal_va dstva ≡ false))
    × SchedOk k' (Base.remove c l)
    × (k'.curenv ≡ first (Base.remove c l))
    × ((k'.envs c).env_status ≡ env_not_runnable)
    × ((k'.envs c).env_ipc_recving ≡ 1)
    × ((k'.envs c).env_ipc_dstva ≡ dstva)

waited :
    (k k1 : Kernel) (l : List ℕ) (c dstva : ℕ) (r : Run Kernel (Unit {0}))
    → ((dstva ≡ 0) ⊎ (is_illegal_va dstva ≡ false))
    → (k1.envs c).env_status ≡ env_not_runnable
    → (k1.envs c).env_ipc_recving ≡ 1
    → (k1.envs c).env_ipc_dstva ≡ dstva
    → Runs k1 (Base.remove c l) r
    → RecvOutcome k l c dstva r
waited k k1 l c dstva (ok a k') v p q d r = r
waited k k1 l c dstva (fail x k') v p q d r = absurd r
waited k k1 l c dstva panic v p q d r = (v, r)
waited k k1 l c dstva (enter k') v p q d (s, cur, _, same) = (
  v,
  s,
  cur,
  same (λ v. v.env_status) (λ _ _ _. refl) c ∙ p,
  same (λ v. v.env_ipc_recving) (λ _ _ _. refl) c ∙ q,
  same (λ v. v.env_ipc_dstva) (λ _ _ _. refl) c ∙ d,
)

must_switch-yield : (k : Kernel) → must_switch true k ≡ true
unfolding must_switch
must_switch-yield k = refl

two-ne_one : env_not_runnable ≢ env_runnable
two-ne_one h = ground arith

module _ (k : Kernel) (l : List ℕ) (s : SchedOk k l) (c dstva : ℕ) (cur : k.curenv ≡ some c)
    (run : (k.envs c).env_status ≡ env_runnable) where
  -- Taking the receiver out of the queue leaves it sound, and out of it.
  waiting_queue :
      (q : Tailq) × (Tailq.remove c k.env_sched_list ≡ some q)
      × SchedOk (waiting c dstva q k) (Base.remove c l)
      × LastOk (waiting c dstva q k).curenv (waiting c dstva q k)
  waiting_queue =
      let in_l = s.listed c run in
      let (q, p, is) = remove-IsQueue c k.env_sched_list l s.queue in_l in
      let (q2, p2, twice) = remove_twice c k.env_sched_list l s.queue in_l in
      let same : some q2 ≡ some q = sym p2 ∙ p in
      (
        q,
        p,
        rescheduled k (waiting c dstva q k) l (Base.remove c l) c s is (λ x h. rw (==-ne x c h))
            (λ x h. has-remove_ne x c l h) (has-remove_self c l s.queue.distinct ∙ rw (==-refl c)),
        subst (λ o. LastOk o (waiting c dstva q k)) (sym cur)
            (inr (differs, subst (λ t. Tailq.remove c t ≡ some t) (some_eq same) twice)),
      )
    where
      differs : (blocked c dstva k.envs c).env_status ≢ env_runnable
      differs h = two-ne_one (rw (==-refl c) at h)

still :
    (o : Option ℕ) (c : ℕ) (l : List ℕ)
    → o ≡ some c
    → Distinct l
    → turned_from o (Base.remove c l) ≡ Base.remove c l
still o c l cur d = ap (λ o. turned_from o (Base.remove c l)) cur ∙ rw (has-remove_self c l d)

-- In a running environment `c` of a sound queue `sys_ipc_recv` refuses an address that is neither 0
-- nor legal with -E_INVAL, changing nothing. For 0 and for a legal address it leaves `c` blocked in
-- the receiving state, out of the queue, and enters the next runnable environment; it panics only
-- where there is none.
pub sys_ipc_recv_outcome :
    (k : Kernel) (l : List ℕ) (c dstva : ℕ)
    → SchedOk k l
    → k.curenv ≡ some c
    → (k.envs c).env_status ≡ env_runnable
    → RecvOutcome k l c dstva (sys_ipc_recv dstva k)
unfolding sys_ipc_recv
sys_ipc_recv_outcome k l c dstva s cur run =
    elim (Bool-cases (not (dstva == 0) && is_illegal_va dstva)) [
      | inl bad ↦ rw bad (refl, refl, (λ h. ground arith), ground arith)
      | inr good ↦
          let (q, p, sound, last) = waiting_queue k l s c dstva cur run in
          let k1 = waiting c dstva q k in
          let r =
            (schedule_outcome true k1 (Base.remove c l) sound last).0 (must_switch-yield k1) in
          rw good (
            rw (current-ok k c cur) (
              rw p (
                waited k k1 l c dstva (schedule true k1) (legal good) (rw (==-refl c))
                  (rw (==-refl c)) (rw (==-refl c))
                  (subst (λ m. Runs k1 m (schedule true k1))
                    (still k.curenv c l cur s.queue.distinct) r))))
    ]
  where
    legal :
        (not (dstva == 0) && is_illegal_va dstva) ≡ false
        → (dstva ≡ 0) ⊎ (is_illegal_va dstva ≡ false)
    legal good = elim (Bool-cases (dstva == 0)) [
      | inl z ↦ inl ((==_iff dstva 0).0 z)
      | inr z ↦ inr (rw z at good)
    ]

-- What a message has done to its receiver `e`, and that the others are as before.
pub record Delivered (k k' : Kernel) (c e value perm : ℕ) : Type 0 where
  pub from : (k'.envs e).env_ipc_from ≡ (k.envs c).env_id
  pub value_there : (k'.envs e).env_ipc_value ≡ value
  pub perm_there : (k'.envs e).env_ipc_perm ≡ bit_or pte_v perm
  pub not_recving : (k'.envs e).env_ipc_recving ≡ 0
  pub others : (x : ℕ) → x ≢ e → k'.envs x ≡ k.envs x

abbrev received : Env → ℕ → ℕ → Env → Env
received sender value perm env = record env {
  env_ipc_value = value;
  env_ipc_from = sender.env_id;
  env_ipc_perm = bit_or pte_v perm;
  env_ipc_recving = 0;
}

abbrev delivered : ℕ → ℕ → ℕ → ℕ → Tailq → Kernel → Kernel
delivered c e value perm q k =
    let f1 : ℕ → Env = update k.envs e (received (k.envs c) value perm (k.envs e)) in
    record k {
      envs = update f1 e (record (f1 e) { env_status = env_runnable });
      env_sched_list = q;
    }

module _ (k : Kernel) (l : List ℕ) (s : SchedOk k l) (c e value perm : ℕ) (cur : k.curenv ≡ some c)
    (idle : (k.envs e).env_status ≢ env_runnable) where
  deliver-ok :
      (q : Tailq) × (deliver e value perm k ≡ ok tt (delivered c e value perm q k))
      × SchedOk (delivered c e value perm q k) (l ++ e ∷ [])
      × Delivered k (delivered c e value perm q k) c e value perm
  unfolding deliver
  deliver-ok =
      let (q, p, is) = insert_tail-IsQueue e k.env_sched_list l s.queue (unlisted k l e s idle) in
      (
        q,
        rw (current-ok k c cur) (rw p refl),
        rescheduled k (delivered c e value perm q k) l (l ++ e ∷ []) e s is
            (λ x h. rw (==-ne x e h)) (λ x h. has-snoc x e l h)
            (has-snoc_self e l ∙ rw (==-refl e)),
        record {
          from = rw (==-refl e);
          value_there = rw (==-refl e);
          perm_there = rw (==-refl e);
          not_recving = rw (==-refl e);
          others = λ x h. rw (==-ne x e h);
        },
      )

send_page-none : (e perm : ℕ) (k : Kernel) → send_page e 0 perm k ≡ ok tt k
unfolding send_page
send_page-none e perm k = refl

-- The outcomes of `sys_ipc_try_send` without a page.
abbrev pub SendOutcome : Kernel → List ℕ → ℕ → ℕ → ℕ → ℕ → Run Kernel (Unit {0}) → Type 0
SendOutcome k l c envid value perm (ok _ k') =
    (e : ℕ) × (envid2env envid false k ≡ ok (some e) k)
    × ((k.envs e).env_ipc_recving ≢ 0)
    × SchedOk k' (l ++ e ∷ [])
    × Delivered k k' c e value perm
SendOutcome k l c envid value perm (fail x k') =
    (k' ≡ k)
    × ((x ≡ bad_env) × (envid2env envid false k ≡ fail bad_env k)
        ⊎ (x ≡ ipc_not_recv)
          × ((e : ℕ) × (envid2env envid false k ≡ ok (some e) k)
              × ((k.envs e).env_ipc_recving ≡ 0)))
SendOutcome k l c envid value perm panic = ⊥
SendOutcome k l c envid value perm (enter k') = ⊥

abbrev send_to : ℕ → ℕ → Option ℕ → Cmd Kernel (Unit {0})
send_to value perm named = do
  e ← non_null named
  env ← env_at e
  if env.env_ipc_recving == 0
      then throw ipc_not_recv
      else do deliver e value perm; send_page e 0 perm

sent :
    (k : Kernel) (l : List ℕ) (c envid value perm : ℕ) (r : Run Kernel (Option ℕ))
    → SchedOk k l
    → k.curenv ≡ some c
    → ((e : ℕ) → (k.envs e).env_ipc_recving ≢ 0 → (k.envs e).env_status ≢ env_runnable)
    → envid2env envid false k ≡ r
    → EnvidOutcome k envid false r
    → SendOutcome k l c envid value perm (and_then r (send_to value perm))
sent k l c envid value perm (ok none k1) s cur idle h (same, _, null) = ground arith
sent k l c envid value perm (ok (some e) k1) s cur idle h (same, _) =
    rw same (elim (Bool-cases ((k.envs e).env_ipc_recving == 0)) [
      | inl z ↦ rw z (refl, inr (refl, (e, h ∙ ap (ok (some e)) same, ground arith)))
      | inr z ↦
          let recving : (k.envs e).env_ipc_recving ≢ 0 = ground arith in
          let (q, p, sound, done) = deliver-ok k l s c e value perm cur (idle e recving) in
          rw z (
            rw p (
              rw (send_page-none e perm (delivered c e value perm q k))
                (e, h ∙ ap (ok (some e)) same, recving, sound, done)))
    ])
sent k l c envid value perm (fail x k1) s cur idle h (bad, same, _, _) =
    (same, inl (bad, h ∙ rw (bad, same)))
sent k l c envid value perm panic s cur idle h (_, checked, _) = ground arith
sent k l c envid value perm (enter k1) s cur idle h o = o

-- For a sound queue in which no receiving environment is runnable, `sys_ipc_try_send` with no page
-- gives a receiving target the value, the sender's identifier and the permission, ends its
-- reception, and puts it at the end of the queue; other environments do not change. A target that
-- does not receive, and a bad identifier, are errors that change nothing.
pub sys_ipc_try_send_outcome :
    (k : Kernel) (l : List ℕ) (c envid value perm : ℕ)
    → SchedOk k l
    → k.curenv ≡ some c
    → ((e : ℕ) → (k.envs e).env_ipc_recving ≢ 0 → (k.envs e).env_status ≢ env_runnable)
    → SendOutcome k l c envid value perm (sys_ipc_try_send envid value 0 perm k)
unfolding sys_ipc_try_send
sys_ipc_try_send_outcome k l c envid value perm s cur idle =
    sent k l c envid value perm (envid2env envid false k) s cur idle refl
      (envid2env_outcome k envid false)
