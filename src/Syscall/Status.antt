-- ===== src/Syscall/Status.antt =====
-- `sys_set_env_status` of kern/syscall_all.c and the scheduling queue.
use buaa_os.Base
use buaa_os.Base.{
  ℕ, ◌≡◌, ◌≢◌, refl, sym, ap, ◌∙◌, Bool, true, false, not, ◌&&◌, ◌||◌, Option, none, some, List, [],
  ◌∷◌, ◌++◌, ◌==◌, if◌then◌else◌, arith, has, Distinct, Bool-cases, inl, inr, ◌⊎◌, ==-refl, ==-ne,
  ==_iff, has-append, has-remove_ne, has-remove_self,
}
use buaa_os.Run.{Run, ok, fail, panic, enter, inval, bad_env, Cmd, and_then}
use buaa_os.Queue.Tailq.{Tailq}
use buaa_os.Queue.Tailq.Links.{IsQueue}
use buaa_os.Queue.Tailq.Insert.{insert_tail-IsQueue}
use buaa_os.Queue.Tailq.Remove.{remove-IsQueue}
use buaa_os.Vm.{update}
use buaa_os.Kernel.{Kernel, env_runnable, env_not_runnable, non_null}
use buaa_os.Env.{envid2env}
use buaa_os.Env.Ids.{EnvidOutcome, envid2env_outcome}
use buaa_os.Sched.Rotate.{SchedOk}
use buaa_os.Syscall.{requeue_for, sys_set_env_status}

-- A sound queue stays sound when one environment changes status and the queue follows.
pub rescheduled :
    (k k' : Kernel) (l l' : List ℕ) (e : ℕ)
    → SchedOk k l
    → IsQueue k'.env_sched_list l'
    → ((x : ℕ) → x ≢ e → (k'.envs x).env_status ≡ (k.envs x).env_status)
    → ((x : ℕ) → x ≢ e → has x l' ≡ has x l)
    → has e l' ≡ ((k'.envs e).env_status == env_runnable)
    → SchedOk k' l'
rescheduled k k' l l' e s q same_status same_list here = record {
  queue = q;
  runnable = λ x h. elim (Bool-cases (x == e)) [
    | inl i ↦
        let at_e : x ≡ e = ground arith in
        ap (λ t. (k'.envs t).env_status) at_e
        ∙ (==_iff _ _).0 (sym here ∙ ap (λ t. has t l') (sym at_e) ∙ h)
    | inr i ↦
        let ne : x ≢ e = ground arith in same_status x ne ∙ s.runnable x (sym (same_list x ne) ∙ h)
  ];
  listed = λ x h. elim (Bool-cases (x == e)) [
    | inl i ↦
        let at_e : x ≡ e = ground arith in
        ap (λ t. has t l') at_e
        ∙ here
        ∙ (==_iff _ _).1 (ap (λ t. (k'.envs t).env_status) (sym at_e) ∙ h)
    | inr i ↦
        let ne : x ≢ e = ground arith in same_list x ne ∙ s.listed x (sym (same_status x ne) ∙ h)
  ];
}

pub has-snoc : (x e : ℕ) (l : List ℕ) → x ≢ e → has x (l ++ e ∷ []) ≡ has x l
has-snoc x e l h = has-append x l (e ∷ []) ∙ ground arith

pub has-snoc_self : (e : ℕ) (l : List ℕ) → has e (l ++ e ∷ []) ≡ true
has-snoc_self e l = has-append e l (e ∷ []) ∙ ground arith

pub unlisted :
    (k : Kernel) (l : List ℕ) (e : ℕ)
    → SchedOk k l
    → (k.envs e).env_status ≢ env_runnable
    → has e l ≡ false
unlisted k l e s h = elim (Bool-cases (has e l)) [ inl i ↦ absurd (h (s.runnable e i)) | inr i ↦ i ]

-- The state after the call, with the queue `q`.
abbrev pub changed : ℕ → ℕ → Tailq → Kernel → Kernel
changed e status q k = record k {
  env_sched_list = q;
  envs = update k.envs e (record (k.envs e) { env_status = status });
}

module _ (k : Kernel) (l : List ℕ) (s : SchedOk k l) (e status : ℕ) where
  changed-SchedOk :
      (q : Tailq) (l' : List ℕ)
      → IsQueue q l'
      → ((x : ℕ) → x ≢ e → has x l' ≡ has x l)
      → has e l' ≡ (status == env_runnable)
      → SchedOk (changed e status q k) l'
  changed-SchedOk q l' is same here =
      rescheduled k (changed e status q k) l l' e s is (λ x h. rw (==-ne x e h)) same
        (here ∙ rw (==-refl e))

  -- Step 3 keeps the queue equal to the set of runnable environments.
  requeue_for-SchedOk :
      (q : Tailq) × (l' : List ℕ) × (requeue_for e (k.envs e).env_status status k
        ≡ ok tt (record k { env_sched_list = q }))
      × SchedOk (changed e status q k) l'
  unfolding requeue_for
  requeue_for-SchedOk = elim (Bool-cases (status == env_runnable)) [
    | inl n ↦ elim (Bool-cases ((k.envs e).env_status == env_runnable)) [
      | inl o ↦ (
        k.env_sched_list,
        l,
        rw (n, o),
        changed-SchedOk k.env_sched_list l s.queue (λ x h. refl)
            (s.listed e (ground arith) ∙ sym n),
      )
      | inr o ↦
          let out : has e l ≡ false = unlisted k l e s (ground arith) in
          let (q, p, is) = insert_tail-IsQueue e k.env_sched_list l s.queue out in
          (
            q,
            l ++ e ∷ [],
            rw (n, o, p),
            changed-SchedOk q (l ++ e ∷ []) is (λ x h. has-snoc x e l h)
                (has-snoc_self e l ∙ sym n),
          )
    ]
    | inr n ↦ elim (Bool-cases ((k.envs e).env_status == env_runnable)) [
      | inl o ↦
          let (q, p, is) =
            remove-IsQueue e k.env_sched_list l s.queue (s.listed e (ground arith)) in
          (
            q,
            Base.remove e l,
            rw (n, o, p),
            changed-SchedOk q (Base.remove e l) is (λ x h. has-remove_ne x e l h)
                (has-remove_self e l s.queue.distinct ∙ sym n),
          )
      | inr o ↦ (
        k.env_sched_list,
        l,
        rw (n, o),
        changed-SchedOk k.env_sched_list l s.queue (λ x h. refl)
            (unlisted k l e s (ground arith) ∙ sym n),
      )
    ]
  ]

-- The outcomes of `sys_set_env_status`.
abbrev pub StatusOutcome : Kernel → ℕ → ℕ → Run Kernel (Unit {0}) → Type 0
StatusOutcome k envid status (ok _ k') =
    ((status ≡ env_runnable) ⊎ (status ≡ env_not_runnable))
    × (e : ℕ) × (envid2env envid true k ≡ ok (some e) k)
    × ((k'.envs e).env_status ≡ status)
    × ((x : ℕ) → x ≢ e → k'.envs x ≡ k.envs x)
    × ((l' : List ℕ) × SchedOk k' l')
StatusOutcome k envid status (fail x k') =
    (k' ≡ k)
    × ((x ≡ inval) × (status ≢ env_runnable) × (status ≢ env_not_runnable)
        ⊎ (x ≡ bad_env)
          × ((status ≡ env_runnable) ⊎ (status ≡ env_not_runnable))
          × (envid2env envid true k ≡ fail bad_env k))
StatusOutcome k envid status panic =
    ((status ≡ env_runnable) ⊎ (status ≡ env_not_runnable)) × (k.curenv ≡ none)
StatusOutcome k envid status (enter k') = ⊥

abbrev apply_status : ℕ → Option ℕ → Cmd Kernel (Unit {0})
apply_status status named k = and_then (non_null named k) (λ e k0.
    and_then (requeue_for e (k0.envs e).env_status status k0) (λ _ k1.
      ok tt (record k1 { envs = update k1.envs e (record (k1.envs e) { env_status = status }) })))

resolved :
    (k : Kernel) (l : List ℕ) (envid status : ℕ) (r : Run Kernel (Option ℕ))
    → ((status ≡ env_runnable) ⊎ (status ≡ env_not_runnable))
    → SchedOk k l
    → envid2env envid true k ≡ r
    → EnvidOutcome k envid true r
    → StatusOutcome k envid status (and_then r (apply_status status))
resolved k l envid status (ok none k1) v s h (same, _, null) = (v, null)
resolved k l envid status (ok (some e) k1) v s h (same, _) =
    let (q, l', p, sound) = requeue_for-SchedOk k l s e status in
    rw same (
      rw p
        (v, e, h ∙ ap (ok (some e)) same, rw (==-refl e), λ x ne. rw (==-ne x e ne), (l', sound)))
resolved k l envid status (fail x k1) v s h (bad, same, _, _) =
    (same, inr (bad, v, h ∙ rw (bad, same)))
resolved k l envid status panic v s h (_, _, null) = (v, null)
resolved k l envid status (enter k1) v s h o = o

-- For a sound queue `sys_set_env_status` with the status runnable or not runnable sets the status
-- of the environment that `envid` names and of no other, and the queue again holds exactly the
-- runnable environments. Every other status is the error -E_INVAL, a bad identifier -E_BAD_ENV, and
-- an error changes nothing. It panics only for a good status and without a running environment.
pub sys_set_env_status_outcome :
    (k : Kernel) (l : List ℕ) (envid status : ℕ)
    → SchedOk k l
    → StatusOutcome k envid status (sys_set_env_status envid status k)
unfolding sys_set_env_status
sys_set_env_status_outcome k l envid status s =
    elim (Bool-cases (not (status == env_runnable) && not (status == env_not_runnable))) [
      | inl bad ↦ rw bad (refl, inl (refl, (λ h. ground arith), (λ h. ground arith)))
      | inr good ↦ rw good (
          resolved k l envid status (envid2env envid true k) (allowed good) s refl
            (envid2env_outcome k envid true))
    ]
  where
    allowed :
        (not (status == env_runnable) && not (status == env_not_runnable)) ≡ false
        → (status ≡ env_runnable) ⊎ (status ≡ env_not_runnable)
    allowed good = elim (Bool-cases (status == env_runnable)) [
      | inl r ↦ inl ((==_iff status env_runnable).0 r)
      | inr r ↦ inr ((==_iff status env_not_runnable).0 (ground arith))
    ]
