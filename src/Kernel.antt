-- ===== src/Kernel.antt =====
-- The kernel's state (kern/env.c, kern/sched.c, include/env.h, include/trap.h) and the access of
-- the other modules to its memory side. A `struct Env *` is an index into `envs`.
use buaa_os.Base.{ℕ, Option, none, some, ◌≡◌, ap, List}
use buaa_os.Run.{Run, ok, fail, panic, enter, Cmd}
use buaa_os.Vm.{Vm, update}
use buaa_os.Queue.Tailq
use buaa_os.Queue.Tailq.{Tailq}

pub record Trapframe : Type 0 where
  pub regs : ℕ → ℕ
  pub cp0_status : ℕ
  pub hi : ℕ
  pub lo : ℕ
  pub cp0_badvaddr : ℕ
  pub cp0_cause : ℕ
  pub cp0_epc : ℕ

-- The values of `env_status`.
abbrev pub env_free_status : ℕ
env_free_status = 0

abbrev pub env_runnable : ℕ
env_runnable = 1

abbrev pub env_not_runnable : ℕ
env_not_runnable = 2

-- `struct Env`, less its two list entries, which belong to the lists.
pub record Env : Type 0 where
  pub env_tf : Trapframe
  pub env_id : ℕ
  pub env_asid : ℕ
  pub env_parent_id : ℕ
  pub env_status : ℕ
  pub env_pgdir : ℕ
  pub env_pri : ℕ
  pub env_ipc_value : ℕ
  pub env_ipc_from : ℕ
  pub env_ipc_recving : ℕ
  pub env_ipc_dstva : ℕ
  pub env_ipc_perm : ℕ
  pub env_user_tlb_mod_entry : ℕ
  pub env_runs : ℕ

-- The global and static variables. `slices` is the static `count` of `schedule` as a 32-bit
-- pattern, `ids` the static `i` of `mkenvid`, `kstack` the trap frame below KSTACKTOP.
pub record Kernel : Type 0 where
  pub vm : Vm
  pub cur_pgdir : ℕ
  pub base_pgdir : ℕ
  pub envs : ℕ → Env
  pub curenv : Option ℕ
  pub env_free_list : List ℕ
  pub env_sched_list : Tailq
  pub asid_bitmap : ℕ → ℕ
  pub ids : ℕ
  pub slices : ℕ
  pub kstack : Trapframe

-- A function of kern/pmap.c, called by the rest of the kernel.
abbrev pub lift : {A : Type 0} → Kernel → Run Vm A → Run Kernel A
lift k (ok a s) = ok a (record k { vm = s })
lift k (fail e s) = fail e (record k { vm = s })
lift k panic = panic
lift k (enter s) = enter (record k { vm = s })

abbrev pub on_vm : {A : Type 0} → Cmd Vm A → Cmd Kernel A
on_vm m k = lift k (m k.vm)

abbrev pub env_at : ℕ → Cmd Kernel Env
env_at e k = ok (k.envs e) k

abbrev pub set_env : ℕ → (Env → Env) → Cmd Kernel (Unit {0})
set_env e f k = ok tt (record k { envs = update k.envs e (f (k.envs e)) })

-- `curenv` where the code dereferences it; a null pointer ends in a panic.
abbrev pub non_null : Option ℕ → Cmd Kernel ℕ
non_null none k = panic
non_null (some e) k = ok e k

unfoldable pub current : Cmd Kernel ℕ
current k = non_null k.curenv k

pub current-ok : (k : Kernel) (c : ℕ) → k.curenv ≡ some c → current k ≡ ok c k
unfolding current
current-ok k c e = ap (λ o. non_null o k) e

pub current-null : (k : Kernel) → k.curenv ≡ none → current k ≡ panic
unfolding current
current-null k e = ap (λ o. non_null o k) e

-- A step on the scheduling queue; a write through a null `tqe_prev` is a kernel-mode access below
-- UTEMP, for which kern/tlbex.c panics.
abbrev pub requeue : Kernel → Option Tailq → Run Kernel (Unit {0})
requeue k none = panic
requeue k (some q) = ok tt (record k { env_sched_list = q })

abbrev pub sched_insert_tail : ℕ → Cmd Kernel (Unit {0})
sched_insert_tail e k = requeue k (Tailq.insert_tail e k.env_sched_list)

abbrev pub sched_insert_head : ℕ → Cmd Kernel (Unit {0})
sched_insert_head e k = ok tt (record k { env_sched_list = Tailq.insert_head e k.env_sched_list })

abbrev pub sched_remove : ℕ → Cmd Kernel (Unit {0})
sched_remove e k = requeue k (Tailq.remove e k.env_sched_list)
