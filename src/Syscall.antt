-- ===== src/Syscall.antt =====
-- The system calls of kern/syscall_all.c that act on environments, memory and messages. A result
-- `0` is `ok tt`. Console and device accesses are parameters.
pub mod Status
pub mod Ipc
use buaa_os.Base.{
  ℕ, ◌+◌, ◌-◌, ◌*◌, ◌%◌, ◌^◌, bit_or, Bool, true, false, not, ◌&&◌, ◌||◌, Option, none, some, List,
  [], ◌∷◌, ltb, leb, ◌==◌, if◌then◌else◌,
}
use buaa_os.Run.{
  Run, ok, fail, panic, enter, inval, ipc_not_recv, Cmd, pure, throw, get, put, ◌>>=◌, ◌>>◌,
}
use buaa_os.Vm.{Vm, Slot, pte_v, page_alloc, page_insert, page_lookup, page_remove}
use buaa_os.Kernel.{
  Trapframe, Env, Kernel, env_runnable, env_not_runnable, on_vm, env_at, set_env, current, non_null,
  sched_insert_tail, sched_remove,
}
use buaa_os.Env.{envid2env, env_alloc, utop, set_reg}
use buaa_os.Sched.{schedule, env_destroy}

abbrev pub utemp : ℕ
utemp = 0x003f_e000

abbrev pub is_illegal_va : ℕ → Bool
is_illegal_va va = ltb va utemp || leb utop va

-- `va + len` wraps on 32 bits.
abbrev pub is_illegal_va_range : ℕ → ℕ → Bool
is_illegal_va_range va len =
    let end = (va + len) % 2 ^ 32 in
    if len == 0 then false else (ltb end va || (ltb va utemp || ltb utop end))

unfoldable pub sys_getenvid : Cmd Kernel ℕ
unfolding current
sys_getenvid = do e ← current; env ← env_at e; pure env.env_id

unfoldable pub sys_yield : Cmd Kernel (Unit {0})
unfolding schedule
sys_yield = schedule true

unfoldable pub sys_env_destroy : ℕ → Cmd Kernel (Unit {0})
unfolding envid2env env_destroy
sys_env_destroy envid = do named ← envid2env envid true; e ← non_null named; env_destroy e

unfoldable pub sys_set_tlb_mod_entry : ℕ → ℕ → Cmd Kernel (Unit {0})
unfolding envid2env
sys_set_tlb_mod_entry envid func = do
  named ← envid2env envid true
  e ← non_null named
  set_env e (λ env. record env { env_user_tlb_mod_entry = func })

unfoldable pub sys_mem_alloc : ℕ → ℕ → ℕ → Cmd Kernel (Unit {0})
unfolding envid2env page_alloc page_insert
sys_mem_alloc envid va perm = if is_illegal_va va then throw inval else do
  named ← envid2env envid true
  pp ← on_vm page_alloc
  e ← non_null named
  env ← env_at e
  on_vm (page_insert env.env_pgdir env.env_asid pp va perm)

-- The page that a lookup found is mapped in the environment `dst`; there is none: -E_INVAL.
unfoldable pub share : Option (ℕ × Slot) → Option ℕ → ℕ → ℕ → Cmd Kernel (Unit {0})
unfolding page_insert
share none dst dstva perm = throw inval
share (some (pp, slot)) dst dstva perm = do
  d ← non_null dst
  env ← env_at d
  on_vm (page_insert env.env_pgdir env.env_asid pp dstva perm)

unfoldable pub sys_mem_map : ℕ → ℕ → ℕ → ℕ → ℕ → Cmd Kernel (Unit {0})
unfolding envid2env page_lookup share
sys_mem_map srcid srcva dstid dstva perm =
    if is_illegal_va srcva || is_illegal_va dstva then throw inval else do
      src ← envid2env srcid true
      dst ← envid2env dstid true
      s ← non_null src
      env ← env_at s
      found ← on_vm (page_lookup env.env_pgdir srcva)
      share found dst dstva perm

unfoldable pub sys_mem_unmap : ℕ → ℕ → Cmd Kernel (Unit {0})
unfolding envid2env page_remove
sys_mem_unmap envid va = if is_illegal_va va then throw inval else do
  named ← envid2env envid false
  e ← non_null named
  env ← env_at e
  on_vm (page_remove env.env_pgdir env.env_asid va)

unfoldable pub sys_exofork : Cmd Kernel ℕ
unfolding current env_alloc
sys_exofork = do
  c ← current
  parent ← env_at c
  e ← env_alloc parent.env_id
  k ← get
  set_env e (λ env. record env { env_tf = k.kstack })
  set_env e (λ env. record env { env_tf = set_reg 2 0 env.env_tf })
  set_env e (λ env. record env { env_status = env_not_runnable; env_pri = (k.envs c).env_pri })
  env ← env_at e
  pure env.env_id

-- Step 3 of `sys_set_env_status`.
unfoldable pub requeue_for : ℕ → ℕ → ℕ → Cmd Kernel (Unit {0})
requeue_for e old status =
    if (status == env_runnable) && not (old == env_runnable)
    then sched_insert_tail e
    else if not (status == env_runnable) && (old == env_runnable)
    then sched_remove e
    else pure tt

unfoldable pub sys_set_env_status : ℕ → ℕ → Cmd Kernel (Unit {0})
unfolding envid2env requeue_for
sys_set_env_status envid status =
    if not (status == env_runnable) && not (status == env_not_runnable) then throw inval else do
      named ← envid2env envid true
      e ← non_null named
      env ← env_at e
      requeue_for e env.env_status status
      set_env e (λ env. record env { env_status = status })

-- The comparison of two pointers to environments.
abbrev pub same_env : Option ℕ → Option ℕ → Bool
same_env none none = true
same_env none (some b) = false
same_env (some a) none = false
same_env (some a) (some b) = a == b

-- `tf` is what the caller's memory holds at `addr`; the result is `$v0`.
unfoldable pub install : Option ℕ → Trapframe → Cmd Kernel ℕ
install named tf = do
  k ← get
  if same_env named k.curenv
      then (do put (record k { kstack = tf }); pure (tf.regs 2))
      else (do e ← non_null named; set_env e (λ env. record env { env_tf = tf }); pure 0)

unfoldable pub sys_set_trapframe : ℕ → ℕ → Trapframe → Cmd Kernel ℕ
unfolding envid2env install
sys_set_trapframe envid addr tf =
    if is_illegal_va_range addr 152
    then throw inval
    else do named ← envid2env envid true; install named tf

unfoldable pub sys_ipc_recv : ℕ → Cmd Kernel (Unit {0})
unfolding current schedule
sys_ipc_recv dstva = if not (dstva == 0) && is_illegal_va dstva then throw inval else do
  c ← current
  set_env c (λ env. record env { env_ipc_recving = 1 })
  set_env c (λ env. record env { env_ipc_dstva = dstva })
  set_env c (λ env. record env { env_status = env_not_runnable })
  sched_remove c
  k ← get
  put (record k { kstack = set_reg 2 0 k.kstack })
  schedule true

-- Steps 4 and 5 of `sys_ipc_try_send`: the message is stored and the target can run again.
unfoldable pub deliver : ℕ → ℕ → ℕ → Cmd Kernel (Unit {0})
unfolding current
deliver e value perm = do
  c ← current
  sender ← env_at c
  set_env e (λ env. record env {
    env_ipc_value = value;
    env_ipc_from = sender.env_id;
    env_ipc_perm = bit_or pte_v perm;
    env_ipc_recving = 0;
  })
  set_env e (λ env. record env { env_status = env_runnable })
  sched_insert_tail e

-- Step 6: the page at `srcva` of the sender.
unfoldable pub send_page : ℕ → ℕ → ℕ → Cmd Kernel (Unit {0})
unfolding current page_lookup share
send_page e srcva perm = if srcva == 0 then pure tt else do
  c ← current
  sender ← env_at c
  found ← on_vm (page_lookup sender.env_pgdir srcva)
  env ← env_at e
  share found (some e) env.env_ipc_dstva perm

unfoldable pub sys_ipc_try_send : ℕ → ℕ → ℕ → ℕ → Cmd Kernel (Unit {0})
unfolding envid2env deliver send_page
sys_ipc_try_send envid value srcva perm =
    if not (srcva == 0) && is_illegal_va srcva then throw inval else do
      named ← envid2env envid false
      e ← non_null named
      env ← env_at e
      if env.env_ipc_recving == 0
          then throw ipc_not_recv
          else do deliver e value perm; send_page e srcva perm

-- The test on device addresses that `sys_write_dev` and `sys_read_dev` share; `pa + len` wraps.
abbrev pub dev_range : ℕ → ℕ → Bool
dev_range pa len =
    let end = (pa + len) % 2 ^ 32 in
    (leb 0x1000_0000 pa && leb end 0x1000_0020)
    || ((leb 0x1300_0000 pa && leb end 0x1300_4200) || (leb 0x1500_0000 pa && leb end 0x1500_0200))

abbrev pub kseg1 : ℕ
kseg1 = 0xa000_0000

-- `memcpy dst src len` moves the bytes between user memory and the device.
module _ (memcpy : ℕ → ℕ → ℕ → Cmd Kernel (Unit {0})) where
  unfoldable pub sys_write_dev : ℕ → ℕ → ℕ → Cmd Kernel (Unit {0})
  sys_write_dev va pa len =
      if is_illegal_va_range va len
      then throw inval
      else if not (dev_range pa len)
      then throw inval
      else memcpy ((pa + kseg1) % 2 ^ 32) va len

  unfoldable pub sys_read_dev : ℕ → ℕ → ℕ → Cmd Kernel (Unit {0})
  sys_read_dev va pa len =
      if is_illegal_va_range va len
      then throw inval
      else if not (dev_range pa len)
      then throw inval
      else memcpy va ((pa + kseg1) % 2 ^ 32) len
