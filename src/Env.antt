-- ===== src/Env.antt =====
-- kern/env.c: address space identifiers, environment identifiers, creation and destruction of
-- environments, and the switch to one.
pub mod Asid
pub mod Ids
use buaa_os.Base.{
  ℕ, zero, suc, ◌+◌, ◌-◌, ◌*◌, ◌/◌, ◌%◌, ◌^◌, bit_and, bit_or, Bool, true, false, not, ◌&&◌, ◌||◌,
  Option, none, some, List, [], ◌∷◌, ltb, leb, ◌==◌, if◌then◌else◌,
}
use buaa_os.Run.{
  Run, ok, fail, panic, enter, no_mem, bad_env, no_free_env, Cmd, pure, throw, get, put, assert,
  ◌>>=◌, ◌>>◌,
}
use buaa_os.Vm.{
  Vm, pte_v, pte_d, pte_g, by2pg, pdx, ptx, ppn, pte_addr, valid, page2pa, pa2page, kaddr, incref,
  update, page_alloc, page_decref, page_remove, page_insert, tlb_invalidate, write_word, read_word,
}
use buaa_os.Kernel.{
  Trapframe, Env, Kernel, env_free_status, env_runnable, env_not_runnable, on_vm, env_at, set_env,
  current, sched_insert_tail, sched_insert_head, sched_remove,
}
use buaa_os.Queue.Tailq

abbrev pub nasid : ℕ
nasid = 64

-- NENV is 1 << LOG2NENV, and ENVX masks with NENV - 1.
abbrev pub nenv : ℕ
nenv = 2 ^ 10

abbrev pub envx : ℕ → ℕ
envx envid = envid % 2 ^ 10

-- `asid_bitmap[index] & (1 << inner)`.
abbrev pub asid_used : (ℕ → ℕ) → ℕ → Bool
asid_used bitmap i = not (bit_and (bitmap (i / 32)) (2 ^ (i % 32)) == 0)

-- The loop of `asid_alloc`, with `n` rounds left.
unfoldable pub asid_scan : ℕ → ℕ → (ℕ → ℕ) → Option (ℕ × (ℕ → ℕ))
asid_scan zero i bitmap = none
asid_scan (suc n) i bitmap =
    let rest = asid_scan n (i + 1) bitmap in
    if asid_used bitmap i
    then rest
    else some (i, update bitmap (i / 32) (bit_or (bitmap (i / 32)) (2 ^ (i % 32))))

abbrev pub asid_result : Kernel → Option (ℕ × (ℕ → ℕ)) → Run Kernel ℕ
asid_result k none = fail no_free_env k
asid_result k (some (i, bitmap)) = ok i (record k { asid_bitmap = bitmap })

unfoldable pub asid_alloc : Cmd Kernel ℕ
asid_alloc k = asid_result k (asid_scan nasid 0 k.asid_bitmap)

-- `asid_bitmap[index] &= ~(1 << inner)`, on 32 bits.
unfoldable pub asid_clear : (ℕ → ℕ) → ℕ → ℕ → ℕ
asid_clear bitmap i = update bitmap (i / 32) (bit_and (bitmap (i / 32)) (2 ^ 32 - 1 - 2 ^ (i % 32)))

unfoldable pub asid_free : ℕ → Cmd Kernel (Unit {0})
unfolding asid_clear
asid_free i k = ok tt (record k { asid_bitmap = asid_clear k.asid_bitmap i })

-- `((++i) << (1 + LOG2NENV)) | (e - envs)`.
abbrev pub id_of : ℕ → ℕ → ℕ
id_of i e = bit_or (i * 2 ^ 11 % 2 ^ 32) e

unfoldable pub mkenvid : ℕ → Cmd Kernel ℕ
mkenvid e k = let i = (k.ids + 1) % 2 ^ 32 in ok (id_of i e) (record k { ids = i })

-- The test of step 2 of `envid2env`, where `curenv` is dereferenced unless `e` is `curenv`; an
-- environment is not null, so a null `curenv` is dereferenced.
unfoldable pub permitted : ℕ → Env → Cmd Kernel (Option ℕ)
permitted e env = do
  c ← current
  cenv ← env_at c
  if not (e == c) && not (env.env_parent_id == cenv.env_id) then throw bad_env else pure (some e)

-- `envid2env`; the result is what it stores through `penv`, which is `curenv`, null or not, for
-- `envid` 0.
unfoldable pub envid2env : ℕ → Bool → Cmd Kernel (Option ℕ)
unfolding permitted
envid2env envid checkperm = if envid == 0 then (do k ← get; pure k.curenv) else do
  let e = envx envid
  env ← env_at e
  if (env.env_status == env_free_status) || not (env.env_id == envid)
      then throw bad_env
      else (if checkperm then permitted e env else pure (some e))

-- The copy of the template directory and the self mapping of `env_setup_vm`: words PDX(UTOP) to
-- PDX(UVPT) - 1 come from `base_pgdir`, and word PDX(UVPT) maps the directory itself.
abbrev pub utop : ℕ
utop = 0x7f40_0000

abbrev pub uvpt : ℕ
uvpt = 0x7fc0_0000

abbrev pub ustacktop : ℕ
ustacktop = utop - 2 * by2pg

unfoldable pub copy_template : ℕ → ℕ → Vm → Vm
copy_template base p s = record s {
  mem =
      λ q w. if (q == p) && (leb (pdx utop) w && ltb w (pdx uvpt)) then s.mem base w else s.mem q w;
}

unfoldable pub env_setup_vm : ℕ → Cmd Kernel (Unit {0})
unfolding page_alloc incref copy_template write_word
env_setup_vm e = do
  p ← on_vm page_alloc
  on_vm (incref p)
  set_env e (λ env. record env { env_pgdir = p })
  k ← get
  put (record k { vm = copy_template k.base_pgdir p k.vm })
  on_vm (write_word (p, pdx uvpt) (bit_or (page2pa p) pte_v))

abbrev pub set_reg : ℕ → ℕ → Trapframe → Trapframe
set_reg r v tf = record tf { regs = update tf.regs r v }

-- STATUS_IM4 | STATUS_KUp | STATUS_IEp.
abbrev pub user_status : ℕ
user_status = 0x1000 + 0x8 + 0x4

-- `LIST_FIRST(&env_free_list)`, or `-E_NO_FREE_ENV`.
abbrev pub first_free_env : Cmd Kernel ℕ
first_free_env k = elim k.env_free_list [ [] ↦ fail no_free_env k | e ∷ rest ↦ ok e k ]

abbrev pub remove_first_env : Cmd Kernel (Unit {0})
remove_first_env k = elim k.env_free_list [
  | [] ↦ panic
  | e ∷ rest ↦ ok tt (record k { env_free_list = rest })
]

unfoldable pub env_alloc : ℕ → Cmd Kernel ℕ
unfolding env_setup_vm mkenvid asid_alloc
env_alloc parent_id = do
  e ← first_free_env
  env_setup_vm e
  set_env e (λ env. record env { env_user_tlb_mod_entry = 0; env_runs = 0 })
  id ← mkenvid e
  set_env e (λ env. record env { env_id = id })
  asid ← asid_alloc
  set_env e (λ env. record env { env_asid = asid })
  set_env e (λ env. record env { env_parent_id = parent_id })
  set_env e (λ env. record env {
    env_tf = set_reg 29 (ustacktop - 4 - 4) (record (env.env_tf) { cp0_status = user_status });
  })
  remove_first_env
  pure e

-- `map_segment`: one `page_insert` for each page, its result ignored. `n` is the number of rounds
-- left and `i` the offset.
abbrev pub ignore : {S A : Type 0} → Run S A → Run S (Unit {0})
ignore (ok a s) = ok tt s
ignore (fail e s) = ok tt s
ignore panic = panic
ignore (enter s) = enter s

unfoldable pub map_pages : ℕ → ℕ → ℕ → ℕ → ℕ → ℕ → ℕ → Cmd Vm (Unit {0})
unfolding page_insert pa2page
map_pages zero i pgdir asid pa va perm = pure tt
map_pages (suc n) i pgdir asid pa va perm = do
  pp ← pa2page (pa + i)
  (λ s. ignore (page_insert pgdir asid pp (va + i) (bit_or perm pte_v) s))
  map_pages n (i + by2pg) pgdir asid pa va perm

unfoldable pub map_segment : ℕ → ℕ → ℕ → ℕ → ℕ → ℕ → Cmd Vm (Unit {0})
unfolding map_pages
map_segment pgdir asid pa va size perm = do
  assert (pa % by2pg == 0)
  assert (va % by2pg == 0)
  assert (size % by2pg == 0)
  map_pages (size / by2pg) 0 pgdir asid pa va perm

-- `env_free`: the inner loop over the words of one page table, and the outer loop over the user
-- part of the directory. The address is `(pdeno << PDSHIFT) | (pteno << PGSHIFT)`.
unfoldable pub free_ptes : ℕ → ℕ → ℕ → ℕ → ℕ → ℕ → Cmd Vm (Unit {0})
unfolding page_remove
free_ptes zero pteno pgdir asid pdeno pt = pure tt
free_ptes (suc n) pteno pgdir asid pdeno pt = do
  pte ← read_word (pt, pteno)
  if valid pte then page_remove pgdir asid (bit_or (pdeno * 2 ^ 22) (pteno * 2 ^ 12)) else pure tt
  free_ptes n (pteno + 1) pgdir asid pdeno pt

unfoldable pub free_table : ℕ → ℕ → ℕ → ℕ → Cmd Vm (Unit {0})
unfolding kaddr free_ptes write_word pa2page page_decref tlb_invalidate
free_table pde pgdir asid pdeno = do
  pt ← kaddr (pte_addr pde)
  free_ptes 1024 0 pgdir asid pdeno pt
  write_word (pgdir, pdeno) 0
  p ← pa2page (pte_addr pde)
  page_decref p
  tlb_invalidate asid (uvpt + pdeno * 2 ^ 12)

unfoldable pub free_pde : ℕ → ℕ → ℕ → Cmd Vm (Unit {0})
unfolding free_table
free_pde pgdir asid pdeno = do
  pde ← read_word (pgdir, pdeno)
  if valid pde then free_table pde pgdir asid pdeno else pure tt

unfoldable pub free_pdes : ℕ → ℕ → ℕ → ℕ → Cmd Vm (Unit {0})
unfolding free_pde
free_pdes zero pdeno pgdir asid = pure tt
free_pdes (suc n) pdeno pgdir asid = do
  free_pde pgdir asid pdeno
  free_pdes n (pdeno + 1) pgdir asid

unfoldable pub env_free : ℕ → Cmd Kernel (Unit {0})
unfolding free_pdes page_decref asid_free tlb_invalidate
env_free e = do
  env ← env_at e
  on_vm (free_pdes (pdx utop) 0 env.env_pgdir env.env_asid)
  on_vm (page_decref env.env_pgdir)
  asid_free env.env_asid
  on_vm (tlb_invalidate env.env_asid (uvpt + pdx uvpt * 2 ^ 12))
  set_env e (λ env. record env { env_status = env_free_status })
  k ← get
  put (record k { env_free_list = e ∷ k.env_free_list })
  sched_remove e

-- The context on the kernel stack goes to the environment that ran before.
abbrev pub save_context : Option ℕ → Kernel → Kernel
save_context none k = k
save_context (some c) k = record k {
  envs = update k.envs c (record (k.envs c) { env_tf = k.kstack });
}

-- `env_run`: the old context is saved from the kernel stack, and user mode is entered in `e`.
unfoldable pub env_run : ℕ → Cmd Kernel (Unit {0})
env_run e = do
  env ← env_at e
  assert (env.env_status == env_runnable)
  k ← get
  put (save_context k.curenv k)
  k ← get
  put (record k { curenv = some e })
  set_env e (λ env. record env { env_runs = (env.env_runs + 1) % 2 ^ 32 })
  env ← env_at e
  k ← get
  put (record k { cur_pgdir = env.env_pgdir })
  (λ k. enter k)
