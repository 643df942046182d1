-- ===== src/Tests/Process.antt =====
-- Environments: three are in use, 0 runs, 1 is its child and can run, 2 waits for a message.
use buaa_os.Elf.{Phdr, elf_load_seg}
use buaa_os.Elf.Image.{map_into, image, elf_load_seg-image}
use buaa_os.Base.{
  suc, Option, inr, ◌%◌, ◌/◌, ◌<◌, ℕ, ◌+◌, ◌*◌, ◌^◌, ◌≡◌, ◌≢◌, refl, true, false, ◌||◌, none, some,
  [], ◌∷◌, ◌==◌, if◌then◌else◌, arith, inl,
}
use buaa_os.Run.{ok, enter}
use buaa_os.Vm.{Vm}
use buaa_os.Queue.Tailq.{Tailq, head, link, remove}
use buaa_os.Queue.Tailq.Links.{IsQueue}
use buaa_os.Queue.Tailq.Remove.{remove-IsQueue}
use buaa_os.Kernel.{Trapframe, Env, Kernel}
use buaa_os.Env.{asid_alloc, envid2env, mkenvid, envx, id_of}
use buaa_os.Env.Asid.{AsidOutcome, asid_alloc_outcome}
use buaa_os.Env.Ids.{EnvidOutcome, envid2env_outcome, mkenvid_unique}
use buaa_os.Sched.{must_switch, schedule}
use buaa_os.Sched.Fair.{ticks, turns, slices_left, schedule_fair}
use buaa_os.Sched.Rotate.{SchedOk, Runs, Continues, turned_from, schedule_outcome}
use buaa_os.Syscall.{sys_set_env_status, sys_ipc_recv, sys_ipc_try_send}
use buaa_os.Syscall.Status.{StatusOutcome, sys_set_env_status_outcome}
use buaa_os.Syscall.Ipc.{RecvOutcome, sys_ipc_recv_outcome, SendOutcome, sys_ipc_try_send_outcome}

abbrev frame : Trapframe
frame = record {
  regs = λ _. 0;
  cp0_status = 0;
  hi = 0;
  lo = 0;
  cp0_badvaddr = 0;
  cp0_cause = 0;
  cp0_epc = 0;
}

abbrev memory : Vm
memory = record { npage = 16; pp_ref = λ _. 0; page_free_list = []; mem = λ _ _. 0; flushed = [] }

abbrev queue : Tailq
queue = record {
  first = some 0;
  last = link 1;
  next = λ e. if e == 0 then some 1 else none;
  prev = λ e. if e == 0 then head else link 0;
}

abbrev environment : ℕ → Env
environment e = record {
  env_tf = frame;
  env_id = (e + 1) * 2 ^ 11 + e;
  env_asid = e;
  env_parent_id = if e == 1 then 2048 else 0;
  env_status = if (e == 0) || (e == 1) then 1 else if e == 2 then 2 else 0;
  env_pgdir = e;
  env_pri = 3;
  env_ipc_value = 0;
  env_ipc_from = 0;
  env_ipc_recving = if e == 2 then 1 else 0;
  env_ipc_dstva = 0;
  env_ipc_perm = 0;
  env_user_tlb_mod_entry = 0;
  env_runs = 0;
}

abbrev system : Kernel
system = record {
  vm = memory;
  cur_pgdir = 0;
  base_pgdir = 9;
  envs = environment;
  curenv = some 0;
  env_free_list = 3 ∷ [];
  env_sched_list = queue;
  asid_bitmap = λ i. if i == 0 then 7 else 0;
  ids = 3;
  slices = 2;
  kstack = frame;
}

in_order : IsQueue queue (0 ∷ 1 ∷ [])
in_order = record {
  links = (refl, refl, (refl, refl, (refl, refl)));
  distinct = (refl, (refl, tt));
}

scheduled : SchedOk system (0 ∷ 1 ∷ [])
scheduled = record {
  queue = in_order;
  runnable = λ e h. ground arith;
  listed = λ e h. ground arith;
}

remove-IsQueue_example : (q' : Tailq) × (remove 0 queue ≡ some q') × IsQueue q' (1 ∷ [])
remove-IsQueue_example = remove-IsQueue 0 queue (0 ∷ 1 ∷ []) in_order refl

asid_alloc_outcome_example : AsidOutcome system (asid_alloc system)
asid_alloc_outcome_example = asid_alloc_outcome system

envid2env_outcome_example : EnvidOutcome system 4097 true (envid2env 4097 true system)
envid2env_outcome_example = envid2env_outcome system 4097 true

-- A free slot.
abbrev slot : ℕ
slot = 3

abbrev later : Kernel
later = record system { ids = 4 }

mkenvid_unique_example :
    (envx (id_of 4 3) ≡ 3)
    × (id_of 4 3 ≢ 0)
    × (later.ids ≡ system.ids + 1)
    × (id_of 4 3 ≡ id_of 5 3 → (slot ≡ slot) × (system.ids ≡ later.ids))
unfolding mkenvid
mkenvid_unique_example =
    mkenvid_unique 3 3 system later later (record later { ids = 5 }) (id_of 4 3) (id_of 5 3)
      (omega arith) (omega arith) (omega arith) (omega arith) refl refl

schedule_outcome_example :
    (must_switch true system ≡ true
      → Runs system (turned_from system.curenv (0 ∷ 1 ∷ [])) (schedule true system))
    × (must_switch true system ≡ false → Continues system (0 ∷ 1 ∷ []) (schedule true system))
schedule_outcome_example = schedule_outcome true system (0 ∷ 1 ∷ []) scheduled (inl refl)

sys_set_env_status_outcome_example : StatusOutcome system 4097 2 (sys_set_env_status 4097 2 system)
sys_set_env_status_outcome_example = sys_set_env_status_outcome system (0 ∷ 1 ∷ []) 4097 2 scheduled

sys_ipc_recv_outcome_example : RecvOutcome system (0 ∷ 1 ∷ []) 0 0 (sys_ipc_recv 0 system)
sys_ipc_recv_outcome_example = sys_ipc_recv_outcome system (0 ∷ 1 ∷ []) 0 0 scheduled refl refl

idle_receivers : (e : ℕ) → (system.envs e).env_ipc_recving ≢ 0 → (system.envs e).env_status ≢ 1
idle_receivers e h r = ground arith

sys_ipc_try_send_outcome_example :
    SendOutcome system (0 ∷ 1 ∷ []) 0 6146 77 0 (sys_ipc_try_send 6146 77 0 0 system)
sys_ipc_try_send_outcome_example =
    sys_ipc_try_send_outcome system (0 ∷ 1 ∷ []) 0 6146 77 0 scheduled refl idle_receivers

-- A segment that starts inside a page, with zeros behind its bytes.
abbrev segment : Phdr
segment = record { p_vaddr = 0x40_0100; p_filesz = 5000; p_memsz = 9000; p_flags = 6 }

elf_load_seg-image_example :
    (m : ℕ → Option ℕ) × (elf_load_seg (map_into (λ x. x % 256)) segment (λ _. none) ≡ ok tt m)
    × ((x : ℕ) → x < 9000 → m (0x40_0100 + x) ≡ some (image (λ x. x % 256) 5000 x))
    × ((a : ℕ) → a / 4096 < 0x400 → m a ≡ none)
elf_load_seg-image_example =
    elf_load_seg-image (λ x. x % 256) segment (λ _. none) (inr (omega arith)) (omega arith)
      (omega arith)

-- Environment 1 runs after the two slices that environment 0 has left.
schedule_fair_example :
    (k' : Kernel) × (ticks
        (slices_left system.slices + suc (turns (λ y. (system.envs y).env_pri) []))
        system
      ≡ enter k')
    × (k'.curenv ≡ some 1)
schedule_fair_example = schedule_fair system 0 [] [] 1 scheduled refl (λ y. omega arith)
