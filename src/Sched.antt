-- ===== src/Sched.antt =====
-- kern/sched.c, and `env_destroy` of kern/env.c, which calls it.
pub mod Rotate
pub mod Fair
use buaa_os.Base.{
  ℕ, ◌+◌, ◌-◌, ◌%◌, ◌^◌, Bool, true, false, not, ◌||◌, Option, none, some, leb, ◌==◌, if◌then◌else◌,
}
use buaa_os.Run.{Run, ok, panic, enter, Cmd, pure, get, put, ◌>>=◌, ◌>>◌}
use buaa_os.Kernel.{Env, Kernel, env_runnable, env_at, sched_insert_tail, sched_remove}
use buaa_os.Env.{env_run, env_free}

-- `count <= 0`, for the `int` whose 32-bit pattern is `c`.
abbrev pub spent : ℕ → Bool
spent c = (c == 0) || leb (2 ^ 31) c

-- Whether the environment that ran last, `e`, has to make room.
abbrev pub cannot_run : Option ℕ → Kernel → Bool
cannot_run none k = true
cannot_run (some e) k = not ((k.envs e).env_status == env_runnable)

unfoldable pub must_switch : Bool → Kernel → Bool
must_switch yield k = yield || (spent k.slices || cannot_run k.curenv k)

-- The environment that ran last leaves the queue, and joins its end if it can still run.
unfoldable pub rejoin : ℕ → Cmd Kernel (Unit {0})
rejoin e = do
  sched_remove e
  env ← env_at e
  if env.env_status == env_runnable then sched_insert_tail e else pure tt

abbrev pub rotate_from : Option ℕ → Cmd Kernel (Unit {0})
rotate_from none k = ok tt k
rotate_from (some e) k = rejoin e k

unfoldable pub rotate : Cmd Kernel (Unit {0})
unfolding rejoin
rotate k = rotate_from k.curenv k

-- The head of the queue is picked, and its priority becomes the number of slices.
abbrev pub pick_from : Option ℕ → Cmd Kernel ℕ
pick_from none k = panic
pick_from (some e) k = ok e (record k { slices = (k.envs e).env_pri })

unfoldable pub pick : Cmd Kernel ℕ
pick k = pick_from k.env_sched_list.first k

-- `count--` and the switch.
unfoldable pub run_slice : ℕ → Cmd Kernel (Unit {0})
unfolding env_run
run_slice e = do k ← get; put (record k { slices = (k.slices + 2 ^ 32 - 1) % 2 ^ 32 }); env_run e

unfoldable pub run_next : Cmd Kernel (Unit {0})
unfolding rotate pick run_slice
run_next = do rotate; e ← pick; run_slice e

-- Without a switch `e` is `curenv`, which is not null then.
abbrev pub run_again_from : Option ℕ → Cmd Kernel (Unit {0})
run_again_from none k = panic
run_again_from (some e) k = run_slice e k

unfoldable pub run_again : Cmd Kernel (Unit {0})
unfolding run_slice
run_again k = run_again_from k.curenv k

unfoldable pub schedule : Bool → Cmd Kernel (Unit {0})
unfolding must_switch run_next run_again
schedule yield k = if must_switch yield k then run_next k else run_again k

-- `env_destroy`.
abbrev pub leave_from : Option ℕ → ℕ → Cmd Kernel (Unit {0})
leave_from none e k = ok tt k
leave_from (some c) e k = if c == e then schedule true (record k { curenv = none }) else ok tt k

unfoldable pub leave : ℕ → Cmd Kernel (Unit {0})
unfolding schedule
leave e k = leave_from k.curenv e k

unfoldable pub env_destroy : ℕ → Cmd Kernel (Unit {0})
unfolding env_free leave
env_destroy e = do env_free e; leave e
