-- ===== src/Pipe.antt =====
-- The pipe of user/lib/pipe.c: a ring of 32 bytes with free-running 32-bit counters, shared by a
-- reader and a writer. A loop runs up to its return or to `syscall_yield`, after which others run;
-- `closed` is what `_pipe_is_closed` answers at that point.
pub mod Fifo
use buaa_os.Base.{
  ℕ, zero, suc, ◌+◌, ◌-◌, ◌%◌, ◌^◌, Bool, true, false, not, ◌&&◌, ◌||◌, Option, none, some, List,
  [], ◌∷◌, ltb, ◌==◌, if◌then◌else◌,
}
use buaa_os.Vm.{update}

abbrev pub by2pipe : ℕ
by2pipe = 32

pub record Pipe : Type 0 where
  pub rpos : ℕ
  pub wpos : ℕ
  pub buf : ℕ → ℕ

-- One round of the loop of `_pipe_is_closed`: `env_runs` before and after, and the counts.
pub record Sample : Type 0 where
  pub runs : ℕ
  pub fd_ref : ℕ
  pub pipe_ref : ℕ
  pub runs_after : ℕ

-- `none` is a loop that has not ended within the samples.
abbrev pub pipe_is_closed : List Sample → Option Bool
pipe_is_closed [] = none
pipe_is_closed (s ∷ more) =
    if s.runs == s.runs_after then some (s.fd_ref == s.pipe_ref) else pipe_is_closed more

-- A loop that returned, or yielded. The list holds the bytes that `pipe_read` has stored, or those
-- that `pipe_write` has not.
pub data Transfer : Type 0 where
  returned : List ℕ → Pipe → Transfer
  yields : List ℕ → Pipe → Transfer

abbrev pub stored : ℕ → Transfer → Transfer
stored b (returned bs p) = returned (b ∷ bs) p
stored b (yields bs p) = yields (b ∷ bs) p

-- `rbuf[i] = p->p_buf[p->p_rpos % BY2PIPE]; p->p_rpos++`.
abbrev pub next_byte : Pipe → ℕ
next_byte p = p.buf (p.rpos % by2pipe)

abbrev pub advance : Pipe → Pipe
advance p = record p { rpos = (p.rpos + 1) % 2 ^ 32 }

-- The loop of `pipe_read` with `n` bytes to go, `i` of them stored.
unfoldable pub read_loop : ℕ → ℕ → Bool → Pipe → Transfer
read_loop zero i closed p = returned [] p
read_loop (suc n) i closed p =
    let rest = read_loop n (i + 1) closed (advance p) in
    if p.rpos == p.wpos
    then (if closed || ltb 0 i then returned [] p else yields [] p)
    else stored (next_byte p) rest

unfoldable pub pipe_read : ℕ → Bool → Pipe → Transfer
unfolding read_loop
pipe_read n closed p = read_loop n 0 closed p

-- `p->p_buf[p->p_wpos % BY2PIPE] = wbuf[i]; p->p_wpos++`.
abbrev pub put_byte : ℕ → Pipe → Pipe
put_byte b p = record p { buf = update p.buf (p.wpos % by2pipe) b; wpos = (p.wpos + 1) % 2 ^ 32 }

-- The counters are subtracted on 32 bits.
abbrev pub is_full : Pipe → Bool
is_full p = (p.wpos + 2 ^ 32 - p.rpos) % 2 ^ 32 == by2pipe

unfoldable pub pipe_write : List ℕ → Bool → Pipe → Transfer
pipe_write [] closed p = returned [] p
pipe_write (b ∷ bs) closed p =
    let rest = pipe_write bs closed (put_byte b p) in
    if is_full p then (if closed then returned (b ∷ bs) p else yields (b ∷ bs) p) else rest
