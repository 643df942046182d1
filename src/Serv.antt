-- ===== src/Serv.antt =====
-- The file system server fs/serv.c: the table of open files and what its handlers are built from.
-- The answers that `ipc_send` delivers are kept in the state.
pub mod Requests
pub mod Grown
pub mod Entry
pub mod Table
pub mod Ids
pub mod Held
pub mod Answers
pub mod Sure
use buaa_os.Base.{
  ℕ, zero, suc, ◌+◌, ◌-◌, ◌*◌, ◌/◌, ◌%◌, ◌^◌, bit_and, Bool, true, false, not, ◌&&◌, ◌||◌, Option,
  none, some, List, [], ◌∷◌, ltb, leb, ◌==◌, if◌then◌else◌,
}
use buaa_os.Run.{
  Run, ok, fail, panic, enter, no_mem, max_open, inval, Error, Cmd, pure, throw, get, put, ◌>>=◌,
  ◌>>◌,
}
use buaa_os.Vm.{update, update_word}
use buaa_os.Fs.{Fs, Ptr, load, store, f_type, by2blk}
use buaa_os.Fs.Block.{fs_sync}
use buaa_os.Fs.Inode.{file_get_block, file_set_size, file_close, file_dirty}
use buaa_os.Fs.Dir.{file_open, file_create, file_remove}

-- `struct Filefd`, with the words of `f_file`.
pub record Filefd : Type 0 where
  pub fd_dev_id : ℕ
  pub fd_omode : ℕ
  pub f_fileid : ℕ
  pub f_file : ℕ → ℕ

-- The value of an answer, and the page that goes with it.
pub data Value : Type 0 where
  success : Value
  code : Error → Value
  word : ℕ → Value

pub data Sent : Type 0 where
  no_page : Sent
  filefd_page : ℕ → Sent
  block_page : ℕ → Sent

pub record Answer : Type 0 where
  pub whom : ℕ
  pub value : Value
  pub page : Sent

-- `opentab`, by index, with the Filefd page of each entry and what `pageref` counts for it.
-- `o_file` is `none` for the null pointer. The latest answer is first.
pub record Serv : Type 0 where
  pub fs : Fs
  pub o_file : ℕ → Option Ptr
  pub o_fileid : ℕ → ℕ
  pub o_mode : ℕ → ℕ
  pub o_ff : ℕ → Filefd
  pub refs : ℕ → ℕ
  pub answers : List Answer

abbrev pub maxopen : ℕ
maxopen = 1024

-- A function of fs/fs.c.
module _ {A : Type 0} where
  abbrev pub within : Serv → Run Fs A → Run Serv A
  within s (ok a t) = ok a (record s { fs = t })
  within s (fail e t) = fail e (record s { fs = t })
  within s panic = panic
  within s (enter t) = enter (record s { fs = t })

  abbrev pub on_fs : Cmd Fs A → Cmd Serv A
  on_fs m s = within s (m s.fs)

abbrev pub empty_filefd : Filefd
empty_filefd = record { fd_dev_id = 0; fd_omode = 0; f_fileid = 0; f_file = λ _. 0 }

-- The loop of `serve_init`, with `n` entries from `i` on to go.
unfoldable pub init_entries : ℕ → ℕ → Serv → Serv
init_entries zero i s = s
init_entries (suc n) i s = init_entries n (i + 1) (record s { o_fileid = update s.o_fileid i i })

unfoldable pub serve_init : Serv → Serv
unfolding init_entries
serve_init s = init_entries maxopen 0 s

-- Entry `i` gets a new id, and its page is cleared.
abbrev pub take_entry : ℕ → Cmd Serv ℕ
take_entry i s = ok i (record s {
  o_fileid = update s.o_fileid i ((s.o_fileid i + maxopen) % 2 ^ 32);
  o_ff = update s.o_ff i empty_filefd;
})

-- `syscall_mem_alloc` for the page of entry `i`.
abbrev pub alloc_filefd : ℕ → Cmd Serv (Unit {0})
alloc_filefd i s =
    if s.fs.free_pages == 0
    then fail no_mem s
    else ok tt (record s {
      fs = record s.fs { free_pages = s.fs.free_pages - 1 };
      refs = update s.refs i 1;
    })

-- The loop of `open_alloc` from entry `i` on, with `n` rounds left.
unfoldable pub alloc_entry : ℕ → ℕ → Cmd Serv ℕ
alloc_entry zero i s = fail max_open s
alloc_entry (suc n) i s =
    let rest = alloc_entry n (i + 1) s in
    if s.refs i == 0
    then (do alloc_filefd i; take_entry i) s
    else if s.refs i == 1
    then take_entry i s
    else rest

-- The result is the entry `*o`; the id that the function returns is the entry's `o_fileid`.
unfoldable pub open_alloc : Cmd Serv ℕ
unfolding alloc_entry
open_alloc = alloc_entry maxopen 0

-- The result is the entry `*po`.
unfoldable pub open_lookup : ℕ → Cmd Serv ℕ
open_lookup fileid s =
    let i = fileid % maxopen in
    if (s.refs i == 1) || not (s.o_fileid i == fileid) then fail inval s else ok i s

-- The receiver gets one more mapping of the page of a Filefd; its count `pp_ref` is a u_short.
abbrev pub sent_refs : Sent → (ℕ → ℕ) → ℕ → ℕ
sent_refs no_page r = r
sent_refs (filefd_page i) r = update r i ((r i + 1) % 2 ^ 16)
sent_refs (block_page b) r = r

abbrev pub ipc_send : ℕ → Value → Sent → Cmd Serv (Unit {0})
ipc_send envid v page s = ok tt (record s {
  refs = sent_refs page s.refs;
  answers = record { whom = envid; value = v; page = page } ∷ s.answers;
})

-- `if ((r = …) < 0) { ipc_send(envid, r, 0, 0); return; }`, and what follows.
module _ {A : Type 0} where
  abbrev pub or_answer : ℕ → (A → Cmd Serv (Unit {0})) → Run Serv A → Run Serv (Unit {0})
  or_answer envid next (ok a s) = next a s
  or_answer envid next (fail e s) = ipc_send envid (code e) no_page s
  or_answer envid next panic = panic
  or_answer envid next (enter s) = enter s

  abbrev pub try_call : ℕ → Cmd Serv A → (A → Cmd Serv (Unit {0})) → Cmd Serv (Unit {0})
  try_call envid m next s = or_answer envid next (m s)

-- `o->o_file` where it is used: the null pointer is not mapped, and the page fault is a panic.
abbrev pub file_of : ℕ → Cmd Serv Ptr
file_of i s = elim (s.o_file i) [ none ↦ panic | some f ↦ ok f s ]

-- The words of a file, from its first on.
abbrev pub file_words : Ptr → Fs → ℕ → ℕ
file_words (b, w) t k = t.mem b (w + k)

-- The character f.
abbrev pub dev_file : ℕ
dev_file = 102
