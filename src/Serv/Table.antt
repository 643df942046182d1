-- ===== src/Serv/Table.antt =====
-- The table of open files of fs/serv.c under requests and the clients' mappings.
use buaa_os.Base.{
  ℕ, ◌/◌, ◌%◌, ◌^◌, ◌≤◌, ◌<◌, ◌≡◌, ◌≢◌, refl, ap, sym, subst, List, ◌∷◌, leb, ◌==◌, arith,
  Bool-cases, inl, inr, ==-ne,
}
use buaa_os.Run.{Run, ok, fail, panic, enter, Error, Cmd, ◌>>=◌, ◌>>◌, After}
use buaa_os.Fs.{Fs, Ptr, store, f_type, by2blk}
use buaa_os.Fs.Block.{fs_sync}
use buaa_os.Fs.Inode.{file_get_block, file_set_size, file_close, file_dirty}
use buaa_os.Fs.Dir.{file_open, file_create, file_remove}
use buaa_os.Serv.{
  Serv, code, success, word, no_page, block_page, within, on_fs, open_alloc, open_lookup, ipc_send,
  or_answer, try_call, file_of,
}
use buaa_os.Serv.Requests.{
  opened, open_without, open_with, serve_open, serve_create, serve_map, serve_set_size, serve_close,
  serve_remove, serve_dirty, serve_sync, Request, fsreq_open, fsreq_create, fsreq_map,
  fsreq_set_size, fsreq_close, fsreq_dirty, fsreq_remove, fsreq_sync, unknown, serve_request,
}
use buaa_os.Serv.Grown.{
  Grown, Grown-refl, Grown-trans, Grows, file_of-Grows, ipc_send-Grows, open_lookup-Grows,
  then_Grows, try_call-Grows, widen, within-Grown,
}
use buaa_os.Serv.Entry.{Allocated, EntryOutcome, open_alloc-EntryOutcome}

-- An entry that was given is a change that keeps what others hold.
pub Allocated-Grown : (s s' : Serv) (i : ℕ) → Allocated 0 s s' i → Grown s s'
Allocated-Grown s s' i a = record {
  held = λ j k.
      let d : j ≢ i =
        λ e. let u = a.unused in let k' = subst (λ q. 2 ≤ s.refs q) e k in omega arith in
      let (x, y) = a.others j d in
      let (f, m, q) = a.files in (x, (y, ap (λ g. g j) f, ap (λ g. g j) m));
  tidy = λ t j low. elim (Bool-cases (j == i)) [
    | inl e ↦
        let at_i : i ≡ j = ground arith in
        let (p, q) = t i a.index in
        subst (λ k. (s'.o_fileid k % 1024 ≡ k) × (s'.o_fileid k < 2 ^ 32)) at_i
          (rw a.id (omega arith, omega arith))
    | inr e ↦ let (x, y) = a.others j (λ p. ground arith) in rw y (t j low)
  ];
}

-- The file of the entry that `open_alloc` gave is set, and its page sent.
opened-Grown :
    (envid omode i : ℕ) (f : Ptr) (s : Serv)
    → s.refs i ≡ 1
    → After (Grown s) (opened envid omode i f s)
opened-Grown envid omode i f s one = record {
  held = λ j k.
      let d : j ≢ i = λ e. let k' = subst (λ q. 2 ≤ s.refs q) e k in omega arith in
      rw (==-ne j i d) (refl, (refl, refl, refl));
  tidy = λ t. t;
}

module _ (envid omode i : ℕ) (path : List ℕ) where
  open_at-Grown :
      (s : Serv)
      → s.refs i ≡ 1
      → After (Grown s) (try_call envid (on_fs (file_open path)) (opened envid omode i) s)
  open_at-Grown s one = looked (file_open path s.fs)
    where
      looked :
          (r : Run Fs Ptr) → After (Grown s) (or_answer envid (opened envid omode i) (within s r))
      looked (ok f t) =
          Grown-trans (within-Grown s (ok f t))
            (opened-Grown envid omode i f (record s { fs = t }) one)
      looked (fail e t) =
          Grown-trans {s' = record s { fs = t }} (within-Grown {A = Ptr} s (fail e t))
            (ipc_send-Grows envid (code e) no_page tt (record s { fs = t }))
      looked panic = tt
      looked (enter t) = within-Grown {A = Ptr} s (enter t)

  open_entry-Grown :
      (s : Serv) → s.refs i ≡ 1 → After (Grown s) (open_with envid path omode (ok i s))
  open_entry-Grown s one = elim (Bool-cases (leb (2 ^ 31) (s.o_fileid i))) [
    | inl n ↦
        let t : Serv = record s {
          answers =
              record { whom = envid; value = word (s.o_fileid i); page = no_page } ∷ s.answers;
        } in
        rw n (
          widen (ipc_send-Grows envid (word (s.o_fileid i)) no_page tt s)
            (try_call envid (on_fs (file_open path)) (opened envid omode i) t)
            (open_at-Grown t one))
    | inr n ↦ rw n (open_at-Grown s one)
  ]

open_without-Grows : (envid : ℕ) (e : Error) (path : List ℕ) → Grows (open_without envid e path)
open_without-Grows envid e path =
    then_Grows (ipc_send envid (code e) no_page)
      (λ _. try_call envid (on_fs (file_open path)) (λ f s. panic))
      (ipc_send-Grows envid (code e) no_page tt)
      (λ _.
        try_call-Grows envid (on_fs (file_open path)) (λ f s. panic)
          (λ s. within-Grown s (file_open path s.fs)) (λ f s. tt))

open_with-Grown :
    (envid : ℕ) (path : List ℕ) (omode : ℕ) (s : Serv) (r : Run Serv ℕ)
    → EntryOutcome 0 s r
    → After (Grown s) (open_with envid path omode r)
open_with-Grown envid path omode s (ok i t) a =
    widen (Allocated-Grown s t i a) (open_with envid path omode (ok i t))
      (open_entry-Grown envid omode i path t a.one)
open_with-Grown envid path omode s (fail e t) (same, x) =
    subst (λ q. After (Grown s) (open_without envid e path q)) (sym same)
      (open_without-Grows envid e path s)
open_with-Grown envid path omode s panic o = tt
open_with-Grown envid path omode s (enter t) o = elim o [ ]

on_fs-Grows : {A : Type 0} (m : Cmd Fs A) → Grows (on_fs m)
on_fs-Grows m s = within-Grown s (m s.fs)

answer-Grows : (envid : ℕ) → Grows (ipc_send envid success no_page)
answer-Grows envid = ipc_send-Grows envid success no_page tt

-- A handler that looks up an id and works on its file.
with_file-Grows :
    (envid fileid : ℕ) (k : Ptr → Cmd Serv (Unit {0}))
    → ((f : Ptr) → Grows (k f))
    → Grows (try_call envid (open_lookup fileid) (λ i. file_of i >>= k))
with_file-Grows envid fileid k h =
    try_call-Grows envid (open_lookup fileid) (λ i. file_of i >>= k) (open_lookup-Grows fileid)
      (λ i. then_Grows (file_of i) k (file_of-Grows i) h)

pub serve_request-Grows : (whom : ℕ) (r : Request) → Grows (serve_request whom r)
unfolding serve_request serve_open serve_create serve_map serve_set_size serve_close serve_dirty
    serve_remove serve_sync
serve_request-Grows whom (fsreq_open path omode) =
    λ s. open_with-Grown whom path omode s (open_alloc s) (open_alloc-EntryOutcome s)
serve_request-Grows whom (fsreq_create path ftype) =
    try_call-Grows whom (on_fs (file_create path))
      (λ f. on_fs (store (f_type f) ftype) >> ipc_send whom success no_page)
      (on_fs-Grows (file_create path))
      (λ f.
        then_Grows (on_fs (store (f_type f) ftype)) (λ _. ipc_send whom success no_page)
          (on_fs-Grows (store (f_type f) ftype)) (λ _. answer-Grows whom))
serve_request-Grows whom (fsreq_map fileid offset) =
    with_file-Grows whom fileid
      (λ f.
        try_call whom (on_fs (file_get_block f (offset / by2blk)))
          (λ b. ipc_send whom success (block_page b)))
      (λ f.
        try_call-Grows whom (on_fs (file_get_block f (offset / by2blk)))
          (λ b. ipc_send whom success (block_page b))
          (on_fs-Grows (file_get_block f (offset / by2blk)))
          (λ b. ipc_send-Grows whom success (block_page b) tt))
serve_request-Grows whom (fsreq_set_size fileid size) =
    with_file-Grows whom fileid
      (λ f. try_call whom (on_fs (file_set_size f size)) (λ _. ipc_send whom success no_page))
      (λ f.
        try_call-Grows whom (on_fs (file_set_size f size)) (λ _. ipc_send whom success no_page)
          (on_fs-Grows (file_set_size f size)) (λ _. answer-Grows whom))
serve_request-Grows whom (fsreq_close fileid) =
    with_file-Grows whom fileid (λ f. on_fs (file_close f) >> ipc_send whom success no_page)
      (λ f.
        then_Grows (on_fs (file_close f)) (λ _. ipc_send whom success no_page)
          (on_fs-Grows (file_close f)) (λ _. answer-Grows whom))
serve_request-Grows whom (fsreq_dirty fileid offset) =
    with_file-Grows whom fileid
      (λ f. try_call whom (on_fs (file_dirty f offset)) (λ _. ipc_send whom success no_page))
      (λ f.
        try_call-Grows whom (on_fs (file_dirty f offset)) (λ _. ipc_send whom success no_page)
          (on_fs-Grows (file_dirty f offset)) (λ _. answer-Grows whom))
serve_request-Grows whom (fsreq_remove path) =
    try_call-Grows whom (on_fs (file_remove path)) (λ _. ipc_send whom success no_page)
      (on_fs-Grows (file_remove path)) (λ _. answer-Grows whom)
serve_request-Grows whom fsreq_sync =
    then_Grows (on_fs fs_sync) (λ _. ipc_send whom success no_page) (on_fs-Grows fs_sync)
      (λ _. answer-Grows whom)
serve_request-Grows whom unknown = λ s. Grown-refl s
