-- ===== src/Serv/Answers.antt =====
-- How fs/serv.c answers its requests.
use buaa_os.Base.{
  ℕ, ◌+◌, ◌/◌, ◌%◌, ◌^◌, ◌≡◌, refl, ap, sym, subst, false, not, ◌||◌, Option, none, some, List, ◌∷◌,
  leb, ◌==◌, Bool-cases, inl, inr,
}
use buaa_os.Run.{Run, ok, fail, panic, enter, Error, Cmd, ◌>>=◌, ◌>>◌, and_then}
use buaa_os.Vm.{update_word}
use buaa_os.Fs.{Fs, Ptr, store, f_type, by2blk}
use buaa_os.Fs.Block.{fs_sync}
use buaa_os.Fs.Inode.{file_get_block, file_set_size, file_close, file_dirty}
use buaa_os.Fs.Dir.{file_open, file_create, file_remove}
use buaa_os.Serv.{
  Serv, Answer, Value, code, success, Sent, no_page, filefd_page, block_page, within, on_fs,
  open_alloc, open_lookup, ipc_send, or_answer, try_call, file_of,
}
use buaa_os.Serv.Requests.{
  opened, open_with, serve_open, serve_create, serve_map, serve_set_size, serve_close, serve_remove,
  serve_dirty, serve_sync, Request, fsreq_open, fsreq_create, fsreq_map, fsreq_set_size,
  fsreq_close, fsreq_dirty, fsreq_remove, fsreq_sync, unknown, serve_request,
}
use buaa_os.Serv.Entry.{EntryOutcome, open_alloc-EntryOutcome}
use buaa_os.Serv.Sure.{NoError, fs_sync-Sure, file_close-Sure}

-- `l` with one answer to `whom` more, unless the server panics; there is no error left.
abbrev pub Once : ℕ → List Answer → Run Serv (Unit {0}) → Type 0
Once whom l (ok a s) = (x : Answer) × (s.answers ≡ x ∷ l) × (x.whom ≡ whom)
Once whom l (fail e s) = ⊥
Once whom l panic = Unit
Once whom l (enter s) = Unit

-- No answer yet.
abbrev Silent : {A : Type 0} → List Answer → Run Serv A → Type 0
Silent l (ok a s) = s.answers ≡ l
Silent l (fail e s) = s.answers ≡ l
Silent l panic = Unit
Silent l (enter s) = Unit

within-Silent : {A : Type 0} (s : Serv) (r : Run Fs A) → Silent s.answers (within s r)
within-Silent s (ok a t) = refl
within-Silent s (fail e t) = refl
within-Silent s panic = tt
within-Silent s (enter t) = tt

sent-Once :
    (whom : ℕ) (v : Value) (page : Sent) (l : List Answer) (s : Serv)
    → s.answers ≡ l
    → Once whom l (ipc_send whom v page s)
sent-Once whom v page l s h = (
  record { whom = whom; value = v; page = page },
  ap (λ k. record { whom = whom; value = v; page = page } ∷ k) h,
  refl,
)

module _ {A : Type 0} (whom : ℕ) (l : List Answer) (next : A → Cmd Serv (Unit {0})) where
  try-Once :
      ((a : A) (s : Serv) → s.answers ≡ l → Once whom l (next a s))
      → (r : Run Serv A) → Silent l r
      → Once whom l (or_answer whom next r)
  try-Once k (ok a s) h = k a s h
  try-Once k (fail e s) h = sent-Once whom (code e) no_page l s h
  try-Once k panic h = tt
  try-Once k (enter s) h = tt

  -- A function of fs/fs.c that cannot fail, and what follows.
  then-Once :
      ((a : A) (s : Serv) → s.answers ≡ l → Once whom l (next a s))
      → (s : Serv) (r : Run Fs A) → NoError r
      → s.answers ≡ l
      → Once whom l (and_then (within s r) next)
  then-Once k s (ok a t) h e = k a (record s { fs = t }) e
  then-Once k s (fail x t) h e = elim h [ ]
  then-Once k s panic h e = tt
  then-Once k s (enter t) h e = tt

  -- A function of fs/fs.c, its error or what follows.
  call-Once :
      ((a : A) (s : Serv) → s.answers ≡ l → Once whom l (next a s))
      → (m : Cmd Fs A) (s : Serv) → s.answers ≡ l
      → Once whom l (try_call whom (on_fs m) next s)
  call-Once k m s e =
      try-Once k (within s (m s.fs))
        (subst (λ q. Silent q (within s (m s.fs))) e (within-Silent s (m s.fs)))

-- A handler that looks up an id and works on its file.
lookup-Once :
    (whom fileid : ℕ) (l : List Answer) (k : Ptr → Cmd Serv (Unit {0}))
    → ((f : Ptr) (s : Serv) → s.answers ≡ l → Once whom l (k f s))
    → (s : Serv) → s.answers ≡ l
    → Once whom l (try_call whom (open_lookup fileid) (λ i. file_of i >>= k) s)
unfolding open_lookup
lookup-Once whom fileid l k h s e =
    elim (Bool-cases
      ((s.refs (fileid % 1024) == 1) || not (s.o_fileid (fileid % 1024) == fileid))) [
        | inl t ↦ rw t (sent-Once whom (code Error.inval) no_page l s e)
        | inr t ↦ rw t (known (s.o_file (fileid % 1024)))
      ]
  where
    known : (f : Option Ptr) → Once whom l (and_then (elim f [ none ↦ panic | some p ↦ ok p s ]) k)
    known none = tt
    known (some p) = h p s e

open-Once :
    (whom : ℕ) (path : List ℕ) (omode i : ℕ) (s t : Serv)
    → open_alloc s ≡ ok i t
    → leb (2 ^ 31) (t.o_fileid i) ≡ false
    → Once whom s.answers (serve_open whom path omode s)
unfolding serve_open
open-Once whom path omode i s t p positive =
    let a = subst (EntryOutcome 0 s) p (open_alloc-EntryOutcome s) in
    let (f, m, silent) = a.files in
    subst (λ r. Once whom s.answers (open_with whom path omode r)) (sym p)
      (rw positive (
        call-Once whom s.answers (opened whom omode i) (λ f u e. opened-Once f u e) (file_open path)
          t silent))
  where
    opened-Once :
        (f : Ptr) (u : Serv) → u.answers ≡ s.answers → Once whom s.answers (opened whom omode i f u)
    opened-Once f u e = (
      record { whom = whom; value = success; page = filefd_page i },
      ap (λ k. record { whom = whom; value = success; page = filefd_page i } ∷ k) e,
      refl,
    )

-- What a request needs to be answered once: there is an entry for a file to open, and its id is
-- not negative as an int; the request is known.
abbrev pub Served : Request → Serv → Type 0
Served (fsreq_open path omode) s =
    (i : ℕ) × (t : Serv) × (open_alloc s ≡ ok i t) × (leb (2 ^ 31) (t.o_fileid i) ≡ false)
Served unknown s = ⊥
Served _ s = Unit

-- Every known request, with an entry of a non-negative id for an open, is answered exactly once, to
-- the environment that sent it, unless the server panics: errors are answers too, and no handler
-- ends in an error that it does not answer.
pub serve_request-Once :
    (whom : ℕ) (r : Request) (s : Serv) → Served r s → Once whom s.answers (serve_request whom r s)
unfolding serve_request serve_create serve_map serve_set_size serve_close serve_dirty serve_remove
    serve_sync
serve_request-Once whom (fsreq_open path omode) s h =
    let (i, t, p, positive) = h in open-Once whom path omode i s t p positive
serve_request-Once whom (fsreq_create path ftype) s h =
    call-Once whom s.answers (λ f. on_fs (store (f_type f) ftype) >> ipc_send whom success no_page)
      (λ f t e.
        sent-Once whom success no_page s.answers
          (record t { fs = record t.fs { mem = update_word t.fs.mem f.0 (f.1 + 33) ftype } }) e)
      (file_create path) s refl
serve_request-Once whom (fsreq_map fileid offset) s h =
    lookup-Once whom fileid s.answers
      (λ f.
        try_call whom (on_fs (file_get_block f (offset / by2blk)))
          (λ b. ipc_send whom success (block_page b)))
      (λ f.
        call-Once whom s.answers (λ b. ipc_send whom success (block_page b))
          (λ b t e. sent-Once whom success (block_page b) s.answers t e)
          (file_get_block f (offset / by2blk)))
      s refl
serve_request-Once whom (fsreq_set_size fileid size) s h =
    lookup-Once whom fileid s.answers
      (λ f. try_call whom (on_fs (file_set_size f size)) (λ _. ipc_send whom success no_page))
      (λ f.
        call-Once whom s.answers (λ _. ipc_send whom success no_page)
          (λ _ t e. sent-Once whom success no_page s.answers t e) (file_set_size f size))
      s refl
serve_request-Once whom (fsreq_close fileid) s h =
    lookup-Once whom fileid s.answers (λ f. on_fs (file_close f) >> ipc_send whom success no_page)
      (λ f t e.
        then-Once whom s.answers (λ _. ipc_send whom success no_page)
          (λ _ u e'. sent-Once whom success no_page s.answers u e') t (file_close f t.fs)
          (file_close-Sure f t.fs) e)
      s refl
serve_request-Once whom (fsreq_dirty fileid offset) s h =
    lookup-Once whom fileid s.answers
      (λ f. try_call whom (on_fs (file_dirty f offset)) (λ _. ipc_send whom success no_page))
      (λ f.
        call-Once whom s.answers (λ _. ipc_send whom success no_page)
          (λ _ t e. sent-Once whom success no_page s.answers t e) (file_dirty f offset))
      s refl
serve_request-Once whom (fsreq_remove path) s h =
    call-Once whom s.answers (λ _. ipc_send whom success no_page)
      (λ _ t e. sent-Once whom success no_page s.answers t e) (file_remove path) s refl
serve_request-Once whom fsreq_sync s h =
    then-Once whom s.answers (λ _. ipc_send whom success no_page)
      (λ _ t e. sent-Once whom success no_page s.answers t e) s (fs_sync s.fs) (fs_sync-Sure s.fs)
      refl
serve_request-Once whom unknown s h = elim h [ ]
