-- ===== src/Serv/Requests.antt =====
-- The handlers of fs/serv.c and its loop. A request is a message of user/include/fsreq.h; between two
-- requests the clients map, unmap and write the pages that they were sent.
use buaa_os.Base.{
  ℕ, ◌+◌, ◌-◌, ◌/◌, ◌%◌, ◌^◌, bit_and, Bool, some, List, [], ◌∷◌, leb, ◌==◌, if◌then◌else◌,
}
use buaa_os.Run.{Run, ok, fail, panic, enter, Error, Cmd, pure, get, put, ◌>>=◌, ◌>>◌}
use buaa_os.Vm.{update, update_word}
use buaa_os.Fs.{Ptr, store, f_type, by2blk}
use buaa_os.Fs.Block.{fs_sync}
use buaa_os.Fs.Inode.{file_get_block, file_set_size, file_close, file_dirty}
use buaa_os.Fs.Dir.{file_open, file_create, file_remove}
use buaa_os.Serv.{
  Serv, block_page, code, dev_file, file_of, file_words, filefd_page, ipc_send, no_page, on_fs,
  open_alloc, open_lookup, success, try_call, word,
}

-- Entry `i` describes the open file `f`, and its page is sent.
abbrev pub opened : ℕ → ℕ → ℕ → Ptr → Cmd Serv (Unit {0})
opened envid omode i f = do
  s ← get
  put (record s {
    o_file = update s.o_file i (some f);
    o_mode = update s.o_mode i omode;
    o_ff = update s.o_ff i (record {
      fd_dev_id = dev_file;
      fd_omode = omode;
      f_fileid = s.o_fileid i;
      f_file = file_words f s.fs;
    });
  })
  ipc_send envid success (filefd_page i)

-- Without an entry the error is answered, and the function goes on: an error of `file_open` is
-- answered too, and a file is stored through the pointer `o`, which was not set.
abbrev pub open_without : ℕ → Error → List ℕ → Cmd Serv (Unit {0})
open_without envid e path = do
  ipc_send envid (code e) no_page
  try_call envid (on_fs (file_open path)) (λ f s. panic)

-- The answer to an id that is negative as an int.
abbrev pub answer_negative : ℕ → ℕ → Cmd Serv (Unit {0})
answer_negative envid i s =
    if leb (2 ^ 31) (s.o_fileid i) then ipc_send envid (word (s.o_fileid i)) no_page s else ok tt s

abbrev pub open_with : ℕ → List ℕ → ℕ → Run Serv ℕ → Run Serv (Unit {0})
open_with envid path omode (ok i s) =
    (do answer_negative envid i; try_call envid (on_fs (file_open path)) (opened envid omode i)) s
open_with envid path omode (fail e s) = open_without envid e path s
open_with envid path omode panic = panic
open_with envid path omode (enter s) = enter s

unfoldable pub serve_open : ℕ → List ℕ → ℕ → Cmd Serv (Unit {0})
unfolding open_alloc file_open
serve_open envid path omode s = open_with envid path omode (open_alloc s)

unfoldable pub serve_create : ℕ → List ℕ → ℕ → Cmd Serv (Unit {0})
unfolding file_create
serve_create envid path ftype =
    try_call envid (on_fs (file_create path))
      λ f. do on_fs (store (f_type f) ftype); ipc_send envid success no_page

unfoldable pub serve_map : ℕ → ℕ → ℕ → Cmd Serv (Unit {0})
unfolding open_lookup file_get_block
serve_map envid fileid offset = try_call envid (open_lookup fileid) λ i. do
  f ← file_of i
  try_call envid (on_fs (file_get_block f (offset / by2blk)))
      λ b. ipc_send envid success (block_page b)

unfoldable pub serve_set_size : ℕ → ℕ → ℕ → Cmd Serv (Unit {0})
unfolding open_lookup file_set_size
serve_set_size envid fileid size = try_call envid (open_lookup fileid) λ i. do
  f ← file_of i
  try_call envid (on_fs (file_set_size f size)) λ _. ipc_send envid success no_page

unfoldable pub serve_close : ℕ → ℕ → Cmd Serv (Unit {0})
unfolding open_lookup file_close
serve_close envid fileid =
    try_call envid (open_lookup fileid)
      λ i. do f ← file_of i; on_fs (file_close f); ipc_send envid success no_page

unfoldable pub serve_remove : ℕ → List ℕ → Cmd Serv (Unit {0})
unfolding file_remove
serve_remove envid path =
    try_call envid (on_fs (file_remove path)) λ _. ipc_send envid success no_page

unfoldable pub serve_dirty : ℕ → ℕ → ℕ → Cmd Serv (Unit {0})
unfolding open_lookup file_dirty
serve_dirty envid fileid offset = try_call envid (open_lookup fileid) λ i. do
  f ← file_of i
  try_call envid (on_fs (file_dirty f offset)) λ _. ipc_send envid success no_page

unfoldable pub serve_sync : ℕ → Cmd Serv (Unit {0})
unfolding fs_sync
serve_sync envid = do on_fs fs_sync; ipc_send envid success no_page

-- The requests with their fields; `unknown` is another code.
pub data Request : Type 0 where
  fsreq_open : List ℕ → ℕ → Request
  fsreq_create : List ℕ → ℕ → Request
  fsreq_map : ℕ → ℕ → Request
  fsreq_set_size : ℕ → ℕ → Request
  fsreq_close : ℕ → Request
  fsreq_dirty : ℕ → ℕ → Request
  fsreq_remove : List ℕ → Request
  fsreq_sync : Request
  unknown : Request

unfoldable pub serve_request : ℕ → Request → Cmd Serv (Unit {0})
unfolding serve_open serve_create serve_map serve_set_size serve_close serve_dirty serve_remove
    serve_sync
serve_request whom (fsreq_open path omode) = serve_open whom path omode
serve_request whom (fsreq_create path ftype) = serve_create whom path ftype
serve_request whom (fsreq_map fileid offset) = serve_map whom fileid offset
serve_request whom (fsreq_set_size fileid size) = serve_set_size whom fileid size
serve_request whom (fsreq_close fileid) = serve_close whom fileid
serve_request whom (fsreq_dirty fileid offset) = serve_dirty whom fileid offset
serve_request whom (fsreq_remove path) = serve_remove whom path
serve_request whom fsreq_sync = serve_sync whom
serve_request whom unknown = pure tt

-- PTE_V.
abbrev pub pte_v : ℕ
pte_v = 0x200

-- What reaches the server: a message with its sender and permissions, and clients that map an open
-- Filefd page once more or unmap it, or write a word of a block that they were sent. The server
-- keeps its own mapping of a Filefd page, which is the first; the count of mappings is a u_short.
pub data Event : Type 0 where
  message : ℕ → ℕ → Request → Event
  gained : ℕ → Event
  released : ℕ → Event
  wrote : ℕ → ℕ → ℕ → Event

abbrev pub shared : ℕ → Serv → Bool
shared i s = leb 2 (s.refs i)

unfoldable pub serve_event : Event → Cmd Serv (Unit {0})
unfolding serve_request
serve_event (message whom perm req) s =
    let answered = serve_request whom req s in if bit_and perm pte_v == 0 then ok tt s else answered
serve_event (gained i) s =
    ok tt (if shared i s then record s { refs = update s.refs i ((s.refs i + 1) % 2 ^ 16) } else s)
serve_event (released i) s =
    ok tt (if shared i s then record s { refs = update s.refs i (s.refs i - 1) } else s)
serve_event (wrote b w v) s =
    ok tt (record s { fs = record s.fs { mem = update_word s.fs.mem b w v } })

-- The loop of `serve` over what reaches it.
unfoldable pub serve : List Event → Cmd Serv (Unit {0})
unfolding serve_event
serve [] = pure tt
serve (e ∷ es) = do serve_event e; serve es
