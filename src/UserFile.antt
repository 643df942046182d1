-- ===== src/UserFile.antt =====
-- Open files of a user program: user/lib/file.c over the messages of user/lib/fsipc.c. A request is
-- answered by the handlers of Serv before the program goes on. The Filefd page of a descriptor is
-- an entry's page in the server, and a page of its data is a block of the server's cache, so that
-- the program and the server share them.
pub mod Bytes
pub mod Transfer
use buaa_os.Base.{
  ℕ, zero, suc, ◌+◌, ◌-◌, ◌*◌, ◌/◌, ◌%◌, ◌^◌, Bool, true, false, not, ◌&&◌, ◌||◌, Option, none,
  some, List, [], ◌∷◌, ltb, leb, ◌==◌, if◌then◌else◌, length,
}
use buaa_os.Run.{
  Run, ok, fail, panic, enter, no_disk, inval, unspecified, Error, Cmd, pure, throw, get, put,
  ◌>>=◌, ◌>>◌,
}
use buaa_os.Vm.{update, update_word}
use buaa_os.Fs.{Fs}
use buaa_os.Fs.Dir.{byte_weight, with_byte}
use buaa_os.Serv.{
  Serv, Filefd, Value, success, code, word, Sent, no_page, filefd_page, block_page, Answer,
  dev_file,
}
use buaa_os.Serv.Requests.{
  Request, fsreq_map, fsreq_set_size, fsreq_close, fsreq_dirty, fsreq_sync, serve_request,
}

-- A page of a data area: not mapped, a block that the server has sent, or a page of the program's
-- own, which the kernel gives on the first access.
pub data DataPage : Type 0 where
  absent : DataPage
  shared : ℕ → DataPage
  own : (ℕ → ℕ) → DataPage

-- `filefd` tells the entry whose page is mapped for a descriptor, and `data_pages` the pages from
-- its `fd2data` on.
pub record Client : Type 0 where
  pub serv : Serv
  pub env_id : ℕ
  pub filefd : ℕ → Option ℕ
  pub data_pages : ℕ → ℕ → DataPage

abbrev pub maxfilesize : ℕ
maxfilesize = 1024 * 4096

-- The answer of the server, which it has sent last. A server that has died leaves the program
-- waiting.
abbrev pub value_of : Client → Value → Sent → Run Client Sent
value_of c success page = ok page c
value_of c (code e) page = fail e c
value_of c (word v) page = fail unspecified c

abbrev pub answer_of : Client → List Answer → Run Client Sent
answer_of c [] = panic
answer_of c (a ∷ rest) = value_of c a.value a.page

abbrev pub received : Client → Run Serv (Unit {0}) → Run Client Sent
received c (ok a s) = answer_of (record c { serv = s }) s.answers
received c (fail e s) = panic
received c panic = panic
received c (enter s) = panic

unfoldable pub fsipc : Request → Cmd Client Sent
unfolding serve_request
fsipc req c = received c (serve_request c.env_id req c.serv)

abbrev pub set_page : ℕ → ℕ → DataPage → Cmd Client (Unit {0})
set_page fd p page c =
    ok tt (record c { data_pages = update c.data_pages fd (update (c.data_pages fd) p page) })

-- The block that came with the answer is mapped at page `p` of the data; an answer with another
-- page is not one to FSREQ_MAP.
abbrev pub map_answer : ℕ → ℕ → Sent → Cmd Client (Unit {0})
map_answer fd p (block_page b) = set_page fd p (shared b)
map_answer fd p no_page = λ _. panic
map_answer fd p (filefd_page i) = λ _. panic

-- `fsipc_map` with the page of `fd2data(fd) + offset` for `dstva`.
unfoldable pub fsipc_map : ℕ → ℕ → ℕ → Cmd Client (Unit {0})
unfolding fsipc
fsipc_map fileid offset fd = do
  page ← fsipc (fsreq_map fileid offset)
  map_answer fd (offset / 4096) page

unfoldable pub fsipc_set_size : ℕ → ℕ → Cmd Client (Unit {0})
unfolding fsipc
fsipc_set_size fileid size = do fsipc (fsreq_set_size fileid size); pure tt

unfoldable pub fsipc_close : ℕ → Cmd Client (Unit {0})
unfolding fsipc
fsipc_close fileid = do fsipc (fsreq_close fileid); pure tt

unfoldable pub fsipc_dirty : ℕ → ℕ → Cmd Client (Unit {0})
unfolding fsipc
fsipc_dirty fileid offset = do fsipc (fsreq_dirty fileid offset); pure tt

unfoldable pub sync : Cmd Client (Unit {0})
unfolding fsipc
sync = do fsipc fsreq_sync; pure tt

-- `fd_lookup`: the entry of an open descriptor.
abbrev pub entry_of : ℕ → Cmd Client ℕ
entry_of fd c =
    if leb 32 fd then fail inval c else elim (c.filefd fd) [ none ↦ fail inval c | some i ↦ ok i c ]

-- `f->f_file.f_size` of the Filefd page of entry `i`.
abbrev pub file_size : ℕ → Client → ℕ
file_size i c = (c.serv.o_ff i).f_file 32

abbrev pub set_file_size : ℕ → ℕ → Cmd Client (Unit {0})
set_file_size i v c =
    let ff = c.serv.o_ff i in
    ok tt (record c {
      serv = record c.serv {
        o_ff = update c.serv.o_ff i (record ff { f_file = update ff.f_file 32 v });
      };
    })

-- Bytes of a page of words.
abbrev pub page_byte : (ℕ → ℕ) → ℕ → ℕ
page_byte m k = m (k / 4) / byte_weight k % 256

abbrev pub set_page_byte : (ℕ → ℕ) → ℕ → ℕ → ℕ → ℕ
set_page_byte m k v q = if q == k / 4 then with_byte (m q) k v else m q

-- The access to byte `off` of the data of `fd`.
abbrev pub load_from : ℕ → ℕ → DataPage → Cmd Client ℕ
load_from fd off absent = do set_page fd (off / 4096) (own (λ _. 0)); pure 0
load_from fd off (shared b) = λ c. ok (page_byte (c.serv.fs.mem b) (off % 4096)) c
load_from fd off (own m) = pure (page_byte m (off % 4096))

abbrev pub load_data : ℕ → ℕ → Cmd Client ℕ
load_data fd off c = load_from fd off (c.data_pages fd (off / 4096)) c

abbrev pub with_mem : (ℕ → ℕ → ℕ) → Client → Client
with_mem m c = record c { serv = record c.serv { fs = record c.serv.fs { mem = m } } }

abbrev pub store_to : ℕ → ℕ → ℕ → DataPage → Cmd Client (Unit {0})
store_to fd off v absent = set_page fd (off / 4096) (own (set_page_byte (λ _. 0) (off % 4096) v))
store_to fd off v (shared b) = λ c.
    ok tt (with_mem (update c.serv.fs.mem b (set_page_byte (c.serv.fs.mem b) (off % 4096) v)) c)
store_to fd off v (own m) = set_page fd (off / 4096) (own (set_page_byte m (off % 4096) v))

abbrev pub store_data : ℕ → ℕ → ℕ → Cmd Client (Unit {0})
store_data fd off v c = store_to fd off v (c.data_pages fd (off / 4096)) c

-- `memcpy` from the data, `n` bytes from `off` on, and to it.
unfoldable pub copy_out : ℕ → ℕ → ℕ → Cmd Client (List ℕ)
copy_out fd zero off = pure []
copy_out fd (suc n) off = do v ← load_data fd off; vs ← copy_out fd n (off + 1); pure (v ∷ vs)

unfoldable pub copy_in : ℕ → List ℕ → ℕ → Cmd Client (Unit {0})
copy_in fd [] off = pure tt
copy_in fd (v ∷ vs) off = do store_data fd off v; copy_in fd vs (off + 1)

-- The length to read at `offset` of a file with `size` bytes.
abbrev pub clamped : ℕ → ℕ → ℕ → ℕ
clamped size offset n = if ltb size ((offset + n) % 2 ^ 32) then size - offset else n

-- `i` is the entry of the descriptor `fd`; the result is what was read.
unfoldable pub file_read : ℕ → ℕ → ℕ → ℕ → Cmd Client (List ℕ)
unfolding copy_out
file_read fd i n offset c =
    let size = file_size i c in
    if ltb size offset then ok [] c else copy_out fd (clamped size offset n) offset c

-- The pages from byte `i` on are mapped, `n` of them; an error restores the size in the server.
abbrev pub or_restore :
    ℕ → ℕ → Cmd Client (Unit {0}) → Run Client (Unit {0}) → Run Client (Unit {0})
or_restore fileid oldsize next (ok a c) = next c
or_restore fileid oldsize next (fail e c) = restored (fsipc_set_size fileid oldsize c)
  where
    restored : Run Client (Unit {0}) → Run Client (Unit {0})
    restored (ok a d) = fail e d
    restored (fail e' d) = fail e d
    restored panic = panic
    restored (enter d) = enter d
or_restore fileid oldsize next panic = panic
or_restore fileid oldsize next (enter c) = enter c

unfoldable pub map_pages : ℕ → ℕ → ℕ → ℕ → ℕ → Cmd Client (Unit {0})
unfolding fsipc_map
map_pages zero fileid fd oldsize i = pure tt
map_pages (suc n) fileid fd oldsize i = λ c.
    or_restore fileid oldsize (map_pages n fileid fd oldsize (i + 4096)) (fsipc_map fileid i fd c)

-- `syscall_mem_unmap` of `n` pages of the data from page `p` on.
unfoldable pub unmap_pages : ℕ → ℕ → ℕ → Cmd Client (Unit {0})
unmap_pages zero fd p = pure tt
unmap_pages (suc n) fd p = do set_page fd p absent; unmap_pages n fd (p + 1)

-- The number of pages that hold `size` bytes: ROUND(size, BY2PG) / BY2PG.
abbrev pub pages_for : ℕ → ℕ
pages_for size = (size + 4095) / 4096

unfoldable pub ftruncate : ℕ → ℕ → Cmd Client (Unit {0})
unfolding map_pages unmap_pages fsipc_set_size
ftruncate fd size = if ltb maxfilesize size then throw no_disk else do
  i ← entry_of fd
  c ← get
  let ff = c.serv.o_ff i
  if not (ff.fd_dev_id == dev_file) then throw inval else do
    let oldsize = file_size i c
    set_file_size i size
    fsipc_set_size ff.f_fileid size
    map_pages (pages_for size - pages_for oldsize) ff.f_fileid fd oldsize (pages_for oldsize * 4096)
    unmap_pages (pages_for oldsize - pages_for size) fd (pages_for size)

-- The result is the number of bytes written.
unfoldable pub file_write : ℕ → ℕ → List ℕ → ℕ → Cmd Client ℕ
unfolding ftruncate copy_in
file_write fd i buf offset = do
  c ← get
  let tot = (offset + length buf) % 2 ^ 32
  if ltb maxfilesize tot then throw no_disk else do
    if ltb (file_size i c) tot then ftruncate fd tot else pure tt
    copy_in fd buf offset
    pure (length buf)

-- The pages up to the size are reported dirty; the answers are not looked at.
abbrev pub unasked : Run Client (Unit {0}) → Run Client (Unit {0})
unasked (ok a c) = ok tt c
unasked (fail e c) = ok tt c
unasked panic = panic
unasked (enter c) = enter c

unfoldable pub dirty_pages : ℕ → ℕ → ℕ → Cmd Client (Unit {0})
unfolding fsipc_dirty
dirty_pages zero fileid i = pure tt
dirty_pages (suc n) fileid i = do
  (λ c. unasked (fsipc_dirty fileid i c))
  dirty_pages n fileid (i + 4096)

unfoldable pub file_close : ℕ → ℕ → Cmd Client (Unit {0})
unfolding dirty_pages fsipc_close unmap_pages
file_close fd i = do
  c ← get
  let size = file_size i c
  let fileid = (c.serv.o_ff i).f_fileid
  dirty_pages (pages_for size) fileid 0
  fsipc_close fileid
  unmap_pages (pages_for size) fd 0

abbrev pub is_absent : DataPage → Bool
is_absent absent = true
is_absent (shared b) = false
is_absent (own m) = false

-- The result is the offset in the data of the page that holds the block.
unfoldable pub read_map : ℕ → ℕ → Cmd Client ℕ
read_map fd offset = do
  i ← entry_of fd
  c ← get
  if not ((c.serv.o_ff i).fd_dev_id == dev_file)
      then throw inval
      else if leb maxfilesize offset || is_absent (c.data_pages fd (offset / 4096))
      then throw no_disk
      else pure offset
