-- ===== src/Tests/Disk.antt =====
-- A small disk with its cache, and the file system server on it.
use buaa_os.Base.{
  ℕ, ◌+◌, ◌≡◌, refl, true, false, ◌==◌, ◌&&◌, if◌then◌else◌, none, some, List, [], ◌∷◌, length,
  arith, Bool-cases, inl, inr,
}
use buaa_os.Run.{ok, and_then, After}
use buaa_os.Fs.{Fs, s_root}
use buaa_os.Fs.Block.{alloc_block_num, unmap_block, read_block, fs_sync}
use buaa_os.Fs.Block.Bits.{Ready, NumOutcome, alloc_block_num_outcome}
use buaa_os.Fs.Block.Cache.{Returned, read-unmap, Synced, fs_sync_outcome}
use buaa_os.Fs.Dir.{create_in, missing, walk_path, dir_lookup, is_directory}
use buaa_os.Fs.Dir.Create.{OneBlock, dir_lookup-create_in}
use buaa_os.Fs.Dir.Path.{follow, walk_path-follow}
use buaa_os.Serv.{Serv, open_alloc, open_lookup, serve_init}
use buaa_os.Serv.Requests.{fsreq_open, fsreq_close, Event, message, gained, serve, serve_request}
use buaa_os.Fs.Inode.{file_truncate}
use buaa_os.Fs.Inode.Drop.{Apart}
use buaa_os.Fs.Inode.Truncate.{Truncated, file_truncate_outcome}
use buaa_os.Serv.Grown.{Tidy}
use buaa_os.Serv.Held.{serve-held, serve-Tidy}
use buaa_os.UserFile.{Client, shared, absent, file_read, file_write}
use buaa_os.UserFile.Transfer.{Spread, file_read-file_write, file_read-length}
use buaa_os.Serv.Answers.{Once, Served, serve_request-Once}

-- A disk of 64 blocks; the blocks 5 and 9 are free, block 7 is dirty, and the root is an empty
-- directory.
abbrev small : Fs
small = record {
  super = true;
  has_bitmap = true;
  disk = λ q w. q + w;
  bad = λ _. false;
  mapped = λ _. true;
  dirty = λ b. b == 7;
  mem = λ p w.
      if (p == 1) && (w == 0)
      then 0x6828_6097
      else if (p == 1) && (w == 1)
      then 64
      else if (p == 1) && (w == 35)
      then 1
      else if (p == 2) && (w == 0)
      then 32 + 512
      else 0;
  free_pages = 3;
}

small-Ready : Ready small
small-Ready = record {
  super = refl;
  works = λ q. refl;
  bitmap_there = λ b h. refl;
  size = omega arith;
}

five_taken : (s : Fs) × (alloc_block_num small ≡ ok 5 s)
unfolding alloc_block_num
five_taken = (_, refl)

alloc_block_num_outcome_example : NumOutcome small (alloc_block_num small)
alloc_block_num_outcome_example = alloc_block_num_outcome small small-Ready (omega arith)

read-unmap_example :
    (s' : Fs) × (and_then (unmap_block 7 small) (λ _. read_block 7) ≡ ok true s')
    × Returned small s' 7
read-unmap_example =
    read-unmap 7 small (λ q. refl) (λ e. omega arith) (λ e. omega arith) refl refl refl

fs_sync_outcome_example : (s' : Fs) × (fs_sync small ≡ ok tt s') × Synced 0 64 small s'
fs_sync_outcome_example = fs_sync_outcome small (λ q. refl)

-- The path //a/.
abbrev slash_a : List ℕ
slash_a = 47 ∷ 47 ∷ 97 ∷ 47 ∷ []

walk_path-follow_example :
    walk_path slash_a small ≡ follow dir_lookup is_directory ((97 ∷ []) ∷ []) none s_root small
walk_path-follow_example = walk_path-follow slash_a small

-- The server with entry 0 open for a client.
abbrev server : Serv
server = record {
  fs = small;
  o_file = λ i. if i == 0 then some (5, 0) else none;
  o_fileid = λ i. if i == 0 then 1024 else i;
  o_mode = λ _. 0;
  o_ff = λ _. record { fd_dev_id = 0; fd_omode = 0; f_fileid = 0; f_file = λ _. 0 };
  refs = λ i. if i == 0 then 2 else 0;
  answers = [];
}

server-Tidy : Tidy server
server-Tidy i h = elim (Bool-cases (i == 0)) [
  | inl e ↦ rw e (ground arith, omega arith)
  | inr e ↦ rw e (omega arith, omega arith)
]

-- Requests that open and close another file, and a client that maps the page of entry 0 again.
abbrev events : List Event
events = gained 0 ∷ message 4 512 (fsreq_open slash_a 0) ∷ message 4 512 (fsreq_close 1025) ∷ []

serve-held_example :
    After
      (λ s'. (open_lookup 1024 s' ≡ ok 0 s') × (s'.o_file 0 ≡ some (5, 0)) × (s'.o_mode 0 ≡ 0))
      (serve events server)
serve-held_example =
    serve-held 0 events server server-Tidy (omega arith) (omega arith) (omega arith) refl

serve-Tidy_example : After Tidy (serve events (serve_init server))
serve-Tidy_example = serve-Tidy events server

second_entry : Served (fsreq_open slash_a 0) server
unfolding open_alloc
second_entry = (1, _, refl, refl)

serve_request-Once_example : Once 4 [] (serve_request 4 (fsreq_open slash_a 0) server)
serve_request-Once_example = serve_request-Once 4 (fsreq_open slash_a 0) server second_entry

-- A program that has opened the file of entry 0, with 100 bytes in block 5, as descriptor 3.
abbrev program : Client
program = record {
  serv = record server {
    o_ff = λ _. record {
      fd_dev_id = 102;
      fd_omode = 2;
      f_fileid = 1024;
      f_file = λ w. if w == 32 then 100 else 0;
    };
  };
  env_id = 4;
  filefd = λ fd. if fd == 3 then some 0 else none;
  data_pages = λ fd p. if fd == 3 then (if p == 0 then shared 5 else absent) else absent;
}

program-Spread : Spread program 3 (λ p. 5) 0
program-Spread = record {
  placed = λ p h. let first : (p == 0) ≡ true = ground arith in rw first;
  distinct = λ p q h k e. omega arith;
}

file_read-file_write_example :
    (c : Client) × (file_write 3 0 (7 ∷ 8 ∷ 9 ∷ []) 10 program ≡ ok 3 c)
    × (file_read 3 0 3 10 c ≡ ok (7 ∷ 8 ∷ 9 ∷ []) c)
file_read-file_write_example =
    file_read-file_write program 3 0 0 (λ p. 5) (7 ∷ 8 ∷ 9 ∷ []) 10 program-Spread
      (omega arith, (omega arith, (omega arith, tt))) (omega arith) (omega arith) (omega arith)

file_read-length_example :
    (vs : List ℕ) × (c : Client) × (file_read 3 0 50 90 program ≡ ok vs c) × (length vs ≡ 10)
file_read-length_example = file_read-length 3 0 50 90 program (omega arith)

-- A file of 5000 bytes in block 6, with the blocks 10 and 11.
abbrev with_file : Fs
with_file = record small {
  mem = λ p w.
      if (p == 6) && (w == 32)
      then 5000
      else if (p == 6) && (w == 34)
      then 10
      else if (p == 6) && (w == 35)
      then 11
      else small.mem p w;
}

with_file-Apart : Apart 6 0 with_file
with_file-Apart j h = λ e. omega arith

file_truncate_outcome_example :
    (s' : Fs) × (file_truncate (6, 0) 100 with_file ≡ ok tt s') × Truncated 6 0 100 1 1 with_file s'
file_truncate_outcome_example =
    file_truncate_outcome 6 0 100 with_file refl refl (λ j h. refl) with_file-Apart (omega arith)
      (omega arith)

-- A directory with one block, 10, whose slots are free.
abbrev with_dir : Fs
with_dir = record small {
  mem = λ p w.
      if (p == 6) && (w == 32) then 4096 else if (p == 6) && (w == 34) then 10 else small.mem p w;
}

with_dir-OneBlock : OneBlock 6 0 10 with_dir
with_dir-OneBlock = record {
  size = refl;
  pointer = refl;
  present = λ e. omega arith;
  there = refl;
  inside = refl;
  used = refl;
  apart = λ e. omega arith;
  no_super = λ e. omega arith;
  no_bitmap = λ e. omega arith;
}

dir_lookup-create_in_example :
    (s' s'' : Fs) × (create_in (missing (6, 0) (97 ∷ [])) with_dir ≡ ok (10, 0) s')
    × (dir_lookup (6, 0) (97 ∷ []) s' ≡ ok (10, 0) s'')
dir_lookup-create_in_example =
    dir_lookup-create_in 6 0 10 0 (97 ∷ []) with_dir with_dir-OneBlock
      (omega arith, omega arith, tt) (omega arith) refl refl
