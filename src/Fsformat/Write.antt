-- ===== src/Fsformat/Write.antt =====
-- The recursion over the files of the host, and `main`, of tools/fsformat.c. The run ends early,
-- without an image, where the source calls `exit` or an assertion fails.
use buaa_os.Base.{ℕ, ◌-◌, ◌/◌, ◌%◌, Bool, false, List, [], ◌∷◌, ◌++◌, ◌==◌, if◌then◌else◌}
use buaa_os.Run.{Cmd, pure, get, put, assert, ◌>>=◌, ◌>>◌}
use buaa_os.Fs.Dir.{byte_weight, maxnamelen}
use buaa_os.Fsformat.{
  Image, FilePtr, root, word, set_word, type_at, init_disk, flush_bitmap, finish_fs, create_file,
  strncpy, write_file,
}

mutual
  -- What `readdir` gives, in its order: a name, and for a file its size and what `read` leaves in
  -- the block, for a directory its entries. `closed` is a directory that `opendir` does not open.
  pub data Dirent : Type 0 where
    regular : List ℕ → ℕ → List (ℕ → ℕ) → Dirent
    directory : List ℕ → Dirents → Dirent
    closed : List ℕ → Dirent

  pub data Dirents : Type 0 where
    no_more : Dirents
    more : Dirent → Dirents → Dirents

-- `e->d_name` is "." or "..".
abbrev pub is_dots : List ℕ → Bool
is_dots (c ∷ []) = c == 46
is_dots (c ∷ d ∷ []) = if c == 46 then d == 46 else false
is_dots cs = false

-- Byte `k` of a name.
abbrev pub byte_of : FilePtr → ℕ → Image → ℕ
byte_of f k m = word f (k / 4) m / byte_weight k % 256

-- "%s/%s".
abbrev pub joined : List ℕ → List ℕ → List ℕ
joined path name = path ++ (47 ∷ name)

-- The `struct File` of a directory; `base` is `basename(path)`. FTYPE_DIR is 1.
unfoldable pub make_directory : FilePtr → List ℕ → Cmd Image FilePtr
make_directory dirf base = do
  pdir ← create_file dirf
  m ← get
  put (strncpy (maxnamelen - 1) pdir 0 base m)
  m ← get
  assert (byte_of pdir (maxnamelen - 1) m == 0)
  put (set_word pdir type_at 1 m)
  pure pdir

module _ (basename : List ℕ → List ℕ) where
  unfoldable mutual
    -- An entry that is not "." or "..", with its path.
    pub write_entry : Dirent → FilePtr → List ℕ → Cmd Image (Unit {0})
    write_entry (regular name size reads) pdir path =
        if is_dots name
        then pure tt
        else write_file pdir (record { path = joined path name; size = size; reads = reads })
    write_entry (directory name es) pdir path =
        let inside = write_entries es in
        if is_dots name then pure tt else do
          child ← make_directory pdir (basename (joined path name))
          inside child (joined path name)
    write_entry (closed name) pdir path = pure tt

    pub write_entries : Dirents → FilePtr → List ℕ → Cmd Image (Unit {0})
    write_entries no_more pdir path = pure tt
    write_entries (more e es) pdir path = do write_entry e pdir path; write_entries es pdir path

  -- An argument of the program, a path for which `stat` finds a file or a directory.
  unfoldable pub write_argument : Dirent → Cmd Image (Unit {0})
  write_argument (regular path size reads) =
      write_file root (record { path = path; size = size; reads = reads })
  write_argument (directory path es) = do
    child ← make_directory root (basename path)
    write_entries es child path
  write_argument (closed path) = pure tt

  unfoldable pub write_arguments : List Dirent → Cmd Image (Unit {0})
  write_arguments [] = pure tt
  write_arguments (e ∷ es) = do write_argument e; write_arguments es

  -- `main` after the check of `argc`, for arguments that are files and directories.
  unfoldable pub make_image : List Dirent → Cmd Image (Unit {0})
  make_image es = do
    m ← get
    put (init_disk m)
    write_arguments es
    m ← get
    put (finish_fs (flush_bitmap m))
