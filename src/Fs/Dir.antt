-- ===== src/Fs/Dir.antt =====
-- Directories and paths of fs/fs.c. A path is the list of its characters before the final 0.
pub mod Path
pub mod Bytes
pub mod Names
pub mod Create
use buaa_os.Base.{
  ℕ, zero, suc, ◌+◌, ◌-◌, ◌*◌, ◌/◌, ◌%◌, ◌^◌, Bool, true, false, not, ◌&&◌, ◌||◌, Option, none,
  some, List, [], ◌∷◌, ltb, leb, ◌==◌, if◌then◌else◌, length,
}
use buaa_os.Run.{
  Run, ok, fail, panic, enter, not_found, bad_path, file_exists, Error, Cmd, pure, throw, get, put,
  ◌>>=◌, ◌>>◌,
}
use buaa_os.Fs.{Fs, Ptr, load, store, f_size, f_type, f_dir, s_root, by2blk, file2blk, address}
use buaa_os.Fs.Inode.{file_get_block, file_truncate, file_flush, flush_dir}

-- The bytes of a word lie with the lowest first. `256 ^ (k % 4)`.
abbrev pub byte_weight : ℕ → ℕ
byte_weight k = 256 ^ (k % 4)

-- Byte `k` from the word at `p` on.
abbrev pub byte_at : Fs → Ptr → ℕ → ℕ
byte_at s (b, w) k = s.mem b (w + k / 4) / byte_weight k % 256

abbrev pub with_byte : ℕ → ℕ → ℕ → ℕ
with_byte v k c = v - v / byte_weight k % 256 * byte_weight k + c * byte_weight k

abbrev pub store_byte : Ptr → ℕ → ℕ → Cmd Fs (Unit {0})
store_byte (b, w) k c s = store (b, w + k / 4) (with_byte (s.mem b (w + k / 4)) k c) s

-- `strcmp(p, name) == 0` for the bytes from `k` on; no character of `name` is 0.
abbrev pub name_is : Fs → Ptr → ℕ → List ℕ → Bool
name_is s p k [] = byte_at s p k == 0
name_is s p k (c ∷ cs) = (byte_at s p k == c) && name_is s p (k + 1) cs

-- `strcpy(p, name)` for the bytes from `k` on.
unfoldable pub put_name : Ptr → ℕ → List ℕ → Cmd Fs (Unit {0})
put_name p k [] = store_byte p k 0
put_name p k (c ∷ cs) = do store_byte p k c; put_name p (k + 1) cs

-- The place of the `j`th `struct File` of a block.
abbrev pub slot : ℕ → ℕ → Ptr
slot blk j = (blk, 64 * j)

-- The first slot of page `blk` from the `j`th on that passes the test; `n` slots are left.
abbrev pub find_slot : (Ptr → Bool) → ℕ → ℕ → ℕ → Option Ptr
find_slot test zero blk j = none
find_slot test (suc n) blk j =
    let rest = find_slot test n blk (j + 1) in if test (slot blk j) then some (slot blk j) else rest

-- The loops of `dir_lookup`, with `n` blocks from `i` on to go.
abbrev pub found_or : Ptr → Option Ptr → Cmd Fs Ptr → Cmd Fs Ptr
found_or dir none next = next
found_or dir (some f) next = do store (f_dir f) (address dir); pure f

unfoldable pub lookup_blocks : ℕ → Ptr → List ℕ → ℕ → Cmd Fs Ptr
unfolding file_get_block
lookup_blocks zero dir name i = throw not_found
lookup_blocks (suc n) dir name i = do
  blk ← file_get_block dir i
  s ← get
  found_or dir (find_slot (λ f. name_is s f 0 name) file2blk blk 0)
      (lookup_blocks n dir name (i + 1))

unfoldable pub dir_lookup : Ptr → List ℕ → Cmd Fs Ptr
unfolding lookup_blocks
dir_lookup dir name = do size ← load (f_size dir); lookup_blocks (size / by2blk) dir name 0

-- The loops of `dir_alloc_file`.
abbrev pub free_or : Option Ptr → Cmd Fs Ptr → Cmd Fs Ptr
free_or none next = next
free_or (some f) next = pure f

unfoldable pub alloc_blocks : ℕ → Ptr → ℕ → Cmd Fs Ptr
unfolding file_get_block
alloc_blocks zero dir i = do
  size ← load (f_size dir)
  store (f_size dir) ((size + by2blk) % 2 ^ 32)
  blk ← file_get_block dir i
  pure (slot blk 0)
alloc_blocks (suc n) dir i = do
  blk ← file_get_block dir i
  s ← get
  free_or (find_slot (λ f. byte_at s f 0 == 0) file2blk blk 0) (alloc_blocks n dir (i + 1))

unfoldable pub dir_alloc_file : Ptr → Cmd Fs Ptr
unfolding alloc_blocks
dir_alloc_file dir = do size ← load (f_size dir); alloc_blocks (size / by2blk) dir 0

abbrev pub maxnamelen : ℕ
maxnamelen = 128

abbrev pub ftype_dir : ℕ
ftype_dir = 1

-- `/` is character 47.
abbrev pub skip_slash : List ℕ → List ℕ
skip_slash [] = []
skip_slash (c ∷ cs) = if c == 47 then skip_slash cs else c ∷ cs

-- The characters up to the next `/`, and from it on.
abbrev pub element : List ℕ → List ℕ
element [] = []
element (c ∷ cs) = if c == 47 then [] else c ∷ element cs

abbrev pub after_element : List ℕ → List ℕ
after_element [] = []
after_element (c ∷ cs) = if c == 47 then c ∷ cs else after_element cs

-- What `walk_path` finds: a file with `*pdir`, or only the directory in which the last element of
-- the path is missing. Its other errors leave `*pdir` null.
pub data Walked (F : Type 0) : Type 0 where
  found : Option F → F → Walked F
  missing : F → List ℕ → Walked F

abbrev pub is_not_found : Error → Bool
is_not_found not_found = true
is_not_found _ = false

abbrev pub is_empty {ℓ} : {A : Type ℓ} → List A → Bool
is_empty [] = true
is_empty (x ∷ xs) = false

-- `lookup` is `dir_lookup` and `is_dir` the test of `f_type`; `F` is `struct File *`.
module _ {S F : Type 0} (lookup : F → List ℕ → Cmd S F) (is_dir : F → S → Bool) where
  -- After `dir_lookup` in `dir`, with `rest` to go.
  abbrev pub looked :
      (List ℕ → Option F → F → Cmd S (Walked F)) → F → List ℕ → List ℕ → Run S F → Run S (Walked F)
  looked next dir name rest (ok f s) = next rest (some dir) f s
  looked next dir name rest (fail e s) =
      if is_not_found e && is_empty rest then ok (missing dir name) s else fail e s
  looked next dir name rest panic = panic
  looked next dir name rest (enter s) = enter s

  -- One round of the loop; the path is not empty.
  abbrev pub descend : (List ℕ → Option F → F → Cmd S (Walked F)) → List ℕ → F → Cmd S (Walked F)
  descend next path dir s =
      if leb maxnamelen (length (element path))
      then fail bad_path s
      else if not (is_dir dir s)
      then fail not_found s
      else looked next dir (element path) (skip_slash (after_element path))
          (lookup dir (element path) s)

  -- The loop, with `n` rounds left; `dir` is what `*pdir` becomes.
  unfoldable pub walk_from : ℕ → List ℕ → Option F → F → Cmd S (Walked F)
  walk_from n [] dir file = pure (found dir file)
  walk_from zero (c ∷ cs) dir file = λ _. panic
  walk_from (suc n) (c ∷ cs) dir file = descend (walk_from n) (c ∷ cs) file

abbrev pub is_directory : Ptr → Fs → Bool
is_directory (b, w) s = s.mem b (w + 33) == ftype_dir

-- A round takes at least one character of the path.
unfoldable pub walk_path : List ℕ → Cmd Fs (Walked Ptr)
unfolding walk_from dir_lookup
walk_path path = walk_from dir_lookup is_directory (length path) (skip_slash path) none s_root

abbrev pub found_file : Walked Ptr → Cmd Fs Ptr
found_file (found dir f) = pure f
found_file (missing dir name) = throw not_found

unfoldable pub file_open : List ℕ → Cmd Fs Ptr
unfolding walk_path
file_open path = do r ← walk_path path; found_file r

-- An error of `dir_alloc_file` is not the one that is returned: `r` is still -E_NOT_FOUND.
abbrev pub renamed : Run Fs Ptr → Run Fs Ptr
renamed (ok f s) = ok f s
renamed (fail e s) = fail not_found s
renamed panic = panic
renamed (enter s) = enter s

unfoldable pub create_in : Walked Ptr → Cmd Fs Ptr
unfolding dir_alloc_file put_name
create_in (found dir f) = throw file_exists
create_in (missing dir name) = do
  f ← (λ s. renamed (dir_alloc_file dir s))
  put_name f 0 name
  pure f

unfoldable pub file_create : List ℕ → Cmd Fs Ptr
unfolding walk_path create_in
file_create path = do r ← walk_path path; create_in r

unfoldable pub file_remove : List ℕ → Cmd Fs (Unit {0})
unfolding file_open file_truncate file_flush flush_dir
file_remove path = do
  f ← file_open path
  file_truncate f 0
  store_byte f 0 0
  file_flush f
  flush_dir f
