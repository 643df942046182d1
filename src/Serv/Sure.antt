-- ===== src/Serv/Sure.antt =====
-- The functions of fs/fs.c that report no error: they end normally or panic.
use buaa_os.Base.{
  ℕ, zero, suc, ◌+◌, ◌*◌, ◌/◌, Bool, true, false, ◌==◌, if◌then◌else◌, Bool-cases, inl, inr,
}
use buaa_os.Run.{Run, ok, fail, panic, enter, Cmd, pure, ◌>>=◌, and_then}
use buaa_os.Fs.{Fs, Ptr, place, s_nblocks}
use buaa_os.Fs.Ide.{write_sector, write_sectors, ide_write}
use buaa_os.Fs.Block.{require, write_block, block_is_dirty, sync_blocks, fs_sync}
use buaa_os.Fs.Inode.{flush_found, flush_blocks, file_map_block, file_flush, flush_dir, file_close}

-- A run that is not an error.
abbrev pub NoError : {S A : Type 0} → Run S A → Type 0
NoError (ok a s) = Unit
NoError (fail e s) = ⊥
NoError panic = Unit
NoError (enter s) = Unit

abbrev Sure : {A : Type 0} → Cmd Fs A → Type 0
Sure m = (s : Fs) → NoError (m s)

then_Sure :
    {A B : Type 0} (m : Cmd Fs A) (k : A → Cmd Fs B)
    → Sure m
    → ((a : A) → Sure (k a))
    → Sure (m >>= k)
then_Sure {A} {B} m k g h s = next (m s) (g s)
  where
    next : (r : Run Fs A) → NoError r → NoError (and_then r k)
    next (ok a t) x = h a t
    next (fail e t) x = x
    next panic x = tt
    next (enter t) x = tt

require-Sure : (b : Bool) → Sure (require b)
require-Sure true s = tt
require-Sure false s = tt

write_sector-Sure : (sec b i : ℕ) → Sure (write_sector sec b i)
unfolding write_sector
write_sector-Sure sec b i s = elim (Bool-cases (s.bad sec)) [ inl e ↦ rw e tt | inr e ↦ rw e tt ]

write_sectors-Sure : (n sec b i : ℕ) → Sure (write_sectors n sec b i)
unfolding write_sectors
write_sectors-Sure zero sec b i s = tt
write_sectors-Sure (suc n) sec b i s =
    then_Sure (write_sector sec b i) (λ _. write_sectors n (sec + 1) b (i + 1))
      (write_sector-Sure sec b i) (λ _. write_sectors-Sure n (sec + 1) b (i + 1)) s

write_block-Sure : (b : ℕ) → Sure (write_block b)
unfolding write_block ide_write
write_block-Sure b s =
    then_Sure (require (s.mapped b)) (λ _. ide_write (b * 8) b 8) (require-Sure (s.mapped b))
      (λ _. write_sectors-Sure 8 (b * 8) b 0) s

write_if-Sure :
    (b : ℕ) (s : Fs) → NoError ((if block_is_dirty b s then write_block b else pure tt) s)
write_if-Sure b s = elim (Bool-cases (block_is_dirty b s)) [
  | inl e ↦ rw e (write_block-Sure b s)
  | inr e ↦ rw e tt
]

sync_blocks-Sure : (n i : ℕ) → Sure (sync_blocks n i)
unfolding sync_blocks
sync_blocks-Sure zero i s = tt
sync_blocks-Sure (suc n) i s =
    then_Sure (λ t. (if block_is_dirty i t then write_block i else pure tt) t)
      (λ _. sync_blocks n (i + 1)) (λ t. write_if-Sure i t) (λ _. sync_blocks-Sure n (i + 1)) s

pub fs_sync-Sure : (s : Fs) → NoError (fs_sync s)
unfolding fs_sync
fs_sync-Sure s = sync_blocks-Sure (s_nblocks s) 0 s

flush_found-Sure : (r : Run Fs ℕ) → NoError (flush_found r)
flush_found-Sure (ok d s) = elim (Bool-cases (block_is_dirty d s)) [
  | inl e ↦ rw e (write_block-Sure d s)
  | inr e ↦ rw e tt
]
flush_found-Sure (fail e s) = tt
flush_found-Sure panic = tt
flush_found-Sure (enter s) = tt

flush_blocks-Sure : (n : ℕ) (f : Ptr) (i : ℕ) → Sure (flush_blocks n f i)
unfolding flush_blocks
flush_blocks-Sure zero f i s = tt
flush_blocks-Sure (suc n) f i s =
    then_Sure (λ s. flush_found (file_map_block f i false s)) (λ _. flush_blocks n f (i + 1))
      (λ s. flush_found-Sure (file_map_block f i false s)) (λ _. flush_blocks-Sure n f (i + 1)) s

file_flush-Sure : (f : Ptr) → Sure (file_flush f)
unfolding file_flush
file_flush-Sure (b, w) s = flush_blocks-Sure (s.mem b (w + 32) / 4096 + 1) (b, w) 0 s

flush_dir-Sure : (f : Ptr) → Sure (flush_dir f)
unfolding flush_dir
flush_dir-Sure (b, w) s = elim (Bool-cases (s.mem b (w + 45) == 0)) [
  | inl e ↦ rw e tt
  | inr e ↦ rw e (file_flush-Sure (place (s.mem b (w + 45))) s)
]

pub file_close-Sure : (f : Ptr) (s : Fs) → NoError (file_close f s)
unfolding file_close
file_close-Sure f =
    then_Sure (file_flush f) (λ _. flush_dir f) (file_flush-Sure f) (λ _. flush_dir-Sure f)
