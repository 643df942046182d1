-- ===== src/Fs/Ide.antt =====
-- fs/ide.c: transfers between the disk and a page, sector by sector. The registers of the drive
-- are reached by sys_write_dev and sys_read_dev; a status of 0 is a panic.
pub mod Copy
use buaa_os.Base.{
  ℕ, zero, suc, ◌+◌, ◌-◌, ◌*◌, Bool, true, false, ◌&&◌, ltb, leb, ◌==◌, if◌then◌else◌,
}
use buaa_os.Run.{Run, ok, panic, Cmd, pure, ◌>>=◌, ◌>>◌}
use buaa_os.Fs.{Fs}

-- Words of a sector.
abbrev pub sector_words : ℕ
sector_words = 128

-- Sector `sec` is copied to the `i`th sector of page `b`.
unfoldable pub read_sector : ℕ → ℕ → ℕ → Cmd Fs (Unit {0})
read_sector sec b i s =
    if s.bad sec
    then panic
    else ok tt (record s {
      mem = λ p w.
          if (p == b) && (leb (i * sector_words) w && ltb w ((i + 1) * sector_words))
          then s.disk sec (w - i * sector_words)
          else s.mem p w;
    })

-- The loop of `ide_read`, with `n` sectors to go.
unfoldable pub read_sectors : ℕ → ℕ → ℕ → ℕ → Cmd Fs (Unit {0})
unfolding read_sector
read_sectors zero sec b i = pure tt
read_sectors (suc n) sec b i = do read_sector sec b i; read_sectors n (sec + 1) b (i + 1)

unfoldable pub ide_read : ℕ → ℕ → ℕ → Cmd Fs (Unit {0})
unfolding read_sectors
ide_read sec b nsecs = read_sectors nsecs sec b 0

unfoldable pub write_sector : ℕ → ℕ → ℕ → Cmd Fs (Unit {0})
write_sector sec b i s =
    if s.bad sec
    then panic
    else ok tt (record s {
      disk = λ q w.
          if (q == sec) && ltb w sector_words then s.mem b (i * sector_words + w) else s.disk q w;
    })

unfoldable pub write_sectors : ℕ → ℕ → ℕ → ℕ → Cmd Fs (Unit {0})
unfolding write_sector
write_sectors zero sec b i = pure tt
write_sectors (suc n) sec b i = do write_sector sec b i; write_sectors n (sec + 1) b (i + 1)

unfoldable pub ide_write : ℕ → ℕ → ℕ → Cmd Fs (Unit {0})
unfolding write_sectors
ide_write sec b nsecs = write_sectors nsecs sec b 0
