-- ===== src/Fat/Store.antt =====
-- filesys/fat.c, `fat_init`, `fat_open`, `fat_close` and `fat_create`: the table on the disk. Words
-- are stored low byte first. Memory is taken to be granted, and the table to have less than 2^31
-- bytes, so that sizes of type off_t do not overflow.
pub mod Rounds
pub mod Reload
mod Examples
use pintos_filesys.Base.{
  ℕ, zero, suc, ◌+◌, ◌-◌, ◌*◌, ◌/◌, ◌%◌, ◌^◌, Bool, true, Outcome, ok, ◌>>=◌, ltb, leb, ◌==◌,
  if◌then◌else◌, ◌&&◌,
}
use pintos_filesys.Disk.{Disk, Sector, disk_sector_size, disk_read, disk_write, zeros}
use pintos_filesys.Fat.{
  FatBoot, FatFs, fat_magic, eo_chain, root_dir_clst, fat_boot_create, fat_fs_init, fat_put,
  cluster_to_sector,
}

abbrev pub fat_boot_sector : ℕ
fat_boot_sector = 0

-- Byte `k` of a 32-bit word.
abbrev pub byte_of : ℕ → ℕ → ℕ
byte_of w zero = w % 256
byte_of w (suc zero) = w / 256 % 256
byte_of w (suc (suc zero)) = w / 65536 % 256
byte_of w (suc (suc (suc k))) = w / 16777216 % 256

abbrev pub word_of : (ℕ → ℕ) → ℕ → ℕ
word_of bytes o = bytes o + 256 * bytes (o + 1) + 65536 * bytes (o + 2) + 16777216 * bytes (o + 3)

-- An array of words as memory.
unfoldable pub to_bytes : (ℕ → ℕ) → ℕ → ℕ
to_bytes words o = byte_of (words (o / 4)) (o % 4)

unfoldable pub of_bytes : (ℕ → ℕ) → ℕ → ℕ
of_bytes bytes i = word_of bytes (4 * i)

boot_words : FatBoot → ℕ → ℕ
boot_words b zero = b.magic
boot_words b (suc zero) = b.sectors_per_cluster
boot_words b (suc (suc zero)) = b.total_sectors
boot_words b (suc (suc (suc zero))) = b.fat_start
boot_words b (suc (suc (suc (suc zero)))) = b.fat_sectors
boot_words b (suc (suc (suc (suc (suc zero))))) = b.root_dir_cluster
boot_words b _ = 0

boot_of : Sector → FatBoot
boot_of s = record {
  magic = of_bytes s 0;
  sectors_per_cluster = of_bytes s 1;
  total_sectors = of_bytes s 2;
  fat_start = of_bytes s 3;
  fat_sectors = of_bytes s 4;
  root_dir_cluster = of_bytes s 5;
}

-- `fat_fs` as `calloc` returns it.
abbrev pub no_boot : FatBoot
no_boot = record {
  magic = 0;
  sectors_per_cluster = 0;
  total_sectors = 0;
  fat_start = 0;
  fat_sectors = 0;
  root_dir_cluster = 0;
}

abbrev pub blank : FatBoot → FatFs
blank b = record { bs = b; fat = λ c. 0; fat_length = 0; data_start = 0; last_clst = 0 }

unfoldable pub fat_init : Disk → Outcome FatFs
unfolding boot_of of_bytes
fat_init d = do
  bounce ← disk_read d fat_boot_sector
  let bs = boot_of bounce
  ok (fat_fs_init (blank (if bs.magic == fat_magic then bs else fat_boot_create d.capacity)))

-- `memcpy (mem + at, sector, size)`.
abbrev pub copy_in : (ℕ → ℕ) → ℕ → Sector → ℕ → ℕ → ℕ
copy_in mem at sector size o = if leb at o && ltb o (at + size) then sector (o - at) else mem o

pub open_loop : (rounds i bytes_read : ℕ) → FatFs → Disk → (ℕ → ℕ) → Outcome (ℕ → ℕ)
open_loop zero i bytes_read fs d buffer = ok buffer
open_loop (suc n) i bytes_read fs d buffer = do
  sector ← disk_read d (fs.bs.fat_start + i)
  let bytes_left = fs.fat_length * 4 - bytes_read
  let size = if leb disk_sector_size bytes_left then disk_sector_size else bytes_left
  open_loop n (i + 1) (bytes_read + size) fs d (copy_in buffer bytes_read sector size)

-- The table starts as zeros, and is read sector by sector.
unfoldable pub fat_open : FatFs → Disk → Outcome FatFs
unfolding open_loop of_bytes
fat_open fs d = do
  buffer ← open_loop fs.bs.fat_sectors 0 0 fs d zeros
  ok (record fs { fat = of_bytes buffer })

-- The sector with `size` bytes of memory from `at`, and zeros behind them.
abbrev pub bounce_of : (ℕ → ℕ) → ℕ → ℕ → Sector
bounce_of mem at size o = if ltb o size then mem (at + o) else 0

pub close_loop : (rounds i bytes_wrote : ℕ) → FatFs → Disk → Outcome Disk
close_loop zero i bytes_wrote fs d = ok d
close_loop (suc n) i bytes_wrote fs d = do
  let bytes_left = fs.fat_length * 4 - bytes_wrote
  let size = if leb disk_sector_size bytes_left then disk_sector_size else bytes_left
  d' ← disk_write d (fs.bs.fat_start + i) (bounce_of (to_bytes fs.fat) bytes_wrote size)
  close_loop n (i + 1) (bytes_wrote + size) fs d'

unfoldable pub fat_close : FatFs → Disk → Outcome Disk
unfolding close_loop to_bytes boot_words
fat_close fs d = do
  d' ← disk_write d fat_boot_sector (bounce_of (to_bytes (boot_words fs.bs)) 0 24)
  close_loop fs.bs.fat_sectors 0 0 fs d'

unfoldable pub fat_create : FatFs → Disk → Outcome (FatFs × Disk)
fat_create fs d = do
  let made = fat_fs_init (record fs { bs = fat_boot_create d.capacity; fat = zeros })
  rooted ← fat_put made root_dir_clst eo_chain
  d' ← disk_write d (cluster_to_sector rooted root_dir_clst) zeros
  ok (rooted, d')
