-- ===== src/Fat/Store/Examples.antt =====
-- The table of filesys/fat.c on a concrete disk.
use pintos_filesys.Base.{ℕ, ◌+◌, ◌≤◌, ◌<◌, ◌≡◌, ◌≢◌, ◌⊎◌, refl, arith, Returns, ◌==◌, if◌then◌else◌}
use pintos_filesys.Disk.{Disk, zeros}
use pintos_filesys.Fat.{FatFs, eo_chain, fat_boot_create}
use pintos_filesys.Fat.Store.{fat_close}
use pintos_filesys.Fat.Store.Rounds.{Fits}
use pintos_filesys.Fat.Store.Reload.{IsBoot, Reloaded, mount, fat_close-mount}

abbrev table : ℕ → ℕ
table c = if c == 1 then eo_chain else if c == 2 then 3 else if c == 3 then eo_chain else 0

-- The table of a disk of 100 sectors, whose boot record is the one that formatting writes.
abbrev mounted : FatFs
mounted = record {
  bs = fat_boot_create 100;
  fat = table;
  fat_length = 128;
  data_start = 2;
  last_clst = 3;
}

abbrev disk : Disk
disk = record { capacity = 100; sectors = λ s. zeros }

mounted-Fits : Fits mounted disk
unfolding fat_boot_create
mounted-Fits = record {
  length = refl;
  start = omega arith;
  on_disk = omega arith;
  capacity = omega arith;
}

mounted-IsBoot : IsBoot mounted.bs
unfolding fat_boot_create
mounted-IsBoot = record {
  magic = refl;
  cluster = omega arith;
  total = omega arith;
  start = omega arith;
  sectors = omega arith;
  root = omega arith;
}

fat_close-mount_example :
    Returns
      (λ d'.
        ((s : ℕ)
          → s ≢ 0
          → (s < mounted.bs.fat_start) ⊎ (mounted.bs.fat_start + mounted.bs.fat_sectors ≤ s)
          → d'.sectors s ≡ zeros)
        × Returns (Reloaded mounted) (mount d'))
      (fat_close mounted disk)
fat_close-mount_example =
    fat_close-mount mounted disk mounted-Fits mounted-IsBoot λ c lt. ground arith
