-- ===== src/Fat/Geometry.antt =====
-- filesys/fat.c, `fat_boot_create` and `fat_fs_init`: where the table and the clusters lie on a disk.
use pintos_filesys.Base.{ℕ, ◌+◌, ◌-◌, ◌*◌, ◌/◌, ◌%◌, ◌≤◌, ◌<◌, ◌≡◌, ◌≢◌, refl, arith}
use pintos_filesys.Fat.{
  FatFs, IsFat, fat_boot_create, fat_fs_init, cluster_to_sector, sector_to_cluster,
}
use pintos_filesys.Fat.Store.{blank}

-- The table of a disk of `n` sectors that is formatted anew.
abbrev pub formatted : ℕ → FatFs
formatted n = fat_fs_init (blank (fat_boot_create n))

-- The largest disk for which the sums below stay within 32 bits and under the end mark.
abbrev pub IsDiskSize : ℕ → Type 0
IsDiskSize n = (0 < n) × (n ≤ 0x0FFF0000)

module _ (n : ℕ) (v : IsDiskSize n) where
  pub formatted-fat_sectors : (formatted n).bs.fat_sectors ≡ (n - 1) / 129 + 1
  unfolding fat_fs_init fat_boot_create
  formatted-fat_sectors = omega arith

  pub formatted-fat_length : (formatted n).fat_length ≡ 128 * ((n - 1) / 129 + 1)
  unfolding fat_fs_init fat_boot_create
  formatted-fat_length = omega arith

  pub formatted-data_start : (formatted n).data_start ≡ (n - 1) / 129 + 2
  unfolding fat_fs_init fat_boot_create
  formatted-data_start = omega arith

  formatted-last_clst : (formatted n).last_clst ≡ 2
  unfolding fat_fs_init
  formatted-last_clst = refl

  ruleset geometry = (arith, formatted-fat_length, formatted-data_start, formatted-last_clst)

  -- A new table meets the bounds that the operations keep.
  pub formatted-IsFat : IsFat (formatted n)
  formatted-IsFat = record {
    short = omega geometry;
    last_ge = omega geometry;
    last_lt = omega geometry;
  }

  translated :
      (s : ℕ)
      → (formatted n).data_start ≤ s
      → s < n
      → sector_to_cluster (formatted n) s ≡ s - (formatted n).data_start + 1
  unfolding sector_to_cluster
  translated s ge lt = omega geometry

  -- Every sector behind the table has a cluster of its own in it, and the two translations are
  -- inverse to each other there.
  pub formatted-cluster :
      (s : ℕ)
      → (formatted n).data_start ≤ s
      → s < n
      → (1 ≤ sector_to_cluster (formatted n) s)
        × (sector_to_cluster (formatted n) s < (formatted n).fat_length)
        × (cluster_to_sector (formatted n) (sector_to_cluster (formatted n) s) ≡ s)
  unfolding cluster_to_sector
  formatted-cluster s ge lt =
      let e = translated s ge lt in
      (omega (geometry, e), omega (geometry, e), rw e (omega geometry))

  -- Unless the size is a multiple of 129, the last cluster of the table lies behind the end of
  -- the disk.
  pub formatted-beyond :
      n % 129 ≢ 0 → n ≤ cluster_to_sector (formatted n) ((formatted n).fat_length - 1)
  unfolding cluster_to_sector
  formatted-beyond h = omega geometry
