-- ===== src/Fat/Examples.antt =====
-- filesys/fat.c on concrete tables: tests, and inputs at which the theorems apply.
use pintos_filesys.Base.{
  ℕ, ◌≤◌, ◌<◌, ◌≡◌, ◌⊎◌, refl, arith, true, [], ◌∷◌, ok, Returns, ◌==◌, if◌then◌else◌,
}
use pintos_filesys.Fat.{
  FatFs, FatBoot, IsFat, eo_chain, update, fat_boot_create, find_free_cluster, fat_create_chain,
  fat_remove_chain, fat_allocate, cluster_to_sector, sector_to_cluster,
}
use pintos_filesys.Fat.Chain.{IsChain}
use pintos_filesys.Fat.Search.{Found, IsFull, IsFree, find_free_cluster-Found}
use pintos_filesys.Fat.Extend.{Refused, Appended, fat_create_chain-append}
use pintos_filesys.Fat.Remove.{Freed, fat_remove_chain-Freed}
use pintos_filesys.Fat.Allocate.{Allocated, fat_allocate-Allocated, fat_allocate-short}
use pintos_filesys.Fat.Geometry.{formatted, IsDiskSize, formatted-data_start, formatted-cluster}

abbrev boot : FatBoot
boot = fat_boot_create 100

-- The root's cluster, and the chain of the clusters 2 and 3.
abbrev table : ℕ → ℕ
table c = if c == 1 then eo_chain else if c == 2 then 3 else if c == 3 then eo_chain else 0

abbrev small : FatFs
small = record { bs = boot; fat = table; fat_length = 8; data_start = 2; last_clst = 3 }

small-IsFat : (fat : ℕ → ℕ) → IsFat (record small { fat = fat })
small-IsFat fat = record { short = omega arith; last_ge = omega arith; last_lt = omega arith }

small-IsChain : IsChain small 2 (2 ∷ 3 ∷ [])
small-IsChain = (refl, omega arith, omega arith, refl, (refl, omega arith, omega arith, refl, refl))

find_small : find_free_cluster small ≡ ok 4
unfolding find_free_cluster
find_small = refl

find_free_cluster-Found_example : Returns (Found small) (find_free_cluster small)
find_free_cluster-Found_example = find_free_cluster-Found small (small-IsFat table) (omega arith)

-- The last cluster of the table has been handed out.
abbrev at_end : FatFs
at_end = record small { last_clst = 7 }

at_end-IsFat : IsFat at_end
at_end-IsFat = record { short = omega arith; last_ge = omega arith; last_lt = omega arith }

fat_create_chain-append_example :
    Returns
      (λ (r, g). Refused small (r, g) ⊎ Appended small 2 2 (3 ∷ []) r g)
      (fat_create_chain small 2)
fat_create_chain-append_example =
    fat_create_chain-append small (small-IsFat table) (omega arith) 2 2 (3 ∷ []) small-IsChain

-- The root directory has a second cluster.
abbrev rooted : FatFs
rooted = record small { fat = update (update table 1 4) 4 eo_chain; last_clst = 4 }

rooted-IsFat : IsFat rooted
rooted-IsFat = record { short = omega arith; last_ge = omega arith; last_lt = omega arith }

fat_remove_chain-Freed_example : Returns (Freed small (2 ∷ 3 ∷ [])) (fat_remove_chain small 2 0)
fat_remove_chain-Freed_example =
    fat_remove_chain-Freed small 2 2 (3 ∷ []) (omega arith) small-IsChain

fat_allocate-Allocated_example : Returns (Allocated small 4 2) (fat_allocate small 2 0)
fat_allocate-Allocated_example =
    fat_allocate-Allocated small (small-IsFat table) 1 0 (omega arith) (λ d p q. ground arith)

-- A table without a free cluster, but for those that `crowded` is changed at.
abbrev crowded : ℕ → ℕ
crowded c = if c == 0 then 0 else eo_chain

abbrev full : FatFs
full = record small { fat = crowded }

full-IsFull : IsFull full
full-IsFull d ge lt ne z = absurd (ground arith)

-- Cluster 5 alone is free.
abbrev one_left : FatFs
one_left = record small { fat = update crowded 5 0 }

one_left-IsFree : IsFree one_left 5
one_left-IsFree = record {
  ge = omega arith;
  lt = omega arith;
  free = refl;
  ne_last = λ e. absurd (omega arith);
}

one_left-only : (d : ℕ) → IsFree one_left d → d ≡ 5
one_left-only d f = ground (arith, f.ge, f.free)

fat_allocate-short_example :
    Returns
      (λ (done, start, g). (done ≡ true) × (start ≡ 5) × IsChain g 5 (5 ∷ []))
      (fat_allocate one_left 2 9)
fat_allocate-short_example =
    fat_allocate-short one_left (small-IsFat (update crowded 5 0)) (omega arith) 5 one_left-IsFree
      one_left-only (λ e. absurd (omega arith)) (omega arith) 9

sized : IsDiskSize 1000
sized = (omega arith, omega arith)

formatted-cluster_example :
    (1 ≤ sector_to_cluster (formatted 1000) 500)
    × (sector_to_cluster (formatted 1000) 500 < (formatted 1000).fat_length)
    × (cluster_to_sector (formatted 1000) (sector_to_cluster (formatted 1000) 500) ≡ 500)
formatted-cluster_example =
    formatted-cluster 1000 sized 500 (omega (arith, formatted-data_start 1000 sized)) (omega arith)
