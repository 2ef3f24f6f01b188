-- ===== src/Fat.antt =====
-- filesys/fat.c and include/filesys/fat.h: the FAT in memory, its chains and its allocator. The
-- table `fat_fs->fat` is a function, and an access at or above `fat_length` is a fault. Each loop
-- runs on `fat_length` rounds of fuel.
pub mod Chain
pub mod Extend
pub mod Remove
pub mod Geometry
pub mod Search
pub mod Store
pub mod Allocate
mod Examples
use pintos_filesys.Base.{
  ℕ, zero, suc, ◌+◌, ◌-◌, ◌*◌, ◌/◌, ◌^◌, ◌≤◌, ◌<◌, Bool, true, not, Outcome, ok, hang, fault, ◌>>=◌,
  ◌>>◌, assert, ltb, ◌==◌, if◌then◌else◌, wrap32,
}

abbrev pub fat_magic : ℕ
fat_magic = 0xEB3C9000

abbrev pub eo_chain : ℕ
eo_chain = 0x0FFFFFFF

abbrev pub sectors_per_clst : ℕ
sectors_per_clst = 1

abbrev pub root_dir_clst : ℕ
root_dir_clst = 1

pub record FatBoot : Type 0 where
  pub magic : ℕ
  pub sectors_per_cluster : ℕ
  pub total_sectors : ℕ
  pub fat_start : ℕ
  pub fat_sectors : ℕ
  pub root_dir_cluster : ℕ

-- `write_lock` is initialised and never taken.
pub record FatFs : Type 0 where
  pub bs : FatBoot
  pub fat : ℕ → ℕ
  pub fat_length : ℕ
  pub data_start : ℕ
  pub last_clst : ℕ

abbrev pub update : (ℕ → ℕ) → ℕ → ℕ → ℕ → ℕ
update f c v d = if d == c then v else f d

unfoldable pub fat_get : FatFs → ℕ → Outcome ℕ
fat_get fs clst = if ltb clst fs.fat_length then ok (fs.fat clst) else fault

unfoldable pub fat_put : FatFs → ℕ → ℕ → Outcome FatFs
fat_put fs clst val =
    if ltb clst fs.fat_length then ok (record fs { fat = update fs.fat clst val }) else fault

unfoldable pub cluster_to_sector : FatFs → ℕ → ℕ
cluster_to_sector fs clst = wrap32 (fs.data_start + wrap32 (clst + 2 ^ 32 - 1))

unfoldable pub sector_to_cluster : FatFs → ℕ → ℕ
sector_to_cluster fs sector = wrap32 (wrap32 (sector + 2 ^ 32 - fs.data_start) + 1)

-- `finding_clst++`, and back to 2 at the end of the table.
advance : FatFs → ℕ → ℕ
advance fs clst = let next = wrap32 (clst + 1) in if next == fs.fat_length then 2 else next

find_free_loop : ℕ → FatFs → (find_end finding_clst : ℕ) → Outcome ℕ
find_free_loop zero fs find_end finding_clst = hang
find_free_loop (suc k) fs find_end finding_clst =
    let rest = find_free_loop k fs find_end (advance fs finding_clst) in
    if finding_clst == find_end
    then ok 0
    else do v ← fat_get fs finding_clst; if v == 0 then ok finding_clst else rest

unfoldable pub find_free_cluster : FatFs → Outcome ℕ
unfolding find_free_loop advance fat_get
find_free_cluster fs = find_free_loop fs.fat_length fs fs.last_clst (wrap32 (fs.last_clst + 1))

-- The walk to the end of a chain, which stops at once at the root directory's cluster.
walk_chain : ℕ → FatFs → ℕ → Outcome ℕ
walk_chain zero fs clst = hang
walk_chain (suc k) fs clst = if clst == root_dir_clst then ok clst else do
  next ← fat_get fs clst
  let rest = walk_chain k fs next
  if next == eo_chain then ok clst else rest

-- The part of `fat_create_chain` after a free cluster has been found.
link_cluster : FatFs → ℕ → ℕ → Outcome (ℕ × FatFs)
unfolding walk_chain
link_cluster fs clst new_clst = do
  put ← fat_put fs new_clst eo_chain
  let marked = record put { last_clst = new_clst }
  if clst == 0 then ok (new_clst, marked) else do
    last ← walk_chain fs.fat_length marked clst
    linked ← fat_put marked last new_clst
    ok (new_clst, linked)

unfoldable pub fat_create_chain : FatFs → ℕ → Outcome (ℕ × FatFs)
unfolding find_free_cluster link_cluster fat_put
fat_create_chain fs clst = do
  assert (ltb clst fs.fat_length)
  new_clst ← find_free_cluster fs
  if new_clst == 0 then ok (0, fs) else link_cluster fs clst new_clst

-- One round of the loop of `fat_remove_chain`: the table with `clst` freed.
free_cluster : FatFs → ℕ → Outcome FatFs
unfolding fat_put
free_cluster fs clst = do
  put ← fat_put fs clst 0
  ok (if put.last_clst == clst then record put { last_clst = 2 } else put)

pub remove_loop : ℕ → FatFs → ℕ → Outcome FatFs
remove_loop zero fs clst = hang
remove_loop (suc k) fs clst =
    if clst == eo_chain
    then ok fs
    else do next ← fat_get fs clst; freed ← free_cluster fs clst; remove_loop k freed next

unfoldable pub fat_remove_chain : FatFs → (clst pclst : ℕ) → Outcome FatFs
unfolding remove_loop free_cluster
fat_remove_chain fs clst pclst = do
  assert (ltb clst fs.fat_length)
  cut ← (if pclst == 0 then ok fs else fat_put fs pclst eo_chain)
  remove_loop (cut.fat_length + 1) cut clst

-- The loop of `fat_allocate`: what is left of `cnt`, and the table.
allocate_loop : (cnt prev : ℕ) → FatFs → Outcome (ℕ × FatFs)
allocate_loop zero prev fs = ok (0, fs)
allocate_loop (suc cnt) prev fs =
    if prev == 0
    then ok (suc cnt, fs)
    else do (next, grown) ← fat_create_chain fs prev; allocate_loop cnt next grown

-- The result, `*clusterp` afterwards and the table. `clusterp` is what `*clusterp` held before.
unfoldable pub fat_allocate : FatFs → (cnt clusterp : ℕ) → Outcome (Bool × ℕ × FatFs)
unfolding allocate_loop
fat_allocate fs cnt clusterp = if cnt == 0 then ok (true, clusterp, fs) else do
  (start, first) ← fat_create_chain fs 0
  (left, grown) ← allocate_loop (cnt - 1) start first
  if left == 0
      then ok (not (start == 0), start, grown)
      else do removed ← fat_remove_chain grown start 0; ok (not (start == 0), clusterp, removed)

unfoldable pub fat_release : FatFs → ℕ → Outcome FatFs
fat_release fs clst = fat_remove_chain fs clst 0

unfoldable pub fat_boot_create : (disk_size : ℕ) → FatBoot
fat_boot_create disk_size = record {
  magic = fat_magic;
  sectors_per_cluster = sectors_per_clst;
  total_sectors = disk_size;
  fat_start = 1;
  fat_sectors = wrap32 (wrap32 (disk_size + 2 ^ 32 - 1) / (512 / 4 * sectors_per_clst + 1) + 1);
  root_dir_cluster = root_dir_clst;
}

-- `fat_fs_init` keeps the boot record and the table.
unfoldable pub fat_fs_init : FatFs → FatFs
fat_fs_init fs = record fs {
  fat_length = wrap32 (fs.bs.fat_sectors * 512) / (4 * sectors_per_clst);
  data_start = wrap32 (fs.bs.fat_start + fs.bs.fat_sectors);
  last_clst = root_dir_clst + 1;
}

-- The bounds that every operation keeps: the table is shorter than the end mark, and the search
-- starts from a cluster of the table.
pub record IsFat (fs : FatFs) : Type 0 where
  pub short : fs.fat_length ≤ eo_chain
  pub last_ge : 2 ≤ fs.last_clst
  pub last_lt : fs.last_clst < fs.fat_length
