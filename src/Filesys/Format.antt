-- ===== src/Filesys/Format.antt =====
-- `filesys_init` with `format`: what is in memory after a disk has been formatted and mounted.
use pintos_filesys.Base.{
  ℕ, ◌+◌, ◌-◌, ◌*◌, ◌/◌, ◌%◌, ◌≤◌, ◌<◌, ◌≡◌, refl, arith, ok, ap, ◌∙◌, true, Returns, Returns-bind,
  Returns-mono,
}
use pintos_filesys.Disk.{Disk, disk_write, store, zeros}
use pintos_filesys.Fat.{FatFs, eo_chain, update, fat_boot_create, fat_fs_init, cluster_to_sector}
use pintos_filesys.Fat.Extend.{put-ok}
use pintos_filesys.Fat.Geometry.{IsDiskSize}
use pintos_filesys.Fat.Store.{fat_init, fat_open, fat_close, fat_create, of_bytes}
use pintos_filesys.Fat.Store.Rounds.{Fits, read-ok, write-ok, fat_open-sector}
use pintos_filesys.Fat.Store.Reload.{fat_close-capacity}
use pintos_filesys.Inode.{inode_magic, inode_bytes}
use pintos_filesys.Filesys.{root_inode, filesys_init, do_format, create_root_dir_inode}

-- The first two entries, root cluster included, are those of the root directory's inode.
pub record Overwritten (fs : FatFs) : Type 0 where
  pub start : fs.fat 0 ≡ 1
  pub length : fs.fat 1 ≡ 0
  pub magic : fs.fat 2 ≡ inode_magic

-- The geometry of a disk of `n` sectors that is formatted anew.
record IsFresh (n : ℕ) (fs : FatFs) : Type 0 where
  start : fs.bs.fat_start ≡ 1
  sectors : fs.bs.fat_sectors ≡ (n - 1) / 129 + 1
  length : fs.fat_length ≡ 128 * ((n - 1) / 129 + 1)
  data_start : fs.data_start ≡ (n - 1) / 129 + 2

module _ (n : ℕ) (v : IsDiskSize n) (ge : 3 ≤ n) where
  IsFresh-Fits : (fs : FatFs) (d : Disk) → IsFresh n fs → d.capacity ≡ n → Fits fs d
  IsFresh-Fits fs d f at = record {
    length = omega (arith, f.length, f.sectors);
    start = omega (arith, f.start);
    on_disk = omega (arith, f.start, f.sectors);
    capacity = omega arith;
  }

  root_sector :
      (fs : FatFs) (d : Disk) → IsFresh n fs → d.capacity ≡ n → cluster_to_sector fs 1 < d.capacity
  unfolding cluster_to_sector
  root_sector fs d f at = omega (arith, f.data_start)

  write-root :
      (fs : FatFs) (d : Disk)
      → IsFresh n fs
      → d.capacity ≡ n
      → disk_write d (cluster_to_sector fs 1) zeros
        ≡ ok (record d { sectors = store d.sectors (cluster_to_sector fs 1) zeros })
  write-root fs d f at =
      write-ok d (cluster_to_sector fs 1) (root_sector fs d f at) (omega arith) zeros

  created :
      (fs : FatFs) (d : Disk)
      → d.capacity ≡ n
      → Returns (λ (g, d'). IsFresh n g × (d'.capacity ≡ n)) (fat_create fs d)
  unfolding fat_create fat_fs_init fat_boot_create
  created fs d at =
      let g : FatFs = fat_fs_init (record fs { bs = fat_boot_create d.capacity; fat = zeros }) in
      let f : IsFresh n g = record {
        start = refl;
        sectors = omega arith;
        length = omega arith;
        data_start = omega arith;
      } in
      let f' : IsFresh n (record g { fat = update g.fat 1 eo_chain }) = record {
        start = refl;
        sectors = omega arith;
        length = omega arith;
        data_start = omega arith;
      } in
      rw
        (
          put-ok g 1 (omega (arith, f.length)) eo_chain,
          write-root (record g { fat = update g.fat 1 eo_chain }) d f' at,
        )
        (f', at)

  closed :
      (fs : FatFs) (d : Disk)
      → IsFresh n fs
      → d.capacity ≡ n
      → Returns (λ d'. d'.capacity ≡ n) (fat_close fs d)
  closed fs d f at =
      Returns-mono _ _ (fat_close fs d) (fat_close-capacity fs d (IsFresh-Fits fs d f at))
        λ d' e. e ∙ at

  rooted :
      (fs : FatFs) (d : Disk)
      → IsFresh n fs
      → d.capacity ≡ n
      → Returns
          (λ (g, d'). IsFresh n g × (d'.capacity ≡ n) × (d'.sectors 1 ≡ inode_bytes root_inode))
          (create_root_dir_inode fs d)
  unfolding create_root_dir_inode
  rooted fs d f at =
      let g : FatFs = record fs { fat = update fs.fat 1 eo_chain } in
      let f' : IsFresh n g = record {
        start = f.start;
        sectors = f.sectors;
        length = f.length;
        data_start = f.data_start;
      } in
      let d1 : Disk = record d { sectors = store d.sectors (cluster_to_sector g 1) zeros } in
      rw
        (
          put-ok fs 1 (omega (arith, f.length)) eo_chain,
          write-root g d f' at,
          write-ok d1 1 (omega arith) (omega arith) (inode_bytes root_inode),
        )
        (f', at, refl)

  -- Entry `c` of the first sector of the table is word `c` of the root directory's inode.
  table-word :
      (fs g : FatFs) (d : Disk)
      → IsFresh n fs
      → d.sectors 1 ≡ inode_bytes root_inode
      → ((c : ℕ)
          → c < fs.fat_length
          → g.fat c ≡ of_bytes (d.sectors (fs.bs.fat_start + c / 128)) (c % 128))
      → (c : ℕ) → c < 128
      → g.fat c ≡ of_bytes (inode_bytes root_inode) c
  table-word fs g d f root e c lt =
      let place : fs.bs.fat_start + c / 128 ≡ 1 = omega (arith, f.start) in
      let word : c % 128 ≡ c = omega arith in
      e c (omega (arith, f.length))
      ∙ ap (λ s. of_bytes (d.sectors s) (c % 128)) place
      ∙ ap (λ w. of_bytes (d.sectors 1) w) word
      ∙ ap (λ s. of_bytes s c) root

  opened :
      (fs : FatFs) (d : Disk)
      → IsFresh n fs
      → d.capacity ≡ n
      → d.sectors 1 ≡ inode_bytes root_inode
      → Returns Overwritten (fat_open fs d)
  unfolding of_bytes inode_bytes
  opened fs d f at root =
      Returns-mono _ Overwritten (fat_open fs d) (fat_open-sector fs d (IsFresh-Fits fs d f at))
        λ g e. record {
          start = table-word fs g d f root e 0 (omega arith);
          length = table-word fs g d f root e 1 (omega arith);
          magic = table-word fs g d f root e 2 (omega arith);
        }

  -- On a disk of `n` sectors, whatever it holds, formatting and mounting returns, but the table in
  -- memory starts with the words of the root directory's inode: the inode is written to sector 1,
  -- where the table starts, so the end mark of the root's cluster is lost.
  pub filesys_init-Overwritten :
      (d : Disk) → d.capacity ≡ n → Returns (λ (fs, d'). Overwritten fs) (filesys_init true d)
  unfolding filesys_init do_format fat_init
  filesys_init-Overwritten d at = rw (read-ok d 0 (omega arith) (omega arith)) (
      Returns-bind Rooted _ (do_format _ d) _
        (Returns-bind Created Rooted (fat_create _ d) _ (created _ d at) λ (g, d1) (f, e1).
          Returns-bind (λ d'. d'.capacity ≡ n) Rooted (fat_close g d1) _ (closed g d1 f e1)
            λ d2 e2. rooted g d2 f e2)
        λ (g, d3) (f, e3, root).
          Returns-bind Overwritten _ (fat_open g d3) _ (opened g d3 f e3 root) λ fs o. o)
    where
      Created : FatFs × Disk → Type 0
      Created (g, d') = IsFresh n g × (d'.capacity ≡ n)

      Rooted : FatFs × Disk → Type 0
      Rooted (g, d') = IsFresh n g × (d'.capacity ≡ n) × (d'.sectors 1 ≡ inode_bytes root_inode)
