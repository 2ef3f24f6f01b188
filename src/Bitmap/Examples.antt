-- ===== src/Bitmap/Examples.antt =====
-- lib/kernel/bitmap.c and filesys/free-map.c on a concrete map.
use pintos_filesys.Base.{
  ℕ, zero, suc, ◌<◌, ◌≡◌, refl, arith, true, false, none, some, [], ◌∷◌, ok, Returns, ◌==◌,
  if◌then◌else◌, ltb, ◌&&◌, has, get_or,
}
use pintos_filesys.Disk.{zeros}
use pintos_filesys.Fat.{eo_chain, fat_boot_create, cluster_to_sector}
use pintos_filesys.Inode.{Inode, inode_magic}
use pintos_filesys.Inode.Content.{IsFile}
use pintos_filesys.Inode.Read.{inode_read_at-content}
use pintos_filesys.Inode.Table.{System, deref, read_inode}
use pintos_filesys.File.{File, file_read_at}
use pintos_filesys.Bitmap.{Bitmap, bitmap_scan, bitmap_scan_and_flip, elem_cnt}
use pintos_filesys.Bitmap.Storage.{byte_from, stored_byte, bitmap_read}
use pintos_filesys.Bitmap.Ranges.{IsRange}
use pintos_filesys.Bitmap.Scan.{Scanned, Flipped, bitmap_scan-Scanned, bitmap_scan_and_flip-Flipped}
use pintos_filesys.Bitmap.Reload.{Holds, SameBits, bitmap_read-SameBits}

-- Ten bits, of which the first three are set.
abbrev ten : Bitmap
ten = record { bit_cnt = 10; bits = λ i j. (i == 0) && ltb j 3 }

ten-IsRange : IsRange ten 2 4
ten-IsRange = record { size = omega arith; within = omega arith }

bitmap_scan-Scanned_example : Returns (Scanned ten 0 2 false) (bitmap_scan ten 0 2 false)
bitmap_scan-Scanned_example = bitmap_scan-Scanned ten 0 2 false (omega arith) (omega arith)

bitmap_scan_and_flip-Flipped_example :
    Returns (Flipped ten 0 2 false) (bitmap_scan_and_flip ten 0 2 false)
bitmap_scan_and_flip-Flipped_example =
    bitmap_scan_and_flip-Flipped ten 0 2 false (omega arith) (omega arith)

abbrev table : ℕ → ℕ
table c = if c == 2 then eo_chain else 0

-- A file of eight bytes.
abbrev inode : Inode
inode = record {
  sector = 1;
  open_cnt = 1;
  removed = false;
  deny_write_cnt = 0;
  body = record { start = 2; length = 8; magic = inode_magic; isdir = false; rest = zeros };
}

-- A system where it is open and holds the ten bits.
abbrev system : System
system = record {
  fs = record {
    bs = fat_boot_create 20;
    fat = table;
    fat_length = 8;
    data_start = 2;
    last_clst = 2;
  };
  disk = record { capacity = 20; sectors = λ s o. if o == 0 then 7 else 0 };
  heap = λ p. if p == 0 then some inode else none;
  open_inodes = 0 ∷ [];
  next = 1;
}

abbrev map_file : File
map_file = record { inode = 0; pos = 0; deny_write = false; dup_count = 1 }

on_disk : (c : ℕ) → has c (2 ∷ []) ≡ true → cluster_to_sector system.fs c < 20
unfolding cluster_to_sector
on_disk c h = ground arith

inode-IsFile : IsFile system.fs system.disk inode.body (2 ∷ [])
inode-IsFile = record {
  chain = (refl, omega arith, omega arith, refl, refl);
  covers = omega arith;
  short = omega arith;
  on_disk = on_disk;
  small = omega arith;
  unwrapped = omega arith;
}

map_file-read : file_read_at true map_file 8 0 system ≡ ok (7 ∷ 0 ∷ 0 ∷ 0 ∷ 0 ∷ 0 ∷ 0 ∷ 0 ∷ [])
unfolding file_read_at read_inode deref
map_file-read = inode_read_at-content system.fs system.disk inode.body (2 ∷ []) inode-IsFile 8 0

ten-stored : (k : ℕ) → k < 8 → get_or (7 ∷ 0 ∷ 0 ∷ 0 ∷ 0 ∷ 0 ∷ 0 ∷ 0 ∷ []) k 0 ≡ stored_byte ten k
unfolding stored_byte byte_from
ten-stored zero lt = refl
ten-stored (suc zero) lt = refl
ten-stored (suc (suc zero)) lt = refl
ten-stored (suc (suc (suc zero))) lt = refl
ten-stored (suc (suc (suc (suc zero)))) lt = refl
ten-stored (suc (suc (suc (suc (suc zero))))) lt = refl
ten-stored (suc (suc (suc (suc (suc (suc zero)))))) lt = refl
ten-stored (suc (suc (suc (suc (suc (suc (suc zero))))))) lt = refl
ten-stored (suc (suc (suc (suc (suc (suc (suc (suc k)))))))) lt = absurd (omega arith)

map_file-Holds : Holds true map_file system ten (7 ∷ 0 ∷ 0 ∷ 0 ∷ 0 ∷ 0 ∷ 0 ∷ 0 ∷ [])
unfolding elem_cnt
map_file-Holds = record { read = map_file-read; length = refl; stored = ten-stored }

bitmap_read-SameBits_example :
    Returns (SameBits ten) (bitmap_read true (record ten { bits = λ i j. true }) map_file system)
bitmap_read-SameBits_example =
    bitmap_read-SameBits true map_file system (record ten { bits = λ i j. true }) ten
      (7 ∷ 0 ∷ 0 ∷ 0 ∷ 0 ∷ 0 ∷ 0 ∷ 0 ∷ []) map_file-Holds (omega arith) refl (omega arith)
