-- ===== src/FreeMap.antt =====
-- filesys/free-map.c: the map of free sectors, a bitmap that is kept in a file.
pub mod Allocation
mod Examples
use pintos_filesys.Base.{
  ℕ, Bool, true, false, not, Option, none, some, Outcome, ok, panic, fault, ◌>>=◌, ◌>>◌, assert,
  ◌==◌, if◌then◌else◌, wrap32,
}
use pintos_filesys.Disk.{Disk}
use pintos_filesys.Inode.Table.{System, inode_open, inode_create}
use pintos_filesys.File.{File, file_open, file_close}
use pintos_filesys.Directory.{root_dir_sector}
use pintos_filesys.Bitmap.{
  Bitmap, Elem, bitmap_error, bitmap_create, bitmap_mark, bitmap_all, bitmap_set_multiple,
  bitmap_scan_and_flip,
}
use pintos_filesys.Bitmap.Storage.{bitmap_file_size, bitmap_read, bitmap_write}

abbrev pub free_map_sector : ℕ
free_map_sector = 0

pub record FreeMap : Type 0 where
  pub free_map_file : Option File
  pub free_map : Bitmap

mark_reserved : Option Bitmap → Outcome FreeMap
mark_reserved none = panic
mark_reserved (some b) = do
  b1 ← bitmap_mark b free_map_sector
  b2 ← bitmap_mark b1 root_dir_sector
  ok (record { free_map_file = none; free_map = b2 })

unfoldable pub free_map_init : (memory : Bool × Bool) → (bits : ℕ → Elem) → Disk → Outcome FreeMap
unfolding mark_reserved
free_map_init memory bits d = bitmap_create memory d.capacity bits >>= mark_reserved

-- `bitmap_write` to the map's file when there is one.
write_map : Bool → Bitmap → Option File → System → Outcome (Bool × System)
write_map memory b none sys = ok (true, sys)
write_map memory b (some f) sys = bitmap_write memory b f sys

-- The end of `free_map_allocate`, after the search.
keep_sector :
    Bool → (cnt sector : ℕ) → Bitmap → FreeMap → System → Outcome (Option ℕ × FreeMap × System)
unfolding write_map
keep_sector memory cnt sector b m sys =
    if sector == bitmap_error then ok (none, record m { free_map = b }, sys) else do
      (written, sys') ← write_map memory b m.free_map_file sys
      if written then ok (some sector, record m { free_map = b }, sys') else do
        b' ← bitmap_set_multiple b sector cnt false
        ok (none, record m { free_map = b' }, sys')

-- The first sector, outside `none`, where the code returns false and leaves `*sectorp` as it was.
unfoldable pub free_map_allocate :
    Bool → (cnt : ℕ) → FreeMap → System → Outcome (Option ℕ × FreeMap × System)
unfolding keep_sector
free_map_allocate memory cnt m sys = do
  (idx, b) ← bitmap_scan_and_flip m.free_map 0 cnt false
  keep_sector memory cnt (wrap32 idx) b m sys

-- `bitmap_write` reads the file through its address, null or not.
unfoldable pub free_map_release :
    Bool → (sector cnt : ℕ) → FreeMap → System → Outcome (FreeMap × System)
free_map_release memory sector cnt m sys = do
  all ← bitmap_all m.free_map sector cnt
  assert all
  b ← bitmap_set_multiple m.free_map sector cnt false
  elim m.free_map_file [
    | none ↦ fault
    | some f ↦ do
      (written, sys') ← bitmap_write memory b f sys
      ok (record m { free_map = b }, sys')
  ]

-- `file_open (inode_open (free_map_sector))`, with a panic on null.
open_map_file : Bool → System → Outcome (File × System)
open_map_file memory sys = do
  (p, s1) ← inode_open memory free_map_sector sys
  (f, s2) ← file_open memory p s1
  elim f [ none ↦ panic | some g ↦ ok (g, s2) ]

unfoldable pub free_map_open : Bool → FreeMap → System → Outcome (FreeMap × System)
unfolding open_map_file
free_map_open memory m sys = do
  (f, s1) ← open_map_file memory sys
  (read, b) ← bitmap_read memory m.free_map f s1
  if read then ok (record { free_map_file = some f; free_map = b }, s1) else panic

unfoldable pub free_map_close : FreeMap → System → Outcome System
free_map_close m sys = file_close m.free_map_file sys

unfoldable pub free_map_create : Bool → FreeMap → System → Outcome (FreeMap × System)
unfolding open_map_file
free_map_create memory m sys = do
  (created, s1) ← inode_create memory free_map_sector (bitmap_file_size m.free_map) false sys
  if created
      then (do
        (f, s2) ← open_map_file memory s1
        (written, s3) ← bitmap_write memory m.free_map f s2
        if written then ok (record m { free_map_file = some f }, s3) else panic)
      else panic
