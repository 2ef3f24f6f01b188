-- ===== src/FreeMap/Examples.antt =====
-- filesys/free-map.c on a concrete map.
use pintos_filesys.Base.{refl, arith, true, none, [], Returns, ◌==◌, ltb, ◌&&◌}
use pintos_filesys.Disk.{zeros}
use pintos_filesys.Fat.{fat_boot_create}
use pintos_filesys.Inode.Table.{System}
use pintos_filesys.FreeMap.{FreeMap, free_map_allocate}
use pintos_filesys.FreeMap.Allocation.{Apart, free_map_allocate-Apart}

-- Ten sectors, of which the first two are reserved.
abbrev fresh : FreeMap
fresh = record {
  free_map_file = none;
  free_map = record { bit_cnt = 10; bits = λ i j. (i == 0) && ltb j 2 };
}

abbrev empty_system : System
empty_system = record {
  fs = record {
    bs = fat_boot_create 10;
    fat = zeros;
    fat_length = 8;
    data_start = 2;
    last_clst = 2;
  };
  disk = record { capacity = 10; sectors = λ s. zeros };
  heap = λ p. none;
  open_inodes = [];
  next = 0;
}

free_map_allocate-Apart_example :
    Returns
      (λ r1. Returns (λ r2. Apart 3 4 r1.0 r2.0) (free_map_allocate true 4 r1.1 r1.2))
      (free_map_allocate true 3 fresh empty_system)
free_map_allocate-Apart_example =
    free_map_allocate-Apart true 3 4 fresh empty_system (omega arith) refl (omega arith)
      (omega arith)
