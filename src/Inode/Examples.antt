-- ===== src/Inode/Examples.antt =====
-- filesys/inode.c on a concrete file, directory and list of open inodes.
use Prim.Native.Nat.{min}
use pintos_filesys.Base.{
  ℕ, ◌+◌, ◌-◌, ◌/◌, ◌≤◌, ◌<◌, ◌≡◌, ◌≢◌, inl, refl, sym, ap, ◌∙◌, arith, true, false, Option, none,
  some, List, [], ◌∷◌, ok, panic, Returns, ◌==◌, if◌then◌else◌, has, dec_lt,
}
use pintos_filesys.Disk.{Disk, zeros}
use pintos_filesys.Fat.{FatFs, eo_chain, fat_boot_create, cluster_to_sector}
use pintos_filesys.Inode.{InodeDisk, Inode, inode_magic, inode_read_at, inode_write_at, slice}
use pintos_filesys.Inode.Content.{IsFile, content, sector_at}
use pintos_filesys.Inode.Read.{inode_read_at-content}
use pintos_filesys.Inode.Reread.{inode_write_at-read}
use pintos_filesys.Inode.Update.{Updated, inode_write_at-Updated, inode_write_at-aligned}
use pintos_filesys.Inode.Table.{System, set_inode, inode_open}
use pintos_filesys.Inode.Table.Live.{IsTable, LiveFrom-one}
use pintos_filesys.Inode.Table.Sharing.{Listed, inode_open-shared}
use pintos_filesys.Directory.{Dir, lookup}
use pintos_filesys.Directory.Lookup.{IsOpen, slots, find_entry, lookup-find_entry}

abbrev table : ℕ → ℕ
table c = if c == 1 then eo_chain else if c == 2 then 3 else if c == 3 then eo_chain else 0

abbrev fs : FatFs
fs = record { bs = fat_boot_create 20; fat = table; fat_length = 8; data_start = 2; last_clst = 3 }

abbrev disk : Disk
disk = record { capacity = 20; sectors = λ s o. s + o }

-- A file on the clusters 2 and 3.
abbrev body : ℕ → InodeDisk
body n = record { start = 2; length = n; magic = inode_magic; isdir = false; rest = zeros }

abbrev clusters : List ℕ
clusters = 2 ∷ 3 ∷ []

clusters-on_disk : (c : ℕ) → has c clusters ≡ true → cluster_to_sector fs c < 20
unfolding cluster_to_sector
clusters-on_disk c h = ground arith

body-IsFile : (n : ℕ) → n ≤ 1024 → IsFile fs disk (body n) clusters
body-IsFile n le = record {
  chain = (refl, omega arith, omega arith, refl, (refl, omega arith, omega arith, refl, refl));
  covers = le;
  short = omega arith;
  on_disk = clusters-on_disk;
  small = omega arith;
  unwrapped = omega arith;
}

abbrev open_file : ℕ → Inode
open_file n = record {
  sector = 1;
  open_cnt = 1;
  removed = false;
  deny_write_cnt = 0;
  body = body n;
}

clusters-apart : (p : ℕ) → p < 1024 → sector_at fs clusters p ≢ 1
unfolding cluster_to_sector
clusters-apart p lt = elim (dec_lt p 512) [
  | yes below ↦ let q : p / 512 ≡ 0 = omega arith in rw q (λ e. absurd (omega arith))
  | no above ↦ let q : p / 512 ≡ 1 = omega arith in rw q (λ e. absurd (omega arith))
]

inode_read_at-content_example :
    inode_read_at true fs disk (body 700) 300 600
    ≡ ok (slice (content fs disk clusters) 600 (min 300 (700 - 600)))
inode_read_at-content_example =
    inode_read_at-content fs disk (body 700) clusters (body-IsFile 700 (omega arith)) 300 600

abbrev letters : ℕ → ℕ
letters k = 65 + k

inode_write_at-Updated_example :
    Returns
      (Updated fs disk (open_file 700) clusters letters 50 600)
      (inode_write_at true fs disk (open_file 700) letters 50 600)
inode_write_at-Updated_example =
    inode_write_at-Updated fs disk (open_file 700) clusters (body-IsFile 700 (omega arith))
      (omega arith) clusters-apart letters 50 600 refl (inl (omega arith))

inode_write_at-read_example :
    Returns
      (λ w. inode_read_at true w.fs w.disk w.inode.body 50 600 ≡ ok (slice letters 0 50))
      (inode_write_at true fs disk (open_file 700) letters 50 600)
inode_write_at-read_example =
    inode_write_at-read fs disk (open_file 700) clusters (body-IsFile 700 (omega arith))
      (omega arith) clusters-apart letters 50 600 refl (inl (omega arith))

inode_write_at-aligned_example :
    inode_write_at true fs disk (open_file 1024) letters 10 1024 ≡ panic
inode_write_at-aligned_example =
    inode_write_at-aligned fs disk (open_file 1024) clusters (body-IsFile 1024 (omega arith))
      (omega arith) clusters-apart letters 10 refl refl (omega arith) (omega arith) (omega arith)

-- One inode is open, at address 0.
abbrev with_open : Inode → System
with_open n = record {
  fs = fs;
  disk = disk;
  heap = λ p. if p == 0 then some n else none;
  open_inodes = 0 ∷ [];
  next = 1;
}

with_open-IsTable :
    (n : Inode) → 0 < n.open_cnt → n.deny_write_cnt ≤ n.open_cnt → IsTable (with_open n)
with_open-IsTable n ge le = LiveFrom-one (with_open n).heap 1 0 n refl ge le (omega arith)

with_open-Listed : (n : Inode) → Listed (with_open n) 0 n
with_open-Listed n = record { at = refl; listed = refl }

abbrev two_openers : Inode
two_openers = record (open_file 700) { open_cnt = 2 }

inode_open-shared_example :
    (inode_open true 1 (with_open two_openers)
      ≡ ok (some 0, set_inode (with_open two_openers) 0 (record two_openers { open_cnt = 3 })))
    × IsTable (set_inode (with_open two_openers) 0 (record two_openers { open_cnt = 3 }))
inode_open-shared_example =
    inode_open-shared (with_open two_openers)
      (with_open-IsTable two_openers (omega arith) (omega arith)) 0 two_openers
      (with_open-Listed two_openers) true

abbrev sector_of : Option Inode → ℕ
sector_of none = 0
sector_of (some n) = n.sector

other_sector : (q : ℕ) (m : Inode) → Listed (with_open two_openers) q m → m.sector ≢ 5
other_sector q m l e =
    let at_zero : q ≡ 0 = ground (arith, l.listed) in
    let one : 1 ≡ m.sector =
      sym (ap (λ a. sector_of ((with_open two_openers).heap a)) at_zero) ∙ ap sector_of l.at in
    absurd (omega (arith, one))

abbrev removed_empty : Inode
removed_empty = record (open_file 0) { removed = true; body = record (body 0) { start = 0 } }

-- The file read as a directory of two entries.
with_open-IsOpen : IsOpen (with_open (open_file 40)) 0 (open_file 40) clusters
with_open-IsOpen = record { at = refl; file = body-IsFile 40 (omega arith) }

abbrev dir : Dir
dir = record { inode = 0; pos = 20 }

lookup-find_entry_example :
    lookup true dir (7 ∷ 8 ∷ []) (with_open (open_file 40))
    ≡ ok (find_entry (7 ∷ 8 ∷ []) 0 (slots (content fs disk clusters) 0 2))
lookup-find_entry_example =
    lookup-find_entry (with_open (open_file 40)) 0 (open_file 40) clusters with_open-IsOpen dir refl
      (7 ∷ 8 ∷ [])
