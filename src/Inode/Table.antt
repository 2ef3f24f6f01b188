-- ===== src/Inode/Table.antt =====
-- filesys/inode.c: the inodes in memory. `struct inode` objects live on a heap, `open_inodes` is the
-- list of their addresses, and `next` is the address that the next `malloc` returns. `memory` says
-- whether the allocations of a call succeed.
pub mod Live
pub mod Sharing
use pintos_filesys.Base.{
  ℕ, zero, suc, ◌+◌, ◌-◌, ◌^◌, ◌≡◌, ◌≤◌, ◌<◌, Bool, true, false, Option, none, some, Outcome, ok,
  fault, ◌>>=◌, ◌>>◌, assert, ltb, leb, ◌==◌, if◌then◌else◌, List, [], ◌∷◌, has, wrap32,
}
use pintos_filesys.Disk.{Disk, Sector, disk_read, disk_write, zeros}
use pintos_filesys.Fat.{FatFs, cluster_to_sector, sector_to_cluster, fat_allocate, fat_release}
use pintos_filesys.Inode.{
  Inode, InodeDisk, inode_magic, inode_bytes, inode_of, bytes_to_sectors, inode_read_at,
  inode_write_at,
}

pub record System : Type 0 where
  pub fs : FatFs
  pub disk : Disk
  pub heap : ℕ → Option Inode
  pub open_inodes : List ℕ
  pub next : ℕ

abbrev pub put_inode : (ℕ → Option Inode) → ℕ → Option Inode → ℕ → Option Inode
put_inode h p v q = if q == p then v else h q

-- An access through a pointer to an inode that has been freed is a fault.
unfoldable pub deref : System → ℕ → Outcome Inode
deref sys p = elim (sys.heap p) [ none ↦ fault | some n ↦ ok n ]

abbrev pub set_inode : System → ℕ → Inode → System
set_inode sys p n = record sys { heap = put_inode sys.heap p (some n) }

unfoldable pub inode_init : System → System
inode_init sys = record sys { open_inodes = [] }

-- The search of `inode_open` along the list.
pub find_open : (ℕ → Option Inode) → (sector : ℕ) → List ℕ → Outcome (Option ℕ)
find_open h sector [] = ok none
find_open h sector (p ∷ ps) =
    let rest = find_open h sector ps in
    elim (h p) [ none ↦ fault | some n ↦ if n.sector == sector then ok (some p) else rest ]

unfoldable pub inode_reopen : ℕ → System → Outcome System
inode_reopen p sys = do
  n ← deref sys p
  ok (set_inode sys p (record n { open_cnt = n.open_cnt + 1 }))

-- A new inode at the front of the list.
open_new : Bool → (sector : ℕ) → System → Outcome (Option ℕ × System)
open_new memory sector sys =
    if memory
    then (do
      s ← disk_read sys.disk sector
      let n : Inode = record {
        sector = sector;
        open_cnt = 1;
        removed = false;
        deny_write_cnt = 0;
        body = inode_of s;
      }
      ok (
        some sys.next,
        record sys {
          heap = put_inode sys.heap sys.next (some n);
          open_inodes = sys.next ∷ sys.open_inodes;
          next = suc sys.next;
        },
      ))
    else ok (none, sys)

open_found : Bool → (sector : ℕ) → System → Option ℕ → Outcome (Option ℕ × System)
unfolding open_new
open_found memory sector sys none = open_new memory sector sys
open_found memory sector sys (some p) = do sys' ← inode_reopen p sys; ok (some p, sys')

unfoldable pub inode_open : Bool → (sector : ℕ) → System → Outcome (Option ℕ × System)
unfolding open_found
inode_open memory sector sys = do
  found ← find_open sys.heap sector sys.open_inodes
  open_found memory sector sys found

unfoldable pub inode_get_inumber : ℕ → System → Outcome ℕ
inode_get_inumber p sys = do n ← deref sys p; ok n.sector

unfoldable pub get_inode_sector : ℕ → System → Outcome ℕ
get_inode_sector p sys = do n ← deref sys p; ok n.sector

-- `list_remove`.
pub unlist : ℕ → List ℕ → List ℕ
unlist p [] = []
unlist p (q ∷ qs) = if q == p then qs else q ∷ unlist p qs

-- What the last `inode_close` gives back.
release : Inode → FatFs → Outcome FatFs
release n fs =
    if n.removed
    then (do fs' ← fat_release fs n.body.start; fat_release fs' (sector_to_cluster fs' n.sector))
    else ok fs

close_inode : ℕ → Inode → System → Outcome System
unfolding release unlist
close_inode p n sys =
    if n.open_cnt == 1
    then (do
      fs' ← release n sys.fs
      ok (record sys {
        fs = fs';
        heap = put_inode sys.heap p none;
        open_inodes = unlist p sys.open_inodes;
      }))
    else ok (set_inode sys p (record n { open_cnt = n.open_cnt - 1 }))

unfoldable pub inode_close : Option ℕ → System → Outcome System
unfolding close_inode
inode_close none sys = ok sys
inode_close (some p) sys = do
  n ← deref sys p
  if n.body.magic == inode_magic then close_inode p n sys else ok sys

unfoldable pub inode_remove : ℕ → System → Outcome System
inode_remove p sys = do n ← deref sys p; ok (set_inode sys p (record n { removed = true }))

unfoldable pub inode_deny_write : ℕ → System → Outcome System
inode_deny_write p sys = do
  n ← deref sys p
  assert (leb (n.deny_write_cnt + 1) n.open_cnt)
  ok (set_inode sys p (record n { deny_write_cnt = n.deny_write_cnt + 1 }))

unfoldable pub inode_allow_write : ℕ → System → Outcome System
inode_allow_write p sys = do
  n ← deref sys p
  assert (ltb 0 n.deny_write_cnt)
  assert (leb n.deny_write_cnt n.open_cnt)
  ok (set_inode sys p (record n { deny_write_cnt = n.deny_write_cnt - 1 }))

unfoldable pub inode_length : ℕ → System → Outcome ℕ
inode_length p sys = do n ← deref sys p; ok n.body.length

unfoldable pub is_dir : ℕ → System → Outcome Bool
is_dir p sys = do n ← deref sys p; ok n.body.isdir

-- `free` fills the block with 0xcc, so the magic number of a freed inode is wrong.
unfoldable pub is_good_inode : ℕ → System → Bool
is_good_inode p sys = elim (sys.heap p) [ none ↦ false | some n ↦ n.body.magic == inode_magic ]

unfoldable pub read_inode : Bool → ℕ → (size offset : ℕ) → System → Outcome (List ℕ)
read_inode memory p size offset sys = do
  n ← deref sys p
  inode_read_at memory sys.fs sys.disk n.body size offset

unfoldable pub write_inode :
    Bool → ℕ → (buffer : ℕ → ℕ) → (size offset : ℕ) → System → Outcome (ℕ × System)
write_inode memory p buffer size offset sys = do
  n ← deref sys p
  w ← inode_write_at memory sys.fs sys.disk n buffer size offset
  ok (w.count, record sys { fs = w.fs; disk = w.disk; heap = put_inode sys.heap p (some w.inode) })

-- The zeros that `inode_create` writes to consecutive sectors.
zero_loop : (sectors i first : ℕ) → Disk → Outcome Disk
zero_loop zero i first d = ok d
zero_loop (suc n) i first d = do
  d' ← disk_write d (wrap32 (first + i)) zeros
  zero_loop n (i + 1) first d'

abbrev pub new_inode : (start length : ℕ) → Bool → InodeDisk
new_inode start length isdir = record {
  start = start;
  length = length;
  magic = inode_magic;
  isdir = isdir;
  rest = zeros;
}

unfoldable pub inode_create : Bool → (sector length : ℕ) → Bool → System → Outcome (Bool × System)
unfolding zero_loop
inode_create memory sector length isdir sys =
    if memory
    then (do
      let sectors = bytes_to_sectors length
      (done, start, fs') ← fat_allocate sys.fs sectors 0
      if done
          then (do
            d1 ← disk_write sys.disk sector (inode_bytes (new_inode start length isdir))
            d2 ← zero_loop sectors 0 (cluster_to_sector fs' start) d1
            ok (true, record sys { fs = fs'; disk = d2 }))
          else ok (false, record sys { fs = fs' }))
    else ok (false, sys)
