-- ===== src/Filesys.antt =====
-- filesys/filesys.c, with `create_root_dir_inode` of filesys/inode.c: formatting and mounting, and
-- the operations on paths. A path is its list of bytes without the final NUL. `cwd` is the current
-- thread's directory; a null `cwd` is none.
pub mod Format
pub mod Paths
mod Examples
use pintos_filesys.Base.{
  ℕ, zero, suc, ◌+◌, ◌-◌, ◌≡◌, Bool, true, false, not, ◌&&◌, ◌||◌, Option, none, some, Outcome, ok,
  panic, fault, ◌>>=◌, List, [], ◌∷◌, ◌++◌, length, if◌then◌else◌, ltb, leb, ◌==◌,
}
use pintos_filesys.Disk.{Disk, disk_write, zeros}
use pintos_filesys.Fat.{FatFs, eo_chain, root_dir_clst, fat_put, cluster_to_sector, fat_allocate}
use pintos_filesys.Fat.Store.{fat_init, fat_open, fat_close, fat_create}
use pintos_filesys.Inode.{InodeDisk, inode_magic, inode_bytes}
use pintos_filesys.Inode.Table.{System, inode_create, is_dir, is_good_inode, inode_get_inumber}
use pintos_filesys.File.{File, file_open}
use pintos_filesys.Directory.{
  Name, Dir, root_dir_sector, dir_open, dir_open_root, dir_reopen, dir_close, dir_lookup,
  is_same_dir, dir_add, dir_remove,
}

abbrev pub root_inode : InodeDisk
root_inode = record {
  start = root_dir_clst;
  length = 0;
  magic = inode_magic;
  isdir = true;
  rest = zeros;
}

unfoldable pub create_root_dir_inode : FatFs → Disk → Outcome (FatFs × Disk)
create_root_dir_inode fs d = do
  fs' ← fat_put fs root_dir_clst eo_chain
  d1 ← disk_write d (cluster_to_sector fs' root_dir_clst) zeros
  d2 ← disk_write d1 root_dir_sector (inode_bytes root_inode)
  ok (fs', d2)

unfoldable pub do_format : FatFs → Disk → Outcome (FatFs × Disk)
do_format fs d = do
  (made, d1) ← fat_create fs d
  d2 ← fat_close made d1
  create_root_dir_inode made d2

unfoldable pub filesys_init : (format : Bool) → Disk → Outcome (FatFs × Disk)
filesys_init format d = do
  fs ← fat_init d
  (made, d1) ← (if format then do_format fs d else ok (fs, d))
  opened ← fat_open made d1
  ok (opened, d1)

unfoldable pub filesys_done : FatFs → Disk → Outcome Disk
filesys_done = fat_close

abbrev pub slash : ℕ
slash = b'/'

-- `path[0] == '/'`.
unfoldable pub is_root_path : Name → Bool
is_root_path [] = false
is_root_path (c ∷ cs) = c == slash

-- What a slash or the end of the path does with the token before it.
abbrev end_token : Name → List Name → List Name
end_token [] rest = rest
end_token (t ∷ ts) rest = (t ∷ ts) ∷ rest

-- The tokens that `strtok_r` finds, one after another; `token` is what has been read of the next.
pub tokens : (token : Name) → Name → List Name
tokens token [] = end_token token []
tokens token (c ∷ cs) = elim (c == slash) [
  | true ↦ end_token token (tokens [] cs)
  | false ↦ tokens (token ++ c ∷ []) cs
]

-- The source stores any number of tokens. `path_lst` of its callers has room for 127 and the final
-- null, so that more of them are an access outside an object.
unfoldable pub parse_path : Name → Outcome (List Name)
parse_path target = let argv = tokens [] target in if ltb 127 (length argv) then fault else ok argv

-- The directories of a path, and its last name.
abbrev pub split_last : Name → List Name → List Name × Name
split_last x [] = ([], x)
split_last x (y ∷ ys) = let (front, last) = split_last y ys in (x ∷ front, last)

-- The directory that a path starts from.
start_dir : Bool → (root : Bool) → (cwd : Option Dir) → System → Outcome (Option Dir × System)
start_dir memory true cwd sys = dir_open_root memory sys
start_dir memory false none sys = dir_open_root memory sys
start_dir memory false (some dir) sys = dir_reopen memory dir sys

-- Whether `cwd` is a directory whose inode is still in memory.
abbrev has_cwd : Option Dir → System → Bool
has_cwd none sys = false
has_cwd (some dir) sys = is_good_inode dir.inode sys

-- Outside `some` the path leads through a missing name or a file that is no directory.
walk : Bool → Option Dir → List Name → System → Outcome (Option (Option Dir) × System)
walk memory cur_dir [] sys = ok (some cur_dir, sys)
walk memory none (name ∷ names) sys = panic
walk memory (some dir) (name ∷ names) sys = do
  (p, s1) ← dir_lookup memory dir name sys
  elim p [
    | none ↦ ok (none, s1)
    | some q ↦ do
      is_directory ← is_dir q s1
      elim is_directory [
        | false ↦ ok (none, s1)
        | true ↦ do
          s2 ← dir_close (some dir) s1
          (next, s3) ← dir_open memory (some q) s2
          walk memory next names s3
      ]
  ]

-- The chain of calls that `filesys_create` joins by `&&`, once a cluster for the inode is there.
make_file : Bool → Dir → Name → (size clst : ℕ) → System → Outcome (Bool × System)
make_file memory dir name size clst sys = do
  (created, s1) ← inode_create memory (cluster_to_sector sys.fs clst) size false sys
  if created then dir_add memory dir name (cluster_to_sector s1.fs clst) s1 else ok (false, s1)

create_in : Bool → Option Dir → Name → (size : ℕ) → System → Outcome (Bool × System)
create_in memory none name size sys = ok (false, sys)
create_in memory (some dir) name size sys = if ltb 14 (length name) then ok (false, sys) else do
  (done, clst, fs') ← fat_allocate sys.fs 1 0
  let s1 = record sys { fs = fs' }
  if done then make_file memory dir name size clst s1 else ok (false, s1)

create_at : Bool → Name → (size : ℕ) → Option (Option Dir) × System → Outcome (Bool × System)
create_at memory name size (none, sys) = ok (false, sys)
create_at memory name size (some cur_dir, sys) = create_in memory cur_dir name size sys

create_path :
    Bool
    → (root : Bool) → List Name
    → (size : ℕ) → (cwd : Option Dir) → System
    → Outcome (Bool × System)
create_path memory root [] size cwd sys = ok (false, sys)
create_path memory root (x ∷ xs) size cwd sys = do
  (cur_dir, s1) ← start_dir memory (root || not (has_cwd cwd sys)) cwd sys
  found ← walk memory cur_dir (split_last x xs).0 s1
  create_at memory (split_last x xs).1 size found

unfoldable pub filesys_create :
    Bool
    → (name : Name) → (initial_size : ℕ) → (cwd : Option Dir) → System
    → Outcome (Bool × System)
unfolding create_path create_at create_in make_file start_dir walk
filesys_create memory name initial_size cwd sys = do
  path_lst ← parse_path name
  create_path memory (is_root_path name) path_lst initial_size cwd sys

-- `filesys_open` returns a `struct file`, or for the path of the root the `struct dir` itself.
pub data Opened : Type 0 where
  null : Opened
  file : File → Opened
  directory : Dir → Opened

abbrev as_directory : Option Dir × System → Outcome (Opened × System)
as_directory (none, sys) = ok (null, sys)
as_directory (some dir, sys) = ok (directory dir, sys)

abbrev as_file : Option File × System → Outcome (Opened × System)
as_file (none, sys) = ok (null, sys)
as_file (some f, sys) = ok (file f, sys)

open_at : Bool → Name → Option (Option Dir) × System → Outcome (Opened × System)
open_at memory name (none, sys) = ok (null, sys)
open_at memory name (some none, sys) = ok (null, sys)
open_at memory name (some (some dir), sys) = do
  (p, s1) ← dir_lookup memory dir name sys
  file_open memory p s1 >>= as_file

-- An empty path that is not the root's reads before the start of `path_lst`, once a directory is
-- open.
open_path :
    Bool → (root : Bool) → List Name → (cwd : Option Dir) → System → Outcome (Opened × System)
open_path memory true [] cwd sys = dir_open_root memory sys >>= as_directory
open_path memory false [] cwd sys = do
  (cur_dir, s1) ← start_dir memory (not (has_cwd cwd sys)) cwd sys
  elim cur_dir [ none ↦ ok (null, s1) | some dir ↦ fault ]
open_path memory root (x ∷ xs) cwd sys = do
  (cur_dir, s1) ← start_dir memory (root || not (has_cwd cwd sys)) cwd sys
  found ← walk memory cur_dir (split_last x xs).0 s1
  open_at memory (split_last x xs).1 found

-- The copy of the name has room for 127 bytes and the NUL.
unfoldable pub filesys_open :
    Bool → (name : Name) → (cwd : Option Dir) → System → Outcome (Opened × System)
unfolding open_path open_at start_dir walk
filesys_open memory name cwd sys =
    if ltb 127 (length name)
    then fault
    else do path_lst ← parse_path name; open_path memory (is_root_path name) path_lst cwd sys

-- The directory that `load_file_open` searches, which becomes the current one.
load_dir : Bool → (cwd : Option Dir) → System → Outcome (Option Dir × System)
load_dir memory cwd sys = if has_cwd cwd sys then ok (cwd, sys) else dir_open_root memory sys

-- The file or null, and the current directory afterwards.
unfoldable pub load_file_open :
    Bool → (name : Name) → (cwd : Option Dir) → System → Outcome ((Opened × System) × Option Dir)
unfolding load_dir open_at
load_file_open memory name cwd sys = do
  (dir, s1) ← load_dir memory cwd sys
  opened ← open_at memory name (some dir, s1)
  ok (opened, dir)

-- The end of `filesys_remove`, once the entry's directory object is open.
remove_in : Bool → (dir find_dir cwd : Dir) → Name → System → Outcome (Bool × System)
remove_in memory dir find_dir cwd name sys = do
  same ← is_same_dir find_dir cwd sys
  s1 ← dir_close (some find_dir) sys
  if same then (do s2 ← dir_close (some dir) s1; ok (false, s2)) else do
    (success, s2) ← dir_remove memory dir name s1
    s3 ← dir_close (some dir) s2
    still_dir ← (if is_good_inode find_dir.inode s3 then is_dir find_dir.inode s3 else ok false)
    ok (if still_dir then false else success, s3)

-- A null directory object or current directory is dereferenced by `is_same_dir`.
remove_dirs : Bool → Dir → (cwd : Option Dir) → Name → Option Dir × System → Outcome (Bool × System)
remove_dirs memory dir cwd name (none, sys) = fault
remove_dirs memory dir none name (some find_dir, sys) = fault
remove_dirs memory dir (some here) name (some find_dir, sys) =
    remove_in memory dir find_dir here name sys

remove_found : Bool → Dir → (cwd : Option Dir) → Name → Option ℕ × System → Outcome (Bool × System)
remove_found memory dir cwd name (none, sys) = ok (false, sys)
remove_found memory dir cwd name (some p, sys) =
    dir_open memory (some p) sys >>= remove_dirs memory dir cwd name

remove_at :
    Bool → (cwd : Option Dir) → Name → Option (Option Dir) × System → Outcome (Bool × System)
remove_at memory cwd name (none, sys) = ok (false, sys)
remove_at memory cwd name (some none, sys) = panic
remove_at memory cwd name (some (some dir), sys) =
    dir_lookup memory dir name sys >>= remove_found memory dir cwd name

remove_path :
    Bool → (root : Bool) → List Name → (cwd : Option Dir) → System → Outcome (Bool × System)
remove_path memory root [] cwd sys = ok (false, sys)
remove_path memory root (x ∷ xs) cwd sys = do
  (cur_dir, s1) ← start_dir memory root cwd sys
  found ← walk memory cur_dir (split_last x xs).0 s1
  remove_at memory cwd (split_last x xs).1 found

unfoldable pub filesys_remove :
    Bool → (name : Name) → (cwd : Option Dir) → System → Outcome (Bool × System)
unfolding remove_path remove_at remove_found remove_dirs remove_in start_dir walk
filesys_remove memory name cwd sys = do
  path_lst ← parse_path name
  remove_path memory (is_root_path name) path_lst cwd sys
