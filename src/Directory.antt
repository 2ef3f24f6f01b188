-- ===== src/Directory.antt =====
-- filesys/directory.c: directories as files of 20-byte entries. Names are lists of bytes without the
-- final NUL; the bytes of a name field behind its NUL are written as 0. The loops run on one round
-- for each entry that the file has room for, and one more.
pub mod Lookup
use pintos_filesys.Base.{
  ℕ, zero, suc, ◌+◌, ◌-◌, ◌*◌, ◌/◌, ◌≡◌, Bool, true, false, not, ◌&&◌, ◌||◌, Option, none, some,
  Outcome, ok, hang, ◌>>=◌, List, [], ◌∷◌, length, get_or, if◌then◌else◌, ltb, ◌==◌,
}
use pintos_filesys.Fat.Store.{byte_of, of_bytes}
use pintos_filesys.Inode.{slice}
use pintos_filesys.Inode.Table.{
  System, deref, get_inode_sector, inode_create, inode_open, inode_reopen, inode_close,
  inode_remove, inode_length, read_inode, write_inode,
}

abbrev pub name_max : ℕ
name_max = 14

abbrev pub root_dir_sector : ℕ
root_dir_sector = 1

abbrev pub Name : Type 0
Name = List ℕ

pub record DirEntry : Type 0 where
  pub inode_sector : ℕ
  pub name : Name
  pub in_use : Bool

-- `sizeof (struct dir_entry)`.
abbrev pub entry_size : ℕ
entry_size = 20

pub record Dir : Type 0 where
  pub inode : ℕ
  pub pos : ℕ

-- The string that a field of bytes holds.
pub c_string : List ℕ → Name
c_string [] = []
c_string (c ∷ cs) = if c == 0 then [] else c ∷ c_string cs

-- `!strcmp (a, b)`.
pub str_eq : Name → Name → Bool
str_eq [] [] = true
str_eq [] (b ∷ ys) = false
str_eq (a ∷ xs) [] = false
str_eq (a ∷ xs) (b ∷ ys) = a == b && str_eq xs ys

unfoldable pub entry_of : List ℕ → DirEntry
unfolding of_bytes c_string
entry_of bytes =
    let at = λ (o : ℕ). get_or bytes o 0 in
    record {
      inode_sector = of_bytes at 0;
      name = c_string (slice at 4 (name_max + 1));
      in_use = not (at 19 == 0);
    }

unfoldable pub entry_bytes : DirEntry → ℕ → ℕ
entry_bytes e o =
    if ltb o 4
    then byte_of e.inode_sector o
    else if ltb o 19
    then get_or e.name (o - 4) 0
    else if e.in_use
    then 1
    else 0

unfoldable pub dir_create : Bool → (sector entry_cnt : ℕ) → System → Outcome (Bool × System)
dir_create memory sector entry_cnt sys =
    inode_create memory sector (entry_cnt * entry_size) true sys

unfoldable pub dir_open : Bool → Option ℕ → System → Outcome (Option Dir × System)
dir_open memory none sys = ok (none, sys)
dir_open memory (some p) sys =
    if memory
    then ok (some (record { inode = p; pos = 0 }), sys)
    else do sys' ← inode_close (some p) sys; ok (none, sys')

unfoldable pub dir_open_root : Bool → System → Outcome (Option Dir × System)
dir_open_root memory sys = do
  (p, sys') ← inode_open memory root_dir_sector sys
  dir_open memory p sys'

unfoldable pub dir_reopen : Bool → Dir → System → Outcome (Option Dir × System)
dir_reopen memory dir sys = do
  sys' ← inode_reopen dir.inode sys
  dir_open memory (some dir.inode) sys'

unfoldable pub dir_close : Option Dir → System → Outcome System
dir_close none sys = ok sys
dir_close (some dir) sys = inode_close (some dir.inode) sys

unfoldable pub dir_get_inode : Dir → ℕ
dir_get_inode dir = dir.inode

pub lookup_loop : Bool → ℕ → Name → (fuel ofs : ℕ) → System → Outcome (Option (DirEntry × ℕ))
lookup_loop memory p name zero ofs sys = hang
lookup_loop memory p name (suc k) ofs sys = do
  bytes ← read_inode memory p entry_size ofs sys
  let e = entry_of bytes
  let rest = lookup_loop memory p name k (ofs + entry_size) sys
  if not (length bytes == entry_size)
      then ok none
      else if e.in_use && str_eq name e.name
      then ok (some (e, ofs))
      else rest

-- The entry with the name and its offset.
unfoldable pub lookup : Bool → Dir → Name → System → Outcome (Option (DirEntry × ℕ))
lookup memory dir name sys = do
  size ← inode_length dir.inode sys
  lookup_loop memory dir.inode name (size / entry_size + 1) 0 sys

-- The inode that the entry names, opened; null where there is none.
unfoldable pub dir_lookup : Bool → Dir → Name → System → Outcome (Option ℕ × System)
dir_lookup memory dir name sys = do
  found ← lookup memory dir name sys
  elim found [ none ↦ ok (none, sys) | some (e, ofs) ↦ inode_open memory e.inode_sector sys ]

-- The offset of the first free slot, or of the end of the file.
pub slot_loop : Bool → ℕ → (fuel ofs : ℕ) → System → Outcome ℕ
slot_loop memory p zero ofs sys = hang
slot_loop memory p (suc k) ofs sys = do
  bytes ← read_inode memory p entry_size ofs sys
  let rest = slot_loop memory p k (ofs + entry_size) sys
  if not (length bytes == entry_size) || not (entry_of bytes).in_use then ok ofs else rest

abbrev pub used_entry : ℕ → Name → DirEntry
used_entry inode_sector name = record { inode_sector = inode_sector; name = name; in_use = true }

-- The part of `dir_add` behind its checks.
add_entry : Bool → Dir → Name → (inode_sector : ℕ) → System → Outcome (Bool × System)
add_entry memory dir name inode_sector sys = do
  size ← inode_length dir.inode sys
  ofs ← slot_loop memory dir.inode (size / entry_size + 1) 0 sys
  (count, sys') ←
      write_inode memory dir.inode (entry_bytes (used_entry inode_sector name)) entry_size ofs sys
  ok (count == entry_size, sys')

unfoldable pub dir_add : Bool → Dir → Name → (inode_sector : ℕ) → System → Outcome (Bool × System)
unfolding add_entry
dir_add memory dir name inode_sector sys =
    if length name == 0 || ltb name_max (length name) then ok (false, sys) else do
      found ← lookup memory dir name sys
      elim found [ some e ↦ ok (false, sys) | none ↦ add_entry memory dir name inode_sector sys ]

-- The part of `dir_remove` after the inode has been opened.
erase_entry : Bool → Dir → DirEntry → (ofs p : ℕ) → System → Outcome (Bool × System)
erase_entry memory dir e ofs p sys = do
  (count, sys1) ←
      write_inode memory dir.inode (entry_bytes (record e { in_use = false })) entry_size ofs sys
  let erased = count == entry_size
  sys2 ← (if erased then inode_remove p sys1 else ok sys1)
  sys3 ← inode_close (some p) sys2
  ok (erased, sys3)

remove_found : Bool → Dir → DirEntry → (ofs : ℕ) → Option ℕ × System → Outcome (Bool × System)
unfolding erase_entry
remove_found memory dir e ofs (none, sys) = ok (false, sys)
remove_found memory dir e ofs (some p, sys) = erase_entry memory dir e ofs p sys

unfoldable pub dir_remove : Bool → Dir → Name → System → Outcome (Bool × System)
unfolding remove_found
dir_remove memory dir name sys = do
  found ← lookup memory dir name sys
  elim found [
    | none ↦ ok (false, sys)
    | some (e, ofs) ↦ inode_open memory e.inode_sector sys >>= remove_found memory dir e ofs
  ]

pub readdir_loop : Bool → ℕ → (fuel pos : ℕ) → System → Outcome (Option Name × ℕ)
readdir_loop memory p zero pos sys = hang
readdir_loop memory p (suc k) pos sys = do
  bytes ← read_inode memory p entry_size pos sys
  let rest = readdir_loop memory p k (pos + entry_size) sys
  if not (length bytes == entry_size)
      then ok (none, pos)
      else if (entry_of bytes).in_use
      then ok (some (entry_of bytes).name, pos + entry_size)
      else rest

-- The next name, and the directory at its new position.
unfoldable pub dir_readdir : Bool → Dir → System → Outcome (Option Name × Dir)
dir_readdir memory dir sys = do
  size ← inode_length dir.inode sys
  (name, pos) ← readdir_loop memory dir.inode (size / entry_size + 1) dir.pos sys
  ok (name, record dir { pos = pos })

-- The questions about directories that filesys/inode.c answers.
unfoldable pub get_dir_sector : Dir → System → Outcome ℕ
get_dir_sector dir sys = get_inode_sector dir.inode sys

unfoldable pub is_root_dir : Dir → System → Outcome Bool
is_root_dir dir sys = do sector ← get_dir_sector dir sys; ok (sector == root_dir_sector)

unfoldable pub is_same_dir : (dir1 dir2 : Dir) → System → Outcome Bool
is_same_dir dir1 dir2 sys = do
  sector1 ← get_dir_sector dir1 sys
  sector2 ← get_dir_sector dir2 sys
  ok (sector1 == sector2)

unfoldable pub is_dir_removed : Dir → System → Outcome Bool
is_dir_removed dir sys = do n ← deref sys dir.inode; ok n.removed
