-- ===== src/File.antt =====
-- filesys/file.c: open files. A `struct file` is a value that the caller keeps; its inode is an
-- address on the heap of inodes.
use pintos_filesys.Base.{
  ℕ, ◌+◌, ◌-◌, Bool, true, false, Option, none, some, Outcome, ok, ◌>>=◌, List, length,
  if◌then◌else◌,
}
use pintos_filesys.Inode.Table.{
  System, inode_reopen, inode_close, inode_deny_write, inode_allow_write, inode_length,
  inode_get_inumber, is_dir, read_inode, write_inode,
}

pub record File : Type 0 where
  pub inode : ℕ
  pub pos : ℕ
  pub deny_write : Bool
  pub dup_count : ℕ

unfoldable pub increase_dup_count : File → File
increase_dup_count f = record f { dup_count = f.dup_count + 1 }

unfoldable pub decrease_dup_count : File → File
decrease_dup_count f = record f { dup_count = f.dup_count - 1 }

unfoldable pub check_dup_count : File → ℕ
check_dup_count f = f.dup_count

abbrev pub new_file : ℕ → File
new_file p = record { inode = p; pos = 0; deny_write = false; dup_count = 1 }

-- Without memory, or with a null inode, the inode is closed and the result is null.
unfoldable pub file_open : Bool → Option ℕ → System → Outcome (Option File × System)
file_open memory none sys = ok (none, sys)
file_open memory (some p) sys =
    if memory
    then ok (some (new_file p), sys)
    else do sys' ← inode_close (some p) sys; ok (none, sys')

unfoldable pub file_reopen : Bool → File → System → Outcome (Option File × System)
file_reopen memory f sys = do sys' ← inode_reopen f.inode sys; file_open memory (some f.inode) sys'

unfoldable pub file_deny_write : File → System → Outcome (File × System)
file_deny_write f sys =
    if f.deny_write
    then ok (f, sys)
    else do sys' ← inode_deny_write f.inode sys; ok (record f { deny_write = true }, sys')

unfoldable pub file_allow_write : File → System → Outcome (File × System)
file_allow_write f sys =
    if f.deny_write
    then (do sys' ← inode_allow_write f.inode sys; ok (record f { deny_write = false }, sys'))
    else ok (f, sys)

-- The part of `file_duplicate` after the new file is open.
copy_state : File → Option File → System → Outcome (Option File × System)
copy_state f none sys = ok (none, sys)
copy_state f (some nfile) sys =
    let moved = record nfile { pos = f.pos } in
    if f.deny_write
    then (do (denied, sys') ← file_deny_write moved sys; ok (some denied, sys'))
    else ok (some moved, sys)

unfoldable pub file_duplicate : Bool → File → System → Outcome (Option File × System)
unfolding copy_state
file_duplicate memory f sys = do (nfile, sys') ← file_reopen memory f sys; copy_state f nfile sys'

unfoldable pub file_close : Option File → System → Outcome System
file_close none sys = ok sys
file_close (some f) sys = do
  (allowed, sys') ← file_allow_write f sys
  inode_close (some f.inode) sys'

unfoldable pub file_get_inode : File → ℕ
file_get_inode f = f.inode

unfoldable pub file_read_at : Bool → File → (size file_ofs : ℕ) → System → Outcome (List ℕ)
file_read_at memory f size file_ofs sys = read_inode memory f.inode size file_ofs sys

-- The bytes read, and the file at its new position.
unfoldable pub file_read : Bool → File → (size : ℕ) → System → Outcome (List ℕ × File)
file_read memory f size sys = do
  bytes ← read_inode memory f.inode size f.pos sys
  ok (bytes, record f { pos = f.pos + length bytes })

unfoldable pub file_write_at :
    Bool → File → (buffer : ℕ → ℕ) → (size file_ofs : ℕ) → System → Outcome (ℕ × System)
file_write_at memory f buffer size file_ofs sys =
    write_inode memory f.inode buffer size file_ofs sys

unfoldable pub file_write :
    Bool → File → (buffer : ℕ → ℕ) → (size : ℕ) → System → Outcome (ℕ × File × System)
file_write memory f buffer size sys = do
  (count, sys') ← write_inode memory f.inode buffer size f.pos sys
  ok (count, record f { pos = f.pos + count }, sys')

unfoldable pub file_length : File → System → Outcome ℕ
file_length f sys = inode_length f.inode sys

unfoldable pub file_seek : File → ℕ → File
file_seek f new_pos = record f { pos = new_pos }

unfoldable pub file_tell : File → ℕ
file_tell f = f.pos

unfoldable pub is_file_dir : File → System → Outcome Bool
is_file_dir f sys = is_dir f.inode sys

unfoldable pub get_file_inode_num : File → System → Outcome ℕ
get_file_inode_num f sys = inode_get_inumber f.inode sys
