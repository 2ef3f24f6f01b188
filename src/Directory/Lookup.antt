-- ===== src/Directory/Lookup.antt =====
-- A directory seen as the list of its entries, and the loops of directory.c over that list.
use Prim.Native.Nat.{min}
use pintos_filesys.Base.{
  ℕ, zero, suc, ◌+◌, ◌-◌, ◌*◌, ◌/◌, ◌≤◌, ◌<◌, ◌≡◌, ap, ◌∙◌, arith, true, false, ◌&&◌, Option, none,
  some, ok, List, [], ◌∷◌, length, if◌then◌else◌, ◌==◌, ne→not_==,
}
use pintos_filesys.Inode.{Inode, slice}
use pintos_filesys.Inode.Content.{IsFile, content, length-slice}
use pintos_filesys.Inode.Read.{inode_read_at-content}
use pintos_filesys.Inode.Table.{System, deref, read_inode, inode_length}
use pintos_filesys.Directory.{
  Name, DirEntry, Dir, entry_of, str_eq, lookup_loop, lookup, slot_loop, readdir_loop, dir_readdir,
}

-- The entries in `cnt` slots from offset `ofs` on.
abbrev pub slots : (ℕ → ℕ) → (ofs cnt : ℕ) → List DirEntry
slots file ofs zero = []
slots file ofs (suc cnt) = entry_of (slice file ofs 20) ∷ slots file (ofs + 20) cnt

-- The first entry in use with the name, and its offset.
abbrev pub find_entry : Name → (ofs : ℕ) → List DirEntry → Option (DirEntry × ℕ)
find_entry name ofs [] = none
find_entry name ofs (e ∷ es) =
    if e.in_use && str_eq name e.name then some (e, ofs) else find_entry name (ofs + 20) es

-- The offset of the first entry that is not in use, or behind the last one.
abbrev pub free_slot : (ofs : ℕ) → List DirEntry → ℕ
free_slot ofs [] = ofs
free_slot ofs (e ∷ es) = if e.in_use then free_slot (ofs + 20) es else ofs

-- The name of the first entry in use, and the offset behind it.
abbrev pub next_name : (ofs : ℕ) → List DirEntry → Option Name × ℕ
next_name ofs [] = (none, ofs)
next_name ofs (e ∷ es) = if e.in_use then (some e.name, ofs + 20) else next_name (ofs + 20) es

-- Address `p` holds the inode `n` of a file with the clusters `xs`.
pub record IsOpen (sys : System) (p : ℕ) (n : Inode) (xs : List ℕ) : Type 0 where
  pub at : sys.heap p ≡ some n
  pub file : IsFile sys.fs sys.disk n.body xs

module _ (sys : System) (p : ℕ) (n : Inode) (xs : List ℕ) (v : IsOpen sys p n xs) where
  bytes : ℕ → ℕ
  bytes = content sys.fs sys.disk xs

  read-ok :
      (size ofs : ℕ)
      → read_inode true p size ofs sys ≡ ok (slice bytes ofs (min size (n.body.length - ofs)))
  unfolding read_inode deref bytes
  read-ok size ofs =
      rw (v.at, deref) (inode_read_at-content sys.fs sys.disk n.body xs v.file size ofs)

  -- A whole entry is read exactly when the file has one there.
  read-entry :
      (ofs : ℕ) → ofs + 20 ≤ n.body.length → read_inode true p 20 ofs sys ≡ ok (slice bytes ofs 20)
  read-entry ofs le =
      let whole : min 20 (n.body.length - ofs) ≡ 20 = omega arith in
      read-ok 20 ofs ∙ ap (λ k. ok (slice bytes ofs k)) whole

  read-short :
      (ofs : ℕ)
      → n.body.length < ofs + 20
      → (b : List ℕ) × (read_inode true p 20 ofs sys ≡ ok b) × ((length b == 20) ≡ false)
  read-short ofs lt = (
    slice bytes ofs (min 20 (n.body.length - ofs)),
    read-ok 20 ofs,
    ne→not_== _ 20 (omega (arith, length-slice (min 20 (n.body.length - ofs)) bytes ofs)),
  )

  lookup_loop-find :
      (name : Name) (k cnt ofs : ℕ)
      → cnt < k
      → ofs + 20 * cnt ≤ n.body.length
      → n.body.length < ofs + 20 * cnt + 20
      → lookup_loop true p name k ofs sys ≡ ok (find_entry name ofs (slots bytes ofs cnt))
  unfolding lookup_loop
  lookup_loop-find name zero cnt ofs fuel le lt = elim fuel [ ]
  lookup_loop-find name (suc k) zero ofs fuel le lt =
      let (b, e, short) = read-short ofs (omega arith) in rw (e, short)
  lookup_loop-find name (suc k) (suc cnt) ofs fuel le lt =
      let e = entry_of (slice bytes ofs 20) in
      rw
        (
          read-entry ofs (omega arith),
          lookup_loop-find name k cnt (ofs + 20) (omega arith) (omega arith) (omega arith),
        )
        (ground arith)

  slot_loop-free :
      (k cnt ofs : ℕ)
      → cnt < k
      → ofs + 20 * cnt ≤ n.body.length
      → n.body.length < ofs + 20 * cnt + 20
      → slot_loop true p k ofs sys ≡ ok (free_slot ofs (slots bytes ofs cnt))
  unfolding slot_loop
  slot_loop-free zero cnt ofs fuel le lt = elim fuel [ ]
  slot_loop-free (suc k) zero ofs fuel le lt =
      let (b, e, short) = read-short ofs (omega arith) in rw (e, short)
  slot_loop-free (suc k) (suc cnt) ofs fuel le lt =
      rw
        (
          read-entry ofs (omega arith),
          slot_loop-free k cnt (ofs + 20) (omega arith) (omega arith) (omega arith),
        )
        (ground arith)

  readdir_loop-next :
      (k cnt ofs : ℕ)
      → cnt < k
      → ofs + 20 * cnt ≤ n.body.length
      → n.body.length < ofs + 20 * cnt + 20
      → readdir_loop true p k ofs sys ≡ ok (next_name ofs (slots bytes ofs cnt))
  unfolding readdir_loop
  readdir_loop-next zero cnt ofs fuel le lt = elim fuel [ ]
  readdir_loop-next (suc k) zero ofs fuel le lt =
      let (b, e, short) = read-short ofs (omega arith) in rw (e, short)
  readdir_loop-next (suc k) (suc cnt) ofs fuel le lt =
      rw
        (
          read-entry ofs (omega arith),
          readdir_loop-next k cnt (ofs + 20) (omega arith) (omega arith) (omega arith),
        )
        (ground arith)

  length-ok : inode_length p sys ≡ ok n.body.length
  unfolding inode_length deref
  length-ok = rw (v.at, deref)

  module _ (dir : Dir) (here : dir.inode ≡ p) where
    -- `lookup` returns the first entry of the directory that is in use and has the name, with its
    -- offset, and none exactly when no entry is such; it needs no more rounds than entries.
    pub lookup-find_entry :
        (name : Name)
        → lookup true dir name sys
          ≡ ok (find_entry name 0 (slots (content sys.fs sys.disk xs) 0 (n.body.length / 20)))
    unfolding lookup bytes
    lookup-find_entry name =
        rw (here, length-ok)
          (lookup_loop-find name (n.body.length / 20 + 1) (n.body.length / 20) 0 (omega arith)
            (omega arith) (omega arith))

    -- `dir_readdir` from a position inside the directory returns the name of the first entry in use
    -- from there on, and moves the position behind it, or to where no whole entry is left.
    pub dir_readdir-next_name :
        dir.pos ≤ n.body.length
        → dir_readdir true dir sys
          ≡ ok (
            (next_name dir.pos
                (slots (content sys.fs sys.disk xs) dir.pos ((n.body.length - dir.pos) / 20))).0,
            record dir {
              pos =
                  (next_name dir.pos (
                    slots (content sys.fs sys.disk xs) dir.pos ((n.body.length - dir.pos) / 20))).1;
            },
          )
    unfolding dir_readdir bytes
    dir_readdir-next_name le = rw (
      here,
      length-ok,
      readdir_loop-next (n.body.length / 20 + 1) ((n.body.length - dir.pos) / 20) dir.pos
          (omega arith) (omega arith) (omega arith),
    )
