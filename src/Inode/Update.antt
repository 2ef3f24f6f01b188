-- ===== src/Inode/Update.antt =====
-- `inode_write_at` as a whole: a write into the clusters that the file has, and the append that
-- `inode_write_at` allocates no cluster for.
use Prim.Native.Nat.{min, max}
use pintos_filesys.Base.{
  ℕ, suc, ◌+◌, ◌-◌, ◌*◌, ◌%◌, ◌≤◌, ◌<◌, ◌≡◌, ◌≢◌, ◌⊎◌, refl, ◌∙◌, arith, true, false, ◌&&◌, ok,
  panic, Returns, Returns-bind, ne→not_==, ==_refl, List, [], ◌∷◌, length, dec_le, ltb, leb,
  if◌then◌else◌, ◌==◌, le→leb, lt→not_leb, granted,
}
use pintos_filesys.Disk.{Disk, store}
use pintos_filesys.Fat.{FatFs}
use pintos_filesys.Fat.Store.Rounds.{write-ok}
use pintos_filesys.Inode.{
  Inode, InodeDisk, Wrote, inode_bytes, inode_flush, inode_write_at, no_sector, chunk_of, is_whole,
  write_loop, extend, grow_loop, first_cluster,
}
use pintos_filesys.Inode.Content.{IsFile, FileChain, content, sector_at, byte_to_sector-end}
use pintos_filesys.Inode.Write.{Done, write_loop-Stored, write_chunk-panic}

abbrev pub with_length : InodeDisk → ℕ → InodeDisk
with_length i n = record i { length = n }

-- The clusters of the file are no more than its length needs.
abbrev pub IsTight : InodeDisk → List ℕ → Type 0
IsTight i xs = 512 * length xs < i.length + 512

-- A write up to `end` needs no new cluster: it ends inside the file, or inside the last cluster of
-- a file that does not fill it.
abbrev pub HasRoom : InodeDisk → List ℕ → ℕ → Type 0
HasRoom i xs end =
    (end ≤ i.length) ⊎ ((end ≤ 512 * length xs) × IsTight i xs × (i.length % 512 ≢ 0))

module _ (fs : FatFs) (d : Disk) (i : InodeDisk) (xs : List ℕ) (f : IsFile fs d i xs) where
  start-ne-zero : 0 < length xs → i.start ≢ 0
  start-ne-zero = some_start xs f.chain
    where
      some_start : (ys : List ℕ) → FileChain fs i.start ys → 0 < length ys → i.start ≢ 0
      some_start [] c lt = elim lt [ ]
      some_start (y ∷ ys) c lt = omega (arith, c)

  extend-room :
      (end : ℕ)
      → HasRoom i xs end
      → extend fs d i end ≡ ok (fs, d, with_length i (max i.length end))
  unfolding extend grow_loop first_cluster
  extend-room end room = elim (dec_le end i.length) [
    | yes le ↦
        let same : max i.length end ≡ i.length = omega arith in rw (le→leb end i.length le, same)
    | no gt ↦
        let longer : leb end i.length ≡ false = lt→not_leb end i.length (omega arith) in
        let done : end - i.length - (512 - i.length % 512) ≡ 0 = omega arith in
        let total : i.length + min (end - i.length) (512 - i.length % 512) ≡ max i.length end =
          omega arith in
        rw (longer, ne→not_== i.start 0 (start-ne-zero (omega (arith, f.covers))), done, total)
  ]

  pub grown-IsFile :
      (end : ℕ) → HasRoom i xs end → IsFile fs d (with_length i (max i.length end)) xs
  grown-IsFile end room = record {
    chain = f.chain;
    covers = omega (arith, f.covers);
    short = f.short;
    on_disk = f.on_disk;
    small = f.small;
    unwrapped = f.unwrapped;
  }

-- The inode after a write up to `end`.
abbrev pub grown : Inode → ℕ → Inode
grown n end = record n { body = with_length n.body (max n.body.length end) }

-- All `size` bytes are written; the file has them at `offset` and its other bytes as before; the
-- inode's sector holds the inode with its new length; the table, the disk's size and all other
-- sectors are kept.
pub record Updated (fs : FatFs) (d : Disk) (n : Inode) (xs : List ℕ) (buffer : ℕ → ℕ)
    (size offset : ℕ) (w : Wrote) : Type 0 where
  pub count : w.count ≡ size
  pub table : w.fs ≡ fs
  pub inode : w.inode ≡ grown n (offset + size)
  pub bytes :
      (p : ℕ)
      → p < 512 * length xs
      → content fs w.disk xs p
        ≡ (if leb offset p && ltb p (offset + size) then buffer (p - offset) else content fs d xs p)
  pub capacity : w.disk.capacity ≡ d.capacity
  pub flushed : w.disk.sectors n.sector ≡ inode_bytes (grown n (offset + size)).body
  pub others :
      (s : ℕ)
      → ((p : ℕ) → p < 512 * length xs → sector_at fs xs p ≢ s)
      → s ≢ n.sector
      → w.disk.sectors s ≡ d.sectors s

module _ (fs : FatFs) (d : Disk) (n : Inode) (xs : List ℕ) (f : IsFile fs d n.body xs)
    (own : n.sector < d.capacity)
    (apart : (p : ℕ) → p < 512 * length xs → sector_at fs xs p ≢ n.sector) where
  flushed-Updated :
      (buffer : ℕ → ℕ) (size offset : ℕ) (count : ℕ) (d' : Disk)
      → Done fs xs buffer d offset size 0 (count, d')
      → Updated fs d n xs buffer size offset (record {
        count = count;
        fs = fs;
        disk = record d' {
          sectors = store d'.sectors n.sector (inode_bytes (grown n (offset + size)).body);
        };
        inode = grown n (offset + size);
      })
  flushed-Updated buffer size offset count d' (total, s) = record {
    count = omega arith;
    table = refl;
    inode = refl;
    bytes = λ p lt.
        rw (ne→not_== (sector_at fs xs p) n.sector (apart p lt)) (s.bytes p lt ∙ rw (from_zero p));
    capacity = s.capacity;
    flushed = rw (==_refl n.sector);
    others = λ t away ne. rw (ne→not_== t n.sector ne) (s.others t away);
  }
    where
      from_zero : (p : ℕ) → 0 + (p - offset) ≡ p - offset
      from_zero p = omega arith

  -- With memory, a write that needs no new cluster, to an inode that may be written and whose own sector is on
  -- the disk and outside the file, returns. All `size` bytes are in the file at `offset` and its
  -- other bytes are as before; the inode has its new length, in memory and in its sector; the table
  -- and all other sectors are kept.
  pub inode_write_at-Updated :
      (buffer : ℕ → ℕ) (size offset : ℕ)
      → n.deny_write_cnt ≡ 0
      → HasRoom n.body xs (offset + size)
      → Returns
          (Updated fs d n xs buffer size offset)
          (inode_write_at true fs d n buffer size offset)
  unfolding inode_write_at inode_flush
  inode_write_at-Updated buffer size offset allowed room =
      let i = with_length n.body (max n.body.length (offset + size)) in
      let free : (n.deny_write_cnt == 0) ≡ true = ground arith in
      rw (free, extend-room fs d n.body xs f (offset + size) room)
        (Returns-bind (Done fs xs buffer d offset size 0) _
          (write_loop true fs i buffer (suc size) size offset 0 d) _
          (write_loop-Stored fs xs buffer i (suc size) size offset 0 d
            (grown-IsFile fs d n.body xs f (offset + size) room) (omega arith) (omega arith))
          λ (count, d') done.
            rw
              (write-ok d' n.sector (omega (arith, done.1.capacity))
                (omega (arith, done.1.capacity, f.small)) _)
              (flushed-Updated buffer size offset count d' done))

  extend-aligned :
      (size : ℕ)
      → n.body.length ≡ 512 * length xs
      → 0 < n.body.length
      → 0 < size
      → size ≤ 512
      → extend fs d n.body (n.body.length + size)
        ≡ ok (fs, d, with_length n.body (n.body.length + size))
  unfolding extend grow_loop first_cluster
  extend-aligned size full some_bytes ge le =
      let longer : leb (n.body.length + size) n.body.length ≡ false =
        lt→not_leb (n.body.length + size) n.body.length (omega arith) in
      let done : n.body.length + size - n.body.length - (512 - n.body.length % 512) ≡ 0 =
        omega arith in
      let total : min (n.body.length + size - n.body.length) (512 - n.body.length % 512) ≡ size =
        omega arith in
      rw (
        longer,
        ne→not_== n.body.start 0 (start-ne-zero fs d n.body xs f (omega arith)),
        done,
        total,
      )

  -- With memory, an append of 1 to 512 bytes that is not denied, to a file that is not empty and
  -- fills its clusters to the last byte, panics: the extension takes the
  -- last cluster for an empty one, allocates none, and the write goes to sector -1.
  pub inode_write_at-aligned :
      (buffer : ℕ → ℕ) (size : ℕ)
      → n.deny_write_cnt ≡ 0
      → n.body.length ≡ 512 * length xs
      → 0 < n.body.length
      → 0 < size
      → size ≤ 512
      → inode_write_at true fs d n buffer size n.body.length ≡ panic
  unfolding inode_write_at write_loop
  inode_write_at-aligned buffer size allowed full some_bytes ge le =
      let free : (n.deny_write_cnt == 0) ≡ true = ground arith in
      let i = with_length n.body (n.body.length + size) in
      rw (
        free,
        extend-aligned size full some_bytes ge le,
        ne→not_== size 0 (omega arith),
        byte_to_sector-end fs i xs n.body.length f.chain f.short full,
        some_chunk,
        granted (is_whole (chunk_of i size n.body.length) n.body.length),
        write_chunk-panic d buffer no_sector (chunk_of i size n.body.length) n.body.length 0
            (omega (arith, f.small)) (omega arith) (omega arith),
      )
    where
      some_chunk :
          (chunk_of (with_length n.body (n.body.length + size)) size n.body.length == 0) ≡ false
      some_chunk = ne→not_== _ 0 (omega arith)
