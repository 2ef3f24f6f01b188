-- ===== src/Inode/Reread.antt =====
-- Reading back what `inode_write_at` has written.
use Prim.Native.Nat.{min, max}
use pintos_filesys.Base.{
  ℕ, ◌+◌, ◌-◌, ◌*◌, ◌≤◌, ◌<◌, ◌≡◌, ◌≢◌, ap, ◌∙◌, arith, true, ok, Returns, Returns-mono, inl, inr,
  List, length, lt→ltb, le→leb,
}
use pintos_filesys.Disk.{Disk}
use pintos_filesys.Fat.{FatFs}
use pintos_filesys.Inode.{Inode, Wrote, inode_read_at, inode_write_at, slice}
use pintos_filesys.Inode.Content.{IsFile, content, sector_at, slice_ext}
use pintos_filesys.Inode.Read.{inode_read_at-content}
use pintos_filesys.Inode.Write.{IsFile-disk}
use pintos_filesys.Inode.Update.{HasRoom, Updated, grown, grown-IsFile, inode_write_at-Updated}

module _ (fs : FatFs) (d : Disk) (n : Inode) (xs : List ℕ) (f : IsFile fs d n.body xs)
    (own : n.sector < d.capacity)
    (apart : (p : ℕ) → p < 512 * length xs → sector_at fs xs p ≢ n.sector) where
  reread :
      (buffer : ℕ → ℕ) (size offset : ℕ) (w : Wrote)
      → offset + size ≤ 512 * length xs
      → HasRoom n.body xs (offset + size)
      → Updated fs d n xs buffer size offset w
      → inode_read_at true fs w.disk (grown n (offset + size)).body size offset
        ≡ ok (slice buffer 0 size)
  reread buffer size offset w inside room u =
      let whole : min size (max n.body.length (offset + size) - offset) ≡ size = omega arith in
      inode_read_at-content fs w.disk (grown n (offset + size)).body xs
        (IsFile-disk fs d w.disk (grown n (offset + size)).body xs u.capacity
          (grown-IsFile fs d n.body xs f (offset + size) room))
        size offset
      ∙ ap (λ k. ok (slice (content fs w.disk xs) offset k)) whole
      ∙ ap ok (
          slice_ext size (content fs w.disk xs) buffer offset 0 λ j lt.
            let back : offset + j - offset ≡ 0 + j = omega arith in
            u.bytes (offset + j) (omega arith)
            ∙ rw (
              le→leb offset (offset + j) (omega arith),
              lt→ltb (offset + j) (offset + size) (omega arith),
              back,
            ))

  -- With memory, after a write that needs no new cluster, to an inode that may be written and whose own sector is
  -- on the disk and outside the file, a read of as many bytes at the same offset returns the bytes
  -- of the buffer.
  pub inode_write_at-read :
      (buffer : ℕ → ℕ) (size offset : ℕ)
      → n.deny_write_cnt ≡ 0
      → HasRoom n.body xs (offset + size)
      → Returns
          (λ w. inode_read_at true w.fs w.disk w.inode.body size offset ≡ ok (slice buffer 0 size))
          (inode_write_at true fs d n buffer size offset)
  inode_write_at-read buffer size offset allowed room =
      Returns-mono (Updated fs d n xs buffer size offset) _ _
        (inode_write_at-Updated fs d n xs f own apart buffer size offset allowed room)
        λ w u.
          rw (u.table, u.inode)
            (reread buffer size offset w
              (elim room [ inl le ↦ omega (arith, f.covers) | inr r ↦ r.0 ]) room u)
