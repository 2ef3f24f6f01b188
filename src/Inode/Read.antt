-- ===== src/Inode/Read.antt =====
-- `inode_read_at` returns the bytes of the file.
use Prim.Native.Nat.{min}
use pintos_filesys.Base.{
  ℕ, zero, suc, ◌+◌, ◌-◌, ◌/◌, ◌%◌, ◌≤◌, ◌<◌, ◌≡◌, sym, ap, ◌∙◌, arith, true, ok, ne→not_==, List,
  ◌++◌, ℕ_discrete, dec_lt, granted, get_or, ◌==◌, false,
}
use pintos_filesys.Disk.{Disk}
use pintos_filesys.Fat.{FatFs, cluster_to_sector}
use pintos_filesys.Fat.Store.Rounds.{read-ok}
use pintos_filesys.Inode.{InodeDisk, read_loop, inode_read_at, chunk_of, is_whole, slice}
use pintos_filesys.Inode.Content.{
  IsFile, content, sector_at, byte_to_sector-in, byte_to_sector-outside, slice_ext, slice_append,
  has-get_or,
}

module _ (fs : FatFs) (d : Disk) (i : InodeDisk) (xs : List ℕ) (f : IsFile fs d i xs) where
  abbrev file : ℕ → ℕ
  file = content fs d xs

  -- One sector holds a run of the file's bytes.
  slice-sector :
      (offset chunk : ℕ)
      → offset % 512 + chunk ≤ 512
      → slice (d.sectors (sector_at fs xs offset)) (offset % 512) chunk ≡ slice file offset chunk
  slice-sector offset chunk fits =
      slice_ext chunk (d.sectors (sector_at fs xs offset)) file (offset % 512) offset λ j lt.
        let q : (offset + j) / 512 ≡ offset / 512 = omega arith in
        let r : (offset + j) % 512 ≡ offset % 512 + j = omega arith in
        ap (λ m. d.sectors (cluster_to_sector fs (get_or xs m 0)) (offset % 512 + j)) (sym q)
        ∙ ap (d.sectors (sector_at fs xs (offset + j))) (sym r)

  sector_at-lt : (offset : ℕ) → offset < i.length → sector_at fs xs offset < d.capacity
  sector_at-lt offset lt = f.on_disk _ (has-get_or xs (offset / 512) (omega (arith, f.covers)))

  read_loop-slice :
      (k size offset : ℕ)
      → size < k
      → read_loop true fs d i k size offset ≡ ok (slice file offset (min size (i.length - offset)))
  unfolding read_loop
  read_loop-slice zero size offset fuel = elim fuel [ ]
  read_loop-slice (suc k) size offset fuel = elim (ℕ_discrete size 0) [
    | yes e ↦ let none : min size (i.length - offset) ≡ 0 = omega arith in rw (none, e)
    | no ne ↦ elim (dec_lt offset i.length) [
      | yes lt ↦
          let chunk = chunk_of i size offset in
          let left = min (size - chunk) (i.length - (offset + chunk)) in
          let some_bytes : (chunk == 0) ≡ false = ne→not_== chunk 0 (omega arith) in
          let all : chunk + left ≡ min size (i.length - offset) = omega arith in
          rw
            (
              ne→not_== size 0 ne,
              byte_to_sector-in fs d i xs offset f (omega arith) (omega (arith, f.covers)),
              some_bytes,
              granted (is_whole chunk offset),
              read-ok d (sector_at fs xs offset) (sector_at-lt offset lt) f.small,
              read_loop-slice k (size - chunk) (offset + chunk) (omega arith),
            )
            (ap ok (
              ap (λ bytes. bytes ++ slice file (offset + chunk) left)
                (slice-sector offset chunk (omega arith))
              ∙ slice_append chunk left file offset
              ∙ ap (slice file offset) all))
      | no ge ↦
          let (s, found) = byte_to_sector-outside fs d i xs offset f (omega arith) in
          let none : min size (i.length - offset) ≡ 0 = omega arith in
          let idle : chunk_of i size offset ≡ 0 = omega arith in
          rw (ne→not_== size 0 ne, found, idle, none)
    ]
  ]

  -- With memory for the bounce buffer, reading `size` bytes at `offset` returns the bytes of the
  -- file from `offset` on, as many as there are, but at most `size`.
  pub inode_read_at-content :
      (size offset : ℕ)
      → inode_read_at true fs d i size offset
        ≡ ok (slice (content fs d xs) offset (min size (i.length - offset)))
  unfolding inode_read_at
  inode_read_at-content size offset = read_loop-slice (suc size) size offset (omega arith)
