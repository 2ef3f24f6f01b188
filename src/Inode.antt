-- ===== src/Inode.antt =====
-- filesys/inode.c: the inode on the disk and in memory, reading and writing its bytes. Offsets and
-- sizes are the non-negative values of `off_t`. A difference that the code tests against 0 is the
-- truncated one. `memory` says whether the bounce buffer of a call can be allocated.
pub mod Content
pub mod Table
pub mod Update
pub mod Write
pub mod Read
pub mod Reread
mod Examples
use Prim.Native.Nat.{min}
use pintos_filesys.Base.{
  ℕ, zero, suc, ◌+◌, ◌-◌, ◌*◌, ◌/◌, ◌%◌, ◌^◌, Bool, true, false, not, ◌&&◌, ◌||◌, Outcome, ok, hang,
  ◌>>=◌, ltb, leb, ◌==◌, if◌then◌else◌, List, [], ◌∷◌, ◌++◌,
}
use pintos_filesys.Disk.{Disk, Sector, disk_sector_size, disk_read, disk_write, zeros}
use pintos_filesys.Fat.{FatFs, eo_chain, fat_get, fat_create_chain, cluster_to_sector}
use pintos_filesys.Fat.Store.{to_bytes, of_bytes}

abbrev pub inode_magic : ℕ
inode_magic = 0x494e4f44

-- `rest` holds the bytes from 13 on, the padding and `unused`.
pub record InodeDisk : Type 0 where
  pub start : ℕ
  pub length : ℕ
  pub magic : ℕ
  pub isdir : Bool
  pub rest : Sector

inode_words : InodeDisk → ℕ → ℕ
inode_words i zero = i.start
inode_words i (suc zero) = i.length
inode_words i _ = i.magic

-- The struct as the sector that holds it.
unfoldable pub inode_bytes : InodeDisk → Sector
unfolding inode_words to_bytes
inode_bytes i o =
    if ltb o 12
    then to_bytes (inode_words i) o
    else if o == 12
    then (if i.isdir then 1 else 0)
    else i.rest o

unfoldable pub inode_of : Sector → InodeDisk
unfolding of_bytes
inode_of s = record {
  start = of_bytes s 0;
  length = of_bytes s 1;
  magic = of_bytes s 2;
  isdir = not (s 12 == 0);
  rest = s;
}

pub record Inode : Type 0 where
  pub sector : ℕ
  pub open_cnt : ℕ
  pub removed : Bool
  pub deny_write_cnt : ℕ
  pub body : InodeDisk

unfoldable pub bytes_to_sectors : ℕ → ℕ
bytes_to_sectors size = (size + disk_sector_size - 1) / disk_sector_size

-- `(disk_sector_t) -1`.
abbrev pub no_sector : ℕ
no_sector = 2 ^ 32 - 1

-- `sectors` steps along the chain.
sector_loop : FatFs → (sectors clst_idx : ℕ) → Outcome ℕ
sector_loop fs zero clst_idx = ok (cluster_to_sector fs clst_idx)
sector_loop fs (suc sectors) clst_idx = do
  next ← fat_get fs clst_idx
  let rest = sector_loop fs sectors next
  if next == eo_chain then ok no_sector else rest

unfoldable pub byte_to_sector : FatFs → InodeDisk → ℕ → Outcome ℕ
unfolding sector_loop
byte_to_sector fs i pos =
    if ltb i.length pos
    then ok no_sector
    else if i.start == 0 || i.start == eo_chain
    then ok no_sector
    else sector_loop fs (pos / disk_sector_size) i.start

-- `chunk_size` of a round.
abbrev pub chunk_of : InodeDisk → (size offset : ℕ) → ℕ
chunk_of i size offset =
    min size (min (i.length - offset) (disk_sector_size - offset % disk_sector_size))

-- Whether a round moves a whole sector, and so needs no bounce buffer.
abbrev pub is_whole : (chunk offset : ℕ) → Bool
is_whole chunk offset = offset % disk_sector_size == 0 && chunk == disk_sector_size

-- `n` values of `f` from `o` on.
abbrev pub slice : (ℕ → ℕ) → ℕ → ℕ → List ℕ
slice f o zero = []
slice f o (suc n) = f o ∷ slice f (o + 1) n

read_loop : Bool → FatFs → Disk → InodeDisk → (fuel size offset : ℕ) → Outcome (List ℕ)
read_loop memory fs d i zero size offset = hang
read_loop memory fs d i (suc k) size offset = if size == 0 then ok [] else do
  sector_idx ← byte_to_sector fs i offset
  let chunk = chunk_of i size offset
  let next = read_loop memory fs d i k (size - chunk) (offset + chunk)
  if chunk == 0 || not (is_whole chunk offset || memory) then ok [] else do
    sector ← disk_read d sector_idx
    rest ← next
    ok (slice sector (offset % disk_sector_size) chunk ++ rest)

-- The bytes that are copied to the buffer; their number is the result.
unfoldable pub inode_read_at :
    Bool → FatFs → Disk → InodeDisk → (size offset : ℕ) → Outcome (List ℕ)
unfolding read_loop
inode_read_at memory fs d i size offset = read_loop memory fs d i (suc size) size offset

-- `memcpy (bounce + sector_ofs, buffer + bytes_written, chunk_size)`.
abbrev pub overlay : Sector → (ofs chunk : ℕ) → (buffer : ℕ → ℕ) → (written : ℕ) → Sector
overlay bounce ofs chunk buffer written o =
    if leb ofs o && ltb o (ofs + chunk) then buffer (written + (o - ofs)) else bounce o

-- What the bounce buffer holds before the copy.
abbrev bounce_before : Disk → (sector_idx chunk offset : ℕ) → Outcome Sector
bounce_before d sector_idx chunk offset =
    let ofs = offset % disk_sector_size in
    if ltb 0 ofs || ltb chunk (disk_sector_size - ofs) then disk_read d sector_idx else ok zeros

-- One round's store.
pub write_chunk : Disk → (buffer : ℕ → ℕ) → (sector_idx chunk offset written : ℕ) → Outcome Disk
write_chunk d buffer sector_idx chunk offset written =
    if is_whole chunk offset then disk_write d sector_idx (λ o. buffer (written + o)) else do
      bounce ← bounce_before d sector_idx chunk offset
      disk_write d sector_idx (overlay bounce (offset % disk_sector_size) chunk buffer written)

pub write_loop :
    Bool
    → FatFs
    → InodeDisk
    → (buffer : ℕ → ℕ) → (fuel size offset written : ℕ) → Disk
    → Outcome (ℕ × Disk)
write_loop memory fs i buffer zero size offset written d = hang
write_loop memory fs i buffer (suc k) size offset written d =
    if size == 0 then ok (written, d) else do
      sector_idx ← byte_to_sector fs i offset
      let chunk = chunk_of i size offset
      let next = write_loop memory fs i buffer k (size - chunk) (offset + chunk) (written + chunk)
      if chunk == 0 || not (is_whole chunk offset || memory)
          then ok (written, d)
          else do d' ← write_chunk d buffer sector_idx chunk offset written; next d'

unfoldable pub inode_flush : Inode → Disk → Outcome Disk
unfolding inode_bytes
inode_flush n d = disk_write d n.sector (inode_bytes n.body)

-- The `while (remain_length > 0)` loop of the extension. A failed allocation is not noticed.
grow_loop : (fuel remain : ℕ) → FatFs → Disk → InodeDisk → Outcome (FatFs × Disk × InodeDisk)
grow_loop zero remain fs d i = hang
grow_loop (suc k) remain fs d i = if remain == 0 then ok (fs, d, i) else do
  (new_clst, fs') ← fat_create_chain fs i.start
  let i' = record i { length = i.length + min remain disk_sector_size }
  d' ← disk_write d (cluster_to_sector fs' new_clst) zeros
  grow_loop k (remain - disk_sector_size) fs' d' i'

-- `if (inode->data.start == 0) inode->data.start = fat_create_chain (0)`.
first_cluster : FatFs → InodeDisk → Outcome (FatFs × InodeDisk)
first_cluster fs i =
    if i.start == 0
    then (do (clst, fs') ← fat_create_chain fs 0; ok (fs', record i { start = clst }))
    else ok (fs, i)

-- The extension of a file to `extend_size` bytes.
pub extend : FatFs → Disk → InodeDisk → (extend_size : ℕ) → Outcome (FatFs × Disk × InodeDisk)
unfolding grow_loop first_cluster
extend fs d i extend_size = if leb extend_size i.length then ok (fs, d, i) else do
  let remain = extend_size - i.length
  let last_remain = disk_sector_size - i.length % disk_sector_size
  (fs', i') ← first_cluster fs i
  grow_loop (suc remain) (remain - last_remain) fs' d
      (record i' { length = i.length + min remain last_remain })

pub record Wrote : Type 0 where
  pub count : ℕ
  pub fs : FatFs
  pub disk : Disk
  pub inode : Inode

-- The number of bytes written, the table, the disk and the inode afterwards.
unfoldable pub inode_write_at :
    Bool → FatFs → Disk → Inode → (buffer : ℕ → ℕ) → (size offset : ℕ) → Outcome Wrote
inode_write_at memory fs d n buffer size offset =
    if not (n.deny_write_cnt == 0)
    then ok (record { count = 0; fs = fs; disk = d; inode = n })
    else do
      (fs', d1, i) ← extend fs d n.body (offset + size)
      (count, d2) ← write_loop memory fs' i buffer (suc size) size offset 0 d1
      let n' = record n { body = i }
      d3 ← inode_flush n' d2
      ok (record { count = count; fs = fs'; disk = d3; inode = n' })
