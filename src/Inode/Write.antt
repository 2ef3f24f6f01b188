-- ===== src/Inode/Write.antt =====
-- `inode_write_at` inside the clusters of the file stores the bytes, and nothing else changes.
use pintos_filesys.Base.{
  ℕ, zero, suc, ◌+◌, ◌-◌, ◌*◌, ◌/◌, ◌%◌, ◌^◌, ◌≤◌, ◌<◌, ◌≡◌, ◌≢◌, refl, sym, ap, ◌∙◌, subst, arith,
  Bool, true, false, ◌||◌, ◌&&◌, ok, panic, Returns, Returns-mono, ne→not_==, ==_refl, List, length,
  ℕ_discrete, granted, get_or, ltb, leb, if◌then◌else◌, ◌==◌, Bool-cases, inl, inr, lt→ltb, le→leb,
}
use pintos_filesys.Disk.{Disk, Sector, store}
use pintos_filesys.Fat.{FatFs, cluster_to_sector}
use pintos_filesys.Fat.Store.Rounds.{read-ok, write-ok, read-panic, write-panic}
use pintos_filesys.Inode.{InodeDisk, write_chunk, write_loop, chunk_of, is_whole, overlay}
use pintos_filesys.Inode.Content.{
  IsFile, content, sector_at, byte_to_sector-in, sector_at-injective, has-get_or,
}

-- After one round's store the sector holds `chunk` bytes of the buffer from `ofs` on.
abbrev pub Patched : Sector → (ofs chunk : ℕ) → (ℕ → ℕ) → ℕ → Sector → Type 0
Patched old ofs chunk buffer written new =
    (o : ℕ)
    → o < 512
    → new o ≡ (if leb ofs o && ltb o (ofs + chunk) then buffer (written + (o - ofs)) else old o)

write_chunk-Patched :
    (d : Disk) (buffer : ℕ → ℕ) (s chunk offset written : ℕ)
    → s < d.capacity
    → d.capacity ≤ 2 ^ 28
    → offset % 512 + chunk ≤ 512
    → (b : Sector) × (write_chunk d buffer s chunk offset written
        ≡ ok (record d { sectors = store d.sectors s b }))
      × Patched (d.sectors s) (offset % 512) chunk buffer written b
unfolding write_chunk
write_chunk-Patched d buffer s chunk offset written lt small fits =
    elim (Bool-cases (is_whole chunk offset)) [
      | inl whole ↦ (
        λ o. buffer (written + o),
        rw whole (write-ok d s lt small _),
        λ o p. whole_byte o p (first whole) (all whole),
      )
      | inr part ↦ (
        overlay (d.sectors s) (offset % 512) chunk buffer written,
        rw (part, partial part, read-ok d s lt small) (write-ok d s lt small _),
        λ o p. refl,
      )
    ]
  where
    first : is_whole chunk offset ≡ true → offset % 512 ≡ 0
    first h = ground arith

    all : is_whole chunk offset ≡ true → chunk ≡ 512
    all h = ground arith

    partial :
        is_whole chunk offset ≡ false
        → (ltb 0 (offset % 512) || ltb chunk (512 - offset % 512)) ≡ true
    partial h = ground arith

    whole_byte :
        (o : ℕ)
        → o < 512
        → offset % 512 ≡ 0
        → chunk ≡ 512
        → buffer (written + o) ≡ (
            if leb (offset % 512) o && ltb o (offset % 512 + chunk)
            then buffer (written + (o - offset % 512))
            else d.sectors s o)
    whole_byte o p e1 e2 =
        let place : o - offset % 512 ≡ o = omega arith in
        rw (
          le→leb (offset % 512) o (omega arith),
          lt→ltb o (offset % 512 + chunk) (omega arith),
          place,
        )

-- A store in a sector behind the end of the disk panics.
pub write_chunk-panic :
    (d : Disk) (buffer : ℕ → ℕ) (s chunk offset written : ℕ)
    → d.capacity ≤ s
    → offset % 512 ≡ 0
    → chunk ≤ 512
    → write_chunk d buffer s chunk offset written ≡ panic
unfolding write_chunk
write_chunk-panic d buffer s chunk offset written ge e le =
    elim (Bool-cases (is_whole chunk offset)) [
      | inl whole ↦ rw whole (write-panic d s ge _)
      | inr part ↦
          let partial : (ltb 0 (offset % 512) || ltb chunk (512 - offset % 512)) ≡ true =
            ground arith in
          rw (part, partial, read-panic d s ge)
    ]

-- The disk after `size` bytes at `offset` of the file have been replaced by those of the buffer
-- from `written` on.
pub record Stored (fs : FatFs) (d : Disk) (xs : List ℕ) (buffer : ℕ → ℕ) (offset size written : ℕ)
    (d' : Disk) : Type 0 where
  pub capacity : d'.capacity ≡ d.capacity
  pub bytes :
      (p : ℕ)
      → p < 512 * length xs
      → content fs d' xs p ≡ (
          if leb offset p && ltb p (offset + size)
          then buffer (written + (p - offset))
          else content fs d xs p)
  pub others :
      (s : ℕ) → ((p : ℕ) → p < 512 * length xs → sector_at fs xs p ≢ s) → d'.sectors s ≡ d.sectors s

module _ (fs : FatFs) (xs : List ℕ) (buffer : ℕ → ℕ) where
  Stored-none : (d : Disk) (offset written : ℕ) → Stored fs d xs buffer offset 0 written d
  Stored-none d offset written = record {
    capacity = refl;
    bytes = λ p lt. ground arith;
    others = λ s away. refl;
  }

  Stored-trans :
      (d d1 d2 : Disk) (offset a b written : ℕ)
      → Stored fs d xs buffer offset a written d1
      → Stored fs d1 xs buffer (offset + a) b (written + a) d2
      → Stored fs d xs buffer offset (a + b) written d2
  Stored-trans d d1 d2 offset a b written s t = record {
    capacity = t.capacity ∙ s.capacity;
    bytes = λ p lt.
        let shift : offset + a ≤ p → written + a + (p - (offset + a)) ≡ written + (p - offset) =
          λ h. omega arith in
        ground (arith, s.bytes p lt, t.bytes p lt, shift);
    others = λ s' away. t.others s' away ∙ s.others s' away;
  }

module _ (fs : FatFs) (xs : List ℕ) (buffer : ℕ → ℕ) (i : InodeDisk) (d : Disk)
    (f : IsFile fs d i xs) where
  Stored-chunk :
      (offset chunk written : ℕ) (b : Sector)
      → offset < i.length
      → offset % 512 + chunk ≤ 512
      → offset + chunk ≤ i.length
      → Patched (d.sectors (sector_at fs xs offset)) (offset % 512) chunk buffer written b
      → Stored fs d xs buffer offset chunk written
          (record d { sectors = store d.sectors (sector_at fs xs offset) b })
  Stored-chunk offset chunk written b lt fits inside patched = record {
    capacity = refl;
    bytes = λ p pl. elim (ℕ_discrete (sector_at fs xs p) (sector_at fs xs offset)) [
      | yes e ↦ same p pl e
      | no ne ↦ rw (ne→not_== (sector_at fs xs p) (sector_at fs xs offset) ne, unhit p ne)
    ];
    others = λ s away.
        rw
          (ne→not_== s (sector_at fs xs offset) λ e. away offset (omega (arith, f.covers)) (sym e));
  }
    where
      here : ℕ
      here = sector_at fs xs offset

      hit : ℕ → Bool
      hit p = leb offset p && ltb p (offset + chunk)

      unhit : (p : ℕ) → sector_at fs xs p ≢ here → hit p ≡ false
      unhit p ne = elim (Bool-cases (hit p)) [
        | inl h ↦
            let block : p / 512 ≡ offset / 512 = ground arith in
            absurd (ne (ap (λ m. cluster_to_sector fs (get_or xs m 0)) block))
        | inr h ↦ h
      ]

      same :
          (p : ℕ)
          → p < 512 * length xs
          → sector_at fs xs p ≡ here
          → store d.sectors here b (sector_at fs xs p) (p % 512)
            ≡ (if hit p then buffer (written + (p - offset)) else content fs d xs p)
      same p pl e =
          let block : p / 512 ≡ offset / 512 =
            sector_at-injective fs d i xs f p offset pl (omega (arith, f.covers)) e in
          let test : (leb (offset % 512) (p % 512) && ltb (p % 512) (offset % 512 + chunk))
              ≡ hit p =
            ground arith in
          let place : p % 512 - offset % 512 ≡ p - offset = omega arith in
          let new : store d.sectors here b here (p % 512) ≡ b (p % 512) = rw (==_refl here) in
          ap (λ s. store d.sectors here b s (p % 512)) e
          ∙ new
          ∙ patched (p % 512) (omega arith)
          ∙ rw (test, place)
              (ap (λ s. if hit p then buffer (written + (p - offset)) else d.sectors s (p % 512))
                (sym e))

-- A file on a disk whose sectors have changed is still a file.
pub IsFile-disk :
    (fs : FatFs) (d d' : Disk) (i : InodeDisk) (xs : List ℕ)
    → d'.capacity ≡ d.capacity
    → IsFile fs d i xs
    → IsFile fs d' i xs
IsFile-disk fs d d' i xs e f = record {
  chain = f.chain;
  covers = f.covers;
  short = f.short;
  on_disk = λ c h. omega (arith, f.on_disk c h);
  small = omega (arith, f.small);
  unwrapped = f.unwrapped;
}

module _ (fs : FatFs) (xs : List ℕ) (buffer : ℕ → ℕ) where
  -- `size` bytes were written, and no fewer.
  abbrev pub Done : Disk → (offset size written : ℕ) → ℕ × Disk → Type 0
  Done d offset size written (n, d') =
      (n ≡ written + size) × Stored fs d xs buffer offset size written d'

  Done-trans :
      (d d1 : Disk) (offset chunk size written : ℕ)
      → chunk ≤ size
      → Stored fs d xs buffer offset chunk written d1
      → (r : ℕ × Disk) → Done d1 (offset + chunk) (size - chunk) (written + chunk) r
      → Done d offset size written r
  Done-trans d d1 offset chunk size written le one (n, d') (count, rest) = (
    omega arith,
    subst (λ m. Stored fs d xs buffer offset m written d') (omega arith)
        (Stored-trans fs xs buffer d d1 d' offset chunk (size - chunk) written one rest),
  )

module _ (fs : FatFs) (xs : List ℕ) (buffer : ℕ → ℕ) (i : InodeDisk) where
  pub write_loop-Stored :
      (k size offset written : ℕ) (d : Disk)
      → IsFile fs d i xs
      → size < k
      → offset + size ≤ i.length
      → Returns
          (Done fs xs buffer d offset size written)
          (write_loop true fs i buffer k size offset written d)
  unfolding write_loop
  write_loop-Stored zero size offset written d f fuel inside = elim fuel [ ]
  write_loop-Stored (suc k) size offset written d f fuel inside = elim (ℕ_discrete size 0) [
    | yes e ↦ rw e (omega arith, Stored-none fs xs buffer d offset written)
    | no ne ↦
        let chunk = chunk_of i size offset in
        let here = sector_at fs xs offset in
        let some_bytes : (chunk == 0) ≡ false = ne→not_== chunk 0 (omega arith) in
        let lt : here < d.capacity =
          f.on_disk _ (has-get_or xs (offset / 512) (omega (arith, f.covers))) in
        let (b, stored, patched) =
          write_chunk-Patched d buffer here chunk offset written lt f.small (omega arith) in
        let d1 = record d { sectors = store d.sectors here b } in
        let one =
          Stored-chunk fs xs buffer i d f offset chunk written b (omega arith) (omega arith)
            (omega arith) patched in
        rw
          (
            ne→not_== size 0 ne,
            byte_to_sector-in fs d i xs offset f (omega arith) (omega (arith, f.covers)),
            some_bytes,
            granted (is_whole chunk offset),
            stored,
          )
          (Returns-mono (Done fs xs buffer d1 (offset + chunk) (size - chunk) (written + chunk))
            (Done fs xs buffer d offset size written) _
            (write_loop-Stored k (size - chunk) (offset + chunk) (written + chunk) d1
              (IsFile-disk fs d d1 i xs refl f) (omega arith) (omega arith))
            (Done-trans fs xs buffer d d1 offset chunk size written (omega arith) one))
  ]
