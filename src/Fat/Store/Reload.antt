-- ===== src/Fat/Store/Reload.antt =====
-- `fat_close` followed by `fat_init` and `fat_open`: the table survives.
use pintos_filesys.Base.{
  ℕ, ◌+◌, ◌*◌, ◌/◌, ◌%◌, ◌^◌, ◌≤◌, ◌<◌, ◌≡◌, ◌≢◌, ◌⊎◌, inl, inr, refl, arith, ok, ap, sym, subst,
  ne→not_==, ◌∙◌, Returns, Returns-bind, Returns-mono, lt→ltb, ◌==◌, if◌then◌else◌, Outcome, ◌>>=◌,
}
use pintos_filesys.Disk.{Disk, Sector, store, zeros}
use pintos_filesys.Fat.{FatFs, FatBoot, fat_magic, fat_fs_init, fat_boot_create}
use pintos_filesys.Fat.Store.{
  to_bytes, of_bytes, boot_words, boot_of, fat_init, open_loop, fat_open, fat_close, bounce_of,
  blank,
}
use pintos_filesys.Fat.Store.Rounds.{
  Fits, read-ok, write-ok, byte-at, word-bytes, Written, close_loop-Written, Read, open_loop-Read,
}

-- What a power cycle does: the boot record is read, then the table.
abbrev pub mount : Disk → Outcome FatFs
mount d = do fs ← fat_init d; fat_open fs d

-- A boot record of 32-bit words with its magic number.
pub record IsBoot (b : FatBoot) : Type 0 where
  pub magic : b.magic ≡ fat_magic
  pub cluster : b.sectors_per_cluster < 2 ^ 32
  pub total : b.total_sectors < 2 ^ 32
  pub start : b.fat_start < 2 ^ 32
  pub sectors : b.fat_sectors < 2 ^ 23
  pub root : b.root_dir_cluster < 2 ^ 32

module _ (b : FatBoot) (v : IsBoot b) (s : Sector)
    (e : s ≡ bounce_of (to_bytes (boot_words b)) 0 24) where
  boot-word : (k : ℕ) → k < 6 → boot_words b k < 2 ^ 32 → of_bytes s k ≡ boot_words b k
  boot-word k lt small = word-bytes s (boot_words b k) k small λ j p.
      rw (e, lt→ltb (4 * k + j) 24 (omega arith))
        (byte-at (boot_words b) k j (0 + (4 * k + j)) p (omega arith))

  boot_of-ok : boot_of s ≡ b
  unfolding boot_of boot_words
  boot_of-ok = ground (
    arith,
    boot-word 0 (omega arith) (omega (arith, v.magic)),
    boot-word 1 (omega arith) v.cluster,
    boot-word 2 (omega arith) v.total,
    boot-word 3 (omega arith) v.start,
    boot-word 4 (omega arith) (omega (arith, v.sectors)),
    boot-word 5 (omega arith) v.root,
  )

pub record Reloaded (fs g : FatFs) : Type 0 where
  pub bs : g.bs ≡ fs.bs
  pub length : g.fat_length ≡ fs.fat_length
  pub table : (c : ℕ) → c < fs.fat_length → g.fat c ≡ fs.fat c

module _ (fs : FatFs) (d : Disk) (f : Fits fs d) where
  abbrev with_boot : Disk
  with_boot = record d {
    sectors = store d.sectors 0 (bounce_of (to_bytes (boot_words fs.bs)) 0 24);
  }

  with_boot-Fits : Fits fs with_boot
  with_boot-Fits = record {
    length = f.length;
    start = f.start;
    on_disk = f.on_disk;
    capacity = f.capacity;
  }

  abbrev Closed : Disk → Type 0
  Closed d' = Written fs with_boot 0 fs.bs.fat_sectors d'

  close-Closed : Returns Closed (fat_close fs d)
  unfolding fat_close
  close-Closed = rw (write-ok d 0 (omega (arith, f.on_disk, f.start)) f.capacity _) (
      close_loop-Written fs fs.bs.fat_sectors 0 0 with_boot with_boot-Fits (omega arith)
        (omega arith))

  pub fat_close-capacity : Returns (λ d'. d'.capacity ≡ d.capacity) (fat_close fs d)
  fat_close-capacity = Returns-mono Closed _ (fat_close fs d) close-Closed λ d' w. w.capacity

module _ (fs : FatFs) (d : Disk) (f : Fits fs d) (boot : IsBoot fs.bs) where
  module _ (words : (c : ℕ) → c < fs.fat_length → fs.fat c < 2 ^ 32) (d' : Disk)
      (w : Closed fs d f d') where
    init-boot : fat_init d' ≡ ok (fat_fs_init (blank fs.bs))
    unfolding fat_init
    init-boot = rw (
      read-ok d' 0 (omega (arith, w.capacity, f.on_disk, f.start))
          (omega (arith, w.capacity, f.capacity)),
      picked (boot_of (d'.sectors 0))
          (boot_of-ok fs.bs boot (d'.sectors 0) (w.kept 0 (inl (omega (arith, f.start))))),
    )
      where
        other : FatBoot
        other = fat_boot_create d'.capacity

        picked : (b : FatBoot) → b ≡ fs.bs → (if b.magic == fat_magic then b else other) ≡ fs.bs
        picked b e =
            subst (λ c. (if c.magic == fat_magic then c else other) ≡ fs.bs) (sym e)
              (ap (λ m. if m == fat_magic then fs.bs else other) boot.magic)

    abbrev mounted : FatFs
    mounted = fat_fs_init (blank fs.bs)

    mounted-length : mounted.fat_length ≡ fs.fat_length
    unfolding fat_fs_init
    mounted-length = omega (arith, f.length, boot.sectors)

    mounted-bs : mounted.bs ≡ fs.bs
    unfolding fat_fs_init
    mounted-bs = refl

    mounted-Fits : Fits mounted d'
    mounted-Fits = record {
      length =
          mounted-length ∙ f.length ∙ ap (λ (b : FatBoot). 128 * b.fat_sectors) (sym mounted-bs);
      start = rw mounted-bs f.start;
      on_disk = rw (mounted-bs, w.capacity) f.on_disk;
      capacity = rw w.capacity f.capacity;
    }

    table-at :
        (buffer : ℕ → ℕ)
        → Read mounted d' 0 fs.bs.fat_sectors zeros buffer
        → (c : ℕ) → c < fs.fat_length
        → of_bytes buffer c ≡ fs.fat c
    table-at buffer r c lt = word-bytes buffer (fs.fat c) c (words c lt) λ j p.
        let t = c / 128 in
        let o = 4 * (c % 128) + j in
        let place : 4 * c + j ≡ 512 * t + o = omega arith in
        let inside : t < fs.bs.fat_sectors = omega (arith, f.length) in
        ap buffer place
        ∙ r.table t o (omega arith) (omega arith) (omega arith)
        ∙ ap (λ (b : FatBoot). d'.sectors (b.fat_start + t) o) mounted-bs
        ∙ w.table t o (omega arith) (omega arith) (omega arith)
        ∙ byte-at fs.fat c j (512 * t + o) p (omega arith)

    open-Reloaded : Returns (Reloaded fs) (fat_open mounted d')
    unfolding fat_open fat_fs_init
    open-Reloaded = rw mounted-bs (
        Returns-bind (Read mounted d' 0 fs.bs.fat_sectors zeros) (Reloaded fs)
          (open_loop fs.bs.fat_sectors 0 0 mounted d' zeros) _
          (open_loop-Read mounted d' mounted-Fits fs.bs.fat_sectors 0 0 zeros (omega arith)
            (omega arith ∙ ap (λ (b : FatBoot). b.fat_sectors) (sym mounted-bs)))
          λ buffer r. record {
            bs = mounted-bs;
            length = mounted-length;
            table = table-at buffer r;
          })

    mount-Reloaded : Returns (Reloaded fs) (mount d')
    mount-Reloaded = rw init-boot open-Reloaded

  -- For a table of 32-bit entries that fills its sectors, on a disk that holds them, and a boot
  -- record with its magic number: `fat_close` returns, it changes no sector but sector 0 and those
  -- of the table, and `fat_init` and `fat_open` on that disk return the same boot record and the
  -- same table.
  pub fat_close-mount :
      ((c : ℕ) → c < fs.fat_length → fs.fat c < 2 ^ 32)
      → Returns
          (λ d'.
            ((s : ℕ)
              → s ≢ 0
              → (s < fs.bs.fat_start) ⊎ (fs.bs.fat_start + fs.bs.fat_sectors ≤ s)
              → d'.sectors s ≡ d.sectors s)
            × Returns (Reloaded fs) (mount d'))
          (fat_close fs d)
  fat_close-mount words =
      Returns-mono (Closed fs d f) _ (fat_close fs d) (close-Closed fs d f) λ d' w. (
        (λ s ne away.
            w.kept s (elim away [ inl p ↦ inl (omega arith) | inr p ↦ inr (omega arith) ])
            ∙ rw (ne→not_== s 0 ne)),
        mount-Reloaded words d' w,
      )
