-- ===== src/Fat/Store/Rounds.antt =====
-- The rounds of `fat_close` and `fat_open`: what each writes and reads.
use pintos_filesys.Base.{
  ℕ, zero, suc, ◌+◌, ◌-◌, ◌*◌, ◌/◌, ◌%◌, ◌^◌, ◌≤◌, ◌<◌, ◌≡◌, ◌⊎◌, inl, refl, arith, ok, ap, ==_refl,
  ℕ_discrete, ◌∙◌, true, Returns, Returns-bind, Returns-mono, panic, le→not_ltb, lt→ltb, le→leb,
  leb,
}
use pintos_filesys.Disk.{Disk, Sector, disk_read, disk_write, store, zeros}
use pintos_filesys.Fat.{FatFs}
use pintos_filesys.Fat.Store.{
  byte_of, to_bytes, of_bytes, open_loop, fat_open, close_loop, bounce_of, copy_in,
}

-- A table that fills its sectors, on a disk that holds them.
pub record Fits (fs : FatFs) (d : Disk) : Type 0 where
  pub length : fs.fat_length ≡ 128 * fs.bs.fat_sectors
  pub start : 1 ≤ fs.bs.fat_start
  pub on_disk : fs.bs.fat_start + fs.bs.fat_sectors ≤ d.capacity
  pub capacity : d.capacity ≤ 2 ^ 28

module _ (d : Disk) (s : ℕ) (lt : s < d.capacity) (small : d.capacity ≤ 2 ^ 28) where
  pub read-ok : disk_read d s ≡ ok (d.sectors s)
  unfolding disk_read
  read-ok = rw (lt→ltb s d.capacity lt, lt→ltb s (2 ^ 28) (omega arith))

  pub write-ok : (b : Sector) → disk_write d s b ≡ ok (record d { sectors = store d.sectors s b })
  unfolding disk_write
  write-ok b = rw (lt→ltb s d.capacity lt, lt→ltb s (2 ^ 28) (omega arith))

module _ (d : Disk) (s : ℕ) (ge : d.capacity ≤ s) where
  pub read-panic : disk_read d s ≡ panic
  unfolding disk_read
  read-panic = rw (le→not_ltb s d.capacity ge)

  pub write-panic : (b : Sector) → disk_write d s b ≡ panic
  unfolding disk_write
  write-panic b = rw (le→not_ltb s d.capacity ge)

pub byte-at :
    (words : ℕ → ℕ) (i k o : ℕ) → k < 4 → o ≡ 4 * i + k → to_bytes words o ≡ byte_of (words i) k
unfolding to_bytes
byte-at words i k o lt e =
    let q : o / 4 ≡ i = omega arith in let r : o % 4 ≡ k = omega arith in rw (q, r)

-- A word is the sum of its bytes.
pub word-bytes :
    (bytes : ℕ → ℕ) (w i : ℕ)
    → w < 2 ^ 32
    → ((k : ℕ) → k < 4 → bytes (4 * i + k) ≡ byte_of w k)
    → of_bytes bytes i ≡ w
unfolding of_bytes
word-bytes bytes w i small h =
    let z : bytes (4 * i) ≡ w % 256 = ap bytes (omega arith) ∙ h 0 (omega arith) in
    rw (z, h 1 (omega arith), h 2 (omega arith), h 3 (omega arith)) (omega arith)

pub words-same :
    (f g : ℕ → ℕ) (a b : ℕ)
    → ((k : ℕ) → k < 4 → f (4 * a + k) ≡ g (4 * b + k))
    → of_bytes f a ≡ of_bytes g b
unfolding of_bytes
words-same f g a b h =
    let z : f (4 * a) ≡ g (4 * b) = ap f (omega arith) ∙ h 0 (omega arith) ∙ ap g (omega arith) in
    rw (z, h 1 (omega arith), h 2 (omega arith), h 3 (omega arith))

abbrev pub Kept : Disk → Disk → ℕ → ℕ → Type 0
Kept d d' from to = (s : ℕ) → (s < from) ⊎ (to ≤ s) → d'.sectors s ≡ d.sectors s

-- The sectors that the rounds of `fat_close` have written hold the table's bytes.
pub record Written (fs : FatFs) (d : Disk) (i n : ℕ) (d' : Disk) : Type 0 where
  pub capacity : d'.capacity ≡ d.capacity
  pub kept : Kept d d' (fs.bs.fat_start + i) (fs.bs.fat_start + i + n)
  pub table :
      (t o : ℕ)
      → i ≤ t
      → t < i + n
      → o < 512
      → d'.sectors (fs.bs.fat_start + t) o ≡ to_bytes fs.fat (512 * t + o)

abbrev wrote_one : FatFs → Disk → ℕ → Disk
wrote_one fs d i = record d {
  sectors = store d.sectors (fs.bs.fat_start + i) (bounce_of (to_bytes fs.fat) (512 * i) 512);
}

module _ (fs : FatFs) where
  Written-suc :
      (n i : ℕ) (d d' : Disk)
      → Written fs (wrote_one fs d i) (i + 1) n d'
      → Written fs d i (suc n) d'
  Written-suc n i d d' w = record {
    capacity = w.capacity;
    kept = λ s o. ground (arith, w.kept s);
    table = λ t o p q lt. elim (ℕ_discrete t i) [
      | yes e ↦ rw (
        e,
        w.kept (fs.bs.fat_start + i) (inl (omega arith)),
        ==_refl (fs.bs.fat_start + i),
        lt→ltb o 512 lt,
      )
      | no ne ↦ w.table t o (omega arith) (omega arith) lt
    ];
  }

  pub close_loop-Written :
      (n i wrote : ℕ) (d : Disk)
      → Fits fs d
      → wrote ≡ 512 * i
      → i + n ≡ fs.bs.fat_sectors
      → Returns (Written fs d i n) (close_loop n i wrote fs d)
  unfolding close_loop
  close_loop-Written zero i wrote d f e stop = record {
    capacity = refl;
    kept = λ s o. refl;
    table = λ t o p q. absurd (omega arith);
  }
  close_loop-Written (suc n) i wrote d f e stop =
      let full : leb 512 (fs.fat_length * 4 - 512 * i) ≡ true =
        le→leb _ _ (omega (arith, f.length)) in
      rw (e, full, write-ok d (fs.bs.fat_start + i) (omega (arith, f.on_disk)) f.capacity _)
        (Returns-mono (Written fs (wrote_one fs d i) (i + 1) n) (Written fs d i (suc n)) _
          (close_loop-Written n (i + 1) (512 * i + 512) (wrote_one fs d i)
            (record {
              length = f.length;
              start = f.start;
              on_disk = f.on_disk;
              capacity = f.capacity;
            })
            (omega arith) (omega arith))
          (Written-suc n i d))

-- The memory that the rounds of `fat_open` have read.
pub record Read (fs : FatFs) (d : Disk) (i n : ℕ) (old buffer : ℕ → ℕ) : Type 0 where
  pub kept : (o : ℕ) → o < 512 * i → buffer o ≡ old o
  pub table :
      (t o : ℕ)
      → i ≤ t
      → t < i + n
      → o < 512
      → buffer (512 * t + o) ≡ d.sectors (fs.bs.fat_start + t) o

module _ (fs : FatFs) (d : Disk) (f : Fits fs d) where
  abbrev read_one : ℕ → (ℕ → ℕ) → ℕ → ℕ
  read_one i old = copy_in old (512 * i) (d.sectors (fs.bs.fat_start + i)) 512

  read_one-at :
      (i o : ℕ) (old : ℕ → ℕ)
      → o < 512
      → read_one i old (512 * i + o) ≡ d.sectors (fs.bs.fat_start + i) o
  read_one-at i o old lt =
      let back : 512 * i + o - 512 * i ≡ o = omega arith in
      rw (
        le→leb (512 * i) (512 * i + o) (omega arith),
        lt→ltb (512 * i + o) (512 * i + 512) (omega arith),
        back,
      )

  Read-suc :
      (n i : ℕ) (old buffer : ℕ → ℕ)
      → Read fs d (i + 1) n (read_one i old) buffer
      → Read fs d i (suc n) old buffer
  Read-suc n i old buffer w = record {
    kept = λ o lt. ground (arith, w.kept o);
    table = λ t o p q lt. elim (ℕ_discrete t i) [
      | yes e ↦ rw e (w.kept (512 * i + o) (omega arith) ∙ read_one-at i o old lt)
      | no ne ↦ w.table t o (omega arith) (omega arith) lt
    ];
  }

  pub open_loop-Read :
      (n i read : ℕ) (old : ℕ → ℕ)
      → read ≡ 512 * i
      → i + n ≡ fs.bs.fat_sectors
      → Returns (Read fs d i n old) (open_loop n i read fs d old)
  unfolding open_loop
  open_loop-Read zero i read old e stop = record {
    kept = λ o lt. refl;
    table = λ t o p q. absurd (omega arith);
  }
  open_loop-Read (suc n) i read old e stop =
      let full : leb 512 (fs.fat_length * 4 - 512 * i) ≡ true =
        le→leb _ _ (omega (arith, f.length)) in
      rw (read-ok d (fs.bs.fat_start + i) (omega (arith, f.on_disk)) f.capacity, e, full)
        (Returns-mono (Read fs d (i + 1) n (read_one i old)) (Read fs d i (suc n) old) _
          (open_loop-Read n (i + 1) (512 * i + 512) (read_one i old) (omega arith) (omega arith))
          (Read-suc n i old))

-- `fat_open` reads entry `c` as word `c % 128` of the table's sector `c / 128`.
pub fat_open-sector :
    (fs : FatFs) (d : Disk)
    → Fits fs d
    → Returns
        (λ g.
          (c : ℕ)
          → c < fs.fat_length
          → g.fat c ≡ of_bytes (d.sectors (fs.bs.fat_start + c / 128)) (c % 128))
        (fat_open fs d)
unfolding fat_open
fat_open-sector fs d f =
    Returns-bind (Read fs d 0 fs.bs.fat_sectors zeros) _
      (open_loop fs.bs.fat_sectors 0 0 fs d zeros) _
      (open_loop-Read fs d f fs.bs.fat_sectors 0 0 zeros (omega arith) (omega arith))
      λ buffer r c lt. words-same buffer (d.sectors (fs.bs.fat_start + c / 128)) c (c % 128) λ k p.
        let place : 4 * c + k ≡ 512 * (c / 128) + (4 * (c % 128) + k) = omega arith in
        ap buffer place
        ∙ r.table (c / 128) (4 * (c % 128) + k) (omega arith) (omega (arith, f.length))
            (omega arith)
