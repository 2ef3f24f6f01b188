-- ===== src/Swap/Sectors.antt =====
-- vm/anon.c, the loops over the sectors of a page.
use pintos_filesys.Base.{
  ℕ, zero, suc, ◌+◌, ◌-◌, ◌*◌, ◌/◌, ◌%◌, ◌^◌, ◌≤◌, ◌<◌, ◌≡◌, ◌≢◌, refl, arith, ap, ◌&&◌, ok,
  Returns, Returns-mono, if◌then◌else◌, leb, ltb, ◌==◌, lt→ltb, ℕ_discrete,
}
use pintos_filesys.Disk.{Disk, disk_read, disk_write, select_sector, store}
use pintos_filesys.Swap.{Bytes, load_loop, save_loop}

-- The `n` sectors from `at` on have the bytes of the page from sector `i` on, all others are kept.
pub record Written (d : Disk) (at n i : ℕ) (kva : Bytes) (d' : Disk) : Type 0 where
  pub capacity : d'.capacity ≡ d.capacity
  pub sector :
      (s o : ℕ)
      → d'.sectors s o
        ≡ (if leb at s && ltb s (at + n) then kva (512 * (s - at + i) + o) else d.sectors s o)

-- A sector that the disk has.
selected : (d : Disk) (s : ℕ) → s < d.capacity → d.capacity ≤ 2 ^ 28 → select_sector d s ≡ ok tt
unfolding select_sector
selected d s lt small = rw (lt→ltb s d.capacity lt, lt→ltb s (2 ^ 28) (omega arith)) refl

pub save_loop-Written :
    (n i idx : ℕ) (kva : Bytes) (d : Disk)
    → idx * 8 + i + n ≤ d.capacity
    → d.capacity ≤ 2 ^ 28
    → Returns (Written d (idx * 8 + i) n i kva) (save_loop n i idx kva d)
unfolding save_loop disk_write
save_loop-Written zero i idx kva d fits small = record {
  capacity = refl;
  sector = λ s o. ground arith;
}
save_loop-Written (suc n) i idx kva d fits small =
    rw (selected d (idx * 8 + i) (omega arith) small) (
      Returns-mono (Written d1 (idx * 8 + (i + 1)) n (i + 1) kva)
        (Written d (idx * 8 + i) (suc n) i kva) _
        (save_loop-Written n (i + 1) idx kva d1 (omega arith) small)
        λ d' w. record {
          capacity = w.capacity;
          sector = λ s o. elim (ℕ_discrete s (idx * 8 + i)) [
            | yes e ↦ ground (arith, w.sector s o, e)
            | no ne ↦ ground (arith, w.sector s o, ne)
          ];
        })
  where
    d1 : Disk
    d1 = record d { sectors = store d.sectors (idx * 8 + i) (λ o. kva (512 * i + o)) }

-- The slot has the bytes of the page.
pub Written-slot :
    (d d' : Disk) (idx : ℕ) (kva : Bytes)
    → Written d (idx * 8 + 0) 8 0 kva d'
    → (o : ℕ) → o < 4096
    → d'.sectors (idx * 8 + o / 512) (o % 512) ≡ kva o
Written-slot d d' idx kva w o small =
    let at : 512 * (idx * 8 + o / 512 - (idx * 8 + 0) + 0) + o % 512 ≡ o = omega arith in
    ground (arith, w.sector (idx * 8 + o / 512) (o % 512), ap kva at)

pub Written-other_slot :
    (d d' : Disk) (idx i : ℕ) (kva : Bytes)
    → Written d (idx * 8 + 0) 8 0 kva d'
    → i ≢ idx
    → (o : ℕ) → o < 4096
    → d'.sectors (i * 8 + o / 512) (o % 512) ≡ d.sectors (i * 8 + o / 512) (o % 512)
Written-other_slot d d' idx i kva w ne o small =
    ground (arith, w.sector (i * 8 + o / 512) (o % 512))

-- The bytes of `n` sectors of the slot from sector `i` on have been read, all others are kept.
abbrev pub Loaded : Disk → (idx n i : ℕ) → Bytes → Bytes → Type 0
Loaded d idx n i old new =
    (o : ℕ)
    → new o ≡ (
        if leb i (o / 512) && ltb (o / 512) (i + n)
        then d.sectors (idx * 8 + o / 512) (o % 512)
        else old o)

pub load_loop-Loaded :
    (n i idx : ℕ) (kva : Bytes) (d : Disk)
    → idx * 8 + i + n ≤ d.capacity
    → d.capacity ≤ 2 ^ 28
    → Returns (Loaded d idx n i kva) (load_loop n i idx d kva)
unfolding load_loop disk_read
load_loop-Loaded zero i idx kva d fits small = λ o. ground arith
load_loop-Loaded (suc n) i idx kva d fits small =
    rw (selected d (idx * 8 + i) (omega arith) small) (
      Returns-mono (Loaded d idx n (i + 1) next) (Loaded d idx (suc n) i kva) _
        (load_loop-Loaded n (i + 1) idx next d (omega arith) small)
        λ new w o. elim (ℕ_discrete (o / 512) i) [
          | yes e ↦ ground (arith, w o, e)
          | no ne ↦ ground (arith, w o, ne)
        ])
  where
    next : Bytes
    next o = if o / 512 == i then d.sectors (idx * 8 + i) (o % 512) else kva o
