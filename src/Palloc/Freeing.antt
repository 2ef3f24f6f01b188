-- ===== src/Palloc/Freeing.antt =====
-- threads/palloc.c, `palloc_free_multiple`, and what becomes of pages that were taken.
use pintos_filesys.Base.{
  ℕ, ◌+◌, ◌-◌, ◌*◌, ◌/◌, ◌%◌, ◌≤◌, ◌<◌, ◌≡◌, refl, arith, ◌∙◌, Bool, true, false, not, panic,
  Returns, Returns-bind, ◌==◌, ne→not_==, eq→==,
}
use pintos_filesys.Bitmap.{bitmap_set_multiple}
use pintos_filesys.Bitmap.Bits.{bit}
use pintos_filesys.Bitmap.Ranges.{RangeSet, IsRange, bitmap_set_multiple-RangeSet}
use pintos_filesys.Palloc.{Memory, pool, memset, free_to, page_from_pool, palloc_free_multiple}
use pintos_filesys.Palloc.Pools.{
  IsPool, IsMemory, pool-set_map, other-set_map, pool-bytes, bytes-set_map, bitmap_all-true,
  bitmap_all-false, page_at, page_from_pool-page_at, page_from_pool-other,
}

-- Pages of a pool.
pub record ArePages (user : Bool) (idx cnt : ℕ) (m : Memory) : Type 0 where
  pub memory : IsMemory m
  pub some_page : 0 < cnt
  pub within : idx + cnt ≤ (pool user m).used_map.bit_cnt

-- The pages are marked free and have the byte 0xcc everywhere.
pub record Freed (user : Bool) (idx cnt : ℕ) (m m' : Memory) : Type 0 where
  pub freed : RangeSet (pool user m).used_map idx cnt false (pool user m').used_map
  pub other : pool (not user) m' ≡ pool (not user) m
  pub bytes : (a : ℕ) → m'.bytes a ≡ memset (page_at (pool user m) idx) 0xcc (4096 * cnt) m.bytes a

module _ (user : Bool) (idx cnt : ℕ) (m : Memory) (v : ArePages user idx cnt m) where
  abbrev u : IsPool (pool user m)
  u = v.memory.pools user

  range : IsRange (pool user m).used_map idx cnt
  range = record { size = u.size; within = v.within }

  number : page_at (pool user m) idx / 4096 - (pool user m).base / 4096 ≡ idx
  number = omega (arith, u.aligned)

  free_to-Freed :
      ((j : ℕ) → idx ≤ j → j < idx + cnt → bit (pool user m).used_map j ≡ true)
      → Returns (Freed user idx cnt m) (free_to user (page_at (pool user m) idx) cnt m)
  unfolding free_to
  free_to-Freed used =
      rw (number, bitmap_all-true (pool user m).used_map idx cnt range used)
        (Returns-bind (RangeSet (pool user m).used_map idx cnt false) (Freed user idx cnt m)
          (bitmap_set_multiple (pool user m).used_map idx cnt false) _
          (bitmap_set_multiple-RangeSet (pool user m).used_map idx cnt range false)
          λ b set. record {
            freed = rw (pool-set_map user b written) set;
            other = other-set_map user b written ∙ pool-bytes (not user) m written.bytes;
            bytes = λ a. rw (bytes-set_map user b written) refl;
          })
    where
      written : Memory
      written = record m { bytes = memset (page_at (pool user m) idx) 0xcc (4096 * cnt) m.bytes }

  free_to-panic :
      (j : ℕ)
      → idx ≤ j
      → j < idx + cnt
      → bit (pool user m).used_map j ≡ false
      → free_to user (page_at (pool user m) idx) cnt m ≡ panic
  unfolding free_to
  free_to-panic j ge lt clear =
      rw (number, bitmap_all-false (pool user m).used_map idx cnt j range ge lt clear) refl

  in_pool : page_from_pool (pool user m) (page_at (pool user m) idx) ≡ true
  in_pool = page_from_pool-page_at (pool user m) idx u (omega (arith, v.some_page, v.within))

  no_offset : (page_at (pool user m) idx % 4096 == 0) ≡ true
  no_offset = eq→== (page_at (pool user m) idx % 4096) 0 (omega (arith, u.aligned))

  not_null : (page_at (pool user m) idx == 0) ≡ false
  not_null = ne→not_== (page_at (pool user m) idx) 0 λ e. absurd (omega (arith, u.positive))

  not_none : (cnt == 0) ≡ false
  not_none = ne→not_== cnt 0 λ e. absurd (omega (arith, v.some_page))

-- The pages are given back to the pool that they are from.
free_to-chosen :
    (user : Bool) (idx cnt : ℕ) (m : Memory)
    → ArePages user idx cnt m
    → palloc_free_multiple (page_at (pool user m) idx) cnt m
      ≡ free_to user (page_at (pool user m) idx) cnt m
unfolding palloc_free_multiple
free_to-chosen false idx cnt m v =
    rw
      (
        no_offset false idx cnt m v,
        not_null false idx cnt m v,
        not_none false idx cnt m v,
        in_pool false idx cnt m v,
      )
      refl
free_to-chosen true idx cnt m v =
    rw
      (
        no_offset true idx cnt m v,
        not_null true idx cnt m v,
        not_none true idx cnt m v,
        page_from_pool-other m idx v.memory,
        in_pool true idx cnt m v,
      )
      refl

-- Freeing pages of a sound pool that are all in use returns: exactly these are marked free, their bytes
-- are overwritten, and the other pool and the rest of memory are kept.
pub palloc_free_multiple-Freed :
    (user : Bool) (idx cnt : ℕ) (m : Memory)
    → ArePages user idx cnt m
    → ((j : ℕ) → idx ≤ j → j < idx + cnt → bit (pool user m).used_map j ≡ true)
    → Returns (Freed user idx cnt m) (palloc_free_multiple (page_at (pool user m) idx) cnt m)
palloc_free_multiple-Freed user idx cnt m v used =
    rw (free_to-chosen user idx cnt m v) (free_to-Freed user idx cnt m v used)

-- Freeing pages of a sound pool of which one is free already panics.
pub palloc_free_multiple-panic :
    (user : Bool) (idx cnt : ℕ) (m : Memory)
    → ArePages user idx cnt m
    → (j : ℕ) → idx ≤ j
    → j < idx + cnt
    → bit (pool user m).used_map j ≡ false
    → palloc_free_multiple (page_at (pool user m) idx) cnt m ≡ panic
palloc_free_multiple-panic user idx cnt m v j ge lt clear =
    free_to-chosen user idx cnt m v ∙ free_to-panic user idx cnt m v j ge lt clear
