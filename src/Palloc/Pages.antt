-- ===== src/Palloc/Pages.antt =====
-- threads/palloc.c, `palloc_get_multiple` and `palloc_free_multiple`.
use pintos_filesys.Base.{
  ℕ, ◌+◌, ◌*◌, ◌≤◌, ◌<◌, ◌≡◌, ◌⊎◌, refl, arith, Bool, true, false, not, ◌&&◌, ok, Returns,
  Returns-bind, if◌then◌else◌, leb, ltb, ◌==◌, wrap64, ne→not_==, inl, inr,
}
use pintos_filesys.Bitmap.{Bitmap, bitmap_scan_and_flip, bitmap_error}
use pintos_filesys.Bitmap.Bits.{bit}
use pintos_filesys.Bitmap.Ranges.{RangeSet}
use pintos_filesys.Bitmap.Scan.{FirstGroup, Flipped, bitmap_scan_and_flip-Flipped}
use pintos_filesys.Palloc.{Flags, Pool, Memory, pool, set_map, memset, deliver, palloc_get_multiple}
use pintos_filesys.Palloc.Pools.{
  IsPool, IsMemory, SamePages, SamePages-bytes, set_map-SamePages, pool-set_map, other-set_map,
  set_map-same, bytes-set_map, pool-bytes, page_at,
}

-- A run of free pages, the first one of its pool, has been taken.
pub record Allocated (user clear : Bool) (cnt : ℕ) (m : Memory) (pages : ℕ) (m' : Memory)
    : Type 0 where
  pub idx : ℕ
  pub at : pages ≡ page_at (pool user m) idx
  pub first : FirstGroup (pool user m).used_map 0 cnt false idx
  pub taken : RangeSet (pool user m).used_map idx cnt true (pool user m').used_map
  pub other : pool (not user) m' ≡ pool (not user) m
  pub same_pages : SamePages m m'
  pub bytes :
      (a : ℕ)
      → m'.bytes a ≡ (if clear && (leb pages a && ltb a (pages + 4096 * cnt)) then 0 else m.bytes a)

-- Each run of so many pages has a used one.
abbrev pub Full : Bitmap → ℕ → Type 0
Full b cnt = (i : ℕ) → i + cnt ≤ b.bit_cnt → (j : ℕ) × (i ≤ j) × (j < i + cnt) × (bit b j ≡ true)

abbrev pub Got : (user clear : Bool) → ℕ → Memory → ℕ × Memory → Type 0
Got user clear cnt m (pages, m') =
    Allocated user clear cnt m pages m' ⊎ ((pages ≡ 0) × (m' ≡ m) × Full (pool user m).used_map cnt)

module _ (user : Bool) (cnt : ℕ) (m : Memory) (v : IsMemory m) (idx : ℕ) (b : Bitmap)
    (first : FirstGroup (pool user m).used_map 0 cnt false idx)
    (set : RangeSet (pool user m).used_map idx cnt true b) where
  set_map-Allocated :
      (clear : Bool) (bytes : ℕ → ℕ)
      → ((a : ℕ)
          → bytes a ≡ (
              if clear
                && (leb (page_at (pool user m) idx) a
                    && ltb a (page_at (pool user m) idx + 4096 * cnt))
              then 0
              else m.bytes a))
      → Allocated user clear cnt m
          (page_at (pool user m) idx)
          (record (set_map user b m) { bytes = bytes })
  set_map-Allocated clear bytes e = record {
    idx = idx;
    at = refl;
    first = first;
    taken = rw (pool-bytes user (set_map user b m) bytes, pool-set_map user b m) set;
    other = rw (pool-bytes (not user) (set_map user b m) bytes) (other-set_map user b m);
    same_pages =
        SamePages-bytes m (set_map user b m) bytes
          (set_map-SamePages user b m m set.bit_cnt λ w. refl);
    bytes = e;
  }

  deliver-Allocated :
      (quiet clear : Bool)
      → Returns
          (Got user clear cnt m)
          (deliver quiet clear (page_at (pool user m) idx) cnt (set_map user b m))
  unfolding deliver
  deliver-Allocated quiet clear =
      rw
        (ne→not_== (page_at (pool user m) idx) 0
          λ e. absurd (omega (arith, (v.pools user).positive)))
        (done clear)
    where
      done :
          (clear : Bool)
          → Returns (Got user clear cnt m) (
              if clear
              then ok (
                page_at (pool user m) idx,
                record (set_map user b m) {
                  bytes =
                      memset (page_at (pool user m) idx) 0 (4096 * cnt) (set_map user b m).bytes;
                },
              )
              else ok (page_at (pool user m) idx, set_map user b m))
      done true = inl (
          set_map-Allocated true
            (memset (page_at (pool user m) idx) 0 (4096 * cnt) (set_map user b m).bytes)
            λ a. rw (bytes-set_map user b m) refl)
      done false =
          inl
            (set_map-Allocated false (set_map user b m).bytes λ a. rw (bytes-set_map user b m) refl)

deliver-null :
    (stop clear : Bool) (cnt : ℕ) (m : Memory)
    → stop ≡ false
    → deliver stop clear 0 cnt m ≡ ok (0, m)
unfolding deliver
deliver-null stop clear cnt m quiet = rw quiet refl

-- On sound pools, without the flag that asks for a panic, `palloc_get_multiple` returns the first run of that
-- many free pages of the pool and marks it used, or null when each run has a used page, and then
-- nothing is changed. No other page is marked, and memory is changed only where zeros are asked for.
pub palloc_get_multiple-Got :
    (flags : Flags) (cnt : ℕ) (m : Memory)
    → IsMemory m
    → flags.pal_assert ≡ false
    → Returns (Got flags.pal_user flags.pal_zero cnt m) (palloc_get_multiple flags cnt m)
unfolding palloc_get_multiple
palloc_get_multiple-Got flags cnt m v quiet =
    Returns-bind (Flipped q.used_map 0 cnt false) (Got flags.pal_user flags.pal_zero cnt m)
      (bitmap_scan_and_flip q.used_map 0 cnt false) _
      (bitmap_scan_and_flip-Flipped q.used_map 0 cnt false w.size (omega arith))
      λ (idx, b) r. elim r [
        | inl (first, set) ↦
            rw
              (
                ne→not_== idx bitmap_error λ e. absurd (omega (arith, first.within, w.size)),
                in_words idx first.within,
              )
              (deliver-Allocated flags.pal_user cnt m v idx b first set flags.pal_assert
                flags.pal_zero)
        | inr (full, same) ↦
            let hit : (idx == bitmap_error) ≡ true = ground (arith, full.error) in
            rw (hit, same, set_map-same flags.pal_user m)
              (rw (deliver-null flags.pal_assert flags.pal_zero cnt m quiet)
                (inr (refl, refl, λ i le. full.none i (omega arith) le)))
      ]
  where
    q : Pool
    q = pool flags.pal_user m

    w : IsPool q
    w = v.pools flags.pal_user

    in_words :
        (idx : ℕ) → idx + cnt ≤ q.used_map.bit_cnt → wrap64 (q.base + 4096 * idx) ≡ page_at q idx
    in_words idx le = omega (arith, w.below)
