-- ===== src/Palloc/Setup.antt =====
-- threads/palloc.c, `init_pool`.
use pintos_filesys.Base.{
  ℕ, ◌-◌, ◌/◌, ◌%◌, ◌^◌, ◌≤◌, ◌<◌, ◌≡◌, refl, arith, ◌∙◌, true, false, Returns, Returns-bind,
  Returns-mono, le→leb,
}
use pintos_filesys.Bitmap.{
  Bitmap, Elem, bitmap_set_all, bitmap_buf_size, bitmap_create_in_buf, bitmap_error,
}
use pintos_filesys.Bitmap.Bits.{bit}
use pintos_filesys.Bitmap.Ranges.{RangeSet, bitmap_set_all-RangeSet}
use pintos_filesys.Palloc.{Pool, init_pool}
use pintos_filesys.Palloc.Pools.{IsPool}

-- A pool of pages that are all in use.
pub record Taken (start end : ℕ) (p : Pool) : Type 0 where
  pub is_pool : IsPool p
  pub base : p.base ≡ start
  pub bit_cnt : p.used_map.bit_cnt ≡ (end - start) / 4096
  pub bits : (j : ℕ) → j < p.used_map.bit_cnt → bit p.used_map j ≡ true

created :
    (cnt : ℕ) (bits : ℕ → Elem) (block_size : ℕ)
    → cnt < bitmap_error
    → bitmap_buf_size cnt ≤ block_size
    → Returns (λ b. b.bit_cnt ≡ cnt) (bitmap_create_in_buf cnt bits block_size)
unfolding bitmap_create_in_buf
created cnt bits block_size small le = rw (le→leb (bitmap_buf_size cnt) block_size le) (
    Returns-mono (RangeSet b 0 cnt false) (λ b. b.bit_cnt ≡ cnt) _
      (bitmap_set_all-RangeSet b false small) λ c set. set.bit_cnt)
  where
    b : Bitmap
    b = record { bit_cnt = cnt; bits = bits }

-- From an aligned start on, with fewer pages than `bitmap_error`, `init_pool` returns the pool of the whole
-- pages up to the end, all in use. It is sound if its pages end below the last address.
pub init_pool-Taken :
    (bits : ℕ → Elem) (bm_base start end : ℕ)
    → start % 4096 ≡ 0
    → 0 < start
    → start ≤ end
    → end < 2 ^ 64
    → (end - start) / 4096 < bitmap_error
    → Returns (λ r. Taken start end r.0) (init_pool bits bm_base start end)
unfolding init_pool
init_pool-Taken bits bm_base start end aligned positive le below small =
    Returns-bind (λ b. b.bit_cnt ≡ cnt) (λ r. Taken start end r.0) (bitmap_create_in_buf cnt bits _)
      _ (created cnt bits _ small (omega arith))
      λ b e.
        Returns-bind (RangeSet b 0 b.bit_cnt true) (λ r. Taken start end r.0)
          (bitmap_set_all b true) _ (bitmap_set_all-RangeSet b true (omega (arith, e)))
          λ c set. record {
            is_pool = record {
              size = omega (arith, set.bit_cnt, e);
              aligned = aligned;
              positive = positive;
              below = omega (arith, set.bit_cnt, e);
            };
            base = refl;
            bit_cnt = set.bit_cnt ∙ e;
            bits = λ j lt.
                let within : j < b.bit_cnt = omega (arith, set.bit_cnt) in
                ground (arith, set.bits j);
          }
  where
    cnt : ℕ
    cnt = (end - start) / 4096
