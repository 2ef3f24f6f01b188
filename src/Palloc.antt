-- ===== src/Palloc.antt =====
-- threads/palloc.c: the page allocator, two pools of pages with a bitmap each. Memory is a function
-- from addresses to bytes, and a null pointer is 0. The locks of the pools are not modelled, so that a
-- call is one step, and neither are the bytes of the bitmaps themselves.
pub mod Pools
pub mod Pages
pub mod Freeing
pub mod Cycles
pub mod Setup
mod Examples
use pintos_filesys.Base.{
  ℕ, zero, suc, ◌+◌, ◌-◌, ◌*◌, ◌/◌, ◌%◌, Bool, true, false, not, ◌&&◌, ◌||◌, Outcome, ok, panic,
  ◌>>=◌, ◌>>◌, assert, if◌then◌else◌, leb, ltb, ◌==◌, wrap64,
}
use pintos_filesys.Bitmap.{
  Bitmap, Elem, bitmap_size, bitmap_buf_size, bitmap_create_in_buf, bitmap_set_all,
  bitmap_set_multiple, bitmap_scan_and_flip, bitmap_all, bitmap_error,
}

abbrev pub pgsize : ℕ
pgsize = 4096

-- `palloc_flags`.
pub record Flags : Type 0 where
  pub pal_assert : Bool
  pub pal_zero : Bool
  pub pal_user : Bool

pub record Pool : Type 0 where
  pub used_map : Bitmap
  pub base : ℕ

pub record Memory : Type 0 where
  pub kernel_pool : Pool
  pub user_pool : Pool
  pub bytes : ℕ → ℕ

abbrev pub pool : (user : Bool) → Memory → Pool
pool user m = if user then m.user_pool else m.kernel_pool

-- The map of a pool after a change.
abbrev pub set_map : (user : Bool) → Bitmap → Memory → Memory
set_map user b m =
    if user
    then record m { user_pool = record m.user_pool { used_map = b } }
    else record m { kernel_pool = record m.kernel_pool { used_map = b } }

abbrev pub memset : (dst value size : ℕ) → (ℕ → ℕ) → ℕ → ℕ
memset dst value size bytes a = if leb dst a && ltb a (dst + size) then value else bytes a

-- `bits` is what the memory for the bitmap holds. The next bitmap's place is returned with the pool.
unfoldable pub init_pool : (bits : ℕ → Elem) (bm_base start end : ℕ) → Outcome (Pool × ℕ)
init_pool bits bm_base start end =
    let pgcnt = (end - start) / pgsize in
    let bm_pages = (bitmap_buf_size pgcnt + pgsize - 1) / pgsize * pgsize in
    do
      created ← bitmap_create_in_buf pgcnt bits bm_pages
      used_map ← bitmap_set_all created true
      ok (record { used_map = used_map; base = start }, bm_base + bm_pages)

unfoldable pub page_from_pool : Pool → (page : ℕ) → Bool
page_from_pool p page =
    leb (p.base / pgsize) (page / pgsize)
    && ltb (page / pgsize) (p.base / pgsize + bitmap_size p.used_map)

-- The pages at `pages`, which is 0 when there are none.
unfoldable pub deliver :
    (pal_assert pal_zero : Bool) (pages page_cnt : ℕ) → Memory → Outcome (ℕ × Memory)
deliver pal_assert pal_zero pages page_cnt m =
    if pages == 0
    then (if pal_assert then panic else ok (pages, m))
    else if pal_zero
    then ok (pages, record m { bytes = memset pages 0 (pgsize * page_cnt) m.bytes })
    else ok (pages, m)

unfoldable pub palloc_get_multiple : Flags → (page_cnt : ℕ) → Memory → Outcome (ℕ × Memory)
palloc_get_multiple flags page_cnt m = do
  (page_idx, used_map) ← bitmap_scan_and_flip (pool flags.pal_user m).used_map 0 page_cnt false
  deliver flags.pal_assert flags.pal_zero
      (if page_idx == bitmap_error
        then 0
        else wrap64 ((pool flags.pal_user m).base + pgsize * page_idx))
      page_cnt (set_map flags.pal_user used_map m)

abbrev pub palloc_get_page : Flags → Memory → Outcome (ℕ × Memory)
palloc_get_page flags m = palloc_get_multiple flags 1 m

-- To the pool the pages are from.
unfoldable pub free_to : (user : Bool) → (pages page_cnt : ℕ) → Memory → Outcome Memory
free_to user pages page_cnt m =
    let p = pool user m in
    let page_idx = pages / pgsize - p.base / pgsize in
    do
      used ← bitmap_all p.used_map page_idx page_cnt
      assert used
      used_map ← bitmap_set_multiple p.used_map page_idx page_cnt false
      ok (
          set_map user used_map
            (record m { bytes = memset pages 0xcc (pgsize * page_cnt) m.bytes }))

unfoldable pub palloc_free_multiple : (pages page_cnt : ℕ) → Memory → Outcome Memory
palloc_free_multiple pages page_cnt m = do
  assert (pages % pgsize == 0)
  if (pages == 0) || (page_cnt == 0)
      then ok m
      else if page_from_pool m.kernel_pool pages
      then free_to false pages page_cnt m
      else if page_from_pool m.user_pool pages
      then free_to true pages page_cnt m
      else panic

abbrev pub palloc_free_page : (page : ℕ) → Memory → Outcome Memory
palloc_free_page page m = palloc_free_multiple page 1 m
