-- ===== src/Bitmap.antt =====
-- lib/kernel/bitmap.c: a bitmap as an array of 64-bit elements. An element is the function from its
-- bit numbers to the bits; an access behind the array is a fault.
pub mod Bits
pub mod Ranges
pub mod Scan
pub mod Storage
pub mod Reload
mod Examples
use pintos_filesys.Base.{
  ℕ, zero, suc, ◌+◌, ◌-◌, ◌*◌, ◌/◌, ◌%◌, ◌^◌, Bool, true, false, not, ◌&&◌, ◌||◌, Option, none,
  some, Outcome, ok, fault, ◌>>=◌, ◌>>◌, assert, wrap64, ltb, leb, ◌==◌, if◌then◌else◌,
}

abbrev pub elem_bits : ℕ
elem_bits = 64

abbrev pub Elem : Type 0
Elem = ℕ → Bool

pub record Bitmap : Type 0 where
  pub bit_cnt : ℕ
  pub bits : ℕ → Elem

abbrev pub elem_idx : ℕ → ℕ
elem_idx bit_idx = bit_idx / elem_bits

abbrev pub bit_mask : ℕ → Elem
bit_mask bit_idx j = j == bit_idx % elem_bits

-- `DIV_ROUND_UP (bit_cnt, elem_bits)`.
unfoldable pub elem_cnt : ℕ → ℕ
elem_cnt bit_cnt = wrap64 (bit_cnt + elem_bits - 1) / elem_bits

abbrev pub byte_cnt : ℕ → ℕ
byte_cnt bit_cnt = 8 * elem_cnt bit_cnt

abbrev pub last_mask : Bitmap → Elem
last_mask b = let last_bits = b.bit_cnt % elem_bits in λ j. (last_bits == 0) || ltb j last_bits

-- `!= 0` of an element's first `n` bits.
unfoldable pub any_bit : ℕ → Elem → Bool
any_bit zero w = false
any_bit (suc n) w = w n || any_bit n w

-- `b->bits[idx] = ...`.
set_elem : Bitmap → ℕ → Elem → Outcome Bitmap
set_elem b idx w =
    if ltb idx (elem_cnt b.bit_cnt)
    then ok (record b { bits = λ i. if i == idx then w else b.bits i })
    else fault

unfoldable pub bitmap_mark : Bitmap → ℕ → Outcome Bitmap
unfolding set_elem
bitmap_mark b bit_idx =
    let idx = elem_idx bit_idx in set_elem b idx (λ j. b.bits idx j || bit_mask bit_idx j)

unfoldable pub bitmap_reset : Bitmap → ℕ → Outcome Bitmap
unfolding set_elem
bitmap_reset b bit_idx =
    let idx = elem_idx bit_idx in set_elem b idx (λ j. b.bits idx j && not (bit_mask bit_idx j))

unfoldable pub bitmap_flip : Bitmap → ℕ → Outcome Bitmap
unfolding set_elem
bitmap_flip b bit_idx =
    let idx = elem_idx bit_idx in
    set_elem b idx (λ j. if bit_mask bit_idx j then not (b.bits idx j) else b.bits idx j)

unfoldable pub bitmap_set : Bitmap → ℕ → Bool → Outcome Bitmap
bitmap_set b idx value = do
  assert (ltb idx b.bit_cnt)
  if value then bitmap_mark b idx else bitmap_reset b idx

unfoldable pub bitmap_test : Bitmap → ℕ → Outcome Bool
bitmap_test b idx = do
  assert (ltb idx b.bit_cnt)
  ok (any_bit elem_bits (λ j. b.bits (elem_idx idx) j && bit_mask idx j))

abbrev pub bitmap_size : Bitmap → ℕ
bitmap_size b = b.bit_cnt

-- The loop of `bitmap_set_multiple`, from bit `at` on.
set_loop : (cnt at : ℕ) → Bool → Bitmap → Outcome Bitmap
set_loop zero at value b = ok b
set_loop (suc n) at value b = do b' ← bitmap_set b at value; set_loop n (at + 1) value b'

unfoldable pub bitmap_set_multiple : Bitmap → (start cnt : ℕ) → Bool → Outcome Bitmap
unfolding set_loop
bitmap_set_multiple b start cnt value = do
  assert (leb start b.bit_cnt)
  assert (leb (wrap64 (start + cnt)) b.bit_cnt)
  set_loop cnt start value b

unfoldable pub bitmap_set_all : Bitmap → Bool → Outcome Bitmap
bitmap_set_all b value = bitmap_set_multiple b 0 (bitmap_size b) value

-- `memory` tells whether each of the two allocations succeeds, and `bits` is what the second holds.
unfoldable pub bitmap_create :
    (memory : Bool × Bool) → (bit_cnt : ℕ) → (bits : ℕ → Elem) → Outcome (Option Bitmap)
bitmap_create (false, more) bit_cnt bits = ok none
bitmap_create (true, more) bit_cnt bits =
    if more || (bit_cnt == 0)
    then (do b ← bitmap_set_all (record { bit_cnt = bit_cnt; bits = bits }) false; ok (some b))
    else ok none

-- `sizeof (struct bitmap)` is 16.
unfoldable pub bitmap_buf_size : ℕ → ℕ
bitmap_buf_size bit_cnt = wrap64 (16 + byte_cnt bit_cnt)

unfoldable pub bitmap_create_in_buf : (bit_cnt : ℕ) → (ℕ → Elem) → (block_size : ℕ) → Outcome Bitmap
bitmap_create_in_buf bit_cnt block block_size = do
  assert (leb (bitmap_buf_size bit_cnt) block_size)
  bitmap_set_all (record { bit_cnt = bit_cnt; bits = block }) false

-- `==` on `bool`.
abbrev pub same : Bool → Bool → Bool
same true v = v
same false v = not v

count_loop : (cnt at value_cnt : ℕ) → Bool → Bitmap → Outcome ℕ
count_loop zero at value_cnt value b = ok value_cnt
count_loop (suc n) at value_cnt value b = do
  v ← bitmap_test b at
  count_loop n (at + 1) (if same v value then value_cnt + 1 else value_cnt) value b

unfoldable pub bitmap_count : Bitmap → (start cnt : ℕ) → Bool → Outcome ℕ
unfolding count_loop
bitmap_count b start cnt value = do
  assert (leb start b.bit_cnt)
  assert (leb (wrap64 (start + cnt)) b.bit_cnt)
  count_loop cnt start 0 value b

contains_loop : (cnt at : ℕ) → Bool → Bitmap → Outcome Bool
contains_loop zero at value b = ok false
contains_loop (suc n) at value b = do
  v ← bitmap_test b at
  let rest = contains_loop n (at + 1) value b
  if same v value then ok true else rest

unfoldable pub bitmap_contains : Bitmap → (start cnt : ℕ) → Bool → Outcome Bool
unfolding contains_loop
bitmap_contains b start cnt value = do
  assert (leb start b.bit_cnt)
  assert (leb (wrap64 (start + cnt)) b.bit_cnt)
  contains_loop cnt start value b

unfoldable pub bitmap_any : Bitmap → (start cnt : ℕ) → Outcome Bool
bitmap_any b start cnt = bitmap_contains b start cnt true

unfoldable pub bitmap_none : Bitmap → (start cnt : ℕ) → Outcome Bool
bitmap_none b start cnt = bitmap_contains b start cnt true >>= λ v. ok (not v)

unfoldable pub bitmap_all : Bitmap → (start cnt : ℕ) → Outcome Bool
bitmap_all b start cnt = bitmap_contains b start cnt false >>= λ v. ok (not v)

-- `SIZE_MAX`, which include/lib/stdint.h sets to `UINT32_MAX`.
abbrev pub bitmap_error : ℕ
bitmap_error = 0xFFFFFFFF

scan_loop : (rounds i cnt : ℕ) → Bool → Bitmap → Outcome ℕ
scan_loop zero i cnt value b = ok bitmap_error
scan_loop (suc n) i cnt value b = do
  other ← bitmap_contains b i cnt (not value)
  let rest = scan_loop n (i + 1) cnt value b
  if other then rest else ok i

-- The loop runs from `start` to the last index, once each.
unfoldable pub bitmap_scan : Bitmap → (start cnt : ℕ) → Bool → Outcome ℕ
unfolding scan_loop
bitmap_scan b start cnt value = do
  assert (leb start b.bit_cnt)
  if leb cnt b.bit_cnt
      then scan_loop (b.bit_cnt - cnt + 1 - start) start cnt value b
      else ok bitmap_error

unfoldable pub bitmap_scan_and_flip : Bitmap → (start cnt : ℕ) → Bool → Outcome (ℕ × Bitmap)
bitmap_scan_and_flip b start cnt value = do
  idx ← bitmap_scan b start cnt value
  flipped ← (if idx == bitmap_error then ok b else bitmap_set_multiple b idx cnt (not value))
  ok (idx, flipped)
