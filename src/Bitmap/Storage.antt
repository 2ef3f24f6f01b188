-- ===== src/Bitmap/Storage.antt =====
-- lib/kernel/bitmap.c, `bitmap_read` and `bitmap_write`: the array as the bytes of a file, each
-- with its lowest bit first.
use pintos_filesys.Base.{
  ℕ, ◌+◌, ◌-◌, ◌*◌, ◌/◌, ◌%◌, ◌^◌, Bool, true, ◌&&◌, List, length, get_or, Outcome, ok, ◌>>=◌, ltb,
  ◌==◌, if◌then◌else◌,
}
use pintos_filesys.Bitmap.{Bitmap, Elem, byte_cnt, elem_cnt, last_mask}
use pintos_filesys.Inode.Table.{System}
use pintos_filesys.File.{File, file_read_at, file_write_at}

abbrev pub as_number : Bool → ℕ
as_number b = if b then 1 else 0

-- The byte whose bits are the eight of `w` from bit `o` on.
unfoldable pub byte_from : Elem → ℕ → ℕ
byte_from w o =
    as_number (w o)
    + 2 * as_number (w (o + 1))
    + 4 * as_number (w (o + 2))
    + 8 * as_number (w (o + 3))
    + 16 * as_number (w (o + 4))
    + 32 * as_number (w (o + 5))
    + 64 * as_number (w (o + 6))
    + 128 * as_number (w (o + 7))

-- Byte `k` of the array.
unfoldable pub stored_byte : Bitmap → ℕ → ℕ
stored_byte b k = byte_from (b.bits (k / 8)) (8 * (k % 8))

-- Element `i` after the bytes have been copied over the start of the array.
unfoldable pub loaded_elem : (ℕ → Elem) → List ℕ → ℕ → Elem
loaded_elem old bytes i j =
    let k = 8 * i + j / 8 in
    if ltb k (length bytes) then get_or bytes k 0 / 2 ^ (j % 8) % 2 == 1 else old i j

abbrev pub bitmap_file_size : Bitmap → ℕ
bitmap_file_size b = byte_cnt b.bit_cnt

-- The last element with the bits behind the bitmap's end cleared.
abbrev pub mask_last : Bitmap → (ℕ → Elem) → ℕ → Elem
mask_last b bits i j = if i == elem_cnt b.bit_cnt - 1 then bits i j && last_mask b j else bits i j

unfoldable pub bitmap_read : Bool → Bitmap → File → System → Outcome (Bool × Bitmap)
unfolding loaded_elem
bitmap_read memory b file sys =
    if ltb 0 b.bit_cnt
    then (do
      let size = byte_cnt b.bit_cnt
      bytes ← file_read_at memory file size 0 sys
      ok (length bytes == size, record b { bits = mask_last b (loaded_elem b.bits bytes) }))
    else ok (true, b)

unfoldable pub bitmap_write : Bool → Bitmap → File → System → Outcome (Bool × System)
bitmap_write memory b file sys = do
  let size = byte_cnt b.bit_cnt
  (written, sys') ← file_write_at memory file (stored_byte b) size 0 sys
  ok (written == size, sys')
