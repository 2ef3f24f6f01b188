-- ===== src/Bitmap/Reload.antt =====
-- lib/kernel/bitmap.c, `bitmap_read` of the bytes that `bitmap_write` passes to the file.
use pintos_filesys.Base.{
  ℕ, zero, suc, ◌+◌, ◌*◌, ◌/◌, ◌%◌, ◌^◌, ◌≤◌, ◌<◌, ◌≡◌, refl, arith, Bool, true, false, ap, ◌∙◌,
  List, length, get_or, ok, Returns, ◌==◌, lt→ltb, ==_refl,
}
use pintos_filesys.Bitmap.{Bitmap, Elem, byte_cnt, elem_cnt}
use pintos_filesys.Bitmap.Bits.{bit, IsSize}
use pintos_filesys.Bitmap.Storage.{
  as_number, byte_from, stored_byte, loaded_elem, mask_last, bitmap_read,
}
use pintos_filesys.Inode.Table.{System}
use pintos_filesys.File.{File, file_read_at}

as_number-le : (b : Bool) → as_number b ≤ 1
as_number-le true = omega arith
as_number-le false = omega arith

as_number-is_one : (b : Bool) → (as_number b == 1) ≡ b
as_number-is_one true = refl
as_number-is_one false = refl

-- Digit `j` of the number made of eight binary digits.
digit :
    (f : ℕ → ℕ) (j : ℕ)
    → ((k : ℕ) → f k ≤ 1)
    → j < 8
    → (f 0 + 2 * f 1 + 4 * f 2 + 8 * f 3 + 16 * f 4 + 32 * f 5 + 64 * f 6 + 128 * f 7) / 2 ^ j % 2
      ≡ f j
digit f zero h lt = omega (arith, h 0, h 1, h 2, h 3, h 4, h 5, h 6, h 7)
digit f (suc zero) h lt = omega (arith, h 0, h 1, h 2, h 3, h 4, h 5, h 6, h 7)
digit f (suc (suc zero)) h lt = omega (arith, h 0, h 1, h 2, h 3, h 4, h 5, h 6, h 7)
digit f (suc (suc (suc zero))) h lt = omega (arith, h 0, h 1, h 2, h 3, h 4, h 5, h 6, h 7)
digit f (suc (suc (suc (suc zero)))) h lt = omega (arith, h 0, h 1, h 2, h 3, h 4, h 5, h 6, h 7)
digit f (suc (suc (suc (suc (suc zero))))) h lt =
    omega (arith, h 0, h 1, h 2, h 3, h 4, h 5, h 6, h 7)
digit f (suc (suc (suc (suc (suc (suc zero)))))) h lt =
    omega (arith, h 0, h 1, h 2, h 3, h 4, h 5, h 6, h 7)
digit f (suc (suc (suc (suc (suc (suc (suc zero))))))) h lt =
    omega (arith, h 0, h 1, h 2, h 3, h 4, h 5, h 6, h 7)
digit f (suc (suc (suc (suc (suc (suc (suc (suc j)))))))) h lt = absurd (omega arith)

-- Bit `j` of a byte is the bit that it was made of.
byte_from-bit : (w : Elem) (o j : ℕ) → j < 8 → (byte_from w o / 2 ^ j % 2 == 1) ≡ w (o + j)
unfolding byte_from
byte_from-bit w o j lt =
    ap (λ n. n == 1)
      (ap
          (λ x.
            (as_number (w x)
              + 2 * as_number (w (o + 1))
              + 4 * as_number (w (o + 2))
              + 8 * as_number (w (o + 3))
              + 16 * as_number (w (o + 4))
              + 32 * as_number (w (o + 5))
              + 64 * as_number (w (o + 6))
              + 128 * as_number (w (o + 7)))
            / 2 ^ j
            % 2)
          (omega arith)
        ∙ digit (λ k. as_number (w (o + k))) j (λ k. as_number-le (w (o + k))) lt)
    ∙ as_number-is_one (w (o + j))

-- A file that holds the bitmap's array, as a read of the whole gives it.
pub record Holds (memory : Bool) (file : File) (sys : System) (b : Bitmap) (bytes : List ℕ)
    : Type 0 where
  pub read : file_read_at memory file (byte_cnt b.bit_cnt) 0 sys ≡ ok bytes
  pub length : length bytes ≡ byte_cnt b.bit_cnt
  pub stored : (k : ℕ) → k < byte_cnt b.bit_cnt → get_or bytes k 0 ≡ stored_byte b k

-- The array has the bits of the bitmap.
pub record SameBits (b : Bitmap) (r : Bool × Bitmap) : Type 0 where
  pub success : r.0 ≡ true
  pub bit_cnt : r.1.bit_cnt ≡ b.bit_cnt
  pub bits : (i : ℕ) → i < b.bit_cnt → bit r.1 i ≡ bit b i

module _ (memory : Bool) (file : File) (sys : System) (a b : Bitmap) (bytes : List ℕ)
    (h : Holds memory file sys b bytes) (size : IsSize b) (same_size : a.bit_cnt ≡ b.bit_cnt) where
  loaded-bit : (i : ℕ) → i < b.bit_cnt → loaded_elem a.bits bytes (i / 64) (i % 64) ≡ bit b i
  unfolding loaded_elem elem_cnt stored_byte
  loaded-bit i lt =
      let k = 8 * (i / 64) + i % 64 / 8 in
      let below : k < length bytes = omega (arith, h.length, size) in
      let elem : k / 8 ≡ i / 64 = omega arith in
      let back : 8 * (k % 8) + i % 64 % 8 ≡ i % 64 = omega arith in
      rw (lt→ltb k (length bytes) below) (
        ap (λ v. v / 2 ^ (i % 64 % 8) % 2 == 1) (h.stored k (omega (arith, below, h.length)))
        ∙ byte_from-bit (b.bits (k / 8)) (8 * (k % 8)) (i % 64 % 8) (omega arith)
        ∙ ap (λ q. b.bits q (8 * (k % 8) + i % 64 % 8)) elem
        ∙ ap (b.bits (i / 64)) back)

  masked-bit :
      (bits : ℕ → Elem) (i : ℕ)
      → i < b.bit_cnt
      → mask_last b bits (i / 64) (i % 64) ≡ bits (i / 64) (i % 64)
  unfolding elem_cnt
  masked-bit bits i lt = ground (arith, same_size, size)

  -- When the file holds the bytes of `b`, `bitmap_read` into a bitmap of the same size, not 0 and
  -- less than `bitmap_error`, returns true and every bit of the result is that of `b`.
  pub bitmap_read-SameBits : 0 < b.bit_cnt → Returns (SameBits b) (bitmap_read memory a file sys)
  unfolding bitmap_read
  bitmap_read-SameBits pos =
      rw (same_size, lt→ltb 0 b.bit_cnt pos, h.read, h.length)
        (record {
          success = ==_refl (byte_cnt b.bit_cnt);
          bit_cnt = refl;
          bits = λ i lt. masked-bit (loaded_elem a.bits bytes) i lt ∙ loaded-bit i lt;
        })
