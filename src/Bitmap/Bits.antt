-- ===== src/Bitmap/Bits.antt =====
-- lib/kernel/bitmap.c, `bitmap_set` and `bitmap_test`: one bit.
use pintos_filesys.Base.{
  ℕ, zero, suc, ◌/◌, ◌%◌, ◌<◌, ◌≡◌, refl, arith, ap, ◌∙◌, sym, Bool, true, false, not, ◌&&◌, ok,
  Returns, ltb, ◌==◌, if◌then◌else◌, lt→ltb, ==_refl, ne→not_==, ℕ_discrete,
}
use pintos_filesys.Bitmap.{
  Bitmap, Elem, any_bit, elem_cnt, set_elem, bitmap_mark, bitmap_reset, bitmap_flip, bitmap_set,
  bitmap_test, bitmap_error,
}

-- Bit `i` of the array.
abbrev pub bit : Bitmap → ℕ → Bool
bit b i = b.bits (i / 64) (i % 64)

-- Fewer bits than the number that stands for an error.
abbrev pub IsSize : Bitmap → Type 0
IsSize b = b.bit_cnt < bitmap_error

-- Bit `idx` has the value, all others are kept.
pub record BitSet (b : Bitmap) (idx : ℕ) (value : Bool) (c : Bitmap) : Type 0 where
  pub bit_cnt : c.bit_cnt ≡ b.bit_cnt
  pub bits : (j : ℕ) → bit c j ≡ (if j == idx then value else bit b j)

any_bit-masked : (n k : ℕ) (w : Elem) → any_bit n (λ j. w j && (j == k)) ≡ (ltb k n && w k)
unfolding any_bit
any_bit-masked zero k w = ground arith
any_bit-masked (suc n) k w = elim (ℕ_discrete n k) [
  | yes e ↦ ground (arith, any_bit-masked n k w, ap w e)
  | no ne ↦ ground (arith, any_bit-masked n k w)
]

module _ (b : Bitmap) (idx : ℕ) (size : IsSize b) (lt : idx < b.bit_cnt) where
  pub bitmap_test-bit : bitmap_test b idx ≡ ok (bit b idx)
  unfolding bitmap_test
  bitmap_test-bit = rw (lt→ltb idx b.bit_cnt lt) (
      ap ok (
        any_bit-masked 64 (idx % 64) (b.bits (idx / 64))
        ∙ rw (lt→ltb (idx % 64) 64 (omega arith)) refl))

  in_array : ltb (idx / 64) (elem_cnt b.bit_cnt) ≡ true
  unfolding elem_cnt
  in_array = lt→ltb _ _ (omega arith)

  -- Changing one bit of one element changes that bit of the array alone.
  changed_bit :
      (value : Bool) (w : Elem) (j : ℕ)
      → w (idx % 64) ≡ value
      → ((k : ℕ) → (k == idx % 64) ≡ false → w k ≡ b.bits (idx / 64) k)
      → (if j / 64 == idx / 64 then w else b.bits (j / 64)) (j % 64)
        ≡ (if j == idx then value else bit b j)
  changed_bit value w j at others = elim (ℕ_discrete j idx) [
    | yes e ↦ rw (e, ==_refl idx, ==_refl (idx / 64)) at
    | no ne ↦ rw (ne→not_== j idx ne) (elim (ℕ_discrete (j / 64) (idx / 64)) [
      | yes e ↦
          rw (e, ==_refl (idx / 64))
            (others (j % 64) (ne→not_== _ _ λ r. ne (omega arith))
              ∙ ap (λ q. b.bits q (j % 64)) (sym e))
      | no far ↦ rw (ne→not_== (j / 64) (idx / 64) far) refl
    ])
  ]

  pub bitmap_set-BitSet : (value : Bool) → Returns (BitSet b idx value) (bitmap_set b idx value)
  unfolding bitmap_set bitmap_mark bitmap_reset set_elem
  bitmap_set-BitSet true =
      rw (lt→ltb idx b.bit_cnt lt, in_array)
        record {
          bit_cnt = refl;
          bits = λ j. changed_bit true _ j (ground arith) λ k ne. ground arith;
        }
  bitmap_set-BitSet false =
      rw (lt→ltb idx b.bit_cnt lt, in_array)
        record {
          bit_cnt = refl;
          bits = λ j. changed_bit false _ j (ground arith) λ k ne. ground arith;
        }

  pub bitmap_reset-BitSet : Returns (BitSet b idx false) (bitmap_reset b idx)
  unfolding bitmap_reset set_elem
  bitmap_reset-BitSet = rw in_array (record {
    bit_cnt = refl;
    bits = λ j. changed_bit false _ j (ground arith) λ k ne. ground arith;
  })

  -- `bitmap_flip` turns the bit over.
  pub bitmap_flip-BitSet : Returns (BitSet b idx (not (bit b idx))) (bitmap_flip b idx)
  unfolding bitmap_flip set_elem
  bitmap_flip-BitSet = rw in_array (record {
    bit_cnt = refl;
    bits = λ j. changed_bit (not (bit b idx)) _ j (ground arith) λ k ne. ground arith;
  })
