-- ===== src/Bitmap/Ranges.antt =====
-- lib/kernel/bitmap.c, the operations on a range of bits.
use pintos_filesys.Base.{
  ℕ, zero, suc, ◌+◌, ◌≤◌, ◌<◌, ◌≡◌, refl, arith, ◌∙◌, Bool, true, false, not, ◌&&◌, Returns,
  Returns-bind, Returns-mono, ltb, leb, if◌then◌else◌, wrap64, le→leb, Bool-cases, inl, inr,
  ℕ_discrete,
}
use pintos_filesys.Bitmap.{
  Bitmap, same, set_loop, contains_loop, bitmap_set, bitmap_set_multiple, bitmap_set_all,
  bitmap_contains,
}
use pintos_filesys.Bitmap.Bits.{bit, IsSize, BitSet, bitmap_test-bit, bitmap_set-BitSet}

abbrev pub inside : (start cnt j : ℕ) → Bool
inside start cnt j = leb start j && ltb j (start + cnt)

-- The bits of the range have the value, all others are kept.
pub record RangeSet (b : Bitmap) (start cnt : ℕ) (value : Bool) (c : Bitmap) : Type 0 where
  pub bit_cnt : c.bit_cnt ≡ b.bit_cnt
  pub bits : (j : ℕ) → bit c j ≡ (if inside start cnt j then value else bit b j)

set_loop-RangeSet :
    (n at : ℕ) (value : Bool) (b : Bitmap)
    → IsSize b
    → at + n ≤ b.bit_cnt
    → Returns (RangeSet b at n value) (set_loop n at value b)
unfolding set_loop
set_loop-RangeSet zero at value b size le = record { bit_cnt = refl; bits = λ j. ground arith }
set_loop-RangeSet (suc n) at value b size le =
    Returns-bind (BitSet b at value) (RangeSet b at (suc n) value) (bitmap_set b at value) _
      (bitmap_set-BitSet b at size (omega arith) value)
      λ c w.
        Returns-mono (RangeSet c (at + 1) n value) (RangeSet b at (suc n) value) _
          (set_loop-RangeSet n (at + 1) value c (omega (arith, w.bit_cnt))
            (omega (arith, w.bit_cnt)))
          λ e r. record {
            bit_cnt = r.bit_cnt ∙ w.bit_cnt;
            bits = λ j. ground (arith, r.bits j, w.bits j);
          }

-- A range of the bitmap.
pub record IsRange (b : Bitmap) (start cnt : ℕ) : Type 0 where
  pub size : IsSize b
  pub within : start + cnt ≤ b.bit_cnt

module _ (b : Bitmap) (start cnt : ℕ) (v : IsRange b start cnt) where
  sum_small : wrap64 (start + cnt) ≡ start + cnt
  sum_small = omega (arith, v.size, v.within)

  start_ok : leb start b.bit_cnt ≡ true
  start_ok = le→leb start b.bit_cnt (omega (arith, v.within))

  end_ok : leb (wrap64 (start + cnt)) b.bit_cnt ≡ true
  end_ok = rw sum_small (le→leb (start + cnt) b.bit_cnt v.within)

  -- On a range of the bitmap `bitmap_set_multiple` returns, and gives the value to the bits of the
  -- range and to no other.
  pub bitmap_set_multiple-RangeSet :
      (value : Bool) → Returns (RangeSet b start cnt value) (bitmap_set_multiple b start cnt value)
  unfolding bitmap_set_multiple
  bitmap_set_multiple-RangeSet value =
      rw (start_ok, end_ok) (set_loop-RangeSet cnt start value b v.size v.within)

-- What a search of a range for a value tells.
pub record Searched (b : Bitmap) (start cnt : ℕ) (value found : Bool) : Type 0 where
  pub some_bit : found ≡ true → (j : ℕ) × (start ≤ j) × (j < start + cnt) × (bit b j ≡ value)
  pub no_bit : found ≡ false → (j : ℕ) → start ≤ j → j < start + cnt → bit b j ≡ not value

Searched-suc :
    (b : Bitmap) (at n : ℕ) (value found : Bool)
    → bit b at ≡ not value
    → Searched b (at + 1) n value found
    → Searched b at (suc n) value found
Searched-suc b at n value found miss r = record {
  some_bit = λ e. let (j, ge, lt, hit) = r.some_bit e in (j, omega arith, omega arith, hit);
  no_bit = λ e j ge lt. elim (ℕ_discrete j at) [
    | yes p ↦ rw p miss
    | no ne ↦ r.no_bit e j (omega arith) (omega arith)
  ];
}

contains_loop-Searched :
    (b : Bitmap) (n at : ℕ) (value : Bool)
    → IsSize b
    → at + n ≤ b.bit_cnt
    → Returns (Searched b at n value) (contains_loop n at value b)
unfolding contains_loop
contains_loop-Searched b zero at value size le = record {
  some_bit = λ e. absurd (ground arith);
  no_bit = λ e j ge lt. absurd (omega arith);
}
contains_loop-Searched b (suc n) at value size le =
    rw (bitmap_test-bit b at size (omega arith)) (elim (Bool-cases (same (bit b at) value)) [
      | inl hit ↦ rw hit (record {
        some_bit = λ e. (at, omega arith, omega arith, ground (arith, hit));
        no_bit = λ e. absurd (ground (arith, e));
      })
      | inr miss ↦ rw miss (
          Returns-mono (Searched b (at + 1) n value) (Searched b at (suc n) value) _
            (contains_loop-Searched b n (at + 1) value size (omega arith))
            λ found r. Searched-suc b at n value found (ground (arith, miss)) r)
    ])

module _ (b : Bitmap) (start cnt : ℕ) (v : IsRange b start cnt) where
  -- On a range of the bitmap `bitmap_contains` returns, true only if a bit of the range has the
  -- value, and false only if all have the other.
  pub bitmap_contains-Searched :
      (value : Bool) → Returns (Searched b start cnt value) (bitmap_contains b start cnt value)
  unfolding bitmap_contains
  bitmap_contains-Searched value =
      rw (start_ok b start cnt v, end_ok b start cnt v)
        (contains_loop-Searched b cnt start value v.size v.within)

pub bitmap_set_all-RangeSet :
    (b : Bitmap) (value : Bool)
    → IsSize b
    → Returns (RangeSet b 0 b.bit_cnt value) (bitmap_set_all b value)
unfolding bitmap_set_all
bitmap_set_all-RangeSet b value size =
    bitmap_set_multiple-RangeSet b 0 b.bit_cnt (record { size = size; within = omega arith }) value
