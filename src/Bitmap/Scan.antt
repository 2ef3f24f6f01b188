-- ===== src/Bitmap/Scan.antt =====
-- lib/kernel/bitmap.c, `bitmap_scan` and `bitmap_scan_and_flip`: first fit.
use pintos_filesys.Base.{
  ℕ, zero, suc, ◌+◌, ◌-◌, ◌≤◌, ◌<◌, ◌≡◌, ◌⊎◌, refl, arith, Bool, true, false, not, ok, ◌>>=◌,
  Returns, Returns-bind, Returns-mono, ◌==◌, if◌then◌else◌, le→leb, lt→not_leb, Bool-cases, inl,
  inr, ne→not_==, ℕ_discrete, dec_le,
}
use pintos_filesys.Bitmap.{
  Bitmap, scan_loop, bitmap_contains, bitmap_set_multiple, bitmap_scan, bitmap_scan_and_flip,
  bitmap_error,
}
use pintos_filesys.Bitmap.Bits.{bit, IsSize}
use pintos_filesys.Bitmap.Ranges.{
  RangeSet, Searched, bitmap_contains-Searched, bitmap_set_multiple-RangeSet,
}

-- All bits of the range have the value.
abbrev pub Group : Bitmap → (at cnt : ℕ) → Bool → Type 0
Group b at cnt value = (j : ℕ) → at ≤ j → j < at + cnt → bit b j ≡ value

-- Some bit of the range has the other value.
abbrev pub Blocked : Bitmap → (at cnt : ℕ) → Bool → Type 0
Blocked b at cnt value = (j : ℕ) × (at ≤ j) × (j < at + cnt) × (bit b j ≡ not value)

-- The range at `at` is a group, and the first one from `start` on.
pub record FirstGroup (b : Bitmap) (start cnt : ℕ) (value : Bool) (at : ℕ) : Type 0 where
  pub ge : start ≤ at
  pub within : at + cnt ≤ b.bit_cnt
  pub group : Group b at cnt value
  pub first : (i : ℕ) → start ≤ i → i < at → Blocked b i cnt value

pub record NoGroup (b : Bitmap) (start cnt : ℕ) (value : Bool) (idx : ℕ) : Type 0 where
  pub error : idx ≡ bitmap_error
  pub none : (i : ℕ) → start ≤ i → i + cnt ≤ b.bit_cnt → Blocked b i cnt value

abbrev pub Scanned : Bitmap → (start cnt : ℕ) → Bool → ℕ → Type 0
Scanned b start cnt value idx = FirstGroup b start cnt value idx ⊎ NoGroup b start cnt value idx

module _ (b : Bitmap) (cnt : ℕ) (value : Bool) (size : IsSize b) where
  Scanned-suc :
      (i idx : ℕ)
      → Blocked b i cnt value
      → Scanned b (i + 1) cnt value idx
      → Scanned b i cnt value idx
  Scanned-suc i idx block (inl r) = inl (record {
    ge = omega (arith, r.ge);
    within = r.within;
    group = r.group;
    first = λ k ge lt. elim (ℕ_discrete k i) [
      | yes e ↦ rw e block
      | no ne ↦ r.first k (omega arith) lt
    ];
  })
  Scanned-suc i idx block (inr r) = inr (record {
    error = r.error;
    none =
        λ k ge le. elim (ℕ_discrete k i) [ yes e ↦ rw e block | no ne ↦ r.none k (omega arith) le ];
  })

  not-not : (v : Bool) → not (not v) ≡ v
  not-not true = refl
  not-not false = refl

  scan_loop-Scanned :
      (n i : ℕ)
      → cnt ≤ b.bit_cnt
      → n ≡ b.bit_cnt - cnt + 1 - i
      → Returns (Scanned b i cnt value) (scan_loop n i cnt value b)
  unfolding scan_loop
  scan_loop-Scanned zero i fits e =
      inr (record { error = refl; none = λ k ge le. absurd (omega arith) })
  scan_loop-Scanned (suc n) i fits e =
      Returns-bind (Searched b i cnt (not value)) (Scanned b i cnt value)
        (bitmap_contains b i cnt (not value)) _
        (bitmap_contains-Searched b i cnt (record { size = size; within = omega arith })
          (not value))
        (λ other s. elim (Bool-cases other) [
          | inl hit ↦ rw hit (
              Returns-mono (Scanned b (i + 1) cnt value) (Scanned b i cnt value) _
                (scan_loop-Scanned n (i + 1) fits (omega arith))
                (λ idx r. Scanned-suc i idx (s.some_bit hit) r))
          | inr miss ↦ rw miss (
              inl (record {
                ge = omega arith;
                within = omega arith;
                group = λ j ge lt. rw (s.no_bit miss j ge lt) (not-not value);
                first = λ k ge lt. absurd (omega arith);
              }))
        ])

-- From a start within a bitmap of fewer bits than `bitmap_error` `bitmap_scan` returns the start of the first
-- group of `cnt` bits that all have the value, or `bitmap_error` when each such range from the start
-- on has a bit with the other value.
pub bitmap_scan-Scanned :
    (b : Bitmap) (start cnt : ℕ) (value : Bool)
    → IsSize b
    → start ≤ b.bit_cnt
    → Returns (Scanned b start cnt value) (bitmap_scan b start cnt value)
unfolding bitmap_scan
bitmap_scan-Scanned b start cnt value size le =
    rw (le→leb start b.bit_cnt le) (elim (dec_le cnt b.bit_cnt) [
      | yes fits ↦
          rw (le→leb cnt b.bit_cnt fits) (scan_loop-Scanned b cnt value size _ start fits refl)
      | no large ↦
          rw (lt→not_leb cnt b.bit_cnt (omega arith))
            (inr (record { error = refl; none = λ k ge lt. absurd (omega arith) }))
    ])

-- What `bitmap_scan_and_flip` does: the first group gets the other value, or nothing changes.
abbrev pub Flipped : Bitmap → (start cnt : ℕ) → Bool → ℕ × Bitmap → Type 0
Flipped b start cnt value (idx, c) =
    (FirstGroup b start cnt value idx × RangeSet b idx cnt (not value) c)
    ⊎ (NoGroup b start cnt value idx × (c ≡ b))

-- From a start within a bitmap of fewer bits than `bitmap_error` `bitmap_scan_and_flip` returns what
-- `bitmap_scan` does; when it is a group its bits, and no other, get the other value, and when it
-- is `bitmap_error` the bitmap is as it was. A group of no bits is found at the start.
pub bitmap_scan_and_flip-Flipped :
    (b : Bitmap) (start cnt : ℕ) (value : Bool)
    → IsSize b
    → start ≤ b.bit_cnt
    → Returns (Flipped b start cnt value) (bitmap_scan_and_flip b start cnt value)
unfolding bitmap_scan_and_flip
bitmap_scan_and_flip-Flipped b start cnt value size le =
    Returns-bind (Scanned b start cnt value) (Flipped b start cnt value)
      (bitmap_scan b start cnt value) _ (bitmap_scan-Scanned b start cnt value size le) flip
  where
    flip :
        (idx : ℕ)
        → Scanned b start cnt value idx
        → Returns (Flipped b start cnt value) (do
          flipped ←
              (if idx == bitmap_error then ok b else bitmap_set_multiple b idx cnt (not value))
          ok (idx, flipped))
    flip idx (inl r) = rw (ne→not_== idx bitmap_error λ e. absurd (omega (arith, r.within, size))) (
        Returns-bind (RangeSet b idx cnt (not value)) (Flipped b start cnt value)
          (bitmap_set_multiple b idx cnt (not value)) _
          (bitmap_set_multiple-RangeSet b idx cnt (record { size = size; within = r.within })
            (not value))
          λ c w. inl (r, w))
    flip idx (inr r) =
        let hit : (idx == bitmap_error) ≡ true = ground (arith, r.error) in rw hit (inr (r, refl))
