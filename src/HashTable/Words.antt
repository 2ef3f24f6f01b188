-- ===== src/HashTable/Words.antt =====
-- lib/kernel/hash.c, the arithmetic on bits: the number of buckets that `rehash` chooses.
use pintos_filesys.Base.{
  ℕ, zero, suc, ◌+◌, ◌-◌, ◌*◌, ◌/◌, ◌%◌, ◌^◌, ◌≤◌, ◌<◌, ◌≡◌, refl, arith, ◌∙◌, true, false, ◌⊎◌,
  inl, inr, ok, Returns, if◌then◌else◌, wrap64, ℕ_discrete, ap, dec_lt, lt→ltb, le→not_ltb,
}
use pintos_filesys.HashTable.{
  Hash, bit_and, turn_off_least_1bit, is_power_of_2, power_loop, new_bucket_cnt, find_bucket,
}

-- The bits that two words share are bits of the second.
pub bit_and-le : (w x y : ℕ) → bit_and w x y ≤ y
unfolding bit_and
bit_and-le zero x y = omega arith
bit_and-le (suc w) x y = ground (arith, bit_and-le w (x / 2) (y / 2))

bit_and_self : (w x : ℕ) → x < 2 ^ w → bit_and w x x ≡ x
unfolding bit_and
bit_and_self zero x h = omega arith
bit_and_self (suc w) x h = ground (arith, bit_and_self w (x / 2) (omega arith))

-- Clearing the lowest bit of a number with highest bit `k`: none is left, or the highest is.
Cleared : (k x c : ℕ) → Type 0
Cleared k x c = ((c ≡ 0) × (x ≡ 2 ^ k)) ⊎ ((2 ^ k ≤ c) × (c < x))

clear_lowest :
    (k w x : ℕ) → 2 ^ k ≤ x → x < 2 * 2 ^ k → x < 2 ^ w → Cleared k x (bit_and w x (x - 1))
unfolding bit_and Cleared
clear_lowest zero zero x lo hi small = absurd (omega arith)
clear_lowest (suc k) zero x lo hi small = ground arith
clear_lowest zero (suc w) x lo hi small = ground (arith, bit_and-le w (x / 2) ((x - 1) / 2))
clear_lowest (suc k) (suc w) x lo hi small = elim (ℕ_discrete (x % 2) 1) [
  | yes odd ↦
      let half : (x - 1) / 2 ≡ x / 2 = omega arith in
      rw half (ground (arith, bit_and_self w (x / 2) (omega arith)))
  | no even ↦
      let half : (x - 1) / 2 ≡ x / 2 - 1 = omega arith in
      rw half (ground (arith, clear_lowest k w (x / 2) (omega arith) (omega arith) (omega arith)))
]

turn_off-Cleared :
    (k x : ℕ) → 2 ^ k ≤ x → x < 2 * 2 ^ k → 0 < x → x < 2 ^ 64 → Cleared k x (turn_off_least_1bit x)
unfolding turn_off_least_1bit
turn_off-Cleared k x lo hi pos small =
    let down : wrap64 (x + 2 ^ 64 - 1) ≡ x - 1 = omega arith in
    rw down (clear_lowest k 64 x lo hi small)

-- The loop ends with the power of two that the number's highest bit stands for.
power_loop-highest :
    (k fuel n : ℕ)
    → 2 ^ k ≤ n
    → n < 2 * 2 ^ k
    → 0 < n
    → n < 2 ^ 64
    → n ≤ fuel
    → power_loop fuel n ≡ ok (2 ^ k)
unfolding power_loop is_power_of_2 Cleared
power_loop-highest k zero n lo hi pos small enough = absurd (omega arith)
power_loop-highest k (suc fuel) n lo hi pos small enough =
    elim (turn_off-Cleared k n lo hi pos small) [
      | inl (none_left, power) ↦
          ap (λ b. if b then ok n else power_loop fuel (turn_off_least_1bit n))
            (power_test n pos none_left)
          ∙ ap ok power
      | inr (keeps, less) ↦
          ap (λ b. if b then ok n else power_loop fuel (turn_off_least_1bit n))
            (other_test n (omega arith))
          ∙ power_loop-highest k fuel (turn_off_least_1bit n) keeps (omega arith) (omega arith)
              (omega arith) (omega arith)
    ]
  where
    power_test : (m : ℕ) → 0 < m → turn_off_least_1bit m ≡ 0 → is_power_of_2 m ≡ true
    power_test m p e = ground (arith, e)

    other_test : (m : ℕ) → 0 < turn_off_least_1bit m → is_power_of_2 m ≡ false
    other_test m p = ground arith

highest_bit : (fuel n : ℕ) → 0 < n → n ≤ fuel → (k : ℕ) × (2 ^ k ≤ n) × (n < 2 * 2 ^ k)
highest_bit zero n pos le = absurd (omega arith)
highest_bit (suc fuel) n pos le = elim (dec_lt 1 n) [
  | yes big ↦
      let (k, lo, hi) = highest_bit fuel (n / 2) (omega arith) (omega arith) in
      (suc k, omega arith, omega arith)
  | no small ↦ (0, omega arith, omega arith)
]

-- The number of buckets for so many elements: a power of two, and about one bucket for two elements,
-- but at least four.
pub record IsBucketCount (elem_cnt n : ℕ) : Type 0 where
  pub power : (k : ℕ) × (n ≡ 2 ^ k)
  pub least : 4 ≤ n
  pub most : 4 ≤ elem_cnt / 2 → n ≤ elem_cnt / 2
  pub half : elem_cnt / 2 < 2 * n
  pub few : elem_cnt / 2 < 4 → n ≡ 4

power_positive : (k : ℕ) → 0 < 2 ^ k
power_positive zero = omega arith
power_positive (suc k) = omega (arith, power_positive k)

-- No power of two is 3.
power_least : (k : ℕ) → 2 < 2 ^ k → 4 ≤ 2 ^ k
power_least zero h = absurd (omega arith)
power_least (suc zero) h = absurd (omega arith)
power_least (suc (suc k)) h = omega (arith, power_positive k)

start-IsBucketCount :
    (elem_cnt start : ℕ)
    → 4 ≤ start
    → start < 2 ^ 64
    → elem_cnt / 2 ≤ start
    → (4 ≤ elem_cnt / 2 → start ≤ elem_cnt / 2)
    → (elem_cnt / 2 < 4 → start ≡ 4)
    → Returns (IsBucketCount elem_cnt) (power_loop start start)
start-IsBucketCount elem_cnt start least small above same few =
    let (k, lo, hi) = highest_bit start start (omega arith) (omega arith) in
    rw (power_loop-highest k start start lo hi (omega arith) small (omega arith)) (record {
      power = (k, refl);
      least = power_least k (omega arith);
      most = λ h. omega (arith, same h);
      half = omega arith;
      few = λ h. omega (arith, few h, power_least k (omega arith));
    })

-- For a 64-bit count the search for a number of buckets ends, with a power of two: 4 for fewer than 8
-- elements, and otherwise at least 4 and at most one for two elements. The double of it would be
-- more than one for two elements.
pub new_bucket_cnt-IsBucketCount :
    (elem_cnt : ℕ) → elem_cnt < 2 ^ 64 → Returns (IsBucketCount elem_cnt) (new_bucket_cnt elem_cnt)
unfolding new_bucket_cnt
new_bucket_cnt-IsBucketCount elem_cnt small = elim (dec_lt (elem_cnt / 2) 4) [
  | yes few ↦ rw (lt→ltb (elem_cnt / 2) 4 few) (
      start-IsBucketCount elem_cnt 4 (omega arith) (omega arith) (omega arith) (λ h. omega arith)
        (λ h. refl))
  | no many ↦ rw (le→not_ltb (elem_cnt / 2) 4 (omega arith)) (
      start-IsBucketCount elem_cnt (elem_cnt / 2) (omega arith) (omega arith) (omega arith)
        (λ h. omega arith) (λ h. absurd (omega arith)))
]

-- The bucket of an element is one of the table's.
pub find_bucket-lt :
    (h : Hash) (e : ℕ) → 0 < h.bucket_cnt → h.bucket_cnt < 2 ^ 64 → find_bucket h e < h.bucket_cnt
unfolding find_bucket
find_bucket-lt h e pos small =
    omega (arith, bit_and-le 64 (h.hash e) (wrap64 (h.bucket_cnt + 2 ^ 64 - 1)))
