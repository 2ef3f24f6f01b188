-- ===== src/Palloc/Pools.antt =====
-- threads/palloc.c, the pools: which pages they have, and `page_from_pool`.
use pintos_filesys.Base.{
  ℕ, ◌+◌, ◌*◌, ◌/◌, ◌%◌, ◌^◌, ◌≤◌, ◌<◌, ◌≡◌, refl, arith, ap, ◌∙◌, Bool, true, false, not, ok,
  Returns-eq, le→leb, lt→ltb, Bool-cases, inl, inr,
}
use pintos_filesys.Bitmap.{Bitmap, bitmap_all}
use pintos_filesys.Bitmap.Bits.{bit, IsSize}
use pintos_filesys.Bitmap.Ranges.{IsRange, Searched, bitmap_contains-Searched}
use pintos_filesys.Palloc.{Pool, Memory, pool, set_map, page_from_pool}

-- The pages of a pool are aligned, none is at 0 and all are below the end of the addresses.
pub record IsPool (p : Pool) : Type 0 where
  pub size : IsSize p.used_map
  pub aligned : p.base % 4096 ≡ 0
  pub positive : 0 < p.base
  pub below : p.base + 4096 * p.used_map.bit_cnt < 2 ^ 64

-- The kernel's pool lies below that for user pages.
pub record IsMemory (m : Memory) : Type 0 where
  pub pools : (user : Bool) → IsPool (pool user m)
  pub apart : m.kernel_pool.base + 4096 * m.kernel_pool.used_map.bit_cnt ≤ m.user_pool.base

-- Both pools have the pages they had.
pub record SamePages (m m' : Memory) : Type 0 where
  pub base : (user : Bool) → (pool user m').base ≡ (pool user m).base
  pub bit_cnt : (user : Bool) → (pool user m').used_map.bit_cnt ≡ (pool user m).used_map.bit_cnt

pub SamePages-IsMemory : (m m' : Memory) → IsMemory m → SamePages m m' → IsMemory m'
SamePages-IsMemory m m' v c = record {
  pools = λ user.
      let p = v.pools user in
      record {
        size = omega (arith, p.size, c.bit_cnt user);
        aligned = ap (λ n. n % 4096) (c.base user) ∙ p.aligned;
        positive = omega (arith, p.positive, c.base user);
        below = omega (arith, p.below, c.base user, c.bit_cnt user);
      };
  apart = omega (arith, v.apart, c.base true, c.base false, c.bit_cnt false);
}

pub set_map-SamePages :
    (user : Bool) (b : Bitmap) (m m' : Memory)
    → b.bit_cnt ≡ (pool user m).used_map.bit_cnt
    → ((u : Bool) → pool u m' ≡ pool u m)
    → SamePages m (set_map user b m')
set_map-SamePages true b m m' e same = record {
  base = elim [ true ↦ ap (λ p. p.base) (same true) | false ↦ ap (λ p. p.base) (same false) ];
  bit_cnt = elim [ true ↦ e | false ↦ ap (λ p. p.used_map.bit_cnt) (same false) ];
}
set_map-SamePages false b m m' e same = record {
  base = elim [ true ↦ ap (λ p. p.base) (same true) | false ↦ ap (λ p. p.base) (same false) ];
  bit_cnt = elim [ true ↦ ap (λ p. p.used_map.bit_cnt) (same true) | false ↦ e ];
}

pub pool-set_map :
    (user : Bool) (b : Bitmap) (m : Memory)
    → pool user (set_map user b m) ≡ record (pool user m) { used_map = b }
pool-set_map true b m = refl
pool-set_map false b m = refl

pub other-set_map :
    (user : Bool) (b : Bitmap) (m : Memory) → pool (not user) (set_map user b m) ≡ pool (not user) m
other-set_map true b m = refl
other-set_map false b m = refl

pub bytes-set_map : (user : Bool) (b : Bitmap) (m : Memory) → (set_map user b m).bytes ≡ m.bytes
bytes-set_map true b m = refl
bytes-set_map false b m = refl

pub set_map-same : (user : Bool) (m : Memory) → set_map user (pool user m).used_map m ≡ m
set_map-same true m = refl
set_map-same false m = refl

pub bitmap_all-true :
    (b : Bitmap) (start cnt : ℕ)
    → IsRange b start cnt
    → ((j : ℕ) → start ≤ j → j < start + cnt → bit b j ≡ true)
    → bitmap_all b start cnt ≡ ok true
unfolding bitmap_all
bitmap_all-true b start cnt v all =
    let (found, e, s) =
      Returns-eq (Searched b start cnt false) _ (bitmap_contains-Searched b start cnt v false) in
    rw e (elim (Bool-cases found) [
      | inl hit ↦
          let (j, ge, lt, clear) = s.some_bit hit in absurd (ground (arith, all j ge lt, clear))
      | inr miss ↦ rw miss refl
    ])

pub bitmap_all-false :
    (b : Bitmap) (start cnt j : ℕ)
    → IsRange b start cnt
    → start ≤ j
    → j < start + cnt
    → bit b j ≡ false
    → bitmap_all b start cnt ≡ ok false
unfolding bitmap_all
bitmap_all-false b start cnt j v ge lt clear =
    let (found, e, s) =
      Returns-eq (Searched b start cnt false) _ (bitmap_contains-Searched b start cnt v false) in
    rw e (elim (Bool-cases found) [
      | inl hit ↦ rw hit refl
      | inr miss ↦ absurd (ground (arith, s.no_bit miss j ge lt, clear))
    ])

-- The pools are the same after a write to memory.
pub pool-bytes :
    (user : Bool) (m : Memory) (bytes : ℕ → ℕ)
    → pool user (record m { bytes = bytes }) ≡ pool user m
pool-bytes true m bytes = refl
pool-bytes false m bytes = refl

pub SamePages-bytes :
    (m m' : Memory) (bytes : ℕ → ℕ) → SamePages m m' → SamePages m (record m' { bytes = bytes })
SamePages-bytes m m' bytes c = record {
  base = elim [ true ↦ c.base true | false ↦ c.base false ];
  bit_cnt = elim [ true ↦ c.bit_cnt true | false ↦ c.bit_cnt false ];
}

-- Page `idx` of the pool.
abbrev pub page_at : Pool → ℕ → ℕ
page_at p idx = p.base + 4096 * idx

pub page_from_pool-page_at :
    (p : Pool) (idx : ℕ)
    → IsPool p
    → idx < p.used_map.bit_cnt
    → page_from_pool p (page_at p idx) ≡ true
unfolding page_from_pool
page_from_pool-page_at p idx v lt =
    rw (le→leb (p.base / 4096) (page_at p idx / 4096) (omega (arith, v.aligned)))
      (lt→ltb _ _ (omega (arith, v.aligned)))

-- A page of the user pool is not one of the kernel's.
pub page_from_pool-other :
    (m : Memory) (idx : ℕ)
    → IsMemory m
    → page_from_pool m.kernel_pool (page_at m.user_pool idx) ≡ false
unfolding page_from_pool
page_from_pool-other m idx v =
    ground (arith, v.apart, (v.pools true).aligned, (v.pools false).aligned)
