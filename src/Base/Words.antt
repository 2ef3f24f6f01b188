-- ===== src/Base/Words.antt =====
-- Unsigned words of 32 and 64 bits.
use Prim.Native.Nat.{ℕ, ◌%◌, ◌^◌, ◌<◌}
use mathlib.Core.Path.{◌≡◌}
use native.Mathlib.Omega.{arith}

-- The value that a `uint32_t` keeps of a number.
abbrev pub wrap32 : ℕ → ℕ
wrap32 n = n % 2 ^ 32

pub wrap32_small : (n : ℕ) → n < 2 ^ 32 → wrap32 n ≡ n
wrap32_small n h = omega arith

-- The value that a `size_t` or a `uint64_t` keeps of a number.
abbrev pub wrap64 : ℕ → ℕ
wrap64 n = n % 2 ^ 64
