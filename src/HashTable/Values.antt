-- ===== src/HashTable/Values.antt =====
-- lib/kernel/hash.c, the hash functions: Fowler-Noll-Vo on 64-bit words.
use pintos_filesys.Base.{
  ℕ, ◌*◌, ◌/◌, ◌%◌, ◌≡◌, refl, arith, Outcome, ok, fault, List, [], ◌∷◌, ◌++◌, if◌then◌else◌, ◌==◌,
  wrap64, has, false,
}
use pintos_filesys.HashTable.{bit_xor}

abbrev pub fnv_64_prime : ℕ
fnv_64_prime = 1099511628211

abbrev pub fnv_64_basis : ℕ
fnv_64_basis = 14695981039346656037

-- The assignment in the loops of `hash_bytes` and `hash_string`.
unfoldable pub mix : (hash byte : ℕ) → ℕ
mix hash byte = bit_xor 64 (wrap64 (hash * fnv_64_prime)) byte

unfoldable pub bytes_loop : List ℕ → (hash : ℕ) → ℕ
bytes_loop [] hash = hash
bytes_loop (b ∷ bs) hash = bytes_loop bs (mix hash b)

-- Of the bytes in the buffer.
unfoldable pub hash_bytes : List ℕ → ℕ
hash_bytes buf = bytes_loop buf fnv_64_basis

unfoldable pub string_loop : List ℕ → (hash : ℕ) → Outcome ℕ
string_loop [] hash = fault
string_loop (c ∷ cs) hash = if c == 0 then ok hash else string_loop cs (mix hash c)

-- Of the memory from the string on; a string without a NUL runs out of it.
unfoldable pub hash_string : List ℕ → Outcome ℕ
hash_string s = string_loop s fnv_64_basis

-- Of the four bytes of an `int`, given as its 32-bit word.
unfoldable pub hash_int : ℕ → ℕ
hash_int i = hash_bytes (i % 256 ∷ i / 256 % 256 ∷ i / 65536 % 256 ∷ i / 16777216 % 256 ∷ [])

string_loop-bytes :
    (s rest : List ℕ) (hash : ℕ)
    → has 0 s ≡ false
    → string_loop (s ++ 0 ∷ rest) hash ≡ ok (bytes_loop s hash)
unfolding string_loop bytes_loop
string_loop-bytes [] rest hash h = refl
string_loop-bytes (c ∷ cs) rest hash h =
    rw (not_null c (ground arith)) (string_loop-bytes cs rest (mix hash c) (ground arith))
  where
    not_null : (d : ℕ) → (0 == d) ≡ false → (d == 0) ≡ false
    not_null d e = ground arith

-- The hash of a string is the hash of its bytes before the NUL.
pub hash_string-hash_bytes :
    (s rest : List ℕ) → has 0 s ≡ false → hash_string (s ++ 0 ∷ rest) ≡ ok (hash_bytes s)
unfolding hash_string hash_bytes
hash_string-hash_bytes s rest h = string_loop-bytes s rest fnv_64_basis h
