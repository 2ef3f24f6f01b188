-- ===== src/HashTable.antt =====
-- lib/kernel/hash.c: a hash table whose buckets are lists. Elements are addresses; a bucket is the
-- list of the elements in it, as LinkedList shows that the operations of list.c keep one. `less` has
-- its auxiliary data already, and `memory` says whether malloc gives memory.
pub mod Words
pub mod Count
pub mod Shape
pub mod Rehash
pub mod Elements
pub mod Operations
pub mod Traverse
pub mod Values
mod Examples
use pintos_filesys.Base.{
  ℕ, zero, suc, ◌+◌, ◌-◌, ◌*◌, ◌/◌, ◌%◌, ◌^◌, Bool, true, false, not, ◌&&◌, ◌||◌, Option, none,
  some, Outcome, ok, fault, hang, ◌>>=◌, List, [], ◌∷◌, ◌++◌, get_or, if◌then◌else◌, ltb, ◌==◌,
  wrap64,
}

pub record Hash : Type 0 where
  pub elem_cnt : ℕ
  pub bucket_cnt : ℕ
  pub buckets : List (List ℕ)
  pub hash : ℕ → ℕ
  pub less : ℕ → ℕ → Bool

-- `x & y` of words with `w` bits.
unfoldable pub bit_and : (w : ℕ) → ℕ → ℕ → ℕ
bit_and zero x y = 0
bit_and (suc w) x y =
    let rest = bit_and w (x / 2) (y / 2) in 2 * rest + (if x % 2 == 1 && y % 2 == 1 then 1 else 0)

-- `x ^ y` of words with `w` bits.
unfoldable pub bit_xor : (w : ℕ) → ℕ → ℕ → ℕ
bit_xor zero x y = 0
bit_xor (suc w) x y =
    let rest = bit_xor w (x / 2) (y / 2) in 2 * rest + (if x % 2 == y % 2 then 0 else 1)

-- `x - 1` wraps at 0.
unfoldable pub turn_off_least_1bit : ℕ → ℕ
turn_off_least_1bit x = bit_and 64 x (wrap64 (x + 2 ^ 64 - 1))

unfoldable pub is_power_of_2 : ℕ → Bool
is_power_of_2 x = not (x == 0) && turn_off_least_1bit x == 0

unfoldable pub find_bucket : Hash → ℕ → ℕ
find_bucket h e = bit_and 64 (h.hash e) (wrap64 (h.bucket_cnt + 2 ^ 64 - 1))

-- Neither is less than the other.
abbrev pub equal : Hash → (hi e : ℕ) → Bool
equal h hi e = not (h.less hi e) && not (h.less e hi)

unfoldable pub find_elem : Hash → List ℕ → ℕ → Option ℕ
find_elem h [] e = none
find_elem h (hi ∷ rest) e = if equal h hi e then some hi else find_elem h rest e

-- `list_push_front (&buckets[i], e)`.
unfoldable pub push_at : ℕ → ℕ → List (List ℕ) → List (List ℕ)
push_at i e [] = []
push_at zero e (b ∷ bs) = (e ∷ b) ∷ bs
push_at (suc i) e (b ∷ bs) = b ∷ push_at i e bs

unfoldable pub insert_elem : (bucket e : ℕ) → Hash → Hash
insert_elem bucket e h = record h {
  elem_cnt = wrap64 (h.elem_cnt + 1);
  buckets = push_at bucket e h.buckets;
}

-- The list without the element at the address.
unfoldable pub unlink : ℕ → List ℕ → List ℕ
unlink e [] = []
unlink e (x ∷ xs) = let rest = unlink e xs in if x == e then rest else x ∷ rest

-- `list_remove (e)`, from whichever bucket it is in.
unfoldable pub unlink_all : ℕ → List (List ℕ) → List (List ℕ)
unlink_all e [] = []
unlink_all e (b ∷ bs) = unlink e b ∷ unlink_all e bs

unfoldable pub remove_elem : ℕ → Hash → Hash
remove_elem e h = record h {
  elem_cnt = wrap64 (h.elem_cnt + 2 ^ 64 - 1);
  buckets = unlink_all e h.buckets;
}

-- `n` buckets after `list_init`.
unfoldable pub empty_buckets : ℕ → List (List ℕ)
empty_buckets zero = []
empty_buckets (suc n) = [] ∷ empty_buckets n

-- The loop of `rehash` on the number of buckets. Each round clears a bit, so that `n` rounds are
-- enough for a number up to `n`.
unfoldable pub power_loop : (fuel n : ℕ) → Outcome ℕ
power_loop zero n = hang
power_loop (suc fuel) n =
    let rest = power_loop fuel (turn_off_least_1bit n) in if is_power_of_2 n then ok n else rest

unfoldable pub new_bucket_cnt : ℕ → Outcome ℕ
new_bucket_cnt elem_cnt =
    let best = elem_cnt / 2 in let start = if ltb best 4 then 4 else best in power_loop start start

-- The inner loop of `rehash`, over the elements of an old bucket.
unfoldable pub move_bucket : List ℕ → Hash → Hash
move_bucket [] h = h
move_bucket (e ∷ es) h =
    move_bucket es (record h { buckets = push_at (find_bucket h e) e h.buckets })

unfoldable pub move_buckets : List (List ℕ) → Hash → Hash
move_buckets [] h = h
move_buckets (b ∷ bs) h = move_buckets bs (move_bucket b h)

unfoldable pub rehash : (memory : Bool) → Hash → Outcome Hash
rehash memory h = do
  n ← new_bucket_cnt h.elem_cnt
  (if n == h.bucket_cnt || not memory
      then ok h
      else ok (move_buckets h.buckets (record h { bucket_cnt = n; buckets = empty_buckets n })))

-- The list of a bucket.
abbrev pub bucket_at : Hash → ℕ → List ℕ
bucket_at h i = get_or h.buckets i []

unfoldable pub hash_find : Hash → ℕ → Option ℕ
hash_find h e = find_elem h (bucket_at h (find_bucket h e)) e

unfoldable pub hash_insert : (memory : Bool) → ℕ → Hash → Outcome (Option ℕ × Hash)
hash_insert memory new h = do
  let bucket = find_bucket h new
  let old = find_elem h (bucket_at h bucket) new
  h' ← rehash memory (elim old [ none ↦ insert_elem bucket new h | some x ↦ h ])
  ok (old, h')

unfoldable pub hash_replace : (memory : Bool) → ℕ → Hash → Outcome (Option ℕ × Hash)
hash_replace memory new h = do
  let bucket = find_bucket h new
  let old = find_elem h (bucket_at h bucket) new
  let rest : Hash = elim old [ none ↦ h | some x ↦ remove_elem x h ]
  h' ← rehash memory (insert_elem bucket new rest)
  ok (old, h')

unfoldable pub hash_delete : (memory : Bool) → ℕ → Hash → Outcome (Option ℕ × Hash)
hash_delete memory e h = elim (find_elem h (bucket_at h (find_bucket h e)) e) [
  | none ↦ ok (none, h)
  | some found ↦ do h' ← rehash memory (remove_elem found h); ok (some found, h')
]

-- The elements of all buckets, in their order.
unfoldable pub elements : List (List ℕ) → List ℕ
elements [] = []
elements (b ∷ bs) = b ++ elements bs

-- The elements that the destructor is called on, and the table that is left.
unfoldable pub hash_clear : (destructor : Bool) → Hash → List ℕ × Hash
hash_clear destructor h = (
  if destructor then elements h.buckets else [],
  record h { elem_cnt = 0; buckets = empty_buckets h.bucket_cnt },
)

-- The elements that the destructor is called on.
unfoldable pub hash_destroy : (destructor : Bool) → Hash → List ℕ
hash_destroy destructor h = if destructor then (hash_clear true h).0 else []

unfoldable pub hash_init : (memory : Bool) (hash : ℕ → ℕ) (less : ℕ → ℕ → Bool) → Bool × Hash
hash_init memory hash less =
    let h : Hash = record {
      elem_cnt = 0;
      bucket_cnt = 4;
      buckets = [];
      hash = hash;
      less = less;
    } in
    if memory then (true, (hash_clear false h).1) else (false, h)

-- The elements that the action is called on.
unfoldable pub hash_apply : Hash → List ℕ
hash_apply h = elements h.buckets

abbrev pub hash_size : Hash → ℕ
hash_size h = h.elem_cnt

abbrev pub hash_empty : Hash → Bool
hash_empty h = h.elem_cnt == 0
