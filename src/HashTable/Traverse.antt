-- ===== src/HashTable/Traverse.antt =====
-- lib/kernel/hash.c, the iterators.
pub mod Order
use pintos_filesys.Base.{
  ℕ, zero, suc, ◌+◌, ◌≤◌, ◌<◌, ◌≡◌, refl, arith, ap, sym, ◌∙◌, Bool, true, false, Outcome, ok,
  fault, hang, ◌>>=◌, Option, none, some, List, [], ◌∷◌, ◌++◌, length, get_or, if◌then◌else◌, ltb,
  leb, ◌==◌, Bool-cases, inl, inr,
}
use pintos_filesys.HashTable.{Hash, bucket_at, elements}

-- Where an iterator stands: the head of its bucket's list, an element, or the null pointer.
pub data Cursor : Type 0 where
  at_head : Cursor
  at_elem : ℕ → Cursor
  null : Cursor

pub record Iterator : Type 0 where
  pub hash : Hash
  pub bucket : ℕ
  pub elem : Cursor

unfoldable pub hash_first : Hash → Iterator
hash_first h = record { hash = h; bucket = 0; elem = at_head }

unfoldable pub first : List ℕ → Option ℕ
first [] = none
first (x ∷ xs) = some x

-- `list_next` of an element; `none` stands for the list's end.
unfoldable pub after : ℕ → List ℕ → Option ℕ
after e [] = none
after e (x ∷ xs) = let rest = after e xs in if x == e then first xs else rest

unfoldable pub next_of : Cursor → List ℕ → Outcome (Option ℕ)
next_of at_head xs = ok (first xs)
next_of (at_elem x) xs = ok (after x xs)
next_of null xs = fault

-- The loop of `hash_next`, a round for each bucket.
unfoldable pub skip_loop : (fuel : ℕ) → Hash → (bucket : ℕ) → Option ℕ → Outcome (ℕ × Cursor)
skip_loop fuel h bucket (some x) = ok (bucket, at_elem x)
skip_loop zero h bucket none = hang
skip_loop (suc fuel) h bucket none =
    let rest = skip_loop fuel h (bucket + 1) (first (bucket_at h (bucket + 1))) in
    if leb h.bucket_cnt (bucket + 1) then ok (bucket + 1, null) else rest

-- Whether there is a next element, and the iterator at it.
unfoldable pub hash_next : Iterator → Outcome Iterator
hash_next i = do
  e ← next_of i.elem (bucket_at i.hash i.bucket)
  (bucket, elem) ← skip_loop i.hash.bucket_cnt i.hash i.bucket e
  ok (record i { bucket = bucket; elem = elem })

abbrev pub hash_cur : Iterator → Cursor
hash_cur i = i.elem

-- `while (hash_next (&i)) ... hash_cur (&i) ...`: the elements in the order of their visits.
unfoldable pub visit_loop : (fuel : ℕ) → Iterator → Outcome (List ℕ)
visit_loop zero i = hang
visit_loop (suc fuel) i = do
  i' ← hash_next i
  elim (hash_cur i') [
    | at_head ↦ fault
    | at_elem x ↦ do xs ← visit_loop fuel i'; ok (x ∷ xs)
    | null ↦ ok []
  ]
