-- ===== src/HashTable/Rehash.antt =====
-- lib/kernel/hash.c, `rehash`: what it moves and what it keeps.
use pintos_filesys.Base.{
  once, count, ℕ, ◌+◌, ◌^◌, ◌<◌, ◌≡◌, refl, arith, ap, sym, ◌∙◌, Bool, not, ◌||◌, Returns,
  Returns-bind, Returns-mono, List, [], ◌∷◌, length, if◌then◌else◌, ◌==◌, Bool-cases, inl, inr,
  subst, dec_le, ◌/◌,
}
use pintos_filesys.HashTable.{
  Hash, find_bucket, push_at, empty_buckets, move_bucket, move_buckets, new_bucket_cnt, rehash,
  hash_find,
}
use pintos_filesys.HashTable.Count.{
  count_all, total, length-push_at, total-push_at, count-push_at, length-empty_buckets,
  total-empty_buckets, count-empty_buckets,
}
use pintos_filesys.HashTable.Words.{IsBucketCount, new_bucket_cnt-IsBucketCount}
use pintos_filesys.HashTable.Shape.{
  IsPlaced, IsTable, Respects, own_bucket, count_all-IsPlaced, hash_find-Found, Found-unique,
}

-- One table has the functions and the counters of the other.
pub record Like (h k : Hash) : Type 0 where
  pub hash : k.hash ≡ h.hash
  pub less : k.less ≡ h.less
  pub elem_cnt : k.elem_cnt ≡ h.elem_cnt
  pub bucket_cnt : k.bucket_cnt ≡ h.bucket_cnt

-- After moving some elements, `n` of them, with `c x` places of `x` before and `d x` places since.
pub record Moved (h : Hash) (c : ℕ → ℕ) (n : ℕ) (k : Hash) : Type 0 where
  pub like : Like h k
  pub placed : IsPlaced k c
  pub amount : total k.buckets ≡ total h.buckets + n

find_bucket-Like : (h k : Hash) → Like h k → (x : ℕ) → find_bucket k x ≡ find_bucket h x
unfolding find_bucket
find_bucket-Like h k l x = rw (l.hash, l.bucket_cnt) refl

pub push-Moved :
    (h : Hash) (c d : ℕ → ℕ) (e : ℕ)
    → IsPlaced h c
    → ((x : ℕ) → d x ≡ c x + (if e == x then 1 else 0))
    → Moved h d 1 (record h { buckets = push_at (find_bucket h e) e h.buckets })
push-Moved h c d e w step = record {
  like = like;
  placed = record {
    size = length-push_at (find_bucket h e) e h.buckets ∙ w.size;
    positive = w.positive;
    bounded = w.bounded;
    place = λ i x. ground (
      arith,
      w.place i x,
      step x,
      ap (find_bucket h),
      find_bucket-Like h pushed like x,
      count-push_at (find_bucket h e) e i x h.buckets (own_bucket h c w e),
    );
  };
  amount = total-push_at (find_bucket h e) e h.buckets (own_bucket h c w e);
}
  where
    pushed : Hash
    pushed = record h { buckets = push_at (find_bucket h e) e h.buckets }

    like : Like h pushed
    like = record { hash = refl; less = refl; elem_cnt = refl; bucket_cnt = refl }

Moved-trans :
    (h k l : Hash) (c d : ℕ → ℕ) (n m : ℕ) → Moved h c n k → Moved k d m l → Moved h d (n + m) l
Moved-trans h k l c d n m a b = record {
  like = record {
    hash = b.like.hash ∙ a.like.hash;
    less = b.like.less ∙ a.like.less;
    elem_cnt = b.like.elem_cnt ∙ a.like.elem_cnt;
    bucket_cnt = b.like.bucket_cnt ∙ a.like.bucket_cnt;
  };
  placed = b.placed;
  amount = omega (arith, a.amount, b.amount);
}

-- The same places, counted by another function.
IsPlaced-eq : (h : Hash) (c d : ℕ → ℕ) → IsPlaced h c → ((x : ℕ) → d x ≡ c x) → IsPlaced h d
IsPlaced-eq h c d w e = record {
  size = w.size;
  positive = w.positive;
  bounded = w.bounded;
  place = λ i x. rw (e x) (w.place i x);
}

unmoved : (h : Hash) (c d : ℕ → ℕ) → IsPlaced h c → ((x : ℕ) → d x ≡ c x) → Moved h d 0 h
unmoved h c d w e = record {
  like = record { hash = refl; less = refl; elem_cnt = refl; bucket_cnt = refl };
  placed = IsPlaced-eq h c d w e;
  amount = omega arith;
}

move_bucket-Moved :
    (es : List ℕ) (h : Hash) (c d : ℕ → ℕ)
    → IsPlaced h c
    → ((x : ℕ) → d x ≡ c x + count x es)
    → Moved h d (length es) (move_bucket es h)
unfolding move_bucket count
move_bucket-Moved [] h c d w step = unmoved h c d w λ x. omega (arith, step x)
move_bucket-Moved (e ∷ es) h c d w step =
    let k : Hash = record h { buckets = push_at (find_bucket h e) e h.buckets } in
    let c' : ℕ → ℕ = λ x. c x + (if e == x then 1 else 0) in
    let first = push-Moved h c c' e w λ x. refl in
    let rest = move_bucket-Moved es k c' d first.placed λ x. omega (arith, step x) in
    subst (λ n. Moved h d n (move_bucket es k)) (omega arith)
      (Moved-trans h k (move_bucket es k) c' d 1 (length es) first rest)

move_buckets-Moved :
    (bs : List (List ℕ)) (h : Hash) (c d : ℕ → ℕ)
    → IsPlaced h c
    → ((x : ℕ) → d x ≡ c x + count_all x bs)
    → Moved h d (total bs) (move_buckets bs h)
unfolding move_buckets count_all total
move_buckets-Moved [] h c d w step = unmoved h c d w λ x. omega (arith, step x)
move_buckets-Moved (b ∷ bs) h c d w step =
    let k = move_bucket b h in
    let c' : ℕ → ℕ = λ x. c x + count x b in
    let first = move_bucket-Moved b h c c' w λ x. refl in
    let rest = move_buckets-Moved bs k c' d first.placed λ x. omega (arith, step x) in
    Moved-trans h k (move_buckets bs k) c' d (length b) (total bs) first rest

-- A table with the same elements, functions and counter.
pub record Rehashed (h : Hash) (p : ℕ → Bool) (k : Hash) : Type 0 where
  pub table : IsTable k p
  pub hash : k.hash ≡ h.hash
  pub less : k.less ≡ h.less
  pub elem_cnt : k.elem_cnt ≡ h.elem_cnt

empty-IsPlaced :
    (h : Hash) (n : ℕ)
    → 0 < n
    → n < 2 ^ 64
    → IsPlaced (record h { bucket_cnt = n; buckets = empty_buckets n }) (λ x. 0)
empty-IsPlaced h n pos small = record {
  size = length-empty_buckets n;
  positive = pos;
  bounded = small;
  place = λ i x. ground (arith, count-empty_buckets n i x);
}

moved-Rehashed :
    (h : Hash) (p : ℕ → Bool) (n : ℕ)
    → IsTable h p
    → 0 < n
    → n < 2 ^ 64
    → Rehashed h p (move_buckets h.buckets (record h { bucket_cnt = n; buckets = empty_buckets n }))
moved-Rehashed h p n w pos small = record {
  table = record {
    placed = m.placed;
    amount = omega (arith, m.amount, m.like.elem_cnt, w.amount, total-empty_buckets n);
    few = omega (arith, m.like.elem_cnt, w.few);
    unique = λ x y hx hy e.
        w.unique x y hx hy
          (ground (arith, e, ap (λ l. l x y) m.like.less, ap (λ l. l y x) m.like.less));
  };
  hash = m.like.hash;
  less = m.like.less;
  elem_cnt = m.like.elem_cnt;
}
  where
    k : Hash
    k = record h { bucket_cnt = n; buckets = empty_buckets n }

    m : Moved k (λ x. once (p x)) (total h.buckets) (move_buckets h.buckets k)
    m =
        move_buckets-Moved h.buckets k (λ x. 0) (λ x. once (p x)) (empty-IsPlaced h n pos small)
          λ x. omega (arith, count_all-IsPlaced h (λ y. once (p y)) w.placed x)

-- Rehashing ends, whether memory is given or not, and keeps the elements of the table.
pub rehash-Rehashed :
    (memory : Bool) (h : Hash) (p : ℕ → Bool)
    → IsTable h p
    → Returns (Rehashed h p) (rehash memory h)
unfolding rehash
rehash-Rehashed memory h p w =
    Returns-bind (IsBucketCount h.elem_cnt) (Rehashed h p) (new_bucket_cnt h.elem_cnt) _
      (new_bucket_cnt-IsBucketCount h.elem_cnt w.few)
      λ n c. elim (Bool-cases (n == h.bucket_cnt || not memory)) [
        | inl keep ↦ rw keep (record { table = w; hash = refl; less = refl; elem_cnt = refl })
        | inr move ↦ rw move (moved-Rehashed h p n w (omega (arith, c.least)) (small n c))
      ]
  where
    small : (n : ℕ) → IsBucketCount h.elem_cnt n → n < 2 ^ 64
    small n c = elim (dec_le 4 (h.elem_cnt / 2)) [
      | yes many ↦ omega (arith, c.most many, w.few)
      | no few ↦ omega (arith, c.few (omega arith))
    ]

pub Respects-like : (h k : Hash) → k.hash ≡ h.hash → k.less ≡ h.less → Respects h → Respects k
Respects-like h k hash less r = record {
  reflexive = λ x. rw less (r.reflexive x);
  transitive = λ x y z. rw less (r.transitive x y z);
  same_hash = λ x y. rw (less, hash) (r.same_hash x y);
}

-- On a well-formed table with functions that agree, rehashing changes no search.
pub rehash-hash_find :
    (memory : Bool) (h : Hash) (p : ℕ → Bool)
    → IsTable h p
    → Respects h
    → Returns (λ k. (e : ℕ) → hash_find k e ≡ hash_find h e) (rehash memory h)
rehash-hash_find memory h p w r =
    Returns-mono (Rehashed h p) (λ k. (e : ℕ) → hash_find k e ≡ hash_find h e) (rehash memory h)
      (rehash-Rehashed memory h p w)
      λ k s e. sym (
        Found-unique h k p (sym s.less) r w e (hash_find h e) (hash_find k e)
          (hash_find-Found h p w r e)
          (hash_find-Found k p s.table (Respects-like h k s.hash s.less r) e))
