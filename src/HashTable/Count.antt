-- ===== src/HashTable/Count.antt =====
-- How often an element stands in the buckets of a hash table, and how many elements they hold.
use pintos_filesys.Base.{
  count, count-append, ℕ, zero, suc, ◌+◌, ◌<◌, ◌≡◌, refl, arith, List, [], ◌∷◌, length, get_or,
  if◌then◌else◌, ◌==◌, length-append,
}
use pintos_filesys.HashTable.{push_at, unlink, unlink_all, empty_buckets, elements}

unfoldable pub count_all : ℕ → List (List ℕ) → ℕ
count_all e [] = 0
count_all e (b ∷ bs) = count e b + count_all e bs

unfoldable pub total : List (List ℕ) → ℕ
total [] = 0
total (b ∷ bs) = length b + total bs

pub length-push_at : (i e : ℕ) (bs : List (List ℕ)) → length (push_at i e bs) ≡ length bs
unfolding push_at
length-push_at i e [] = refl
length-push_at zero e (b ∷ bs) = refl
length-push_at (suc i) e (b ∷ bs) = omega (arith, length-push_at i e bs)

pub total-push_at :
    (i e : ℕ) (bs : List (List ℕ)) → i < length bs → total (push_at i e bs) ≡ total bs + 1
unfolding push_at total
total-push_at i e [] h = absurd (omega arith)
total-push_at zero e (b ∷ bs) h = omega arith
total-push_at (suc i) e (b ∷ bs) h = omega (arith, total-push_at i e bs (omega arith))

-- Only the element counts once more, in the bucket that it is pushed to.
pub count-push_at :
    (i e j x : ℕ) (bs : List (List ℕ))
    → i < length bs
    → count x (get_or (push_at i e bs) j [])
      ≡ count x (get_or bs j []) + (if i == j then (if e == x then 1 else 0) else 0)
unfolding push_at count
count-push_at i e j x [] h = absurd (omega arith)
count-push_at zero e zero x (b ∷ bs) h = ground arith
count-push_at zero e (suc j) x (b ∷ bs) h = ground arith
count-push_at (suc i) e zero x (b ∷ bs) h = ground arith
count-push_at (suc i) e (suc j) x (b ∷ bs) h =
    ground (arith, count-push_at i e j x bs (omega arith))

count-unlink : (e x : ℕ) (xs : List ℕ) → count x (unlink e xs) ≡ (if e == x then 0 else count x xs)
unfolding count unlink
count-unlink e x [] = ground arith
count-unlink e x (y ∷ ys) = ground (arith, count-unlink e x ys)

length-unlink : (e : ℕ) (xs : List ℕ) → length (unlink e xs) + count e xs ≡ length xs
unfolding count unlink
length-unlink e [] = omega arith
length-unlink e (y ∷ ys) = ground (arith, length-unlink e ys)

pub length-unlink_all : (e : ℕ) (bs : List (List ℕ)) → length (unlink_all e bs) ≡ length bs
unfolding unlink_all
length-unlink_all e [] = refl
length-unlink_all e (b ∷ bs) = omega (arith, length-unlink_all e bs)

pub count-unlink_all :
    (e x j : ℕ) (bs : List (List ℕ))
    → count x (get_or (unlink_all e bs) j []) ≡ (if e == x then 0 else count x (get_or bs j []))
unfolding unlink_all count
count-unlink_all e x j [] = ground arith
count-unlink_all e x zero (b ∷ bs) = count-unlink e x b
count-unlink_all e x (suc j) (b ∷ bs) = count-unlink_all e x j bs

pub total-unlink_all :
    (e : ℕ) (bs : List (List ℕ)) → total (unlink_all e bs) + count_all e bs ≡ total bs
unfolding unlink_all count_all total
total-unlink_all e [] = omega arith
total-unlink_all e (b ∷ bs) = omega (arith, length-unlink e b, total-unlink_all e bs)

pub length-empty_buckets : (n : ℕ) → length (empty_buckets n) ≡ n
unfolding empty_buckets
length-empty_buckets zero = refl
length-empty_buckets (suc n) = omega (arith, length-empty_buckets n)

pub total-empty_buckets : (n : ℕ) → total (empty_buckets n) ≡ 0
unfolding empty_buckets total
total-empty_buckets zero = refl
total-empty_buckets (suc n) = omega (arith, total-empty_buckets n)

pub count-empty_buckets : (n j x : ℕ) → count x (get_or (empty_buckets n) j []) ≡ 0
unfolding empty_buckets count
count-empty_buckets zero j x = refl
count-empty_buckets (suc n) zero x = refl
count-empty_buckets (suc n) (suc j) x = count-empty_buckets n j x

count_all-none :
    (x : ℕ) (bs : List (List ℕ)) → ((i : ℕ) → count x (get_or bs i []) ≡ 0) → count_all x bs ≡ 0
unfolding count_all
count_all-none x [] h = refl
count_all-none x (b ∷ bs) h = omega (arith, h 0, count_all-none x bs λ i. h (suc i))

-- An element that stands in one bucket only.
pub count_all-one :
    (x k n : ℕ) (bs : List (List ℕ))
    → k < length bs
    → ((i : ℕ) → count x (get_or bs i []) ≡ (if i == k then n else 0))
    → count_all x bs ≡ n
unfolding count_all
count_all-one x k n [] lt h = absurd (omega arith)
count_all-one x zero n (b ∷ bs) lt h =
    ground (arith, h 0, count_all-none x bs λ i. ground (arith, h (suc i)))
count_all-one x (suc k) n (b ∷ bs) lt h =
    ground (arith, h 0, count_all-one x k n bs (omega arith) λ i. ground (arith, h (suc i)))

pub length-elements : (bs : List (List ℕ)) → length (elements bs) ≡ total bs
unfolding elements total
length-elements [] = refl
length-elements (b ∷ bs) = omega (arith, length-append b (elements bs), length-elements bs)

pub count-elements : (x : ℕ) (bs : List (List ℕ)) → count x (elements bs) ≡ count_all x bs
unfolding elements count_all count
count-elements x [] = refl
count-elements x (b ∷ bs) = omega (arith, count-append x b (elements bs), count-elements x bs)
