-- ===== src/HashTable/Shape.antt =====
-- The well-formed hash tables of lib/kernel/hash.c, seen as sets of elements, and the search in them.
use pintos_filesys.Base.{
  once, count, ℕ, ◌^◌, ◌<◌, ◌≡◌, refl, arith, ap, Bool, true, false, Option, none, some, List, [],
  ◌∷◌, length, if◌then◌else◌, ◌==◌, Bool-cases, inl, inr, Option-cases,
}
use pintos_filesys.HashTable.{Hash, find_bucket, equal, find_elem, bucket_at, hash_find}
use pintos_filesys.HashTable.Count.{count_all, total, count_all-one}
use pintos_filesys.HashTable.Words.{find_bucket-lt}

-- Each element `x` stands `c x` times in its own bucket, and in no other.
pub record IsPlaced (h : Hash) (c : ℕ → ℕ) : Type 0 where
  pub size : length h.buckets ≡ h.bucket_cnt
  pub positive : 0 < h.bucket_cnt
  pub bounded : h.bucket_cnt < 2 ^ 64
  pub place : (i x : ℕ) → count x (bucket_at h i) ≡ (if i == find_bucket h x then c x else 0)

-- The table holds exactly the elements that `p` holds of, each once and in its own bucket, no two of
-- them equal by `less`, and counts them right.
pub record IsTable (h : Hash) (p : ℕ → Bool) : Type 0 where
  pub placed : IsPlaced h (λ x. once (p x))
  pub amount : h.elem_cnt ≡ total h.buckets
  pub few : h.elem_cnt < 2 ^ 64
  pub unique : (x y : ℕ) → p x ≡ true → p y ≡ true → equal h x y ≡ true → x ≡ y

-- What the client's functions promise: to be equal by `less` is an equivalence, and equal elements
-- have one hash.
pub record Respects (h : Hash) : Type 0 where
  pub reflexive : (x : ℕ) → equal h x x ≡ true
  pub transitive : (x y z : ℕ) → equal h x y ≡ true → equal h y z ≡ true → equal h x z ≡ true
  pub same_hash : (x y : ℕ) → equal h x y ≡ true → h.hash x ≡ h.hash y

pub equal-sym : (h : Hash) (x y : ℕ) → equal h x y ≡ true → equal h y x ≡ true
equal-sym h x y e = ground (arith, e)

pub own_bucket :
    (h : Hash) (c : ℕ → ℕ) → IsPlaced h c → (x : ℕ) → find_bucket h x < length h.buckets
own_bucket h c w x = omega (arith, w.size, find_bucket-lt h x w.positive w.bounded)

pub count_all-IsPlaced :
    (h : Hash) (c : ℕ → ℕ) → IsPlaced h c → (x : ℕ) → count_all x h.buckets ≡ c x
count_all-IsPlaced h c w x =
    count_all-one x (find_bucket h x) (c x) h.buckets (own_bucket h c w x) λ i. w.place i x

-- What a search for an element equal to `e` among those of `p` gives.
unfoldable pub Found : Hash → (ℕ → Bool) → ℕ → Option ℕ → Type 0
Found h p e none = (x : ℕ) → p x ≡ true → equal h x e ≡ false
Found h p e (some x) = (p x ≡ true) × (equal h x e ≡ true)

find_elem-some :
    (h : Hash) (xs : List ℕ) (e x : ℕ)
    → find_elem h xs e ≡ some x
    → (0 < count x xs) × (equal h x e ≡ true)
unfolding find_elem count
find_elem-some h [] e x f = absurd (ground (arith, f))
find_elem-some h (y ∷ ys) e x f = ground (arith, f, find_elem-some h ys e x)

find_elem-none :
    (h : Hash) (xs : List ℕ) (e x : ℕ)
    → find_elem h xs e ≡ none
    → 0 < count x xs
    → equal h x e ≡ false
unfolding find_elem count
find_elem-none h [] e x f pos = absurd (omega arith)
find_elem-none h (y ∷ ys) e x f pos = ground (arith, f, pos, find_elem-none h ys e x)

same_bucket :
    (h : Hash) → Respects h → (x y : ℕ) → equal h x y ≡ true → find_bucket h x ≡ find_bucket h y
unfolding find_bucket
same_bucket h r x y e = rw (r.same_hash x y e) refl

-- `hash_find` returns an element of the table that is equal to the one asked for, and none only if
-- the table has no such element.
pub hash_find-Found :
    (h : Hash) (p : ℕ → Bool) → IsTable h p → Respects h → (e : ℕ) → Found h p e (hash_find h e)
unfolding Found hash_find
hash_find-Found h p w r e = elim (Option-cases (find_elem h (bucket_at h (find_bucket h e)) e)) [
  | inl out ↦ rw out (missing out)
  | inr (x, at) ↦ rw at (present x at)
]
  where
    present :
        (x : ℕ)
        → find_elem h (bucket_at h (find_bucket h e)) e ≡ some x
        → (p x ≡ true) × (equal h x e ≡ true)
    present x at =
        let (pos, same) = find_elem-some h (bucket_at h (find_bucket h e)) e x at in
        (ground (arith, pos, w.placed.place (find_bucket h e) x), same)

    missing :
        find_elem h (bucket_at h (find_bucket h e)) e ≡ none
        → (x : ℕ) → p x ≡ true
        → equal h x e ≡ false
    missing out x inside = elim (Bool-cases (equal h x e)) [
      | inl same ↦
          find_elem-none h (bucket_at h (find_bucket h e)) e x out
            (ground (arith, inside, same_bucket h r x e same, w.placed.place (find_bucket h e) x))
      | inr other ↦ other
    ]

-- Two searches with the same question and the same elements have one answer.
pub Found-unique :
    (h k : Hash) (p : ℕ → Bool)
    → h.less ≡ k.less
    → Respects h
    → IsTable h p
    → (e : ℕ) (a b : Option ℕ) → Found h p e a
    → Found k p e b
    → a ≡ b
unfolding Found
Found-unique h k p same r w e none none f g = refl
Found-unique h k p same r w e none (some y) f g =
    absurd (ground (arith, f y g.0, g.1, ap (λ l. l y e) same, ap (λ l. l e y) same))
Found-unique h k p same r w e (some x) none f g =
    absurd (ground (arith, g x f.0, f.1, ap (λ l. l x e) same, ap (λ l. l e x) same))
Found-unique h k p same r w e (some x) (some y) f g =
    let eq : equal h y e ≡ true = ground (arith, g.1, ap (λ l. l y e) same, ap (λ l. l e y) same) in
    ap some (w.unique x y f.0 g.0 (r.transitive x e y f.1 (equal-sym h y e eq)))
