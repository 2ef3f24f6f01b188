-- ===== src/HashTable/Operations.antt =====
-- lib/kernel/hash.c, the operations that change a table, as operations on the set of its elements.
use pintos_filesys.Base.{
  ℕ, ◌+◌, ◌^◌, ◌<◌, ◌≡◌, refl, arith, sym, ◌∙◌, Bool, true, false, ok, ◌>>=◌, Returns, Returns-bind,
  Option, none, some, Bool-cases, inl, inr,
}
use pintos_filesys.HashTable.{
  Hash, find_bucket, find_elem, bucket_at, equal, insert_elem, remove_elem, rehash, hash_find,
  hash_insert, hash_replace, hash_delete, hash_init, hash_clear,
}
use pintos_filesys.HashTable.Count.{length-empty_buckets, total-empty_buckets, count-empty_buckets}
use pintos_filesys.HashTable.Shape.{IsTable, Respects, Found, hash_find-Found, equal-sym}
use pintos_filesys.HashTable.Rehash.{Rehashed, rehash-Rehashed}
use pintos_filesys.HashTable.Elements.{
  with_elem, without_elem, insert_elem-IsTable, left_over, remove_elem-IsTable,
}

-- What a call for `e` on the table `h` with the elements `p` returns: the element that is equal to
-- `e`, and a table with the functions of `h` and the elements that `after` tells of it.
pub record Result (h : Hash) (p : ℕ → Bool) (e : ℕ) (after : Option ℕ → ℕ → Bool)
    (r : Option ℕ × Hash) : Type 0 where
  pub found : Found h p e r.0
  pub table : IsTable r.1 (after r.0)
  pub hash : r.1.hash ≡ h.hash
  pub less : r.1.less ≡ h.less

Rehashed-Result :
    (memory : Bool) (h k : Hash) (p : ℕ → Bool) (e : ℕ) (after : Option ℕ → ℕ → Bool)
    (old : Option ℕ)
    → Found h p e old
    → IsTable k (after old)
    → k.hash ≡ h.hash
    → k.less ≡ h.less
    → Returns (Result h p e after) (rehash memory k >>= λ k'. ok (old, k'))
Rehashed-Result memory h k p e after old f w hash less =
    Returns-bind (Rehashed k (after old)) (Result h p e after) (rehash memory k)
      (λ k'. ok (old, k')) (rehash-Rehashed memory k (after old) w)
      λ k' s. record { found = f; table = s.table; hash = s.hash ∙ hash; less = s.less ∙ less }

abbrev pub inserted : (ℕ → Bool) → ℕ → Option ℕ → ℕ → Bool
inserted p e none = with_elem p e
inserted p e (some x) = p

abbrev pub replaced : (ℕ → Bool) → ℕ → Option ℕ → ℕ → Bool
replaced p e none = with_elem p e
replaced p e (some x) = with_elem (without_elem p x) e

abbrev pub deleted : (ℕ → Bool) → Option ℕ → ℕ → Bool
deleted p none = p
deleted p (some x) = without_elem p x

-- A well-formed table with room, and an element that is not in it.
pub record Insertable (h : Hash) (p : ℕ → Bool) (e : ℕ) : Type 0 where
  pub table : IsTable h p
  pub respects : Respects h
  pub outside : p e ≡ false
  pub room : h.elem_cnt + 1 < 2 ^ 64

-- `hash_insert` ends and returns the element equal to the new one that the table had. The new one is
-- in the table afterwards if there was none, and otherwise the table keeps its elements.
pub hash_insert-Result :
    (memory : Bool) (h : Hash) (p : ℕ → Bool) (e : ℕ)
    → Insertable h p e
    → Returns (Result h p e (inserted p e)) (hash_insert memory e h)
unfolding hash_insert hash_find Found insert_elem
hash_insert-Result memory h p e v =
    go (hash_find h e) refl (hash_find-Found h p v.table v.respects e)
  where
    go :
        (old : Option ℕ)
        → hash_find h e ≡ old
        → Found h p e old
        → Returns (Result h p e (inserted p e)) (hash_insert memory e h)
    go none at f = rw at (
        Rehashed-Result memory h (insert_elem (find_bucket h e) e h) p e (inserted p e) none f
          (insert_elem-IsTable h p e v.table v.outside f v.room) refl refl)
    go (some x) at f =
        rw at (Rehashed-Result memory h h p e (inserted p e) (some x) f v.table refl refl)

-- `hash_delete` ends and returns the element that is equal to the given one, and the table has all
-- others afterwards.
pub hash_delete-Result :
    (memory : Bool) (h : Hash) (p : ℕ → Bool) (e : ℕ)
    → IsTable h p
    → Respects h
    → Returns (Result h p e (deleted p)) (hash_delete memory e h)
unfolding hash_delete hash_find Found remove_elem
hash_delete-Result memory h p e w r = go (hash_find h e) refl (hash_find-Found h p w r e)
  where
    go :
        (old : Option ℕ)
        → hash_find h e ≡ old
        → Found h p e old
        → Returns (Result h p e (deleted p)) (hash_delete memory e h)
    go none at f =
        let e' : find_elem h (bucket_at h (find_bucket h e)) e ≡ none = at in
        rw (hash_delete, e') (record { found = f; table = w; hash = refl; less = refl })
    go (some x) at f =
        let e' : find_elem h (bucket_at h (find_bucket h e)) e ≡ some x = at in
        rw (hash_delete, e')
          (Rehashed-Result memory h (remove_elem x h) p e (deleted p) (some x) f
            (remove_elem-IsTable h p x w f.0) refl refl)

-- Without the element that was found no other is equal to the one asked for.
others-differ :
    (h : Hash) (p : ℕ → Bool) (e x : ℕ)
    → IsTable h p
    → Respects h
    → p x ≡ true
    → equal h x e ≡ true
    → (y : ℕ) → without_elem p x y ≡ true
    → equal h y e ≡ false
unfolding without_elem
others-differ h p e x w r inside same y left = elim (Bool-cases (equal h y e)) [
  | inl hit ↦
      let one : y ≡ x =
        w.unique y x (ground (arith, left)) inside
          (r.transitive y e x hit (equal-sym h x e same)) in
      absurd (ground (arith, left, one))
  | inr miss ↦ miss
]

-- `hash_replace` ends and returns the element equal to the new one that the table had. The new one is
-- in its place afterwards.
pub hash_replace-Result :
    (memory : Bool) (h : Hash) (p : ℕ → Bool) (e : ℕ)
    → Insertable h p e
    → Returns (Result h p e (replaced p e)) (hash_replace memory e h)
unfolding hash_replace hash_find Found insert_elem remove_elem without_elem find_bucket
hash_replace-Result memory h p e v =
    go (hash_find h e) refl (hash_find-Found h p v.table v.respects e)
  where
    go :
        (old : Option ℕ)
        → hash_find h e ≡ old
        → Found h p e old
        → Returns (Result h p e (replaced p e)) (hash_replace memory e h)
    go none at f = rw at (
        Rehashed-Result memory h (insert_elem (find_bucket h e) e h) p e (replaced p e) none f
          (insert_elem-IsTable h p e v.table v.outside f v.room) refl refl)
    go (some x) at f =
        let rest = remove_elem x h in
        let w = remove_elem-IsTable h p x v.table f.0 in
        rw at (
          Rehashed-Result memory h (insert_elem (find_bucket h e) e rest) p e (replaced p e)
            (some x) f
            (insert_elem-IsTable rest (without_elem p x) e w (ground (arith, v.outside))
              (others-differ h p e x v.table v.respects f.0 f.1)
              (omega (arith, left_over h p x v.table f.0, v.room)))
            refl refl)

-- A table that malloc gave memory for is well-formed and empty.
pub hash_init-IsTable :
    (hash : ℕ → ℕ) (less : ℕ → ℕ → Bool) → IsTable (hash_init true hash less).1 (λ x. false)
unfolding hash_init hash_clear
hash_init-IsTable hash less = record {
  placed = record {
    size = length-empty_buckets 4;
    positive = omega arith;
    bounded = omega arith;
    place = λ i x. ground (arith, count-empty_buckets 4 i x);
  };
  amount = sym (total-empty_buckets 4);
  few = omega arith;
  unique = λ x y hx hy eq. absurd (ground (arith, hx));
}
