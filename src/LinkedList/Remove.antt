-- ===== src/LinkedList/Remove.antt =====
-- lib/kernel/list.c, `list_remove` and what pops by it.
use pintos_filesys.Base.{
  ℕ, ◌≡◌, ◌≢◌, refl, arith, ◌∙◌, sym, true, false, ◌||◌, ◌&&◌, not, assert, ◌>>◌, ok, ap, Returns,
  Returns-bind, List, [], ◌∷◌, ◌++◌, ◌==◌, if◌then◌else◌, has, has-ne, subst,
}
use pintos_filesys.LinkedList.{
  Memory, Headers, unlinked, is_head, is_interior, list_next, list_remove, list_pop_front,
  list_front,
}
use pintos_filesys.LinkedList.Shape.{
  Links, Distinct, IsList, last_from, first_of, first_of-away, last_from-away, Links-prev,
  Links-next, Links-frame, Distinct-remove, Distinct-out, has-insert, interior-ok,
}

-- What the two assignments do, `r` being the element before and `b` the one behind.
record Unlinked (m : Memory) (b r : ℕ) (m' : Memory) : Type 0 where
  next : (a : ℕ) → (m' a).next ≡ (if a == r then b else (m a).next)
  prev : (a : ℕ) → (m' a).prev ≡ (if a == b then r else (m a).prev)

unlinked-Unlinked :
    (m : Memory) (b r e : ℕ)
    → (m e).prev ≡ r
    → (m e).next ≡ b
    → e ≢ r
    → Unlinked m b r (unlinked m e)
unlinked-Unlinked m b r e before after ne = record {
  next = λ a. ground (arith, before, after);
  prev = λ a. ground (arith, before, after);
}

module _ (m m' : Memory) (b r q : ℕ) (w : Unlinked m b r m') where
  Links-behind :
      (e : ℕ) (ys : List ℕ)
      → b ≡ first_of ys q
      → Links m e ys q
      → has r ys ≡ false
      → r ≢ q
      → has q ys ≡ false
      → Distinct ys
      → Links m' r ys q
  Links-behind e [] at s away rq qo d = (ground (arith, w.next r), ground (arith, w.prev q))
  Links-behind e (y ∷ ys) at (n, bk, s) away rq qo d = (
    ground (arith, w.next r),
    ground (arith, w.prev y),
    Links-frame m m' y ys q s (λ a h. ground (arith, w.next a, has-ne a r (y ∷ ys) h away))
        (λ a h. ground (arith, w.prev a, has-ne a y (q ∷ ys) h)),
  )

  Links-remove :
      (e p : ℕ) (xs ys : List ℕ)
      → b ≡ first_of ys q
      → r ≡ last_from p xs
      → Links m p (xs ++ e ∷ ys) q
      → has p (xs ++ ys) ≡ false
      → p ≢ q
      → has q (xs ++ ys) ≡ false
      → Distinct (xs ++ ys)
      → Links m' p (xs ++ ys) q
  Links-remove e p [] ys at from (n, bk, s) away pq qo d =
      subst (λ c. Links m' c ys q) from
        (Links-behind e ys at s (subst (λ c. has c ys ≡ false) (sym from) away)
          (λ z. pq (sym from ∙ z)) qo d)
  Links-remove e p (x ∷ xs) ys at from (n, bk, s) away pq qo (d0, d1, d2) = (
    ground (arith, w.next p, last_from-away p x xs ys away),
    ground (arith, w.prev x, first_of-away x xs ys q d1),
    Links-remove e x xs ys at from s d1 (ground arith) (ground arith) d2,
  )

-- Removing an element of a list returns the element or the end behind it, and the list then holds
-- the others in order.
pub list_remove-IsList :
    (m : Memory) (l : Headers) (xs ys : List ℕ) (e : ℕ)
    → IsList m l (xs ++ e ∷ ys)
    → Returns (λ (next, m'). (next ≡ first_of ys l.tail) × IsList m' l (xs ++ ys)) (list_remove e m)
unfolding list_remove
list_remove-IsList m l xs ys e v = rw (interior-ok m l xs e ys v) (
  ground (arith, w.next e, after),
  record {
    front = ground (arith, w.prev l.head, v.front, first_of-away l.head xs ys l.tail ho apart);
    back = ground (
      arith,
      w.next l.tail,
      v.back,
      last_from-away l.tail l.head xs ys (ground (arith, d.1, to)),
    );
    links = Links-remove m m' b r l.tail w e l.head xs ys refl refl v.links ho apart to ds;
    distinct = (d.0, ground (arith, d.1, ho), (d.2.0, to, ds));
  },
)
  where
    b : ℕ
    b = first_of ys l.tail

    r : ℕ
    r = last_from l.head xs

    m' : Memory
    m' = unlinked m e

    d : Distinct (l.head ∷ l.tail ∷ (xs ++ e ∷ ys))
    d = v.distinct

    ds : Distinct (xs ++ ys)
    ds = Distinct-remove e xs ys d.2.2

    apart : l.head ≢ l.tail
    apart z = absurd (ground (arith, d.1))

    after : (m e).next ≡ b
    after = Links-next m l.head e xs ys l.tail v.links

    ho : has l.head (xs ++ ys) ≡ false
    ho = ground (arith, d.1, has-insert l.head e xs ys)

    to : has l.tail (xs ++ ys) ≡ false
    to = ground (arith, d.2.1, has-insert l.tail e xs ys)

    er : e ≢ r
    er z = absurd (
        ground (
          arith,
          last_from-away e l.head xs ys
              (ground (arith, Distinct-out e xs ys d.2.2, d.1, has-insert l.head e xs ys)),
        ))

    w : Unlinked m b r m'
    w = unlinked-Unlinked m b r e (Links-prev m l.head xs (e ∷ ys) l.tail v.links) after er

own_next : (m : Memory) (e : ℕ) → (unlinked m e e).next ≡ (m e).next
own_next m e = ground arith

own_prev : (m : Memory) (e : ℕ) → (unlinked m e e).prev ≡ (m e).prev
own_prev m e = ground arith

-- The element that was removed still has its own links, so that `list_next` goes on from it.
pub list_remove-next :
    (m : Memory) (l : Headers) (xs ys : List ℕ) (e : ℕ)
    → IsList m l (xs ++ e ∷ ys)
    → Returns
        (λ (next, m'). (list_next m' e ≡ ok (first_of ys l.tail)) × IsList m' l (xs ++ ys))
        (list_remove e m)
unfolding list_next list_remove
list_remove-next m l xs ys e v =
    let removed : list_remove e m ≡ ok ((unlinked m e e).next, unlinked m e) = rw inner refl in
    let both : Returns P (ok ((unlinked m e e).next, unlinked m e)) =
      subst (Returns P) removed (list_remove-IsList m l xs ys e v) in
    rw inner (
      ap (λ b. assert b >> ok (unlinked m e e).next) still
          ∙ ap ok (own_next m e ∙ Links-next m l.head e xs ys l.tail v.links),
      both.1,
    )
  where
    P : ℕ × Memory → Type 0
    P (next, m') = (next ≡ first_of ys l.tail) × IsList m' l (xs ++ ys)

    inner : is_interior m e ≡ true
    inner = interior-ok m l xs e ys v

    still : (is_head (unlinked m e) e || is_interior (unlinked m e) e) ≡ true
    still =
        ap
          (λ (n : ℕ).
            (not (e == 0) && (unlinked m e e).prev == 0 && not (n == 0))
            || (not (e == 0) && not ((unlinked m e e).prev == 0) && not (n == 0)))
          (own_next m e)
        ∙ ap
            (λ (b : ℕ).
              (not (e == 0) && b == 0 && not ((m e).next == 0))
              || (not (e == 0) && not (b == 0) && not ((m e).next == 0)))
            (own_prev m e)
        ∙ ground (arith, inner)

-- Popping the front of a list that is not empty returns its first element; the rest stays.
pub list_pop_front-IsList :
    (m : Memory) (l : Headers) (x : ℕ) (xs : List ℕ)
    → IsList m l (x ∷ xs)
    → Returns (λ (front, m'). (front ≡ x) × IsList m' l xs) (list_pop_front l m)
unfolding list_pop_front list_front
list_pop_front-IsList m l x xs v =
    rw (v.links.0, filled)
      (Returns-bind (λ (next, m'). (next ≡ first_of xs l.tail) × IsList m' l xs) _ (list_remove x m)
        _ (list_remove-IsList m l [] xs x v) λ (next, m') (e, w). (refl, w))
  where
    filled : (x == l.tail) ≡ false
    filled = ground (arith, v.distinct.2.1)
