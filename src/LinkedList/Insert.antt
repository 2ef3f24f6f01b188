-- ===== src/LinkedList/Insert.antt =====
-- lib/kernel/list.c, `list_insert` and what pushes by it.
use pintos_filesys.Base.{
  ℕ, ◌≡◌, ◌≢◌, refl, arith, ◌∙◌, sym, false, Returns, List, [], ◌∷◌, ◌++◌, ◌==◌, if◌then◌else◌, has,
  has-ne, ne→not_==, subst,
}
use mathlib.Core.List.{append-nil}
use pintos_filesys.LinkedList.{
  Memory, Headers, inserted, list_insert, list_push_front, list_push_back,
}
use pintos_filesys.LinkedList.Shape.{
  Links, Distinct, IsList, last_from, first_of, Links-first, first_of-away, last_from-away,
  Links-prev, Links-frame, Distinct-insert, has-insert, before-ok,
}

-- What the four assignments do, `r` being the element before `b`.
record Inserted (m : Memory) (b r e : ℕ) (m' : Memory) : Type 0 where
  next : (a : ℕ) → (m' a).next ≡ (if a == r then e else if a == e then b else (m a).next)
  prev : (a : ℕ) → (m' a).prev ≡ (if a == b then e else if a == e then r else (m a).prev)

inserted-Inserted :
    (m : Memory) (b r e : ℕ) → (m b).prev ≡ r → e ≢ b → e ≢ r → Inserted m b r e (inserted m b e)
inserted-Inserted m b r e before ne nr = record {
  next = λ a. ground (arith, before);
  prev = λ a. ground (arith, before);
}

module _ (m m' : Memory) (b r e q : ℕ) (w : Inserted m b r e m') (nq : e ≢ q) (nb : e ≢ b)
    (nr : e ≢ r) where
  -- Behind the place nothing changes but the link back.
  Links-after :
      (ys : List ℕ)
      → b ≡ first_of ys q
      → Links m r ys q
      → has e ys ≡ false
      → has r ys ≡ false
      → r ≢ q
      → has q ys ≡ false
      → Distinct ys
      → Links m' e ys q
  Links-after [] at s out away rq qo d = (ground (arith, w.next e), ground (arith, w.prev q))
  Links-after (y ∷ ys) at (n, bk, s) out away rq qo d = (
    ground (arith, w.next e),
    ground (arith, w.prev y),
    Links-frame m m' y ys q s
        (λ a h.
          let f = has-ne a r (y ∷ ys) h away in
          let g = has-ne a e (y ∷ ys) h out in ground (arith, w.next a, f, g))
        (λ a h. ground (arith, w.prev a, has-ne a y (q ∷ ys) h, has-ne a e (q ∷ ys) h)),
  )

  Links-insert :
      (p : ℕ) (xs ys : List ℕ)
      → b ≡ first_of ys q
      → r ≡ last_from p xs
      → Links m p (xs ++ ys) q
      → has e (xs ++ ys) ≡ false
      → has p (xs ++ ys) ≡ false
      → p ≢ q
      → p ≢ e
      → has q (xs ++ ys) ≡ false
      → Distinct (xs ++ ys)
      → Links m' p (xs ++ e ∷ ys) q
  Links-insert p [] ys at from s out away pq pe qo d = (
    ground (arith, w.next p),
    ground (arith, w.prev e),
    Links-after ys at (subst (λ c. Links m c ys q) (sym from) s) out
        (subst (λ c. has c ys ≡ false) (sym from) away) (λ z. pq (sym from ∙ z)) qo d,
  )
  Links-insert p (x ∷ xs) ys at from (n, bk, s) out away pq pe qo (d0, d1, d2) = (
    ground (arith, w.next p, last_from-away p x xs ys away),
    ground (arith, w.prev x, first_of-away x xs ys q d1),
    Links-insert x xs ys at from s (ground arith) d1 (ground arith) (ground arith) (ground arith)
        d2,
  )

-- An address outside a list.
pub record IsFresh (l : Headers) (xs : List ℕ) (e : ℕ) : Type 0 where
  pub not_null : e ≢ 0
  pub not_head : e ≢ l.head
  pub not_tail : e ≢ l.tail
  pub not_in : has e xs ≡ false

-- Inserting an element that is not in the list before the element or the end that follows `xs`
-- returns, and the list then holds `xs`, the element, and what followed.
pub list_insert-IsList :
    (m : Memory) (l : Headers) (xs ys : List ℕ) (e : ℕ)
    → IsList m l (xs ++ ys)
    → IsFresh l (xs ++ ys) e
    → Returns (λ m'. IsList m' l (xs ++ e ∷ ys)) (list_insert (first_of ys l.tail) e m)
unfolding list_insert
list_insert-IsList m l xs ys e v f =
    rw (before-ok m l xs ys v, ne→not_== e 0 f.not_null)
      (record {
        front = ground (arith, w.prev l.head, first_of-away l.head xs ys l.tail, v.front);
        back = ground (
          arith,
          w.next l.tail,
          v.back,
          last_from-away l.tail l.head xs ys (ground (arith, d.1, d.2.1)),
          f.not_tail,
        );
        links =
            Links-insert m m' b r e l.tail w f.not_tail eb er l.head xs ys refl refl v.links
              f.not_in (ground (arith, d.1)) apart (λ z. f.not_head (sym z)) d.2.1 d.2.2;
        distinct = (
          d.0,
          ground (arith, d.1, has-insert l.head e xs ys, f.not_head),
          (
            d.2.0,
            ground (arith, d.2.1, has-insert l.tail e xs ys, f.not_tail),
            Distinct-insert e xs ys f.not_null f.not_in d.2.2,
          ),
        );
      })
  where
    b : ℕ
    b = first_of ys l.tail

    r : ℕ
    r = last_from l.head xs

    m' : Memory
    m' = inserted m b e

    d : Distinct (l.head ∷ l.tail ∷ (xs ++ ys))
    d = v.distinct

    apart : l.head ≢ l.tail
    apart z = absurd (ground (arith, d.1))

    eb : e ≢ b
    eb = λ z. absurd (ground (arith, first_of-away e xs ys l.tail f.not_in f.not_tail))

    er : e ≢ r
    er = λ z.
        absurd
          (ground (arith, last_from-away e l.head xs ys (ground (arith, f.not_head, f.not_in))))

    w : Inserted m b r e m'
    w = inserted-Inserted m b r e (Links-prev m l.head xs ys l.tail v.links) eb er

-- Pushing at the end.
pub list_push_back-IsList :
    (m : Memory) (l : Headers) (xs : List ℕ) (e : ℕ)
    → IsList m l xs
    → IsFresh l xs e
    → Returns (λ m'. IsList m' l (xs ++ e ∷ [])) (list_push_back l e m)
unfolding list_push_back
list_push_back-IsList m l xs e v f =
    list_insert-IsList m l xs [] e (subst (IsList m l) (sym (append-nil xs)) v)
      (subst (λ zs. IsFresh l zs e) (sym (append-nil xs)) f)

-- Pushing at the front.
pub list_push_front-IsList :
    (m : Memory) (l : Headers) (xs : List ℕ) (e : ℕ)
    → IsList m l xs
    → IsFresh l xs e
    → Returns (λ m'. IsList m' l (e ∷ xs)) (list_push_front l e m)
unfolding list_push_front
list_push_front-IsList m l xs e v f =
    subst (λ b. Returns (λ m'. IsList m' l (e ∷ xs)) (list_insert b e m))
      (sym (Links-first m l.head xs l.tail v.links)) (list_insert-IsList m l [] xs e v f)
