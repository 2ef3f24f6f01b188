-- ===== src/LinkedList/Shape.antt =====
-- lib/kernel/list.c: what it means that a list holds elements, in order.
use pintos_filesys.Base.{
  ℕ, ◌≡◌, ◌≢◌, refl, arith, ◌∙◌, sym, true, false, ◌||◌, List, [], ◌∷◌, ◌++◌, ◌==◌, has, has-append,
  ne→not_==,
}
use pintos_filesys.LinkedList.{Memory, Headers, is_interior, is_tail, list_init}

-- From `p` the links in both directions lead through `xs` to `q`.
abbrev pub Links : Memory → ℕ → List ℕ → ℕ → Type 0
Links m p [] q = ((m p).next ≡ q) × ((m q).prev ≡ p)
Links m p (x ∷ xs) q = ((m p).next ≡ x) × ((m x).prev ≡ p) × Links m x xs q

-- Distinct addresses, none of them null.
abbrev pub Distinct : List ℕ → Type 0
Distinct [] = Unit
Distinct (x ∷ xs) = (x ≢ 0) × (has x xs ≡ false) × Distinct xs

-- The list with these headers holds the elements `xs`.
pub record IsList (m : Memory) (l : Headers) (xs : List ℕ) : Type 0 where
  pub front : (m l.head).prev ≡ 0
  pub back : (m l.tail).next ≡ 0
  pub links : Links m l.head xs l.tail
  pub distinct : Distinct (l.head ∷ l.tail ∷ xs)

abbrev pub last_from : ℕ → List ℕ → ℕ
last_from p [] = p
last_from p (x ∷ xs) = last_from x xs

abbrev pub first_of : List ℕ → ℕ → ℕ
first_of [] q = q
first_of (x ∷ xs) q = x

pub first_of-away :
    (a : ℕ) (xs ys : List ℕ) (q : ℕ)
    → has a (xs ++ ys) ≡ false
    → a ≢ q
    → (a == first_of ys q) ≡ false
first_of-away a xs [] q h ne = ne→not_== a q ne
first_of-away a xs (y ∷ ys) q h ne = ground (arith, has-append a xs (y ∷ ys))

pub last_from-away :
    (a x : ℕ) (xs ys : List ℕ) → has a (x ∷ xs ++ ys) ≡ false → (a == last_from x xs) ≡ false
last_from-away a x [] ys h = ground arith
last_from-away a x (y ∷ xs) ys h = last_from-away a y xs ys (ground arith)

-- The element before a place.
pub Links-prev :
    (m : Memory) (p : ℕ) (xs ys : List ℕ) (q : ℕ)
    → Links m p (xs ++ ys) q
    → (m (first_of ys q)).prev ≡ last_from p xs
Links-prev m p [] [] q s = s.1
Links-prev m p [] (y ∷ ys) q s = s.1
Links-prev m p (x ∷ xs) ys q (n, b, s) = Links-prev m x xs ys q s

-- The links see `next` of all but the last, and `prev` of all but the first.
pub Links-frame :
    (m m' : Memory) (p : ℕ) (xs : List ℕ) (q : ℕ)
    → Links m p xs q
    → ((a : ℕ) → has a (p ∷ xs) ≡ true → (m' a).next ≡ (m a).next)
    → ((a : ℕ) → has a (q ∷ xs) ≡ true → (m' a).prev ≡ (m a).prev)
    → Links m' p xs q
Links-frame m m' p [] q (n, b) fn fp = (fn p (ground arith) ∙ n, fp q (ground arith) ∙ b)
Links-frame m m' p (x ∷ xs) q (n, b, s) fn fp = (
  fn p (ground arith) ∙ n,
  fp x (ground arith) ∙ b,
  Links-frame m m' x xs q s (λ a h. fn a (ground arith)) (λ a h. fp a (ground arith)),
)

last_from-ne : (p : ℕ) (xs : List ℕ) → p ≢ 0 → Distinct xs → last_from p xs ≢ 0
last_from-ne p [] ne d = ne
last_from-ne p (x ∷ xs) ne (a, o, d) = last_from-ne x xs a d

Distinct-left : (xs ys : List ℕ) → Distinct (xs ++ ys) → Distinct xs
Distinct-left [] ys d = tt
Distinct-left (x ∷ xs) ys (a, o, d) = (a, ground (arith, has-append x xs ys), Distinct-left xs ys d)

Distinct-right : (xs ys : List ℕ) → Distinct (xs ++ ys) → Distinct ys
Distinct-right [] ys d = d
Distinct-right (x ∷ xs) ys (a, o, d) = Distinct-right xs ys d

pub Distinct-insert :
    (e : ℕ) (xs ys : List ℕ)
    → e ≢ 0
    → has e (xs ++ ys) ≡ false
    → Distinct (xs ++ ys)
    → Distinct (xs ++ e ∷ ys)
Distinct-insert e [] ys ne out d = (ne, out, d)
Distinct-insert e (x ∷ xs) ys ne out (a, o, d) = (
  a,
  ground (arith, has-append x xs ys, has-append x xs (e ∷ ys)),
  Distinct-insert e xs ys ne (ground arith) d,
)

pub Distinct-remove : (e : ℕ) (xs ys : List ℕ) → Distinct (xs ++ e ∷ ys) → Distinct (xs ++ ys)
Distinct-remove e [] ys (a, o, d) = d
Distinct-remove e (x ∷ xs) ys (a, o, d) =
    (a, ground (arith, has-append x xs ys, has-append x xs (e ∷ ys)), Distinct-remove e xs ys d)

pub Distinct-out : (e : ℕ) (xs ys : List ℕ) → Distinct (xs ++ e ∷ ys) → has e (xs ++ ys) ≡ false
Distinct-out e [] ys d = d.1
Distinct-out e (x ∷ xs) ys d =
    ground (arith, Distinct-out e xs ys d.2, has-append x xs (e ∷ ys), d.1)

pub Distinct-tail : (a e : ℕ) (xs ys : List ℕ) → has a (xs ++ e ∷ ys) ≡ false → (e == a) ≡ false
Distinct-tail a e xs ys h = ground (arith, has-append a xs (e ∷ ys))

pub has-insert : (a e : ℕ) (xs ys : List ℕ) → has a (xs ++ e ∷ ys) ≡ ((a == e) || has a (xs ++ ys))
has-insert a e xs ys = ground (arith, has-append a xs (e ∷ ys), has-append a xs ys)

-- `list_init` makes an empty list of two distinct headers.
pub list_init-IsList :
    (l : Headers) (m : Memory)
    → l.head ≢ 0
    → l.tail ≢ 0
    → l.head ≢ l.tail
    → IsList (list_init l m) l []
unfolding list_init
list_init-IsList l m h t ne = record {
  front = ground arith;
  back = ground arith;
  links = (ground arith, ground arith);
  distinct = (h, ground arith, (t, refl, tt));
}

pub Links-first :
    (m : Memory) (p : ℕ) (ys : List ℕ) (q : ℕ) → Links m p ys q → (m p).next ≡ first_of ys q
Links-first m p [] q s = s.0
Links-first m p (y ∷ ys) q s = s.0

-- The element after another.
pub Links-next :
    (m : Memory) (p e : ℕ) (xs ys : List ℕ) (q : ℕ)
    → Links m p (xs ++ e ∷ ys) q
    → (m e).next ≡ first_of ys q
Links-next m p e [] [] q s = s.2.0
Links-next m p e [] (y ∷ ys) q s = s.2.0
Links-next m p e (x ∷ xs) ys q (n, b, s) = Links-next m x e xs ys q s

first_of-ne : (ys : List ℕ) (q : ℕ) → q ≢ 0 → Distinct ys → first_of ys q ≢ 0
first_of-ne [] q ne d = ne
first_of-ne (y ∷ ys) q ne (a, o, d) = a

module _ (m : Memory) (l : Headers) (xs : List ℕ) where
  prev-ne : (ys : List ℕ) → IsList m l (xs ++ ys) → (m (first_of ys l.tail)).prev ≢ 0
  prev-ne ys v z =
      last_from-ne l.head xs v.distinct.0 (Distinct-left xs ys v.distinct.2.2)
        (sym (Links-prev m l.head xs ys l.tail v.links) ∙ z)

  -- A place in a list, before its end or an element, is one that `list_insert` takes.
  pub before-ok :
      (ys : List ℕ)
      → IsList m l (xs ++ ys)
      → (is_interior m (first_of ys l.tail) || is_tail m (first_of ys l.tail)) ≡ true
  before-ok ys v =
      let ne = first_of-ne ys l.tail v.distinct.2.0 (Distinct-right xs ys v.distinct.2.2) in
      let pr = prev-ne ys v in ground (arith, ne, pr)

  -- An element of a list is an interior one.
  pub interior-ok : (e : ℕ) (ys : List ℕ) → IsList m l (xs ++ e ∷ ys) → is_interior m e ≡ true
  interior-ok e ys v =
      let d = Distinct-right xs (e ∷ ys) v.distinct.2.2 in
      let after : (m e).next ≢ 0 = λ z.
        first_of-ne ys l.tail v.distinct.2.0 d.2
          (sym (Links-next m l.head e xs ys l.tail v.links) ∙ z) in
      let pr = prev-ne (e ∷ ys) v in ground (arith, d.0, pr, after)
