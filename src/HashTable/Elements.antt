-- ===== src/HashTable/Elements.antt =====
-- lib/kernel/hash.c, `insert_elem` and `remove_elem` on the set of a table's elements.
use pintos_filesys.Base.{
  once, ℕ, ◌+◌, ◌^◌, ◌<◌, ◌≡◌, refl, arith, ap, sym, ◌∙◌, Bool, true, false, not, ◌&&◌, ◌||◌, ◌⊎◌,
  if◌then◌else◌, ◌==◌, inl, inr, wrap64,
}
use mathlib.Core.Bool.{false≢true}
use pintos_filesys.HashTable.{
  Hash, find_bucket, equal, push_at, unlink_all, insert_elem, remove_elem,
}
use pintos_filesys.HashTable.Count.{total, length-unlink_all, count-unlink_all, total-unlink_all}
use pintos_filesys.HashTable.Shape.{IsPlaced, IsTable, count_all-IsPlaced, equal-sym}
use pintos_filesys.HashTable.Rehash.{push-Moved, Moved}

-- The set with one more element.
unfoldable pub with_elem : (ℕ → Bool) → ℕ → ℕ → Bool
with_elem p e x = p x || e == x

-- The set with one element less.
unfoldable pub without_elem : (ℕ → Bool) → ℕ → ℕ → Bool
without_elem p e x = p x && not (e == x)

recounted-IsPlaced :
    (h : Hash) (c d : ℕ → ℕ) (n : ℕ)
    → IsPlaced h c
    → ((x : ℕ) → d x ≡ c x)
    → IsPlaced (record h { elem_cnt = n }) d
unfolding find_bucket
recounted-IsPlaced h c d n w same = record {
  size = w.size;
  positive = w.positive;
  bounded = w.bounded;
  place = λ i x. rw (same x) (w.place i x);
}

-- The element of `with_elem p e`: one of `p`, or `e` itself.
with_elem-cases : (p : ℕ → Bool) (e x : ℕ) → with_elem p e x ≡ true → (p x ≡ true) ⊎ (e ≡ x)
unfolding with_elem
with_elem-cases p e x h = ground (arith, h)

with_elem_unique :
    (h : Hash) (p : ℕ → Bool) (e : ℕ)
    → IsTable h p
    → ((x : ℕ) → p x ≡ true → equal h x e ≡ false)
    → (x y : ℕ) → with_elem p e x ≡ true
    → with_elem p e y ≡ true
    → equal h x y ≡ true
    → x ≡ y
with_elem_unique h p e w other x y hx hy eq = elim (with_elem-cases p e x hx) [
  | inl px ↦ elim (with_elem-cases p e y hy) [
    | inl py ↦ w.unique x y px py eq
    | inr ey ↦ absurd (false≢true (sym (other x px) ∙ ap (λ z. equal h x z) ey ∙ eq))
  ]
  | inr ex ↦ elim (with_elem-cases p e y hy) [
    | inl py ↦
        absurd (false≢true (sym (other y py) ∙ ap (λ z. equal h y z) ex ∙ equal-sym h x y eq))
    | inr ey ↦ sym ex ∙ ey
  ]
]

pub insert_elem-IsTable :
    (h : Hash) (p : ℕ → Bool) (e : ℕ)
    → IsTable h p
    → p e ≡ false
    → ((x : ℕ) → p x ≡ true → equal h x e ≡ false)
    → h.elem_cnt + 1 < 2 ^ 64
    → IsTable (insert_elem (find_bucket h e) e h) (with_elem p e)
unfolding insert_elem with_elem
insert_elem-IsTable h p e w out other room = record {
  placed =
      recounted-IsPlaced pushed c' (λ x. once (p x || e == x)) (wrap64 (h.elem_cnt + 1)) m.placed
        (λ x. step x);
  amount = omega (arith, m.amount, w.amount);
  few = omega arith;
  unique = λ x y hx hy eq. with_elem_unique h p e w other x y hx hy eq;
}
  where
    pushed : Hash
    pushed = record h { buckets = push_at (find_bucket h e) e h.buckets }

    c' : ℕ → ℕ
    c' x = once (p x) + (if e == x then 1 else 0)

    m : Moved h c' 1 pushed
    m = push-Moved h (λ x. once (p x)) c' e w.placed λ x. refl

    step : (x : ℕ) → once (p x || e == x) ≡ once (p x) + (if e == x then 1 else 0)
    step x = ground (arith, out)

-- A table with an element counts at least one.
pub left_over :
    (h : Hash) (p : ℕ → Bool) (e : ℕ)
    → IsTable h p
    → p e ≡ true
    → total (unlink_all e h.buckets) + 1 ≡ h.elem_cnt
left_over h p e w inside = ground (
  arith,
  total-unlink_all e h.buckets,
  count_all-IsPlaced h (λ x. once (p x)) w.placed e,
  inside,
  w.amount,
)

pub remove_elem-IsTable :
    (h : Hash) (p : ℕ → Bool) (e : ℕ)
    → IsTable h p
    → p e ≡ true
    → IsTable (remove_elem e h) (without_elem p e)
unfolding remove_elem without_elem find_bucket
remove_elem-IsTable h p e w inside = record {
  placed = record {
    size = length-unlink_all e h.buckets ∙ w.placed.size;
    positive = w.placed.positive;
    bounded = w.placed.bounded;
    place = λ i x. ground (arith, count-unlink_all e x i h.buckets, w.placed.place i x);
  };
  amount = omega (arith, left_over h p e w inside, w.few);
  few = omega arith;
  unique = λ x y hx hy eq. w.unique x y (ground (arith, hx)) (ground (arith, hy)) eq;
}
