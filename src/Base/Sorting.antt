-- ===== src/Base/Sorting.antt =====
-- Lists in an order given by a test `less`.
use Prim.Native.Nat.{ℕ, ◌+◌, ◌≤◌, ◌<◌}
use mathlib.Core.Path.{◌≡◌, refl, ap, subst}
use mathlib.Core.Logic.{inl, inr}
use mathlib.Core.Bool.{Bool, true, false}
use mathlib.Core.List.{List, [], ◌∷◌}
use native.Mathlib.Omega.{arith}
use pintos_filesys.Base.Tests.{if◌then◌else◌, ltb, Bool-cases}
use pintos_filesys.Base.Count.{count}

module _ {ℓ} {A : Type ℓ} (less : A → A → Bool) where
  -- The list with an element before the first that it is less than.
  abbrev pub insert_sorted : A → List A → List A
  insert_sorted e [] = e ∷ []
  insert_sorted e (y ∷ ys) = if less e y then e ∷ y ∷ ys else y ∷ insert_sorted e ys

  abbrev pub sort_into : List A → List A → List A
  sort_into sorted [] = sorted
  sort_into sorted (x ∷ xs) = sort_into (insert_sorted x sorted) xs

  -- The list in order, elements of which none is less than the other in the order they came in.
  abbrev pub stable_sort : List A → List A
  stable_sort xs = sort_into [] xs

  -- No element is less than the one before it.
  abbrev pub Sorted : List A → Type 0
  Sorted [] = Unit
  Sorted (x ∷ []) = Unit
  Sorted (x ∷ y ∷ ys) = (less y x ≡ false) × Sorted (y ∷ ys)

  module _ (asym : (a b : A) → less a b ≡ true → less b a ≡ false) where
    pub insert_sorted-Sorted : (e : A) (xs : List A) → Sorted xs → Sorted (insert_sorted e xs)
    insert_sorted-Sorted e [] s = tt
    insert_sorted-Sorted e (x ∷ []) s = elim (Bool-cases (less e x)) [
      | inl lt ↦ rw lt (asym e x lt, tt)
      | inr ge ↦ rw ge (ge, tt)
    ]
    insert_sorted-Sorted e (x ∷ y ∷ ys) (o, s) = elim (Bool-cases (less e x)) [
      | inl lt ↦ rw lt (asym e x lt, (o, s))
      | inr ge ↦ rw ge (elim (Bool-cases (less e y)) [
        | inl lt ↦ rw lt (ge, (asym e y lt, s))
        | inr more ↦ rw more (
          o,
          subst (λ b. Sorted (if b then e ∷ y ∷ ys else y ∷ insert_sorted e ys)) more
              (insert_sorted-Sorted e (y ∷ ys) s),
        )
      ])
    ]

    pub sort_into-Sorted : (sorted xs : List A) → Sorted sorted → Sorted (sort_into sorted xs)
    sort_into-Sorted sorted [] s = s
    sort_into-Sorted sorted (x ∷ xs) s =
        sort_into-Sorted (insert_sorted x sorted) xs (insert_sorted-Sorted x sorted s)

-- How many elements pass the test.
unfoldable pub amount {ℓ} : {A : Type ℓ} → (A → Bool) → List A → ℕ
amount f [] = 0
amount f (x ∷ xs) = amount f xs + (if f x then 1 else 0)

module _ {ℓ} {A : Type ℓ} (less : A → A → Bool) (f : A → Bool) where
  amount-insert_sorted :
      (e : A) (xs : List A) → amount f (insert_sorted less e xs) ≡ amount f (e ∷ xs)
  unfolding amount
  amount-insert_sorted e [] = refl
  amount-insert_sorted e (y ∷ ys) = ground (arith, amount-insert_sorted e ys)

  amount-sort_into :
      (sorted xs : List A) → amount f (sort_into less sorted xs) ≡ amount f sorted + amount f xs
  unfolding amount
  amount-sort_into sorted [] = omega arith
  amount-sort_into sorted (y ∷ ys) =
      omega
        (arith, amount-sort_into (insert_sorted less y sorted) ys, amount-insert_sorted y sorted)

  pub amount-stable_sort : (xs : List A) → amount f (stable_sort less xs) ≡ amount f xs
  unfolding amount
  amount-stable_sort xs = omega (arith, amount-sort_into [] xs)

pub count-insert_sorted :
    (less : ℕ → ℕ → Bool) (e x : ℕ) (xs : List ℕ)
    → count x (insert_sorted less e xs) ≡ count x (e ∷ xs)
unfolding count
count-insert_sorted less e x [] = refl
count-insert_sorted less e x (y ∷ ys) = ground (arith, count-insert_sorted less e x ys)

count-sort_into :
    (less : ℕ → ℕ → Bool) (x : ℕ) (sorted xs : List ℕ)
    → count x (sort_into less sorted xs) ≡ count x sorted + count x xs
unfolding count
count-sort_into less x sorted [] = omega arith
count-sort_into less x sorted (y ∷ ys) = omega (
  arith,
  count-sort_into less x (insert_sorted less y sorted) ys,
  count-insert_sorted less y x sorted,
)

pub count-stable_sort :
    (less : ℕ → ℕ → Bool) (x : ℕ) (xs : List ℕ) → count x (stable_sort less xs) ≡ count x xs
unfolding count
count-stable_sort less x xs = omega (arith, count-sort_into less x [] xs)

-- By descending keys.
abbrev pub by_key {ℓ} : {A : Type ℓ} → (A → ℕ) → A → A → Bool
by_key key a b = ltb (key b) (key a)

abbrev pub max : ℕ → ℕ → ℕ
max a b = if ltb a b then b else a

-- The highest key, 0 of an empty list.
unfoldable pub maximum {ℓ} : {A : Type ℓ} → (A → ℕ) → List A → ℕ
maximum key [] = 0
maximum key (x ∷ xs) = max (key x) (maximum key xs)

module _ {ℓ} {A : Type ℓ} (key : A → ℕ) where
  maximum-insert_sorted :
      (e : A) (xs : List A)
      → maximum key (insert_sorted (by_key key) e xs) ≡ max (key e) (maximum key xs)
  unfolding maximum
  maximum-insert_sorted e [] = refl
  maximum-insert_sorted e (y ∷ ys) = ground (arith, maximum-insert_sorted e ys)

  maximum-sort_into :
      (sorted xs : List A)
      → maximum key (sort_into (by_key key) sorted xs) ≡ max (maximum key sorted) (maximum key xs)
  unfolding maximum
  maximum-sort_into sorted [] = ground arith
  maximum-sort_into sorted (x ∷ xs) = ground (
    arith,
    maximum-sort_into (insert_sorted (by_key key) x sorted) xs,
    maximum-insert_sorted x sorted,
  )

  pub maximum-stable_sort :
      (xs : List A) → maximum key (stable_sort (by_key key) xs) ≡ maximum key xs
  unfolding maximum
  maximum-stable_sort xs = ground (arith, maximum-sort_into [] xs)

  pub stable_sort-Sorted : (xs : List A) → Sorted (by_key key) (stable_sort (by_key key) xs)
  stable_sort-Sorted xs = sort_into-Sorted (by_key key) (λ a b h. ground arith) [] xs tt

  -- The first element of a list by descending keys has the highest.
  pub maximum-front :
      (x : A) (xs : List A) → Sorted (by_key key) (x ∷ xs) → maximum key (x ∷ xs) ≡ key x
  unfolding maximum
  maximum-front x [] s = ground arith
  maximum-front x (y ∷ ys) (o, s) = ground (arith, o, maximum-front y ys s)

pub count-maximum : (key : ℕ → ℕ) (x : ℕ) (xs : List ℕ) → 0 < count x xs → key x ≤ maximum key xs
unfolding maximum count
count-maximum key x [] h = absurd (omega arith)
count-maximum key x (y ∷ ys) h = ground (arith, h, count-maximum key x ys, ap key)
