-- ===== src/Base/Distinct.antt =====
-- Membership in a list of numbers as a test, and the length of a list of distinct numbers.
use Prim.Native.Nat.{ℕ, zero, suc, ◌≤◌, ◌<◌}
use mathlib.Core.Path.{◌≡◌, refl, sym, ap, ◌∙◌}
use mathlib.Core.Logic.{◌≢◌}
use mathlib.Core.Bool.{Bool, true, false, ◌||◌, false≢true}
use mathlib.Core.List.{List, [], ◌∷◌, ◌++◌}
use native.Mathlib.Omega.{arith}
use pintos_filesys.Base.Tests.{◌==◌, if◌then◌else◌}
use pintos_filesys.Base.Lists.{length}

abbrev pub has : ℕ → List ℕ → Bool
has c [] = false
has c (x ∷ xs) = (c == x) || has c xs

abbrev pub DistinctBelow : ℕ → List ℕ → Type 0
DistinctBelow n [] = Unit
DistinctBelow n (x ∷ xs) = (x < n) × (has x xs ≡ false) × DistinctBelow n xs

pub has-append : (a : ℕ) (xs ys : List ℕ) → has a (xs ++ ys) ≡ (has a xs || has a ys)
has-append a [] ys = refl
has-append a (x ∷ xs) ys = ground (arith, has-append a xs ys)

pub has-ne : (a b : ℕ) (xs : List ℕ) → has a xs ≡ true → has b xs ≡ false → a ≢ b
has-ne a b xs h out e = false≢true (sym out ∙ ap (λ c. has c xs) (sym e) ∙ h)

without : ℕ → List ℕ → List ℕ
without a [] = []
without a (x ∷ xs) = if x == a then xs else x ∷ without a xs

has-without : (c a : ℕ) (xs : List ℕ) → has c xs ≡ false → has c (without a xs) ≡ false
unfolding without
has-without c a [] h = refl
has-without c a (x ∷ xs) h = ground (arith, has-without c a xs)

length-without : (a : ℕ) (xs : List ℕ) → length xs ≤ suc (length (without a xs))
unfolding without
length-without a [] = omega arith
length-without a (x ∷ xs) = ground (arith, length-without a xs)

-- Without its largest possible member, a list of distinct numbers stays below one less.
without-DistinctBelow :
    (n : ℕ) (xs : List ℕ) → DistinctBelow (suc n) xs → DistinctBelow n (without n xs)
unfolding without
without-DistinctBelow n [] d = tt
without-DistinctBelow n (x ∷ xs) (lt, out, d) =
    ground (arith, without-DistinctBelow n xs d, below n xs d, has-without x n xs)
  where
    below : (m : ℕ) (ys : List ℕ) → DistinctBelow (suc m) ys → has m ys ≡ false → DistinctBelow m ys
    below m [] e h = tt
    below m (y ∷ ys) (p, o, e) h = (ground arith, o, below m ys e (ground arith))

-- There are at most `n` distinct numbers below `n`.
pub length-DistinctBelow : (n : ℕ) (xs : List ℕ) → DistinctBelow n xs → length xs ≤ n
length-DistinctBelow zero [] d = omega arith
length-DistinctBelow zero (x ∷ xs) (lt, out, d) = elim lt [ ]
length-DistinctBelow (suc n) xs d = omega (
  arith,
  length-without n xs,
  length-DistinctBelow n (without n xs) (without-DistinctBelow n xs d),
)
