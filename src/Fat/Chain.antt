-- ===== src/Fat/Chain.antt =====
-- Chains of clusters as lists, and what a write to the table does to them.
use pintos_filesys.Base.{
  ℕ, ◌≤◌, ◌<◌, ◌≡◌, ◌≢◌, refl, ◌∙◌, arith, true, false, List, [], ◌∷◌, ◌++◌, ne→not_==, ℕ_discrete,
  length, has, has-append, DistinctBelow, length-DistinctBelow, sym, ap, subst,
}
use mathlib.Core.Bool.{false≢true}
use pintos_filesys.Fat.{FatFs, eo_chain, update}

-- From cluster `c` the links lead through the distinct clusters `xs`, all from 2 up and inside a
-- table of `len` entries, to the value `stop`.
abbrev pub IsSeg : (ℕ → ℕ) → ℕ → ℕ → ℕ → List ℕ → Type 0
IsSeg fat len stop c [] = c ≡ stop
IsSeg fat len stop c (x ∷ xs) =
    (c ≡ x) × (2 ≤ x) × (x < len) × (has x xs ≡ false) × IsSeg fat len stop (fat x) xs

-- A whole chain, up to the end mark.
abbrev pub IsChain : FatFs → ℕ → List ℕ → Type 0
IsChain fs = IsSeg fs.fat fs.fat_length eo_chain

module _ (len : ℕ) where
  -- A chain does not see a change of the table outside it.
  pub IsSeg-frame :
      (f g : ℕ → ℕ) (stop c : ℕ) (xs : List ℕ)
      → IsSeg f len stop c xs
      → ((d : ℕ) → has d xs ≡ true → g d ≡ f d)
      → IsSeg g len stop c xs
  IsSeg-frame f g stop c [] s same = s
  IsSeg-frame f g stop c (x ∷ xs) (e, ge, lt, out, s) same = (
    e,
    ge,
    lt,
    out,
    rw (same x (ground arith)) (IsSeg-frame f g stop (f x) xs s λ d h. same d (ground arith)),
  )

  pub IsSeg-update :
      (f : ℕ → ℕ) (stop c a v : ℕ) (xs : List ℕ)
      → IsSeg f len stop c xs
      → has a xs ≡ false
      → IsSeg (update f a v) len stop c xs
  IsSeg-update f stop c a v xs s out =
      IsSeg-frame f (update f a v) stop c xs s λ d h. elim (ℕ_discrete d a) [
        | yes e ↦ absurd (ground arith)
        | no ne ↦ rw (ne→not_== d a ne)
      ]

  -- The clusters of a chain are in use.
  pub not-has_of_free :
      (f : ℕ → ℕ) (stop c a : ℕ) (xs : List ℕ)
      → IsSeg f len stop c xs
      → stop ≢ 0
      → f a ≡ 0
      → has a xs ≡ false
  not-has_of_free f stop c a [] s ne free = refl
  not-has_of_free f stop c a (x ∷ []) s ne free = elim (ℕ_discrete a x) [
    | yes e ↦ absurd (ne (sym s.4 ∙ ap f (sym e) ∙ free))
    | no away ↦ rw (ne→not_== a x away)
  ]
  not-has_of_free f stop c a (x ∷ y ∷ xs) s ne free =
      ground (arith, not-has_of_free f stop (f x) a (y ∷ xs))

  seg-DistinctBelow :
      (f : ℕ → ℕ) (stop c : ℕ) (xs : List ℕ) → IsSeg f len stop c xs → DistinctBelow len xs
  seg-DistinctBelow f stop c [] s = tt
  seg-DistinctBelow f stop c (x ∷ xs) (e, ge, lt, out, s) =
      (lt, out, seg-DistinctBelow f stop (f x) xs s)

  -- A chain has at most as many clusters as the table has entries.
  pub length-seg-le :
      (f : ℕ → ℕ) (stop c : ℕ) (xs : List ℕ) → IsSeg f len stop c xs → length xs ≤ len
  length-seg-le f stop c xs s = length-DistinctBelow len xs (seg-DistinctBelow f stop c xs s)

  pub has-lt :
      (f : ℕ → ℕ) (stop c a : ℕ) (xs : List ℕ)
      → IsSeg f len stop c xs
      → has a xs ≡ true
      → (2 ≤ a) × (a < len)
  has-lt f stop c a (x ∷ xs) (e, ge, lt, out, s) h = ground (arith, has-lt f stop (f x) a xs s)
  has-lt f stop c a [] s h = absurd (false≢true h)

abbrev pub last_of : ℕ → List ℕ → ℕ
last_of x [] = x
last_of x (y ∷ ys) = last_of y ys

pub has-last_of : (x : ℕ) (xs : List ℕ) → has (last_of x xs) (x ∷ xs) ≡ true
has-last_of x [] = ground arith
has-last_of x (y ∷ ys) = ground (arith, has-last_of y ys)

module _ (len stop : ℕ) where
  -- Linking one more cluster behind the last.
  pub IsSeg-snoc :
      (f : ℕ → ℕ) (c a x : ℕ) (xs : List ℕ)
      → IsSeg f len stop c (x ∷ xs)
      → has a (x ∷ xs) ≡ false
      → f a ≡ stop
      → 2 ≤ a
      → a < len
      → IsSeg (update f (last_of x xs) a) len stop c (x ∷ xs ++ a ∷ [])
  IsSeg-snoc f c a x [] s out fa ge lt = ground arith
  IsSeg-snoc f c a x (y ∷ ys) (e, gx, lx, o, s) out fa ge lt = (
    e,
    gx,
    lx,
    ground (arith, has-append x ys (a ∷ [])),
    subst (λ d. IsSeg (update f (last_of y ys) a) len stop d (y ∷ ys ++ a ∷ [])) (sym keep)
        (IsSeg-snoc f (f x) a y ys s (ground arith) fa ge lt),
  )
    where
      keep : update f (last_of y ys) a x ≡ f x
      keep = elim (ℕ_discrete x (last_of y ys)) [
        | yes i ↦ absurd (false≢true (sym o ∙ ap (λ d. has d (y ∷ ys)) i ∙ has-last_of y ys))
        | no ne ↦ rw (ne→not_== x (last_of y ys) ne)
      ]
