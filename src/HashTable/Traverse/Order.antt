-- ===== src/HashTable/Traverse/Order.antt =====
-- lib/kernel/hash.c, what a walk with an iterator visits.
use pintos_filesys.Base.{
  count, count-append, ℕ, zero, suc, ◌+◌, ◌≤◌, ◌<◌, ◌≡◌, refl, arith, ap, sym, ◌∙◌, Bool, ok, List,
  [], ◌∷◌, ◌++◌, length, get_or, subst, Returns, Returns-eq, le→leb, lt→not_leb,
}
use pintos_filesys.HashTable.{Hash, bucket_at, elements}
use pintos_filesys.HashTable.Traverse.{
  Cursor, at_elem, null, Iterator, hash_first, first, after, next_of, skip_loop, hash_next,
  visit_loop,
}
use mathlib.Core.List.{append_assoc}
use pintos_filesys.HashTable.Shape.{IsTable}

-- The buckets behind bucket `i` are `bs`.
record Later (h : Hash) (i : ℕ) (bs : List (List ℕ)) : Type 0 where
  size : length bs + i + 1 ≡ h.bucket_cnt
  bucket : (j : ℕ) → bucket_at h (i + 1 + j) ≡ get_or bs j []

-- Element `y` is in bucket `i`, and `rest` is what comes behind it.
record Stands (h : Hash) (i y : ℕ) (rest : List ℕ) : Type 0 where
  before : List ℕ
  behind : List ℕ
  others : List (List ℕ)
  here : bucket_at h i ≡ before ++ y ∷ behind
  later : Later h i others
  left : behind ++ elements others ≡ rest

-- Where the iterator goes with `rest` to come.
Visits : Hash → (rest : List ℕ) → ℕ × Cursor → Type 0
Visits h [] (i, c) = c ≡ null
Visits h (y ∷ ys) (i, c) = (c ≡ at_elem y) × Stands h i y ys

Later-next :
    (h : Hash) (i : ℕ) (b : List ℕ) (bs : List (List ℕ)) → Later h i (b ∷ bs) → Later h (i + 1) bs
Later-next h i b bs l = record {
  size = omega (arith, l.size);
  bucket = λ j. ap (bucket_at h) (omega arith) ∙ l.bucket (suc j);
}

skip_loop-Visits :
    (fuel : ℕ) (h : Hash) (i : ℕ) (pre xs : List ℕ) (bs : List (List ℕ))
    → bucket_at h i ≡ pre ++ xs
    → Later h i bs
    → length bs < fuel
    → Returns (Visits h (xs ++ elements bs)) (skip_loop fuel h i (first xs))
unfolding skip_loop first elements Visits
skip_loop-Visits zero h i pre xs bs here l enough = absurd (omega arith)
skip_loop-Visits (suc fuel) h i pre (x ∷ xs) bs here l enough =
    (refl, record { before = pre; behind = xs; others = bs; here = here; later = l; left = refl })
skip_loop-Visits (suc fuel) h i pre [] [] here l enough =
    rw (le→leb h.bucket_cnt (i + 1) (omega (arith, l.size))) refl
skip_loop-Visits (suc fuel) h i pre [] (b ∷ bs) here l enough =
    let at : bucket_at h (i + 1) ≡ b = ap (bucket_at h) (omega arith) ∙ l.bucket 0 in
    rw (lt→not_leb h.bucket_cnt (i + 1) (omega (arith, l.size)), at)
      (skip_loop-Visits fuel h (i + 1) [] b bs at (Later-next h i b bs l) (omega arith))

after-split :
    (y : ℕ) (pre xs : List ℕ) → count y (pre ++ y ∷ xs) ≤ 1 → after y (pre ++ y ∷ xs) ≡ first xs
unfolding after count
after-split y [] xs h = ground arith
after-split y (z ∷ zs) xs h = ground (arith, h, count-append y zs (y ∷ xs), after-split y zs xs)

-- A step to what comes next, and the walk from there.
visit_loop-step :
    (fuel : ℕ) (it : Iterator) (xs : List ℕ) (rest : List ℕ)
    → next_of it.elem (bucket_at it.hash it.bucket) ≡ ok (first xs)
    → Returns (Visits it.hash rest) (skip_loop it.hash.bucket_cnt it.hash it.bucket (first xs))
    → ((i y : ℕ) (ys : List ℕ)
        → Stands it.hash i y ys
        → rest ≡ y ∷ ys
        → visit_loop fuel (record { hash = it.hash; bucket = i; elem = at_elem y }) ≡ ok ys)
    → visit_loop (suc fuel) it ≡ ok rest
unfolding visit_loop hash_next Visits
visit_loop-step fuel it xs [] e v go =
    let ((i, c), eq, at) = Returns-eq (Visits it.hash []) _ v in rw (e, eq, at) refl
visit_loop-step fuel it xs (y ∷ ys) e v go =
    let ((i, c), eq, (at, stands)) = Returns-eq (Visits it.hash (y ∷ ys)) _ v in
    rw (e, eq, at, go i y ys stands refl) refl

module _ (h : Hash) (p : ℕ → Bool) (w : IsTable h p) where
  visit_loop-rest :
      (ys : List ℕ) (fuel i y : ℕ)
      → Stands h i y ys
      → length ys < fuel
      → visit_loop fuel (record { hash = h; bucket = i; elem = at_elem y }) ≡ ok ys
  unfolding next_of
  visit_loop-rest ys zero i y s enough = absurd (omega arith)
  visit_loop-rest ys (suc fuel) i y s enough =
      visit_loop-step fuel _ s.behind ys
        (rw s.here (ap ok (after-split y s.before s.behind single)))
        (subst (λ r. Returns (Visits h r) (skip_loop h.bucket_cnt h i (first s.behind))) s.left
          (skip_loop-Visits h.bucket_cnt h i (s.before ++ y ∷ []) s.behind s.others
            (s.here ∙ sym (append_assoc s.before (y ∷ []) s.behind)) s.later
            (omega (arith, s.later.size))))
        λ i' y' zs s' e. visit_loop-rest zs fuel i' y' s' (omega (arith, ap length e))
    where
      single : count y (s.before ++ y ∷ s.behind) ≤ 1
      single = subst (λ b. count y b ≤ 1) s.here (ground (arith, w.placed.place i y))

  -- The client's loop over a well-formed table visits its elements in the order of the buckets, each
  -- once, and ends.
  pub visit_loop-elements :
      (fuel : ℕ)
      → length (elements h.buckets) < fuel
      → visit_loop fuel (hash_first h) ≡ ok (elements h.buckets)
  unfolding hash_first next_of elements
  visit_loop-elements zero enough = absurd (omega arith)
  visit_loop-elements (suc fuel) enough = go h.buckets refl
    where
      suc_of : (j : ℕ) → 0 + 1 + j ≡ suc j
      suc_of j = omega arith

      shift :
          (b : List ℕ) (bs : List (List ℕ)) (j : ℕ)
          → get_or (b ∷ bs) (0 + 1 + j) [] ≡ get_or bs j []
      shift b bs j = rw (suc_of j) refl

      go :
          (bs : List (List ℕ))
          → h.buckets ≡ bs
          → visit_loop (suc fuel) (hash_first h) ≡ ok (elements h.buckets)
      go [] e = absurd (omega (arith, ap length e, w.placed.size, w.placed.positive))
      go (b ∷ bs) e =
          let at : bucket_at h 0 ≡ b = ap (λ l. get_or l 0 []) e in
          let size : length bs + 0 + 1 ≡ h.bucket_cnt = omega (arith, ap length e, w.placed.size) in
          let later : Later h 0 bs = record {
            size = size;
            bucket = λ j. ap (λ l. get_or l (0 + 1 + j) []) e ∙ shift b bs j;
          } in
          visit_loop-step fuel (hash_first h) b (elements h.buckets) (ap (λ l. ok (first l)) at)
            (subst (λ r. Returns (Visits h r) (skip_loop h.bucket_cnt h 0 (first b)))
              (ap elements (sym e))
              (skip_loop-Visits h.bucket_cnt h 0 [] b bs at later (omega (arith, size))))
            λ i' y' zs s' eq. visit_loop-rest zs fuel i' y' s' (omega (arith, ap length eq))
