-- ===== src/Fat/Remove.antt =====
-- `fat_remove_chain` and `fat_release`: exactly the clusters of the chain are given back.
use pintos_filesys.Base.{
  ℕ, zero, suc, ◌+◌, ◌≤◌, ◌<◌, ◌≡◌, ◌≢◌, refl, arith, true, false, List, [], ◌∷◌, ok, hang, Returns,
  Returns-mono, ◌==◌, if◌then◌else◌, ne→not_==, lt→ltb, length, has, subst, sym, ap, ◌∙◌,
}
use pintos_filesys.Fat.{FatFs, eo_chain, update, free_cluster, remove_loop, fat_remove_chain}
use pintos_filesys.Fat.Chain.{IsSeg, IsChain, IsSeg-update, IsSeg-frame, length-seg-le}
use pintos_filesys.Fat.Extend.{get-ok, put-ok}

-- The table `g` is `fs` with the clusters `xs` free; the search restarts from 2 if the cluster that
-- it started from is among them.
pub record Freed (fs : FatFs) (xs : List ℕ) (g : FatFs) : Type 0 where
  pub fat : (d : ℕ) → g.fat d ≡ (if has d xs then 0 else fs.fat d)
  pub last : g.last_clst ≡ (if has fs.last_clst xs then 2 else fs.last_clst)
  pub length : g.fat_length ≡ fs.fat_length
  pub start : g.data_start ≡ fs.data_start

abbrev freed_one : FatFs → ℕ → FatFs
freed_one fs x = record fs {
  fat = update fs.fat x 0;
  last_clst = if fs.last_clst == x then 2 else fs.last_clst;
}

free_cluster-ok : (fs : FatFs) (x : ℕ) → x < fs.fat_length → free_cluster fs x ≡ ok (freed_one fs x)
unfolding free_cluster
free_cluster-ok fs x lt = rw (put-ok fs x lt 0) (ground arith)

Freed-cons :
    (fs : FatFs) (x : ℕ) (xs : List ℕ) (g : FatFs)
    → 2 ≤ x
    → Freed (freed_one fs x) xs g
    → Freed fs (x ∷ xs) g
Freed-cons fs x xs g ge f = record {
  fat = λ d. ground (arith, f.fat d);
  last = ground (arith, f.last);
  length = f.length;
  start = f.start;
}

remove_loop-Freed :
    (k : ℕ) (fs : FatFs) (c : ℕ) (xs : List ℕ)
    → fs.fat_length ≤ eo_chain
    → IsChain fs c xs
    → length xs < k
    → Returns (Freed fs xs) (remove_loop k fs c)
unfolding remove_loop
remove_loop-Freed zero fs c xs short s fuel = elim fuel [ ]
remove_loop-Freed (suc k) fs c [] short s fuel =
    rw s (record { fat = λ d. refl; last = refl; length = refl; start = refl })
remove_loop-Freed (suc k) fs c (x ∷ xs) short (e, ge, lt, out, s) fuel =
    rw (e, ne→not_== x eo_chain (omega arith), get-ok fs x lt, free_cluster-ok fs x lt)
      (Returns-mono (Freed (freed_one fs x) xs) (Freed fs (x ∷ xs)) _
        (remove_loop-Freed k (freed_one fs x) (fs.fat x) xs short
          (IsSeg-update fs.fat_length fs.fat eo_chain (fs.fat x) x 0 xs s out) (omega arith))
        (λ g f. Freed-cons fs x xs g ge f))

module _ (fs : FatFs) (c x : ℕ) (xs : List ℕ) (short : fs.fat_length ≤ eo_chain) where
  -- A call with `pclst` 0 on the start of a chain ends. It frees the clusters of the chain, keeps
  -- every other entry of the table, and moves the start of the next search if that is among them.
  pub fat_remove_chain-Freed :
      IsChain fs c (x ∷ xs) → Returns (Freed fs (x ∷ xs)) (fat_remove_chain fs c 0)
  unfolding fat_remove_chain
  fat_remove_chain-Freed s = rw (lt→ltb c fs.fat_length (omega (arith, s))) (
      remove_loop-Freed (fs.fat_length + 1) fs c (x ∷ xs) short s
        (omega (arith, length-seg-le fs.fat_length fs.fat eo_chain c (x ∷ xs) s)))

  -- A call with a predecessor `p` outside the rest of its chain also marks `p` as the new end.
  pub fat_remove_chain-cut :
      (p : ℕ)
      → p ≢ 0
      → p < fs.fat_length
      → has p (x ∷ xs) ≡ false
      → IsChain fs c (x ∷ xs)
      → Returns
          (Freed (record fs { fat = update fs.fat p eo_chain }) (x ∷ xs))
          (fat_remove_chain fs c p)
  unfolding fat_remove_chain
  fat_remove_chain-cut p ne lt out s =
      rw (lt→ltb c fs.fat_length (omega (arith, s)), ne→not_== p 0 ne, put-ok fs p lt eo_chain)
        (remove_loop-Freed (fs.fat_length + 1) (record fs { fat = update fs.fat p eo_chain }) c
          (x ∷ xs) short (IsSeg-update fs.fat_length fs.fat eo_chain c p eo_chain (x ∷ xs) s out)
          (omega (arith, length-seg-le fs.fat_length fs.fat eo_chain c (x ∷ xs) s)))

  -- Chains that share no cluster with the removed one stay.
  pub Freed-others :
      (g : FatFs)
      → Freed fs (x ∷ xs) g
      → (d : ℕ) (ys : List ℕ) → ((a : ℕ) → has a ys ≡ true → has a (x ∷ xs) ≡ false)
      → IsChain fs d ys
      → IsChain g d ys
  Freed-others g f d ys apart s =
      subst (λ n. IsSeg g.fat n eo_chain d ys) (sym f.length)
        (IsSeg-frame fs.fat_length fs.fat g.fat eo_chain d ys s
          λ a h. f.fat a ∙ ap (λ b. if b then 0 else fs.fat a) (apart a h))

-- With cluster 0 as the argument the loop of `fat_remove_chain` never ends, since entry 0 is 0.
pub remove_loop-zero :
    (k : ℕ) (fs : FatFs)
    → 2 ≤ fs.last_clst
    → 0 < fs.fat_length
    → fs.fat 0 ≡ 0
    → remove_loop k fs 0 ≡ hang
unfolding remove_loop
remove_loop-zero zero fs ge lt z = refl
remove_loop-zero (suc k) fs ge lt z =
    rw (get-ok fs 0 lt, z, free_cluster-ok fs 0 lt)
      (remove_loop-zero k (freed_one fs 0) (ground arith) lt (ground arith))
