-- ===== src/Fat/Extend.antt =====
-- `fat_create_chain`: a new chain, and one more cluster at the end of a chain.
use pintos_filesys.Base.{
  ◌==◌, if◌then◌else◌, ℕ, zero, suc, ◌+◌, ◌≤◌, ◌<◌, ◌≡◌, ◌≢◌, ◌⊎◌, inl, inr, refl, arith, false,
  List, [], ◌∷◌, ◌++◌, ok, Returns, Returns-bind, eq_ok, subst, ne→not_==, lt→ltb, length, has, ap,
  sym, ◌∙◌,
}
use pintos_filesys.Fat.{
  FatFs, IsFat, eo_chain, update, fat_get, fat_put, walk_chain, link_cluster, find_free_cluster,
  fat_create_chain,
}
use pintos_filesys.Fat.Search.{
  find_free_cluster-next, Found, IsFull, IsFree, find_free_cluster-Found,
}
use pintos_filesys.Fat.Chain.{
  IsChain, last_of, has-last_of, IsSeg-update, IsSeg-snoc, not-has_of_free, length-seg-le, has-lt,
}

module _ (fs : FatFs) (c : ℕ) (lt : c < fs.fat_length) where
  pub get-ok : fat_get fs c ≡ ok (fs.fat c)
  unfolding fat_get
  get-ok = rw (lt→ltb c _ lt)

  pub put-ok : (v : ℕ) → fat_put fs c v ≡ ok (record fs { fat = update fs.fat c v })
  unfolding fat_put
  put-ok v = rw (lt→ltb c _ lt)

-- The walk along a chain ends at its last cluster.
walk-last_of :
    (fs : FatFs) (k c x : ℕ) (xs : List ℕ)
    → fs.fat_length ≤ eo_chain
    → IsChain fs c (x ∷ xs)
    → length xs < k
    → walk_chain k fs c ≡ ok (last_of x xs)
unfolding walk_chain fat_get
walk-last_of fs zero c x xs short s fuel = elim fuel [ ]
walk-last_of fs (suc k) c x [] short (e, ge, lt, out, s) fuel = ground arith
walk-last_of fs (suc k) c x (y ∷ ys) short (e, ge, lt, out, s) fuel =
    ground (arith, walk-last_of fs k (fs.fat x) y ys short s)

walk-root : (fs : FatFs) (k : ℕ) → 0 < k → walk_chain k fs 1 ≡ ok 1
unfolding walk_chain
walk-root fs zero h = elim h [ ]
walk-root fs (suc k) h = refl

-- The table after cluster `new` has been put behind cluster `last`.
abbrev pub linked : FatFs → (last new : ℕ) → FatFs
linked fs last new = record fs {
  fat = update (update fs.fat new eo_chain) last new;
  last_clst = new;
}

-- The table after cluster `new` has become a chain of its own.
abbrev pub started : FatFs → (new : ℕ) → FatFs
started fs new = record fs { fat = update fs.fat new eo_chain; last_clst = new }

module _ (fs : FatFs) (new : ℕ) (v : IsFat fs) (free : IsFree fs new) where
  link-start : link_cluster fs 0 new ≡ ok (new, started fs new)
  unfolding link_cluster
  link-start = rw (put-ok fs new free.lt eo_chain)

  link-root : link_cluster fs 1 new ≡ ok (new, linked fs 1 new)
  unfolding link_cluster
  link-root = rw (
    put-ok fs new free.lt eo_chain,
    walk-root (started fs new) fs.fat_length (omega (arith, free.lt)),
    put-ok (started fs new) 1 (omega (arith, free.lt, free.ge)) new,
  )

  module _ (c x : ℕ) (xs : List ℕ) (s : IsChain fs c (x ∷ xs)) where
    outside : has new (x ∷ xs) ≡ false
    outside = not-has_of_free fs.fat_length fs.fat eo_chain c new (x ∷ xs) s (omega arith) free.free

    started-IsChain : IsChain (started fs new) c (x ∷ xs)
    started-IsChain = IsSeg-update fs.fat_length fs.fat eo_chain c new eo_chain (x ∷ xs) s outside

    link-chain : link_cluster fs c new ≡ ok (new, linked fs (last_of x xs) new)
    unfolding link_cluster
    link-chain =
        let last = last_of x xs in
        let in_table = has-lt fs.fat_length fs.fat eo_chain c last (x ∷ xs) s (has-last_of x xs) in
        let fuel = length-seg-le fs.fat_length fs.fat eo_chain c (x ∷ xs) s in
        rw (
          put-ok fs new free.lt eo_chain,
          ne→not_== c 0 (omega arith),
          walk-last_of (started fs new) fs.fat_length c x xs v.short started-IsChain
              (omega (arith, fuel)),
          put-ok (started fs new) last in_table.1 new,
        )

    linked-IsChain : IsChain (linked fs (last_of x xs) new) c (x ∷ xs ++ new ∷ [])
    linked-IsChain =
        IsSeg-snoc fs.fat_length eo_chain (update fs.fat new eo_chain) c new x xs started-IsChain
          outside (ground arith) free.ge free.lt

-- No cluster could be had, and nothing has changed.
abbrev pub Refused : FatFs → ℕ × FatFs → Type 0
Refused fs (r, g) = (r ≡ 0) × IsFull fs × (g ≡ fs)

-- The cluster `r` has become the end of the chain `x ∷ xs` from `c`. Other chains stay.
pub record Appended (fs : FatFs) (c x : ℕ) (xs : List ℕ) (r : ℕ) (g : FatFs) : Type 0 where
  pub free : IsFree fs r
  pub chain : IsChain g c (x ∷ xs ++ r ∷ [])
  pub others :
      (d : ℕ) (ys : List ℕ) → IsChain fs d ys → has (last_of x xs) ys ≡ false → IsChain g d ys
  pub bounds : IsFat g

module _ (fs : FatFs) (v : IsFat fs) (room : fs.last_clst + 1 < fs.fat_length) where
  create-Returns :
      (c : ℕ) (P : ℕ × FatFs → Type 0)
      → c < fs.fat_length
      → (IsFull fs → P (0, fs))
      → ((r : ℕ) → IsFree fs r → Returns P (link_cluster fs c r))
      → Returns P (fat_create_chain fs c)
  unfolding fat_create_chain
  create-Returns c P lt full free =
      rw (lt→ltb c fs.fat_length lt) (
        Returns-bind (Found fs) P (find_free_cluster fs) _ (find_free_cluster-Found fs v room) next)
    where
      next : (r : ℕ) → Found fs r → Returns P (if r == 0 then ok (0, fs) else link_cluster fs c r)
      next r (inl (e, f)) = rw e (full f)
      next r (inr f) = rw (ne→not_== r 0 (omega (arith, f.ge))) (free r f)

  pub create-full : (c : ℕ) → c < fs.fat_length → IsFull fs → fat_create_chain fs c ≡ ok (0, fs)
  create-full c lt full =
      eq_ok (fat_create_chain fs c) (0, fs)
        (create-Returns c _ lt (λ _. refl) λ r f. absurd (full r f.ge f.lt f.ne_last f.free))

  -- A single free cluster is the one that is taken.
  pub create-only :
      (r : ℕ)
      → IsFree fs r
      → ((d : ℕ) → IsFree fs d → d ≡ r)
      → fat_create_chain fs 0 ≡ ok (r, started fs r)
  create-only r free only =
      eq_ok (fat_create_chain fs 0) (r, started fs r)
        (create-Returns 0 _ (omega arith)
          (λ full. absurd (full r free.ge free.lt free.ne_last free.free))
          λ d f.
            subst (λ c. Returns (λ b. b ≡ (r, started fs r)) (link_cluster fs 0 c)) (sym (only d f))
              (rw (link-start fs r v free)))

  -- A cluster whose successor is free is linked to it.
  pub create-next :
      (c : ℕ) (free : fs.fat (fs.last_clst + 1) ≡ 0)
      → c ≡ fs.last_clst
      → fs.fat c ≡ eo_chain
      → fat_create_chain fs c ≡ ok (c + 1, linked fs c (c + 1))
  unfolding fat_create_chain
  create-next c free e end =
      let next_free : IsFree fs (fs.last_clst + 1) = record {
        ge = omega (arith, v.last_ge);
        lt = room;
        free = free;
        ne_last = omega arith;
      } in
      rw e (
        rw
          (
            lt→ltb fs.last_clst fs.fat_length v.last_lt,
            find_free_cluster-next fs v room free,
            ne→not_== (fs.last_clst + 1) 0 (omega arith),
          )
          (link-chain fs (fs.last_clst + 1) v next_free fs.last_clst fs.last_clst []
            (refl, v.last_ge, v.last_lt, ground arith, ap fs.fat (sym e) ∙ end)))

  pub start-next :
      fs.fat (fs.last_clst + 1) ≡ 0
      → fat_create_chain fs 0 ≡ ok (fs.last_clst + 1, started fs (fs.last_clst + 1))
  unfolding fat_create_chain
  start-next free =
      rw
        (
          lt→ltb 0 fs.fat_length (omega arith),
          find_free_cluster-next fs v room free,
          ne→not_== (fs.last_clst + 1) 0 (omega arith),
        )
        (link-start fs (fs.last_clst + 1) v next_free)
    where
      next_free : IsFree fs (fs.last_clst + 1)
      next_free = record {
        ge = omega (arith, v.last_ge);
        lt = room;
        free = free;
        ne_last = omega arith;
      }

  -- With `clst` 0 a free cluster becomes a chain of its own, and is remembered as the last one;
  -- when none is free the call returns 0 and changes nothing.
  pub fat_create_chain-started :
      Returns
        (λ (r, g). Refused fs (r, g) ⊎ (IsFree fs r × (g ≡ started fs r)))
        (fat_create_chain fs 0)
  fat_create_chain-started =
      create-Returns 0 _ (omega arith) (λ f. inl (refl, f, refl))
        λ r f. rw (link-start fs r v f) (inr (f, refl))

  -- Unless the cluster handed out last is the table's last one, and with `clst` the start of a chain
  -- of clusters from 2 up, a free cluster is linked behind its last one, and all chains
  -- without that one stay as they are; when none is free the call changes nothing.
  pub fat_create_chain-append :
      (c x : ℕ) (xs : List ℕ)
      → IsChain fs c (x ∷ xs)
      → Returns (λ (r, g). Refused fs (r, g) ⊎ Appended fs c x xs r g) (fat_create_chain fs c)
  fat_create_chain-append c x xs s =
      create-Returns c _ (omega (arith, s)) (λ f. inl (refl, f, refl))
        λ r f. rw (link-chain fs r v f c x xs s) (inr (appended r f))
    where
      appended : (r : ℕ) → IsFree fs r → Appended fs c x xs r (linked fs (last_of x xs) r)
      appended r f = record {
        free = f;
        chain = linked-IsChain fs r v f c x xs s;
        others = λ d ys t away.
            IsSeg-update fs.fat_length (update fs.fat r eo_chain) eo_chain d (last_of x xs) r ys
              (IsSeg-update fs.fat_length fs.fat eo_chain d r eo_chain ys t
                (not-has_of_free fs.fat_length fs.fat eo_chain d r ys t (omega arith) f.free))
              away;
        bounds = record { short = v.short; last_ge = f.ge; last_lt = f.lt };
      }

  -- The walk does not follow the links of the root directory: with `clst` 1 the new cluster
  -- replaces the root's second cluster `b`, which stays in use and is no longer reached.
  pub fat_create_chain-root :
      (b : ℕ)
      → fs.fat 1 ≡ b
      → 2 ≤ b
      → fs.fat b ≢ 0
      → Returns
          (λ (r, g).
            Refused fs (r, g)
            ⊎ ((g.fat 1 ≡ r) × (g.fat r ≡ eo_chain) × (r ≢ b) × (g.fat b ≡ fs.fat b)))
          (fat_create_chain fs 1)
  fat_create_chain-root b e ge used =
      create-Returns 1 _ (omega (arith, v.last_ge)) (λ f. inl (refl, f, refl))
        λ r f.
          let ne : r ≢ b = λ i. used (ap fs.fat (sym i) ∙ f.free) in
          rw (link-root fs r v f) (inr (refl, ground arith, ne, ground arith))
