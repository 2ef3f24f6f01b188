-- ===== src/Fat/Allocate.antt =====
-- `fat_allocate`: chains of consecutive clusters, and what it answers when clusters run out.
use pintos_filesys.Base.{
  ℕ, zero, suc, ◌+◌, ◌-◌, ◌≤◌, ◌<◌, ◌≡◌, ◌≢◌, ◌⊎◌, inl, inr, refl, sym, ap, ◌∙◌, subst, arith, Bool,
  true, false, List, [], ◌∷◌, ok, hang, Returns, Returns-bind, ne→not_==, lt→ltb, has, ℕ_discrete,
}
use pintos_filesys.Fat.{FatFs, IsFat, eo_chain, allocate_loop, fat_allocate, fat_remove_chain}
use pintos_filesys.Fat.Search.{IsFull, IsFree}
use pintos_filesys.Fat.Chain.{IsSeg, IsChain}
use pintos_filesys.Fat.Extend.{started, linked, create-full, create-only, create-next, start-next}
use pintos_filesys.Fat.Remove.{Freed, fat_remove_chain-Freed, remove_loop-zero}

-- In `g` the `n` clusters from `start` are linked in order, and all else is as in `fs`.
pub record Linked (fs : FatFs) (start n : ℕ) (g : FatFs) : Type 0 where
  pub last : g.last_clst + 1 ≡ start + n
  pub links : (d : ℕ) → start ≤ d → d + 1 < start + n → g.fat d ≡ d + 1
  pub end : g.fat g.last_clst ≡ eo_chain
  pub others : (d : ℕ) → (d < start) ⊎ (start + n ≤ d) → g.fat d ≡ fs.fat d
  pub length : g.fat_length ≡ fs.fat_length
  pub data_start : g.data_start ≡ fs.data_start

abbrev pub FreeRun : FatFs → ℕ → ℕ → Type 0
FreeRun fs start n = (d : ℕ) → start ≤ d → d < start + n → fs.fat d ≡ 0

module _ (fs : FatFs) (start : ℕ) (short : fs.fat_length ≤ eo_chain) (ge : 2 ≤ start) where
  linked-Linked :
      (n : ℕ) (g : FatFs)
      → Linked fs start (suc n) g
      → Linked fs start (suc (suc n)) (linked g g.last_clst (g.last_clst + 1))
  linked-Linked n g r = record {
    last = omega (arith, r.last);
    links = λ d p q. ground (arith, r.links d p, r.last, r.end);
    end = ground arith;
    others = λ d o. ground (arith, r.others d, r.last);
    length = r.length;
    data_start = r.data_start;
  }

  loop-Linked :
      (cnt n : ℕ) (g : FatFs) (prev : ℕ)
      → prev ≡ g.last_clst
      → Linked fs start (suc n) g
      → start + suc n + cnt ≤ fs.fat_length
      → FreeRun fs start (suc n + cnt)
      → Returns
          (λ (left, h). (left ≡ 0) × Linked fs start (suc n + cnt) h)
          (allocate_loop cnt prev g)
  unfolding allocate_loop
  loop-Linked zero n g prev e r room free = (refl, subst (λ m. Linked fs start m g) (omega arith) r)
  loop-Linked (suc cnt) n g prev e r room free =
      let after = g.last_clst + 1 in
      let unused : g.fat after ≡ 0 =
        r.others after (inr (omega (arith, r.last)))
        ∙ free after (omega (arith, r.last)) (omega (arith, r.last)) in
      let v : IsFat g = record {
        short = omega (arith, r.length);
        last_ge = omega (arith, r.last);
        last_lt = omega (arith, r.length, r.last);
      } in
      rw
        (
          e,
          ne→not_== g.last_clst 0 (omega (arith, r.last)),
          create-next g v (omega (arith, r.length, r.last)) g.last_clst unused refl r.end,
        )
        (subst
          (λ m.
            Returns (λ (left, h). (left ≡ 0) × Linked fs start m h)
              (allocate_loop cnt after (linked g g.last_clst after)))
          (omega arith)
          (loop-Linked cnt (suc n) (linked g g.last_clst after) after refl (linked-Linked n g r)
            (omega arith) λ d p q. free d p (omega arith)))

-- `n` consecutive numbers.
abbrev pub seq : ℕ → ℕ → List ℕ
seq start zero = []
seq start (suc n) = start ∷ seq (start + 1) n

has-seq : (a start n : ℕ) → a < start → has a (seq start n) ≡ false
has-seq a start zero h = refl
has-seq a start (suc n) h = ground (arith, has-seq a (start + 1) n)

module _ (len : ℕ) (f : ℕ → ℕ) (end : ℕ) (in_table : end < len) where
  seq-IsSeg :
      (n c : ℕ)
      → 2 ≤ c
      → c + n ≡ end
      → ((d : ℕ) → c ≤ d → d < end → f d ≡ d + 1)
      → f end ≡ eo_chain
      → IsSeg f len eo_chain c (seq c (suc n))
  seq-IsSeg zero c ge e links last =
      let here : c ≡ end = omega arith in (refl, ge, omega arith, refl, ap f here ∙ last)
  seq-IsSeg (suc n) c ge e links last = (
    refl,
    ge,
    omega arith,
    has-seq c (c + 1) (suc n) (omega arith),
    subst (λ d. IsSeg f len eo_chain d (seq (c + 1) (suc n)))
        (sym (links c (omega arith) (omega arith)))
        (seq-IsSeg n (c + 1) (omega arith) (omega arith) (λ d p q. links d (omega arith) q) last),
  )

Linked-IsChain :
    (fs g : FatFs) (start n : ℕ)
    → 2 ≤ start
    → g.last_clst < g.fat_length
    → Linked fs start (suc n) g
    → IsChain g start (seq start (suc n))
Linked-IsChain fs g start n ge lt r =
    seq-IsSeg g.fat_length g.fat g.last_clst lt n start ge (omega (arith, r.last))
      (λ d p q. r.links d p (omega (arith, r.last))) r.end

-- What `fat_allocate` promises of its result when it takes the `n` clusters from `start`.
pub record Allocated (fs : FatFs) (start n : ℕ) (out : Bool × ℕ × FatFs) : Type 0 where
  pub success : out.0 ≡ true
  pub clusterp : out.1 ≡ start
  pub chain : IsChain out.2 start (seq start n)
  pub others : (d : ℕ) → (d < start) ⊎ (start + n ≤ d) → out.2.fat d ≡ fs.fat d
  pub bounds : IsFat out.2

module _ (fs : FatFs) (v : IsFat fs) where
  -- When the `cnt` clusters after the one handed out last are free, for `cnt` at least 1, then
  -- `fat_allocate` succeeds. `*clusterp` is the first of them, they form the chain from it, in order
  -- and with no other cluster, and every other entry of the table is kept.
  pub fat_allocate-Allocated :
      (cnt clusterp : ℕ)
      → fs.last_clst + 1 + suc cnt ≤ fs.fat_length
      → FreeRun fs (fs.last_clst + 1) (suc cnt)
      → Returns (Allocated fs (fs.last_clst + 1) (suc cnt)) (fat_allocate fs (suc cnt) clusterp)
  unfolding fat_allocate
  fat_allocate-Allocated cnt clusterp room free =
      rw
        (
          ne→not_== (suc cnt) 0 (omega arith),
          start-next fs v (omega arith) (free first (omega arith) (omega arith)),
          pred,
        )
        (Returns-bind Looped (Allocated fs first (suc cnt))
          (allocate_loop cnt first (started fs first)) _
          (loop-Linked fs first v.short (omega (arith, v.last_ge)) cnt 0 (started fs first) first
            refl one (omega arith) (λ d p q. free d p (omega arith)))
          (λ (left, h) (done, r). rw (done, ne→not_== first 0 (omega arith)) (allocated h r)))
    where
      first : ℕ
      first = fs.last_clst + 1

      Looped : ℕ × FatFs → Type 0
      Looped (left, h) = (left ≡ 0) × Linked fs first (1 + cnt) h

      allocated :
          (h : FatFs) → Linked fs first (1 + cnt) h → Allocated fs first (suc cnt) (true, first, h)
      allocated h r = record {
        success = refl;
        clusterp = refl;
        chain =
            Linked-IsChain fs h first cnt (omega (arith, v.last_ge))
              (omega (arith, r.last, r.length)) (subst (λ m. Linked fs first m h) (omega arith) r);
        others = λ d o. r.others d (elim o [ inl p ↦ inl p | inr p ↦ inr (omega arith) ]);
        bounds = record {
          short = omega (arith, v.short, r.length);
          last_ge = omega (arith, r.last, v.last_ge);
          last_lt = omega (arith, r.last, r.length);
        };
      }

      pred : suc cnt - 1 ≡ cnt
      pred = omega arith

      one : Linked fs first 1 (started fs first)
      one = record {
        last = refl;
        links = λ d p q. absurd (omega arith);
        end = ground arith;
        others = λ d o. ground arith;
        length = refl;
        data_start = refl;
      }

  module _ (room : fs.last_clst + 1 < fs.fat_length) where
    -- With no other cluster free, an allocation of one fails, sets `*clusterp` to 0 and keeps the
    -- table.
    pub fat_allocate-full :
        (clusterp : ℕ) → IsFull fs → fat_allocate fs 1 clusterp ≡ ok (false, 0, fs)
    unfolding fat_allocate allocate_loop
    fat_allocate-full clusterp full = rw (create-full fs v room 0 (omega arith) full)

    -- With no other cluster free and entry 0 of the table 0, a longer allocation never returns: the
    -- clean-up removes the chain from cluster 0, and no number of rounds ends it.
    pub fat_allocate-hang :
        (cnt clusterp : ℕ)
        → fs.fat 0 ≡ 0
        → IsFull fs
        → fat_allocate fs (suc (suc cnt)) clusterp ≡ hang
    unfolding fat_allocate allocate_loop fat_remove_chain
    fat_allocate-hang cnt clusterp zero_entry full =
        let pred : suc (suc cnt) - 1 ≡ suc cnt = omega arith in
        rw (
          ne→not_== (suc (suc cnt)) 0 (omega arith),
          create-full fs v room 0 (omega arith) full,
          pred,
          lt→ltb 0 fs.fat_length (omega arith),
          remove_loop-zero (fs.fat_length + 1) fs v.last_ge (omega arith) zero_entry,
          ne→not_== (suc cnt) 0 (omega arith),
        )

    module _ (r : ℕ) (free : IsFree fs r) (only : (d : ℕ) → IsFree fs d → d ≡ r)
        (last_used : fs.fat fs.last_clst ≢ 0) (above : r + 1 < fs.fat_length) where
      started-IsFull : IsFull (started fs r)
      started-IsFull d ge lt ne z = elim (ℕ_discrete d fs.last_clst) [
        | yes e ↦ last_used (ground arith)
        | no away ↦ ne (only d (record { ge = ge; lt = lt; free = ground arith; ne_last = away }))
      ]

      started-IsFat : IsFat (started fs r)
      started-IsFat = record { short = v.short; last_ge = free.ge; last_lt = free.lt }

      -- With cluster `r` alone free, not the table's last, and the cluster handed out last in use
      -- and not the table's last either, an allocation of two reports success for a chain of one.
      pub fat_allocate-short :
          (clusterp : ℕ)
          → Returns
              (λ (done, start, g). (done ≡ true) × (start ≡ r) × IsChain g r (r ∷ []))
              (fat_allocate fs 2 clusterp)
      unfolding fat_allocate allocate_loop
      fat_allocate-short clusterp =
          rw
            (
              create-only fs v room r free only,
              ne→not_== r 0 (omega (arith, free.ge)),
              create-full (started fs r) started-IsFat above r free.lt started-IsFull,
            )
            (refl, refl, (refl, free.ge, free.lt, refl, ground arith))

      -- With cluster `r` alone free, not the table's last, and the cluster handed out last in use,
      -- an allocation of three frees `r` again and still reports success, with `*clusterp` as it was.
      pub fat_allocate-undone :
          (clusterp : ℕ)
          → Returns
              (λ (done, start, g). (done ≡ true) × (start ≡ clusterp) × (g.fat r ≡ 0))
              (fat_allocate fs 3 clusterp)
      unfolding fat_allocate allocate_loop
      fat_allocate-undone clusterp =
          rw
            (
              create-only fs v room r free only,
              ne→not_== r 0 (omega (arith, free.ge)),
              create-full (started fs r) started-IsFat above r free.lt started-IsFull,
            )
            (Returns-bind (Freed (started fs r) (r ∷ [])) _ (fat_remove_chain (started fs r) r 0) _
              (fat_remove_chain-Freed (started fs r) r r [] v.short
                (refl, free.ge, free.lt, refl, ground arith))
              λ g f. (refl, refl, f.fat r ∙ ground arith))
