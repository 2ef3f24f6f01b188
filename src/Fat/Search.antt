-- ===== src/Fat/Search.antt =====
-- `find_free_cluster`: the next-fit search, its wrap-around and its read past the end.
use pintos_filesys.Base.{
  ℕ, zero, suc, ◌+◌, ◌-◌, ◌≤◌, ◌<◌, ◌≡◌, ◌≢◌, ◌⊎◌, inl, inr, refl, arith, dec_lt, ℕ_discrete, ok,
  subst, sym, fault, Returns, ne→not_==, lt→ltb, le→not_ltb, wrap32_small,
}
use pintos_filesys.Fat.{FatFs, IsFat, fat_get, advance, find_free_loop, find_free_cluster}

-- Every cluster from 2 up but the one that was handed out last is in use.
abbrev pub IsFull : FatFs → Type 0
IsFull fs = (d : ℕ) → 2 ≤ d → d < fs.fat_length → d ≢ fs.last_clst → fs.fat d ≢ 0

pub record IsFree (fs : FatFs) (c : ℕ) : Type 0 where
  pub ge : 2 ≤ c
  pub lt : c < fs.fat_length
  pub free : fs.fat c ≡ 0
  pub ne_last : c ≢ fs.last_clst

abbrev pub Found : FatFs → ℕ → Type 0
Found fs r = ((r ≡ 0) × IsFull fs) ⊎ IsFree fs r

module _ (fs : FatFs) (k e : ℕ) {c : ℕ} where
  loop-end : c ≡ e → find_free_loop (suc k) fs e c ≡ ok 0
  unfolding find_free_loop
  loop-end h = ground arith

  loop-hit : c ≢ e → c < fs.fat_length → fs.fat c ≡ 0 → find_free_loop (suc k) fs e c ≡ ok c
  unfolding find_free_loop fat_get
  loop-hit ne lt h = rw (ne→not_== c e ne, lt→ltb c _ lt, h)

  loop-next :
      c ≢ e
      → c < fs.fat_length
      → fs.fat c ≢ 0
      → find_free_loop (suc k) fs e c ≡ find_free_loop k fs e (advance fs c)
  unfolding find_free_loop fat_get
  loop-next ne lt h = rw (ne→not_== c e ne, lt→ltb c _ lt, ne→not_== (fs.fat c) 0 h)

  loop-past : c ≢ e → fs.fat_length ≤ c → find_free_loop (suc k) fs e c ≡ fault
  unfolding find_free_loop fat_get
  loop-past ne le = rw (ne→not_== c e ne, le→not_ltb c _ le)

module _ (fs : FatFs) (v : IsFat fs) (c : ℕ) where
  advance-suc : c + 1 < fs.fat_length → advance fs c ≡ c + 1
  unfolding advance
  advance-suc h = ground (arith, v.short)

  advance-wrap : c + 1 ≡ fs.fat_length → advance fs c ≡ 2
  unfolding advance
  advance-wrap h = ground (arith, v.short)

  found : 2 ≤ c → c < fs.fat_length → c ≢ fs.last_clst → fs.fat c ≡ 0 → Found fs c
  found ge lt ne h = inr (record { ge = ge; lt = lt; free = h; ne_last = ne })

module _ (fs : FatFs) (v : IsFat fs) where
  -- From 2 up to the start of the search.
  low_loop :
      (k c : ℕ)
      → 2 ≤ c
      → c ≤ fs.last_clst
      → fs.last_clst - c < k
      → ((d : ℕ) → fs.last_clst < d → d < fs.fat_length → fs.fat d ≢ 0)
      → ((d : ℕ) → 2 ≤ d → d < c → fs.fat d ≢ 0)
      → Returns (Found fs) (find_free_loop k fs fs.last_clst c)
  low_loop zero c ge le fuel high low = elim fuel [ ]
  low_loop (suc k) c ge le fuel high low = elim (ℕ_discrete c fs.last_clst) [
    | yes e ↦ rw (loop-end fs k fs.last_clst e) (
        inl (
          refl,
          λ d p q ne. elim (dec_lt d c) [ yes lt ↦ low d p lt | no nlt ↦ high d (omega arith) q ],
        ))
    | no ne ↦ elim (ℕ_discrete (fs.fat c) 0) [
      | yes z ↦
          rw (loop-hit fs k fs.last_clst ne (omega (arith, v.last_lt)) z)
            (found fs v c ge (omega (arith, v.last_lt)) ne z)
      | no nz ↦
          rw
            (
              loop-next fs k fs.last_clst ne (omega (arith, v.last_lt)) nz,
              advance-suc fs v c (omega (arith, v.last_lt)),
            )
            (low_loop k (c + 1) (omega arith) (omega arith) (omega arith) high
              λ d p q. elim (ℕ_discrete d c) [ yes e ↦ rw e nz | no nd ↦ low d p (omega arith) ])
    ]
  ]

  -- From the cluster after the start of the search to the end of the table, then from 2.
  high_loop :
      (k c : ℕ)
      → fs.last_clst < c
      → c < fs.fat_length
      → fs.fat_length - c + fs.last_clst ≤ k + 1
      → ((d : ℕ) → fs.last_clst < d → d < c → fs.fat d ≢ 0)
      → Returns (Found fs) (find_free_loop k fs fs.last_clst c)
  high_loop zero c gt lt fuel high = absurd (omega (arith, v.last_ge))
  high_loop (suc k) c gt lt fuel high = elim (ℕ_discrete (fs.fat c) 0) [
    | yes z ↦
        rw (loop-hit fs k fs.last_clst (omega arith) lt z)
          (found fs v c (omega (arith, v.last_ge)) lt (omega arith) z)
    | no nz ↦ rw (loop-next fs k fs.last_clst (omega arith) lt nz) (
        let seen : (d : ℕ) → fs.last_clst < d → d < c + 1 → fs.fat d ≢ 0 =
          λ d p q. elim (ℕ_discrete d c) [ yes e ↦ rw e nz | no nd ↦ high d p (omega arith) ] in
        elim (ℕ_discrete (c + 1) fs.fat_length) [
          | yes e ↦ rw (advance-wrap fs v c e) (
              low_loop k 2 (omega arith) v.last_ge (omega (arith, v.last_ge))
                (λ d p q. seen d p (omega arith)) (λ d p q. absurd (omega arith)))
          | no ne ↦
              rw (advance-suc fs v c (omega arith))
                (high_loop k (c + 1) (omega arith) (omega arith) (omega arith) seen)
        ])
  ]

  -- The search ends and stays inside the table, unless it starts behind the table's last cluster.
  -- It returns a free cluster from 2 up, other than the one handed out last, and returns 0 only
  -- when every other cluster is in use.
  pub find_free_cluster-Found :
      fs.last_clst + 1 < fs.fat_length → Returns (Found fs) (find_free_cluster fs)
  unfolding find_free_cluster
  find_free_cluster-Found h = rw (wrap32_small (fs.last_clst + 1) (omega (arith, v.short))) (
      high_loop fs.fat_length (fs.last_clst + 1) (omega arith) h (omega arith)
        (λ d p q. absurd (omega arith)))

  -- Once the last cluster of the table has been handed out, the next search reads the entry behind
  -- the table.
  pub find_free_cluster-fault : fs.last_clst + 1 ≡ fs.fat_length → find_free_cluster fs ≡ fault
  unfolding find_free_cluster
  find_free_cluster-fault h =
      let one : fs.fat_length ≡ suc fs.last_clst = omega arith in
      rw (wrap32_small (fs.last_clst + 1) (omega (arith, v.short))) (
        subst (λ k. find_free_loop k fs fs.last_clst (fs.last_clst + 1) ≡ fault) (sym one)
          (loop-past fs fs.last_clst fs.last_clst (omega arith) (omega arith)))

  -- The cluster after the one handed out last is taken if it is free.
  pub find_free_cluster-next :
      fs.last_clst + 1 < fs.fat_length
      → fs.fat (fs.last_clst + 1) ≡ 0
      → find_free_cluster fs ≡ ok (fs.last_clst + 1)
  unfolding find_free_cluster
  find_free_cluster-next lt free =
      let some_round : fs.fat_length ≡ suc (fs.fat_length - 1) = omega arith in
      rw (wrap32_small (fs.last_clst + 1) (omega (arith, v.short))) (
        subst (λ k. find_free_loop k fs fs.last_clst (fs.last_clst + 1) ≡ ok (fs.last_clst + 1))
          (sym some_round) (loop-hit fs (fs.fat_length - 1) fs.last_clst (omega arith) lt free))
