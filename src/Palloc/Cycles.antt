-- ===== src/Palloc/Cycles.antt =====
-- threads/palloc.c: two calls in a row, for pages that are given back or for further ones.
use pintos_filesys.Base.{
  ℕ, ◌+◌, ◌*◌, ◌≤◌, ◌<◌, ◌≡◌, ◌⊎◌, refl, arith, ap, sym, ◌∙◌, Bool, true, false, not, ◌>>=◌,
  Returns, Returns-bind, Returns-mono, dec_le, Bool-cases, inl, inr,
}
use pintos_filesys.Bitmap.{Bitmap}
use pintos_filesys.Bitmap.Bits.{bit}
use pintos_filesys.Bitmap.Ranges.{RangeSet, inside}
use pintos_filesys.Bitmap.Scan.{Group}
use pintos_filesys.Palloc.{Flags, Memory, pool, palloc_get_multiple, palloc_free_multiple}
use pintos_filesys.Palloc.Pools.{IsMemory, SamePages-IsMemory}
use pintos_filesys.Palloc.Pages.{Allocated, Got, palloc_get_multiple-Got}
use pintos_filesys.Palloc.Freeing.{Freed, palloc_free_multiple-Freed}

-- The same pages are in use.
abbrev pub SameUse : Memory → Memory → Type 0
SameUse m m' = (user : Bool) (j : ℕ) → bit (pool user m').used_map j ≡ bit (pool user m).used_map j

each : (user : Bool) (P : Bool → Type 0) → P user → P (not user) → (u : Bool) → P u
each true P a b true = a
each true P a b false = b
each false P a b true = b
each false P a b false = a

-- Taking pages and giving them back.
Allocated-Freed :
    (user clear : Bool) (cnt pages : ℕ) (m m' : Memory)
    → IsMemory m
    → 0 < cnt
    → Allocated user clear cnt m pages m'
    → Returns (SameUse m) (palloc_free_multiple pages cnt m')
Allocated-Freed user clear cnt pages m m' v some t =
    rw (t.at ∙ sym (ap (λ b. b + 4096 * t.idx) (t.same_pages.base user))) (
      Returns-mono (Freed user t.idx cnt m') (SameUse m) _
        (palloc_free_multiple-Freed user t.idx cnt m'
          (record {
            memory = SamePages-IsMemory m m' v t.same_pages;
            some_page = some;
            within = omega (arith, t.first.within, t.same_pages.bit_cnt user);
          })
          λ j ge lt. ground (arith, t.taken.bits j))
        λ w f.
          each user _
            (λ j. elim (Bool-cases (inside t.idx cnt j)) [
              | inl hit ↦
                  f.freed.bits j
                  ∙ rw hit (sym (t.first.group j (ground (arith, hit)) (ground (arith, hit))))
              | inr miss ↦ f.freed.bits j ∙ rw miss (t.taken.bits j ∙ rw miss refl)
            ])
            λ j. ap (λ p. bit p.used_map j) (f.other ∙ t.other))

-- On sound pools, without the flag that asks for a panic, taking some pages and giving them back
-- returns, and then the same pages are in use as before, also when there were none to take.
pub palloc_free_multiple-get :
    (flags : Flags) (cnt : ℕ) (m : Memory)
    → IsMemory m
    → 0 < cnt
    → flags.pal_assert ≡ false
    → Returns
        (SameUse m)
        (do (pages, m') ← palloc_get_multiple flags cnt m; palloc_free_multiple pages cnt m')
unfolding palloc_free_multiple
palloc_free_multiple-get flags cnt m v some quiet =
    Returns-bind (Got flags.pal_user flags.pal_zero cnt m) (SameUse m)
      (palloc_get_multiple flags cnt m) _ (palloc_get_multiple-Got flags cnt m v quiet)
      λ (pages, m') r. elim r [
        | inl t ↦ Allocated-Freed flags.pal_user flags.pal_zero cnt pages m m' v some t
        | inr (null, same, full) ↦ rw (null, same) λ user j. refl
      ]

-- Null, or pages that have no address in common.
abbrev pub Apart : (n k a b : ℕ) → Type 0
Apart n k a b = (a ≡ 0) ⊎ ((b ≡ 0) ⊎ ((a + 4096 * n ≤ b) ⊎ (b + 4096 * k ≤ a)))

-- Runs in one bitmap, where the first is taken and the second still free.
runs_apart :
    (b c : Bitmap) (i n j k : ℕ)
    → 0 < n
    → 0 < k
    → RangeSet b i n true c
    → Group c j k false
    → (i + n ≤ j) ⊎ (j + k ≤ i)
runs_apart b c i n j k some more set free = elim (dec_le (i + n) j) [
  | yes before ↦ inl before
  | no late ↦ elim (dec_le (j + k) i) [
    | yes behind ↦ inr behind
    | no early ↦ elim (dec_le i j) [
      | yes le ↦ absurd (ground (arith, set.bits j, free j (omega arith) (omega arith)))
      | no gt ↦ absurd (ground (arith, set.bits i, free i (omega arith) (omega arith)))
    ]
  ]
]

Allocated-same_pool :
    (user clear clear' : Bool) (n k a b : ℕ) (m m1 m2 : Memory)
    → 0 < n
    → 0 < k
    → Allocated user clear n m a m1
    → Allocated user clear' k m1 b m2
    → Apart n k a b
Allocated-same_pool user clear clear' n k a b m m1 m2 some more s t =
    elim (runs_apart (pool user m).used_map (pool user m1).used_map s.idx n t.idx k some more
      s.taken t.first.group) [
        | inl before ↦ inr (inr (inl (omega (arith, s.at, t.at, s.same_pages.base user))))
        | inr behind ↦ inr (inr (inr (omega (arith, s.at, t.at, s.same_pages.base user))))
      ]

Allocated-Apart :
    (user clear user' clear' : Bool) (n k a b : ℕ) (m m1 m2 : Memory)
    → IsMemory m
    → 0 < n
    → 0 < k
    → Allocated user clear n m a m1
    → Allocated user' clear' k m1 b m2
    → Apart n k a b
Allocated-Apart true clear true clear' n k a b m m1 m2 v some more s t =
    Allocated-same_pool true clear clear' n k a b m m1 m2 some more s t
Allocated-Apart false clear false clear' n k a b m m1 m2 v some more s t =
    Allocated-same_pool false clear clear' n k a b m m1 m2 some more s t
Allocated-Apart false clear true clear' n k a b m m1 m2 v some more s t =
    inr (inr (inl (omega (arith, v.apart, s.at, t.at, s.first.within, s.same_pages.base true))))
Allocated-Apart true clear false clear' n k a b m m1 m2 v some more s t = inr (
    inr (
      inr (
        omega (
          arith,
          v.apart,
          s.at,
          t.at,
          t.first.within,
          s.same_pages.base false,
          s.same_pages.bit_cnt false,
        ))))

-- On sound pools, without the flag that asks for a panic, two calls of `palloc_get_multiple` for some pages
-- return, and pages that both of them give have no address in common, whichever pools they are from.
pub palloc_get_multiple-Apart :
    (f g : Flags) (n k : ℕ) (m : Memory)
    → IsMemory m
    → 0 < n
    → 0 < k
    → f.pal_assert ≡ false
    → g.pal_assert ≡ false
    → Returns
        (λ r1. Returns (λ r2. Apart n k r1.0 r2.0) (palloc_get_multiple g k r1.1))
        (palloc_get_multiple f n m)
palloc_get_multiple-Apart f g n k m v some more quiet quiet' =
    Returns-mono (Got f.pal_user f.pal_zero n m) _ (palloc_get_multiple f n m)
      (palloc_get_multiple-Got f n m v quiet)
      λ (a, m1) r. elim r [
        | inl s ↦
            Returns-mono (Got g.pal_user g.pal_zero k m1) _ (palloc_get_multiple g k m1)
              (palloc_get_multiple-Got g k m1 (SamePages-IsMemory m m1 v s.same_pages) quiet')
              λ (b, m2) q. elim q [
                | inl t ↦
                    Allocated-Apart f.pal_user f.pal_zero g.pal_user g.pal_zero n k a b m m1 m2 v
                      some more s t
                | inr (null, same, full) ↦ inr (inl null)
              ]
        | inr (null, same, full) ↦
            Returns-mono (Got g.pal_user g.pal_zero k m1) _ (palloc_get_multiple g k m1)
              (palloc_get_multiple-Got g k m1 (rw same v) quiet') λ (b, m2) q. inl null
      ]
