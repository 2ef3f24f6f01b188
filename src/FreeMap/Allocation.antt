-- ===== src/FreeMap/Allocation.antt =====
-- filesys/free-map.c, `free_map_allocate` before the map has a file: what it hands out.
use pintos_filesys.Base.{
  ℕ, ◌+◌, ◌≤◌, ◌<◌, ◌≡◌, ◌⊎◌, inl, inr, refl, arith, sym, Bool, true, false, Option, none, some,
  Returns, Returns-bind, Returns-mono, wrap32, ne→not_==, subst, dec_le,
}
use pintos_filesys.Inode.Table.{System}
use pintos_filesys.Bitmap.{Bitmap, bitmap_error, bitmap_scan_and_flip}
use pintos_filesys.Bitmap.Bits.{IsSize}
use pintos_filesys.Bitmap.Ranges.{RangeSet}
use pintos_filesys.Bitmap.Scan.{FirstGroup, NoGroup, Flipped, bitmap_scan_and_flip-Flipped}
use pintos_filesys.FreeMap.{FreeMap, keep_sector, free_map_allocate}

-- What an allocation of `cnt` sectors makes of a map: the sectors from the first free range on are
-- marked and no others, or there is no free range and the map is as it was.
abbrev pub Allocated : FreeMap → (cnt : ℕ) → System → Option ℕ × FreeMap × System → Type 0
Allocated m cnt sys (none, m', sys') =
    NoGroup m.free_map 0 cnt false bitmap_error
    × (m'.free_map ≡ m.free_map)
    × (m'.free_map_file ≡ none)
    × (sys' ≡ sys)
Allocated m cnt sys (some sector, m', sys') =
    FirstGroup m.free_map 0 cnt false sector
    × RangeSet m.free_map sector cnt true m'.free_map
    × (m'.free_map_file ≡ none)
    × (sys' ≡ sys)

module _ (memory : Bool) (cnt : ℕ) (m : FreeMap) (sys : System) (size : IsSize m.free_map)
    (no_file : m.free_map_file ≡ none) where
  keep_sector-Allocated :
      (r : ℕ × Bitmap)
      → Flipped m.free_map 0 cnt false r
      → Returns (Allocated m cnt sys) (keep_sector memory cnt (wrap32 r.0) r.1 m sys)
  unfolding keep_sector
  keep_sector-Allocated (idx, b) (inl (g, w)) =
      let small : wrap32 idx ≡ idx = omega (arith, g.within, size) in
      rw (small, ne→not_== idx bitmap_error (λ e. absurd (omega (arith, g.within, size))), no_file)
        (g, w, refl, refl)
  keep_sector-Allocated (idx, b) (inr (n, same)) =
      rw n.error (record { error = refl; none = n.none }, same, no_file, refl)

  -- On a map without a file, of fewer bits than `bitmap_error`, `free_map_allocate` returns; it
  -- marks the first range of `cnt` free sectors and returns its start, or returns false, with the
  -- map as it was, when there is no such range.
  pub free_map_allocate-Allocated :
      Returns (Allocated m cnt sys) (free_map_allocate memory cnt m sys)
  unfolding free_map_allocate
  free_map_allocate-Allocated =
      Returns-bind (Flipped m.free_map 0 cnt false) (Allocated m cnt sys)
        (bitmap_scan_and_flip m.free_map 0 cnt false) _
        (bitmap_scan_and_flip-Flipped m.free_map 0 cnt false size (omega arith))
        keep_sector-Allocated

-- The two ranges have no sector in common.
abbrev pub Apart : (cnt1 cnt2 : ℕ) → Option ℕ → Option ℕ → Type 0
Apart cnt1 cnt2 none o = Unit
Apart cnt1 cnt2 (some s1) none = Unit
Apart cnt1 cnt2 (some s1) (some s2) = (s1 + cnt1 ≤ s2) ⊎ (s2 + cnt2 ≤ s1)

-- The range of the second allocation was free after the first.
Allocated-Apart :
    (cnt1 cnt2 : ℕ) (m : FreeMap) (sys : System) (r1 r2 : Option ℕ × FreeMap × System)
    → 0 < cnt1
    → 0 < cnt2
    → Allocated m cnt1 sys r1
    → Allocated r1.1 cnt2 r1.2 r2
    → Apart cnt1 cnt2 r1.0 r2.0
Allocated-Apart cnt1 cnt2 m sys (none, m1, sys1) r2 p1 p2 a1 a2 = tt
Allocated-Apart cnt1 cnt2 m sys (some s1, m1, sys1) (none, m2, sys2) p1 p2 a1 a2 = tt
Allocated-Apart cnt1 cnt2 m sys (some s1, m1, sys1) (some s2, m2, sys2) p1 p2 (g1, w1, f1, e1)
      (g2, w2, f2, e2) =
    elim (dec_le (s1 + cnt1) s2) [
      | yes before ↦ inl before
      | no n1 ↦ elim (dec_le (s2 + cnt2) s1) [
        | yes after ↦ inr after
        | no n2 ↦ elim (dec_le s1 s2) [
          | yes le ↦ absurd (clash s2 (omega arith) (omega arith) (omega arith) (omega arith))
          | no ge ↦ absurd (clash s1 (omega arith) (omega arith) (omega arith) (omega arith))
        ]
      ]
    ]
  where
    clash : (j : ℕ) → s1 ≤ j → j < s1 + cnt1 → s2 ≤ j → j < s2 + cnt2 → ⊥
    clash j a b c d = ground (arith, w1.bits j, g2.group j c d)

module _ (memory : Bool) (cnt1 cnt2 : ℕ) (m : FreeMap) (sys : System) (size : IsSize m.free_map)
    (no_file : m.free_map_file ≡ none) (p1 : 0 < cnt1) (p2 : 0 < cnt2) where
  kept-IsSize :
      (r1 : Option ℕ × FreeMap × System)
      → Allocated m cnt1 sys r1
      → IsSize r1.1.free_map × (r1.1.free_map_file ≡ none)
  kept-IsSize (none, m1, sys1) (g, kept, no_f, e) = (subst IsSize (sym kept) size, no_f)
  kept-IsSize (some s1, m1, sys1) (g, w, no_f, e) = (omega (arith, w.bit_cnt, size), no_f)

  -- Two allocations of some sectors one after the other, on a map without a file and of fewer bits
  -- than `bitmap_error`, return, and do not hand out a sector twice.
  pub free_map_allocate-Apart :
      Returns
        (λ r1. Returns (λ r2. Apart cnt1 cnt2 r1.0 r2.0) (free_map_allocate memory cnt2 r1.1 r1.2))
        (free_map_allocate memory cnt1 m sys)
  free_map_allocate-Apart =
      Returns-mono (Allocated m cnt1 sys) _ _
        (free_map_allocate-Allocated memory cnt1 m sys size no_file)
        λ r1 a1.
          Returns-mono (Allocated r1.1 cnt2 r1.2) _ _
            (free_map_allocate-Allocated memory cnt2 r1.1 r1.2 (kept-IsSize r1 a1).0
              (kept-IsSize r1 a1).1)
            λ r2 a2. Allocated-Apart cnt1 cnt2 m sys r1 r2 p1 p2 a1 a2
