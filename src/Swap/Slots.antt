-- ===== src/Swap/Slots.antt =====
-- vm/anon.c: what the swap disk stores for the pages.
use pintos_filesys.Base.{
  ℕ, ◌+◌, ◌*◌, ◌/◌, ◌%◌, ◌^◌, ◌≤◌, ◌<◌, ◌≡◌, ◌≢◌, arith, ap, sym, ◌∙◌, Bool, true, false, none,
  some, ℕ_discrete, ne→not_==, ==_refl, inl, inr, ◌⊎◌,
}
use pintos_filesys.Bitmap.Bits.{bit, IsSize, BitSet}
use pintos_filesys.Bitmap.Ranges.{RangeSet}
use pintos_filesys.Swap.{Bytes, Page, Vm, set_page}

-- The slots lie on the disk, a swapped page has a taken one, and no two pages have the same.
pub record IsSwap (v : Vm) : Type 0 where
  pub size : IsSize v.swap_table
  pub fits : v.swap_table.bit_cnt * 8 ≤ v.swap_disk.capacity
  pub small : v.swap_disk.capacity ≤ 2 ^ 28
  pub within : (p idx : ℕ) → (v.pages p).swap_idx ≡ some idx → idx < v.swap_table.bit_cnt
  pub taken : (p idx : ℕ) → (v.pages p).swap_idx ≡ some idx → bit v.swap_table idx ≡ true
  pub apart :
      (p q idx : ℕ) → (v.pages p).swap_idx ≡ some idx → (v.pages q).swap_idx ≡ some idx → p ≡ q

-- The page is swapped out with these bytes.
pub record Stored (v : Vm) (p : ℕ) (bytes : Bytes) : Type 0 where
  pub slot : ℕ
  pub swap_idx : (v.pages p).swap_idx ≡ some slot
  pub bytes_at : (o : ℕ) → o < 4096 → v.swap_disk.sectors (slot * 8 + o / 512) (o % 512) ≡ bytes o

-- All pages but `p` are stored as before.
abbrev pub Kept : Vm → ℕ → Vm → Type 0
Kept v p v' = (q : ℕ) (bytes : Bytes) → q ≢ p → Stored v q bytes → Stored v' q bytes

-- The page has left its frame for the swap disk.
pub record SwappedOut (v : Vm) (p f : ℕ) (r : Bool × Vm) : Type 0 where
  pub succeeded : r.0 ≡ true
  pub swap : IsSwap r.1
  pub stored : Stored r.1 p (v.frames f).kva
  pub others : Kept v p r.1
  pub unframed : (r.1.pages p).frame ≡ none
  pub unpaged : (r.1.frames f).page ≡ none

-- The bytes are in the frame and the page is no longer on the swap disk.
pub record SwappedIn (v : Vm) (p f : ℕ) (bytes : Bytes) (r : Bool × Vm) : Type 0 where
  pub succeeded : r.0 ≡ true
  pub swap : IsSwap r.1
  pub loaded : (o : ℕ) → o < 4096 → (r.1.frames f).kva o ≡ bytes o
  pub back : (r.1.pages p).swap_idx ≡ none
  pub others : Kept v p r.1

-- Some slot is free.
abbrev pub HasSlot : Vm → Type 0
HasSlot v = (j : ℕ) × (j < v.swap_table.bit_cnt) × (bit v.swap_table j ≡ false)

-- A swapped page after one page has changed.
swapped :
    (v : Vm) (p q idx : ℕ) (x : Page)
    → ((set_page v p x).pages q).swap_idx ≡ some idx
    → ((q ≡ p) × (x.swap_idx ≡ some idx)) ⊎ ((q ≢ p) × ((v.pages q).swap_idx ≡ some idx))
swapped v p q idx x e = elim (ℕ_discrete q p) [
  | yes same ↦ inl (same, ground (arith, e, same, ==_refl p))
  | no ne ↦ inr (ne, ground (arith, e, ne→not_== q p ne))
]

-- A slot that a page has is not a free one.
pub holder :
    (v : Vm)
    → IsSwap v
    → (q i idx : ℕ) → (v.pages q).swap_idx ≡ some i
    → bit v.swap_table idx ≡ false
    → i ≢ idx
holder v s q i idx at free e =
    absurd (ground (arith, s.taken q i at, free, ap (bit v.swap_table) e))

-- A page takes a free slot.
pub IsSwap-take :
    (v v' : Vm) (p idx : ℕ) (x : Page)
    → IsSwap v
    → idx < v.swap_table.bit_cnt
    → bit v.swap_table idx ≡ false
    → x.swap_idx ≡ some idx
    → v'.swap_disk.capacity ≡ v.swap_disk.capacity
    → RangeSet v.swap_table idx 1 true v'.swap_table
    → ((q i : ℕ) → (v'.pages q).swap_idx ≡ some i → ((set_page v p x).pages q).swap_idx ≡ some i)
    → IsSwap v'
IsSwap-take v v' p idx x s lt free now capacity t pages = record {
  size = omega (arith, t.bit_cnt, s.size);
  fits = omega (arith, t.bit_cnt, s.fits, capacity);
  small = omega (arith, s.small, capacity);
  within = λ q i e. elim (swapped v p q i x (pages q i e)) [
    | inl (same, at) ↦ omega (arith, t.bit_cnt, lt, slot_of i at)
    | inr (ne, at) ↦ omega (arith, t.bit_cnt, s.within q i at)
  ];
  taken = λ q i e. elim (swapped v p q i x (pages q i e)) [
    | inl (same, at) ↦ ground (arith, t.bits i, slot_of i at)
    | inr (ne, at) ↦ ground (arith, t.bits i, s.taken q i at)
  ];
  apart = λ q r i e e'. elim (swapped v p q i x (pages q i e)) [
    | inl (same, at) ↦ elim (swapped v p r i x (pages r i e')) [
      | inl (same', at') ↦ same ∙ sym same'
      | inr (ne', at') ↦ absurd (holder v s r i idx at' free (slot_of i at))
    ]
    | inr (ne, at) ↦ elim (swapped v p r i x (pages r i e')) [
      | inl (same', at') ↦ absurd (holder v s q i idx at free (slot_of i at'))
      | inr (ne', at') ↦ s.apart q r i at at'
    ]
  ];
}
  where
    slot_of : (i : ℕ) → x.swap_idx ≡ some i → i ≡ idx
    slot_of i at = cc

-- A page gives its slot back.
pub IsSwap-release :
    (v v' : Vm) (p idx : ℕ) (x : Page)
    → IsSwap v
    → (v.pages p).swap_idx ≡ some idx
    → x.swap_idx ≡ none
    → v'.swap_disk.capacity ≡ v.swap_disk.capacity
    → BitSet v.swap_table idx false v'.swap_table
    → ((q i : ℕ) → (v'.pages q).swap_idx ≡ some i → ((set_page v p x).pages q).swap_idx ≡ some i)
    → IsSwap v'
IsSwap-release v v' p idx x s held gone capacity t pages = record {
  size = omega (arith, t.bit_cnt, s.size);
  fits = omega (arith, t.bit_cnt, s.fits, capacity);
  small = omega (arith, s.small, capacity);
  within = λ q i e. omega (arith, t.bit_cnt, s.within q i (still q i e).1);
  taken = λ q i e. t.bits i ∙ rw (ne→not_== i idx (other q i e)) (s.taken q i (still q i e).1);
  apart = λ q r i e e'. s.apart q r i (still q i e).1 (still r i e').1;
}
  where
    still : (q i : ℕ) → (v'.pages q).swap_idx ≡ some i → (q ≢ p) × ((v.pages q).swap_idx ≡ some i)
    still q i e = elim (swapped v p q i x (pages q i e)) [
      | inl (same, at) ↦ absurd (cc)
      | inr r ↦ r
    ]

    other : (q i : ℕ) → (v'.pages q).swap_idx ≡ some i → i ≢ idx
    other q i e same = (still q i e).0 (s.apart q p idx ((still q i e).1 ∙ ap some same) held)
