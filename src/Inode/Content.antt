-- ===== src/Inode/Content.antt =====
-- The bytes of a file: the chain of its inode, and where `byte_to_sector` finds an offset.
use pintos_filesys.Base.{
  ℕ, zero, suc, ◌+◌, ◌*◌, ◌/◌, ◌%◌, ◌^◌, ◌≤◌, ◌<◌, ◌≡◌, refl, sym, ap, ◌∙◌, arith, true, ok, lt→ltb,
  le→not_ltb, ne→not_==, List, [], ◌∷◌, ◌++◌, length, get_or, has, dec_lt,
}
use mathlib.Core.Bool.{false≢true}
use pintos_filesys.Disk.{Disk}
use pintos_filesys.Fat.{FatFs, eo_chain, cluster_to_sector}
use pintos_filesys.Fat.Chain.{IsSeg, IsChain}
use pintos_filesys.Fat.Extend.{get-ok}
use pintos_filesys.Inode.{InodeDisk, sector_loop, byte_to_sector, no_sector, slice}

-- A file without clusters has start 0.
abbrev pub FileChain : FatFs → ℕ → List ℕ → Type 0
FileChain fs start [] = start ≡ 0
FileChain fs start (x ∷ xs) = IsChain fs start (x ∷ xs)

-- The inode `i` has the clusters `xs`, which cover its length and lie on the disk.
pub record IsFile (fs : FatFs) (d : Disk) (i : InodeDisk) (xs : List ℕ) : Type 0 where
  pub chain : FileChain fs i.start xs
  pub covers : i.length ≤ 512 * length xs
  pub short : fs.fat_length ≤ eo_chain
  pub on_disk : (c : ℕ) → has c xs ≡ true → cluster_to_sector fs c < d.capacity
  pub small : d.capacity ≤ 2 ^ 28
  pub unwrapped : fs.data_start + fs.fat_length ≤ 2 ^ 32

-- The sector and the byte at offset `p`.
abbrev pub sector_at : FatFs → List ℕ → ℕ → ℕ
sector_at fs xs p = cluster_to_sector fs (get_or xs (p / 512) 0)

abbrev pub content : FatFs → Disk → List ℕ → ℕ → ℕ
content fs d xs p = d.sectors (sector_at fs xs p) (p % 512)

module _ (fs : FatFs) (short : fs.fat_length ≤ eo_chain) where
  sector_loop-in :
      (k c x : ℕ) (xs : List ℕ)
      → IsChain fs c (x ∷ xs)
      → k < suc (length xs)
      → sector_loop fs k c ≡ ok (cluster_to_sector fs (get_or (x ∷ xs) k 0))
  unfolding sector_loop
  sector_loop-in zero c x xs (e, ge, lt, out, s) h = rw e
  sector_loop-in (suc k) c x [] s h = absurd (omega arith)
  sector_loop-in (suc k) c x (y ∷ ys) (e, ge, lt, out, s) h =
      rw (e, get-ok fs x lt, ne→not_== (fs.fat x) eo_chain (omega (arith, s)))
        (sector_loop-in k (fs.fat x) y ys s (omega arith))

  sector_loop-end :
      (k c x : ℕ) (xs : List ℕ)
      → IsChain fs c (x ∷ xs)
      → k ≡ suc (length xs)
      → sector_loop fs k c ≡ ok no_sector
  unfolding sector_loop
  sector_loop-end zero c x xs s h = absurd (omega arith)
  sector_loop-end (suc k) c x [] (e, ge, lt, out, s) h = rw (e, get-ok fs x lt, s)
  sector_loop-end (suc k) c x (y ∷ ys) (e, ge, lt, out, s) h =
      rw (e, get-ok fs x lt, ne→not_== (fs.fat x) eo_chain (omega (arith, s)))
        (sector_loop-end k (fs.fat x) y ys s (omega arith))

module _ (fs : FatFs) (i : InodeDisk) where
  -- At the end of a file that fills its clusters.
  pub byte_to_sector-end :
      (xs : List ℕ) (pos : ℕ)
      → FileChain fs i.start xs
      → fs.fat_length ≤ eo_chain
      → pos ≡ 512 * length xs
      → byte_to_sector fs i pos ≡ ok no_sector
  unfolding byte_to_sector
  byte_to_sector-end [] pos s short e = rw s (ground arith)
  byte_to_sector-end (x ∷ xs) pos s short e = elim (dec_lt i.length pos) [
    | yes lt ↦ rw (lt→ltb i.length pos lt)
    | no ge ↦
        rw
          (
            le→not_ltb i.length pos (omega arith),
            ne→not_== i.start 0 (omega (arith, s)),
            ne→not_== i.start eo_chain (omega (arith, s, short)),
          )
          (sector_loop-end fs short (pos / 512) i.start x xs s (omega arith))
  ]

  -- Behind the end.
  pub byte_to_sector-past : (pos : ℕ) → i.length < pos → byte_to_sector fs i pos ≡ ok no_sector
  unfolding byte_to_sector
  byte_to_sector-past pos h = rw (lt→ltb i.length pos h)

module _ (fs : FatFs) (d : Disk) (i : InodeDisk) where
  -- Inside the clusters of the file.
  pub byte_to_sector-in :
      (xs : List ℕ) (pos : ℕ)
      → IsFile fs d i xs
      → pos ≤ i.length
      → pos < 512 * length xs
      → byte_to_sector fs i pos ≡ ok (sector_at fs xs pos)
  unfolding byte_to_sector
  byte_to_sector-in [] pos f le lt = absurd (omega arith)
  byte_to_sector-in (x ∷ xs) pos f le lt =
      let s = f.chain in
      rw
        (
          le→not_ltb i.length pos le,
          ne→not_== i.start 0 (omega (arith, s)),
          ne→not_== i.start eo_chain (omega (arith, s, f.short)),
        )
        (sector_loop-in fs f.short (pos / 512) i.start x xs s (omega arith))

  -- At or behind the end of the file the search for a sector returns.
  pub byte_to_sector-outside :
      (xs : List ℕ) (pos : ℕ)
      → IsFile fs d i xs
      → i.length ≤ pos
      → (s : ℕ) × (byte_to_sector fs i pos ≡ ok s)
  byte_to_sector-outside xs pos f le = elim (dec_lt i.length pos) [
    | yes lt ↦ (no_sector, byte_to_sector-past fs i pos lt)
    | no nlt ↦ elim (dec_lt pos (512 * length xs)) [
      | yes inside ↦ (sector_at fs xs pos, byte_to_sector-in xs pos f (omega arith) inside)
      | no at_end ↦
          (no_sector, byte_to_sector-end fs i xs pos f.chain f.short (omega (arith, f.covers)))
    ]
  ]

pub has-get_or : (xs : List ℕ) (k : ℕ) → k < length xs → has (get_or xs k 0) xs ≡ true
has-get_or [] k lt = elim lt [ ]
has-get_or (x ∷ xs) zero lt = ground arith
has-get_or (x ∷ xs) (suc k) lt = ground (arith, has-get_or xs k)

pub slice_ext :
    (n : ℕ) (f g : ℕ → ℕ) (a b : ℕ)
    → ((j : ℕ) → j < n → f (a + j) ≡ g (b + j))
    → slice f a n ≡ slice g b n
slice_ext zero f g a b h = refl
slice_ext (suc n) f g a b h =
    let first : f a ≡ g b = ap f (omega arith) ∙ h 0 (omega arith) ∙ ap g (omega arith) in
    let rest : slice f (a + 1) n ≡ slice g (b + 1) n =
      slice_ext n f g (a + 1) (b + 1)
        λ j lt. ap f (omega arith) ∙ h (suc j) (omega arith) ∙ ap g (omega arith) in
    rw (first, rest)

pub slice_append :
    (m n : ℕ) (f : ℕ → ℕ) (a : ℕ) → slice f a m ++ slice f (a + m) n ≡ slice f a (m + n)
slice_append zero n f a = ap (λ b. slice f b n) (omega arith) ∙ ap (slice f a) (omega arith)
slice_append (suc m) n f a =
    let moved : a + suc m ≡ a + 1 + m = omega arith in
    let total : suc m + n ≡ suc (m + n) = omega arith in
    rw (moved, total, slice_append m n f (a + 1))

pub length-slice : (n : ℕ) (f : ℕ → ℕ) (a : ℕ) → length (slice f a n) ≡ n
length-slice zero f a = refl
length-slice (suc n) f a = ap suc (length-slice n f (a + 1))

module _ (len stop : ℕ) where
  get_or-lt :
      (g : ℕ → ℕ) (c : ℕ) (xs : List ℕ) (k : ℕ)
      → IsSeg g len stop c xs
      → k < length xs
      → (2 ≤ get_or xs k 0) × (get_or xs k 0 < len)
  get_or-lt g c [] k s lt = elim lt [ ]
  get_or-lt g c (x ∷ xs) zero s lt = (s.1, s.2)
  get_or-lt g c (x ∷ xs) (suc k) s lt = get_or-lt g (g x) xs k s.4 (omega arith)

  -- The clusters of a chain are distinct.
  get_or-injective :
      (g : ℕ → ℕ) (c : ℕ) (xs : List ℕ) (a b : ℕ)
      → IsSeg g len stop c xs
      → a < length xs
      → b < length xs
      → get_or xs a 0 ≡ get_or xs b 0
      → a ≡ b
  get_or-injective g c [] a b s la lb e = elim la [ ]
  get_or-injective g c (x ∷ xs) zero zero s la lb e = refl
  get_or-injective g c (x ∷ xs) zero (suc b) s la lb e =
      absurd (false≢true (sym s.3 ∙ ap (λ y. has y xs) e ∙ has-get_or xs b (omega arith)))
  get_or-injective g c (x ∷ xs) (suc a) zero s la lb e =
      absurd (false≢true (sym s.3 ∙ ap (λ y. has y xs) (sym e) ∙ has-get_or xs a (omega arith)))
  get_or-injective g c (x ∷ xs) (suc a) (suc b) s la lb e =
      ap suc (get_or-injective g (g x) xs a b s.4 (omega arith) (omega arith) e)

IsChain-of :
    (fs : FatFs) (c : ℕ) (xs : List ℕ) → FileChain fs c xs → 0 < length xs → IsChain fs c xs
IsChain-of fs c [] s lt = elim lt [ ]
IsChain-of fs c (x ∷ xs) s lt = s

module _ (fs : FatFs) (d : Disk) (i : InodeDisk) (xs : List ℕ) (f : IsFile fs d i xs) where
  sector_at-linear :
      (p : ℕ) → p < 512 * length xs → sector_at fs xs p + 1 ≡ fs.data_start + get_or xs (p / 512) 0
  unfolding cluster_to_sector
  sector_at-linear p lt =
      let s = IsChain-of fs i.start xs f.chain (omega arith) in
      omega (
        arith,
        get_or-lt fs.fat_length eo_chain fs.fat i.start xs (p / 512) s (omega arith),
        f.unwrapped,
      )

  -- Two offsets of a file are in one sector only if they are in the same block of 512 bytes.
  pub sector_at-injective :
      (p q : ℕ)
      → p < 512 * length xs
      → q < 512 * length xs
      → sector_at fs xs p ≡ sector_at fs xs q
      → p / 512 ≡ q / 512
  sector_at-injective p q lp lq e =
      get_or-injective fs.fat_length eo_chain fs.fat i.start xs (p / 512) (q / 512)
        (IsChain-of fs i.start xs f.chain (omega arith)) (omega arith) (omega arith)
        (omega (arith, sector_at-linear p lp, sector_at-linear q lq, e))
