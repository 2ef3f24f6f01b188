-- ===== src/Inode/Table/Live.antt =====
-- The invariant of the list of open inodes, and how it survives a change of the heap.
use pintos_filesys.Base.{
  ℕ, suc, ◌≤◌, ◌<◌, ◌≡◌, refl, sym, ap, ◌∙◌, arith, true, false, Option, none, some, ok, List, [],
  ◌∷◌, has, ℕ_discrete, ne→not_==, ==_refl, ◌⊎◌, inl, inr,
}
use pintos_filesys.Inode.{Inode}
use pintos_filesys.Inode.Table.{System, put_inode, find_open, unlist}

abbrev pub Heap : Type 0
Heap = ℕ → Option Inode

-- Every listed inode is allocated and open, denies no more writes than it has openers, and no other
-- listed inode has its sector.
abbrev pub LiveFrom : Heap → ℕ → List ℕ → Type 0
LiveFrom h next [] = Unit
LiveFrom h next (p ∷ ps) =
    (n : Inode) × (h p ≡ some n)
    × (0 < n.open_cnt)
    × (n.deny_write_cnt ≤ n.open_cnt)
    × (p < next)
    × (has p ps ≡ false)
    × (find_open h n.sector ps ≡ ok none)
    × LiveFrom h next ps

abbrev pub IsTable : System → Type 0
IsTable sys = LiveFrom sys.heap sys.next sys.open_inodes

-- The search depends on the listed inodes only.
pub find_open-away :
    (h : Heap) (q s : ℕ) (v : Option Inode) (ps : List ℕ)
    → has q ps ≡ false
    → find_open (put_inode h q v) s ps ≡ find_open h s ps
unfolding find_open
find_open-away h q s v [] out = refl
find_open-away h q s v (p ∷ ps) out = ground (arith, find_open-away h q s v ps)

-- It sees of an inode the sector only.
find_open-same :
    (h : Heap) (q s : ℕ) (m m' : Inode) (ps : List ℕ)
    → h q ≡ some m
    → m'.sector ≡ m.sector
    → find_open (put_inode h q (some m')) s ps ≡ find_open h s ps
unfolding find_open
find_open-same h q s m m' [] at same = refl
find_open-same h q s m m' (p ∷ ps) at same = ground (arith, find_open-same h q s m m' ps)

pub LiveFrom-away :
    (h : Heap) (next q : ℕ) (v : Option Inode) (ps : List ℕ)
    → LiveFrom h next ps
    → has q ps ≡ false
    → LiveFrom (put_inode h q v) next ps
LiveFrom-away h next q v [] l out = tt
LiveFrom-away h next q v (p ∷ ps) (n, at, open_, deny, lt, o, alone, l) out = (
  n,
  ground arith,
  open_,
  deny,
  lt,
  o,
  find_open-away h q n.sector v ps (ground arith) ∙ alone,
  LiveFrom-away h next q v ps l (ground arith),
)

pub LiveFrom-suc :
    (h : Heap) (next : ℕ) (ps : List ℕ) → LiveFrom h next ps → LiveFrom h (suc next) ps
LiveFrom-suc h next [] l = tt
LiveFrom-suc h next (p ∷ ps) (n, at, open_, deny, lt, o, alone, l) =
    (n, at, open_, deny, omega arith, o, alone, LiveFrom-suc h next ps l)

pub not-has-next : (h : Heap) (next : ℕ) (ps : List ℕ) → LiveFrom h next ps → has next ps ≡ false
not-has-next h next [] l = refl
not-has-next h next (p ∷ ps) l = ground (arith, not-has-next h next ps)

-- A listed inode may change its counts within the bounds.
pub LiveFrom-set :
    (h : Heap) (next q : ℕ) (m m' : Inode) (ps : List ℕ)
    → h q ≡ some m
    → m'.sector ≡ m.sector
    → 0 < m'.open_cnt
    → m'.deny_write_cnt ≤ m'.open_cnt
    → LiveFrom h next ps
    → LiveFrom (put_inode h q (some m')) next ps
LiveFrom-set h next q m m' [] at same open_ deny l = tt
LiveFrom-set h next q m m' (p ∷ ps) at same open_ deny (n, here, o1, d1, lt, out, alone, l) =
    let rest = LiveFrom-set h next q m m' ps at same open_ deny l in
    elim (ℕ_discrete p q) [
      | yes e ↦ (m', ground arith, open_, deny, lt, out, alone' e, rest)
      | no ne ↦ (
        n,
        rw (ne→not_== p q ne) here,
        o1,
        d1,
        lt,
        out,
        find_open-same h q n.sector m m' ps at same ∙ alone,
        rest,
      )
    ]
  where
    alone' : p ≡ q → find_open (put_inode h q (some m')) m'.sector ps ≡ ok none
    alone' e =
        let sector : n.sector ≡ m'.sector = ground arith in
        find_open-same h q m'.sector m m' ps at same
        ∙ ap (λ t. find_open h t ps) (sym sector)
        ∙ alone

has-unlist : (p q : ℕ) (ps : List ℕ) → has p ps ≡ false → has p (unlist q ps) ≡ false
unfolding unlist
has-unlist p q [] h = refl
has-unlist p q (r ∷ ps) h = ground (arith, has-unlist p q ps)

find_open-unlist :
    (h : Heap) (q s : ℕ) (ps : List ℕ)
    → find_open h s ps ≡ ok none
    → find_open h s (unlist q ps) ≡ ok none
unfolding find_open unlist
find_open-unlist h q s [] e = refl
find_open-unlist h q s (p ∷ ps) e = ground (arith, find_open-unlist h q s ps)

LiveFrom-unlist :
    (h : Heap) (next q : ℕ) (ps : List ℕ) → LiveFrom h next ps → LiveFrom h next (unlist q ps)
unfolding unlist
LiveFrom-unlist h next q [] l = tt
LiveFrom-unlist h next q (p ∷ ps) (n, here, o1, d1, lt, out, alone, l) = elim (ℕ_discrete p q) [
  | yes e ↦ rw (e, ==_refl q) l
  | no ne ↦ rw (ne→not_== p q ne) (
    n,
    here,
    o1,
    d1,
    lt,
    has-unlist p q ps out,
    find_open-unlist h q n.sector ps alone,
    LiveFrom-unlist h next q ps l,
  )
]

pub not-has-unlist :
    (h : Heap) (next q : ℕ) (ps : List ℕ) → LiveFrom h next ps → has q (unlist q ps) ≡ false
unfolding unlist
not-has-unlist h next q [] l = refl
not-has-unlist h next q (p ∷ ps) (n, here, o1, d1, lt, out, alone, l) =
    ground (arith, not-has-unlist h next q ps l)

-- A listed inode may be freed and taken from the list.
pub LiveFrom-free :
    (h : Heap) (next q : ℕ) (ps : List ℕ)
    → LiveFrom h next ps
    → LiveFrom (put_inode h q none) next (unlist q ps)
LiveFrom-free h next q ps l =
    LiveFrom-away h next q none (unlist q ps) (LiveFrom-unlist h next q ps l)
      (not-has-unlist h next q ps l)

-- The search finds a listed inode of the sector, or none is there.
pub find_open-cases :
    (h : Heap) (next s : ℕ) (ps : List ℕ)
    → LiveFrom h next ps
    → (find_open h s ps ≡ ok none)
      ⊎ ((p : ℕ) × (n : Inode) × (find_open h s ps ≡ ok (some p))
          × (h p ≡ some n)
          × (n.sector ≡ s)
          × (has p ps ≡ true))
unfolding find_open
find_open-cases h next s [] l = inl refl
find_open-cases h next s (p ∷ ps) (n, here, o1, d1, lt, out, alone, l) =
    elim (ℕ_discrete n.sector s) [
      | yes e ↦ inr (p, n, ground arith, here, e, ground arith)
      | no ne ↦ elim (find_open-cases h next s ps l) [
        | inl f ↦ inl (ground arith)
        | inr (q, m, f, at, e, i) ↦ inr (q, m, ground arith, at, e, ground arith)
      ]
    ]

-- A list of one open inode.
pub LiveFrom-one :
    (h : Heap) (next p : ℕ) (n : Inode)
    → h p ≡ some n
    → 0 < n.open_cnt
    → n.deny_write_cnt ≤ n.open_cnt
    → p < next
    → LiveFrom h next (p ∷ [])
unfolding find_open
LiveFrom-one h next p n at ge le lt = (n, at, ge, le, lt, refl, refl, tt)
