-- ===== src/Inode/Table/Sharing.antt =====
-- The operations on open inodes keep the invariant of the list, and share inodes by sector.
use pintos_filesys.Base.{
  ℕ, suc, ◌+◌, ◌-◌, ◌^◌, ◌≤◌, ◌<◌, ◌≡◌, ◌≢◌, inl, inr, refl, ◌∙◌, arith, Bool, true, false, Option,
  none, some, ok, hang, Returns, ◌==◌, List, [], ◌∷◌, has, ne→not_==, ==_refl, lt→ltb, ℕ_discrete,
}
use pintos_filesys.Fat.{fat_release, fat_remove_chain}
use pintos_filesys.Fat.Remove.{remove_loop-zero}
use pintos_filesys.Fat.Store.Rounds.{read-ok}
use pintos_filesys.Inode.{Inode, inode_magic, inode_of}
use pintos_filesys.Inode.Table.{
  System, put_inode, set_inode, deref, find_open, inode_reopen, open_new, open_found, inode_open,
  release, close_inode, inode_close,
}
use pintos_filesys.Inode.Table.Live.{
  IsTable, LiveFrom, LiveFrom-away, LiveFrom-suc, LiveFrom-set, LiveFrom-free, not-has-next,
  not-has-unlist, find_open-cases, find_open-away,
}

-- Address `p` is a listed inode `n` of the system.
pub record Listed (sys : System) (p : ℕ) (n : Inode) : Type 0 where
  pub at : sys.heap p ≡ some n
  pub listed : has p sys.open_inodes ≡ true

deref-ok : (sys : System) (p : ℕ) (n : Inode) → sys.heap p ≡ some n → deref sys p ≡ ok n
unfolding deref
deref-ok sys p n e = rw (e, deref)

-- What a listed inode meets.
counts :
    (h : ℕ → Option Inode) (next p : ℕ) (n : Inode) (ps : List ℕ)
    → LiveFrom h next ps
    → has p ps ≡ true
    → h p ≡ some n
    → (0 < n.open_cnt) × (n.deny_write_cnt ≤ n.open_cnt)
counts h next p n (q ∷ ps) (m, at, o, d, lt, out, alone, l) i e = elim (ℕ_discrete p q) [
  | yes same ↦ (ground arith, ground arith)
  | no ne ↦ counts h next p n ps l (ground arith) e
]
counts h next p n [] l i e = (cc, cc)

find_open-listed :
    (h : ℕ → Option Inode) (next q s : ℕ) (m : Inode) (ps : List ℕ)
    → LiveFrom h next ps
    → has q ps ≡ true
    → h q ≡ some m
    → m.sector ≡ s
    → find_open h s ps ≡ ok (some q)
unfolding find_open
find_open-listed h next q s m [] l i e sec = cc
find_open-listed h next q s m (p ∷ ps) (n, at, o, d, lt, out, alone, l) i e sec =
    elim (ℕ_discrete q p) [
      | yes same ↦ ground arith
      | no ne ↦ ground (arith, find_open-listed h next q s m ps l)
    ]

module _ (sys : System) (v : IsTable sys) where
  module _ (p : ℕ) (n : Inode) (l : Listed sys p n) where
    -- `inode_reopen` counts one more opener.
    reopen-IsTable :
        Returns
          (λ sys'. IsTable sys' × (sys'.heap p ≡ some (record n { open_cnt = n.open_cnt + 1 })))
          (inode_reopen p sys)
    unfolding inode_reopen
    reopen-IsTable =
        let c = counts sys.heap sys.next p n sys.open_inodes v l.listed l.at in
        rw (deref-ok sys p n l.at) (
          LiveFrom-set sys.heap sys.next p n _ sys.open_inodes l.at refl (omega arith)
              (omega (arith, c)) v,
          rw (==_refl p),
        )

    -- Opening the sector of an open inode returns that inode, counted once more, and needs no
    -- memory; the list of open inodes stays well formed.
    pub inode_open-shared :
        (memory : Bool)
        → (inode_open memory n.sector sys
            ≡ ok (some p, set_inode sys p (record n { open_cnt = n.open_cnt + 1 })))
          × IsTable (set_inode sys p (record n { open_cnt = n.open_cnt + 1 }))
    unfolding inode_open open_found inode_reopen
    inode_open-shared memory =
        let c = counts sys.heap sys.next p n sys.open_inodes v l.listed l.at in
        let found =
          find_open-listed sys.heap sys.next p n.sector n sys.open_inodes v l.listed l.at refl in
        (
          rw (found, deref-ok sys p n l.at),
          LiveFrom-set sys.heap sys.next p n (record n { open_cnt = n.open_cnt + 1 })
              sys.open_inodes l.at refl (omega arith) (omega (arith, c)) v,
        )

    -- A close that is not the last counts one opener less, when each opener that denied writes has
    -- allowed them again; the list stays well formed.
    pub inode_close-count :
        n.body.magic ≡ inode_magic
        → n.open_cnt ≢ 1
        → n.deny_write_cnt < n.open_cnt
        → (inode_close (some p) sys ≡ ok (set_inode sys p (record n { open_cnt = n.open_cnt - 1 })))
          × IsTable (set_inode sys p (record n { open_cnt = n.open_cnt - 1 }))
    unfolding inode_close close_inode
    inode_close-count magic more allowed =
        let c = counts sys.heap sys.next p n sys.open_inodes v l.listed l.at in
        let good : (n.body.magic == inode_magic) ≡ true = ground arith in
        (
          rw (deref-ok sys p n l.at, good, ne→not_== n.open_cnt 1 more),
          LiveFrom-set sys.heap sys.next p n (record n { open_cnt = n.open_cnt - 1 })
              sys.open_inodes l.at refl (omega (arith, c)) (omega (arith, c)) v,
        )

    -- The last close of an inode that is not removed frees it, takes it off the list and keeps the
    -- table and the disk; the list stays well formed.
    pub inode_close-last :
        n.body.magic ≡ inode_magic
        → n.open_cnt ≡ 1
        → n.removed ≡ false
        → Returns
            (λ sys'.
              IsTable sys'
              × (sys'.heap p ≡ none)
              × (has p sys'.open_inodes ≡ false)
              × (sys'.fs ≡ sys.fs)
              × (sys'.disk ≡ sys.disk))
            (inode_close (some p) sys)
    unfolding inode_close close_inode release
    inode_close-last magic last kept =
        let good : (n.body.magic == inode_magic) ≡ true = ground arith in
        let one : (n.open_cnt == 1) ≡ true = ground arith in
        rw (deref-ok sys p n l.at, good, one, kept)
          (
            LiveFrom-free sys.heap sys.next p sys.open_inodes v,
            rw (==_refl p),
            not-has-unlist sys.heap sys.next p sys.open_inodes v,
            refl,
            refl,
          )

    -- The last close of a removed file that has no cluster never returns when entry 0 of the table
    -- is 0: it releases the chain from cluster 0.
    pub inode_close-hang :
        n.body.magic ≡ inode_magic
        → n.open_cnt ≡ 1
        → n.removed ≡ true
        → n.body.start ≡ 0
        → 2 ≤ sys.fs.last_clst
        → 0 < sys.fs.fat_length
        → sys.fs.fat 0 ≡ 0
        → inode_close (some p) sys ≡ hang
    unfolding inode_close close_inode release fat_release fat_remove_chain
    inode_close-hang magic last removed empty ge lt zero_entry =
        let good : (n.body.magic == inode_magic) ≡ true = ground arith in
        let one : (n.open_cnt == 1) ≡ true = ground arith in
        rw (
          deref-ok sys p n l.at,
          good,
          one,
          removed,
          empty,
          lt→ltb 0 sys.fs.fat_length lt,
          remove_loop-zero (sys.fs.fat_length + 1) sys.fs ge lt zero_entry,
        )

  -- Opening a sector of the disk that no open inode has reads it into a new inode with one opener;
  -- without memory the call returns null and changes nothing. The list stays well formed.
  pub inode_open-fresh :
      (s : ℕ)
      → ((q : ℕ) (m : Inode) → Listed sys q m → m.sector ≢ s)
      → s < sys.disk.capacity
      → sys.disk.capacity ≤ 2 ^ 28
      → Returns
          (λ (r, sys').
            (r ≡ some sys.next)
            × IsTable sys'
            × (sys'.fs ≡ sys.fs)
            × (sys'.disk ≡ sys.disk)
            × Listed sys' sys.next (record {
              sector = s;
              open_cnt = 1;
              removed = false;
              deny_write_cnt = 0;
              body = inode_of (sys.disk.sectors s);
            }))
          (inode_open true s sys)
        × (inode_open false s sys ≡ ok (none, sys))
  unfolding inode_open open_found open_new
  inode_open-fresh s unlisted lt small =
      elim (find_open-cases sys.heap sys.next s sys.open_inodes v) [
        | inr (q, m, f, at, e, i) ↦ absurd (unlisted q m (record { at = at; listed = i }) e)
        | inl f ↦
            let out = not-has-next sys.heap sys.next sys.open_inodes v in
            rw (f, read-ok sys.disk s lt small)
              (
                (
                  refl,
                  table f out,
                  refl,
                  refl,
                  record { at = rw (==_refl sys.next); listed = rw (==_refl sys.next) },
                ),
                refl,
              )
      ]
    where
      new : Inode
      new = record {
        sector = s;
        open_cnt = 1;
        removed = false;
        deny_write_cnt = 0;
        body = inode_of (sys.disk.sectors s);
      }

      table :
          find_open sys.heap s sys.open_inodes ≡ ok none
          → has sys.next sys.open_inodes ≡ false
          → LiveFrom
              (put_inode sys.heap sys.next (some new))
              (suc sys.next)
              (sys.next ∷ sys.open_inodes)
      table f out =
          let h = put_inode sys.heap sys.next (some new) in
          (
            new,
            rw (==_refl sys.next),
            omega arith,
            omega arith,
            omega arith,
            out,
            find_open-away sys.heap sys.next s (some new) sys.open_inodes out ∙ f,
            LiveFrom-suc h sys.next sys.open_inodes
                (LiveFrom-away sys.heap sys.next sys.next (some new) sys.open_inodes v out),
          )
