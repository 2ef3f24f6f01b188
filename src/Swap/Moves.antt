-- ===== src/Swap/Moves.antt =====
-- vm/anon.c, `anon_swap_out` and `anon_swap_in`, and one after the other.
use pintos_filesys.Base.{
  ℕ, ◌+◌, ◌*◌, ◌<◌, ◌≡◌, refl, arith, ap, ◌∙◌, true, false, none, some, ok, panic, ◌>>=◌, Returns,
  Returns-bind, Returns-eq, le→not_ltb, ne→not_==, ==_refl, inl, inr,
}
use pintos_filesys.Bitmap.{Bitmap, bitmap_scan_and_flip, bitmap_reset, bitmap_test, bitmap_error}
use pintos_filesys.Bitmap.Bits.{bit, IsSize, BitSet, bitmap_reset-BitSet}
use pintos_filesys.Bitmap.Ranges.{RangeSet}
use pintos_filesys.Bitmap.Scan.{Flipped, bitmap_scan_and_flip-Flipped}
use pintos_filesys.Swap.{
  Bytes, Vm, load_loop, save_loop, swap_to, swap_slot, anon_swap_in, anon_swap_out,
}
use pintos_filesys.Swap.Sectors.{
  Written, save_loop-Written, Written-slot, Written-other_slot, Loaded, load_loop-Loaded,
}
use pintos_filesys.Swap.Slots.{
  IsSwap, Stored, Kept, SwappedOut, SwappedIn, HasSlot, holder, IsSwap-take, IsSwap-release,
}

module _ (v : Vm) (p f : ℕ) (s : IsSwap v) where
  swap_to-SwappedOut :
      (idx : ℕ) (table : Bitmap)
      → idx < v.swap_table.bit_cnt
      → bit v.swap_table idx ≡ false
      → RangeSet v.swap_table idx 1 true table
      → Returns (SwappedOut v p f) (swap_to p f idx (record v { swap_table = table }))
  unfolding swap_to
  swap_to-SwappedOut idx table lt free t =
      Returns-bind (Written v.swap_disk (idx * 8 + 0) 8 0 (v.frames f).kva) (SwappedOut v p f)
        (save_loop 8 0 idx (v.frames f).kva v.swap_disk) _
        (save_loop-Written 8 0 idx (v.frames f).kva v.swap_disk (omega (arith, s.fits)) s.small)
        λ d w. record {
          succeeded = refl;
          swap =
              IsSwap-take v _ p idx (record { frame = none; swap_idx = some idx }) s lt free refl
                w.capacity t λ q i e. e;
          stored = record {
            slot = idx;
            swap_idx = rw (==_refl p) refl;
            bytes_at = Written-slot v.swap_disk d idx (v.frames f).kva w;
          };
          others = λ q bytes ne st. record {
            slot = st.slot;
            swap_idx = rw (ne→not_== q p ne) st.swap_idx;
            bytes_at = λ o small.
                Written-other_slot v.swap_disk d idx st.slot (v.frames f).kva w
                  (holder v s q st.slot idx st.swap_idx free) o small
                ∙ st.bytes_at o small;
          };
          unframed = rw (==_refl p) refl;
          unpaged = rw (==_refl f) refl;
        }

-- While the slots are in order, with a free slot, `anon_swap_out` on a page in a frame succeeds and
-- keeps them so: the page is stored with the bytes of its frame, what is stored for all other pages
-- is kept, and the page and the frame no longer have each other.
pub anon_swap_out-SwappedOut :
    (v : Vm) (p f : ℕ)
    → IsSwap v
    → HasSlot v
    → (v.pages p).frame ≡ some f
    → Returns (SwappedOut v p f) (anon_swap_out (some p) v)
unfolding anon_swap_out swap_slot
anon_swap_out-SwappedOut v p f s (j, lt, free) framed =
    Returns-bind (Flipped v.swap_table 0 1 false) (SwappedOut v p f)
      (bitmap_scan_and_flip v.swap_table 0 1 false) _
      (bitmap_scan_and_flip-Flipped v.swap_table 0 1 false s.size (omega arith))
      λ (idx, table) r. elim r [
        | inl (first, set) ↦
            rw
              (ne→not_== idx bitmap_error λ e. absurd (omega (arith, first.within, s.size)), framed)
              (swap_to-SwappedOut v p f s idx table (omega (arith, first.within))
                (first.group idx (omega arith) (omega arith)) set)
        | inr (full, same) ↦
            let (k, ge, below, held) = full.none j (omega arith) (omega arith) in
            let e : k ≡ j = omega (arith, ge, below) in
            absurd (ground (arith, held, free, ap (bit v.swap_table) e))
      ]

-- While the slots are in order, `anon_swap_in` of a page that is stored with some bytes succeeds
-- and keeps them so: the bytes are in the frame, the page is no longer on the swap disk, and what is
-- stored for all other pages is kept.
pub anon_swap_in-SwappedIn :
    (v : Vm) (p f : ℕ) (bytes : Bytes)
    → IsSwap v
    → Stored v p bytes
    → Returns (SwappedIn v p f bytes) (anon_swap_in p f v)
unfolding anon_swap_in
anon_swap_in-SwappedIn v p f bytes s st =
    rw (Returns, anon_swap_in, st.swap_idx)
      (Returns-bind (Loaded v.swap_disk st.slot 8 0 (v.frames f).kva) (SwappedIn v p f bytes)
        (load_loop 8 0 st.slot v.swap_disk (v.frames f).kva) _
        (load_loop-Loaded 8 0 st.slot (v.frames f).kva v.swap_disk (omega (arith, s.fits, within))
          s.small)
        λ kva l.
          Returns-bind (BitSet v.swap_table st.slot false) (SwappedIn v p f bytes)
            (bitmap_reset v.swap_table st.slot) _
            (bitmap_reset-BitSet v.swap_table st.slot s.size within)
            λ table t. record {
              succeeded = refl;
              swap =
                  IsSwap-release v _ p st.slot (record (v.pages p) { swap_idx = none }) s
                    st.swap_idx refl refl t λ q i e. e;
              loaded = λ o small. rw (==_refl f) (ground (arith, l o, st.bytes_at o small));
              back = rw (==_refl p) refl;
              others = λ q old ne h. record {
                slot = h.slot;
                swap_idx = rw (ne→not_== q p ne) h.swap_idx;
                bytes_at = h.bytes_at;
              };
            })
  where
    within : st.slot < v.swap_table.bit_cnt
    within = s.within p st.slot st.swap_idx

-- Without a free slot `anon_swap_out` does not return false: the kernel panics, since the assertion tests
-- a bit that the table does not have.
pub anon_swap_out-panic :
    (v : Vm) (p : ℕ)
    → IsSize v.swap_table
    → ((j : ℕ) → j < v.swap_table.bit_cnt → bit v.swap_table j ≡ true)
    → anon_swap_out (some p) v ≡ panic
unfolding anon_swap_out swap_slot bitmap_test
anon_swap_out-panic v p size full =
    let ((idx, table), e, r) =
      Returns-eq (Flipped v.swap_table 0 1 false) (bitmap_scan_and_flip v.swap_table 0 1 false)
        (bitmap_scan_and_flip-Flipped v.swap_table 0 1 false size (omega arith)) in
    rw e (elim r [
      | inl (first, set) ↦ absurd (
          ground (
            arith,
            full idx (omega (arith, first.within)),
            first.group idx (omega arith) (omega arith),
          ))
      | inr (nothing, same) ↦ no_slot idx table nothing.error same
    ])
  where
    no_slot :
        (idx : ℕ) (table : Bitmap)
        → idx ≡ bitmap_error
        → table ≡ v.swap_table
        → swap_slot p (idx, table) v ≡ panic
    no_slot idx table e same =
        rw (e, same, le→not_ltb bitmap_error v.swap_table.bit_cnt (omega (arith, size))) refl

-- What swapping a page out of one frame and into another gives.
pub record Reloaded (v : Vm) (p f g : ℕ) (v' : Vm) : Type 0 where
  pub swap : IsSwap v'
  pub bytes : (o : ℕ) → o < 4096 → (v'.frames g).kva o ≡ (v.frames f).kva o
  pub back : (v'.pages p).swap_idx ≡ none
  pub others : Kept v p v'

-- While the slots are in order, with a free slot, `anon_swap_out` on a page in a frame and then
-- `anon_swap_in` to any frame return: that frame has the bytes that the first one had, the page is
-- no longer on the swap disk, the slots are in order and what is stored for all other pages is kept.
pub anon_swap_in-anon_swap_out :
    (v : Vm) (p f g : ℕ)
    → IsSwap v
    → HasSlot v
    → (v.pages p).frame ≡ some f
    → Returns
        (Reloaded v p f g)
        (do (done, v1) ← anon_swap_out (some p) v; (again, v2) ← anon_swap_in p g v1; ok v2)
anon_swap_in-anon_swap_out v p f g s slot framed =
    Returns-bind (SwappedOut v p f) (Reloaded v p f g) (anon_swap_out (some p) v) _
      (anon_swap_out-SwappedOut v p f s slot framed)
      λ (done, v1) o.
        Returns-bind (SwappedIn v1 p g (v.frames f).kva) (Reloaded v p f g) (anon_swap_in p g v1) _
          (anon_swap_in-SwappedIn v1 p g (v.frames f).kva o.swap o.stored)
          λ (again, v2) i. record {
            swap = i.swap;
            bytes = i.loaded;
            back = i.back;
            others = λ q bytes ne h. i.others q bytes ne (o.others q bytes ne h);
          }
