-- ===== src/Swap/Start.antt =====
-- vm/anon.c, `vm_anon_init`.
use pintos_filesys.Base.{
  ℕ, ◌/◌, ◌^◌, ◌≤◌, ◌<◌, ◌≡◌, arith, ◌∙◌, true, false, Option, none, some, Returns, Returns-bind,
  sym,
}
use pintos_filesys.Disk.{Disk}
use pintos_filesys.Bitmap.{Bitmap, Elem, bitmap_create}
use pintos_filesys.Bitmap.Bits.{bit}
use pintos_filesys.Bitmap.Ranges.{RangeSet, bitmap_set_all-RangeSet}
use pintos_filesys.Swap.{Vm, vm_anon_init}
use pintos_filesys.Swap.Slots.{IsSwap}

-- A table whose slots are all free, with which the slots are in order as long as no page is swapped.
abbrev pub Ready : Disk → Option Bitmap → Type 0
Ready d none = ⊥
Ready d (some table) =
    ((j : ℕ) → j < table.bit_cnt → bit table j ≡ false)
    × (table.bit_cnt ≡ d.capacity / 8)
    × ((v : Vm)
        → v.swap_disk ≡ d
        → v.swap_table ≡ table
        → ((p : ℕ) → (v.pages p).swap_idx ≡ none)
        → IsSwap v)

-- With memory, on a disk that the driver can address, `vm_anon_init` returns a table with a free slot
-- for each eight sectors, with which the slots are in order.
pub vm_anon_init-Ready :
    (d : Disk) (bits : ℕ → Elem)
    → d.capacity ≤ 2 ^ 28
    → Returns (Ready d) (vm_anon_init (some d) (true, true) bits)
unfolding vm_anon_init bitmap_create
vm_anon_init-Ready d bits small =
    Returns-bind (RangeSet b 0 b.bit_cnt false) (Ready d) _ _
      (bitmap_set_all-RangeSet b false (omega (arith, small)))
      λ c set. (
        (λ j lt. free c set j lt),
        set.bit_cnt,
        λ v disk table unswapped. record {
          size = rw (table, set.bit_cnt) (omega (arith, small));
          fits = rw (table, disk, set.bit_cnt) (omega arith);
          small = rw disk small;
          within = λ p idx e. absurd (some-none idx (sym e ∙ unswapped p));
          taken = λ p idx e. absurd (some-none idx (sym e ∙ unswapped p));
          apart = λ p q idx e e'. absurd (some-none idx (sym e ∙ unswapped p));
        },
      )
  where
    b : Bitmap
    b = record { bit_cnt = d.capacity / 8; bits = bits }

    free : (c : Bitmap) → RangeSet b 0 b.bit_cnt false c → (j : ℕ) → j < c.bit_cnt → bit c j ≡ false
    free c set j lt =
        let within : j < b.bit_cnt = omega (arith, set.bit_cnt) in ground (arith, set.bits j)

    some-none : (i : ℕ) → some i ≡ none → ⊥
    some-none i e = cc
