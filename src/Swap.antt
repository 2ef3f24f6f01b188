-- ===== src/Swap.antt =====
-- vm/anon.c: anonymous pages and the swap disk. Pages and frames are addresses, and a frame has the
-- bytes of its `kva`; only offsets below the page size are meant. A negative `swap_idx` is `none`,
-- and the page tables are not modelled. The two loops have a round for each sector of a page.
pub mod Sectors
pub mod Slots
pub mod Moves
pub mod Start
mod Examples
use pintos_filesys.Base.{
  ℕ, zero, suc, ◌+◌, ◌*◌, ◌/◌, ◌%◌, Bool, true, false, not, ◌&&◌, Option, none, some, Outcome, ok,
  panic, fault, ◌>>=◌, ◌>>◌, assert, if◌then◌else◌, leb, ◌==◌,
}
use pintos_filesys.Disk.{Disk, Sector, disk_read, disk_write}
use pintos_filesys.Bitmap.{
  Bitmap, Elem, bitmap_create, bitmap_scan_and_flip, bitmap_test, bitmap_reset, bitmap_error,
}

-- `PGSIZE / DISK_SECTOR_SIZE`.
abbrev pub sectors_per_page : ℕ
sectors_per_page = 8

-- The bytes of a page.
abbrev pub Bytes : Type 0
Bytes = ℕ → ℕ

pub record Frame : Type 0 where
  pub kva : Bytes
  pub ref_cnt : ℕ
  pub page : Option ℕ

-- An anonymous page, with its `swap_idx`.
pub record Page : Type 0 where
  pub frame : Option ℕ
  pub swap_idx : Option ℕ

pub record Vm : Type 0 where
  pub swap_disk : Disk
  pub swap_table : Bitmap
  pub pages : ℕ → Page
  pub frames : ℕ → Frame

abbrev pub set_page : Vm → ℕ → Page → Vm
set_page v p x = record v { pages = λ a. if a == p then x else v.pages a }

abbrev pub set_frame : Vm → ℕ → Frame → Vm
set_frame v f x = record v { frames = λ a. if a == f then x else v.frames a }

-- The table for the disk that `disk_get` gives, `none` without memory.
unfoldable pub vm_anon_init :
    (disk : Option Disk) (memory : Bool × Bool) (bits : ℕ → Elem) → Outcome (Option Bitmap)
vm_anon_init none memory bits = panic
vm_anon_init (some d) memory bits = bitmap_create memory (d.capacity / sectors_per_page) bits

-- The bytes at the kernel address are cleared if no other page shares the page's frame.
unfoldable pub anon_initializer : (page : Option ℕ) (kva : Option ℕ) → Vm → Outcome (Bool × Vm)
anon_initializer none kva v = ok (false, v)
anon_initializer (some p) none v = ok (true, set_page v p (record (v.pages p) { swap_idx = none }))
anon_initializer (some p) (some f) v =
    let v1 = set_page v p (record (v.pages p) { swap_idx = none }) in
    elim (v.pages p).frame [
      | none ↦ fault
      | some g ↦
          if leb (v.frames g).ref_cnt 1
          then ok (true, set_frame v1 f (record (v.frames f) { kva = λ o. 0 }))
          else ok (true, v1)
    ]

-- `n` rounds of the loop from sector `i` of the page on.
unfoldable pub load_loop : (n i swap_idx : ℕ) → Disk → Bytes → Outcome Bytes
load_loop zero i swap_idx d kva = ok kva
load_loop (suc n) i swap_idx d kva = do
  sector ← disk_read d (swap_idx * 8 + i)
  load_loop n (i + 1) swap_idx d (λ o. if o / 512 == i then sector (o % 512) else kva o)

unfoldable pub save_loop : (n i swap_idx : ℕ) → Bytes → Disk → Outcome Disk
save_loop zero i swap_idx kva d = ok d
save_loop (suc n) i swap_idx kva d = do
  d' ← disk_write d (swap_idx * 8 + i) (λ o. kva (512 * i + o))
  save_loop n (i + 1) swap_idx kva d'

-- Into the frame with the kernel address.
unfoldable pub anon_swap_in : (page frame : ℕ) → Vm → Outcome (Bool × Vm)
anon_swap_in p f v = elim (v.pages p).swap_idx [
  | none ↦ ok (false, v)
  | some idx ↦ do
    kva ← load_loop sectors_per_page 0 idx v.swap_disk (v.frames f).kva
    table ← bitmap_reset v.swap_table idx
    ok (
      true,
      record (set_page (set_frame v f (record (v.frames f) { kva = kva })) p
          (record (v.pages p) { swap_idx = none })) { swap_table = table },
    )
]

-- To a slot of the swap disk.
unfoldable pub swap_to : (page frame swap_idx : ℕ) → Vm → Outcome (Bool × Vm)
swap_to p f idx v = do
  d ← save_loop sectors_per_page 0 idx (v.frames f).kva v.swap_disk
  ok (
    true,
    record (set_page (set_frame v f (record (v.frames f) { page = none })) p
        (record { frame = none; swap_idx = some idx })) { swap_disk = d },
  )

-- Without a free slot the assertion tests the bit with the number that stands for an error.
unfoldable pub swap_slot : (page : ℕ) (slot : ℕ × Bitmap) → Vm → Outcome (Bool × Vm)
swap_slot p (idx, table) v =
    if idx == bitmap_error
    then (do b ← bitmap_test table idx; assert (not b); ok (false, v))
    else elim (v.pages p).frame [
      | none ↦ fault
      | some f ↦ swap_to p f idx (record v { swap_table = table })
    ]

unfoldable pub anon_swap_out : (page : Option ℕ) → Vm → Outcome (Bool × Vm)
anon_swap_out none v = ok (false, v)
anon_swap_out (some p) v = do slot ← bitmap_scan_and_flip v.swap_table 0 1 false; swap_slot p slot v

-- The entry of the page table is cleared too.
unfoldable pub anon_destroy : ℕ → Vm → Outcome Vm
anon_destroy p v = elim (v.pages p).swap_idx [
  | none ↦ ok v
  | some idx ↦ do table ← bitmap_reset v.swap_table idx; ok (record v { swap_table = table })
]
